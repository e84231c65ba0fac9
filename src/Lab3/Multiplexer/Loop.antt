-- ===== src/Lab3/Multiplexer/Loop.antt =====
-- lab3/internal/infrastructure/network/select_multiplexer.go: one round of the select loop, and its
-- rounds. A range over the clients goes in the order of the list.
use nssa_ds.Base.{
  ℕ, ◌+◌, ◌-◌, ◌%◌, ◌^◌, Bool, true, false, not, ◌||◌, List, [], ◌∷◌, ◌++◌, Option, none, some,
  String, ltb, ◌==◌, if◌then◌else◌,
}
use nssa_ds.Base.Map.{string_key, update}
use nssa_ds.Base.Text.{Text}
use nssa_ds.Lab3.Multiplexer.{
  w64, ServerConfig, Multiplexer, ClientConnection, handle_new_connection, remove_connection,
  handle_client_write, trim_string,
}

-- What a round meets: `none` is a read that fails.
pub record Ready : Type 0 where
  pub listener_ready : Bool
  pub accepted : Bool
  pub client_id : String
  pub new_fd : Option ℕ
  pub readable : ℕ → Bool
  pub writable : ℕ → Bool
  pub reads : String → Option Text

pub data Selected : Type 0 where
  select_error interrupted nothing_ready : Selected
  ready : Ready → Selected

-- The goroutines that a round starts.
abbrev pub Commands : Type 0
Commands = List (String × Text)

abbrev pub command_of : String → Text → Commands
command_of client_id [] = []
command_of client_id (c ∷ cs) = (client_id, c ∷ cs) ∷ []

unfoldable pub process_client_data : String → Text → Commands
process_client_data client_id bytes = command_of client_id (trim_string bytes)

-- The client after `handleClientRead`, or `none` for its error.
abbrev pub handle_client_read : ClientConnection → ℕ → Option Text → Option ClientConnection
handle_client_read client now none = none
handle_client_read client now (some bytes) = some (record client { last_ping = now })

abbrev pub said : String → Option Text → Commands
said client_id none = []
said client_id (some bytes) = process_client_data client_id bytes

abbrev pub stored : Multiplexer → String → Option ClientConnection → Multiplexer
stored sm client_id none = remove_connection sm client_id
stored sm client_id (some client) = record sm { clients = update client_id client sm.clients }

abbrev pub written : Bool → Option ClientConnection → Option ClientConnection
written false o = o
written true none = none
written true (some client) = some (handle_client_write client)

-- The body of the loop of `processReadyFDs`.
unfoldable pub process_client :
    Multiplexer → Ready → ℕ → String → ClientConnection → Multiplexer × Commands
process_client sm r now client_id client =
    let reading = r.readable client.fd in
    let after =
      if reading then handle_client_read client now (r.reads client_id) else some client in
    if not client.is_active || (client.fd == 0) then (sm, []) else (
      stored sm client_id (written (r.writable client.fd) after),
      (if reading then said client_id (r.reads client_id) else []),
    )

unfoldable pub process_clients :
    Multiplexer → Ready → ℕ → List (String × ClientConnection) → Multiplexer × Commands
process_clients sm r now [] = (sm, [])
process_clients sm r now ((client_id, client) ∷ rest) =
    let (sm1, started) = process_client sm r now client_id client in
    let (sm2, others) = process_clients sm1 r now rest in (sm2, started ++ others)

unfoldable pub process_ready : Multiplexer → Ready → ℕ → Multiplexer × Commands
process_ready sm r now =
    let sm1 =
      if r.listener_ready
      then (handle_new_connection sm r.accepted r.client_id now r.new_fd).0
      else sm in
    process_clients sm1 r now sm1.clients

-- `now.Sub(client.LastPing) > sm.config.PingTimeout`
unfoldable pub is_silent : ServerConfig → ℕ → ClientConnection → Bool
is_silent config now client =
    ltb ((config.ping_timeout + 2 ^ 63) % w64)
      (((now + w64 - client.last_ping) % w64 + 2 ^ 63) % w64)

-- The loop of `checkPingTimeouts` over the copy of the clients.
unfoldable pub drop_silent : Multiplexer → ℕ → List (String × ClientConnection) → Multiplexer
drop_silent sm now [] = sm
drop_silent sm now ((client_id, client) ∷ rest) =
    drop_silent (if is_silent sm.config now client then remove_connection sm client_id else sm) now
      rest

unfoldable pub check_ping_timeouts : Multiplexer → ℕ → Multiplexer
check_ping_timeouts sm now = drop_silent sm now sm.clients

unfoldable pub process_select_loop : Multiplexer → Selected → ℕ → Multiplexer × Commands
process_select_loop sm select_error now = (sm, [])
process_select_loop sm interrupted now = (sm, [])
process_select_loop sm nothing_ready now = (check_ping_timeouts sm now, [])
process_select_loop sm (ready r) now = process_ready sm r now

-- The rounds of `Start`, each with the time and what select brings.
unfoldable pub run_loop : Multiplexer → List (ℕ × Selected) → Multiplexer × Commands
run_loop sm [] = (sm, [])
run_loop sm ((now, selected) ∷ rounds) =
    let (sm1, started) = process_select_loop sm selected now in
    let (sm2, others) = run_loop sm1 rounds in (sm2, started ++ others)
