-- ===== src/Lab3/Multiplexer/Transfer.antt =====
-- No connection of the multiplexer ever has a file transfer: `handleNewConnection` sets none, and nothing else
-- does.
use nssa_ds.Base.{
  ℕ, ◌≡◌, refl, inl, inr, Bool, true, false, not, ◌||◌, Bool-cases, List, [], ◌∷◌, Option, none,
  some, String, length, leb, ◌==◌, if◌then◌else◌,
}
use nssa_ds.Base.Map.{string_key}
use nssa_ds.Base.Entries.{AllValues, insert-AllValues, update-AllValues, erase-AllValues}
use nssa_ds.Base.Text.{Text}
use nssa_ds.Lab3.Multiplexer.{
  ClientConnection, Multiplexer, transfers, handle_client_write, handle_new_connection,
  fresh_client, insert_client, remove_connection,
}
use nssa_ds.Lab3.Multiplexer.Loop.{
  Ready, Selected, select_error, interrupted, nothing_ready, ready, handle_client_read, written,
  stored, process_client, process_clients, process_ready, is_silent, drop_silent,
  check_ping_timeouts, process_select_loop, run_loop,
}

-- A client without a transfer: that it can be written to changes nothing.
pub record IsIdle (client : ClientConnection) : Type 0 where
  pub no_transfer : client.file_transfer ≡ none
  pub unmoved : handle_client_write client ≡ client

Idle_from : (client : ClientConnection) → client.file_transfer ≡ none → IsIdle client
unfolding handle_client_write
Idle_from client e = record {
  no_transfer = e;
  unmoved = let off : transfers client.file_transfer ≡ false = rw e refl in rw off refl;
}

abbrev pub AllIdle : Multiplexer → Type 0
AllIdle sm = AllValues IsIdle sm.clients

abbrev After : Option ClientConnection → Type 0
After none = Unit {0}
After (some client) = IsIdle client

read-After :
    (client : ClientConnection) (now : ℕ) (o : Option Text)
    → IsIdle client
    → After (handle_client_read client now o)
read-After client now none h = tt
read-After client now (some bytes) h = Idle_from (record client { last_ping = now }) h.no_transfer

written-After : (writing : Bool) (o : Option ClientConnection) → After o → After (written writing o)
written-After false o h = h
written-After true none h = tt
written-After true (some client) h = rw (h.unmoved) h

stored-AllIdle :
    (sm : Multiplexer) (id : String) (o : Option ClientConnection)
    → After o
    → AllIdle sm
    → AllIdle (stored sm id o)
unfolding remove_connection
stored-AllIdle sm id none h all = erase-AllValues IsIdle id sm.clients all
stored-AllIdle sm id (some client) h all = update-AllValues IsIdle id client sm.clients h all

process_client-AllIdle :
    (sm : Multiplexer) (r : Ready) (now : ℕ) (id : String) (client : ClientConnection)
    → IsIdle client
    → AllIdle sm
    → AllIdle (process_client sm r now id client).0
unfolding process_client
process_client-AllIdle sm r now id client h all =
    elim (Bool-cases (not client.is_active || (client.fd == 0))) [
      | inl skipped ↦ rw skipped all
      | inr served ↦ rw served (
          stored-AllIdle sm id _
            (written-After (r.writable client.fd) _ (elim (Bool-cases (r.readable client.fd)) [
              | inl reading ↦ rw reading (read-After client now (r.reads id) h)
              | inr quiet ↦ rw quiet h
            ]))
            all)
    ]

process_clients-AllIdle :
    (m : List (String × ClientConnection)) (r : Ready) (now : ℕ) (sm : Multiplexer)
    → AllValues IsIdle m
    → AllIdle sm
    → AllIdle (process_clients sm r now m).0
unfolding process_clients
process_clients-AllIdle [] r now sm each all = all
process_clients-AllIdle ((id, client) ∷ m) r now sm each all =
    process_clients-AllIdle m r now (process_client sm r now id client).0 each.1
      (process_client-AllIdle sm r now id client each.0 all)

inserted-AllIdle :
    (sm : Multiplexer) (id : String) (now : ℕ) (fd : Option ℕ)
    → AllIdle sm
    → AllIdle (insert_client sm id now fd).0
inserted-AllIdle sm id now none all = all
inserted-AllIdle sm id now (some fd) all =
    let fresh = fresh_client sm.config now fd in
    insert-AllValues IsIdle id fresh sm.clients (Idle_from fresh refl) all

handle_new_connection-AllIdle :
    (sm : Multiplexer) (accepted : Bool) (id : String) (now : ℕ) (fd : Option ℕ)
    → AllIdle sm
    → AllIdle (handle_new_connection sm accepted id now fd).0
unfolding handle_new_connection
handle_new_connection-AllIdle sm false id now fd all = all
handle_new_connection-AllIdle sm true id now fd all =
    elim (Bool-cases (leb sm.config.max_clients (length sm.clients))) [
      | inl full ↦ rw full all
      | inr room ↦ rw room (inserted-AllIdle sm id now fd all)
    ]

choice-AllIdle :
    (b : Bool) (sm sm' : Multiplexer) → AllIdle sm → AllIdle sm' → AllIdle (if b then sm else sm')
choice-AllIdle true sm sm' all all' = all
choice-AllIdle false sm sm' all all' = all'

drop_silent-AllIdle :
    (m : List (String × ClientConnection)) (now : ℕ) (sm : Multiplexer)
    → AllIdle sm
    → AllIdle (drop_silent sm now m)
unfolding drop_silent remove_connection
drop_silent-AllIdle [] now sm all = all
drop_silent-AllIdle ((id, client) ∷ m) now sm all = drop_silent-AllIdle m now _ (
    choice-AllIdle (is_silent sm.config now client) (remove_connection sm id) sm
      (erase-AllValues IsIdle id sm.clients all) all)

process_select_loop-AllIdle :
    (sm : Multiplexer) (selected : Selected) (now : ℕ)
    → AllIdle sm
    → AllIdle (process_select_loop sm selected now).0
unfolding process_select_loop check_ping_timeouts process_ready
process_select_loop-AllIdle sm select_error now all = all
process_select_loop-AllIdle sm interrupted now all = all
process_select_loop-AllIdle sm nothing_ready now all = drop_silent-AllIdle sm.clients now sm all
process_select_loop-AllIdle sm (ready r) now all =
    let all1 =
      choice-AllIdle r.listener_ready _ sm
        (handle_new_connection-AllIdle sm r.accepted r.client_id now r.new_fd all) all in
    process_clients-AllIdle _ r now _ all1 all1

-- No client ever has a file transfer: after any rounds of the select loop, whatever select brings and whichever
-- accepts and reads fail, every client is without one, and a write-ready client is left as it is. At first no client
-- has a transfer.
pub run_loop-AllIdle :
    (rounds : List (ℕ × Selected)) (sm : Multiplexer) → AllIdle sm → AllIdle (run_loop sm rounds).0
unfolding run_loop
run_loop-AllIdle [] sm all = all
run_loop-AllIdle ((now, selected) ∷ rounds) sm all =
    run_loop-AllIdle rounds _ (process_select_loop-AllIdle sm selected now all)
