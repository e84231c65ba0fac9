-- ===== src/Lab3/Multiplexer/Limits.antt =====
-- What the select loop keeps: the limit on the clients, and the sizes of their chunks.
use nssa_ds.Base.{
  ℕ, ◌*◌, ◌^◌, ◌≤◌, ◌<◌, ◌≡◌, refl, Bool, true, false, not, ◌||◌, List, [], ◌∷◌, Option, none, some,
  String, arith, length, leb, ◌==◌, if◌then◌else◌, Bool-cases, inl, inr, All,
}
use nssa_ds.Base.Map.{
  string_key, insert, update, erase, length-update, length-erase_le, length-insert_le,
}
use nssa_ds.Base.Text.{Text}
use nssa_ds.Lab3.Multiplexer.{
  min_chunk_size, max_chunk_size, ServerConfig, ClientConnection, Multiplexer, fresh_client,
  calculate_optimal_chunk_size, handle_new_connection, remove_connection, handle_client_write,
  handle_file_transfer,
}
use nssa_ds.Lab3.Multiplexer.Loop.{
  Ready, Selected, select_error, interrupted, nothing_ready, ready, handle_client_read, stored,
  written, process_client, process_clients, process_ready, is_silent, drop_silent,
  check_ping_timeouts, process_select_loop, run_loop,
}

-- The size of a chunk is within its bounds for every ping, also where `ping * 10` wraps. It is the
-- least below a tenth of a millisecond, and the largest from 0.8 milliseconds on up to the wrap.
pub calculate_optimal_chunk_size_lem :
    (ping : ℕ)
    → (min_chunk_size ≤ calculate_optimal_chunk_size ping)
      × (calculate_optimal_chunk_size ping ≤ max_chunk_size)
      × (ping < 10 ^ 5 → calculate_optimal_chunk_size ping ≡ min_chunk_size)
      × (8 * 10 ^ 5 ≤ ping → ping < 2 ^ 59 → calculate_optimal_chunk_size ping ≡ max_chunk_size)
unfolding calculate_optimal_chunk_size
calculate_optimal_chunk_size_lem ping = ground arith

abbrev pub SizeInRange : ClientConnection → Type 0
SizeInRange client = (min_chunk_size ≤ client.chunk_size) × (client.chunk_size ≤ max_chunk_size)

abbrev pub InRange : String × ClientConnection → Type 0
InRange entry = SizeInRange entry.1

abbrev pub IsMultiplexer : ServerConfig → Multiplexer → Type 0
IsMultiplexer config sm =
    (sm.config ≡ config) × (length sm.clients ≤ config.max_clients) × All InRange sm.clients

All-insert :
    (k : String) (v : ClientConnection) (m : List (String × ClientConnection))
    → SizeInRange v
    → All InRange m
    → All InRange (insert k v m)
unfolding insert
All-insert k v [] h all = (h, tt)
All-insert k v ((j, w) ∷ m) h all = elim (Bool-cases (string_key.beq j k)) [
  | inl hit ↦ rw hit (h, all.1)
  | inr miss ↦ rw miss (all.0, All-insert k v m h all.1)
]

All-update :
    (k : String) (v : ClientConnection) (m : List (String × ClientConnection))
    → SizeInRange v
    → All InRange m
    → All InRange (update k v m)
unfolding update
All-update k v [] h all = tt
All-update k v ((j, w) ∷ m) h all = elim (Bool-cases (string_key.beq j k)) [
  | inl hit ↦ rw hit (h, all.1)
  | inr miss ↦ rw miss (all.0, All-update k v m h all.1)
]

All-erase :
    (k : String) (m : List (String × ClientConnection)) → All InRange m → All InRange (erase k m)
unfolding erase
All-erase k [] all = tt
All-erase k ((j, w) ∷ m) all = elim (Bool-cases (string_key.beq j k)) [
  | inl hit ↦ rw hit (All-erase k m all.1)
  | inr miss ↦ rw miss (all.0, All-erase k m all.1)
]

-- A client that is read from and written to keeps the size of its chunks.
abbrev SameSize : ClientConnection → Option ClientConnection → Type 0
SameSize client none = Unit {0}
SameSize client (some after) = after.chunk_size ≡ client.chunk_size

written-SameSize :
    (client : ClientConnection) (writing : Bool) (o : Option ClientConnection)
    → SameSize client o
    → SameSize client (written writing o)
unfolding handle_client_write handle_file_transfer
written-SameSize client false o h = h
written-SameSize client true none h = tt
written-SameSize client true (some after) h = ground arith

read-SameSize :
    (client : ClientConnection) (now : ℕ) (o : Option Text)
    → SameSize client (handle_client_read client now o)
read-SameSize client now none = tt
read-SameSize client now (some bytes) = refl

module _ (config : ServerConfig) where
  remove_connection-IsMultiplexer :
      (sm : Multiplexer) (id : String)
      → IsMultiplexer config sm
      → IsMultiplexer config (remove_connection sm id)
  unfolding remove_connection
  remove_connection-IsMultiplexer sm id (c, l, all) =
      (c, omega (arith, length-erase_le id sm.clients), All-erase id sm.clients all)

  stored-IsMultiplexer :
      (sm : Multiplexer) (id : String) (client : ClientConnection) (o : Option ClientConnection)
      → SizeInRange client
      → SameSize client o
      → IsMultiplexer config sm
      → IsMultiplexer config (stored sm id o)
  stored-IsMultiplexer sm id client none r h i = remove_connection-IsMultiplexer sm id i
  stored-IsMultiplexer sm id client (some after) r h (c, l, all) =
      (c, rw length-update l, All-update id after sm.clients (omega arith) all)

  process_client-IsMultiplexer :
      (sm : Multiplexer) (r : Ready) (now : ℕ) (id : String) (client : ClientConnection)
      → SizeInRange client
      → IsMultiplexer config sm
      → IsMultiplexer config (process_client sm r now id client).0
  unfolding process_client
  process_client-IsMultiplexer sm r now id client h i =
      elim (Bool-cases (not client.is_active || (client.fd == 0))) [
        | inl skipped ↦ rw skipped i
        | inr served ↦ rw served (
            stored-IsMultiplexer sm id client _ h
              (written-SameSize client (r.writable client.fd) _
                (elim (Bool-cases (r.readable client.fd)) [
                  | inl reading ↦ rw reading (read-SameSize client now (r.reads id))
                  | inr quiet ↦ rw quiet refl
                ]))
              i)
      ]

  process_clients-IsMultiplexer :
      (m : List (String × ClientConnection)) (r : Ready) (now : ℕ) (sm : Multiplexer)
      → All InRange m
      → IsMultiplexer config sm
      → IsMultiplexer config (process_clients sm r now m).0
  unfolding process_clients
  process_clients-IsMultiplexer [] r now sm all i = i
  process_clients-IsMultiplexer ((id, client) ∷ m) r now sm all i =
      process_clients-IsMultiplexer m r now (process_client sm r now id client).0 all.1
        (process_client-IsMultiplexer sm r now id client all.0 i)

  handle_new_connection-IsMultiplexer :
      (sm : Multiplexer) (accepted : Bool) (id : String) (now : ℕ) (fd : Option ℕ)
      → IsMultiplexer config sm
      → IsMultiplexer config (handle_new_connection sm accepted id now fd).0
  unfolding handle_new_connection
  handle_new_connection-IsMultiplexer sm false id now fd i = i
  handle_new_connection-IsMultiplexer sm true id now none i = ground arith
  handle_new_connection-IsMultiplexer sm true id now (some fd) (c, l, all) =
      elim (Bool-cases (leb sm.config.max_clients (length sm.clients))) [
        | inl full ↦ rw full (c, l, all)
        | inr room ↦ rw room (
          c,
          ground (arith, length-insert_le id (fresh_client sm.config now fd) sm.clients),
          All-insert id _ sm.clients
              (omega (arith, calculate_optimal_chunk_size_lem sm.config.ping_timeout)) all,
        )
      ]

  choice-IsMultiplexer :
      (b : Bool) (sm sm' : Multiplexer)
      → IsMultiplexer config sm
      → IsMultiplexer config sm'
      → IsMultiplexer config (if b then sm else sm')
  choice-IsMultiplexer true sm sm' i i' = i
  choice-IsMultiplexer false sm sm' i i' = i'

  drop_silent-IsMultiplexer :
      (m : List (String × ClientConnection)) (now : ℕ) (sm : Multiplexer)
      → IsMultiplexer config sm
      → IsMultiplexer config (drop_silent sm now m)
  unfolding drop_silent
  drop_silent-IsMultiplexer [] now sm i = i
  drop_silent-IsMultiplexer ((id, client) ∷ m) now sm i = drop_silent-IsMultiplexer m now _ (
      choice-IsMultiplexer (is_silent sm.config now client) _ sm
        (remove_connection-IsMultiplexer sm id i) i)

  process_ready-IsMultiplexer :
      (sm : Multiplexer) (r : Ready) (now : ℕ)
      → IsMultiplexer config sm
      → IsMultiplexer config (process_ready sm r now).0
  unfolding process_ready
  process_ready-IsMultiplexer sm r now i =
      let i1 =
        choice-IsMultiplexer r.listener_ready _ sm
          (handle_new_connection-IsMultiplexer sm r.accepted r.client_id now r.new_fd i) i in
      process_clients-IsMultiplexer _ r now _ i1.2 i1

  process_select_loop-IsMultiplexer :
      (sm : Multiplexer) (selected : Selected) (now : ℕ)
      → IsMultiplexer config sm
      → IsMultiplexer config (process_select_loop sm selected now).0
  unfolding process_select_loop check_ping_timeouts
  process_select_loop-IsMultiplexer sm select_error now i = i
  process_select_loop-IsMultiplexer sm interrupted now i = i
  process_select_loop-IsMultiplexer sm nothing_ready now i =
      drop_silent-IsMultiplexer sm.clients now sm i
  process_select_loop-IsMultiplexer sm (ready r) now i = process_ready-IsMultiplexer sm r now i

  -- The rounds of the select loop keep the clients at `MaxClients` or below and every size of a chunk
  -- within its bounds, whatever select brings and whichever reads and writes fail.
  pub run_loop-IsMultiplexer :
      (rounds : List (ℕ × Selected)) (sm : Multiplexer)
      → IsMultiplexer config sm
      → IsMultiplexer config (run_loop sm rounds).0
  unfolding run_loop
  run_loop-IsMultiplexer [] sm i = i
  run_loop-IsMultiplexer ((now, selected) ∷ rounds) sm i =
      run_loop-IsMultiplexer rounds _ (process_select_loop-IsMultiplexer sm selected now i)
