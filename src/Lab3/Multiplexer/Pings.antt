-- ===== src/Lab3/Multiplexer/Pings.antt =====
-- Which clients `checkPingTimeouts` disconnects.
use nssa_ds.Base.{
  ℕ, ◌≡◌, refl, Bool, false, List, [], ◌∷◌, Option, none, some, String, arith, if◌then◌else◌,
  Bool-cases, inl, inr,
}
use nssa_ds.Base.Map.{string_key, lookup, lookup-erase, Distinct}
use nssa_ds.Lab3.Multiplexer.{ServerConfig, ClientConnection, Multiplexer, remove_connection}
use nssa_ds.Lab3.Multiplexer.Loop.{is_silent, drop_silent, check_ping_timeouts}

abbrev pub is_gone : ServerConfig → ℕ → Option ClientConnection → Bool
is_gone config now none = false
is_gone config now (some client) = is_silent config now client

drop_silent_lem :
    (m : List (String × ClientConnection)) (now : ℕ) (id : String) (sm : Multiplexer)
    → Distinct m
    → lookup id (drop_silent sm now m).clients
      ≡ (if is_gone sm.config now (lookup id m) then none else lookup id sm.clients)
unfolding drop_silent lookup remove_connection
drop_silent_lem [] now id sm d = refl
drop_silent_lem ((key, client) ∷ m) now id sm (fresh, d) =
    elim (Bool-cases (is_silent sm.config now client)) [
      | inl silent ↦
          let rest = drop_silent_lem m now id (remove_connection sm key) d in
          elim (Bool-cases (string_key.beq key id)) [
            | inl hit ↦
                let fresh' : lookup id m ≡ none = rw ((string_key.beq_iff key id).0 hit) at fresh in
                ground (arith, silent, hit, rest, fresh', lookup-erase key id sm.clients)
            | inr miss ↦ ground (arith, silent, miss, rest, lookup-erase key id sm.clients)
          ]
      | inr heard ↦
          let rest = drop_silent_lem m now id sm d in
          elim (Bool-cases (string_key.beq key id)) [
            | inl hit ↦
                let fresh' : lookup id m ≡ none = rw ((string_key.beq_iff key id).0 hit) at fresh in
                ground (arith, heard, hit, rest, fresh', lookup-erase key id sm.clients)
            | inr miss ↦ ground (arith, heard, miss, rest, lookup-erase key id sm.clients)
          ]
    ]

-- `checkPingTimeouts` removes the clients that were silent for longer than `PingTimeout`, leaves the
-- others as they are, and adds none.
pub check_ping_timeouts_lem :
    (sm : Multiplexer) (now : ℕ) (id : String)
    → Distinct sm.clients
    → lookup id (check_ping_timeouts sm now).clients
      ≡ (if is_gone sm.config now (lookup id sm.clients) then none else lookup id sm.clients)
unfolding check_ping_timeouts
check_ping_timeouts_lem sm now id d = drop_silent_lem sm.clients now id sm d
