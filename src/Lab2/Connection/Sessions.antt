-- ===== src/Lab2/Connection/Sessions.antt =====
-- The sessions of a connection manager: what a send and an acknowledgment do to the peer's session,
-- and that they leave the other peers alone.
use nssa_ds.Base.{
  ℕ, ◌-◌, ◌≡◌, ◌≢◌, ◌⊎◌, inl, inr, refl, ◌∙◌, Bool, true, false, List, [], ◌∷◌, Option, none, some,
  String, arith, if◌then◌else◌, Bool-cases, ltb, ap,
}
use nssa_ds.Base.Map.{
  Distinct, nat_key, string_key, lookup, insert, lookup-insert_same, lookup-insert_ne,
}
use nssa_ds.Lab2.Packet.{Packet, serialize}
use nssa_ds.Lab2.Window.{SlidingWindow, can_send, add_packet}
use nssa_ds.Lab2.Reliability.{ReliabilityManager, send_packet}
use nssa_ds.Lab2.Connection.{
  ClientSession, ConnectionManager, client_expiry, drop_expired, cleanup_expired_clients,
  fresh_session, session_or, get_or_create_client, SendOutcome, sent, write_failed, window_full,
  send_reliable_packet,
}

-- The window that a call for `addr` at the time `now` works on.
abbrev pub window_of : ConnectionManager → String → ℕ → SlidingWindow
window_of cm addr now = (session_or (lookup addr cm.clients) (fresh_session cm addr now)).window

window_of-insert :
    (cm : ConnectionManager) (addr : String) (s : ClientSession) (m : List (String × ClientSession))
    (now : ℕ)
    → window_of (record cm { clients = insert addr s m }) addr now ≡ s.window
window_of-insert cm addr s m now =
    ap (λ o. (session_or o (fresh_session cm addr now)).window) (lookup-insert_same addr s m)

module _ (cm : ConnectionManager) (rm : ReliabilityManager) (p : Packet) (addr : String) (now : ℕ)
    (written : Bool) where
  -- What a send does when the peer's window is full, and when it has room.
  abbrev pub Refused : ConnectionManager × ReliabilityManager × SendOutcome → Type 0
  Refused after =
      (after.2 ≡ window_full)
      × (after.1 ≡ rm)
      × (window_of after.0 addr now ≡ window_of cm addr now)

  abbrev pub Accepted : ConnectionManager × ReliabilityManager × SendOutcome → Type 0
  Accepted after =
      (after.2 ≡ (if written then sent else write_failed))
      × (lookup p.seq_num after.1.pending_packets ≡ some (serialize p).0)
      × (window_of after.0 addr now ≡ add_packet (window_of cm addr now) (serialize p).0)

  refused :
      can_send (window_of cm addr now) ≡ false
      → Refused (send_reliable_packet cm rm p addr now written)
  unfolding send_reliable_packet get_or_create_client
  refused full = rw full (refl, refl, window_of-insert cm addr _ cm.clients now)

  accepted :
      can_send (window_of cm addr now) ≡ true
      → Accepted (send_reliable_packet cm rm p addr now written)
  unfolding send_reliable_packet get_or_create_client send_packet
  accepted room =
      rw room
        (refl, lookup-insert_same p.seq_num _ rm.pending_packets, window_of-insert cm addr _ _ now)

  pub accepted-send_packet :
      can_send (window_of cm addr now) ≡ true
      → (send_reliable_packet cm rm p addr now written).1 ≡ (send_packet rm p written).0
  unfolding send_reliable_packet get_or_create_client
  accepted-send_packet room = rw room refl

  -- `SendReliablePacket` refuses exactly when the peer's window is full, and then sends nothing. Else
  -- the packet waits in the peer's window and in the reliability manager, the same in both.
  pub send_reliable_packet_lem :
      ((can_send (window_of cm addr now) ≡ false)
        × Refused (send_reliable_packet cm rm p addr now written))
      ⊎ ((can_send (window_of cm addr now) ≡ true)
          × Accepted (send_reliable_packet cm rm p addr now written))
  send_reliable_packet_lem = elim (Bool-cases (can_send (window_of cm addr now))) [
    | inr full ↦ inl (full, refused full)
    | inl room ↦ inr (room, accepted room)
  ]

  -- A send leaves the sessions of the other peers as they are.
  pub send_reliable_packet_others :
      (other : String)
      → addr ≢ other
      → lookup other (send_reliable_packet cm rm p addr now written).0.clients
        ≡ lookup other cm.clients
  unfolding send_reliable_packet get_or_create_client
  send_reliable_packet_others other apart = elim (Bool-cases (can_send (window_of cm addr now))) [
    | inr full ↦ rw full (lookup-insert_ne addr other _ cm.clients apart)
    | inl room ↦
        rw room
          (lookup-insert_ne addr other _ _ apart ∙ lookup-insert_ne addr other _ cm.clients apart)
  ]

abbrev pub alive : ℕ → Option ClientSession → Option ClientSession
alive now none = none
alive now (some s) = if ltb client_expiry (now - s.last_seen) then none else some s

drop_expired_lem :
    (now : ℕ) (addr : String) (m : List (String × ClientSession))
    → Distinct m
    → lookup addr (drop_expired now m) ≡ alive now (lookup addr m)
unfolding drop_expired lookup
drop_expired_lem now addr [] d = refl
drop_expired_lem now addr ((key, s) ∷ rest) (fresh, d) =
    elim (Bool-cases (string_key.beq key addr)) [
      | inl hit ↦
          let fresh' : lookup addr rest ≡ none =
            rw ((string_key.beq_iff key addr).0 hit) at fresh in
          ground (arith, hit, fresh', drop_expired_lem now addr rest d)
      | inr miss ↦ ground (arith, miss, drop_expired_lem now addr rest d)
    ]

-- After a cleanup a session is there exactly when it was there and its peer was heard from in the
-- last five minutes, and it is unchanged.
pub cleanup_expired_clients_lem :
    (cm : ConnectionManager) (now : ℕ) (addr : String)
    → Distinct cm.clients
    → lookup addr (cleanup_expired_clients cm now).clients ≡ alive now (lookup addr cm.clients)
unfolding cleanup_expired_clients
cleanup_expired_clients_lem cm now addr d = drop_expired_lem now addr cm.clients d
