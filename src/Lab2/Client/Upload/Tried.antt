-- ===== src/Lab2/Client/Upload/Tried.antt =====
-- One call of `SendReliablePacket` by `sendFile`.
use nssa_ds.Base.{
  ℕ, ◌≡◌, refl, sym, ◌∙◌, ap, inl, inr, true, false, Option, none, some, String, if◌then◌else◌,
}
use nssa_ds.Base.Map.{string_key, nat_key, lookup}
use nssa_ds.Base.Bytes.{Bytes}
use nssa_ds.Lab2.Packet.{Packet, new_packet, serialize}
use nssa_ds.Lab2.PacketType
use nssa_ds.Lab2.Window.{SlidingWindow, can_send, add_packet}
use nssa_ds.Lab2.Reliability.{ReliabilityManager, send_packet}
use nssa_ds.Lab2.Connection.{
  ConnectionManager, ClientSession, SendOutcome, sent, write_failed, window_full,
  send_reliable_packet, session_or, fresh_session,
}
use nssa_ds.Lab2.Connection.Sessions.{window_of, accepted-send_packet, send_reliable_packet_lem}
use nssa_ds.Lab2.Client.Upload.{Link, Sending, read_chunk}

session-now :
    (cm : ConnectionManager) (addr : String) (now : ℕ) (found : Option ClientSession)
    → (session_or found (fresh_session cm addr now)).window
      ≡ (session_or found (fresh_session cm addr 0)).window
session-now cm addr now none = refl
session-now cm addr now (some s) = refl

pub window_of-now :
    (cm : ConnectionManager) (addr : String) (now : ℕ) → window_of cm addr now ≡ window_of cm addr 0
window_of-now cm addr now = session-now cm addr now (lookup addr cm.clients)

module _ (link : Link) (chunk : Bytes) (s : Sending) where
  abbrev pub sends : ConnectionManager × ReliabilityManager × SendOutcome
  sends =
      let now = link.clock s.seq_num in
      send_reliable_packet s.conn_mgr (read_chunk chunk s).rel_mgr
        (new_packet PacketType.data_packet s.seq_num chunk now) link.addr now
        (link.written s.seq_num)

  abbrev pub flight : SlidingWindow
  flight = window_of s.conn_mgr link.addr 0

  data Tried : Type 0 where
    full :
        can_send flight ≡ false
        → sends.2 ≡ window_full
        → sends.1 ≡ (read_chunk chunk s).rel_mgr
        → Tried
    free :
        can_send flight ≡ true
        → sends.2 ≡ sent
        → (p : Packet) → window_of sends.0 link.addr 0 ≡ add_packet flight p
        → Tried

  tried : link.written s.seq_num ≡ true → Tried
  tried w =
      let now = link.clock s.seq_num in
      let p = new_packet PacketType.data_packet s.seq_num chunk now in
      let same = window_of-now s.conn_mgr link.addr now in
      elim (send_reliable_packet_lem s.conn_mgr (read_chunk chunk s).rel_mgr p link.addr now
        (link.written s.seq_num)) [
          | inl (no_room, refused_it) ↦
              full (sym (ap can_send same) ∙ no_room) (refused_it.0) (refused_it.1)
          | inr (has_room, accepted) ↦
              free (sym (ap can_send same) ∙ has_room)
                (accepted.0 ∙ ap (λ b. if b then sent else write_failed) w) (serialize p).0
                (sym (window_of-now (sends.0) link.addr now)
                  ∙ (accepted.2 ∙ ap (λ v. add_packet v (serialize p).0) same))
        ]

  pub accepted_lem :
      link.written s.seq_num ≡ true
      → can_send flight ≡ true
      → (sends.2 ≡ sent) × (p : Packet) × (window_of sends.0 link.addr 0 ≡ add_packet flight p)
  accepted_lem w e = elim (tried w) [
    | full e' _ _ ↦ let no : true ≡ false = sym e ∙ e' in cc
    | free _ g p h ↦ (g, p, h)
  ]

  pub refused_lem :
      link.written s.seq_num ≡ true
      → can_send flight ≡ false
      → (sends.2 ≡ window_full) × (sends.1 ≡ (read_chunk chunk s).rel_mgr)
  refused_lem w e = elim (tried w) [
    | full _ g h ↦ (g, h)
    | free e' _ _ _ ↦ let no : true ≡ false = sym e' ∙ e in cc
  ]

  pub sends-rel_mgr :
      can_send flight ≡ true
      → sends.1
        ≡ (send_packet
            (read_chunk chunk s).rel_mgr
            (new_packet PacketType.data_packet s.seq_num chunk (link.clock s.seq_num))
            (link.written s.seq_num)).0
  sends-rel_mgr e =
      let now = link.clock s.seq_num in
      accepted-send_packet s.conn_mgr (read_chunk chunk s).rel_mgr
        (new_packet PacketType.data_packet s.seq_num chunk now) link.addr now
        (link.written s.seq_num) (ap can_send (window_of-now s.conn_mgr link.addr now) ∙ e)
