-- ===== src/Lab2/Reliability/Pending.antt =====
-- What happens to the packets that wait: sweeps, acknowledgments, counters.
use nssa_ds.Base.{
  ℕ, ◌+◌, ◌-◌, ◌%◌, ◌≤◌, ◌<◌, ◌≡◌, refl, ◌∙◌, Bool, List, [], ◌∷◌, none, some, arith, ◌==◌,
  if◌then◌else◌, length,
}
use nssa_ds.Base.Map.{nat_key, lookup, insert, lookup-insert, lookup-erase}
use nssa_ds.Lab2.Packet.{Packet, serialize}
use nssa_ds.Lab2.PacketType
use nssa_ds.Lab2.Window.{u32}
use nssa_ds.Lab2.Reliability.{
  ReliabilityManager, send_packet, settle, get_retransmit_count, sweep, check_retransmissions,
  retransmission_loop,
}

-- The sequence numbers that wait, in the order of the map.
abbrev pub waiting : List (ℕ × Packet) → List ℕ
waiting [] = []
waiting ((seq, p) ∷ rest) = seq ∷ waiting rest

module _ (rm : ReliabilityManager) (now : ℕ) (written : ℕ → Bool) where
  sweep_conserves :
      (m : List (ℕ × Packet))
      → (length (sweep rm now written m).kept + (sweep rm now written m).lost ≡ length m)
        × ((sweep rm now written m).resent ≤ length (sweep rm now written m).kept)
  unfolding sweep
  sweep_conserves [] = omega arith
  sweep_conserves ((seq, p) ∷ rest) = ground (arith, sweep_conserves rest)

  sweep_keeps :
      0 < rm.max_retransmissions
      → (m : List (ℕ × Packet))
      → ((sweep rm now written m).lost ≡ 0) × (waiting (sweep rm now written m).kept ≡ waiting m)
  unfolding sweep get_retransmit_count
  sweep_keeps pos [] = (refl, refl)
  sweep_keeps pos ((seq, p) ∷ rest) = ground (arith, sweep_keeps pos rest)

  -- A sweep accounts for every packet that waits: it is kept or counted as lost. No more packets
  -- are counted as sent again than are kept.
  pub check_retransmissions-conserves :
      (let rm' = check_retransmissions rm now written in
        (rm'.packets_lost
          ≡ (rm.packets_lost + (length rm.pending_packets - length rm'.pending_packets)) % u32)
        × (length rm'.pending_packets ≤ length rm.pending_packets)
        × ((k : ℕ) × (rm'.retransmits ≡ (rm.retransmits + k) % u32)
            × (k ≤ length rm'.pending_packets))
        × (rm'.packets_sent ≡ rm.packets_sent))
  unfolding check_retransmissions
  check_retransmissions-conserves =
      let (whole, most) = sweep_conserves rm.pending_packets in
      (
        omega arith,
        omega arith,
        ((sweep rm now written rm.pending_packets).resent, refl, most),
        refl,
      )

check_retransmissions-keeps :
    (rm : ReliabilityManager) (now : ℕ) (written : ℕ → Bool)
    → 0 < rm.max_retransmissions
    → rm.packets_lost < u32
    → ((check_retransmissions rm now written).packets_lost ≡ rm.packets_lost)
      × (waiting (check_retransmissions rm now written).pending_packets
          ≡ waiting rm.pending_packets)
unfolding check_retransmissions
check_retransmissions-keeps rm now written pos lt =
    let (none_lost, same) = sweep_keeps rm now written pos rm.pending_packets in (omega arith, same)

check_retransmissions-max :
    (rm : ReliabilityManager) (now : ℕ) (written : ℕ → Bool)
    → (check_retransmissions rm now written).max_retransmissions ≡ rm.max_retransmissions
unfolding check_retransmissions
check_retransmissions-max rm now written = refl

-- While `MaxRetransmissions` is positive the loop gives no packet up, however many ticks pass and
-- whichever writes fail: the same numbers wait, and none is counted as lost.
pub retransmission_loop-keeps :
    (rm : ReliabilityManager) (ticks : List (ℕ × (ℕ → Bool)))
    → 0 < rm.max_retransmissions
    → rm.packets_lost < u32
    → ((retransmission_loop rm ticks).packets_lost ≡ rm.packets_lost)
      × (waiting (retransmission_loop rm ticks).pending_packets ≡ waiting rm.pending_packets)
unfolding retransmission_loop
retransmission_loop-keeps rm [] pos lt = (refl, refl)
retransmission_loop-keeps rm ((now, written) ∷ ticks) pos lt =
    let (lost, same) = check_retransmissions-keeps rm now written pos lt in
    let (lost', same') =
      retransmission_loop-keeps (check_retransmissions rm now written) ticks
        (rw (check_retransmissions-max rm now written) pos) (rw lost lt) in
    (lost' ∙ lost, same' ∙ same)

-- An acknowledgment takes the packet whose number its `AckNum` is out of the map, and no other: what
-- was sent under another number waits on.
pub settle-send_packet :
    (rm : ReliabilityManager) (p : Packet) (written : Bool) (ack : Packet) (seq : ℕ)
    → ack.type ≡ PacketType.ack
    → lookup seq (settle (send_packet rm p written).0 ack).pending_packets ≡ (
        if ack.ack_num == seq
        then none
        else if p.seq_num == seq
        then some (serialize p).0
        else lookup seq rm.pending_packets)
unfolding settle send_packet
settle-send_packet rm p written ack seq kind = rw kind (
    lookup-erase ack.ack_num seq (insert p.seq_num (serialize p).0 rm.pending_packets)
    ∙ rw (lookup-insert p.seq_num seq (serialize p).0 rm.pending_packets))
