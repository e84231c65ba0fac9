-- ===== src/Lab2/Reliability/Examples.antt =====
-- A manager with two packets that wait: the theorems at inputs that meet their hypotheses.
use nssa_ds.Base.{ℕ, ◌+◌, ◌-◌, ◌%◌, ◌≤◌, ◌≡◌, Bool, false, [], ◌∷◌, arith, length}
use nssa_ds.Base.Map.{nat_key}
use nssa_ds.Lab2.Packet.{Packet, new_packet}
use nssa_ds.Lab2.Window.{u32}
use nssa_ds.Lab2.Reliability.{
  ReliabilityManager, new_reliability_manager, check_retransmissions, retransmission_loop,
}
use nssa_ds.Lab2.Reliability.Pending.{
  waiting, check_retransmissions-conserves, retransmission_loop-keeps,
}

abbrev packet : ℕ → Packet
packet seq = new_packet 1 seq (65 ∷ []) 9

abbrev fresh : ReliabilityManager
fresh = new_reliability_manager 5 3 2

abbrev two_waiting : ReliabilityManager
two_waiting = record fresh { pending_packets = (0, packet 0) ∷ ((1, packet 1) ∷ []) }

abbrev never : ℕ → Bool
never seq = false

check_retransmissions-conserves_example :
    (let rm' = check_retransmissions two_waiting 100 never in
      (rm'.packets_lost
        ≡ (two_waiting.packets_lost
            + (length two_waiting.pending_packets - length rm'.pending_packets))
          % u32)
      × (length rm'.pending_packets ≤ length two_waiting.pending_packets)
      × ((k : ℕ) × (rm'.retransmits ≡ (two_waiting.retransmits + k) % u32)
          × (k ≤ length rm'.pending_packets))
      × (rm'.packets_sent ≡ two_waiting.packets_sent))
check_retransmissions-conserves_example = check_retransmissions-conserves two_waiting 100 never

retransmission_loop-keeps_example :
    ((retransmission_loop two_waiting ((100, never) ∷ ((200, never) ∷ []))).packets_lost
      ≡ two_waiting.packets_lost)
    × (waiting
          (retransmission_loop two_waiting ((100, never) ∷ ((200, never) ∷ []))).pending_packets
        ≡ waiting two_waiting.pending_packets)
unfolding new_reliability_manager
retransmission_loop-keeps_example =
    retransmission_loop-keeps two_waiting ((100, never) ∷ ((200, never) ∷ [])) (omega arith)
      (omega arith)
