-- ===== src/Lab2/Window/Examples.antt =====
-- Concrete windows: the theorems at inputs that meet their hypotheses.
use nssa_ds.Base.{ℕ, ◌<◌, ◌≡◌, refl, false, [], ◌∷◌, arith}
use nssa_ds.Lab2.Packet.{Packet, new_packet}
use nssa_ds.Lab2.Window.{
  SlidingWindow, in_flight, is_acked, new_sliding_window, can_send, add_packet, ack_packet,
}
use nssa_ds.Lab2.Window.Ack.{Advanced, mark, ack_packet-Advanced}
use nssa_ds.Lab2.Window.Inv.{IsWindow, Reach, here, next, sends, Reach-IsWindow}
use nssa_ds.Lab2.Window.Progress.{ack_packet-progress}

abbrev empty : SlidingWindow
empty = new_sliding_window 4

abbrev packet : ℕ → Packet
packet seq = new_packet 1 seq (65 ∷ []) 9

abbrev one_sent : SlidingWindow
one_sent = add_packet empty (packet 0)

abbrev two_sent : SlidingWindow
two_sent = add_packet one_sent (packet 1)

two_sent-Reach : Reach empty two_sent
unfolding add_packet can_send new_packet new_sliding_window
two_sent-Reach = next (next here (sends (packet 0) refl refl)) (sends (packet 1) refl refl)

ack_packet-Advanced_example :
    (k : ℕ) × Advanced (mark two_sent 0) (ack_packet two_sent 0) k
    × (is_acked (ack_packet two_sent 0).base_seq (ack_packet two_sent 0) ≡ false)
unfolding add_packet new_sliding_window
ack_packet-Advanced_example = ack_packet-Advanced two_sent 0 (omega arith)

Reach-IsWindow_example : IsWindow two_sent
Reach-IsWindow_example = Reach-IsWindow 4 two_sent (omega arith) two_sent-Reach

ack_packet-progress_example :
    (in_flight (ack_packet two_sent two_sent.base_seq) < in_flight two_sent)
    × (is_acked
          (ack_packet two_sent two_sent.base_seq).base_seq
          (ack_packet two_sent two_sent.base_seq)
        ≡ false)
unfolding add_packet new_sliding_window new_packet
ack_packet-progress_example =
    ack_packet-progress two_sent (Reach-IsWindow 4 two_sent (omega arith) two_sent-Reach)
      (omega arith)
