-- ===== src/Lab2/Window/Progress.antt =====
-- What one acknowledgment does to a window: of the base, and of a number that is not sent yet.
use nssa_ds.Base.{
  ℕ, ◌+◌, ◌%◌, ◌≤◌, ◌<◌, ◌≡◌, sym, subst, ◌∙◌, true, false, some, arith, ltb, le→ltb_false, ◌==◌,
  dec_lt,
}
use nssa_ds.Base.Map.{beq_refl, nat_key, lookup, insert, lookup-insert}
use nssa_ds.Lab2.Window.{SlidingWindow, u32, in_flight, is_acked, can_send, ack_packet}
use nssa_ds.Lab2.Window.Inv.{IsWindow, mark-IsWindow, rounds-le, shrinks, is_acked-ne_none}
use nssa_ds.Lab2.Window.Ack.{ahead, Advanced, mark, ack_packet-Advanced}

-- With the base marked, the loop makes a round.
base_moves :
    (w v : SlidingWindow) (k : ℕ)
    → w.base_seq < u32
    → Advanced (mark w w.base_seq) v k
    → is_acked v.base_seq v ≡ false
    → 0 < k
base_moves w v k h a done = elim (dec_lt 0 k) [
  | yes pos ↦ pos
  | no zeros ↦
      let same : v.base_seq ≡ w.base_seq = omega (arith, a.base_moved) in
      let far : ltb (ahead w.base_seq w.base_seq) k ≡ false = le→ltb_false _ _ (omega arith) in
      let entry : lookup w.base_seq v.acked ≡ some true =
        a.acked_dropped w.base_seq h
        ∙ rw (far, lookup-insert w.base_seq w.base_seq true w.acked, beq_refl w.base_seq) in
      cc (rw (same, entry) at done)
]

-- Acknowledging the base moves the window: fewer numbers are in flight, and the base that it stops
-- at is not acknowledged.
pub ack_packet-progress :
    (w : SlidingWindow)
    → IsWindow w
    → 0 < in_flight w
    → (in_flight (ack_packet w w.base_seq) < in_flight w)
      × (is_acked (ack_packet w w.base_seq).base_seq (ack_packet w w.base_seq) ≡ false)
ack_packet-progress w i pos =
    let (k, a, done) = ack_packet-Advanced w w.base_seq i.base_lt in
    let inside = mark-IsWindow w w.base_seq i (omega arith) in
    let le = rounds-le (mark w w.base_seq) (ack_packet w w.base_seq) k inside a in
    (
      omega (
        arith,
        base_moves w (ack_packet w w.base_seq) k i.base_lt a done,
        shrinks (mark w w.base_seq) (ack_packet w w.base_seq) k inside a le,
      ),
      done,
    )

-- Nothing is marked in an idle window, so that the loop makes one round.
one_round :
    (w v : SlidingWindow) (k : ℕ)
    → IsWindow w
    → in_flight w ≡ 0
    → Advanced (mark w w.base_seq) v k
    → k ≤ 1
one_round w v k i idle a = elim (dec_lt 1 k) [
  | no le ↦ omega arith
  | yes more ↦
      let seq = (w.base_seq + 1) % u32 in
      let apart : (w.base_seq == seq) ≡ false = ground (arith, i.base_lt) in
      let entry =
        is_acked-ne_none (lookup seq (insert w.base_seq true w.acked)) (a.run_acked 1 more) in
      let old = rw (lookup-insert w.base_seq seq true w.acked, apart) at entry in
      absurd (omega (arith, i.marked seq (omega arith) old))
]

base_overtakes :
    (w : SlidingWindow) → IsWindow w → in_flight w ≡ 0 → can_send (ack_packet w w.base_seq) ≡ false
unfolding can_send
base_overtakes w i idle =
    let (k, a, done) = ack_packet-Advanced w w.base_seq i.base_lt in
    let v = ack_packet w w.base_seq in
    le→ltb_false _ _ (
      omega (
        arith,
        base_moves w v k i.base_lt a done,
        one_round w v k i idle a,
        a.base_moved,
        a.next_kept,
        a.size_kept,
        i,
      ))

-- An acknowledgment of the next number, before it is sent, moves the base past it: the window then
-- takes no packet.
pub ack_packet_early :
    (w : SlidingWindow) → IsWindow w → in_flight w ≡ 0 → can_send (ack_packet w w.next_seq) ≡ false
ack_packet_early w i idle =
    let same : w.next_seq ≡ w.base_seq = omega (arith, i.base_lt, i.next_lt) in
    subst (λ (seq : ℕ). can_send (ack_packet w seq) ≡ false) (sym same) (base_overtakes w i idle)
