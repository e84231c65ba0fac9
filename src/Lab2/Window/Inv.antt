-- ===== src/Lab2/Window/Inv.antt =====
-- The window under the protocol: packets are added while CanSend allows it, and acknowledgments are of
-- numbers in flight. Whether a packet has the window's next number is left to the caller, as AddPacket does.
use nssa_ds.Base.{
  ℕ, ◌+◌, ◌-◌, ◌%◌, ◌^◌, ◌≤◌, ◌<◌, ◌≡◌, refl, ◌≢◌, inl, inr, ltb_false→le, Bool, true, List, [],
  ◌∷◌, Option, none, some, arith, ltb, ◌==◌, ==_iff, Bool-cases, dec_lt,
}
use nssa_ds.Base.Map.{nat_key, lookup, insert, lookup-insert}
use nssa_ds.Lab2.Packet.{Packet}
use nssa_ds.Lab2.Window.{
  SlidingWindow, u32, in_flight, or_false, new_sliding_window, can_send, add_packet, ack_packet,
  refresh, get_retransmission_packets,
}
use nssa_ds.Lab2.Window.Ack.{ahead, Dropped, Advanced, mark, ack_packet-Advanced}

-- Every number that a map holds is in flight.
abbrev Inside {ℓ} : {V : Type ℓ} → ℕ → ℕ → List (ℕ × V) → Type ℓ
Inside base flight m = (seq : ℕ) → seq < u32 → lookup seq m ≢ none → ahead base seq < flight

pub record IsWindow (w : SlidingWindow) : Type 0 where
  pub base_lt : w.base_seq < u32
  pub next_lt : w.next_seq < u32
  pub size_lt : w.window_size < 2 ^ 16
  pub bounded : in_flight w ≤ w.window_size
  pub marked : Inside w.base_seq (in_flight w) w.acked

-- The packets in the buffer are in flight.
abbrev pub Buffered : SlidingWindow → Type 0
Buffered w = Inside w.base_seq (in_flight w) w.buffer

pub new_sliding_window-IsWindow : (size : ℕ) → size < 2 ^ 16 → IsWindow (new_sliding_window size)
unfolding new_sliding_window lookup
new_sliding_window-IsWindow size h = record {
  base_lt = omega arith;
  next_lt = omega arith;
  size_lt = h;
  bounded = omega arith;
  marked = λ seq _ h. absurd (h refl);
}

Inside-insert {ℓ} :
    {V : Type ℓ} (base flight key : ℕ) (v : V) (m : List (ℕ × V))
    → ahead base key < flight
    → Inside base flight m
    → Inside base flight (insert key v m)
Inside-insert base flight key v m here inside seq h there = elim (Bool-cases (key == seq)) [
  | inl hit ↦ rw (← (==_iff key seq).0 hit) here
  | inr miss ↦ inside seq h (rw (lookup-insert key seq v m, miss) at there)
]

Inside-weaken {ℓ} :
    {V : Type ℓ} (base flight more : ℕ) (m : List (ℕ × V))
    → flight ≤ more
    → Inside base flight m
    → Inside base more m
Inside-weaken base flight more m le inside seq h there = omega (arith, inside seq h there)

-- After `k` rounds the numbers that are left are nearer to the base by `k`.
Inside-Dropped {ℓ} :
    {V : Type ℓ} (base flight k : ℕ) (m m' : List (ℕ × V))
    → base < u32
    → flight < u32
    → Inside base flight m
    → Dropped base k m m'
    → Inside ((base + k) % u32) (flight - k) m'
Inside-Dropped base flight k m m' hb hf inside dropped seq h there =
    elim (Bool-cases (ltb (ahead base seq) k)) [
      | inl gone ↦ absurd (there (rw gone at (dropped seq h)))
      | inr left ↦
          let here = inside seq h (rw (dropped seq h, left) at there) in
          omega (arith, ltb_false→le (ahead base seq) k left)
    ]

grown :
    (w : SlidingWindow) (p : Packet)
    → IsWindow w
    → can_send w ≡ true
    → in_flight (add_packet w p) ≡ in_flight w + 1
unfolding can_send add_packet
grown w p v room = grind arith

pub add_packet-IsWindow :
    (w : SlidingWindow) (p : Packet) → IsWindow w → can_send w ≡ true → IsWindow (add_packet w p)
unfolding can_send add_packet
add_packet-IsWindow w p v room =
    let more = grown w p v room in
    record {
      base_lt = v.base_lt;
      next_lt = omega arith;
      size_lt = v.size_lt;
      bounded = ground (arith, more);
      marked = rw more (Inside-weaken _ (in_flight w) _ w.acked (omega arith) v.marked);
    }

add_packet-Buffered :
    (w : SlidingWindow) (p : Packet)
    → IsWindow w
    → Buffered w
    → can_send w ≡ true
    → p.seq_num ≡ w.next_seq
    → Buffered (add_packet w p)
unfolding can_send add_packet
add_packet-Buffered w p v b room number = rw (grown w p v room) (
    Inside-insert w.base_seq (in_flight w + 1) p.seq_num p w.buffer (omega (arith, v, number))
      (Inside-weaken w.base_seq (in_flight w) (in_flight w + 1) w.buffer (omega arith) b))

pub is_acked-ne_none : (o : Option Bool) → or_false o ≡ true → o ≢ none
is_acked-ne_none none h = cc
is_acked-ne_none (some b) h = λ e. cc

-- The run of acknowledged numbers does not leave the window.
pub rounds-le : (w v : SlidingWindow) (k : ℕ) → IsWindow w → Advanced w v k → k ≤ in_flight w
rounds-le w v k i a = elim (dec_lt (in_flight w) k) [
  | no le ↦ omega arith
  | yes lt ↦
      let seq = (w.base_seq + in_flight w) % u32 in
      let there = is_acked-ne_none (lookup seq w.acked) (a.run_acked (in_flight w) lt) in
      absurd (omega (arith, i, i.marked seq (omega arith) there))
]

pub shrinks :
    (w v : SlidingWindow) (k : ℕ)
    → IsWindow w
    → Advanced w v k
    → k ≤ in_flight w
    → in_flight v ≡ in_flight w - k
shrinks w v k i a le =
    omega (arith, le, i.base_lt, i.next_lt, i.bounded, i.size_lt, a.base_moved, a.next_kept)

Advanced-IsWindow : (w v : SlidingWindow) (k : ℕ) → IsWindow w → Advanced w v k → IsWindow v
Advanced-IsWindow w v k i a =
    let le : k ≤ in_flight w = rounds-le w v k i a in
    let shrunk : in_flight v ≡ in_flight w - k = shrinks w v k i a le in
    let base = a.base_moved in
    record {
      base_lt = omega (arith, base);
      next_lt = omega (arith, a.next_kept, i.next_lt);
      size_lt = omega (arith, a.size_kept, i.size_lt);
      bounded = omega (arith, shrunk, a.size_kept, i.bounded);
      marked = λ seq h there. omega (
        arith,
        shrunk,
        base,
        Inside-Dropped w.base_seq (in_flight w) k w.acked v.acked i.base_lt (omega (arith, i))
            i.marked a.acked_dropped seq h there,
      );
    }

pub mark-IsWindow :
    (w : SlidingWindow) (seq : ℕ)
    → IsWindow w
    → ahead w.base_seq seq < in_flight w
    → IsWindow (mark w seq)
mark-IsWindow w seq i h = record {
  base_lt = i.base_lt;
  next_lt = i.next_lt;
  size_lt = i.size_lt;
  bounded = i.bounded;
  marked = Inside-insert _ _ seq true w.acked h i.marked;
}

ack_packet-IsWindow :
    (w : SlidingWindow) (seq : ℕ)
    → IsWindow w
    → ahead w.base_seq seq < in_flight w
    → IsWindow (ack_packet w seq)
ack_packet-IsWindow w seq i h =
    let (k, a, _) = ack_packet-Advanced w seq i.base_lt in
    Advanced-IsWindow (mark w seq) (ack_packet w seq) k (mark-IsWindow w seq i h) a

-- Times change, numbers do not.
refresh_keys :
    (now timeout : ℕ) (w : SlidingWindow) (m : List (ℕ × Packet)) (seq : ℕ)
    → lookup seq (refresh now timeout w m).1 ≢ none
    → lookup seq m ≢ none
unfolding refresh lookup
refresh_keys now timeout w [] seq h = h
refresh_keys now timeout w ((key, p) ∷ rest) seq h =
    ground (arith, refresh_keys now timeout w rest seq)

get_retransmission_packets-IsWindow :
    (w : SlidingWindow) (now timeout : ℕ)
    → IsWindow w
    → IsWindow (get_retransmission_packets w now timeout).1
unfolding get_retransmission_packets
get_retransmission_packets-IsWindow w now timeout i = record {
  base_lt = i.base_lt;
  next_lt = i.next_lt;
  size_lt = i.size_lt;
  bounded = i.bounded;
  marked = i.marked;
}

ack_packet-Buffered :
    (w : SlidingWindow) (seq : ℕ)
    → IsWindow w
    → Buffered w
    → ahead w.base_seq seq < in_flight w
    → Buffered (ack_packet w seq)
ack_packet-Buffered w seq i b h =
    let (k, a, _) = ack_packet-Advanced w seq i.base_lt in
    let marked = mark-IsWindow w seq i h in
    let le = rounds-le (mark w seq) (ack_packet w seq) k marked a in
    λ n small there. omega (
      arith,
      shrinks (mark w seq) (ack_packet w seq) k marked a le,
      a.base_moved,
      Inside-Dropped w.base_seq (in_flight w) k w.buffer (ack_packet w seq).buffer i.base_lt
          (omega (arith, i)) b a.buffer_dropped n small there,
    )

-- What a caller of the window does to it.
pub data Step (w v : SlidingWindow) : Type 0 where
  sends : (p : Packet) → can_send w ≡ true → v ≡ add_packet w p → Step w v
  hears : (seq : ℕ) → ahead w.base_seq seq < in_flight w → v ≡ ack_packet w seq → Step w v
  resends : (now timeout : ℕ) → v ≡ (get_retransmission_packets w now timeout).1 → Step w v

pub data Reach (w : SlidingWindow) : SlidingWindow → Type 0 where
  here : Reach w w
  next : {u v : SlidingWindow} → Reach w u → Step u v → Reach w v

-- The packets that are added take the window's next number.
abbrev pub Follows : {w v : SlidingWindow} → Step w v → Type 0
Follows {w} (sends p room e) = p.seq_num ≡ w.next_seq
Follows (hears seq h e) = Unit {0}
Follows (resends now timeout e) = Unit {0}

unfoldable pub Numbered : {w v : SlidingWindow} → Reach w v → Type 0
Numbered here = Unit {0}
Numbered (next r s) = Numbered r × Follows s

Step-IsWindow : (w v : SlidingWindow) → Step w v → IsWindow w → IsWindow v
Step-IsWindow w v (sends p room e) i = rw e (add_packet-IsWindow w p i room)
Step-IsWindow w v (hears seq h e) i = rw e (ack_packet-IsWindow w seq i h)
Step-IsWindow w v (resends now timeout e) i =
    rw e (get_retransmission_packets-IsWindow w now timeout i)

Reach-keeps : {w v : SlidingWindow} → IsWindow w → Reach w v → IsWindow v
Reach-keeps i here = i
Reach-keeps i (next {u} {v} r s) = Step-IsWindow u v s (Reach-keeps i r)

-- Every window that is reached from a new one, where packets are added only while CanSend allows it, whatever
-- their numbers, and acknowledgments are of numbers in flight: at most WindowSize numbers are in flight, across
-- the wrap of the sequence numbers too, and the map of acknowledgments holds numbers in flight only.
pub Reach-IsWindow :
    (size : ℕ) (v : SlidingWindow) → size < 2 ^ 16 → Reach (new_sliding_window size) v → IsWindow v
Reach-IsWindow size v h r = Reach-keeps (new_sliding_window-IsWindow size h) r

Step-Buffered :
    (w v : SlidingWindow) (s : Step w v) → IsWindow w → Buffered w → Follows s → Buffered v
unfolding get_retransmission_packets
Step-Buffered w v (sends p room e) i b number = rw e (add_packet-Buffered w p i b room number)
Step-Buffered w v (hears seq h e) i b _ = rw e (ack_packet-Buffered w seq i b h)
Step-Buffered w v (resends now timeout e) i b _ =
    rw (e, get_retransmission_packets)
      (λ seq h there. b seq h (refresh_keys now timeout w w.buffer seq there))

-- Where the packets that are added also take the window's next number, the buffer too holds packets in flight
-- only.
pub Reach-Buffered :
    {w v : SlidingWindow} (r : Reach w v) → IsWindow w → Buffered w → Numbered r → Buffered v
unfolding Numbered
Reach-Buffered here i b n = b
Reach-Buffered (next {u} {v} r s) i b n =
    Step-Buffered u v s (Reach-keeps i r) (Reach-Buffered r i b n.0) n.1
