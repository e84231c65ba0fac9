-- ===== src/Lab2/Window.antt =====
-- lab2/internal/domain/packet.go, its SlidingWindow. A packet that is in the buffer is kept by
-- value; sequence numbers are uint32.
pub mod Ack
pub mod Inv
pub mod Progress
mod Examples
use nssa_ds.Base.{
  ℕ, zero, suc, ◌+◌, ◌-◌, ◌%◌, ◌^◌, ◌≤◌, ◌<◌, Bool, true, false, not, ◌&&◌, List, [], ◌∷◌, ◌++◌,
  Option, none, some, length, ltb, if◌then◌else◌,
}
use nssa_ds.Base.Map.{Key, nat_key, lookup, insert, erase}
use nssa_ds.Lab2.Packet.{Packet}

abbrev pub u32 : ℕ
u32 = 2 ^ 32

pub record SlidingWindow : Type 0 where
  pub base_seq : ℕ
  pub next_seq : ℕ
  pub window_size : ℕ
  pub buffer : List (ℕ × Packet)
  pub acked : List (ℕ × Bool)
  pub max_seq : ℕ

unfoldable pub new_sliding_window : ℕ → SlidingWindow
new_sliding_window size = record {
  base_seq = 0;
  next_seq = 0;
  window_size = size;
  buffer = [];
  acked = [];
  max_seq = 0;
}

-- `sw.NextSeq - sw.BaseSeq`
abbrev pub in_flight : SlidingWindow → ℕ
in_flight w = (w.next_seq + u32 - w.base_seq) % u32

unfoldable pub can_send : SlidingWindow → Bool
can_send w = ltb (in_flight w) w.window_size

unfoldable pub add_packet : SlidingWindow → Packet → SlidingWindow
add_packet w p = record w {
  buffer = insert p.seq_num p w.buffer;
  next_seq = (w.next_seq + 1) % u32;
}

-- `sw.Acked[seq]`: a missing key reads as false.
abbrev pub or_false : Option Bool → Bool
or_false none = false
or_false (some b) = b

abbrev pub is_acked : ℕ → SlidingWindow → Bool
is_acked seq w = or_false (lookup seq w.acked)

-- One round of the loop of `AckPacket`.
unfoldable pub slide : SlidingWindow → SlidingWindow
slide w = record w {
  buffer = erase w.base_seq w.buffer;
  acked = erase w.base_seq w.acked;
  base_seq = (w.base_seq + 1) % u32;
}

-- `for sw.Acked[sw.BaseSeq]`. Each round takes an entry out of `Acked`, so that its size is fuel
-- enough.
unfoldable pub advance : ℕ → SlidingWindow → SlidingWindow
advance zero w = w
advance (suc fuel) w = elim (is_acked w.base_seq w) [ true ↦ advance fuel (slide w) | false ↦ w ]

unfoldable pub ack_packet : SlidingWindow → ℕ → SlidingWindow
ack_packet w seq =
    let marked = record w { acked = insert seq true w.acked } in
    advance (length marked.acked) marked

abbrev or_skip : Option Packet → List Packet → List Packet
or_skip none rest = rest
or_skip (some p) rest = p ∷ rest

-- The loop of `GetUnackedPackets` over `rounds` sequence numbers from `seq` on.
unfoldable pub collect : ℕ → ℕ → SlidingWindow → List Packet
collect zero seq w = []
collect (suc rounds) seq w = or_skip (lookup seq w.buffer) (collect rounds (seq + 1) w)

-- `seqNum < sw.NextSeq` compares plain numbers: nothing is visited once `NextSeq` has wrapped.
unfoldable pub get_unacked_packets : SlidingWindow → List Packet
get_unacked_packets w = collect (w.next_seq - w.base_seq) w.base_seq w

-- Of two int64 bit patterns, whether the first stands for the larger number.
abbrev pub s64_gt : ℕ → ℕ → Bool
s64_gt a b = ltb ((b + 2 ^ 63) % 2 ^ 64) ((a + 2 ^ 63) % 2 ^ 64)

-- `now - packet.Timestamp > timeout`
abbrev pub is_due : ℕ → ℕ → Packet → Bool
is_due now timeout p = s64_gt ((now + 2 ^ 64 - p.timestamp) % 2 ^ 64) timeout

-- The entries of `sw.Buffer` in the order of the list: the packets to send again, and the buffer
-- with their new times.
unfoldable pub refresh : ℕ → ℕ → SlidingWindow → List (ℕ × Packet) → List Packet × List (ℕ × Packet)
refresh now timeout w [] = ([], [])
refresh now timeout w ((seq, p) ∷ rest) =
    let (packets, kept) = refresh now timeout w rest in
    let fresh : Packet = record p { timestamp = now } in
    if not (is_acked seq w) && is_due now timeout p
    then (fresh ∷ packets, (seq, fresh) ∷ kept)
    else (packets, (seq, p) ∷ kept)

unfoldable pub get_retransmission_packets : SlidingWindow → ℕ → ℕ → List Packet × SlidingWindow
get_retransmission_packets w now timeout =
    let (packets, kept) = refresh now timeout w w.buffer in (packets, record w { buffer = kept })
