-- ===== src/Lab2/Client/Receive.antt =====
-- What a download leaves, whichever packets arrive, in whichever order and how often.
use nssa_ds.Base.{
  ℕ, zero, suc, ◌+◌, ◌%◌, ◌^◌, ◌≤◌, ◌<◌, ◌≡◌, refl, sym, ◌∙◌, ap, inl, inr, true, false, Bool-cases,
  List, [], ◌∷◌, ◌++◌, Option, none, some, arith, ==_iff, length, length-append, append-nil, take,
  s64_lt,
}
use nssa_ds.Base.Result.{Result, ok, err, panic}
use nssa_ds.Base.Bytes.{Bytes, Slice}
use nssa_ds.Lab2.Packet.{Packet, DecodeError, deserialize_packet, new_ack_packet}
use nssa_ds.Lab2.PacketType
use nssa_ds.Lab2.Window.{u32}
use nssa_ds.Lab2.Reliability.{
  ReliabilityManager, ReceiveError, receive_packet, receive_decoded, send_packet,
}
use nssa_ds.Lab2.Client.{
  Ended, done, receive_failed, refused, write_failed, panics, waits, Download, stop, is_expected,
  receive_loop, receive_file,
}

-- A read that brings a data packet brings the chunk of its number.
abbrev pub Says : (ℕ → Bytes) → Option Slice → Type 0
Says chunks none = Unit {0}
Says chunks (some datagram) =
    (p : Packet)
    → deserialize_packet datagram ≡ ok p
    → p.type ≡ PacketType.data_packet
    → p.payload ≡ chunks p.seq_num

abbrev pub Carries : (ℕ → Bytes) → List (Option Slice) → Type 0
Carries chunks [] = Unit {0}
Carries chunks (incoming ∷ rest) = Says chunks incoming × Carries chunks rest

-- The first `k` chunks, one behind the other.
unfoldable pub parts : (ℕ → Bytes) → ℕ → Bytes
parts chunks zero = []
parts chunks (suc k) = parts chunks k ++ chunks (k % u32)

-- The acknowledgments of the first `k` packets.
unfoldable pub acks_of : ℕ → ℕ → List Packet
acks_of window zero = []
acks_of window (suc k) =
    acks_of window k ++ (new_ack_packet (k % u32) ((k % u32 + 1) % u32) window ∷ [])

-- A success is reported with the bytes of the file, and for no file below the size.
abbrev pub Reported : ℕ → Bytes → Ended ℕ → Type 0
Reported size file (done n) = (n ≡ length file) × (size ≤ n)
Reported size file (receive_failed e) = Unit {0}
Reported size file (refused why) = Unit {0}
Reported size file write_failed = Unit {0}
Reported size file panics = Unit {0}
Reported size file waits = Unit {0}

-- What of a write that failed is in the file behind the whole chunks.
abbrev pub Left : Bytes → Bytes → Ended ℕ → Type 0
Left chunk rest (done n) = rest ≡ []
Left chunk rest (receive_failed e) = rest ≡ []
Left chunk rest (refused why) = rest ≡ []
Left chunk rest write_failed = (k : ℕ) × (rest ≡ take k chunk)
Left chunk rest panics = rest ≡ []
Left chunk rest waits = rest ≡ []

pub record InOrder (chunks : ℕ → Bytes) (window size : ℕ) (r : Download) : Type 0 where
  pub count : ℕ
  pub rest : Bytes
  pub left : Left (chunks (count % u32)) rest r.ended
  pub filled : r.file ≡ parts chunks count ++ rest
  pub acknowledged : r.acks ≡ acks_of window count
  pub reported : Reported size r.file r.ended

decoded :
    (rm : ReliabilityManager) (r : Result DecodeError Packet) (p : Packet)
    → (receive_decoded rm r).1 ≡ ok p
    → r ≡ ok p
unfolding receive_decoded
decoded rm (ok q) p h = cc
decoded rm (err e) p h = cc
decoded rm panic p h = cc

pub received-chunk :
    (chunks : ℕ → Bytes) (rm : ReliabilityManager) (incoming : Option Slice) (p : Packet)
    (expected : ℕ)
    → Says chunks incoming
    → (receive_packet rm incoming).1 ≡ ok p
    → is_expected expected p ≡ true
    → (p.payload ≡ chunks expected) × (p.seq_num ≡ expected)
unfolding receive_packet
received-chunk chunks rm none p expected says h t = cc
received-chunk chunks rm (some datagram) p expected says h t =
    let type : p.type ≡ PacketType.data_packet =
      ground (arith, ==_iff p.type PacketType.data_packet) in
    let number : p.seq_num ≡ expected = ground (arith, ==_iff p.seq_num expected) in
    (says p (decoded rm (deserialize_packet datagram) p h) type ∙ ap chunks number, number)

data Received (r : Result ReceiveError Packet) : Type 0 where
  as_ok : (p : Packet) → r ≡ ok p → Received r
  as_err : (e : ReceiveError) → r ≡ err e → Received r
  as_panic : r ≡ panic → Received r

result_cases : (r : Result ReceiveError Packet) → Received r
result_cases (ok p) = as_ok p refl
result_cases (err e) = as_err e refl
result_cases panic = as_panic refl

-- The loop has `k` chunks.
pub record Has (chunks : ℕ → Bytes) (window k : ℕ) (file : Bytes) (acks : List Packet)
    (total expected : ℕ) : Type 0 where
  pub in_file : file ≡ parts chunks k
  pub in_acks : acks ≡ acks_of window k
  pub in_total : total ≡ length file
  pub in_expected : expected ≡ k % u32

stop-InOrder :
    (chunks : ℕ → Bytes) (window size k : ℕ) (rm : ReliabilityManager) (file : Bytes)
    (acks : List Packet) (total expected : ℕ) (why : Ended ℕ)
    → Has chunks window k file acks total expected
    → Left (chunks (k % u32)) [] why
    → Reported size file why
    → InOrder chunks window size (stop rm file acks why)
stop-InOrder chunks window size k rm file acks total expected why h l r = record {
  count = k;
  rest = [];
  left = l;
  filled = h.in_file ∙ sym (append-nil (parts chunks k));
  acknowledged = h.in_acks;
  reported = r;
}

-- A write that failed after `j` bytes.
part-InOrder :
    (chunks : ℕ → Bytes) (window size k j : ℕ) (rm : ReliabilityManager) (file : Bytes)
    (acks : List Packet) (total expected : ℕ) (payload : Bytes)
    → Has chunks window k file acks total expected
    → payload ≡ chunks expected
    → InOrder chunks window size (stop rm (file ++ take j payload) acks write_failed)
part-InOrder chunks window size k j rm file acks total expected payload h same = record {
  count = k;
  rest = take j payload;
  left = (j, ap (take j) (same ∙ ap chunks h.in_expected));
  filled = ap (λ front. front ++ take j payload) h.in_file;
  acknowledged = h.in_acks;
  reported = tt;
}

data Chosen (o : Option ℕ) : Type 0 where
  as_none : o ≡ none → Chosen o
  as_some : (j : ℕ) → o ≡ some j → Chosen o

option_cases : (o : Option ℕ) → Chosen o
option_cases none = as_none refl
option_cases (some j) = as_some j refl

pub Has-more :
    (chunks : ℕ → Bytes) (window k : ℕ) (file : Bytes) (acks : List Packet) (total expected : ℕ)
    (payload : Bytes) (seq : ℕ)
    → Has chunks window k file acks total expected
    → payload ≡ chunks expected
    → seq ≡ expected
    → total + length payload < 2 ^ 63
    → Has chunks window
        (suc k)
        (file ++ payload)
        (acks ++ (new_ack_packet seq ((expected + 1) % u32) window ∷ []))
        ((total + length payload) % 2 ^ 64)
        ((expected + 1) % u32)
unfolding parts acks_of
Has-more chunks window k file acks total expected payload seq h e f b = record {
  in_file = rw (e, h.in_expected, h.in_file) refl;
  in_acks = rw (f, h.in_expected, h.in_acks) refl;
  in_total = omega (arith, h.in_total, length-append file payload);
  in_expected = omega (arith, h.in_expected);
}

reached :
    (chunks : ℕ → Bytes) (window size k : ℕ) (rm : ReliabilityManager) (file : Bytes)
    (acks : List Packet) (total expected : ℕ)
    → Has chunks window k file acks total expected
    → s64_lt total size ≡ false
    → total < 2 ^ 63
    → size < 2 ^ 63
    → InOrder chunks window size (stop rm file acks (done total))
reached chunks window size k rm file acks total expected h t b b' =
    let enough : size ≤ total = ground (arith, t) in
    stop-InOrder chunks window size k rm file acks total expected (done total) h refl
      (h.in_total, enough)

receive_loop-InOrder :
    (chunks : ℕ → Bytes) (window : ℕ) (stores : ℕ → Option ℕ) (size : ℕ)
    (incoming : List (Option Slice)) (rm : ReliabilityManager) (file : Bytes) (acks : List Packet)
    (total expected k : ℕ)
    → ((n : ℕ) → length (chunks n) ≤ 65536)
    → Carries chunks incoming
    → size + 65536 < 2 ^ 63
    → total < 2 ^ 63
    → Has chunks window k file acks total expected
    → InOrder chunks window size
        (receive_loop window stores size incoming rm file acks total expected)
unfolding receive_loop
receive_loop-InOrder chunks window stores size [] rm file acks total expected k small says b b' h =
    elim (Bool-cases (s64_lt total size)) [
      | inl t ↦ rw t (stop-InOrder chunks window size k rm file acks total expected waits h refl tt)
      | inr t ↦ rw t (reached chunks window size k rm file acks total expected h t b' (omega arith))
    ]
receive_loop-InOrder chunks window stores size (incoming ∷ rest) rm file acks total expected k small
      says b b' h =
    elim (Bool-cases (s64_lt total size)) [
      | inr t ↦
          rw (receive_loop, t)
            (reached chunks window size k rm file acks total expected h t b' (omega arith))
      | inl t ↦
          let rm' = (receive_packet rm incoming).0 in
          elim (result_cases (receive_packet rm incoming).1) [
            | as_err e g ↦
                rw (receive_loop, t, g)
                  (stop-InOrder chunks window size k rm' file acks total expected (receive_failed e)
                    h refl tt)
            | as_panic g ↦
                rw (receive_loop, t, g)
                  (stop-InOrder chunks window size k rm' file acks total expected panics h refl tt)
            | as_ok p g ↦ elim (Bool-cases (is_expected expected p)) [
              | inr u ↦
                  rw (receive_loop, t, g, u)
                    (receive_loop-InOrder chunks window stores size rest rm' file acks total
                      expected k small (says.1) b b' h)
              | inl u ↦ elim (option_cases (stores expected)) [
                | as_some j v ↦
                    let (same, number) = received-chunk chunks rm incoming p expected says.0 g u in
                    rw (receive_loop, t, g, u, v)
                      (part-InOrder chunks window size k j rm' file acks total expected p.payload h
                        same)
                | as_none v ↦
                    let (same, number) = received-chunk chunks rm incoming p expected says.0 g u in
                    let next = (expected + 1) % u32 in
                    let ack = new_ack_packet p.seq_num next window in
                    let short : length p.payload ≤ 65536 = rw same (small expected) in
                    let below : total < size = ground (arith, t) in
                    let has =
                      Has-more chunks window k file acks total expected p.payload p.seq_num h same
                        number (omega arith) in
                    rw (receive_loop, t, g, u, v)
                      (receive_loop-InOrder chunks window stores size rest
                        (send_packet rm' ack true).0 (file ++ p.payload) (acks ++ (ack ∷ []))
                        ((total + length p.payload) % 2 ^ 64) next (suc k) small (says.1) b
                        (omega arith) has)
              ]
            ]
          ]
    ]

-- A download to a file that can be created, whichever packets arrive, in whichever order and how often, as long
-- as a data packet has the chunk of its number: the file is the first chunks one behind the other, each once,
-- and, if the last write to it failed, some of the next chunk's first bytes; just the whole chunks are
-- acknowledged, in order; and a success is reported only with the length of the file, which is then no
-- less than the size. Chunks have at most 65536 bytes, and the size is below 2 ^ 63 by as many.
pub receive_file-InOrder :
    (chunks : ℕ → Bytes) (window : ℕ) (stores : ℕ → Option ℕ) (size : ℕ)
    (incoming : List (Option Slice)) (rm : ReliabilityManager)
    → ((n : ℕ) → length (chunks n) ≤ 65536)
    → Carries chunks incoming
    → size + 65536 < 2 ^ 63
    → InOrder chunks window size (receive_file true window stores size incoming rm)
unfolding receive_file parts acks_of
receive_file-InOrder chunks window stores size incoming rm small says b =
    receive_loop-InOrder chunks window stores size incoming rm [] [] 0 0 0 small says b
      (omega arith) (record { in_file = refl; in_acks = refl; in_total = refl; in_expected = refl })
