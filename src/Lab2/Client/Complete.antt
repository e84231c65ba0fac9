-- ===== src/Lab2/Client/Complete.antt =====
-- A download ends with success once the packets have arrived in order, among others.
use nssa_ds.Base.{
  ℕ, zero, suc, ◌+◌, ◌%◌, ◌^◌, ◌≤◌, ◌<◌, ◌≡◌, refl, ◌∙◌, ap, inl, inr, true, false, Bool-cases,
  List, [], ◌∷◌, ◌++◌, Option, some, arith, length, append-nil, none, s64_lt,
}
use nssa_ds.Base.Result.{ok}
use nssa_ds.Base.Bytes.{Bytes, Slice}
use nssa_ds.Lab2.Packet.{Packet, deserialize_packet}
use nssa_ds.Lab2.Window.{u32}
use nssa_ds.Lab2.Reliability.{ReliabilityManager, receive_packet, receive_decoded}
use nssa_ds.Lab2.Client.{Ended, done, Download, is_expected, receive_loop, receive_file}
use nssa_ds.Lab2.Client.Receive.{
  Carries, parts, acks_of, Has, Has-more, received-chunk, Reported, Left, InOrder,
  receive_file-InOrder,
}

-- `n` data packets from number `expected` on arrive in this order, with any others between them.
pub data Delivers : ℕ → ℕ → List (Option Slice) → Type 0 where
  arrived : (expected : ℕ) (rest : List (Option Slice)) → Delivers expected zero rest
  next :
      (expected n : ℕ) (datagram : Slice) (p : Packet) (rest : List (Option Slice))
      → deserialize_packet datagram ≡ ok p
      → is_expected expected p ≡ true
      → Delivers ((expected + 1) % u32) n rest
      → Delivers expected (suc n) (some datagram ∷ rest)
  other :
      (expected n : ℕ) (datagram : Slice) (p : Packet) (rest : List (Option Slice))
      → deserialize_packet datagram ≡ ok p
      → is_expected expected p ≡ false
      → Delivers expected n rest
      → Delivers expected n (some datagram ∷ rest)

received :
    (rm : ReliabilityManager) (datagram : Slice) (p : Packet)
    → deserialize_packet datagram ≡ ok p
    → (receive_packet rm (some datagram)).1 ≡ ok p
unfolding receive_packet receive_decoded
received rm datagram p e = rw e refl

-- The loop with everything it carries ends with success.
abbrev Succeeds : Download → Type 0
Succeeds r = (n : ℕ) × (r.ended ≡ done n)

at_size :
    (window : ℕ) (stores : ℕ → Option ℕ) (size : ℕ) (incoming : List (Option Slice))
    (rm : ReliabilityManager) (file : Bytes) (acks : List Packet) (total expected : ℕ)
    → s64_lt total size ≡ false
    → Succeeds (receive_loop window stores size incoming rm file acks total expected)
unfolding receive_loop
at_size window stores size [] rm file acks total expected t = rw t (total, refl)
at_size window stores size (x ∷ xs) rm file acks total expected t =
    rw (receive_loop, t) (total, refl)

receive_loop-Succeeds :
    (chunks : ℕ → Bytes) (window : ℕ) (stores : ℕ → Option ℕ) (size : ℕ)
    (incoming : List (Option Slice)) (rm : ReliabilityManager) (file : Bytes) (acks : List Packet)
    (total expected k n : ℕ)
    → Delivers expected n incoming
    → ((i : ℕ) → stores i ≡ none)
    → ((i : ℕ) → length (chunks i) ≤ 65536)
    → Carries chunks incoming
    → size + 65536 < 2 ^ 63
    → total < 2 ^ 63
    → size ≤ length (parts chunks (k + n))
    → Has chunks window k file acks total expected
    → Succeeds (receive_loop window stores size incoming rm file acks total expected)
unfolding receive_loop
receive_loop-Succeeds chunks window stores size _ rm file acks total _ k _ (arrived expected rest)
      all small says b b' l h =
    let here : k + 0 ≡ k = omega arith in
    let enough : size ≤ length (parts chunks k) = rw here at l in
    let full : length file ≡ length (parts chunks k) = ap length h.in_file in
    let over : size ≤ total = omega (arith, enough, full, h.in_total) in
    at_size window stores size rest rm file acks total expected (ground (arith, over, b, b'))
receive_loop-Succeeds chunks window stores size _ rm file acks total _ k _
      (next expected n datagram p rest e u d) all small says b b' l h =
    elim (Bool-cases (s64_lt total size)) [
      | inr t ↦ at_size window stores size (some datagram ∷ rest) rm file acks total expected t
      | inl t ↦
          let g = received rm datagram p e in
          let (same, number) = received-chunk chunks rm (some datagram) p expected says.0 g u in
          let short : length p.payload ≤ 65536 = rw same (small expected) in
          let below : total < size = ground (arith, t) in
          let has =
            Has-more chunks window k file acks total expected p.payload p.seq_num h same number
              (omega arith) in
          let turn : k + suc n ≡ suc k + n = omega arith in
          rw (receive_loop, t, g, u, all expected)
            (receive_loop-Succeeds chunks window stores size rest _ (file ++ p.payload) _
              ((total + length p.payload) % 2 ^ 64) ((expected + 1) % u32) (suc k) n d all small
              (says.1) b (omega arith) (rw turn at l) has)
    ]
receive_loop-Succeeds chunks window stores size _ rm file acks total _ k _
      (other expected n datagram p rest e u d) all small says b b' l h =
    elim (Bool-cases (s64_lt total size)) [
      | inr t ↦ at_size window stores size (some datagram ∷ rest) rm file acks total expected t
      | inl t ↦
          let g = received rm datagram p e in
          rw (receive_loop, t, g, u)
            (receive_loop-Succeeds chunks window stores size rest _ file acks total expected k n d
              all small (says.1) b b' l h)
    ]

Left-done :
    (chunk rest : Bytes) (n : ℕ) (why : Ended ℕ) → why ≡ done n → Left chunk rest why → rest ≡ []
Left-done chunk rest n why e l = let at : Left chunk rest (done n) = rw e at l in at

report :
    (chunks : ℕ → Bytes) (window size n : ℕ) (r : Download)
    → InOrder chunks window size r
    → r.ended ≡ done n
    → (k : ℕ) × (r.file ≡ parts chunks k)
      × (r.ended ≡ done (length r.file))
      × (size ≤ length r.file)
report chunks window size n r i e =
    let told : Reported size r.file (done n) = rw e at i.reported in
    let whole : i.rest ≡ [] = Left-done (chunks (i.count % u32)) i.rest n r.ended e i.left in
    (
      i.count,
      i.filled ∙ ap (λ b. parts chunks i.count ++ b) whole ∙ append-nil (parts chunks i.count),
      e ∙ ap done told.0,
      omega (arith, told.0, told.1),
    )

-- A download to a file that can be created, in which enough packets arrive in order, whatever comes between them, ends with success: the
-- file is the first chunks one behind the other, it has the size at least, and its length is what is reported.
-- Every read brings a packet that is accepted and every write to the file succeeds; chunks have at most 65536
-- bytes, and the size is below 2 ^ 63 by as many.
pub receive_file-Delivers :
    (chunks : ℕ → Bytes) (window : ℕ) (stores : ℕ → Option ℕ) (size : ℕ)
    (incoming : List (Option Slice)) (rm : ReliabilityManager) (n : ℕ)
    → Delivers 0 n incoming
    → ((i : ℕ) → stores i ≡ none)
    → ((i : ℕ) → length (chunks i) ≤ 65536)
    → Carries chunks incoming
    → size + 65536 < 2 ^ 63
    → size ≤ length (parts chunks n)
    → (k : ℕ) × ((receive_file true window stores size incoming rm).file ≡ parts chunks k)
      × ((receive_file true window stores size incoming rm).ended
          ≡ done (length (receive_file true window stores size incoming rm).file))
      × (size ≤ length (receive_file true window stores size incoming rm).file)
unfolding receive_file parts acks_of
receive_file-Delivers chunks window stores size incoming rm n d all small says b l =
    let whole : 0 + n ≡ n = omega arith in
    let (m, e) =
      receive_loop-Succeeds chunks window stores size incoming rm [] [] 0 0 0 n d all small says b
        (omega arith) (rw whole l)
        (record { in_file = refl; in_acks = refl; in_total = refl; in_expected = refl }) in
    report chunks window size m (receive_file true window stores size incoming rm)
      (receive_file-InOrder chunks window stores size incoming rm small says b) e
