-- ===== src/Lab2/Client/Upload/Shared.antt =====
-- The packets of a file that wait for their acknowledgment, which all are slices of one buffer.
use nssa_ds.Base.{
  ℕ, zero, suc, ◌+◌, ◌^◌, ◌≤◌, ◌<◌, ◌≡◌, ◌≢◌, ◌⊎◌, refl, sym, ◌∙◌, ap, inl, inr, Bool, true, false,
  Bool-cases, List, [], ◌∷◌, ◌++◌, Option, some, ◌==◌, ==_iff, length, take, drop, take_all,
  append-nil, arith,
}
use nssa_ds.Base.Map.{nat_key, lookup, lookup-insert_same, lookup-insert_ne}
use nssa_ds.Base.Bytes.{Bytes}
use nssa_ds.Lab2.Packet.{Packet, new_packet, serialize}
use nssa_ds.Lab2.PacketType
use nssa_ds.Lab2.Window.{u32, can_send}
use nssa_ds.Lab2.Reliability.{ReliabilityManager, send_packet}
use nssa_ds.Lab2.Client.Upload.{Link, Sending, refill, read_chunk, test_packet, send_tests}
use nssa_ds.Lab2.Client.Upload.Spec.{after_round, is_tested}
use nssa_ds.Lab2.Client.Upload.Tried.{flight, sends-rel_mgr}
use nssa_ds.Lab2.Client.Upload.Rounds.{
  counted_round, finished, after_round-finished, accepted-Round,
}

-- Packet `j` of the file waits, and is a slice of the buffer with these bytes.
abbrev pub Holds : Sending → ℕ → Bytes → Type 0
Holds s j items = (p : Packet) × (lookup j s.rel_mgr.pending_packets ≡ some p) × (p.payload ≡ items)

abbrev pub Shares : Sending → ℕ → Bytes → Type 0
Shares s j items = Holds s j items × (s.shared j ≡ true)

drop_all : (xs : Bytes) (n : ℕ) → length xs ≤ n → drop n xs ≡ []
drop_all [] zero h = refl
drop_all [] (suc n) h = refl
drop_all (x ∷ xs) zero h = absurd (omega (arith, h))
drop_all (x ∷ xs) (suc n) h = drop_all xs n (omega (arith, h))

lookup-refill :
    (shared : ℕ → Bool) (buffer : Bytes) (j : ℕ) (p : Packet) (m : List (ℕ × Packet))
    → shared j ≡ true
    → lookup j m ≡ some p
    → lookup j (refill shared buffer m)
      ≡ some (record p { payload = take (length p.payload) buffer })
unfolding lookup refill
lookup-refill shared buffer j p [] h e = cc
lookup-refill shared buffer j p ((k, q) ∷ rest) h e = elim (Bool-cases (k == j)) [
  | inl hit ↦
      let here : ◌≡◌ {A = Option Packet} (some q) (some p) = rw hit at e in
      let same : q ≡ p = cc in
      let shared_k : shared k ≡ true = ap shared ((==_iff k j).0 hit) ∙ h in
      rw (hit, shared_k)
        (ap (λ (t : Packet). some (record t { payload = take (length t.payload) buffer })) same)
  | inr miss ↦ rw miss (lookup-refill shared buffer j p rest h (rw miss at e))
]

send_packet-others :
    (rm : ReliabilityManager) (p : Packet) (written : Bool) (j : ℕ)
    → p.seq_num ≢ j
    → lookup j (send_packet rm p written).0.pending_packets ≡ lookup j rm.pending_packets
unfolding send_packet
send_packet-others rm p written j apart =
    lookup-insert_ne p.seq_num j (serialize p).0 rm.pending_packets apart

send_packet-same :
    (rm : ReliabilityManager) (p : Packet) (written : Bool)
    → lookup p.seq_num (send_packet rm p written).0.pending_packets ≡ some (serialize p).0
unfolding send_packet
send_packet-same rm p written = lookup-insert_same p.seq_num (serialize p).0 rm.pending_packets

serialize-payload : (p : Packet) → (serialize p).0.payload ≡ p.payload
unfolding serialize
serialize-payload p = refl

pub read_chunk-Shares :
    (chunk items : Bytes) (s : Sending) (j : ℕ)
    → length chunk ≡ length s.buffer
    → length items ≡ length chunk
    → Shares s j items
    → Shares (read_chunk chunk s) j chunk
unfolding read_chunk
read_chunk-Shares chunk items s j full same ((p, there, held), h) =
    let buffer : chunk ++ drop (length chunk) s.buffer ≡ chunk =
      ap (λ t. chunk ++ t) (drop_all s.buffer (length chunk) (omega (arith, full)))
      ∙ append-nil chunk in
    let all : take (length p.payload) (chunk ++ drop (length chunk) s.buffer) ≡ chunk =
      ap (λ t. take (length p.payload) t) buffer
      ∙ take_all (length p.payload) chunk (omega (arith, same, ap length held)) in
    (
      (
        _,
        lookup-refill s.shared (chunk ++ drop (length chunk) s.buffer) j p s.rel_mgr.pending_packets
            h there,
        all,
      ),
      h,
    )

send_tests-Shares :
    (sizes : List ℕ) (now : ℕ) (s : Sending) (j : ℕ) (items : Bytes)
    → 0 < j
    → Shares s j items
    → Shares (send_tests sizes now s) j items
unfolding send_tests new_packet
send_tests-Shares [] now s j items pos h = h
send_tests-Shares (size ∷ sizes) now s j items pos ((p, there, held), h) =
    let apart : 0 ≢ j = λ e. omega (arith, pos, e) in
    send_tests-Shares sizes now _ j items pos (
      (p, send_packet-others s.rel_mgr (test_packet now size) true j apart ∙ there, held),
      ground (arith, pos, h),
    )

-- The packets from 1 on that are sent all have these bytes, as many as the buffer has.
pub record Kept (s : Sending) (items : Bytes) : Type 0 where
  pub each : (j : ℕ) → 0 < j → j < s.seq_num → Shares s j items
  pub fills : length items ≡ length s.buffer

module _ (link : Link) (size b : ℕ) (bs : Bytes) (rest : List (Option Bytes)) (s : Sending)
    (w : link.written s.seq_num ≡ true) (free : can_send (flight link (b ∷ bs) s) ≡ true) where
  abbrev chunk : Bytes
  chunk = b ∷ bs

  counted-Shares :
      (j : ℕ)
      → (j ≡ s.seq_num) ⊎ Shares (read_chunk chunk s) j chunk
      → Shares (counted_round link size b bs rest s w) j chunk
  unfolding new_packet serialize read_chunk
  counted-Shares j h =
      let p = new_packet PacketType.data_packet s.seq_num chunk (link.clock s.seq_num) in
      let after = sends-rel_mgr link chunk s free in
      let rm = (read_chunk chunk s).rel_mgr in
      elim (Bool-cases (j == s.seq_num)) [
        | inl hit ↦
            let same : j ≡ s.seq_num = (==_iff j s.seq_num).0 hit in
            (
              (
                (serialize p).0,
                rw (after, same) (send_packet-same rm p (link.written s.seq_num)),
                refl,
              ),
              rw hit refl,
            )
        | inr miss ↦ elim h [
          | inl same ↦ let no : true ≡ false = sym ((==_iff j s.seq_num).1 same) ∙ miss in cc
          | inr ((q, there, held), shared) ↦ (
            (
              q,
              rw after (
                  send_packet-others rm p (link.written s.seq_num) j
                    (λ e. let no : true ≡ false = sym ((==_iff j s.seq_num).1 (sym e)) ∙ miss in cc)
                  ∙ there),
              held,
            ),
            rw miss shared,
          )
        ]
      ]

  finished-Shares :
      (tested : Bool) (j : ℕ)
      → 0 < j
      → Shares (counted_round link size b bs rest s w) j chunk
      → Shares (finished link size b bs rest s w tested) j chunk
  finished-Shares false j pos h = h
  finished-Shares true j pos h = send_tests-Shares link.sizes (link.clock s.seq_num) _ j chunk pos h

  pub after_round-Kept :
      (items : Bytes)
      → Kept s items
      → length chunk ≡ length s.buffer
      → s.total + length chunk < 2 ^ 63
      → s.seq_num + 1 < u32
      → Kept (after_round link size chunk s) chunk
  unfolding read_chunk
  after_round-Kept items k full bound below =
      let r = accepted-Round link size b bs rest s w free bound in
      let buffer : length (chunk ++ drop (length chunk) s.buffer) ≡ length chunk = ap length (
        ap (λ t. chunk ++ t) (drop_all s.buffer (length chunk) (omega (arith, full)))
        ∙ append-nil chunk) in
      record {
        each = λ j pos h.
            let last : j < s.seq_num + 1 = omega (arith, h, r.seq_num, below) in
            rw (after_round-finished link size b bs rest s w bound) (
              finished-Shares (is_tested size (s.total + length chunk)) j pos (
                counted-Shares j (elim (Bool-cases (j == s.seq_num)) [
                  | inl hit ↦ inl ((==_iff j s.seq_num).0 hit)
                  | inr miss ↦
                      let apart : j ≢ s.seq_num =
                        λ e. let no : true ≡ false = sym ((==_iff j s.seq_num).1 e) ∙ miss in cc in
                      inr (
                        read_chunk-Shares chunk items s j full (omega (arith, full, k.fills))
                          (k.each j pos (omega (arith, last, apart))))
                ])));
        fills = sym buffer ∙ ap length (sym r.buffer);
      }
