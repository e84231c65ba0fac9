-- ===== src/Lab2/Packet/Wire.antt =====
-- The bytes that `Serialize` writes, and when `DeserializePacket` takes them.
use nssa_ds.Base.{
  ℕ, zero, suc, ◌+◌, ◌-◌, ◌*◌, ◌/◌, ◌%◌, ◌^◌, ◌≤◌, ◌<◌, ◌≡◌, refl, ap, ◌⊎◌, inl, inr, ◌↔◌, [], ◌∷◌,
  ◌++◌, arith, ℕ_discrete, length, get_or, set, copy_at, All, length-set, length-append, All-append,
  replicate-add, overlay-replicate,
}
use nssa_ds.Base.Bytes.{set-IsByte, get_or-IsByte, Bytes, IsByte, be16, be32, be64}
use nssa_ds.Lab2.Packet.{Packet, IsPacket, fill, serialize, calculate_checksum}
use nssa_ds.Lab2.Packet.Checksum.{word_sum, weight, word_sum-set, checksum_lem}

-- The first 22 bytes of the buffer, before `rest`.
abbrev pub header : Packet → Bytes → Bytes
header p rest =
    p.type
    ∷ (be32 p.seq_num
        ++ (be32 p.ack_num
            ++ (be16 p.window
                ++ (p.flags ∷ (be64 p.timestamp ++ (be16 (length p.payload % 2 ^ 16) ++ rest))))))

-- The buffer before the checksum: the header, the data and one byte more.
abbrev pub filled : Packet → Bytes
filled p = header p (p.payload ++ (0 ∷ []))

pub fill-filled : (p : Packet) → fill p ≡ filled p
unfolding fill
fill-filled p =
    let e : 23 + length p.payload ≡ 22 + (length p.payload + 1) = omega arith in
    rw (e, replicate-add {A = ℕ} 22 (length p.payload + 1) 0)
      (ap (header p) (overlay-replicate p.payload 1 0))

-- The checksum's two bytes replace the low byte of the length and the first byte of the data.
copy_at_pair : (xs : Bytes) (i a b : ℕ) → copy_at xs i (a ∷ b ∷ []) ≡ set (set xs i a) (suc i) b
copy_at_pair [] zero a b = refl
copy_at_pair [] (suc i) a b = refl
copy_at_pair (x ∷ []) zero a b = refl
copy_at_pair (x ∷ y ∷ xs) zero a b = refl
copy_at_pair (x ∷ xs) (suc i) a b = ap (◌∷◌ x) (copy_at_pair xs i a b)

pub wire-set :
    (p : Packet)
    → (serialize p).1
      ≡ set
          (set (filled p) 21 ((serialize p).0.checksum / 2 ^ 8 % 256))
          22
          ((serialize p).0.checksum % 256)
unfolding serialize
wire-set p = rw (copy_at_pair (fill p) 21, fill-filled p)

filled-IsByte : (p : Packet) → IsPacket p → All IsByte (filled p)
filled-IsByte p v =
    let tail = All-append IsByte p.payload (0 ∷ []) v.payload_bytes (omega arith) in
    ground (arith, tail)

length-filled : (p : Packet) → length (filled p) ≡ 23 + length p.payload
length-filled p = omega (arith, length-append p.payload (0 ∷ []))

-- The byte that follows the header, which the low byte of the checksum replaces.
abbrev pub first_byte : Packet → ℕ
first_byte p = get_or (p.payload ++ (0 ∷ [])) 0 0

-- The checksum is what stood in its place.
abbrev pub IsHarmless : Packet → Type 0
IsHarmless p = (serialize p).0.checksum ≡ length p.payload % 256 * 256 + first_byte p

-- The checksum 0000 over two bytes ff is not noticed.
abbrev pub Collides : Packet → Type 0
Collides p = ((serialize p).0.checksum ≡ 0) × (length p.payload % 256 ≡ 255) × (first_byte p ≡ 255)

-- Ones' complement sums `S` and `T` of two buffers with checksums `C` and `D`, where the second has
-- the bytes of `C` in place of `L` (a low byte) and `F` (a high byte).
replaced_iff :
    (S T C D L F : ℕ)
    → T + L + 256 * F ≡ S + C / 256 + 256 * (C % 256)
    → (C ≤ 0xffff) × ((0xffff - C) % 65535 ≡ S % 65535)
    → (D ≤ 0xffff) × ((0xffff - D) % 65535 ≡ T % 65535)
    → (0 < S → C < 0xffff) × (S ≡ 0 → C ≡ 0xffff)
    → (0 < T → D < 0xffff)
    → 0 < T
    → L < 256
    → F < 256
    → (D ≡ C) ↔ ((C ≡ L * 256 + F) ⊎ ((C ≡ 0) × (L ≡ 255) × (F ≡ 255)))
replaced_iff S T C D L F e (cb, cr) (db, dr) (c1, c0) d1 pos l f = (
  λ same. elim (ℕ_discrete (L + 256 * F) (C / 256 + 256 * (C % 256))) [
    | yes hit ↦ inl (omega arith)
    | no miss ↦ inr (omega arith, omega arith, omega arith)
  ],
  elim [ inl h ↦ grind arith | inr h ↦ grind arith ],
)

module _ (p : Packet) (v : IsPacket p) (known : 0 < p.type) (short : length p.payload < 65513) where
  wire-pos : 0 < word_sum (serialize p).1
  unfolding word_sum
  wire-pos = rw (wire-set p) (omega arith)

  sent :
      ((serialize p).0.checksum ≤ 0xffff)
      × ((0xffff - (serialize p).0.checksum) % 65535 ≡ word_sum (filled p) % 65535)
      × (0 < word_sum (filled p) → (serialize p).0.checksum < 0xffff)
      × (word_sum (filled p) ≡ 0 → (serialize p).0.checksum ≡ 0xffff)
  unfolding serialize
  sent =
      rw (fill-filled p) (checksum_lem _ (filled-IsByte p v) (rw (length-filled p) (omega arith)))

  pub checksum-lt : (serialize p).0.checksum ≤ 0xffff
  checksum-lt = sent.0

  pub wire-IsByte : All IsByte (serialize p).1
  wire-IsByte =
      let hi = (serialize p).0.checksum / 2 ^ 8 % 256 in
      let first = set-IsByte (filled p) 21 hi (filled-IsByte p v) (omega arith) in
      rw (wire-set p) (set-IsByte (set (filled p) 21 hi) 22 _ first (omega arith))

  pub length-wire : length (serialize p).1 ≡ 23 + length p.payload
  length-wire = rw (wire-set p, length-set, length-set) (length-filled p)

  pub first_byte-lt : first_byte p < 256
  first_byte-lt = get_or-IsByte _ 0 (All-append IsByte p.payload _ v.payload_bytes (omega arith))

  -- What the two replaced bytes add to the sum.
  word_sum-wire :
      word_sum (serialize p).1 + length p.payload % 256 + 256 * first_byte p
      ≡ word_sum (filled p)
        + (serialize p).0.checksum / 256
        + 256 * ((serialize p).0.checksum % 256)
  unfolding weight
  word_sum-wire =
      let hi = (serialize p).0.checksum / 2 ^ 8 % 256 in
      let lo = (serialize p).0.checksum % 256 in
      let low = word_sum-set (filled p) 21 hi (omega (arith, length-filled p)) in
      let high =
        word_sum-set (set (filled p) 21 hi) 22 lo
          (rw length-set (omega (arith, length-filled p))) in
      rw (wire-set p) (omega (arith, low, high, checksum-lt))

  -- The checksum of the bytes that `Serialize` writes is the checksum that it stored in the packet
  -- exactly if that is harmless or collides. The fields are within their types, the type is not 0
  -- and the data have less than 65513 bytes.
  pub checksum-wire_iff :
      (calculate_checksum (serialize p).1 ≡ (serialize p).0.checksum) ↔ (IsHarmless p ⊎ Collides p)
  checksum-wire_iff =
      let (sent_le, sent_mod, sent_pos, sent_zero) = sent in
      let (back_le, back_mod, back_pos, _) =
        checksum_lem (serialize p).1 wire-IsByte (rw length-wire (omega arith)) in
      replaced_iff (word_sum (filled p)) (word_sum (serialize p).1) (serialize p).0.checksum
        (calculate_checksum (serialize p).1) (length p.payload % 256) (first_byte p) word_sum-wire
        (sent_le, sent_mod) (back_le, back_mod) (sent_pos, sent_zero) back_pos wire-pos
        (omega arith) first_byte-lt
