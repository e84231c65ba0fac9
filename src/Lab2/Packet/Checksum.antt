-- ===== src/Lab2/Packet/Checksum.antt =====
-- What `calculateChecksum` computes: the sum of the words modulo 65535, complemented.
use nssa_ds.Base.{
  ℕ, zero, suc, ◌+◌, ◌-◌, ◌*◌, ◌%◌, ◌^◌, ◌≤◌, ◌<◌, ◌≡◌, refl, ◌≢◌, ◌⊎◌, inl, inr, [], ◌∷◌, arith,
  length, get_or, set, All, length-set,
}
use nssa_ds.Base.Order.{lt_wf}
use nssa_ds.Base.Bytes.{Bytes, IsByte, set-IsByte, get_or-IsByte}
use nssa_ds.Lab2.Packet.{sum_words, fold_shrinks, fold_carries, calculate_checksum}
use mathlib.Core.WellFounded.{Acc}

-- The words of a buffer, added with no bound.
unfoldable pub word_sum : Bytes → ℕ
word_sum [] = 0
word_sum (b ∷ []) = b * 256
word_sum (hi ∷ lo ∷ rest) = hi * 256 + lo + word_sum rest

word_sum-le : (xs : Bytes) → All IsByte xs → word_sum xs ≤ 65535 * length xs
unfolding word_sum
word_sum-le [] h = omega arith
word_sum-le (b ∷ []) h = omega arith
word_sum-le (hi ∷ lo ∷ rest) (h, (l, r)) = omega (arith, word_sum-le rest r)

-- Below 65536 bytes the uint32 sum does not wrap.
sum_words-eq :
    (xs : Bytes) (sum : ℕ) → sum + word_sum xs < 2 ^ 32 → sum_words sum xs ≡ sum + word_sum xs
unfolding word_sum sum_words
sum_words-eq [] sum h = omega arith
sum_words-eq (b ∷ []) sum h = omega arith
sum_words-eq (hi ∷ lo ∷ rest) sum h =
    omega (arith, sum_words-eq rest ((sum + (hi * 2 ^ 8 + lo)) % 2 ^ 32))

-- Folding keeps the residue modulo 65535, and 0 comes from 0 only.
fold_carries_lem :
    (sum : ℕ) (w : Acc ◌<◌ sum)
    → (fold_carries sum w ≤ 0xffff)
      × (fold_carries sum w % 65535 ≡ sum % 65535)
      × (fold_carries sum w ≤ sum)
      × (0 < sum → 0 < fold_carries sum w)
unfolding fold_carries
fold_carries_lem sum (Acc.intro _ smaller) =
    grind (arith, λ (more : 0xffff < sum). fold_carries_lem _ (smaller _ (fold_shrinks sum more)))

pub checksum_lem :
    (xs : Bytes)
    → All IsByte xs
    → length xs < 2 ^ 16
    → (calculate_checksum xs ≤ 0xffff)
      × ((0xffff - calculate_checksum xs) % 65535 ≡ word_sum xs % 65535)
      × (0 < word_sum xs → calculate_checksum xs < 0xffff)
      × (word_sum xs ≡ 0 → calculate_checksum xs ≡ 0xffff)
unfolding calculate_checksum
checksum_lem xs bytes short = grind (
  arith,
  word_sum-le xs bytes,
  sum_words-eq xs 0,
  fold_carries_lem (sum_words 0 xs) (lt_wf.apply (sum_words 0 xs)),
)

-- How much a byte counts at position `i`.
unfoldable pub weight : ℕ → ℕ
weight zero = 256
weight (suc zero) = 1
weight (suc (suc i)) = weight i

weight-pos : (i : ℕ) → (1 ≤ weight i) × (weight i ≤ 256)
unfolding weight
weight-pos zero = omega arith
weight-pos (suc zero) = omega arith
weight-pos (suc (suc i)) = weight-pos i

pub word_sum-set :
    (xs : Bytes) (i v : ℕ)
    → i < length xs
    → word_sum (set xs i v) + weight i * get_or xs i 0 ≡ word_sum xs + weight i * v
unfolding word_sum weight
word_sum-set [] i v h = elim h [ ]
word_sum-set (b ∷ []) zero v h = omega arith
word_sum-set (b ∷ []) (suc i) v h = absurd (omega arith)
word_sum-set (hi ∷ lo ∷ rest) zero v h = omega arith
word_sum-set (hi ∷ lo ∷ rest) (suc zero) v h = omega arith
word_sum-set (hi ∷ lo ∷ rest) (suc (suc i)) v h = omega (arith, word_sum-set rest i v (omega arith))

weight-cases : (i : ℕ) → (weight i ≡ 256) ⊎ (weight i ≡ 1)
unfolding weight
weight-cases zero = inl refl
weight-cases (suc zero) = inr refl
weight-cases (suc (suc i)) = weight-cases i

-- Replacing one byte of a buffer shorter than 65536 bytes by another one changes its checksum.
pub calculate_checksum-set_ne :
    (xs : Bytes) (i v : ℕ)
    → All IsByte xs
    → length xs < 2 ^ 16
    → i < length xs
    → IsByte v
    → v ≢ get_or xs i 0
    → calculate_checksum (set xs i v) ≢ calculate_checksum xs
calculate_checksum-set_ne xs i v bytes short inside byte other same = elim (weight-cases i) [
  | inl even ↦ omega (arith, rw even at change, before, after, old, same, other)
  | inr odd ↦ omega (arith, rw odd at change, before, after, old, same, other)
]
  where
    change : word_sum (set xs i v) + weight i * get_or xs i 0 ≡ word_sum xs + weight i * v
    change = word_sum-set xs i v inside

    old : get_or xs i 0 < 256
    old = get_or-IsByte xs i bytes

    before :
        (calculate_checksum xs ≤ 0xffff)
        × ((0xffff - calculate_checksum xs) % 65535 ≡ word_sum xs % 65535)
    before = let (a, b, _, _) = checksum_lem xs bytes short in (a, b)

    after :
        (calculate_checksum (set xs i v) ≤ 0xffff)
        × ((0xffff - calculate_checksum (set xs i v)) % 65535 ≡ word_sum (set xs i v) % 65535)
    after =
        let (a, b, _, _) =
          checksum_lem (set xs i v) (set-IsByte xs i v bytes byte) (rw length-set short) in
        (a, b)
