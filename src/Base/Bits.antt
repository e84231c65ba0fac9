-- ===== src/Base/Bits.antt =====
-- Single bits of words, and `int` with its sign.
use nssa_ds.Base.Tests.{◌==◌, if◌then◌else◌}
use Prim.Native.Nat.{
  ℕ, zero, suc, ◌+◌, ◌*◌, ◌/◌, ◌%◌, ◌^◌, ◌≤◌, ◌<◌, min, max, bit_and, bit_or, digits,
  bit_and-bitwise, bit_or-bitwise,
}
use mathlib.Core.Path.{◌≡◌, refl, sym, ◌∙◌, ap}
use mathlib.Core.Bool.{false}
use native.Mathlib.Omega.{arith}
use native.Mathlib.Nat.{pow-suc}

-- `pos n` is n and `negsuc n` is -(n + 1).
pub data ℤ : Type 0 where
  pos negsuc : ℕ → ℤ

-- Bit `k` of `w`.
unfoldable pub bit : ℕ → ℕ → ℕ
bit w zero = w % 2
bit w (suc k) = bit (w / 2) k

-- An operation on digits needs no more rounds than its first number.
module _ (z : ℕ → ℕ) (f : ℕ → ℕ → ℕ) where
  rounds-zero : (n b : ℕ) → digits z f n zero b ≡ z b
  rounds-zero zero b = refl
  rounds-zero (suc n) b = refl

  same_rounds : (a n m b : ℕ) → a ≤ n → a ≤ m → digits z f n a b ≡ digits z f m a b
  same_rounds a zero m b p q =
      let none_left : a ≡ 0 = omega arith in rw none_left (sym (rounds-zero m b))
  same_rounds zero (suc n) m b p q = sym (rounds-zero m b)
  same_rounds (suc a) (suc n) zero b p q = absurd (omega arith)
  same_rounds (suc a) (suc n) (suc m) b p q =
      ap (λ t. t * 2 + f (suc a % 2) (b % 2))
        (same_rounds (suc a / 2) n m (b / 2) (omega arith) (omega arith))

  -- The lowest digit, and the operation on the others.
  lowest :
      (a b : ℕ)
      → digits z f (suc a) (suc a) b
        ≡ digits z f (suc a / 2) (suc a / 2) (b / 2) * 2 + f (suc a % 2) (b % 2)
  lowest a b =
      ap (λ t. t * 2 + f (suc a % 2) (b % 2))
        (same_rounds (suc a / 2) a (suc a / 2) (b / 2) (omega arith) (omega arith))

lowest-and : (a b : ℕ) → bit_and a b ≡ bit_and (a / 2) (b / 2) * 2 + min (a % 2) (b % 2)
lowest-and zero b =
    let front = bit_and-bitwise zero b in
    let behind = bit_and-bitwise zero (b / 2) in omega (arith, front, behind)
lowest-and (suc a) b =
    bit_and-bitwise (suc a) b
    ∙ lowest (λ b. zero) min a b
    ∙ ap (λ t. t * 2 + min (suc a % 2) (b % 2)) (sym (bit_and-bitwise (suc a / 2) (b / 2)))

lowest-or : (a b : ℕ) → bit_or a b ≡ bit_or (a / 2) (b / 2) * 2 + max (a % 2) (b % 2)
lowest-or zero b =
    let front = bit_or-bitwise zero b in
    let behind = bit_or-bitwise zero (b / 2) in omega (arith, front, behind)
lowest-or (suc a) b =
    bit_or-bitwise (suc a) b
    ∙ lowest (λ b. b) max a b
    ∙ ap (λ t. t * 2 + max (suc a % 2) (b % 2)) (sym (bit_or-bitwise (suc a / 2) (b / 2)))

-- With no digit on the right.
right_zero : (n a : ℕ) → a ≤ n → (bit_and a 0 ≡ 0) × (bit_or a 0 ≡ a)
right_zero n zero h = (bit_and-bitwise zero 0, bit_or-bitwise zero 0)
right_zero zero (suc a) h = absurd (omega arith)
right_zero (suc n) (suc a) h =
    let (none_left, same) = right_zero n (suc a / 2) (omega arith) in
    (omega (arith, lowest-and (suc a) 0, none_left), omega (arith, lowest-or (suc a) 0, same))

half : (k : ℕ) → (2 ^ suc k / 2 ≡ 2 ^ k) × (2 ^ suc k % 2 ≡ 0)
half k = (omega (arith, pow-suc 2 k), omega (arith, pow-suc 2 k))

-- A mask of one bit keeps that bit.
pub bit_and-pow : (w k : ℕ) → bit_and w (2 ^ k) ≡ bit w k * 2 ^ k
unfolding bit
bit_and-pow w zero = omega (arith, lowest-and w 1, (right_zero (w / 2) (w / 2) (omega arith)).0)
bit_and-pow w (suc k) =
    let (h, e) = half k in
    let step =
      lowest-and w (2 ^ suc k) ∙ ap (λ t. bit_and (w / 2) t * 2 + min (w % 2) (2 ^ suc k % 2)) h in
    omega (arith, step, e, bit_and-pow (w / 2) k, ap (λ t. bit (w / 2) k * t) (pow-suc 2 k))

pub bit_small : (w k : ℕ) → bit w k < 2
unfolding bit
bit_small w zero = omega arith
bit_small w (suc k) = bit_small (w / 2) k

-- A bit that is set is set, and no other bit changes.
pub bit-bit_or : (w j k : ℕ) → bit (bit_or w (2 ^ j)) k ≡ (if j == k then 1 else bit w k)
unfolding bit
bit-bit_or w zero zero = omega (arith, lowest-or w 1)
bit-bit_or w zero (suc k) =
    let e : bit_or w (2 ^ 0) / 2 ≡ w / 2 =
      omega (arith, lowest-or w 1, (right_zero (w / 2) (w / 2) (omega arith)).1) in
    let differ : (0 == suc k) ≡ false = ground arith in rw (e, differ) refl
bit-bit_or w (suc j) zero =
    let (h, e) = half j in
    let differ : (suc j == 0) ≡ false = ground arith in
    rw differ (omega (arith, lowest-or w (2 ^ suc j), e))
bit-bit_or w (suc j) (suc k) =
    let (h, e) = half j in
    let same : (suc j == suc k) ≡ (j == k) = ground arith in
    let step =
      lowest-or w (2 ^ suc j) ∙ ap (λ t. bit_or (w / 2) t * 2 + max (w % 2) (2 ^ suc j % 2)) h in
    let halved : bit_or w (2 ^ suc j) / 2 ≡ bit_or (w / 2) (2 ^ j) = omega (arith, step, e) in
    rw (halved, same) (bit-bit_or (w / 2) j k)

pub zero-bit : (k : ℕ) → bit 0 k ≡ 0
unfolding bit
zero-bit zero = refl
zero-bit (suc k) = zero-bit k
