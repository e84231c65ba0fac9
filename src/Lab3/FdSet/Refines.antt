-- ===== src/Lab3/FdSet/Refines.antt =====
-- The sets of descriptors as sets: the words against a test of membership.
use nssa_ds.Base.{
  ℕ, zero, suc, ◌-◌, ◌*◌, ◌/◌, ◌%◌, ◌^◌, ◌≤◌, ◌<◌, ◌≡◌, refl, ◌∙◌, ap, Bool, true, false, not, ◌||◌,
  ◌&&◌, Bool-cases, List, [], ◌∷◌, Option, none, some, arith, ltb, ◌==◌, if◌then◌else◌, length,
  dec_lt, inl, inr,
}
use nssa_ds.Base.Bits.{ℤ, pos, negsuc, bit, bit_and-pow, bit-bit_or, bit_small}
use nssa_ds.Lab3.FdSet.{FdSet, index, shift, or_at, has_at, with_bits, fd_set}
use Prim.Native.Nat.{bit_and, bit_or}
use native.Mathlib.Nat.{pow-suc}

-- The bit that a descriptor has in the words, if there is one.
abbrev pub slot : ℤ → Option ℕ
slot (pos n) = if ltb n 1024 then some n else none
slot (negsuc n) = if ltb n 31 then some (31 - n) else none

-- The words have the bits of `members`, and no others.
pub record Represents (set : FdSet) (members : ℕ → Bool) : Type 0 where
  pub all_words : length set.bits ≡ 32
  pub agrees : (n : ℕ) → has_at (n / 32) (2 ^ (n % 32)) set.bits ≡ members n

pow_positive : (k : ℕ) → 0 < 2 ^ k
pow_positive zero = omega arith
pow_positive (suc k) = omega (arith, pow_positive k, pow-suc 2 k)

not_zero : (v p : ℕ) → v < 2 → 0 < p → not (v * p == 0) ≡ (v == 1)
not_zero zero p h q = ground arith
not_zero (suc zero) p h q = ground arith
not_zero (suc (suc v)) p h q = absurd (omega arith)

pub bit_test : (w k : ℕ) → not (bit_and w (2 ^ k) == 0) ≡ (bit w k == 1)
bit_test w k = rw (bit_and-pow w k) (not_zero (bit w k) (2 ^ k) (bit_small w k) (pow_positive k))

bit_test-bit_or :
    (w a b : ℕ)
    → not (bit_and (bit_or w (2 ^ a)) (2 ^ b) == 0) ≡ ((a == b) || not (bit_and w (2 ^ b) == 0))
bit_test-bit_or w a b =
    rw (bit_test (bit_or w (2 ^ a)) b, bit_test w b, bit-bit_or w a b)
      (elim (Bool-cases (a == b)) [ inl e ↦ rw e refl | inr e ↦ rw e refl ])

-- The words after a bit is set.
record Sets (i a : ℕ) (ws vs : List ℕ) : Type 0 where
  is_some : or_at i (2 ^ a) ws ≡ some vs
  same_length : length vs ≡ length ws
  adds : (j b : ℕ) → has_at j (2 ^ b) vs ≡ (((i == j) && (a == b)) || has_at j (2 ^ b) ws)

adds_suc :
    (i a w : ℕ) (ws vs : List ℕ)
    → ((j b : ℕ) → has_at j (2 ^ b) vs ≡ (((i == j) && (a == b)) || has_at j (2 ^ b) ws))
    → (j b : ℕ)
    → has_at j (2 ^ b) (w ∷ vs) ≡ (((suc i == j) && (a == b)) || has_at j (2 ^ b) (w ∷ ws))
unfolding has_at
adds_suc i a w ws vs h zero b = let e : (suc i == 0) ≡ false = ground arith in rw e refl
adds_suc i a w ws vs h (suc j) b =
    let e : (suc i == suc j) ≡ (i == j) = ground arith in rw e (h j b)

or_at-Sets : (i a : ℕ) (ws : List ℕ) → i < length ws → (vs : List ℕ) × Sets i a ws vs
unfolding or_at has_at
or_at-Sets i a [] h = absurd (omega arith)
or_at-Sets zero a (w ∷ ws) h =
    (bit_or w (2 ^ a) ∷ ws, record { is_some = refl; same_length = refl; adds = first })
  where
    first :
        (j b : ℕ)
        → has_at j (2 ^ b) (bit_or w (2 ^ a) ∷ ws)
          ≡ (((0 == j) && (a == b)) || has_at j (2 ^ b) (w ∷ ws))
    first zero b = bit_test-bit_or w a b
    first (suc j) b = let e : (0 == suc j) ≡ false = ground arith in rw e refl
or_at-Sets (suc i) a (w ∷ ws) h =
    let (vs, r) = or_at-Sets i a ws (omega arith) in
    (
      w ∷ vs,
      record {
        is_some = rw (r.is_some) refl;
        same_length = ap suc r.same_length;
        adds = adds_suc i a w ws vs r.adds;
      },
    )

or_at-none : (i mask : ℕ) (ws : List ℕ) → length ws ≤ i → or_at i mask ws ≡ none
unfolding or_at
or_at-none i mask [] h = refl
or_at-none zero mask (w ∷ ws) h = absurd (omega arith)
or_at-none (suc i) mask (w ∷ ws) h = rw (or_at-none i mask ws (omega arith)) refl

same_slot : (n k : ℕ) → ((n / 32 == k / 32) && (n % 32 == k % 32)) ≡ (n == k)
same_slot n k = ground arith

abbrev pub add : ℕ → (ℕ → Bool) → ℕ → Bool
add n members k = (n == k) || members k

set_words :
    (fd : ℤ) (i a : ℕ) (set : FdSet) (vs : List ℕ)
    → index fd ≡ some i
    → shift fd ≡ a
    → or_at i (2 ^ a) set.bits ≡ some vs
    → fd_set fd set ≡ some (with_bits vs)
unfolding fd_set
set_words fd i a set vs e f g = rw (fd_set, e, f, g) refl

set_none :
    (fd : ℤ) (i : ℕ) (set : FdSet)
    → index fd ≡ some i
    → 32 ≤ i
    → length set.bits ≡ 32
    → fd_set fd set ≡ none
unfolding fd_set
set_none fd i set e h l =
    rw (fd_set, e, or_at-none i (2 ^ shift fd) set.bits (omega (arith, l))) refl

negative : (n : ℕ) (set : FdSet) → ltb n 31 ≡ false → fd_set (negsuc n) set ≡ none
unfolding fd_set
negative n set e = rw (fd_set, e) refl

set_slot :
    (fd : ℤ) (n : ℕ) (set : FdSet) (members : ℕ → Bool)
    → index fd ≡ some (n / 32)
    → shift fd ≡ n % 32
    → n < 1024
    → Represents set members
    → (t : FdSet) × (fd_set fd set ≡ some t) × Represents t (add n members)
set_slot fd n set members e f h r =
    let (vs, v) = or_at-Sets (n / 32) (n % 32) set.bits (omega (arith, r.all_words)) in
    (
      with_bits vs,
      set_words fd (n / 32) (n % 32) set vs e f v.is_some,
      record {
        all_words = v.same_length ∙ r.all_words;
        agrees = λ k. v.adds (k / 32) (k % 32) ∙ rw (same_slot n k, r.agrees k) refl;
      },
    )

-- What an operation has left, against the set it should have left.
pub data Agree : Option FdSet → Option (ℕ → Bool) → Type 0 where
  panicked : Agree none none
  held :
      (set : FdSet) (members : ℕ → Bool) → Represents set members → Agree (some set) (some members)

abbrev pub added : (ℕ → Bool) → Option ℕ → Option (ℕ → Bool)
added members none = none
added members (some n) = some (add n members)

pub fd_set-Agree :
    (fd : ℤ) (set : FdSet) (members : ℕ → Bool)
    → Represents set members
    → Agree (fd_set fd set) (added members (slot fd))
fd_set-Agree (pos n) set members r = elim (dec_lt n 1024) [
  | yes h ↦
      let (t, e, r') = set_slot (pos n) n set members refl refl h r in
      let test : ltb n 1024 ≡ true = ground arith in rw (e, test) (held t (add n members) r')
  | no h ↦
      let test : ltb n 1024 ≡ false = ground arith in
      rw (set_none (pos n) (n / 32) set refl (omega arith) r.all_words, test) panicked
]
fd_set-Agree (negsuc n) set members r = elim (dec_lt n 31) [
  | yes h ↦
      let test : ltb n 31 ≡ true = ground arith in
      let first : some 0 ≡ some ((31 - n) / 32) = ap some (omega arith) in
      let (t, e, r') =
        set_slot (negsuc n) (31 - n) set members (rw test first) (omega arith) (omega arith) r in
      rw (e, test) (held t (add (31 - n) members) r')
  | no h ↦ let test : ltb n 31 ≡ false = ground arith in rw (negative n set test, test) panicked
]
