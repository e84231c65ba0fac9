-- ===== src/Base/Lists.antt =====
-- Lists measured and indexed by native numbers, and Go's `copy` into a slice.
use Prim.Native.Nat.{ℕ, zero, suc, ◌+◌, ◌-◌, ◌≤◌, min}
use mathlib.Core.Path.{◌≡◌, refl, ap}
use mathlib.Core.List.{List, [], ◌∷◌, ◌++◌}
use mathlib.Core.Option.{Option, none, some}
use native.Mathlib.Nat.{zero-add, suc-add}
use native.Mathlib.Omega.{arith}

sub-zero : (n : ℕ) → n - 0 ≡ n
sub-zero n = omega arith

suc_sub-suc : (m n : ℕ) → suc m - suc n ≡ m - n
suc_sub-suc m n = omega arith

module _ {ℓ} {A : Type ℓ} where
  abbrev pub length : List A → ℕ
  length [] = 0
  length (x ∷ xs) = suc (length xs)

  abbrev pub get_or : List A → ℕ → A → A
  get_or [] i d = d
  get_or (x ∷ xs) zero d = x
  get_or (x ∷ xs) (suc i) d = get_or xs i d

  abbrev pub get_elem? : List A → ℕ → Option A
  get_elem? [] i = none
  get_elem? (x ∷ xs) zero = some x
  get_elem? (x ∷ xs) (suc i) = get_elem? xs i

  abbrev pub set : List A → ℕ → A → List A
  set [] i v = []
  set (x ∷ xs) zero v = v ∷ xs
  set (x ∷ xs) (suc i) v = x ∷ set xs i v

  abbrev pub take : ℕ → List A → List A
  take zero xs = []
  take (suc n) [] = []
  take (suc n) (x ∷ xs) = x ∷ take n xs

  abbrev pub drop : ℕ → List A → List A
  drop zero xs = xs
  drop (suc n) [] = []
  drop (suc n) (x ∷ xs) = drop n xs

  abbrev pub replicate : ℕ → A → List A
  replicate zero a = []
  replicate (suc n) a = a ∷ replicate n a

  -- Go's `copy(dst, src)`: as many elements as fit.
  abbrev pub overlay : List A → List A → List A
  overlay xs [] = xs
  overlay [] (s ∷ ss) = []
  overlay (x ∷ xs) (s ∷ ss) = s ∷ overlay xs ss

  -- `copy(dst[i:], src)`
  abbrev pub copy_at : List A → ℕ → List A → List A
  copy_at xs zero src = overlay xs src
  copy_at [] (suc i) src = []
  copy_at (x ∷ xs) (suc i) src = x ∷ copy_at xs i src

  abbrev pub All {κ} : (A → Type κ) → List A → Type κ
  All P [] = Unit {κ}
  All P (x ∷ xs) = P x × All P xs

module _ {ℓ} {A : Type ℓ} where
  pub length-append : (xs ys : List A) → length (xs ++ ys) ≡ length xs + length ys
  length-append [] ys = omega arith
  length-append (x ∷ xs) ys = omega (arith, length-append xs ys)

  pub length-replicate : (n : ℕ) (a : A) → length (replicate n a) ≡ n
  length-replicate zero a = refl
  length-replicate (suc n) a = ap suc (length-replicate n a)

  pub length-set : (xs : List A) (i : ℕ) (v : A) → length (set xs i v) ≡ length xs
  length-set [] i v = refl
  length-set (x ∷ xs) zero v = refl
  length-set (x ∷ xs) (suc i) v = ap suc (length-set xs i v)

  pub length-take : (n : ℕ) (xs : List A) → length (take n xs) ≡ min n (length xs)
  length-take zero xs = omega arith
  length-take (suc n) [] = omega arith
  length-take (suc n) (x ∷ xs) = omega (arith, length-take n xs)

  pub length-drop : (n : ℕ) (xs : List A) → length (drop n xs) ≡ length xs - n
  length-drop zero xs = omega arith
  length-drop (suc n) [] = omega arith
  length-drop (suc n) (x ∷ xs) = omega (arith, length-drop n xs)

  pub take-append-drop : (n : ℕ) (xs : List A) → take n xs ++ drop n xs ≡ xs
  take-append-drop zero xs = refl
  take-append-drop (suc n) [] = refl
  take-append-drop (suc n) (x ∷ xs) = ap (◌∷◌ x) (take-append-drop n xs)

  pub take-append : (xs ys : List A) → take (length xs) (xs ++ ys) ≡ xs
  take-append [] ys = refl
  take-append (x ∷ xs) ys = ap (◌∷◌ x) (take-append xs ys)

  pub take_all : (n : ℕ) (xs : List A) → length xs ≤ n → take n xs ≡ xs
  take_all zero [] h = refl
  take_all zero (x ∷ xs) h = elim h [ ]
  take_all (suc n) [] h = refl
  take_all (suc n) (x ∷ xs) h = ap (◌∷◌ x) (take_all n xs (omega arith))

  pub take-drop-append :
      (xs ys : List A) (a k : ℕ)
      → a + k ≤ length xs
      → take k (drop a (xs ++ ys)) ≡ take k (drop a xs)
  take-drop-append [] ys zero zero h = refl
  take-drop-append [] ys zero (suc k) h = absurd (omega arith)
  take-drop-append [] ys (suc a) k h = absurd (omega arith)
  take-drop-append (x ∷ xs) ys zero zero h = refl
  take-drop-append (x ∷ xs) ys zero (suc k) h =
      ap (◌∷◌ x) (take-drop-append xs ys zero k (omega arith))
  take-drop-append (x ∷ xs) ys (suc a) k h = take-drop-append xs ys a k (omega arith)

  -- `copy` into a fresh slice of the size of the source is the source.
  pub overlay-take :
      (xs : List A) (k : ℕ) (a : A)
      → k ≤ length xs
      → overlay (replicate k a) (take k xs) ≡ take k xs
  overlay-take xs zero a h = refl
  overlay-take [] (suc k) a h = absurd (omega arith)
  overlay-take (x ∷ xs) (suc k) a h = ap (◌∷◌ x) (overlay-take xs k a (omega arith))

  pub replicate-add : (m n : ℕ) (a : A) → replicate (m + n) a ≡ replicate m a ++ replicate n a
  replicate-add zero n a = rw zero-add
  replicate-add (suc m) n a = rw suc-add (ap (◌∷◌ a) (replicate-add m n a))

  -- Copying over a longer slice of one value leaves the tail.
  pub overlay-replicate :
      (src : List A) (k : ℕ) (a : A)
      → overlay (replicate (length src + k) a) src ≡ src ++ replicate k a
  overlay-replicate [] k a = rw zero-add
  overlay-replicate (s ∷ ss) k a = rw suc-add (ap (◌∷◌ s) (overlay-replicate ss k a))

  pub All-append {κ} : (P : A → Type κ) (xs ys : List A) → All P xs → All P ys → All P (xs ++ ys)
  All-append P [] ys hx hy = hy
  All-append P (x ∷ xs) ys hx hy = (hx.0, All-append P xs ys hx.1 hy)

  pub All-take {κ} : (P : A → Type κ) (k : ℕ) (xs : List A) → All P xs → All P (take k xs)
  All-take P zero xs h = tt
  All-take P (suc k) [] h = tt
  All-take P (suc k) (x ∷ xs) h = (h.0, All-take P k xs h.1)

  pub All-drop {κ} : (P : A → Type κ) (k : ℕ) (xs : List A) → All P xs → All P (drop k xs)
  All-drop P zero xs h = h
  All-drop P (suc k) [] h = tt
  All-drop P (suc k) (x ∷ xs) h = All-drop P k xs h.1

  -- Past the end of the first list a prefix goes on in the second one.
  pub take-append_more :
      (n : ℕ) (xs ys : List A) → length xs ≤ n → take n (xs ++ ys) ≡ xs ++ take (n - length xs) ys
  take-append_more n [] ys h = rw (sub-zero n) refl
  take-append_more zero (x ∷ xs) ys h = absurd (omega arith)
  take-append_more (suc n) (x ∷ xs) ys h =
      rw (suc_sub-suc n (length xs)) (ap (λ t. x ∷ t) (take-append_more n xs ys (omega arith)))

  pub drop-append_more :
      (n : ℕ) (xs ys : List A) → length xs ≤ n → drop n (xs ++ ys) ≡ drop (n - length xs) ys
  drop-append_more n [] ys h = rw (sub-zero n) refl
  drop-append_more zero (x ∷ xs) ys h = absurd (omega arith)
  drop-append_more (suc n) (x ∷ xs) ys h =
      rw (suc_sub-suc n (length xs)) (drop-append_more n xs ys (omega arith))

pub append_cancel {ℓ} : {A : Type ℓ} (a b c : List A) → a ++ b ≡ a ++ c → b ≡ c
append_cancel [] b c e = e
append_cancel (x ∷ a) b c e = append_cancel a b c (cc e)

pub drop-append_less {ℓ} :
    {A : Type ℓ} (n : ℕ) (a b : List A) → n ≤ length a → drop n (a ++ b) ≡ drop n a ++ b
drop-append_less zero a b h = refl
drop-append_less (suc n) [] b h = absurd (omega arith)
drop-append_less (suc n) (x ∷ a) b h = drop-append_less n a b (omega arith)

pub take-append_exact {ℓ} : {A : Type ℓ} (xs ys : List A) → take (length xs) (xs ++ ys) ≡ xs
take-append_exact [] ys = refl
take-append_exact (x ∷ xs) ys = ap (λ t. x ∷ t) (take-append_exact xs ys)

pub take-append_less {ℓ} :
    {A : Type ℓ} (n : ℕ) (xs ys : List A) → n ≤ length xs → take n (xs ++ ys) ≡ take n xs
take-append_less zero xs ys h = refl
take-append_less (suc n) [] ys h = absurd (omega arith)
take-append_less (suc n) (x ∷ xs) ys h = ap (λ t. x ∷ t) (take-append_less n xs ys (omega arith))
