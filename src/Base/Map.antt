-- ===== src/Base/Map.antt =====
-- Go's maps as association lists. The source's `m[k] = v` and `delete(m, k)` are `insert` and
-- `erase`; a read of a missing key is `none`.
use nssa_ds.Base.Tests.{◌==◌, ==_iff, if◌then◌else◌}
use nssa_ds.Base.Lists.{length}
use Prim.Native.Nat.{ℕ, ◌+◌, ◌≤◌, ◌<◌}
use Prim.Native.String.{String}
use mathlib.Core.Path.{◌≡◌, refl, ap, ◌∙◌}
use mathlib.Core.Logic.{◌↔◌, ◌≢◌}
use mathlib.Core.Bool.{Bool, true, ◌&&◌}
use mathlib.Core.Option.{Option, none, some}
use mathlib.Core.List.{List, [], ◌∷◌}
use native.Mathlib.Omega.{arith}
use text.Mathlib.Text.{◌==◌ as str_eq}
use text.Mathlib.TextEquality.{eq_iff}

-- Keys are compared by a test that decides equality.
pub record Key {ℓ} (K : Type ℓ) : Type ℓ where
  pub beq : K → K → Bool
  pub beq_iff : (a b : K) → (beq a b ≡ true) ↔ (a ≡ b)

instance abbrev pub nat_key : Key ℕ
nat_key = record { beq = ◌==◌; beq_iff = ==_iff }

instance abbrev pub string_key : Key String
string_key = record { beq = str_eq; beq_iff = eq_iff }

pair-ap : {a b : String} {m n : ℕ} → a ≡ b → m ≡ n → ◌≡◌ {A = String × ℕ} (a, m) (b, n)
pair-ap {b} {m} e f = ap (λ (x : String). (x, m)) e ∙ ap (λ (k : ℕ). (b, k)) f

pub pair_iff : (p q : String × ℕ) → ((str_eq p.0 q.0 && (p.1 == q.1)) ≡ true) ↔ (p ≡ q)
pair_iff (a, m) (b, n) =
    let names = eq_iff a b in
    let numbers = ==_iff m n in
    (
      λ h. pair-ap (ground (arith, names)) (ground (arith, numbers)),
      λ e.
          let name = ap (λ (p : String × ℕ). p.0) e in
          let number = ap (λ (p : String × ℕ). p.1) e in
          ground (arith, names, numbers, name, number),
    )

instance abbrev pub pair_key : Key (String × ℕ)
pair_key = record { beq = λ p q. str_eq p.0 q.0 && (p.1 == q.1); beq_iff = pair_iff }

pub beq_refl {ℓ} : {K : Type ℓ} ⦃e : Key K⦄ (k : K) → e.beq k k ≡ true
beq_refl ⦃e⦄ k = (e.beq_iff k k).1 refl

module _ {ℓ κ} {K : Type ℓ} {V : Type κ} ⦃e : Key K⦄ where
  unfoldable pub lookup : K → List (K × V) → Option V
  lookup k [] = none
  lookup k ((j, v) ∷ m) = if e.beq j k then some v else lookup k m

  unfoldable pub insert : K → V → List (K × V) → List (K × V)
  insert k v [] = (k, v) ∷ []
  insert k v ((j, w) ∷ m) = if e.beq j k then (j, v) ∷ m else (j, w) ∷ insert k v m

  -- A change of a value that the map holds a pointer to.
  unfoldable pub update : K → V → List (K × V) → List (K × V)
  update k v [] = []
  update k v ((j, w) ∷ m) = if e.beq j k then (j, v) ∷ m else (j, w) ∷ update k v m

  -- A Go map holds a key once.
  abbrev pub Distinct : List (K × V) → Type (ℓ ⊔ κ)
  Distinct [] = Unit
  Distinct ((k, _) ∷ m) = (lookup k m ≡ none) × Distinct m

  unfoldable pub erase : K → List (K × V) → List (K × V)
  erase k [] = []
  erase k ((j, v) ∷ m) = if e.beq j k then erase k m else (j, v) ∷ erase k m

  pub lookup-insert :
      (k j : K) (v : V) (m : List (K × V))
      → lookup j (insert k v m) ≡ (if e.beq k j then some v else lookup j m)
  unfolding lookup insert
  lookup-insert k j v [] = refl
  lookup-insert k j v ((i, w) ∷ m) =
      ground (arith, e.beq_iff k j, e.beq_iff i k, e.beq_iff i j, lookup-insert k j v m)

  pub lookup-insert_same : (k : K) (v : V) (m : List (K × V)) → lookup k (insert k v m) ≡ some v
  lookup-insert_same k v m = rw (lookup-insert k k v m, beq_refl k) refl

  pub lookup-insert_ne :
      (k j : K) (v : V) (m : List (K × V)) → k ≢ j → lookup j (insert k v m) ≡ lookup j m
  lookup-insert_ne k j v m h = ground (arith, lookup-insert k j v m, e.beq_iff k j)

  pub lookup-erase :
      (k j : K) (m : List (K × V)) → lookup j (erase k m) ≡ (if e.beq k j then none else lookup j m)
  unfolding lookup erase
  lookup-erase k j [] = ground arith
  lookup-erase k j ((i, w) ∷ m) =
      ground (arith, e.beq_iff k j, e.beq_iff i k, e.beq_iff i j, lookup-erase k j m)

  pub length-erase_le : (k : K) (m : List (K × V)) → length (erase k m) ≤ length m
  unfolding erase
  length-erase_le k [] = omega arith
  length-erase_le k ((j, v) ∷ m) = ground (arith, length-erase_le k m)

  -- Erasing a key that is present makes the map smaller.
  pub length-erase_lt :
      (k : K) (m : List (K × V)) (v : V) → lookup k m ≡ some v → length (erase k m) < length m
  unfolding lookup erase
  length-erase_lt k [] v h = ground arith
  length-erase_lt k ((j, w) ∷ m) v h = ground (arith, length-erase_le k m, length-erase_lt k m v)

  pub length-insert_le : (k : K) (v : V) (m : List (K × V)) → length (insert k v m) ≤ length m + 1
  unfolding insert
  length-insert_le k v [] = omega arith
  length-insert_le k v ((j, w) ∷ m) = ground (arith, length-insert_le k v m)

  pub length-update : (k : K) (v : V) (m : List (K × V)) → length (update k v m) ≡ length m
  unfolding update
  length-update k v [] = refl
  length-update k v ((j, w) ∷ m) = ground (arith, length-update k v m)
