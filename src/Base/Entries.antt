-- ===== src/Base/Entries.antt =====
-- A property of the values of a map, kept by the operations on it.
use nssa_ds.Base.Map.{Key, insert, update, erase}
use nssa_ds.Base.Lists.{All}
use nssa_ds.Base.Tests.{Bool-cases}
use mathlib.Core.Logic.{inl, inr}
use mathlib.Core.List.{List, [], ◌∷◌}

abbrev pub AllValues {ℓ κ} : {K : Type ℓ} {V : Type κ} → (V → Type 0) → List (K × V) → Type 0
AllValues {K = K} {V = V} P = All (λ (x : K × V). P x.1)

module _ {ℓ κ} {K : Type ℓ} {V : Type κ} ⦃e : Key K⦄ (P : V → Type 0) where
  pub insert-AllValues :
      (k : K) (v : V) (m : List (K × V)) → P v → AllValues P m → AllValues P (insert k v m)
  unfolding insert
  insert-AllValues k v [] h all = (h, tt)
  insert-AllValues k v ((j, w) ∷ m) h all = elim (Bool-cases (e.beq j k)) [
    | inl hit ↦ rw hit (h, all.1)
    | inr miss ↦ rw miss (all.0, insert-AllValues k v m h all.1)
  ]

  pub update-AllValues :
      (k : K) (v : V) (m : List (K × V)) → P v → AllValues P m → AllValues P (update k v m)
  unfolding update
  update-AllValues k v [] h all = tt
  update-AllValues k v ((j, w) ∷ m) h all = elim (Bool-cases (e.beq j k)) [
    | inl hit ↦ rw hit (h, all.1)
    | inr miss ↦ rw miss (all.0, update-AllValues k v m h all.1)
  ]

  pub erase-AllValues : (k : K) (m : List (K × V)) → AllValues P m → AllValues P (erase k m)
  unfolding erase
  erase-AllValues k [] all = tt
  erase-AllValues k ((j, w) ∷ m) all = elim (Bool-cases (e.beq j k)) [
    | inl hit ↦ rw hit (erase-AllValues k m all.1)
    | inr miss ↦ rw miss (all.0, erase-AllValues k m all.1)
  ]
