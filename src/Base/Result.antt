-- ===== src/Base/Result.antt =====
-- What a Go function answers: a value, an error, or a run-time panic.
use mathlib.Core.Bool.{Bool, true, false}

pub data Result {ℓ κ} (E : Type κ) (A : Type ℓ) : Type (ℓ ⊔ κ) where
  ok : A → Result E A
  err : E → Result E A
  panic : Result E A

infixl 5 ◌>>=◌ ◌>>◌
abbrev pub ◌>>=◌ {ℓ κ ε} :
    {E : Type ε} {A : Type ℓ} {B : Type κ} → Result E A → (A → Result E B) → Result E B
ok a >>= f = f a
err e >>= f = err e
panic >>= f = panic

abbrev pub ◌>>◌ {ℓ ε} : {E : Type ε} {B : Type ℓ} → Result E (Unit {0}) → Result E B → Result E B
m >> k = m >>= λ _. k

-- `if !test { return err }`
abbrev pub guard {ε} : {E : Type ε} → Bool → E → Result E (Unit {0})
guard true e = ok tt
guard false e = err e

-- A run-time check of Go.
abbrev pub check {ε} : {E : Type ε} → Bool → Result E (Unit {0})
check true = ok tt
check false = panic
