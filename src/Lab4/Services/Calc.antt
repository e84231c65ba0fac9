-- ===== src/Lab4/Services/Calc.antt =====
-- The calculator against the meaning of its operators.
use nssa_ds.Base.{◌≡◌, false}
use nssa_ds.Base.Result.{ok, err}
use nssa_ds.Base.Text.{Text, text}
use nssa_ds.Lab4.Server.{Request}
use nssa_ds.Lab4.Services.{Floats, calculate, calc_service, answered, refused, shown}

module _ {ℓ} {F : Type ℓ} (f : Floats F) where
  -- What an operator is to compute; a quotient by zero is nothing.
  pub data Means (a b : F) : Text → F → Type ℓ where
    plus : Means a b (text "+") (f.add a b)
    minus : Means a b (text "-") (f.sub a b)
    times : Means a b (text "*") (f.mul a b)
    over : f.is_zero b ≡ false → Means a b (text "/") (f.div a b)

  -- What `calculate` made of an operator.
  data Calculated (a b : F) (op : Text) : Type ℓ where
    computed : (r : F) → Means a b op r → calculate f a op b ≡ ok r → Calculated a b op
    refused_it :
        ((r : F) → ¬ Means a b op r) → (e : Text) → calculate f a op b ≡ err e → Calculated a b op

  -- What the calculator answers to two numbers and an operator, with spaces between them.
  pub data Answered (req : Request) (a b : F) (op : Text) : Type ℓ where
    with_result :
        (r : F) (items : Text)
        → Means a b op r
        → shown f a op b (ok r) ≡ ok items
        → calc_service f req ≡ ok (answered req.id (text "calc") items)
        → Answered req a b op
    with_error :
        (e : Text)
        → ((r : F) → ¬ Means a b op r)
        → calc_service f req ≡ ok (refused req.id (text "calc") e)
        → Answered req a b op
