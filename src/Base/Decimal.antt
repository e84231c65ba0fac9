-- ===== src/Base/Decimal.antt =====
-- %d and strconv.ParseInt(s, 10, 64). An int64 is its bit pattern.
use nssa_ds.Base.Tests.{◌==◌, ltb, leb, if◌then◌else◌}
use nssa_ds.Base.Text.{Text}
use nssa_ds.Base.Order.{lt_wf}
use nssa_ds.Base.Strings.{NoSpaces, IsField}
use Prim.Native.Nat.{ℕ, ◌+◌, ◌-◌, ◌*◌, ◌/◌, ◌%◌, ◌^◌, ◌≤◌, ◌<◌}
use mathlib.Core.Path.{◌≡◌, refl}
use mathlib.Core.Logic.{dite, ◌≢◌}
use mathlib.Core.Bool.{◌||◌}
use mathlib.Core.Option.{Option, none, some}
use mathlib.Core.List.{[], ◌∷◌}
use mathlib.Core.WellFounded.{Acc}
use native.Mathlib.Decide.{dec_lt}
use native.Mathlib.Omega.{arith}

pub tenth_smaller : (n : ℕ) → 9 < n → n / 10 < n
tenth_smaller n h = omega arith

-- The digits of `n` in front of `behind`.
unfoldable pub print : (n : ℕ) → Acc ◌<◌ n → Text → Text
print n (Acc.intro _ smaller) behind =
    dite (dec_lt 9 n)
      (λ more. print (n / 10) (smaller _ (tenth_smaller n more)) ((48 + n % 10) ∷ behind))
      (λ _. (48 + n) ∷ behind)

unfoldable pub decimal : ℕ → Text
decimal n = print n (lt_wf.apply n) []

-- The digits of `s` behind a number `n`, up to a number below `limit`.
unfoldable pub scan : ℕ → Text → ℕ → Option ℕ
scan limit [] n = some n
scan limit (c ∷ s) n =
    let rest = scan limit s (n * 10 + (c - 48)) in
    if ltb c 48 || ltb 57 c || leb limit (n * 10 + (c - 48)) then none else rest

abbrev pub negated : Option ℕ → Option ℕ
negated none = none
negated (some n) = some ((2 ^ 64 - n) % 2 ^ 64)

abbrev pub scan_some : ℕ → Text → Option ℕ
scan_some limit [] = none
scan_some limit (c ∷ s) = scan limit (c ∷ s) 0

unfoldable pub parse_int : Text → Option ℕ
parse_int [] = none
parse_int (c ∷ s) =
    if c == 45
    then negated (scan_some (2 ^ 63 + 1) s)
    else if c == 43
    then scan_some (2 ^ 63) s
    else scan_some (2 ^ 63) (c ∷ s)

scan-print :
    (limit n : ℕ) (w : Acc ◌<◌ n) (behind : Text)
    → n < limit
    → scan limit (print n w behind) 0 ≡ scan limit behind n
unfolding print scan
scan-print limit n (Acc.intro _ smaller) behind h = grind (
  arith,
  λ (more : 9 < n).
      scan-print limit (n / 10) (smaller _ (tenth_smaller n more)) ((48 + n % 10) ∷ behind),
)

-- All digits, and at least one.
abbrev pub Digits : Text → Type 0
Digits [] = Unit {0}
Digits (c ∷ cs) = (48 ≤ c) × (c ≤ 57) × Digits cs

print-Digits :
    (n : ℕ) (w : Acc ◌<◌ n) (behind : Text)
    → Digits behind
    → Digits (print n w behind) × (print n w behind ≢ [])
unfolding print
print-Digits n (Acc.intro _ smaller) behind h = grind (
  arith,
  λ (more : 9 < n).
      print-Digits (n / 10) (smaller _ (tenth_smaller n more)) ((48 + n % 10) ∷ behind)
        (omega arith, omega arith, h),
)

pub decimal-Digits : (n : ℕ) → Digits (decimal n) × (decimal n ≢ [])
unfolding decimal
decimal-Digits n = print-Digits n (lt_wf.apply n) [] tt

parse_int-Digits : (s : Text) → Digits s → s ≢ [] → parse_int s ≡ scan (2 ^ 63) s 0
unfolding parse_int
parse_int-Digits [] d h = absurd (h refl)
parse_int-Digits (c ∷ s) d h = ground arith

-- A number below 2 ^ 63 is read back from its digits.
pub parse_int-decimal : (n : ℕ) → n < 2 ^ 63 → parse_int (decimal n) ≡ some n
unfolding decimal scan
parse_int-decimal n h =
    let (d, some_digit) = decimal-Digits n in
    rw (parse_int-Digits (decimal n) d some_digit) (scan-print (2 ^ 63) n (lt_wf.apply n) [] h)

Digits-NoSpaces : (s : Text) → Digits s → NoSpaces s
Digits-NoSpaces [] h = tt
Digits-NoSpaces (c ∷ cs) h = (ground (arith, h.0, h.1), Digits-NoSpaces cs h.2)

pub decimal-IsField : (n : ℕ) → IsField (decimal n)
decimal-IsField n =
    let (d, some_digit) = decimal-Digits n in
    record { some_char = some_digit; no_spaces = Digits-NoSpaces (decimal n) d }

print_digit : (n : ℕ) (w : Acc ◌<◌ n) (behind : Text) → n ≤ 9 → print n w behind ≡ (48 + n) ∷ behind
unfolding print
print_digit n (Acc.intro _ smaller) behind h = grind arith

pub decimal_digit : (n : ℕ) → n ≤ 9 → decimal n ≡ (48 + n) ∷ []
unfolding decimal
decimal_digit n h = print_digit n (lt_wf.apply n) [] h
