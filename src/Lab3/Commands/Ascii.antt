-- ===== src/Lab3/Commands/Ascii.antt =====
-- Go's strings on ASCII text, and what trimming leaves of such a text.
use nssa_ds.Base.{
  arith, ℕ, true, ◌<◌, ◌≡◌, inl, inr, Bool-cases, List, [], ◌∷◌, ◌++◌, if◌then◌else◌, All,
  All-append,
}
use nssa_ds.Base.Text.{Text, join}
use nssa_ds.Base.Strings.{is_space, fields, to_upper}
use nssa_ds.Lab3.Multiplexer.{is_blank, keep_before, trim_end, trim_start, trim_string}
use nssa_ds.Lab3.Commands.{GoStrings}

abbrev pub Ascii : Text → Type 0
Ascii = All (λ (c : ℕ). c < 128)

-- strings.TrimSpace on ASCII text.
abbrev pub keep_end : ℕ → Text → Text
keep_end c [] = if is_space c then [] else c ∷ []
keep_end c (d ∷ ds) = c ∷ (d ∷ ds)

unfoldable pub trim_space_end : Text → Text
trim_space_end [] = []
trim_space_end (c ∷ cs) = keep_end c (trim_space_end cs)

unfoldable pub trim_space_start : Text → Text
trim_space_start [] = []
trim_space_start (c ∷ cs) = let rest = trim_space_start cs in if is_space c then rest else c ∷ cs

abbrev pub trim_space : Text → Text
trim_space s = trim_space_start (trim_space_end s)

-- What the documentation of strings says of ASCII text: space is that of ASCII, and ToUpper maps letters.
pub record IsGoStrings (g : GoStrings) : Type 0 where
  pub trims : (s : Text) → Ascii s → g.trim_space s ≡ trim_space s
  pub splits : (s : Text) → Ascii s → g.fields s ≡ fields s
  pub maps : (s : Text) → Ascii s → g.to_upper s ≡ to_upper s

keep_end-Ascii : (c : ℕ) (s : Text) → c < 128 → Ascii s → Ascii (keep_end c s)
keep_end-Ascii c [] h a = elim (Bool-cases (is_space c)) [ inl e ↦ rw e tt | inr e ↦ rw e (h, tt) ]
keep_end-Ascii c (d ∷ ds) h a = (h, a)

trim_space_end-Ascii : (s : Text) → Ascii s → Ascii (trim_space_end s)
unfolding trim_space_end
trim_space_end-Ascii [] a = tt
trim_space_end-Ascii (c ∷ cs) a = keep_end-Ascii c _ a.0 (trim_space_end-Ascii cs a.1)

trim_space_start-Ascii : (s : Text) → Ascii s → Ascii (trim_space_start s)
unfolding trim_space_start
trim_space_start-Ascii [] a = tt
trim_space_start-Ascii (c ∷ cs) a = elim (Bool-cases (is_space c)) [
  | inl e ↦ rw e (trim_space_start-Ascii cs a.1)
  | inr e ↦ rw e a
]

pub trim_space-Ascii : (s : Text) → Ascii s → Ascii (trim_space s)
trim_space-Ascii s a = trim_space_start-Ascii (trim_space_end s) (trim_space_end-Ascii s a)

keep_before-Ascii : (c : ℕ) (s : Text) → c < 128 → Ascii s → Ascii (keep_before c s)
keep_before-Ascii c [] h a = elim (Bool-cases (is_blank c)) [
  | inl e ↦ rw e tt
  | inr e ↦ rw e (h, tt)
]
keep_before-Ascii c (d ∷ ds) h a = (h, a)

trim_end-Ascii : (s : Text) → Ascii s → Ascii (trim_end s)
unfolding trim_end
trim_end-Ascii [] a = tt
trim_end-Ascii (c ∷ cs) a = keep_before-Ascii c _ a.0 (trim_end-Ascii cs a.1)

trim_start-Ascii : (s : Text) → Ascii s → Ascii (trim_start s)
unfolding trim_start
trim_start-Ascii [] a = tt
trim_start-Ascii (c ∷ cs) a = elim (Bool-cases (is_blank c)) [
  | inl e ↦ rw e (trim_start-Ascii cs a.1)
  | inr e ↦ rw e a
]

pub trim_string-Ascii : (s : Text) → Ascii s → Ascii (trim_string s)
unfolding trim_string
trim_string-Ascii s a = trim_start-Ascii (trim_end s) (trim_end-Ascii s a)

join-Ascii : (w : Text) (ws : List Text) → Ascii w → All Ascii ws → Ascii (join (w ∷ ws))
unfolding join
join-Ascii w [] a hs = a
join-Ascii w (v ∷ ws) a hs =
    All-append (λ (c : ℕ). c < 128) w _ a (omega arith, join-Ascii v ws hs.0 hs.1)

-- Space only.
abbrev pub Spaces : Text → Type 0
Spaces [] = Unit {0}
Spaces (c ∷ cs) = (is_space c ≡ true) × Spaces cs

Spaces-Ascii : (s : Text) → Spaces s → Ascii s
Spaces-Ascii [] h = tt
Spaces-Ascii (c ∷ cs) h = (ground (arith, h.0), Spaces-Ascii cs h.1)

pub words-Ascii :
    (before w : Text) (ws : List Text) (after : Text)
    → Spaces before
    → Ascii w
    → All Ascii ws
    → Spaces after
    → Ascii (before ++ (join (w ∷ ws) ++ after))
words-Ascii before w ws after b a hs f =
    All-append (λ (c : ℕ). c < 128) before _ (Spaces-Ascii before b)
      (All-append (λ (c : ℕ). c < 128) (join (w ∷ ws)) after (join-Ascii w ws a hs)
        (Spaces-Ascii after f))
