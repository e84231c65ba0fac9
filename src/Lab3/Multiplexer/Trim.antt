-- ===== src/Lab3/Multiplexer/Trim.antt =====
-- What `trimString` takes off.
use nssa_ds.Base.{ℕ, ◌≡◌, refl, ◌∙◌, ap, true, false, [], ◌∷◌, ◌++◌, Bool-cases, inl, inr, All}
use nssa_ds.Base.Text.{Text}
use nssa_ds.Lab3.Multiplexer.{is_blank, keep_before, trim_end, trim_start, trim_string}

abbrev pub Blank : ℕ → Type 0
Blank c = is_blank c ≡ true

-- The first and the last character, or 0 of an empty text.
abbrev pub first : Text → ℕ
first [] = 0
first (c ∷ cs) = c

abbrev pub last : Text → ℕ
last [] = 0
last (c ∷ []) = c
last (c ∷ (d ∷ ds)) = last (d ∷ ds)

trim_start_lem :
    (s : Text)
    → (front : Text) × (s ≡ front ++ trim_start s)
      × All Blank front
      × (is_blank (first (trim_start s)) ≡ false)
unfolding trim_start
trim_start_lem [] = ([], refl, tt, refl)
trim_start_lem (c ∷ cs) = elim (Bool-cases (is_blank c)) [
  | inl blank ↦
      let (front, e, all, h) = trim_start_lem cs in
      rw blank (c ∷ front, ap (λ t. c ∷ t) e, (blank, all), h)
  | inr black ↦ rw black ([], refl, tt, black)
]

keep_before_lem :
    (c : ℕ) (t back : Text)
    → All Blank back
    → is_blank (last t) ≡ false
    → (back' : Text) × (c ∷ (t ++ back) ≡ keep_before c t ++ back')
      × All Blank back'
      × (is_blank (last (keep_before c t)) ≡ false)
keep_before_lem c [] back all h = elim (Bool-cases (is_blank c)) [
  | inl blank ↦ rw blank (c ∷ back, refl, (blank, all), refl)
  | inr black ↦ rw black (back, refl, all, black)
]
keep_before_lem c (d ∷ ds) back all h = (back, refl, all, h)

trim_end_lem :
    (s : Text)
    → (back : Text) × (s ≡ trim_end s ++ back)
      × All Blank back
      × (is_blank (last (trim_end s)) ≡ false)
unfolding trim_end
trim_end_lem [] = ([], refl, tt, refl)
trim_end_lem (c ∷ cs) =
    let (back, e, all, h) = trim_end_lem cs in
    let (back', e', all', h') = keep_before_lem c (trim_end cs) back all h in
    (back', ap (λ t. c ∷ t) e ∙ e', all', h')

last-append_nonempty : (front : Text) (c : ℕ) (cs : Text) → last (front ++ (c ∷ cs)) ≡ last (c ∷ cs)
last-append_nonempty [] c cs = refl
last-append_nonempty (d ∷ []) c cs = refl
last-append_nonempty (d ∷ (d' ∷ ds)) c cs = last-append_nonempty (d' ∷ ds) c cs

last_of_rest :
    (front t s : Text) → s ≡ front ++ t → is_blank (last s) ≡ false → is_blank (last t) ≡ false
last_of_rest front [] s e h = refl
last_of_rest front (c ∷ cs) s e h = rw (← last-append_nonempty front c cs, ← e) h

-- `trimString` takes blanks off both ends and nothing else, and none is left at either end.
pub trim_string_lem :
    (s : Text)
    → (front : Text) × (back : Text) × (s ≡ front ++ trim_string s ++ back)
      × All Blank front
      × All Blank back
      × (is_blank (first (trim_string s)) ≡ false)
      × (is_blank (last (trim_string s)) ≡ false)
unfolding trim_string
trim_string_lem s =
    let (back, e, all, h) = trim_end_lem s in
    let (front, e', all', h') = trim_start_lem (trim_end s) in
    (
      front,
      back,
      e ∙ ap (λ t. t ++ back) e',
      all',
      all,
      h',
      last_of_rest front (trim_start (trim_end s)) (trim_end s) e' h,
    )
