-- ===== src/Lab3/Commands/Words.antt =====
-- Fields, and the space around them.
use nssa_ds.Base.{
  arith, ℕ, ◌≡◌, refl, sym, ◌∙◌, ap, inl, inr, true, Bool-cases, List, [], ◌∷◌, ◌++◌, append_assoc,
  append-nil, All,
}
use nssa_ds.Base.Text.{Text, join}
use nssa_ds.Base.Strings.{
  is_space, push_field, fields_from, fields, IsField, fields_last, fields-word_space,
}
use nssa_ds.Lab3.Multiplexer.{is_blank, keep_before, trim_end, trim_start, trim_string}
use nssa_ds.Lab3.Commands.Ascii.{keep_end, trim_space_end, trim_space_start, trim_space, Spaces}

fields_from-keep_end :
    (current : Text) (c : ℕ) (kept cs : Text)
    → ((cur : Text) → fields_from cur kept ≡ fields_from cur cs)
    → fields_from current (keep_end c kept) ≡ fields_from current (c ∷ cs)
unfolding fields_from
fields_from-keep_end current c [] cs h = elim (Bool-cases (is_space c)) [
  | inl s ↦ rw s (ap (push_field current) (h []))
  | inr s ↦ rw (s, fields_from, s) (h (current ++ (c ∷ [])))
]
fields_from-keep_end current c (d ∷ ds) cs h = elim (Bool-cases (is_space c)) [
  | inl s ↦ rw s (ap (push_field current) (h []))
  | inr s ↦ rw s (h (current ++ (c ∷ [])))
]

fields_from-trim_end :
    (current s : Text) → fields_from current (trim_space_end s) ≡ fields_from current s
unfolding trim_space_end
fields_from-trim_end current [] = refl
fields_from-trim_end current (c ∷ cs) =
    fields_from-keep_end current c (trim_space_end cs) cs (λ cur. fields_from-trim_end cur cs)

fields-space : (c : ℕ) (s : Text) → is_space c ≡ true → fields (c ∷ s) ≡ fields s
unfolding fields fields_from
fields-space c s h = rw h refl

fields-trim_start : (s : Text) → fields (trim_space_start s) ≡ fields s
unfolding trim_space_start
fields-trim_start [] = refl
fields-trim_start (c ∷ cs) = elim (Bool-cases (is_space c)) [
  | inl s ↦ rw s (fields-trim_start cs ∙ sym (fields-space c cs s))
  | inr s ↦ rw s refl
]

-- strings.TrimSpace takes nothing from strings.Fields.
pub fields-trim_space : (s : Text) → fields (trim_space s) ≡ fields s
unfolding fields
fields-trim_space s = fields-trim_start (trim_space_end s) ∙ fields_from-trim_end [] s

fields-Spaces : (s : Text) → Spaces s → fields s ≡ []
unfolding fields fields_from
fields-Spaces [] h = refl
fields-Spaces (c ∷ cs) h = fields-space c cs h.0 ∙ fields-Spaces cs h.1

fields-after : (w after : Text) → IsField w → Spaces after → fields (w ++ after) ≡ w ∷ []
fields-after w [] h s = ap fields (append-nil w) ∙ fields_last w h
fields-after w (c ∷ cs) h s =
    fields-word_space w cs c h s.0 ∙ ap (λ t. w ∷ t) (fields-Spaces cs s.1)

fields-join :
    (w : Text) (ws : List Text) (after : Text)
    → IsField w
    → All IsField ws
    → Spaces after
    → fields (join (w ∷ ws) ++ after) ≡ w ∷ ws
unfolding join
fields-join w [] after h hs s = fields-after w after h s
fields-join w (v ∷ ws) after h hs s =
    ap fields (append_assoc w (32 ∷ join (v ∷ ws)) after)
    ∙ (fields-word_space w (join (v ∷ ws) ++ after) 32 h refl
        ∙ ap (λ t. w ∷ t) (fields-join v ws after hs.0 hs.1 s))

-- Words come back, whatever space stands around them.
pub fields-words :
    (before : Text) (w : Text) (ws : List Text) (after : Text)
    → Spaces before
    → IsField w
    → All IsField ws
    → Spaces after
    → fields (before ++ (join (w ∷ ws) ++ after)) ≡ w ∷ ws
fields-words [] w ws after b h hs s = fields-join w ws after h hs s
fields-words (c ∷ cs) w ws after b h hs s =
    fields-space c (cs ++ (join (w ∷ ws) ++ after)) b.0 ∙ fields-words cs w ws after b.1 h hs s

-- A blank of trimString is space.
blank-space : (c : ℕ) → is_blank c ≡ true → is_space c ≡ true
blank-space c h = ground (arith, h)

fields_from-keep_before :
    (current : Text) (c : ℕ) (kept cs : Text)
    → ((cur : Text) → fields_from cur kept ≡ fields_from cur cs)
    → fields_from current (keep_before c kept) ≡ fields_from current (c ∷ cs)
unfolding fields_from
fields_from-keep_before current c (d ∷ ds) cs h = elim (Bool-cases (is_space c)) [
  | inl s ↦ rw s (ap (push_field current) (h []))
  | inr s ↦ rw s (h (current ++ (c ∷ [])))
]
fields_from-keep_before current c [] cs h = elim (Bool-cases (is_blank c)) [
  | inl b ↦ rw (b, blank-space c b) (ap (push_field current) (h []))
  | inr b ↦ elim (Bool-cases (is_space c)) [
    | inl s ↦ rw (b, fields_from, s) (ap (push_field current) (h []))
    | inr s ↦ rw (b, fields_from, s) (h (current ++ (c ∷ [])))
  ]
]

fields_from-trim_string_end :
    (current s : Text) → fields_from current (trim_end s) ≡ fields_from current s
unfolding trim_end
fields_from-trim_string_end current [] = refl
fields_from-trim_string_end current (c ∷ cs) =
    fields_from-keep_before current c (trim_end cs) cs (λ cur. fields_from-trim_string_end cur cs)

fields-trim_string_start : (s : Text) → fields (trim_start s) ≡ fields s
unfolding trim_start
fields-trim_string_start [] = refl
fields-trim_string_start (c ∷ cs) = elim (Bool-cases (is_blank c)) [
  | inl b ↦ rw b (fields-trim_string_start cs ∙ sym (fields-space c cs (blank-space c b)))
  | inr b ↦ rw b refl
]

-- Nor does the trimString of the multiplexer.
pub fields-trim_string : (s : Text) → fields (trim_string s) ≡ fields s
unfolding fields trim_string
fields-trim_string s = fields-trim_string_start (trim_end s) ∙ fields_from-trim_string_end [] s
