-- ===== src/Base/Strings.antt =====
-- What the program uses of Go's strings, on ASCII text.
use nssa_ds.Base.Tests.{◌==◌, leb, if◌then◌else◌}
use nssa_ds.Base.Text.{Text}
use Prim.Native.Nat.{ℕ, ◌-◌}
use mathlib.Core.Path.{◌≡◌, refl, sym, ap, ◌∙◌}
use mathlib.Core.Logic.{◌≢◌}
use mathlib.Core.Bool.{Bool, true, false, ◌&&◌, ◌||◌}
use mathlib.Core.List.{List, [], ◌∷◌, ◌++◌, map, append_assoc, append-nil}
use native.Mathlib.Omega.{arith}

abbrev pub crlf : Text
crlf = 13 ∷ (10 ∷ [])

abbrev pub is_line_end : ℕ → Bool
is_line_end c = (c == 13) || (c == 10)

abbrev pub keep_line : ℕ → Text → Text
keep_line c [] = if is_line_end c then [] else c ∷ []
keep_line c (d ∷ ds) = c ∷ (d ∷ ds)

-- strings.TrimRight(s, "\r\n")
unfoldable pub trim_line : Text → Text
trim_line [] = []
trim_line (c ∷ cs) = keep_line c (trim_line cs)

-- unicode.IsSpace below 128.
abbrev pub is_space : ℕ → Bool
is_space c = (leb 9 c && leb c 13) || (c == 32)

abbrev pub push_field : Text → List Text → List Text
push_field [] rest = rest
push_field (c ∷ cs) rest = (c ∷ cs) ∷ rest

unfoldable pub fields_from : Text → Text → List Text
fields_from current [] = push_field current []
fields_from current (c ∷ s) =
    let rest = fields_from (if is_space c then [] else current ++ (c ∷ [])) s in
    if is_space c then push_field current rest else rest

-- strings.Fields
unfoldable pub fields : Text → List Text
fields = fields_from []

abbrev pub upper : ℕ → ℕ
upper c = if leb 97 c && leb c 122 then c - 32 else c

-- strings.ToUpper
unfoldable pub to_upper : Text → Text
to_upper = map upper

unfoldable pub has_prefix : Text → Text → Bool
has_prefix s [] = true
has_prefix [] (p ∷ ps) = false
has_prefix (c ∷ s) (p ∷ ps) = (c == p) && has_prefix s ps

-- strings.Contains(s, part), for a part that is not empty.
unfoldable pub contains : Text → Text → Bool
contains [] part = false
contains (c ∷ s) part = has_prefix (c ∷ s) part || contains s part

-- A word for strings.Fields.
abbrev pub NoSpaces : Text → Type 0
NoSpaces [] = Unit {0}
NoSpaces (c ∷ cs) = (is_space c ≡ false) × NoSpaces cs

pub record IsField (w : Text) : Type 0 where
  pub some_char : w ≢ []
  pub no_spaces : NoSpaces w

pub fields_from-word :
    (w current rest : Text)
    → NoSpaces w
    → fields_from current (w ++ rest) ≡ fields_from (current ++ w) rest
unfolding fields_from
fields_from-word [] current rest h = rw (append-nil current) refl
fields_from-word (c ∷ cs) current rest h = rw (h.0) (
    fields_from-word cs (current ++ (c ∷ [])) rest h.1
    ∙ ap (λ t. fields_from t rest) (append_assoc current (c ∷ []) cs))

pub push_field-word : (w : Text) (rest : List Text) → w ≢ [] → push_field w rest ≡ w ∷ rest
push_field-word [] rest h = absurd (h refl)
push_field-word (c ∷ cs) rest h = refl

-- A word and a space in front of the rest come out as a field.
pub fields-word : (w rest : Text) → IsField w → fields (w ++ (32 ∷ rest)) ≡ w ∷ fields rest
unfolding fields fields_from
fields-word w rest h =
    fields_from-word w [] (32 ∷ rest) h.no_spaces
    ∙ push_field-word w (fields_from [] rest) h.some_char

pub fields_last : (w : Text) → IsField w → fields w ≡ w ∷ []
unfolding fields fields_from
fields_last w h =
    ap (fields_from []) (sym (append-nil w))
    ∙ fields_from-word w [] [] h.no_spaces
    ∙ push_field-word w [] h.some_char

-- No line end at the end: nothing is trimmed.
abbrev pub NoLineEnd : Text → Type 0
NoLineEnd [] = Unit {0}
NoLineEnd (c ∷ cs) = (is_line_end c ≡ false) × NoLineEnd cs

pub trim_line_id : (s : Text) → NoLineEnd s → trim_line (s ++ crlf) ≡ s
unfolding trim_line
trim_line_id [] h = refl
trim_line_id (c ∷ []) h = ground (arith, h.0)
trim_line_id (c ∷ (d ∷ ds)) h = ap (keep_line c) (trim_line_id (d ∷ ds) h.1)

-- A word and any space in front of the rest come out as a field.
pub fields-word_space :
    (w rest : Text) (c : ℕ)
    → IsField w
    → is_space c ≡ true
    → fields (w ++ (c ∷ rest)) ≡ w ∷ fields rest
unfolding fields fields_from
fields-word_space w rest c h s =
    fields_from-word w [] (c ∷ rest) h.no_spaces
    ∙ rw s (push_field-word w (fields_from [] rest) h.some_char)

pub NoLineEnd-append : (a b : Text) → NoLineEnd a → NoLineEnd b → NoLineEnd (a ++ b)
NoLineEnd-append [] b h k = k
NoLineEnd-append (c ∷ cs) b h k = (h.0, NoLineEnd-append cs b h.1 k)

pub NoSpaces-NoLineEnd : (w : Text) → NoSpaces w → NoLineEnd w
NoSpaces-NoLineEnd [] h = tt
NoSpaces-NoLineEnd (c ∷ cs) h = (ground (arith, h.0), NoSpaces-NoLineEnd cs h.1)

kept : (c : ℕ) (s : Text) → is_line_end c ≡ false → keep_line c s ≡ c ∷ s
kept c [] h = rw h refl
kept c (d ∷ ds) h = refl

-- Only line ends behind the last other byte go.
pub trim_line-append :
    (c : ℕ) (cs b : Text) → NoLineEnd (c ∷ cs) → trim_line ((c ∷ cs) ++ b) ≡ (c ∷ cs) ++ trim_line b
unfolding trim_line
trim_line-append c [] b h = kept c (trim_line b) h.0
trim_line-append c (d ∷ ds) b h = ap (keep_line c) (trim_line-append d ds b h.1)

or_true : (b : Bool) → (b || true) ≡ true
or_true true = refl
or_true false = refl

pub contains-crlf : (a b : Text) → contains (a ++ (13 ∷ (10 ∷ b))) crlf ≡ true
unfolding contains has_prefix
contains-crlf [] b = refl
contains-crlf (c ∷ cs) b =
    rw (contains-crlf cs b) (or_true (has_prefix (c ∷ (cs ++ (13 ∷ (10 ∷ b)))) crlf))
