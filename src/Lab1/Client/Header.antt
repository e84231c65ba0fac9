-- ===== src/Lab1/Client/Header.antt =====
-- The header of a download on the client: `FILE_INFO`, the name and the size.
use nssa_ds.Base.{
  ℕ, ◌^◌, ◌<◌, ◌≡◌, refl, sym, ◌∙◌, ap, ◌⊎◌, inl, inr, append-nil, Bool, true, List, [], ◌∷◌, ◌++◌,
  some, arith, length, append_assoc,
}
use nssa_ds.Base.Text.{Text, text}
use nssa_ds.Base.Bytes.{Bytes}
use nssa_ds.Base.Strings.{
  crlf, keep_line, trim_line, fields, has_prefix, contains, contains-crlf, trim_line-append,
  NoLineEnd, NoLineEnd-append, NoSpaces-NoLineEnd, IsField, fields-word, fields-word_space,
  fields_last,
}
use nssa_ds.Base.Decimal.{decimal, decimal-IsField, parse_int-decimal}
use nssa_ds.Lab1.Socket.{Conn, read, Brings}
use nssa_ds.Lab1.Client.{got, response_loop, read_response, third, receive_file, download_after}

-- The header of a file of `n` bytes, and what came with it.
abbrev pub line : Text → ℕ → Bytes → Bytes
line name n x = text "FILE_INFO " ++ (name ++ (32 ∷ (decimal n ++ (13 ∷ (10 ∷ x)))))

-- The header up to its line end.
abbrev front : Text → ℕ → Text
front name n = text "FILE_INFO " ++ (name ++ (32 ∷ decimal n))

front-NoLineEnd : (name : Text) (n : ℕ) → IsField name → NoLineEnd (front name n)
front-NoLineEnd name n h =
    NoLineEnd-append (text "FILE_INFO ") (name ++ (32 ∷ decimal n))
      (refl, (refl, (refl, (refl, (refl, (refl, (refl, (refl, (refl, (refl, tt))))))))))
      (NoLineEnd-append name (32 ∷ decimal n) (NoSpaces-NoLineEnd name h.no_spaces)
        (refl, NoSpaces-NoLineEnd (decimal n) (decimal-IsField n).no_spaces))

front-append :
    (name : Text) (n : ℕ) (y : Bytes)
    → front name n ++ y ≡ text "FILE_INFO " ++ (name ++ (32 ∷ (decimal n ++ y)))
front-append name n y = ap (λ t. text "FILE_INFO " ++ t) (append_assoc name (32 ∷ decimal n) y)

trim_line-line :
    (name : Text) (n : ℕ) (x : Bytes)
    → IsField name
    → trim_line (line name n x)
      ≡ text "FILE_INFO " ++ (name ++ (32 ∷ (decimal n ++ trim_line (13 ∷ (10 ∷ x)))))
trim_line-line name n x h =
    ap trim_line (sym (front-append name n (13 ∷ (10 ∷ x))))
    ∙ trim_line-append 70 (text "ILE_INFO " ++ (name ++ (32 ∷ decimal n))) (13 ∷ (10 ∷ x))
        (front-NoLineEnd name n h)
    ∙ front-append name n (trim_line (13 ∷ (10 ∷ x)))

cr_kept : (t : Text) → (keep_line 13 t ≡ []) ⊎ ((z : Text) × (keep_line 13 t ≡ 13 ∷ z))
cr_kept [] = inl refl
cr_kept (d ∷ ds) = inr (d ∷ ds, refl)

cr_cases : (y : Text) → (trim_line (13 ∷ y) ≡ []) ⊎ ((z : Text) × (trim_line (13 ∷ y) ≡ 13 ∷ z))
unfolding trim_line
cr_cases y = cr_kept (trim_line y)

third-fields :
    (name : Text) (n : ℕ) (t : Text) (rest : List Text)
    → IsField name
    → fields (decimal n ++ t) ≡ decimal n ∷ rest
    → third (fields (text "FILE_INFO " ++ (name ++ (32 ∷ (decimal n ++ t))))) ≡ some (decimal n)
third-fields name n t rest h last =
    let info : IsField (text "FILE_INFO") = record {
      some_char = λ e. omega (arith, ap length e);
      no_spaces = (refl, (refl, (refl, (refl, (refl, (refl, (refl, (refl, (refl, tt)))))))));
    } in
    rw
      (
        fields-word (text "FILE_INFO") (name ++ (32 ∷ (decimal n ++ t))) info,
        fields-word name (decimal n ++ t) h,
        last,
      )
      refl

third-line :
    (name : Text) (n : ℕ) (x : Bytes)
    → IsField name
    → third (fields (trim_line (line name n x))) ≡ some (decimal n)
third-line name n x h = elim (cr_cases (10 ∷ x)) [
  | inl none_left ↦
      rw (trim_line-line name n x h, none_left)
        (third-fields name n [] [] h
          (ap fields (append-nil (decimal n)) ∙ fields_last (decimal n) (decimal-IsField n)))
  | inr (z, e) ↦
      rw (trim_line-line name n x h, e)
        (third-fields name n (13 ∷ z) (fields z) h
          (fields-word_space (decimal n) z 13 (decimal-IsField n) refl))
]

contains-line : (name : Text) (n : ℕ) (x : Bytes) → contains (line name n x) crlf ≡ true
contains-line name n x =
    ap (λ t. contains t crlf) (sym (front-append name n (13 ∷ (10 ∷ x))))
    ∙ contains-crlf (front name n) x

-- The response ends with the read that has the line end in it, whatever else that read brings.
pub read_response-line :
    (size : ℕ) (c : Conn) (name : Text) (n : ℕ) (x : Bytes)
    → Brings size c (line name n x)
    → read_response size c ≡ ((read size c).0, got (trim_line (line name n x)))
unfolding read_response response_loop
read_response-line size c name n x r =
    rw (read_response, response_loop, r.is_read, contains-line name n x) refl

-- A download goes on to receive as many bytes as the header says.
pub download_after-line :
    (size : ℕ) (c : Conn) (path name : Text) (results : List Bool) (n : ℕ) (x : Bytes)
    → IsField name
    → n < 2 ^ 63
    → download_after size path true results (c, got (trim_line (line name n x)))
      ≡ receive_file size c path n true results
unfolding has_prefix
download_after-line size c path name results n x h b =
    let kind = trim_line-line name n x h in
    rw (third-line name n x h, parse_int-decimal n b, kind) refl
