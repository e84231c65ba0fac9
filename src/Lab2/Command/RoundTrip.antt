-- ===== src/Lab2/Command/RoundTrip.antt =====
-- `parseCommand` on any text, and on the text of `SendCommand`.
use nssa_ds.Base.{
  ◌≡◌, ◌≢◌, refl, sym, ◌∙◌, List, [], ◌∷◌, ◌++◌, arith, ◌==◌, ==_false, ==-ne, Bool-cases, inl, inr,
  All-append, All, append-nil, append_assoc,
}
use nssa_ds.Base.Map.{lookup, insert}
use nssa_ds.Base.Text.{Text, text, text_key, text_eq, text_eq-false, join, NoSpace, IsWord}
use nssa_ds.Lab2.Command.{
  push_part, runes, parse_loop, parse_command, command_text, new_command_handler, register_command,
  handle_command, execute, reply, name, echo,
}

NoSpace-append : (a b : Text) → NoSpace a → NoSpace b → NoSpace (a ++ b)
NoSpace-append [] b ha hb = hb
NoSpace-append (c ∷ cs) b ha hb = (ha.0, NoSpace-append cs b ha.1 hb)

All-push_part :
    (parts : List Text) (current : Text)
    → All IsWord parts
    → NoSpace current
    → All IsWord (push_part parts current)
All-push_part parts [] hp hc = hp
All-push_part parts (c ∷ cs) hp hc =
    All-append IsWord parts _ hp (record { some_char = λ e. cc; no_space = hc }, tt)

push_part-word : (parts : List Text) (w : Text) → IsWord w → push_part parts w ≡ parts ++ (w ∷ [])
push_part-word parts [] h = absurd (h.some_char refl)
push_part-word parts (c ∷ cs) h = refl

parse_loop-words :
    (rest : Text) (parts : List Text) (current : Text)
    → All IsWord parts
    → NoSpace current
    → All IsWord (parse_loop parts current rest)
unfolding parse_loop
parse_loop-words [] parts current hp hc = All-push_part parts current hp hc
parse_loop-words (c ∷ rest) parts current hp hc = elim (Bool-cases (c == b' ')) [
  | inl space ↦ rw space (parse_loop-words rest _ [] (All-push_part parts current hp hc) tt)
  | inr char ↦
      rw char
        (parse_loop-words rest parts _ hp (NoSpace-append current _ hc (==-ne c b' ' char, tt)))
]

-- A word in front of the rest is read into the current part.
parse_loop-NoSpace :
    (w : Text) (parts : List Text) (current rest : Text)
    → NoSpace w
    → parse_loop parts current (w ++ rest) ≡ parse_loop parts (current ++ w) rest
unfolding parse_loop
parse_loop-NoSpace [] parts current rest h = rw append-nil
parse_loop-NoSpace (c ∷ cs) parts current rest h =
    rw (==_false c b' ' h.0, parse_loop)
      (parse_loop-NoSpace cs parts (current ++ (c ∷ [])) rest h.1 ∙ rw append_assoc)

parse_loop-join :
    (ws : List Text) (parts : List Text)
    → All IsWord ws
    → parse_loop parts [] (join ws) ≡ parts ++ ws
unfolding parse_loop join
parse_loop-join [] parts h = sym (append-nil parts)
parse_loop-join (w ∷ []) parts h =
    rw (← append-nil w)
      (parse_loop-NoSpace w parts [] [] h.0.no_space ∙ rw append-nil (push_part-word parts w h.0))
parse_loop-join (w ∷ (v ∷ ws)) parts h =
    parse_loop-NoSpace w parts [] (b' ' ∷ join (v ∷ ws)) h.0.no_space
    ∙ parse_loop-join (v ∷ ws) (push_part parts w) h.1
    ∙ rw (push_part-word parts w h.0, append_assoc)

-- Every part that `parseCommand` returns is a word: it is not empty and has no space.
pub parse_command-words : (cmd : Text) → All IsWord (parse_command cmd)
unfolding parse_command
parse_command-words cmd = parse_loop-words (runes 0 cmd) [] [] tt tt

command_text-join : (cmd : Text) (args : List Text) → command_text cmd args ≡ join (cmd ∷ args)
unfolding command_text join
command_text-join cmd [] = refl
command_text-join cmd (a ∷ args) = refl

-- A text that is UTF-8: its runes give it again.
abbrev pub IsUtf8 : Text → Type 0
IsUtf8 t = runes 0 t ≡ t

-- The server reads back the command and the arguments that the client sent, if these are words and the text that
-- the client put together is UTF-8.
pub parse_command-command_text :
    (cmd : Text) (args : List Text)
    → IsWord cmd
    → All IsWord args
    → IsUtf8 (command_text cmd args)
    → parse_command (command_text cmd args) ≡ cmd ∷ args
unfolding parse_command
parse_command-command_text cmd args hc ha u =
    rw (u, command_text-join cmd args) (parse_loop-join (cmd ∷ args) [] (hc, ha))

echo-IsWord : IsWord (name echo)
echo-IsWord = record { some_char = λ e. cc; no_space = omega arith }

-- To an ECHO of words, as UTF-8, the server replies with the words joined by spaces.
pub reply-echo :
    (args : List Text) (now : Text)
    → All IsWord args
    → IsUtf8 (command_text (name echo) args)
    → reply new_command_handler (command_text (name echo) args) now ≡ join args
unfolding reply handle_command execute new_command_handler register_command lookup insert text_eq
reply-echo args now h u = rw (parse_command-command_text (name echo) args echo-IsWord h u)

-- To a word that is no command it replies with the error that names it.
pub reply_unknown :
    (cmd : Text) (args : List Text) (now : Text)
    → IsWord cmd
    → All IsWord args
    → IsUtf8 (command_text cmd args)
    → cmd ≢ text "ECHO"
    → cmd ≢ text "TIME"
    → cmd ≢ text "CLOSE"
    → reply new_command_handler (command_text cmd args) now ≡ text "ERROR: unknown command: " ++ cmd
unfolding reply handle_command new_command_handler register_command lookup insert text_eq
reply_unknown cmd args now hc ha u e t c = rw (
  parse_command-command_text cmd args hc ha u,
  text_eq-false (text "ECHO") cmd (λ p. e (sym p)),
  text_eq-false (text "TIME") cmd (λ p. t (sym p)),
  text_eq-false (text "CLOSE") cmd (λ p. c (sym p)),
)
