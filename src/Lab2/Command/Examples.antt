-- ===== src/Lab2/Command/Examples.antt =====
-- Concrete commands: the theorems at inputs that meet their hypotheses.
use nssa_ds.Base.{◌≡◌, refl, [], ◌∷◌, arith, All}
use nssa_ds.Base.Text.{Text, text, join, IsWord}
use nssa_ds.Lab2.Command.{command_text, parse_command, parse_loop, runes, following}
use nssa_ds.Lab2.Command.RoundTrip.{parse_command-command_text}

-- U+0442 as UTF-8.
abbrev letter : Text
letter = 0xd1 ∷ (0x82 ∷ [])

two_words : All IsWord (letter ∷ (text "bc" ∷ []))
two_words = (
  record { some_char = λ e. cc; no_space = omega arith },
  (record { some_char = λ e. cc; no_space = omega arith }, tt),
)

upload-IsWord : IsWord (text "UPLOAD")
upload-IsWord = record { some_char = λ e. cc; no_space = omega arith }

parse_command-command_text_example :
    parse_command (command_text (text "UPLOAD") (letter ∷ (text "bc" ∷ [])))
    ≡ text "UPLOAD" ∷ (letter ∷ (text "bc" ∷ []))
unfolding command_text runes following join
parse_command-command_text_example =
    parse_command-command_text (text "UPLOAD") (letter ∷ (text "bc" ∷ [])) upload-IsWord two_words
      refl

-- A byte that is not UTF-8 is read as U+FFFD.
parse_command-replaced : parse_command (255 ∷ []) ≡ (0xef ∷ (0xbf ∷ (0xbd ∷ []))) ∷ []
unfolding parse_command parse_loop runes following
parse_command-replaced = refl
