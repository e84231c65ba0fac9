-- ===== src/Lab3/Commands/Examples.antt =====
-- An echo in small letters with space around it.
use nssa_ds.Base.{arith, ◌≡◌, refl, [], ◌∷◌, ◌++◌}
use nssa_ds.Base.Text.{Text, text, join}
use nssa_ds.Base.Strings.{IsField, fields, to_upper}
use nssa_ds.Lab3.Commands.{GoStrings, new_command_handler, answer_line}
use nssa_ds.Lab3.Commands.Ascii.{IsGoStrings, trim_space}
use nssa_ds.Lab3.Multiplexer.Loop.{process_client_data}
use nssa_ds.Lab3.Commands.Handled.{Written, process_client_data-Written}

abbrev go_strings : GoStrings
go_strings = record { trim_space = trim_space; fields = fields; to_upper = to_upper }

go_strings-IsGoStrings : IsGoStrings go_strings
go_strings-IsGoStrings = record { trims = λ s a. refl; splits = λ s a. refl; maps = λ s a. refl }

echo-IsField : IsField (text "echo")
echo-IsField = record { some_char = λ e. cc; no_spaces = (refl, (refl, (refl, (refl, tt)))) }

hi-IsField : IsField (text "hi")
hi-IsField = record { some_char = λ e. cc; no_spaces = (refl, (refl, tt)) }

process_client_data-Written_example :
    (cmd : Text) × (process_client_data "client_1"
        (text "  " ++ (join (text "echo" ∷ (text "hi" ∷ [])) ++ text " "))
      ≡ ("client_1", cmd) ∷ [])
    × Written
        (text "echo")
        (text "hi" ∷ [])
        (text "now")
        (answer_line go_strings new_command_handler cmd (text "now"))
process_client_data-Written_example =
    process_client_data-Written go_strings "client_1" (text "  ") (text "echo") (text "hi" ∷ [])
      (text " ") (text "now") go_strings-IsGoStrings (refl, (refl, tt)) echo-IsField (omega arith)
      (hi-IsField, tt) (omega arith) (refl, tt)
