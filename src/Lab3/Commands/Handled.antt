-- ===== src/Lab3/Commands/Handled.antt =====
-- What the handler of lab3 answers to a command with its arguments.
use nssa_ds.Base.{
  ◌≡◌, ◌≢◌, refl, sym, ◌∙◌, inl, inr, true, false, Bool-cases, List, [], ◌∷◌, ◌++◌, none, some, All,
  ap,
}
use nssa_ds.Base.Map.{lookup, insert}
use nssa_ds.Base.Text.{Text, text, text_key, text_eq, text_eq_iff, join}
use nssa_ds.Base.Strings.{fields, to_upper, IsField}
use nssa_ds.Lab3.Commands.{
  Command, echo, time, close, quit, exit, help, name, execute, CommandHandler, register_command,
  register_commands, new_command_handler, unknown, handle_command, answer_line, GoStrings,
}
use nssa_ds.Lab3.Commands.Ascii.{
  Ascii, IsGoStrings, Spaces, trim_space, trim_space-Ascii, trim_string-Ascii, words-Ascii,
}
use nssa_ds.Lab3.Multiplexer.{trim_string}
use nssa_ds.Lab3.Multiplexer.Loop.{command_of, process_client_data}
use nssa_ds.Base.{String}
use nssa_ds.Base.Strings.{fields_from}
use nssa_ds.Lab3.Commands.Words.{fields-trim_string, fields-trim_space, fields-words}

unfoldable table : List Command → CommandHandler
table [] = []
table (c ∷ cs) = (name c, c) ∷ table cs

abbrev six : List Command
six = echo ∷ (time ∷ (close ∷ (quit ∷ (exit ∷ (help ∷ [])))))

new_command_handler-table : new_command_handler ≡ table six
unfolding new_command_handler register_commands register_command insert text_eq table
new_command_handler-table = refl

-- The command of a name, or none.
data Found (n : Text) (h : CommandHandler) (cs : List Command) : Type 0 where
  found : (c : Command) → n ≡ name c → lookup n h ≡ some c → Found n h cs
  missing : All (λ c. n ≢ name c) cs → lookup n h ≡ none → Found n h cs

table-Found : (n : Text) (cs : List Command) → Found n (table cs) cs
unfolding table lookup
table-Found n [] = missing tt refl
table-Found n (c ∷ cs) = elim (Bool-cases (text_eq (name c) n)) [
  | inl hit ↦ found c (sym ((text_eq_iff (name c) n).0 hit)) (rw hit refl)
  | inr miss ↦ elim (table-Found n cs) [
    | found d e f ↦ found d e (rw miss f)
    | missing others f ↦
        missing
          (
            (λ e. let no : true ≡ false = sym ((text_eq_iff (name c) n).1 (sym e)) ∙ miss in cc),
            others,
          )
          (rw miss f)
  ]
]

each : (n : Text) → All (λ c. n ≢ name c) six → (c : Command) → n ≢ name c
each n (e, (t, (c, (q, (x, (h, _)))))) echo = e
each n (e, (t, (c, (q, (x, (h, _)))))) time = t
each n (e, (t, (c, (q, (x, (h, _)))))) close = c
each n (e, (t, (c, (q, (x, (h, _)))))) quit = q
each n (e, (t, (c, (q, (x, (h, _)))))) exit = x
each n (e, (t, (c, (q, (x, (h, _)))))) help = h

-- What is written for the name `w` with arguments.
pub data Written (w : Text) (args : List Text) (now line : Text) : Type 0 where
  executed :
      (c : Command)
      → to_upper w ≡ name c
      → line ≡ execute c args now ++ (10 ∷ [])
      → Written w args now line
  refused :
      ((c : Command) → to_upper w ≢ name c)
      → line ≡ text "Error: " ++ (unknown (to_upper w) ++ (10 ∷ []))
      → Written w args now line

answer_line-fields :
    (g : GoStrings) (cmd w : Text) (args : List Text) (now : Text)
    → IsGoStrings g
    → Ascii cmd
    → Ascii w
    → fields cmd ≡ w ∷ args
    → Written w args now (answer_line g new_command_handler cmd now)
unfolding answer_line handle_command
answer_line-fields g cmd w args now go a a' e =
    let parts : g.fields (g.trim_space cmd) ≡ w ∷ args =
      ap g.fields (go.trims cmd a)
      ∙ go.splits (trim_space cmd) (trim_space-Ascii cmd a)
      ∙ fields-trim_space cmd
      ∙ e in
    let name_of = go.maps w a' in
    elim (table-Found (to_upper w) six) [
      | found c n f ↦
          executed c n
            (rw (answer_line, handle_command, parts, name_of, new_command_handler-table, f) refl)
      | missing others f ↦
          refused (each (to_upper w) others)
            (rw (answer_line, handle_command, parts, name_of, new_command_handler-table, f) refl)
    ]

command_of-some :
    (client_id : String) (cmd w : Text) (args : List Text)
    → fields cmd ≡ w ∷ args
    → command_of client_id cmd ≡ (client_id, cmd) ∷ []
unfolding fields fields_from
command_of-some client_id [] w args e = cc
command_of-some client_id (c ∷ cs) w args e = refl

-- What a client gets for the bytes of one read, an ASCII name and ASCII arguments with spaces between them and any space
-- around them: one command is started, and its line is, if the name is that of a command, in small letters or
-- large, what the command answers to the arguments, and else the error that names it. Go's strings do on
-- ASCII text what their documentation says.
pub process_client_data-Written :
    (g : GoStrings) (client_id : String) (before w : Text) (args : List Text) (after now : Text)
    → IsGoStrings g
    → Spaces before
    → IsField w
    → Ascii w
    → All IsField args
    → All Ascii args
    → Spaces after
    → (cmd : Text) × (process_client_data client_id (before ++ (join (w ∷ args) ++ after))
        ≡ (client_id, cmd) ∷ [])
      × Written w args now (answer_line g new_command_handler cmd now)
unfolding process_client_data
process_client_data-Written g client_id before w args after now go b h ascii hs asciis a =
    let bytes = before ++ (join (w ∷ args) ++ after) in
    let parts : fields (trim_string bytes) ≡ w ∷ args =
      fields-trim_string bytes ∙ fields-words before w args after b h hs a in
    (
      trim_string bytes,
      command_of-some client_id (trim_string bytes) w args parts,
      answer_line-fields g (trim_string bytes) w args now go
          (trim_string-Ascii bytes (words-Ascii before w args after b ascii asciis a)) ascii parts,
    )
