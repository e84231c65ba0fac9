-- ===== src/Lab3/Commands.antt =====
-- lab3/internal/usecase/commands.go, and what the multiplexer writes back for a command: `processClientData` of
-- lab3/internal/infrastructure/network/select_multiplexer.go. The time's text and Go's strings are arguments.
pub mod Ascii
pub mod Words
pub mod Handled
mod Examples
use nssa_ds.Base.{List, [], ◌∷◌, ◌++◌, Option, none, some}
use nssa_ds.Base.Map.{Key, lookup, insert}
use nssa_ds.Base.Result.{Result, ok, err, panic}
use nssa_ds.Base.Text.{Text, text, text_key, join}

pub data Command : Type 0 where
  echo time close quit exit help : Command

abbrev pub name : Command → Text
name echo = text "ECHO"
name time = text "TIME"
name close = text "CLOSE"
name quit = text "QUIT"
name exit = text "EXIT"
name help = text "HELP"

-- The lines of the help are kept apart by a line feed.
abbrev pub help_text : Text
help_text =
    text "Available commands:"
    ++ (10
        ∷ (text "  ECHO <text>     - Echo the provided text"
            ++ (10
                ∷ (text "  TIME            - Get current server time"
                    ++ (10
                        ∷ (text "  CLOSE/EXIT/QUIT - Close connection"
                            ++ (10 ∷ text "  HELP            - Show this help message")))))))

-- `now` is `time.Now().Format(time.RFC3339)`.
unfoldable pub execute : Command → List Text → Text → Text
execute echo args now = join args
execute time args now = now
execute close args now = text "Connection closing..."
execute quit args now = text "Connection closing..."
execute exit args now = text "Connection closing..."
execute help args now = help_text

abbrev pub CommandHandler : Type 0
CommandHandler = List (Text × Command)

unfoldable pub register_command : CommandHandler → Command → CommandHandler
register_command h command = insert (name command) command h

unfoldable pub register_commands : CommandHandler → List Command → CommandHandler
register_commands h [] = h
register_commands h (command ∷ commands) = register_commands (register_command h command) commands

unfoldable pub new_command_handler : CommandHandler
new_command_handler = register_commands [] (echo ∷ (time ∷ (close ∷ (quit ∷ (exit ∷ (help ∷ []))))))

-- The functions of Go's package strings that the handler calls.
pub record GoStrings : Type 0 where
  pub trim_space : Text → Text
  pub fields : Text → List Text
  pub to_upper : Text → Text

abbrev pub unknown : Text → Text
unknown command_name =
    text "unknown command: " ++ (command_name ++ text ". Type HELP for available commands")

abbrev pub answer_by : Text → Option Command → List Text → Text → Result Text Text
answer_by command_name none args now = err (unknown command_name)
answer_by command_name (some command) args now = ok (execute command args now)

abbrev pub answer_parts : GoStrings → CommandHandler → List Text → Text → Result Text Text
answer_parts g h [] now = err (text "empty command")
answer_parts g h (part ∷ args) now =
    answer_by (g.to_upper part) (lookup (g.to_upper part) h) args now

-- The arguments of the call are not read.
unfoldable pub handle_command :
    GoStrings → CommandHandler → Text → List Text → Text → Result Text Text
handle_command g h cmd args now = answer_parts g h (g.fields (g.trim_space cmd)) now

abbrev pub response_to : Result Text Text → Text
response_to (ok response) = response
response_to (err e) = text "Error: " ++ e
response_to panic = []

-- What is written to a client that is there for its command.
unfoldable pub answer_line : GoStrings → CommandHandler → Text → Text → Text
answer_line g h command now = response_to (handle_command g h command [] now) ++ (10 ∷ [])
