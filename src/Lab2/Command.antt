-- ===== src/Lab2/Command.antt =====
-- The commands of lab2: `SendCommand`'s text in udp_client.go, `parseCommand` in udp_server.go, and
-- the handler of lab2/internal/usecase/commands.go. A text is its bytes.
pub mod RoundTrip
mod Examples
use nssa_ds.Base.{
  ℕ, zero, suc, Bool, true, false, not, ◌&&◌, ltb, leb, List, [], ◌∷◌, ◌++◌, Option, none, some,
  ◌==◌, if◌then◌else◌,
}
use nssa_ds.Base.Map.{Key, lookup, insert}
use nssa_ds.Base.Text.{Text, text, text_key, join}

abbrev nonempty : List Text → Bool
nonempty [] = false
nonempty (w ∷ ws) = true

-- `command := cmd; if len(args) > 0 { command += " " + strings.Join(args, " ") }`
unfoldable pub command_text : Text → List Text → Text
command_text cmd args = if nonempty args then cmd ++ (b' ' ∷ join args) else cmd

-- `if current != "" { parts = append(parts, current) }`
abbrev pub push_part : List Text → Text → List Text
push_part parts [] = parts
push_part parts (c ∷ cs) = parts ++ ((c ∷ cs) ∷ [])

unfoldable pub parse_loop : List Text → Text → Text → List Text
parse_loop parts current [] = push_part parts current
parse_loop parts current (char ∷ rest) =
    parse_loop (if char == b' ' then push_part parts current else parts)
      (if char == b' ' then [] else current ++ (char ∷ [])) rest

abbrev pub within : ℕ → ℕ → ℕ → Bool
within low high c = leb low c && leb c high

-- The number of bytes, if the test of them holds.
abbrev pub if_so : Bool → ℕ → Option ℕ
if_so b n = if b then some n else none

abbrev pub one_more : ℕ → ℕ → Text → Option ℕ
one_more low high (c ∷ _) = if_so (within low high c) 1
one_more low high _ = none

abbrev pub two_more : ℕ → ℕ → Text → Option ℕ
two_more low high (c ∷ (d ∷ _)) = if_so (within low high c && within 0x80 0xbf d) 2
two_more low high _ = none

abbrev pub three_more : ℕ → ℕ → Text → Option ℕ
three_more low high (c ∷ (d ∷ (e ∷ _))) =
    if_so (within low high c && (within 0x80 0xbf d && within 0x80 0xbf e)) 3
three_more low high _ = none

-- How many bytes of its rune follow a first byte; none for bytes that are not UTF-8.
unfoldable pub following : ℕ → Text → Option ℕ
following c rest =
    if ltb c 0x80
    then some 0
    else if within 0xc2 0xdf c
    then one_more 0x80 0xbf rest
    else if c == 0xe0
    then two_more 0xa0 0xbf rest
    else if c == 0xed
    then two_more 0x80 0x9f rest
    else if within 0xe1 0xef c
    then two_more 0x80 0xbf rest
    else if c == 0xf0
    then three_more 0x90 0xbf rest
    else if c == 0xf4
    then three_more 0x80 0x8f rest
    else if within 0xf1 0xf3 c
    then three_more 0x80 0xbf rest
    else none

-- The first byte of a rune, or `string(char)` of the replacement character.
abbrev pub first_bytes : ℕ → Option ℕ → Text
first_bytes c none = 0xef ∷ (0xbf ∷ (0xbd ∷ []))
first_bytes c (some n) = c ∷ []

abbrev pub count_or_zero : Option ℕ → ℕ
count_or_zero none = 0
count_or_zero (some n) = n

-- The bytes of the runes that `range` gives, put together again by `string(char)`: each byte that is not
-- UTF-8 gives the three of U+FFFD. The number is how many bytes of the rune before are to come.
unfoldable pub runes : ℕ → Text → Text
runes n [] = []
runes (suc n) (c ∷ rest) = c ∷ runes n rest
runes zero (c ∷ rest) =
    let more = following c rest in first_bytes c more ++ runes (count_or_zero more) rest

unfoldable pub parse_command : Text → List Text
parse_command cmd = parse_loop [] [] (runes 0 cmd)

pub data Command : Type 0 where
  echo time close : Command

abbrev pub name : Command → Text
name echo = text "ECHO"
name time = text "TIME"
name close = text "CLOSE"

-- `now` is `time.Now().Format(time.RFC3339)`.
unfoldable pub execute : Command → List Text → Text → Text
execute echo args now = join args
execute time args now = now
execute close args now = text "Connection closing..."

abbrev pub CommandHandler : Type 0
CommandHandler = List (Text × Command)

unfoldable pub register_command : CommandHandler → Command → CommandHandler
register_command h command = insert (name command) command h

unfoldable pub new_command_handler : CommandHandler
new_command_handler = register_command (register_command (register_command [] echo) time) close

-- The answer, or the name that is unknown.
pub data Answer : Type 0 where
  response : Text → Answer
  unknown_command : Text → Answer

abbrev pub answer_by : Option Command → Text → List Text → Text → Answer
answer_by none cmd args now = unknown_command cmd
answer_by (some command) cmd args now = response (execute command args now)

unfoldable pub handle_command : CommandHandler → Text → List Text → Text → Answer
handle_command h cmd args now = answer_by (lookup cmd h) cmd args now

-- The text that goes back: `ERROR: unknown command: ...` for an unknown one.
abbrev pub answer_text : Answer → Text
answer_text (response t) = t
answer_text (unknown_command cmd) = text "ERROR: unknown command: " ++ cmd

abbrev pub split_or : Text → List Text → Text × List Text
split_or cmd [] = (cmd, [])
split_or cmd (part ∷ parts) = (part, parts)

-- The response of the server's `handleCommand` to the data of a packet.
unfoldable pub reply : CommandHandler → Text → Text → Text
reply h cmd now =
    let (head, args) = split_or cmd (parse_command cmd) in
    answer_text (handle_command h head args now)
