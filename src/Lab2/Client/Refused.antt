-- ===== src/Lab2/Client/Refused.antt =====
-- The transfers of lab2's client against the command handler of lab2's own server.
use nssa_ds.Base.{
  ℕ, suc, ◌≡◌, refl, ◌∙◌, ap, inl, inr, Bool, true, Bool-cases, List, [], ◌∷◌, ◌++◌, Option, some,
  ◌==◌,
}
use nssa_ds.Base.Map.{lookup, insert}
use nssa_ds.Base.Result.{ok}
use nssa_ds.Base.Bytes.{Bytes, Slice}
use nssa_ds.Base.Text.{Text, text, text_key, text_eq}
use nssa_ds.Base.Strings.{contains, has_prefix}
use nssa_ds.Lab2.Packet.{Packet, deserialize_packet}
use nssa_ds.Lab2.PacketType
use nssa_ds.Lab2.Reliability.{ReliabilityManager, send_packet, receive_packet, receive_decoded}
use nssa_ds.Lab2.Connection.{ConnectionManager}
use nssa_ds.Lab2.Command.{
  runes, following, parse_loop, parse_command, register_command, new_command_handler,
  handle_command, reply,
}
use nssa_ds.Lab2.Client.{
  Ended, done, refused, server_error, not_ready, Reading, await_response, send_command,
  download_after, download_file,
}
use nssa_ds.Lab2.Client.Upload.{Link, upload_after, upload_file}

-- A read that brings the server's response to the text of a command.
pub record Replies (cmd now : Text) (datagram : Slice) (p : Packet) : Type 0 where
  pub decodes : deserialize_packet datagram ≡ ok p
  pub type : p.type ≡ PacketType.response
  pub payload : p.payload ≡ reply new_command_handler cmd now

parse_loop-first :
    (parts : List Text) (current rest : Text) (first : Text)
    → (later : List Text) × (parse_loop (first ∷ parts) current rest ≡ first ∷ later)
unfolding parse_loop
parse_loop-first parts [] [] first = (parts, refl)
parse_loop-first parts (c ∷ cs) [] first = (_, refl)
parse_loop-first parts [] (char ∷ rest) first = elim (Bool-cases (char == 32)) [
  | inl e ↦ rw e (parse_loop-first parts [] rest first)
  | inr e ↦ rw e (parse_loop-first parts (char ∷ []) rest first)
]
parse_loop-first parts (c ∷ cs) (char ∷ rest) first = elim (Bool-cases (char == 32)) [
  | inl e ↦ rw e (parse_loop-first (parts ++ ((c ∷ cs) ∷ [])) [] rest first)
  | inr e ↦ rw e (parse_loop-first parts (c ∷ (cs ++ (char ∷ []))) rest first)
]

pub reply-upload :
    (name now : Text)
    → reply new_command_handler (text "UPLOAD " ++ name) now ≡ text "ERROR: unknown command: UPLOAD"
unfolding reply parse_command runes following parse_loop handle_command new_command_handler
    register_command lookup insert text_eq
reply-upload name now =
    let (later, e) = parse_loop-first [] [] (runes 0 name) (text "UPLOAD") in rw e refl

pub reply-download :
    (name now : Text)
    → reply new_command_handler (text "DOWNLOAD " ++ name) now
      ≡ text "ERROR: unknown command: DOWNLOAD"
unfolding reply parse_command runes following parse_loop handle_command new_command_handler
    register_command lookup insert text_eq
reply-download name now =
    let (later, e) = parse_loop-first [] [] (runes 0 name) (text "DOWNLOAD") in rw e refl

-- `SendCommand` returns the response that the first read brings.
send_command-first :
    (rm : ReliabilityManager) (cmd now : Text) (datagram : Slice) (p : Packet)
    (incoming : List (Option Slice)) (more time : ℕ)
    → Replies cmd now datagram p
    → (send_command rm (some datagram ∷ incoming) (suc more) cmd [] time true).1
      ≡ done (reply new_command_handler cmd now)
unfolding send_command await_response receive_packet receive_decoded send_packet
send_command-first rm cmd now datagram p incoming more time r =
    rw (send_command, await_response, receive_packet, r.decodes, receive_decoded, r.type, r.payload)
      refl

download_after-Refused :
    (creates : Bool) (window : ℕ) (stores : ℕ → Option ℕ) (r : Reading) (answer : Ended Bytes)
    → answer ≡ done (text "ERROR: unknown command: DOWNLOAD")
    → (download_after creates window stores (r, answer)).ended
      ≡ refused (server_error (text "ERROR: unknown command: DOWNLOAD"))
unfolding has_prefix
download_after-Refused creates window stores r answer e = rw e refl

upload_after-Refused :
    (link : Link) (opens : Bool) (cm : ConnectionManager) (size : ℕ) (reads : List (Option Bytes))
    (r : Reading) (answer : Ended Bytes)
    → answer ≡ done (text "ERROR: unknown command: UPLOAD")
    → (upload_after link opens cm size reads (r, answer)).ended
      ≡ refused (not_ready (text "ERROR: unknown command: UPLOAD"))
unfolding contains has_prefix
upload_after-Refused link opens cm size reads r answer e = rw e refl

-- Neither transfer of lab2's client starts with lab2's own server, whatever the name: its handler knows neither
-- command. A download ends with the server's error, and an upload, of a file that is there, as not ready. The
-- command is written, and the response to it is the first read, which begins before the timeout.
pub transfers-Refused :
    (creates : Bool) (window : ℕ) (stores : ℕ → Option ℕ) (link : Link) (opens : Bool) (size : ℕ)
    (reads : List (Option Bytes)) (rm : ReliabilityManager) (cm : ConnectionManager)
    (name now : Text) (get put : Slice) (p q : Packet) (incoming : List (Option Slice))
    (more time : ℕ)
    → Replies (text "DOWNLOAD " ++ name) now get p
    → Replies (text "UPLOAD " ++ name) now put q
    → ((download_file creates window stores rm
          (some get ∷ incoming)
          (suc more)
          name
          time
          true).ended
        ≡ refused (server_error (text "ERROR: unknown command: DOWNLOAD")))
      × ((upload_file link opens rm cm
            (some size)
            reads
            (some put ∷ incoming)
            (suc more)
            name
            time
            true).ended
          ≡ refused (not_ready (text "ERROR: unknown command: UPLOAD")))
unfolding download_file upload_file
transfers-Refused creates window stores link opens size reads rm cm name now get put p q incoming
      more time d u =
    (
      download_after-Refused creates window stores
          (send_command rm (some get ∷ incoming) (suc more) (text "DOWNLOAD " ++ name) [] time
            true).0
          _
          (send_command-first rm (text "DOWNLOAD " ++ name) now get p incoming more time d
            ∙ ap done (reply-download name now)),
      upload_after-Refused link opens cm size reads
          (send_command rm (some put ∷ incoming) (suc more) (text "UPLOAD " ++ name) [] time true).0
          _
          (send_command-first rm (text "UPLOAD " ++ name) now put q incoming more time u
            ∙ ap done (reply-upload name now)),
    )
