-- ===== src/Lab1/Server/Loop.antt =====
-- lab1/internal/infrastructure/network/tcp_server.go: the loop of `HandleConnection`.
use nssa_ds.Base.{
  ℕ, Bool, true, false, ◌||◌, List, [], ◌∷◌, ◌++◌, Option, none, some, if◌then◌else◌,
}
use nssa_ds.Base.Result.{Result, ok, err, panic}
use nssa_ds.Base.Text.{Text, text, text_eq}
use nssa_ds.Base.Strings.{crlf, trim_line, fields, to_upper}
use nssa_ds.Lab1.Socket.{Conn, bytes, ended, read, write}
use nssa_ds.Lab1.Files.{FileManager}
use nssa_ds.Lab1.Server.{
  Server, Answer, replied, failed, hangs, Served, handle_upload, handle_download,
}

abbrev pub answer_of : Result Text Text → Answer
answer_of (ok reply) = replied reply
answer_of (err e) = failed e
answer_of panic = hangs

abbrev pub by_handler : Option (Text → List Text → Result Text Text) → Text → List Text → Answer
by_handler none cmd args = failed (text "command handler not set")
by_handler (some handler) cmd args = answer_of (handler cmd args)

-- The switch of `HandleConnection`.
unfoldable pub dispatch : Server → (ℕ → ℕ) → FileManager → Conn → Text → List Text → Served
dispatch s clock fm c cmd args =
    if text_eq cmd (text "UPLOAD")
    then handle_upload s clock fm c args
    else if text_eq cmd (text "DOWNLOAD")
    then handle_download s clock fm c args
    else record { files = fm; conn = c; answer = by_handler s.handler cmd args }

-- A connection that goes on, or that is over.
pub record Round : Type 0 where
  pub files : FileManager
  pub conn : Conn
  pub goes_on : Bool

abbrev pub closes : Text → Bool
closes cmd = text_eq cmd (text "CLOSE") || text_eq cmd (text "EXIT") || text_eq cmd (text "QUIT")

abbrev pub respond : FileManager → Conn → Text → Text → Round
respond fm c cmd response =
    let sent = write (response ++ crlf) c in
    record {
      files = fm;
      conn = sent.0;
      goes_on = if sent.1 then (if closes cmd then false else true) else false;
    }

abbrev pub finish : Served → Text → Round
finish served cmd = elim (served.answer) [
  | replied response ↦ respond served.files served.conn cmd response
  | failed e ↦ respond served.files served.conn cmd (text "ERROR: " ++ e)
  | hangs ↦ record { files = served.files; conn = served.conn; goes_on = false }
]

abbrev pub run_command : Server → (ℕ → ℕ) → FileManager → Conn → List Text → Round
run_command s clock fm c [] = record { files = fm; conn = c; goes_on = true }
run_command s clock fm c (part ∷ args) =
    finish (dispatch s clock fm c (to_upper part) args) (to_upper part)

-- One round of the loop of `HandleConnection`. An end of the stream, a timeout and an error end it.
unfoldable pub handle_round : Server → (ℕ → ℕ) → FileManager → Conn → Round
handle_round s clock fm c =
    let got = read s.buffer_size c in
    elim (got.1) [
      | ended why ↦ record { files = fm; conn = got.0; goes_on = false }
      | bytes items ↦ run_command s clock fm (got.0) (fields (trim_line items))
    ]

-- The rounds until the context is done, each with its clock.
unfoldable pub handle_connection : List (ℕ → ℕ) → Server → FileManager → Conn → FileManager × Conn
handle_connection [] s fm c = (fm, c)
handle_connection (clock ∷ clocks) s fm c =
    let round = handle_round s clock fm c in
    elim (round.goes_on) [
      | true ↦ handle_connection clocks s round.files round.conn
      | false ↦ (round.files, round.conn)
    ]
