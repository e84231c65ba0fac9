-- ===== src/Lab1/Server.antt =====
-- lab1/internal/infrastructure/network/tcp_server.go: a connection of the server, from its first read to
-- its end. `clock i` is the time at chunk `i` of a transfer, in nanoseconds, and `summary` is the end of
-- the message of a transfer, which has its size and its rate as float64. The command handler is that of
-- lab1/internal/usecase/commands.go or another.
pub mod Loop
pub mod Upload
pub mod Download
use nssa_ds.Base.{
  ℕ, zero, suc, ◌+◌, ◌-◌, ◌*◌, ◌/◌, ◌%◌, ◌^◌, Bool, true, false, ◌||◌, List, [], ◌∷◌, ◌++◌, Option,
  none, some, ltb, if◌then◌else◌, length, take, drop, map,
}
use nssa_ds.Base.Result.{Result, ok, err, panic}
use nssa_ds.Base.Bytes.{Bytes}
use nssa_ds.Base.Text.{Text, text, text_eq}
use nssa_ds.Base.Strings.{crlf, trim_line, fields, to_upper}
use nssa_ds.Base.Decimal.{decimal}
use nssa_ds.Lab1.Socket.{
  Conn, Ending, end_of_file, timed_out, broken, Got, bytes, ended, read, write,
}
use nssa_ds.Lab1.Files.{
  TransferSession, FileManager, FileInfo, save_file, read_file, get_file_info,
  create_transfer_session, update_transfer_session,
}

-- `timeout` is the text of the error of a read that waits past the deadline: of net.OpError, with both addresses.
pub record Server : Type 0 where
  pub buffer_size : ℕ
  pub upload_dir : Text
  pub handler : Option (Text → List Text → Result Text Text)
  pub client_addr : Text
  pub missing : Text
  pub timeout : Text
  pub summary : ℕ → Text

-- What a handler answers. `hangs` is a loop that never ends: it needs a buffer of no bytes.
pub data Answer : Type 0 where
  replied : Text → Answer
  failed : Text → Answer
  hangs : Answer

-- The file manager and the connection after a handler, and its answer.
pub record Served : Type 0 where
  pub files : FileManager
  pub conn : Conn
  pub answer : Answer

abbrev pub ended_upload : Server → FileManager → Conn → TransferSession → ℕ → Ending → Served
ended_upload s fm c session total end_of_file = record {
  files = fm;
  conn = c;
  answer = replied (text "File uploaded successfully: " ++ session.file_name ++ s.summary total);
}
ended_upload s fm c session total timed_out = record {
  files = fm;
  conn = c;
  answer = failed (text "file receive error: " ++ s.timeout);
}
ended_upload s fm c session total (broken e) = record {
  files = fm;
  conn = c;
  answer = failed (text "file receive error: " ++ e);
}

-- The loop of `receiveFile`. A round takes a byte at least, so that their number is fuel enough.
unfoldable pub receive_loop :
    ℕ → Server → (ℕ → ℕ) → ℕ → FileManager → Conn → TransferSession → ℕ → Served
receive_loop zero s clock i fm c session total = record { files = fm; conn = c; answer = hangs }
receive_loop (suc fuel) s clock i fm c session total =
    let got = read s.buffer_size c in
    elim (got.1) [
      | ended why ↦ ended_upload s fm (got.0) session total why
      | bytes items ↦
          let saved = save_file fm session.file_name items total in
          let total' = (total + length items) % 2 ^ 64 in
          let session' : TransferSession = record session {
            transferred = total';
            last_update = clock i;
          } in
          elim (saved.1) [
            | err e ↦ record {
              files = saved.0;
              conn = got.0;
              answer = failed (text "failed to save file: " ++ e);
            }
            | panic ↦ record { files = saved.0; conn = got.0; answer = hangs }
            | ok _ ↦
                receive_loop fuel s clock (suc i) (update_transfer_session (saved.0) session').0
                  (got.0) session' total'
          ]
    ]

unfoldable pub receive_file : Server → (ℕ → ℕ) → FileManager → Conn → TransferSession → Served
receive_file s clock fm c session = receive_loop (suc (length c.incoming)) s clock 0 fm c session 0

-- The loop of `sendFile` over what is left of the file from `i` on.
unfoldable pub send_loop :
    ℕ → Server → (ℕ → ℕ) → ℕ → FileManager → Conn → TransferSession → Bytes → ℕ → Served
send_loop fuel s clock i fm c session [] total = record {
  files = fm;
  conn = c;
  answer = replied (text "File downloaded successfully: " ++ session.file_name ++ s.summary total);
}
send_loop zero s clock i fm c session (b ∷ bs) total = record {
  files = fm;
  conn = c;
  answer = hangs;
}
send_loop (suc fuel) s clock i fm c session (b ∷ bs) total =
    let chunk = take s.buffer_size (b ∷ bs) in
    let total' = (total + length chunk) % 2 ^ 64 in
    let session' : TransferSession = record session {
      transferred = total';
      last_update = clock i;
    } in
    let sent = write chunk c in
    elim (sent.1) [
      | true ↦
          send_loop fuel s clock (suc i) (update_transfer_session fm session').0 (sent.0) session'
            (drop s.buffer_size (b ∷ bs)) total'
      | false ↦ record { files = fm; conn = sent.0; answer = failed (text "file send error") }
    ]

abbrev pub send_header : Server → (ℕ → ℕ) → FileManager → Conn → TransferSession → Bytes → Served
send_header s clock fm c session file =
    let sent =
      write (text "FILE_INFO " ++ session.file_name ++ 32 ∷ decimal (length file) ++ crlf) c in
    if sent.1
    then send_loop (length file) s clock 0 fm (sent.0) session file 0
    else record { files = fm; conn = sent.0; answer = failed (text "failed to send file header") }

unfoldable pub send_file : Server → (ℕ → ℕ) → FileManager → Conn → TransferSession → Served
send_file s clock fm c session = elim (read_file fm session.file_name s.missing) [
  | ok file ↦ send_header s clock fm c session file
  | err e ↦ record { files = fm; conn = c; answer = failed (text "failed to read file: " ++ e) }
  | panic ↦ record { files = fm; conn = c; answer = hangs }
]

-- time.Now().Unix()
abbrev pub seconds : ℕ → ℕ
seconds now = now / 10 ^ 9

abbrev pub session_id : Server → Text → ℕ → Text
session_id s file_name now =
    s.client_addr ++ text "_" ++ file_name ++ text "_" ++ decimal (seconds now)

abbrev pub upload_session : Server → Text → ℕ → TransferSession
upload_session s file_name now = record {
  id = session_id s file_name now;
  client_addr = s.client_addr;
  file_name = file_name;
  file_size = 0;
  transferred = 0;
  is_upload = true;
  last_update = now;
  file_path = s.upload_dir ++ text "/" ++ file_name;
}

unfoldable pub handle_upload : Server → (ℕ → ℕ) → FileManager → Conn → List Text → Served
handle_upload s clock fm c [] = record {
  files = fm;
  conn = c;
  answer = failed (text "usage: UPLOAD <filename>");
}
handle_upload s clock fm c (file_name ∷ _) =
    let session = upload_session s file_name (clock 0) in
    let fm' = create_transfer_session fm session in
    let sent = write (text "READY_TO_RECEIVE " ++ file_name ++ crlf) c in
    if sent.1 then receive_file s clock fm' (sent.0) session else record {
      files = fm';
      conn = sent.0;
      answer = failed (text "failed to send ready response");
    }

abbrev pub download_session : Server → Text → ℕ → FileInfo → TransferSession
download_session s file_name now info = record {
  id = session_id s file_name now;
  client_addr = s.client_addr;
  file_name = file_name;
  file_size = info.size;
  transferred = 0;
  is_upload = false;
  last_update = now;
  file_path = info.path;
}

abbrev pub start_download :
    Server → (ℕ → ℕ) → FileManager → Conn → Text → Result Text FileInfo → Served
start_download s clock fm c file_name (err e) = record {
  files = fm;
  conn = c;
  answer = failed (text "file not found: " ++ file_name);
}
start_download s clock fm c file_name panic = record { files = fm; conn = c; answer = hangs }
start_download s clock fm c file_name (ok info) =
    let session = download_session s file_name (clock 0) info in
    send_file s clock (create_transfer_session fm session) c session

unfoldable pub handle_download : Server → (ℕ → ℕ) → FileManager → Conn → List Text → Served
handle_download s clock fm c [] = record {
  files = fm;
  conn = c;
  answer = failed (text "usage: DOWNLOAD <filename>");
}
handle_download s clock fm c (file_name ∷ _) =
    start_download s clock fm c file_name (get_file_info fm file_name s.missing)
