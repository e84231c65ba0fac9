-- ===== src/Lab1/Client.antt =====
-- lab1/internal/infrastructure/network/tcp_client.go: commands, uploads and downloads. The files of the
-- local disk are arguments: what a file holds, and which writes to it succeed. Rates, which are float64,
-- are left out of the progress. The connection is there: without one each call is an error at once.
pub mod Header
pub mod Receive
pub mod Send
use nssa_ds.Base.{
  s64_lt, ℕ, zero, suc, ◌+◌, ◌-◌, ◌*◌, ◌%◌, ◌^◌, Bool, true, false, not, List, [], ◌∷◌, ◌++◌,
  Option, none, some, ltb, if◌then◌else◌, length, take, drop, ◌==◌,
}
use nssa_ds.Base.Bytes.{Bytes}
use nssa_ds.Base.Text.{Text, text, join}
use nssa_ds.Base.Strings.{crlf, trim_line, fields, has_prefix, contains}
use nssa_ds.Base.Decimal.{parse_int}
use nssa_ds.Lab1.Socket.{
  Conn, Ending, end_of_file, timed_out, broken, Got, bytes, ended, read, write, succeeds, tail,
}

pub data ClientError : Type 0 where
  send_failed network_write_failed read_timeout no_file_info open_failed file_write_failed :
      ClientError
  read_error : Ending → ClientError
  not_ready server_error unexpected_response invalid_file_info : Text → ClientError
  invalid_file_size : Text → ClientError
  hangs : ClientError

pub data Reply {ℓ} (A : Type ℓ) : Type ℓ where
  got : A → Reply A
  failed : ClientError → Reply A

abbrev pub ended_response : Conn → Ending → Conn × Reply Text
ended_response c end_of_file = (c, failed (read_error end_of_file))
ended_response c timed_out = (c, failed read_timeout)
ended_response c (broken e) = (c, failed (read_error (broken e)))

-- The loop of `readResponse`: it ends with the first read that has a line end in it.
unfoldable pub response_loop : ℕ → ℕ → Conn → Text → Conn × Reply Text
response_loop zero size c response = (c, failed hangs)
response_loop (suc fuel) size c response =
    let answer = read size c in
    elim (answer.1) [
      | ended why ↦ ended_response (answer.0) why
      | bytes items ↦ elim (contains items crlf) [
        | true ↦ (answer.0, got (trim_line (response ++ items)))
        | false ↦ response_loop fuel size (answer.0) (response ++ items)
      ]
    ]

unfoldable pub read_response : ℕ → Conn → Conn × Reply Text
read_response size c = response_loop (suc (length c.incoming)) size c []

abbrev pub some_args : Text → List Text → Text
some_args cmd [] = cmd
some_args cmd (a ∷ args) = cmd ++ 32 ∷ join (a ∷ args)

unfoldable pub send_command : ℕ → Conn → Text → List Text → Conn × Reply Text
send_command size c cmd args =
    let sent = write (some_args cmd args ++ crlf) c in
    elim (sent.1) [ true ↦ read_response size (sent.0) | false ↦ (sent.0, failed send_failed) ]

pub record TransferProgress : Type 0 where
  pub file_name : Text
  pub total_bytes : ℕ
  pub transferred : ℕ

-- The loop of `sendFile` over what is left of the local file. A read of it fills the buffer or brings
-- the rest; a file of which nothing is left is at its end.
unfoldable pub send_loop : ℕ → ℕ → Conn → Text → ℕ → Bytes → ℕ → Conn × Reply TransferProgress
send_loop fuel size c path file_size [] total =
    (c, got (record { file_name = path; total_bytes = file_size; transferred = total }))
send_loop zero size c path file_size (b ∷ bs) total = (c, failed hangs)
send_loop (suc fuel) size c path file_size (b ∷ bs) total =
    let sent = write (take size (b ∷ bs)) c in
    let rest =
      send_loop fuel size (sent.0) path file_size (drop size (b ∷ bs))
        ((total + length (take size (b ∷ bs))) % 2 ^ 64) in
    if sent.1 then rest else (sent.0, failed network_write_failed)

-- `file` is the local file, if it can be opened.
unfoldable pub send_file : ℕ → Conn → Text → ℕ → Option Bytes → Conn × Reply TransferProgress
send_file size c path file_size none = (c, failed open_failed)
send_file size c path file_size (some file) =
    send_loop (length file) size c path file_size (if size == 0 then [] else file) 0

-- What `receiveFile` leaves: the connection, the local file, and the progress or an error.
pub record Received : Type 0 where
  pub conn : Conn
  pub file : Bytes
  pub reply : Reply TransferProgress

-- The buffer is cut down to what is missing.
abbrev pub fit : ℕ → ℕ → ℕ → ℕ
fit size total file_size = if ltb (file_size - total) size then file_size - total else size

-- The loop of `receiveFile`. `results` says which writes to the local file succeed.
unfoldable pub receive_loop : ℕ → ℕ → Conn → Text → ℕ → ℕ → Bytes → List Bool → Received
receive_loop zero size c path file_size total file results = record {
  conn = c;
  file = file;
  reply =
      if s64_lt total file_size
      then failed hangs
      else got (record { file_name = path; total_bytes = file_size; transferred = total });
}
receive_loop (suc fuel) size c path file_size total file results =
    let size' = fit size total file_size in
    let answer = read size' c in
    elim (s64_lt total file_size) [
      | false ↦ record {
        conn = c;
        file = file;
        reply = got (record { file_name = path; total_bytes = file_size; transferred = total });
      }
      | true ↦ elim (answer.1) [
        | ended why ↦ record { conn = answer.0; file = file; reply = failed (read_error why) }
        | bytes items ↦ elim (succeeds results) [
          | true ↦
              receive_loop fuel size' (answer.0) path file_size ((total + length items) % 2 ^ 64)
                (file ++ items) (tail results)
          | false ↦ record { conn = answer.0; file = file; reply = failed file_write_failed }
        ]
      ]
    ]

-- `created` is whether the local file can be created. A round takes a byte at least.
unfoldable pub receive_file : ℕ → Conn → Text → ℕ → Bool → List Bool → Received
receive_file size c path file_size created results =
    if created
    then receive_loop (length c.incoming + 1) size c path file_size 0 [] results
    else record { conn = c; file = []; reply = failed open_failed }

-- `UploadFile`: `local` is the local file, or none where os.Stat fails.
abbrev pub upload_after : ℕ → Text → Bytes → Conn × Reply Text → Conn × Reply TransferProgress
upload_after size path file (c, failed e) = (c, failed e)
upload_after size path file (c, got response) =
    if has_prefix response (text "READY_TO_RECEIVE")
    then send_file size c path (length file) (some file)
    else (c, failed (not_ready response))

unfoldable pub upload_file : ℕ → Conn → Text → Text → Option Bytes → Conn × Reply TransferProgress
upload_file size c path remote_name none = (c, failed no_file_info)
upload_file size c path remote_name (some file) =
    upload_after size path file (send_command size c (text "UPLOAD") (remote_name ∷ []))

abbrev pub third : List Text → Option Text
third (_ ∷ (_ ∷ (part ∷ _))) = some part
third _ = none

abbrev pub no_file : Conn → ClientError → Received
no_file c e = record { conn = c; file = []; reply = failed e }

abbrev pub download_size : ℕ → Conn → Text → Text → Bool → List Bool → Option ℕ → Received
download_size size c path part created results none = no_file c (invalid_file_size part)
download_size size c path part created results (some file_size) =
    receive_file size c path file_size created results

abbrev pub download_part : ℕ → Conn → Text → Text → Bool → List Bool → Option Text → Received
download_part size c path response created results none = no_file c (invalid_file_info response)
download_part size c path response created results (some part) =
    download_size size c path part created results (parse_int part)

abbrev pub download_after : ℕ → Text → Bool → List Bool → Conn × Reply Text → Received
download_after size path created results (c, failed e) = no_file c e
download_after size path created results (c, got response) =
    if has_prefix response (text "ERROR")
    then no_file c (server_error response)
    else if not (has_prefix response (text "FILE_INFO"))
    then no_file c (unexpected_response response)
    else download_part size c path response created results (third (fields response))

-- `DownloadFile`.
unfoldable pub download_file : ℕ → Conn → Text → Text → Bool → List Bool → Received
download_file size c remote_name path created results =
    download_after size path created results
      (send_command size c (text "DOWNLOAD") (remote_name ∷ []))
