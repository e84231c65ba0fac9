-- ===== src/Lab1/Transfer/Request.antt =====
-- A download on the server, from the request it reads to its last message.
use nssa_ds.Base.{
  ℕ, ◌^◌, ◌<◌, ◌≡◌, refl, ◌∙◌, ap, true, [], ◌∷◌, ◌++◌, some, length, arith, append_assoc,
}
use nssa_ds.Base.Map.{lookup}
use nssa_ds.Base.Bytes.{Bytes}
use nssa_ds.Base.Text.{Text, text, text_key, text_eq}
use nssa_ds.Base.Strings.{
  crlf, trim_line, fields, to_upper, IsField, fields-word, fields_last, trim_line_id,
  NoSpaces-NoLineEnd,
}
use nssa_ds.Lab1.Socket.{Conn, read, write-Wrote, Brings}
use nssa_ds.Lab1.Files.{FileManager, path_of, info, get_file_info, create_transfer_session}
use nssa_ds.Lab1.Server.{Server, Served, handle_download, download_session}
use nssa_ds.Lab1.Server.Loop.{Round, handle_round, dispatch, finish}
use nssa_ds.Lab1.Server.Download.{Downloaded, header, send_file-Downloaded}

abbrev pub request : Text → Bytes
request name = text "DOWNLOAD " ++ (name ++ crlf)

-- The message behind the file.
abbrev pub message : Server → Text → ℕ → Text
message s name total = (text "File downloaded successfully: " ++ name ++ s.summary total) ++ crlf

request-fields :
    (name : Text) → IsField name → fields (trim_line (request name)) ≡ text "DOWNLOAD" ∷ (name ∷ [])
request-fields name h =
    let word : IsField (text "DOWNLOAD") = record {
      some_char = λ e. omega (arith, ap length e);
      no_spaces = (refl, (refl, (refl, (refl, (refl, (refl, (refl, (refl, tt))))))));
    } in
    ap fields (
      trim_line_id (text "DOWNLOAD " ++ name) (
        refl,
        (
          refl,
          (
            refl,
            (refl, (refl, (refl, (refl, (refl, (refl, NoSpaces-NoLineEnd name h.no_spaces)))))),
          ),
        ),
      ))
    ∙ fields-word (text "DOWNLOAD") name word
    ∙ ap (λ r. text "DOWNLOAD" ∷ r) (fields_last name h)

handle_download-Downloaded :
    (s : Server) (clock : ℕ → ℕ) (fm : FileManager) (c : Conn) (name : Text) (file : Bytes)
    → 0 < s.buffer_size
    → c.write_results ≡ []
    → lookup (path_of fm name) fm.disk ≡ some file
    → length file < 2 ^ 64
    → Downloaded s fm c name
        (header name file ++ file)
        (length file)
        (handle_download s clock fm c (name ∷ []))
unfolding handle_download get_file_info create_transfer_session
handle_download-Downloaded s clock fm c name file p e there b =
    let session = download_session s name (clock 0) (info fm name file) in
    let d =
      send_file-Downloaded s clock (create_transfer_session fm session) c session file p e there
        b in
    rw (handle_download, there)
      (record {
        sent = d.sent;
        answered = d.answered;
        same_disk = d.same_disk;
        still_fine = d.still_fine;
      })

-- What the round of a download does: it writes the header, the file and the message, keeps the disk, and goes on.
pub record Answered (s : Server) (fm : FileManager) (c : Conn) (name : Text) (file : Bytes)
    (r : Round) : Type 0 where
  pub sent :
      r.conn.written ≡ c.written ++ ((header name file ++ file) ++ message s name (length file))
  pub same_disk : r.files.disk ≡ fm.disk
  pub open_still : r.goes_on ≡ true

finish-Answered :
    (s : Server) (fm : FileManager) (c : Conn) (name : Text) (file : Bytes) (r : Served)
    → Downloaded s fm c name (header name file ++ file) (length file) r
    → Answered s fm c name file (finish r (text "DOWNLOAD"))
unfolding text_eq
finish-Answered s fm c name file r d =
    let m = message s name (length file) in
    let w = write-Wrote m r.conn d.still_fine in
    rw (d.answered, w.is_written)
      (record {
        sent =
            w.appended
            ∙ ap (λ t. t ++ m) d.sent
            ∙ append_assoc c.written (header name file ++ file) m;
        same_disk = d.same_disk;
        open_still = refl;
      })

-- A request of a download, brought by one read: the server writes the header with the file's size, the file, and
-- then the message of success, keeps its disk and goes on with the connection. The name is a word, the
-- file is there, and no write fails.
pub handle_round-Answered :
    (s : Server) (clock : ℕ → ℕ) (fm : FileManager) (c : Conn) (name : Text) (file : Bytes)
    → IsField name
    → 0 < s.buffer_size
    → Brings s.buffer_size c (request name)
    → c.write_results ≡ []
    → lookup (path_of fm name) fm.disk ≡ some file
    → length file < 2 ^ 64
    → Answered s fm c name file (handle_round s clock fm c)
unfolding handle_round dispatch to_upper text_eq
handle_round-Answered s clock fm c name file h p r e there b =
    let c' = (read s.buffer_size c).0 in
    let d = handle_download-Downloaded s clock fm c' name file p (r.same_results ∙ e) there b in
    let a = finish-Answered s fm c' name file _ d in
    rw (handle_round, r.is_read, request-fields name h)
      (record {
        sent =
            a.sent
            ∙ ap (λ t. t ++ ((header name file ++ file) ++ message s name (length file)))
                r.same_written;
        same_disk = a.same_disk;
        open_still = a.open_still;
      })
