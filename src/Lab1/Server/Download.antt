-- ===== src/Lab1/Server/Download.antt =====
-- What `sendFile` of the server writes.
use nssa_ds.Base.{
  ℕ, zero, suc, ◌+◌, ◌%◌, ◌^◌, ◌≤◌, ◌<◌, ◌≡◌, refl, sym, ◌∙◌, ap, inl, inr, [], ◌∷◌, ◌++◌, some,
  Option-cases, arith, length, take, drop, take-append-drop, length-take, length-drop, append-nil,
  append_assoc,
}
use nssa_ds.Base.Map.{lookup}
use nssa_ds.Base.Bytes.{Bytes}
use nssa_ds.Base.Text.{Text, text, text_key}
use nssa_ds.Base.Strings.{crlf}
use nssa_ds.Base.Decimal.{decimal}
use nssa_ds.Lab1.Socket.{Conn, write, write-Wrote}
use nssa_ds.Lab1.Files.{TransferSession, FileManager, path_of, read_file, update_transfer_session}
use nssa_ds.Lab1.Server.{Server, replied, Served, send_loop, send_file, send_header}

-- The bytes went out, the answer reports success, and the disk is as it was.
pub record Downloaded (s : Server) (fm : FileManager) (c : Conn) (name : Text) (items : Bytes)
    (total : ℕ) (r : Served) : Type 0 where
  pub sent : r.conn.written ≡ c.written ++ items
  pub answered :
      r.answer ≡ replied (text "File downloaded successfully: " ++ name ++ s.summary total)
  pub same_disk : r.files.disk ≡ fm.disk
  pub still_fine : r.conn.write_results ≡ []

update_transfer_session-disk :
    (fm : FileManager) (session : TransferSession)
    → (update_transfer_session fm session).0.disk ≡ fm.disk
unfolding update_transfer_session
update_transfer_session-disk fm session = elim (Option-cases (lookup session.id fm.sessions)) [
  | inl gone ↦ rw gone refl
  | inr (old, there) ↦ rw there refl
]

Downloaded-chunk :
    (s : Server) (fm fm' : FileManager) (c c' : Conn) (name : Text) (chunk rest file : Bytes)
    (total total' : ℕ) (r : Served)
    → c'.written ≡ c.written ++ chunk
    → chunk ++ rest ≡ file
    → fm'.disk ≡ fm.disk
    → total ≡ total'
    → Downloaded s fm' c' name rest total r
    → Downloaded s fm c name file total' r
Downloaded-chunk s fm fm' c c' name chunk rest file total total' r w f d t a = record {
  sent =
      a.sent
      ∙ ap (λ b. b ++ rest) w
      ∙ append_assoc c.written chunk rest
      ∙ ap (λ b. c.written ++ b) f;
  answered =
      a.answered
      ∙ ap (λ n. replied (text "File downloaded successfully: " ++ name ++ s.summary n)) t;
  same_disk = a.same_disk ∙ d;
  still_fine = a.still_fine;
}

send_loop-Downloaded :
    (fuel : ℕ) (s : Server) (clock : ℕ → ℕ) (i : ℕ) (fm : FileManager) (c : Conn)
    (session : TransferSession) (file : Bytes) (total : ℕ)
    → 0 < s.buffer_size
    → length file ≤ fuel
    → c.write_results ≡ []
    → total + length file < 2 ^ 64
    → Downloaded s fm c session.file_name file
        (total + length file)
        (send_loop fuel s clock i fm c session file total)
unfolding send_loop
send_loop-Downloaded fuel s clock i fm c session [] total p l w b =
    let same : total ≡ total + 0 = omega arith in
    record {
      sent = sym (append-nil c.written);
      answered =
          ap
            (λ n.
              replied (text "File downloaded successfully: " ++ session.file_name ++ s.summary n))
            same;
      same_disk = refl;
      still_fine = w;
    }
send_loop-Downloaded zero s clock i fm c session (x ∷ xs) total p l e b = absurd (omega arith)
send_loop-Downloaded (suc fuel) s clock i fm c session (x ∷ xs) total p l e b =
    let chunk = take s.buffer_size (x ∷ xs) in
    let rest = drop s.buffer_size (x ∷ xs) in
    let total' = (total + length chunk) % 2 ^ 64 in
    let session' : TransferSession = record session {
      transferred = total';
      last_update = clock i;
    } in
    let fm' = (update_transfer_session fm session').0 in
    let w = write-Wrote chunk c e in
    let short = length-take s.buffer_size (x ∷ xs) in
    let left = length-drop s.buffer_size (x ∷ xs) in
    rw (send_loop, w.is_written)
      (Downloaded-chunk s fm fm' c (write chunk c).0 session.file_name chunk rest (x ∷ xs) _ _ _
        w.appended (take-append-drop s.buffer_size (x ∷ xs))
        (update_transfer_session-disk fm session') (omega (arith, short, left))
        (send_loop-Downloaded fuel s clock (suc i) fm' (write chunk c).0 session' rest total' p
          (omega (arith, left)) w.still_fine (omega (arith, short, left))))

abbrev pub header : Text → Bytes → Bytes
header name file = text "FILE_INFO " ++ name ++ 32 ∷ decimal (length file) ++ crlf

send_header-Downloaded :
    (s : Server) (clock : ℕ → ℕ) (fm : FileManager) (c : Conn) (session : TransferSession)
    (file : Bytes)
    → 0 < s.buffer_size
    → c.write_results ≡ []
    → length file < 2 ^ 64
    → Downloaded s fm c session.file_name
        (header session.file_name file ++ file)
        (length file)
        (send_header s clock fm c session file)
send_header-Downloaded s clock fm c session file p e b =
    let h = header session.file_name file in
    let w = write-Wrote h c e in
    rw (w.is_written) (
      Downloaded-chunk s fm fm c (write h c).0 session.file_name h file (h ++ file) _ _ _ w.appended
        refl refl (omega arith)
        (send_loop-Downloaded (length file) s clock 0 fm (write h c).0 session file 0 p
          (omega arith) w.still_fine (omega arith)))

-- `sendFile` of the server writes the header and then the bytes of the file in order, and nothing else, and leaves the disk as it was.
-- The buffer is not empty and no call fails.
pub send_file-Downloaded :
    (s : Server) (clock : ℕ → ℕ) (fm : FileManager) (c : Conn) (session : TransferSession)
    (file : Bytes)
    → 0 < s.buffer_size
    → c.write_results ≡ []
    → lookup (path_of fm session.file_name) fm.disk ≡ some file
    → length file < 2 ^ 64
    → Downloaded s fm c session.file_name
        (header session.file_name file ++ file)
        (length file)
        (send_file s clock fm c session)
unfolding send_file read_file
send_file-Downloaded s clock fm c session file p e there b =
    rw (send_file, there) (send_header-Downloaded s clock fm c session file p e b)
