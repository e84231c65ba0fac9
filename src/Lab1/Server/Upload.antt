-- ===== src/Lab1/Server/Upload.antt =====
-- What an upload leaves on the server's disk.
use nssa_ds.Base.{
  ℕ, zero, suc, ◌+◌, ◌%◌, ◌^◌, ◌≤◌, ◌<◌, ◌≡◌, refl, sym, subst, ◌∙◌, ap, inl, inr, [], ◌++◌,
  Option-cases, arith, length, length-append, append-nil, append_assoc,
}
use nssa_ds.Base.Map.{lookup, lookup-insert_same}
use nssa_ds.Base.Result.{ok}
use nssa_ds.Base.Bytes.{Bytes}
use nssa_ds.Base.Text.{Text, text, text_key}
use nssa_ds.Lab1.Socket.{
  Conn, Ending, end_of_file, timed_out, broken, read, read-Brings, Brings, list_cases,
}
use nssa_ds.Lab1.Files.{
  TransferSession, FileManager, path_of, contents, save_file, update_transfer_session,
}
use nssa_ds.Lab1.Server.{
  Server, Answer, replied, failed, Served, ended_upload, receive_loop, receive_file,
}

-- What the disk holds of a file.
abbrev pub stored : FileManager → Text → Bytes
stored fm name = contents (lookup (path_of fm name) fm.disk)

-- The file is longer by `items`, and no call fails yet.
pub record Grown (fm : FileManager) (name : Text) (items : Bytes) (fm' : FileManager) : Type 0 where
  pub grown : stored fm' name ≡ stored fm name ++ items
  pub fine : fm'.faults ≡ []

save_file-Grown :
    (fm : FileManager) (name : Text) (items : Bytes) (offset : ℕ)
    → fm.faults ≡ []
    → ((save_file fm name items offset).1 ≡ ok tt)
      × Grown fm name items (save_file fm name items offset).0
unfolding save_file
save_file-Grown fm name items offset e = rw e (
  refl,
  record {
    grown = ap contents (lookup-insert_same (path_of fm name) (stored fm name ++ items) fm.disk);
    fine = refl;
  },
)

update_transfer_session-Grown :
    (fm : FileManager) (session : TransferSession) (name : Text)
    → fm.faults ≡ []
    → Grown fm name [] (update_transfer_session fm session).0
unfolding update_transfer_session
update_transfer_session-Grown fm session name e =
    elim (Option-cases (lookup session.id fm.sessions)) [
      | inl gone ↦ rw gone (record { grown = sym (append-nil (stored fm name)); fine = e })
      | inr (old, there) ↦ rw there (record { grown = sym (append-nil (stored fm name)); fine = e })
    ]

Grown-trans :
    (fm fm' fm'' : FileManager) (name : Text) (items more : Bytes)
    → Grown fm name items fm'
    → Grown fm' name more fm''
    → Grown fm name (items ++ more) fm''
Grown-trans fm fm' fm'' name items more g h = record {
  grown = h.grown ∙ ap (λ t. t ++ more) g.grown ∙ append_assoc (stored fm name) items more;
  fine = h.fine;
}

abbrev pub final : Server → Text → ℕ → Ending → Answer
final s name total end_of_file =
    replied (text "File uploaded successfully: " ++ name ++ s.summary total)
final s name total timed_out = failed (text "file receive error: " ++ s.timeout)
final s name total (broken e) = failed (text "file receive error: " ++ e)

ended_upload-final :
    (s : Server) (fm : FileManager) (c : Conn) (session : TransferSession) (total : ℕ)
    (why : Ending)
    → ended_upload s fm c session total why
      ≡ record { files = fm; conn = c; answer = final s session.file_name total why }
ended_upload-final s fm c session total end_of_file = refl
ended_upload-final s fm c session total timed_out = refl
ended_upload-final s fm c session total (broken e) = refl

-- The stream is in the file, and the answer is as the stream ended.
pub record Uploaded (s : Server) (fm : FileManager) (name : Text) (c : Conn) (answer : Answer)
    (r : Served) : Type 0 where
  pub kept : Grown fm name c.incoming r.files
  pub drained : r.conn.incoming ≡ []
  pub answered : r.answer ≡ answer

Uploaded-chunk :
    (s : Server) (fm fm' : FileManager) (name : Text) (c c' : Conn) (items : Bytes)
    (answer answer' : Answer) (r : Served)
    → c.incoming ≡ items ++ c'.incoming
    → Grown fm name items fm'
    → answer ≡ answer'
    → Uploaded s fm' name c' answer r
    → Uploaded s fm name c answer' r
Uploaded-chunk s fm fm' name c c' items answer answer' r e g a u = record {
  kept = rw e (Grown-trans fm fm' r.files name items c'.incoming g u.kept);
  drained = u.drained;
  answered = u.answered ∙ a;
}

upload_end :
    (fuel : ℕ) (s : Server) (clock : ℕ → ℕ) (i : ℕ) (fm : FileManager) (c : Conn)
    (session : TransferSession) (total : ℕ)
    → c.incoming ≡ []
    → fm.faults ≡ []
    → Uploaded s fm session.file_name c
        (final s session.file_name total c.ending)
        (receive_loop (suc fuel) s clock i fm c session total)
unfolding receive_loop read
upload_end fuel s clock i fm c session total e f =
    rw (e, ended_upload-final)
      (record {
        kept = record { grown = sym (append-nil (stored fm session.file_name)); fine = f };
        drained = refl;
        answered = refl;
      })

abbrev after_chunk : (ℕ → ℕ) → ℕ → TransferSession → ℕ → TransferSession
after_chunk clock i session total = record session { transferred = total; last_update = clock i }

-- One round of the loop, by what the read brings.
upload_round :
    (fuel : ℕ) (s : Server) (clock : ℕ → ℕ) (i : ℕ) (fm : FileManager) (c : Conn)
    (session : TransferSession) (total : ℕ) (items : Bytes) (answer answer' : Answer)
    → Brings s.buffer_size c items
    → fm.faults ≡ []
    → answer ≡ answer'
    → (let session' = after_chunk clock i session ((total + length items) % 2 ^ 64) in
        let fm' =
          (update_transfer_session (save_file fm session.file_name items total).0 session').0 in
        Uploaded s fm' session.file_name (read s.buffer_size c).0 answer (
          receive_loop fuel s clock
            (suc i)
            fm'
            (read s.buffer_size c).0
            session'
            ((total + length items) % 2 ^ 64)))
    → Uploaded s fm session.file_name c answer'
        (receive_loop (suc fuel) s clock i fm c session total)
unfolding receive_loop
upload_round fuel s clock i fm c session total items answer answer' r f a next =
    let (done, g) = save_file-Grown fm session.file_name items total f in
    let session' = after_chunk clock i session ((total + length items) % 2 ^ 64) in
    let fm' = (save_file fm session.file_name items total).0 in
    let h = update_transfer_session-Grown fm' session' session.file_name g.fine in
    rw (receive_loop, r.is_read, done)
      (Uploaded-chunk s fm (update_transfer_session fm' session').0 session.file_name c
        (read s.buffer_size c).0 items answer answer' _ r.in_front
        (subst
          (λ (b : Bytes). Grown fm session.file_name b (update_transfer_session fm' session').0)
          (append-nil items)
          (Grown-trans fm fm' (update_transfer_session fm' session').0 session.file_name items [] g
            h))
        a next)

same_final :
    (s : Server) (name : Text) (total total' : ℕ) (why why' : Ending)
    → total ≡ total'
    → why ≡ why'
    → final s name total why ≡ final s name total' why'
same_final s name total total' why why' e f =
    ap (λ n. final s name n why) e ∙ ap (final s name total') f

at_end :
    (fuel : ℕ) (s : Server) (clock : ℕ → ℕ) (i : ℕ) (fm : FileManager) (c : Conn)
    (session : TransferSession) (total : ℕ)
    → total < 2 ^ 64
    → c.incoming ≡ []
    → fm.faults ≡ []
    → Uploaded s fm session.file_name c
        (final s session.file_name ((total + length c.incoming) % 2 ^ 64) c.ending)
        (receive_loop (suc fuel) s clock i fm c session total)
at_end fuel s clock i fm c session total lt none_left f =
    let count : (total + length c.incoming) % 2 ^ 64 ≡ total = omega (arith, ap length none_left) in
    rw count (upload_end fuel s clock i fm c session total none_left f)

receive_loop-Uploaded :
    (fuel : ℕ) (s : Server) (clock : ℕ → ℕ) (i : ℕ) (fm : FileManager) (c : Conn)
    (session : TransferSession) (total : ℕ)
    → 0 < s.buffer_size
    → length c.incoming ≤ fuel
    → fm.faults ≡ []
    → total < 2 ^ 64
    → Uploaded s fm session.file_name c
        (final s session.file_name ((total + length c.incoming) % 2 ^ 64) c.ending)
        (receive_loop (suc fuel) s clock i fm c session total)
receive_loop-Uploaded zero s clock i fm c session total p l f lt = elim (list_cases c.incoming) [
  | inl none_left ↦ at_end zero s clock i fm c session total lt none_left f
  | inr (b, bs, e) ↦ absurd (omega (arith, ap length e))
]
receive_loop-Uploaded (suc fuel) s clock i fm c session total p l f lt =
    elim (list_cases c.incoming) [
      | inl none_left ↦ at_end (suc fuel) s clock i fm c session total lt none_left f
      | inr (b, bs, e) ↦
          let (items, r) = read-Brings s.buffer_size c b bs p e in
          let c' = (read s.buffer_size c).0 in
          let front = ap length r.in_front ∙ length-append items c'.incoming in
          let total' = (total + length items) % 2 ^ 64 in
          let session' = after_chunk clock i session total' in
          let (done, g) = save_file-Grown fm session.file_name items total f in
          let fm' = (save_file fm session.file_name items total).0 in
          let h = update_transfer_session-Grown fm' session' session.file_name g.fine in
          upload_round (suc fuel) s clock i fm c session total items _ _ r f
            (same_final s session.file_name ((total' + length c'.incoming) % 2 ^ 64)
              ((total + length c.incoming) % 2 ^ 64) c'.ending c.ending (omega (arith, front))
              r.same_ending)
            (receive_loop-Uploaded fuel s clock (suc i) (update_transfer_session fm' session').0 c'
              session' total' p (omega (arith, front, r.some_byte)) h.fine (omega arith))
    ]

-- An upload, in whichever pieces it arrives: `receiveFile` appends every byte of the stream to what the
-- file of that name held, and ends only with the stream. It reports success only if the client has closed the
-- connection. The buffer is not empty and no call of the operating system fails.
pub receive_file-Uploaded :
    (s : Server) (clock : ℕ → ℕ) (fm : FileManager) (c : Conn) (session : TransferSession)
    → 0 < s.buffer_size
    → fm.faults ≡ []
    → Uploaded s fm session.file_name c
        (final s session.file_name (length c.incoming % 2 ^ 64) c.ending)
        (receive_file s clock fm c session)
unfolding receive_file
receive_file-Uploaded s clock fm c session p f =
    let zeros : 0 + length c.incoming ≡ length c.incoming = omega arith in
    rw zeros at (
      receive_loop-Uploaded (length c.incoming) s clock 0 fm c session 0 p (omega arith) f
        (omega arith))
