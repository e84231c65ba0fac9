-- ===== src/Lab1/Transfer/Upload.antt =====
-- An upload, from `sendFile` of the client to the file on the server's disk.
use nssa_ds.Base.{ℕ, ◌^◌, ◌<◌, ◌≡◌, ◌∙◌, ap, [], ◌++◌, some, length, append_cancel}
use nssa_ds.Base.Bytes.{Bytes}
use nssa_ds.Base.Text.{Text}
use nssa_ds.Lab1.Socket.{Conn}
use nssa_ds.Lab1.Files.{TransferSession, FileManager}
use nssa_ds.Lab1.Server.{Server, receive_file}
use nssa_ds.Lab1.Server.Upload.{stored, receive_file-Uploaded}
use nssa_ds.Lab1.Client as Client
use nssa_ds.Lab1.Client.Send.{send_file-AllSent}

-- An upload, in whichever pieces it arrives: after it the server's file is what it was with the client's file
-- behind it. No call of the operating system fails, neither buffer is empty, and the file is
-- below 2 ^ 63 bytes.
pub receive_file-send_file :
    (s : Server) (clock : ℕ → ℕ) (fm : FileManager) (session : TransferSession) (sc cc : Conn)
    (size : ℕ) (path : Text) (file : Bytes)
    → 0 < s.buffer_size
    → 0 < size
    → fm.faults ≡ []
    → cc.write_results ≡ []
    → length file < 2 ^ 63
    → cc.written ++ sc.incoming
      ≡ (Client.send_file size cc path (length file) (some file)).0.written
    → stored (receive_file s clock fm sc session).files session.file_name
      ≡ stored fm session.file_name ++ file
receive_file-send_file s clock fm session sc cc size path file p q f w b stream =
    let sent = send_file-AllSent size cc path file q w b in
    let same = append_cancel cc.written sc.incoming file (stream ∙ sent.sent) in
    (receive_file-Uploaded s clock fm sc session p f).kept.grown
    ∙ ap (λ t. stored fm session.file_name ++ t) same
