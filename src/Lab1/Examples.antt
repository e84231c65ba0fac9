-- ===== src/Lab1/Examples.antt =====
-- Instances of the theorems on lab1's transfers, and tests of its definitions.
use nssa_ds.Base.{ℕ, ◌≡◌, refl, List, [], ◌∷◌, ◌++◌, none, arith}
use nssa_ds.Base.Bytes.{Bytes}
use nssa_ds.Base.Text.{text, text_key}
use nssa_ds.Base.Decimal.{decimal}
use nssa_ds.Lab1.Socket.{Conn, end_of_file, write}
use nssa_ds.Lab1.Files.{TransferSession, FileManager, new_file_manager}
use nssa_ds.Lab1.Server.{Server, upload_session, receive_file}
use nssa_ds.Lab1.Server.Download.{header}
use nssa_ds.Lab1.Server.Upload.{stored, final, Uploaded, receive_file-Uploaded}
use nssa_ds.Lab1.Client.{send_file, send_loop}
use nssa_ds.Lab1.Transfer.Request.{request, message}
use nssa_ds.Lab1.Transfer.Upload.{receive_file-send_file}

abbrev server : Server
server = record {
  buffer_size = 64;
  upload_dir = text "up";
  handler = none;
  client_addr = text "peer";
  missing = text "no such file";
  timeout = text "read tcp 127.0.0.1:8080->127.0.0.1:40000: i/o timeout";
  summary = λ n. text " (done)";
}

abbrev clock : ℕ → ℕ
clock i = i

abbrev file : Bytes
file = 7 ∷ (8 ∷ (9 ∷ []))

abbrev files : FileManager
files = new_file_manager (text "up") (λ dir name. dir ++ (47 ∷ name)) ((text "up/a", file) ∷ []) []

abbrev conn : Bytes → List ℕ → Conn
conn incoming segments = record {
  incoming = incoming;
  segments = segments;
  ending = end_of_file;
  write_results = [];
  written = [];
}

abbrev session : TransferSession
session = upload_session server (text "a") 0

receive_file-Uploaded_example :
    Uploaded server files
      (text "a")
      (conn (1 ∷ (2 ∷ [])) (0 ∷ []))
      (final server (text "a") 2 end_of_file)
      (receive_file server clock files (conn (1 ∷ (2 ∷ [])) (0 ∷ [])) session)
unfolding new_file_manager
receive_file-Uploaded_example =
    receive_file-Uploaded server clock files (conn (1 ∷ (2 ∷ [])) (0 ∷ [])) session (omega arith)
      refl

-- The end of a client that may write all it has to.
abbrev client : Conn
client = conn [] []

receive_file-send_file_example :
    stored (receive_file server clock files (conn file (0 ∷ (0 ∷ []))) session).files (text "a")
    ≡ stored files (text "a") ++ file
unfolding send_file send_loop write decimal new_file_manager
receive_file-send_file_example =
    receive_file-send_file server clock files session (conn file (0 ∷ (0 ∷ []))) client 2
      (text "a.txt") file (omega arith) (omega arith) refl refl (omega arith) refl

abbrev asking : Conn
asking = conn (request (text "a")) (63 ∷ [])

-- The client's end, where the first read brings `k` bytes of the server's answer.
abbrev answered : ℕ → Conn
answered k = conn (header (text "a") file ++ (file ++ message server (text "a") 3)) (k ∷ [])
