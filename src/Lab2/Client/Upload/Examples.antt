-- ===== src/Lab2/Client/Upload/Examples.antt =====
-- An upload of four chunks through a window of three.
use nssa_ds.Base.{ℕ, ◌≡◌, refl, true, List, [], ◌∷◌, ◌++◌, arith, length}
use nssa_ds.Base.Bytes.{Bytes}
use nssa_ds.Base.Map.{lookup}
use nssa_ds.Lab2.Window.{new_sliding_window}
use nssa_ds.Lab2.Reliability.{ReliabilityManager, new_reliability_manager}
use nssa_ds.Lab2.Connection.{ConnectionManager, new_connection_manager}
use nssa_ds.Lab2.Connection.Sessions.{window_of}
use nssa_ds.Lab2.Client.Upload.{Link, send_file}
use nssa_ds.Lab2.Client.Upload.Spec.{reads_of, joined}
use nssa_ds.Lab2.Client.Upload.Limited.{Limited, IsUint, room, send_file-Limited}
use nssa_ds.Lab2.Client.Upload.Shared.{Holds}
use nssa_ds.Lab2.Client.Upload.Overwritten.{send_file-overwritten}

abbrev link : Link
link = record { addr = "server"; clock = λ n. n; written = λ n. true; sizes = 4 ∷ [] }

abbrev block : ℕ → Bytes
block b = b ∷ b ∷ b ∷ b ∷ []

abbrev firsts : List Bytes
firsts = block 1 ∷ (block 2 ∷ (block 3 ∷ []))

abbrev blocks : List Bytes
blocks = firsts ++ (block 4 ∷ [])

abbrev manager : ReliabilityManager
manager = new_reliability_manager 5 3 2

abbrev connection : ConnectionManager
connection = new_connection_manager 3 10

narrow : IsUint (window_of connection link.addr 0)
unfolding lookup new_sliding_window new_connection_manager
narrow = (omega arith, omega arith)

three : room (window_of connection link.addr 0) ≡ 3
unfolding lookup new_sliding_window new_connection_manager
three = omega arith

short : length (joined firsts) ≡ 12
unfolding joined
short = refl

short_too : length (joined blocks) ≡ 16
unfolding joined
short_too = refl

send_file-Limited_example :
    Limited link 16 blocks 0 0 []
      (room (window_of connection link.addr 0))
      (send_file link true manager connection 16 (reads_of blocks))
send_file-Limited_example =
    send_file-Limited link 16 4 blocks manager connection refl (λ n. refl)
      (omega arith, (omega arith, (omega arith, (omega arith, tt)))) (omega arith) narrow
      (omega (arith, short_too))

send_file-overwritten_example :
    Holds
      (send_file link true manager connection 16 (reads_of (firsts ++ (block 4 ∷ [])))).state
      1
      (block 4)
send_file-overwritten_example =
    send_file-overwritten link 16 4 firsts (block 4) manager connection 1 refl (omega arith)
      (λ n. refl) (refl, (refl, (refl, tt))) refl (omega arith) narrow (omega (arith, three))
      (omega (arith, short)) (omega arith) (omega arith)
