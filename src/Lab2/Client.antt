-- ===== src/Lab2/Client.antt =====
-- lab2/internal/infrastructure/network/udp_client.go: the answer to a command and the download of a file. What
-- the socket brings is a list of reads; behind its end a read waits for ever. The performance monitor is outside.
pub mod Receive
pub mod Complete
pub mod Upload
pub mod Refused
mod Examples
use nssa_ds.Base.{
  ℕ, ◌+◌, ◌%◌, ◌^◌, Bool, true, false, ◌&&◌, List, [], ◌∷◌, ◌++◌, Option, none, some, ◌==◌,
  if◌then◌else◌, length, take, s64_lt, zero, suc,
}
use nssa_ds.Base.Result.{Result, ok, err, panic}
use nssa_ds.Base.Bytes.{Bytes, Slice}
use nssa_ds.Base.Text.{Text, text}
use nssa_ds.Base.Strings.{has_prefix, contains, fields}
use nssa_ds.Base.Decimal.{parse_int}
use nssa_ds.Lab2.Command.{command_text}
use nssa_ds.Lab2.Packet.{Packet, new_packet, new_ack_packet}
use nssa_ds.Lab2.PacketType
use nssa_ds.Lab2.Window.{u32}
use nssa_ds.Lab2.Reliability.{ReliabilityManager, ReceiveError, receive_packet, send_packet}

-- Why a call fails, besides its reads and its writes.
pub data Failure : Type 0 where
  no_file_info create_failed command_timeout open_failed file_read_failed send_failed
        window_was_full :
      Failure
  not_ready server_error invalid_file_info invalid_file_size : Text → Failure

-- How a call ends. ReceivePacket wraps its error, so that no error is taken for a timeout.
pub data Ended {ℓ} (A : Type ℓ) : Type ℓ where
  done : A → Ended A
  receive_failed : ReceiveError → Ended A
  refused : Failure → Ended A
  write_failed panics waits : Ended A

-- What a call leaves: the reliability manager and the reads that are still to come.
pub record Reading : Type 0 where
  pub rel_mgr : ReliabilityManager
  pub incoming : List (Option Slice)

abbrev pub reading : ReliabilityManager → List (Option Slice) → Reading
reading rm incoming = record { rel_mgr = rm; incoming = incoming }

-- The loop of `SendCommand` behind its packet. The number is how many reads begin before the context's timeout.
unfoldable pub await_response : ReliabilityManager → List (Option Slice) → ℕ → Reading × Ended Bytes
await_response rm incoming zero = (reading rm incoming, refused command_timeout)
await_response rm [] (suc reads) = (reading rm [], waits)
await_response rm (incoming ∷ rest) (suc reads) =
    let answer = receive_packet rm incoming in
    elim (answer.1) [
      | err e ↦ (reading (answer.0) rest, receive_failed e)
      | panic ↦ (reading (answer.0) rest, panics)
      | ok p ↦
          let later = await_response (answer.0) rest reads in
          if p.type == PacketType.response then (reading (answer.0) rest, done p.payload) else later
    ]

-- `SendCommand` of a connected client: its packet, and the answer. `now` is the time of the packet.
unfoldable pub send_command :
    ReliabilityManager
    → List (Option Slice)
    → ℕ
    → Text
    → List Text
    → ℕ
    → Bool
    → Reading × Ended Bytes
send_command rm incoming reads cmd args now written =
    let sent =
      send_packet rm (new_packet PacketType.command 0 (command_text cmd args) now) written in
    if sent.2
    then await_response (sent.0) incoming reads
    else (reading (sent.0) incoming, refused send_failed)

-- A download: the reliability manager, the local file, the acknowledgments given to the socket, and how
-- it ends; a success has the bytes that were counted.
pub record Download : Type 0 where
  pub rel_mgr : ReliabilityManager
  pub file : Bytes
  pub acks : List Packet
  pub ended : Ended ℕ

abbrev pub stop : ReliabilityManager → Bytes → List Packet → Ended ℕ → Download
stop rm file acks ended = record { rel_mgr = rm; file = file; acks = acks; ended = ended }

abbrev pub is_expected : ℕ → Packet → Bool
is_expected expected p = (p.type == PacketType.data_packet) && (p.seq_num == expected)

-- The loop of `receiveFile`. `stores n` is how the write of packet `n` to the local file ends: none is a
-- success, and some k an error after the first k bytes.
unfoldable pub receive_loop :
    ℕ
    → (ℕ → Option ℕ)
    → ℕ
    → List (Option Slice)
    → ReliabilityManager
    → Bytes
    → List Packet
    → ℕ
    → ℕ
    → Download
receive_loop window stores size [] rm file acks total expected =
    if s64_lt total size then stop rm file acks waits else stop rm file acks (done total)
receive_loop window stores size (incoming ∷ rest) rm file acks total expected =
    elim (s64_lt total size) [
      | false ↦ stop rm file acks (done total)
      | true ↦
          let answer = receive_packet rm incoming in
          elim (answer.1) [
            | err e ↦ stop (answer.0) file acks (receive_failed e)
            | panic ↦ stop (answer.0) file acks panics
            | ok p ↦ elim (is_expected expected p) [
              | false ↦ receive_loop window stores size rest (answer.0) file acks total expected
              | true ↦ elim (stores expected) [
                | some k ↦ stop (answer.0) (file ++ take k p.payload) acks write_failed
                | none ↦
                    let next = (expected + 1) % u32 in
                    let ack = new_ack_packet p.seq_num next window in
                    receive_loop window stores size rest (send_packet (answer.0) ack true).0
                      (file ++ p.payload) (acks ++ (ack ∷ [])) ((total + length p.payload) % 2 ^ 64)
                      next
              ]
            ]
          ]
    ]

-- `creates` is whether `os.Create` succeeds.
unfoldable pub receive_file :
    Bool → ℕ → (ℕ → Option ℕ) → ℕ → List (Option Slice) → ReliabilityManager → Download
receive_file creates window stores size incoming rm =
    if creates
    then receive_loop window stores size incoming rm [] [] 0 0
    else stop rm [] [] (refused create_failed)

abbrev pub third : List Text → Option Text
third (_ ∷ (_ ∷ (part ∷ _))) = some part
third _ = none

-- `DownloadFile`: the local file is created only after the response. What is left is the connection.
abbrev pub unfetched : Reading → Failure → Download
unfetched r why = stop r.rel_mgr [] [] (refused why)

abbrev pub download_size : Bool → ℕ → (ℕ → Option ℕ) → Reading → Text → Option ℕ → Download
download_size creates window stores r part none = unfetched r (invalid_file_size part)
download_size creates window stores r part (some size) =
    receive_file creates window stores size r.incoming r.rel_mgr

abbrev pub download_part : Bool → ℕ → (ℕ → Option ℕ) → Reading → Text → Option Text → Download
download_part creates window stores r response none = unfetched r (invalid_file_info response)
download_part creates window stores r response (some part) =
    download_size creates window stores r part (parse_int part)

abbrev pub download_after : Bool → ℕ → (ℕ → Option ℕ) → Reading × Ended Bytes → Download
download_after creates window stores (r, done response) =
    if has_prefix response (text "ERROR")
    then unfetched r (server_error response)
    else download_part creates window stores r response (third (fields response))
download_after creates window stores (r, receive_failed e) = stop r.rel_mgr [] [] (receive_failed e)
download_after creates window stores (r, refused why) = unfetched r why
download_after creates window stores (r, write_failed) = stop r.rel_mgr [] [] write_failed
download_after creates window stores (r, panics) = stop r.rel_mgr [] [] panics
download_after creates window stores (r, waits) = stop r.rel_mgr [] [] waits

unfoldable pub download_file :
    Bool
    → ℕ
    → (ℕ → Option ℕ)
    → ReliabilityManager
    → List (Option Slice)
    → ℕ
    → Text
    → ℕ
    → Bool
    → Download
download_file creates window stores rm incoming reads remote_name now written =
    download_after creates window stores
      (send_command rm incoming reads (text "DOWNLOAD " ++ remote_name) [] now written)
