-- ===== src/Lab2/Client/Examples.antt =====
-- A download of one byte, whose packet comes behind an acknowledgment.
use nssa_ds.Base.{
  ℕ, ◌≤◌, ◌≡◌, refl, sym, ap, true, List, [], ◌∷◌, Option, none, some, arith, length, dec_lt,
}
use nssa_ds.Base.Order.{lt_wf}
use nssa_ds.Base.Result.{ok}
use nssa_ds.Base.Bytes.{Bytes, Slice}
use nssa_ds.Lab2.Packet.{
  Packet, serialize, fill, calculate_checksum, sum_words, fold_carries, deserialize_packet,
}
use nssa_ds.Lab2.Packet.RoundTrip.{received, deserialize_packet-serialize}
use nssa_ds.Lab2.PacketType
use nssa_ds.Lab2.Reliability.{ReliabilityManager, new_reliability_manager}
use nssa_ds.Lab2.Client.{done, refused, server_error, not_ready, receive_file, download_file}
use nssa_ds.Lab2.Client.Receive.{Carries, parts, InOrder, receive_file-InOrder}
use nssa_ds.Base.Text.{text}
use nssa_ds.Lab2.Client.Upload.{Link, upload_file}
use nssa_ds.Lab2.Client.Refused.{Replies, reply-download, reply-upload, transfers-Refused}
use nssa_ds.Lab2.Connection.{new_connection_manager}
use nssa_ds.Lab2.Client.Complete.{Delivers, arrived, next, other, receive_file-Delivers}

abbrev packet : ℕ → Bytes → ℕ → Packet
packet type payload timestamp = record {
  type = type;
  seq_num = 0;
  ack_num = 0;
  payload = payload;
  checksum = 0;
  window = 0;
  flags = 0;
  timestamp = timestamp;
}

-- The bytes that Serialize overwrites are the checksum in both.
abbrev ack : Packet
ack = packet 2 [] 0xfdff

abbrev chunk : Packet
chunk = packet 1 (0 ∷ []) 0xfdfe

abbrev datagram : Packet → Slice
datagram p = received (serialize p).1 []

ack-read : deserialize_packet (datagram ack) ≡ ok (serialize ack).0
unfolding serialize calculate_checksum sum_words fold_carries lt_wf dec_lt fill
ack-read = deserialize_packet-serialize ack (omega arith) (omega arith) (omega arith) [] refl

chunk-read : deserialize_packet (datagram chunk) ≡ ok (serialize chunk).0
unfolding serialize calculate_checksum sum_words fold_carries lt_wf dec_lt fill
chunk-read = deserialize_packet-serialize chunk (omega arith) (omega arith) (omega arith) [] refl

abbrev chunks : ℕ → Bytes
chunks n = 0 ∷ []

abbrev incoming : List (Option Slice)
incoming = some (datagram ack) ∷ (some (datagram chunk) ∷ [])

ack-says :
    (p : Packet)
    → deserialize_packet (datagram ack) ≡ ok p
    → p.type ≡ PacketType.data_packet
    → p.payload ≡ chunks p.seq_num
unfolding serialize
ack-says p e h =
    let same : (serialize ack).0 ≡ p = cc (e, ack-read) in
    absurd (omega (arith, ap (λ (q : Packet). q.type) same, h))

chunk-says :
    (p : Packet)
    → deserialize_packet (datagram chunk) ≡ ok p
    → p.type ≡ PacketType.data_packet
    → p.payload ≡ chunks p.seq_num
unfolding serialize
chunk-says p e h =
    let same : (serialize chunk).0 ≡ p = cc (e, chunk-read) in
    sym (ap (λ (q : Packet). q.payload) same)

incoming-Carries : Carries chunks incoming
incoming-Carries = (ack-says, (chunk-says, tt))

one_chunk : (n : ℕ) → length (chunks n) ≤ 65536
one_chunk n = omega arith

abbrev manager : ReliabilityManager
manager = new_reliability_manager 5 3 2

incoming-Delivers : Delivers 0 1 incoming
unfolding serialize
incoming-Delivers =
    other 0 1 (datagram ack) (serialize ack).0 _ ack-read refl
      (next 0 0 (datagram chunk) (serialize chunk).0 _ chunk-read refl (arrived 1 []))

receive_file-InOrder_example :
    InOrder chunks 4 1 (receive_file true 4 (λ n. none) 1 incoming manager)
receive_file-InOrder_example =
    receive_file-InOrder chunks 4 (λ n. none) 1 incoming manager one_chunk incoming-Carries
      (omega arith)

receive_file-Delivers_example :
    (k : ℕ) × ((receive_file true 4 (λ n. none) 1 incoming manager).file ≡ parts chunks k)
    × ((receive_file true 4 (λ n. none) 1 incoming manager).ended
        ≡ done (length (receive_file true 4 (λ n. none) 1 incoming manager).file))
    × (1 ≤ length (receive_file true 4 (λ n. none) 1 incoming manager).file)
unfolding parts
receive_file-Delivers_example =
    receive_file-Delivers chunks 4 (λ n. none) 1 incoming manager 1 incoming-Delivers (λ n. refl)
      one_chunk incoming-Carries (omega arith) (omega arith)

-- The two errors, in packets whose overwritten bytes are the checksum.
abbrev no_download : Packet
no_download = packet 8 (text "ERROR: unknown command: DOWNLOAD") 0xaa18

abbrev no_upload : Packet
no_upload = packet 8 (text "ERROR: unknown command: UPLOAD") 0xf267

no_download-read : deserialize_packet (datagram no_download) ≡ ok (serialize no_download).0
unfolding serialize calculate_checksum sum_words fold_carries lt_wf dec_lt fill
no_download-read =
    deserialize_packet-serialize no_download (omega arith) (omega arith) (omega arith) [] refl

no_upload-read : deserialize_packet (datagram no_upload) ≡ ok (serialize no_upload).0
unfolding serialize calculate_checksum sum_words fold_carries lt_wf dec_lt fill
no_upload-read =
    deserialize_packet-serialize no_upload (omega arith) (omega arith) (omega arith) [] refl

download-Replies :
    Replies (text "DOWNLOAD f") (text "now") (datagram no_download) (serialize no_download).0
unfolding serialize
download-Replies = record {
  decodes = no_download-read;
  type = refl;
  payload = sym (reply-download (text "f") (text "now"));
}

upload-Replies : Replies (text "UPLOAD f") (text "now") (datagram no_upload) (serialize no_upload).0
unfolding serialize
upload-Replies = record {
  decodes = no_upload-read;
  type = refl;
  payload = sym (reply-upload (text "f") (text "now"));
}

abbrev link : Link
link = record { addr = "server"; clock = λ n. n; written = λ n. true; sizes = 4 ∷ [] }

transfers-Refused_example :
    ((download_file true 4
        (λ n. none)
        manager
        (some (datagram no_download) ∷ [])
        1
        (text "f")
        9
        true).ended
      ≡ refused (server_error (text "ERROR: unknown command: DOWNLOAD")))
    × ((upload_file link true manager
          (new_connection_manager 4 10)
          (some 1)
          (some (1 ∷ []) ∷ [])
          (some (datagram no_upload) ∷ [])
          1
          (text "f")
          9
          true).ended
        ≡ refused (not_ready (text "ERROR: unknown command: UPLOAD")))
transfers-Refused_example =
    transfers-Refused true 4 (λ n. none) link true 1 (some (1 ∷ []) ∷ []) manager
      (new_connection_manager 4 10) (text "f") (text "now") (datagram no_download)
      (datagram no_upload) (serialize no_download).0 (serialize no_upload).0 [] 0 9 download-Replies
      upload-Replies
