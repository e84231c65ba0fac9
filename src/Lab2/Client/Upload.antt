-- ===== src/Lab2/Client/Upload.antt =====
-- udp_client.go of lab2: `UploadFile`, `sendFile` and `testBufferSizes`. Every packet of a file is a slice of one
-- buffer, which the next read fills. The ticks of the retransmissions and the performance monitor are outside; the
-- packets that the window keeps are read by no call, and stay there as they were sent.
pub mod Spec
pub mod Tried
pub mod Rounds
pub mod Limited
pub mod Shared
pub mod Overwritten
mod Examples
use nssa_ds.Base.{
  ℕ, ◌+◌, ◌-◌, ◌*◌, ◌/◌, ◌%◌, ◌^◌, ◌<◌, Bool, true, false, List, [], ◌∷◌, ◌++◌, Option, none, some,
  String, ◌==◌, ltb, if◌then◌else◌, length, take, drop, replicate, get_elem?,
}
use nssa_ds.Base.Bytes.{Bytes, Slice}
use nssa_ds.Base.Text.{Text, text}
use nssa_ds.Base.Strings.{contains}
use nssa_ds.Lab2.Packet.{Packet, new_packet}
use nssa_ds.Lab2.PacketType
use nssa_ds.Lab2.Window.{u32}
use nssa_ds.Lab2.Reliability.{ReliabilityManager, send_packet}
use nssa_ds.Lab2.Connection.{
  ConnectionManager, SendOutcome, sent, write_failed, window_full, send_reliable_packet,
}
use nssa_ds.Lab2.Client.{
  Failure, file_read_failed, send_failed, window_was_full, no_file_info, open_failed, not_ready,
  Ended, done, receive_failed, refused, panics, waits, Reading, send_command,
}
use nssa_ds.Lab2.Client as Client

-- What a call of the operating system or of the network does: the name of the server, the times of the packets,
-- and which of their writes succeed, by their numbers; `sizes` is `udpConfig.BufferSizes`.
pub record Link : Type 0 where
  pub addr : String
  pub clock : ℕ → ℕ
  pub written : ℕ → Bool
  pub sizes : List ℕ

-- `shared` are the numbers under which a packet of this file waits, `given` the packets given to the socket.
pub record Sending : Type 0 where
  pub rel_mgr : ReliabilityManager
  pub conn_mgr : ConnectionManager
  pub buffer : Bytes
  pub shared : ℕ → Bool
  pub given : List Packet
  pub total : ℕ
  pub seq_num : ℕ

pub record Upload : Type 0 where
  pub state : Sending
  pub ended : Ended ℕ

abbrev pub ends : Sending → Ended ℕ → Upload
ends s why = record { state = s; ended = why }

-- The packets that are slices of the buffer, after a read.
unfoldable pub refill : (ℕ → Bool) → Bytes → List (ℕ × Packet) → List (ℕ × Packet)
refill shared buffer [] = []
refill shared buffer ((seq, p) ∷ rest) =
    (seq, (if shared seq then record p { payload = take (length p.payload) buffer } else p))
    ∷ refill shared buffer rest

-- `file.Read(buffer)`, which brings `chunk`.
unfoldable pub read_chunk : Bytes → Sending → Sending
read_chunk chunk s =
    let buffer = chunk ++ drop (length chunk) s.buffer in
    record s {
      buffer = buffer;
      rel_mgr = record (s.rel_mgr) {
        pending_packets = refill s.shared buffer s.rel_mgr.pending_packets;
      };
    }

abbrev pub test_packet : ℕ → ℕ → Packet
test_packet now size = new_packet PacketType.data_packet 0 (replicate size 0) now

-- The loop of `testBufferSizes`. Its packets have buffers of their own.
unfoldable pub send_tests : List ℕ → ℕ → Sending → Sending
send_tests [] now s = s
send_tests (size ∷ sizes) now s =
    let p = test_packet now size in
    send_tests sizes now (record s {
      rel_mgr = (send_packet s.rel_mgr p true).0;
      shared = λ n. if n == 0 then false else s.shared n;
      given = s.given ++ (p ∷ []);
    })

-- The bits of an int64 without its sign.
abbrev pub s64_abs : ℕ → ℕ
s64_abs a = if ltb a (2 ^ 63) then a else 2 ^ 64 - a

-- `testBufferSizes`: Go panics where `total/10` is 0.
unfoldable pub test_buffer_sizes : List ℕ → ℕ → ℕ → Sending → Option Sending
test_buffer_sizes sizes total now s =
    if total / 10 == 0
    then none
    else some (if s64_abs s.total % (total / 10) == 0 then send_tests sizes now s else s)

-- The state when `SendReliablePacket` has sent the packet of a chunk.
abbrev pub counted : Bytes → Packet → ConnectionManager → ReliabilityManager → Sending → Sending
counted chunk p cm rm s = record s {
  rel_mgr = rm;
  conn_mgr = cm;
  shared = λ n. if n == p.seq_num then true else s.shared n;
  given = s.given ++ (p ∷ []);
  total = (s.total + length chunk) % 2 ^ 64;
  seq_num = (s.seq_num + 1) % u32;
}

abbrev pub refused_by : Sending → ConnectionManager → ReliabilityManager → Failure → Upload
refused_by s cm rm why = ends (record s { conn_mgr = cm; rel_mgr = rm }) (refused why)

-- The loop of `sendFile`: what the reads of the file bring, up to its end; none is an error.
unfoldable pub send_loop : Link → ℕ → List (Option Bytes) → Sending → Upload
send_loop link size [] s = ends s (done s.total)
send_loop link size (none ∷ rest) s = ends s (refused file_read_failed)
send_loop link size (some [] ∷ rest) s = ends s (done s.total)
send_loop link size (some (b ∷ bs) ∷ rest) s =
    let chunk = b ∷ bs in
    let s1 = read_chunk chunk s in
    let now = link.clock s1.seq_num in
    let p = new_packet PacketType.data_packet s1.seq_num chunk now in
    let after =
      send_reliable_packet s1.conn_mgr s1.rel_mgr p link.addr now (link.written s1.seq_num) in
    elim (after.2) [
      | write_failed ↦ refused_by s1 (after.0) (after.1) send_failed
      | window_full ↦ refused_by s1 (after.0) (after.1) window_was_full
      | sent ↦
          elim (test_buffer_sizes link.sizes size now (counted chunk p (after.0) (after.1) s1)) [
            | none ↦ ends (counted chunk p (after.0) (after.1) s1) panics
            | some s2 ↦ send_loop link size rest s2
          ]
    ]

abbrev pub start_sending : ReliabilityManager → ConnectionManager → ℕ → Sending
start_sending rm cm size = record {
  rel_mgr = rm;
  conn_mgr = cm;
  buffer = replicate size 0;
  shared = λ n. false;
  given = [];
  total = 0;
  seq_num = 0;
}

-- `c.udpConfig.BufferSizes[len(c.udpConfig.BufferSizes)/2]` panics if there are none.
abbrev pub with_buffer :
    Link → ReliabilityManager → ConnectionManager → ℕ → List (Option Bytes) → Option ℕ → Upload
with_buffer link rm cm size reads none = ends (start_sending rm cm 0) panics
with_buffer link rm cm size reads (some n) = send_loop link size reads (start_sending rm cm n)

-- `sendFile`; `opens` is whether the file can be opened.
unfoldable pub send_file :
    Link → Bool → ReliabilityManager → ConnectionManager → ℕ → List (Option Bytes) → Upload
send_file link opens rm cm size reads =
    if opens
    then with_buffer link rm cm size reads (get_elem? link.sizes (length link.sizes / 2))
    else ends (start_sending rm cm 0) (refused open_failed)

-- `UploadFile` behind `SendCommand`.
abbrev pub upload_after :
    Link → Bool → ConnectionManager → ℕ → List (Option Bytes) → Reading × Ended Bytes → Upload
upload_after link opens cm size reads (r, done response) =
    if contains response (text "READY")
    then send_file link opens r.rel_mgr cm size reads
    else ends (start_sending r.rel_mgr cm 0) (refused (not_ready response))
upload_after link opens cm size reads (r, receive_failed e) =
    ends (start_sending r.rel_mgr cm 0) (receive_failed e)
upload_after link opens cm size reads (r, refused why) =
    ends (start_sending r.rel_mgr cm 0) (refused why)
upload_after link opens cm size reads (r, Client.write_failed) =
    ends (start_sending r.rel_mgr cm 0) Client.write_failed
upload_after link opens cm size reads (r, panics) = ends (start_sending r.rel_mgr cm 0) panics
upload_after link opens cm size reads (r, waits) = ends (start_sending r.rel_mgr cm 0) waits

-- `UploadFile` of a connected client; `size` is the size that os.Stat gives, and `attempts` how many reads begin
-- before the command's timeout.
unfoldable pub upload_file :
    Link
    → Bool
    → ReliabilityManager
    → ConnectionManager
    → Option ℕ
    → List (Option Bytes)
    → List (Option Slice)
    → ℕ
    → Text
    → ℕ
    → Bool
    → Upload
upload_file link opens rm cm none reads incoming attempts remote_name now written =
    ends (start_sending rm cm 0) (refused no_file_info)
upload_file link opens rm cm (some size) reads incoming attempts remote_name now written =
    upload_after link opens cm size reads
      (send_command rm incoming attempts (text "UPLOAD " ++ remote_name) [] now written)
