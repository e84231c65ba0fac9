-- ===== src/Lab2/Client/Upload/Spec.antt =====
-- What `sendFile` is to send, and what a round of it leaves.
use nssa_ds.Base.{
  ℕ, ◌+◌, ◌/◌, ◌%◌, ◌≡◌, refl, sym, ◌∙◌, Bool, List, [], ◌∷◌, ◌++◌, Option, some, ◌==◌,
  if◌then◌else◌, length, append_assoc, append-nil,
}
use nssa_ds.Base.Map.{string_key, nat_key}
use nssa_ds.Base.Bytes.{Bytes}
use nssa_ds.Lab2.Packet.{Packet, new_packet}
use nssa_ds.Lab2.PacketType
use nssa_ds.Lab2.Window.{u32, add_packet}
use nssa_ds.Lab2.Connection.{send_reliable_packet}
use nssa_ds.Lab2.Connection.Sessions.{window_of}
use nssa_ds.Lab2.Client.Upload.{
  Link, Sending, read_chunk, test_packet, send_tests, s64_abs, counted,
}

-- The tests of a round, where there are any.
unfoldable pub tests_of : List ℕ → ℕ → List Packet
tests_of [] now = []
tests_of (size ∷ sizes) now = test_packet now size ∷ tests_of sizes now

abbrev pub is_tested : ℕ → ℕ → Bool
is_tested size total = total % (size / 10) == 0

abbrev pub round_tests : Link → ℕ → ℕ → ℕ → List Packet
round_tests link size total now = if is_tested size total then tests_of link.sizes now else []

-- What the chunks of a file are sent as, from the number `seq` and `total` bytes on: each is a data packet, with
-- the tests behind it after every tenth of the file.
unfoldable pub rounds : Link → ℕ → List Bytes → ℕ → ℕ → List Packet
rounds link size [] total seq = []
rounds link size (chunk ∷ chunks) total seq =
    new_packet PacketType.data_packet seq chunk (link.clock seq)
    ∷ (round_tests link size (total + length chunk) (link.clock seq)
        ++ rounds link size chunks (total + length chunk) ((seq + 1) % u32))

unfoldable pub joined : List Bytes → Bytes
joined [] = []
joined (chunk ∷ chunks) = chunk ++ joined chunks

unfoldable pub reads_of : List Bytes → List (Option Bytes)
reads_of [] = []
reads_of (chunk ∷ chunks) = some chunk ∷ reads_of chunks

-- What a round leaves.
pub record Round (link : Link) (size : ℕ) (chunk : Bytes) (s s' : Sending) : Type 0 where
  pub given :
      s'.given
      ≡ s.given
        ++ (new_packet PacketType.data_packet s.seq_num chunk (link.clock s.seq_num)
            ∷ round_tests link size (s.total + length chunk) (link.clock s.seq_num))
  pub total : s'.total ≡ s.total + length chunk
  pub seq_num : s'.seq_num ≡ (s.seq_num + 1) % u32
  pub buffer : s'.buffer ≡ (read_chunk chunk s).buffer
  pub added :
      (p : Packet) × (window_of s'.conn_mgr link.addr 0
        ≡ add_packet (window_of s.conn_mgr link.addr 0) p)

-- The state behind an accepted chunk.
unfoldable pub after_round : Link → ℕ → Bytes → Sending → Sending
after_round link size chunk s =
    let s1 = read_chunk chunk s in
    let now = link.clock s1.seq_num in
    let p = new_packet PacketType.data_packet s1.seq_num chunk now in
    let after =
      send_reliable_packet s1.conn_mgr s1.rel_mgr p link.addr now (link.written s1.seq_num) in
    let c = counted chunk p (after.0) (after.1) s1 in
    if s64_abs c.total % (size / 10) == 0 then send_tests link.sizes now c else c

pub send_tests-given :
    (sizes : List ℕ) (now : ℕ) (s : Sending)
    → (send_tests sizes now s).given ≡ s.given ++ tests_of sizes now
unfolding send_tests tests_of
send_tests-given [] now s = sym (append-nil s.given)
send_tests-given (size ∷ sizes) now s =
    send_tests-given sizes now _
    ∙ append_assoc s.given (test_packet now size ∷ []) (tests_of sizes now)

pub send_tests-rest :
    (sizes : List ℕ) (now : ℕ) (s : Sending)
    → ((send_tests sizes now s).total ≡ s.total)
      × ((send_tests sizes now s).seq_num ≡ s.seq_num)
      × ((send_tests sizes now s).buffer ≡ s.buffer)
      × ((send_tests sizes now s).conn_mgr ≡ s.conn_mgr)
unfolding send_tests
send_tests-rest [] now s = (refl, refl, refl, refl)
send_tests-rest (size ∷ sizes) now s = send_tests-rest sizes now _
