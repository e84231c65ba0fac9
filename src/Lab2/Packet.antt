-- ===== src/Lab2/Packet.antt =====
-- lab2/internal/domain/packet.go, its packets: the wire format and the checksum.
-- A uint8/16/32/64 is a number below its bound, and `Timestamp` is the bit pattern of the int64.
pub mod Checksum
pub mod Wire
pub mod Decode
pub mod Typed
pub mod RoundTrip
mod Examples
use nssa_ds.Base.{
  ℕ, zero, suc, ◌+◌, ◌-◌, ◌*◌, ◌/◌, ◌%◌, ◌^◌, ◌≤◌, ◌<◌, Bool, List, [], ◌∷◌, ◌++◌, arith, ltb, leb,
  ◌==◌, not, if◌then◌else◌, length, get_or, set, take, drop, replicate, overlay, copy_at, All,
  dec_lt,
}
use nssa_ds.Base.Order.{lt_wf}
use nssa_ds.Base.Result.{Result, ok, err, panic, ◌>>=◌, ◌>>◌, guard}
use nssa_ds.Base.Bytes.{
  Bytes, IsByte, Slice, index, reslice, be16, be32, be64, uint16, uint32, uint64,
}
use nssa_ds.Lab2.PacketType
use mathlib.Core.Logic.{dite}
use mathlib.Core.WellFounded.{Acc}

pub record Packet : Type 0 where
  pub type : ℕ
  pub seq_num : ℕ
  pub ack_num : ℕ
  pub payload : Bytes
  pub checksum : ℕ
  pub window : ℕ
  pub flags : ℕ
  pub timestamp : ℕ

-- `time.Now().UnixNano()` is the argument `now`.
unfoldable pub new_packet : ℕ → ℕ → Bytes → ℕ → Packet
new_packet packet_type seq payload now = record {
  type = packet_type;
  seq_num = seq;
  ack_num = 0;
  payload = payload;
  checksum = 0;
  window = 0;
  flags = 0;
  timestamp = now;
}

unfoldable pub new_ack_packet : ℕ → ℕ → ℕ → Packet
new_ack_packet seq ack window = record {
  type = PacketType.ack;
  seq_num = seq;
  ack_num = ack;
  payload = [];
  checksum = 0;
  window = window;
  flags = 0;
  timestamp = 0;
}

unfoldable pub new_nack_packet : ℕ → Packet
new_nack_packet seq = record {
  type = PacketType.nack;
  seq_num = seq;
  ack_num = 0;
  payload = [];
  checksum = 0;
  window = 0;
  flags = 0;
  timestamp = 0;
}

-- The first loop of `calculateChecksum`: big-endian words, an odd last byte as a high one.
unfoldable pub sum_words : ℕ → Bytes → ℕ
sum_words sum [] = sum
sum_words sum (b ∷ []) = (sum + b * 2 ^ 8) % 2 ^ 32
sum_words sum (hi ∷ lo ∷ rest) = sum_words ((sum + (hi * 2 ^ 8 + lo)) % 2 ^ 32) rest

pub fold_shrinks : (sum : ℕ) → 0xffff < sum → sum % 2 ^ 16 + sum / 2 ^ 16 < sum
fold_shrinks sum h = omega arith

-- `for sum > 0xFFFF { sum = (sum & 0xFFFF) + (sum >> 16) }`
unfoldable pub fold_carries : (sum : ℕ) → Acc ◌<◌ sum → ℕ
fold_carries sum (Acc.intro _ smaller) =
    dite (dec_lt 0xffff sum)
      (λ more. fold_carries (sum % 2 ^ 16 + sum / 2 ^ 16) (smaller _ (fold_shrinks sum more)))
      (λ _. sum)

-- `^uint16(sum)`
unfoldable pub calculate_checksum : Bytes → ℕ
unfolding lt_wf
calculate_checksum bytes =
    let sum = sum_words 0 bytes in 0xffff - fold_carries sum (lt_wf.apply sum) % 2 ^ 16

-- The field is set to 0 and restored; the bytes that are summed still hold the received checksum.
unfoldable pub verify_checksum : Packet → Bytes → Bool
verify_checksum p bytes = calculate_checksum bytes == p.checksum

-- `Serialize` up to the checksum.
unfoldable pub fill : Packet → Bytes
fill p =
    let buf = replicate (23 + length p.payload) 0 in
    let buf1 = set buf 0 p.type in
    let buf2 = copy_at buf1 1 (be32 p.seq_num) in
    let buf3 = copy_at buf2 5 (be32 p.ack_num) in
    let buf4 = copy_at buf3 9 (be16 p.window) in
    let buf5 = set buf4 11 p.flags in
    let buf6 = copy_at buf5 12 (be64 p.timestamp) in
    let buf7 = copy_at buf6 20 (be16 (length p.payload % 2 ^ 16)) in copy_at buf7 22 p.payload

-- The packet is returned with its new checksum. The checksum goes to `buf[21:23]`.
unfoldable pub serialize : Packet → Packet × Bytes
serialize p =
    let buf = fill p in
    let sum = calculate_checksum buf in (record p { checksum = sum }, copy_at buf 21 (be16 sum))

pub data DecodeError : Type 0 where
  too_short invalid_length checksum_mismatch : DecodeError

unfoldable pub deserialize_packet : Slice → Result DecodeError Packet
deserialize_packet s = do
  guard (leb 22 (length s.items)) too_short
  packet_type ← index s 0
  seq ← reslice s 1 5
  ack ← reslice s 5 9
  win ← reslice s 9 11
  flag_bits ← index s 11
  stamp ← reslice s 12 20
  sum ← reslice s 21 23
  size ← reslice s 20 22
  let data_len = uint16 size
  guard (leb data_len (length s.items - 22)) invalid_length
  body ← reslice s 22 ((22 + data_len) % 2 ^ 16)
  let p : Packet = record {
    type = packet_type;
    seq_num = uint32 seq;
    ack_num = uint32 ack;
    payload = overlay (replicate data_len 0) body;
    checksum = uint16 sum;
    window = uint16 win;
    flags = flag_bits;
    timestamp = uint64 stamp;
  }
  guard (verify_checksum p s.items) checksum_mismatch
  ok p

-- The values that the fields' types allow.
pub record IsPacket (p : Packet) : Type 0 where
  pub type_lt : p.type < 256
  pub seq_num_lt : p.seq_num < 2 ^ 32
  pub ack_num_lt : p.ack_num < 2 ^ 32
  pub window_lt : p.window < 2 ^ 16
  pub flags_lt : p.flags < 256
  pub timestamp_lt : p.timestamp < 2 ^ 64
  pub payload_bytes : All IsByte p.payload
