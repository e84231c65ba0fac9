-- ===== src/Lab2/Packet/Examples.antt =====
-- Concrete packets: runs of the code, and the theorems at inputs that meet their hypotheses.
use nssa_ds.Base.{◌+◌, ◌≤◌, ◌≡◌, refl, ◌⊎◌, ◌↔◌, [], ◌∷◌, arith, length, replicate, dec_lt, All}
use nssa_ds.Base.Order.{lt_wf}
use nssa_ds.Base.Result.{ok, err, panic}
use nssa_ds.Base.Bytes.{Bytes, IsByte}
use nssa_ds.Lab2.Packet.{
  Packet, IsPacket, invalid_length, checksum_mismatch, serialize, fill, calculate_checksum,
  sum_words, fold_carries, deserialize_packet,
}
use nssa_ds.Lab2.Packet.Typed.{Decoded, deserialize_packet-Decoded}
use nssa_ds.Lab2.Packet.Wire.{checksum-wire_iff, IsHarmless, Collides}
use nssa_ds.Lab2.Packet.Decode.{data_length, deserialize_packet-panic_iff}
use nssa_ds.Lab2.Packet.RoundTrip.{
  received, deserialize_packet-serialize, deserialize_packet-serialize_fails,
  deserialize_packet-serialize-Collides,
}

-- An acknowledgment whose words add up to ffff.
abbrev balanced : Packet
balanced = record {
  type = 2;
  seq_num = 0;
  ack_num = 0;
  payload = [];
  checksum = 0;
  window = 0;
  flags = 0;
  timestamp = 0xfdff;
}

balanced-IsPacket : IsPacket balanced
balanced-IsPacket = omega arith

deserialize_packet-serialize_example :
    deserialize_packet (received (serialize balanced).1 []) ≡ ok (serialize balanced).0
unfolding serialize calculate_checksum sum_words fold_carries lt_wf dec_lt fill
deserialize_packet-serialize_example =
    deserialize_packet-serialize balanced balanced-IsPacket (omega arith) (omega arith) [] refl

balanced-bytes : All IsByte (serialize balanced).1
unfolding serialize calculate_checksum sum_words fold_carries lt_wf dec_lt fill
balanced-bytes = omega arith

balanced-read : deserialize_packet (received (serialize balanced).1 []) ≡ ok (serialize balanced).0
unfolding serialize calculate_checksum sum_words fold_carries lt_wf dec_lt fill
balanced-read =
    deserialize_packet-serialize balanced balanced-IsPacket (omega arith) (omega arith) [] refl

deserialize_packet-Decoded_example :
    Decoded (received (serialize balanced).1 []) (serialize balanced).0
deserialize_packet-Decoded_example =
    deserialize_packet-Decoded (received (serialize balanced).1 []) (serialize balanced).0
      balanced-bytes balanced-read

-- A data packet of two bytes.
abbrev ordinary : Packet
ordinary = record {
  type = 1;
  seq_num = 7;
  ack_num = 0;
  payload = 65 ∷ 66 ∷ [];
  checksum = 0;
  window = 0;
  flags = 0;
  timestamp = 5;
}

ordinary-IsPacket : IsPacket ordinary
ordinary-IsPacket = omega arith

ordinary_checksum : (serialize ordinary).0.checksum ≡ 0xb6b6
unfolding serialize calculate_checksum sum_words fold_carries lt_wf dec_lt fill
ordinary_checksum = refl

deserialize_packet-serialize_fails_example :
    (deserialize_packet (received (serialize ordinary).1 []) ≡ err invalid_length)
    ⊎ (deserialize_packet (received (serialize ordinary).1 []) ≡ err checksum_mismatch)
deserialize_packet-serialize_fails_example =
    deserialize_packet-serialize_fails ordinary ordinary-IsPacket (omega arith) (omega arith) []
      (λ h. omega (arith, ordinary_checksum)) (λ c. omega (arith, ordinary_checksum))

-- 255 bytes of data, the first of them ff, under the checksum 0.
abbrev colliding : Packet
colliding = record {
  type = 2;
  seq_num = 0;
  ack_num = 0;
  payload = 255 ∷ replicate 254 0;
  checksum = 0;
  window = 0;
  flags = 0;
  timestamp = 0xfdff;
}

colliding-IsPacket : IsPacket colliding
colliding-IsPacket = omega arith

colliding-Collides : Collides colliding
unfolding serialize calculate_checksum sum_words fold_carries lt_wf dec_lt fill
colliding-Collides = (refl, refl, refl)

deserialize_packet-serialize-Collides_example :
    deserialize_packet (received (serialize colliding).1 [])
    ≡ ok (record colliding { payload = []; checksum = 0 })
deserialize_packet-serialize-Collides_example =
    deserialize_packet-serialize-Collides colliding colliding-IsPacket (omega arith) (omega arith)
      [] colliding-Collides

abbrev bare_header : Bytes
bare_header = replicate 22 0

deserialize_packet-panic_iff_example : (deserialize_packet (received bare_header []) ≡ panic) ↔ (
    ((length bare_header ≡ 22) × (length (received bare_header []).spare ≡ 0))
    ⊎ ((65514 ≤ data_length bare_header) × (data_length bare_header + 22 ≤ length bare_header)))
deserialize_packet-panic_iff_example =
    deserialize_packet-panic_iff (received bare_header []) (omega arith)

checksum-wire_iff_example :
    (calculate_checksum (serialize ordinary).1 ≡ (serialize ordinary).0.checksum)
    ↔ (IsHarmless ordinary ⊎ Collides ordinary)
checksum-wire_iff_example = checksum-wire_iff ordinary ordinary-IsPacket (omega arith) (omega arith)
