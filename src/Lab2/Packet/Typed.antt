-- ===== src/Lab2/Packet/Typed.antt =====
-- The packets that `DeserializePacket` returns: their values are those of their fields' types.
use nssa_ds.Base.{
  ℕ, ◌+◌, ◌-◌, ◌≤◌, ◌<◌, ◌≡◌, refl, sym, subst, ◌∙◌, Bool, true, false, ◌++◌, arith, length, ltb,
  leb, leb→le, ltb→lt, dec_lt, if◌then◌else◌, length-take, length-drop, take, drop, All, All-take,
  All-drop,
}
use nssa_ds.Base.Result.{Result, ok, err, panic}
use nssa_ds.Base.Bytes.{Bytes, IsByte, Slice, get_or-IsByte, uint16-lt, uint32-lt, uint64-lt}
use nssa_ds.Lab2.Packet.{
  Packet, IsPacket, checksum_mismatch, invalid_length, deserialize_packet, verify_checksum,
}
use nssa_ds.Lab2.Packet.Decode.{data_length, fields, answer, short_answer, no_room, room}

-- The data are as many bytes as the length field says, from byte 22 on, and the checksum holds.
pub record Decoded (s : Slice) (p : Packet) : Type 0 where
  pub typed : IsPacket p
  pub payload : p.payload ≡ take (data_length s.items) (drop 22 s.items)
  pub size : length p.payload ≡ data_length s.items
  pub inside : 22 + length p.payload ≤ length s.items
  pub small : length p.payload < 65514
  pub sound : verify_checksum p s.items ≡ true

fields-IsPacket : (bytes sum : Bytes) → All IsByte bytes → IsPacket (fields bytes sum)
fields-IsPacket bytes sum h =
    let part = λ (n i : ℕ). All-take IsByte n _ (All-drop IsByte i bytes h) in
    record {
      type_lt = get_or-IsByte bytes 0 h;
      seq_num_lt = uint32-lt _ (part 4 1);
      ack_num_lt = uint32-lt _ (part 4 5);
      window_lt = uint16-lt _ (part 2 9);
      flags_lt = get_or-IsByte bytes 11 h;
      timestamp_lt = uint64-lt _ (part 8 12) (All-drop IsByte 4 _ (part 8 12));
      payload_bytes = part (data_length bytes) 22;
    }

ok_inj {ℓ κ} : {E : Type ℓ} {A : Type κ} {a b : A} → ◌≡◌ {A = Result E A} (ok a) (ok b) → a ≡ b
ok_inj h = cc

-- The tests of `answer` that lead to a packet.
passed {ℓ κ} :
    {E : Type ℓ} {A : Type κ} (fits small sound : Bool) (a b : A) (e d : E)
    → (if fits then (if small then (if sound then ok a else err e) else panic) else err d) ≡ ok b
    → (fits ≡ true) × (small ≡ true) × (sound ≡ true) × (a ≡ b)
passed true true true a b e d h = (refl, refl, refl, ok_inj h)
passed true true false a b e d h = cc
passed true false sound a b e d h = cc
passed false small sound a b e d h = cc

answer-Decoded :
    (s : Slice) (sum : Bytes) (p : Packet)
    → All IsByte s.items
    → 22 ≤ length s.items
    → answer s.items sum ≡ ok p
    → Decoded s p
answer-Decoded s sum p h long e =
    let n = data_length s.items in
    let (fits, small, sound, same) =
      passed (leb n (length s.items - 22)) (ltb n 65514)
        (verify_checksum (fields s.items sum) s.items) (fields s.items sum) p checksum_mismatch
        invalid_length e in
    let size : length (take (data_length s.items) (drop 22 s.items)) ≡ data_length s.items = omega (
      arith,
      leb→le _ _ fits,
      length-take (data_length s.items) (drop 22 s.items),
      length-drop 22 s.items,
    ) in
    subst (Decoded s) same (record {
      typed = fields-IsPacket s.items sum h;
      payload = refl;
      size = size;
      inside = omega (arith, size, leb→le _ _ fits);
      small = omega (arith, size, ltb→lt _ _ small);
      sound = sound;
    })

-- A packet that `DeserializePacket` returns has the values of its fields' types; its data are as many bytes as
-- the length field says, from byte 22 on, inside the datagram and less than 65514; and the checksum holds.
pub deserialize_packet-Decoded :
    (s : Slice) (p : Packet) → All IsByte s.items → deserialize_packet s ≡ ok p → Decoded s p
deserialize_packet-Decoded s p h e = elim (dec_lt (length s.items) 22) [
  | yes less ↦ cc (short_answer s h less)
  | no more ↦ elim (dec_lt (length s.items + length s.spare) 23) [
    | yes full ↦ cc (no_room s h (omega arith) (omega arith))
    | no space ↦
        answer-Decoded s (take 2 (drop 21 (s.items ++ s.spare))) p h (omega arith)
          (sym (room s h (omega arith) (omega arith)) ∙ e)
  ]
]
