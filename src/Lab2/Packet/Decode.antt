-- ===== src/Lab2/Packet/Decode.antt =====
-- `DeserializePacket` on any bytes: what it answers, and when it panics.
use nssa_ds.Base.{
  ℕ, ◌+◌, ◌-◌, ◌%◌, ◌^◌, ◌≤◌, ◌<◌, ◌≡◌, refl, sym, ap, fun_ext, ◌∙◌, ◌⊎◌, inl, inr, ◌↔◌, Bool, true,
  false, ◌++◌, arith, length, ltb, leb, le→leb, leb→le, ltb→lt, ltb_false→le, le→ltb_false,
  lt→leb_false, dec_lt, if◌then◌else◌, get_or, take, drop, overlay, replicate, overlay-take,
  length-drop, Bool-cases, All, All-take, All-drop,
}
use nssa_ds.Base.Result.{Result, ok, err, panic, ◌>>=◌}
use nssa_ds.Base.Bytes.{
  Bytes, IsByte, uint16-lt, Slice, reslice, index_ok, reslice_ok, reslice_panic, reslice_over,
  reslice_cap, uint16, uint32, uint64,
}
use nssa_ds.Lab2.Packet.{
  Packet, DecodeError, too_short, invalid_length, checksum_mismatch, verify_checksum,
  deserialize_packet,
}

-- The length field of the header.
abbrev pub data_length : Bytes → ℕ
data_length bytes = uint16 (take 2 (drop 20 bytes))

-- The fields at their places, with the two bytes read for the checksum.
abbrev pub fields : Bytes → Bytes → Packet
fields bytes sum = record {
  type = get_or bytes 0 0;
  seq_num = uint32 (take 4 (drop 1 bytes));
  ack_num = uint32 (take 4 (drop 5 bytes));
  payload = take (data_length bytes) (drop 22 bytes);
  checksum = uint16 sum;
  window = uint16 (take 2 (drop 9 bytes));
  flags = get_or bytes 11 0;
  timestamp = uint64 (take 8 (drop 12 bytes));
}

-- The answer once the header is read.
abbrev pub answer : Bytes → Bytes → Result DecodeError Packet
answer bytes sum =
    if leb (data_length bytes) (length bytes - 22)
    then (if ltb (data_length bytes) 65514
        then (if verify_checksum (fields bytes sum) bytes
            then ok (fields bytes sum)
            else err checksum_mismatch)
        else panic)
    else err invalid_length

-- Which tests of `answer` lead to the panic.
tests-panic_iff {ℓ κ} :
    {E : Type ℓ} {A : Type κ} (fits small sound : Bool) (a : A) (e d : E)
    → ((if fits then (if small then (if sound then ok a else err e) else panic) else err d) ≡ panic)
      ↔ ((fits ≡ true) × (small ≡ false))
tests-panic_iff true true true a e d = (λ h. cc, λ h. cc)
tests-panic_iff true true false a e d = (λ h. cc, λ h. cc)
tests-panic_iff true false sound a e d = (λ h. (refl, refl), λ h. refl)
tests-panic_iff false small sound a e d = (λ h. cc, λ h. cc)

module _ (s : Slice) (bytes : All IsByte s.items) where
  data_length-lt : data_length s.items < 2 ^ 16
  data_length-lt = uint16-lt _ (All-take IsByte 2 _ (All-drop IsByte 20 s.items bytes))

  body :
      data_length s.items ≤ length s.items - 22
      → 22 ≤ length s.items
      → data_length s.items < 65514
      → reslice {E = DecodeError} s 22 ((22 + data_length s.items) % 2 ^ 16)
        ≡ ok (take (data_length s.items) (drop 22 s.items))
  body fits h small =
      let size : (22 + data_length s.items) % 2 ^ 16 - 22 ≡ data_length s.items = omega arith in
      reslice_ok {E = DecodeError} s 22 _ (omega arith) (omega arith) ∙ rw size

  -- `22 + dataLen` is a uint16.
  wraps : 65514 ≤ data_length s.items → (22 + data_length s.items) % 2 ^ 16 < 22
  wraps h = omega (arith, data_length-lt)

  checked :
      data_length s.items ≤ length s.items - 22
      → overlay (replicate (data_length s.items) 0) (take (data_length s.items) (drop 22 s.items))
        ≡ take (data_length s.items) (drop 22 s.items)
  checked fits = overlay-take (drop 22 s.items) _ 0 (rw length-drop fits)

  -- Only the read of the checksum may leave the slice.
  deserialize_packet-answer :
      22 ≤ length s.items → deserialize_packet s ≡ (reslice s 21 23 >>= answer s.items)
  unfolding deserialize_packet
  deserialize_packet-answer h =
      rw
        (
          le→leb 22 (length s.items) h,
          index_ok {E = DecodeError} s 0 (omega arith),
          reslice_ok {E = DecodeError} s 1 5 (omega arith) (omega arith),
          reslice_ok {E = DecodeError} s 5 9 (omega arith) (omega arith),
          reslice_ok {E = DecodeError} s 9 11 (omega arith) (omega arith),
          index_ok {E = DecodeError} s 11 (omega arith),
          reslice_ok {E = DecodeError} s 12 20 (omega arith) (omega arith),
          reslice_ok {E = DecodeError} s 20 22 (omega arith) (omega arith),
        )
        (ap (λ (k : Bytes → Result DecodeError Packet). reslice s 21 23 >>= k)
          (fun_ext λ sum. elim (Bool-cases (leb (data_length s.items) (length s.items - 22))) [
            | inr long ↦ rw long
            | inl fits ↦ rw fits (elim (Bool-cases (ltb (data_length s.items) 65514)) [
              | inl small ↦
                  rw (small, body (leb→le _ _ fits) h (ltb→lt _ _ small), checked (leb→le _ _ fits))
                    (ground arith)
              | inr large ↦
                  rw
                    (large, reslice_panic {E = DecodeError} s 22 _ (wraps (ltb_false→le _ _ large)))
            ])
          ]))

  -- The checksum bytes within the slice.
  pub deserialize_packet-fields :
      23 ≤ length s.items → deserialize_packet s ≡ answer s.items (take 2 (drop 21 s.items))
  deserialize_packet-fields h =
      deserialize_packet-answer (omega arith)
      ∙ rw (reslice_ok {E = DecodeError} s 21 23 (omega arith) (omega arith))

  answer-panic_iff :
      (sum : Bytes)
      → (answer s.items sum ≡ panic)
        ↔ ((65514 ≤ data_length s.items) × (data_length s.items ≤ length s.items - 22))
  answer-panic_iff sum =
      let (only, all) =
        tests-panic_iff (leb (data_length s.items) (length s.items - 22))
          (ltb (data_length s.items) 65514) (verify_checksum (fields s.items sum) s.items)
          (fields s.items sum) checksum_mismatch invalid_length in
      (
        λ h. let (fits, large) = only h in (ltb_false→le _ _ large, leb→le _ _ fits),
        λ h. all (le→leb _ _ h.1, le→ltb_false _ _ h.0),
      )

  pub short_answer : length s.items < 22 → deserialize_packet s ≡ err too_short
  unfolding deserialize_packet
  short_answer h = rw (lt→leb_false 22 (length s.items) h)

  pub no_room : length s.items ≡ 22 → length s.spare ≡ 0 → deserialize_packet s ≡ panic
  no_room h k =
      deserialize_packet-answer (omega arith)
      ∙ rw (reslice_over {E = DecodeError} s 21 23 (omega arith))

  pub room :
      22 ≤ length s.items
      → 23 ≤ length s.items + length s.spare
      → deserialize_packet s ≡ answer s.items (take 2 (drop 21 (s.items ++ s.spare)))
  room h k =
      deserialize_packet-answer h ∙ rw (reslice_cap {E = DecodeError} s 21 23 (omega arith) k)

  -- `DeserializePacket` panics on 22 bytes with no capacity behind them, and where `22 + dataLen`
  -- wraps; on no other bytes.
  pub deserialize_packet-panic_iff : (deserialize_packet s ≡ panic) ↔ (
      ((length s.items ≡ 22) × (length s.spare ≡ 0))
      ⊎ ((65514 ≤ data_length s.items) × (data_length s.items + 22 ≤ length s.items)))
  deserialize_packet-panic_iff = (only, all)
    where
      sum : Bytes
      sum = take 2 (drop 21 (s.items ++ s.spare))

      only :
          deserialize_packet s ≡ panic
          → ((length s.items ≡ 22) × (length s.spare ≡ 0))
            ⊎ ((65514 ≤ data_length s.items) × (data_length s.items + 22 ≤ length s.items))
      only h = elim (dec_lt (length s.items) 22) [
        | yes less ↦ cc (short_answer less)
        | no more ↦ elim (dec_lt (length s.items + length s.spare) 23) [
          | yes full ↦ inl (omega arith, omega arith)
          | no space ↦
              let wide = (answer-panic_iff sum).0 (sym (room (omega arith) (omega arith)) ∙ h) in
              inr (omega arith)
        ]
      ]

      all :
          ((length s.items ≡ 22) × (length s.spare ≡ 0))
            ⊎ ((65514 ≤ data_length s.items) × (data_length s.items + 22 ≤ length s.items))
          → deserialize_packet s ≡ panic
      all (inl h) = no_room h.0 h.1
      all (inr h) = room (omega arith) (omega arith) ∙ (answer-panic_iff sum).1 (h.0, omega arith)
