-- ===== src/Lab2/Packet/RoundTrip.antt =====
-- `DeserializePacket` on what `Serialize` wrote.
use nssa_ds.Base.{
  ℕ, ◌+◌, ◌-◌, ◌*◌, ◌/◌, ◌%◌, ◌^◌, ◌<◌, ◌≡◌, refl, ap, ◌∙◌, ◌⊎◌, inl, inr, [], ◌∷◌, ◌++◌, arith,
  length, Bool-cases, leb, leb→le, le→leb, lt→ltb, ==_iff, ◌==◌, if◌then◌else◌, get_or, set, take,
  drop, take-append, take-drop-append,
}
use nssa_ds.Base.Result.{ok, err}
use nssa_ds.Base.Bytes.{Bytes, Slice, uint16, uint16-be16, uint32-be32, uint64-be64}
use nssa_ds.Lab2.Packet.{
  Packet, IsPacket, invalid_length, checksum_mismatch, serialize, calculate_checksum,
  verify_checksum, deserialize_packet,
}
use nssa_ds.Lab2.Packet.Wire.{
  wire-set, length-wire, wire-IsByte, IsHarmless, Collides, checksum-wire_iff, checksum-lt,
  first_byte, first_byte-lt,
}
use nssa_ds.Lab2.Packet.Decode.{fields, answer, data_length, deserialize_packet-fields}

abbrev pub received : Bytes → Bytes → Slice
received bytes spare = record { items = bytes; spare = spare }

-- The length field as it arrives.
abbrev received_length : Packet → ℕ
received_length p = length p.payload / 256 * 256 + (serialize p).0.checksum / 256

-- The data as they arrive, with the byte that `Serialize` leaves behind them.
abbrev received_data : Packet → Bytes
received_data p = set (p.payload ++ (0 ∷ [])) 0 ((serialize p).0.checksum % 256)

-- The packet that arrives.
abbrev received_packet : Packet → Packet
received_packet p = record p {
  payload = take (received_length p) (received_data p);
  checksum = (serialize p).0.checksum;
}

get_or-take-set : (xs : Bytes) (b : ℕ) → get_or (take 1 (set (xs ++ (0 ∷ [])) 0 b)) 0 0 ≡ b
get_or-take-set [] b = refl
get_or-take-set (x ∷ xs) b = refl

set-get_or : (xs : Bytes) → set xs 0 (get_or xs 0 0) ≡ xs
set-get_or [] = refl
set-get_or (x ∷ xs) = refl

take-set-append :
    (xs : Bytes) (k : ℕ)
    → k < length xs
    → take k (set (xs ++ (0 ∷ [])) 0 0) ≡ take k (0 ∷ drop 1 xs)
take-set-append [] k h = absurd (omega arith)
take-set-append (x ∷ xs) k h = take-drop-append (0 ∷ xs) (0 ∷ []) 0 k (omega arith)

-- `answer` by the parts that its tests read.
answer-parts :
    (bytes sum : Bytes) (q : Packet) (k m : ℕ)
    → fields bytes sum ≡ q
    → data_length bytes ≡ k
    → length bytes ≡ 22 + m
    → m < 65514
    → answer bytes sum ≡ (
        if leb k m
        then (if calculate_checksum bytes == q.checksum then ok q else err checksum_mismatch)
        else err invalid_length)
unfolding verify_checksum
answer-parts bytes sum q k m f d l h =
    let e : m ≡ length bytes - 22 = omega arith in
    rw (← f, ← d, e)
      (elim (Bool-cases (leb (data_length bytes) (length bytes - 22))) [
        | inr long ↦ rw long
        | inl fits ↦ rw (fits, lt→ltb (data_length bytes) 65514 (omega (arith, leb→le _ _ fits)))
      ])

module _ (p : Packet) (v : IsPacket p) (known : 0 < p.type) (short : length p.payload < 65513) where
  size-received :
      uint16
        ((length p.payload % 2 ^ 16 / 2 ^ 8 % 256) ∷ ((serialize p).0.checksum / 2 ^ 8 % 256) ∷ [])
      ≡ received_length p
  size-received = omega (arith, checksum-lt p v known short)

  checksum-received :
      uint16 (((serialize p).0.checksum / 2 ^ 8 % 256) ∷ take 1 (received_data p))
      ≡ (serialize p).0.checksum
  checksum-received = omega (
    arith,
    checksum-lt p v known short,
    get_or-take-set p.payload ((serialize p).0.checksum % 256),
  )

  size-wire : data_length (serialize p).1 ≡ received_length p
  size-wire = ap data_length (wire-set p) ∙ size-received

  fields-wire : fields (serialize p).1 (take 2 (drop 21 (serialize p).1)) ≡ received_packet p
  fields-wire = ap (λ (b : Bytes). fields b (take 2 (drop 21 b))) (wire-set p) ∙ λ i. record {
    type = p.type;
    seq_num = uint32-be32 p.seq_num v.seq_num_lt i;
    ack_num = uint32-be32 p.ack_num v.ack_num_lt i;
    payload = take (size-received i) (received_data p);
    checksum = checksum-received i;
    window = uint16-be16 p.window v.window_lt i;
    flags = p.flags;
    timestamp = uint64-be64 p.timestamp v.timestamp_lt i;
  }

  -- The answer of `DeserializePacket` to the bytes of a packet.
  deserialize_packet-wire :
      (spare : Bytes)
      → deserialize_packet (received (serialize p).1 spare) ≡ (
          if leb (received_length p) (length p.payload + 1)
          then (if calculate_checksum (serialize p).1 == (serialize p).0.checksum
              then ok (received_packet p)
              else err checksum_mismatch)
          else err invalid_length)
  unfolding verify_checksum
  deserialize_packet-wire spare =
      deserialize_packet-fields (received (serialize p).1 spare) (wire-IsByte p v known short)
        (rw (length-wire p v known short) (omega arith))
      ∙ answer-parts _ (take 2 (drop 21 (serialize p).1)) (received_packet p) _ _ fields-wire
          size-wire (length-wire p v known short ∙ omega arith) (omega arith)

  received_packet-harmless : IsHarmless p → received_packet p ≡ (serialize p).0
  unfolding serialize
  received_packet-harmless h =
      let hi : received_length p ≡ length p.payload =
        omega (arith, first_byte-lt p v known short) in
      let lo : (serialize p).0.checksum % 256 ≡ first_byte p =
        omega (arith, first_byte-lt p v known short) in
      rw (hi, lo, set-get_or (p.payload ++ (0 ∷ [])), take-append p.payload)

  received_packet-Collides :
      Collides p
      → received_packet p
        ≡ record p { payload = take (length p.payload - 255) (0 ∷ drop 1 p.payload); checksum = 0 }
  received_packet-Collides (zeros, len, first) =
      let hi : received_length p ≡ length p.payload - 255 = omega arith in
      rw (hi, zeros, take-set-append p.payload (length p.payload - 255) (omega arith))

  -- `Serialize` writes the checksum over the low byte of the length and the first byte of the data.
  -- Where these two bytes are the checksum by chance, `DeserializePacket` returns the packet that
  -- `Serialize` left, whatever capacity follows. The fields are within their types, the type is not 0
  -- and the data have less than 65513 bytes.
  pub deserialize_packet-serialize :
      (spare : Bytes)
      → IsHarmless p
      → deserialize_packet (received (serialize p).1 spare) ≡ ok (serialize p).0
  deserialize_packet-serialize spare h =
      let long : received_length p ≡ length p.payload =
        omega (arith, first_byte-lt p v known short) in
      deserialize_packet-wire spare
      ∙ rw
          (
            le→leb (received_length p) (length p.payload + 1) (omega arith),
            (==_iff _ _).1 ((checksum-wire_iff p v known short).1 (inl h)),
          )
          (ap ok (received_packet-harmless h))

  -- For such a packet, where the two bytes are not the checksum, `DeserializePacket` returns one of two
  -- errors, but for the collision: the checksum is 0 and has replaced two bytes ff.
  pub deserialize_packet-serialize_fails :
      (spare : Bytes)
      → ¬ IsHarmless p
      → ¬ Collides p
      → (deserialize_packet (received (serialize p).1 spare) ≡ err invalid_length)
        ⊎ (deserialize_packet (received (serialize p).1 spare) ≡ err checksum_mismatch)
  deserialize_packet-serialize_fails spare other collide =
      elim (Bool-cases (calculate_checksum (serialize p).1 == (serialize p).0.checksum)) [
        | inl same ↦ elim ((checksum-wire_iff p v known short).0 ((==_iff _ _).0 same)) [
          | inl h ↦ absurd (other h)
          | inr c ↦ absurd (collide c)
        ]
        | inr differ ↦ elim (Bool-cases (leb (received_length p) (length p.payload + 1))) [
          | inl fits ↦ inr (deserialize_packet-wire spare ∙ rw (fits, differ))
          | inr long ↦ inl (deserialize_packet-wire spare ∙ rw long)
        ]
      ]

  -- In the collision `DeserializePacket` returns another packet, with 255 bytes of data less and 0 for
  -- the first byte. The fields, the type and the length are as in the theorems above.
  pub deserialize_packet-serialize-Collides :
      (spare : Bytes)
      → Collides p
      → deserialize_packet (received (serialize p).1 spare)
        ≡ ok (record p {
          payload = take (length p.payload - 255) (0 ∷ drop 1 p.payload);
          checksum = 0;
        })
  deserialize_packet-serialize-Collides spare c =
      let long : received_length p ≡ length p.payload - 255 = omega arith in
      deserialize_packet-wire spare
      ∙ rw
          (
            le→leb (received_length p) (length p.payload + 1) (omega arith),
            (==_iff _ _).1 ((checksum-wire_iff p v known short).1 (inr c)),
          )
          (ap ok (received_packet-Collides c))
