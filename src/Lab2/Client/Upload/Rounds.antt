-- ===== src/Lab2/Client/Upload/Rounds.antt =====
-- One round of `sendFile`, with room in the window and without.
use nssa_ds.Base.{
  ℕ, ◌+◌, ◌/◌, ◌%◌, ◌^◌, ◌<◌, ◌≡◌, refl, ◌∙◌, ap, Bool, true, false, List, [], ◌∷◌, Option, some,
  ◌==◌, if◌then◌else◌, length, append_assoc, arith,
}
use nssa_ds.Base.Map.{string_key, nat_key}
use nssa_ds.Base.Bytes.{Bytes}
use nssa_ds.Lab2.Packet.{Packet, new_packet}
use nssa_ds.Lab2.PacketType
use nssa_ds.Lab2.Window.{can_send}
use nssa_ds.Lab2.Connection.Sessions.{window_of}
use nssa_ds.Lab2.Client.{window_was_full, refused}
use nssa_ds.Lab2.Client.Upload.{
  Link, Sending, read_chunk, send_tests, s64_abs, test_buffer_sizes, counted, send_loop,
}
use nssa_ds.Lab2.Client.Upload.Spec.{
  Round, tests_of, is_tested, after_round, send_tests-given, send_tests-rest,
}
use nssa_ds.Lab2.Client.Upload.Tried.{flight, sends, accepted_lem, refused_lem}

module _ (link : Link) (size b : ℕ) (bs : Bytes) (rest : List (Option Bytes)) (s : Sending)
    (w : link.written s.seq_num ≡ true) where
  -- A round without room, and one with room.
  pub refused_round :
      can_send (flight link (b ∷ bs) s) ≡ false
      → ((send_loop link size (some (b ∷ bs) ∷ rest) s).ended ≡ refused window_was_full)
        × ((send_loop link size (some (b ∷ bs) ∷ rest) s).state.given ≡ s.given)
        × ((send_loop link size (some (b ∷ bs) ∷ rest) s).state.rel_mgr
            ≡ (read_chunk (b ∷ bs) s).rel_mgr)
  unfolding send_loop read_chunk
  refused_round e =
      let (no_room, same) = refused_lem link (b ∷ bs) s w e in
      rw (send_loop, no_room) (refl, refl, same)

  pub accepted_round :
      can_send (flight link (b ∷ bs) s) ≡ true
      → (size / 10 == 0) ≡ false
      → send_loop link size (some (b ∷ bs) ∷ rest) s
        ≡ send_loop link size rest (after_round link size (b ∷ bs) s)
  unfolding send_loop read_chunk after_round test_buffer_sizes
  accepted_round e large = rw (send_loop, (accepted_lem link (b ∷ bs) s w e).0, large) refl

  abbrev now : ℕ
  now = link.clock s.seq_num

  abbrev the_packet : Packet
  the_packet = new_packet PacketType.data_packet s.seq_num (b ∷ bs) now

  abbrev pub counted_round : Sending
  counted_round =
      let tried = sends link (b ∷ bs) s in
      counted (b ∷ bs) the_packet (tried.0) (tried.1) (read_chunk (b ∷ bs) s)

  abbrev pub finished : Bool → Sending
  finished tested = if tested then send_tests link.sizes now counted_round else counted_round

  s64_abs-small : (t : ℕ) → t < 2 ^ 63 → s64_abs (t % 2 ^ 64) ≡ t
  s64_abs-small t h = ground arith

  pub after_round-finished :
      s.total + length (b ∷ bs) < 2 ^ 63
      → after_round link size (b ∷ bs) s ≡ finished (is_tested size (s.total + length (b ∷ bs)))
  unfolding after_round read_chunk
  after_round-finished h = rw (after_round, s64_abs-small (s.total + length (b ∷ bs)) h) refl

  finished-Round :
      (tested : Bool)
      → is_tested size (s.total + length (b ∷ bs)) ≡ tested
      → can_send (flight link (b ∷ bs) s) ≡ true
      → s.total + length (b ∷ bs) < 2 ^ 63
      → Round link size (b ∷ bs) s (finished tested)
  unfolding read_chunk
  finished-Round false t e h =
      let (_, q, added) = accepted_lem link (b ∷ bs) s w e in
      record {
        given = rw t refl;
        total = omega (arith, h);
        seq_num = refl;
        buffer = refl;
        added = (q, added);
      }
  finished-Round true t e h =
      let (total_same, seq_same, buffer_same, conn_same) =
        send_tests-rest link.sizes now counted_round in
      let (_, q, added) = accepted_lem link (b ∷ bs) s w e in
      record {
        given = rw t (
            send_tests-given link.sizes now counted_round
            ∙ append_assoc s.given (the_packet ∷ []) (tests_of link.sizes now));
        total = total_same ∙ omega (arith, h);
        seq_num = seq_same;
        buffer = buffer_same;
        added = (q, ap (λ cm. window_of cm link.addr 0) conn_same ∙ added);
      }

  pub accepted-Round :
      can_send (flight link (b ∷ bs) s) ≡ true
      → s.total + length (b ∷ bs) < 2 ^ 63
      → Round link size (b ∷ bs) s (after_round link size (b ∷ bs) s)
  accepted-Round e h = rw (after_round-finished h) (finished-Round _ refl e h)
