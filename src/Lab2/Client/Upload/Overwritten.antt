-- ===== src/Lab2/Client/Upload/Overwritten.antt =====
-- The packets of an upload that wait have the bytes of the chunk that was read last, not their own.
use nssa_ds.Base.{
  ℕ, suc, ◌+◌, ◌-◌, ◌/◌, ◌^◌, ◌≤◌, ◌<◌, ◌≡◌, refl, ◌∙◌, ap, inl, inr, true, false, Bool-cases, List,
  [], ◌∷◌, ◌++◌, some, ◌==◌, length, arith, length-append, length-replicate, get_elem?,
}
use nssa_ds.Base.Bytes.{Bytes}
use nssa_ds.Lab2.Window.{u32, can_send}
use nssa_ds.Lab2.Reliability.{ReliabilityManager}
use nssa_ds.Lab2.Connection.{ConnectionManager}
use nssa_ds.Lab2.Connection.Sessions.{window_of}
use nssa_ds.Lab2.Client.Upload.{Link, Sending, send_loop, start_sending, send_file}
use nssa_ds.Lab2.Client.Upload.Spec.{reads_of, joined, after_round}
use nssa_ds.Lab2.Client.Upload.Tried.{flight}
use nssa_ds.Lab2.Client.Upload.Rounds.{refused_round, accepted_round, accepted-Round}
use nssa_ds.Lab2.Client.Upload.Limited.{
  AllWritten, IsUint, room, room-some, room-add_packet, add_packet-IsUint,
}
use nssa_ds.Lab2.Client.Upload.Shared.{Holds, Kept, read_chunk-Shares, after_round-Kept}

-- Every read but the end fills the buffer.
abbrev pub AllFull : ℕ → List Bytes → Type 0
AllFull n [] = Unit {0}
AllFull n (chunk ∷ chunks) = (length chunk ≡ n) × AllFull n chunks

module _ (link : Link) (size n : ℕ) (w : AllWritten link) (pos : 0 < n)
    (large : (size / 10 == 0) ≡ false) where
  last_round :
      (last items : Bytes) (s : Sending) (j : ℕ)
      → Kept s items
      → length items ≡ n
      → length last ≡ n
      → s.total + length last < 2 ^ 63
      → s.seq_num + 1 < u32
      → 0 < j
      → j < s.seq_num
      → Holds (send_loop link size (some last ∷ []) s).state j last
  unfolding send_loop
  last_round [] items s j k full full' bound below p h = absurd (omega (arith, pos, full'))
  last_round (b ∷ bs) items s j k full full' bound below p h =
      elim (Bool-cases (can_send (flight link (b ∷ bs) s))) [
        | inr no_room ↦
            let (_, _, same) = refused_round link size b bs [] s (w s.seq_num) no_room in
            let (held, _) =
              read_chunk-Shares (b ∷ bs) items s j (omega (arith, full, full', k.fills))
                (omega (arith, full, full')) (k.each j p h) in
            rw same held
        | inl free ↦
            let k' =
              after_round-Kept link size b bs [] s (w s.seq_num) free items k
                (omega (arith, full, full', k.fills)) bound below in
            let r = accepted-Round link size b bs [] s (w s.seq_num) free bound in
            rw (accepted_round link size b bs [] s (w s.seq_num) free large)
              (k'.each j p (omega (arith, h, r.seq_num, below))).0
      ]

  send_loop-overwritten :
      (firsts : List Bytes) (last items : Bytes) (s : Sending) (j : ℕ)
      → Kept s items
      → length items ≡ n
      → AllFull n firsts
      → length last ≡ n
      → IsUint (window_of s.conn_mgr link.addr 0)
      → length firsts ≤ room (window_of s.conn_mgr link.addr 0)
      → s.total + length (joined firsts) + length last < 2 ^ 63
      → s.seq_num + length firsts + 1 < u32
      → 0 < j
      → j < s.seq_num + length firsts
      → Holds (send_loop link size (reads_of (firsts ++ (last ∷ []))) s).state j last
  unfolding reads_of joined
  send_loop-overwritten [] last items s j k f all f' b fits bound below p h =
      last_round last items s j k f f' (omega (arith, bound)) (omega (arith, below)) p
        (omega (arith, h))
  send_loop-overwritten ([] ∷ firsts) last items s j k f all f' b fits bound below p h =
      absurd (omega (arith, pos, all.0))
  send_loop-overwritten ((x ∷ xs) ∷ firsts) last items s j k f all f' b fits bound below p h =
      let v = window_of s.conn_mgr link.addr 0 in
      let wide : room v ≡ suc (room v - 1) = omega (arith, fits) in
      let free : can_send v ≡ true = room-some v (room v - 1) wide in
      let more = reads_of (firsts ++ (last ∷ [])) in
      let joins = length-append (x ∷ xs) (joined firsts) in
      let short : s.total + length (x ∷ xs) < 2 ^ 63 = omega (arith, bound, joins) in
      let step : s.seq_num + 1 < u32 = omega (arith, below) in
      let r = accepted-Round link size x xs more s (w s.seq_num) free short in
      let (q, added) = r.added in
      let s' = after_round link size (x ∷ xs) s in
      let k' =
        after_round-Kept link size x xs more s (w s.seq_num) free items k
          (omega (arith, f, all.0, k.fills)) short step in
      let b' : IsUint (window_of s'.conn_mgr link.addr 0) = rw added (add_packet-IsUint v q b) in
      let fits' : room (window_of s'.conn_mgr link.addr 0) ≡ room v - 1 =
        ap room added ∙ room-add_packet v q (room v - 1) b wide in
      let total : s'.total + length (joined firsts) + length last < 2 ^ 63 =
        omega (arith, bound, joins, r.total) in
      let number : s'.seq_num ≡ s.seq_num + 1 = omega (arith, r.seq_num, step) in
      rw (accepted_round link size x xs more s (w s.seq_num) free large) (
        send_loop-overwritten firsts last (x ∷ xs) s' j k' all.0 all.1 f' b'
          (omega (arith, fits, fits')) total (omega (arith, below, number)) p
          (omega (arith, h, number)))

-- An upload whose reads fill the buffer, of chunks that the window has room for and one more, which has room or
-- not: in the end each packet from 1 on that waits to be sent again, under its own number, has the bytes of the
-- last chunk. The writes succeed; the file has at least 10 bytes by its size, and below 2 ^ 63.
pub send_file-overwritten :
    (link : Link) (size n : ℕ) (firsts : List Bytes) (last : Bytes) (rm : ReliabilityManager)
    (cm : ConnectionManager) (j : ℕ)
    → get_elem? link.sizes (length link.sizes / 2) ≡ some n
    → 0 < n
    → AllWritten link
    → AllFull n firsts
    → length last ≡ n
    → 10 ≤ size
    → IsUint (window_of cm link.addr 0)
    → length firsts ≤ room (window_of cm link.addr 0)
    → length (joined firsts) + length last < 2 ^ 63
    → 0 < j
    → j < length firsts
    → Holds (send_file link true rm cm size (reads_of (firsts ++ (last ∷ [])))).state j last
unfolding send_file
send_file-overwritten link size n firsts last rm cm j found pos w all full large b fits bound p h =
    let start = start_sending rm cm n in
    let none_yet : Kept start start.buffer = record {
      each = λ i _ below. absurd (omega (arith, below));
      fills = refl;
    } in
    rw (send_file, found)
      (send_loop-overwritten link size n w pos (ground (arith, large)) firsts last start.buffer
        start j none_yet (length-replicate n 0) all full b fits (omega (arith, bound))
        (omega (arith, fits, b)) p (omega (arith, h)))
