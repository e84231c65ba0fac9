-- ===== src/Lab2/Client/Upload/Limited.antt =====
-- What `sendFile` sends: as many chunks as the window has room for, as no acknowledgment is handled.
use nssa_ds.Base.{
  ℕ, zero, suc, ◌+◌, ◌-◌, ◌/◌, ◌%◌, ◌^◌, ◌≤◌, ◌<◌, ◌≡◌, refl, sym, ◌∙◌, ap, true, false, List, [],
  ◌∷◌, ◌++◌, some, ◌==◌, leb, if◌then◌else◌, length, take, append_assoc, append-nil, arith,
  length-append, get_elem?,
}
use nssa_ds.Base.Bytes.{Bytes}
use nssa_ds.Lab2.Packet.{Packet}
use nssa_ds.Lab2.Window.{u32, SlidingWindow, in_flight, can_send, add_packet}
use nssa_ds.Lab2.Reliability.{ReliabilityManager}
use nssa_ds.Lab2.Connection.{ConnectionManager}
use nssa_ds.Lab2.Connection.Sessions.{window_of}
use nssa_ds.Lab2.Client.{window_was_full, done, refused}
use nssa_ds.Lab2.Client.Upload.{Link, Sending, Upload, ends, send_loop, start_sending, send_file}
use nssa_ds.Lab2.Client.Upload.Spec.{rounds, joined, reads_of, Round, after_round}
use nssa_ds.Lab2.Client.Upload.Rounds.{refused_round, accepted_round, accepted-Round}

-- How many packets a window still takes.
abbrev pub room : SlidingWindow → ℕ
room w = w.window_size - in_flight w

abbrev pub IsUint : SlidingWindow → Type 0
IsUint w = (w.base_seq < u32) × (w.window_size < 2 ^ 16)

room-none : (w : SlidingWindow) → room w ≡ 0 → can_send w ≡ false
unfolding can_send
room-none w h = ground (arith, h)

pub room-some : (w : SlidingWindow) (k : ℕ) → room w ≡ suc k → can_send w ≡ true
unfolding can_send
room-some w k h = ground (arith, h)

pub room-add_packet :
    (w : SlidingWindow) (p : Packet) (k : ℕ) → IsUint w → room w ≡ suc k → room (add_packet w p) ≡ k
unfolding add_packet
room-add_packet w p k b h = omega (arith, b, h)

pub add_packet-IsUint : (w : SlidingWindow) (p : Packet) → IsUint w → IsUint (add_packet w p)
unfolding add_packet
add_packet-IsUint w p b = b

abbrev pub IsChunk : Bytes → Type 0
IsChunk chunk = 0 < length chunk

abbrev pub AllChunks : List Bytes → Type 0
AllChunks [] = Unit {0}
AllChunks (chunk ∷ chunks) = IsChunk chunk × AllChunks chunks

abbrev pub AllWritten : Link → Type 0
AllWritten link = (n : ℕ) → link.written n ≡ true

-- What an upload with room for `k` chunks gives the socket, and how it ends.
pub record Limited (link : Link) (size : ℕ) (chunks : List Bytes) (total seq : ℕ)
    (before : List Packet) (k : ℕ) (u : Upload) : Type 0 where
  pub given : u.state.given ≡ before ++ rounds link size (take k chunks) total seq
  pub ended : u.ended ≡ (
      if leb (length chunks) k
      then done (total + length (joined chunks))
      else refused window_was_full)

ended_cons :
    (n k t t' : ℕ)
    → t ≡ t'
    → (if leb n k then done t else refused window_was_full)
      ≡ (if leb (suc n) (suc k) then done t' else refused window_was_full)
ended_cons n k t t' e = ground (arith, e)

none-Limited :
    (link : Link) (size : ℕ) (s : Sending) (k : ℕ)
    → Limited link size [] s.total s.seq_num s.given k (ends s (done s.total))
unfolding rounds joined
none-Limited link size s zero = record { given = sym (append-nil s.given); ended = ground arith }
none-Limited link size s (suc k) = record { given = sym (append-nil s.given); ended = ground arith }

full-Limited :
    (link : Link) (size : ℕ) (chunk : Bytes) (chunks : List Bytes) (s : Sending) (u : Upload)
    → u.ended ≡ refused window_was_full
    → u.state.given ≡ s.given
    → Limited link size (chunk ∷ chunks) s.total s.seq_num s.given 0 u
unfolding rounds joined
full-Limited link size chunk chunks s u e g = record {
  given = rw g (sym (append-nil s.given));
  ended = ground (arith, e);
}

more-Limited :
    (link : Link) (size : ℕ) (chunk : Bytes) (chunks : List Bytes) (s s' : Sending) (k : ℕ)
    (u : Upload)
    → Round link size chunk s s'
    → Limited link size chunks s'.total s'.seq_num s'.given k u
    → Limited link size (chunk ∷ chunks) s.total s.seq_num s.given (suc k) u
unfolding rounds joined
more-Limited link size chunk chunks s s' k u r h = record {
  given =
      rw (h.given, r.given, r.total, r.seq_num)
        (append_assoc s.given _
          (rounds link size (take k chunks) (s.total + length chunk) ((s.seq_num + 1) % u32)));
  ended =
      h.ended
      ∙ ended_cons (length chunks) k _ (s.total + length (chunk ++ joined chunks))
          (omega (arith, r.total, length-append chunk (joined chunks)));
}

send_loop-Limited :
    (link : Link) (size : ℕ) (chunks : List Bytes) (s : Sending) (k : ℕ)
    → AllWritten link
    → AllChunks chunks
    → (size / 10 == 0) ≡ false
    → IsUint (window_of s.conn_mgr link.addr 0)
    → room (window_of s.conn_mgr link.addr 0) ≡ k
    → s.total + length (joined chunks) < 2 ^ 63
    → Limited link size chunks s.total s.seq_num s.given k (send_loop link size (reads_of chunks) s)
unfolding send_loop reads_of joined rounds
send_loop-Limited link size [] s k w c large b h bound = none-Limited link size s k
send_loop-Limited link size ([] ∷ chunks) s k w c large b h bound = absurd (omega (arith, c.0))
send_loop-Limited link size ((x ∷ xs) ∷ chunks) s zero w c large b h bound =
    let (ended, given, _) =
      refused_round link size x xs (reads_of chunks) s (w s.seq_num) (room-none _ h) in
    full-Limited link size (x ∷ xs) chunks s _ ended given
send_loop-Limited link size ((x ∷ xs) ∷ chunks) s (suc k) w c large b h bound =
    let free : can_send (window_of s.conn_mgr link.addr 0) ≡ true = room-some _ k h in
    let short : s.total + length (x ∷ xs) < 2 ^ 63 =
      omega (arith, bound, length-append (x ∷ xs) (joined chunks)) in
    let r = accepted-Round link size x xs (reads_of chunks) s (w s.seq_num) free short in
    let (p, added) = r.added in
    let s' = after_round link size (x ∷ xs) s in
    let b' : IsUint (window_of s'.conn_mgr link.addr 0) = rw added (add_packet-IsUint _ p b) in
    let h' : room (window_of s'.conn_mgr link.addr 0) ≡ k =
      ap room added ∙ room-add_packet _ p k b h in
    let rest =
      send_loop-Limited link size chunks s' k w c.1 large b' h'
        (omega (arith, bound, r.total, length-append (x ∷ xs) (joined chunks))) in
    rw (accepted_round link size x xs (reads_of chunks) s (w s.seq_num) free large)
      (more-Limited link size (x ∷ xs) chunks s s' k _ r rest)

-- An upload whose buffers have a size and whose writes succeed: the socket gets the chunks in order, with the
-- tests where they come, but only as many as the window of the server has room for. If these are all, the upload
-- ends with the length of the file, else with the error of the full window. The file has at least 10 bytes by
-- its size, and below 2 ^ 63.
pub send_file-Limited :
    (link : Link) (size n : ℕ) (chunks : List Bytes) (rm : ReliabilityManager)
    (cm : ConnectionManager)
    → get_elem? link.sizes (length link.sizes / 2) ≡ some n
    → AllWritten link
    → AllChunks chunks
    → 10 ≤ size
    → IsUint (window_of cm link.addr 0)
    → length (joined chunks) < 2 ^ 63
    → Limited link size chunks 0 0 []
        (room (window_of cm link.addr 0))
        (send_file link true rm cm size (reads_of chunks))
unfolding send_file
send_file-Limited link size n chunks rm cm found w c large b bound =
    rw (send_file, found)
      (send_loop-Limited link size chunks (start_sending rm cm n) (room (window_of cm link.addr 0))
        w c (ground arith) b refl (omega (arith, bound)))
