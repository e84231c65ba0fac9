-- ===== src/Lab1/Client/Receive.antt =====
-- What `receiveFile` of the client makes of a stream.
use nssa_ds.Base.{
  s64_lt, take-append_more, drop-append_more, ℕ, zero, suc, ◌+◌, ◌-◌, ◌%◌, ◌^◌, ◌≤◌, ◌<◌, ◌≡◌, refl,
  sym, ◌∙◌, ap, true, false, [], ◌∷◌, ◌++◌, arith, length, take, drop, append-nil, append_assoc,
  length-append, dec_lt,
}
use nssa_ds.Base.Bytes.{Bytes}
use nssa_ds.Base.Text.{Text}
use nssa_ds.Lab1.Socket.{Conn, read, read-Brings, Brings}
use nssa_ds.Lab1.Client.{got, Received, fit, receive_loop, receive_file}

-- The file has what it had and the bytes of the stream up to the size, and the rest is left.
pub record Complete (c : Conn) (path : Text) (file_size want : ℕ) (file : Bytes) (r : Received)
    : Type 0 where
  pub filled : r.file ≡ file ++ take want c.incoming
  pub left : r.conn.incoming ≡ drop want c.incoming
  pub counted :
      r.reply ≡ got (record { file_name = path; total_bytes = file_size; transferred = file_size })

Complete-chunk :
    (c c' : Conn) (path : Text) (file_size want : ℕ) (items file : Bytes) (r : Received)
    → c.incoming ≡ items ++ c'.incoming
    → length items ≤ want
    → Complete c' path file_size (want - length items) (file ++ items) r
    → Complete c path file_size want file r
Complete-chunk c c' path file_size want items file r e le i = record {
  filled =
      i.filled
      ∙ append_assoc file items (take (want - length items) c'.incoming)
      ∙ ap (λ t. file ++ t)
          (sym (take-append_more want items c'.incoming le) ∙ ap (take want) (sym e));
  left = i.left ∙ sym (drop-append_more want items c'.incoming le) ∙ ap (drop want) (sym e);
  counted = i.counted;
}

none_left :
    (c : Conn) (path : Text) (file_size total : ℕ) (file : Bytes)
    → total ≡ file_size
    → Complete c path file_size (file_size - total) file (record {
      conn = c;
      file = file;
      reply = got (record { file_name = path; total_bytes = file_size; transferred = total });
    })
none_left c path file_size total file e =
    let zeros : file_size - total ≡ 0 = omega arith in
    record {
      filled = rw zeros (sym (append-nil file));
      left = rw zeros refl;
      counted =
          ap (λ n. got (record { file_name = path; total_bytes = file_size; transferred = n })) e;
    }

cons_of : (n : ℕ) (xs : Bytes) → 0 < n → n ≤ length xs → (b : ℕ) × (bs : Bytes) × (xs ≡ b ∷ bs)
cons_of n [] p l = absurd (omega arith)
cons_of n (b ∷ bs) p l = (b, bs, refl)

-- One round of the loop, by what the read brings.
receive_round :
    (fuel size : ℕ) (c : Conn) (path : Text) (file_size total : ℕ) (file items : Bytes)
    → total < file_size
    → file_size < 2 ^ 63
    → Brings (fit size total file_size) c items
    → length items ≤ file_size - total
    → Complete
        (read (fit size total file_size) c).0
        path
        file_size
        (file_size - (total + length items))
        (file ++ items)
        (receive_loop fuel
          (fit size total file_size)
          (read (fit size total file_size) c).0
          path
          file_size
          (total + length items)
          (file ++ items)
          [])
    → Complete c path file_size
        (file_size - total)
        file
        (receive_loop (suc fuel) size c path file_size total file [])
unfolding receive_loop
receive_round fuel size c path file_size total file items more b r le next =
    let missing : s64_lt total file_size ≡ true = ground arith in
    let count : (total + length items) % 2 ^ 64 ≡ total + length items = omega arith in
    let rest : file_size - (total + length items) ≡ file_size - total - length items =
      omega arith in
    rw (missing, receive_loop, r.is_read, count)
      (Complete-chunk c (read (fit size total file_size) c).0 path file_size (file_size - total)
        items file _ r.in_front le (rw rest at next))

receive_loop-Complete :
    (fuel size : ℕ) (c : Conn) (path : Text) (file_size total : ℕ) (file : Bytes)
    → 0 < size
    → total ≤ file_size
    → file_size < 2 ^ 63
    → file_size - total ≤ length c.incoming
    → file_size - total ≤ fuel
    → Complete c path file_size
        (file_size - total)
        file
        (receive_loop fuel size c path file_size total file [])
unfolding receive_loop
receive_loop-Complete zero size c path file_size total file p t b' l f =
    let reached : s64_lt total file_size ≡ false = ground arith in
    rw reached (none_left c path file_size total file (omega arith))
receive_loop-Complete (suc fuel) size c path file_size total file p t b' l f =
    elim (dec_lt total file_size) [
      | no done ↦
          let reached : s64_lt total file_size ≡ false = ground arith in
          rw (reached, receive_loop) (none_left c path file_size total file (omega arith))
      | yes more ↦
          let size' = fit size total file_size in
          let in_size : (0 < size') × (size' ≤ file_size - total) = ground arith in
          let (b, bs, e) = cons_of (file_size - total) c.incoming (omega arith) l in
          let (items, r) = read-Brings size' c b bs (omega arith) e in
          let c' = (read size' c).0 in
          let front = ap length r.in_front ∙ length-append items c'.incoming in
          let le : length items ≤ file_size - total = omega (arith, r.fits) in
          receive_round fuel size c path file_size total file items more b' r le (
            receive_loop-Complete fuel size' c' path file_size (total + length items)
              (file ++ items) (omega arith) (omega arith) b' (omega (arith, front))
              (omega (arith, r.some_byte)))
    ]

-- A stream that has the file in front: `receiveFile` writes exactly the file, in whichever pieces it
-- arrives, and leaves what comes behind it.
pub receive_file-Complete :
    (size : ℕ) (c : Conn) (path : Text) (file_size : ℕ)
    → 0 < size
    → file_size < 2 ^ 63
    → file_size ≤ length c.incoming
    → Complete c path file_size file_size [] (receive_file size c path file_size true [])
unfolding receive_file
receive_file-Complete size c path file_size p b l =
    let whole : file_size - 0 ≡ file_size = omega arith in
    rw whole at (
      receive_loop-Complete (length c.incoming + 1) size c path file_size 0 [] p (omega arith) b
        (omega arith) (omega arith))
