-- ===== src/Lab1/Client/Send.antt =====
-- What `sendFile` of the client writes.
use nssa_ds.Base.{
  ℕ, zero, suc, ◌+◌, ◌%◌, ◌^◌, ◌≤◌, ◌<◌, ◌≡◌, sym, ◌∙◌, ap, false, [], ◌∷◌, ◌++◌, some, arith,
  length, take, drop, ◌==◌, take-append-drop, length-take, length-drop, append-nil, append_assoc,
}
use nssa_ds.Base.Bytes.{Bytes}
use nssa_ds.Base.Text.{Text}
use nssa_ds.Lab1.Socket.{Conn, write, write-Wrote}
use nssa_ds.Lab1.Client.{Reply, got, TransferProgress, send_loop, send_file}

-- All of the file goes out, chunk by chunk.
pub record AllSent (c : Conn) (path : Text) (file_size : ℕ) (file : Bytes) (total : ℕ)
    (r : Conn × Reply TransferProgress) : Type 0 where
  pub sent : r.0.written ≡ c.written ++ file
  pub counted :
      r.1 ≡ got (record { file_name = path; total_bytes = file_size; transferred = total })

AllSent-chunk :
    (c c' : Conn) (path : Text) (file_size total total' : ℕ) (chunk rest file : Bytes)
    (r : Conn × Reply TransferProgress)
    → c'.written ≡ c.written ++ chunk
    → chunk ++ rest ≡ file
    → total ≡ total'
    → AllSent c' path file_size rest total r
    → AllSent c path file_size file total' r
AllSent-chunk c c' path file_size total total' chunk rest file r w f t a = record {
  sent =
      a.sent
      ∙ ap (λ b. b ++ rest) w
      ∙ append_assoc c.written chunk rest
      ∙ ap (λ b. c.written ++ b) f;
  counted =
      a.counted
      ∙ ap (λ n. got (record { file_name = path; total_bytes = file_size; transferred = n })) t;
}

pub send_loop-AllSent :
    (fuel size : ℕ) (c : Conn) (path : Text) (file_size : ℕ) (file : Bytes) (total : ℕ)
    → 0 < size
    → length file ≤ fuel
    → c.write_results ≡ []
    → total + length file < 2 ^ 63
    → AllSent c path file_size file
        (total + length file)
        (send_loop fuel size c path file_size file total)
unfolding send_loop
send_loop-AllSent fuel size c path file_size [] total p l w b = record {
  sent = sym (append-nil c.written);
  counted =
      ap (λ n. got (record { file_name = path; total_bytes = file_size; transferred = n }))
        (omega arith);
}
send_loop-AllSent zero size c path file_size (x ∷ xs) total p l e b = absurd (omega arith)
send_loop-AllSent (suc fuel) size c path file_size (x ∷ xs) total p l e b =
    let chunk = take size (x ∷ xs) in
    let rest = drop size (x ∷ xs) in
    let w = write-Wrote chunk c e in
    let c' = (write chunk c).0 in
    let short = length-take size (x ∷ xs) in
    let left = length-drop size (x ∷ xs) in
    rw (w.is_written) (
      AllSent-chunk c c' path file_size _ _ chunk rest (x ∷ xs) _ w.appended
        (take-append-drop size (x ∷ xs)) (omega (arith, short, left))
        (send_loop-AllSent fuel size c' path file_size rest ((total + length chunk) % 2 ^ 64) p
          (omega (arith, left)) w.still_fine (omega (arith, short, left))))

-- `sendFile` writes the bytes of the file in order and nothing else, if no write fails.
pub send_file-AllSent :
    (size : ℕ) (c : Conn) (path : Text) (file : Bytes)
    → 0 < size
    → c.write_results ≡ []
    → length file < 2 ^ 63
    → AllSent c path
        (length file)
        file
        (length file)
        (send_file size c path (length file) (some file))
unfolding send_file
send_file-AllSent size c path file p e b =
    let filled : (size == 0) ≡ false = ground arith in
    let count : 0 + length file ≡ length file = omega arith in
    rw filled (
      rw count at (
        send_loop-AllSent (length file) size c path (length file) file 0 p (omega arith) e
          (omega arith)))
