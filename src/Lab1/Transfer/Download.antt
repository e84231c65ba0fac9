-- ===== src/Lab1/Transfer/Download.antt =====
-- A download, from the server's file to the client's.
use nssa_ds.Base.{
  ℕ, suc, ◌+◌, ◌-◌, ◌^◌, ◌≤◌, ◌<◌, ◌≡◌, refl, sym, subst, ◌∙◌, ap, true, List, [], ◌∷◌, ◌++◌,
  length, take, drop, arith, append_assoc, append_cancel, take-append-drop, take-append_more,
}
use nssa_ds.Base.Bytes.{Bytes}
use nssa_ds.Base.Text.{Text, text, text_key, join}
use nssa_ds.Base.Strings.{crlf, IsField, trim_line}
use nssa_ds.Base.Decimal.{decimal}
use nssa_ds.Lab1.Socket.{
  Conn, read, write, write-Wrote, Brings, read-Brings-segment, segment, smaller,
}
use nssa_ds.Lab1.Server.Download.{header}
use nssa_ds.Lab1.Client.{got, send_command, download_file}
use nssa_ds.Lab1.Client.Header.{line, read_response-line, download_after-line}
use nssa_ds.Lab1.Client.Receive.{Complete, receive_file-Complete}
use nssa_ds.Lab1.Transfer.Request.{request}

pub header-line : (name : Text) (file x : Bytes) → header name file ++ x ≡ line name (length file) x
header-line name file x =
    ap (λ t. t ++ x) (append_assoc (text "FILE_INFO " ++ name) (32 ∷ decimal (length file)) crlf)
    ∙ append_assoc (text "FILE_INFO " ++ name) (32 ∷ (decimal (length file) ++ crlf)) x
    ∙ append_assoc (text "FILE_INFO ") name (32 ∷ ((decimal (length file) ++ crlf) ++ x))
    ∙ ap (λ t. text "FILE_INFO " ++ (name ++ (32 ∷ t)))
        (append_assoc (decimal (length file)) crlf x)

send_command-line :
    (size : ℕ) (c : Conn) (name : Text) (n : ℕ) (x : Bytes)
    → c.write_results ≡ []
    → Brings size (write (request name) c).0 (line name n x)
    → send_command size c (text "DOWNLOAD") (name ∷ [])
      ≡ ((read size (write (request name) c).0).0, got (trim_line (line name n x)))
unfolding join send_command
send_command-line size c name n x e r =
    let w = write-Wrote (request name) c e in
    rw (send_command, w.is_written, read_response-line size (write (request name) c).0 name n x r)
      refl

-- The client after the header: the first `m` bytes behind it came with it and are not in the stream any more.
pub download_file-line :
    (size : ℕ) (c : Conn) (name path : Text) (n : ℕ) (x : Bytes)
    → IsField name
    → n < 2 ^ 63
    → c.write_results ≡ []
    → Brings size (write (request name) c).0 (line name n x)
    → 0 < size
    → n ≤ length (read size (write (request name) c).0).0.incoming
    → Complete
        (read size (write (request name) c).0).0
        path
        n
        n
        []
        (download_file size c name path true [])
unfolding download_file
download_file-line size c name path n x h b e r p l =
    rw
      (
        download_file,
        send_command-line size c name n x e r,
        download_after-line size (read size (write (request name) c).0).0 path name [] n x h b,
      )
      (receive_file-Complete size (read size (write (request name) c).0).0 path n p b l)

-- What the first read of the response brings and leaves: the header and `m` bytes, and the rest.
pub first_read :
    (size : ℕ) (c : Conn) (k m : ℕ) (ks : List ℕ) (name : Text) (file behind : Bytes)
    → 0 < size
    → c.segments ≡ k ∷ ks
    → smaller size (suc k) ≡ length (header name file) + m
    → c.incoming ≡ header name file ++ behind
    → Brings size c (header name file ++ take m behind)
first_read size c k m ks name file behind p e f g =
    let h = header name file in
    let amount : segment size c.segments ≡ length h + m = rw e f in
    let exact : length h + m - length h ≡ m = omega arith in
    subst (λ t. Brings size c t)
      (rw amount (
        take-append_more (length h + m) h behind (omega arith)
        ∙ ap (λ n. h ++ take n behind) exact))
      (read-Brings-segment size c 70 _ p g)

pub left_over :
    (size : ℕ) (c : Conn) (h behind : Bytes) (m : ℕ)
    → c.incoming ≡ h ++ behind
    → Brings size c (h ++ take m behind)
    → (read size c).0.incoming ≡ drop m behind
left_over size c h behind m e r =
    append_cancel (take m behind) (read size c).0.incoming (drop m behind) (
      append_cancel h (take m behind ++ (read size c).0.incoming) (take m behind ++ drop m behind) (
        sym (append_assoc h (take m behind) (read size c).0.incoming)
        ∙ sym r.in_front
        ∙ e
        ∙ ap (λ t. h ++ t) (sym (take-append-drop m behind))))
