-- ===== src/Lab1/Socket.antt =====
-- One end of a TCP connection as the program sees it: net.Conn of Go's library, with what the network
-- may do. The bytes that arrive are a stream. A read brings some of them, as many as the network and
-- the buffer allow; when none are left it brings what ends the stream.
use nssa_ds.Base.{
  ◌⊎◌, inl, inr, sym, ◌∙◌, ap, take-append-drop, length-take, ℕ, suc, ◌≤◌, ◌<◌, ◌≡◌, refl, Bool,
  true, List, [], ◌∷◌, ◌++◌, arith, ltb, if◌then◌else◌, length, take, drop,
}
use nssa_ds.Base.Bytes.{Bytes}
use nssa_ds.Base.Text.{Text}

-- The peer has closed; no byte came in time; another error, with its text.
pub data Ending : Type 0 where
  end_of_file timed_out : Ending
  broken : Text → Ending

-- `segments` are the sizes, less one, in which the network brings the bytes; past them a read fills its
-- buffer. `write_results` says which writes succeed; past them all do. `written` are the bytes sent.
pub record Conn : Type 0 where
  pub incoming : Bytes
  pub segments : List ℕ
  pub ending : Ending
  pub write_results : List Bool
  pub written : Bytes

pub data Got : Type 0 where
  bytes : Bytes → Got
  ended : Ending → Got

abbrev pub smaller : ℕ → ℕ → ℕ
smaller a b = if ltb a b then a else b

abbrev pub segment : ℕ → List ℕ → ℕ
segment size [] = size
segment size (k ∷ ks) = smaller size (suc k)

abbrev pub tail {ℓ} : {A : Type ℓ} → List A → List A
tail [] = []
tail (x ∷ xs) = xs

abbrev pub read_from : ℕ → Conn → Bytes → Conn × Got
read_from size c [] = (c, ended c.ending)
read_from size c (b ∷ bs) =
    let n = segment size c.segments in
    (record c { incoming = drop n (b ∷ bs); segments = tail c.segments }, bytes (take n (b ∷ bs)))

-- conn.Read(buffer) with a buffer of `size` bytes.
unfoldable pub read : ℕ → Conn → Conn × Got
read size c = read_from size c c.incoming

abbrev pub succeeds : List Bool → Bool
succeeds [] = true
succeeds (result ∷ _) = result

-- conn.Write(items): all of it, or an error.
unfoldable pub write : Bytes → Conn → Conn × Bool
write items c =
    let done = succeeds c.write_results in
    (
      record c {
        write_results = tail c.write_results;
        written = if done then c.written ++ items else c.written;
      },
      done,
    )

-- What a read with a buffer of some bytes does: it brings bytes from the front of the stream, at least
-- one, and the rest of the stream stays.
pub record Brings (size : ℕ) (c : Conn) (items : Bytes) : Type 0 where
  pub is_read : (read size c).1 ≡ bytes items
  pub in_front : c.incoming ≡ items ++ (read size c).0.incoming
  pub some_byte : 0 < length items
  pub fits : length items ≤ size
  pub same_ending : (read size c).0.ending ≡ c.ending
  pub same_results : (read size c).0.write_results ≡ c.write_results
  pub same_written : (read size c).0.written ≡ c.written

segment-bounds :
    (size : ℕ) (ks : List ℕ) → 0 < size → (0 < segment size ks) × (segment size ks ≤ size)
segment-bounds size [] h = omega arith
segment-bounds size (k ∷ ks) h = ground arith

pub read_empty : (size : ℕ) (c : Conn) → c.incoming ≡ [] → read size c ≡ (c, ended c.ending)
unfolding read
read_empty size c e = rw e refl

pub read-Brings-segment :
    (size : ℕ) (c : Conn) (b : ℕ) (bs : Bytes)
    → 0 < size
    → c.incoming ≡ b ∷ bs
    → Brings size c (take (segment size c.segments) (b ∷ bs))
unfolding read
read-Brings-segment size c b bs h e =
    let n = segment size c.segments in
    record {
      is_read = rw e refl;
      in_front = e ∙ sym (take-append-drop n (b ∷ bs)) ∙ ap (λ t. take n (b ∷ bs) ++ t) (rw e refl);
      some_byte = omega (arith, length-take n (b ∷ bs), segment-bounds size c.segments h);
      fits = omega (arith, length-take n (b ∷ bs), segment-bounds size c.segments h);
      same_ending = rw e refl;
      same_results = rw e refl;
      same_written = rw e refl;
    }

pub read-Brings :
    (size : ℕ) (c : Conn) (b : ℕ) (bs : Bytes)
    → 0 < size
    → c.incoming ≡ b ∷ bs
    → (items : Bytes) × Brings size c items
read-Brings size c b bs h e =
    (take (segment size c.segments) (b ∷ bs), read-Brings-segment size c b bs h e)

-- A write where none fails.
pub record Wrote (items : Bytes) (c : Conn) : Type 0 where
  pub is_written : (write items c).1 ≡ true
  pub appended : (write items c).0.written ≡ c.written ++ items
  pub still_fine : (write items c).0.write_results ≡ []
  pub same_incoming : (write items c).0.incoming ≡ c.incoming
  pub same_segments : (write items c).0.segments ≡ c.segments
  pub same_end : (write items c).0.ending ≡ c.ending

pub write-Wrote : (items : Bytes) (c : Conn) → c.write_results ≡ [] → Wrote items c
unfolding write
write-Wrote items c e = record {
  is_written = rw e refl;
  appended = rw e refl;
  still_fine = rw e refl;
  same_incoming = refl;
  same_segments = refl;
  same_end = refl;
}

pub list_cases {ℓ} :
    {A : Type ℓ} (xs : List A) → (xs ≡ []) ⊎ ((x : A) × (ys : List A) × (xs ≡ x ∷ ys))
list_cases [] = inl refl
list_cases (x ∷ xs) = inr (x, xs, refl)
