-- ===== src/Lab1/Transfer/Fetch.antt =====
-- A download, from the file on the server's disk to the client's file: the server answers the request in
-- one round of its loop, and what it writes is the stream of the client.
use nssa_ds.Base.{ℕ, suc, ◌+◌, ◌<◌, ◌≡◌, List, [], ◌∷◌, length}
use nssa_ds.Base.Bytes.{Bytes}
use nssa_ds.Base.Text.{Text, text_key}
use nssa_ds.Lab1.Socket.{Conn, smaller}
use nssa_ds.Lab1.Server.{Server}
use nssa_ds.Lab1.Server.Download.{header}
use nssa_ds.Lab1.Client.{got, Received}

-- The file that the client has, what it has left in the stream, and the success it reports.
pub record Fetched (path : Text) (size : ℕ) (file rest : Bytes) (r : Received) : Type 0 where
  pub filled : r.file ≡ file
  pub left : r.conn.incoming ≡ rest
  pub counted : r.reply ≡ got (record { file_name = path; total_bytes = size; transferred = size })

-- How a download meets the network: the whole header comes with the first read, and `m` bytes more.
pub record Meets (size m : ℕ) (c : Conn) (name : Text) (file : Bytes) : Type 0 where
  pub some_size : 0 < size
  pub no_fault : c.write_results ≡ []
  pub first : ℕ
  pub later : List ℕ
  pub by_segments : c.segments ≡ first ∷ later
  pub amount : smaller size (suc first) ≡ length (header name file) + m
