-- ===== src/Lab3/Multiplexer.antt =====
-- lab3/internal/infrastructure/network/select_multiplexer.go, with the connection, the transfer and
-- the constants of lab3/internal/domain/command.go. The sockets are outside: what Accept, File, Read
-- and select bring is an argument. A time.Duration and an int64 are bit patterns, and a time is in
-- nanoseconds. The goroutine that answers a command is the pair of the client and the command.
pub mod Loop
pub mod Limits
pub mod Transfer
pub mod Pings
pub mod Trim
mod Examples
use nssa_ds.Base.{
  ℕ, ◌+◌, ◌-◌, ◌*◌, ◌/◌, ◌%◌, ◌^◌, Bool, true, false, not, ◌&&◌, ◌||◌, List, [], ◌∷◌, ◌++◌, Option,
  none, some, String, length, ltb, leb, ◌==◌, if◌then◌else◌,
}
use nssa_ds.Base.Map.{Key, string_key, lookup, insert, erase}
use nssa_ds.Base.Text.{Text}

abbrev pub default_chunk_size : ℕ
default_chunk_size = 1024

-- 10 * time.Millisecond
abbrev pub default_select_timeout : ℕ
default_select_timeout = 10 * 10 ^ 6

abbrev pub max_chunk_size : ℕ
max_chunk_size = 8192

abbrev pub min_chunk_size : ℕ
min_chunk_size = 512

abbrev pub w64 : ℕ
w64 = 2 ^ 64

pub record ServerConfig : Type 0 where
  pub max_clients : ℕ
  pub ping_timeout : ℕ
  pub chunk_size : ℕ
  pub select_timeout : ℕ

pub record TransferSession : Type 0 where
  pub file_size : ℕ
  pub transferred : ℕ
  pub is_active : Bool

pub record ClientConnection : Type 0 where
  pub last_ping : ℕ
  pub is_active : Bool
  pub chunk_size : ℕ
  pub file_transfer : Option TransferSession
  pub fd : ℕ

pub record Multiplexer : Type 0 where
  pub clients : List (String × ClientConnection)
  pub config : ServerConfig
  pub running : Bool

-- `Start` up to its listener.
unfoldable pub start : Multiplexer → ServerConfig → Multiplexer
start sm config = record sm {
  config = record config {
    select_timeout =
        if config.select_timeout == 0 then default_select_timeout else config.select_timeout;
    chunk_size = if config.chunk_size == 0 then default_chunk_size else config.chunk_size;
  };
  running = true;
}

-- `if chunkSize < MinChunkSize`, `if chunkSize > MaxChunkSize`
abbrev pub clamp : ℕ → ℕ
clamp size =
    if ltb size min_chunk_size
    then min_chunk_size
    else if ltb max_chunk_size size
    then max_chunk_size
    else size

-- `ping * 10` wraps. Where it is negative, so are its milliseconds, and the size is raised to the least.
unfoldable pub calculate_optimal_chunk_size : ℕ → ℕ
calculate_optimal_chunk_size ping =
    let target = (ping * 10) % w64 in
    if leb (2 ^ 63) target then min_chunk_size else clamp (target / 10 ^ 6 * (1024 * 1024 / 1000))

pub data Accepted : Type 0 where
  accept_error max_clients_reached descriptor_error new_client : Accepted

abbrev pub fresh_client : ServerConfig → ℕ → ℕ → ClientConnection
fresh_client config now fd = record {
  last_ping = now;
  is_active = true;
  chunk_size = calculate_optimal_chunk_size config.ping_timeout;
  file_transfer = none;
  fd = fd;
}

abbrev pub insert_client : Multiplexer → String → ℕ → Option ℕ → Multiplexer × Accepted
insert_client sm client_id now none = (sm, descriptor_error)
insert_client sm client_id now (some fd) = (
  record sm { clients = insert client_id (fresh_client sm.config now fd) sm.clients },
  new_client,
)

-- `accepted` is whether Accept succeeds, `client_id` is made of the time, and `fd` is the answer of File.
unfoldable pub handle_new_connection :
    Multiplexer → Bool → String → ℕ → Option ℕ → Multiplexer × Accepted
handle_new_connection sm accepted client_id now fd =
    if not accepted
    then (sm, accept_error)
    else if leb sm.config.max_clients (length sm.clients)
    then (sm, max_clients_reached)
    else insert_client sm client_id now fd

unfoldable pub remove_connection : Multiplexer → String → Multiplexer
remove_connection sm client_id = record sm { clients = erase client_id sm.clients }

-- `a >= b` for int64.
abbrev pub s64_ge : ℕ → ℕ → Bool
s64_ge a b = leb ((b + 2 ^ 63) % w64) ((a + 2 ^ 63) % w64)

unfoldable pub advance_transfer : ℕ → TransferSession → TransferSession
advance_transfer chunk_size t =
    let transferred = (t.transferred + chunk_size) % w64 in
    if s64_ge transferred t.file_size
    then record t { transferred = transferred; is_active = false }
    else record t { transferred = transferred }

abbrev pub moved : ℕ → Option TransferSession → Option TransferSession
moved chunk_size none = none
moved chunk_size (some t) = some (advance_transfer chunk_size t)

unfoldable pub handle_file_transfer : ClientConnection → ClientConnection
handle_file_transfer client = record client {
  file_transfer = moved client.chunk_size client.file_transfer;
}

abbrev pub transfers : Option TransferSession → Bool
transfers none = false
transfers (some t) = t.is_active

unfoldable pub handle_client_write : ClientConnection → ClientConnection
handle_client_write client =
    if transfers client.file_transfer then handle_file_transfer client else client

abbrev pub is_blank : ℕ → Bool
is_blank c = (c == 10) || (c == 13) || (c == 32)

abbrev pub keep_before : ℕ → Text → Text
keep_before c [] = if is_blank c then [] else c ∷ []
keep_before c (d ∷ ds) = c ∷ (d ∷ ds)

-- The first loop of `trimString`: a character at the end goes if it is blank and all behind it went.
unfoldable pub trim_end : Text → Text
trim_end [] = []
trim_end (c ∷ cs) = keep_before c (trim_end cs)

unfoldable pub trim_start : Text → Text
trim_start [] = []
trim_start (c ∷ cs) = let rest = trim_start cs in if is_blank c then rest else c ∷ cs

unfoldable pub trim_string : Text → Text
trim_string s = trim_start (trim_end s)
