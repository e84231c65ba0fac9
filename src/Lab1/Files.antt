-- ===== src/Lab1/Files.antt =====
-- lab1/internal/infrastructure/repository/file_manager.go: files in a directory, and the sessions of
-- their transfers. The file of that name in lab2 has the same code. The disk is a map from paths to
-- contents, and `faults` are the errors of the operating system, one entry for each call.
use nssa_ds.Base.{
  ℕ, ◌-◌, ◌*◌, ◌^◌, Bool, ◌&&◌, List, [], ◌∷◌, ◌++◌, Option, none, some, ltb, if◌then◌else◌, length,
}
use nssa_ds.Base.Map.{lookup, insert, erase}
use nssa_ds.Base.Result.{Result, ok, err}
use nssa_ds.Base.Bytes.{Bytes}
use nssa_ds.Base.Text.{Text, text, text_key, text_eq}

pub record TransferSession : Type 0 where
  pub id : Text
  pub client_addr : Text
  pub file_name : Text
  pub file_size : ℕ
  pub transferred : ℕ
  pub is_upload : Bool
  pub last_update : ℕ
  pub file_path : Text

-- What the operating system does in one call: nothing fails, or one operation does, with its text.
pub data Fault : Type 0 where
  no_fault : Fault
  open_fault seek_fault write_fault : Text → Fault

-- `join` is filepath.Join.
pub record FileManager : Type 0 where
  pub upload_dir : Text
  pub join : Text → Text → Text
  pub disk : List (Text × Bytes)
  pub faults : List Fault
  pub sessions : List (Text × TransferSession)

unfoldable pub new_file_manager :
    Text → (Text → Text → Text) → List (Text × Bytes) → List Fault → FileManager
new_file_manager upload_dir join disk faults = record {
  upload_dir = upload_dir;
  join = join;
  disk = disk;
  faults = faults;
  sessions = [];
}

abbrev pub path_of : FileManager → Text → Text
path_of fm name = fm.join fm.upload_dir name

abbrev pub contents : Option Bytes → Bytes
contents none = []
contents (some bytes) = bytes

abbrev pub next_fault : List Fault → Fault
next_fault [] = no_fault
next_fault (f ∷ _) = f

abbrev pub later : List Fault → List Fault
later [] = []
later (_ ∷ fs) = fs

-- O_CREATE and O_APPEND: the file is there after the open, and what is written goes to its end,
-- whatever the offset.
abbrev pub put_bytes : FileManager → Text → Bytes → FileManager
put_bytes fm name bytes = record fm {
  disk = insert (path_of fm name) (contents (lookup (path_of fm name) fm.disk) ++ bytes) fm.disk;
}

abbrev pub save_with : Fault → FileManager → Text → Bytes → ℕ → FileManager × Result Text (Unit {0})
save_with no_fault fm name bytes offset = (put_bytes fm name bytes, ok tt)
save_with (open_fault e) fm name bytes offset = (fm, err (text "failed to open file: " ++ e))
save_with (seek_fault e) fm name bytes offset =
    if ltb 0 offset
    then (put_bytes fm name [], err (text "failed to seek to offset: " ++ e))
    else (put_bytes fm name bytes, ok tt)
save_with (write_fault e) fm name bytes offset =
    (put_bytes fm name [], err (text "failed to write data: " ++ e))

unfoldable pub save_file : FileManager → Text → Bytes → ℕ → FileManager × Result Text (Unit {0})
save_file fm name bytes offset =
    save_with (next_fault fm.faults) (record fm { faults = later fm.faults }) name bytes offset

abbrev pub found {ℓ} : {A : Type ℓ} → Text → Option A → Result Text A
found message none = err message
found message (some a) = ok a

-- A missing file is the error `missing` of os.ReadFile, os.Stat and os.Remove.
unfoldable pub read_file : FileManager → Text → Text → Result Text Bytes
read_file fm name missing =
    found (text "failed to read file: " ++ missing) (lookup (path_of fm name) fm.disk)

pub record FileInfo : Type 0 where
  pub name : Text
  pub size : ℕ
  pub path : Text

abbrev pub info : FileManager → Text → Bytes → FileInfo
info fm name bytes = record { name = name; size = length bytes; path = path_of fm name }

abbrev pub info_of : FileManager → Text → Text → Option Bytes → Result Text FileInfo
info_of fm name missing none = err (text "failed to get file info: " ++ missing)
info_of fm name missing (some bytes) = ok (info fm name bytes)

unfoldable pub get_file_info : FileManager → Text → Text → Result Text FileInfo
get_file_info fm name missing = info_of fm name missing (lookup (path_of fm name) fm.disk)

abbrev pub deleted : FileManager → Text → Text → Option Bytes → FileManager × Result Text (Unit {0})
deleted fm name missing none = (fm, err (text "failed to delete file: " ++ missing))
deleted fm name missing (some _) = (record fm { disk = erase (path_of fm name) fm.disk }, ok tt)

unfoldable pub delete_file : FileManager → Text → Text → FileManager × Result Text (Unit {0})
delete_file fm name missing = deleted fm name missing (lookup (path_of fm name) fm.disk)

unfoldable pub create_transfer_session : FileManager → TransferSession → FileManager
create_transfer_session fm session = record fm { sessions = insert session.id session fm.sessions }

-- The range over the map, in the order of the list.
unfoldable pub find_session :
    Text → Text → List (Text × TransferSession) → Result Text TransferSession
find_session client_addr file_name [] = err (text "session not found")
find_session client_addr file_name ((id, session) ∷ rest) =
    if text_eq session.client_addr client_addr && text_eq session.file_name file_name
    then ok session
    else find_session client_addr file_name rest

unfoldable pub get_transfer_session : FileManager → Text → Text → Result Text TransferSession
get_transfer_session fm client_addr file_name = find_session client_addr file_name fm.sessions

abbrev pub updated :
    FileManager → TransferSession → Option TransferSession → FileManager × Result Text (Unit {0})
updated fm session none = (fm, err (text "session not found"))
updated fm session (some _) =
    (record fm { sessions = insert session.id session fm.sessions }, ok tt)

unfoldable pub update_transfer_session :
    FileManager → TransferSession → FileManager × Result Text (Unit {0})
update_transfer_session fm session = updated fm session (lookup session.id fm.sessions)

unfoldable pub delete_transfer_session : FileManager → Text → FileManager
delete_transfer_session fm id = record fm { sessions = erase id fm.sessions }

-- 5*time.Minute
abbrev pub session_expiry : ℕ
session_expiry = 5 * 60 * 10 ^ 9

unfoldable pub expired_sessions : ℕ → List (Text × TransferSession) → List Text
expired_sessions now [] = []
expired_sessions now ((id, session) ∷ rest) =
    if ltb session_expiry (now - session.last_update)
    then id ∷ expired_sessions now rest
    else expired_sessions now rest

unfoldable pub delete_all :
    List Text → List (Text × TransferSession) → List (Text × TransferSession)
delete_all [] sessions = sessions
delete_all (id ∷ ids) sessions = delete_all ids (erase id sessions)

unfoldable pub cleanup_expired_sessions : FileManager → ℕ → FileManager
cleanup_expired_sessions fm now = record fm {
  sessions = delete_all (expired_sessions now fm.sessions) fm.sessions;
}
