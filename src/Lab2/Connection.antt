-- ===== src/Lab2/Connection.antt =====
-- lab2/internal/infrastructure/network/udp_connection.go: a sliding window for each peer. A peer is
-- its `addr.String()`; `time.Now()` is an argument, in nanoseconds.
pub mod Sessions
use nssa_ds.Base.{
  ℕ, ◌+◌, ◌-◌, ◌*◌, ◌^◌, Bool, List, [], ◌∷◌, Option, none, some, String, ltb, if◌then◌else◌,
}
use nssa_ds.Base.Map.{Key, string_key, lookup, insert}
use nssa_ds.Lab2.Packet.{Packet, serialize}
use nssa_ds.Lab2.Window.{SlidingWindow, new_sliding_window, can_send, add_packet, ack_packet}
use nssa_ds.Lab2.Reliability.{ReliabilityManager, send_packet}

pub record ClientSession : Type 0 where
  pub addr : String
  pub last_seen : ℕ
  pub window : SlidingWindow
  pub seq_num : ℕ
  pub ack_num : ℕ

-- `window_size` is `udpConfig.WindowSize`.
pub record ConnectionManager : Type 0 where
  pub window_size : ℕ
  pub window : SlidingWindow
  pub timeout : ℕ
  pub clients : List (String × ClientSession)

unfoldable pub new_connection_manager : ℕ → ℕ → ConnectionManager
new_connection_manager window_size packet_timeout = record {
  window_size = window_size;
  window = new_sliding_window window_size;
  timeout = packet_timeout;
  clients = [];
}

unfoldable pub set_packet_timeout : ConnectionManager → ℕ → ConnectionManager
set_packet_timeout cm timeout = record cm { timeout = timeout }

unfoldable pub set_window_size : ConnectionManager → ℕ → ConnectionManager
set_window_size cm size = record cm {
  window_size = size;
  window = record (cm.window) { window_size = size };
}

abbrev pub fresh_session : ConnectionManager → String → ℕ → ClientSession
fresh_session cm addr now = record {
  addr = addr;
  last_seen = now;
  window = new_sliding_window cm.window_size;
  seq_num = 0;
  ack_num = 0;
}

abbrev pub session_or : Option ClientSession → ClientSession → ClientSession
session_or none s = s
session_or (some s) _ = s

-- The session is shared with the map: a caller that changes it stores it again by `put_session`.
unfoldable pub get_or_create_client :
    ConnectionManager → String → ℕ → ConnectionManager × ClientSession
get_or_create_client cm addr now =
    let found = session_or (lookup addr cm.clients) (fresh_session cm addr now) in
    let session : ClientSession = record found { last_seen = now } in
    (record cm { clients = insert addr session cm.clients }, session)

abbrev pub put_session : ConnectionManager → String → ClientSession → ConnectionManager
put_session cm addr session = record cm { clients = insert addr session cm.clients }

pub data SendOutcome : Type 0 where
  sent write_failed window_full : SendOutcome

-- The window keeps the packet that `SendPacket` serializes.
unfoldable pub send_reliable_packet :
    ConnectionManager
    → ReliabilityManager
    → Packet
    → String
    → ℕ
    → Bool
    → ConnectionManager × ReliabilityManager × SendOutcome
send_reliable_packet cm rm p addr now written =
    let (cm1, session) = get_or_create_client cm addr now in
    let (rm1, _, done) = send_packet rm p written in
    if can_send session.window
    then (
      put_session cm1 addr (record session { window = add_packet session.window (serialize p).0 }),
      rm1,
      (if done then sent else write_failed),
    )
    else (cm1, rm, window_full)

unfoldable pub handle_ack_packet : ConnectionManager → Packet → String → ℕ → ConnectionManager
handle_ack_packet cm p addr now =
    let (cm1, session) = get_or_create_client cm addr now in
    put_session cm1 addr
      (record session { window = ack_packet session.window p.ack_num; ack_num = p.ack_num })

-- 5 * time.Minute
abbrev pub client_expiry : ℕ
client_expiry = 5 * 60 * 10 ^ 9

unfoldable pub drop_expired : ℕ → List (String × ClientSession) → List (String × ClientSession)
drop_expired now [] = []
drop_expired now ((key, s) ∷ rest) =
    if ltb client_expiry (now - s.last_seen)
    then drop_expired now rest
    else (key, s) ∷ drop_expired now rest

unfoldable pub cleanup_expired_clients : ConnectionManager → ℕ → ConnectionManager
cleanup_expired_clients cm now = record cm { clients = drop_expired now cm.clients }

abbrev client_statistics : Option ClientSession → ℕ × ℕ × ℕ
client_statistics none = (0, 0, 0)
client_statistics (some s) = (s.seq_num, s.ack_num, s.window.window_size)

pub get_client_statistics : ConnectionManager → String → ℕ × ℕ × ℕ
get_client_statistics cm addr = client_statistics (lookup addr cm.clients)
