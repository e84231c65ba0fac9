-- ===== src/Lab2/Server.antt =====
-- lab2/internal/infrastructure/network/udp_server.go: the handlers of packets and the sessions. A
-- session's key `addr_seq` is the pair of both. The file manager and the socket are outside: `saves` tells whether
-- SaveFile succeeds for a name, data and an offset, and `written` whether a write does. `progress` is what was
-- last reported to the performance monitor.
pub mod Unsaved
mod Examples
use nssa_ds.Base.{
  ℕ, ◌+◌, ◌-◌, ◌%◌, ◌^◌, ◌≡◌, Bool, true, false, List, [], ◌∷◌, Option, none, some, String, length,
  ltb, ◌==◌, if◌then◌else◌, ◌&&◌,
}
use nssa_ds.Base.Map.{Key, pair_key, lookup, insert, erase}
use nssa_ds.Base.Bytes.{Bytes}
use nssa_ds.Base.Text.{Text, text}
use nssa_ds.Lab2.Packet.{Packet, new_packet, new_ack_packet}
use nssa_ds.Lab2.PacketType
use nssa_ds.Lab2.Window.{u32}
use nssa_ds.Lab2.Reliability.{ReliabilityManager, send_packet}
use nssa_ds.Lab2.Command.{CommandHandler, reply}

pub record TransferSession : Type 0 where
  pub file_name : Text
  pub client_addr : String
  pub transferred : ℕ
  pub last_update : ℕ
  pub window_size : ℕ
  pub buffer_size : ℕ

-- `window_size` and `buffer_size` are the values that `udpConfig` has for a session.
pub record UdpServer : Type 0 where
  pub window_size : ℕ
  pub buffer_size : ℕ
  pub session_timeout : ℕ
  pub handler : CommandHandler
  pub rel_mgr : ReliabilityManager
  pub sessions : List ((String × ℕ) × TransferSession)
  pub progress : ℕ

abbrev pub send : UdpServer → Packet → Bool → UdpServer
send s p written = record s { rel_mgr = (send_packet s.rel_mgr p written).0 }

-- `now` is the time of the answer in nanoseconds, and `now_text` its RFC 3339 form.
unfoldable pub handle_command : UdpServer → Packet → ℕ → Text → Bool → UdpServer
handle_command s p now now_text written =
    send s
      (new_packet PacketType.response ((p.seq_num + 1) % u32) (reply s.handler p.payload now_text)
        now)
      written

abbrev pub new_session : UdpServer → String → ℕ → TransferSession
new_session s addr now = record {
  file_name = [];
  client_addr = addr;
  transferred = 0;
  last_update = now;
  window_size = s.window_size;
  buffer_size = s.buffer_size;
}

abbrev pub found_or_new : Option TransferSession → TransferSession → TransferSession
found_or_new none fresh = fresh
found_or_new (some session) fresh = session

unfoldable pub handle_data_packet :
    (Text → Bytes → ℕ → Bool) → UdpServer → Packet → String → ℕ → Bool → UdpServer
handle_data_packet saves s p addr now written =
    let session : TransferSession =
      found_or_new (lookup (addr, p.seq_num) s.sessions) (new_session s addr now) in
    let transferred = (session.transferred + length p.payload) % 2 ^ 64 in
    let saved = saves session.file_name p.payload p.seq_num in
    let after : TransferSession =
      if saved then record session { transferred = transferred; last_update = now } else session in
    let s1 : UdpServer = record s { sessions = insert (addr, p.seq_num) after s.sessions } in
    if saved
    then record (send s1 (new_ack_packet p.seq_num ((p.seq_num + 1) % u32) s.window_size) written) {
      progress = transferred;
    }
    else s1

unfoldable pub handle_syn_packet : UdpServer → Packet → ℕ → Bool → UdpServer
handle_syn_packet s p now written =
    send s (new_packet PacketType.ack ((p.seq_num + 1) % u32) (text "SYN-ACK") now) written

unfoldable pub handle_fin_packet : UdpServer → Packet → String → ℕ → Bool → UdpServer
handle_fin_packet s p addr now written =
    send (record s { sessions = erase (addr, p.seq_num) s.sessions })
      (new_packet PacketType.ack ((p.seq_num + 1) % u32) (text "FIN-ACK") now) written

-- The branches of the switch; the types that it does not name, and acknowledgments, do nothing.
unfoldable pub handle_packet :
    (Text → Bytes → ℕ → Bool) → UdpServer → Packet → String → ℕ → Text → Bool → UdpServer
handle_packet saves s p addr now now_text written =
    if p.type == PacketType.command
    then handle_command s p now now_text written
    else if p.type == PacketType.data_packet
    then handle_data_packet saves s p addr now written
    else if p.type == PacketType.syn
    then handle_syn_packet s p now written
    else if p.type == PacketType.fin
    then handle_fin_packet s p addr now written
    else s

unfoldable pub drop_expired_sessions :
    ℕ → ℕ → List ((String × ℕ) × TransferSession) → List ((String × ℕ) × TransferSession)
drop_expired_sessions now timeout [] = []
drop_expired_sessions now timeout ((key, session) ∷ rest) =
    if ltb timeout (now - session.last_update)
    then drop_expired_sessions now timeout rest
    else (key, session) ∷ drop_expired_sessions now timeout rest

unfoldable pub cleanup_expired_sessions : UdpServer → ℕ → UdpServer
cleanup_expired_sessions s now = record s {
  sessions = drop_expired_sessions now s.session_timeout s.sessions;
}

-- What happens to a server: a packet that the loop of `Start` has read, or the ticker of `cleanupRoutine`.
pub data Step : Type 0 where
  arrives : Packet → String → ℕ → Text → Bool → Step
  cleanup : ℕ → Step

unfoldable pub step : (Text → Bytes → ℕ → Bool) → UdpServer → Step → UdpServer
step saves s (arrives p addr now now_text written) =
    handle_packet saves s p addr now now_text written
step saves s (cleanup now) = cleanup_expired_sessions s now

unfoldable pub run : (Text → Bytes → ℕ → Bool) → UdpServer → List Step → UdpServer
run saves s [] = s
run saves s (x ∷ xs) = run saves (step saves s x) xs
