-- ===== src/Lab2/Reliability.antt =====
-- lab2/internal/infrastructure/network/reliability.go: the packets that wait for an
-- acknowledgment. The socket is outside: whether a write succeeds, and what a read brings, are
-- arguments. A packet is shared with the caller, who sees the checksum that `Serialize` sets;
-- here the pending map holds the packet with that checksum.
pub mod Pending
mod Examples
use nssa_ds.Base.{
  ℕ, zero, suc, ◌+◌, ◌-◌, ◌%◌, ◌^◌, ◌≤◌, ◌<◌, Bool, true, false, List, [], ◌∷◌, Option, none, some,
  leb, ◌==◌, if◌then◌else◌,
}
use nssa_ds.Base.Map.{Key, nat_key, lookup, insert, erase}
use nssa_ds.Base.Result.{Result, ok, err, panic}
use nssa_ds.Base.Bytes.{Bytes, Slice}
use nssa_ds.Lab2.Packet.{Packet, DecodeError, serialize, deserialize_packet}
use nssa_ds.Lab2.PacketType
use nssa_ds.Lab2.Window.{u32, is_due}

-- `max_retransmissions` is an int that the code compares with 0 only; a negative one acts as 0.
pub record ReliabilityManager : Type 0 where
  pub packets_sent : ℕ
  pub packets_lost : ℕ
  pub retransmits : ℕ
  pub pending_packets : List (ℕ × Packet)
  pub packet_timeout : ℕ
  pub max_retransmissions : ℕ
  pub retransmission_timeout : ℕ

unfoldable pub new_reliability_manager : ℕ → ℕ → ℕ → ReliabilityManager
new_reliability_manager packet_timeout retransmission_timeout max_retransmissions = record {
  packets_sent = 0;
  packets_lost = 0;
  retransmits = 0;
  pending_packets = [];
  packet_timeout = packet_timeout;
  max_retransmissions = max_retransmissions;
  retransmission_timeout = retransmission_timeout;
}

-- The new state, the bytes for the socket, and whether the write succeeded.
unfoldable pub send_packet : ReliabilityManager → Packet → Bool → ReliabilityManager × Bytes × Bool
send_packet rm p written =
    let (sent, bytes) = serialize p in
    (
      record rm {
        pending_packets = insert p.seq_num sent rm.pending_packets;
        packets_sent = (rm.packets_sent + 1) % u32;
      },
      bytes,
      written,
    )

pub data ReceiveError : Type 0 where
  read_failed : ReceiveError
  decode_failed : DecodeError → ReceiveError

-- `if packet.Type == PacketTypeAck { delete(rm.pendingPackets, packet.AckNum) }`
unfoldable pub settle : ReliabilityManager → Packet → ReliabilityManager
settle rm p =
    if p.type == PacketType.ack
    then record rm { pending_packets = erase p.ack_num rm.pending_packets }
    else rm

unfoldable pub receive_decoded :
    ReliabilityManager → Result DecodeError Packet → ReliabilityManager × Result ReceiveError Packet
receive_decoded rm (ok p) = (settle rm p, ok p)
receive_decoded rm (err e) = (rm, err (decode_failed e))
receive_decoded rm panic = (rm, panic)

-- `none` is a failed read; else the part of the buffer that was filled.
unfoldable pub receive_packet :
    ReliabilityManager → Option Slice → ReliabilityManager × Result ReceiveError Packet
receive_packet rm none = (rm, err read_failed)
receive_packet rm (some datagram) = receive_decoded rm (deserialize_packet datagram)

unfoldable pub get_retransmit_count : Packet → ℕ
get_retransmit_count p = 0

pub record Sweep : Type 0 where
  pub kept : List (ℕ × Packet)
  pub lost : ℕ
  pub resent : ℕ

-- The loop of `checkRetransmissions` in the order of the list. `written` says of a sequence number
-- whether the write of its packet succeeds.
unfoldable pub sweep : ReliabilityManager → ℕ → (ℕ → Bool) → List (ℕ × Packet) → Sweep
sweep rm now written [] = record { kept = []; lost = 0; resent = 0 }
sweep rm now written ((seq, p) ∷ rest) =
    let after = sweep rm now written rest in
    let sent : Packet = (serialize p).0 in
    if is_due now rm.retransmission_timeout p
    then (if leb rm.max_retransmissions (get_retransmit_count p)
        then record after { lost = after.lost + 1 }
        else if written seq
        then record after {
          kept = (seq, record sent { timestamp = now }) ∷ after.kept;
          resent = after.resent + 1;
        }
        else record after { kept = (seq, sent) ∷ after.kept })
    else record after { kept = (seq, p) ∷ after.kept }

unfoldable pub check_retransmissions : ReliabilityManager → ℕ → (ℕ → Bool) → ReliabilityManager
check_retransmissions rm now written =
    let after = sweep rm now written rm.pending_packets in
    record rm {
      pending_packets = after.kept;
      packets_lost = (rm.packets_lost + after.lost) % u32;
      retransmits = (rm.retransmits + after.resent) % u32;
    }

-- The ticks of `retransmissionLoop` until it is stopped: the time, and the writes that succeed.
unfoldable pub retransmission_loop : ReliabilityManager → List (ℕ × (ℕ → Bool)) → ReliabilityManager
retransmission_loop rm [] = rm
retransmission_loop rm ((now, written) ∷ ticks) =
    retransmission_loop (check_retransmissions rm now written) ticks

unfoldable pub get_statistics : ReliabilityManager → ℕ × ℕ × ℕ
get_statistics rm = (rm.packets_sent, rm.packets_lost, rm.retransmits)

-- `below` is `rand.Float64() < lossRate`.
unfoldable pub simulate_packet_loss : ReliabilityManager → Bool → ReliabilityManager
simulate_packet_loss rm below =
    if below then record rm { packets_lost = (rm.packets_lost + 1) % u32 } else rm
