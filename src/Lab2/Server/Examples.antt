-- ===== src/Lab2/Server/Examples.antt =====
-- A server that receives two data packets: the theorem at inputs that meet its hypotheses.
use nssa_ds.Base.{ℕ, ◌≡◌, refl, Bool, true, false, List, [], ◌∷◌}
use nssa_ds.Base.Bytes.{Bytes}
use nssa_ds.Base.Text.{Text, text}
use nssa_ds.Lab2.Packet.{Packet}
use nssa_ds.Lab2.Reliability.{ReliabilityManager}
use nssa_ds.Lab2.Command.{new_command_handler}
use nssa_ds.Lab2.Server.{UdpServer, handle_data_packet, Step, arrives, cleanup, run}
use nssa_ds.Lab2.Server.Unsaved.{AllUnsaved, run-unsaved}

abbrev manager : ReliabilityManager
manager = record {
  packets_sent = 0;
  packets_lost = 0;
  retransmits = 0;
  pending_packets = [];
  packet_timeout = 5;
  max_retransmissions = 2;
  retransmission_timeout = 3;
}

abbrev server : UdpServer
server = record {
  window_size = 4;
  buffer_size = 4096;
  session_timeout = 10;
  handler = new_command_handler;
  rel_mgr = manager;
  sessions = [];
  progress = 0;
}

abbrev packet : ℕ → Packet
packet seq = record {
  type = 1;
  seq_num = seq;
  ack_num = 0;
  payload = 65 ∷ (66 ∷ []);
  checksum = 0;
  window = 0;
  flags = 0;
  timestamp = 5;
}

abbrev nonempty : Text → Bool
nonempty [] = false
nonempty (c ∷ cs) = true

abbrev saves : Text → Bytes → ℕ → Bool
saves name payload offset = nonempty name

abbrev steps : List Step
steps =
    arrives (packet 7) "a" 9 (text "now") true
    ∷ (cleanup 11 ∷ (arrives (packet 8) "a" 12 (text "now") true ∷ []))

run-unsaved_example :
    AllUnsaved (run saves server steps).sessions
    × ((run saves server steps).progress ≡ 0)
    × ((handle_data_packet saves (run saves server steps) (packet 9) "a" 13 true).rel_mgr
        ≡ (run saves server steps).rel_mgr)
run-unsaved_example =
    run-unsaved saves steps server (packet 9) "a" 13 true (λ payload offset. refl) tt
