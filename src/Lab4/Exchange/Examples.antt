-- ===== src/Lab4/Exchange/Examples.antt =====
-- An echo through the server and back, and a request for help that is not answered.
use nssa_ds.Base.{inr, ◌≡◌, refl, ap, [], ◌∷◌, none, some, arith, length}
use nssa_ds.Base.Map.{string_key, lookup}
use nssa_ds.Base.Text.{text, text_eq}
use nssa_ds.Lab4.Server.{Setup, Task, Listener, ServiceStats, Parsed, Request, receive, run_task}
use nssa_ds.Lab4.Server.Average.{Counts}
use nssa_ds.Lab4.Services.{Encoder, echo_service, stats_service, handle_help}
use nssa_ds.Lab4.Client.{Wire, Decoder, start, new_udp_client, receive_datagram, run}
use nssa_ds.Lab4.Exchange.{Exchanged, handle_request-Exchanged}
use nssa_ds.Lab4.Exchange.Unanswered.{stats_service-unanswered, help}

-- The request and the response of the example, on the wire.
abbrev asked : Parsed
asked = record { id = text "7"; command = []; items = text "hi" }

abbrev echoed : Wire
echoed = record { id = text "7"; service = text "echo"; items = text "ECHO: hi"; error = [] }

abbrev setup : Setup
setup = record {
  name = "echo";
  service = text "echo";
  max_packet_size = 64;
  unmarshal = λ items. some asked;
  marshal = λ r. some (text "json");
  handle_request = echo_service;
}

abbrev decoder : Wire → Decoder
decoder w = record { unmarshal = λ items. some w; errorf = λ t. t }

abbrev task : Task
task = record { size = 4; client_addr = text "a"; uuid = text "u"; started = 0; took = 5 }

abbrev new_stats : ServiceStats
new_stats = record {
  requests_received = 0;
  requests_processed = 0;
  errors = 0;
  avg_response_time = 0;
  last_request = 0;
}

abbrev listener : Listener
listener = record { buffer = []; tasks = []; stats = ("echo", new_stats) ∷ []; sent = [] }

none_yet : Counts 0 0 new_stats
none_yet = record {
  all_received = refl;
  all_processed = refl;
  not_above = omega arith;
  not_below = omega arith;
}

there : lookup "echo" listener.stats ≡ some new_stats
unfolding lookup
there = refl

handle_request-Exchanged_example :
    (l' : Listener) × (run_task setup (receive setup task (text "json") listener) ≡ some l')
    × Exchanged
        (λ r. some (text "json"))
        (text "7")
        []
        (text "hi")
        (text "json")
        listener
        l'
        task
        (text "json")
        echoed
        (decoder echoed)
        new_udp_client
unfolding echo_service
handle_request-Exchanged_example =
    handle_request-Exchanged (λ r. some (text "json")) setup (decoder echoed) task (text "7") []
      (text "hi") (text "json") (text "json")
      (record { id = text "7"; service = text "echo"; body = text "ECHO: hi"; error = none })
      listener new_stats 0 0 new_udp_client (λ e. omega (arith, ap length e)) refl refl
      (omega arith) refl refl refl refl (omega arith) refl there none_yet (omega arith)
      (omega arith)

abbrev encoder : Encoder
encoder = record { one = λ name stats. none; all = λ stats. none; cause = [] }

abbrev helped : Wire
helped = record { id = []; service = text "stats"; items = text "commands"; error = [] }

abbrev help_request : Request
help_request = record { id = text "7"; command = text "HELP"; body = []; client_addr = text "a" }

stats_service-unanswered_example :
    receive_datagram (decoder helped) (text "json") (run (start (text "7") ∷ []) new_udp_client)
    ≡ run (start (text "7") ∷ []) new_udp_client
unfolding stats_service handle_help text_eq
stats_service-unanswered_example =
    stats_service-unanswered encoder (text "commands") [] help_request
      (record { id = []; service = text "stats"; body = text "commands"; error = none })
      (decoder helped) (text "json") (start (text "7") ∷ []) help refl (inr refl)
      ((λ e. omega (arith, ap length e)), tt)
