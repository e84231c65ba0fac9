-- ===== src/Lab4/Server/Examples.antt =====
-- An echo service without JSON, whose listener gets two datagrams.
use nssa_ds.Base.{ℕ, ◌≡◌, refl, List, [], ◌∷◌, Option, none, some, arith}
use nssa_ds.Base.Map.{string_key, lookup}
use nssa_ds.Base.Result.{ok}
use nssa_ds.Base.Bytes.{Bytes}
use nssa_ds.Base.Text.{Text, text}
use nssa_ds.Lab4.Server.{
  Setup, Task, Listener, ServiceStats, Reply, answer, answer_error, refusal, parse_request,
  process_request,
}
use nssa_ds.Lab4.Server.Average.{Counts}
use nssa_ds.Lab4.Server.Handled.{outcome, Handled}
use nssa_ds.Lab4.Server.Serve.{serve, replies, serve-Handled}
use nssa_ds.Lab4.Server.Late.{late, late-Handled}
use mathlib.Core.Option.{bind}

abbrev reply_bytes : Reply → Option Bytes
reply_bytes (answer id service items) = some items
reply_bytes (answer_error id service items error) = some items
reply_bytes (refusal id service error) = some error

abbrev echo : Setup
echo = record {
  name = "echo";
  service = text "echo";
  max_packet_size = 8;
  unmarshal = λ items. none;
  marshal = reply_bytes;
  handle_request =
      λ req. ok (record { id = req.id; service = text "echo"; body = req.body; error = none });
}

abbrev task : Text → ℕ → Task
task addr took = record { size = 0; client_addr = addr; uuid = text "u"; started = 0; took = took }

abbrev new_stats : ServiceStats
new_stats = record {
  requests_received = 0;
  requests_processed = 0;
  errors = 0;
  avg_response_time = 0;
  last_request = 0;
}

abbrev listener : Listener
listener = record {
  buffer = 0 ∷ (0 ∷ (0 ∷ (0 ∷ [])));
  tasks = [];
  stats = ("echo", new_stats) ∷ [];
  sent = [];
}

abbrev arrivals : List (Task × Bytes)
arrivals = (task (text "a") 5, 1 ∷ (2 ∷ [])) ∷ ((task (text "b") 8, 3 ∷ (4 ∷ (5 ∷ []))) ∷ [])

none_yet : Counts 0 0 new_stats
none_yet = record {
  all_received = refl;
  all_processed = refl;
  not_above = omega arith;
  not_below = omega arith;
}

there : lookup "echo" listener.stats ≡ some new_stats
unfolding lookup
there = refl

serve-Handled_example :
    (l' : Listener) × (serve echo arrivals listener ≡ some l')
    × Handled echo 2 13 listener
        ((text "a", 1 ∷ (2 ∷ [])) ∷ ((text "b", 3 ∷ (4 ∷ (5 ∷ []))) ∷ []))
        l'
unfolding replies outcome bind parse_request process_request
serve-Handled_example =
    serve-Handled echo arrivals 0 0 listener new_stats
      ((text "a", 1 ∷ (2 ∷ [])) ∷ ((text "b", 3 ∷ (4 ∷ (5 ∷ []))) ∷ [])) refl there none_yet
      (omega arith) (omega arith) refl

late-Handled_example :
    (l' : Listener) × (late echo
        (task (text "a") 5)
        (1 ∷ (2 ∷ []))
        (task (text "b") 8)
        (3 ∷ (4 ∷ (5 ∷ [])))
        listener
      ≡ some l')
    × (l'.sent ≡ (text "a", 3 ∷ (4 ∷ [])) ∷ ((text "b", 3 ∷ (4 ∷ (5 ∷ []))) ∷ []))
    × (l'.tasks ≡ [])
unfolding outcome parse_request process_request
late-Handled_example =
    late-Handled echo (task (text "a") 5) (task (text "b") 8) (1 ∷ (2 ∷ [])) (3 ∷ (4 ∷ (5 ∷ []))) 0
      0 listener new_stats ((text "a", 3 ∷ (4 ∷ [])) ∷ []) ((text "b", 3 ∷ (4 ∷ (5 ∷ []))) ∷ [])
      refl there none_yet (omega arith) (omega arith) (omega arith) refl refl
