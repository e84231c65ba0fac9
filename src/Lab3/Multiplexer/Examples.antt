-- ===== src/Lab3/Multiplexer/Examples.antt =====
-- A multiplexer with a client or two: the theorems at inputs that meet their hypotheses.
use nssa_ds.Base.{◌*◌, ◌^◌, refl, true, [], ◌∷◌, none, some, arith}
use nssa_ds.Base.Map.{string_key}
use nssa_ds.Base.Text.{text}
use nssa_ds.Lab3.Multiplexer.{ServerConfig, ClientConnection, Multiplexer, handle_client_write}
use nssa_ds.Lab3.Multiplexer.Loop.{Ready, ready, nothing_ready, run_loop}
use nssa_ds.Lab3.Multiplexer.Limits.{IsMultiplexer, run_loop-IsMultiplexer}
use nssa_ds.Lab3.Multiplexer.Transfer.{IsIdle, AllIdle, run_loop-AllIdle}

-- The default configuration: a ping timeout of 30 seconds.
abbrev config : ServerConfig
config = record {
  max_clients = 2;
  ping_timeout = 30 * 10 ^ 9;
  chunk_size = 1024;
  select_timeout = 10 ^ 7;
}

abbrev client : ClientConnection
client = record { last_ping = 5; is_active = true; chunk_size = 512; file_transfer = none; fd = 7 }

abbrev one_client : Multiplexer
one_client = record { clients = ("a", client) ∷ []; config = config; running = true }

abbrev connection : Ready
connection = record {
  listener_ready = true;
  accepted = true;
  client_id = "b";
  new_fd = some 8;
  readable = λ fd. true;
  writable = λ fd. true;
  reads = λ id. some (text "HELP\n");
}

run_loop-IsMultiplexer_example :
    IsMultiplexer config
      (run_loop one_client ((9, ready connection) ∷ ((10 ^ 11, nothing_ready) ∷ []))).0
run_loop-IsMultiplexer_example =
    run_loop-IsMultiplexer config ((9, ready connection) ∷ ((10 ^ 11, nothing_ready) ∷ []))
      one_client (refl, omega arith, (omega arith, tt))

client-IsIdle : IsIdle client
unfolding handle_client_write
client-IsIdle = record { no_transfer = refl; unmoved = refl }

run_loop-AllIdle_example :
    AllIdle (run_loop one_client ((9, ready connection) ∷ ((10 ^ 11, nothing_ready) ∷ []))).0
run_loop-AllIdle_example =
    run_loop-AllIdle ((9, ready connection) ∷ ((10 ^ 11, nothing_ready) ∷ [])) one_client
      (client-IsIdle, tt)
