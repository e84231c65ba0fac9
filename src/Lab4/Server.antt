-- ===== src/Lab4/Server.antt =====
-- lab4/internal/infrastructure/network/udp_server.go: the loop of a listener and the handling of a request.
-- The service, encoding/json and uuid are parameters. The loop has one buffer, and a task has a slice of it.
pub mod Average
pub mod Handled
pub mod Serve
pub mod Late
mod Examples
use nssa_ds.Base.{
  ℕ, ◌+◌, ◌-◌, ◌*◌, ◌/◌, ◌%◌, ◌^◌, Bool, true, false, List, [], ◌∷◌, ◌++◌, Option, none, some,
  String, ltb, ◌==◌, if◌then◌else◌, length, take, drop,
}
use nssa_ds.Base.Map.{string_key, lookup, insert}
use nssa_ds.Base.Result.{Result, ok, err, panic}
use nssa_ds.Base.Bytes.{Bytes}
use nssa_ds.Base.Text.{Text, text}

-- `Service` is the empty string in every request.
pub record Request : Type 0 where
  pub id : Text
  pub command : Text
  pub body : Bytes
  pub client_addr : Text

pub record Response : Type 0 where
  pub id : Text
  pub service : Text
  pub body : Bytes
  pub error : Option Text

pub record ServiceStats : Type 0 where
  pub requests_received : ℕ
  pub requests_processed : ℕ
  pub errors : ℕ
  pub avg_response_time : ℕ
  pub last_request : ℕ

-- The objects that the server gives to json.Marshal, without their time.
pub data Reply : Type 0 where
  answer : (id service items : Text) → Reply
  answer_error : (id service items error : Text) → Reply
  refusal : (id service error : Text) → Reply

-- What json.Unmarshal finds in a request.
pub record Parsed : Type 0 where
  pub id : Text
  pub command : Text
  pub items : Text

pub record Setup : Type 0 where
  pub name : String
  pub service : Text
  pub max_packet_size : ℕ
  pub unmarshal : Bytes → Option Parsed
  pub marshal : Reply → Option Bytes
  pub handle_request : Request → Result Text Response

-- A submitted task: the size of its slice of the buffer and the client. `uuid` is what the task draws;
-- `started` is when it starts and `took` the time until its service has answered.
pub record Task : Type 0 where
  pub size : ℕ
  pub client_addr : Text
  pub uuid : Text
  pub started : ℕ
  pub took : ℕ

pub record Listener : Type 0 where
  pub buffer : Bytes
  pub tasks : List Task
  pub stats : List (String × ServiceStats)
  pub sent : List (Text × Bytes)

abbrev pub w64 : ℕ
w64 = 2 ^ 64

abbrev pub magnitude : ℕ → ℕ
magnitude a = if ltb a (2 ^ 63) then a else w64 - a

-- `a / b` for int64, towards zero. Go panics where b is 0.
abbrev pub s64_div : ℕ → ℕ → ℕ
s64_div a b =
    let q = magnitude a / magnitude b in
    if ltb a (2 ^ 63)
    then (if ltb b (2 ^ 63) then q else (w64 - q) % w64)
    else (if ltb b (2 ^ 63) then (w64 - q) % w64 else q % w64)

abbrev pub set_stats :
    (ServiceStats → ServiceStats) → String → Listener → Option ServiceStats → Listener
set_stats update name l none = l
set_stats update name l (some stats) = record l { stats = insert name (update stats) l.stats }

unfoldable pub update_stats : String → (ServiceStats → ServiceStats) → Listener → Listener
update_stats name update l = set_stats update name l (lookup name l.stats)

abbrev pub received : ℕ → ServiceStats → ServiceStats
received started stats = record stats {
  requests_received = (stats.requests_received + 1) % w64;
  last_request = started;
}

unfoldable pub processed : ℕ → ServiceStats → ServiceStats
processed took stats =
    let n = (stats.requests_processed + 1) % w64 in
    record stats {
      requests_processed = n;
      avg_response_time =
          s64_div ((stats.avg_response_time * ((n + (w64 - 1)) % w64) + took) % w64) n;
    }

abbrev pub failed : ServiceStats → ServiceStats
failed stats = record stats { errors = (stats.errors + 1) % w64 }

abbrev pub text_or : Text → Text → Text
text_or [] other = other
text_or (c ∷ cs) other = c ∷ cs

abbrev pub request_of : Bytes → Text → Text → Option Parsed → Request
request_of items client_addr uuid none = record {
  id = uuid;
  command = [];
  body = items;
  client_addr = client_addr;
}
request_of items client_addr uuid (some req) = record {
  id = text_or req.id uuid;
  command = req.command;
  body = req.items;
  client_addr = client_addr;
}

-- The request, and an error: none on either branch.
unfoldable pub parse_request : Setup → Bytes → Text → Text → Request × Option Text
parse_request e items client_addr uuid =
    (request_of items client_addr uuid (e.unmarshal items), none)

abbrev pub response_of : Setup → Request → Result Text Response → Option Response
response_of e request (ok response) = some response
response_of e request (err message) =
    some (record { id = request.id; service = e.service; body = []; error = some message })
response_of e request panic = none

-- None is a panic of the service.
unfoldable pub process_request : Setup → Request → Option Response
process_request e request = response_of e request (e.handle_request request)

abbrev pub reply_of : Response → Option Text → Reply
reply_of response none = answer response.id response.service response.body
reply_of response (some error) =
    answer_error response.id response.service (text "ERROR: " ++ error) error

abbrev pub write_to : Text → Option Bytes → Listener → Listener
write_to client_addr none l = l
write_to client_addr (some items) l = record l { sent = l.sent ++ ((client_addr, items) ∷ []) }

unfoldable pub send_response : Setup → Text → Response → Listener → Listener
send_response e client_addr response l =
    write_to client_addr (e.marshal (reply_of response response.error)) l

unfoldable pub send_error : Setup → Text → Text → Text → Listener → Listener
send_error e client_addr id error l =
    write_to client_addr (e.marshal (refusal id e.service error)) l

abbrev pub finish : Setup → Task → Option Response → Listener → Option Listener
finish e task none l = none
finish e task (some response) l =
    some (send_response e task.client_addr response (update_stats e.name (processed task.took) l))

-- `handleRequest`; none is a panic of the service.
unfoldable pub handle_request : Setup → Task → Bytes → Listener → Option Listener
handle_request e task items l =
    let l' = update_stats e.name (received task.started) l in
    let (request, error) = parse_request e items task.client_addr task.uuid in
    elim error [
      | some message ↦
          some (update_stats e.name failed (send_error e task.client_addr request.id message l'))
      | none ↦ finish e task (process_request e request) l'
    ]

-- The part of a datagram that fits is put into the buffer.
abbrev pub read_into : Setup → Bytes → Listener → Listener
read_into e datagram l =
    let items = take e.max_packet_size datagram in
    record l { buffer = items ++ drop (length items) l.buffer }

-- A datagram that arrives, and whose task the pool takes: the task has the slice.
unfoldable pub receive : Setup → Task → Bytes → Listener → Listener
receive e task datagram l =
    let l' = read_into e datagram l in
    let size = length (take e.max_packet_size datagram) in
    record l' { tasks = l'.tasks ++ (record task { size = size } ∷ []) }

-- The error of a refused task is counted; without statistics of the service this is a nil dereference.
abbrev pub refuse : Setup → Listener → Option ServiceStats → Option Listener
refuse e l none = none
refuse e l (some stats) = some (update_stats e.name failed l)

-- A datagram that arrives, and whether the pool takes its task; none is the panic.
unfoldable pub arrive : Setup → Task → Bytes → Bool → Listener → Option Listener
arrive e task datagram submitted l =
    if submitted
    then some (receive e task datagram l)
    else refuse e (read_into e datagram l) (lookup e.name l.stats)

-- A worker of the pool takes the first task: its slice has what the buffer has now.
unfoldable pub run_task : Setup → Listener → Option Listener
run_task e l = elim l.tasks [
  | [] ↦ some l
  | task ∷ tasks ↦ handle_request e task (take task.size l.buffer) (record l { tasks = tasks })
]
