-- ===== src/Lab4/Client.antt =====
-- lab4/internal/infrastructure/network/udp_client.go: the calls of SendRequest that wait, and the listener that
-- brings them their responses. A run is a sequence of the actions of the goroutines; what a goroutine does under
-- the lock of the map is one action. A call has one channel, of capacity 1. encoding/json and uuid are outside.
pub mod Calls
pub mod Safe
mod Examples
use nssa_ds.Base.{ℕ, ◌+◌, Bool, true, false, List, [], ◌∷◌, Option, none, some, take}
use nssa_ds.Base.Map.{nat_key, lookup, insert, erase}
use nssa_ds.Base.Bytes.{Bytes}
use nssa_ds.Base.Text.{Text, text_key}

pub record Response : Type 0 where
  pub id : Text
  pub service : Text
  pub body : Bytes
  pub error : Text

-- A call waits in its select, leaves it with a response or an error (none), has taken its entry out of the
-- map, and has closed its channel and returned.
pub data Phase : Type 0 where
  waiting : Phase
  leaving removed returned : Option Response → Phase

-- A call, with the buffer of its channel.
pub record Call : Type 0 where
  pub id : Text
  pub buffer : Option Response
  pub closed : Bool
  pub phase : Phase

-- `responses` has the channel of an ID, which is named by its call; `panicked` is a send on a closed channel.
pub record Client : Type 0 where
  pub responses : List (Text × ℕ)
  pub calls : List (ℕ × Call)
  pub next : ℕ
  pub panicked : Bool

unfoldable pub new_udp_client : Client
new_udp_client = record { responses = []; calls = []; next = 0; panicked = false }

pub data Action : Type 0 where
  start : Text → Action
  deliver : Response → Action
  take_response give_up remove close : ℕ → Action

abbrev pub put : ℕ → Call → Client → Client
put ptr call c = record c { calls = insert ptr call c.calls }

abbrev pub fresh_call : Text → Call
fresh_call id = record { id = id; buffer = none; closed = false; phase = waiting }

-- The map gets the new channel.
unfoldable pub start_call : Text → Client → Client
start_call id c = record c {
  responses = insert id c.next c.responses;
  calls = insert c.next (fresh_call id) c.calls;
  next = c.next + 1;
}

-- `select { case responseChan <- response: default: }`
abbrev pub offer : Response → ℕ → Client → Option Call → Client
offer response ptr c none = c
offer response ptr c (some call) = elim (call.closed) [
  | true ↦ record c { panicked = true }
  | false ↦ elim (call.buffer) [
    | none ↦ put ptr (record call { buffer = some response }) c
    | some _ ↦ c
  ]
]

abbrev pub deliver_to : Response → Client → Option ℕ → Client
deliver_to response c none = c
deliver_to response c (some ptr) = offer response ptr c (lookup ptr c.calls)

unfoldable pub deliver_response : Response → Client → Client
deliver_response response c = deliver_to response c (lookup response.id c.responses)

-- What the goroutine of a call does next, by its phase; an action that it cannot take changes nothing.
abbrev pub taken : ℕ → Client → Call → Phase → Option Response → Client
taken ptr c call waiting (some response) =
    put ptr (record call { buffer = none; phase = leaving (some response) }) c
taken ptr c call waiting none = c
taken ptr c call (leaving result) buffer = c
taken ptr c call (removed result) buffer = c
taken ptr c call (returned result) buffer = c

-- A write error, the timeout, or the end of the client.
abbrev pub given_up : ℕ → Client → Call → Phase → Client
given_up ptr c call waiting = put ptr (record call { phase = leaving none }) c
given_up ptr c call (leaving result) = c
given_up ptr c call (removed result) = c
given_up ptr c call (returned result) = c

abbrev pub taken_out : ℕ → Client → Call → Phase → Client
taken_out ptr c call waiting = c
taken_out ptr c call (leaving result) =
    put ptr (record call { phase = removed result })
      (record c { responses = erase call.id c.responses })
taken_out ptr c call (removed result) = c
taken_out ptr c call (returned result) = c

abbrev pub closed_by : ℕ → Client → Call → Phase → Client
closed_by ptr c call waiting = c
closed_by ptr c call (leaving result) = c
closed_by ptr c call (removed result) =
    put ptr (record call { closed = true; phase = returned result }) c
closed_by ptr c call (returned result) = c

-- An action of the goroutine of a call that is there.
abbrev pub of_call : (Call → Client) → Client → Option Call → Client
of_call f c none = c
of_call f c (some call) = f call

unfoldable pub step : Action → Client → Client
step (start id) c = start_call id c
step (deliver response) c = deliver_response response c
step (take_response ptr) c =
    of_call (λ call. taken ptr c call call.phase call.buffer) c (lookup ptr c.calls)
step (give_up ptr) c = of_call (λ call. given_up ptr c call call.phase) c (lookup ptr c.calls)
step (remove ptr) c = of_call (λ call. taken_out ptr c call call.phase) c (lookup ptr c.calls)
step (close ptr) c = of_call (λ call. closed_by ptr c call call.phase) c (lookup ptr c.calls)

unfoldable pub run : List Action → Client → Client
run [] c = c
run (action ∷ actions) c = run actions (step action c)

-- The JSON object of a response.
pub record Wire : Type 0 where
  pub id : Text
  pub service : Text
  pub items : Text
  pub error : Text

-- json.Unmarshal, and fmt.Errorf, which takes the text for a format.
pub record Decoder : Type 0 where
  pub unmarshal : Bytes → Option Wire
  pub errorf : Text → Text

abbrev pub error_of : Decoder → Text → Text
error_of d [] = []
error_of d (c ∷ cs) = d.errorf (c ∷ cs)

abbrev pub response_of : Decoder → Wire → Response
response_of d w = record {
  id = w.id;
  service = w.service;
  body = w.items;
  error = error_of d w.error;
}

abbrev pub parsed : Decoder → Option Wire → Option Response
parsed d none = none
parsed d (some w) = some (response_of d w)

unfoldable pub parse_response : Decoder → Bytes → Option Response
parse_response d items = parsed d (d.unmarshal items)

abbrev pub listened : Client → Option Response → Client
listened c none = c
listened c (some response) = deliver_response response c

-- The buffer of `listenResponses`; what does not fit is cut off.
abbrev pub read_size : ℕ
read_size = 4096

-- What `listenResponses` does with a datagram.
unfoldable pub receive_datagram : Decoder → Bytes → Client → Client
receive_datagram d items c = listened c (parse_response d (take read_size items))

-- The JSON object of a request.
pub record Asked : Type 0 where
  pub id : Text
  pub command : Text
  pub items : Text

abbrev pub sent_or_not : Client → Text → Option Bytes → Client × Option Bytes
sent_or_not c id none = (c, none)
sent_or_not c id (some request_data) = (start_call id c, some request_data)

-- `SendRequest` of a connected client up to its write: what is left of the client, and the bytes for the
-- socket; none is an error of json.Marshal.
unfoldable pub send_request :
    (Asked → Option Bytes) → Text → Text → Bytes → Client → Client × Option Bytes
send_request marshal id command items c =
    sent_or_not c id (marshal (record { id = id; command = command; items = items }))
