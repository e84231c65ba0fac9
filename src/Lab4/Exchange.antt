-- ===== src/Lab4/Exchange.antt =====
-- A request and its answer, from SendRequest of lab4's client through handleRequest of the server and back.
pub mod Unanswered
mod Examples
use nssa_ds.Base.{
  ℕ, ◌+◌, ◌^◌, ◌<◌, ◌≡◌, ◌≢◌, refl, sym, ◌∙◌, ap, true, false, List, [], ◌∷◌, ◌++◌, Option, none,
  some, ◌≤◌, length, take, drop, take_all, take-append_exact,
}
use nssa_ds.Base.Map.{string_key, nat_key, lookup, insert, lookup-insert_same}
use nssa_ds.Base.Result.{Result, ok}
use nssa_ds.Base.Bytes.{Bytes}
use nssa_ds.Base.Text.{Text, text_key}
use nssa_ds.Lab4.Server.{
  Setup, Task, Listener, ServiceStats, Reply, answer, answer_error, refusal, Parsed, text_or,
  request_of, process_request, parse_request, reply_of, handle_request, receive, run_task,
}
use nssa_ds.Lab4.Server as Server
use nssa_ds.Lab4.Server.Average.{Counts}
use nssa_ds.Lab4.Server.Handled.{outcome, handle_request-Handled}
use nssa_ds.Lab4.Client.{
  Client, Call, Response, returned, leaving, removed, waiting, Phase, Action, take_response, remove,
  close, start_call, deliver_response, receive_datagram, parse_response, Decoder, Wire, response_of,
  put, step, run, Asked, send_request, read_size,
}

-- The fields of a JSON object that the server sends, as the client's struct names them.
abbrev pub wire_of : Reply → Wire
wire_of (answer id service items) = record { id = id; service = service; items = items; error = [] }
wire_of (answer_error id service items error) = record {
  id = id;
  service = service;
  items = items;
  error = error;
}
wire_of (refusal id service error) = record {
  id = id;
  service = service;
  items = [];
  error = error;
}

pub wire-id : (r : Server.Response) (error : Option Text) → (wire_of (reply_of r error)).id ≡ r.id
wire-id r none = refl
wire-id r (some e) = refl

abbrev call_of : Text → Option Response → Call
call_of id buffer = record { id = id; buffer = buffer; closed = false; phase = waiting }

-- The call when SendRequest has returned with a response.
abbrev pub done_call : Text → Response → Call
done_call id r = record { id = id; buffer = none; closed = true; phase = returned (some r) }

delivered :
    (c : Client) (id : Text) (r : Response)
    → r.id ≡ id
    → lookup c.next (deliver_response r (start_call id c)).calls ≡ some (call_of id (some r))
unfolding deliver_response start_call
delivered c id r e =
    let entry = lookup-insert_same id c.next c.responses in
    let there = lookup-insert_same c.next (call_of id none) c.calls in
    let named : lookup r.id (insert id c.next c.responses) ≡ some c.next =
      ap (λ t. lookup t (insert id c.next c.responses)) e ∙ entry in
    rw (deliver_response, named, there)
      (lookup-insert_same c.next (call_of id (some r)) (insert c.next (call_of id none) c.calls))

abbrev phase_call : Text → Phase → Call
phase_call id phase = record { id = id; buffer = none; closed = false; phase = phase }

taken-call :
    (ptr : ℕ) (id : Text) (r : Response) (c : Client)
    → lookup ptr c.calls ≡ some (call_of id (some r))
    → lookup ptr (step (take_response ptr) c).calls ≡ some (phase_call id (leaving (some r)))
unfolding step
taken-call ptr id r c there =
    rw (step, there) (lookup-insert_same ptr (phase_call id (leaving (some r))) c.calls)

removed-call :
    (ptr : ℕ) (id : Text) (r : Response) (c : Client)
    → lookup ptr c.calls ≡ some (phase_call id (leaving (some r)))
    → lookup ptr (step (remove ptr) c).calls ≡ some (phase_call id (removed (some r)))
unfolding step
removed-call ptr id r c there =
    rw (step, there) (lookup-insert_same ptr (phase_call id (removed (some r))) c.calls)

closed-call :
    (ptr : ℕ) (id : Text) (r : Response) (c : Client)
    → lookup ptr c.calls ≡ some (phase_call id (removed (some r)))
    → lookup ptr (step (close ptr) c).calls ≡ some (done_call id r)
unfolding step
closed-call ptr id r c there = rw (step, there) (lookup-insert_same ptr (done_call id r) c.calls)

-- The rest of SendRequest once its channel has the response.
abbrev pub rest_of_call : ℕ → List Action
rest_of_call ptr = take_response ptr ∷ (remove ptr ∷ (close ptr ∷ []))

finished :
    (ptr : ℕ) (id : Text) (r : Response) (c : Client)
    → lookup ptr c.calls ≡ some (call_of id (some r))
    → lookup ptr (run (rest_of_call ptr) c).calls ≡ some (done_call id r)
unfolding run
finished ptr id r c there =
    closed-call ptr id r _ (removed-call ptr id r _ (taken-call ptr id r c there))

received-call :
    (d : Decoder) (c : Client) (id : Text) (w : Wire) (items : Bytes)
    → length items ≤ read_size
    → d.unmarshal items ≡ some w
    → w.id ≡ id
    → lookup c.next (run (rest_of_call c.next) (receive_datagram d items (start_call id c))).calls
      ≡ some (done_call id (response_of d w))
unfolding receive_datagram parse_response
received-call d c id w items fits e same = finished c.next id (response_of d w) _ (
    rw (receive_datagram, take_all read_size items fits, e) (delivered c id (response_of d w) same))

-- The response of the server, from its service to the caller: what SendRequest writes, what the server sends,
-- and what SendRequest returns.
pub record Exchanged (marshal : Asked → Option Bytes) (id command body items : Bytes)
    (l l' : Listener) (task : Task) (reply : Bytes) (w : Wire) (d : Decoder) (c : Client)
    : Type 0 where
  pub asked : (send_request marshal id command body c).1 ≡ some items
  pub sent : l'.sent ≡ l.sent ++ ((task.client_addr, reply) ∷ [])
  pub returns :
      lookup c.next
        (run
          (rest_of_call c.next)
          (receive_datagram d reply (send_request marshal id command body c).0)).calls
      ≡ some (done_call id (response_of d w))

text_or-some : (id other : Text) → id ≢ [] → text_or id other ≡ id
text_or-some [] other h = absurd (h refl)
text_or-some (c ∷ cs) other h = refl

abbrev listener_of : Listener → Listener
listener_of l = l

-- A datagram that fits: the whole of it is in the buffer, and its task has its length.
receive-whole :
    (e : Setup) (task : Task) (items : Bytes) (l : Listener)
    → length items ≤ e.max_packet_size
    → receive e task items l ≡ record l {
      buffer = items ++ drop (length items) l.buffer;
      tasks = l.tasks ++ (record task { size = length items } ∷ []);
    }
unfolding receive
receive-whole e task items l fits =
    ap
      (λ part. listener_of (record l {
        buffer = part ++ drop (length part) l.buffer;
        tasks = l.tasks ++ (record task { size = length part } ∷ []);
      }))
      (take_all e.max_packet_size items fits)

-- The only task that is left, with a slice that is the whole datagram.
run_task-alone :
    (e : Setup) (task : Task) (items : Bytes) (l : Listener)
    → l.tasks ≡ []
    → run_task e (record l {
      buffer = items ++ drop (length items) l.buffer;
      tasks = l.tasks ++ (record task { size = length items } ∷ []);
    })
      ≡ handle_request e
          (record task { size = length items })
          items
          (record l { buffer = items ++ drop (length items) l.buffer; tasks = [] })
unfolding run_task
run_task-alone e task items l idle =
    rw (idle, run_task)
      (ap
        (λ t.
          handle_request e (record task { size = length items }) t
            (record l { buffer = items ++ drop (length items) l.buffer; tasks = [] }))
        (take-append_exact items (drop (length items) l.buffer)))

run_task-receive :
    (e : Setup) (task : Task) (items : Bytes) (l : Listener)
    → l.tasks ≡ []
    → length items ≤ e.max_packet_size
    → run_task e (receive e task items l)
      ≡ handle_request e
          (record task { size = length items })
          items
          (record l { buffer = items ++ drop (length items) l.buffer; tasks = [] })
run_task-receive e task items l idle fits =
    ap (run_task e) (receive-whole e task items l fits) ∙ run_task-alone e task items l idle

-- A request, from SendRequest to the service and back: SendRequest writes the JSON of its ID, command and data; the
-- server, with no task left, reads it into its buffer, handles it under that ID and sends one datagram, the
-- service's response, to the client; and SendRequest returns that response. The request fits the server's
-- buffer and the response the client's, of 4096 bytes; the service gives the response the ID of its request;
-- the JSON of both is read back with its fields; the response comes before the timeout; the counters are
-- below 2 ^ 63.
pub handle_request-Exchanged :
    (marshal : Asked → Option Bytes) (e : Setup) (d : Decoder) (task : Task)
    (id command body items reply : Bytes) (response : Server.Response) (l : Listener)
    (stats : ServiceStats) (n sum : ℕ) (c : Client)
    → id ≢ []
    → marshal (record { id = id; command = command; items = body }) ≡ some items
    → e.unmarshal items ≡ some (record { id = id; command = command; items = body })
    → length items ≤ e.max_packet_size
    → l.tasks ≡ []
    → e.handle_request
        (record { id = id; command = command; body = body; client_addr = task.client_addr })
      ≡ ok response
    → response.id ≡ id
    → e.marshal (reply_of response response.error) ≡ some reply
    → length reply ≤ read_size
    → d.unmarshal reply ≡ some (wire_of (reply_of response response.error))
    → lookup e.name l.stats ≡ some stats
    → Counts n sum stats
    → n + 1 < 2 ^ 63
    → sum + task.took < 2 ^ 63
    → (l' : Listener) × (run_task e (receive e task items l) ≡ some l')
      × Exchanged marshal id command body items l l' task reply
          (wire_of (reply_of response response.error))
          d
          c
unfolding outcome parse_request process_request send_request
handle_request-Exchanged marshal e d task id command body items reply response l stats n sum c
      some_id written u fits idle h same m short back there k p q =
    let task' : Task = record task { size = length items } in
    let out : outcome e task' items ≡ some ((task.client_addr, reply) ∷ []) =
      rw (outcome, u, text_or-some id task.uuid some_id, h, m) refl in
    let (l', is_result, _, handled) =
      handle_request-Handled e task' items n sum
        (record l { buffer = items ++ drop (length items) l.buffer; tasks = [] }) stats
        ((task.client_addr, reply) ∷ []) there k p q out in
    (
      l',
      run_task-receive e task items l idle fits ∙ is_result,
      record {
        asked = rw (send_request, written) refl;
        sent = handled.sent;
        returns =
            rw (send_request, written)
              (received-call d c id (wire_of (reply_of response response.error)) reply short back
                (wire-id response response.error ∙ same));
      },
    )
