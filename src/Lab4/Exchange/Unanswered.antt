-- ===== src/Lab4/Exchange/Unanswered.antt =====
-- The statistics service, whose responses do not have the ID of their request, and the client that asks it.
use nssa_ds.Base.{
  ℕ, ◌≡◌, ◌≢◌, refl, sym, ◌∙◌, ap, inl, inr, Bool-cases, List, [], ◌∷◌, Option, none, some,
  Option-cases, arith, ◌⊎◌, take,
}
use nssa_ds.Base.Map.{nat_key, lookup, erase, lookup-insert_ne, lookup-erase}
use nssa_ds.Base.Result.{Result, ok}
use nssa_ds.Base.Bytes.{Bytes}
use nssa_ds.Base.Text.{Text, text, text_key, text_eq}
use nssa_ds.Base.{String}
use nssa_ds.Lab4.Server.{Request, ServiceStats, reply_of}
use nssa_ds.Lab4.Server as Server
use nssa_ds.Lab4.Services.{
  Encoder, marshalled, service_stats, stats_service, handle_all_stats, handle_service_stats,
  handle_pool_stats, handle_help, stats_of,
}
use nssa_ds.Lab4.Client.{
  Client, Call, Response, Phase, waiting, leaving, removed, returned, Action, start, deliver,
  take_response, give_up, remove, close, new_udp_client, start_call, offer, deliver_to,
  deliver_response, taken, given_up, taken_out, closed_by, of_call, step, run, Decoder,
  receive_datagram, parse_response, read_size,
}
use nssa_ds.Lab4.Exchange.{wire_of, wire-id}

-- No call has the empty ID, as no uuid is empty.
abbrev pub Identified : List Action → Type 0
Identified [] = Unit {0}
Identified (start id ∷ actions) = (id ≢ []) × Identified actions
Identified (deliver r ∷ actions) = Identified actions
Identified (take_response ptr ∷ actions) = Identified actions
Identified (give_up ptr ∷ actions) = Identified actions
Identified (remove ptr ∷ actions) = Identified actions
Identified (close ptr ∷ actions) = Identified actions

abbrev Free : Client → Type 0
Free c = lookup [] c.responses ≡ none

start-Free : (id : Text) (c : Client) → id ≢ [] → Free c → Free (start_call id c)
unfolding start_call
start-Free id c h f = lookup-insert_ne id [] c.next c.responses h ∙ f

of_call-Free :
    (g : Call → Client) (c : Client) (found : Option Call)
    → Free c
    → ((call : Call) → Free (g call))
    → Free (of_call g c found)
of_call-Free g c none f h = f
of_call-Free g c (some call) f h = h call

taken-Free :
    (ptr : ℕ) (c : Client) (call : Call) (phase : Phase) (buffer : Option Response)
    → Free c
    → Free (taken ptr c call phase buffer)
taken-Free ptr c call waiting none f = f
taken-Free ptr c call waiting (some r) f = f
taken-Free ptr c call (leaving r) buffer f = f
taken-Free ptr c call (removed r) buffer f = f
taken-Free ptr c call (returned r) buffer f = f

given_up-Free :
    (ptr : ℕ) (c : Client) (call : Call) (phase : Phase) → Free c → Free (given_up ptr c call phase)
given_up-Free ptr c call waiting f = f
given_up-Free ptr c call (leaving r) f = f
given_up-Free ptr c call (removed r) f = f
given_up-Free ptr c call (returned r) f = f

erase-none : (id : Text) (m : List (Text × ℕ)) → lookup [] m ≡ none → lookup [] (erase id m) ≡ none
erase-none id m f = ground (arith, f, lookup-erase id [] m)

taken_out-Free :
    (ptr : ℕ) (c : Client) (call : Call) (phase : Phase)
    → Free c
    → Free (taken_out ptr c call phase)
taken_out-Free ptr c call waiting f = f
taken_out-Free ptr c call (leaving r) f = erase-none call.id c.responses f
taken_out-Free ptr c call (removed r) f = f
taken_out-Free ptr c call (returned r) f = f

closed_by-Free :
    (ptr : ℕ) (c : Client) (call : Call) (phase : Phase)
    → Free c
    → Free (closed_by ptr c call phase)
closed_by-Free ptr c call waiting f = f
closed_by-Free ptr c call (leaving r) f = f
closed_by-Free ptr c call (removed r) f = f
closed_by-Free ptr c call (returned r) f = f

offer-Free :
    (r : Response) (ptr : ℕ) (c : Client) (found : Option Call)
    → Free c
    → Free (offer r ptr c found)
offer-Free r ptr c none f = f
offer-Free r ptr c (some call) f = elim (Bool-cases call.closed) [
  | inl e ↦ rw e f
  | inr e ↦ elim (Option-cases call.buffer) [ inl b ↦ rw (e, b) f | inr (_, b) ↦ rw (e, b) f ]
]

deliver-Free : (r : Response) (c : Client) (found : Option ℕ) → Free c → Free (deliver_to r c found)
deliver-Free r c none f = f
deliver-Free r c (some ptr) f = offer-Free r ptr c (lookup ptr c.calls) f

run-Free : (actions : List Action) (c : Client) → Identified actions → Free c → Free (run actions c)
unfolding run step deliver_response
run-Free [] c h f = f
run-Free (start id ∷ actions) c h f = run-Free actions _ h.1 (start-Free id c h.0 f)
run-Free (deliver r ∷ actions) c h f =
    run-Free actions _ h (deliver-Free r c (lookup r.id c.responses) f)
run-Free (take_response ptr ∷ actions) c h f = run-Free actions _ h (
    of_call-Free _ c (lookup ptr c.calls) f
      (λ call. taken-Free ptr c call call.phase call.buffer f))
run-Free (give_up ptr ∷ actions) c h f =
    run-Free actions _ h
      (of_call-Free _ c (lookup ptr c.calls) f (λ call. given_up-Free ptr c call call.phase f))
run-Free (remove ptr ∷ actions) c h f =
    run-Free actions _ h
      (of_call-Free _ c (lookup ptr c.calls) f (λ call. taken_out-Free ptr c call call.phase f))
run-Free (close ptr ∷ actions) c h f =
    run-Free actions _ h
      (of_call-Free _ c (lookup ptr c.calls) f (λ call. closed_by-Free ptr c call call.phase f))

new-Free : Free new_udp_client
unfolding new_udp_client lookup
new-Free = refl

same_id :
    (a b : Server.Response)
    → a.id ≡ []
    → ◌≡◌ {A = Result Text Server.Response} (ok a) (ok b)
    → b.id ≡ []
same_id a b e r = let same : a ≡ b = cc in ap (λ (t : Server.Response). t.id) (sym same) ∙ e

-- The commands that the statistics service knows.
pub data IsCommand : Text → Type 0 where
  all : IsCommand (text "ALL")
  service : IsCommand (text "SERVICE")
  pool : IsCommand (text "POOL")
  help : IsCommand (text "HELP")

marshalled-id : (e : Encoder) (found : Option Bytes) → (marshalled e found).id ≡ []
marshalled-id e none = refl
marshalled-id e (some items) = refl

service_stats-id :
    (e : Encoder) (name : Text) (found : Option ServiceStats) → (service_stats e name found).id ≡ []
service_stats-id e name none = refl
service_stats-id e name (some stats) = marshalled-id e (e.one name stats)

no_id :
    (e : Encoder) (message : Text) (stats : List (String × ServiceStats)) (req : Request)
    (command : Text) (response : Server.Response)
    → IsCommand command
    → req.command ≡ command
    → stats_service e message stats req ≡ ok response
    → response.id ≡ []
unfolding stats_service text_eq handle_all_stats handle_service_stats handle_pool_stats handle_help
no_id e message stats req _ response all c r =
    same_id (handle_all_stats e stats) response (marshalled-id e (e.all stats)) (rw c at r)
no_id e message stats req _ response service c r =
    same_id (handle_service_stats e stats req.body) response
      (service_stats-id e req.body (stats_of req.body stats)) (rw c at r)
no_id e message stats req _ response pool c r = same_id handle_pool_stats response refl (rw c at r)
no_id e message stats req _ response help c r =
    same_id (handle_help message) response refl (rw c at r)

-- A request for statistics that the service knows is never answered for the client: whatever the client has
-- done, with IDs that are not empty, the response leaves all of its calls as they are, since it has the
-- empty ID. What of its JSON fits the client's buffer is read back with its fields, or not at all.
pub stats_service-unanswered :
    (e : Encoder) (message : Text) (stats : List (String × ServiceStats)) (req : Request)
    (response : Server.Response) (d : Decoder) (reply : Bytes) (actions : List Action)
    → IsCommand req.command
    → stats_service e message stats req ≡ ok response
    → (d.unmarshal (take read_size reply) ≡ none)
      ⊎ (d.unmarshal (take read_size reply) ≡ some (wire_of (reply_of response response.error)))
    → Identified actions
    → receive_datagram d reply (run actions new_udp_client) ≡ run actions new_udp_client
unfolding receive_datagram parse_response deliver_response
stats_service-unanswered e message stats req response d reply actions k r (inl cut) h =
    rw (receive_datagram, cut) refl
stats_service-unanswered e message stats req response d reply actions k r (inr back) h =
    let empty =
      wire-id response response.error ∙ no_id e message stats req req.command response k refl r in
    let free = run-Free actions new_udp_client h new-Free in
    rw (receive_datagram, back, deliver_response, empty, free) refl
