-- ===== src/Lab4/Client/Safe.antt =====
-- Every action of the client keeps the invariant of its calls.
use nssa_ds.Base.{
  ℕ, ◌≡◌, refl, sym, subst, ◌∙◌, ap, inl, inr, true, false, List, [], ◌∷◌, Option, none, some,
  Option-cases, arith,
}
use nssa_ds.Base.Map.{nat_key, lookup, insert, erase, lookup-insert_same, lookup-insert_ne}
use nssa_ds.Base.Text.{Text, text_key}
use nssa_ds.Lab4.Client.{
  Response, Phase, waiting, leaving, removed, returned, Call, Client, new_udp_client, Action, start,
  deliver, take_response, give_up, remove, close, fresh_call, start_call, offer, deliver_response,
  taken, given_up, taken_out, closed_by, of_call, step, run,
}
use mathlib.Core.Option.{some-injective, none-ne-some}
use nssa_ds.Lab4.Client.Calls.{
  Fits, result, listed, is_returned, IsClient, text_cases, inserted, put-IsClient, listed-entry,
  change-IsClient, erase-IsClient, no_entry,
}

take-IsClient :
    (ptr : ℕ) (c : Client) (call : Call) (phase : Phase) (buffer : Option Response)
    → IsClient c
    → lookup ptr c.calls ≡ some call
    → phase ≡ call.phase
    → buffer ≡ call.buffer
    → IsClient (taken ptr c call phase buffer)
take-IsClient ptr c call waiting none h there p b = h
take-IsClient ptr c call waiting (some r) h there p b =
    let k = h.are_calls ptr call there in
    let fits : Fits call.id (some r) =
      subst (λ (t : Option Response). Fits call.id t) (sym b) k.buffer_fits in
    change-IsClient ptr call (record call { buffer = none; phase = leaving (some r) }) c h there
      (record {
        buffer_fits = tt;
        result_fits = fits;
        closed_last = k.closed_last ∙ ap is_returned (sym p);
      })
      refl (λ l. refl)
take-IsClient ptr c call (leaving r) buffer h there p b = h
take-IsClient ptr c call (removed r) buffer h there p b = h
take-IsClient ptr c call (returned r) buffer h there p b = h

give_up-IsClient :
    (ptr : ℕ) (c : Client) (call : Call) (phase : Phase)
    → IsClient c
    → lookup ptr c.calls ≡ some call
    → phase ≡ call.phase
    → IsClient (given_up ptr c call phase)
give_up-IsClient ptr c call waiting h there p =
    let k = h.are_calls ptr call there in
    change-IsClient ptr call (record call { phase = leaving none }) c h there
      (record {
        buffer_fits = k.buffer_fits;
        result_fits = tt;
        closed_last = k.closed_last ∙ ap is_returned (sym p);
      })
      refl (λ l. refl)
give_up-IsClient ptr c call (leaving r) h there p = h
give_up-IsClient ptr c call (removed r) h there p = h
give_up-IsClient ptr c call (returned r) h there p = h

remove-IsClient :
    (ptr : ℕ) (c : Client) (call : Call) (phase : Phase)
    → IsClient c
    → lookup ptr c.calls ≡ some call
    → phase ≡ call.phase
    → IsClient (taken_out ptr c call phase)
remove-IsClient ptr c call waiting h there p = h
remove-IsClient ptr c call (leaving r) h there p =
    let k = h.are_calls ptr call there in
    let c1 : Client = record c { responses = erase call.id c.responses } in
    put-IsClient ptr call (record call { phase = removed r }) c1 (erase-IsClient call.id c h) there
      (record {
        buffer_fits = k.buffer_fits;
        result_fits = subst (λ (t : Phase). Fits call.id (result t)) (sym p) k.result_fits;
        closed_last = k.closed_last ∙ ap is_returned (sym p);
      })
      refl
      (λ id e.
        let (same, _) = listed-entry ptr call c1 id (erase-IsClient call.id c h) there e in
        absurd (
          no_entry call.id ptr c.responses
            (ap (λ t. lookup t (erase call.id c.responses)) same ∙ e)))
remove-IsClient ptr c call (removed r) h there p = h
remove-IsClient ptr c call (returned r) h there p = h

close-IsClient :
    (ptr : ℕ) (c : Client) (call : Call) (phase : Phase)
    → IsClient c
    → lookup ptr c.calls ≡ some call
    → phase ≡ call.phase
    → IsClient (closed_by ptr c call phase)
close-IsClient ptr c call waiting h there p = h
close-IsClient ptr c call (leaving r) h there p = h
close-IsClient ptr c call (removed r) h there p =
    let k = h.are_calls ptr call there in
    change-IsClient ptr call (record call { closed = true; phase = returned r }) c h there
      (record {
        buffer_fits = k.buffer_fits;
        result_fits = subst (λ (t : Phase). Fits call.id (result t)) (sym p) k.result_fits;
        closed_last = refl;
      })
      refl (λ l. let bad : false ≡ true = ap listed p ∙ l in cc)
close-IsClient ptr c call (returned r) h there p = h

start-IsClient : (id : Text) (c : Client) → IsClient c → IsClient (start_call id c)
unfolding start_call
start-IsClient id c h = record {
  are_calls = λ q found e. elim (inserted c.next q (fresh_call id) found c.calls e) [
    | inl (_, is) ↦ rw is (record { buffer_fits = tt; result_fits = tt; closed_last = refl })
    | inr old ↦ h.are_calls q found old
  ];
  are_named = λ j q e. elim (text_cases id j) [
    | inl same ↦
        let one = some-injective c.next q (
          sym (lookup-insert_same id c.next c.responses)
          ∙ ap (λ t. lookup t (insert id c.next c.responses)) same
          ∙ e) in
        record {
          call = fresh_call id;
          is_there =
              ap (λ p. lookup p (insert c.next (fresh_call id) c.calls)) (sym one)
              ∙ lookup-insert_same c.next (fresh_call id) c.calls;
          same_id = same;
          still_listed = refl;
        }
    | inr differ ↦
        let n = h.are_named j q (sym (lookup-insert_ne id j c.next c.responses differ) ∙ e) in
        let older = h.fresh q n.call n.is_there in
        record {
          call = n.call;
          is_there =
              lookup-insert_ne c.next q (fresh_call id) c.calls (λ is. omega (arith, is, older))
              ∙ n.is_there;
          same_id = n.same_id;
          still_listed = n.still_listed;
        }
  ];
  no_panic = h.no_panic;
  fresh = λ q found e. elim (inserted c.next q (fresh_call id) found c.calls e) [
    | inl (is, _) ↦ omega (arith, is)
    | inr old ↦ let older = h.fresh q found old in omega (arith, older)
  ];
}

open_if_listed : (phase : Phase) → listed phase ≡ true → is_returned phase ≡ false
open_if_listed waiting l = refl
open_if_listed (leaving r) l = refl
open_if_listed (removed r) l = refl
open_if_listed (returned r) l = sym l

offer-IsClient :
    (r : Response) (ptr : ℕ) (c : Client) (found : Option Call)
    → IsClient c
    → lookup r.id c.responses ≡ some ptr
    → lookup ptr c.calls ≡ found
    → IsClient (offer r ptr c found)
offer-IsClient r ptr c none h e there = h
offer-IsClient r ptr c (some call) h e there =
    let k = h.are_calls ptr call there in
    let (same, l) = listed-entry ptr call c r.id h there e in
    let is_open : call.closed ≡ false = k.closed_last ∙ open_if_listed call.phase l in
    elim (Option-cases call.buffer) [
      | inr (old, full) ↦ rw (is_open, full) h
      | inl empty ↦
          rw (is_open, empty)
            (change-IsClient ptr call (record call { buffer = some r }) c h there
              (record {
                buffer_fits = sym same;
                result_fits = k.result_fits;
                closed_last = k.closed_last;
              })
              refl (λ t. t))
    ]

deliver-IsClient : (r : Response) (c : Client) → IsClient c → IsClient (deliver_response r c)
unfolding deliver_response
deliver-IsClient r c h = elim (Option-cases (lookup r.id c.responses)) [
  | inl gone ↦ rw gone h
  | inr (ptr, e) ↦ rw e (offer-IsClient r ptr c (lookup ptr c.calls) h e refl)
]

of_call-IsClient :
    (f : Call → Client) (ptr : ℕ) (c : Client)
    → IsClient c
    → ((call : Call) → lookup ptr c.calls ≡ some call → IsClient (f call))
    → IsClient (of_call f c (lookup ptr c.calls))
of_call-IsClient f ptr c h k = elim (Option-cases (lookup ptr c.calls)) [
  | inl gone ↦ rw gone h
  | inr (call, there) ↦ rw there (k call there)
]

step-IsClient : (action : Action) (c : Client) → IsClient c → IsClient (step action c)
unfolding step
step-IsClient (start id) c h = start-IsClient id c h
step-IsClient (deliver r) c h = deliver-IsClient r c h
step-IsClient (take_response ptr) c h =
    of_call-IsClient _ ptr c h
      (λ call there. take-IsClient ptr c call call.phase call.buffer h there refl refl)
step-IsClient (give_up ptr) c h =
    of_call-IsClient _ ptr c h (λ call there. give_up-IsClient ptr c call call.phase h there refl)
step-IsClient (remove ptr) c h =
    of_call-IsClient _ ptr c h (λ call there. remove-IsClient ptr c call call.phase h there refl)
step-IsClient (close ptr) c h =
    of_call-IsClient _ ptr c h (λ call there. close-IsClient ptr c call call.phase h there refl)

run-keeps : (actions : List Action) (c : Client) → IsClient c → IsClient (run actions c)
unfolding run
run-keeps [] c h = h
run-keeps (action ∷ actions) c h = run-keeps actions (step action c) (step-IsClient action c h)

new-IsClient : IsClient new_udp_client
unfolding new_udp_client lookup
new-IsClient = record {
  are_calls = λ ptr call e. absurd (none-ne-some call e);
  are_named = λ id ptr e. absurd (none-ne-some ptr e);
  no_panic = refl;
  fresh = λ ptr call e. absurd (none-ne-some call e);
}

-- In every interleaving of calls, responses, timeouts and returns, whatever IDs the requests and the responses
-- have: no response is sent on a closed channel, a channel is closed only by a call that returns, an ID in
-- the map names a call with that ID that has not yet taken its entry out, and a call holds or returns only a
-- response with the ID of its request.
pub run-IsClient : (actions : List Action) → IsClient (run actions new_udp_client)
run-IsClient actions = run-keeps actions new_udp_client new-IsClient
