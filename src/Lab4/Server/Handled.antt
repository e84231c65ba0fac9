-- ===== src/Lab4/Server/Handled.antt =====
-- One request: what goes out for it, and what the counters have of it.
use nssa_ds.Base.{
  ℕ, inl, inr, Option-cases, ◌+◌, ◌^◌, ◌<◌, ◌≡◌, refl, sym, ◌∙◌, ap, List, [], ◌∷◌, ◌++◌, Option,
  none, some, take, append-nil,
}
use nssa_ds.Base.Map.{string_key, lookup, insert, lookup-insert_same}
use nssa_ds.Base.Bytes.{Bytes}
use nssa_ds.Base.Text.{Text}
use nssa_ds.Lab4.Server.{
  Setup, Task, Listener, Response, ServiceStats, received, processed, parse_request,
  process_request, reply_of, write_to, send_response, update_stats, finish, handle_request,
  run_task,
}
use nssa_ds.Lab4.Server.Average.{Counts, processed-Counts}
use mathlib.Core.Option.{map as option_map}

abbrev pub one_to {ℓ} : {A : Type ℓ} → Text → Option A → List (Text × A)
one_to client_addr none = []
one_to client_addr (some a) = (client_addr, a) ∷ []

-- What goes out for a response.
abbrev pub answers : Setup → Task → Response → List (Text × Bytes)
answers e task response = one_to task.client_addr (e.marshal (reply_of response response.error))

-- What goes out for a request of these bytes; none where the service panics.
unfoldable pub outcome : Setup → Task → Bytes → Option (List (Text × Bytes))
outcome e task items =
    option_map (answers e task)
      (process_request e (parse_request e items task.client_addr task.uuid).0)

-- A request handled: its answer is sent last, and the counters have it.
pub record Handled (e : Setup) (n sum : ℕ) (l : Listener) (out : List (Text × Bytes))
    (l' : Listener) : Type 0 where
  pub sent : l'.sent ≡ l.sent ++ out
  pub same_tasks : l'.tasks ≡ l.tasks
  pub stats : ServiceStats
  pub has_stats : lookup e.name l'.stats ≡ some stats
  pub counts : Counts n sum stats

write_to-one_to :
    (addr : Text) (items : Option Bytes) (l : Listener)
    → write_to addr items l ≡ record l { sent = l.sent ++ one_to addr items }
write_to-one_to addr none l = ap (λ t. record l { sent = t }) (sym (append-nil l.sent))
write_to-one_to addr (some items) l = refl

finish-Handled :
    (e : Setup) (task : Task) (response : Response) (n sum : ℕ) (l : Listener)
    (stats : ServiceStats)
    → lookup e.name l.stats ≡ some stats
    → Counts n sum (processed task.took stats)
    → (l' : Listener) × (finish e task (some response) l ≡ some l')
      × (l'.buffer ≡ l.buffer)
      × Handled e n sum l (answers e task response) l'
unfolding update_stats send_response
finish-Handled e task response n sum l stats there c =
    let new = processed task.took stats in
    let l' : Listener = record l { stats = insert e.name new l.stats } in
    (
      record l' { sent = l.sent ++ answers e task response },
      rw there (
          ap some
            (write_to-one_to task.client_addr (e.marshal (reply_of response response.error)) l')),
      refl,
      record {
        sent = refl;
        same_tasks = refl;
        stats = new;
        has_stats = lookup-insert_same e.name new l.stats;
        counts = c;
      },
    )

pub handle_request-Handled :
    (e : Setup) (task : Task) (items : Bytes) (n sum : ℕ) (l : Listener) (stats : ServiceStats)
    (out : List (Text × Bytes))
    → lookup e.name l.stats ≡ some stats
    → Counts n sum stats
    → n + 1 < 2 ^ 63
    → sum + task.took < 2 ^ 63
    → outcome e task items ≡ some out
    → (l' : Listener) × (handle_request e task items l ≡ some l')
      × (l'.buffer ≡ l.buffer)
      × Handled e (n + 1) (sum + task.took) l out l'
unfolding handle_request parse_request outcome update_stats
handle_request-Handled e task items n sum l stats out there c h k o =
    let request = (parse_request e items task.client_addr task.uuid).0 in
    let new = received task.started stats in
    let l1 : Listener = record l { stats = insert e.name new l.stats } in
    elim (Option-cases (process_request e request)) [
      | inl gone ↦ let bad : none ≡ some out = rw gone at o in cc
      | inr (response, is_response) ↦
          let (l', is_result, same, handled) =
            finish-Handled e task response (n + 1) (sum + task.took) l1 new
              (lookup-insert_same e.name new l.stats)
              (processed-Counts n sum task.started task.took stats c h k) in
          let is_out : answers e task response ≡ out =
            let same : some (answers e task response) ≡ some out = rw is_response at o in cc in
          (
            l',
            rw (there, is_response) is_result,
            same,
            record {
              sent = handled.sent ∙ ap (λ t. l.sent ++ t) is_out;
              same_tasks = handled.same_tasks;
              stats = handled.stats;
              has_stats = handled.has_stats;
              counts = handled.counts;
            },
          )
    ]

-- A task at the head of the queue, with what its slice holds when it runs.
pub run_task-Handled :
    (e : Setup) (task : Task) (tasks : List Task) (items : Bytes) (n sum : ℕ) (l : Listener)
    (stats : ServiceStats) (out : List (Text × Bytes))
    → l.tasks ≡ task ∷ tasks
    → take task.size l.buffer ≡ items
    → lookup e.name l.stats ≡ some stats
    → Counts n sum stats
    → n + 1 < 2 ^ 63
    → sum + task.took < 2 ^ 63
    → outcome e task items ≡ some out
    → (l' : Listener) × (run_task e l ≡ some l')
      × (l'.buffer ≡ l.buffer)
      × Handled e (n + 1) (sum + task.took) (record l { tasks = tasks }) out l'
unfolding run_task
run_task-Handled e task tasks items n sum l stats out queue seen there c h k o =
    let (l', is_result, same, handled) =
      handle_request-Handled e task items n sum (record l { tasks = tasks }) stats out there c h k
        o in
    (l', rw (run_task, queue, seen) is_result, same, handled)
