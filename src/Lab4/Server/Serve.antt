-- ===== src/Lab4/Server/Serve.antt =====
-- A listener whose tasks each run before the next datagram arrives, against the answers that its service
-- gives.
use nssa_ds.Base.{
  ℕ, take-append_exact, ◌+◌, ◌^◌, ◌<◌, ◌≡◌, refl, sym, ◌∙◌, ap, List, [], ◌∷◌, ◌++◌, Option, none,
  some, arith, length, take, drop, append-nil, append_assoc,
}
use nssa_ds.Base.Map.{string_key, lookup}
use nssa_ds.Base.Bytes.{Bytes}
use nssa_ds.Base.Text.{Text}
use nssa_ds.Lab4.Server.{Setup, Task, Listener, ServiceStats, receive, run_task}
use nssa_ds.Lab4.Server.Average.{Counts}
use mathlib.Core.Option.{map as option_map, bind, some-injective, none-ne-some}
use nssa_ds.Lab4.Server.Handled.{outcome, Handled, run_task-Handled}

-- Each datagram arrives, and its task runs before the next one does.
unfoldable pub serve : Setup → List (Task × Bytes) → Listener → Option Listener
serve e [] l = some l
serve e ((task, datagram) ∷ rest) l = bind (run_task e (receive e task datagram l)) (serve e rest)

-- The answers to the datagrams one by one, each cut to the size of the buffer.
unfoldable pub replies : Setup → List (Task × Bytes) → Option (List (Text × Bytes))
replies e [] = some []
replies e ((task, datagram) ∷ rest) =
    bind (outcome e task (take e.max_packet_size datagram))
      (λ out. option_map (λ more. out ++ more) (replies e rest))

abbrev pub total_time : List (Task × Bytes) → ℕ
total_time [] = 0
total_time ((task, _) ∷ rest) = task.took + total_time rest

serve_one :
    (e : Setup) (task : Task) (datagram : Bytes) (n sum : ℕ) (l : Listener) (stats : ServiceStats)
    (out : List (Text × Bytes))
    → l.tasks ≡ []
    → lookup e.name l.stats ≡ some stats
    → Counts n sum stats
    → n + 1 < 2 ^ 63
    → sum + task.took < 2 ^ 63
    → outcome e task (take e.max_packet_size datagram) ≡ some out
    → (l' : Listener) × (run_task e (receive e task datagram l) ≡ some l')
      × Handled e (n + 1) (sum + task.took) l out l'
unfolding receive outcome
serve_one e task datagram n sum l stats out free there c h k o =
    let items = take e.max_packet_size datagram in
    let behind = drop (length items) l.buffer in
    let (l', is_result, _, handled) =
      run_task-Handled e (record task { size = length items }) [] items n sum
        (receive e task datagram l) stats out
        (ap (λ t. t ++ (record task { size = length items } ∷ [])) free)
        (take-append_exact items behind) there c h k o in
    (
      l',
      is_result,
      record {
        sent = handled.sent;
        same_tasks = handled.same_tasks ∙ sym free;
        stats = handled.stats;
        has_stats = handled.has_stats;
        counts = handled.counts;
      },
    )

-- The parts of an answer to several datagrams.
replies-split :
    (a b : Option (List (Text × Bytes))) (out : List (Text × Bytes))
    → bind a (λ first. option_map (λ more. first ++ more) b) ≡ some out
    → (first : List (Text × Bytes)) × (more : List (Text × Bytes)) × (a ≡ some first)
      × (b ≡ some more)
      × (first ++ more ≡ out)
unfolding bind
replies-split none b out o = absurd (none-ne-some _ o)
replies-split (some first) none out o = absurd (none-ne-some _ o)
replies-split (some first) (some more) out o = (first, more, refl, refl, some-injective _ _ o)

Handled-trans :
    (e : Setup) (n n' sum sum' : ℕ) (l l' l'' : Listener) (first more out : List (Text × Bytes))
    (stats : ServiceStats)
    → l'.sent ≡ l.sent ++ first
    → l'.tasks ≡ l.tasks
    → first ++ more ≡ out
    → n ≡ n'
    → sum ≡ sum'
    → Handled e n sum l' more l''
    → Handled e n' sum' l out l''
Handled-trans e n n' sum sum' l l' l'' first more out stats s t f a b h = record {
  sent = h.sent ∙ ap (λ t. t ++ more) s ∙ append_assoc l.sent first more ∙ ap (λ t. l.sent ++ t) f;
  same_tasks = h.same_tasks ∙ t;
  stats = h.stats;
  has_stats = h.has_stats;
  counts = rw (sym a, sym b) h.counts;
}

-- A listener with no task left, whose tasks each run before the next datagram arrives: every
-- datagram gets the answer of the service to its own bytes, cut to the size of the buffer, at its own
-- address and in order; no task is left; and the counters have as many requests received and
-- processed, with an average time that is the mean of the times or below it by half their number at most. The
-- service does not panic, and the sum of the times is below 2 ^ 63.
pub serve-Handled :
    (e : Setup) (arrivals : List (Task × Bytes)) (n sum : ℕ) (l : Listener) (stats : ServiceStats)
    (out : List (Text × Bytes))
    → l.tasks ≡ []
    → lookup e.name l.stats ≡ some stats
    → Counts n sum stats
    → n + length arrivals < 2 ^ 63
    → sum + total_time arrivals < 2 ^ 63
    → replies e arrivals ≡ some out
    → (l' : Listener) × (serve e arrivals l ≡ some l')
      × Handled e (n + length arrivals) (sum + total_time arrivals) l out l'
unfolding serve replies bind
serve-Handled e [] n sum l stats out free there c h k o = (
  l,
  refl,
  record {
    sent = sym (append-nil l.sent) ∙ ap (λ t. l.sent ++ t) (some-injective [] out o);
    same_tasks = refl;
    stats = stats;
    has_stats = there;
    counts = let a : n + 0 ≡ n = omega arith in let b : sum + 0 ≡ sum = omega arith in rw (a, b) c;
  },
)
serve-Handled e ((task, datagram) ∷ rest) n sum l stats out free there c h k o =
    let (first, more, is_first, is_more, whole) =
      replies-split (outcome e task (take e.max_packet_size datagram)) (replies e rest) out o in
    let (l', is_l', one) =
      serve_one e task datagram n sum l stats first free there c (omega arith) (omega arith)
        is_first in
    let (l'', is_l'', others) =
      serve-Handled e rest (n + 1) (sum + task.took) l' one.stats more (one.same_tasks ∙ free)
        one.has_stats one.counts (omega arith) (omega arith) is_more in
    (
      l'',
      rw is_l' is_l'',
      Handled-trans e _ _ _ _ l l' l'' first more out one.stats one.sent one.same_tasks whole
          (omega arith) (omega arith) others,
    )
