-- ===== src/Lab4/Server/Late.antt =====
-- Two datagrams that arrive before a task runs: the tasks share the buffer of the loop.
use nssa_ds.Base.{
  ℕ, ◌+◌, ◌^◌, ◌≤◌, ◌<◌, ◌≡◌, ◌∙◌, ap, List, [], ◌∷◌, ◌++◌, Option, some, arith, length, take, drop,
  append_assoc, take-append_exact, take-append_less,
}
use nssa_ds.Base.Map.{string_key, lookup}
use nssa_ds.Base.Bytes.{Bytes}
use nssa_ds.Base.Text.{Text}
use nssa_ds.Lab4.Server.{Setup, Task, Listener, ServiceStats, receive, run_task}
use nssa_ds.Lab4.Server.Average.{Counts}
use nssa_ds.Lab4.Server.Handled.{outcome, run_task-Handled}
use mathlib.Core.Option.{bind}

-- Two datagrams arrive, and then their tasks run.
abbrev pub late : Setup → Task → Bytes → Task → Bytes → Listener → Option Listener
late e one first two second l =
    bind (run_task e (receive e two second (receive e one first l))) (run_task e)

-- Two datagrams arrive before the first task runs, the second at least as long as the first: the first
-- client gets the answer to the front of the second datagram, of its own datagram's length, and the bytes of
-- its own request are handled by no task. The service panics on neither.
pub late-Handled :
    (e : Setup) (one two : Task) (first second : Bytes) (n sum : ℕ) (l : Listener)
    (stats : ServiceStats) (out more : List (Text × Bytes))
    → l.tasks ≡ []
    → lookup e.name l.stats ≡ some stats
    → Counts n sum stats
    → n + 2 < 2 ^ 63
    → sum + one.took + two.took < 2 ^ 63
    → length (take e.max_packet_size first) ≤ length (take e.max_packet_size second)
    → outcome e one (take (length (take e.max_packet_size first)) (take e.max_packet_size second))
      ≡ some out
    → outcome e two (take e.max_packet_size second) ≡ some more
    → (l' : Listener) × (late e one first two second l ≡ some l')
      × (l'.sent ≡ l.sent ++ (out ++ more))
      × (l'.tasks ≡ [])
unfolding receive outcome bind
late-Handled e one two first second n sum l stats out more free there c h k le o p =
    let a = take e.max_packet_size first in
    let b = take e.max_packet_size second in
    let one' : Task = record one { size = length a } in
    let two' : Task = record two { size = length b } in
    let behind = drop (length b) (a ++ drop (length a) l.buffer) in
    let both = receive e two second (receive e one first l) in
    let (l1, is_l1, same, h1) =
      run_task-Handled e one' (two' ∷ []) (take (length a) b) n sum both stats out
        (ap (λ t. (t ++ (one' ∷ [])) ++ (two' ∷ [])) free) (take-append_less (length a) b behind le)
        there c (omega arith) (omega arith) o in
    let (l2, is_l2, _, h2) =
      run_task-Handled e two' [] b (n + 1) (sum + one.took) l1 h1.stats more h1.same_tasks
        (ap (take (length b)) same ∙ take-append_exact b behind) h1.has_stats h1.counts
        (omega arith) (omega arith) p in
    (
      l2,
      rw is_l1 is_l2,
      h2.sent ∙ ap (λ t. t ++ more) h1.sent ∙ append_assoc l.sent out more,
      h2.same_tasks,
    )
