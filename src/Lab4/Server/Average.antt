-- ===== src/Lab4/Server/Average.antt =====
-- The counters of a service and its average time, against the sum of the times.
use nssa_ds.Base.{
  ℕ, ◌+◌, ◌-◌, ◌*◌, ◌/◌, ◌%◌, ◌^◌, ◌≤◌, ◌<◌, ◌≡◌, refl, sym, ◌∙◌, ap, true, arith, ltb,
}
use native.Mathlib.Nat.{mod-lt, div-add-mod}
use nssa_ds.Lab4.Server.{ServiceStats, w64, s64_div, received, processed}

-- After `n` requests that took `sum` together: the average is the mean, less at most half their number.
pub record Counts (n sum : ℕ) (stats : ServiceStats) : Type 0 where
  pub all_received : stats.requests_received ≡ n
  pub all_processed : stats.requests_processed ≡ n
  pub not_above : stats.avg_response_time * n ≤ sum
  pub not_below : 2 * sum ≤ 2 * (stats.avg_response_time * n) + n * n

s64_div-small : (a b : ℕ) → a < 2 ^ 63 → b < 2 ^ 63 → s64_div a b ≡ a / b
s64_div-small a b h k =
    let p : ltb a (2 ^ 63) ≡ true = ground arith in
    let q : ltb b (2 ^ 63) ≡ true = ground arith in rw (p, q) refl

-- One round of the running mean.
mean_step :
    (avg n sum took q : ℕ)
    → avg * n ≤ sum
    → 2 * sum ≤ 2 * (avg * n) + n * n
    → q ≡ (avg * n + took) / (n + 1)
    → (q * (n + 1) ≤ sum + took) × (2 * (sum + took) ≤ 2 * (q * (n + 1)) + (n + 1) * (n + 1))
mean_step avg n sum took q below above e =
    let total = avg * n + took in
    let rest = total % (n + 1) in
    let lt : rest < n + 1 = mod-lt total (omega arith) in
    let split : total ≡ (n + 1) * q + rest =
      sym (div-add-mod total (n + 1)) ∙ ap (λ t. (n + 1) * t + rest) (sym e) in
    let square : (n + 1) * (n + 1) ≡ n * n + 2 * n + 1 = grind arith in
    let turn : (n + 1) * q ≡ q * (n + 1) = grind arith in
    (omega (arith, split, turn, below), omega (arith, split, turn, square, lt, below, above))

pub processed-Counts :
    (n sum started took : ℕ) (stats : ServiceStats)
    → Counts n sum stats
    → n + 1 < 2 ^ 63
    → sum + took < 2 ^ 63
    → Counts (n + 1) (sum + took) (processed took (received started stats))
unfolding processed
processed-Counts n sum started took stats c h k =
    let avg = stats.avg_response_time in
    let next : (stats.requests_processed + 1) % w64 ≡ n + 1 = omega (arith, c.all_processed) in
    let before : (n + 1 + (w64 - 1)) % w64 ≡ n = omega arith in
    let total : (avg * n + took) % w64 ≡ avg * n + took = omega (arith, c.not_above) in
    let quotient = s64_div-small (avg * n + took) (n + 1) (omega (arith, c.not_above)) h in
    let (below, above) =
      mean_step avg n sum took ((avg * n + took) / (n + 1)) c.not_above c.not_below refl in
    record {
      all_received = omega (arith, c.all_received);
      all_processed = next;
      not_above = rw (next, before, total, quotient) below;
      not_below = rw (next, before, total, quotient) above;
    }
