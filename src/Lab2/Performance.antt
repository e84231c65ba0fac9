-- ===== src/Lab2/Performance.antt =====
-- lab2/internal/infrastructure/network/performance.go. float64 is a parameter, and so are the times: `elapsed` is
-- the seconds since the start of the transfer. Integers go into float64 only.
pub mod Recent
pub mod Optimal
mod Examples
use nssa_ds.Base.{
  ℕ, ◌+◌, ◌<◌, Bool, true, false, List, [], ◌∷◌, ◌++◌, ltb, ◌==◌, if◌then◌else◌, length, drop,
}
use nssa_ds.Base.Map.{Key, nat_key, insert}
use nssa_ds.Base.Text.{Text}

-- What the code does with float64; `less` is `<` and `at_least` is `>=`.
pub record Doubles {ℓ} (F : Type ℓ) : Type ℓ where
  pub of_int : ℕ → F
  pub add : F → F → F
  pub mul : F → F → F
  pub div : F → F → F
  pub less : F → F → Bool
  pub at_least : F → F → Bool
  pub one_and_a_half : F

pub record PerformanceMonitor {ℓ} (F : Type ℓ) : Type ℓ where
  pub start_time : ℕ
  pub filename : Text
  pub total_bytes : ℕ
  pub transferred : ℕ
  pub packets_sent : ℕ
  pub packets_lost : ℕ
  pub retransmits : ℕ
  pub bitrates : List F
  pub buffer_tests : List (ℕ × F)

pub record TransferProgress {ℓ} (F : Type ℓ) : Type ℓ where
  pub file_name : Text
  pub total_bytes : ℕ
  pub transferred : ℕ
  pub start_time : ℕ
  pub bitrate : F
  pub percentage : F
  pub packets_sent : ℕ
  pub packets_lost : ℕ
  pub retransmits : ℕ

module _ {ℓ} {F : Type ℓ} where
  unfoldable pub new_performance_monitor : PerformanceMonitor F
  new_performance_monitor = record {
    start_time = 0;
    filename = [];
    total_bytes = 0;
    transferred = 0;
    packets_sent = 0;
    packets_lost = 0;
    retransmits = 0;
    bitrates = [];
    buffer_tests = [];
  }

  unfoldable pub start_transfer : PerformanceMonitor F → Text → ℕ → ℕ → PerformanceMonitor F
  start_transfer pm filename total_bytes now = record pm {
    filename = filename;
    total_bytes = total_bytes;
    transferred = 0;
    start_time = now;
    packets_sent = 0;
    packets_lost = 0;
    retransmits = 0;
  }

  unfoldable pub record_buffer_test : PerformanceMonitor F → ℕ → F → PerformanceMonitor F
  record_buffer_test pm buffer_size bitrate = record pm {
    buffer_tests = insert buffer_size bitrate pm.buffer_tests;
  }

  unfoldable pub update_statistics : PerformanceMonitor F → ℕ → ℕ → ℕ → PerformanceMonitor F
  update_statistics pm packets_sent packets_lost retransmits = record pm {
    packets_sent = packets_sent;
    packets_lost = packets_lost;
    retransmits = retransmits;
  }

  -- `append`, and the first one out behind a hundred.
  abbrev pub push_bitrate : List F → F → List F
  push_bitrate bitrates bitrate =
      let bitrates' = bitrates ++ (bitrate ∷ []) in
      if ltb 100 (length bitrates') then drop 1 bitrates' else bitrates'

module _ {ℓ} {F : Type ℓ} (f : Doubles F) where
  abbrev pub zero_rate : F
  zero_rate = f.of_int 0

  -- `float64(transferred) / elapsed / 1024 / 1024`
  abbrev pub bitrate_of : ℕ → F → F
  bitrate_of transferred elapsed =
      f.div (f.div (f.div (f.of_int transferred) elapsed) (f.of_int 1024)) (f.of_int 1024)

  unfoldable pub update_progress : PerformanceMonitor F → ℕ → F → PerformanceMonitor F
  update_progress pm transferred elapsed =
      if f.less zero_rate elapsed
      then record pm {
        transferred = transferred;
        bitrates = push_bitrate pm.bitrates (bitrate_of transferred elapsed);
      }
      else record pm { transferred = transferred }

  -- `total_bytes` is an int64 that is not negative.
  unfoldable pub get_progress : PerformanceMonitor F → F → TransferProgress F
  get_progress pm elapsed = record {
    file_name = pm.filename;
    total_bytes = pm.total_bytes;
    transferred = pm.transferred;
    start_time = pm.start_time;
    bitrate = if f.less zero_rate elapsed then bitrate_of pm.transferred elapsed else zero_rate;
    percentage =
        if ltb 0 pm.total_bytes
        then f.mul (f.div (f.of_int pm.transferred) (f.of_int pm.total_bytes)) (f.of_int 100)
        else zero_rate;
    packets_sent = pm.packets_sent;
    packets_lost = pm.packets_lost;
    retransmits = pm.retransmits;
  }

  -- The loop over the tests, in the order of the list.
  unfoldable pub best_test : List (ℕ × F) → ℕ × F → ℕ × F
  best_test [] best = best
  best_test ((size, bitrate) ∷ tests) best =
      best_test tests (if f.less best.1 bitrate then (size, bitrate) else best)

  abbrev pub optimal_of : List (ℕ × F) → ℕ × F
  optimal_of [] = (8192, zero_rate)
  optimal_of (test ∷ tests) = best_test (test ∷ tests) (0, zero_rate)

  unfoldable pub calculate_optimal_buffer_size : PerformanceMonitor F → ℕ × F
  calculate_optimal_buffer_size pm = optimal_of pm.buffer_tests

  unfoldable pub sum_of : List F → F → F
  sum_of [] sum = sum
  sum_of (bitrate ∷ bitrates) sum = sum_of bitrates (f.add sum bitrate)

  abbrev pub average : List F → F
  average bitrates = f.div (sum_of bitrates zero_rate) (f.of_int (length bitrates))

  unfoldable pub compare_with_tcp : PerformanceMonitor F → F → F × Bool
  compare_with_tcp pm tcp_bitrate = if length pm.bitrates == 0 then (zero_rate, false) else (
    f.div (average pm.bitrates) tcp_bitrate,
    f.at_least (f.div (average pm.bitrates) tcp_bitrate) f.one_and_a_half,
  )

  unfoldable pub get_statistics : PerformanceMonitor F → ℕ × ℕ × ℕ × F
  get_statistics pm = (
    pm.packets_sent,
    pm.packets_lost,
    pm.retransmits,
    (if ltb 0 (length pm.bitrates) then average pm.bitrates else zero_rate),
  )
