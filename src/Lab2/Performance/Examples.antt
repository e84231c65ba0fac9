-- ===== src/Lab2/Performance/Examples.antt =====
-- The monitor over whole numbers in place of float64: two calls of UpdateProgress, and two tests.
use nssa_ds.Base.{
  ℕ, ◌+◌, ◌*◌, ◌/◌, ◌≤◌, ◌≡◌, ◌⊎◌, refl, true, [], ◌∷◌, ◌++◌, List, All, arith, ltb, leb, length,
}
use nssa_ds.Base.Map.{insert}
use nssa_ds.Lab2.Performance.{
  Doubles, PerformanceMonitor, zero_rate, new_performance_monitor, record_buffer_test,
  calculate_optimal_buffer_size,
}
use nssa_ds.Lab2.Performance.Recent.{update_all, rates_of, recent, update_all-recent}
use nssa_ds.Lab2.Performance.Optimal.{IsOrder, AtMost, Occurs, calculate_optimal_buffer_size-Best}

abbrev whole : Doubles ℕ
whole = record {
  of_int = λ n. n;
  add = λ a b. a + b;
  mul = λ a b. a * b;
  div = λ a b. a / b;
  less = ltb;
  at_least = λ a b. leb b a;
  one_and_a_half = 1;
}

whole-IsOrder : IsOrder whole
whole-IsOrder = record { irrefl = λ x. ground arith; trans = λ x y z h k. ground (arith, h, k) }

abbrev calls : List (ℕ × ℕ)
calls = (4194304, 2) ∷ ((8388608, 0) ∷ [])

update_all-recent_example :
    ((update_all whole calls new_performance_monitor).bitrates
      ≡ recent (new_performance_monitor.bitrates ++ rates_of whole calls))
    × (length (update_all whole calls new_performance_monitor).bitrates ≤ 100)
unfolding new_performance_monitor
update_all-recent_example = update_all-recent whole calls new_performance_monitor (omega arith)

abbrev tested : PerformanceMonitor ℕ
tested = record_buffer_test (record_buffer_test new_performance_monitor 512 3) 1024 5

calculate_optimal_buffer_size-Best_example :
    All (AtMost whole (calculate_optimal_buffer_size whole tested).1) tested.buffer_tests
    × ((calculate_optimal_buffer_size whole tested ≡ (0, zero_rate whole))
        ⊎ (Occurs (calculate_optimal_buffer_size whole tested) tested.buffer_tests
            × (ltb 0 (calculate_optimal_buffer_size whole tested).1 ≡ true)))
unfolding record_buffer_test new_performance_monitor insert
calculate_optimal_buffer_size-Best_example =
    calculate_optimal_buffer_size-Best whole whole-IsOrder tested (512, 3) ((1024, 5) ∷ []) refl
