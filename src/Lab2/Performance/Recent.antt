-- ===== src/Lab2/Performance/Recent.antt =====
-- The bitrates that UpdateProgress keeps.
use nssa_ds.Base.{
  ℕ, zero, suc, ◌+◌, ◌-◌, ◌≤◌, ◌≡◌, refl, sym, ap, ◌∙◌, inl, inr, Bool-cases, List, [], ◌∷◌, ◌++◌,
  append_assoc, append-nil, arith, ltb, ltb→lt, ltb_false→le, if◌then◌else◌, length, drop,
  length-append, length-drop, drop-append_less,
}
use nssa_ds.Lab2.Performance.{
  Doubles, PerformanceMonitor, push_bitrate, zero_rate, bitrate_of, update_progress,
}

module _ {ℓ} {F : Type ℓ} where
  -- The last hundred.
  abbrev pub recent : List F → List F
  recent xs = drop (length xs - 100) xs

  drop-drop : (k : ℕ) (xs : List F) → drop 1 (drop k xs) ≡ drop (suc k) xs
  drop-drop zero xs = refl
  drop-drop (suc k) [] = refl
  drop-drop (suc k) (x ∷ xs) = drop-drop k xs

  push_bitrate-recent : (xs : List F) (y : F) → push_bitrate (recent xs) y ≡ recent (xs ++ (y ∷ []))
  push_bitrate-recent xs y =
      let n = length xs in
      let size : length (xs ++ (y ∷ [])) ≡ n + 1 = length-append xs (y ∷ []) in
      let kept : recent xs ++ (y ∷ []) ≡ drop (n - 100) (xs ++ (y ∷ [])) =
        sym (drop-append_less (n - 100) xs (y ∷ []) (omega arith)) in
      let long : length (drop (n - 100) (xs ++ (y ∷ []))) ≡ n + 1 - (n - 100) =
        length-drop (n - 100) (xs ++ (y ∷ [])) ∙ ap (λ k. k - (n - 100)) size in
      elim (Bool-cases (ltb 100 (n + 1 - (n - 100)))) [
        | inl more ↦
            let next : n + 1 - 100 ≡ suc (n - 100) = omega (arith, ltb→lt 100 _ more) in
            rw (kept, long, more, size, next) (drop-drop (n - 100) (xs ++ (y ∷ [])))
        | inr few ↦
            let same : n + 1 - 100 ≡ n - 100 = omega (arith, ltb_false→le 100 _ few) in
            rw (kept, long, few, size, same) refl
      ]

-- Transfers and their measures, as UpdateProgress is called.
module _ {ℓ} {F : Type ℓ} (f : Doubles F) where
  unfoldable pub update_all : List (ℕ × F) → PerformanceMonitor F → PerformanceMonitor F
  update_all [] pm = pm
  update_all ((transferred, elapsed) ∷ calls) pm =
      update_all calls (update_progress f pm transferred elapsed)

  -- The rates of the calls some time after the start.
  unfoldable pub rates_of : List (ℕ × F) → List F
  rates_of [] = []
  rates_of ((transferred, elapsed) ∷ calls) =
      (if f.less (zero_rate f) elapsed then bitrate_of f transferred elapsed ∷ [] else [])
      ++ rates_of calls

  update_progress-recent :
      (all : List F) (pm : PerformanceMonitor F) (transferred : ℕ) (elapsed : F)
      → pm.bitrates ≡ recent all
      → (update_progress f pm transferred elapsed).bitrates
        ≡ recent (
            all
            ++ (if f.less (zero_rate f) elapsed then bitrate_of f transferred elapsed ∷ [] else []))
  unfolding update_progress
  update_progress-recent all pm transferred elapsed e =
      elim (Bool-cases (f.less (zero_rate f) elapsed)) [
        | inl later ↦ rw (later, e) (push_bitrate-recent all (bitrate_of f transferred elapsed))
        | inr now ↦ rw (now, append-nil all) e
      ]

  update_all-grows :
      (calls : List (ℕ × F)) (all : List F) (pm : PerformanceMonitor F)
      → pm.bitrates ≡ recent all
      → (update_all calls pm).bitrates ≡ recent (all ++ rates_of calls)
  unfolding update_all rates_of
  update_all-grows [] all pm e = rw (append-nil all) e
  update_all-grows ((transferred, elapsed) ∷ calls) all pm e =
      update_all-grows calls
        (all
          ++ (if f.less (zero_rate f) elapsed then bitrate_of f transferred elapsed ∷ [] else []))
        (update_progress f pm transferred elapsed)
        (update_progress-recent all pm transferred elapsed e)
      ∙ ap recent (append_assoc all _ (rates_of calls))

  -- After any calls of UpdateProgress the monitor has the last hundred of the bitrates that it had and that the
  -- calls some time after the start brought, in order, so never more than a hundred. It had no more before.
  pub update_all-recent :
      (calls : List (ℕ × F)) (pm : PerformanceMonitor F)
      → length pm.bitrates ≤ 100
      → ((update_all calls pm).bitrates ≡ recent (pm.bitrates ++ rates_of calls))
        × (length (update_all calls pm).bitrates ≤ 100)
  update_all-recent calls pm h =
      let start : pm.bitrates ≡ recent pm.bitrates =
        let none_out : length pm.bitrates - 100 ≡ 0 = omega (arith, h) in rw none_out refl in
      let grows = update_all-grows calls pm.bitrates pm start in
      let all = pm.bitrates ++ rates_of calls in
      (grows, omega (arith, ap length grows, length-drop (length all - 100) all))
