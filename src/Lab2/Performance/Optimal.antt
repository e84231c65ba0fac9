-- ===== src/Lab2/Performance/Optimal.antt =====
-- The buffer size that CalculateOptimalBufferSize chooses.
use nssa_ds.Base.{
  ℕ, ◌≡◌, ◌⊎◌, refl, sym, ◌∙◌, ap, inl, inr, true, false, Bool-cases, List, [], ◌∷◌, ◌++◌, All,
}
use nssa_ds.Lab2.Performance.{
  Doubles, PerformanceMonitor, zero_rate, best_test, calculate_optimal_buffer_size,
}

-- `<` of float64: transitive, and false for a number and itself.
pub record IsOrder {ℓ} {F : Type ℓ} (f : Doubles F) : Type ℓ where
  pub irrefl : (x : F) → f.less x x ≡ false
  pub trans : (x y z : F) → f.less x y ≡ true → f.less y z ≡ true → f.less x z ≡ true

module _ {ℓ} {F : Type ℓ} where
  abbrev pub AtMost : Doubles F → F → ℕ × F → Type 0
  AtMost f best test = f.less best test.1 ≡ false

  -- A test is in the list.
  abbrev pub Occurs : ℕ × F → List (ℕ × F) → Type ℓ
  Occurs test tests =
      (before : List (ℕ × F)) × (after : List (ℕ × F)) × (tests ≡ before ++ (test ∷ after))

module _ {ℓ} {F : Type ℓ} (f : Doubles F) (o : IsOrder f) where
  record Best (tests : List (ℕ × F)) (start best : ℕ × F) : Type ℓ where
    origin : (best ≡ start) ⊎ (Occurs best tests × (f.less start.1 best.1 ≡ true))
    most : All (AtMost f best.1) tests
    keeps : (x : F) → f.less start.1 x ≡ false → f.less best.1 x ≡ false

  rises : (x y z : F) → f.less x y ≡ true → f.less x z ≡ false → f.less y z ≡ false
  rises x y z h k = elim (Bool-cases (f.less y z)) [
    | inr e ↦ e
    | inl e ↦ let no : true ≡ false = sym (o.trans x y z h e) ∙ k in cc
  ]

  abbrev Origin : List (ℕ × F) → ℕ × F → ℕ × F → Type ℓ
  Origin tests start best = (best ≡ start) ⊎ (Occurs best tests × (f.less start.1 best.1 ≡ true))

  later-Origin :
      (test : ℕ × F) (tests : List (ℕ × F)) (start best : ℕ × F)
      → Origin tests start best
      → Origin (test ∷ tests) start best
  later-Origin test tests start best (inl e) = inl e
  later-Origin test tests start best (inr ((before, after, e), g)) =
      inr ((test ∷ before, after, ap (◌∷◌ test) e), g)

  from-Origin :
      (test : ℕ × F) (tests : List (ℕ × F)) (start best : ℕ × F)
      → f.less start.1 test.1 ≡ true
      → Origin tests test best
      → Origin (test ∷ tests) start best
  from-Origin test tests start best h (inl e) =
      inr (([], tests, ap (λ t. t ∷ tests) (sym e)), rw e h)
  from-Origin test tests start best h (inr ((before, after, e), g)) =
      inr ((test ∷ before, after, ap (◌∷◌ test) e), o.trans start.1 test.1 best.1 h g)

  best_test-Best :
      (tests : List (ℕ × F)) (start : ℕ × F) → Best tests start (best_test f tests start)
  unfolding best_test
  best_test-Best [] start = record { origin = inl refl; most = tt; keeps = λ x h. h }
  best_test-Best (test ∷ tests) start = elim (Bool-cases (f.less start.1 test.1)) [
    | inr low ↦
        let b = best_test-Best tests start in
        rw low (record {
          origin = later-Origin test tests start _ b.origin;
          most = (b.keeps test.1 low, b.most);
          keeps = b.keeps;
        })
    | inl high ↦
        let b = best_test-Best tests test in
        rw high (record {
          origin = from-Origin test tests start _ high b.origin;
          most = (b.keeps test.1 (o.irrefl test.1), b.most);
          keeps = λ x h. b.keeps x (rises start.1 test.1 x high h);
        })
  ]

  -- The chosen size and bitrate, where there are tests, in whichever order the map is read: no test has a higher
  -- bitrate, and they are one of the tests, with a bitrate above 0; or they are 0 and 0. `<` is
  -- transitive, and false for a number and itself.
  pub calculate_optimal_buffer_size-Best :
      (pm : PerformanceMonitor F) (test : ℕ × F) (tests : List (ℕ × F))
      → pm.buffer_tests ≡ test ∷ tests
      → All (AtMost f (calculate_optimal_buffer_size f pm).1) pm.buffer_tests
        × ((calculate_optimal_buffer_size f pm ≡ (0, zero_rate f))
            ⊎ (Occurs (calculate_optimal_buffer_size f pm) pm.buffer_tests
                × (f.less (zero_rate f) (calculate_optimal_buffer_size f pm).1 ≡ true)))
  unfolding calculate_optimal_buffer_size
  calculate_optimal_buffer_size-Best pm test tests e =
      let b = best_test-Best (test ∷ tests) (0, zero_rate f) in
      rw (calculate_optimal_buffer_size, e) (b.most, b.origin)
