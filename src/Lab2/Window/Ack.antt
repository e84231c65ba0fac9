-- ===== src/Lab2/Window/Ack.antt =====
-- `AckPacket`: how far the base moves, and what is dropped with it.
use nssa_ds.Base.{
  ℕ, zero, suc, ◌+◌, ◌-◌, ◌%◌, ◌≤◌, ◌<◌, ◌≡◌, refl, ◌∙◌, inl, inr, Bool, true, false, List, [], ◌∷◌,
  Option, none, some, arith, length, ltb, ◌==◌, if◌then◌else◌, if_same, Bool-cases,
}
use nssa_ds.Base.Map.{nat_key, lookup, insert, erase, lookup-erase, length-erase_lt}
use nssa_ds.Lab2.Window.{SlidingWindow, u32, or_false, is_acked, slide, advance, ack_packet}

-- How far `seq` lies ahead of `base`, on the circle of uint32.
abbrev pub ahead : ℕ → ℕ → ℕ
ahead base seq = (seq + u32 - base) % u32

acked_some : (o : Option Bool) → or_false o ≡ true → o ≡ some true
acked_some none h = cc
acked_some (some b) h = ground arith

no_entry : (seq : ℕ) (m : List (ℕ × Bool)) → length m ≤ 0 → or_false (lookup seq m) ≡ false
unfolding lookup
no_entry seq [] h = refl
no_entry seq (e ∷ m) h = elim h [ ]

slide-shorter :
    (w : SlidingWindow) (fuel : ℕ)
    → is_acked w.base_seq w ≡ true
    → length w.acked ≤ suc fuel
    → length (slide w).acked ≤ fuel
unfolding slide
slide-shorter w fuel more h =
    let e = acked_some (lookup w.base_seq w.acked) more in
    omega (arith, length-erase_lt w.base_seq w.acked true e)

-- The loop ends by its test.
advance-settled :
    (fuel : ℕ) (w : SlidingWindow)
    → length w.acked ≤ fuel
    → is_acked (advance fuel w).base_seq (advance fuel w) ≡ false
unfolding advance
advance-settled zero w h = no_entry w.base_seq w.acked (omega arith)
advance-settled (suc fuel) w h = elim (Bool-cases (is_acked w.base_seq w)) [
  | inl more ↦ rw (more, advance) (advance-settled fuel (slide w) (slide-shorter w fuel more h))
  | inr done ↦ rw (done, advance) done
]

-- What `k` rounds leave of a map: the keys less than `k` ahead of the base are gone.
abbrev pub Dropped {ℓ} : {V : Type ℓ} → ℕ → ℕ → List (ℕ × V) → List (ℕ × V) → Type ℓ
Dropped base k m m' =
    (seq : ℕ) → seq < u32 → lookup seq m' ≡ (if ltb (ahead base seq) k then none else lookup seq m)

-- `v` is `w` after `k` rounds, each over a number that was acknowledged.
pub record Advanced (w v : SlidingWindow) (k : ℕ) : Type 0 where
  pub base_moved : v.base_seq ≡ (w.base_seq + k) % u32
  pub next_kept : v.next_seq ≡ w.next_seq
  pub size_kept : v.window_size ≡ w.window_size
  pub buffer_dropped : Dropped w.base_seq k w.buffer v.buffer
  pub acked_dropped : Dropped w.base_seq k w.acked v.acked
  pub run_acked : (j : ℕ) → j < k → is_acked ((w.base_seq + j) % u32) w ≡ true

Advanced-zero : (w : SlidingWindow) → w.base_seq < u32 → Advanced w w 0
Advanced-zero w h = record {
  base_moved = omega arith;
  next_kept = refl;
  size_kept = refl;
  buffer_dropped = λ seq _. ground arith;
  acked_dropped = λ seq _. ground arith;
  run_acked = λ j h. elim h [ ];
}

ahead_next :
    (base seq k : ℕ)
    → base < u32
    → seq < u32
    → (base == seq) ≡ false
    → ltb (ahead ((base + 1) % u32) seq) k ≡ ltb (ahead base seq) (suc k)
ahead_next base seq k hb hs miss = ground arith

ahead_self :
    (base seq k : ℕ) → base < u32 → (base == seq) ≡ true → ltb (ahead base seq) (suc k) ≡ true
ahead_self base seq k hb hit = ground arith

-- One round more, in front.
Dropped-erase {ℓ} :
    {V : Type ℓ} (base k : ℕ) (m m' : List (ℕ × V))
    → base < u32
    → Dropped ((base + 1) % u32) k (erase base m) m'
    → Dropped base (suc k) m m'
Dropped-erase base k m m' hb d seq h =
    d seq h
    ∙ rw (lookup-erase base seq m) (elim (Bool-cases (base == seq)) [
      | inl hit ↦ rw (hit, ahead_self base seq k hb hit, if_same)
      | inr miss ↦ rw (miss, ahead_next base seq k hb h miss)
    ])

kept_acked :
    (o o' : Option Bool) (b : Bool)
    → o' ≡ (if b then none else o)
    → or_false o' ≡ true
    → or_false o ≡ true
kept_acked o o' b e h = ground arith

run_acked-slide :
    (w : SlidingWindow) (k : ℕ)
    → w.base_seq < u32
    → is_acked w.base_seq w ≡ true
    → ((j : ℕ) → j < k → is_acked (((slide w).base_seq + j) % u32) (slide w) ≡ true)
    → (j : ℕ) → j < suc k
    → is_acked ((w.base_seq + j) % u32) w ≡ true
unfolding slide
run_acked-slide w k h more rest zero lt =
    let e : (w.base_seq + 0) % u32 ≡ w.base_seq = omega arith in rw e more
run_acked-slide w k h more rest (suc j) lt =
    let e : ((w.base_seq + 1) % u32 + j) % u32 ≡ (w.base_seq + suc j) % u32 = omega arith in
    let seq = (w.base_seq + suc j) % u32 in
    kept_acked _ _ (w.base_seq == seq) (lookup-erase w.base_seq seq w.acked)
      (rw e at (rest j (omega arith)))

Advanced-slide :
    (w v : SlidingWindow) (k : ℕ)
    → w.base_seq < u32
    → is_acked w.base_seq w ≡ true
    → Advanced (slide w) v k
    → Advanced w v (suc k)
unfolding slide
Advanced-slide w v k h more a = record {
  base_moved = omega (arith, a);
  next_kept = a.next_kept;
  size_kept = a.size_kept;
  buffer_dropped = Dropped-erase w.base_seq k w.buffer v.buffer h a.buffer_dropped;
  acked_dropped = Dropped-erase w.base_seq k w.acked v.acked h a.acked_dropped;
  run_acked = run_acked-slide w k h more a.run_acked;
}

-- The rounds that `advance` makes.
rounds : ℕ → SlidingWindow → ℕ
rounds zero w = 0
rounds (suc fuel) w = elim (is_acked w.base_seq w) [
  | true ↦ suc (rounds fuel (slide w))
  | false ↦ 0
]

advance-Advanced :
    (fuel : ℕ) (w : SlidingWindow) → w.base_seq < u32 → Advanced w (advance fuel w) (rounds fuel w)
unfolding advance rounds
advance-Advanced zero w h = Advanced-zero w h
advance-Advanced (suc fuel) w h = elim (Bool-cases (is_acked w.base_seq w)) [
  | inl more ↦
      rw (more, advance, rounds)
        (Advanced-slide w _ _ h more
          (advance-Advanced fuel (slide w) (unfold slide in omega arith)))
  | inr done ↦ rw (done, advance, rounds) (Advanced-zero w h)
]

abbrev pub mark : SlidingWindow → ℕ → SlidingWindow
mark w seq = record w { acked = insert seq true w.acked }

-- `AckPacket` marks the number, drops the longest run of acknowledged numbers that begins at the
-- base, and moves the base past it. All other entries of both maps stay. The base is a uint32.
pub ack_packet-Advanced :
    (w : SlidingWindow) (seq : ℕ)
    → w.base_seq < u32
    → (k : ℕ) × Advanced (mark w seq) (ack_packet w seq) k
      × (is_acked (ack_packet w seq).base_seq (ack_packet w seq) ≡ false)
unfolding ack_packet
ack_packet-Advanced w seq h = (
  rounds (length (mark w seq).acked) (mark w seq),
  advance-Advanced (length (mark w seq).acked) (mark w seq) h,
  advance-settled (length (mark w seq).acked) (mark w seq) (omega arith),
)
