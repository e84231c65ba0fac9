-- ===== src/Lab3/FdSet/Runs.antt =====
-- Runs of calls on a set of descriptors against the same calls on a set of numbers.
use nssa_ds.Base.{
  ℕ, zero, suc, ◌+◌, ◌-◌, ◌/◌, ◌%◌, ◌^◌, ◌≡◌, refl, ◌∙◌, ap, Bool, true, false, List, [], ◌∷◌,
  Option, none, some, arith, ltb, length, map, replicate, length-replicate, dec_lt,
}
use nssa_ds.Base.Bits.{ℤ, pos, negsuc, zero-bit}
use nssa_ds.Lab3.FdSet.{FdSet, new_fd_set, has_at, fd_set, fd_is_set, fd_zero}
use mathlib.Core.Option.{bind}
use nssa_ds.Lab3.FdSet.Refines.{
  slot, Represents, bit_test, Agree, panicked, held, added, fd_set-Agree,
}

zeros-empty : (i k : ℕ) (ws : List ℕ) → has_at i (2 ^ k) (map (λ (w : ℕ). 0) ws) ≡ false
unfolding has_at
zeros-empty i k [] = refl
zeros-empty zero k (w ∷ ws) = bit_test 0 k ∙ rw (zero-bit k) refl
zeros-empty (suc i) k (w ∷ ws) = zeros-empty i k ws

length-zeros : (ws : List ℕ) → length (map {B = ℕ} (λ (w : ℕ). 0) ws) ≡ length ws
length-zeros [] = refl
length-zeros (w ∷ ws) = ap suc (length-zeros ws)

abbrev pub nobody : ℕ → Bool
nobody n = false

fd_zero-Represents :
    (set : FdSet) (members : ℕ → Bool) → Represents set members → Represents (fd_zero set) nobody
unfolding fd_zero
fd_zero-Represents set members r = record {
  all_words = length-zeros set.bits ∙ r.all_words;
  agrees = λ n. zeros-empty (n / 32) (n % 32) set.bits;
}

new_fd_set-Represents : Represents new_fd_set nobody
new_fd_set-Represents = record {
  all_words = length-replicate {A = ℕ} 32 0;
  agrees = λ n. zeros-empty (n / 32) (n % 32) (replicate 32 0);
}

-- The calls on a set of descriptors that change it.
pub data SetOp : Type 0 where
  put : ℤ → SetOp
  clear : SetOp

abbrev step : SetOp → FdSet → Option FdSet
step (put fd) set = fd_set fd set
step clear set = some (fd_zero set)

abbrev spec_step : SetOp → (ℕ → Bool) → Option (ℕ → Bool)
spec_step (put fd) members = added members (slot fd)
spec_step clear members = some nobody

unfoldable pub run : List SetOp → FdSet → Option FdSet
run [] set = some set
run (op ∷ ops) set = bind (step op set) (run ops)

-- The same calls on a set, where a call with no slot panics.
unfoldable pub spec_run : List SetOp → (ℕ → Bool) → Option (ℕ → Bool)
spec_run [] members = some members
spec_run (op ∷ ops) members = bind (spec_step op members) (spec_run ops)

-- What a descriptor's test says.
abbrev pub spec_has : Option ℕ → (ℕ → Bool) → Option Bool
spec_has none members = none
spec_has (some n) members = some (members n)

-- A descriptor from 1024 on is in no set, and no test of it panics.
abbrev pub read_slot : ℤ → Option ℕ
read_slot (pos n) = some n
read_slot (negsuc n) = slot (negsuc n)

fd_is_set-spec_has :
    (fd : ℤ) (set : FdSet) (members : ℕ → Bool)
    → Represents set members
    → fd_is_set fd set ≡ spec_has (read_slot fd) members
unfolding fd_is_set
fd_is_set-spec_has (pos n) set members r = ap some (r.agrees n)
fd_is_set-spec_has (negsuc n) set members r = elim (dec_lt n 31) [
  | yes h ↦
      let test : ltb n 31 ≡ true = ground arith in
      let word : (31 - n) / 32 ≡ 0 = omega arith in
      let place : (31 - n) % 32 ≡ (2 ^ 64 - (n + 1)) % 32 = omega arith in
      rw (fd_is_set, test) (ap some (rw (word, place) at (r.agrees (31 - n))))
  | no h ↦ let test : ltb n 31 ≡ false = ground arith in rw (fd_is_set, test) refl
]

step-Agree :
    (op : SetOp) (set : FdSet) (members : ℕ → Bool)
    → Represents set members
    → Agree (step op set) (spec_step op members)
step-Agree (put fd) set members r = fd_set-Agree fd set members r
step-Agree clear set members r = held (fd_zero set) nobody (fd_zero-Represents set members r)

then-Agree :
    (f : FdSet → Option FdSet) (g : (ℕ → Bool) → Option (ℕ → Bool)) (a : Option FdSet)
    (b : Option (ℕ → Bool))
    → ((set : FdSet) (members : ℕ → Bool) → Represents set members → Agree (f set) (g members))
    → Agree a b
    → Agree (bind a f) (bind b g)
unfolding bind
then-Agree f g _ _ h panicked = panicked
then-Agree f g _ _ h (held set members r) = h set members r

run-Agree :
    (ops : List SetOp) (set : FdSet) (members : ℕ → Bool)
    → Represents set members
    → Agree (run ops set) (spec_run ops members)
unfolding run spec_run
run-Agree [] set members r = held set members r
run-Agree (op ∷ ops) set members r =
    then-Agree (run ops) (spec_run ops) (step op set) (spec_step op members) (run-Agree ops)
      (step-Agree op set members r)

observed :
    (fd : ℤ) (a : Option FdSet) (b : Option (ℕ → Bool))
    → Agree a b
    → bind a (fd_is_set fd) ≡ bind b (spec_has (read_slot fd))
unfolding bind
observed fd _ _ panicked = refl
observed fd _ _ (held set members r) = fd_is_set-spec_has fd set members r

-- The 32 words are a set of descriptors: after any calls of FDSet and FDZero on a new set, FDIsSet says what the same
-- calls on a set of numbers say, panics included. A negative descriptor down to -31 stands for bit 32 + fd of
-- the first word, so that -1 is taken for 31; a lower one panics, and so does FDSet from 1024 on.
pub run-spec_run :
    (ops : List SetOp) (fd : ℤ)
    → bind (run ops new_fd_set) (fd_is_set fd)
      ≡ bind (spec_run ops nobody) (spec_has (read_slot fd))
run-spec_run ops fd =
    observed fd (run ops new_fd_set) (spec_run ops nobody)
      (run-Agree ops new_fd_set nobody new_fd_set-Represents)
