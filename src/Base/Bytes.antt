-- ===== src/Base/Bytes.antt =====
-- Byte slices with their spare capacity, and encoding/binary's big-endian words.
-- `a << k` and `a >> k` are `a * 2 ^ k` and `a / 2 ^ k`; an `|` of parts that share no bit is `+`.
use nssa_ds.Base.Tests.{ltb, leb, le→leb, if◌then◌else◌}
use nssa_ds.Base.Lists.{length, get_or, set, take, drop, take-drop-append, All}
use nssa_ds.Base.Result.{Result, ok, panic}
use Prim.Native.Nat.{ℕ, zero, suc, ◌+◌, ◌-◌, ◌*◌, ◌/◌, ◌%◌, ◌^◌, ◌<◌, ◌≤◌}
use mathlib.Core.Path.{◌≡◌, ap}
use native.Mathlib.Omega.{arith}
use mathlib.Core.Bool.{◌&&◌}
use mathlib.Core.List.{List, [], ◌∷◌, ◌++◌}

abbrev pub Bytes : Type 0
Bytes = List ℕ

abbrev pub IsByte : ℕ → Type 0
IsByte b = b < 256

-- A slice shows `items`; its array goes on for `spare`, which a reslice may reach.
pub record Slice : Type 0 where
  pub items : Bytes
  pub spare : Bytes

-- `s[i]` panics past the length.
unfoldable pub index {ε} : {E : Type ε} → Slice → ℕ → Result E ℕ
index s i = if ltb i (length s.items) then ok (get_or s.items i 0) else panic

-- `s[a:b]` panics unless `a ≤ b ≤ cap(s)`.
unfoldable pub reslice {ε} : {E : Type ε} → Slice → ℕ → ℕ → Result E Bytes
reslice s a b =
    if leb a b && leb b (length s.items + length s.spare)
    then ok (take (b - a) (drop a (s.items ++ s.spare)))
    else panic

pub index_ok {ε} :
    {E : Type ε} (s : Slice) (i : ℕ)
    → i < length s.items
    → index {E = E} s i ≡ ok (get_or s.items i 0)
unfolding index
index_ok s i h = ground arith

-- A reslice within the length does not reach the spare capacity.
pub reslice_ok {ε} :
    {E : Type ε} (s : Slice) (a b : ℕ)
    → a ≤ b
    → b ≤ length s.items
    → reslice {E = E} s a b ≡ ok (take (b - a) (drop a s.items))
unfolding reslice
reslice_ok s a b h k =
    rw (le→leb a b h, le→leb b (length s.items + length s.spare) (omega arith))
      (ap ok (take-drop-append s.items s.spare a (b - a) (omega arith)))

pub reslice_panic {ε} : {E : Type ε} (s : Slice) (a b : ℕ) → b < a → reslice {E = E} s a b ≡ panic
unfolding reslice
reslice_panic s a b h = ground arith

pub reslice_over {ε} :
    {E : Type ε} (s : Slice) (a b : ℕ)
    → length s.items + length s.spare < b
    → reslice {E = E} s a b ≡ panic
unfolding reslice
reslice_over s a b h = ground arith

pub reslice_cap {ε} :
    {E : Type ε} (s : Slice) (a b : ℕ)
    → a ≤ b
    → b ≤ length s.items + length s.spare
    → reslice {E = E} s a b ≡ ok (take (b - a) (drop a (s.items ++ s.spare)))
unfolding reslice
reslice_cap s a b h k = rw (le→leb a b h, le→leb b (length s.items + length s.spare) k)

abbrev pub be16 : ℕ → Bytes
be16 v = (v / 2 ^ 8 % 256) ∷ (v % 256) ∷ []

abbrev pub be32 : ℕ → Bytes
be32 v = (v / 2 ^ 24 % 256) ∷ (v / 2 ^ 16 % 256) ∷ be16 v

abbrev pub be64 : ℕ → Bytes
be64 v = (v / 2 ^ 56 % 256) ∷ (v / 2 ^ 48 % 256) ∷ (v / 2 ^ 40 % 256) ∷ (v / 2 ^ 32 % 256) ∷ be32 v

-- The reads take a slice of the right length, as the callers here pass.
abbrev pub uint16 : Bytes → ℕ
uint16 bs = get_or bs 0 0 * 2 ^ 8 + get_or bs 1 0

abbrev pub uint32 : Bytes → ℕ
uint32 bs = get_or bs 0 0 * 2 ^ 24 + get_or bs 1 0 * 2 ^ 16 + get_or bs 2 0 * 2 ^ 8 + get_or bs 3 0

abbrev pub uint64 : Bytes → ℕ
uint64 bs =
    get_or bs 0 0 * 2 ^ 56
    + get_or bs 1 0 * 2 ^ 48
    + get_or bs 2 0 * 2 ^ 40
    + get_or bs 3 0 * 2 ^ 32
    + uint32 (drop 4 bs)

pub uint16-be16 : (v : ℕ) → v < 2 ^ 16 → uint16 (be16 v) ≡ v
uint16-be16 v h = omega arith

pub uint32-be32 : (v : ℕ) → v < 2 ^ 32 → uint32 (be32 v) ≡ v
uint32-be32 v h = omega arith

pub uint64-be64 : (v : ℕ) → v < 2 ^ 64 → uint64 (be64 v) ≡ v
uint64-be64 v h = omega arith

pub set-IsByte : (xs : Bytes) (i v : ℕ) → All IsByte xs → IsByte v → All IsByte (set xs i v)
set-IsByte [] i v h hv = tt
set-IsByte (x ∷ xs) zero v h hv = (hv, h.1)
set-IsByte (x ∷ xs) (suc i) v h hv = (h.0, set-IsByte xs i v h.1 hv)

pub get_or-IsByte : (xs : Bytes) (i : ℕ) → All IsByte xs → get_or xs i 0 < 256
get_or-IsByte [] i h = omega arith
get_or-IsByte (x ∷ xs) zero h = h.0
get_or-IsByte (x ∷ xs) (suc i) h = get_or-IsByte xs i h.1

pub uint16-lt : (bs : Bytes) → All IsByte bs → uint16 bs < 2 ^ 16
uint16-lt bs h = omega (arith, get_or-IsByte bs 0 h, get_or-IsByte bs 1 h)

pub uint32-lt : (bs : Bytes) → All IsByte bs → uint32 bs < 2 ^ 32
uint32-lt bs h =
    omega (
      arith,
      get_or-IsByte bs 0 h,
      get_or-IsByte bs 1 h,
      get_or-IsByte bs 2 h,
      get_or-IsByte bs 3 h,
    )

pub uint64-lt : (bs : Bytes) → All IsByte bs → All IsByte (drop 4 bs) → uint64 bs < 2 ^ 64
uint64-lt bs h k = omega (
  arith,
  get_or-IsByte bs 0 h,
  get_or-IsByte bs 1 h,
  get_or-IsByte bs 2 h,
  get_or-IsByte bs 3 h,
  uint32-lt (drop 4 bs) k,
)
