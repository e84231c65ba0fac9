-- ===== src/Lab3/FdSet.antt =====
-- lab3/internal/infrastructure/network/unix_select.go: sets of descriptors as bits of 32 words, and the call of
-- select(2), which is a parameter. A word is the bit pattern of an int32. None is Go's panic on an index out of range.
pub mod Refines
pub mod Runs
mod Examples
use nssa_ds.Base.{
  ℕ, zero, suc, ◌+◌, ◌-◌, ◌*◌, ◌/◌, ◌%◌, ◌^◌, Bool, true, false, not, List, [], ◌∷◌, Option, none,
  some, ltb, ◌==◌, if◌then◌else◌, length, take, map, replicate,
}
use nssa_ds.Base.Result.{Result, ok, err, panic}
use nssa_ds.Base.Text.{Text}
use nssa_ds.Base.Bits.{ℤ, pos, negsuc}
use mathlib.Core.Option.{map as option_map}
use Prim.Native.Nat.{bit_and, bit_or}

pub record FdSet : Type 0 where
  pub bits : List ℕ

-- The zero value, `&domain.FdSet{}`.
abbrev pub new_fd_set : FdSet
new_fd_set = record { bits = replicate 32 0 }

-- `fd/32`, which goes towards zero; none is negative.
abbrev pub index : ℤ → Option ℕ
index (pos n) = some (n / 32)
index (negsuc n) = if ltb n 31 then some 0 else none

-- `uint(fd) % 32`
abbrev pub shift : ℤ → ℕ
shift (pos n) = n % 32
shift (negsuc n) = (2 ^ 64 - (n + 1)) % 32

-- `bits[i] |= mask`
unfoldable pub or_at : ℕ → ℕ → List ℕ → Option (List ℕ)
or_at i mask [] = none
or_at zero mask (w ∷ ws) = some (bit_or w mask ∷ ws)
or_at (suc i) mask (w ∷ ws) = option_map (λ (vs : List ℕ). w ∷ vs) (or_at i mask ws)

abbrev pub with_bits : List ℕ → FdSet
with_bits ws = record { bits = ws }

unfoldable pub fd_set : ℤ → FdSet → Option FdSet
fd_set fd set = elim (index fd) [
  | none ↦ none
  | some i ↦ option_map with_bits (or_at i (2 ^ shift fd) set.bits)
]

-- `bits[i]`, where the code has checked `i < len(bits)`: past the end the answer is false.
unfoldable pub has_at : ℕ → ℕ → List ℕ → Bool
has_at i mask [] = false
has_at zero mask (w ∷ ws) = not (bit_and w mask == 0)
has_at (suc i) mask (w ∷ ws) = has_at i mask ws

unfoldable pub fd_is_set : ℤ → FdSet → Option Bool
fd_is_set fd set = elim (index fd) [
  | none ↦ none
  | some i ↦ some (has_at i (2 ^ shift fd) set.bits)
]

unfoldable pub fd_zero : FdSet → FdSet
fd_zero set = record { bits = map (λ (w : ℕ). 0) set.bits }

pub record Timeval : Type 0 where
  pub sec : ℕ
  pub usec : ℕ

pub record Sets : Type 0 where
  pub read_fds : FdSet
  pub write_fds : FdSet
  pub except_fds : FdSet

-- The words that are not zero.
unfoldable pub words : List ℕ → ℕ
words [] = 0
words (w ∷ ws) = (if w == 0 then 0 else 1) + words ws

abbrev pub copied : FdSet → FdSet
copied set = record { bits = take 32 set.bits }

-- `Select`: the kernel sees copies; after an error the sets are as they were.
unfoldable pub select :
    (ℕ → Sets → Timeval → Result Text Sets) → ℕ → Sets → Timeval → Sets × Result Text ℕ
select syscall nfd sets timeout =
    let seen : Sets = record {
      read_fds = copied sets.read_fds;
      write_fds = copied sets.write_fds;
      except_fds = copied sets.except_fds;
    } in
    elim (syscall nfd seen timeout) [
      | err e ↦ (sets, err e)
      | panic ↦ (sets, panic)
      | ok after ↦ (
        after,
        ok (words after.read_fds.bits + words after.write_fds.bits + words after.except_fds.bits),
      )
    ]
