-- ===== src/Common/Words.antt =====
-- Machine words as native numbers. `usize` and `u64` have 64 bits.
use Prim.Native.Nat.{ℕ, ◌+◌, ◌-◌, ◌*◌, ◌^◌, ◌<◌}
use mathlib.Core.Bool.{Bool, true, false}
use mathlib.Core.Option.{Option, none, some}
use http.Common.Bools.{ltb, if◌then◌else◌}

abbrev pub usize_mod : ℕ
usize_mod = 2 ^ 64

abbrev pub IsUsize : ℕ → Type 0
IsUsize n = n < usize_mod

abbrev pub IsByte : ℕ → Type 0
IsByte b = b < 256

-- `a.checked_add(b)` on usize.
abbrev pub checked_add : ℕ → ℕ → Option ℕ
checked_add a b = if ltb (a + b) usize_mod then some (a + b) else none

-- `a.checked_mul(b)` on usize.
abbrev pub checked_mul : ℕ → ℕ → Option ℕ
checked_mul a b = if ltb (a * b) usize_mod then some (a * b) else none

-- `a.saturating_add(b)` on usize.
abbrev pub saturating_add : ℕ → ℕ → ℕ
saturating_add a b = if ltb (a + b) usize_mod then a + b else usize_mod - 1

-- `a.saturating_sub(b)`: the subtraction of ℕ stops at 0 too.
abbrev pub saturating_sub : ℕ → ℕ → ℕ
saturating_sub a b = a - b

-- `a.saturating_mul(b)` on usize.
abbrev pub saturating_mul : ℕ → ℕ → ℕ
saturating_mul a b = if ltb (a * b) usize_mod then a * b else usize_mod - 1

-- `usize::from(b)` of a bool.
abbrev pub from_bool : Bool → ℕ
from_bool true = 1
from_bool false = 0
