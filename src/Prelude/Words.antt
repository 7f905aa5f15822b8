-- ===== src/Prelude/Words.antt =====
-- Machine integers as plain numbers: the ranges, and `usize` arithmetic of a 64-bit target.
use Prim.Native.Nat.{ℕ, ◌+◌, ◌-◌, ◌*◌, ◌/◌, ◌%◌, ◌^◌, ◌<◌}
use mathlib.Core.Option.{Option, none, some}
use gputools_replay.Prelude.Tests.{ltb, ◌==◌, if◌then◌else◌}
use gputools_replay.Prelude.Outcomes.{Outcome, ok, panic}

abbrev pub IsByte : ℕ → Type 0
IsByte b = b < 256

abbrev pub IsU32 : ℕ → Type 0
IsU32 n = n < 2 ^ 32

abbrev pub usize_mod : ℕ
usize_mod = 2 ^ 64

-- `a as u32`
abbrev pub as_u32 : ℕ → ℕ
as_u32 a = a % 2 ^ 32

-- `a * b` on `usize`, in release builds: it wraps.
abbrev pub mul_usize : ℕ → ℕ → ℕ
mul_usize a b = a * b % usize_mod

-- `a + b` on `usize`, in release builds.
abbrev pub add_usize : ℕ → ℕ → ℕ
add_usize a b = (a + b) % usize_mod

unfoldable pub checked_mul : ℕ → ℕ → Option ℕ
checked_mul a b = if ltb (a * b) usize_mod then some (a * b) else none

unfoldable pub checked_add : ℕ → ℕ → Option ℕ
checked_add a b = if ltb (a + b) usize_mod then some (a + b) else none

unfoldable pub saturating_mul : ℕ → ℕ → ℕ
saturating_mul a b = if ltb (a * b) usize_mod then a * b else 2 ^ 64 - 1

-- `a / b`, which panics on a zero divisor.
unfoldable pub div_usize : {E : Type 0} → ℕ → ℕ → Outcome E ℕ
div_usize a b = if b == 0 then panic else ok (a / b)

-- `a.div_ceil(b)`, likewise; the sum is not one on `usize`.
unfoldable pub div_ceil : {E : Type 0} → ℕ → ℕ → Outcome E ℕ
div_ceil a b = if b == 0 then panic else ok ((a + (b - 1)) / b)
