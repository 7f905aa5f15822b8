-- ===== src/Util/Reads.antt =====
-- The readers of util.rs on a buffer that is long enough.
use native.Mathlib.Nat.{pow-suc}
use gputools_replay.Prelude.{
  ℕ, ◌+◌, ◌^◌, ◌≤◌, ◌<◌, ◌≡◌, refl, List, [], ◌∷◌, ok, arith, length, take, drop, slice_in, IsByte,
  All,
}
use gputools_replay.Util.{from_le_bytes, u16_at, u32_at, u64_at}

-- The little-endian number in `n` bytes from `o` on.
abbrev pub le_at : List ℕ → ℕ → ℕ → ℕ
le_at b o n = from_le_bytes (take n (drop o b))

module _ {E : Type 0} (b : List ℕ) (o : ℕ) where
  pub u16_at_in : o + 2 ≤ length b → u16_at {E = E} b o ≡ ok (le_at b o 2)
  unfolding u16_at
  u16_at_in h = rw (slice_in b o 2 h)

  pub u32_at_in : o + 4 ≤ length b → u32_at {E = E} b o ≡ ok (le_at b o 4)
  unfolding u32_at
  u32_at_in h = rw (slice_in b o 4 h)

  pub u64_at_in : o + 8 ≤ length b → u64_at {E = E} b o ≡ ok (le_at b o 8)
  unfolding u64_at
  u64_at_in h = rw (slice_in b o 8 h)

pub from_le_bytes-lt : (bs : List ℕ) → All IsByte bs → from_le_bytes bs < 256 ^ length bs
unfolding from_le_bytes
from_le_bytes-lt [] h = omega arith
from_le_bytes-lt (b ∷ bs) h = omega (arith, from_le_bytes-lt bs h.1, pow-suc 256 (length bs))

-- Two byte strings of one length that read as the same number are the same.
pub from_le_bytes-injective :
    (xs ys : List ℕ)
    → All IsByte xs
    → All IsByte ys
    → length xs ≡ length ys
    → from_le_bytes xs ≡ from_le_bytes ys
    → xs ≡ ys
unfolding from_le_bytes
from_le_bytes-injective [] [] hx hy l e = refl
from_le_bytes-injective [] (y ∷ ys) hx hy l e = absurd (omega arith)
from_le_bytes-injective (x ∷ xs) [] hx hy l e = absurd (omega arith)
from_le_bytes-injective (x ∷ xs) (y ∷ ys) hx hy l e =
    let head : x ≡ y = omega arith in
    let tail : xs ≡ ys = from_le_bytes-injective xs ys hx.1 hy.1 (omega arith) (omega arith) in cc
