-- ===== src/Handles/Accel.antt =====
-- crates/gputools-replay-hl/src/accel.rs: the header fields of an acceleration structure. An `f32` is
-- kept as its 32 bits, since the code only reads it.
use gputools_replay.Prelude.{
  ℕ, ◌+◌, ◌≤◌, ◌<◌, Option, none, some, List, length, slice, slice_in, slice_past, drop, take,
  add_usize, Outcome, ok, ◌>>=◌, ◌≡◌, ◌↔◌, ◌⊎◌, inl, inr, refl, ap, arith,
}
use gputools_replay.Errors.{Error}
use gputools_replay.Util.{from_le_bytes}
use gputools_replay.Bytes.{payload_bytes}
use gputools_replay.Handles.{AccelStructure}

pub record Aabb : Type 0 where
  pub min : ℕ × ℕ × ℕ
  pub max : ℕ × ℕ × ℕ

-- `.try_into().ok().map(u64::from_le_bytes)`, of a slice of the width of the integer
abbrev pub from_slice : Option (List ℕ) → Option ℕ
from_slice none = none
from_slice (some word) = some (from_le_bytes word)

-- `read_u64(b, off)`
abbrev pub read_u64 : List ℕ → ℕ → Option ℕ
read_u64 b off = from_slice (slice b off (add_usize off 8))

-- `read_f32(b, off)`, as its bits
abbrev pub read_f32 : List ℕ → ℕ → Option ℕ
read_f32 b off = from_slice (slice b off (add_usize off 4))

-- `?` on an option
abbrev pub and_then {ℓ} : {A B : Type ℓ} → Option A → (A → Option B) → Option B
and_then none f = none
and_then (some a) f = f a

-- `AccelStructure::total_size`
unfoldable pub total_size : AccelStructure → Outcome Error (Option ℕ)
total_size a = do b ← payload_bytes a.payload; ok (read_u64 b 0x08)

-- The six reads of `aabb`.
unfoldable pub read_aabb : List ℕ → Option Aabb
read_aabb b = and_then (read_f32 b 0x0a0) λ x0. and_then (read_f32 b 0x0a4) λ y0.
    and_then (read_f32 b 0x0a8) λ z0. and_then (read_f32 b 0x0ac) λ x1.
      and_then (read_f32 b 0x0b0) λ y1.
        and_then (read_f32 b 0x0b4) λ z1. some (record { min = (x0, y0, z0); max = (x1, y1, z1) })

-- `AccelStructure::aabb`
unfoldable pub aabb : AccelStructure → Outcome Error (Option Aabb)
aabb a = do b ← payload_bytes a.payload; ok (read_aabb b)

compare_length : (n : ℕ) → (n < 0xb8) ⊎ (0xb8 ≤ n)
compare_length n = ground arith

and_then-none {ℓ} :
    {A B : Type ℓ} (o : Option A) (f : A → Option B) → ((a : A) → f a ≡ none) → and_then o f ≡ none
and_then-none none f h = refl
and_then-none (some a) f h = h a

slice_4 :
    (b : List ℕ) (off : ℕ) → off + 4 ≤ length b → (w : List ℕ) × (slice b off (off + 4) ≡ some w)
slice_4 b off h = (take 4 (drop off b), slice_in b off 4 h)

-- The box is there exactly where the bytes reach the end of its sixth number, at 0xb8.
read_aabb-none_iff : (b : List ℕ) → (read_aabb b ≡ none) ↔ (length b < 0xb8)
unfolding read_aabb
read_aabb-none_iff b = (
  λ h. elim (compare_length (length b)) [
    | inl short ↦ short
    | inr long ↦
        let (a, e0) = slice_4 b 0x0a0 (omega arith) in
        let (c, e1) = slice_4 b 0x0a4 (omega arith) in
        let (d, e2) = slice_4 b 0x0a8 (omega arith) in
        let (e, e3) = slice_4 b 0x0ac (omega arith) in
        let (f, e4) = slice_4 b 0x0b0 (omega arith) in
        let (g, e5) = slice_4 b 0x0b4 (omega arith) in
        let no = rw (e0, e1, e2, e3, e4, e5) at h in cc (no)
  ],
  λ short.
      let last : read_f32 b 0x0b4 ≡ none = ap from_slice (slice_past b 0x0b4 0x0b8 short) in
      and_then-none (read_f32 b 0x0a0) _ λ x0. and_then-none (read_f32 b 0x0a4) _ λ y0.
        and_then-none (read_f32 b 0x0a8) _ λ z0.
          and_then-none (read_f32 b 0x0ac) _
            λ x1. and_then-none (read_f32 b 0x0b0) _ λ y1. rw last refl,
)
