-- ===== src/Bytes/Laws.antt =====
-- The buffers and payloads of bytes.rs, made and read.
use Prim.Native.Nat.{max}
use gputools_replay.Prelude.{
  ℕ, ◌+◌, ◌*◌, ◌%◌, ◌≤◌, ◌<◌, ◌≡◌, refl, ap, List, [], ◌∷◌, ◌++◌, ok, slice_in, slice_front, length,
  take, drop, replicate, usize_mod, arith, length-append, length-replicate,
}
use native.Mathlib.Nat.{mod-eq_of_lt}
use gputools_replay.Bytes.{AlignedBuf, Payload, from_bytes, as_slice, payload_bytes, sixteens}

take_all : (xs ys : List ℕ) → take (length xs) (xs ++ ys) ≡ xs
take_all [] ys = refl
take_all (x ∷ xs) ys = ap (◌∷◌ x) (take_all xs ys)

-- The buffer is made without a panic, at the given address, and holds exactly the given bytes.
pub as_slice-from_bytes :
    {E : Type 0} (addr : ℕ) (src : List ℕ)
    → (b : AlignedBuf) × (from_bytes {E = E} addr src ≡ ok b)
      × (as_slice {E = E} b ≡ ok src)
      × (b.addr ≡ addr)
unfolding from_bytes as_slice
as_slice-from_bytes {E} addr src =
    let zeros : List ℕ = replicate (16 * max (sixteens (length src)) 1) 0 in
    let rest : List ℕ = drop (length (take (length src) zeros)) zeros in
    let room : length src ≤ length zeros =
      omega (arith, length-replicate {A = ℕ} (16 * max (sixteens (length src)) 1) 0) in
    let room' : length src ≤ length (src ++ rest) = omega (arith, length-append src rest) in
    (
      record { addr = addr; blocks = src ++ rest; len = length src },
      rw (slice_front zeros (length src) room),
      rw (slice_front (src ++ rest) (length src) room', take_all src rest),
      refl,
    )

-- A payload whose range lies in its buffer, with an end below 2^64, is that sub-slice, read without a panic.
pub payload_bytes_in :
    {E : Type 0} (p : Payload) (src : List ℕ)
    → as_slice {E = E} p.buf ≡ ok src
    → p.off + p.len ≤ length src
    → p.off + p.len < usize_mod
    → payload_bytes {E = E} p ≡ ok (take p.len (drop p.off src))
unfolding payload_bytes
payload_bytes_in p src b fits small =
    let e : (p.off + p.len) % usize_mod ≡ p.off + p.len = mod-eq_of_lt small in
    rw (b, e, slice_in src p.off p.len fits)
