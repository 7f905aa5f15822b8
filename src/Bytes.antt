-- ===== src/Bytes.antt =====
-- crates/gputools-replay-hl/src/bytes.rs: the aligned buffer that the handles share, and the part of
-- `bytemuck` that reads typed elements out of it.
pub mod Laws
use Prim.Native.Nat.{max}
use gputools_replay.Prelude.{
  ℕ, ◌+◌, ◌*◌, ◌/◌, ◌%◌, ◌<◌, ◌≡◌, ◌≢◌, Option, none, some, List, [], ◌++◌, Outcome, ok, ◌>>=◌,
  unwrap, length, drop, replicate, slice, add_usize,
}

-- `a.div_ceil(16)`
abbrev pub sixteens : ℕ → ℕ
sixteens n = (n + 15) / 16

-- `Box<[Align16]>` is the address that it was given and its blocks, seen as bytes.
pub record AlignedBuf : Type 0 where
  pub addr : ℕ
  pub blocks : List ℕ
  pub len : ℕ

-- `AlignedBuf::from_bytes`, at the address that the allocator returns: zeroed blocks, whose front
-- is overwritten by a copy of `src`.
unfoldable pub from_bytes : {E : Type 0} → ℕ → List ℕ → Outcome E AlignedBuf
from_bytes addr src = do
  let zeros = replicate (16 * max (sixteens (length src)) 1) 0
  front ← unwrap (slice zeros 0 (length src))
  ok (record { addr = addr; blocks = src ++ drop (length front) zeros; len = length src })

-- `AlignedBuf::as_slice`
unfoldable pub as_slice : {E : Type 0} → AlignedBuf → Outcome E (List ℕ)
as_slice b = unwrap (slice b.blocks 0 b.len)

pub record Payload : Type 0 where
  pub buf : AlignedBuf
  pub off : ℕ
  pub len : ℕ

-- `Payload::bytes`
unfoldable pub payload_bytes : {E : Type 0} → Payload → Outcome E (List ℕ)
unfolding as_slice
payload_bytes p = do all ← as_slice p.buf; unwrap (slice all p.off (add_usize p.off p.len))

-- Where the payload's first byte stands.
abbrev pub payload_addr : Payload → ℕ
payload_addr p = p.buf.addr + p.off

-- A `bytemuck::Pod` element type: its size and alignment, and `bytemuck::try_cast_slice` from bytes
-- that start at an address. Callers read no more of its error than that there is one.
pub record Pod (P : Type 0) : Type 0 where
  pub size_of : ℕ
  pub align_of : ℕ
  pub try_cast_slice : ℕ → List ℕ → Option (List P)
  pub to_bytes : List P → List ℕ

-- What `bytemuck` and the language document of them.
pub record IsPod {P : Type 0} (pod : Pod P) : Type 0 where
  pub size_multiple : pod.size_of % pod.align_of ≡ 0
  pub align_positive : 0 < pod.align_of
  pub cast_aligned :
      (addr k : ℕ) (bs : List ℕ)
      → 0 < pod.size_of
      → addr % pod.align_of ≡ 0
      → length bs ≡ k * pod.size_of
      → (ps : List P) × (pod.try_cast_slice addr bs ≡ some ps)
        × (length ps ≡ k)
        × (pod.to_bytes ps ≡ bs)
  pub cast_slop :
      (addr : ℕ) (bs : List ℕ)
      → 0 < pod.size_of
      → length bs % pod.size_of ≢ 0
      → pod.try_cast_slice addr bs ≡ none
  pub cast_misaligned :
      (addr : ℕ) (bs : List ℕ) → addr % pod.align_of ≢ 0 → pod.try_cast_slice addr bs ≡ none
