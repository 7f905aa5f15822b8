-- ===== src/Util.antt =====
-- crates/gputools-replay/src/util.rs: the byte readers and the bound on error texts.
pub mod Reads
use gputools_replay.Prelude.{
  ℕ, zero, suc, ◌+◌, ◌*◌, Option, none, some, List, [], ◌∷◌, ◌++◌, String, Outcome, ok, unwrap,
  ◌>>=◌, slice, get_elem?, take,
}
use Prim.Native.Char.{code}

-- `uN::from_le_bytes`
unfoldable pub from_le_bytes : List ℕ → ℕ
from_le_bytes [] = 0
from_le_bytes (b ∷ bs) = b + 256 * from_le_bytes bs

-- `b[lo..hi]`, which panics when the range does not fit.
unfoldable pub index : {E : Type 0} → List ℕ → ℕ → ℕ → Outcome E (List ℕ)
index b lo hi = unwrap (slice b lo hi)

-- A slice of the width of the integer always converts, so its `try_into().unwrap()` is the slice.
unfoldable pub u16_at : {E : Type 0} → List ℕ → ℕ → Outcome E ℕ
unfolding index
u16_at b o = do bytes ← index b o (o + 2); ok (from_le_bytes bytes)

unfoldable pub u32_at : {E : Type 0} → List ℕ → ℕ → Outcome E ℕ
unfolding index
u32_at b o = do bytes ← index b o (o + 4); ok (from_le_bytes bytes)

unfoldable pub u64_at : {E : Type 0} → List ℕ → ℕ → Outcome E ℕ
unfolding index
u64_at b o = do bytes ← index b o (o + 8); ok (from_le_bytes bytes)

abbrev pub limit : ℕ
limit = 512

-- The characters of a literal.
abbrev pub codes : String → List ℕ
codes String.[] = []
codes (String.◌∷◌ c s) = code c ∷ codes s

abbrev pub truncated_mark : List ℕ
truncated_mark = codes " ... (truncated)"

-- `truncate`, on the characters of its text.
unfoldable pub truncate : List ℕ → List ℕ
truncate s = elim (get_elem? s limit) [ none ↦ s | some _ ↦ take limit s ++ truncated_mark ]
