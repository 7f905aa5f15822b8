-- ===== src/Image/Blocks/Packed.antt =====
-- `packed_blocks` of image.rs against the rows of blocks, cut out one by one.
use Prim.Native.Nat.{min}
use gputools_replay.Prelude.{
  ℕ, zero, suc, ◌+◌, ◌-◌, ◌*◌, ◌/◌, ◌^◌, ◌≤◌, ◌<◌, ◌≡◌, sym, ap, ◌∙◌, List, [], Bool, true, false,
  Bool-cases, ◌&&◌, ok, err, ◌>>=◌, arith, length, leb, ltb, ◌==◌, ==_iff, if◌then◌else◌, inl, inr,
  checked_mul, saturating_mul, div_usize, div_ceil, lt→ltb,
}
use native.Mathlib.Nat.{div-lt_iff_lt-mul, div-mul-le_self}
use gputools_replay.Errors.{Error, truncated}
use gputools_replay.Format.{CompressedFormat, compressed}
use gputools_replay.Format.Table.{format_kind}
use gputools_replay.Format.Bounds.{block_bounds}
use gputools_replay.Image.{Image, Cow, contents}
use gputools_replay.Image.Bounds.{IsWire}
use gputools_replay.Image.Packed.{
  row_slices, concat, RowsFit, map_ok, pack_loop-eq, front_rows, length-concat-row_slices,
}
use gputools_replay.Image.Blocks.{Blocks, blocks, expected_len, packed_blocks}

-- At most as many blocks as texels.
ceil_le : (n d : ℕ) → 0 < d → (n + (d - 1)) / d ≤ n
ceil_le n zero h = elim h [ ]
ceil_le n (suc k) h =
    let bound : n + k < (n + 1) * suc k = grind arith in
    omega (
      arith,
      (div-lt_iff_lt-mul {k = suc k} {x = n + k} {y = n + 1} h).1 bound,
      ap (λ m. (n + m) / suc k) {x = suc k - 1} {y = k} (omega arith),
    )

mul_le : (a b c d : ℕ) → a ≤ c → b ≤ d → a * b ≤ c * d
mul_le a b c d h k = grind arith

module _ (img : Image) (bs : List ℕ) (w : IsWire img bs) (c : CompressedFormat)
    (e : format_kind img.pixel_format ≡ compressed c) where
  -- How many blocks cover the width and the height.
  abbrev pub cols : ℕ
  cols = (img.width + (c.block.0 - 1)) / c.block.0

  abbrev pub rows_of : ℕ
  rows_of = (img.height + (c.block.1 - 1)) / c.block.1

  -- The bytes of the whole blocks that the stride has room for.
  abbrev pub stride : ℕ
  stride = img.bytes_per_row / c.block_bytes * c.block_bytes

  abbrev pub the_blocks : Blocks
  the_blocks = record {
    bytes = bs;
    block = c.block;
    block_bytes = c.block_bytes;
    blocks_per_row = img.bytes_per_row / c.block_bytes;
    width = img.width;
    height = img.height;
  }

  blocks-eq : blocks img ≡ ok the_blocks
  unfolding blocks div_usize
  blocks-eq = let k = block_bounds img.pixel_format c e in rw (e, w.readable) (ground (arith, k))

  saturating : (a b : ℕ) → a * b < 2 ^ 64 → saturating_mul a b ≡ a * b
  unfolding saturating_mul
  saturating a b h = rw (lt→ltb _ _ h)

  cols_small : cols * c.block_bytes < 2 ^ 64
  cols_small =
      let k = block_bounds img.pixel_format c e in
      let n : cols ≤ img.width = ceil_le img.width c.block.0 k.0 in
      let b : c.block_bytes ≤ 16 = ground (arith, k) in
      omega (arith, mul_le cols c.block_bytes img.width 16 n b, w.width_u32)

  stride_small : stride < 2 ^ 32
  stride_small = omega (arith, div-mul-le_self img.bytes_per_row c.block_bytes, w.stride_u32)

  rows_small : rows_of < 2 ^ 32
  rows_small =
      let k = block_bounds img.pixel_format c e in
      omega (arith, ceil_le img.height c.block.1 k.2, w.height_u32)

  -- The tight bytes of a row.
  abbrev pub tight : ℕ
  tight = cols * c.block_bytes

  -- The stride has room for a row of blocks, and the payload for all rows.
  abbrev pub blocks_fit : Bool
  blocks_fit = leb tight stride && leb (rows_of * stride) (length bs)

  -- The rows of blocks, without their padding.
  abbrev pub block_rows : List (List ℕ)
  block_rows = row_slices rows_of 0 stride tight bs

  ceils :
      {E : Type 0}
      → (div_ceil {E = E} img.width c.block.0 ≡ ok cols)
        × (div_ceil {E = E} img.height c.block.1 ≡ ok rows_of)
  unfolding div_ceil
  ceils = let k = block_bounds img.pixel_format c e in (ground (arith, k), ground (arith, k))

  blocks_RowsFit : blocks_fit ≡ true → RowsFit rows_of 0 stride tight (length bs)
  blocks_RowsFit h =
      let b : rows_of * stride < 2 ^ 64 = omega (
        arith,
        mul_le rows_of stride (2 ^ 32 - 1) (2 ^ 32 - 1) (omega (arith, rows_small))
            (omega (arith, stride_small)),
      ) in
      record { tight_le = ground arith; within = ground arith; no_wrap = omega (arith, b) }

  expected_eq : blocks_fit ≡ true → expected_len the_blocks ≡ ok (rows_of * tight)
  unfolding expected_len
  expected_eq h =
      let f = blocks_RowsFit h in
      let k = block_bounds img.pixel_format c e in
      let one : 1 ≤ c.block_bytes = ground (arith, k) in
      let all : rows_of * tight < 2 ^ 64 =
        omega (arith, mul_le rows_of tight rows_of stride (omega arith) f.tight_le, f.no_wrap) in
      let assoc : cols * rows_of * c.block_bytes ≡ rows_of * tight = omega arith in
      let some_blocks : cols * rows_of < 2 ^ 64 = omega (
        arith,
        mul_le (cols * rows_of) 1 (cols * rows_of) c.block_bytes (omega arith) one,
        all,
        assoc,
      ) in
      rw
        (
          (ceils {E = Error}).0,
          (ceils {E = Error}).1,
          saturating cols rows_of some_blocks,
          saturating (cols * rows_of) c.block_bytes (omega (arith, all, assoc)),
        )
        (ap ok assoc)

  packed_gate :
      map_ok contents (packed_blocks the_blocks)
      ≡ (if blocks_fit then ok (concat block_rows) else err truncated)
  unfolding packed_blocks checked_mul
  packed_gate =
      let s = saturating cols c.block_bytes cols_small in
      let t =
        saturating (img.bytes_per_row / c.block_bytes) c.block_bytes
          (omega (arith, stride_small)) in
      let need : rows_of * stride < 2 ^ 64 = omega (
        arith,
        mul_le rows_of stride (2 ^ 32 - 1) (2 ^ 32 - 1) (omega (arith, rows_small))
            (omega (arith, stride_small)),
      ) in
      rw ((ceils {E = Error}).0, (ceils {E = Error}).1, s, t, lt→ltb _ _ need)
        (elim (Bool-cases blocks_fit) [
          | inr h ↦ rw h (ground arith)
          | inl h ↦
              let f = blocks_RowsFit h in
              let wide : ltb stride tight ≡ false = ground (arith, f.tight_le) in
              let long : ltb (length bs) (rows_of * stride) ≡ false = ground (arith, f.within) in
              rw (h, wide, long)
                (elim (Bool-cases (stride == tight)) [
                  | inl q ↦
                      let same : stride ≡ tight = (==_iff _ _).0 q in
                      let size : min (rows_of * tight) (length bs) ≡ rows_of * stride =
                        ap (λ t. min (rows_of * t) (length bs)) (sym same)
                        ∙ omega (arith, f.within) in
                      rw (q, expected_eq h, size, front_rows rows_of stride tight bs f same)
                  | inr q ↦ rw (q, pack_loop-eq rows_of 0 stride tight bs [] f)
                ])
        ])

  -- The blocks of an image with 32-bit geometry, a readable payload and a compressed format:
  -- `Truncated` exactly if the stride has no room
  -- for a row of blocks or the payload for the rows; else the tight bytes of each row of blocks, in
  -- order. Neither `blocks` nor `packed_blocks` panics.
  pub packed_blocks-eq :
      map_ok contents (blocks img >>= packed_blocks)
      ≡ (if blocks_fit then ok (concat block_rows) else err truncated)
  packed_blocks-eq = rw blocks-eq packed_gate

  -- Of the blocks of such an image, if `packed_blocks` succeeds, it returns as many bytes as
  -- `expected_len` announces.
  pub packed_blocks-length :
      (out : Cow)
      → (blocks img >>= packed_blocks) ≡ ok out
      → (blocks img >>= expected_len) ≡ ok (length (contents out))
  packed_blocks-length out h =
      let r : map_ok contents (ok out)
          ≡ (if blocks_fit then ok (concat block_rows) else err truncated) =
        sym (ap (map_ok contents) h) ∙ packed_blocks-eq in
      elim (Bool-cases blocks_fit) [
        | inl t ↦
            let same : map_ok contents (ok out) ≡ ok (concat block_rows) = r ∙ rw t in
            let bytes : contents out ≡ concat block_rows = cc in
            rw (blocks-eq, expected_eq t, bytes)
              (ap ok (sym (length-concat-row_slices rows_of 0 stride tight bs (blocks_RowsFit t))))
        | inr t ↦ let bad : map_ok contents (ok out) ≡ err truncated = r ∙ rw t in cc
      ]
