-- ===== src/Image/Blocks.antt =====
-- crates/gputools-replay-hl/src/image.rs: the raw blocks of a compressed texture.
pub mod Packed
use Prim.Native.Nat.{min}
use gputools_replay.Prelude.{
  ℕ, zero, suc, ◌+◌, ◌*◌, Option, none, some, List, [], Outcome, ok, err, ◌>>=◌, ok_or, unwrap,
  ◌==◌, ltb, if◌then◌else◌, length, slice, checked_mul, saturating_mul, div_usize, div_ceil,
}
use gputools_replay.Errors.{Error, wrong_category, truncated}
use gputools_replay.Format.{FormatKind, color, depth_stencil, compressed, unknown}
use gputools_replay.Format.Table.{format_kind}
use gputools_replay.Image.{Image, raw_bytes, Cow, borrowed, owned, pack_loop}

pub record Blocks : Type 0 where
  pub bytes : List ℕ
  pub block : ℕ × ℕ
  pub block_bytes : ℕ
  pub blocks_per_row : ℕ
  pub width : ℕ
  pub height : ℕ

abbrev pub blocks_kind : Image → FormatKind → Outcome Error Blocks
blocks_kind img (compressed c) = do
  bytes ← raw_bytes img
  blocks_per_row ← div_usize img.bytes_per_row c.block_bytes
  ok (record {
    bytes = bytes;
    block = c.block;
    block_bytes = c.block_bytes;
    blocks_per_row = blocks_per_row;
    width = img.width;
    height = img.height;
  })
blocks_kind img _ = err (wrong_category "not a compressed format")

-- `Image::blocks`
unfoldable pub blocks : Image → Outcome Error Blocks
blocks img = blocks_kind img (format_kind img.pixel_format)

-- `Blocks::expected_len`
unfoldable pub expected_len : Blocks → Outcome Error ℕ
expected_len b = do
  cols ← div_ceil b.width b.block.0
  rows ← div_ceil b.height b.block.1
  ok (saturating_mul (saturating_mul cols rows) b.block_bytes)

-- `Blocks::packed_blocks`
unfoldable pub packed_blocks : Blocks → Outcome Error Cow
packed_blocks b = do
  cols ← div_ceil b.width b.block.0
  rows ← div_ceil b.height b.block.1
  let tight_row = saturating_mul cols b.block_bytes
  let fetched_row = saturating_mul b.blocks_per_row b.block_bytes
  if ltb fetched_row tight_row then err truncated else do
    need ← ok_or truncated (checked_mul rows fetched_row)
    if ltb (length b.bytes) need
        then err truncated
        else (if fetched_row == tight_row
            then (do
              expected ← expected_len b
              part ← unwrap (slice b.bytes 0 (min expected (length b.bytes)))
              ok (borrowed part))
            else (do out ← pack_loop rows 0 fetched_row tight_row b.bytes []; ok (owned out)))
