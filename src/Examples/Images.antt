-- ===== src/Examples/Images.antt =====
-- The theorems on buffers, images and blocks, at concrete inputs.
use gputools_replay.Prelude.{
  true, ℕ, ◌%◌, ◌<◌, ◌≡◌, ◌≢◌, ◌⊎◌, refl, List, false, ok, err, ◌>>=◌, slice, arith, if◌then◌else◌,
}
use gputools_replay.Errors.{truncated, misaligned, format_mismatch}
use gputools_replay.Bytes.{as_slice, payload_bytes}
use gputools_replay.Format.{
  compressed, match_arms, color_format, CompressedFormat, compressed_format, bc,
}
use gputools_replay.Format.Table.{format_kind}
use gputools_replay.Image.{aspect_bpp, packed_bytes, contents, rows}
use gputools_replay.Image.Bounds.{IsWire, fits}
use gputools_replay.Image.Packed.{packed_bytes-eq, map_ok, concat, tight_rows}
use gputools_replay.Image.Typed.{rows_cases, IsRows, row_addr}
use gputools_replay.Image.Blocks.{blocks, packed_blocks}
use gputools_replay.Image.Blocks.Packed.{packed_blocks-eq, blocks_fit, block_rows}
use gputools_replay.Examples.Data.{
  padded_image, padded_bytes, block_image, block_bytes, two_bytes, two_bytes-IsPod,
}

padded_IsWire : IsWire padded_image padded_bytes
unfolding payload_bytes as_slice slice
padded_IsWire = record {
  width_u32 = omega arith;
  height_u32 = omega arith;
  stride_u32 = omega arith;
  readable = refl;
}

block_IsWire : IsWire block_image block_bytes
unfolding payload_bytes as_slice slice
block_IsWire = record {
  width_u32 = omega arith;
  height_u32 = omega arith;
  stride_u32 = omega arith;
  readable = refl;
}

padded_bpp : aspect_bpp padded_image ≡ ok 2
unfolding aspect_bpp format_kind match_arms color_format
padded_bpp = refl

abbrev block_format : CompressedFormat
block_format = compressed_format bc (4, 4) 8 false

block_kind : format_kind 130 ≡ compressed block_format
unfolding format_kind match_arms
block_kind = refl

packed_bytes-eq_example : map_ok contents (packed_bytes padded_image) ≡ (
    aspect_bpp padded_image >>= λ b.
    if fits padded_image padded_bytes b
    then ok (concat (tight_rows padded_image padded_bytes padded_IsWire b))
    else err truncated)
packed_bytes-eq_example = packed_bytes-eq padded_image padded_bytes padded_IsWire

rows_cases_example :
    ((two_bytes.size_of ≢ 2) × (rows two_bytes padded_image ≡ err (format_mismatch 2 2)))
    ⊎ ((two_bytes.size_of ≡ 2)
        × (((fits padded_image padded_bytes 2 ≡ false)
              × (rows two_bytes padded_image ≡ err truncated))
            ⊎ ((fits padded_image padded_bytes 2 ≡ true)
                × (((pss : List (List (ℕ × ℕ))) × (rows two_bytes padded_image ≡ ok pss)
                      × IsRows two_bytes two_bytes-IsPod padded_image padded_bytes padded_IsWire
                          pss)
                    ⊎ ((rows two_bytes padded_image ≡ err (misaligned 2))
                        × (j : ℕ) × (j < 2)
                        × (row_addr padded_image j % two_bytes.align_of ≢ 0))))))
rows_cases_example =
    rows_cases two_bytes two_bytes-IsPod padded_image padded_bytes padded_IsWire padded_bpp

packed_blocks-eq_example : map_ok contents (blocks block_image >>= packed_blocks) ≡ (
    if blocks_fit block_image block_bytes block_IsWire block_format block_kind
    then ok (concat (block_rows block_image block_bytes block_IsWire block_format block_kind))
    else err truncated)
packed_blocks-eq_example =
    packed_blocks-eq block_image block_bytes block_IsWire block_format block_kind
