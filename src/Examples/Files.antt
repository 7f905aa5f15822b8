-- ===== src/Examples/Files.antt =====
-- The theorems on capture blocks and on pixel formats, at concrete inputs.
use gputools_replay.Prelude.{
  ◌≤◌, bytes_eq, ℕ, ◌≤◌, ◌<◌, ◌≡◌, ◌≢◌, ◌⊎◌, refl, List, [], ◌∷◌, ◌++◌, false, ok, err, length,
  slice, some, arith, take, checked_mul, checked_add,
}
use gputools_replay.Errors.{bad_magic, wrong_type, truncated}
use gputools_replay.Util.{from_le_bytes, u16_at, u32_at, u64_at}
use gputools_replay.Util.Reads.{le_at}
use gputools_replay.Harvester.{magic, parse_block, plane, data_of, plane_off}
use gputools_replay.Harvester.Laws.{
  block_of, IsBlock, IsPast, descriptor_of, parse_block-cases, parse_block-accessors,
}
use gputools_replay.Format.{
  color, depth_stencil, compressed, ColorFormat, color_format, depth_stencil_format,
  compressed_format, match_arms, unorm, bc, float32, uint8, is_srgb,
}
use gputools_replay.Format.Table.{format_kind, bgra8_channels}
use gputools_replay.Format.Names.{name}
use gputools_replay.Format.Laws.{is_srgb-name, says_srgb}
use gputools_replay.Format.Bounds.{color_stride, block_bounds}
use gputools_replay.Examples.Data.{le32, count_up}

-- One plane of 2 by 2 texels, and four bytes of data.
abbrev file : List ℕ
file =
    magic
    ++ (0 ∷ 0 ∷ 1 ∷ 0 ∷ [])
    ++ le32 72
    ++ le32 1
    ++ le32 0
    ++ le32 80
    ++ le32 0
    ++ le32 2
    ++ le32 0
    ++ le32 2
    ++ le32 0
    ++ le32 1
    ++ le32 0
    ++ le32 8
    ++ le32 0
    ++ le32 16
    ++ le32 0
    ++ count_up 4 200

parse_block-cases_example :
    (((length file < 24) ⊎ (take 8 file ≢ magic)) × (parse_block file ≡ err bad_magic))
    ⊎ ((24 ≤ length file)
        × (take 8 file ≡ magic)
        × (((le_at file 0x0a 2 ≢ 1) × (parse_block file ≡ err (wrong_type (le_at file 0x0a 2))))
            ⊎ ((le_at file 0x0a 2 ≡ 1)
                × (((parse_block file ≡ ok (block_of file)) × IsBlock file)
                    ⊎ ((parse_block file ≡ err truncated) × IsPast file)))))
parse_block-cases_example = parse_block-cases file

file-parse_block :
    parse_block file ≡ ok (record { bytes = file; metadata_size = 72; plane_count = 1 })
unfolding parse_block slice bytes_eq u16_at from_le_bytes u32_at u64_at plane_off checked_mul
    checked_add
file-parse_block = refl

parse_block-accessors_example :
    (plane (record { bytes = file; metadata_size = 72; plane_count = 1 }) 0
      ≡ ok (some (descriptor_of file 24)))
    × (data_of (record { bytes = file; metadata_size = 72; plane_count = 1 }) ≡ ok (count_up 4 200))
parse_block-accessors_example =
    parse_block-accessors file (record { bytes = file; metadata_size = 72; plane_count = 1 }) 0
      file-parse_block

abbrev bgra8 : ColorFormat
bgra8 = color_format bgra8_channels unorm false

bgra8_kind : format_kind 80 ≡ color bgra8
unfolding format_kind match_arms color_format
bgra8_kind = refl

color_stride_example : (0 < 4) × (4 ≤ 16) × (32 ≤ 32) × (32 < 40)
unfolding color_format
color_stride_example = color_stride 80 bgra8 bgra8_kind

bc1_kind : format_kind 130 ≡ compressed (compressed_format bc (4, 4) 8 false)
unfolding format_kind match_arms
bc1_kind = refl

block_bounds_example :
    (0 < 4)
    × (4 ≤ 12)
    × (0 < 4)
    × (4 ≤ 12)
    × (((compressed_format bc (4, 4) 8 false).block_bytes ≡ 8)
        ⊎ ((compressed_format bc (4, 4) 8 false).block_bytes ≡ 16))
block_bounds_example = block_bounds 130 (compressed_format bc (4, 4) 8 false) bc1_kind

combined_kind : format_kind 260 ≡ depth_stencil (depth_stencil_format (some float32) (some uint8) 8)
unfolding format_kind match_arms
combined_kind = refl

srgb_name : name 81 ≡ some "BGRA8Unorm_sRGB"
unfolding name match_arms
srgb_name = refl

is_srgb-name_example : is_srgb (format_kind 81) ≡ says_srgb "BGRA8Unorm_sRGB"
is_srgb-name_example = is_srgb-name 81 "BGRA8Unorm_sRGB" (omega arith) srgb_name
