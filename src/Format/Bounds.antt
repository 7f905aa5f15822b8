-- ===== src/Format/Bounds.antt =====
-- The sizes and the aspects of every format that the table of format.rs describes.
use gputools_replay.Prelude.{
  ℕ, ◌+◌, ◌*◌, ◌%◌, ◌≤◌, ◌<◌, ◌≡◌, refl, List, [], ◌∷◌, Bool, true, false, ◌&&◌, ◌||◌, not, ◌==◌,
  ltb, leb, if◌then◌else◌, arith, length, ◌⊎◌,
}
use gputools_replay.Format.{
  FormatKind, color, depth_stencil, compressed, unknown, ColorFormat, DepthStencilFormat,
  CompressedFormat, match_arms, byte_aligned, is_some, color_format, is_combined_depth_stencil,
  is_depth_only, is_stencil_only, total_bits, first_bits, all_equal_bytes,
}
use gputools_replay.Format.Table.{format_arms, format_kind}

abbrev all_arms {ℓ} : {A : Type ℓ} → (A → Bool) → List (ℕ × A) → Bool
all_arms check [] = true
all_arms check ((k, v) ∷ xs) = check v && all_arms check xs

match_arms_check {ℓ} :
    {A : Type ℓ} (check : A → Bool) (raw : ℕ) (xs : List (ℕ × A)) (d : A)
    → all_arms check xs ≡ true
    → check d ≡ true
    → check (match_arms raw xs d) ≡ true
unfolding match_arms
match_arms_check check raw [] d h k = k
match_arms_check check raw ((i, v) ∷ xs) d h k = ground (arith, match_arms_check check raw xs d)

abbrev color_check : ColorFormat → Bool
color_check c =
    ltb 0 c.bytes_per_pixel
    && leb c.bytes_per_pixel 16
    && leb (total_bits c.channels) (8 * c.bytes_per_pixel)
    && ltb (8 * c.bytes_per_pixel) (total_bits c.channels + 8)

-- A flag `byte_aligned` is set exactly if the channels are whole bytes of one width.
abbrev aligned_check : ColorFormat → Bool
aligned_check c =
    if c.byte_aligned
    then (length c.channels * first_bits c.channels == 8 * c.bytes_per_pixel)
      && (first_bits c.channels % 8 == 0)
    else not (
        all_equal_bytes (first_bits c.channels) c.channels
        && (total_bits c.channels == 8 * c.bytes_per_pixel))

abbrev check_kind : FormatKind → Bool
check_kind (color c) = color_check c && aligned_check c
check_kind (depth_stencil d) = is_some d.depth || is_some d.stencil
check_kind (compressed k) =
    ltb 0 k.block.0
    && leb k.block.0 12
    && ltb 0 k.block.1
    && leb k.block.1 12
    && ((k.block_bytes == 8) || (k.block_bytes == 16))
check_kind unknown = true

arms_check : all_arms check_kind format_arms ≡ true
unfolding color_format
arms_check = refl

pub kind_check : (raw : ℕ) → check_kind (format_kind raw) ≡ true
unfolding format_kind
kind_check raw = match_arms_check check_kind raw format_arms unknown arms_check refl

-- The stride of a colour format is 1 to 16 bytes, and is the total width of its channels rounded up
-- to whole bytes.
pub color_stride :
    (raw : ℕ) (c : ColorFormat)
    → format_kind raw ≡ color c
    → (0 < c.bytes_per_pixel)
      × (c.bytes_per_pixel ≤ 16)
      × (total_bits c.channels ≤ 8 * c.bytes_per_pixel)
      × (8 * c.bytes_per_pixel < total_bits c.channels + 8)
color_stride raw c e = ground (arith, kind_check raw)

-- The channels of a byte-aligned colour format fill its stride with equal widths of whole bytes.
color_aligned :
    (raw : ℕ) (c : ColorFormat)
    → format_kind raw ≡ color c
    → c.byte_aligned ≡ true
    → (length c.channels * first_bits c.channels ≡ 8 * c.bytes_per_pixel)
      × (first_bits c.channels % 8 ≡ 0)
color_aligned raw c e h = ground (arith, kind_check raw)

-- A block of a compressed format is 1 to 12 texels wide and high, and takes 8 or 16 bytes.
pub block_bounds :
    (raw : ℕ) (k : CompressedFormat)
    → format_kind raw ≡ compressed k
    → (0 < k.block.0)
      × (k.block.0 ≤ 12)
      × (0 < k.block.1)
      × (k.block.1 ≤ 12)
      × ((k.block_bytes ≡ 8) ⊎ (k.block_bytes ≡ 16))
block_bounds raw k e = ground (arith, kind_check raw)

unfoldable pub count_true : List Bool → ℕ
count_true [] = 0
count_true (true ∷ bs) = 1 + count_true bs
count_true (false ∷ bs) = count_true bs

-- Of the three aspect tests exactly one holds of a described depth/stencil format, and the format is
-- castable exactly if it is not the combined one.
aspects :
    (raw : ℕ) (d : DepthStencilFormat)
    → format_kind raw ≡ depth_stencil d
    → (count_true (
          is_combined_depth_stencil (format_kind raw)
          ∷ is_depth_only (format_kind raw)
          ∷ is_stencil_only (format_kind raw)
          ∷ [])
        ≡ 1)
      × (byte_aligned (format_kind raw) ≡ not (is_combined_depth_stencil (format_kind raw)))
unfolding count_true byte_aligned is_combined_depth_stencil is_depth_only is_stencil_only
aspects raw d e = ground (arith, kind_check raw)
