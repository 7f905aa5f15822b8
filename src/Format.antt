-- ===== src/Format.antt =====
-- crates/gputools-replay-hl/src/format.rs: the structure of pixel formats. The two tables over raw
-- `MTLPixelFormat` values stand in Format/Table.antt and Format/Names.antt. A `match` on literals is
-- the list of its arms, and the first arm with the value is taken.
pub mod Table
pub mod Names
pub mod Laws
pub mod Bounds
use gputools_replay.Prelude.{
  ℕ, zero, suc, ◌+◌, ◌%◌, ◌/◌, String, Option, none, some, List, [], ◌∷◌, Bool, true, false, not,
  ◌&&◌, ◌==◌, if◌then◌else◌,
}

pub data Component : Type 0 where
  r g b a : Component

pub record Channel : Type 0 where
  pub component : Component
  pub bits : ℕ

pub data NumericKind : Type 0 where
  unorm snorm float uint sint shared_exponent : NumericKind

pub record ColorFormat : Type 0 where
  pub channels : List Channel
  pub numeric : NumericKind
  pub srgb : Bool
  pub bytes_per_pixel : ℕ
  pub byte_aligned : Bool

pub data DepthKind : Type 0 where
  unorm16 float32 : DepthKind

pub data StencilKind : Type 0 where
  uint8 : StencilKind

pub record DepthStencilFormat : Type 0 where
  pub depth : Option DepthKind
  pub stencil : Option StencilKind
  pub bytes_per_pixel : ℕ

pub data CompressionScheme : Type 0 where
  astc etc2 eac pvrtc bc other : CompressionScheme

pub record CompressedFormat : Type 0 where
  pub scheme : CompressionScheme
  pub block : ℕ × ℕ
  pub block_bytes : ℕ
  pub srgb : Bool

pub data FormatKind : Type 0 where
  color : ColorFormat → FormatKind
  depth_stencil : DepthStencilFormat → FormatKind
  compressed : CompressedFormat → FormatKind
  unknown : FormatKind

-- `opt.is_some()`
abbrev pub is_some {ℓ} : {A : Type ℓ} → Option A → Bool
is_some none = false
is_some (some x) = true

unfoldable pub bytes_per_pixel : FormatKind → Option ℕ
bytes_per_pixel (color c) = some c.bytes_per_pixel
bytes_per_pixel (depth_stencil d) = some d.bytes_per_pixel
bytes_per_pixel (compressed _) = none
bytes_per_pixel unknown = none

-- `x != y` on booleans.
abbrev pub differ : Bool → Bool → Bool
differ true y = not y
differ false y = y

unfoldable pub byte_aligned : FormatKind → Bool
byte_aligned (color c) = c.byte_aligned
byte_aligned (depth_stencil d) = differ (is_some d.depth) (is_some d.stencil)
byte_aligned (compressed _) = false
byte_aligned unknown = false

unfoldable pub is_srgb : FormatKind → Bool
is_srgb (color c) = c.srgb
is_srgb (compressed k) = k.srgb
is_srgb (depth_stencil _) = false
is_srgb unknown = false

unfoldable pub is_combined_depth_stencil : FormatKind → Bool
is_combined_depth_stencil (depth_stencil d) = is_some d.depth && is_some d.stencil
is_combined_depth_stencil _ = false

unfoldable pub is_depth_only : FormatKind → Bool
is_depth_only (depth_stencil d) = is_some d.depth && not (is_some d.stencil)
is_depth_only _ = false

unfoldable pub is_stencil_only : FormatKind → Bool
is_stencil_only (depth_stencil d) = is_some d.stencil && not (is_some d.depth)
is_stencil_only _ = false

abbrev pub total_bits : List Channel → ℕ
total_bits [] = 0
total_bits (c ∷ cs) = c.bits + total_bits cs

-- `channels.iter().all(|c| c.bits == first && c.bits % 8 == 0)`
abbrev pub all_equal_bytes : ℕ → List Channel → Bool
all_equal_bytes first [] = true
all_equal_bytes first (c ∷ cs) = c.bits == first && c.bits % 8 == 0 && all_equal_bytes first cs

abbrev pub first_bits : List Channel → ℕ
first_bits [] = 0
first_bits (c ∷ cs) = c.bits

-- The function `color` of the source. Over no channels `all` never reads `channels[0]`.
unfoldable pub color_format : List Channel → NumericKind → Bool → ColorFormat
color_format channels numeric srgb = record {
  channels = channels;
  numeric = numeric;
  srgb = srgb;
  bytes_per_pixel = total_bits channels / 8;
  byte_aligned = all_equal_bytes (first_bits channels) channels;
}

-- The functions `depth_stencil` and `compressed` of the source.
abbrev pub depth_stencil_format : Option DepthKind → Option StencilKind → ℕ → DepthStencilFormat
depth_stencil_format depth stencil bytes_per_pixel = record {
  depth = depth;
  stencil = stencil;
  bytes_per_pixel = bytes_per_pixel;
}

abbrev pub compressed_format : CompressionScheme → ℕ × ℕ → ℕ → Bool → CompressedFormat
compressed_format scheme block block_bytes srgb = record {
  scheme = scheme;
  block = block;
  block_bytes = block_bytes;
  srgb = srgb;
}

-- `match raw { k => v, .., _ => default }`
unfoldable pub match_arms {ℓ} : {A : Type ℓ} → ℕ → List (ℕ × A) → A → A
match_arms raw [] default = default
match_arms raw ((k, v) ∷ rest) default = if raw == k then v else match_arms raw rest default
