-- ===== src/Image.antt =====
-- crates/gputools-replay-hl/src/image.rs: typed access to a fetched image. `Texture` and `Wireframe`
-- hold an `Image` and delegate to it; they stand in Handles.antt.
pub mod Bounds
pub mod Packed
pub mod Typed
pub mod Pixels
pub mod Blocks
use gputools_replay.Prelude.{
  ℕ, zero, suc, ◌+◌, ◌*◌, ◌%◌, ◌/◌, Option, none, some, List, [], ◌∷◌, ◌++◌, Bool, Outcome, ok, err,
  panic, ◌>>=◌, ok_or, unwrap, ◌==◌, ltb, if◌then◌else◌, length, slice, take, checked_mul,
  add_usize, mul_usize, as_u32,
}
use gputools_replay.Errors.{
  Error, format_mismatch, wrong_category, padded, unknown_format, misaligned, truncated,
}
use gputools_replay.Format.{
  FormatKind, color, depth_stencil, compressed, unknown, ColorFormat, DepthStencilFormat, DepthKind,
  unorm16, float32, StencilKind, uint8,
}
use gputools_replay.Format.Table.{format_kind}
use gputools_replay.Bytes.{Payload, payload_bytes, payload_addr, Pod}

pub record Image : Type 0 where
  pub width : ℕ
  pub height : ℕ
  pub bytes_per_row : ℕ
  pub pixel_format : ℕ
  pub payload : Payload

abbrev pub raw_bytes : Image → Outcome Error (List ℕ)
raw_bytes img = payload_bytes img.payload

-- The element sizes of the single aspects.
abbrev pub depth_size : DepthKind → ℕ
depth_size unorm16 = 2
depth_size float32 = 4

abbrev pub stencil_size : StencilKind → ℕ
stencil_size uint8 = 1

abbrev pub aspect_size : Option DepthKind → Option StencilKind → Outcome Error ℕ
aspect_size (some depth) none = ok (depth_size depth)
aspect_size none (some stencil) = ok (stencil_size stencil)
aspect_size _ _ = err (wrong_category "combined depth+stencil is fetched as separate aspects")

abbrev pub kind_bpp : FormatKind → ℕ → Outcome Error ℕ
kind_bpp (color c) raw = ok c.bytes_per_pixel
kind_bpp (depth_stencil d) raw = aspect_size d.depth d.stencil
kind_bpp (compressed _) raw = err (wrong_category "compressed: use blocks()")
kind_bpp unknown raw = err (unknown_format raw)

-- `Image::aspect_bpp`
unfoldable pub aspect_bpp : Image → Outcome Error ℕ
aspect_bpp img = kind_bpp (format_kind img.pixel_format) img.pixel_format

-- `Image::checked_len`
unfoldable pub checked_len : Image → ℕ → Outcome Error ℕ
unfolding checked_mul
checked_len img bpp = do
  row_len ← ok_or truncated (checked_mul img.width bpp)
  if ltb img.bytes_per_row row_len then err truncated else do
    need ← ok_or truncated (checked_mul img.height img.bytes_per_row)
    bytes ← raw_bytes img
    if ltb (length bytes) need then err truncated else ok need

module _ {P : Type 0} (pod : Pod P) (img : Image) where
  -- `Image::checked_bpp`
  unfoldable pub checked_bpp : Outcome Error ℕ
  checked_bpp = do
    bpp ← aspect_bpp img
    if pod.size_of == bpp then ok bpp else err (format_mismatch pod.size_of bpp)

  -- `bytemuck::try_cast_slice(part).map_err(..)`, on a part that begins `start` bytes into the payload.
  abbrev pub cast_part : ℕ → List ℕ → Outcome Error (List P)
  cast_part start part =
      ok_or (misaligned pod.align_of) (pod.try_cast_slice (payload_addr img.payload + start) part)

  -- `Image::pixels`
  unfoldable pub pixels : Outcome Error (List P)
  pixels = do
    bpp ← checked_bpp
    let row_len = mul_usize img.width bpp
    if img.bytes_per_row == row_len
        then (do
          need ← checked_len img bpp
          bytes ← raw_bytes img
          part ← unwrap (slice bytes 0 need)
          cast_part 0 part)
        else err (padded img.bytes_per_row (as_u32 row_len))

  -- The loop of `Image::rows`, with `k` rows left from row `y` on.
  unfoldable pub row_loop : ℕ → ℕ → ℕ → List ℕ → Outcome Error (List (List P))
  row_loop zero y bpp bytes = ok []
  row_loop (suc k) y bpp bytes = do
    let start = mul_usize y img.bytes_per_row
    row ← unwrap (slice bytes start (add_usize start (mul_usize img.width bpp)))
    pixels ← cast_part start row
    rest ← row_loop k (y + 1) bpp bytes
    ok (pixels ∷ rest)

  -- `Image::rows`
  unfoldable pub rows : Outcome Error (List (List P))
  rows = do
    bpp ← checked_bpp
    need ← checked_len img bpp
    bytes ← raw_bytes img
    row_loop img.height 0 bpp bytes

-- `Cow<[u8]>`: the bytes are the payload's own, or a copy.
pub data Cow : Type 0 where
  borrowed : List ℕ → Cow
  owned : List ℕ → Cow

abbrev pub contents : Cow → List ℕ
contents (borrowed bytes) = bytes
contents (owned bytes) = bytes

-- The copying loops of `packed_bytes` and `packed_blocks`: `k` rows from row `y` on, of which the
-- first `tight` bytes of each `stride` are appended to `out`.
unfoldable pub pack_loop : ℕ → ℕ → ℕ → ℕ → List ℕ → List ℕ → Outcome Error (List ℕ)
pack_loop zero y stride tight bytes out = ok out
pack_loop (suc k) y stride tight bytes out = do
  let start = mul_usize y stride
  row ← unwrap (slice bytes start (add_usize start tight))
  pack_loop k (y + 1) stride tight bytes (out ++ row)

-- `Image::packed_bytes`
unfoldable pub packed_bytes : Image → Outcome Error Cow
packed_bytes img = do
  bpp ← aspect_bpp img
  need ← checked_len img bpp
  bytes ← raw_bytes img
  let row_len = mul_usize img.width bpp
  if img.bytes_per_row == row_len
      then (do part ← unwrap (slice bytes 0 need); ok (borrowed part))
      else do out ← pack_loop img.height 0 img.bytes_per_row row_len bytes []; ok (owned out)
