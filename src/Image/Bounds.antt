-- ===== src/Image/Bounds.antt =====
-- The bounds check of image.rs on wire data: geometry that is any `u32`, and any payload.
use gputools_replay.Prelude.{
  ℕ, ◌*◌, ◌^◌, ◌≤◌, ◌<◌, ◌≡◌, List, Bool, ◌&&◌, ok, err, some, arith, length, leb, if◌then◌else◌,
  mul_usize, checked_mul, lt→ltb,
}
use native.Mathlib.Nat.{mod-eq_of_lt}
use gputools_replay.Errors.{truncated}
use gputools_replay.Format.Bounds.{kind_check}
use gputools_replay.Image.{Image, raw_bytes, aspect_bpp, checked_len}

-- The record's geometry is made of 32-bit fields, and its payload can be read.
pub record IsWire (img : Image) (bs : List ℕ) : Type 0 where
  pub width_u32 : img.width < 2 ^ 32
  pub height_u32 : img.height < 2 ^ 32
  pub stride_u32 : img.bytes_per_row < 2 ^ 32
  pub readable : raw_bytes img ≡ ok bs

pub product_fits : (a b : ℕ) → a < 2 ^ 32 → b < 2 ^ 32 → a * b < 2 ^ 64
product_fits a b ha hb = grind arith

pub mul_usize_fits : (a b : ℕ) → a < 2 ^ 32 → b < 2 ^ 32 → mul_usize a b ≡ a * b
mul_usize_fits a b ha hb = mod-eq_of_lt (product_fits a b ha hb)

pub checked_mul_fits : (a b : ℕ) → a < 2 ^ 32 → b < 2 ^ 32 → checked_mul a b ≡ some (a * b)
unfolding checked_mul
checked_mul_fits a b ha hb = rw (lt→ltb _ _ (product_fits a b ha hb))

-- An element is 1 to 16 bytes.
pub aspect_bpp_bounds : (img : Image) {b : ℕ} → aspect_bpp img ≡ ok b → (0 < b) × (b ≤ 16)
unfolding aspect_bpp
aspect_bpp_bounds img h = ground (arith, kind_check img.pixel_format)

-- What `checked_len` decides: a row of pixels fits the stride, and all rows fit the payload.
abbrev pub fits : Image → List ℕ → ℕ → Bool
fits img bs bpp =
    leb (img.width * bpp) img.bytes_per_row && leb (img.height * img.bytes_per_row) (length bs)

pub checked_len-eq :
    (img : Image) (bs : List ℕ) (bpp : ℕ)
    → IsWire img bs
    → bpp ≤ 16
    → checked_len img bpp
      ≡ (if fits img bs bpp then ok (img.height * img.bytes_per_row) else err truncated)
unfolding checked_len
checked_len-eq img bs bpp w h = rw (checked_mul_fits img.width bpp w.width_u32 (omega arith)) (
    rw (checked_mul_fits img.height img.bytes_per_row w.height_u32 w.stride_u32)
      (rw w.readable (ground arith)))
