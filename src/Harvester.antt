-- ===== src/Harvester.antt =====
-- crates/gputools-replay/src/harvester.rs: the texture block of a capture bundle.
pub mod Laws
use gputools_replay.Prelude.{
  bytes_eq, ℕ, zero, suc, ◌+◌, ◌*◌, ◌%◌, ◌^◌, Bool, true, false, ◌&&◌, ◌||◌, Option, none, some,
  List, [], ◌∷◌, Outcome, ok, err, panic, ◌>>=◌, ok_or, unwrap, ◌==◌, ltb, leb, if◌then◌else◌,
  length, slice, checked_mul, checked_add, add_usize, as_u32,
}
use gputools_replay.Errors.{HarvesterError, bad_magic, wrong_type, truncated}
use gputools_replay.Util.{u16_at, u32_at, u64_at}

abbrev pub magic : List ℕ
magic = 0x65 ∷ 0x72 ∷ 0x75 ∷ 0x74 ∷ 0x70 ∷ 0x61 ∷ 0x63 ∷ 0x00 ∷ []

abbrev pub type_off : ℕ
type_off = 0x0a

abbrev pub metadata_size_off : ℕ
metadata_size_off = 0x0c

abbrev pub plane_count_off : ℕ
plane_count_off = 0x10

abbrev pub header_len : ℕ
header_len = 0x18

abbrev pub plane_desc_len : ℕ
plane_desc_len = 0x30

pub record PlaneDescriptor : Type 0 where
  pub pixel_format : ℕ
  pub width : ℕ
  pub height : ℕ
  pub depth : ℕ
  pub bytes_per_row : ℕ
  pub bytes_per_image : ℕ

pub record CaptureBlock : Type 0 where
  pub bytes : List ℕ
  pub metadata_size : ℕ
  pub plane_count : ℕ

-- `checked_mul(PLANE_DESC_LEN).and_then(|x| x.checked_add(HEADER_LEN))`
unfoldable pub plane_off : ℕ → Option ℕ
plane_off i = elim (checked_mul i plane_desc_len) [
  | none ↦ none
  | some x ↦ checked_add x header_len
]

-- `CaptureBlock::parse`
unfoldable pub parse_block : List ℕ → Outcome HarvesterError CaptureBlock
parse_block bytes = if ltb (length bytes) header_len then err bad_magic else do
  front ← unwrap (slice bytes 0 8)
  if bytes_eq front magic
      then (do
        ty ← u16_at bytes type_off
        if ty == 1
            then (do
              metadata_size ← u32_at bytes metadata_size_off
              plane_count ← u64_at bytes plane_count_off
              planes_end ← ok_or truncated (plane_off plane_count)
              if ltb (length bytes) metadata_size || ltb (length bytes) planes_end
                  then err truncated
                  else ok (record {
                    bytes = bytes;
                    metadata_size = metadata_size;
                    plane_count = plane_count;
                  }))
            else err (wrong_type ty))
      else err bad_magic

-- The descriptor at `o`.
abbrev pub plane_at : List ℕ → ℕ → Outcome HarvesterError PlaneDescriptor
plane_at bytes o = do
  pixel_format ← u64_at bytes o
  width ← u64_at bytes (add_usize o 0x08)
  height ← u64_at bytes (add_usize o 0x10)
  depth ← u64_at bytes (add_usize o 0x18)
  bytes_per_row ← u64_at bytes (add_usize o 0x20)
  bytes_per_image ← u64_at bytes (add_usize o 0x28)
  ok (record {
    pixel_format = as_u32 pixel_format;
    width = width;
    height = height;
    depth = depth;
    bytes_per_row = bytes_per_row;
    bytes_per_image = bytes_per_image;
  })

-- `end > self.bytes.len()`, also if there is no end.
abbrev pub ends_past : Option ℕ → ℕ → Bool
ends_past none len = true
ends_past (some end) len = ltb len end

-- `CaptureBlock::plane`
unfoldable pub plane : CaptureBlock → ℕ → Outcome HarvesterError (Option PlaneDescriptor)
plane b i = if leb b.plane_count i then ok none else elim (plane_off i) [
  | none ↦ ok none
  | some o ↦
      if ends_past (checked_add o plane_desc_len) (length b.bytes)
      then ok none
      else do p ← plane_at b.bytes o; ok (some p)
]

-- `CaptureBlock::data`
unfoldable pub data_of : CaptureBlock → Outcome HarvesterError (List ℕ)
data_of b = unwrap (slice b.bytes b.metadata_size (length b.bytes))
