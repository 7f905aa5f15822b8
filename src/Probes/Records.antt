-- ===== src/Probes/Records.antt =====
-- probes/src/reply.rs: `parse_records`, which reads the info table of a reply with checked readers.
pub mod Agree
use gputools_replay.Prelude.{
  ℕ, ◌+◌, ◌%◌, String, List, [], ◌∷◌, Outcome, ok, err, ◌>>=◌, ok_or, collect, ◌==◌, length, slice,
  if◌then◌else◌,
}
use gputools_replay.Util.{from_le_bytes}
use gputools_replay.Reply.{chunks_exact}
use gputools_replay.Reply.Records.{Unmapped, insert}
use gputools_replay.Probes.{ReplyError, trailing_bytes, short_record}

-- `RECORD_LEN`
abbrev pub record_len : ℕ
record_len = 80

-- `UNMAPPED_OFFSETS`
abbrev pub unmapped_offsets : List ℕ
unmapped_offsets = 0x04 ∷ 0x0c ∷ 0x10 ∷ 0x14 ∷ 0x20 ∷ 0x24 ∷ 0x28 ∷ 0x2c ∷ 0x3c ∷ 0x48 ∷ 0x4c ∷ []

pub record InfoRecord : Type 0 where
  pub request_ordinal : ℕ
  pub stream_ref : ℕ
  pub data_offset : ℕ
  pub size : ℕ
  pub width : ℕ
  pub height : ℕ
  pub depth : ℕ
  pub pixel_format : ℕ
  pub bytes_per_row : ℕ
  pub bytes_per_image : ℕ
  pub unmapped : Unmapped

-- `slice.try_into()`, for an array of `n` bytes
abbrev pub try_into : ℕ → ℕ → List ℕ → Outcome ReplyError (List ℕ)
try_into n off bytes = if length bytes == n then ok bytes else err (short_record off)

unfoldable pub u32_at : List ℕ → ℕ → Outcome ReplyError ℕ
u32_at buf off = do
  bytes ← ok_or (short_record off) (slice buf off (off + 4))
  arr ← try_into 4 off bytes
  ok (from_le_bytes arr)

unfoldable pub u16_at : List ℕ → ℕ → Outcome ReplyError ℕ
u16_at buf off = do
  bytes ← ok_or (short_record off) (slice buf off (off + 2))
  arr ← try_into 2 off bytes
  ok (from_le_bytes arr)

-- The `match off` of the loop.
abbrev pub offset_name : ℕ → String
offset_name off =
    if off == 0x04
    then "0x04"
    else if off == 0x0c
    then "0x0c"
    else if off == 0x10
    then "0x10"
    else if off == 0x14
    then "0x14"
    else if off == 0x20
    then "0x20"
    else if off == 0x24
    then "0x24"
    else if off == 0x28
    then "0x28"
    else if off == 0x2c
    then "0x2c"
    else if off == 0x3c
    then "0x3c"
    else if off == 0x48
    then "0x48"
    else "0x4c"

-- The loop over the unmapped offsets that are left.
unfoldable pub unmapped_loop : List ℕ → List ℕ → Unmapped → Outcome ReplyError Unmapped
unmapped_loop chunk [] unmapped = ok unmapped
unmapped_loop chunk (off ∷ offs) unmapped = do
  v ← u32_at chunk off
  unmapped_loop chunk offs (insert (offset_name off) v unmapped)

-- The body of the loop over the chunks.
unfoldable pub parse_record : List ℕ → Outcome ReplyError InfoRecord
parse_record chunk = do
  unmapped ← unmapped_loop chunk unmapped_offsets []
  request_ordinal ← u32_at chunk 0x00
  stream_ref ← u32_at chunk 0x08
  data_offset ← u32_at chunk 0x18
  size ← u32_at chunk 0x1c
  width ← u32_at chunk 0x30
  height ← u16_at chunk 0x34
  depth ← u16_at chunk 0x36
  pixel_format ← u32_at chunk 0x38
  bytes_per_row ← u32_at chunk 0x40
  bytes_per_image ← u32_at chunk 0x44
  ok (record {
    request_ordinal = request_ordinal;
    stream_ref = stream_ref;
    data_offset = data_offset;
    size = size;
    width = width;
    height = height;
    depth = depth;
    pixel_format = pixel_format;
    bytes_per_row = bytes_per_row;
    bytes_per_image = bytes_per_image;
    unmapped = unmapped;
  })

unfoldable pub parse_records : List ℕ → Outcome ReplyError (List InfoRecord)
parse_records info =
    if length info % record_len == 0
    then collect parse_record (chunks_exact info record_len)
    else err (trailing_bytes (length info) record_len)
