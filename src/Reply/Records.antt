-- ===== src/Reply/Records.antt =====
-- crates/gputools-replay/src/reply.rs: the six record classes, and how each decodes 80 bytes.
pub mod Total
pub mod Lossless
pub mod Drops
use text.Mathlib.Text.{◌==◌ as str_eq}
use gputools_replay.Prelude.{
  ℕ, ◌+◌, ◌%◌, ◌/◌, ◌^◌, String, Option, none, some, List, [], ◌∷◌, Outcome, ok, ◌>>=◌, ◌==◌,
  if◌then◌else◌,
}
use gputools_replay.Errors.{FetchError}
use gputools_replay.Util.{u16_at, u32_at, u64_at}
use gputools_replay.Reply.{Record}

abbrev pub request_ordinal_off : ℕ
request_ordinal_off = 0x00

abbrev pub stream_ref_off : ℕ
stream_ref_off = 0x08

abbrev pub data_offset_off : ℕ
data_offset_off = 0x18

abbrev pub size_off : ℕ
size_off = 0x1c

abbrev pub width_off : ℕ
width_off = 0x30

abbrev pub height_off : ℕ
height_off = 0x34

abbrev pub depth_off : ℕ
depth_off = 0x36

abbrev pub pixel_format_off : ℕ
pixel_format_off = 0x38

abbrev pub bytes_per_row_off : ℕ
bytes_per_row_off = 0x40

abbrev pub bytes_per_image_off : ℕ
bytes_per_image_off = 0x44

abbrev pub slice_off : ℕ
slice_off = 0x48

abbrev pub plane_level_off : ℕ
plane_level_off = 0x4c

abbrev pub pipeline_id_off : ℕ
pipeline_id_off = 0x00

abbrev pub pipeline_handle_off : ℕ
pipeline_handle_off = 0x08

abbrev pub wireframe_dispatch_uid_off : ℕ
wireframe_dispatch_uid_off = 0x10

abbrev pub texture_unmapped : List ℕ
texture_unmapped = 0x04 ∷ 0x0c ∷ 0x10 ∷ 0x14 ∷ 0x20 ∷ 0x24 ∷ 0x28 ∷ 0x2c ∷ 0x3c ∷ []

abbrev pub identity_unmapped : List ℕ
identity_unmapped =
    0x00 ∷ 0x04 ∷ 0x0c ∷ 0x10 ∷ 0x14 ∷ 0x20 ∷ 0x24 ∷ 0x28 ∷ 0x2c ∷ 0x30 ∷ 0x34 ∷ 0x38 ∷ 0x3c ∷ 0x40
    ∷ 0x44 ∷ 0x48 ∷ 0x4c ∷ []

abbrev pub pipeline_unmapped : List ℕ
pipeline_unmapped =
    0x04 ∷ 0x10 ∷ 0x14 ∷ 0x20 ∷ 0x24 ∷ 0x28 ∷ 0x2c ∷ 0x30 ∷ 0x34 ∷ 0x38 ∷ 0x3c ∷ 0x40 ∷ 0x44 ∷ 0x48
    ∷ 0x4c ∷ []

abbrev pub wireframe_unmapped : List ℕ
wireframe_unmapped =
    0x00 ∷ 0x04 ∷ 0x08 ∷ 0x0c ∷ 0x14 ∷ 0x20 ∷ 0x24 ∷ 0x28 ∷ 0x2c ∷ 0x3c ∷ 0x40 ∷ 0x44 ∷ 0x48 ∷ 0x4c
    ∷ []

abbrev pub offset_name : ℕ → String
offset_name o =
    if o == 0x00
    then "0x00"
    else if o == 0x04
    then "0x04"
    else if o == 0x08
    then "0x08"
    else if o == 0x0c
    then "0x0c"
    else if o == 0x10
    then "0x10"
    else if o == 0x14
    then "0x14"
    else if o == 0x18
    then "0x18"
    else if o == 0x1c
    then "0x1c"
    else if o == 0x20
    then "0x20"
    else if o == 0x24
    then "0x24"
    else if o == 0x28
    then "0x28"
    else if o == 0x2c
    then "0x2c"
    else if o == 0x30
    then "0x30"
    else if o == 0x34
    then "0x34"
    else if o == 0x38
    then "0x38"
    else if o == 0x3c
    then "0x3c"
    else if o == 0x40
    then "0x40"
    else if o == 0x44
    then "0x44"
    else if o == 0x48
    then "0x48"
    else "0x4c"

-- `BTreeMap<&'static str, u32>` as an association list. Nothing iterates over it, so the order of
-- its entries is not modelled.
abbrev pub Unmapped : Type 0
Unmapped = List (String × ℕ)

abbrev pub insert : String → ℕ → Unmapped → Unmapped
insert k v [] = (k, v) ∷ []
insert k v ((j, w) ∷ m) = if str_eq j k then (k, v) ∷ m else (j, w) ∷ insert k v m

abbrev pub lookup : String → Unmapped → Option ℕ
lookup k [] = none
lookup k ((j, v) ∷ m) = if str_eq j k then some v else lookup k m

-- The loop of `unmapped_of` over the offsets that are left.
unfoldable pub unmapped_loop : List ℕ → List ℕ → Unmapped → Outcome FetchError Unmapped
unmapped_loop c [] m = ok m
unmapped_loop c (o ∷ os) m = do v ← u32_at c o; unmapped_loop c os (insert (offset_name o) v m)

abbrev pub unmapped_of : List ℕ → List ℕ → Outcome FetchError Unmapped
unmapped_of c offsets = unmapped_loop c offsets []

pub record TextureRecord : Type 0 where
  pub stream_ref : ℕ
  pub request_ordinal : ℕ
  pub data_offset : ℕ
  pub size : ℕ
  pub width : ℕ
  pub height : ℕ
  pub depth : ℕ
  pub pixel_format : ℕ
  pub bytes_per_row : ℕ
  pub bytes_per_image : ℕ
  pub slice : ℕ
  pub plane : ℕ
  pub level : ℕ
  pub unmapped : Unmapped

unfoldable pub decode_texture : List ℕ → Outcome FetchError TextureRecord
decode_texture c = do
  plane_level ← u32_at c plane_level_off
  request_ordinal ← u32_at c request_ordinal_off
  stream_ref ← u32_at c stream_ref_off
  data_offset ← u32_at c data_offset_off
  size ← u32_at c size_off
  width ← u32_at c width_off
  height ← u16_at c height_off
  depth ← u16_at c depth_off
  pixel_format ← u32_at c pixel_format_off
  bytes_per_row ← u32_at c bytes_per_row_off
  bytes_per_image ← u32_at c bytes_per_image_off
  slice_word ← u32_at c slice_off
  unmapped ← unmapped_of c texture_unmapped
  ok (record {
    stream_ref = stream_ref;
    request_ordinal = request_ordinal;
    data_offset = data_offset;
    size = size;
    width = width;
    height = height;
    depth = depth;
    pixel_format = pixel_format;
    bytes_per_row = bytes_per_row;
    bytes_per_image = bytes_per_image;
    slice = slice_word / 2 ^ 16;
    plane = plane_level / 2 ^ 8 % 256;
    level = plane_level % 256;
    unmapped = unmapped;
  })

abbrev pub texture : Record TextureRecord
texture = record { stride = 80; decode = decode_texture; data_range = λ x. (x.data_offset, x.size) }

pub record BufferRecord : Type 0 where
  pub stream_ref : ℕ
  pub data_offset : ℕ
  pub size : ℕ
  pub unmapped : Unmapped

unfoldable pub decode_buffer : List ℕ → Outcome FetchError BufferRecord
decode_buffer c = do
  stream_ref ← u32_at c stream_ref_off
  data_offset ← u32_at c data_offset_off
  size ← u32_at c size_off
  unmapped ← unmapped_of c identity_unmapped
  ok (record {
    stream_ref = stream_ref;
    data_offset = data_offset;
    size = size;
    unmapped = unmapped;
  })

abbrev pub buffer : Record BufferRecord
buffer = record { stride = 80; decode = decode_buffer; data_range = λ x. (x.data_offset, x.size) }

pub record HeapRecord : Type 0 where
  pub stream_ref : ℕ
  pub data_offset : ℕ
  pub size : ℕ
  pub unmapped : Unmapped

unfoldable pub decode_heap : List ℕ → Outcome FetchError HeapRecord
decode_heap c = do
  stream_ref ← u32_at c stream_ref_off
  data_offset ← u32_at c data_offset_off
  size ← u32_at c size_off
  unmapped ← unmapped_of c identity_unmapped
  ok (record {
    stream_ref = stream_ref;
    data_offset = data_offset;
    size = size;
    unmapped = unmapped;
  })

abbrev pub heap : Record HeapRecord
heap = record { stride = 80; decode = decode_heap; data_range = λ x. (x.data_offset, x.size) }

pub record AccelRecord : Type 0 where
  pub stream_ref : ℕ
  pub data_offset : ℕ
  pub size : ℕ
  pub unmapped : Unmapped

unfoldable pub decode_accel : List ℕ → Outcome FetchError AccelRecord
decode_accel c = do
  stream_ref ← u32_at c stream_ref_off
  data_offset ← u32_at c data_offset_off
  size ← u32_at c size_off
  unmapped ← unmapped_of c identity_unmapped
  ok (record {
    stream_ref = stream_ref;
    data_offset = data_offset;
    size = size;
    unmapped = unmapped;
  })

abbrev pub accel : Record AccelRecord
accel = record { stride = 80; decode = decode_accel; data_range = λ x. (x.data_offset, x.size) }

pub record PipelineRecord : Type 0 where
  pub pipeline_id : ℕ
  pub handle : ℕ
  pub data_offset : ℕ
  pub size : ℕ
  pub unmapped : Unmapped

unfoldable pub decode_pipeline : List ℕ → Outcome FetchError PipelineRecord
decode_pipeline c = do
  pipeline_id ← u32_at c pipeline_id_off
  handle ← u64_at c pipeline_handle_off
  data_offset ← u32_at c data_offset_off
  size ← u32_at c size_off
  unmapped ← unmapped_of c pipeline_unmapped
  ok (record {
    pipeline_id = pipeline_id;
    handle = handle;
    data_offset = data_offset;
    size = size;
    unmapped = unmapped;
  })

abbrev pub pipeline : Record PipelineRecord
pipeline = record {
  stride = 80;
  decode = decode_pipeline;
  data_range = λ x. (x.data_offset, x.size);
}

pub record WireframeRecord : Type 0 where
  pub dispatch_uid : ℕ
  pub width : ℕ
  pub height : ℕ
  pub pixel_format : ℕ
  pub data_offset : ℕ
  pub size : ℕ
  pub unmapped : Unmapped

unfoldable pub decode_wireframe : List ℕ → Outcome FetchError WireframeRecord
decode_wireframe c = do
  dispatch_uid ← u32_at c wireframe_dispatch_uid_off
  width ← u32_at c width_off
  height ← u16_at c height_off
  pixel_format ← u32_at c pixel_format_off
  data_offset ← u32_at c data_offset_off
  size ← u32_at c size_off
  unmapped ← unmapped_of c wireframe_unmapped
  ok (record {
    dispatch_uid = dispatch_uid;
    width = width;
    height = height;
    pixel_format = pixel_format;
    data_offset = data_offset;
    size = size;
    unmapped = unmapped;
  })

abbrev pub wireframe : Record WireframeRecord
wireframe = record {
  stride = 80;
  decode = decode_wireframe;
  data_range = λ x. (x.data_offset, x.size);
}
