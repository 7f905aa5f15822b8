-- ===== src/Handles.antt =====
-- The handles of crates/gputools-replay-hl that a fetch returns: `Texture` and `Wireframe` of
-- image.rs, `Buffer` and `Heap` of buffer.rs, `AccelStructure` of accel.rs, `Pipeline` of pipeline.rs.
pub mod Views
pub mod Accel
use gputools_replay.Prelude.{
  ℕ, ◌*◌, ◌+◌, Option, none, some, List, Outcome, ◌>>=◌, ok_or, length, slice, checked_mul,
  checked_add, add_usize, as_u32,
}
use gputools_replay.Errors.{Error, format_mismatch, truncated, misaligned}
use gputools_replay.Util.{from_le_bytes}
use gputools_replay.Format.{bytes_per_pixel}
use gputools_replay.Format.Table.{format_kind}
use gputools_replay.Bytes.{Payload, payload_bytes, payload_addr, Pod}
use gputools_replay.Reply.Records.{TextureRecord, WireframeRecord}
use gputools_replay.Image.{Image}

pub record Texture : Type 0 where
  pub stream_ref : ℕ
  pub depth : ℕ
  pub bytes_per_image : ℕ
  pub plane : ℕ
  pub slice : ℕ
  pub level : ℕ
  pub image : Image

-- `Texture::from_parts`
abbrev pub texture_from_parts : TextureRecord → Payload → Texture
texture_from_parts r payload = record {
  stream_ref = r.stream_ref;
  depth = r.depth;
  bytes_per_image = r.bytes_per_image;
  plane = r.plane;
  slice = r.slice;
  level = r.level;
  image = record {
    width = r.width;
    height = r.height;
    bytes_per_row = r.bytes_per_row;
    pixel_format = r.pixel_format;
    payload = payload;
  };
}

pub record Wireframe : Type 0 where
  pub dispatch_uid : ℕ
  pub image : Image

abbrev pub unwrap_or_zero : Option ℕ → ℕ
unwrap_or_zero none = 0
unwrap_or_zero (some n) = n

-- `r.width * bpp` on `u32`, in release builds: it wraps.
abbrev pub wireframe_stride : ℕ → ℕ → ℕ
wireframe_stride width raw =
    as_u32 (width * as_u32 (unwrap_or_zero (bytes_per_pixel (format_kind raw))))

-- `Wireframe::from_parts`
abbrev pub wireframe_from_parts : WireframeRecord → Payload → Wireframe
wireframe_from_parts r payload = record {
  dispatch_uid = r.dispatch_uid;
  image = record {
    width = r.width;
    height = r.height;
    bytes_per_row = wireframe_stride r.width r.pixel_format;
    pixel_format = r.pixel_format;
    payload = payload;
  };
}

pub record Buffer : Type 0 where
  pub stream_ref : ℕ
  pub payload : Payload

pub record Heap : Type 0 where
  pub stream_ref : ℕ
  pub payload : Payload

-- The body of `Buffer::as_slice`, and of `Heap::as_slice`, which is the same text.
abbrev pub payload_as_slice : {P : Type 0} → Pod P → Payload → Outcome Error (List P)
payload_as_slice pod payload = do
  bytes ← payload_bytes payload
  ok_or (format_mismatch pod.size_of (length bytes))
      (pod.try_cast_slice (payload_addr payload) bytes)

-- `Buffer::as_slice`
unfoldable pub buffer_as_slice : {P : Type 0} → Pod P → Buffer → Outcome Error (List P)
buffer_as_slice pod b = payload_as_slice pod b.payload

-- `Heap::as_slice`
unfoldable pub heap_as_slice : {P : Type 0} → Pod P → Heap → Outcome Error (List P)
heap_as_slice pod h = payload_as_slice pod h.payload

pub record AccelStructure : Type 0 where
  pub payload : Payload

-- `read_u32(b, off)` of accel.rs
abbrev pub read_u32 : List ℕ → ℕ → Option ℕ
read_u32 b off = elim (slice b off (add_usize off 4)) [
  | none ↦ none
  | some word ↦ some (from_le_bytes word)
]

abbrev pub triangle_count_offset : ℕ
triangle_count_offset = 0x2c

abbrev pub vertices_offset : ℕ
vertices_offset = 0x418

-- `AccelStructure::triangles`, with `bytemuck`'s reading of `[f32; 3]`.
unfoldable pub triangles : {V : Type 0} → Pod V → AccelStructure → Outcome Error (List V)
triangles pod a = do
  b ← payload_bytes a.payload
  count ← ok_or truncated (read_u32 b triangle_count_offset)
  verts ← ok_or truncated (checked_mul count 3)
  need ← ok_or truncated (checked_mul verts pod.size_of)
  end ← ok_or truncated (checked_add vertices_offset need)
  region ← ok_or truncated (slice b vertices_offset end)
  ok_or (misaligned pod.align_of)
      (pod.try_cast_slice (payload_addr a.payload + vertices_offset) region)

pub record Pipeline : Type 0 where
  pub pipeline_id : ℕ
  pub handle : ℕ
  pub payload : Payload
