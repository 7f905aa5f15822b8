-- ===== src/Reply/Records/Total.antt =====
-- The record that each class of reply.rs decodes from 80 bytes.
use gputools_replay.Prelude.{
  ℕ, ◌+◌, ◌/◌, ◌%◌, ◌^◌, ◌≤◌, ◌≡◌, refl, List, [], ◌∷◌, ok, arith, length, All,
}
use gputools_replay.Util.Reads.{le_at, u16_at_in, u32_at_in, u64_at_in}
use gputools_replay.Reply.{IsLawful}
use gputools_replay.Reply.Records.{
  TextureRecord, BufferRecord, HeapRecord, AccelRecord, PipelineRecord, WireframeRecord, Unmapped,
  insert, offset_name, unmapped_loop, texture_unmapped, identity_unmapped, pipeline_unmapped,
  wireframe_unmapped, decode_texture, decode_buffer, decode_heap, decode_accel, decode_pipeline,
  decode_wireframe, texture, buffer, heap, accel, pipeline, wireframe,
}

-- The 32-bit word at an offset.
abbrev pub word : List ℕ → ℕ → ℕ
word c o = le_at c o 4

abbrev pub unmapped_words : List ℕ → List ℕ → Unmapped → Unmapped
unmapped_words c [] m = m
unmapped_words c (o ∷ os) m = unmapped_words c os (insert (offset_name o) (word c o) m)

unmapped_loop_in :
    (c os : List ℕ) (m : Unmapped)
    → All (λ o. o + 4 ≤ length c) os
    → unmapped_loop c os m ≡ ok (unmapped_words c os m)
unfolding unmapped_loop
unmapped_loop_in c [] m h = refl
unmapped_loop_in c (o ∷ os) m h =
    rw (u32_at_in c o h.0) (unmapped_loop_in c os (insert (offset_name o) (word c o) m) h.1)

abbrev pub texture_of : List ℕ → TextureRecord
texture_of c = record {
  stream_ref = word c 0x08;
  request_ordinal = word c 0x00;
  data_offset = word c 0x18;
  size = word c 0x1c;
  width = word c 0x30;
  height = le_at c 0x34 2;
  depth = le_at c 0x36 2;
  pixel_format = word c 0x38;
  bytes_per_row = word c 0x40;
  bytes_per_image = word c 0x44;
  slice = word c 0x48 / 2 ^ 16;
  plane = word c 0x4c / 2 ^ 8 % 256;
  level = word c 0x4c % 256;
  unmapped = unmapped_words c texture_unmapped [];
}

abbrev pub buffer_of : List ℕ → BufferRecord
buffer_of c = record {
  stream_ref = word c 0x08;
  data_offset = word c 0x18;
  size = word c 0x1c;
  unmapped = unmapped_words c identity_unmapped [];
}

abbrev pub heap_of : List ℕ → HeapRecord
heap_of c = record {
  stream_ref = word c 0x08;
  data_offset = word c 0x18;
  size = word c 0x1c;
  unmapped = unmapped_words c identity_unmapped [];
}

abbrev pub accel_of : List ℕ → AccelRecord
accel_of c = record {
  stream_ref = word c 0x08;
  data_offset = word c 0x18;
  size = word c 0x1c;
  unmapped = unmapped_words c identity_unmapped [];
}

abbrev pub pipeline_of : List ℕ → PipelineRecord
pipeline_of c = record {
  pipeline_id = word c 0x00;
  handle = le_at c 0x08 8;
  data_offset = word c 0x18;
  size = word c 0x1c;
  unmapped = unmapped_words c pipeline_unmapped [];
}

abbrev pub wireframe_of : List ℕ → WireframeRecord
wireframe_of c = record {
  dispatch_uid = word c 0x10;
  width = word c 0x30;
  height = le_at c 0x34 2;
  pixel_format = word c 0x38;
  data_offset = word c 0x18;
  size = word c 0x1c;
  unmapped = unmapped_words c wireframe_unmapped [];
}

module _ (c : List ℕ) (h : length c ≡ 80) where
  pub decode_texture_in : decode_texture c ≡ ok (texture_of c)
  unfolding decode_texture
  decode_texture_in = rw (
    u32_at_in c 0x4c (omega arith),
    u32_at_in c 0x00 (omega arith),
    u32_at_in c 0x08 (omega arith),
    u32_at_in c 0x18 (omega arith),
    u32_at_in c 0x1c (omega arith),
    u32_at_in c 0x30 (omega arith),
    u16_at_in c 0x34 (omega arith),
    u16_at_in c 0x36 (omega arith),
    u32_at_in c 0x38 (omega arith),
    u32_at_in c 0x40 (omega arith),
    u32_at_in c 0x44 (omega arith),
    u32_at_in c 0x48 (omega arith),
    unmapped_loop_in c texture_unmapped [] (omega arith),
  )

  pub decode_buffer_in : decode_buffer c ≡ ok (buffer_of c)
  unfolding decode_buffer
  decode_buffer_in = rw (
    u32_at_in c 0x08 (omega arith),
    u32_at_in c 0x18 (omega arith),
    u32_at_in c 0x1c (omega arith),
    unmapped_loop_in c identity_unmapped [] (omega arith),
  )

  pub decode_heap_in : decode_heap c ≡ ok (heap_of c)
  unfolding decode_heap
  decode_heap_in = rw (
    u32_at_in c 0x08 (omega arith),
    u32_at_in c 0x18 (omega arith),
    u32_at_in c 0x1c (omega arith),
    unmapped_loop_in c identity_unmapped [] (omega arith),
  )

  pub decode_accel_in : decode_accel c ≡ ok (accel_of c)
  unfolding decode_accel
  decode_accel_in = rw (
    u32_at_in c 0x08 (omega arith),
    u32_at_in c 0x18 (omega arith),
    u32_at_in c 0x1c (omega arith),
    unmapped_loop_in c identity_unmapped [] (omega arith),
  )

  pub decode_pipeline_in : decode_pipeline c ≡ ok (pipeline_of c)
  unfolding decode_pipeline
  decode_pipeline_in = rw (
    u32_at_in c 0x00 (omega arith),
    u64_at_in c 0x08 (omega arith),
    u32_at_in c 0x18 (omega arith),
    u32_at_in c 0x1c (omega arith),
    unmapped_loop_in c pipeline_unmapped [] (omega arith),
  )

  pub decode_wireframe_in : decode_wireframe c ≡ ok (wireframe_of c)
  unfolding decode_wireframe
  decode_wireframe_in = rw (
    u32_at_in c 0x10 (omega arith),
    u32_at_in c 0x30 (omega arith),
    u16_at_in c 0x34 (omega arith),
    u32_at_in c 0x38 (omega arith),
    u32_at_in c 0x18 (omega arith),
    u32_at_in c 0x1c (omega arith),
    unmapped_loop_in c wireframe_unmapped [] (omega arith),
  )

pub texture-IsLawful : IsLawful texture
texture-IsLawful = record {
  positive = omega arith;
  total = λ c h. (texture_of c, decode_texture_in c h);
}

pub buffer-IsLawful : IsLawful buffer
buffer-IsLawful = record {
  positive = omega arith;
  total = λ c h. (buffer_of c, decode_buffer_in c h);
}

pub heap-IsLawful : IsLawful heap
heap-IsLawful = record { positive = omega arith; total = λ c h. (heap_of c, decode_heap_in c h) }

pub accel-IsLawful : IsLawful accel
accel-IsLawful = record { positive = omega arith; total = λ c h. (accel_of c, decode_accel_in c h) }

pub pipeline-IsLawful : IsLawful pipeline
pipeline-IsLawful = record {
  positive = omega arith;
  total = λ c h. (pipeline_of c, decode_pipeline_in c h);
}

pub wireframe-IsLawful : IsLawful wireframe
wireframe-IsLawful = record {
  positive = omega arith;
  total = λ c h. (wireframe_of c, decode_wireframe_in c h);
}

-- A reply of each class decodes every whole 80-byte chunk of its table, whatever the bytes.
pub classes-IsLawful :
    IsLawful texture
    × IsLawful buffer
    × IsLawful heap
    × IsLawful accel
    × IsLawful pipeline
    × IsLawful wireframe
classes-IsLawful = (
  texture-IsLawful, buffer-IsLawful, heap-IsLawful, accel-IsLawful, pipeline-IsLawful,
  wireframe-IsLawful,
)
