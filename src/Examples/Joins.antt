-- ===== src/Examples/Joins.antt =====
-- The theorems on typed views and on the join with the manifest, at concrete inputs.
use gputools_replay.Prelude.{
  ℕ, ◌+◌, ◌*◌, ◌%◌, ◌≡◌, refl, ◌==◌, if◌then◌else◌, some, none, List, [], ◌∷◌, ◌++◌, ok, length,
  slice, arith, replicate, ◌/◌,
}
use gputools_replay.Errors.{Error}
use gputools_replay.Bytes.{payload_bytes, as_slice, Pod}
use gputools_replay.Reply.{chunks}
use gputools_replay.Image.Packed.{concat}
use gputools_replay.Handles.{Texture, Buffer, Heap, AccelStructure, buffer_as_slice, heap_as_slice}
use gputools_replay.Handles.Views.{as_slice-cases, IsView}
use gputools_replay.Describe.{
  HasGeometry, Key, zip_best_effort, zip_loop, unplaced_from, transparent_from, skip_combined,
}
use gputools_replay.Format.{is_combined_depth_stencil, match_arms}
use gputools_replay.Format.Table.{format_kind}
use gputools_replay.Describe.Textures.{Descriptions, describe_textures}
use gputools_replay.Describe.Textures.Partition.{IsPartition, describe_textures-IsPartition}
use gputools_replay.Describe.Zip.{zip_best_effort-partition, AllPlaced, Increasing, count_some}
use gputools_replay.Examples.Data.{two_bytes, two_bytes-IsPod, payload_of, count_up, le32}

abbrev some_buffer : Buffer
some_buffer = record { stream_ref = 3; payload = payload_of 64 (count_up 8 1) }

abbrev some_heap : Heap
some_heap = record { stream_ref = 4; payload = payload_of 33 (count_up 6 1) }

buffer_bytes : payload_bytes {E = Error} some_buffer.payload ≡ ok (count_up 8 1)
unfolding payload_bytes as_slice slice
buffer_bytes = refl

heap_bytes : payload_bytes {E = Error} some_heap.payload ≡ ok (count_up 6 1)
unfolding payload_bytes as_slice slice
heap_bytes = refl

as_slice-cases_example :
    IsView two_bytes two_bytes-IsPod
      (omega arith)
      some_buffer.payload
      (count_up 8 1)
      (buffer_as_slice two_bytes some_buffer)
    × IsView two_bytes two_bytes-IsPod
        (omega arith)
        some_heap.payload
        (count_up 6 1)
        (heap_as_slice two_bytes some_heap)
as_slice-cases_example =
    as_slice-cases two_bytes two_bytes-IsPod (omega arith) some_buffer some_heap (count_up 8 1)
      (count_up 6 1) buffer_bytes heap_bytes

-- A vertex as its twelve bytes, read from multiples of four.
abbrev vertices : Pod (List ℕ)
vertices = record {
  size_of = 12;
  align_of = 4;
  try_cast_slice = λ addr bs.
      if addr % 4 == 0
      then (if length bs % 12 == 0 then some (chunks (length bs / 12) 12 bs) else none)
      else none;
  to_bytes = concat;
}

-- One triangle, and eight bytes behind it.
abbrev accel_bytes : List ℕ
accel_bytes = replicate 44 0 ++ le32 1 ++ replicate 1000 0 ++ count_up 44 1

abbrev some_accel : AccelStructure
some_accel = record { payload = payload_of 64 accel_bytes }

-- The descriptors are their keys.
abbrev as_key : HasGeometry Key
as_key = record { width = λ k. k.0; height = λ k. k.1; format = λ k. k.2 }

-- A placed texture, a combined descriptor, one that no texture claims, and a second placed one.
abbrev keys : List Key
keys = (4, 4, 80) ∷ (9, 9, 80) ∷ (8, 8, 70) ∷ []

abbrev descriptors : List Key
descriptors = (4, 4, 80) ∷ (16, 16, 260) ∷ (8, 8, 70) ∷ (2, 2, 80) ∷ []

zip_best_effort-partition_example :
    let (out, unplaced, transparent) = zip_best_effort as_key keys descriptors in
    AllPlaced as_key descriptors keys out
    × Increasing 0 out
    × (count_some out + length unplaced + length transparent ≡ 4)
zip_best_effort-partition_example = zip_best_effort-partition as_key keys descriptors

zip_run : zip_best_effort as_key keys descriptors ≡ (some 0 ∷ none ∷ some 2 ∷ [], 3 ∷ [], 1 ∷ [])
unfolding zip_best_effort zip_loop unplaced_from transparent_from skip_combined
    is_combined_depth_stencil format_kind match_arms
zip_run = refl

-- A texture of BGRA8Unorm, with a reference and a width.
abbrev texture_of_width : ℕ → ℕ → Texture
texture_of_width stream_ref width = record {
  stream_ref = stream_ref;
  depth = 1;
  bytes_per_image = 0;
  plane = 0;
  slice = 0;
  level = 0;
  image = record {
    width = width;
    height = width;
    bytes_per_row = 4 * width;
    pixel_format = 80;
    payload = payload_of 64 [];
  };
}

abbrev fetched : List Texture
fetched = texture_of_width 9 2 ∷ texture_of_width 5 4 ∷ texture_of_width 9 2 ∷ []

describe_textures-IsPartition_example :
    (r : Descriptions Key) × (describe_textures as_key fetched descriptors ≡ ok r)
    × IsPartition as_key fetched descriptors r
describe_textures-IsPartition_example = describe_textures-IsPartition as_key fetched descriptors
