-- ===== src/Capture.antt =====
-- crates/gputools-replay-hl/src/capture.rs: the fetches of a capture. Each asks the session, copies the
-- reply's `data` blob into one buffer and builds a handle for each record. The session's typed
-- fetch and the address of the new buffer are parameters.
pub mod Wire
pub mod Manifest
pub mod Live
use gputools_replay.Prelude.{ℕ, Bool, List, [], ◌∷◌, map, Outcome, ok, ◌>>=◌, map_err}
use gputools_replay.Errors.{Error, FetchError, fetch}
use gputools_replay.Bytes.{AlignedBuf, Payload, from_bytes}
use gputools_replay.Reply.{Record, Reply}
use gputools_replay.Reply.Records.{
  TextureRecord, BufferRecord, HeapRecord, AccelRecord, PipelineRecord, WireframeRecord, texture,
  buffer, heap, accel, pipeline, wireframe,
}
use gputools_replay.Request.{
  TextureRequest, WireframeRequest, natural, texture_request, zero_region,
}
use gputools_replay.Handles.{
  Texture, Buffer, Heap, AccelStructure, Pipeline, Wireframe, texture_from_parts,
  wireframe_from_parts,
}

pub data Aspect : Type 0 where
  depth stencil : Aspect

-- `shared(data)`
abbrev pub shared : ℕ → List ℕ → Outcome Error AlignedBuf
shared addr blob = from_bytes addr blob

-- `Payload::new(buf.clone(), o, n)` for the range of a record.
abbrev pub payload_at : {T : Type 0} → Record T → AlignedBuf → T → Payload
payload_at r buf x = record { buf = buf; off = (r.data_range x).0; len = (r.data_range x).1 }

module _ {T H : Type 0} (r : Record T) (from_parts : T → Payload → H) where
  -- The handles of all records of a reply, which share the buffer.
  abbrev pub handles : AlignedBuf → List T → List H
  handles buf xs = map (λ x. from_parts x (payload_at r buf x)) xs

  -- The body that the six fetches of the source have in common.
  unfoldable pub fetch_handles :
      {Q : Type 0} → (List Q → Outcome FetchError (Reply T)) → ℕ → List Q → Outcome Error (List H)
  fetch_handles run addr [] = ok []
  fetch_handles run addr (q ∷ qs) = do
    reply ← map_err fetch (run (q ∷ qs))
    buf ← shared addr reply.raw.blob
    ok (handles buf reply.records)

-- `Capture::textures_with`
abbrev pub textures_with :
    (List TextureRequest → Outcome FetchError (Reply TextureRecord))
    → ℕ
    → List TextureRequest
    → Outcome Error (List Texture)
textures_with = fetch_handles texture texture_from_parts

-- `Capture::textures`
abbrev pub textures :
    (List TextureRequest → Outcome FetchError (Reply TextureRecord))
    → ℕ
    → List ℕ
    → Outcome Error (List Texture)
textures run addr refs = textures_with run addr (map natural refs)

abbrev pub aspect_plane : Aspect → ℕ
aspect_plane depth = 0
aspect_plane stencil = 1

-- `Capture::texture_aspects`
abbrev pub texture_aspects :
    (List TextureRequest → Outcome FetchError (Reply TextureRecord))
    → ℕ
    → List ℕ
    → Aspect
    → Outcome Error (List Texture)
texture_aspects run addr refs aspect =
    textures_with run addr (map (λ r. texture_request r zero_region (aspect_plane aspect)) refs)

-- `Capture::buffers`
abbrev pub buffers :
    (List ℕ → Outcome FetchError (Reply BufferRecord)) → ℕ → List ℕ → Outcome Error (List Buffer)
buffers = fetch_handles buffer (λ x p. record { stream_ref = x.stream_ref; payload = p })

-- `Capture::heaps`
abbrev pub heaps :
    (List ℕ → Outcome FetchError (Reply HeapRecord)) → ℕ → List ℕ → Outcome Error (List Heap)
heaps = fetch_handles heap (λ x p. record { stream_ref = x.stream_ref; payload = p })

-- `Capture::acceleration_structures`
abbrev pub acceleration_structures :
    (List ℕ → Outcome FetchError (Reply AccelRecord))
    → ℕ
    → List ℕ
    → Outcome Error (List AccelStructure)
acceleration_structures = fetch_handles accel (λ x p. record { payload = p })

-- `Capture::pipeline_binaries`
abbrev pub pipeline_binaries :
    (List ℕ → Outcome FetchError (Reply PipelineRecord))
    → ℕ
    → List ℕ
    → Outcome Error (List Pipeline)
pipeline_binaries =
    fetch_handles pipeline
      (λ x p. record { pipeline_id = x.pipeline_id; handle = x.handle; payload = p })

-- `Capture::wireframes_with`
abbrev pub wireframes_with :
    (List WireframeRequest → Outcome FetchError (Reply WireframeRecord))
    → ℕ
    → List WireframeRequest
    → Outcome Error (List Wireframe)
wireframes_with = fetch_handles wireframe wireframe_from_parts

-- `Capture::wireframes`
abbrev pub wireframes :
    (List WireframeRequest → Outcome FetchError (Reply WireframeRecord))
    → ℕ
    → List ℕ
    → Bool
    → Outcome Error (List Wireframe)
wireframes run addr draws solid =
    wireframes_with run addr (map (λ d. record { dispatch_uid = d; solid = solid }) draws)
