-- ===== src/Probes/Batch.antt =====
-- probes/src/session.rs: the batches that the three fetches of the probes send. Both classes are looked up
-- before any object is made.
pub mod Agree
use gputools_replay.Prelude.{
  ℕ, suc, String, Bool, false, List, [], ◌∷◌, Outcome, ok, err, ◌>>=◌, if◌then◌else◌,
}
use gputools_replay.Request.{Point3D, GtSize, GtRegion}
use gputools_replay.Fetch.Batch.{Runtime}
use gputools_replay.Probes.{SessionError, fetch_class_missing, fetch_object_init}

pub record FetchRequest : Type 0 where
  pub stream_ref : ℕ
  pub width : ℕ
  pub height : ℕ
  pub plane : ℕ

-- A texture request object, as its setters leave it.
pub record TextureObject : Type 0 where
  pub stream_ref : ℕ
  pub size : GtSize
  pub region : GtRegion
  pub plane : ℕ
  pub depth : ℕ

pub data Object : Type 0 where
  fetch_texture : TextureObject → Object
  -- the class and the stream ref
  fetch_generic : String → ℕ → Object
  -- the dispatch and whether it is solid
  fetch_wireframe : ℕ → Bool → Object

-- `GTSize` of a request
abbrev pub size_of : FetchRequest → GtSize
size_of request = record { width = request.width; height = request.height; depth = 1 }

-- The setters that `build_batch` calls.
abbrev pub texture_object : FetchRequest → Object
texture_object request = fetch_texture (record {
  stream_ref = request.stream_ref;
  size = size_of request;
  region = record { origin = record { x = 0; y = 0; z = 0 }; size = size_of request };
  plane = request.plane;
  depth = 1;
})

module _ (rt : Runtime) where
  -- `AnyClass::get(class).ok_or(SessionError::FetchClassMissing { name })`
  unfoldable pub get_class : (class name : String) → Outcome SessionError (Unit {0})
  get_class class name = if rt.is_registered class then ok tt else err (fetch_class_missing name)

  -- `+alloc` and `-init`, for the object at a place of the batch
  unfoldable pub init_object : (class name : String) → ℕ → Outcome SessionError (Unit {0})
  init_object class name place = if rt.init class place then ok tt else err (fetch_object_init name)

  module _ {Q : Type 0} (class missing name : String)
      (prepare : Q → Outcome SessionError Object) where
    -- The loop over the requests.
    unfoldable pub build_objects : ℕ → List Q → Outcome SessionError (List Object)
    build_objects place [] = ok []
    build_objects place (q ∷ qs) = do
      _ ← init_object class name place
      object ← prepare q
      rest ← build_objects (suc place) qs
      ok (object ∷ rest)

    -- What the three batches have in common: the batch is its `requests` array.
    unfoldable pub build_requests : List Q → Outcome SessionError (List Object)
    build_requests qs = do
      _ ← get_class class missing
      _ ← get_class "GTReplayRequestBatch" "GTReplayRequestBatch"
      objects ← build_objects 0 qs
      _ ← init_object "GTReplayRequestBatch" "GTReplayRequestBatch" 0
      ok objects

  -- `build_batch`
  abbrev pub build_batch : List FetchRequest → Outcome SessionError (List Object)
  build_batch =
      build_requests "GTReplayFetchTexture" "GTReplayFetchTexture" "GTReplayFetchTexture"
        (λ request. ok (texture_object request))

  -- `respondsToSelector: sel!(setStreamRef:)` and the setter
  abbrev pub prepare_generic :
      (responds : String → Bool) (class : String) → ℕ → Outcome SessionError Object
  prepare_generic responds class stream_ref =
      if responds class
      then ok (fetch_generic class stream_ref)
      else err (fetch_object_init "class is not streamRef-keyed (dispatch-keyed fetch)")

  -- The batch of `fetch_raw`.
  abbrev pub build_raw_batch :
      (responds : String → Bool) (class : String) → List ℕ → Outcome SessionError (List Object)
  build_raw_batch responds class =
      build_requests class "generic fetch class" "generic fetch object"
        (prepare_generic responds class)

  -- The batch of `fetch_wireframe`.
  abbrev pub build_wireframe_batch : List ℕ → Outcome SessionError (List Object)
  build_wireframe_batch =
      build_requests "GTReplayFetchWireframe" "GTReplayFetchWireframe" "GTReplayFetchWireframe"
        (λ uid. ok (fetch_wireframe uid false))
