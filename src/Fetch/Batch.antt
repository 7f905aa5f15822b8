-- ===== src/Fetch/Batch.antt =====
-- crates/gputools-replay/src/fetch.rs: the request objects and batches that a fetch sends. Whether a
-- class is registered and whether an allocation gives an object are answers of the runtime.
use gputools_replay.Prelude.{
  ℕ, zero, suc, ◌+◌, ◌<◌, String, Bool, true, List, [], ◌∷◌, map, length, Outcome, ok, err, ◌>>=◌,
  >>=-eq-ok, if◌then◌else◌, ◌≡◌, ◌≢◌, ◌↔◌, refl, sym, ap, ◌∙◌, arith,
}
use gputools_replay.Errors.{FetchError, empty_batch, setup, not_registered, not_constructed}
use gputools_replay.Request.{GtSize, GtRegion, to_gt, TextureRequest, WireframeRequest}

-- The answers of `AnyClass::get` for a class, and of `+alloc`, `-init` for the object of a class that
-- stands at a place of the batch.
pub record Runtime : Type 0 where
  pub is_registered : String → Bool
  pub init : String → ℕ → Bool

pub record TextureObject : Type 0 where
  pub stream_ref : ℕ
  pub size : GtSize
  pub region : GtRegion
  pub plane : ℕ
  pub depth : ℕ
  pub slice : ℕ
  pub level : ℕ

-- A request object, as its setters leave it.
pub data Object : Type 0 where
  fetch_texture : TextureObject → Object
  -- the class and the streamRef
  fetch_streamref : String → ℕ → Object
  -- the dispatch and whether it is solid
  fetch_wireframe : ℕ → Bool → Object

-- The setters that `build_texture_batch` calls.
abbrev pub texture_object : TextureRequest → Object
texture_object request = fetch_texture (record {
  stream_ref = request.stream_ref;
  size = (to_gt request.region).size;
  region = to_gt request.region;
  plane = request.plane;
  depth = 1;
  slice = request.slice;
  level = request.level;
})

abbrev pub wireframe_object : WireframeRequest → Object
wireframe_object request = fetch_wireframe request.dispatch_uid request.solid

all_from :
    (place n : ℕ) (test : ℕ → Bool)
    → test place ≡ true
    → ((i : ℕ) → i < n → test (suc place + i) ≡ true)
    → (i : ℕ) → i < suc n
    → test (place + i) ≡ true
all_from place n test first rest zero lt = let z : place + 0 ≡ place = omega arith in rw z first
all_from place n test first rest (suc i) lt =
    let z : place + suc i ≡ suc place + i = omega arith in rw z (rest i (omega arith))

module _ (rt : Runtime) where
  -- `new_request`
  unfoldable pub new_request : String → ℕ → Outcome FetchError (Unit {0})
  new_request name place =
      if rt.is_registered name
      then (if rt.init name place then ok tt else err (setup (not_constructed name)))
      else err (setup (not_registered name))

  -- `build_batch_from`: the batch is its `requests` array.
  unfoldable pub build_batch_from : List Object → Outcome FetchError (List Object)
  build_batch_from objects = do _ ← new_request "GTReplayRequestBatch" 0; ok objects

  module _ {Q : Type 0} (name : String) (object : Q → Object) where
    -- The loop over the requests.
    unfoldable pub build_objects : ℕ → List Q → Outcome FetchError (List Object)
    build_objects place [] = ok []
    build_objects place (q ∷ qs) = do
      _ ← new_request name place
      rest ← build_objects (suc place) qs
      ok (object q ∷ rest)

    -- The body that the three builders have in common.
    unfoldable pub build_batch : List Q → Outcome FetchError (List Object)
    build_batch [] = err empty_batch
    build_batch (q ∷ qs) = do objects ← build_objects 0 (q ∷ qs); build_batch_from objects

  abbrev pub build_texture_batch : List TextureRequest → Outcome FetchError (List Object)
  build_texture_batch = build_batch "GTReplayFetchTexture" texture_object

  abbrev pub build_streamref_batch : String → List ℕ → Outcome FetchError (List Object)
  build_streamref_batch class_name = build_batch class_name (fetch_streamref class_name)

  abbrev pub build_buffer_batch : List ℕ → Outcome FetchError (List Object)
  build_buffer_batch = build_streamref_batch "GTReplayFetchBuffer"

  abbrev pub build_heap_batch : List ℕ → Outcome FetchError (List Object)
  build_heap_batch = build_streamref_batch "GTReplayFetchHeap"

  abbrev pub build_accel_batch : List ℕ → Outcome FetchError (List Object)
  build_accel_batch = build_streamref_batch "GTReplayFetchAccelerationStructure"

  abbrev pub build_pipeline_batch : List ℕ → Outcome FetchError (List Object)
  build_pipeline_batch = build_streamref_batch "GTReplayFetchPipelineBinaries"

  abbrev pub build_wireframe_batch : List WireframeRequest → Outcome FetchError (List Object)
  build_wireframe_batch = build_batch "GTReplayFetchWireframe" wireframe_object

  new_request-ok :
      (name : String) (place : ℕ)
      → (new_request name place ≡ ok tt)
        ↔ ((rt.is_registered name ≡ true) × (rt.init name place ≡ true))
  unfolding new_request
  new_request-ok name place = ground arith

  module _ {Q : Type 0} (name : String) (object : Q → Object) where
    build_objects-ok :
        (place : ℕ) (qs : List Q) (objects : List Object)
        → build_objects name object place qs ≡ ok objects
        → (objects ≡ map object qs) × ((i : ℕ) → i < length qs → rt.init name (place + i) ≡ true)
    unfolding build_objects
    build_objects-ok place [] objects h = (cc, λ i lt. absurd (omega arith))
    build_objects-ok place (q ∷ qs) objects h =
        let (u, b, c) = >>=-eq-ok (new_request name place) _ h in
        let (rest, d, e) = >>=-eq-ok (build_objects name object (suc place) qs) _ c in
        let (same, inits) = build_objects-ok (suc place) qs rest d in
        let made : object q ∷ rest ≡ objects = cc (e) in
        (
          sym made ∙ ap (◌∷◌ (object q)) same,
          all_from place (length qs) (rt.init name) ((new_request-ok name place).0 b).1 inits,
        )

    build_objects-of :
        (place : ℕ) (qs : List Q)
        → rt.is_registered name ≡ true
        → ((i : ℕ) → i < length qs → rt.init name (place + i) ≡ true)
        → build_objects name object place qs ≡ ok (map object qs)
    unfolding build_objects
    build_objects-of place [] r h = refl
    build_objects-of place (q ∷ qs) r h =
        let z : place + 0 ≡ place = omega arith in
        let first : rt.init name place ≡ true = rw z at (h 0 (omega arith)) in
        let rest = build_objects-of (suc place) qs r (λ i lt.
          let s : suc place + i ≡ place + suc i = omega arith in rw s (h (suc i) (omega arith))) in
        rw ((new_request-ok name place).1 (r, first), rest) refl

    -- A builder of batches gives a batch exactly for at least one request, when the class of the
    -- requests and the class of batches are registered and each allocation gives an object. The batch
    -- holds one object for each request, in the order of the requests, as the setters leave it.
    pub build_batch-ok_iff :
        (qs : List Q) (batch : List Object)
        → (build_batch name object qs ≡ ok batch) ↔ (
            (qs ≢ [])
            × (rt.is_registered name ≡ true)
            × ((i : ℕ) → i < length qs → rt.init name i ≡ true)
            × (rt.is_registered "GTReplayRequestBatch" ≡ true)
            × (rt.init "GTReplayRequestBatch" 0 ≡ true)
            × (batch ≡ map object qs))
    unfolding build_batch build_batch_from build_objects
    build_batch-ok_iff [] batch = (λ h. cc, λ (h, _, _, _, _, _). absurd (h refl))
    build_batch-ok_iff (q ∷ qs) batch = (
      λ h.
          let (objects, b, c) = >>=-eq-ok (build_objects name object 0 (q ∷ qs)) _ h in
          let (u, d, e) = >>=-eq-ok (new_request "GTReplayRequestBatch" 0) _ c in
          let (same, inits) = build_objects-ok 0 (q ∷ qs) objects b in
          let (r, i) = (new_request-ok "GTReplayRequestBatch" 0).0 d in
          let last : objects ≡ batch = cc (e) in
          (
            λ x. cc,
            ((new_request-ok name 0).0 (>>=-eq-ok (new_request name 0) _ b).1).0,
            λ i lt. (let z : 0 + i ≡ i = omega arith in rw z at (inits i lt)),
            r,
            i,
            sym last ∙ same,
          ),
      λ (_, r, inits, br, bi, e).
          rw
            (
              build_objects-of 0 (q ∷ qs) r
                  (λ i lt. (let z : 0 + i ≡ i = omega arith in rw z (inits i lt))),
              (new_request-ok "GTReplayRequestBatch" 0).1 (br, bi),
              e,
            )
            refl,
    )
