-- ===== src/Probes/Batch/Agree.antt =====
-- The batches of the probes against those of the library.
use gputools_replay.Prelude.{
  ℕ, suc, String, Bool, true, false, Bool-cases, ◌&&◌, List, [], ◌∷◌, map, Outcome, ok, err,
  if◌then◌else◌, ◌≡◌, ◌⊎◌, inl, inr, refl,
}
use gputools_replay.Errors.{Text, FetchError, setup, not_registered, not_constructed}
use gputools_replay.Request.{TextureRequest, WireframeRequest, texture_request}
use gputools_replay.Fetch.Batch.{Runtime}
use gputools_replay.Fetch.Batch
use gputools_replay.Probes.{SessionError, fetch_class_missing, fetch_object_init}
use gputools_replay.Probes.Records.Agree.{Pointwise}
use gputools_replay.Probes.Waiting.Says.{as_fetch_error}
use gputools_replay.Probes.Batch.{
  FetchRequest, Object, fetch_texture, fetch_generic, fetch_wireframe, texture_object, get_class,
  init_object, build_objects, build_requests, build_batch, build_raw_batch, prepare_generic,
  build_wireframe_batch,
}

-- The two objects have had the same values set. The library sets the slice and the level of a texture too, to 0.
abbrev pub SameObject : Batch.Object → Object → Type 0
SameObject (Batch.Object.fetch_texture t) (fetch_texture u) =
    (t.stream_ref ≡ u.stream_ref)
    × (t.size ≡ u.size)
    × (t.region ≡ u.region)
    × (t.plane ≡ u.plane)
    × (t.depth ≡ u.depth)
    × (t.slice ≡ 0)
    × (t.level ≡ 0)
SameObject (Batch.Object.fetch_streamref c r) (fetch_generic d s) = (c ≡ d) × (r ≡ s)
SameObject (Batch.Object.fetch_wireframe c r) (fetch_wireframe d s) = (c ≡ d) × (r ≡ s)
SameObject (Batch.Object.fetch_texture t) (fetch_generic d s) = ⊥
SameObject (Batch.Object.fetch_texture t) (fetch_wireframe d s) = ⊥
SameObject (Batch.Object.fetch_streamref c r) (fetch_texture u) = ⊥
SameObject (Batch.Object.fetch_streamref c r) (fetch_wireframe d s) = ⊥
SameObject (Batch.Object.fetch_wireframe c r) (fetch_texture u) = ⊥
SameObject (Batch.Object.fetch_wireframe c r) (fetch_generic d s) = ⊥

-- Both give a batch, of the same objects, or both fail to set the fetch up.
abbrev pub Built :
    Outcome FetchError (List Batch.Object) → Outcome SessionError (List Object) → Type 0
Built l o =
    ((b : List Batch.Object) × (c : List Object) × (l ≡ ok b)
      × (o ≡ ok c)
      × Pointwise SameObject b c)
    ⊎ ((t : Text) × (u : Text) × (e : SessionError) × (l ≡ err (setup t))
        × (o ≡ err e)
        × (as_fetch_error e ≡ setup u))

module _ (rt : Runtime) {Q R : Type 0} (class missing name : String)
    (prepare : Q → Outcome SessionError Object) (made : Q → Object) (f : Q → R)
    (object : R → Batch.Object) where
  all_init : ℕ → List Q → Bool
  all_init place [] = true
  all_init place (q ∷ qs) = let rest = all_init (suc place) qs in rt.init class place && rest

  library_objects :
      (place : ℕ) (qs : List Q)
      → rt.is_registered class ≡ true
      → Batch.build_objects rt class object place (map f qs) ≡ (
          if all_init place qs
          then ok (map (λ q. object (f q)) qs)
          else err (setup (not_constructed class)))
  unfolding Batch.build_objects Batch.new_request all_init
  library_objects place [] r = refl
  library_objects place (q ∷ qs) r = elim (Bool-cases (rt.init class place)) [
    | inr i ↦ rw (r, i) refl
    | inl i ↦ elim (Bool-cases (all_init (suc place) qs)) [
      | inl a ↦ rw (r, i, library_objects (suc place) qs r, a) refl
      | inr a ↦ rw (r, i, library_objects (suc place) qs r, a) refl
    ]
  ]

  probe_objects :
      (ready : (q : Q) → prepare q ≡ ok (made q)) (place : ℕ) (qs : List Q)
      → build_objects rt class missing name prepare place qs
        ≡ (if all_init place qs then ok (map made qs) else err (fetch_object_init name))
  unfolding build_objects init_object all_init
  probe_objects ready place [] = refl
  probe_objects ready place (q ∷ qs) = elim (Bool-cases (rt.init class place)) [
    | inr i ↦ rw i refl
    | inl i ↦ elim (Bool-cases (all_init (suc place) qs)) [
      | inl a ↦ rw (i, ready q, probe_objects ready (suc place) qs, a) refl
      | inr a ↦ rw (i, ready q, probe_objects ready (suc place) qs, a) refl
    ]
  ]

  made_same :
      (same : (q : Q) → SameObject (object (f q)) (made q)) (qs : List Q)
      → Pointwise SameObject (map (λ q. object (f q)) qs) (map made qs)
  made_same same [] = tt
  made_same same (q ∷ qs) = (same q, made_same same qs)

  pub build_requests-Built :
      ((q : Q) → prepare q ≡ ok (made q))
      → ((q : Q) → SameObject (object (f q)) (made q))
      → (q : Q) (qs : List Q)
      → Built
          (Batch.build_batch rt class object (map f (q ∷ qs)))
          (build_requests rt class missing name prepare (q ∷ qs))
  unfolding Batch.build_batch Batch.build_batch_from Batch.new_request Batch.build_objects
      build_requests get_class init_object
  build_requests-Built ready same q qs = elim (Bool-cases (rt.is_registered class)) [
    | inr r ↦ inr (
      not_registered class,
      not_registered missing,
      fetch_class_missing missing,
      rw r refl,
      rw r refl,
      refl,
    )
    | inl r ↦
        let l = library_objects 0 (q ∷ qs) r in
        let o = probe_objects ready 0 (q ∷ qs) in
        elim (Bool-cases (rt.is_registered "GTReplayRequestBatch")) [
          | inr s ↦ elim (Bool-cases (all_init 0 (q ∷ qs))) [
            | inr a ↦ inr (
              not_constructed class,
              not_registered "GTReplayRequestBatch",
              fetch_class_missing "GTReplayRequestBatch",
              rw (l, a) refl,
              rw (r, s) refl,
              refl,
            )
            | inl a ↦ inr (
              not_registered "GTReplayRequestBatch",
              not_registered "GTReplayRequestBatch",
              fetch_class_missing "GTReplayRequestBatch",
              rw (l, a, s) refl,
              rw (r, s) refl,
              refl,
            )
          ]
          | inl s ↦ elim (Bool-cases (all_init 0 (q ∷ qs))) [
            | inr a ↦ inr (
              not_constructed class,
              not_constructed name,
              fetch_object_init name,
              rw (l, a) refl,
              rw (r, s, o, a) refl,
              refl,
            )
            | inl a ↦ elim (Bool-cases (rt.init "GTReplayRequestBatch" 0)) [
              | inr b ↦ inr (
                not_constructed "GTReplayRequestBatch",
                not_constructed "GTReplayRequestBatch",
                fetch_object_init "GTReplayRequestBatch",
                rw (l, a, s, b) refl,
                rw (r, s, o, a, b) refl,
                refl,
              )
              | inl b ↦ inl (
                map (λ x. object (f x)) (q ∷ qs),
                map made (q ∷ qs),
                rw (l, a, s, b) refl,
                rw (r, s, o, a, b) refl,
                made_same same (q ∷ qs),
              )
            ]
          ]
        ]
  ]

-- The request of the library for that of a probe, at the origin.
abbrev pub as_request : FetchRequest → TextureRequest
as_request r =
    texture_request r.stream_ref
      (record {
        origin = record { x = 0; y = 0; z = 0 };
        size = record { width = r.width; height = r.height };
      })
      r.plane

abbrev pub as_wireframe : ℕ → WireframeRequest
as_wireframe uid = record { dispatch_uid = uid; solid = false }

module _ (rt : Runtime) where
  pub build_batch-Built :
      (q : FetchRequest) (qs : List FetchRequest)
      → Built (Batch.build_texture_batch rt (map as_request (q ∷ qs))) (build_batch rt (q ∷ qs))
  build_batch-Built =
      build_requests-Built rt "GTReplayFetchTexture" "GTReplayFetchTexture" "GTReplayFetchTexture"
        (λ r. ok (texture_object r)) texture_object as_request Batch.texture_object (λ r. refl)
        (λ r. (refl, refl, refl, refl, refl, refl, refl))

  pub build_wireframe_batch-Built :
      (q : ℕ) (qs : List ℕ)
      → Built
          (Batch.build_wireframe_batch rt (map as_wireframe (q ∷ qs)))
          (build_wireframe_batch rt (q ∷ qs))
  build_wireframe_batch-Built =
      build_requests-Built rt "GTReplayFetchWireframe" "GTReplayFetchWireframe"
        "GTReplayFetchWireframe" (λ uid. ok (fetch_wireframe uid false))
        (λ uid. fetch_wireframe uid false) as_wireframe Batch.wireframe_object (λ r. refl)
        (λ r. (refl, refl))

  pub build_raw_batch-Built :
      (responds : String → Bool) (class : String)
      → responds class ≡ true
      → (q : ℕ) (qs : List ℕ)
      → Built
          (Batch.build_streamref_batch rt class (map (λ r. r) (q ∷ qs)))
          (build_raw_batch rt responds class (q ∷ qs))
  build_raw_batch-Built responds class h =
      build_requests-Built rt class "generic fetch class" "generic fetch object"
        (prepare_generic rt responds class) (fetch_generic class) (λ r. r)
        (Batch.Object.fetch_streamref class) (λ r. rw h refl) (λ r. (refl, refl))
