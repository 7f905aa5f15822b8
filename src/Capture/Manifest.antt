-- ===== src/Capture/Manifest.antt =====
-- crates/gputools-replay-hl/src/capture.rs: what a capture reads off the manifest of its bundle. The
-- bundle is that of the crate `gputrace_bundle`, opened once; nothing stands for a bundle that failed to
-- parse.
use gputools_replay.Prelude.{
  ℕ, Option, none, some, List, [], ◌∷◌, map, length, Outcome, ok, ◌>>=◌, ◌==◌, if◌then◌else◌, ◌≡◌,
  refl, ap, arith,
}
use gputools_replay.Errors.{Error, FetchError}
use gputools_replay.Reply.{Reply}
use gputools_replay.Reply.Records.{TextureRecord}
use gputools_replay.Request.{TextureRequest}
use gputools_replay.Handles.{Texture}
use gputools_replay.Capture.{textures}
use gputools_replay.Describe.{HasGeometry}
use gputools_replay.Describe.Textures.{Descriptions, describe_textures}
use gputools_replay.Describe.Textures.Partition.{describe_textures-IsPartition}

pub record Bundle (D : Type 0) : Type 0 where
  pub textures : List D
  pub texture_count : ℕ
  pub record_count : ℕ

pub data ManifestStatus : Type 0 where
  manifest_ok : ℕ → ManifestStatus
  no_descriptors unparseable : ManifestStatus

pub record DescribedTexture (D : Type 0) : Type 0 where
  pub texture : Texture
  pub descriptor : Option D

module _ {D : Type 0} (bundle : Option (Bundle D)) where
  -- `Capture::manifest_status`
  abbrev pub manifest_status : ManifestStatus
  manifest_status = elim bundle [
    | none ↦ unparseable
    | some b ↦ if b.texture_count == 0 then no_descriptors else manifest_ok b.texture_count
  ]

  -- `Capture::record_count`
  abbrev pub record_count : Option ℕ
  record_count = elim bundle [ none ↦ none | some b ↦ some b.record_count ]

  -- `.map(|b| b.textures().to_vec()).unwrap_or_default()`
  abbrev pub manifest_textures : List D
  manifest_textures = elim bundle [ none ↦ [] | some b ↦ b.textures ]

-- `texs.into_iter().zip(described.per_texture)`, which ends with the shorter
abbrev pub zip_described {ℓ} :
    {D : Type ℓ} → List Texture → List (Option D) → List (Texture × Option D)
zip_described [] ds = []
zip_described (t ∷ ts) [] = []
zip_described (t ∷ ts) (d ∷ ds) = (t, d) ∷ zip_described ts ds

module _ {D : Type 0} (g : HasGeometry D) (bundle : Option (Bundle D)) where
  -- `Capture::describe`
  unfoldable pub describe : List Texture → Outcome Error (Descriptions D)
  describe texs = describe_textures g texs (manifest_textures bundle)

  module _ (fetch : List TextureRequest → Outcome FetchError (Reply TextureRecord)) (addr : ℕ) where
    -- `Capture::textures_described`
    unfoldable pub textures_described : List ℕ → Outcome Error (List (DescribedTexture D))
    textures_described refs = do
      texs ← textures fetch addr refs
      joined ← describe texs
      ok (
          map (λ x. record { texture = x.0; descriptor = x.1 })
            (zip_described texs joined.per_texture))

    zip-textures :
        (texs : List Texture) (ds : List (Option D))
        → length ds ≡ length texs
        → map
            (λ (x : DescribedTexture D). x.texture)
            (map (λ x. record { texture = x.0; descriptor = x.1 }) (zip_described texs ds))
          ≡ texs
    zip-textures [] ds h = refl
    zip-textures (t ∷ ts) [] h = absurd (omega arith)
    zip-textures (t ∷ ts) (d ∷ ds) h = ap (◌∷◌ t) (zip-textures ts ds (omega arith))

    zip-descriptors :
        (texs : List Texture) (ds : List (Option D))
        → length ds ≡ length texs
        → map
            (λ (x : DescribedTexture D). x.descriptor)
            (map (λ x. record { texture = x.0; descriptor = x.1 }) (zip_described texs ds))
          ≡ ds
    zip-descriptors [] [] h = refl
    zip-descriptors [] (d ∷ ds) h = absurd (omega arith)
    zip-descriptors (t ∷ ts) [] h = absurd (omega arith)
    zip-descriptors (t ∷ ts) (d ∷ ds) h = ap (◌∷◌ d) (zip-descriptors ts ds (omega arith))

    -- `textures_described` never errors on a gap. Where the textures are fetched it succeeds, whatever
    -- the manifest holds or if there is none, and gives exactly the fetched textures, in order, each
    -- with the descriptor that the join of the manifest has for it.
    pub textures_described-total :
        (refs : List ℕ) (texs : List Texture)
        → textures fetch addr refs ≡ ok texs
        → (out : List (DescribedTexture D)) × (joined : Descriptions D) × (textures_described refs
            ≡ ok out)
          × (describe texs ≡ ok joined)
          × (map (λ (x : DescribedTexture D). x.texture) out ≡ texs)
          × (map (λ (x : DescribedTexture D). x.descriptor) out ≡ joined.per_texture)
    unfolding textures_described describe
    textures_described-total refs texs h =
        let (joined, d, partition) =
          describe_textures-IsPartition g texs (manifest_textures bundle) in
        (
          map (λ x. record { texture = x.0; descriptor = x.1 })
              (zip_described texs joined.per_texture),
          joined,
          rw (h, d) refl,
          d,
          zip-textures texs joined.per_texture partition.entries,
          zip-descriptors texs joined.per_texture partition.entries,
        )
