-- ===== src/Examples/Manifests.antt =====
-- The theorem on described textures, at a concrete reply and manifest.
use gputools_replay.Prelude.{Option, some, List, [], ◌∷◌, map, Outcome, ok, slice, ◌≡◌, refl}
use gputools_replay.Errors.{FetchError}
use gputools_replay.Bytes.{from_bytes}
use gputools_replay.Reply.{Reply}
use gputools_replay.Reply.Records.{TextureRecord, texture}
use gputools_replay.Request.{TextureRequest}
use gputools_replay.Handles.{Texture, texture_from_parts}
use gputools_replay.Capture.{textures, fetch_handles, handles}
use gputools_replay.Capture.Manifest.{
  Bundle, DescribedTexture, manifest_ok, manifest_status, describe, textures_described,
  textures_described-total,
}
use gputools_replay.Describe.{HasGeometry, Key}
use gputools_replay.Describe.Textures.{Descriptions}
use gputools_replay.Examples.Data.{texture_reply, texture_raw, buf_at}

abbrev answer : List TextureRequest → Outcome FetchError (Reply TextureRecord)
answer requests = ok texture_reply

abbrev geometry : HasGeometry Key
geometry = record { width = λ k. k.0; height = λ k. k.1; format = λ k. k.2 }

-- The manifest describes the texture of the reply and one more.
abbrev two_described : Option (Bundle Key)
two_described =
    some (record { textures = (2, 2, 80) ∷ (4, 4, 80) ∷ []; texture_count = 2; record_count = 5 })

abbrev fetched : List Texture
fetched = handles texture texture_from_parts (buf_at 4096 texture_raw.blob) texture_reply.records

fetched_run : textures answer 4096 (7 ∷ []) ≡ ok fetched
unfolding fetch_handles from_bytes slice
fetched_run = refl

two_status : manifest_status two_described ≡ manifest_ok 2
two_status = refl

textures_described-total_example :
    (out : List (DescribedTexture Key)) × (joined : Descriptions Key) × (textures_described geometry
        two_described answer 4096
        (7 ∷ [])
      ≡ ok out)
    × (describe geometry two_described fetched ≡ ok joined)
    × (map (λ (x : DescribedTexture Key). x.texture) out ≡ fetched)
    × (map (λ (x : DescribedTexture Key). x.descriptor) out ≡ joined.per_texture)
textures_described-total_example =
    textures_described-total geometry two_described answer 4096 (7 ∷ []) fetched fetched_run
