-- ===== src/Examples/Snapshots.antt =====
-- The theorem on the snapshot of a capture, at a concrete object map.
use gputools_replay.Prelude.{
  ℕ, true, false, Bool-cases, none, some, [], ◌∷◌, ok, ◌==◌, ==_iff, if◌then◌else◌, ◌≡◌, refl, ap,
  inl, inr,
}
use gputools_replay.Session.{
  fresh, open_session, prechecks, check_bundle_shape, check_entries, check_unlock_env, bootstrap,
  create_pool, create_service, load_capture, load_bundle,
}
use gputools_replay.Session.Observer.{notify_all, first_error_since}
use gputools_replay.Session.Objects.{
  MtlTexture, ObjectMap, Slot, controller_object_map, live_descriptor, live_texture_refs,
  live_textures, live_unused_refs,
}
use gputools_replay.Session.Objects.Snapshot.{
  Capture, open_capture, texture_descriptor, loaded_texture_refs,
}
use gputools_replay.Session.Objects.Agree.{Covers, snapshot-live}
use gputools_replay.Session.Objects.Sorted.{has}
use gputools_replay.Session.Objects.Unordered.{with_keys, live-unordered}
use mathlib.Core.List.Permᴰ
use gputools_replay.Examples.Sessions.{good_world, good_session}

abbrev small_texture : MtlTexture
small_texture = record {
  width = 2;
  height = 2;
  depth = 1;
  pixel_format = 80;
  texture_type = 2;
  mipmap_level_count = 1;
  array_length = 1;
  sample_count = 1;
  usage = 1;
}

-- Textures at 9 and 3, another resource at 7, one unused resource.
abbrev small_map : ObjectMap
small_map = record {
  all_keys = 9 ∷ 7 ∷ 3 ∷ [];
  try_get_texture =
      λ r. if r == 9 then some small_texture else if r == 3 then some small_texture else none;
  unused_keys = 8 ∷ [];
}

abbrev small_slot : Slot
small_slot = record {
  is_null = false;
  malloc_size = 48;
  is_object_map = true;
  object_map = small_map;
}

small_map-Covers : Covers small_map
small_map-Covers r tex h = elim (Bool-cases (r == 9)) [
  | inl t ↦ ap (λ k. has k small_map.all_keys) ((==_iff r 9).0 t)
  | inr t ↦ elim (Bool-cases (r == 3)) [
    | inl u ↦ ap (λ k. has k small_map.all_keys) ((==_iff r 3).0 u)
    | inr u ↦ let no : none ≡ some tex = rw (t, u) at h in cc
  ]
]

abbrev small_capture : Capture
small_capture = record {
  session = good_session;
  timeout = 60;
  loaded = live_textures small_slot;
  unused = live_unused_refs small_slot;
}

small_open :
    open_capture good_world small_slot fresh ≡ ((open_session good_world fresh).0, ok small_capture)
unfolding open_capture open_session prechecks check_bundle_shape check_entries check_unlock_env
    bootstrap create_pool create_service load_capture load_bundle first_error_since notify_all
small_open = refl

small_refs : loaded_texture_refs small_capture ≡ ok (3 ∷ 9 ∷ [])
unfolding loaded_texture_refs live_textures controller_object_map
small_refs = refl

snapshot-live_example :
    ((r : ℕ) → texture_descriptor small_capture r ≡ live_descriptor small_slot r)
    × (loaded_texture_refs small_capture ≡ live_texture_refs small_slot)
snapshot-live_example =
    snapshot-live good_world small_slot fresh (open_session good_world fresh).0 small_capture
      small_map-Covers small_open

-- The same map, whose keys come in another order.
live-unordered_example :
    (live_textures (with_keys small_slot (7 ∷ 9 ∷ 3 ∷ []) (8 ∷ [])) ≡ live_textures small_slot)
    × (live_texture_refs (with_keys small_slot (7 ∷ 9 ∷ 3 ∷ []) (8 ∷ []))
        ≡ live_texture_refs small_slot)
    × (live_unused_refs (with_keys small_slot (7 ∷ 9 ∷ 3 ∷ []) (8 ∷ []))
        ≡ live_unused_refs small_slot)
live-unordered_example =
    live-unordered small_slot (7 ∷ 9 ∷ 3 ∷ []) (8 ∷ []) (Permᴰ.swap refl refl)
      (Permᴰ.cons refl Permᴰ.nil)
