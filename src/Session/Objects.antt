-- ===== src/Session/Objects.antt =====
-- crates/gputools-replay/src/session.rs and descriptor.rs: the textures and unused resources that a
-- session reads off the framework's object map.
-- crates/gputools-replay-sys/src/layout.rs: the checks before the map is trusted.
pub mod Snapshot
pub mod Sorted
pub mod Agree
pub mod Unordered
use gputools_replay.Prelude.{
  ℕ, ◌%◌, ◌^◌, Bool, true, false, ◌||◌, Option, none, some, List, [], ◌∷◌, map, Outcome, ok, err,
  ◌>>=◌, ◌==◌, leb, if◌then◌else◌, as_u32,
}

pub data ObjectMapError : Type 0 where
  not_heap_object wrong_class : ObjectMapError

-- What an `MTLTexture` answers: `NSUInteger`s of 64 bits.
pub record MtlTexture : Type 0 where
  pub width : ℕ
  pub height : ℕ
  pub depth : ℕ
  pub pixel_format : ℕ
  pub texture_type : ℕ
  pub mipmap_level_count : ℕ
  pub array_length : ℕ
  pub sample_count : ℕ
  pub usage : ℕ

pub record TextureDescriptor : Type 0 where
  pub stream_ref : ℕ
  pub width : ℕ
  pub height : ℕ
  pub depth : ℕ
  pub pixel_format : ℕ
  pub texture_type : ℕ
  pub mip_levels : ℕ
  pub array_length : ℕ
  pub sample_count : ℕ
  pub usage : ℕ

-- `TextureDescriptor::from_texture`
abbrev pub from_texture : ℕ → MtlTexture → TextureDescriptor
from_texture stream_ref tex = record {
  stream_ref = stream_ref;
  width = as_u32 tex.width;
  height = as_u32 tex.height;
  depth = as_u32 tex.depth;
  pixel_format = as_u32 tex.pixel_format;
  texture_type = as_u32 tex.texture_type;
  mip_levels = as_u32 tex.mipmap_level_count;
  array_length = as_u32 tex.array_length;
  sample_count = as_u32 tex.sample_count;
  usage = tex.usage;
}

-- The map: `-resources`.allKeys, `-tryGetTexture:` and `-unusedResourceKeys`.allObjects
pub record ObjectMap : Type 0 where
  pub all_keys : List ℕ
  pub try_get_texture : ℕ → Option MtlTexture
  pub unused_keys : List ℕ

-- What stands at the measured offset of the controller: whether the pointer is null, what `malloc_size`
-- says of it, whether its class is that of an object map, and the map that it then is.
pub record Slot : Type 0 where
  pub is_null : Bool
  pub malloc_size : ℕ
  pub is_object_map : Bool
  pub object_map : ObjectMap

-- `controller_object_map`, which is `Session::object_map`
unfoldable pub controller_object_map : Slot → Outcome ObjectMapError ObjectMap
controller_object_map s =
    if s.is_null || s.malloc_size == 0
    then err not_heap_object
    else if s.is_object_map
    then ok s.object_map
    else err wrong_class

-- `.map(|tex| TextureDescriptor::from_texture(r, &tex))`
abbrev pub describe_texture : ℕ → Option MtlTexture → Option TextureDescriptor
describe_texture r none = none
describe_texture r (some tex) = some (from_texture r tex)

abbrev pub described : ObjectMap → ℕ → Option TextureDescriptor
described m r = describe_texture r (m.try_get_texture r)

-- `Session::texture_descriptor`
unfoldable pub live_descriptor : Slot → ℕ → Outcome ObjectMapError (Option TextureDescriptor)
live_descriptor s r = do m ← controller_object_map s; ok (described m r)

-- `sort_unstable` on numbers, and `sort_unstable_by_key` on pairs: any order of equal keys is one of
-- its results.
abbrev pub insert_by_key {ℓ} : {A : Type ℓ} → ℕ × A → List (ℕ × A) → List (ℕ × A)
insert_by_key x [] = x ∷ []
insert_by_key x (y ∷ ys) =
    let rest = insert_by_key x ys in if leb x.0 y.0 then x ∷ y ∷ ys else y ∷ rest

abbrev pub sort_by_key {ℓ} : {A : Type ℓ} → List (ℕ × A) → List (ℕ × A)
sort_by_key [] = []
sort_by_key (x ∷ xs) = insert_by_key x (sort_by_key xs)

abbrev pub insert_ref : ℕ → List ℕ → List ℕ
insert_ref r [] = r ∷ []
insert_ref r (s ∷ ss) = let rest = insert_ref r ss in if leb r s then r ∷ s ∷ ss else s ∷ rest

abbrev pub sort_refs : List ℕ → List ℕ
sort_refs [] = []
sort_refs (r ∷ rs) = insert_ref r (sort_refs rs)

-- What `filter_map` and `filter` do with one key.
abbrev pub keep_texture :
    ℕ → Option MtlTexture → List (ℕ × TextureDescriptor) → List (ℕ × TextureDescriptor)
keep_texture r none rest = rest
keep_texture r (some tex) rest = (r, from_texture r tex) ∷ rest

abbrev pub keep_ref : ℕ → Option MtlTexture → List ℕ → List ℕ
keep_ref r none rest = rest
keep_ref r (some tex) rest = r ∷ rest

-- The `filter_map` of `loaded_textures` and the `filter` of `loaded_texture_refs`.
abbrev pub textures_of : ObjectMap → List ℕ → List (ℕ × TextureDescriptor)
textures_of m [] = []
textures_of m (r ∷ rs) = keep_texture r (m.try_get_texture r) (textures_of m rs)

abbrev pub texture_refs_of : ObjectMap → List ℕ → List ℕ
texture_refs_of m [] = []
texture_refs_of m (r ∷ rs) = keep_ref r (m.try_get_texture r) (texture_refs_of m rs)

-- `Session::loaded_texture_refs`
unfoldable pub live_texture_refs : Slot → Outcome ObjectMapError (List ℕ)
live_texture_refs s = do m ← controller_object_map s; ok (sort_refs (texture_refs_of m m.all_keys))

-- `Session::loaded_textures`
unfoldable pub live_textures : Slot → Outcome ObjectMapError (List (ℕ × TextureDescriptor))
live_textures s = do m ← controller_object_map s; ok (sort_by_key (textures_of m m.all_keys))

-- `Session::unused_resource_refs`
unfoldable pub live_unused_refs : Slot → Outcome ObjectMapError (List ℕ)
live_unused_refs s = do m ← controller_object_map s; ok (sort_refs m.unused_keys)
