-- ===== src/Session/Objects/Agree.antt =====
-- The snapshot of a capture answers as the live object map at the moment of `Capture::open`.
use gputools_replay.Prelude.{
  ℕ, Bool, true, false, ◌||◌, Bool-cases, Option, none, some, Option-cases, List, [], ◌∷◌, map,
  Outcome, ok, err, panic, ◌>>=◌, ◌==◌, ==_iff, leb, if◌then◌else◌, All, ◌≡◌, ◌⊎◌, inl, inr, refl,
  sym, ap, subst, ◌∙◌,
}
use gputools_replay.Errors.{SessionError}
use gputools_replay.Session.{World, Process, Session, open_session}
use gputools_replay.Session.Objects.{
  ObjectMapError, MtlTexture, TextureDescriptor, ObjectMap, Slot, controller_object_map, described,
  describe_texture, keep_texture, keep_ref, not_heap_object, wrong_class, live_descriptor,
  insert_by_key, sort_by_key, sort_refs, textures_of, texture_refs_of, live_texture_refs,
  live_textures, live_unused_refs,
}
use gputools_replay.Session.Objects.Snapshot.{
  Capture, snapshot, open_capture, find_ref, texture_descriptor, loaded_texture_refs,
}
use gputools_replay.Session.Objects.Sorted.{has, map-sort_by_key, has-sort_refs}

-- The keys of the map have every texture that it gives.
abbrev pub Covers : ObjectMap → Type 0
Covers m = (r : ℕ) (tex : MtlTexture) → m.try_get_texture r ≡ some tex → has r m.all_keys ≡ true

module _ (m : ObjectMap) where
  -- Each pair is a reference with the descriptor of its texture.
  abbrev Consistent : List (ℕ × TextureDescriptor) → Type 0
  Consistent xs = All (λ x. described m x.0 ≡ some x.1) xs

  insert_by_key-Consistent :
      (x : ℕ × TextureDescriptor) (ys : List (ℕ × TextureDescriptor))
      → described m x.0 ≡ some x.1
      → Consistent ys
      → Consistent (insert_by_key x ys)
  insert_by_key-Consistent x [] h k = (h, tt)
  insert_by_key-Consistent x (y ∷ ys) h k = elim (Bool-cases (leb x.0 y.0)) [
    | inl t ↦ rw t (h, k)
    | inr t ↦ rw t (k.0, insert_by_key-Consistent x ys h k.1)
  ]

  sort_by_key-Consistent :
      (xs : List (ℕ × TextureDescriptor)) → Consistent xs → Consistent (sort_by_key xs)
  sort_by_key-Consistent [] h = tt
  sort_by_key-Consistent (x ∷ xs) h =
      insert_by_key-Consistent x (sort_by_key xs) h.0 (sort_by_key-Consistent xs h.1)

  keep_texture-Consistent :
      (r : ℕ) (o : Option MtlTexture) (rest : List (ℕ × TextureDescriptor))
      → m.try_get_texture r ≡ o
      → Consistent rest
      → Consistent (keep_texture r o rest)
  keep_texture-Consistent r none rest e h = h
  keep_texture-Consistent r (some tex) rest e h = (ap (describe_texture r) e, h)

  textures_of-Consistent : (rs : List ℕ) → Consistent (textures_of m rs)
  textures_of-Consistent [] = tt
  textures_of-Consistent (r ∷ rs) =
      keep_texture-Consistent r (m.try_get_texture r) (textures_of m rs) refl
        (textures_of-Consistent rs)

  find_ref-has :
      (r : ℕ) (xs : List (ℕ × TextureDescriptor))
      → Consistent xs
      → find_ref r xs ≡ (if has r (map (λ x. x.0) xs) then described m r else none)
  find_ref-has r [] h = refl
  find_ref-has r (x ∷ xs) h = elim (Bool-cases (x.0 == r)) [
    | inl t ↦ rw t (sym (ap (described m) (sym ((==_iff x.0 r).0 t)) ∙ h.0))
    | inr t ↦ rw t (find_ref-has r xs h.1)
  ]

  keep_refs :
      (r : ℕ) (o : Option MtlTexture) (rest : List (ℕ × TextureDescriptor)) (refs : List ℕ)
      → map (λ x. x.0) rest ≡ refs
      → map (λ x. x.0) (keep_texture r o rest) ≡ keep_ref r o refs
  keep_refs r none rest refs h = h
  keep_refs r (some tex) rest refs h = ap (◌∷◌ r) h

  refs_of : (rs : List ℕ) → map (λ x. x.0) (textures_of m rs) ≡ texture_refs_of m rs
  refs_of [] = refl
  refs_of (r ∷ rs) =
      keep_refs r (m.try_get_texture r) (textures_of m rs) (texture_refs_of m rs) (refs_of rs)

  has-keep_ref :
      (r k : ℕ) (o : Option MtlTexture) (rest : List ℕ)
      → has r rest ≡ true
      → has r (keep_ref k o rest) ≡ true
  has-keep_ref r k none rest h = h
  has-keep_ref r k (some tex) rest h = elim (Bool-cases (k == r)) [
    | inl t ↦ rw t refl
    | inr t ↦ rw t h
  ]

  has-texture_refs_of :
      (r : ℕ) (rs : List ℕ) (tex : MtlTexture)
      → m.try_get_texture r ≡ some tex
      → has r rs ≡ true
      → has r (texture_refs_of m rs) ≡ true
  has-texture_refs_of r [] tex e h = cc (h)
  has-texture_refs_of r (k ∷ ks) tex e h = elim (Bool-cases (k == r)) [
    | inl t ↦
        let f : m.try_get_texture k ≡ some tex = ap m.try_get_texture ((==_iff k r).0 t) ∙ e in
        subst (λ o. has r (keep_ref k o (texture_refs_of m ks)) ≡ true) (sym f) (rw t refl)
    | inr t ↦
        has-keep_ref r k (m.try_get_texture k) (texture_refs_of m ks)
          (has-texture_refs_of r ks tex e (rw t at h))
  ]

if-same : (b : Bool) (o : Option TextureDescriptor) → o ≡ none → (if b then o else none) ≡ o
if-same true o h = refl
if-same false o h = sym h

find_ref-described :
    (m : ObjectMap) (r : ℕ)
    → Covers m
    → find_ref r (sort_by_key (textures_of m m.all_keys)) ≡ described m r
find_ref-described m r covers =
    let L = sort_by_key (textures_of m m.all_keys) in
    let e =
      find_ref-has m r L (
        sort_by_key-Consistent m (textures_of m m.all_keys)
          (textures_of-Consistent m m.all_keys)) in
    elim (Option-cases (m.try_get_texture r)) [
      | inl n ↦ e ∙ if-same (has r (map (λ x. x.0) L)) (described m r) (ap (describe_texture r) n)
      | inr (tex, s) ↦
          let there : has r (map (λ x. x.0) L) ≡ true =
            ap (has r)
              (map-sort_by_key (textures_of m m.all_keys) ∙ ap sort_refs (refs_of m m.all_keys))
            ∙ has-sort_refs r (texture_refs_of m m.all_keys)
            ∙ has-texture_refs_of m r m.all_keys tex s (covers r tex s) in
          e ∙ (rw there refl)
    ]

snapshot-loaded :
    (slot : Slot) (o : Outcome SessionError Session) (c : Capture)
    → snapshot slot o ≡ ok c
    → (c.loaded ≡ live_textures slot) × (c.unused ≡ live_unused_refs slot)
snapshot-loaded slot (ok s) c h =
    let e : record {
      session = s;
      timeout = 60;
      loaded = live_textures slot;
      unused = live_unused_refs slot;
    }
        ≡ c =
      cc in
    (sym (ap (λ (x : Capture). x.loaded) e), sym (ap (λ (x : Capture). x.unused) e))
snapshot-loaded slot (err e) c h = cc (h)
snapshot-loaded slot panic c h = cc (h)

module _ (slot : Slot) where
  -- The map, if there is one, is the one of the slot.
  object_map-cases :
      ((e : ObjectMapError) × (controller_object_map slot ≡ err e))
      ⊎ (controller_object_map slot ≡ ok slot.object_map)
  unfolding controller_object_map
  object_map-cases = elim (Bool-cases (slot.is_null || slot.malloc_size == 0)) [
    | inl t ↦ inl (not_heap_object, rw t refl)
    | inr t ↦ elim (Bool-cases slot.is_object_map) [
      | inl y ↦ inr (rw (t, y) refl)
      | inr y ↦ inl (wrong_class, rw (t, y) refl)
    ]
  ]

  descriptor-live :
      (r : ℕ)
      → Covers slot.object_map
      → (live_textures slot >>= λ xs. ok (find_ref r xs)) ≡ live_descriptor slot r
  unfolding live_textures live_descriptor
  descriptor-live r covers = elim object_map-cases [
    | inl (e, h) ↦ rw h refl
    | inr h ↦ rw h (ap ok (find_ref-described slot.object_map r covers))
  ]

  refs-live : (live_textures slot >>= λ xs. ok (map (λ x. x.0) xs)) ≡ live_texture_refs slot
  unfolding live_textures live_texture_refs
  refs-live = elim object_map-cases [
    | inl (e, h) ↦ rw h refl
    | inr h ↦
        let m = slot.object_map in
        rw h
          (ap ok (map-sort_by_key (textures_of m m.all_keys) ∙ ap sort_refs (refs_of m m.all_keys)))
  ]

-- The snapshot that a capture takes when it opens answers as the live object map of that moment, where
-- the map's keys have every texture that the map gives. Each reference has the same descriptor, the
-- same absence or the same error, and the references listed are the same, in the same order.
pub snapshot-live :
    (w : World) (slot : Slot) (p q : Process) (c : Capture)
    → Covers slot.object_map
    → open_capture w slot p ≡ (q, ok c)
    → ((r : ℕ) → texture_descriptor c r ≡ live_descriptor slot r)
      × (loaded_texture_refs c ≡ live_texture_refs slot)
unfolding open_capture texture_descriptor loaded_texture_refs
snapshot-live w slot p q c covers h =
    let (loaded, unused) = snapshot-loaded slot (open_session w p).1 c (ap (λ x. x.1) h) in
    (
      λ r. ap (λ l. l >>= λ xs. ok (find_ref r xs)) loaded ∙ descriptor-live slot r covers,
      ap (λ l. l >>= λ xs. ok (map (λ x. x.0) xs)) loaded ∙ refs-live slot,
    )
