-- ===== src/Session/Objects/Unordered.antt =====
-- The framework's object map is a dictionary, whose keys come in no particular order.
use mathlib.Core.List.{Permᴰ}
use gputools_replay.Prelude.{
  ℕ, ◌<◌, ◌⊎◌, false, Bool-cases, Option, none, some, List, [], ◌∷◌, ok, ◌==◌, ◌||◌, leb, leb→le,
  leb_false→lt, le→leb, ◌≡◌, inl, inr, refl, sym, ap, ◌∙◌, arith,
}
use gputools_replay.Session.Objects.{
  MtlTexture, TextureDescriptor, ObjectMap, Slot, controller_object_map, from_texture, keep_texture,
  keep_ref, insert_by_key, sort_by_key, insert_ref, sort_refs, textures_of, texture_refs_of,
  live_texture_refs, live_textures, live_unused_refs,
}

lt_trichotomy : (a b : ℕ) → (a < b) ⊎ (a ≡ b) ⊎ (b < a)
lt_trichotomy a b = elim (Bool-cases (leb a b)) [
  | inr h ↦ inr (inr (leb_false→lt a b h))
  | inl h ↦ elim (Bool-cases (leb b a)) [
    | inr k ↦ inl (leb_false→lt b a k)
    | inl k ↦ inr (inl (omega (arith, leb→le a b h, leb→le b a k)))
  ]
]

lt→leb_false : (a b : ℕ) → a < b → leb b a ≡ false
lt→leb_false a b h = ground arith

module _ {A : Type 0} where
  insert_by_key-lt :
      (x y : ℕ × A)
      → x.0 < y.0
      → (l : List (ℕ × A))
      → insert_by_key x (insert_by_key y l) ≡ insert_by_key y (insert_by_key x l)
  insert_by_key-lt x y h [] = rw (le→leb x.0 y.0 (omega (arith, h)), lt→leb_false x.0 y.0 h) refl
  insert_by_key-lt x y h (z ∷ l) =
      let c = le→leb x.0 y.0 (omega (arith, h)) in
      let d = lt→leb_false x.0 y.0 h in
      elim (Bool-cases (leb x.0 z.0)) [
        | inl a ↦ elim (Bool-cases (leb y.0 z.0)) [
          | inl b ↦ rw (a, b, c, d) refl
          | inr b ↦ rw (a, d, b, a) refl
        ]
        | inr a ↦
            let b = lt→leb_false z.0 y.0 (omega (arith, h, leb_false→lt x.0 z.0 a)) in
            rw (a, b, a) (ap (◌∷◌ z) (insert_by_key-lt x y h l))
      ]

  -- Two insertions commute, where equal keys have equal values.
  insert_by_key-swap :
      (x y : ℕ × A)
      → (x.0 ≡ y.0 → x ≡ y)
      → (l : List (ℕ × A))
      → insert_by_key x (insert_by_key y l) ≡ insert_by_key y (insert_by_key x l)
  insert_by_key-swap x y same l = elim (lt_trichotomy x.0 y.0) [
    | inl h ↦ insert_by_key-lt x y h l
    | inr (inl e) ↦ let z : x ≡ y = same e in rw z refl
    | inr (inr h) ↦ sym (insert_by_key-lt y x h l)
  ]

insert_ref-swap :
    (x y : ℕ) (l : List ℕ) → insert_ref x (insert_ref y l) ≡ insert_ref y (insert_ref x l)
insert_ref-swap x y [] = ground arith
insert_ref-swap x y (z ∷ l) = ground (arith, insert_ref-swap x y l)

-- The keys sort to the same list in any order.
pub sort_refs-perm : {xs ys : List ℕ} → Permᴰ xs ys → sort_refs xs ≡ sort_refs ys
sort_refs-perm Permᴰ.nil = refl
sort_refs-perm (Permᴰ.cons {b} {l₁} e p) =
    ap (λ x. insert_ref x (sort_refs l₁)) e ∙ ap (insert_ref b) (sort_refs-perm p)
sort_refs-perm (Permᴰ.swap {a} {b} {a'} {l} e f) =
    insert_ref-swap a b (sort_refs l)
    ∙ ap (λ x. insert_ref x (insert_ref a (sort_refs l))) f
    ∙ ap (λ x. insert_ref a' (insert_ref x (sort_refs l))) e
sort_refs-perm (Permᴰ.trans p q) = sort_refs-perm p ∙ sort_refs-perm q

-- What one key adds to the sorted textures.
abbrev add_texture :
    ℕ → Option MtlTexture → List (ℕ × TextureDescriptor) → List (ℕ × TextureDescriptor)
add_texture r none l = l
add_texture r (some tex) l = insert_by_key (r, from_texture r tex) l

abbrev add_ref : ℕ → Option MtlTexture → List ℕ → List ℕ
add_ref r none l = l
add_ref r (some tex) l = insert_ref r l

sort-keep_texture :
    (r : ℕ) (o : Option MtlTexture) (l : List (ℕ × TextureDescriptor))
    → sort_by_key (keep_texture r o l) ≡ add_texture r o (sort_by_key l)
sort-keep_texture r none l = refl
sort-keep_texture r (some tex) l = refl

sort-keep_ref :
    (r : ℕ) (o : Option MtlTexture) (l : List ℕ)
    → sort_refs (keep_ref r o l) ≡ add_ref r o (sort_refs l)
sort-keep_ref r none l = refl
sort-keep_ref r (some tex) l = refl

add_texture-swap :
    (r s : ℕ) (o q : Option MtlTexture) (l : List (ℕ × TextureDescriptor))
    → (r ≡ s → o ≡ q)
    → add_texture r o (add_texture s q l) ≡ add_texture s q (add_texture r o l)
add_texture-swap r s none q l h = refl
add_texture-swap r s (some x) none l h = refl
add_texture-swap r s (some x) (some y) l h =
    insert_by_key-swap (r, from_texture r x) (s, from_texture s y)
      (λ e. let z : some x ≡ some y = h e in let w : x ≡ y = cc (z) in rw (e, w) refl) l

add_ref-swap :
    (r s : ℕ) (o q : Option MtlTexture) (l : List ℕ)
    → add_ref r o (add_ref s q l) ≡ add_ref s q (add_ref r o l)
add_ref-swap r s none q l = refl
add_ref-swap r s (some x) none l = refl
add_ref-swap r s (some x) (some y) l = insert_ref-swap r s l

module _ (m : ObjectMap) where
  -- The sorted textures of the keys, one key after the other.
  abbrev sorted_textures : List ℕ → List (ℕ × TextureDescriptor)
  sorted_textures rs = sort_by_key (textures_of m rs)

  abbrev sorted_refs : List ℕ → List ℕ
  sorted_refs rs = sort_refs (texture_refs_of m rs)

  sorted_textures-cons :
      (r : ℕ) (rs : List ℕ)
      → sorted_textures (r ∷ rs) ≡ add_texture r (m.try_get_texture r) (sorted_textures rs)
  sorted_textures-cons r rs = sort-keep_texture r (m.try_get_texture r) (textures_of m rs)

  sorted_refs-cons :
      (r : ℕ) (rs : List ℕ)
      → sorted_refs (r ∷ rs) ≡ add_ref r (m.try_get_texture r) (sorted_refs rs)
  sorted_refs-cons r rs = sort-keep_ref r (m.try_get_texture r) (texture_refs_of m rs)

  sorted_textures-perm : {xs ys : List ℕ} → Permᴰ xs ys → sorted_textures xs ≡ sorted_textures ys
  sorted_textures-perm Permᴰ.nil = refl
  sorted_textures-perm (Permᴰ.cons {a} {b} {l₁} {l₂} e p) =
      ap (λ x. sorted_textures (x ∷ l₁)) e
      ∙ sorted_textures-cons b l₁
      ∙ ap (add_texture b (m.try_get_texture b)) (sorted_textures-perm p)
      ∙ sym (sorted_textures-cons b l₂)
  sorted_textures-perm (Permᴰ.swap {a} {b} {a'} {l} e f) =
      sorted_textures-cons a (b ∷ l)
      ∙ ap (add_texture a (m.try_get_texture a)) (sorted_textures-cons b l)
      ∙ add_texture-swap a b (m.try_get_texture a) (m.try_get_texture b) (sorted_textures l)
          (ap m.try_get_texture)
      ∙ ap (add_texture b (m.try_get_texture b)) (sym (sorted_textures-cons a l))
      ∙ sym (sorted_textures-cons b (a ∷ l))
      ∙ ap (λ x. sorted_textures (x ∷ a ∷ l)) f
      ∙ ap (λ x. sorted_textures (a' ∷ x ∷ l)) e
  sorted_textures-perm (Permᴰ.trans p q) = sorted_textures-perm p ∙ sorted_textures-perm q

  sorted_refs-perm : {xs ys : List ℕ} → Permᴰ xs ys → sorted_refs xs ≡ sorted_refs ys
  sorted_refs-perm Permᴰ.nil = refl
  sorted_refs-perm (Permᴰ.cons {a} {b} {l₁} {l₂} e p) =
      ap (λ x. sorted_refs (x ∷ l₁)) e
      ∙ sorted_refs-cons b l₁
      ∙ ap (add_ref b (m.try_get_texture b)) (sorted_refs-perm p)
      ∙ sym (sorted_refs-cons b l₂)
  sorted_refs-perm (Permᴰ.swap {a} {b} {a'} {l} e f) =
      sorted_refs-cons a (b ∷ l)
      ∙ ap (add_ref a (m.try_get_texture a)) (sorted_refs-cons b l)
      ∙ add_ref-swap a b (m.try_get_texture a) (m.try_get_texture b) (sorted_refs l)
      ∙ ap (add_ref b (m.try_get_texture b)) (sym (sorted_refs-cons a l))
      ∙ sym (sorted_refs-cons b (a ∷ l))
      ∙ ap (λ x. sorted_refs (x ∷ a ∷ l)) f
      ∙ ap (λ x. sorted_refs (a' ∷ x ∷ l)) e
  sorted_refs-perm (Permᴰ.trans p q) = sorted_refs-perm p ∙ sorted_refs-perm q

-- The map, with its keys in another order.
abbrev pub reordered : ObjectMap → List ℕ → List ℕ → ObjectMap
reordered m keys unused = record m { all_keys = keys; unused_keys = unused }

textures_of-reordered :
    (m : ObjectMap) (keys unused rs : List ℕ)
    → textures_of (reordered m keys unused) rs ≡ textures_of m rs
textures_of-reordered m keys unused [] = refl
textures_of-reordered m keys unused (r ∷ rs) =
    ap (keep_texture r (m.try_get_texture r)) (textures_of-reordered m keys unused rs)

texture_refs_of-reordered :
    (m : ObjectMap) (keys unused rs : List ℕ)
    → texture_refs_of (reordered m keys unused) rs ≡ texture_refs_of m rs
texture_refs_of-reordered m keys unused [] = refl
texture_refs_of-reordered m keys unused (r ∷ rs) =
    ap (keep_ref r (m.try_get_texture r)) (texture_refs_of-reordered m keys unused rs)

-- The slot, with the keys of its map in another order.
abbrev pub with_keys : Slot → List ℕ → List ℕ → Slot
with_keys s keys unused = record s { object_map = reordered s.object_map keys unused }

-- The lists that a session reads off the object map do not depend on the order in which the framework
-- lists the keys of its dictionary and of its set of unused keys.
pub live-unordered :
    (s : Slot) (keys unused : List ℕ)
    → Permᴰ s.object_map.all_keys keys
    → Permᴰ s.object_map.unused_keys unused
    → (live_textures (with_keys s keys unused) ≡ live_textures s)
      × (live_texture_refs (with_keys s keys unused) ≡ live_texture_refs s)
      × (live_unused_refs (with_keys s keys unused) ≡ live_unused_refs s)
unfolding live_textures live_texture_refs live_unused_refs controller_object_map
live-unordered s keys unused p q = elim (Bool-cases (s.is_null || s.malloc_size == 0)) [
  | inl a ↦ rw a (refl, refl, refl)
  | inr a ↦ elim (Bool-cases s.is_object_map) [
    | inr b ↦ rw (a, b) (refl, refl, refl)
    | inl b ↦
        rw (a, b)
          (
            ap ok (
                ap sort_by_key (textures_of-reordered s.object_map keys unused keys)
                ∙ sym (sorted_textures-perm s.object_map p)),
            ap ok (
                ap sort_refs (texture_refs_of-reordered s.object_map keys unused keys)
                ∙ sym (sorted_refs-perm s.object_map p)),
            ap ok (sym (sort_refs-perm q)),
          )
  ]
]
