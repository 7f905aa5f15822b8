-- ===== src/Session/Objects/Sorted.antt =====
-- Sorted lists of references: their keys and their members.
use gputools_replay.Prelude.{
  ℕ, Bool, true, false, ◌||◌, Bool-cases, List, [], ◌∷◌, map, ◌==◌, leb, ◌≡◌, inl, inr, refl, ap,
  ◌∙◌,
}
use gputools_replay.Session.Objects.{
  TextureDescriptor, insert_by_key, sort_by_key, insert_ref, sort_refs,
}

abbrev pub has : ℕ → List ℕ → Bool
has r [] = false
has r (k ∷ ks) = let rest = has r ks in k == r || rest

or_swap : (a b c : Bool) → (a || (b || c)) ≡ (b || (a || c))
or_swap true true c = refl
or_swap true false c = refl
or_swap false true c = refl
or_swap false false c = refl

map-insert_by_key :
    (x : ℕ × TextureDescriptor) (ys : List (ℕ × TextureDescriptor))
    → map (λ y. y.0) (insert_by_key x ys) ≡ insert_ref x.0 (map (λ y. y.0) ys)
map-insert_by_key x [] = refl
map-insert_by_key x (y ∷ ys) = elim (Bool-cases (leb x.0 y.0)) [
  | inl t ↦ rw t refl
  | inr t ↦ rw t (ap (◌∷◌ y.0) (map-insert_by_key x ys))
]

pub map-sort_by_key :
    (xs : List (ℕ × TextureDescriptor))
    → map (λ y. y.0) (sort_by_key xs) ≡ sort_refs (map (λ y. y.0) xs)
map-sort_by_key [] = refl
map-sort_by_key (x ∷ xs) =
    map-insert_by_key x (sort_by_key xs) ∙ ap (insert_ref x.0) (map-sort_by_key xs)

has-insert_ref : (r s : ℕ) (rs : List ℕ) → has r (insert_ref s rs) ≡ has r (s ∷ rs)
has-insert_ref r s [] = refl
has-insert_ref r s (k ∷ ks) = elim (Bool-cases (leb s k)) [
  | inl t ↦ rw t refl
  | inr t ↦
      rw t (ap (λ b. k == r || b) (has-insert_ref r s ks) ∙ or_swap (k == r) (s == r) (has r ks))
]

pub has-sort_refs : (r : ℕ) (rs : List ℕ) → has r (sort_refs rs) ≡ has r rs
has-sort_refs r [] = refl
has-sort_refs r (s ∷ ss) =
    has-insert_ref r s (sort_refs ss) ∙ ap (λ b. s == r || b) (has-sort_refs r ss)
