-- ===== src/Describe/Textures/Fill.antt =====
-- The loop of `describe_textures` that gives each fetched texture its descriptor.
use gputools_replay.Prelude.{
  ℕ, zero, suc, ◌+◌, ◌≡◌, ◌≢◌, refl, ap, ◌∙◌, true, Option, none, some, List, [], ◌∷◌, map, ltb,
  lt→ltb, length, set, get_elem?, All, ok, arith,
}
use gputools_replay.Handles.{Texture}
use gputools_replay.Describe.{HasGeometry, Key}
use gputools_replay.Describe.Zip.{AllPlaced, Placed, count_some}
use gputools_replay.Describe.Textures.{key_of, matched_descriptor, fill}
use gputools_replay.Describe.Textures.Order.{Fresh, Indices}

-- What an entry adds to the count.
abbrev weight_of {ℓ} : {A : Type ℓ} → Option A → ℕ
weight_of none = 0
weight_of (some _) = 1

module _ {D : Type 0} where
  length-set : (acc : List (Option D)) (i : ℕ) (v : Option D) → length (set acc i v) ≡ length acc
  length-set [] i v = refl
  length-set (a ∷ acc) zero v = refl
  length-set (a ∷ acc) (suc i) v = ap suc (length-set acc i v)

  get_elem?-set :
      (acc : List (Option D)) (i j : ℕ) (v : Option D)
      → i ≢ j
      → get_elem? (set acc j v) i ≡ get_elem? acc i
  get_elem?-set [] i j v n = refl
  get_elem?-set (a ∷ acc) zero zero v n = absurd (n refl)
  get_elem?-set (a ∷ acc) zero (suc j) v n = refl
  get_elem?-set (a ∷ acc) (suc i) zero v n = refl
  get_elem?-set (a ∷ acc) (suc i) (suc j) v n = get_elem?-set acc i j v (λ e. n (ap suc e))

  count_cons :
      (o : Option D) (xs : List (Option D)) → count_some (o ∷ xs) ≡ weight_of o + count_some xs
  count_cons none xs = omega arith
  count_cons (some d) xs = omega arith

  count_some-set :
      (acc : List (Option D)) (i : ℕ) (v : Option D)
      → get_elem? acc i ≡ some none
      → count_some (set acc i v) ≡ weight_of v + count_some acc
  count_some-set [] i v e = cc
  count_some-set (a ∷ acc) zero v e =
      let empty : a ≡ none = cc in count_cons v acc ∙ ap (λ n. weight_of v + n) (rw empty)
  count_some-set (a ∷ acc) (suc i) v e =
      omega (arith, count_some-set acc i v e, count_cons a (set acc i v), count_cons a acc)

module _ {D : Type 0} (g : HasGeometry D) (descs : List D) where
  matched_descriptor-total :
      (k : Key) (hit : Option ℕ)
      → Placed g descs k hit
      → (d : Option D) × (matched_descriptor g descs hit ≡ ok d) × (weight_of d ≡ weight_of hit)
  matched_descriptor-total k none p = (none, refl, refl)
  matched_descriptor-total k (some j) p = let (d, e, w, h, f, c) = p in (some d, rw e, refl)

  still_empty :
      (xs : List (ℕ × Texture)) (acc : List (Option D)) (i : ℕ) (v : Option D)
      → Fresh i xs
      → All (λ x. get_elem? acc x.0 ≡ some none) xs
      → All (λ x. get_elem? (set acc i v) x.0 ≡ some none) xs
  still_empty [] acc i v f h = tt
  still_empty (x ∷ xs) acc i v f h =
      (get_elem?-set acc x.0 i v f.0 ∙ h.0, still_empty xs acc i v f.1 h.1)

  pub fill_lem :
      (xs : List (ℕ × Texture)) (matched : List (Option ℕ)) (acc : List (Option D)) (n : ℕ)
      → AllPlaced g descs (map key_of xs) matched
      → length acc ≡ n
      → Indices n xs
      → All (λ x. get_elem? acc x.0 ≡ some none) xs
      → (r : List (Option D)) × (fill g descs xs matched acc ≡ ok r)
        × (length r ≡ n)
        × (count_some r ≡ count_some acc + count_some matched)
  unfolding fill
  fill_lem [] [] acc n p l m h = (acc, refl, l, omega arith)
  fill_lem [] (o ∷ os) acc n p l m h = absurd p
  fill_lem (x ∷ xs) [] acc n p l m h = absurd p
  fill_lem (x ∷ xs) (hit ∷ matched) acc n p l m h =
      let (d, e, same) = matched_descriptor-total (key_of x) hit p.0 in
      let within : ltb x.0 (length acc) ≡ true = lt→ltb _ _ (rw l m.0) in
      let (r, f, len, count) =
        fill_lem xs matched (set acc x.0 d) n p.1 (length-set acc x.0 d ∙ l) m.2
          (still_empty xs acc x.0 d m.1 h.1) in
      (
        r,
        rw (e, within, f),
        len,
        omega (arith, count, count_some-set acc x.0 d h.0, same, hits hit matched),
      )
    where
      hits :
          (o : Option ℕ) (os : List (Option ℕ)) → count_some (o ∷ os) ≡ weight_of o + count_some os
      hits none os = omega arith
      hits (some j) os = omega arith
