-- ===== src/Describe/Zip.antt =====
-- `zip_best_effort` of describe.rs, for any keys and descriptors.
use gputools_replay.Prelude.{
  ℕ, zero, suc, ◌+◌, ◌≤◌, ◌≡◌, refl, ap, ◌∙◌, Bool, true, false, Bool-cases, Option, none, some,
  List, [], ◌∷◌, length, replicate, set, drop, get_elem?, arith, ◌⊎◌, inl, inr,
}
use gputools_replay.Format.Bounds.{count_true}
use gputools_replay.Describe.{
  HasGeometry, Key, combined, matches, skip_combined, zip_loop, unplaced_from, transparent_from,
  zip_best_effort,
}

-- How many keys were placed.
abbrev pub count_some {ℓ} : {A : Type ℓ} → List (Option A) → ℕ
count_some [] = 0
count_some (none ∷ xs) = count_some xs
count_some (some _ ∷ xs) = suc (count_some xs)

-- The placed indices are at least `lo`, and each is greater than those before it.
abbrev pub Increasing : ℕ → List (Option ℕ) → Type 0
Increasing lo [] = Unit
Increasing lo (none ∷ xs) = Increasing lo xs
Increasing lo (some j ∷ xs) = (lo ≤ j) × Increasing (j + 1) xs

count_first :
    (bs : List Bool) (b : Bool) → b ≡ false → count_true (true ∷ bs) ≡ suc (count_true (b ∷ bs))
unfolding count_true
count_first bs true e = cc
count_first bs false e = omega arith

count_later :
    (b : Bool) (xs ys : List Bool)
    → count_true xs ≡ suc (count_true ys)
    → count_true (b ∷ xs) ≡ suc (count_true (b ∷ ys))
unfolding count_true
count_later true xs ys e = omega (arith, e)
count_later false xs ys e = e

Increasing-le : (i j : ℕ) (os : List (Option ℕ)) → i ≤ j → Increasing j os → Increasing i os
Increasing-le i j [] h k = tt
Increasing-le i j (none ∷ os) h k = Increasing-le i j os h k
Increasing-le i j (some n ∷ os) h k = (omega (arith, h, k.0), k.1)

module _ {D : Type 0} (g : HasGeometry D) where
  -- A key that is placed at `j` has the size and the format of the `j`-th descriptor, which is not
  -- combined.
  abbrev pub Placed : List D → Key → Option ℕ → Type 0
  Placed descs k none = Unit
  Placed descs (w, h, f) (some j) =
      (d : D) × (get_elem? descs j ≡ some d)
      × (g.width d ≡ w)
      × (g.height d ≡ h)
      × (g.format d ≡ f)
      × (combined g d ≡ false)

  abbrev pub AllPlaced : List D → List Key → List (Option ℕ) → Type 0
  AllPlaced descs [] [] = Unit
  AllPlaced descs (k ∷ ks) (o ∷ os) = Placed descs k o × AllPlaced descs ks os
  AllPlaced descs [] (o ∷ os) = ⊥
  AllPlaced descs (k ∷ ks) [] = ⊥

  -- No combined descriptor is marked, and there is a mark for each descriptor.
  abbrev Marked : List D → List Bool → Type 0
  Marked [] [] = Unit
  Marked (d ∷ ds) (b ∷ bs) = ((b ≡ false) ⊎ (combined g d ≡ false)) × Marked ds bs
  Marked [] (b ∷ bs) = ⊥
  Marked (d ∷ ds) [] = ⊥

  get_elem?-drop :
      (j : ℕ) (xs : List D) (d : D) (ds : List D) → drop j xs ≡ d ∷ ds → get_elem? xs j ≡ some d
  get_elem?-drop zero xs d ds e = rw e
  get_elem?-drop (suc j) [] d ds e = cc
  get_elem?-drop (suc j) (x ∷ xs) d ds e = get_elem?-drop j xs d ds e

  drop_next :
      {A : Type 0} (j : ℕ) (xs : List A) (x : A) (rest : List A)
      → drop j xs ≡ x ∷ rest
      → drop (j + 1) xs ≡ rest
  drop_next {A} j xs x rest e = ap (λ n. drop n xs) {y = suc j} (omega arith) ∙ go j xs e
    where
      go : (i : ℕ) (ys : List A) → drop i ys ≡ x ∷ rest → drop (suc i) ys ≡ rest
      go zero [] h = cc
      go zero (y ∷ ys) h = cc
      go (suc i) [] h = cc
      go (suc i) (y ∷ ys) h = go i ys h

  -- What the loop keeps of its index: the suffixes of the descriptors and of the unused marks.
  abbrev At : List D → List Bool → ℕ × List D → Type 0
  At descs placed (j, rest) =
      (drop j descs ≡ rest) × (drop j placed ≡ replicate (length rest) false)

  -- The loop over combined descriptors stops at a later index, and not at a combined descriptor.
  skip_combined_lem :
      (j : ℕ) (rest descs : List D) (placed : List Bool)
      → At descs placed (j, rest)
      → (j' : ℕ) × (rest' : List D) × (skip_combined g j rest ≡ (j', rest'))
        × (j ≤ j')
        × At descs placed (j', rest')
        × ((rest' ≡ []) ⊎ ((d : D) × (ds : List D) × (rest' ≡ d ∷ ds) × (combined g d ≡ false)))
  unfolding skip_combined
  skip_combined_lem j [] descs placed a = (j, [], refl, omega arith, a, inl refl)
  skip_combined_lem j (d ∷ ds) descs placed a = elim (Bool-cases (combined g d)) [
    | inl c ↦
        let (j', rest', e, le, a', n) = skip_combined_lem (j + 1) ds descs placed (
          drop_next j descs d ds a.0,
          drop_next j placed false (replicate (length ds) false) a.1,
        ) in
        (j', rest', rw (c, e), omega (arith, le), a', n)
    | inr c ↦ (j, d ∷ ds, rw c, omega arith, a, inr (d, ds, refl, c))
  ]

  set_lem :
      (j : ℕ) (descs : List D) (placed fs : List Bool) (d : D) (ds : List D)
      → drop j descs ≡ d ∷ ds
      → combined g d ≡ false
      → drop j placed ≡ false ∷ fs
      → Marked descs placed
      → Marked descs (set placed j true)
        × (count_true (set placed j true) ≡ suc (count_true placed))
        × (drop (suc j) (set placed j true) ≡ fs)
  set_lem zero [] placed fs d ds e c f m = cc
  set_lem (suc j) [] placed fs d ds e c f m = cc
  set_lem zero (x ∷ xs) [] fs d ds e c f m = cc
  set_lem (suc j) (x ∷ xs) [] fs d ds e c f m = cc
  set_lem zero (x ∷ xs) (b ∷ bs) fs d ds e c f m =
      let same : x ≡ d = cc in
      let unset : b ≡ false = cc in
      ((inr (ap (combined g) same ∙ c), m.1), count_first bs b unset, cc)
  set_lem (suc j) (x ∷ xs) (b ∷ bs) fs d ds e c f m =
      let (m', n, r) = set_lem j xs bs fs d ds e c f m.1 in
      ((m.0, m'), count_later b (set bs j true) bs n, r)

  matches_lem :
      (k : Key) (d : D)
      → matches g k d ≡ true
      → (g.width d ≡ k.0) × (g.height d ≡ k.1) × (g.format d ≡ k.2)
  matches_lem (w, h, f) d m = ground arith

  zip_loop_lem :
      (ks : List Key) (j : ℕ) (rest descs : List D) (placed : List Bool)
      → At descs placed (j, rest)
      → Marked descs placed
      → let (out, placed') = zip_loop g ks j rest placed in
        AllPlaced descs ks out
        × Increasing j out
        × Marked descs placed'
        × (count_true placed' ≡ count_true placed + count_some out)
  unfolding zip_loop
  zip_loop_lem [] j rest descs placed a m = (tt, tt, m, omega arith)
  zip_loop_lem (k ∷ ks) j rest descs placed a m =
      let (j', rest', e, le, a', n) = skip_combined_lem j rest descs placed a in
      rw e (elim n [
        | inl empty ↦ rw empty (
            let (p, i, m', s) = zip_loop_lem ks j' [] descs placed (rw empty at a') m in
            ((tt, p), Increasing-le j j' (zip_loop g ks j' [] placed).0 le i, m', s))
        | inr (d, ds, e2, c) ↦ rw e2 (elim (Bool-cases (matches g k d)) [
          | inl t ↦ rw t (
              let at : At descs placed (j', d ∷ ds) = rw e2 at a' in
              let (marked, once, unused) =
                set_lem j' descs placed (replicate (length ds) false) d ds at.0 c at.1 m in
              let next : drop (j' + 1) (set placed j' true) ≡ replicate (length ds) false =
                ap (λ n. drop n (set placed j' true)) {y = suc j'} (omega arith) ∙ unused in
              let (p, i, m', s) =
                zip_loop_lem ks (j' + 1) ds descs (set placed j' true)
                  (drop_next j' descs d ds at.0, next) marked in
              let (w, h, f) = matches_lem k d t in
              (
                ((d, get_elem?-drop j' descs d ds at.0, w, h, f, c), p),
                (le, i),
                m',
                omega (arith, s, once),
              ))
          | inr t ↦ rw t (
              let (p, i, m', s) = zip_loop_lem ks j' (d ∷ ds) descs placed (rw e2 at a') m in
              ((tt, p), Increasing-le j j' (zip_loop g ks j' (d ∷ ds) placed).0 le i, m', s))
        ])
      ])

  partition :
      (i : ℕ) (descs : List D) (placed : List Bool)
      → Marked descs placed
      → count_true placed
          + length (unplaced_from g i descs placed)
          + length (transparent_from g i descs)
        ≡ length descs
  unfolding unplaced_from transparent_from count_true
  partition i [] [] m = omega arith
  partition i [] (b ∷ bs) m = absurd m
  partition i (d ∷ ds) [] m = absurd m
  partition i (d ∷ ds) (true ∷ bs) m =
      let r = partition (i + 1) ds bs m.1 in
      elim m.0 [ inl e ↦ cc | inr c ↦ rw c (omega (arith, r)) ]
  partition i (d ∷ ds) (false ∷ bs) m =
      let r = partition (i + 1) ds bs m.1 in
      elim (Bool-cases (combined g d)) [
        | inl c ↦ rw c (omega (arith, r))
        | inr c ↦ rw c (omega (arith, r))
      ]

  unmarked :
      (descs : List D)
      → Marked descs (replicate (length descs) false)
        × (count_true (replicate (length descs) false) ≡ 0)
  unfolding count_true
  unmarked [] = (tt, omega arith)
  unmarked (d ∷ ds) = let (m, n) = unmarked ds in ((inl refl, m), n)

  -- For any keys and descriptors: each key that is placed has the size and the format of the
  -- descriptor that it is placed at, which is not a combined depth/stencil one; the placed indices
  -- increase along the keys, so none is given twice; and the placed, the unplaced and the
  -- transparent descriptors are together as many as all of them.
  pub zip_best_effort-partition :
      (keys : List Key) (descs : List D)
      → let (out, unplaced, transparent) = zip_best_effort g keys descs in
        AllPlaced descs keys out
        × Increasing 0 out
        × (count_some out + length unplaced + length transparent ≡ length descs)
  unfolding zip_best_effort
  zip_best_effort-partition keys descs =
      let (m, zeros) = unmarked descs in
      let (p, i, m', s) =
        zip_loop_lem keys 0 descs descs (replicate (length descs) false) (refl, refl) m in
      (p, i, omega (arith, s, zeros, partition 0 descs _ m'))
