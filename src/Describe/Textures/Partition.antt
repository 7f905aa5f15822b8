-- ===== src/Describe/Textures/Partition.antt =====
-- `describe_textures` of describe.rs, for any textures and descriptors.
use gputools_replay.Prelude.{
  ℕ, zero, suc, ◌+◌, ◌≤◌, ◌<◌, ◌≡◌, refl, ap, Bool, not, ◌&&◌, Bool-cases, Option, none, some, List,
  [], ◌∷◌, map, length, replicate, get_elem?, All, ok, collect, arith, inl, inr, length-replicate,
}
use gputools_replay.Handles.{Texture}
use gputools_replay.Describe.{
  HasGeometry, Key, combined, zip_best_effort, unplaced_from, transparent_from,
}
use gputools_replay.Describe.Zip.{zip_best_effort-partition, count_some}
use gputools_replay.Describe.Textures.{
  Descriptions, enumerate, sort_by_ref, first_of_refs, key_of, descriptor_at, describe_some,
  describe_textures,
}
use gputools_replay.Describe.Textures.Order.{
  Indices, enumerate-Indices, sort_by_ref-Indices, first_of_refs-Indices,
}
use gputools_replay.Describe.Textures.Fill.{fill_lem}

get_elem?-lt :
    {A : Type 0} (xs : List A) (i : ℕ) → i < length xs → (x : A) × (get_elem? xs i ≡ some x)
get_elem?-lt [] i h = absurd (omega arith)
get_elem?-lt (x ∷ xs) zero h = (x, refl)
get_elem?-lt (x ∷ xs) (suc i) h = get_elem?-lt xs i (omega arith)

get_elem?-replicate : {A : Type 0} (n i : ℕ) (a : A) → i < n → get_elem? (replicate n a) i ≡ some a
get_elem?-replicate zero i a h = absurd (omega arith)
get_elem?-replicate (suc n) zero a h = refl
get_elem?-replicate (suc n) (suc i) a h = get_elem?-replicate n i a (omega arith)

-- The entries before the first texture has its descriptor.
abbrev nothing : (A : Type 0) → ℕ → List (Option A)
nothing A n = replicate n none

count_none : (A : Type 0) (n : ℕ) → count_some (nothing A n) ≡ 0
count_none A zero = refl
count_none A (suc n) = count_none A n

module _ {D : Type 0} (g : HasGeometry D) where
  unplaced_in :
      (i n : ℕ) (ds : List D) (ps : List Bool)
      → i + length ds ≤ n
      → All (λ j. j < n) (unplaced_from g i ds ps)
  unfolding unplaced_from
  unplaced_in i n [] ps h = tt
  unplaced_in i n (d ∷ ds) [] h = tt
  unplaced_in i n (d ∷ ds) (p ∷ ps) h =
      let r = unplaced_in (i + 1) n ds ps (omega arith) in
      elim (Bool-cases (not (combined g d) && not p)) [
        | inl t ↦ rw t (omega arith, r)
        | inr t ↦ rw t r
      ]

  transparent_in :
      (i n : ℕ) (ds : List D) → i + length ds ≤ n → All (λ j. j < n) (transparent_from g i ds)
  unfolding transparent_from
  transparent_in i n [] h = tt
  transparent_in i n (d ∷ ds) h =
      let r = transparent_in (i + 1) n ds (omega arith) in
      elim (Bool-cases (combined g d)) [ inl t ↦ rw t (omega arith, r) | inr t ↦ rw t r ]

  collect_in :
      (descs : List D) (js : List ℕ)
      → All (λ j. j < length descs) js
      → (ds : List D) × (collect (descriptor_at g descs) js ≡ ok ds) × (length ds ≡ length js)
  unfolding collect
  collect_in descs [] h = ([], refl, refl)
  collect_in descs (j ∷ js) h =
      let (d, e) = get_elem?-lt descs j h.0 in
      let (ds, f, l) = collect_in descs js h.1 in (d ∷ ds, rw (e, f), ap suc l)

  empty_entries :
      (n : ℕ) (xs : List (ℕ × Texture))
      → Indices n xs
      → All (λ x. get_elem? (nothing D n) x.0 ≡ some none) xs
  empty_entries n [] m = tt
  empty_entries n (x ∷ xs) m = (get_elem?-replicate n x.0 none m.0, empty_entries n xs m.2)

  indices_in :
      (keys : List Key) (descs : List D)
      → let (out, unplaced, transparent) = zip_best_effort g keys descs in
        All (λ j. j < length descs) unplaced × All (λ j. j < length descs) transparent
  unfolding zip_best_effort
  indices_in keys descs = (
    unplaced_in 0 (length descs) descs _ (omega arith),
    transparent_in 0 (length descs) descs (omega arith),
  )

  -- Each fetched texture has an entry, and the three parts are together as many as the descriptors.
  pub record IsPartition (texs : List Texture) (descs : List D) (r : Descriptions D) : Type 0 where
    pub entries : length r.per_texture ≡ length texs
    pub total : count_some r.per_texture + length r.unplaced + length r.transparent ≡ length descs

  describe_some-IsPartition :
      (texs : List Texture) (descs : List D)
      → (r : Descriptions D) × (describe_some g texs descs ≡ ok r) × IsPartition texs descs r
  unfolding describe_some
  describe_some-IsPartition texs descs =
      let sorted = first_of_refs [] (sort_by_ref (enumerate 0 texs)) in
      let n = length texs in
      let m : Indices n sorted =
        first_of_refs-Indices n [] (sort_by_ref (enumerate 0 texs))
          (sort_by_ref-Indices n (enumerate 0 texs) (enumerate-Indices n 0 texs (omega arith))) in
      let (placed, increasing, total) = zip_best_effort-partition g (map key_of sorted) descs in
      let (us, ts) = indices_in (map key_of sorted) descs in
      let (r, f, len, count) =
        fill_lem g descs sorted _ (replicate n none) n placed (length-replicate n none) m
          (empty_entries n sorted m) in
      let (unplaced, u, ul) = collect_in descs _ us in
      let (transparent, t, tl) = collect_in descs _ ts in
      (
        record { per_texture = r; unplaced = unplaced; transparent = transparent },
        rw (f, u, t),
        record { entries = len; total = omega (arith, count, count_none D n, ul, tl, total) },
      )

  -- For any textures and descriptors, `describe_textures` returns without a panic, with one entry for
  -- each texture, and the descriptors given to textures, the unplaced and the transparent ones are
  -- together as many as all descriptors.
  pub describe_textures-IsPartition :
      (texs : List Texture) (descs : List D)
      → (r : Descriptions D) × (describe_textures g texs descs ≡ ok r) × IsPartition texs descs r
  unfolding describe_textures
  describe_textures-IsPartition texs [] = (
    record { per_texture = replicate (length texs) none; unplaced = []; transparent = [] },
    refl,
    record {
      entries = length-replicate (length texs) none;
      total = omega (arith, count_none D (length texs));
    },
  )
  describe_textures-IsPartition texs (d ∷ ds) = describe_some-IsPartition texs (d ∷ ds)
