-- ===== src/Describe/Textures.antt =====
-- crates/gputools-replay-hl/src/describe.rs: `describe_textures`. An index into the textures goes with
-- the texture that stands there.
pub mod Order
pub mod Fill
pub mod Partition
use gputools_replay.Prelude.{
  ℕ, ◌+◌, Bool, true, false, ◌||◌, Option, none, some, List, [], ◌∷◌, map, ◌==◌, leb, ltb,
  if◌then◌else◌, length, replicate, set, get_elem?, as_u32, Outcome, ok, panic, ◌>>=◌, unwrap,
  collect,
}
use gputools_replay.Errors.{Error}
use gputools_replay.Handles.{Texture}
use gputools_replay.Describe.{HasGeometry, Key, zip_best_effort}

pub record Descriptions (D : Type 0) : Type 0 where
  pub per_texture : List (Option D)
  pub unplaced : List D
  pub transparent : List D

-- `0..texs.len()`, from `i` on.
abbrev pub enumerate : ℕ → List Texture → List (ℕ × Texture)
enumerate i [] = []
enumerate i (t ∷ ts) = (i, t) ∷ enumerate (i + 1) ts

-- `order.sort_by_key(|&i| texs[i].stream_ref())`, which is stable.
abbrev pub insert_by_ref : ℕ × Texture → List (ℕ × Texture) → List (ℕ × Texture)
insert_by_ref x [] = x ∷ []
insert_by_ref x (y ∷ ys) =
    let rest = insert_by_ref x ys in
    if leb x.1.stream_ref y.1.stream_ref then x ∷ y ∷ ys else y ∷ rest

abbrev pub sort_by_ref : List (ℕ × Texture) → List (ℕ × Texture)
sort_by_ref [] = []
sort_by_ref (x ∷ xs) = insert_by_ref x (sort_by_ref xs)

abbrev pub contains : List ℕ → ℕ → Bool
contains [] r = false
contains (s ∷ seen) r = s == r || contains seen r

-- `filter(|&i| seen.insert(texs[i].stream_ref()))`
abbrev pub first_of_refs : List ℕ → List (ℕ × Texture) → List (ℕ × Texture)
first_of_refs seen [] = []
first_of_refs seen (x ∷ xs) =
    let rest = first_of_refs (x.1.stream_ref ∷ seen) xs in
    if contains seen x.1.stream_ref then rest else x ∷ rest

abbrev pub key_of : ℕ × Texture → Key
key_of (i, t) = (t.image.width, t.image.height, as_u32 t.image.pixel_format)

module _ {D : Type 0} (g : HasGeometry D) where
  -- `descs[dj]`
  abbrev pub descriptor_at : List D → ℕ → Outcome Error D
  descriptor_at descs dj = unwrap (get_elem? descs dj)

  -- `matched[si].map(|dj| descs[dj])`
  abbrev pub matched_descriptor : List D → Option ℕ → Outcome Error (Option D)
  matched_descriptor descs none = ok none
  matched_descriptor descs (some dj) = do d ← descriptor_at descs dj; ok (some d)

  -- The loop that fills `desc_for`.
  unfoldable pub fill :
      List D
      → List (ℕ × Texture)
      → List (Option ℕ)
      → List (Option D)
      → Outcome Error (List (Option D))
  fill descs [] matched desc_for = ok desc_for
  fill descs (x ∷ xs) [] desc_for = panic
  fill descs (x ∷ xs) (hit ∷ matched) desc_for = do
    d ← matched_descriptor descs hit
    if ltb x.0 (length desc_for) then fill descs xs matched (set desc_for x.0 d) else panic

  -- The branch for a manifest that has descriptors.
  unfoldable pub describe_some : List Texture → List D → Outcome Error (Descriptions D)
  describe_some texs descs = do
    let sorted = first_of_refs [] (sort_by_ref (enumerate 0 texs))
    let (matched, unplaced_idx, transparent_idx) = zip_best_effort g (map key_of sorted) descs
    desc_for ← fill descs sorted matched (replicate (length texs) none)
    unplaced ← collect (descriptor_at descs) unplaced_idx
    transparent ← collect (descriptor_at descs) transparent_idx
    ok (record { per_texture = desc_for; unplaced = unplaced; transparent = transparent })

  -- `describe_textures`
  unfoldable pub describe_textures : List Texture → List D → Outcome Error (Descriptions D)
  describe_textures texs [] =
      ok (record { per_texture = replicate (length texs) none; unplaced = []; transparent = [] })
  describe_textures texs (d ∷ ds) = describe_some texs (d ∷ ds)
