-- ===== src/Describe.antt =====
-- crates/gputools-replay-hl/src/describe.rs: the join of fetched textures with the descriptors of the
-- bundle's manifest. The descriptor type is that of `gputrace_bundle`; the code reads three of its
-- fields, which a `HasGeometry` names.
pub mod Zip
pub mod Textures
use gputools_replay.Prelude.{
  ℕ, ◌+◌, Bool, true, false, not, ◌&&◌, Option, none, some, List, [], ◌∷◌, ◌==◌, if◌then◌else◌,
  length, replicate, set,
}
use gputools_replay.Format.{is_combined_depth_stencil}
use gputools_replay.Format.Table.{format_kind}

pub record HasGeometry (D : Type 0) : Type 0 where
  pub width : D → ℕ
  pub height : D → ℕ
  pub format : D → ℕ

-- The `(width, height, format)` of a fetched texture.
abbrev pub Key : Type 0
Key = ℕ × ℕ × ℕ

module _ {D : Type 0} (g : HasGeometry D) where
  -- `combined`
  abbrev pub combined : D → Bool
  combined d = is_combined_depth_stencil (format_kind (g.format d))

  -- `d.width == w && d.height == h && d.format == f`
  abbrev pub matches : Key → D → Bool
  matches (w, h, f) d = g.width d == w && g.height d == h && g.format d == f

  -- `while descs.get(j).is_some_and(combined) { j += 1 }`: the index, and the descriptors from it on.
  unfoldable pub skip_combined : ℕ → List D → ℕ × List D
  skip_combined j [] = (j, [])
  skip_combined j (d ∷ ds) =
      let next = skip_combined (j + 1) ds in if combined d then next else (j, d ∷ ds)

  -- The test of one key against the descriptor at `j`, if there is one: what `out[i]` becomes, and
  -- the index and descriptors that the next key sees.
  abbrev pub test_key : Key → ℕ × List D → Option ℕ × ℕ × List D
  test_key k (j, []) = (none, j, [])
  test_key k (j, d ∷ ds) = if matches k d then (some j, j + 1, ds) else (none, j, d ∷ ds)

  -- `placed[j] = true`, if the key was placed.
  abbrev pub mark : Option ℕ → List Bool → List Bool
  mark none placed = placed
  mark (some j) placed = set placed j true

  -- The loop over the keys: `out` and `placed`.
  unfoldable pub zip_loop : List Key → ℕ → List D → List Bool → List (Option ℕ) × List Bool
  zip_loop [] j rest placed = ([], placed)
  zip_loop (k ∷ ks) j rest placed =
      let (hit, j', rest') = test_key k (skip_combined j rest) in
      let (out, placed') = zip_loop ks j' rest' (mark hit placed) in (hit ∷ out, placed')

  -- The indices from `i` on of the descriptors that are neither combined nor placed.
  unfoldable pub unplaced_from : ℕ → List D → List Bool → List ℕ
  unplaced_from i (d ∷ ds) (p ∷ ps) =
      let rest = unplaced_from (i + 1) ds ps in if not (combined d) && not p then i ∷ rest else rest
  unplaced_from i [] ps = []
  unplaced_from i (d ∷ ds) [] = []

  -- The indices from `i` on of the combined descriptors.
  unfoldable pub transparent_from : ℕ → List D → List ℕ
  transparent_from i [] = []
  transparent_from i (d ∷ ds) =
      let rest = transparent_from (i + 1) ds in if combined d then i ∷ rest else rest

  unfoldable pub zip_best_effort : List Key → List D → List (Option ℕ) × List ℕ × List ℕ
  zip_best_effort keys descs =
      let (out, placed) = zip_loop keys 0 descs (replicate (length descs) false) in
      (out, unplaced_from 0 descs placed, transparent_from 0 descs)
