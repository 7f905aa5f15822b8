-- ===== src/Pipeline/Archive.antt =====
-- crates/gputools-replay-hl/src/pipeline.rs: `unarchive_root` and `unarchive_value`. The recursion runs
-- on what is left of the depth: at depth `d` that is `MAX_ARCHIVE_DEPTH + 1 - d`, and none is left
-- exactly where the source finds the depth above the maximum.
pub mod Decodes
pub mod Complete
pub mod Cycle
use gputools_replay.Prelude.{
  ℕ, zero, suc, String, Option, none, some, List, [], ◌∷◌, Outcome, ok, err, ◌>>=◌, ok_or, collect,
  if◌then◌else◌, ◌==◌, ltb, length, get_elem?, usize_mod, ◌⊎◌, inl, inr,
}
use gputools_replay.Errors.{Error, Text, bad_pipeline, literal, uid_out_of_bounds}
use gputools_replay.Plist.{
  Plist, View, uid, dictionary, other, as_dictionary, get_array, get_dictionary,
}

-- `MAX_ARCHIVE_DEPTH`
abbrev pub max_archive_depth : ℕ
max_archive_depth = 64

-- `bad(m)`, of a literal
abbrev pub bad : String → Error
bad m = bad_pipeline (literal m)

abbrev pub too_deep : Error
too_deep = bad "archived object graph too deep (possible cycle)"

module _ {V D : Type 0} (p : Plist V D) where
  -- What a UID refers to.
  abbrev pub target_of : List V → ℕ → Outcome Error V
  target_of objects idx =
      if ltb idx usize_mod
      then ok_or (bad_pipeline (uid_out_of_bounds idx)) (get_elem? objects idx)
      else err (bad "UID out of range")

  module _ (unarchive : V → Outcome Error V) where
    -- The loop over the keys and the values of a dictionary.
    unfoldable pub pairs_loop : List V → List V → D → Outcome Error D
    pairs_loop (k ∷ ks) (v ∷ vs) out = do
      name ← unarchive k
      key ← ok_or (bad "a dictionary key is not a string") (p.as_string name)
      value ← unarchive v
      pairs_loop ks vs (p.insert out key value)
    pairs_loop [] vs out = ok out
    pairs_loop (k ∷ ks) [] out = ok out

    -- A dictionary, by its arrays `NS.objects` and `NS.keys`.
    unfoldable pub unarchive_dictionary : V → Option (List V) → Option (List V) → Outcome Error V
    unarchive_dictionary v none keys = ok v
    unarchive_dictionary v (some vs) (some ks) =
        if length ks == length vs
        then (do out ← pairs_loop ks vs p.empty; ok (p.from_dictionary out))
        else err (bad "NS.keys/NS.objects length mismatch")
    unarchive_dictionary v (some vs) none = do out ← collect unarchive vs; ok (p.from_array out)

    -- The `match v`.
    unfoldable pub unarchive_node : List V → V → View D → Outcome Error V
    unarchive_node objects v (uid idx) = target_of objects idx >>= unarchive
    unarchive_node objects v (dictionary d) =
        unarchive_dictionary v (get_array p d "NS.objects") (get_array p d "NS.keys")
    unarchive_node objects v other = ok v

  -- `unarchive_value`
  unfoldable pub unarchive_value : List V → ℕ → V → Outcome Error V
  unarchive_value objects zero v = err too_deep
  unarchive_value objects (suc left) v =
      unarchive_node (unarchive_value objects left) objects v (p.view v)

  -- `unarchive_root`
  unfoldable pub unarchive_root : List ℕ → Outcome Error D
  unarchive_root bytes = do
    root ← elim (p.from_bytes bytes) [ inl e ↦ err (bad_pipeline e) | inr root ↦ ok root ]
    envelope ← ok_or (bad "root is not a dictionary") (as_dictionary p root)
    objects ← ok_or (bad "no $objects array") (get_array p envelope "$objects")
    top ← ok_or (bad "no $top dictionary") (get_dictionary p envelope "$top")
    root_ref ← ok_or (bad "no $top.root") (p.get top "root")
    value ← unarchive_value objects (suc max_archive_depth) root_ref
    ok_or (bad "archived root is not a dictionary") (as_dictionary p value)
