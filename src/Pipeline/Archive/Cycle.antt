-- ===== src/Pipeline/Archive/Cycle.antt =====
-- `unarchive_value` on references that never end.
use gputools_replay.Prelude.{ℕ, zero, suc, List, ok, err, ◌≡◌, refl}
use gputools_replay.Plist.{Plist, uid}
use gputools_replay.Pipeline.Archive.{too_deep, target_of, unarchive_node, unarchive_value}

module _ {V D : Type 0} (p : Plist V D) (objects : List V) where
  -- References that lead on without end, as those of a cycle do, are refused as too deep from each of
  -- them and at every depth: unarchiving neither loops nor gives a value.
  pub unarchive-endless :
      (chain : ℕ → V)
      → ((i : ℕ)
          → (idx : ℕ) × (p.view (chain i) ≡ uid idx)
            × (target_of p objects idx ≡ ok (chain (suc i))))
      → (left i : ℕ) → unarchive_value p objects left (chain i) ≡ err too_deep
  unfolding unarchive_value unarchive_node
  unarchive-endless chain next zero i = refl
  unarchive-endless chain next (suc left) i =
      let (idx, v, t) = next i in rw (v, t) (unarchive-endless chain next left (suc i))
