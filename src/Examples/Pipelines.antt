-- ===== src/Examples/Pipelines.antt =====
-- The theorems on the archives of pipelines, at concrete inputs.
use gputools_replay.Prelude.{ℕ, zero, suc, List, [], ◌∷◌, ◌++◌, ok, err, ◌≡◌, ◌↔◌, refl, collect}
use gputools_replay.Plist.{Plist, uid}
use gputools_replay.Pipeline.{
  Stage, vertex, fragment, compute, stages, key_entries, keys_loop, entries_loop, stage_of,
  performance_stats,
}
use gputools_replay.Pipeline.Laws.{HoldAll, stages-ok_iff}
use gputools_replay.Pipeline.Archive.{
  bad, too_deep, target_of, unarchive_value, unarchive_root, unarchive_node, unarchive_dictionary,
  pairs_loop,
}
use gputools_replay.Pipeline.Archive.Decodes.{Decodes}
use gputools_replay.Pipeline.Archive.Complete.{Enough, unarchive-Decodes}
use gputools_replay.Pipeline.Archive.Cycle.{unarchive-endless}
use gputools_replay.Examples.Plists.{
  view_of, Value, Entries, values, archive_of, string, dict, array, item, end, entry, stop,
  reference, number, bytes,
}

-- A compute pipeline: a root with one stage of data 1, 2 and id 7.
abbrev pipeline_objects : List Value
pipeline_objects =
    string "$null"
    ∷ dict (
        entry "NS.keys" (array (item (string "compute") end))
          (entry "NS.objects" (array (item (reference 2) end)) stop))
    ∷ dict (entry "NS.objects" (array (item (reference 3) end)) stop)
    ∷ dict (
        entry "NS.keys" (array (item (string "data") (item (string "uniqueId") end)))
          (entry "NS.objects" (array (item (bytes (1 ∷ 2 ∷ [])) (item (number 7) end))) stop))
    ∷ []

abbrev pipeline_plist : Plist Value Entries
pipeline_plist = values (archive_of pipeline_objects)

abbrev compute_stage : Stage
compute_stage = record { kind = compute; mach_o = 1 ∷ 2 ∷ []; unique_id = 7 }

pipeline_stages : stages pipeline_plist (0 ∷ []) ≡ ok (compute_stage ∷ [])
unfolding stages unarchive_root unarchive_value unarchive_node unarchive_dictionary pairs_loop
    collect keys_loop entries_loop stage_of
pipeline_stages = refl

stages-ok_iff_example : (stages pipeline_plist (0 ∷ []) ≡ ok (compute_stage ∷ [])) ↔ (
    (d : Entries) × (vs : List Stage) × (fs : List Stage) × (cs : List Stage) × (unarchive_root
        pipeline_plist
        (0 ∷ [])
      ≡ ok d)
    × HoldAll pipeline_plist vertex (key_entries pipeline_plist d "vertex") vs
    × HoldAll pipeline_plist fragment (key_entries pipeline_plist d "fragment") fs
    × HoldAll pipeline_plist compute (key_entries pipeline_plist d "compute") cs
    × ((compute_stage ∷ []) ≡ (vs ++ fs) ++ cs))
stages-ok_iff_example = stages-ok_iff pipeline_plist (0 ∷ []) (compute_stage ∷ [])

-- The stage's dictionary, unarchived.
abbrev stage_value : Value
stage_value = dict (entry "uniqueId" (number 7) (entry "data" (bytes (1 ∷ 2 ∷ [])) stop))

unarchive-Decodes_example :
    ((left : ℕ)
      → unarchive_value pipeline_plist pipeline_objects left (reference 3) ≡ ok stage_value
      → Decodes pipeline_plist pipeline_objects (reference 3) stage_value)
    × (Decodes pipeline_plist pipeline_objects (reference 3) stage_value
        → (n : ℕ) × Enough pipeline_plist pipeline_objects n (reference 3) stage_value)
unarchive-Decodes_example =
    unarchive-Decodes pipeline_plist pipeline_objects (reference 3) stage_value

-- Two objects that refer to each other.
abbrev ring : List Value
ring = reference 1 ∷ reference 0 ∷ []

abbrev around : ℕ → Value
around zero = reference 1
around (suc zero) = reference 0
around (suc (suc n)) = around n

steps :
    (i : ℕ)
    → (idx : ℕ) × (view_of (around i) ≡ uid idx)
      × (target_of pipeline_plist ring idx ≡ ok (around (suc i)))
steps zero = (1, refl, refl)
steps (suc zero) = (0, refl, refl)
steps (suc (suc n)) = steps n

pipeline_statistics :
    performance_stats pipeline_plist (0 ∷ []) ≡ err (bad "no PerformanceStatistics")
unfolding performance_stats unarchive_root unarchive_value unarchive_node unarchive_dictionary
    pairs_loop collect
pipeline_statistics = refl

unarchive-endless_example : unarchive_value pipeline_plist ring 65 (reference 1) ≡ err too_deep
unarchive-endless_example = unarchive-endless pipeline_plist ring around steps 65 0
