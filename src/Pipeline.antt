-- ===== src/Pipeline.antt =====
-- crates/gputools-replay-hl/src/pipeline.rs: the compiled stages and the statistics of a pipeline, read
-- from the nested archive that the child Archive unarchives.
pub mod Archive
pub mod Laws
use gputools_replay.Prelude.{
  ℕ, String, Option, none, some, List, [], ◌∷◌, ◌++◌, Outcome, ok, err, ◌>>=◌, ok_or, length,
}
use gputools_replay.Errors.{
  Error, bad_pipeline, literal, entry_not_dict, stage_data_missing, statistics_entries,
}
use gputools_replay.Plist.{Plist, as_dictionary, get_array}
use gputools_replay.Pipeline.Archive.{bad, unarchive_root}

pub data StageKind : Type 0 where
  vertex fragment compute : StageKind
  named : String → StageKind

pub record Stage : Type 0 where
  pub kind : StageKind
  pub mach_o : List ℕ
  pub unique_id : ℕ

-- The keys of the stages, in order.
abbrev pub stage_keys : List (String × StageKind)
stage_keys = ("vertex", vertex) ∷ ("fragment", fragment) ∷ ("compute", compute) ∷ []

module _ {V D : Type 0} (p : Plist V D) where
  -- `.and_then(Value::as_unsigned_integer).unwrap_or(0)`
  abbrev pub id_or_zero : Option V → ℕ
  id_or_zero none = 0
  id_or_zero (some v) = elim (p.as_unsigned_integer v) [ none ↦ 0 | some n ↦ n ]

  -- `.and_then(Value::as_data)`
  abbrev pub data_in : Option V → Option (List ℕ)
  data_in none = none
  data_in (some v) = p.as_data v

  -- The body of the loop over the entries of a key.
  unfoldable pub stage_of : String → StageKind → V → Outcome Error Stage
  stage_of key kind entry = do
    s ← ok_or (bad_pipeline (entry_not_dict key)) (as_dictionary p entry)
    mach_o ← ok_or (bad_pipeline (stage_data_missing key)) (data_in (p.get s "data"))
    ok (record { kind = kind; mach_o = mach_o; unique_id = id_or_zero (p.get s "uniqueId") })

  -- `for entry in arr`, with the stages so far
  unfoldable pub entries_loop :
      String → StageKind → List V → List Stage → Outcome Error (List Stage)
  entries_loop key kind [] stages = ok stages
  entries_loop key kind (entry ∷ entries) stages = do
    stage ← stage_of key kind entry
    entries_loop key kind entries (stages ++ (stage ∷ []))

  -- `let Some(arr) = dict.get(key).and_then(Value::as_array) else { continue }`
  abbrev pub key_entries : D → String → List V
  key_entries dict key = elim (get_array p dict key) [ none ↦ [] | some arr ↦ arr ]

  -- The loop over the keys, in which an absent key adds nothing.
  unfoldable pub keys_loop : D → List (String × StageKind) → List Stage → Outcome Error (List Stage)
  keys_loop dict [] stages = ok stages
  keys_loop dict ((key, kind) ∷ keys) stages = do
    next ← entries_loop key kind (key_entries dict key) stages
    keys_loop dict keys next

  -- `Pipeline::stages`, on the raw bytes
  unfoldable pub stages : List ℕ → Outcome Error (List Stage)
  stages raw_bytes = do dict ← unarchive_root p raw_bytes; keys_loop dict stage_keys []

  -- The `match arr.as_slice()`.
  unfoldable pub single_statistics : List V → Outcome Error D
  single_statistics (one ∷ []) =
      ok_or (bad "PerformanceStatistics[0] not a dict") (as_dictionary p one)
  single_statistics [] = err (bad_pipeline (statistics_entries 0))
  single_statistics (a ∷ b ∷ rest) = err (bad_pipeline (statistics_entries (length (a ∷ b ∷ rest))))

  -- `Pipeline::performance_stats`, whose `Stats` is the dictionary that it wraps
  unfoldable pub performance_stats : List ℕ → Outcome Error D
  performance_stats raw_bytes = do
    dict ← unarchive_root p raw_bytes
    arr ← ok_or (bad "no PerformanceStatistics") (get_array p dict "PerformanceStatistics")
    single_statistics arr
