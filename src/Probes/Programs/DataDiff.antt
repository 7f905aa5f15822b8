-- ===== src/Probes/Programs/DataDiff.antt =====
-- probes/src/bin/datadiff.rs: which textures' fetched bytes change across playback. What a line prints of a
-- change besides its texture (the bytes that differ, the dominant colour) is not modelled.
pub mod Swept
pub mod Report
use gputools_replay.Prelude.{
  bytes_eq, ℕ, suc, ◌+◌, Option, none, some, List, [], ◌∷◌, Outcome, ok, err, panic, ◌>>=◌,
  if◌then◌else◌,
}
use gputools_replay.Plist.{Plist}
use gputools_replay.Probes.Records.{InfoRecord}
use gputools_replay.Probes.Programs.{
  ProgramError, Exit, success, failure, aborted, Fetch, sweep_requests, fetch_records, payload_of,
}
use gputools_replay.Probes.Programs.BTree.{get, insert}

pub record Payload : Type 0 where
  pub bytes : List ℕ
  pub width : ℕ
  pub height : ℕ
  pub format : ℕ

-- `.unwrap_or(&[])`
abbrev pub bytes_or_empty : Option (List ℕ) → List ℕ
bytes_or_empty none = []
bytes_or_empty (some bytes) = bytes

abbrev pub entry_of : List ℕ → InfoRecord → Payload
entry_of blob r = record {
  bytes = bytes_or_empty (payload_of blob r);
  width = r.width;
  height = r.height;
  format = r.pixel_format;
}

-- The loop of `sweep`.
unfoldable pub collect_payloads : List ℕ → List InfoRecord → List (ℕ × Payload) → List (ℕ × Payload)
collect_payloads blob [] out = out
collect_payloads blob (r ∷ rs) out =
    collect_payloads blob rs (insert r.stream_ref (entry_of blob r) out)

-- A line of the report.
pub data Line : Type 0 where
  changed dropped : (stream_ref : ℕ) → Line

pub record Summary : Type 0 where
  pub same : ℕ
  pub changes : ℕ
  pub lines : List Line

-- The `match` of the loop in `main`, for a reference, its bytes before and its payload after.
abbrev pub compare_texture : ℕ → List ℕ → Option Payload → Summary → Summary
compare_texture r b none s = record s { lines = dropped r ∷ s.lines }
compare_texture r b (some a) s =
    if bytes_eq a.bytes b
    then record s { same = s.same + 1 }
    else record s { changes = s.changes + 1; lines = changed r ∷ s.lines }

-- The loop of `main`, whose lines stand here with the last one first.
unfoldable pub compare_loop : List (ℕ × Payload) → List (ℕ × Payload) → Summary → Summary
compare_loop after [] s = s
compare_loop after ((r, b) ∷ before) s =
    compare_loop after before (compare_texture r b.bytes (get r after) s)

abbrev pub no_summary : Summary
no_summary = record { same = 0; changes = 0; lines = [] }

module _ {V D : Type 0} (p : Plist V D) where
  -- `sweep`
  unfoldable pub sweep : Fetch → ℕ → Outcome ProgramError (List (ℕ × Payload))
  sweep fetch max_ref = do
    got ← fetch_records p fetch (sweep_requests max_ref)
    ok (collect_payloads got.0.blob got.1 [])

  -- `main` from the open session on, for the session's fetch before and after `play_all`: the summary that
  -- it prints.
  unfoldable pub datadiff_run : (before after : Fetch) → ℕ → Outcome ProgramError Summary
  datadiff_run before after max_ref = do
    m ← sweep before max_ref
    n ← sweep after max_ref
    ok (compare_loop n m no_summary)
