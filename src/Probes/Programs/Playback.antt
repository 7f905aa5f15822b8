-- ===== src/Probes/Programs/Playback.antt =====
-- probes/src/bin/playback.rs: which stream refs answer a sweep before and after playback. A text is its
-- characters, and a `BTreeSet` is the map of its elements to nothing.
pub mod Arguments
pub mod Answers
use gputools_replay.Prelude.{
  bytes_eq, ℕ, ◌+◌, ◌-◌, ◌*◌, ◌^◌, Bool, true, false, ◌&&◌, Option, none, some, List, [], ◌∷◌,
  Outcome, ok, err, ◌>>=◌, ok_or, ltb, leb, ◌==◌, if◌then◌else◌,
}
use gputools_replay.Util.{codes}
use gputools_replay.Plist.{Plist}
use gputools_replay.Probes.Records.{InfoRecord}
use gputools_replay.Probes.Programs.{
  ProgramError, bad_target, unknown_mode, Fetch, sweep_requests, fetch_records,
}
use gputools_replay.Probes.Programs.BTree.{get, insert}

pub data Mode : Type 0 where
  play_all : Mode
  play_to : ℕ → Mode

abbrev pub is_digit : ℕ → Bool
is_digit c = leb b'0' c && leb c b'9'

-- The loop of `str::parse::<u32>`, which stops at a character that is no digit and at an overflow.
unfoldable pub digits_loop : List ℕ → ℕ → Option ℕ
digits_loop [] acc = some acc
digits_loop (c ∷ cs) acc =
    let next = acc * 10 + (c - b'0') in
    let rest = digits_loop cs next in if is_digit c && ltb next (2 ^ 32) then rest else none

-- `str::parse::<u32>`: one sign may stand before the digits.
unfoldable pub parse_u32 : List ℕ → Option ℕ
parse_u32 [] = none
parse_u32 (c ∷ []) = digits_loop (c ∷ []) 0
parse_u32 (c ∷ d ∷ cs) = if c == b'+' then digits_loop (d ∷ cs) 0 else digits_loop (c ∷ d ∷ cs) 0

-- `s.strip_prefix(prefix)`
unfoldable pub strip_prefix : List ℕ → List ℕ → Option (List ℕ)
strip_prefix [] s = some s
strip_prefix (p ∷ ps) [] = none
strip_prefix (p ∷ ps) (c ∷ cs) = if c == p then strip_prefix ps cs else none

-- What `Mode::parse` does with a text that is not "playall".
abbrev pub parse_target : List ℕ → Option (List ℕ) → Outcome ProgramError Mode
parse_target s none = err (unknown_mode s)
parse_target s (some rest) = do index ← ok_or (bad_target rest) (parse_u32 rest); ok (play_to index)

-- `Mode::parse`
unfoldable pub parse_mode : List ℕ → Outcome ProgramError Mode
parse_mode s =
    if bytes_eq s (codes "playall")
    then ok play_all
    else parse_target s (strip_prefix (codes "playto:") s)

abbrev pub Refs : Type 0
Refs = List (ℕ × Unit {0})

-- `records.into_iter().map(|r| r.stream_ref).collect()`
unfoldable pub collect_refs : List InfoRecord → Refs → Refs
collect_refs [] out = out
collect_refs (r ∷ rs) out = collect_refs rs (insert r.stream_ref tt out)

-- What `difference` does with an element that is, or is not, in the other set.
abbrev pub keep_missing : ℕ → Option (Unit {0}) → List ℕ → List ℕ
keep_missing r none rest = r ∷ rest
keep_missing r (some there) rest = rest

-- `a.difference(&b).collect()`
unfoldable pub difference : (a b : Refs) → List ℕ
difference [] b = []
difference ((r, u) ∷ a) b = keep_missing r (get r b) (difference a b)

-- What `run` prints at its end.
pub record Diff : Type 0 where
  pub newly_answering : List ℕ
  pub dropped : List ℕ

module _ {V D : Type 0} (p : Plist V D) where
  -- `sweep`
  unfoldable pub sweep_refs : Fetch → ℕ → Outcome ProgramError Refs
  sweep_refs fetch max_ref = do
    got ← fetch_records p fetch (sweep_requests max_ref)
    ok (collect_refs got.1 [])

  -- `run` from the open session on, for the session's fetch before playback and after each kind of it.
  unfoldable pub playback_run :
      (before : Fetch) (after : Mode → Fetch) → ℕ → Mode → Outcome ProgramError Diff
  playback_run before after max_ref mode = do
    b ← sweep_refs before max_ref
    a ← sweep_refs (after mode) max_ref
    ok (record { newly_answering = difference a b; dropped = difference b a })
