-- ===== src/Probes/Programs.antt =====
-- probes/src/bin: what the programs of the probes have in common. A program asks its session for textures
-- at their natural size, then parses the reply and its records.
pub mod TexBmp
pub mod PixelCheck
pub mod BTree
pub mod DataDiff
pub mod Playback
use gputools_replay.Prelude.{
  Bool, true, false, ◌&&◌, ◌==◌, ==_iff, ◌≡◌, ◌↔◌, refl, ◌+◌, slice, Option, arith, ℕ, zero, suc,
  String, List, [], ◌∷◌, ◌++◌, map, Outcome, ◌>>=◌, map_err, ok,
}
use gputools_replay.Errors.{Text}
use gputools_replay.Plist.{Plist}
use gputools_replay.Probes.{SessionError, ReplyError}
use gputools_replay.Probes.Batch.{FetchRequest}
use gputools_replay.Probes.Records.{InfoRecord, parse_records}
use gputools_replay.Probes.Envelope.{Reply, parse_reply}

-- The text with which a program stops: what it prints of the error.
pub data ProgramError : Type 0 where
  session : SessionError → ProgramError
  reply : ReplyError → ProgramError
  -- "streamRef {stream_ref} answered no record"
  no_record : (stream_ref : ℕ) → ProgramError
  message : String → ProgramError
  -- "playto target {rest:?} is not a u32" and "unknown mode {s:?}; expected \"playall\" or \"playto:N\""
  bad_target unknown_mode : List ℕ → ProgramError
  -- an error of the file system, as its text
  io : Text → ProgramError

-- How a program ends: with one of the two exit codes, or by a panic.
pub data Exit : Type 0 where
  success failure aborted : Exit

-- `Session::fetch_textures` of the program's session, in the state that the session then has.
abbrev pub Fetch : Type 0
Fetch = List FetchRequest → Outcome SessionError (List ℕ)

-- A request at natural size.
abbrev pub natural : ℕ → FetchRequest
natural stream_ref = record { stream_ref = stream_ref; width = 0; height = 0; plane = 0 }

-- `(0..=n)`
abbrev pub up_to : ℕ → List ℕ
up_to zero = 0 ∷ []
up_to (suc n) = up_to n ++ suc n ∷ []

-- `(0..=max_ref).map(..).collect()`
abbrev pub sweep_requests : ℕ → List FetchRequest
sweep_requests max_ref = map natural (up_to max_ref)

module _ {V D : Type 0} (p : Plist V D) where
  -- The fetch, the parsed reply and its records.
  unfoldable pub fetch_records :
      Fetch → List FetchRequest → Outcome ProgramError (Reply × List InfoRecord)
  fetch_records fetch requests = do
    bytes ← map_err session (fetch requests)
    parsed ← map_err reply (parse_reply p bytes)
    records ← map_err reply (parse_records parsed.info)
    ok (parsed, records)

-- The payload that a record names, `data.get(off..off + size)`: a sum of two `u32` does not wrap on `usize`.
abbrev pub payload_of : List ℕ → InfoRecord → Option (List ℕ)
payload_of blob r = slice blob r.data_offset (r.data_offset + r.size)
