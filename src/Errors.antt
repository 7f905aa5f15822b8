-- ===== src/Errors.antt =====
-- The error types: crates/gputools-replay/src/error.rs and crates/gputools-replay-hl/src/error.rs.
-- A text that the code builds is a `Text`: a constructor for each format string, over the values it
-- prints, so that two texts are equal when the code prints the same values in the same format.
use gputools_replay.Prelude.{ℕ, String, List, Option}

pub data Text : Type 0 where
  -- a literal of the source
  literal : String → Text
  -- a text that is made at run time, as its characters
  chars : List ℕ → Text
  -- "info table {} not a multiple of stride {}"
  info_not_multiple : ℕ → ℕ → Text
  -- "record payload [{o}, {o}+{n}) exceeds the {}-byte data blob"
  payload_exceeds : ℕ → ℕ → ℕ → Text
  -- "the {} class is not registered; GPUToolsReplay did not load" and "{} could not be constructed"
  not_registered : String → Text
  not_constructed : String → Text
  -- "UID {idx} out of bounds"
  uid_out_of_bounds : ℕ → Text
  -- "no capture bundle at {}", "{} is not a capture bundle: it has no {entry} file" and
  -- "bundle path {} is not valid UTF-8"
  no_bundle : String → Text
  no_entry : String → String → Text
  path_not_utf8 : String → Text
  -- the display of `UnlockEnvError { found }`
  unlock_env_not_zero : Option String → Text
  -- "{key}[] entry not a dict" and "{key}.data missing"
  entry_not_dict : String → Text
  stage_data_missing : String → Text
  -- "PerformanceStatistics has {} entries; only the ground-truthed single-stage shape is supported"
  statistics_entries : ℕ → Text

pub data SessionError : Type 0 where
  already_open : SessionError
  unlock_env : Text → SessionError
  bad_bundle : Text → SessionError
  apr : ℕ → SessionError
  replayer : Text → SessionError
  load_failed : String → SessionError

pub data FetchError : Type 0 where
  empty_batch no_token timeout no_response no_data : FetchError
  replayer : Text → FetchError
  parse : Text → FetchError
  setup : Text → FetchError

pub data HarvesterError : Type 0 where
  bad_magic truncated : HarvesterError
  wrong_type : ℕ → HarvesterError

-- The error of the high-level crate.
pub data Error : Type 0 where
  session : SessionError → Error
  fetch : FetchError → Error
  format_mismatch : (requested actual : ℕ) → Error
  wrong_category : String → Error
  padded : (bytes_per_row row_len : ℕ) → Error
  unknown_format : ℕ → Error
  misaligned : (align : ℕ) → Error
  truncated : Error
  bad_pipeline : Text → Error
