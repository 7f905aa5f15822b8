-- ===== src/Probes.antt =====
-- probes: the library half of the crate that tries out the private framework before the replay crates
-- rely on it. This file has its error types, of src/guard.rs, src/session.rs and src/reply.rs. The
-- children model the guard, the session, the fetches, the two halves of the reply parser and four programs.
pub mod Guard
pub mod Records
pub mod Envelope
pub mod Observer
pub mod Batch
pub mod Waiting
pub mod Fetch
pub mod Session
pub mod Programs
use gputools_replay.Prelude.{ℕ, String, Option}
use gputools_replay.Errors.{Text}

pub data GuardError : Type 0 where
  missing_bundle : String → GuardError
  not_a_capture_bundle : (path missing : String) → GuardError

pub data SessionError : Type 0 where
  apr_init apr_pool : ℕ → SessionError
  service_class_missing service_init : SessionError
  load_failed : String → SessionError
  replayer_error : Text → SessionError
  bad_path : String → SessionError
  already_open empty_batch : SessionError
  fetch_class_missing fetch_object_init : String → SessionError
  no_token : SessionError
  fetch_timed_out : (seconds : ℕ) → SessionError
  no_response : SessionError
  fetch_failed : Text → SessionError
  no_data : SessionError
  -- an `UnlockEnvError`, by its field `found`
  unlock_env : Option String → SessionError
  guard : GuardError → SessionError

pub data ReplyError : Type 0 where
  -- a `plist::Error`, read as its text
  plist : Text → ReplyError
  unexpected_shape : Text → ReplyError
  trailing_bytes : (len stride : ℕ) → ReplyError
  short_record : (offset : ℕ) → ReplyError
