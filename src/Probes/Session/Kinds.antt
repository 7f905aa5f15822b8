-- ===== src/Probes/Session/Kinds.antt =====
-- The errors of `Session::open` of the probes in the words of the library, and processes that have done the same.
use gputools_replay.Prelude.{Option, none, some, List, length, Outcome, map_err, ◌≡◌}
use gputools_replay.Errors.{
  Text, literal, replayer, apr, bad_bundle, path_not_utf8, setup, unlock_env_not_zero,
}
use gputools_replay.Errors
use gputools_replay.Session
use gputools_replay.Session.{
  World, Process, Call, recorded, load, init_with_context, init_with_observer, client_init,
  controller_init, apr_pool_create_ex, apr_initialize,
}
use gputools_replay.Probes.{
  SessionError, apr_init, apr_pool, service_class_missing, service_init, load_failed,
  replayer_error, bad_path, already_open, empty_batch, fetch_class_missing, fetch_object_init,
  no_token, fetch_timed_out, no_response, fetch_failed, no_data, unlock_env, guard,
}
use gputools_replay.Probes.Guard.{as_session_error}

-- The error of the library that says the same as an error of `open`, without the text of a replayer error. The
-- others, of a fetch, are no matter.
abbrev pub as_open_error : SessionError → Errors.SessionError
as_open_error (apr_init code) = apr code
as_open_error (apr_pool code) = apr code
as_open_error service_class_missing = replayer (literal "")
as_open_error service_init = replayer (literal "")
as_open_error (load_failed bundle) = Errors.SessionError.load_failed bundle
as_open_error (replayer_error message) = replayer (literal "")
as_open_error (bad_path path) = bad_bundle (path_not_utf8 path)
as_open_error already_open = Errors.SessionError.already_open
as_open_error (unlock_env found) = Errors.SessionError.unlock_env (unlock_env_not_zero found)
as_open_error (guard e) = as_session_error e
as_open_error empty_batch = replayer (literal "")
as_open_error (fetch_class_missing name) = replayer (literal "")
as_open_error (fetch_object_init name) = replayer (literal "")
as_open_error no_token = replayer (literal "")
as_open_error (fetch_timed_out seconds) = replayer (literal "")
as_open_error no_response = replayer (literal "")
as_open_error (fetch_failed message) = replayer (literal "")
as_open_error no_data = replayer (literal "")

abbrev pub open_kind : Errors.SessionError → Errors.SessionError
open_kind (Errors.SessionError.replayer t) = replayer (literal "")
open_kind Errors.SessionError.already_open = Errors.SessionError.already_open
open_kind (Errors.SessionError.unlock_env t) = Errors.SessionError.unlock_env t
open_kind (Errors.SessionError.bad_bundle t) = bad_bundle t
open_kind (Errors.SessionError.apr n) = apr n
open_kind (Errors.SessionError.load_failed b) = Errors.SessionError.load_failed b

-- The observers have recorded as much.
abbrev pub SameHeard : Option (List Text) → Option (List Text) → Type 0
SameHeard none none = Unit
SameHeard (some xs) (some ys) = length xs ≡ length ys
SameHeard none (some ys) = ⊥
SameHeard (some xs) none = ⊥

abbrev pub SameProcess : Process → Process → Type 0
SameProcess p q =
    (p.bootstrapped ≡ q.bootstrapped) × (p.calls ≡ q.calls) × SameHeard p.observer q.observer

-- The processes have done the same, and the results are the same or errors of the same kind.
abbrev pub SameOpen :
    Process × Outcome Errors.SessionError Session.Session
    → Process × Outcome SessionError Session.Session
    → Type 0
SameOpen (p, l) (q, o) = SameProcess p q × (map_err open_kind l ≡ map_err as_open_error o)
