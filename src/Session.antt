-- ===== src/Session.antt =====
-- crates/gputools-replay/src/session.rs: `Session::open`. The state is the process: the one-shot flag,
-- the calls made into the framework, and what the registered observer has recorded. What the file
-- system, the environment and the framework answer is the record `World` of one call of `open`.
-- crates/gputools-replay-sys/src/env.rs: the check of the environment.
pub mod Observer
pub mod Open
pub mod Success
pub mod Retry
pub mod Objects
use text.Mathlib.Text.{◌==◌ as str_eq}
use gputools_replay.Prelude.{
  ℕ, String, Bool, true, false, Option, none, some, List, [], ◌∷◌, ◌++◌, Outcome, ok, err, panic,
  ◌>>=◌, ◌>>◌, ok_or, if◌then◌else◌, ◌==◌, not, ◌&&◌,
}
use gputools_replay.Errors.{
  SessionError, already_open, unlock_env, bad_bundle, apr, replayer, load_failed, Text, literal,
  chars, no_bundle, no_entry, path_not_utf8, unlock_env_not_zero,
}
use gputools_replay.Util.{truncate}
use gputools_replay.Session.Observer.{Notified, notify_all, first_error}

-- The calls into the framework, in the order of the source.
pub data Call : Type 0 where
  apr_initialize apr_pool_create_ex controller_init client_init : Call
  init_with_observer init_with_context : Call
  load : String → Call

pub record World : Type 0 where
  -- `bundle.exists()`, `bundle.join(entry).is_file()`, `bundle.display()` and `bundle.to_str()`
  pub exists : Bool
  pub is_file : String → Bool
  pub display : String
  pub to_str : Option String
  -- `std::env::var_os(UNLOCK_ENV)`, as text
  pub unlock_var : Option String
  -- the address of the new `ClientBuffer`
  pub backing : ℕ
  -- the status codes of the two APR calls, as their 32 bits, and whether the pool is null
  pub apr_rc : ℕ
  pub pool_rc : ℕ
  pub pool_is_null : Bool
  -- `AnyClass::get` of the service, and what `-initWithContext:` returns
  pub class_registered : Bool
  pub service : Option ℕ
  -- what `-load:error:` returns and the description of the error it stores
  pub loaded : Bool
  pub load_error : Option (List ℕ)
  -- what the framework reports during a call
  pub reports : Call → List Notified

pub record Process : Type 0 where
  -- `BOOTSTRAPPED`
  pub bootstrapped : Bool
  pub calls : List Call
  -- the observer that the framework holds
  pub observer : Option (List Text)

-- The field `observer` of a session is the one that the process holds.
pub record Session : Type 0 where
  pub client : ℕ
  pub service : ℕ

-- A process that has called nothing yet.
abbrev pub fresh : Process
fresh = record { bootstrapped = false; calls = []; observer = none }

-- `REQUIRED_ENTRIES`
abbrev pub required_entries : List String
required_entries = "index" ∷ "metadata" ∷ []

-- `check_unlock_env`, whose error is read as its text
unfoldable pub check_unlock_env : Option String → Outcome SessionError (Unit {0})
check_unlock_env none = err (unlock_env (unlock_env_not_zero none))
check_unlock_env (some found) =
    if str_eq found "0" then ok tt else err (unlock_env (unlock_env_not_zero (some found)))

-- A report without an observer is lost.
abbrev pub deliver : List Notified → Option (List Text) → Option (List Text)
deliver reports none = none
deliver reports (some errors) = some (notify_all reports errors)

-- What the observer of `open` has recorded.
abbrev pub recorded : Process → List Text
recorded p = elim p.observer [ none ↦ [] | some errors ↦ errors ]

module _ (w : World) where
  unfoldable pub check_entries : List String → Outcome SessionError (Unit {0})
  check_entries [] = ok tt
  check_entries (entry ∷ entries) =
      let rest = check_entries entries in
      if w.is_file entry then rest else err (bad_bundle (no_entry w.display entry))

  -- `check_bundle_shape`
  unfoldable pub check_bundle_shape : Outcome SessionError (Unit {0})
  check_bundle_shape =
      if w.exists then check_entries required_entries else err (bad_bundle (no_bundle w.display))

  -- The part of `open` before the one-shot guard.
  unfoldable pub prechecks : Outcome SessionError String
  prechecks = do
    _ ← check_bundle_shape
    path ← ok_or (bad_bundle (path_not_utf8 w.display)) w.to_str
    _ ← check_unlock_env w.unlock_var
    ok path

  -- A call into the framework, and what it reports to the observer meanwhile.
  abbrev pub call : Call → Process → Process
  call c p = record p { calls = p.calls ++ (c ∷ []); observer = deliver (w.reports c) p.observer }

  -- `load_bundle`
  unfoldable pub load_bundle : Outcome SessionError Bool
  load_bundle = elim w.load_error [
    | some e ↦ err (replayer (chars (truncate e)))
    | none ↦ ok w.loaded
  ]

  -- What `open` returns after the load, from the first recorded error and the answer of `load:`.
  abbrev pub settle : String → ℕ → Option Text → Bool → Outcome SessionError Session
  settle path service (some message) loaded = err (replayer message)
  settle path service none false = err (load_failed path)
  settle path service none true = ok (record { client = w.backing; service = service })

  -- From `load_bundle(service, path)?` to the end.
  unfoldable pub load_capture : String → ℕ → Process → Process × Outcome SessionError Session
  load_capture path service p =
      let q = call (load path) p in
      (q, (do loaded ← load_bundle; settle path service (first_error (recorded q)) loaded))

  -- From the class guard to the service.
  unfoldable pub create_service : String → Process → Process × Outcome SessionError Session
  create_service path p =
      if w.class_registered
      then elim w.service [
        | none ↦ (
          call init_with_context p,
          err (replayer (literal "GTMTLReplayService could not be constructed")),
        )
        | some service ↦ load_capture path service (call init_with_context p)
      ]
      else (
        p,
        err (
            replayer (
              literal
                "the GTMTLReplayService class is not registered; GPUToolsReplay did not load")),
      )

  -- A new observer, registered.
  abbrev pub register_observer : Process → Process
  register_observer p = call init_with_observer (record p { observer = some [] })

  -- From `apr_pool_create_ex` on.
  unfoldable pub create_pool : String → Process → Process × Outcome SessionError Session
  create_pool path p =
      let q = call apr_pool_create_ex p in
      if (w.pool_rc == 0) && not w.pool_is_null
      then create_service path (register_observer (call client_init (call controller_init q)))
      else (q, err (apr w.pool_rc))

  -- What follows the one-shot guard.
  unfoldable pub bootstrap : String → Process → Process × Outcome SessionError Session
  bootstrap path p =
      let q = call apr_initialize p in
      if w.apr_rc == 0 then create_pool path q else (q, err (apr w.apr_rc))

  -- The one-shot guard, for the outcome of what stands before it.
  abbrev pub guarded :
      Outcome SessionError String → Process → Process × Outcome SessionError Session
  guarded (err e) p = (p, err e)
  guarded panic p = (p, panic)
  guarded (ok path) p =
      if p.bootstrapped
      then (p, err already_open)
      else bootstrap path (record p { bootstrapped = true })

  -- `Session::open`
  unfoldable pub open_session : Process → Process × Outcome SessionError Session
  open_session p = guarded prechecks p
