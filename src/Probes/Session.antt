-- ===== src/Probes/Session.antt =====
-- probes/src/session.rs: `Session::open` and `load_bundle`. The process and the answers of the framework
-- are those of the library's `Session::open`. Two more answers are arguments: what `-description` gives
-- for a reported error, and whether `PROBE_TOLERATE_REPLAYER_ERRORS` is 1.
pub mod Kinds
pub mod Agree
pub mod Tolerant
use gputools_replay.Prelude.{
  ℕ, String, Bool, true, false, Option, none, some, List, [], ◌∷◌, ◌++◌, Outcome, ok, err, panic,
  ◌>>=◌, ok_or, map_err, if◌then◌else◌, ◌==◌, not, ◌||◌,
}
use text.Mathlib.Text.{◌==◌ as str_eq}
use gputools_replay.Errors.{Text, chars}
use gputools_replay.Session.{
  Call, apr_initialize, apr_pool_create_ex, controller_init, client_init, init_with_observer,
  init_with_context, load, World, Process, Session, recorded,
}
use gputools_replay.Session.Observer.{Notified}
use gputools_replay.Probes.{
  SessionError, apr_init, apr_pool, service_class_missing, service_init, load_failed,
  replayer_error, bad_path, already_open, unlock_env, guard,
}
use gputools_replay.Probes.Guard.{check_bundle_shape}
use gputools_replay.Probes.Observer.{truncate, notify_all, first_error}

-- `unlock_env_ok`, with the error of the probes
unfoldable pub unlock_env_ok : Option String → Outcome SessionError (Unit {0})
unlock_env_ok none = err (unlock_env none)
unlock_env_ok (some found) = if str_eq found "0" then ok tt else err (unlock_env (some found))

module _ (description : Notified → Option (List ℕ)) (tolerate : Bool) (w : World) where
  -- A report without an observer is lost.
  abbrev pub deliver : List Notified → Option (List Text) → Option (List Text)
  deliver reports none = none
  deliver reports (some errors) = some (notify_all description reports errors)

  -- A call into the framework, and what it reports to the observer meanwhile.
  abbrev pub call : Call → Process → Process
  call c p = record p { calls = p.calls ++ (c ∷ []); observer = deliver (w.reports c) p.observer }

  -- The part of `open` before the one-shot guard.
  unfoldable pub prechecks : Outcome SessionError String
  prechecks = do
    _ ← map_err guard (check_bundle_shape w)
    path ← ok_or (bad_path w.display) w.to_str
    _ ← unlock_env_ok w.unlock_var
    ok path

  -- `load_bundle`
  abbrev pub load_bundle : Outcome SessionError Bool
  load_bundle = elim w.load_error [
    | some e ↦ if tolerate then ok w.loaded else err (replayer_error (chars (truncate e)))
    | none ↦ ok w.loaded
  ]

  -- The answer of `load:`.
  abbrev pub finish_open : String → ℕ → Bool → Outcome SessionError Session
  finish_open path service false = err (load_failed path)
  finish_open path service true = ok (record { client = w.backing; service = service })

  -- What `open` returns after the load, from the first recorded error and the answer of `load:`.
  abbrev pub settle : String → ℕ → Option Text → Bool → Outcome SessionError Session
  settle path service (some message) loaded =
      if tolerate then finish_open path service loaded else err (replayer_error message)
  settle path service none loaded = finish_open path service loaded

  -- From `load_bundle(service, path)?` to the end.
  unfoldable pub load_capture : String → ℕ → Process → Process × Outcome SessionError Session
  load_capture path service p =
      let q = call (load path) p in
      (q, (do loaded ← load_bundle; settle path service (first_error (recorded q)) loaded))

  -- From the class guard to the service.
  unfoldable pub create_service : String → Process → Process × Outcome SessionError Session
  create_service path p =
      if w.class_registered
      then elim w.service [
        | none ↦ (call init_with_context p, err service_init)
        | some service ↦ load_capture path service (call init_with_context p)
      ]
      else (p, err service_class_missing)

  -- A new observer, registered.
  abbrev pub register_observer : Process → Process
  register_observer p = call init_with_observer (record p { observer = some [] })

  -- From `apr_pool_create_ex` on.
  unfoldable pub create_pool : String → Process → Process × Outcome SessionError Session
  create_pool path p =
      let q = call apr_pool_create_ex p in
      if not (w.pool_rc == 0) || w.pool_is_null
      then (q, err (apr_pool w.pool_rc))
      else create_service path (register_observer (call client_init (call controller_init q)))

  -- What follows the one-shot guard.
  unfoldable pub bootstrap : String → Process → Process × Outcome SessionError Session
  bootstrap path p =
      let q = call apr_initialize p in
      if w.apr_rc == 0 then create_pool path q else (q, err (apr_init w.apr_rc))

  -- The one-shot guard, for the outcome of what stands before it.
  abbrev pub guarded :
      Outcome SessionError String → Process → Process × Outcome SessionError Session
  guarded (err e) p = (p, err e)
  guarded panic p = (p, panic)
  guarded (ok path) p =
      if p.bootstrapped
      then (p, err already_open)
      else bootstrap path (record p { bootstrapped = true })

  -- `Session::open`
  unfoldable pub open_session : Process → Process × Outcome SessionError Session
  open_session p = guarded prechecks p
