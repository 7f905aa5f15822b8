-- ===== src/Examples/Sessions.antt =====
-- The theorems on sessions, at concrete inputs.
use gputools_replay.Prelude.{
  ℕ, ◌≤◌, ◌+◌, String, true, false, none, some, [], take, ok, ◌≡◌, ◌↔◌, refl,
}
use gputools_replay.Config.{ReplayerConfig, Environment, apply_env, wanted, apply_env-get}
use gputools_replay.Session.{
  World, Process, Session, fresh, open_session, prechecks, check_bundle_shape, check_entries,
  check_unlock_env, bootstrap, create_pool, create_service, load_capture, load_bundle,
}
use gputools_replay.Session.Observer.{notify_all, first_error_since}
use gputools_replay.Session.Open.{start, again, sequence, opened, Reach-once}
use gputools_replay.Session.Success.{Passes, Answers, open-ok_iff}
use gputools_replay.Session.Retry.{IsEarly, open-unchanged_iff}

-- Everything is there and the framework is content.
abbrev pub good_world : World
good_world = record {
  exists = true;
  is_file = λ name. true;
  display = "a.gputrace";
  to_str = some "a.gputrace";
  unlock_var = some "0";
  backing = 4096;
  apr_rc = 0;
  pool_rc = 0;
  pool_is_null = false;
  class_registered = true;
  service = some 8192;
  loaded = true;
  load_error = none;
  reports = λ c. [];
}

-- The bundle has no file of its required ones.
abbrev empty_bundle : World
empty_bundle = record good_world { is_file = λ name. false }

-- The variable is not set.
abbrev locked : World
locked = record good_world { unlock_var = none }

abbrev pub good_session : Session
good_session = record { client = 4096; service = 8192 }

abbrev once : Process
once = (open_session good_world fresh).0

abbrev twice : Process
twice = (open_session good_world once).0

-- Three calls in one process: one that is refused early, one that opens, and one more.
Reach-once_example :
    (0
        + opened (open_session empty_bundle fresh).1
        + opened (open_session good_world (open_session empty_bundle fresh).0).1
      ≤ 1)
    × (path : String) × (k : ℕ) × ((open_session good_world
          (open_session empty_bundle fresh).0).0.calls
        ≡ take k (sequence path))
Reach-once_example =
    Reach-once (open_session good_world (open_session empty_bundle fresh).0).0
      (0
        + opened (open_session empty_bundle fresh).1
        + opened (open_session good_world (open_session empty_bundle fresh).0).1)
      (again good_world (again empty_bundle start))

open-ok_iff_example : ((open_session good_world fresh).1 ≡ ok good_session) ↔ (
    (path : String) × Passes good_world path
    × (fresh.bootstrapped ≡ false)
    × Answers good_world path good_session)
open-ok_iff_example = open-ok_iff good_world fresh good_session

open-unchanged_iff_example :
    ((open_session locked fresh).0 ≡ fresh) ↔ IsEarly (open_session locked fresh).1
open-unchanged_iff_example = open-unchanged_iff locked fresh

abbrev forced : ReplayerConfig
forced = record {
  force_load_unused_resources = true;
  ignore_unused_resources = false;
  device_registry_id = some 7;
}

-- A stale export of one owned variable, and the unlock variable.
abbrev stale : Environment
stale name = some "0"

abbrev decimal : ℕ → String
decimal n = "7"

apply_env-get_example :
    apply_env decimal forced stale "MTLREPLAYER_IGNORE_UNUSED_RESOURCE"
    ≡ wanted decimal forced "MTLREPLAYER_IGNORE_UNUSED_RESOURCE"
        (stale "MTLREPLAYER_IGNORE_UNUSED_RESOURCE")
apply_env-get_example = apply_env-get decimal forced stale "MTLREPLAYER_IGNORE_UNUSED_RESOURCE"

cleared : apply_env decimal forced stale "MTLREPLAYER_IGNORE_UNUSED_RESOURCE" ≡ none
unfolding apply_env
cleared = refl

opened_once : (open_session good_world fresh).1 ≡ ok good_session
unfolding open_session prechecks check_bundle_shape check_entries check_unlock_env bootstrap
    create_pool create_service load_capture load_bundle first_error_since notify_all
opened_once = refl
