-- ===== src/Probes/Fetch.antt =====
-- probes/src/session.rs: `fetch_textures`, `fetch_raw` and `fetch_wireframe`, which give the bytes of the
-- reply. A fetch starts from what the observer has recorded, and gives with its result what the observer
-- has recorded at its end.
pub mod Kinds
pub mod Agree
use gputools_replay.Prelude.{
  ℕ, String, Bool, true, false, Option, none, some, List, [], ◌∷◌, Outcome, ok, err, panic,
}
use gputools_replay.Errors.{Text}
use gputools_replay.Session.Observer.{Notified}
use gputools_replay.Fetch.Batch.{Runtime}
use gputools_replay.Probes.{SessionError, empty_batch, no_token, replayer_error}
use gputools_replay.Probes.Observer.{notify_all, error_count, first_error_since}
use gputools_replay.Probes.Batch.{
  FetchRequest, Object, build_batch, build_raw_batch, build_wireframe_batch,
}
use gputools_replay.Probes.Waiting.{Event, Wait, Result, dispatched, run, wait_for}

-- What the framework and its threads do during one fetch.
pub record Schedule : Type 0 where
  -- the reports between the mark of the fetch and the return of `-fetch:`
  pub between : List Notified
  -- whether `-fetch:` returns a token
  pub token : Bool
  -- the time when the wait starts
  pub start : ℕ
  -- the events before the check of each turn, and the time that the turn reads
  pub turns : ℕ → List Event
  pub clock : ℕ → ℕ
  -- the events between the end of the wait and the check of the observer
  pub late : List Event

-- The check of the observer, for whether `PROBE_TOLERATE_REPLAYER_ERRORS` is 1.
abbrev pub finish_fetch : Bool → Option Text → Result → Result
finish_fetch true o result = result
finish_fetch false (some message) result = err (replayer_error message)
finish_fetch false none result = result

module _ (description : Notified → Option (List ℕ)) (tolerate : Bool) (s : Schedule)
    (timeout fuel : ℕ) where
  -- From the end of the wait on.
  abbrev pub after_wait : ℕ → Option (Wait × Result) → Option (List Text × Result)
  after_wait mark none = none
  after_wait mark (some (ended, result)) =
      let last = run description s.late ended in
      some (last.errors, finish_fetch tolerate (first_error_since mark last.errors) result)

  -- From the token on, for the mark of the fetch.
  unfoldable pub await_reply : ℕ → List Text → Bool → Option (List Text × Result)
  await_reply mark heard false = some (heard, err no_token)
  await_reply mark heard true =
      after_wait mark
        (wait_for description s.turns s.clock s.start timeout fuel 0 (dispatched heard))

  -- The part that the three fetches of the source have in common: from the built batch on.
  unfoldable pub dispatch :
      Outcome SessionError (List Object) → List Text → Option (List Text × Result)
  dispatch (ok batch) errors =
      await_reply (error_count errors) (notify_all description s.between errors) s.token
  dispatch (err e) errors = some (errors, err e)
  dispatch panic errors = some (errors, panic)

  module _ (rt : Runtime) where
    -- `Session::fetch_textures`
    unfoldable pub fetch_textures : List FetchRequest → List Text → Option (List Text × Result)
    fetch_textures [] errors = some (errors, err empty_batch)
    fetch_textures (q ∷ qs) errors = dispatch (build_batch rt (q ∷ qs)) errors

    -- `Session::fetch_raw`
    unfoldable pub fetch_raw :
        (responds : String → Bool) (class : String)
        → List ℕ
        → List Text
        → Option (List Text × Result)
    fetch_raw responds class [] errors = some (errors, err empty_batch)
    fetch_raw responds class (q ∷ qs) errors =
        dispatch (build_raw_batch rt responds class (q ∷ qs)) errors

    -- `Session::fetch_wireframe`, which sends an empty batch too
    unfoldable pub fetch_wireframe : List ℕ → List Text → Option (List Text × Result)
    fetch_wireframe uids errors = dispatch (build_wireframe_batch rt uids) errors
