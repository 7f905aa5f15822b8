-- ===== src/Probes/Waiting.antt =====
-- probes/src/session.rs: the completion block, which writes to the slot itself, and `wait_for`. As in the
-- library's model, a list of events is an interleaving of what the framework's threads do.
pub mod Says
pub mod Agree
pub mod Loop
use gputools_replay.Prelude.{
  ℕ, zero, suc, ◌+◌, ◌/◌, ◌^◌, Bool, true, false, Option, none, some, List, [], ◌∷◌, ◌++◌,
  get_elem?, Outcome, ok, err, leb, if◌then◌else◌, ◌&&◌,
}
use gputools_replay.Errors.{Text, chars}
use gputools_replay.Session.Observer.{Notified}
use gputools_replay.Fetch.Waiting.{Response, null, response, remove}
use gputools_replay.Probes.{SessionError, no_response, no_data, fetch_failed, fetch_timed_out}
use gputools_replay.Probes.Observer.{truncate, notify_error}

abbrev pub Result : Type 0
Result = Outcome SessionError (List ℕ)

-- `read_response`, whose response answers the selectors `-data` and `-error` or does not
unfoldable pub read_response : Response → Result
read_response null = err no_response
read_response (response responds_data responds_error error content) =
    if responds_data && responds_error
    then elim error [
      | some description ↦ err (fetch_failed (chars (truncate description)))
      | none ↦ elim content [ some bytes ↦ ok bytes | none ↦ err no_data ]
    ]
    else err no_response

pub record Wait : Type 0 where
  -- what the session's observer has recorded
  pub errors : List Text
  -- the results of block invocations that have not locked the slot yet
  pub pending : List Result
  pub slot : Option Result

pub data Event : Type 0 where
  -- the framework calls `-notifyError:`
  notify : Notified → Event
  -- an invocation of the block reads its response
  respond : Response → Event
  -- the pending invocation at that place locks the slot
  store : ℕ → Event

abbrev pub dispatched : List Text → Wait
dispatched errors = record { errors = errors; pending = []; slot = none }

-- `if slot.is_none() { *slot = Some(result) }`
abbrev pub fill : Result → Option Result → Option Result
fill result none = some result
fill result (some first) = some first

abbrev pub stored : ℕ → Option Result → Wait → Wait
stored i none w = w
stored i (some result) w = record w { pending = remove w.pending i; slot = fill result w.slot }

-- `timeout.as_secs()`, for a timeout in nanoseconds
abbrev pub as_secs : ℕ → ℕ
as_secs timeout = timeout / 10 ^ 9

-- One turn of `wait_for`: the slot is checked before the deadline.
abbrev pub check_slot :
    ℕ → Option Result → Bool → Wait → Option (Wait × Result) → Option (Wait × Result)
check_slot timeout (some result) late now rest = some (record now { slot = none }, result)
check_slot timeout none true now rest = some (now, err (fetch_timed_out (as_secs timeout)))
check_slot timeout none false now rest = rest

module _ (description : Notified → Option (List ℕ)) where
  unfoldable pub apply : Event → Wait → Wait
  apply (notify e) w = record w { errors = notify_error description e w.errors }
  apply (respond r) w = record w { pending = w.pending ++ (read_response r ∷ []) }
  apply (store i) w = stored i (get_elem? w.pending i) w

  unfoldable pub run : List Event → Wait → Wait
  run [] w = w
  run (e ∷ es) w = run es (apply e w)

  module _ (turns : ℕ → List Event) (clock : ℕ → ℕ) (start timeout : ℕ) where
    -- `wait_for`: the wait and the result, or nothing when the fuel is spent. What happens before the check
    -- of turn `n` is `turns n`, and `clock n` is the time that it then reads.
    unfoldable pub wait_for : ℕ → ℕ → Wait → Option (Wait × Result)
    wait_for zero n w = none
    wait_for (suc fuel) n w =
        let now = run (turns n) w in
        let rest = wait_for fuel (suc n) now in
        check_slot timeout now.slot (leb (start + timeout) (clock n)) now rest
