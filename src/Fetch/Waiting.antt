-- ===== src/Fetch/Waiting.antt =====
-- crates/gputools-replay/src/fetch.rs: the completion handler, the slot that it fills and the wait for
-- it. The framework's threads act between the checks of the waiting thread. What they do under one
-- lock is one `Event`, so that the lists of events are the interleavings. The responses, the events of
-- each turn of the run loop and the clock are arguments.
pub mod Once
pub mod Pump
pub mod Source
use gputools_replay.Prelude.{
  ℕ, zero, suc, ◌+◌, Bool, true, false, Option, none, some, List, [], ◌∷◌, ◌++◌, get_elem?, Outcome,
  ok, err, panic, leb, if◌then◌else◌, ◌&&◌,
}
use gputools_replay.Errors.{
  Text, FetchError, no_response, no_data, timeout, no_token, replayer, chars,
}
use gputools_replay.Util.{truncate}
use gputools_replay.Plist.{Plist}
use gputools_replay.Reply.{RawReply}
use gputools_replay.Reply.Envelope.{parse_reply}
use gputools_replay.Session.Observer.{Notified, notify_error, first_error_since}

-- The argument of the completion block: null, or an object that answers `-data` and `-error` or does
-- not, with the description of its error and with its data.
pub data Response : Type 0 where
  null : Response
  response : (responds_data responds_error : Bool) → Option (List ℕ) → Option (List ℕ) → Response

abbrev pub Result : Type 0
Result = Outcome FetchError RawReply

pub record Wait : Type 0 where
  -- what the session's observer has recorded
  pub errors : List Text
  -- the results of block invocations that have not reached the handler yet
  pub pending : List Result
  -- whether the handler is still there to be taken
  pub handler : Bool
  -- the result of the handler's call that has not locked the slot yet
  pub storing : Option Result
  -- the slot
  pub slot : Option Result

pub data Event : Type 0 where
  -- the framework calls `-notifyError:`
  notify : Notified → Event
  -- an invocation of the block reads its response and asks the observer
  respond : Response → Event
  -- the pending invocation at that place locks the handler
  take_handler : ℕ → Event
  -- the handler locks the slot
  store : Event

-- The wait of a fetch that has just been dispatched.
abbrev pub dispatched : List Text → Wait
dispatched errors = record {
  errors = errors;
  pending = [];
  handler = true;
  storing = none;
  slot = none;
}

abbrev pub remove {ℓ} : {A : Type ℓ} → List A → ℕ → List A
remove [] i = []
remove (x ∷ xs) zero = xs
remove (x ∷ xs) (suc i) = x ∷ remove xs i

-- `checker(mark)`: the observer overrides a reply, never a failure.
abbrev pub override : Option Text → Result → Result
override (some message) (ok reply) = err (replayer message)
override none (ok reply) = ok reply
override o (err e) = err e
override o panic = panic

-- `store_into`: a slot that is filled stays.
abbrev pub fill : Result → Option Result → Option Result
fill result none = some result
fill result (some first) = some first

-- `handler.take()`, for the pending result.
abbrev pub taken : ℕ → Option Result → Bool → Wait → Wait
taken i none handler w = w
taken i (some result) true w = record w {
  pending = remove w.pending i;
  handler = false;
  storing = some result;
}
taken i (some result) false w = record w { pending = remove w.pending i }

abbrev pub stored : Option Result → Wait → Wait
stored none w = w
stored (some result) w = record w { storing = none; slot = fill result w.slot }

-- One turn of `pump_until`: the slot is checked before the deadline.
abbrev pub check_slot :
    Option Result → Bool → Wait → Option (Wait × Result) → Option (Wait × Result)
check_slot (some result) late now rest = some (record now { slot = none }, result)
check_slot none true now rest = some (now, err timeout)
check_slot none false now rest = rest

module _ {V D : Type 0} (p : Plist V D) where
  -- `read_response`
  unfoldable pub read_response : Response → Result
  read_response null = err no_response
  read_response (response responds_data responds_error error content) =
      if responds_data && responds_error
      then elim error [
        | some description ↦ err (replayer (chars (truncate description)))
        | none ↦ elim content [ some bytes ↦ parse_reply p bytes | none ↦ err no_data ]
      ]
      else err no_response

  module _ (mark : ℕ) where
    -- The result of an invocation of the block, when it asks the observer.
    abbrev pub block_result : List Text → Response → Result
    block_result errors r = override (first_error_since mark errors) (read_response r)

    unfoldable pub apply : Event → Wait → Wait
    apply (notify e) w = record w { errors = notify_error e w.errors }
    apply (respond r) w = record w { pending = w.pending ++ (block_result w.errors r ∷ []) }
    apply (take_handler i) w = taken i (get_elem? w.pending i) w.handler w
    apply store w = stored w.storing w

    unfoldable pub run : List Event → Wait → Wait
    run [] w = w
    run (e ∷ es) w = run es (apply e w)

    module _ (turns : ℕ → List Event) (clock : ℕ → ℕ) (deadline : ℕ) where
      -- `pump_until`: the wait and the result, or nothing when the fuel is spent. What happens before
      -- the check of turn `n` is `turns n`, and `clock n` is the time that it then reads.
      unfoldable pub pump_until : ℕ → ℕ → Wait → Option (Wait × Result)
      pump_until zero n w = none
      pump_until (suc fuel) n w =
          let now = run (turns n) w in
          let rest = pump_until fuel (suc n) now in
          check_slot now.slot (leb deadline (clock n)) now rest
