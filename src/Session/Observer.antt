-- ===== src/Session/Observer.antt =====
-- crates/gputools-replay/src/session.rs: `ErrorObserver`, whose state is the list of the texts that
-- it has recorded. Its lock makes each operation one step.
use gputools_replay.Prelude.{
  ℕ, Option, none, some, List, [], ◌∷◌, ◌++◌, if◌then◌else◌, ltb, length, drop,
}
use gputools_replay.Errors.{Text, literal, chars}
use gputools_replay.Util.{truncate}

-- What the framework passes to `-notifyError:`: nil, an `NSError` with its localized description,
-- another `NSObject` with its description, or an object of another root class.
pub data Notified : Type 0 where
  nil foreign : Notified
  ns_error ns_object : List ℕ → Notified

-- The text that `notify_error` records.
abbrev pub message_of : Notified → Text
message_of nil = literal "(nil)"
message_of foreign = literal "(no description)"
message_of (ns_error description) = chars (truncate description)
message_of (ns_object description) = chars (truncate description)

-- `ErrorObserver::record`
abbrev pub record_error : Text → List Text → List Text
record_error message errors = errors ++ (message ∷ [])

-- `notify_error`
abbrev pub notify_error : Notified → List Text → List Text
notify_error error errors = record_error (message_of error) errors

-- Several reports, in order.
unfoldable pub notify_all : List Notified → List Text → List Text
notify_all [] errors = errors
notify_all (e ∷ es) errors = notify_all es (notify_error e errors)

-- `ErrorObserver::error_count`
abbrev pub error_count : List Text → ℕ
error_count errors = length errors

-- `slice.first()`
abbrev pub first : List Text → Option Text
first [] = none
first (e ∷ es) = some e

-- `ErrorObserver::first_error_since`, where `get(mark..)` is nothing past the end.
unfoldable pub first_error_since : ℕ → List Text → Option Text
first_error_since mark errors = if ltb (length errors) mark then none else first (drop mark errors)

-- `ErrorObserver::first_error`
abbrev pub first_error : List Text → Option Text
first_error errors = first_error_since 0 errors
