-- ===== src/Probes/Observer.antt =====
-- probes/src/session.rs: `ErrorObserver`, whose state is the list of the texts that it has recorded. It
-- asks an error for its `-description`, which is an answer of the framework.
use gputools_replay.Prelude.{
  ℕ, ◌+◌, ◌<◌, ◌≤◌, Option, none, some, List, [], ◌∷◌, ◌++◌, get_elem?, take, drop, length,
  length-append, length-drop, ltb, if◌then◌else◌, Bool-cases, arith, ◌≡◌, inl, inr, refl,
}
use gputools_replay.Errors.{Text, literal, chars}
use gputools_replay.Util.{limit, truncated_mark}
use gputools_replay.Session.Observer.{Notified, nil, foreign, ns_error, ns_object}
use gputools_replay.Session.Observer

-- `truncate`, on the characters of its text.
unfoldable pub truncate : List ℕ → List ℕ
truncate s = elim (get_elem? s limit) [ none ↦ s | some _ ↦ take limit s ++ truncated_mark ]

-- The message of an object, for its description.
abbrev pub object_message : Option (List ℕ) → Text
object_message none = literal "(no description)"
object_message (some d) = chars (truncate d)

-- `ErrorObserver::record`
abbrev pub record_error : Text → List Text → List Text
record_error message errors = errors ++ (message ∷ [])

-- `ErrorObserver::error_count`
abbrev pub error_count : List Text → ℕ
error_count errors = length errors

abbrev pub first : List Text → Option Text
first [] = none
first (e ∷ es) = some e

-- `ErrorObserver::first_error_since`
unfoldable pub first_error_since : ℕ → List Text → Option Text
first_error_since mark errors = if ltb (length errors) mark then none else first (drop mark errors)

-- `ErrorObserver::first_error`
abbrev pub first_error : List Text → Option Text
first_error errors = first_error_since 0 errors

module _ (description : Notified → Option (List ℕ)) where
  abbrev pub message_of : Notified → Text
  message_of nil = literal "(nil)"
  message_of foreign = object_message (description foreign)
  message_of (ns_error d) = object_message (description (ns_error d))
  message_of (ns_object d) = object_message (description (ns_object d))

  -- `notify_error`
  abbrev pub notify_error : Notified → List Text → List Text
  notify_error error errors = record_error (message_of error) errors

  -- Several reports, in order.
  unfoldable pub notify_all : List Notified → List Text → List Text
  notify_all [] errors = errors
  notify_all (e ∷ es) errors = notify_all es (notify_error e errors)

  pub length-notify_all :
      (es : List Notified) (errors : List Text)
      → length (notify_all es errors) ≡ length es + length errors
  unfolding notify_all
  length-notify_all [] errors = omega arith
  length-notify_all (e ∷ es) errors = omega (
    arith,
    length-notify_all es (notify_error e errors),
    length-append errors (message_of e ∷ []),
  )

pub length-notify_all_library :
    (es : List Notified) (errors : List Text)
    → length (Observer.notify_all es errors) ≡ length es + length errors
unfolding Observer.notify_all
length-notify_all_library [] errors = omega arith
length-notify_all_library (e ∷ es) errors = omega (
  arith,
  length-notify_all_library es (Observer.notify_error e errors),
  length-append errors (Observer.message_of e ∷ []),
)

-- Something was recorded after the mark.
pub data Heard (mark : ℕ) (errors : List Text) : Option Text → Type 0 where
  silent : length errors ≤ mark → Heard mark errors none
  heard : (t : Text) → mark < length errors → Heard mark errors (some t)

first-Heard :
    (mark : ℕ) (errors rest : List Text)
    → length rest + mark ≡ length errors
    → Heard mark errors (first rest)
first-Heard mark errors [] h = silent (omega arith)
first-Heard mark errors (e ∷ es) h = heard e (omega arith)

pub first_error_since-Heard :
    (mark : ℕ) (errors : List Text) → Heard mark errors (first_error_since mark errors)
unfolding first_error_since
first_error_since-Heard mark errors = elim (Bool-cases (ltb (length errors) mark)) [
  | inl t ↦ rw t (silent (ground arith))
  | inr t ↦
      rw t (first-Heard mark errors (drop mark errors) (ground (arith, length-drop mark errors)))
]

pub first_error_since-library :
    (mark : ℕ) (errors : List Text)
    → Observer.first_error_since mark errors ≡ first_error_since mark errors
unfolding Observer.first_error_since first_error_since
first_error_since-library mark errors = elim (Bool-cases (ltb (length errors) mark)) [
  | inl t ↦ rw t refl
  | inr t ↦ rw t (firsts (drop mark errors))
]
  where
    firsts : (xs : List Text) → Observer.first xs ≡ first xs
    firsts [] = refl
    firsts (x ∷ xs) = refl
