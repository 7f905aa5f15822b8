-- ===== src/Fetch/Awaits.antt =====
-- The end of a wait from a dispatched fetch: what the observer has heard by then, and where the result
-- comes from.
use mathlib.Core.List.{append-nil, append_assoc}
use gputools_replay.Prelude.{
  ℕ, ◌+◌, false, Option, none, some, List, [], ◌∷◌, ◌++◌, drop, length, length-append, Outcome, err,
  ltb, ◌≡◌, ◌⊎◌, inl, inr, refl, sym, ap, ◌∙◌, arith,
}
use gputools_replay.Errors.{Text, FetchError}
use gputools_replay.Plist.{Plist}
use gputools_replay.Reply.{RawReply, Record, Reply}
use gputools_replay.Session.Observer.{
  Notified, notify_error, notify_all, message_of, first, first_error_since,
}
use gputools_replay.Fetch.{Schedule, finish_fetch, after_wait, await_reply}
use gputools_replay.Fetch.Waiting.{Wait, Result, dispatched, run, pump_until}
use gputools_replay.Fetch.Waiting.Pump.{wait_at, pump_sound}
use gputools_replay.Fetch.Waiting.Source.{
  Answered, Backed, Sourced, wait_at-Sourced, wait_at-errors, run-errors,
}

drop-length_append : {A : Type 0} (xs ys : List A) → drop (length xs) (xs ++ ys) ≡ ys
drop-length_append [] ys = refl
drop-length_append (x ∷ xs) ys = drop-length_append xs ys

pub first_error_since-append :
    (errors more : List Text) → first_error_since (length errors) (errors ++ more) ≡ first more
unfolding first_error_since
first_error_since-append errors more =
    let long : ltb (length (errors ++ more)) (length errors) ≡ false =
      ground (arith, length-append errors more) in
    rw (long, drop-length_append errors more) refl

pub notify_all-append :
    (es : List Notified) (errors : List Text)
    → (more : List Text) × (notify_all es errors ≡ errors ++ more)
unfolding notify_all
notify_all-append [] errors = ([], sym (append-nil errors))
notify_all-append (e ∷ es) errors =
    let (more, h) = notify_all-append es (notify_error e errors) in
    (message_of e ∷ more, h ∙ append_assoc errors (message_of e ∷ []) more)

-- A result that a wait from a dispatched fetch ends with was answered in one of the turns.
ended-Backed :
    (A : RawReply → Type 0) (deadline_past : Type 0) (now ended : Wait) (result : Result)
    → Sourced A now
    → ((now.slot ≡ some result) × (ended ≡ record now { slot = none }))
      ⊎ ((now.slot ≡ none) × deadline_past × (ended ≡ now) × (result ≡ err FetchError.timeout))
    → Backed A result
ended-Backed A d now ended result s (inl (f, e)) = s.2 result f
ended-Backed A d now ended result s (inr (f, x, e, r)) = λ raw h. cc (r)

ended-errors :
    (deadline_past : Type 0) (now ended : Wait) (result : Result)
    → ((now.slot ≡ some result) × (ended ≡ record now { slot = none }))
      ⊎ ((now.slot ≡ none) × deadline_past × (ended ≡ now) × (result ≡ err FetchError.timeout))
    → ended.errors ≡ now.errors
ended-errors d now ended result (inl (f, e)) = ap (λ (w : Wait). w.errors) e
ended-errors d now ended result (inr (f, x, e, r)) = ap (λ (w : Wait). w.errors) e

module _ {V D : Type 0} (p : Plist V D) {T : Type 0} (r : Record T) (s : Schedule)
    (timeout fuel : ℕ) where
  -- A wait that ends: its observer has heard more, its result was answered in a turn, and the fetch
  -- gives what `finish_fetch` makes of both.
  pub await-ends :
      (mark inner : ℕ) (errors last : List Text) (out : Outcome FetchError (Reply T))
      → await_reply p r s timeout fuel mark (inner, dispatched errors) ≡ some (last, out)
      → (more : List Text) × (result : Result) × (last ≡ errors ++ more)
        × (out ≡ finish_fetch p r (first_error_since mark last) result)
        × Backed (λ raw. (m : ℕ) × Answered p (s.turns m) raw) result
  unfolding await_reply
  await-ends mark inner errors last out h =
      ends (pump_until p inner s.turns s.clock (s.start + timeout) fuel 0 (dispatched errors)) refl
        h
    where
      ends :
          (o : Option (Wait × Result))
          → pump_until p inner s.turns s.clock (s.start + timeout) fuel 0 (dispatched errors) ≡ o
          → after_wait p r s timeout fuel mark inner o ≡ some (last, out)
          → (more : List Text) × (result : Result) × (last ≡ errors ++ more)
            × (out ≡ finish_fetch p r (first_error_since mark last) result)
            × Backed (λ raw. (m : ℕ) × Answered p (s.turns m) raw) result
      ends none e g = cc (g)
      ends (some (ended, result)) e g =
          let (k, lt, on, end) =
            pump_sound p inner s.turns s.clock (s.start + timeout) fuel 0 (dispatched errors) ended
              result e in
          let now = wait_at p inner s.turns k 0 (dispatched errors) in
          let (early, before) = wait_at-errors p inner s.turns k 0 (dispatched errors) in
          let (late, after) = run-errors p inner s.late ended in
          let sourced =
            wait_at-Sourced p inner (λ raw. (m : ℕ) × Answered p (s.turns m) raw) s.turns k 0
              (dispatched errors) (λ m raw a. (m, a)) (tt, λ x f. cc, λ x f. cc) in
          let heard : last ≡ (run p inner s.late ended).errors = cc in
          let answer : out ≡ finish_fetch p r (first_error_since mark last) result = cc in
          (
            early ++ late,
            result,
            heard
                ∙ after
                ∙ ap (λ x. x ++ late) (ended-errors _ now ended result end ∙ before)
                ∙ append_assoc errors early late,
            answer,
            ended-Backed (λ raw. (m : ℕ) × Answered p (s.turns m) raw) _ now ended result sourced
                end,
          )
