-- ===== src/Fetch/Results.antt =====
-- What a blocking fetch returns, whatever the framework's threads do meanwhile.
use mathlib.Core.List.{append-nil, append_assoc}
use gputools_replay.Prelude.{
  ℕ, ◌+◌, ◌≤◌, ◌<◌, Bool, true, false, Bool-cases, Option, none, some, List, [], ◌∷◌, ◌++◌, length,
  Outcome, ok, err, panic, >>=-eq-ok, ◌≡◌, inl, inr, refl, sym, ap, subst, ◌∙◌, arith,
}
use gputools_replay.Errors.{Text, FetchError, replayer}
use gputools_replay.Plist.{Plist}
use gputools_replay.Reply.{RawReply, Record, Reply, decode}
use gputools_replay.Session.Observer.{notify_all, first, first_error_since}
use gputools_replay.Fetch.{
  Schedule, Object, fetch_with_handler, finish_fetch, after_wait, await_reply, after_dispatch,
  after_build, fetch_class,
}
use gputools_replay.Fetch.Waiting.{Wait, Result, dispatched}
use gputools_replay.Fetch.Waiting.Pump.{pump_returns}
use gputools_replay.Fetch.Waiting.Source.{Answered, Backed}
use gputools_replay.Fetch.Awaits.{first_error_since-append, notify_all-append, await-ends}

module _ {V D : Type 0} (p : Plist V D) {T : Type 0} (r : Record T) (s : Schedule)
    (timeout fuel : ℕ) where
  -- With a batch and a token, the reports since the mark decide with the result what the fetch gives.
  fetch-ends :
      {Q : Type 0} (build : List Q → Outcome FetchError (List Object)) (q : Q) (qs : List Q)
      (errors last : List Text) (out : Outcome FetchError (Reply T))
      → (batch : List Object) → build (q ∷ qs) ≡ ok batch
      → s.token ≡ true
      → fetch_class p r s timeout fuel build (q ∷ qs) errors ≡ some (last, out)
      → (more : List Text) × (result : Result) × (last ≡ errors ++ more)
        × (out ≡ finish_fetch p r (first more) result)
        × Backed (λ raw. (m : ℕ) × Answered p (s.turns m) raw) result
  unfolding fetch_class
  fetch-ends build q qs errors last out batch b t h =
      let heard = notify_all s.between errors in
      let g : await_reply p r s timeout fuel (length errors) (length heard, dispatched heard)
          ≡ some (last, out) =
        sym (rw (b, t) refl) ∙ h in
      let (xs, between) = notify_all-append s.between errors in
      let (more, result, ends, answer, backed) =
        await-ends p r s timeout fuel (length errors) (length heard) heard last out g in
      let all : last ≡ errors ++ (xs ++ more) =
        ends ∙ ap (λ x. x ++ more) between ∙ append_assoc errors xs more in
      (
        xs ++ more,
        result,
        all,
        answer
            ∙ ap (λ l. finish_fetch p r (first_error_since (length errors) l) result) all
            ∙ ap (λ o. finish_fetch p r o result) (first_error_since-append errors (xs ++ more)),
        backed,
      )

  finish_fetch-ok :
      (more : List Text) (result : Result) (reply : Reply T)
      → finish_fetch p r (first more) result ≡ ok reply
      → (more ≡ []) × (raw : RawReply) × (result ≡ ok raw) × (decode r raw ≡ ok reply)
  finish_fetch-ok [] result reply h =
      let (raw, e, d) = >>=-eq-ok result (decode r) h in (refl, raw, e, d)
  finish_fetch-ok (x ∷ more) result reply h = cc (h)

  fetch-dispatched :
      {Q : Type 0} (build : List Q → Outcome FetchError (List Object)) (q : Q) (qs : List Q)
      (errors last : List Text) (reply : Reply T)
      → fetch_class p r s timeout fuel build (q ∷ qs) errors ≡ some (last, ok reply)
      → (batch : List Object) × (build (q ∷ qs) ≡ ok batch) × (s.token ≡ true)
  unfolding fetch_class
  fetch-dispatched build q qs errors last reply h = built (build (q ∷ qs)) refl h
    where
      built :
          (o : Outcome FetchError (List Object))
          → build (q ∷ qs) ≡ o
          → after_build p r s timeout fuel errors o ≡ some (last, ok reply)
          → (batch : List Object) × (build (q ∷ qs) ≡ ok batch) × (s.token ≡ true)
      built (err e) b g = cc (g)
      built panic b g = cc (g)
      built (ok batch) b g = elim (Bool-cases s.token) [
        | inl t ↦ (batch, b, t)
        | inr t ↦ let no = rw t at g in cc (no)
      ]

  -- A blocking fetch that succeeds is honest. Its reply decodes from a response that a completion
  -- brought during the wait, and the observer heard nothing from before the dispatch to the end,
  -- whatever the order in which completions, reports and the waiting thread acted.
  pub fetch-honest :
      {Q : Type 0} (build : List Q → Outcome FetchError (List Object)) (qs : List Q)
      (errors last : List Text) (reply : Reply T)
      → fetch_class p r s timeout fuel build qs errors ≡ some (last, ok reply)
      → (last ≡ errors)
        × (raw : RawReply) × (decode r raw ≡ ok reply)
        × (m : ℕ) × Answered p (s.turns m) raw
  unfolding fetch_class
  fetch-honest build [] errors last reply h = cc (h)
  fetch-honest build (q ∷ qs) errors last reply h =
      let (batch, b, t) = fetch-dispatched build q qs errors last reply h in
      let (more, result, all, answer, backed) =
        fetch-ends build q qs errors last (ok reply) batch b t h in
      let (silent, raw, e, d) = finish_fetch-ok more result reply (sym answer) in
      let (m, a) = backed raw e in
      (all ∙ ap (λ x. errors ++ x) silent ∙ append-nil errors, raw, d, m, a)

  -- The observer has the last word. Where the batch is built and the dispatch gives a token, a fetch
  -- during which the observer heard anything fails with the first text it heard, also where the wait
  -- had a reply or timed out.
  pub fetch-reported :
      {Q : Type 0} (build : List Q → Outcome FetchError (List Object)) (q : Q) (qs : List Q)
      (errors last more : List Text) (x : Text) (out : Outcome FetchError (Reply T))
      (batch : List Object)
      → build (q ∷ qs) ≡ ok batch
      → s.token ≡ true
      → fetch_class p r s timeout fuel build (q ∷ qs) errors ≡ some (last, out)
      → last ≡ errors ++ (x ∷ more)
      → out ≡ err (replayer x)
  fetch-reported build q qs errors last more x out batch b t h e =
      let (others, result, all, answer, backed) =
        fetch-ends build q qs errors last out batch b t h in
      let same : first others ≡ some x =
        sym (first_error_since-append errors others)
        ∙ ap (first_error_since (length errors)) (sym all ∙ e)
        ∙ first_error_since-append errors (x ∷ more) in
      answer ∙ ap (λ o. finish_fetch p r o result) same

  after_wait-returns :
      (mark inner : ℕ) (o : Option (Wait × Result)) (e : Wait × Result)
      → o ≡ some e
      → (x : List Text × Outcome FetchError (Reply T)) × (after_wait p r s timeout fuel mark inner o
          ≡ some x)
  after_wait-returns mark inner none e h = cc (h)
  after_wait-returns mark inner (some (ended, result)) e h = (_, refl)

  -- A blocking fetch returns, on every branch, where the clock of some turn has come to the start of the
  -- wait plus the timeout and the fuel reaches that turn.
  pub fetch-returns :
      {Q : Type 0} (build : List Q → Outcome FetchError (List Object)) (qs : List Q)
      (errors : List Text) (m : ℕ)
      → s.start + timeout ≤ s.clock m
      → m < fuel
      → (x : List Text × Outcome FetchError (Reply T)) × (fetch_class p r s timeout fuel build qs
            errors
          ≡ some x)
  unfolding fetch_class await_reply
  fetch-returns build [] errors m d lt = (_, refl)
  fetch-returns build (q ∷ qs) errors m d lt = built (build (q ∷ qs))
    where
      sent :
          (heard : List Text) (token : Bool)
          → (x : List Text × Outcome FetchError (Reply T)) × (after_dispatch p r s timeout fuel
                errors heard
                (fetch_with_handler token heard)
              ≡ some x)
      sent heard true =
          let (e, g) =
            pump_returns p (length heard) s.turns s.clock (s.start + timeout) m fuel 0
              (dispatched heard)
              (let z : m ≡ 0 + m = omega arith in subst (λ k. s.start + timeout ≤ s.clock k) z d)
              lt in
          after_wait-returns (length errors) (length heard) _ e g
      sent heard false = (_, refl)

      built :
          (o : Outcome FetchError (List Object))
          → (x : List Text × Outcome FetchError (Reply T)) × (after_build p r s timeout fuel errors
                o
              ≡ some x)
      built (err e) = (_, refl)
      built panic = (_, refl)
      built (ok batch) = sent (notify_all s.between errors) s.token
