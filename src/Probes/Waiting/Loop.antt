-- ===== src/Probes/Waiting/Loop.antt =====
-- `wait_for` of the probes against `pump_until` of the library, and the reports that come after the wait.
use gputools_replay.Prelude.{
  ℕ, zero, suc, ◌+◌, ◌<◌, Bool, true, false, Option, none, some, List, [], ◌∷◌, get_elem?, length,
  length-append, leb, arith, ◌≡◌, inl, refl, ap, ◌∙◌,
}
use gputools_replay.Plist.{Plist}
use gputools_replay.Session.Observer.{Notified}
use gputools_replay.Session.Observer
use gputools_replay.Fetch.Waiting
use gputools_replay.Fetch.Waiting.Source.{taken-errors, stored-errors}
use gputools_replay.Probes.Observer.{notify_error, message_of}
use gputools_replay.Probes.Waiting.{
  Result, Wait, Event, notify, respond, store, stored, check_slot, apply, run, wait_for,
}
use gputools_replay.Probes.Waiting.Says.{library_events, Says}
use gputools_replay.Probes.Waiting.Agree.{Mirrors, run-Mirrors}

-- How many of the events are reports.
abbrev pub reports : List Event → ℕ
reports [] = 0
reports (notify e ∷ es) = suc (reports es)
reports (respond r ∷ es) = reports es
reports (store i ∷ es) = reports es

probe_stored-errors : (i : ℕ) (o : Option Result) (w : Wait) → (stored i o w).errors ≡ w.errors
probe_stored-errors i none w = refl
probe_stored-errors i (some r) w = refl

module _ (description : Notified → Option (List ℕ)) where
  pub length-run :
      (es : List Event) (w : Wait)
      → length (run description es w).errors ≡ reports es + length w.errors
  unfolding run apply
  length-run [] w = omega arith
  length-run (notify e ∷ es) w = omega (
    arith,
    length-run es (record w { errors = notify_error description e w.errors }),
    length-append w.errors (message_of description e ∷ []),
  )
  length-run (respond r ∷ es) w = length-run es _
  length-run (store i ∷ es) w =
      length-run es _
      ∙ ap (λ x. reports es + length x) (probe_stored-errors i (get_elem? w.pending i) w)

module _ {V D : Type 0} (p : Plist V D) (mark : ℕ) where
  pub length-run_library :
      (es : List Event) (w : Waiting.Wait)
      → length (Waiting.run p mark (library_events es) w).errors ≡ reports es + length w.errors
  unfolding Waiting.run Waiting.apply
  length-run_library [] w = omega arith
  length-run_library (notify e ∷ es) w = omega (
    arith,
    length-run_library es (record w { errors = Observer.notify_error e w.errors }),
    length-append w.errors (Observer.message_of e ∷ []),
  )
  length-run_library (respond r ∷ es) w = length-run_library es _
  length-run_library (store i ∷ es) w =
      let t = Waiting.taken i (get_elem? w.pending i) w.handler w in
      length-run_library es _
      ∙ ap (λ x. reports es + length x)
          (stored-errors p mark t.storing t
            ∙ taken-errors p mark i (get_elem? w.pending i) w.handler w)

  -- The two waits end alike: both go on for ever, or both end when their observers have recorded as much, with
  -- results that say the same where nothing was recorded after the mark.
  abbrev pub Ended : Option (Waiting.Wait × Waiting.Result) → Option (Wait × Result) → Type 0
  Ended none none = Unit
  Ended (some (l, a)) (some (w, b)) =
      (length l.errors ≡ length w.errors) × Says p (mark < length l.errors) a b
  Ended none (some b) = ⊥
  Ended (some a) none = ⊥

  check_slot-Ended :
      (timeout : ℕ) (x : Option Waiting.Result) (y : Option Result) (late : Bool) (l : Waiting.Wait)
      (w : Wait) (k : Option (Waiting.Wait × Waiting.Result)) (m : Option (Wait × Result))
      → l.slot ≡ x
      → w.slot ≡ y
      → Mirrors p mark l w
      → Ended k m
      → Ended (Waiting.check_slot x late l k) (check_slot timeout y late w m)
  check_slot-Ended timeout none none true l w k m a b (n, q, h, e, t) r = (n, inl refl)
  check_slot-Ended timeout none none false l w k m a b (n, q, h, e, t) r = r
  check_slot-Ended timeout (some x) (some y) late l w k m a b (n, q, h, e, t) r =
      (n, rw (a, b) at t)
  check_slot-Ended timeout none (some y) late l w k m a b (n, q, h, e, t) r =
      absurd (rw (a, b) at t)
  check_slot-Ended timeout (some x) none late l w k m a b (n, q, h, e, t) r =
      absurd (rw (a, b) at t)

  module _ (description : Notified → Option (List ℕ)) (turns : ℕ → List Event) (clock : ℕ → ℕ)
      (start timeout : ℕ) where
    pub wait_for-Ended :
        (fuel n : ℕ) (l : Waiting.Wait) (w : Wait)
        → Mirrors p mark l w
        → Ended
            (Waiting.pump_until p mark
              (λ k. library_events (turns k))
              clock
              (start + timeout)
              fuel
              n
              l)
            (wait_for description turns clock start timeout fuel n w)
    unfolding Waiting.pump_until wait_for
    wait_for-Ended zero n l w m = tt
    wait_for-Ended (suc fuel) n l w m =
        let now = run-Mirrors p mark description (turns n) l w m in
        check_slot-Ended timeout _ _ (leb (start + timeout) (clock n)) _ _ _ _ refl refl now
          (wait_for-Ended fuel (suc n) _ _ now)
