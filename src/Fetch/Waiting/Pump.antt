-- ===== src/Fetch/Waiting/Pump.antt =====
-- `pump_until` against a description of the turns that it waits, and its termination.
use gputools_replay.Prelude.{
  ℕ, zero, suc, ◌+◌, ◌≤◌, ◌<◌, Bool, true, false, Option, none, some, List, leb, leb→le, le→leb,
  leb_false→lt, err, ◌≡◌, ◌⊎◌, ◌↔◌, inl, inr, refl, subst, arith,
}
use gputools_replay.Errors.{timeout}
use gputools_replay.Plist.{Plist}
use gputools_replay.Fetch.Waiting.{Wait, Event, Result, run, check_slot, pump_until}

check_slot-cases :
    (o : Option Result) (late : Bool) (now : Wait) (rest : Option (Wait × Result)) (ended : Wait)
    (result : Result)
    → check_slot o late now rest ≡ some (ended, result)
    → ((o ≡ some result) × (ended ≡ record now { slot = none }))
      ⊎ ((o ≡ none) × (late ≡ true) × (ended ≡ now) × (result ≡ err timeout))
      ⊎ ((o ≡ none) × (late ≡ false) × (rest ≡ some (ended, result)))
check_slot-cases (some r) late now rest ended result h = inl (cc, cc)
check_slot-cases none true now rest ended result h = inr (inl (refl, refl, cc, cc))
check_slot-cases none false now rest ended result h = inr (inr (refl, refl, h))

check_slot-returns :
    (o : Option Result) (late : Bool) (now : Wait) (rest : Option (Wait × Result))
    → (late ≡ false → (e : Wait × Result) × (rest ≡ some e))
    → (e : Wait × Result) × (check_slot o late now rest ≡ some e)
check_slot-returns (some r) late now rest h = (_, refl)
check_slot-returns none true now rest h = (_, refl)
check_slot-returns none false now rest h = h refl

module _ {V D : Type 0} (p : Plist V D) (mark : ℕ) (turns : ℕ → List Event) where
  -- The wait at the check of the turn that comes `k` turns after turn `n`.
  abbrev pub wait_at : ℕ → ℕ → Wait → Wait
  wait_at zero n w = run p mark (turns n) w
  wait_at (suc k) n w = wait_at k (suc n) (run p mark (turns n) w)

module _ {V D : Type 0} (p : Plist V D) (mark : ℕ) (turns : ℕ → List Event) (clock : ℕ → ℕ)
    (deadline : ℕ) where
  -- The wait goes on past the first `k` turns: none finds a result, and each ends before the deadline.
  abbrev pub GoesOn : ℕ → ℕ → Wait → Type 0
  GoesOn zero n w = Unit
  GoesOn (suc k) n w =
      ((run p mark (turns n) w).slot ≡ none)
      × (clock n < deadline)
      × GoesOn k (suc n) (run p mark (turns n) w)

  -- How the wait ends at a check: with the result in the slot, which it takes out, or else with a
  -- timeout at the deadline or past it.
  abbrev pub Ends : ℕ → Wait → Wait × Result → Type 0
  Ends n now (ended, result) =
      ((now.slot ≡ some result) × (ended ≡ record now { slot = none }))
      ⊎ ((now.slot ≡ none) × (deadline ≤ clock n) × (ended ≡ now) × (result ≡ err timeout))

  pub pump_sound :
      (fuel n : ℕ) (w ended : Wait) (result : Result)
      → pump_until p mark turns clock deadline fuel n w ≡ some (ended, result)
      → (k : ℕ) × (k < fuel)
        × GoesOn k n w
        × Ends (n + k) (wait_at p mark turns k n w) (ended, result)
  unfolding pump_until
  pump_sound zero n w ended result h = cc
  pump_sound (suc fuel) n w ended result h =
      let now = run p mark (turns n) w in
      let z : n ≡ n + 0 = omega arith in
      elim (check_slot-cases now.slot (leb deadline (clock n)) now _ ended result h) [
        | inl (f, e) ↦ (0, omega arith, tt, inl (f, e))
        | inr (inl (f, t, e, r)) ↦ (
          0,
          omega arith,
          tt,
          subst (λ m. Ends m now (ended, result)) z (inr (f, leb→le deadline (clock n) t, e, r)),
        )
        | inr (inr (f, t, rest)) ↦
            let (k, lt, on, last) = pump_sound fuel (suc n) now ended result rest in
            let s : suc n + k ≡ n + suc k = omega arith in
            (
              suc k,
              omega arith,
              (f, leb_false→lt deadline (clock n) t, on),
              subst (λ m. Ends m (wait_at p mark turns (suc k) n w) (ended, result)) s last,
            )
      ]

  lt→leb_false : (a b : ℕ) → b < a → leb a b ≡ false
  lt→leb_false a b h = ground arith

  pump_complete :
      (k fuel n : ℕ) (w ended : Wait) (result : Result)
      → k < fuel
      → GoesOn k n w
      → Ends (n + k) (wait_at p mark turns k n w) (ended, result)
      → pump_until p mark turns clock deadline fuel n w ≡ some (ended, result)
  unfolding pump_until run
  pump_complete k zero n w ended result lt on last = absurd (omega arith)
  pump_complete zero (suc fuel) n w ended result lt on (inl (f, e)) = rw (f, e) refl
  pump_complete zero (suc fuel) n w ended result lt on (inr (f, d, e, r)) =
      let z : n + 0 ≡ n = omega arith in
      let late : leb deadline (clock n) ≡ true = le→leb deadline (clock n) (rw z at d) in
      rw (f, late, e, r) refl
  pump_complete (suc k) (suc fuel) n w ended result lt (f, early, on) last =
      let s : n + suc k ≡ suc n + k = omega arith in
      let rest =
        pump_complete k fuel (suc n) (run p mark (turns n) w) ended result (omega arith) on
          (subst (λ m. Ends m (wait_at p mark turns (suc k) n w) (ended, result)) s last) in
      rw (f, lt→leb_false deadline (clock n) early) rest

  -- `pump_until` returns, on any fuel, exactly what its description says. The wait goes on past some
  -- number of turns below the fuel, each of which finds the slot empty and ends before the deadline.
  -- At the next check it ends with the result in the slot, which it takes out, or, where the slot is
  -- empty and the deadline has come, with `Timeout`.
  pub pump_until_iff :
      (fuel n : ℕ) (w ended : Wait) (result : Result)
      → (pump_until p mark turns clock deadline fuel n w ≡ some (ended, result)) ↔ (
          (k : ℕ) × (k < fuel)
          × GoesOn k n w
          × Ends (n + k) (wait_at p mark turns k n w) (ended, result))
  pump_until_iff fuel n w ended result = (
    pump_sound fuel n w ended result,
    λ (k, lt, on, last). pump_complete k fuel n w ended result lt on last,
  )

  -- The wait returns once the clock of some turn has reached the deadline.
  pub pump_returns :
      (m fuel n : ℕ) (w : Wait)
      → deadline ≤ clock (n + m)
      → m < fuel
      → (o : Wait × Result) × (pump_until p mark turns clock deadline fuel n w ≡ some o)
  unfolding pump_until
  pump_returns m zero n w d lt = absurd (omega arith)
  pump_returns zero (suc fuel) n w d lt =
      let z : n + 0 ≡ n = omega arith in
      let late : leb deadline (clock n) ≡ true = le→leb deadline (clock n) (rw z at d) in
      check_slot-returns (run p mark (turns n) w).slot (leb deadline (clock n))
        (run p mark (turns n) w) _ (λ early. cc)
  pump_returns (suc m) (suc fuel) n w d lt =
      let s : n + suc m ≡ suc n + m = omega arith in
      check_slot-returns (run p mark (turns n) w).slot (leb deadline (clock n))
        (run p mark (turns n) w) _
        (λ early. pump_returns m fuel (suc n) (run p mark (turns n) w) (rw s at d) (omega arith))
