-- ===== src/Probes/Waiting/Agree.antt =====
-- A wait of the probes against a wait of the library in which each block invocation that takes the handler
-- locks the slot next: both end in the same turn, with results that say the same, or the observer was told of an
-- error by then.
use gputools_replay.Prelude.{
  ℕ, ◌<◌, Bool, true, false, Option, none, some, List, [], ◌∷◌, ◌++◌, get_elem?, length,
  length-append, ok, err, panic, arith, ◌≡◌, inl, inr, refl, sym, ◌∙◌, subst,
}
use gputools_replay.Errors.{Text}
use gputools_replay.Plist.{Plist}
use gputools_replay.Session.Observer.{Notified}
use gputools_replay.Session.Observer
use gputools_replay.Util
use gputools_replay.Fetch.Waiting.{remove, Response, null, response}
use gputools_replay.Fetch.Waiting
use gputools_replay.Probes.Observer.{
  Heard, silent, heard, first_error_since-Heard, first_error_since-library, truncate, message_of,
}
use gputools_replay.Probes.Records.Agree.{Pointwise}
use gputools_replay.Probes.Waiting.{
  Result, Wait, Event, notify, respond, store, read_response, stored, apply, run,
}
use gputools_replay.Probes.Waiting.Says.{
  library_events, reread, Says, SaysSlot, is_empty, Pointwise-map, SaysSlot-map, Pointwise-snoc,
  Pointwise-remove, Pointwise-get, fill-SaysSlot, filled-SaysSlot, is_empty-fill,
}

module _ {V D : Type 0} (p : Plist V D) where
  -- The library's wait and the wait of the probes stand at the same point.
  abbrev pub Mirrors : ℕ → Waiting.Wait → Wait → Type 0
  Mirrors mark l w =
      (length l.errors ≡ length w.errors)
      × Pointwise (Says p (mark < length l.errors)) l.pending w.pending
      × (l.handler ≡ is_empty p w.slot)
      × (l.storing ≡ none)
      × SaysSlot p (mark < length l.errors) l.slot w.slot

  read_response-reread : (r : Response) → Waiting.read_response p r ≡ reread p (read_response r)
  unfolding Waiting.read_response read_response Util.truncate truncate
  read_response-reread null = refl
  read_response-reread (response false e x c) = refl
  read_response-reread (response true false x c) = refl
  read_response-reread (response true true (some d) c) = refl
  read_response-reread (response true true none (some bytes)) = refl
  read_response-reread (response true true none none) = refl

  -- The observer overrides a reply only when it was told of an error.
  override-Says :
      (mark : ℕ) (errors : List Text) (o : Option Text) (a : Waiting.Result) (b : Result)
      → Heard mark errors o
      → a ≡ reread p b
      → Says p (mark < length errors) (Waiting.override o a) b
  override-Says mark errors (some m) a b (heard t h) e = inr h
  override-Says mark errors none (ok x) b (silent h) e = inl e
  override-Says mark errors none (err x) b (silent h) e = inl e
  override-Says mark errors none panic b (silent h) e = inl e

  module _ (mark : ℕ) where
    -- A block of the library that takes the handler and locks the slot, and one of the probes that locks it.
    delivered-Mirrors :
        (i : ℕ) (a : Option Waiting.Result) (b : Option Result) (handler : Bool) (l : Waiting.Wait)
        (w : Wait)
        → SaysSlot p (mark < length l.errors) a b
        → l.handler ≡ handler
        → Mirrors mark l w
        → Mirrors mark
            (Waiting.stored (Waiting.taken i a handler l).storing (Waiting.taken i a handler l))
            (stored i b w)
    delivered-Mirrors i none none handler l w s v (n, q, h, e, t) =
        subst (λ o. Mirrors mark (Waiting.stored o l) w) (sym e) (n, q, h, e, t)
    delivered-Mirrors i none (some b) handler l w s v m = absurd s
    delivered-Mirrors i (some a) none handler l w s v m = absurd s
    delivered-Mirrors i (some a) (some b) true l w s v (n, q, h, e, t) = (
      n,
      Pointwise-remove p (mark < length l.errors) l.pending w.pending i q,
      sym (is_empty-fill p b w.slot),
      refl,
      fill-SaysSlot p (mark < length l.errors) a b l.slot w.slot s t,
    )
    delivered-Mirrors i (some a) (some b) false l w s v (n, q, h, e, t) =
        let full : is_empty p w.slot ≡ false = sym h ∙ v in
        subst
          (λ o.
            Mirrors mark (Waiting.stored o (record l { pending = remove l.pending i }))
              (stored i (some b) w))
          (sym e)
          (
            n,
            Pointwise-remove p (mark < length l.errors) l.pending w.pending i q,
            v ∙ sym (is_empty-fill p b w.slot),
            e,
            filled-SaysSlot p (mark < length l.errors) a b l.slot w.slot full t,
          )

    module _ (description : Notified → Option (List ℕ)) where
      notified-Mirrors :
          (x y : Text) (l : Waiting.Wait) (w : Wait)
          → Mirrors mark l w
          → Mirrors mark
              (record l { errors = l.errors ++ (x ∷ []) })
              (record w { errors = w.errors ++ (y ∷ []) })
      notified-Mirrors x y l w (n, q, h, e, t) =
          let longer : mark < length l.errors → mark < length (l.errors ++ (x ∷ [])) =
            λ z. omega (arith, z, length-append l.errors (x ∷ [])) in
          (
            omega (arith, n, length-append l.errors (x ∷ []), length-append w.errors (y ∷ [])),
            Pointwise-map p longer l.pending w.pending q,
            h,
            e,
            SaysSlot-map p longer l.slot w.slot t,
          )

      pub run-Mirrors :
          (es : List Event) (l : Waiting.Wait) (w : Wait)
          → Mirrors mark l w
          → Mirrors mark (Waiting.run p mark (library_events es) l) (run description es w)
      unfolding Waiting.run Waiting.apply run apply
      run-Mirrors [] l w m = m
      run-Mirrors (notify e ∷ es) l w m =
          run-Mirrors es _ _
            (notified-Mirrors (Observer.message_of e) (message_of description e) l w m)
      run-Mirrors (respond r ∷ es) l w (n, q, h, e, t) = run-Mirrors es _ _ (
        n,
        Pointwise-snoc p (mark < length l.errors) l.pending w.pending _ _ q (
            override-Says mark l.errors (Observer.first_error_since mark l.errors) _ _
              (subst (Heard mark l.errors) (sym (first_error_since-library mark l.errors))
                (first_error_since-Heard mark l.errors))
              (read_response-reread r)),
        h,
        e,
        t,
      )
      run-Mirrors (store i ∷ es) l w m = run-Mirrors es _ _ (
          delivered-Mirrors i (get_elem? l.pending i) (get_elem? w.pending i) l.handler l w
            (Pointwise-get p (mark < length l.errors) l.pending w.pending i m.1) refl m)
