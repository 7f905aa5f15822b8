-- ===== src/Fetch/Waiting/Once.antt =====
-- The slot of a fetch is filled once, and the reports of the observer accumulate.
use gputools_replay.Prelude.{
  ℕ, Bool, true, false, Option, none, some, List, [], ◌∷◌, get_elem?, ◌≡◌, refl, sym, subst, ◌∙◌,
}
use gputools_replay.Errors.{Text}
use gputools_replay.Plist.{Plist}
use gputools_replay.Fetch.Waiting.{
  Wait, Event, notify, respond, take_handler, store, Result, dispatched, taken, stored, apply, run,
}

-- Where the one delivery stands: the handler is still there, or its result is on the way to an empty
-- slot, or nothing is on the way any more.
pub data Stage : Wait → Type 0 where
  waiting : {w : Wait} → w.handler ≡ true → w.storing ≡ none → w.slot ≡ none → Stage w
  moving :
      {w : Wait} (result : Result)
      → w.handler ≡ false
      → w.storing ≡ some result
      → w.slot ≡ none
      → Stage w
  settled : {w : Wait} → w.handler ≡ false → w.storing ≡ none → Stage w

taken-Stage :
    (i : ℕ) (o : Option Result) (b : Bool) (w : Wait)
    → w.handler ≡ b
    → Stage w
    → Stage (taken i o b w)
taken-Stage i none b w h s = s
taken-Stage i (some r) true w h (waiting a c d) = moving r refl refl d
taken-Stage i (some r) true w h (moving _ a c d) = cc (h)
taken-Stage i (some r) true w h (settled a c) = cc (h)
taken-Stage i (some r) false w h (waiting a c d) = waiting a c d
taken-Stage i (some r) false w h (moving x a c d) = moving x a c d
taken-Stage i (some r) false w h (settled a c) = settled a c

stored-Stage : (o : Option Result) (w : Wait) → w.storing ≡ o → Stage w → Stage (stored o w)
stored-Stage none w h s = s
stored-Stage (some r) w h (waiting a c d) = cc (h)
stored-Stage (some r) w h (moving x a c d) = settled a refl
stored-Stage (some r) w h (settled a c) = cc (h)

taken-slot : (i : ℕ) (o : Option Result) (b : Bool) (w : Wait) → (taken i o b w).slot ≡ w.slot
taken-slot i none b w = refl
taken-slot i (some r) true w = refl
taken-slot i (some r) false w = refl

-- Nothing is on the way any more.
abbrev pub IsSettled : Wait → Type 0
IsSettled w = (w.handler ≡ false) × (w.storing ≡ none)

filled-IsSettled : (w : Wait) (r : Result) → Stage w → w.slot ≡ some r → IsSettled w
filled-IsSettled w r (waiting a c d) h = cc (d)
filled-IsSettled w r (moving x a c d) h = cc (d)
filled-IsSettled w r (settled a c) h = (a, c)

taken-IsSettled :
    (i : ℕ) (o : Option Result) (b : Bool) (w : Wait)
    → w.handler ≡ b
    → IsSettled w
    → IsSettled (taken i o b w)
taken-IsSettled i none b w h k = k
taken-IsSettled i (some r) true w h k = cc (k.0)
taken-IsSettled i (some r) false w h k = k

module _ {V D : Type 0} (p : Plist V D) (mark : ℕ) where
  apply-Stage : (e : Event) (w : Wait) → Stage w → Stage (apply p mark e w)
  unfolding apply
  apply-Stage (notify e) w (waiting a c d) = waiting a c d
  apply-Stage (notify e) w (moving r a c d) = moving r a c d
  apply-Stage (notify e) w (settled a c) = settled a c
  apply-Stage (respond r) w (waiting a c d) = waiting a c d
  apply-Stage (respond r) w (moving x a c d) = moving x a c d
  apply-Stage (respond r) w (settled a c) = settled a c
  apply-Stage (take_handler i) w s = taken-Stage i (get_elem? w.pending i) w.handler w refl s
  apply-Stage store w s = stored-Stage w.storing w refl s

  run-Stage : (es : List Event) (w : Wait) → Stage w → Stage (run p mark es w)
  unfolding run
  run-Stage [] w s = s
  run-Stage (e ∷ es) w s = run-Stage es (apply p mark e w) (apply-Stage e w s)

  apply-IsSettled :
      (e : Event) (w : Wait)
      → IsSettled w
      → IsSettled (apply p mark e w) × ((apply p mark e w).slot ≡ w.slot)
  unfolding apply
  apply-IsSettled (notify e) w k = (k, refl)
  apply-IsSettled (respond r) w k = (k, refl)
  apply-IsSettled (take_handler i) w k = (
    taken-IsSettled i (get_elem? w.pending i) w.handler w refl k,
    taken-slot i (get_elem? w.pending i) w.handler w,
  )
  apply-IsSettled store w k =
      subst (λ o. IsSettled (stored o w) × ((stored o w).slot ≡ w.slot)) (sym k.1) (k, refl)

  run-IsSettled : (es : List Event) (w : Wait) → IsSettled w → (run p mark es w).slot ≡ w.slot
  unfolding run
  run-IsSettled [] w k = refl
  run-IsSettled (e ∷ es) w k =
      let (next, same) = apply-IsSettled e w k in run-IsSettled es (apply p mark e w) next ∙ same

  -- The first result that reaches the slot of a dispatched fetch is the only one. Whatever the
  -- framework's threads do after it, the slot keeps it until the waiting thread takes it, and is empty
  -- ever after.
  pub slot-once :
      (errors : List Text) (before after : List Event) (r : Result)
      → (run p mark before (dispatched errors)).slot ≡ some r
      → ((run p mark after (run p mark before (dispatched errors))).slot ≡ some r)
        × ((run p mark after (record (run p mark before (dispatched errors)) { slot = none })).slot
            ≡ none)
  slot-once errors before after r h =
      let w = run p mark before (dispatched errors) in
      let k =
        filled-IsSettled w r (run-Stage before (dispatched errors) (waiting refl refl refl)) h in
      (run-IsSettled after w k ∙ h, run-IsSettled after (record w { slot = none }) k)
