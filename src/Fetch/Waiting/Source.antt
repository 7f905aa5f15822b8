-- ===== src/Fetch/Waiting/Source.antt =====
-- Where the result of a wait comes from, and what the observer has heard meanwhile.
use gputools_replay.Prelude.{
  ℕ, zero, suc, Bool, true, false, Option, none, some, List, [], ◌∷◌, ◌++◌, All, get_elem?, ok, err,
  panic, ◌≡◌, ◌⊎◌, inl, inr, refl, sym, ap, subst, ◌∙◌,
}
use mathlib.Core.List.{append-nil, append_assoc}
use gputools_replay.Errors.{Text}
use gputools_replay.Plist.{Plist}
use gputools_replay.Reply.{RawReply}
use gputools_replay.Session.Observer.{notify_error, message_of, first_error_since}
use gputools_replay.Fetch.Waiting.{
  Wait, Event, notify, respond, take_handler, store, Result, remove, override, taken, stored, fill,
  read_response, block_result, apply, run,
}
use gputools_replay.Fetch.Waiting.Pump.{wait_at}

-- A reply that the result holds is one that `A` speaks of.
abbrev pub Backed : (RawReply → Type 0) → Result → Type 0
Backed A result = (raw : RawReply) → result ≡ ok raw → A raw

-- So are all that the wait holds.
abbrev pub Sourced : (RawReply → Type 0) → Wait → Type 0
Sourced A w =
    All (Backed A) w.pending
    × ((r : Result) → w.storing ≡ some r → Backed A r)
    × ((r : Result) → w.slot ≡ some r → Backed A r)

module _ (A : RawReply → Type 0) where
  All-remove : (xs : List Result) (i : ℕ) → All (Backed A) xs → All (Backed A) (remove xs i)
  All-remove [] i h = h
  All-remove (x ∷ xs) zero h = h.1
  All-remove (x ∷ xs) (suc i) h = (h.0, All-remove xs i h.1)

  All-get :
      (xs : List Result) (i : ℕ) (r : Result)
      → All (Backed A) xs
      → get_elem? xs i ≡ some r
      → Backed A r
  All-get [] i r h e = cc
  All-get (x ∷ xs) zero r h e = let s : x ≡ r = cc in subst (Backed A) s h.0
  All-get (x ∷ xs) (suc i) r h e = All-get xs i r h.1 e

  All-snoc :
      (xs : List Result) (r : Result)
      → All (Backed A) xs
      → Backed A r
      → All (Backed A) (xs ++ (r ∷ []))
  All-snoc [] r h b = (b, tt)
  All-snoc (x ∷ xs) r h b = (h.0, All-snoc xs r h.1 b)

  taken-Sourced :
      (i : ℕ) (o : Option Result) (b : Bool) (w : Wait)
      → get_elem? w.pending i ≡ o
      → Sourced A w
      → Sourced A (taken i o b w)
  taken-Sourced i none b w e h = h
  taken-Sourced i (some r) true w e h = (
    All-remove w.pending i h.0,
    λ x f. let s : r ≡ x = cc in subst (Backed A) s (All-get w.pending i r h.0 e),
    h.2,
  )
  taken-Sourced i (some r) false w e h = (All-remove w.pending i h.0, h.1, h.2)

  fill-Backed :
      (r : Result) (slot : Option Result)
      → Backed A r
      → ((x : Result) → slot ≡ some x → Backed A x)
      → (x : Result) → fill r slot ≡ some x
      → Backed A x
  fill-Backed r none b h x e = let s : r ≡ x = cc in subst (Backed A) s b
  fill-Backed r (some y) b h x e = h x e

  stored-Sourced :
      (o : Option Result) (w : Wait) → w.storing ≡ o → Sourced A w → Sourced A (stored o w)
  stored-Sourced none w e h = h
  stored-Sourced (some r) w e h = (h.0, λ x f. cc, fill-Backed r w.slot (h.1 r e) h.2)

override-ok : (o : Option Text) (r : Result) (raw : RawReply) → override o r ≡ ok raw → r ≡ ok raw
override-ok (some m) (ok x) raw h = cc
override-ok none (ok x) raw h = h
override-ok (some m) (err e) raw h = cc
override-ok none (err e) raw h = cc
override-ok (some m) panic raw h = cc
override-ok none panic raw h = cc

module _ {V D : Type 0} (p : Plist V D) where
  -- One of the events is a response that reads as this reply.
  abbrev pub Answered : List Event → RawReply → Type 0
  Answered [] raw = ⊥
  Answered (respond r ∷ es) raw = (read_response p r ≡ ok raw) ⊎ Answered es raw
  Answered (notify e ∷ es) raw = Answered es raw
  Answered (take_handler i ∷ es) raw = Answered es raw
  Answered (store ∷ es) raw = Answered es raw

  module _ (mark : ℕ) where
    run-Sourced :
        (A : RawReply → Type 0) (es : List Event) (w : Wait)
        → ((raw : RawReply) → Answered es raw → A raw)
        → Sourced A w
        → Sourced A (run p mark es w)
    unfolding run apply
    run-Sourced A [] w f h = h
    run-Sourced A (notify e ∷ es) w f h = run-Sourced A es _ f h
    run-Sourced A (respond r ∷ es) w f h =
        run-Sourced A es _ (λ raw a. f raw (inr a))
          (
            All-snoc A w.pending (block_result p mark w.errors r) h.0 (λ raw e.
                f raw
                  (inl (override-ok (first_error_since mark w.errors) (read_response p r) raw e))),
            h.1,
            h.2,
          )
    run-Sourced A (take_handler i ∷ es) w f h =
        run-Sourced A es _ f (taken-Sourced A i (get_elem? w.pending i) w.handler w refl h)
    run-Sourced A (store ∷ es) w f h = run-Sourced A es _ f (stored-Sourced A w.storing w refl h)

    pub wait_at-Sourced :
        (A : RawReply → Type 0) (turns : ℕ → List Event) (k n : ℕ) (w : Wait)
        → ((m : ℕ) (raw : RawReply) → Answered (turns m) raw → A raw)
        → Sourced A w
        → Sourced A (wait_at p mark turns k n w)
    wait_at-Sourced A turns zero n w f h = run-Sourced A (turns n) w (f n) h
    wait_at-Sourced A turns (suc k) n w f h =
        wait_at-Sourced A turns k (suc n) (run p mark (turns n) w) f
          (run-Sourced A (turns n) w (f n) h)

    pub taken-errors :
        (i : ℕ) (o : Option Result) (b : Bool) (w : Wait) → (taken i o b w).errors ≡ w.errors
    taken-errors i none b w = refl
    taken-errors i (some r) true w = refl
    taken-errors i (some r) false w = refl

    pub stored-errors : (o : Option Result) (w : Wait) → (stored o w).errors ≡ w.errors
    stored-errors none w = refl
    stored-errors (some r) w = refl

    -- The observer only ever adds to what it has recorded.
    pub run-errors :
        (es : List Event) (w : Wait)
        → (more : List Text) × ((run p mark es w).errors ≡ w.errors ++ more)
    unfolding run apply
    run-errors [] w = ([], sym (append-nil w.errors))
    run-errors (notify e ∷ es) w =
        let (more, h) = run-errors es (record w { errors = notify_error e w.errors }) in
        (message_of e ∷ more, h ∙ append_assoc w.errors (message_of e ∷ []) more)
    run-errors (respond r ∷ es) w = run-errors es _
    run-errors (take_handler i ∷ es) w =
        let (more, h) = run-errors es (taken i (get_elem? w.pending i) w.handler w) in
        (more, h ∙ ap (λ x. x ++ more) (taken-errors i (get_elem? w.pending i) w.handler w))
    run-errors (store ∷ es) w =
        let (more, h) = run-errors es (stored w.storing w) in
        (more, h ∙ ap (λ x. x ++ more) (stored-errors w.storing w))

    pub wait_at-errors :
        (turns : ℕ → List Event) (k n : ℕ) (w : Wait)
        → (more : List Text) × ((wait_at p mark turns k n w).errors ≡ w.errors ++ more)
    wait_at-errors turns zero n w = run-errors (turns n) w
    wait_at-errors turns (suc k) n w =
        let (xs, h) = run-errors (turns n) w in
        let (ys, g) = wait_at-errors turns k (suc n) (run p mark (turns n) w) in
        (xs ++ ys, g ∙ ap (λ x. x ++ ys) h ∙ append_assoc w.errors xs ys)
