-- ===== src/Probes/Waiting/Says.antt =====
-- Results, slots and pending blocks of the probes and of the library that say the same.
use gputools_replay.Prelude.{
  ℕ, zero, suc, Bool, true, false, Option, none, some, List, [], ◌∷◌, ◌++◌, get_elem?, ok, err,
  panic, ◌≡◌, ◌⊎◌, inl, inr, refl,
}
use gputools_replay.Errors.{
  Text, FetchError, replayer, setup, literal, not_registered, not_constructed,
}
use gputools_replay.Errors
use gputools_replay.Plist.{Plist}
use gputools_replay.Reply.Envelope.{parse_reply}
use gputools_replay.Fetch.Waiting.{remove, Response, null, response}
use gputools_replay.Fetch.Waiting
use gputools_replay.Probes.{
  SessionError, apr_init, apr_pool, service_class_missing, service_init, load_failed,
  replayer_error, bad_path, already_open, empty_batch, fetch_class_missing, fetch_object_init,
  no_token, fetch_timed_out, no_response, fetch_failed, no_data, unlock_env, guard,
}
use gputools_replay.Probes.Records.Agree.{Pointwise}
use gputools_replay.Probes.Waiting.{Result, Event, notify, respond, store, fill}

-- The error of the library that says the same as an error of a fetch. The others, of `open`, are no matter.
abbrev pub as_fetch_error : SessionError → FetchError
as_fetch_error empty_batch = Errors.FetchError.empty_batch
as_fetch_error no_token = Errors.FetchError.no_token
as_fetch_error (fetch_timed_out seconds) = Errors.FetchError.timeout
as_fetch_error no_response = Errors.FetchError.no_response
as_fetch_error no_data = Errors.FetchError.no_data
as_fetch_error (fetch_failed message) = replayer message
as_fetch_error (replayer_error message) = replayer message
as_fetch_error (fetch_class_missing name) = setup (not_registered name)
as_fetch_error (fetch_object_init name) = setup (not_constructed name)
as_fetch_error (apr_init code) = setup (literal "")
as_fetch_error (apr_pool code) = setup (literal "")
as_fetch_error service_class_missing = setup (literal "")
as_fetch_error service_init = setup (literal "")
as_fetch_error (load_failed bundle) = setup (literal "")
as_fetch_error (bad_path path) = setup (literal "")
as_fetch_error already_open = setup (literal "")
as_fetch_error (unlock_env found) = setup (literal "")
as_fetch_error (guard e) = setup (literal "")

-- The events of the library's wait for one event of the probes' wait.
abbrev pub library_events : List Event → List Waiting.Event
library_events [] = []
library_events (notify e ∷ es) = Waiting.Event.notify e ∷ library_events es
library_events (respond r ∷ es) = Waiting.Event.respond r ∷ library_events es
library_events (store i ∷ es) =
    Waiting.Event.take_handler i ∷ Waiting.Event.store ∷ library_events es

module _ {V D : Type 0} (p : Plist V D) where
  -- The bytes that a probe is given, parsed as the library parses them.
  abbrev pub reread : Result → Waiting.Result
  reread (ok bytes) = parse_reply p bytes
  reread (err e) = err (as_fetch_error e)
  reread panic = panic

  -- The two results say the same, or `H` holds.
  abbrev pub Says : Type 0 → Waiting.Result → Result → Type 0
  Says H a b = (a ≡ reread b) ⊎ H

  abbrev pub SaysSlot : Type 0 → Option Waiting.Result → Option Result → Type 0
  SaysSlot H none none = Unit
  SaysSlot H (some a) (some b) = Says H a b
  SaysSlot H none (some b) = ⊥
  SaysSlot H (some a) none = ⊥

  abbrev pub is_empty : Option Result → Bool
  is_empty none = true
  is_empty (some r) = false

  module _ {H K : Type 0} (f : H → K) where
    pub Says-map : (a : Waiting.Result) (b : Result) → Says H a b → Says K a b
    Says-map a b (inl e) = inl e
    Says-map a b (inr h) = inr (f h)

    pub Pointwise-map :
        (xs : List Waiting.Result) (ys : List Result)
        → Pointwise (Says H) xs ys
        → Pointwise (Says K) xs ys
    Pointwise-map [] [] h = tt
    Pointwise-map [] (y ∷ ys) h = absurd h
    Pointwise-map (x ∷ xs) [] h = absurd h
    Pointwise-map (x ∷ xs) (y ∷ ys) h = (Says-map x y h.0, Pointwise-map xs ys h.1)

    pub SaysSlot-map :
        (a : Option Waiting.Result) (b : Option Result) → SaysSlot H a b → SaysSlot K a b
    SaysSlot-map none none h = tt
    SaysSlot-map (some a) (some b) h = Says-map a b h
    SaysSlot-map none (some b) h = absurd h
    SaysSlot-map (some a) none h = absurd h

  module _ (H : Type 0) where
    pub Pointwise-snoc :
        (xs : List Waiting.Result) (ys : List Result) (a : Waiting.Result) (b : Result)
        → Pointwise (Says H) xs ys
        → Says H a b
        → Pointwise (Says H) (xs ++ (a ∷ [])) (ys ++ (b ∷ []))
    Pointwise-snoc [] [] a b h s = (s, tt)
    Pointwise-snoc [] (y ∷ ys) a b h s = absurd h
    Pointwise-snoc (x ∷ xs) [] a b h s = absurd h
    Pointwise-snoc (x ∷ xs) (y ∷ ys) a b h s = (h.0, Pointwise-snoc xs ys a b h.1 s)

    pub Pointwise-remove :
        (xs : List Waiting.Result) (ys : List Result) (i : ℕ)
        → Pointwise (Says H) xs ys
        → Pointwise (Says H) (remove xs i) (remove ys i)
    Pointwise-remove [] [] i h = tt
    Pointwise-remove [] (y ∷ ys) i h = absurd h
    Pointwise-remove (x ∷ xs) [] i h = absurd h
    Pointwise-remove (x ∷ xs) (y ∷ ys) zero h = h.1
    Pointwise-remove (x ∷ xs) (y ∷ ys) (suc i) h = (h.0, Pointwise-remove xs ys i h.1)

    pub Pointwise-get :
        (xs : List Waiting.Result) (ys : List Result) (i : ℕ)
        → Pointwise (Says H) xs ys
        → SaysSlot H (get_elem? xs i) (get_elem? ys i)
    Pointwise-get [] [] i h = tt
    Pointwise-get [] (y ∷ ys) i h = absurd h
    Pointwise-get (x ∷ xs) [] i h = absurd h
    Pointwise-get (x ∷ xs) (y ∷ ys) zero h = h.0
    Pointwise-get (x ∷ xs) (y ∷ ys) (suc i) h = Pointwise-get xs ys i h.1

  module _ (H : Type 0) (a : Waiting.Result) (b : Result) where
    pub fill-SaysSlot :
        (x : Option Waiting.Result) (y : Option Result)
        → Says H a b
        → SaysSlot H x y
        → SaysSlot H (Waiting.fill a x) (fill b y)
    fill-SaysSlot none none s h = s
    fill-SaysSlot none (some y) s h = absurd h
    fill-SaysSlot (some x) none s h = absurd h
    fill-SaysSlot (some x) (some y) s h = h

    pub filled-SaysSlot :
        (x : Option Waiting.Result) (y : Option Result)
        → is_empty y ≡ false
        → SaysSlot H x y
        → SaysSlot H x (fill b y)
    filled-SaysSlot x none f h = cc (f)
    filled-SaysSlot x (some y) f h = h

  pub is_empty-fill : (b : Result) (y : Option Result) → is_empty (fill b y) ≡ false
  is_empty-fill b none = refl
  is_empty-fill b (some y) = refl
