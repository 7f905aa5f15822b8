-- ===== src/Probes/Session/Tolerant.antt =====
-- `Session::open` of the probes with `PROBE_TOLERATE_REPLAYER_ERRORS`.
use gputools_replay.Prelude.{
  ℕ, String, Bool, true, false, Bool-cases, Option, none, some, Option-cases, List, [], ok, err,
  panic, Outcome, ◌==◌, ◌||◌, not, ◌≡◌, ◌⊎◌, inl, inr, refl, ◌∙◌,
}
use gputools_replay.Errors.{Text}
use gputools_replay.Session.{World, Process, Session}
use gputools_replay.Session.Observer.{Notified}
use gputools_replay.Probes.{SessionError}
use gputools_replay.Probes.Guard.{check_bundle_shape, check_entries}
use gputools_replay.Probes.Observer.{first_error_since, notify_all}
use gputools_replay.Probes.Session.{
  load_capture, load_bundle, settle, finish_open, create_service, create_pool, bootstrap, prechecks,
  open_session, guarded,
}

-- The same answers, from a framework that reports no error.
abbrev pub quiet : World → World
quiet w = record w { reports = λ c. []; load_error = none }

-- The same process, up to what its observer has recorded.
abbrev pub SameCalls : Process → Process → Type 0
SameCalls p q = (p.bootstrapped ≡ q.bootstrapped) × (p.calls ≡ q.calls)

-- The same, with the same result.
abbrev pub SameEnd :
    Process × Outcome SessionError Session → Process × Outcome SessionError Session → Type 0
SameEnd (p, r) (q, s) = SameCalls p q × (r ≡ s)

abbrev pub NoSession : Outcome SessionError Session → Type 0
NoSession r = ¬ ((s : Session) × (r ≡ ok s))

module _ (description : Notified → Option (List ℕ)) (w : World) where
  settle-tolerant :
      (path : String) (service : ℕ) (message : Option Text) (loaded : Bool)
      → settle description true w path service message loaded
        ≡ finish_open description true w path service loaded
  settle-tolerant path service none loaded = refl
  settle-tolerant path service (some m) loaded = refl

  finish_open-quiet :
      (path : String) (service : ℕ) (loaded : Bool)
      → finish_open description true w path service loaded
        ≡ finish_open description false (quiet w) path service loaded
  finish_open-quiet path service true = refl
  finish_open-quiet path service false = refl

  load_bundle-tolerant : load_bundle description true w ≡ ok w.loaded
  load_bundle-tolerant = elim (Option-cases w.load_error) [
    | inl e ↦ rw e refl
    | inr (t, e) ↦ rw e refl
  ]

  bootstrap-quiet :
      (path : String) (p : Process)
      → SameEnd (bootstrap description true w path p) (bootstrap description false (quiet w) path p)
  unfolding bootstrap create_pool create_service load_capture notify_all first_error_since
  bootstrap-quiet path p = elim (Bool-cases (w.apr_rc == 0)) [
    | inr a ↦ rw a ((refl, refl), refl)
    | inl a ↦ elim (Bool-cases (not (w.pool_rc == 0) || w.pool_is_null)) [
      | inl b ↦ rw (a, b) ((refl, refl), refl)
      | inr b ↦ elim (Bool-cases w.class_registered) [
        | inr c ↦ rw (a, b, c) ((refl, refl), refl)
        | inl c ↦ elim (Option-cases w.service) [
          | inl d ↦ rw (a, b, c, d) ((refl, refl), refl)
          | inr (s, d) ↦
              rw (a, b, c, d, load_bundle-tolerant)
                (
                  (refl, refl),
                  settle-tolerant path s _ w.loaded ∙ finish_open-quiet path s w.loaded,
                )
        ]
      ]
    ]
  ]

  guarded-quiet :
      (checked : Outcome SessionError String) (p : Process)
      → SameEnd
          (guarded description true w checked p)
          (guarded description false (quiet w) checked p)
  guarded-quiet (err e) p = ((refl, refl), refl)
  guarded-quiet panic p = ((refl, refl), refl)
  guarded-quiet (ok path) p = elim (Bool-cases p.bootstrapped) [
    | inl t ↦ rw t ((refl, refl), refl)
    | inr f ↦ rw f (bootstrap-quiet path (record p { bootstrapped = true }))
  ]

  bootstrap-NoSession :
      (path : String) (p : Process)
      → w.loaded ≡ false
      → NoSession (bootstrap description true w path p).1
  unfolding bootstrap create_pool create_service load_capture
  bootstrap-NoSession path p refuses = elim (Bool-cases (w.apr_rc == 0)) [
    | inr a ↦ rw a (λ (s, e). cc)
    | inl a ↦ elim (Bool-cases (not (w.pool_rc == 0) || w.pool_is_null)) [
      | inl b ↦ rw (a, b) (λ (s, e). cc)
      | inr b ↦ elim (Bool-cases w.class_registered) [
        | inr c ↦ rw (a, b, c) (λ (s, e). cc)
        | inl c ↦ elim (Option-cases w.service) [
          | inl d ↦ rw (a, b, c, d) (λ (s, e). cc)
          | inr (t, d) ↦
              rw (a, b, c, d, load_bundle-tolerant)
                (λ (s, e). cc (settle-tolerant path t _ w.loaded, refuses, e))
        ]
      ]
    ]
  ]

  guarded-NoSession :
      (checked : Outcome SessionError String) (p : Process)
      → w.loaded ≡ false
      → NoSession (guarded description true w checked p).1
  guarded-NoSession (err e) p refuses = λ (s, h). cc
  guarded-NoSession panic p refuses = λ (s, h). cc
  guarded-NoSession (ok path) p refuses = elim (Bool-cases p.bootstrapped) [
    | inl t ↦ rw t (λ (s, h). cc)
    | inr f ↦ rw f (bootstrap-NoSession path (record p { bootstrapped = true }) refuses)
  ]

  -- With the tolerance `open` of the probes does what it does without it when the framework reports no error and
  -- the load stores none: the same calls, the same one-shot flag and the same result. And a bundle that `load:`
  -- refuses is still refused: either `load:` answers yes, or `open` gives no session.
  pub open_session-quiet :
      (p : Process)
      → SameEnd (open_session description true w p) (open_session description false (quiet w) p)
        × ((w.loaded ≡ true) ⊎ NoSession (open_session description true w p).1)
  unfolding open_session prechecks check_bundle_shape check_entries
  open_session-quiet p = (
    guarded-quiet (prechecks description true w) p,
    elim (Bool-cases w.loaded) [
      | inl accepts ↦ inl accepts
      | inr refuses ↦ inr (guarded-NoSession (prechecks description true w) p refuses)
    ],
  )
