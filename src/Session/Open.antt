-- ===== src/Session/Open.antt =====
-- `Session::open`: when it succeeds, when it leaves the process as it was, and what a process that
-- calls it again and again has done.
use gputools_replay.Prelude.{
  ℕ, ◌≤◌, ◌+◌, String, true, false, not, ◌&&◌, Bool-cases, Option-cases, List, [], ◌∷◌, take,
  Outcome, ok, err, panic, ◌==◌, ◌≡◌, ◌⊎◌, inl, inr, refl, arith,
}
use gputools_replay.Errors.{SessionError, already_open}
use gputools_replay.Session.{
  Call, apr_initialize, apr_pool_create_ex, controller_init, client_init, init_with_observer,
  init_with_context, load, World, Process, Session, fresh, load_capture, create_service,
  create_pool, bootstrap, prechecks, open_session, guarded,
}

-- The framework calls that a complete `open` makes, in order.
abbrev pub sequence : String → List Call
sequence path =
    apr_initialize
    ∷ apr_pool_create_ex
    ∷ controller_init
    ∷ client_init
    ∷ init_with_observer
    ∷ init_with_context
    ∷ load path
    ∷ []

-- An outcome that is a session.
abbrev pub opened : Outcome SessionError Session → ℕ
opened (ok s) = 1
opened (err e) = 0
opened panic = 0

-- The processes that calls of `open` lead to from a fresh one, with the number of sessions opened.
pub data Reach : Process → ℕ → Type 0 where
  start : Reach fresh 0
  again :
      {p : Process} {n : ℕ} (w : World)
      → Reach p n
      → Reach (open_session w p).0 (n + opened (open_session w p).1)

opened-le : (r : Outcome SessionError Session) → opened r ≤ 1
opened-le (ok s) = omega arith
opened-le (err e) = omega arith
opened-le panic = omega arith

module _ (w : World) where
  bootstrap-calls :
      (path : String) (p : Process)
      → p.calls ≡ []
      → (k : ℕ) × ((bootstrap w path p).0.calls ≡ take k (sequence path))
  unfolding bootstrap create_pool create_service load_capture
  bootstrap-calls path p h = elim (Bool-cases (w.apr_rc == 0)) [
    | inr a ↦ (1, rw (a, h) refl)
    | inl a ↦ elim (Bool-cases ((w.pool_rc == 0) && not w.pool_is_null)) [
      | inr b ↦ (2, rw (a, b, h) refl)
      | inl b ↦ elim (Bool-cases w.class_registered) [
        | inr c ↦ (5, rw (a, b, c, h) refl)
        | inl c ↦ elim (Option-cases w.service) [
          | inl d ↦ (6, rw (a, b, c, d, h) refl)
          | inr (s, d) ↦ (7, rw (a, b, c, d, h) refl)
        ]
      ]
    ]
  ]

  pub bootstrap-flag :
      (path : String) (p : Process) → (bootstrap w path p).0.bootstrapped ≡ p.bootstrapped
  unfolding bootstrap create_pool create_service load_capture
  bootstrap-flag path p = ground arith

-- A process that is not bootstrapped has called nothing and opened nothing, and in any other the calls
-- are a first part of one complete sequence.
abbrev pub Started : Process → ℕ → Type 0
Started p n =
    ((p.bootstrapped ≡ false) × (p.calls ≡ []) × (n ≡ 0))
    ⊎ ((p.bootstrapped ≡ true)
        × (n ≤ 1)
        × (path : String) × (k : ℕ) × (p.calls ≡ take k (sequence path)))

module _ (w : World) (p : Process) where
  -- What `open` comes to: an error before the guard, a refusal by the guard, or a bootstrap.
  abbrev pub Comes : Outcome SessionError String → Process × Outcome SessionError Session → Type 0
  Comes checked o =
      ((e : SessionError) × (checked ≡ err e) × (o ≡ (p, err e)))
      ⊎ ((checked ≡ panic) × (o ≡ (p, panic)))
      ⊎ ((path : String) × (checked ≡ ok path)
          × (p.bootstrapped ≡ true)
          × (o ≡ (p, err already_open)))
      ⊎ ((path : String) × (checked ≡ ok path)
          × (p.bootstrapped ≡ false)
          × (o ≡ bootstrap w path (record p { bootstrapped = true })))

  guarded-Comes : (checked : Outcome SessionError String) → Comes checked (guarded w checked p)
  guarded-Comes (err e) = inl (e, refl, refl)
  guarded-Comes panic = inr (inl (refl, refl))
  guarded-Comes (ok path) = elim (Bool-cases p.bootstrapped) [
    | inl t ↦ inr (inr (inl (path, refl, t, rw t refl)))
    | inr f ↦ inr (inr (inr (path, refl, f, rw f refl)))
  ]

  pub open-cases : Comes (prechecks w) (open_session w p)
  unfolding open_session
  open-cases = guarded-Comes (prechecks w)

open-Started :
    (w : World) (p : Process) (n : ℕ)
    → Started p n
    → Started (open_session w p).0 (n + opened (open_session w p).1)
open-Started w p n h = elim (open-cases w p) [
  | inl (e, _, o) ↦ rw o (let z : n + 0 ≡ n = omega arith in rw z h)
  | inr (inl (_, o)) ↦ rw o (let z : n + 0 ≡ n = omega arith in rw z h)
  | inr (inr (inl (path, _, _, o))) ↦ rw o (let z : n + 0 ≡ n = omega arith in rw z h)
  | inr (inr (inr (path, _, f, o))) ↦ elim h [
    | inl (g, c, z) ↦
        let (k, calls) = bootstrap-calls w path (record p { bootstrapped = true }) c in
        let flag = bootstrap-flag w path (record p { bootstrapped = true }) in
        let le = opened-le (bootstrap w path (record p { bootstrapped = true })).1 in
        rw o (inr (flag, omega arith, path, k, calls))
    | inr (t, _, _, _, _) ↦ cc
  ]
]

Reach-Started : {p : Process} {n : ℕ} → Reach p n → Started p n
Reach-Started start = inl (refl, refl, refl)
Reach-Started (again {p} {n} w r) = open-Started w p n (Reach-Started r)

-- Whatever the calls of `Session::open` in a process were and whatever they were answered, at most one
-- of them gave a session, and the calls made into the framework are together a first part of one
-- complete bootstrap: each of the steps at most once, the observer registered before the load.
pub Reach-once :
    (p : Process) (n : ℕ)
    → Reach p n
    → (n ≤ 1) × (path : String) × (k : ℕ) × (p.calls ≡ take k (sequence path))
Reach-once p n r = elim (Reach-Started r) [
  | inl (f, c, z) ↦ (omega arith, "", 0, c)
  | inr (f, le, path, k, calls) ↦ (le, path, k, calls)
]
