-- ===== src/Probes/Session/Agree.antt =====
-- `Session::open` of the probes against that of the library.
use text.Mathlib.Text.{◌==◌ as str_eq}
use gputools_replay.Prelude.{
  ℕ, String, Bool, true, false, Bool-cases, Option, none, some, Option-cases, List, [], ◌∷◌, ◌++◌,
  length, ok, err, panic, Outcome, ◌>>=◌, ok_or, map_err, if◌then◌else◌, ◌==◌, ◌≡◌, inl, inr, refl,
  ap, ◌∙◌, sym, subst, arith,
}
use gputools_replay.Errors.{
  Text, literal, replayer, apr, bad_bundle, path_not_utf8, setup, unlock_env_not_zero,
}
use gputools_replay.Errors
use gputools_replay.Session
use gputools_replay.Session.{
  World, Process, Call, recorded, load, init_with_context, init_with_observer, client_init,
  controller_init, apr_pool_create_ex, apr_initialize,
}
use gputools_replay.Session.Observer.{Notified}
use gputools_replay.Probes.{
  GuardError, missing_bundle, not_a_capture_bundle, SessionError, bad_path, already_open, guard,
}
use gputools_replay.Probes.Guard.{check_bundle_shape, check_bundle_shape-agrees, as_session_error}
use gputools_replay.Probes.Observer.{
  length-notify_all, length-notify_all_library, Heard, silent, heard, first_error_since-Heard,
  first_error_since-library,
}
use gputools_replay.Probes.Session.{
  call, load_capture, settle, create_service, create_pool, bootstrap, prechecks, open_session,
  guarded, unlock_env_ok, deliver, register_observer,
}
use gputools_replay.Probes.Session.Kinds.{
  as_open_error, open_kind, SameHeard, SameProcess, SameOpen,
}

unlock_env-agrees :
    (found : Option String)
    → map_err open_kind (Session.check_unlock_env found)
      ≡ map_err as_open_error (unlock_env_ok found)
unfolding Session.check_unlock_env unlock_env_ok
unlock_env-agrees none = refl
unlock_env-agrees (some f) = elim (Bool-cases (str_eq f "0")) [
  | inl t ↦ rw t refl
  | inr t ↦ rw t refl
]

module _ (description : Notified → Option (List ℕ)) (w : World) where
  deliver-SameHeard :
      (es : List Notified) (x y : Option (List Text))
      → SameHeard x y
      → SameHeard (Session.deliver es x) (deliver description false w es y)
  deliver-SameHeard es none none h = tt
  deliver-SameHeard es none (some ys) h = absurd h
  deliver-SameHeard es (some xs) none h = absurd h
  deliver-SameHeard es (some xs) (some ys) h =
      omega (arith, h, length-notify_all_library es xs, length-notify_all description es ys)

  call-SameProcess :
      (c : Call) (p q : Process)
      → SameProcess p q
      → SameProcess (Session.call w c p) (call description false w c q)
  call-SameProcess c p q (a, b, h) =
      (a, ap (λ x. x ++ (c ∷ [])) b, deliver-SameHeard (w.reports c) p.observer q.observer h)

  length-recorded :
      (p q : Process) (x y : Option (List Text))
      → p.observer ≡ x
      → q.observer ≡ y
      → SameHeard x y
      → length (recorded p) ≡ length (recorded q)
  length-recorded p q none none e f h = rw (e, f) refl
  length-recorded p q (some xs) (some ys) e f h = rw (e, f) h
  length-recorded p q none (some ys) e f h = absurd h
  length-recorded p q (some xs) none e f h = absurd h

  settle-agrees :
      (path : String) (s : ℕ) (xs ys : List Text) (x y : Option Text) (loaded : Bool)
      → length xs ≡ length ys
      → Heard 0 xs x
      → Heard 0 ys y
      → map_err open_kind (Session.settle w path s x loaded)
        ≡ map_err as_open_error (settle description false w path s y loaded)
  settle-agrees path s xs ys none none true n h g = refl
  settle-agrees path s xs ys none none false n h g = refl
  settle-agrees path s xs ys (some a) (some b) loaded n h g = refl
  settle-agrees path s xs ys none (some b) loaded n (silent h) (heard u g) = absurd (omega arith)
  settle-agrees path s xs ys (some a) none loaded n (heard u h) (silent g) = absurd (omega arith)

  load_capture-agrees :
      (path : String) (s : ℕ) (p q : Process)
      → SameProcess p q
      → SameOpen (Session.load_capture w path s p) (load_capture description false w path s q)
  unfolding Session.load_capture Session.load_bundle load_capture
  load_capture-agrees path s p q h =
      let same = call-SameProcess (load path) p q h in
      let n =
        length-recorded (Session.call w (load path) p) (call description false w (load path) q) _ _
          refl refl (same.2) in
      elim (Option-cases w.load_error) [
        | inr (e, l) ↦ rw l (same, refl)
        | inl l ↦
            (rw l (
              same,
              settle-agrees path s _ _ _ _ w.loaded n
                  (subst (Heard 0 _) (sym (first_error_since-library 0 _))
                    (first_error_since-Heard 0 _))
                  (first_error_since-Heard 0 _),
            ))
      ]

  registered-SameProcess :
      (p q : Process)
      → SameProcess p q
      → SameProcess (Session.register_observer w p) (register_observer description false w q)
  registered-SameProcess p q (a, b, h) =
      call-SameProcess init_with_observer (record p { observer = some [] })
        (record q { observer = some [] }) (a, b, refl)

  create_service-agrees :
      (path : String) (p q : Process)
      → SameProcess p q
      → SameOpen (Session.create_service w path p) (create_service description false w path q)
  unfolding Session.create_service create_service
  create_service-agrees path p q h = elim (Bool-cases w.class_registered) [
    | inr c ↦ rw c (h, refl)
    | inl c ↦ elim (Option-cases w.service) [
      | inl d ↦ rw (c, d) (call-SameProcess init_with_context p q h, refl)
      | inr (s, d) ↦
          rw (c, d) (load_capture-agrees path s _ _ (call-SameProcess init_with_context p q h))
    ]
  ]

  create_pool-agrees :
      (path : String) (p q : Process)
      → SameProcess p q
      → SameOpen (Session.create_pool w path p) (create_pool description false w path q)
  unfolding Session.create_pool create_pool
  create_pool-agrees path p q h =
      let same = call-SameProcess apr_pool_create_ex p q h in
      let ready =
        registered-SameProcess _ _
          (call-SameProcess client_init _ _ (call-SameProcess controller_init _ _ same)) in
      elim (Bool-cases (w.pool_rc == 0)) [
        | inr a ↦ rw a (same, refl)
        | inl a ↦ elim (Bool-cases w.pool_is_null) [
          | inl b ↦ simp (a, b) (same, refl)
          | inr b ↦ simp (a, b) (create_service-agrees path _ _ ready)
        ]
      ]

  bootstrap-agrees :
      (path : String) (p q : Process)
      → SameProcess p q
      → SameOpen (Session.bootstrap w path p) (bootstrap description false w path q)
  unfolding Session.bootstrap bootstrap
  bootstrap-agrees path p q h =
      let same = call-SameProcess apr_initialize p q h in
      elim (Bool-cases (w.apr_rc == 0)) [
        | inl a ↦ rw a (create_pool-agrees path _ _ same)
        | inr a ↦ rw a (same, refl)
      ]

  -- The one-shot guard, for the flags of the two processes.
  started-agrees :
      (b c : Bool) (path : String) (p q : Process)
      → b ≡ c
      → SameProcess p q
      → SameOpen
          (if b
            then (p, err Errors.SessionError.already_open)
            else Session.bootstrap w path (record p { bootstrapped = true }))
          (if c
            then (q, err already_open)
            else bootstrap description false w path (record q { bootstrapped = true }))
  started-agrees true true path p q e h = (h, refl)
  started-agrees false false path p q e h =
      bootstrap-agrees path (record p { bootstrapped = true }) (record q { bootstrapped = true })
        (refl, h.1, h.2)
  started-agrees true false path p q e h = cc (e)
  started-agrees false true path p q e h = cc (e)

  -- What stands before the one-shot guard comes to the same.
  abbrev Checked : Outcome Errors.SessionError String → Outcome SessionError String → Type 0
  Checked l o = map_err open_kind l ≡ map_err as_open_error o

  guarded-agrees :
      (l : Outcome Errors.SessionError String) (o : Outcome SessionError String) (p q : Process)
      → Checked l o
      → SameProcess p q
      → SameOpen (Session.guarded w l p) (guarded description false w o q)
  guarded-agrees (err x) (err y) p q e h = (h, cc (e))
  guarded-agrees panic panic p q e h = (h, refl)
  guarded-agrees (err x) panic p q e h = cc (e)
  guarded-agrees (err x) (ok y) p q e h = cc (e)
  guarded-agrees panic (err y) p q e h = cc (e)
  guarded-agrees panic (ok y) p q e h = cc (e)
  guarded-agrees (ok x) (err y) p q e h = cc (e)
  guarded-agrees (ok x) panic p q e h = cc (e)
  guarded-agrees (ok x) (ok y) p q e h =
      let path : x ≡ y = cc (e) in
      rw path (started-agrees p.bootstrapped q.bootstrapped y p q h.0 h)

  Checked-bind :
      {A : Type 0} (l : Outcome Errors.SessionError A) (o : Outcome SessionError A)
      (k : A → Outcome Errors.SessionError String) (m : A → Outcome SessionError String)
      → map_err open_kind l ≡ map_err as_open_error o
      → ((a : A) → Checked (k a) (m a))
      → Checked (l >>= k) (o >>= m)
  Checked-bind (ok x) (ok y) k m e f = let s : x ≡ y = cc (e) in rw s (f y)
  Checked-bind (err x) (err y) k m e f = cc (e)
  Checked-bind panic panic k m e f = refl
  Checked-bind (err x) panic k m e f = cc (e)
  Checked-bind (err x) (ok y) k m e f = cc (e)
  Checked-bind panic (err y) k m e f = cc (e)
  Checked-bind panic (ok y) k m e f = cc (e)
  Checked-bind (ok x) (err y) k m e f = cc (e)
  Checked-bind (ok x) panic k m e f = cc (e)

  guard-agrees :
      (o : Outcome GuardError (Unit {0}))
      → map_err open_kind (map_err as_session_error o) ≡ map_err as_open_error (map_err guard o)
  guard-agrees (ok x) = refl
  guard-agrees panic = refl
  guard-agrees (err (missing_bundle path)) = refl
  guard-agrees (err (not_a_capture_bundle path missing)) = refl

  path-agrees :
      (o : Option String)
      → map_err open_kind (ok_or (bad_bundle (path_not_utf8 w.display)) o)
        ≡ map_err as_open_error (ok_or (bad_path w.display) o)
  path-agrees none = refl
  path-agrees (some path) = refl

  prechecks-agrees : Checked (Session.prechecks w) (prechecks description false w)
  unfolding Session.prechecks prechecks
  prechecks-agrees =
      Checked-bind _ _ _ _
        (ap (map_err open_kind) (check_bundle_shape-agrees w) ∙ guard-agrees (check_bundle_shape w))
        (λ u.
          Checked-bind _ _ _ _ (path-agrees w.to_str)
            (λ path. Checked-bind _ _ _ _ (unlock_env-agrees w.unlock_var) (λ v. refl)))

  -- Without the tolerance `open` of the probes and that of the library, from processes that have done the same and
  -- with the same answers, make the same calls, leave the one-shot flag alike and give the same session or errors of
  -- the same kind, though their observers word what they record differently.
  pub open_session-agrees :
      (p q : Process)
      → SameProcess p q
      → SameOpen (Session.open_session w p) (open_session description false w q)
  unfolding Session.open_session open_session
  open_session-agrees p q h = guarded-agrees _ _ p q prechecks-agrees h
