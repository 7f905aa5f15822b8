-- ===== src/Session/Success.antt =====
-- `Session::open`: the exact conditions of success, and which failures leave the process as it was.
use text.Mathlib.Text.{◌==◌ as str_eq}
use text.Mathlib.TextEquality.{eq_iff}
use gputools_replay.Prelude.{
  ℕ, String, Bool, true, false, not, ◌&&◌, Bool-cases, Option, none, some, Option-cases, List, [],
  ◌∷◌, ok, err, ok_or, >>=-eq-ok, ◌==◌, ==_iff, ◌≡◌, ◌↔◌, inl, inr, refl, sym, ap, ◌∙◌, arith,
}
use gputools_replay.Errors.{Text, SessionError, already_open, unlock_env}
use gputools_replay.Session.Observer.{Notified, notify_all, first_error, first_error_since}
use gputools_replay.Session.{
  init_with_observer, init_with_context, load, World, Process, Session, check_bundle_shape,
  check_entries, check_unlock_env, load_bundle, settle, load_capture, create_service, create_pool,
  bootstrap, prechecks, open_session, guarded, recorded, call, register_observer, apr_initialize,
  apr_pool_create_ex, controller_init, client_init,
}
use gputools_replay.Session.Open.{open-cases}

notify_all-silent :
    (es : List Notified) (errors : List Text)
    → notify_all es errors ≡ []
    → (es ≡ []) × (errors ≡ [])
unfolding notify_all
notify_all-silent [] errors h = (refl, h)
notify_all-silent (e ∷ es) [] h = let k = notify_all-silent es _ h in cc (k.1)
notify_all-silent (e ∷ es) (x ∷ xs) h = let k = notify_all-silent es _ h in cc (k.1)

first_error-none : (errors : List Text) → first_error errors ≡ none → errors ≡ []
unfolding first_error_since
first_error-none [] h = refl
first_error-none (e ∷ es) h = ground arith

ok_or-ok : {A : Type 0} (e : SessionError) (o : Option A) (a : A) → ok_or e o ≡ ok a → o ≡ some a
ok_or-ok e none a h = cc
ok_or-ok e (some x) a h = cc

ok-inj : {A : Type 0} (a b : A) → ok_or already_open (some a) ≡ ok b → a ≡ b
ok-inj a b h = cc

module _ (w : World) where
  check_unlock_env-ok : (found : Option String) → check_unlock_env found ≡ ok tt → found ≡ some "0"
  unfolding check_unlock_env
  check_unlock_env-ok none h = cc
  check_unlock_env-ok (some f) h = elim (Bool-cases (str_eq f "0")) [
    | inl t ↦ ap some ((eq_iff f "0").0 t)
    | inr t ↦ let no : err (unlock_env _) ≡ ok tt = rw t at h in cc
  ]

  check_bundle_shape-ok :
      check_bundle_shape w ≡ ok tt
      → (w.exists ≡ true) × (w.is_file "index" ≡ true) × (w.is_file "metadata" ≡ true)
  unfolding check_bundle_shape check_entries
  check_bundle_shape-ok h = ground arith

  -- The bundle and the environment pass the checks before the guard.
  abbrev pub Passes : String → Type 0
  Passes path =
      (w.exists ≡ true)
      × (w.is_file "index" ≡ true)
      × (w.is_file "metadata" ≡ true)
      × (w.to_str ≡ some path)
      × (w.unlock_var ≡ some "0")

  -- The framework answers every call of the bootstrap well, and reports nothing to the observer.
  abbrev pub Answers : String → Session → Type 0
  Answers path s =
      (w.apr_rc ≡ 0)
      × (w.pool_rc ≡ 0)
      × (w.pool_is_null ≡ false)
      × (w.class_registered ≡ true)
      × (w.service ≡ some s.service)
      × (w.load_error ≡ none)
      × (w.loaded ≡ true)
      × (w.reports init_with_observer ≡ [])
      × (w.reports init_with_context ≡ [])
      × (w.reports (load path) ≡ [])
      × (s.client ≡ w.backing)

  prechecks-ok : (path : String) → prechecks w ≡ ok path → Passes path
  unfolding prechecks
  prechecks-ok path h =
      let (a, b, c) = >>=-eq-ok (check_bundle_shape w) _ h in
      let (d, e, f) = >>=-eq-ok (ok_or _ w.to_str) _ c in
      let (x, y, z) = >>=-eq-ok (check_unlock_env w.unlock_var) _ f in
      let found = check_unlock_env-ok w.unlock_var y in
      let (i, j, k) = check_bundle_shape-ok b in
      (i, j, k, ok_or-ok _ w.to_str d e ∙ ap some (ok-inj d path z), found)

  settle-ok :
      (path : String) (service : ℕ) (message : Option Text) (loaded : Bool) (s : Session)
      → settle w path service message loaded ≡ ok s
      → (message ≡ none) × (loaded ≡ true) × (s ≡ record { client = w.backing; service = service })
  settle-ok path service (some m) loaded s h = cc
  settle-ok path service none false s h = cc
  settle-ok path service none true s h = (refl, refl, cc)

  load_bundle-ok :
      (loaded : Bool) → load_bundle w ≡ ok loaded → (w.load_error ≡ none) × (w.loaded ≡ loaded)
  unfolding load_bundle
  load_bundle-ok loaded h = ground arith

  load_capture-ok :
      (path : String) (service : ℕ) (p : Process) (s : Session)
      → (load_capture w path service p).1 ≡ ok s
      → (w.load_error ≡ none)
        × (w.loaded ≡ true)
        × (recorded (load_capture w path service p).0 ≡ [])
        × (s ≡ record { client = w.backing; service = service })
  unfolding load_capture
  load_capture-ok path service p s h =
      let (loaded, b, c) = >>=-eq-ok (load_bundle w) _ h in
      let (m, l, e) = settle-ok path service _ loaded s c in
      let (no_error, answer) = load_bundle-ok loaded b in
      (no_error, answer ∙ l, first_error-none _ m, e)

  -- A fresh observer has heard nothing when the load has ended.
  bootstrap-ok :
      (path : String) (p : Process) (s : Session) → (bootstrap w path p).1 ≡ ok s → Answers path s
  unfolding bootstrap create_pool create_service load_capture
  bootstrap-ok path p s h = elim (Bool-cases (w.apr_rc == 0)) [
    | inr a ↦ let no = rw a at h in cc
    | inl a ↦ elim (Bool-cases ((w.pool_rc == 0) && not w.pool_is_null)) [
      | inr b ↦ let no = rw (a, b) at h in cc
      | inl b ↦ elim (Bool-cases w.class_registered) [
        | inr c ↦ let no = rw (a, b, c) at h in cc
        | inl c ↦ elim (Option-cases w.service) [
          | inl d ↦ let no = rw (a, b, c, d) at h in cc
          | inr (v, d) ↦
              let yes = rw (a, b, c, d) at h in
              let (no_error, loaded, heard, made) =
                load_capture-ok path v
                  (call w init_with_context (
                    register_observer w (
                      call w client_init (
                        call w controller_init
                          (call w apr_pool_create_ex (call w apr_initialize p))))))
                  s yes in
              let (l, rest) = notify_all-silent (w.reports (load path)) _ heard in
              let (i, more) = notify_all-silent (w.reports init_with_context) _ rest in
              let (o, _) = notify_all-silent (w.reports init_with_observer) [] more in
              let same : s.service ≡ v = ap (λ (x : Session). x.service) made in
              let client : s.client ≡ w.backing = ap (λ (x : Session). x.client) made in
              (
                (==_iff w.apr_rc 0).0 a,
                ground arith,
                ground arith,
                c,
                d ∙ ap some (sym same),
                no_error,
                loaded,
                o,
                i,
                l,
                client,
              )
        ]
      ]
    ]
  ]

  prechecks-of : (path : String) → Passes path → prechecks w ≡ ok path
  unfolding prechecks check_bundle_shape check_entries check_unlock_env
  prechecks-of path (e, i, m, t, u) = rw (e, i, m, t, u) refl

  bootstrap-of :
      (path : String) (p : Process) (s : Session) → Answers path s → (bootstrap w path p).1 ≡ ok s
  unfolding bootstrap create_pool create_service load_capture load_bundle notify_all
      first_error_since
  bootstrap-of path p s (a, pr, pn, c, v, le, l, ro, rc, rl, cl) =
      rw (a, pr, pn, c, v, le, l, ro, rc, rl) (ap ok (sym (cc (cl))))

  -- `Session::open` gives a session exactly when the bundle exists with the files `index` and
  -- `metadata`, its path is UTF-8, the unlock variable is the text `0`, no bootstrap was tried before,
  -- both APR calls give status 0 and the pool is not null, the service class is registered and gives a
  -- service, the load stores no error and answers yes, and the framework reports no error to the
  -- observer from its registration to the end of the load. The session holds that service and the new
  -- client buffer.
  pub open-ok_iff :
      (p : Process) (s : Session)
      → ((open_session w p).1 ≡ ok s)
        ↔ ((path : String) × Passes path × (p.bootstrapped ≡ false) × Answers path s)
  unfolding open_session
  open-ok_iff p s = (
    λ h. elim (open-cases w p) [
      | inl (e, _, o) ↦ cc
      | inr (inl (_, o)) ↦ cc
      | inr (inr (inl (path, _, _, o))) ↦ cc
      | inr (inr (inr (path, c, f, o))) ↦ (
        path,
        prechecks-ok path c,
        f,
        bootstrap-ok path (record p { bootstrapped = true }) s (sym (ap (λ x. x.1) o) ∙ h),
      )
    ],
    λ (path, passes, f, answers).
        ap (λ c. (guarded w c p).1) (prechecks-of path passes)
        ∙ (rw f (bootstrap-of path (record p { bootstrapped = true }) s answers)),
  )
