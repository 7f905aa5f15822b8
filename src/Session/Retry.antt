-- ===== src/Session/Retry.antt =====
-- `Session::open`: the failures after which the process can still open a session.
use text.Mathlib.Text.{◌==◌ as str_eq}
use gputools_replay.Prelude.{
  ℕ, String, Bool, true, false, not, ◌&&◌, Bool-cases, Option, none, some, Option-cases, Outcome,
  ok, err, panic, ◌==◌, ◌≡◌, ◌↔◌, ◌⊎◌, inl, inr, refl, sym, ap, ◌∙◌,
}
use gputools_replay.Errors.{
  Text, SessionError, already_open, unlock_env, bad_bundle, apr, replayer, load_failed,
}
use gputools_replay.Session.{
  World, Process, Session, check_bundle_shape, check_entries, check_unlock_env, load_bundle, settle,
  load_capture, create_service, create_pool, bootstrap, prechecks, open_session,
}
use gputools_replay.Session.Open.{open-cases, bootstrap-flag}

-- A failure of the checks before the bootstrap, or of the guard.
abbrev pub IsEarly : Outcome SessionError Session → Type 0
IsEarly r =
    ((t : Text) × (r ≡ err (bad_bundle t)))
    ⊎ ((t : Text) × (r ≡ err (unlock_env t)))
    ⊎ (r ≡ err already_open)

early_code : Outcome SessionError Session → Bool
early_code (err (bad_bundle t)) = true
early_code (err (unlock_env t)) = true
early_code (err already_open) = true
early_code (err (apr n)) = false
early_code (err (replayer t)) = false
early_code (err (load_failed s)) = false
early_code (ok s) = false
early_code panic = false

early_code-true : (r : Outcome SessionError Session) → IsEarly r → early_code r ≡ true
unfolding early_code
early_code-true r (inl (t, e)) = rw e refl
early_code-true r (inr (inl (t, e))) = rw e refl
early_code-true r (inr (inr e)) = rw e refl

module _ (w : World) where
  settle-late :
      (path : String) (service : ℕ) (message : Option Text) (loaded : Bool)
      → early_code (settle w path service message loaded) ≡ false
  unfolding early_code
  settle-late path service (some m) loaded = refl
  settle-late path service none true = refl
  settle-late path service none false = refl

  load_capture-late :
      (path : String) (service : ℕ) (p : Process)
      → early_code (load_capture w path service p).1 ≡ false
  unfolding load_capture load_bundle early_code
  load_capture-late path service p = elim (Option-cases w.load_error) [
    | inr (e, l) ↦ rw l refl
    | inl l ↦ rw l (settle-late path service _ w.loaded)
  ]

  bootstrap-late : (path : String) (p : Process) → early_code (bootstrap w path p).1 ≡ false
  unfolding bootstrap create_pool create_service early_code
  bootstrap-late path p = elim (Bool-cases (w.apr_rc == 0)) [
    | inr a ↦ rw a refl
    | inl a ↦ elim (Bool-cases ((w.pool_rc == 0) && not w.pool_is_null)) [
      | inr b ↦ rw (a, b) refl
      | inl b ↦ elim (Bool-cases w.class_registered) [
        | inr c ↦ rw (a, b, c) refl
        | inl c ↦ elim (Option-cases w.service) [
          | inl d ↦ rw (a, b, c, d) refl
          | inr (v, d) ↦ rw (a, b, c, d) (load_capture-late path v _)
        ]
      ]
    ]
  ]

  -- The checks before the guard end in one of two errors or in the path.
  prechecks-cases :
      ((path : String) × (prechecks w ≡ ok path))
      ⊎ ((t : Text) × (prechecks w ≡ err (bad_bundle t)))
      ⊎ ((t : Text) × (prechecks w ≡ err (unlock_env t)))
  unfolding prechecks check_bundle_shape check_entries check_unlock_env
  prechecks-cases = elim (Bool-cases w.exists) [
    | inr e ↦ rw e (inr (inl (_, refl)))
    | inl e ↦ elim (Bool-cases (w.is_file "index")) [
      | inr i ↦ rw (e, i) (inr (inl (_, refl)))
      | inl i ↦ elim (Bool-cases (w.is_file "metadata")) [
        | inr m ↦ rw (e, i, m) (inr (inl (_, refl)))
        | inl m ↦ elim (Option-cases w.to_str) [
          | inl t ↦ rw (e, i, m, t) (inr (inl (_, refl)))
          | inr (path, t) ↦ elim (Option-cases w.unlock_var) [
            | inl u ↦ rw (e, i, m, t, u) (inr (inr (_, refl)))
            | inr (found, u) ↦ elim (Bool-cases (str_eq found "0")) [
              | inr z ↦ rw (e, i, m, t, u, z) (inr (inr (_, refl)))
              | inl z ↦ rw (e, i, m, t, u, z) (inl (path, refl))
            ]
          ]
        ]
      ]
    ]
  ]

  -- `Session::open` leaves the process as it was, with no call into the framework and the one-shot flag
  -- untouched, exactly when it fails with `BadBundle`, `UnlockEnv` or `AlreadyOpen`.
  pub open-unchanged_iff : (p : Process) → ((open_session w p).0 ≡ p) ↔ IsEarly (open_session w p).1
  open-unchanged_iff p = elim (open-cases w p) [
    | inl (e, c, o) ↦ elim prechecks-cases [
      | inl (path, d) ↦ cc
      | inr (inl (t, d)) ↦
          let s : open_session w p ≡ (p, err (bad_bundle t)) = cc in
          rw s (λ h. inl (t, refl), λ h. refl)
      | inr (inr (t, d)) ↦
          let s : open_session w p ≡ (p, err (unlock_env t)) = cc in
          rw s (λ h. inr (inl (t, refl)), λ h. refl)
    ]
    | inr (inl (c, o)) ↦ elim prechecks-cases [
      | inl (path, d) ↦ cc
      | inr (inl (t, d)) ↦ cc
      | inr (inr (t, d)) ↦ cc
    ]
    | inr (inr (inl (path, c, t, o))) ↦ rw o (λ h. inr (inr refl), λ h. refl)
    | inr (inr (inr (path, c, f, o))) ↦
        let q = record p { bootstrapped = true } in
        rw o (
          λ h.
              let e : true ≡ false =
                sym (bootstrap-flag w path q) ∙ ap (λ (x : Process). x.bootstrapped) h ∙ f in
              cc,
          λ h. let e = early_code-true _ h in let d = bootstrap-late path q in cc,
        )
  ]
