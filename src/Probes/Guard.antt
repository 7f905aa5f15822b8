-- ===== src/Probes/Guard.antt =====
-- probes/src/guard.rs: the checks before a bundle is loaded.
use gputools_replay.Prelude.{
  String, Bool-cases, List, [], ◌∷◌, Outcome, ok, err, map_err, if◌then◌else◌, ◌≡◌, inl, inr, refl,
}
use gputools_replay.Errors.{no_bundle, no_entry, bad_bundle}
use gputools_replay.Errors
use gputools_replay.Session.{World, check_unlock_env}
use gputools_replay.Session
use gputools_replay.Probes.{GuardError, missing_bundle, not_a_capture_bundle}

-- `REQUIRED_ENTRIES`
abbrev pub required_entries : List String
required_entries = "index" ∷ "metadata" ∷ []

module _ (w : World) where
  -- The loop over the entries that are left.
  unfoldable pub check_entries : List String → Outcome GuardError (Unit {0})
  check_entries [] = ok tt
  check_entries (entry ∷ entries) =
      let rest = check_entries entries in
      if w.is_file entry then rest else err (not_a_capture_bundle w.display entry)

  -- `check_bundle_shape`
  unfoldable pub check_bundle_shape : Outcome GuardError (Unit {0})
  check_bundle_shape =
      if w.exists then check_entries required_entries else err (missing_bundle w.display)

-- The error of the library that says the same.
abbrev pub as_session_error : GuardError → Errors.SessionError
as_session_error (missing_bundle path) = bad_bundle (no_bundle path)
as_session_error (not_a_capture_bundle path missing) = bad_bundle (no_entry path missing)

check_entries-agrees :
    (w : World) (entries : List String)
    → Session.check_entries w entries ≡ map_err as_session_error (check_entries w entries)
unfolding Session.check_entries check_entries
check_entries-agrees w [] = refl
check_entries-agrees w (entry ∷ entries) = elim (Bool-cases (w.is_file entry)) [
  | inl t ↦ rw t (check_entries-agrees w entries)
  | inr t ↦ rw t refl
]

-- The guard of the probes and that of the library refuse the same bundles, with the same message.
pub check_bundle_shape-agrees :
    (w : World) → Session.check_bundle_shape w ≡ map_err as_session_error (check_bundle_shape w)
unfolding Session.check_bundle_shape check_bundle_shape Session.check_entries check_entries
check_bundle_shape-agrees w = elim (Bool-cases w.exists) [
  | inl t ↦ simp t (check_entries-agrees w required_entries)
  | inr t ↦ rw t refl
]
