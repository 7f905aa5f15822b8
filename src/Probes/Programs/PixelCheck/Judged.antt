-- ===== src/Probes/Programs/PixelCheck/Judged.antt =====
-- pixelcheck.rs: which records are judged, and when what is judged is right.
use gputools_replay.Prelude.{
  ℕ, ◌+◌, ◌≡◌, ◌≢◌, ◌↔◌, ◌⊎◌, inl, inr, refl, true, Bool-cases, Option, none, some, List, [], ◌∷◌,
  ◌++◌, All, arith, subst,
}
use gputools_replay.Probes.Records.{InfoRecord}
use gputools_replay.Probes.Programs.{payload_of}
use gputools_replay.Probes.Programs.PixelCheck.{
  Truth, truth, Verdict, verdict_of, check, check_with, push_verdict, verdicts, stored_ones,
  wrong_ones,
}
use gputools_replay.Probes.Programs.PixelCheck.Verdicts.{IsExact, verdict_of-right}

-- The texture's contents are stored in the capture, and the reply has the payload.
abbrev pub IsStored : List ℕ → InfoRecord → Truth → List ℕ → Type 0
IsStored blob rec t payload =
    (truth rec.width ≡ some t) × (t.stored ≡ true) × (payload_of blob rec ≡ some payload)

-- The record has stored contents, and so is judged.
abbrev pub IsJudged : List ℕ → InfoRecord → Type 0
IsJudged blob rec = (t : Truth) × (payload : List ℕ) × IsStored blob rec t payload

-- Stored contents have the colour wherever they are looked at.
abbrev pub IsRight : List ℕ → InfoRecord → Type 0
IsRight blob rec =
    (t : Truth) (payload : List ℕ) → IsStored blob rec t payload → IsExact t rec payload

abbrev pub AnyRecord : (InfoRecord → Type 0) → List InfoRecord → Type 0
AnyRecord P [] = ⊥
AnyRecord P (x ∷ xs) = P x ⊎ AnyRecord P xs

-- What the verdicts on some records, of which the stored ones are kept, say of them.
pub record Verified (right judged : Type 0) (vs : List Verdict) : Type 0 where
  pub none_wrong : (wrong_ones vs ≡ 0) ↔ right
  pub some_kept : (vs ≢ []) ↔ judged

module _ (blob : List ℕ) (rec : InfoRecord) where
  one_verdict :
      (known : Option Truth) (there : Option (List ℕ))
      → truth rec.width ≡ known
      → payload_of blob rec ≡ there
      → Verified
          (IsRight blob rec)
          (IsJudged blob rec)
          (stored_ones (push_verdict (check_with rec known there) []))
  unfolding wrong_ones stored_ones
  one_verdict none there e f = record {
    none_wrong = (λ h t payload (a, b, c). cc, λ h. refl);
    some_kept = (λ h. absurd (h refl), λ (t, payload, (a, b, c)) h. cc);
  }
  one_verdict (some t) none e f = record {
    none_wrong = (λ h t payload (a, b, c). cc, λ h. refl);
    some_kept = (λ h. absurd (h refl), λ (t, payload, (a, b, c)) h. cc);
  }
  one_verdict (some t) (some payload) e f = elim (Bool-cases t.stored) [
    | inl s ↦
        let (there, back) = verdict_of-right t rec payload in
        let m = (verdict_of t rec payload).mismatches in
        rw s (record {
          none_wrong = (
            λ h t' payload' (a, b, c).
                let same : t ≡ t' = cc in
                let same_payload : payload ≡ payload' = cc in
                subst (λ u. IsExact u rec payload') same
                  (subst (IsExact t rec) same_payload (there (ground (arith)))),
            λ h. let none_bad : m ≡ 0 = back (h t payload (e, s, f)) in rw none_bad,
          );
          some_kept = (λ h. (t, payload, (e, s, f)), λ j h. cc);
        })
    | inr s ↦ rw s (record {
      none_wrong = (λ h t' payload' (a, b, c). ground arith, λ h. refl);
      some_kept = (λ h. absurd (h refl), λ (t', payload', (a, b, c)) h. ground arith);
    })
  ]

stored_ones-push :
    (o : Option Verdict) (vs : List Verdict)
    → stored_ones (push_verdict o vs) ≡ stored_ones (push_verdict o []) ++ stored_ones vs
unfolding stored_ones
stored_ones-push none vs = refl
stored_ones-push (some v) vs = elim (Bool-cases v.stored) [ inl s ↦ rw s refl | inr s ↦ rw s refl ]

wrong_ones-append : (vs ws : List Verdict) → wrong_ones (vs ++ ws) ≡ wrong_ones vs + wrong_ones ws
unfolding wrong_ones
wrong_ones-append [] ws = omega arith
wrong_ones-append (v ∷ vs) ws = omega (arith, wrong_ones-append vs ws)

Verified-append :
    {A B C D : Type 0} (vs ws : List Verdict)
    → Verified A C vs
    → Verified B D ws
    → Verified (A × B) (C ⊎ D) (vs ++ ws)
Verified-append vs ws v w = record {
  none_wrong = (
    λ h. (
      v.none_wrong.0 (omega (arith, wrong_ones-append vs ws)),
      w.none_wrong.0 (omega (arith, wrong_ones-append vs ws)),
    ),
    λ h. omega (arith, wrong_ones-append vs ws, v.none_wrong.1 h.0, w.none_wrong.1 h.1),
  );
  some_kept = kept vs v.some_kept w.some_kept;
}
  where
    kept :
        {C D : Type 0} (xs : List Verdict)
        → (xs ≢ []) ↔ C
        → (ws ≢ []) ↔ D
        → (xs ++ ws ≢ []) ↔ (C ⊎ D)
    kept [] c d = (λ h. inr (d.0 h), elim [ inl x ↦ absurd (c.1 x refl) | inr y ↦ d.1 y ])
    kept (x ∷ xs) c d = (λ h. inl (c.0 (λ e. cc)), λ j e. cc)

module _ (blob : List ℕ) where
  pub All-verdicts :
      (recs : List InfoRecord)
      → Verified
          (All (IsRight blob) recs)
          (AnyRecord (IsJudged blob) recs)
          (stored_ones (verdicts blob recs))
  unfolding verdicts
  All-verdicts [] =
      unfold stored_ones wrong_ones in
      record { none_wrong = (λ h. tt, λ h. refl); some_kept = (λ h. h refl, λ h e. h) }
  All-verdicts (rec ∷ recs) =
      let one : Verified (IsRight blob rec) (IsJudged blob rec)
          (stored_ones (push_verdict (check rec blob) [])) =
        unfold check in one_verdict blob rec (truth rec.width) (payload_of blob rec) refl refl in
      rw (stored_ones-push (check rec blob) (verdicts blob recs)) (
        Verified-append (stored_ones (push_verdict (check rec blob) []))
          (stored_ones (verdicts blob recs)) one (All-verdicts recs))
