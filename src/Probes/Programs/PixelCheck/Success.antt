-- ===== src/Probes/Programs/PixelCheck/Success.antt =====
-- pixelcheck.rs: when the program ends with success.
use gputools_replay.Prelude.{
  ℕ, ◌≡◌, ◌↔◌, inl, inr, refl, Bool-cases, List, [], ◌∷◌, Outcome, ok, err, panic, All, arith, ◌==◌,
  if◌then◌else◌, >>=-eq-ok,
}
use gputools_replay.Plist.{Plist}
use gputools_replay.Probes.Records.{InfoRecord}
use gputools_replay.Probes.Envelope.{Reply}
use gputools_replay.Probes.Programs.{
  ProgramError, success, failure, Fetch, sweep_requests, fetch_records,
}
use gputools_replay.Probes.Programs.PixelCheck.{
  Verdict, verdicts, stored_ones, wrong_ones, judge, judge_both, phase, pixelcheck_run,
}
use gputools_replay.Probes.Programs.PixelCheck.Judged.{
  IsJudged, IsRight, AnyRecord, Verified, All-verdicts,
}

judge-success :
    {A B : Type 0} (vs : List Verdict)
    → Verified A B (stored_ones vs)
    → (judge vs ≡ success) ↔ (B × A)
unfolding judge
judge-success {A} {B} vs v = split (stored_ones vs) refl
  where
    split : (ws : List Verdict) → stored_ones vs ≡ ws → (judge vs ≡ success) ↔ (B × A)
    split [] e = (
      λ h. absurd (let g : failure ≡ success = rw (e, judge) at h in cc),
      λ h. absurd (v.some_kept.1 h.0 e),
    )
    split (w ∷ ws) e = elim (Bool-cases (wrong_ones (w ∷ ws) == 0)) [
      | inl z ↦ (
        λ h. (
          v.some_kept.0 (λ g. let bad : (w ∷ ws) ≡ [] = cc in cc),
          v.none_wrong.0 (rw e (ground arith)),
        ),
        λ h. rw (e, judge) (rw z refl),
      )
      | inr z ↦ (
        λ h.
            let g : (if wrong_ones (w ∷ ws) == 0 then success else failure) ≡ success =
              rw (e, judge) at h in
            absurd (let bad : failure ≡ success = rw z at g in cc),
        λ h.
            let zero_wrong : wrong_ones (w ∷ ws) ≡ 0 = rw e at (v.none_wrong.1 h.1) in
            absurd (ground arith),
      )
    ]

judge_both-success :
    (a b : Outcome ProgramError (List Verdict))
    → judge_both a b ≡ success
    → ((vs : List Verdict) × (a ≡ ok vs) × (judge vs ≡ success))
      × ((ws : List Verdict) × (b ≡ ok ws))
judge_both-success (ok vs) (ok ws) h = ((vs, refl, h), (ws, refl))
judge_both-success (ok vs) (err e) h = cc (h)
judge_both-success (ok vs) panic h = cc (h)
judge_both-success (err e) b h = cc (h)
judge_both-success panic b h = cc (h)

module _ {V D : Type 0} (p : Plist V D) (before after : Fetch) (max_ref : ℕ) where
  -- The records of a sweep among which stored contents are, all of them right.
  abbrev pub IsSound : Type 0
  IsSound =
      (reply : Reply) × (recs : List InfoRecord) × (fetch_records p before (sweep_requests max_ref)
        ≡ ok (reply, recs))
      × AnyRecord (IsJudged reply.blob) recs
      × All (IsRight reply.blob) recs

  phase-ok :
      (fetch : Fetch) (vs : List Verdict)
      → phase p fetch max_ref ≡ ok vs
      → (got : Reply × List InfoRecord) × (fetch_records p fetch (sweep_requests max_ref) ≡ ok got)
        × (verdicts got.0.blob got.1 ≡ vs)
  unfolding phase
  phase-ok fetch vs h =
      let (got, e, last) = >>=-eq-ok (fetch_records p fetch (sweep_requests max_ref)) _ h in
      (got, e, cc (last))

  phase-made :
      (fetch : Fetch) (got : Reply × List InfoRecord)
      → fetch_records p fetch (sweep_requests max_ref) ≡ ok got
      → phase p fetch max_ref ≡ ok (verdicts got.0.blob got.1)
  unfolding phase
  phase-made fetch got e = rw e refl

  -- `pixelcheck` ends with success exactly when the sweep after playback is read too, and the sweep before it
  -- is read and has what is judged, which is all right. What is judged is each record whose width is that of
  -- a texture with stored contents and whose payload lies in the reply. It is right if each pixel that lies in
  -- the region that the application wrote, the first 64 rows and columns of `private_blit_dst` and else the whole
  -- texture, and in the payload is of the texture's colour. Nothing is asked of a pixel outside that region or past
  -- the payload's end, nor of the colours after playback.
  pub pixelcheck-success_iff : (pixelcheck_run p before after max_ref ≡ success) ↔ (
      IsSound
      × ((later : Reply × List InfoRecord) × (fetch_records p after (sweep_requests max_ref)
            ≡ ok later)))
  unfolding pixelcheck_run
  pixelcheck-success_iff = (
    λ h.
        let ((vs, a, j), (ws, b)) =
          judge_both-success (phase p before max_ref) (phase p after max_ref) h in
        let ((reply, recs), e, made) = phase-ok before vs a in
        let (later, f, made_later) = phase-ok after ws b in
        let (any, all) =
          (judge-success (verdicts reply.blob recs) (All-verdicts reply.blob recs)).0 (rw made j) in
        ((reply, recs, e, any, all), (later, f)),
    λ ((reply, recs, e, any, all), (later, f)).
        rw (phase-made before (reply, recs) e, phase-made after later f)
          ((judge-success (verdicts reply.blob recs) (All-verdicts reply.blob recs)).1 (any, all)),
  )
