-- ===== src/Probes/Programs/PixelCheck.antt =====
-- probes/src/bin/pixelcheck.rs: the fetched pixels of a fixture against the colours that its textures were
-- filled with. The dominant colour of a texture and its share are only printed, and are not modelled.
-- The offsets are sums of a product of a `u16` and a `u32` and a product of a `u32` and 4: they do not wrap.
pub mod Verdicts
pub mod Judged
pub mod Success
use gputools_replay.Prelude.{
  bytes_eq, ℕ, zero, suc, ◌+◌, ◌*◌, min, String, Bool, true, false, Option, none, some, List, [],
  ◌∷◌, Outcome, ok, err, panic, ◌>>=◌, ltb, ◌==◌, if◌then◌else◌, slice,
}
use gputools_replay.Plist.{Plist}
use gputools_replay.Probes.Records.{InfoRecord}
use gputools_replay.Probes.Programs.{
  ProgramError, Exit, success, failure, aborted, Fetch, sweep_requests, fetch_records, payload_of,
}

pub record Truth : Type 0 where
  pub label : String
  pub bgra : List ℕ
  pub written : Option (ℕ × ℕ)
  pub stored : Bool

abbrev pub texture_of_colour : String → (b g r a : ℕ) → Bool → Truth
texture_of_colour label b g r a stored = record {
  label = label;
  bgra = b ∷ g ∷ r ∷ a ∷ [];
  written = none;
  stored = stored;
}

-- `truth`
unfoldable pub truth : ℕ → Option Truth
truth width =
    if width == 16
    then some (texture_of_colour "private_rt_read" 0 0 255 255 false)
    else if width == 32
    then some (texture_of_colour "shared_rt_read" 0 255 0 255 false)
    else if width == 48
    then some (texture_of_colour "private_rt_only" 255 0 0 255 false)
    else if width == 64
    then some (texture_of_colour "private_blit_src" 0 255 255 255 true)
    else if width == 80
    then some (record {
      label = "private_blit_dst";
      bgra = 0 ∷ 255 ∷ 255 ∷ 255 ∷ [];
      written = some (64, 64);
      stored = true;
    })
    else if width == 96
    then some (texture_of_colour "shared_cpu_upload" 255 0 255 255 false)
    else if width == 112
    then some (texture_of_colour "late_created" 255 255 0 255 false)
    else none

pub record Verdict : Type 0 where
  pub label : String
  pub width : ℕ
  pub checked : ℕ
  pub mismatches : ℕ
  pub stored : Bool

-- The two counters of the loops.
pub record Tally : Type 0 where
  pub checked : ℕ
  pub mismatches : ℕ

-- The body of the inner loop, for what `payload.get(i..i + 4)` gives.
abbrev pub tally_pixel : List ℕ → Option (List ℕ) → Tally → Tally
tally_pixel bgra none t = t
tally_pixel bgra (some px) t = record {
  checked = t.checked + 1;
  mismatches = if bytes_eq px bgra then t.mismatches else t.mismatches + 1;
}

-- `payload.get(i..i + 4)`, for `i = y * bpr + x * 4`
abbrev pub pixel_at : List ℕ → (bpr x y : ℕ) → Option (List ℕ)
pixel_at payload bpr x y = slice payload (y * bpr + x * 4) (y * bpr + x * 4 + 4)

module _ (bgra payload : List ℕ) (bpr : ℕ) where
  -- The inner loop, with `k` pixels left from column `x` on.
  unfoldable pub row_loop : ℕ → (x y : ℕ) → Tally → Tally
  row_loop zero x y t = t
  row_loop (suc k) x y t = row_loop k (x + 1) y (tally_pixel bgra (pixel_at payload bpr x y) t)

  -- The outer loop over rows of `w` pixels, with `k` rows left from row `y` on.
  unfoldable pub rows_loop : ℕ → (y w : ℕ) → Tally → Tally
  rows_loop zero y w t = t
  rows_loop (suc k) y w t = rows_loop k (y + 1) w (row_loop w 0 y t)

-- `t.written.unwrap_or((w, h))`
abbrev pub written_or : Option (ℕ × ℕ) → ℕ × ℕ → ℕ × ℕ
written_or none whole = whole
written_or (some part) whole = part

-- The columns and the rows that the loops go through.
abbrev pub columns : Truth → InfoRecord → ℕ
columns t rec = min (written_or t.written (rec.width, rec.height)).0 rec.width

abbrev pub lines : Truth → InfoRecord → ℕ
lines t rec = min (written_or t.written (rec.width, rec.height)).1 rec.height

-- `check`, from the truth and the payload on.
abbrev pub verdict_of : Truth → InfoRecord → List ℕ → Verdict
verdict_of t rec payload =
    let n =
      rows_loop t.bgra payload rec.bytes_per_row (lines t rec) 0 (columns t rec)
        (record { checked = 0; mismatches = 0 }) in
    record {
      label = t.label;
      width = rec.width;
      checked = n.checked;
      mismatches = n.mismatches;
      stored = t.stored;
    }

-- The two `?` of `check`.
abbrev pub check_with : InfoRecord → Option Truth → Option (List ℕ) → Option Verdict
check_with rec none payload = none
check_with rec (some t) none = none
check_with rec (some t) (some payload) = some (verdict_of t rec payload)

-- `check`
unfoldable pub check : InfoRecord → List ℕ → Option Verdict
check rec blob = check_with rec (truth rec.width) (payload_of blob rec)

-- What `phase` does with the verdict on a record: one on a texture that it does not know is only printed.
abbrev pub push_verdict : Option Verdict → List Verdict → List Verdict
push_verdict none vs = vs
push_verdict (some v) vs = v ∷ vs

-- The loop of `phase`.
unfoldable pub verdicts : List ℕ → List InfoRecord → List Verdict
verdicts blob [] = []
verdicts blob (rec ∷ recs) = push_verdict (check rec blob) (verdicts blob recs)

-- `before.iter().filter(|v| v.stored)`, and how many of them have a mismatch.
unfoldable pub stored_ones : List Verdict → List Verdict
stored_ones [] = []
stored_ones (v ∷ vs) = if v.stored then v ∷ stored_ones vs else stored_ones vs

unfoldable pub wrong_ones : List Verdict → ℕ
wrong_ones [] = 0
wrong_ones (v ∷ vs) = (if ltb 0 v.mismatches then 1 else 0) + wrong_ones vs

-- The end of `main`, for the verdicts before playback.
unfoldable pub judge : List Verdict → Exit
judge before = elim (stored_ones before) [
  | [] ↦ failure
  | v ∷ vs ↦ if wrong_ones (v ∷ vs) == 0 then success else failure
]

-- What `main` does with the verdicts of both phases.
abbrev pub judge_both :
    Outcome ProgramError (List Verdict) → Outcome ProgramError (List Verdict) → Exit
judge_both (ok before) (ok after) = judge before
judge_both (ok before) (err e) = failure
judge_both (ok before) panic = aborted
judge_both (err e) after = failure
judge_both panic after = aborted

module _ {V D : Type 0} (p : Plist V D) where
  -- `phase`
  unfoldable pub phase : Fetch → ℕ → Outcome ProgramError (List Verdict)
  phase fetch max_ref = do
    got ← fetch_records p fetch (sweep_requests max_ref)
    ok (verdicts got.0.blob got.1)

  -- `main` from the open session on, for the session's fetch before and after `play_all`.
  unfoldable pub pixelcheck_run : (before after : Fetch) → ℕ → Exit
  pixelcheck_run before after max_ref = judge_both (phase before max_ref) (phase after max_ref)
