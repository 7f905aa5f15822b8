-- ===== src/Probes/Programs/PixelCheck/Verdicts.antt =====
-- pixelcheck.rs: when the program ends with success.
use gputools_replay.Prelude.{
  bytes_eq, bytes_eq_iff, ℕ, zero, suc, ◌+◌, ◌≤◌, ◌<◌, ◌≡◌, ◌↔◌, inl, inr, refl, true, Bool-cases,
  Option, none, some, List, arith, subst,
}
use native.Mathlib.Decide.{dec_le}
use gputools_replay.Probes.Records.{InfoRecord}
use gputools_replay.Probes.Programs.{}
use gputools_replay.Probes.Programs.PixelCheck.{
  Truth, Tally, tally_pixel, pixel_at, row_loop, rows_loop, columns, lines, verdict_of,
}

-- The four bytes at a place have the colour, where the payload has them.
abbrev pub Coloured : List ℕ → List ℕ → ℕ → ℕ → ℕ → Type 0
Coloured bgra payload bpr x y = (px : List ℕ) → pixel_at payload bpr x y ≡ some px → px ≡ bgra

tally_pixel-right :
    (bgra : List ℕ) (o : Option (List ℕ)) (t : Tally)
    → ((tally_pixel bgra o t).mismatches ≡ 0)
      ↔ ((t.mismatches ≡ 0) × ((px : List ℕ) → o ≡ some px → px ≡ bgra))
tally_pixel-right bgra none t = (λ h. (h, λ px e. cc), λ h. h.0)
tally_pixel-right bgra (some q) t = elim (Bool-cases (bytes_eq q bgra)) [
  | inl same ↦
      let e : q ≡ bgra = (bytes_eq_iff q bgra).0 same in
      (λ h. (rw same at h, λ px g. let back : q ≡ px = cc in cc), λ h. rw same h.0)
  | inr other ↦ (
    λ h. absurd (let n : t.mismatches + 1 ≡ 0 = rw other at h in omega arith),
    λ h. let same : bytes_eq q bgra ≡ true = (bytes_eq_iff q bgra).1 (h.1 q refl) in cc,
  )
]

module _ (bgra payload : List ℕ) (bpr : ℕ) where
  row_loop-right :
      (k x y : ℕ) (t : Tally)
      → ((row_loop bgra payload bpr k x y t).mismatches ≡ 0)
        ↔ ((t.mismatches ≡ 0) × ((i : ℕ) → x ≤ i → i < x + k → Coloured bgra payload bpr i y))
  unfolding row_loop
  row_loop-right zero x y t = (λ h. (h, λ i a b. absurd (omega arith)), λ h. h.0)
  row_loop-right (suc k) x y t =
      let next = tally_pixel bgra (pixel_at payload bpr x y) t in
      let (there, back) = row_loop-right k (x + 1) y next in
      let (one, made) = tally_pixel-right bgra (pixel_at payload bpr x y) t in
      (
        λ h.
            let (m, rest) = there h in
            let (n, here) = one m in
            (
              n,
              λ i a b. elim (dec_le (x + 1) i) [
                | yes far ↦ rest i far (omega arith)
                | no near ↦
                    let e : x ≡ i = omega arith in subst (λ j. Coloured bgra payload bpr j y) e here
              ],
            ),
        λ h. back (
          made (h.0, h.1 x (omega arith) (omega arith)),
          λ i a b. h.1 i (omega arith) (omega arith),
        ),
      )

  rows_loop-right :
      (k y w : ℕ) (t : Tally)
      → ((rows_loop bgra payload bpr k y w t).mismatches ≡ 0) ↔ (
          (t.mismatches ≡ 0)
          × ((j : ℕ) → y ≤ j → j < y + k → (i : ℕ) → i < w → Coloured bgra payload bpr i j))
  unfolding rows_loop
  rows_loop-right zero y w t = (λ h. (h, λ j a b. absurd (omega arith)), λ h. h.0)
  rows_loop-right (suc k) y w t =
      let (there, back) = rows_loop-right k (y + 1) w (row_loop bgra payload bpr w 0 y t) in
      let (one, made) = row_loop-right w 0 y t in
      (
        λ h.
            let (m, rest) = there h in
            let (n, here) = one m in
            (
              n,
              λ j a b i c. elim (dec_le (y + 1) j) [
                | yes far ↦ rest j far (omega arith) i c
                | no near ↦
                    let e : y ≡ j = omega arith in
                    subst (λ l. Coloured bgra payload bpr i l) e
                      (here i (omega arith) (omega arith))
              ],
            ),
        λ h. back (
          made (h.0, λ i a b. h.1 y (omega arith) (omega arith) i (omega arith)),
          λ j a b i c. h.1 j (omega arith) (omega arith) i c,
        ),
      )

-- Each pixel that the program looks at and that the payload has is of the texture's colour.
abbrev pub IsExact : Truth → InfoRecord → List ℕ → Type 0
IsExact t rec payload =
    (y : ℕ)
    → y < lines t rec
    → (x : ℕ) → x < columns t rec
    → Coloured t.bgra payload rec.bytes_per_row x y

pub verdict_of-right :
    (t : Truth) (rec : InfoRecord) (payload : List ℕ)
    → ((verdict_of t rec payload).mismatches ≡ 0) ↔ IsExact t rec payload
verdict_of-right t rec payload =
    let (there, back) =
      rows_loop-right t.bgra payload rec.bytes_per_row (lines t rec) 0 (columns t rec)
        (record { checked = 0; mismatches = 0 }) in
    (
      λ h y a x b. (there h).1 y (omega arith) (omega arith) x b,
      λ h. back (refl, λ y a b x c. h y (omega arith) x c),
    )
