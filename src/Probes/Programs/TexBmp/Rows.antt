-- ===== src/Probes/Programs/TexBmp/Rows.antt =====
-- The row loops of texbmp.rs against the rows of the payload, cut out one by one.
use gputools_replay.Prelude.{
  ℕ, zero, suc, ◌+◌, ◌*◌, ◌^◌, ◌≤◌, ◌<◌, ◌≡◌, refl, sym, ap, ◌∙◌, List, [], ◌∷◌, ◌++◌, ok, err,
  panic, some, none, arith, length, take, drop, length-take, length-drop, mul_usize, add_usize,
  slice, slice_in, slice_past, All, ◌⊎◌, inl, inr,
}
use native.Mathlib.Nat.{mod-eq_of_lt}
use native.Mathlib.Decide.{dec_le}
use mathlib.Core.List.{append-nil, append_assoc}
use gputools_replay.Image.Packed.{row_slices, concat}
use gputools_replay.Probes.Programs.{message}
use gputools_replay.Probes.Programs.TexBmp.{packed_loop, bmp_loop}

-- The rows from the last of a list to the first.
abbrev pub flipped : List (List ℕ) → List ℕ
flipped [] = []
flipped (r ∷ rs) = flipped rs ++ r

flipped-snoc : (rs : List (List ℕ)) (r : List ℕ) → flipped (rs ++ r ∷ []) ≡ r ++ flipped rs
flipped-snoc [] r = sym (append-nil r)
flipped-snoc (s ∷ rs) r = rw (flipped-snoc rs r) (append_assoc r (flipped rs) s)

-- Each of the first `h` rows of `t` bytes ends within the payload.
abbrev pub RowsIn : (stride t : ℕ) → List ℕ → ℕ → Type 0
RowsIn stride t px h = (y : ℕ) → y < h → y * stride + t ≤ length px

module _ (stride t : ℕ) (px : List ℕ) (hs : stride < 2 ^ 32) (ht : t < 2 ^ 35) where
  small : (y : ℕ) → y < 2 ^ 16 → y * stride < 2 ^ 48
  small y h = grind arith

  row_in :
      (y : ℕ)
      → y < 2 ^ 16
      → y * stride + t ≤ length px
      → slice px (mul_usize y stride) (add_usize (mul_usize y stride) t)
        ≡ some (take t (drop (y * stride) px))
  row_in y hy h =
      let start : mul_usize y stride ≡ y * stride = mod-eq_of_lt (omega (arith, small y hy)) in
      let stop : add_usize (y * stride) t ≡ y * stride + t =
        mod-eq_of_lt (omega (arith, small y hy)) in
      rw (start, stop) (slice_in px (y * stride) t h)

  row_out :
      (y : ℕ)
      → y < 2 ^ 16
      → length px < y * stride + t
      → slice px (mul_usize y stride) (add_usize (mul_usize y stride) t) ≡ none
  row_out y hy h =
      let start : mul_usize y stride ≡ y * stride = mod-eq_of_lt (omega (arith, small y hy)) in
      let stop : add_usize (y * stride) t ≡ y * stride + t =
        mod-eq_of_lt (omega (arith, small y hy)) in
      rw (start, stop) (slice_past px (y * stride) (y * stride + t) h)

  RowsIn-last : (h : ℕ) → h * stride + t ≤ length px → RowsIn stride t px (suc h)
  RowsIn-last h le y lt = grind arith

  -- All rows are there, or there is a last row and it is not.
  pub RowsIn-cases :
      (h : ℕ) → RowsIn stride t px h ⊎ ((k : ℕ) × (h ≡ suc k) × (length px < k * stride + t))
  RowsIn-cases zero = inl (λ y lt. absurd (omega arith))
  RowsIn-cases (suc k) = elim (dec_le (k * stride + t) (length px)) [
    | yes le ↦ inl (RowsIn-last k le)
    | no gt ↦ inr (k, refl, omega arith)
  ]

  pub packed_loop-in :
      (k y : ℕ) (out : List ℕ)
      → y + k ≤ 2 ^ 16
      → RowsIn stride t px (y + k)
      → packed_loop k y stride t px out ≡ ok (out ++ concat (row_slices k y stride t px))
  unfolding packed_loop row_slices
  packed_loop-in zero y out hy r = ap ok (sym (append-nil out))
  packed_loop-in (suc k) y out hy r = rw (row_in y (omega arith) (r y (omega arith))) (
      packed_loop-in k (y + 1) _ (omega arith) (λ i lt. r i (omega arith))
      ∙ ap ok (append_assoc out _ _))

  pub packed_loop-out :
      (k y : ℕ) (out : List ℕ)
      → y + suc k ≤ 2 ^ 16
      → length px < (y + k) * stride + t
      → packed_loop (suc k) y stride t px out ≡ panic
  unfolding packed_loop
  packed_loop-out zero y out hy h =
      let e : (y + 0) * stride ≡ y * stride = ap (λ n. n * stride) (omega arith) in
      rw (row_out y (omega arith) (omega arith)) refl
  packed_loop-out (suc k) y out hy h = elim (dec_le (y * stride + t) (length px)) [
    | no gt ↦ rw (row_out y (omega arith) (omega arith)) refl
    | yes le ↦
        let e : (y + 1 + k) * stride ≡ (y + suc k) * stride = ap (λ n. n * stride) (omega arith) in
        rw (row_in y (omega arith) le) (packed_loop-out k (y + 1) _ (omega arith) (omega arith))
  ]

  row_slices-snoc :
      (k y : ℕ)
      → row_slices (suc k) y stride t px
        ≡ row_slices k y stride t px ++ take t (drop ((y + k) * stride) px) ∷ []
  unfolding row_slices
  row_slices-snoc zero y = ap (λ n. take t (drop (n * stride) px) ∷ []) (omega arith)
  row_slices-snoc (suc k) y = ap (◌∷◌ (take t (drop (y * stride) px))) (
      row_slices-snoc k (y + 1)
      ∙ ap (λ n. row_slices k (y + 1) stride t px ++ take t (drop (n * stride) px) ∷ [])
          (omega arith))

  pub bmp_loop-in :
      (h : ℕ) (out : List ℕ)
      → h ≤ 2 ^ 16
      → RowsIn stride t px h
      → bmp_loop h stride t px out ≡ ok (out ++ flipped (row_slices h 0 stride t px))
  unfolding bmp_loop
  bmp_loop-in zero out hy r = unfold row_slices in ap ok (sym (append-nil out))
  bmp_loop-in (suc y) out hy r =
      let last : row_slices (suc y) 0 stride t px
          ≡ row_slices y 0 stride t px ++ take t (drop (y * stride) px) ∷ [] =
        row_slices-snoc y 0
        ∙ ap (λ n. row_slices y 0 stride t px ++ take t (drop (n * stride) px) ∷ [])
            (omega arith) in
      rw (row_in y (omega arith) (r y (omega arith))) (
        bmp_loop-in y _ (omega arith) (λ i lt. r i (omega arith))
        ∙ ap ok (
            append_assoc out _ _
            ∙ ap (◌++◌ out) (
                sym (
                  ap flipped last
                  ∙ flipped-snoc (row_slices y 0 stride t px) (take t (drop (y * stride) px))))))

  pub bmp_loop-out :
      (k : ℕ) (out : List ℕ)
      → suc k ≤ 2 ^ 16
      → length px < k * stride + t
      → bmp_loop (suc k) stride t px out ≡ err (message "row out of range")
  unfolding bmp_loop
  bmp_loop-out k out hy h = rw (row_out k (omega arith) h) refl

  pub row_slices-length :
      (k y : ℕ)
      → RowsIn stride t px (y + k)
      → All (λ r. length r ≡ t) (row_slices k y stride t px)
        × (length (row_slices k y stride t px) ≡ k)
  unfolding row_slices
  row_slices-length zero y r = (tt, refl)
  row_slices-length (suc k) y r =
      let (all, n) = row_slices-length k (y + 1) (λ i lt. r i (omega arith)) in
      (
        (
          omega (
            arith,
            length-take t (drop (y * stride) px),
            length-drop (y * stride) px,
            r y (omega arith),
          ),
          all,
        ),
        omega arith,
      )
