-- ===== src/Image/Typed.antt =====
-- `rows` of image.rs: the typed view of an image, row by row.
use gputools_replay.Prelude.{
  ℕ, zero, suc, ◌+◌, ◌*◌, ◌%◌, ◌<◌, ◌≡◌, ◌≢◌, ◌⊎◌, refl, sym, ap, ◌∙◌, List, [], ◌∷◌, true, false,
  Bool-cases, ok, err, some, none, arith, length, map, ◌==◌, ==_iff, if◌then◌else◌, inl, inr, take,
  drop, subst, ◌≤◌, length-take, length-drop, mul_usize, All,
}
use native.Mathlib.Nat.{mod-eq_of_lt}
use native.Mathlib.Decide.{dec_le}
use gputools_replay.Errors.{truncated, misaligned, format_mismatch}
use gputools_replay.Bytes.{Pod, IsPod, payload_addr}
use gputools_replay.Image.{Image, aspect_bpp, checked_bpp, row_loop, rows, packed_bytes, contents}
use gputools_replay.Image.Bounds.{IsWire, fits, checked_len-eq, aspect_bpp_bounds, mul_usize_fits}
use gputools_replay.Image.Packed.{
  row_slices, RowsFit, RowsFit-next, row_slice, fits-RowsFit, concat, tight_rows, map_ok,
  packed_bytes-eq,
}

-- The address of row `y`.
abbrev pub row_addr : Image → ℕ → ℕ
row_addr img y = payload_addr img.payload + y * img.bytes_per_row

module _ {P : Type 0} (pod : Pod P) (v : IsPod pod) where
  -- A cast of whole elements succeeds exactly on an aligned start, and keeps the bytes.
  pub cast_cases :
      (addr k : ℕ) (part : List ℕ)
      → 0 < pod.size_of
      → length part ≡ k * pod.size_of
      → ((ps : List P) × (pod.try_cast_slice addr part ≡ some ps)
          × (length ps ≡ k)
          × (pod.to_bytes ps ≡ part)
          × (addr % pod.align_of ≡ 0))
        ⊎ ((pod.try_cast_slice addr part ≡ none) × (addr % pod.align_of ≢ 0))
  cast_cases addr k part pos len = elim (Bool-cases (addr % pod.align_of == 0)) [
    | inl a ↦
        let z : addr % pod.align_of ≡ 0 = (==_iff _ _).0 a in
        let (ps, c, l, t) = v.cast_aligned addr k part pos z len in inl (ps, c, l, t, z)
    | inr a ↦
        let z : addr % pod.align_of ≢ 0 = λ e. ground arith in
        inr (v.cast_misaligned addr part z, z)
  ]

  module _ (img : Image) (bs : List ℕ) (pos : 0 < pod.size_of) where
    row_loop_cases :
        (k y : ℕ)
        → RowsFit k y img.bytes_per_row (img.width * pod.size_of) (length bs)
        → mul_usize img.width pod.size_of ≡ img.width * pod.size_of
        → ((pss : List (List P)) × (row_loop pod img k y pod.size_of bs ≡ ok pss)
            × (map pod.to_bytes pss ≡ row_slices k y img.bytes_per_row (img.width * pod.size_of) bs)
            × All (λ ps. length ps ≡ img.width) pss
            × (length pss ≡ k)
            × ((j : ℕ) → y ≤ j → j < y + k → row_addr img j % pod.align_of ≡ 0))
          ⊎ ((row_loop pod img k y pod.size_of bs ≡ err (misaligned pod.align_of))
              × (j : ℕ) × (j < y + k)
              × (row_addr img j % pod.align_of ≢ 0))
    unfolding row_loop row_slices
    row_loop_cases zero y f m = inl ([], refl, refl, tt, refl, λ j a b. absurd (omega arith))
    row_loop_cases (suc k) y f m =
        let start : mul_usize y img.bytes_per_row ≡ y * img.bytes_per_row =
          mod-eq_of_lt (omega (arith, f.no_wrap)) in
        let part = take (img.width * pod.size_of) (drop (y * img.bytes_per_row) bs) in
        let len : length part ≡ img.width * pod.size_of = omega (
          arith,
          f.tight_le,
          f.within,
          length-take (img.width * pod.size_of) (drop (y * img.bytes_per_row) bs),
          length-drop (y * img.bytes_per_row) bs,
        ) in
        rw (m, row_slice k y img.bytes_per_row (img.width * pod.size_of) bs f, start)
          (elim (cast_cases (row_addr img y) img.width part pos len) [
            | inl (ps, c, l, t, z) ↦ rw c (elim (row_loop_cases k (y + 1) (RowsFit-next f) m) [
              | inl (pss, r, ts, ls, n, zs) ↦ rw r (
                  inl (
                    ps ∷ pss,
                    refl,
                    rw (t, ts),
                    (l, ls),
                    ap suc n,
                    λ j a b. elim (dec_le (y + 1) j) [
                      | yes far ↦ zs j far (omega arith)
                      | no near ↦
                          let here : y ≡ j = omega arith in
                          subst (λ i. row_addr img i % pod.align_of ≡ 0) here z
                    ],
                  ))
              | inr (r, j, lt, z2) ↦ rw r (inr (refl, j, omega (arith, lt), z2))
            ])
            | inr (c, z) ↦ rw c (inr (refl, y, omega arith, z))
          ])

  module _ (img : Image) (bs : List ℕ) (w : IsWire img bs) where
    -- The rows as elements: their bytes are the tight rows, which `packed_bytes` joins.
    pub record IsRows (pss : List (List P)) : Type 0 where
      pub same_bytes : map pod.to_bytes pss ≡ tight_rows img bs w pod.size_of
      pub packed : map_ok contents (packed_bytes img) ≡ ok (concat (map pod.to_bytes pss))
      pub widths : All (λ ps. length ps ≡ img.width) pss
      pub height : length pss ≡ img.height
      pub aligned : (j : ℕ) → j < img.height → row_addr img j % pod.align_of ≡ 0

    pub packed_fit :
        aspect_bpp img ≡ ok pod.size_of
        → fits img bs pod.size_of ≡ true
        → map_ok contents (packed_bytes img) ≡ ok (concat (tight_rows img bs w pod.size_of))
    packed_fit e h = packed_bytes-eq img bs w ∙ rw (e, h)

    rows_gate :
        (b : ℕ)
        → aspect_bpp img ≡ ok b
        → rows pod img ≡ (
            if pod.size_of == b
            then (if fits img bs b then row_loop pod img img.height 0 b bs else err truncated)
            else err (format_mismatch pod.size_of b))
    unfolding rows checked_bpp
    rows_gate b e =
        rw (e, w.readable)
          (elim (Bool-cases (pod.size_of == b)) [
            | inl t ↦
                rw (t, checked_len-eq img bs b w (aspect_bpp_bounds img e).1)
                  (elim (Bool-cases (fits img bs b)) [ inl h ↦ rw h | inr h ↦ rw h ])
            | inr t ↦ rw t
          ])

    row_loop-IsRows :
        aspect_bpp img ≡ ok pod.size_of
        → fits img bs pod.size_of ≡ true
        → ((pss : List (List P)) × (row_loop pod img img.height 0 pod.size_of bs ≡ ok pss)
            × IsRows pss)
          ⊎ ((row_loop pod img img.height 0 pod.size_of bs ≡ err (misaligned pod.align_of))
              × (j : ℕ) × (j < img.height)
              × (row_addr img j % pod.align_of ≢ 0))
    row_loop-IsRows e h =
        let f = fits-RowsFit img bs pod.size_of w h in
        let small = aspect_bpp_bounds img e in
        let m : mul_usize img.width pod.size_of ≡ img.width * pod.size_of =
          mul_usize_fits img.width pod.size_of w.width_u32 (omega (arith, small.1)) in
        elim (row_loop_cases img bs small.0 img.height 0 f m) [
          | inl (pss, r, t, ls, n, zs) ↦ inl (
            pss,
            r,
            record {
              same_bytes = t;
              packed = packed_fit e h ∙ ap (λ x. ok (concat x)) (sym t);
              widths = ls;
              height = n;
              aligned = λ j lt. zs j (omega arith) (omega arith);
            },
          )
          | inr (r, j, lt, z) ↦ inr (r, j, omega (arith, lt), z)
        ]

    -- `rows`, of an image with 32-bit geometry, a readable payload and elements of `b` bytes, and of
    -- an element type that `bytemuck` casts as documented: `FormatMismatch` exactly if the element type
    -- has another size; else `Truncated` exactly if a row exceeds the stride or the rows exceed the
    -- payload; else all rows, `height` of them with `width` elements each, whose bytes are what
    -- `packed_bytes` returns, if each row starts at a multiple of the element type's alignment, and
    -- `Misaligned` if some row does not.
    pub rows_cases :
        {b : ℕ}
        → aspect_bpp img ≡ ok b
        → ((pod.size_of ≢ b) × (rows pod img ≡ err (format_mismatch pod.size_of b)))
          ⊎ ((pod.size_of ≡ b)
              × (((fits img bs b ≡ false) × (rows pod img ≡ err truncated))
                  ⊎ ((fits img bs b ≡ true)
                      × (((pss : List (List P)) × (rows pod img ≡ ok pss) × IsRows pss)
                          ⊎ ((rows pod img ≡ err (misaligned pod.align_of))
                              × (j : ℕ) × (j < img.height)
                              × (row_addr img j % pod.align_of ≢ 0))))))
    rows_cases {b} e = elim (Bool-cases (pod.size_of == b)) [
      | inr t ↦ inl (λ s. ground arith, rows_gate b e ∙ rw t)
      | inl t ↦
          let s : pod.size_of ≡ b = (==_iff _ _).0 t in
          inr (
            s,
            elim (Bool-cases (fits img bs b)) [
              | inr h ↦ inl (h, rows_gate b e ∙ rw (t, h))
              | inl h ↦
                  let gate : rows pod img ≡ row_loop pod img img.height 0 pod.size_of bs =
                    rows_gate b e ∙ rw (t, h, s) in
                  inr (
                    h,
                    elim (row_loop-IsRows (e ∙ ap ok (sym s)) (rw s h)) [
                      | inl (pss, r, i) ↦ inl (pss, gate ∙ r, i)
                      | inr (r, j, lt, z) ↦ inr (gate ∙ r, j, lt, z)
                    ],
                  )
            ],
          )
    ]
