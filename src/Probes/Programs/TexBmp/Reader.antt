-- ===== src/Probes/Programs/TexBmp/Reader.antt =====
-- texbmp.rs: what a reader of 32-bit BMP files gets out of the file that is written.
use gputools_replay.Prelude.{
  ℕ, zero, suc, ◌+◌, ◌*◌, ◌%◌, ◌^◌, ◌≤◌, ◌<◌, ◌≡◌, refl, sym, ap, ◌∙◌, Bool, ◌&&◌, List, [], ◌∷◌,
  ◌++◌, ok, err, some, none, Option, leb, le→leb, ltb, ◌==◌, if◌then◌else◌, arith, length, take,
  drop, length-drop, length-append, take-append, drop-append, drop-append_past, mul_usize, as_u32,
  All, ◌⊎◌, inl, inr,
}
use gputools_replay.Prelude.{true, take_past}
use native.Mathlib.Nat.{mod-eq_of_lt, mul_comm}
use gputools_replay.Util.{from_le_bytes}
use gputools_replay.Util.Reads.{le_at}
use gputools_replay.Image.Packed.{row_slices, concat}
use gputools_replay.Probes.Programs.{message}
use gputools_replay.Probes.Programs.TexBmp.{bmp_of, bmp_header, to_le_bytes}
use gputools_replay.Probes.Programs.TexBmp.Rows.{
  flipped, RowsIn, RowsIn-cases, bmp_loop-in, bmp_loop-out, row_slices-length,
}

-- The rows of `t` bytes that a bottom-up picture stores, from the last stored one to the first.
abbrev pub rows_up : ℕ → ℕ → List ℕ → List (List ℕ)
rows_up zero t pixels = []
rows_up (suc y) t pixels = take t (drop (y * t) pixels) ∷ rows_up y t pixels

-- What a reader checks of the headers: the magic, the length in the file, the size of the second header,
-- one plane, 32 bits a pixel and no compression. Width and height are signed, and positive here.
abbrev pub headers_ok : List ℕ → Bool
headers_ok file =
    leb 54 (length file)
    && (le_at file 0 2 == 0x4d42)
    && (le_at file 2 4 == as_u32 (length file))
    && (le_at file 14 4 == 40)
    && ltb (le_at file 18 4) (2 ^ 31)
    && ltb (le_at file 22 4) (2 ^ 31)
    && (le_at file 26 2 == 1)
    && (le_at file 28 2 == 32)
    && (le_at file 30 4 == 0)

-- The width, the height and the pixels, from the top row down.
unfoldable pub read_bmp : List ℕ → Option (ℕ × ℕ × List ℕ)
read_bmp file =
    let w = le_at file 18 4 in
    let h = le_at file 22 4 in
    let pixels = drop (le_at file 10 4) file in
    if headers_ok file && leb (h * (w * 4)) (length pixels)
    then some (w, h, concat (rows_up h (w * 4) pixels))
    else none

le_bytes-read2 : (n : ℕ) → from_le_bytes (to_le_bytes 2 n) ≡ n % 2 ^ 16
unfolding from_le_bytes to_le_bytes
le_bytes-read2 n = omega arith

le_bytes-read4 : (n : ℕ) → from_le_bytes (to_le_bytes 4 n) ≡ n % 2 ^ 32
unfolding from_le_bytes to_le_bytes
le_bytes-read4 n = omega arith

-- Rows in front of others are read as they are without those.
rows_up-append :
    (y t : ℕ) (xs ys : List ℕ) → y * t ≤ length xs → rows_up y t (xs ++ ys) ≡ rows_up y t xs
rows_up-append zero t xs ys h = refl
rows_up-append (suc y) t xs ys h =
    let fits : t ≤ length (drop (y * t) xs) = omega (arith, length-drop (y * t) xs) in
    rw (
      drop-append (y * t) xs ys (omega arith),
      take-append t (drop (y * t) xs) ys fits,
      rows_up-append y t xs ys (omega arith),
    )

length-flipped :
    (t : ℕ) (rs : List (List ℕ)) → All (λ r. length r ≡ t) rs → length (flipped rs) ≡ length rs * t
length-flipped t [] h = omega arith
length-flipped t (r ∷ rs) h = rw length-append (omega (arith, length-flipped t rs h.1))

rows_up-flipped :
    (t : ℕ) (rs : List (List ℕ))
    → All (λ r. length r ≡ t) rs
    → rows_up (length rs) t (flipped rs) ≡ rs
rows_up-flipped t [] h = refl
rows_up-flipped t (r ∷ rs) h =
    let n : length (flipped rs) ≡ length rs * t = length-flipped t rs h.1 in
    let front : drop (length rs * t) (flipped rs ++ r) ≡ r =
      ap (λ k. drop k (flipped rs ++ r)) (omega arith)
      ∙ drop-append_past (length rs * t) 0 (flipped rs) r n in
    rw
      (
        front,
        rows_up-append (length rs) t (flipped rs) r (omega (arith, n)),
        rows_up-flipped t rs h.1,
      )
      (ap (λ x. x ∷ rs) (take_past t r (omega arith)))

module _ (w h size : ℕ) (pixels : List ℕ) (hw : w < 2 ^ 31) (hh : h < 2 ^ 31)
    (hl : length pixels ≡ size) where
  abbrev file : List ℕ
  file = bmp_header w h size ++ pixels

  length_field : length file ≡ 54 + size
  unfolding bmp_header to_le_bytes
  length_field = omega arith

  size_field : le_at file 2 4 ≡ as_u32 (54 + size)
  unfolding bmp_header to_le_bytes from_le_bytes
  size_field = omega arith

  width_field : le_at file 18 4 ≡ w
  unfolding bmp_header to_le_bytes from_le_bytes
  width_field = omega arith

  height_field : le_at file 22 4 ≡ h
  unfolding bmp_header to_le_bytes from_le_bytes
  height_field = omega arith

  fixed_fields :
      (le_at file 0 2 ≡ 0x4d42)
      × (le_at file 10 4 ≡ 54)
      × (le_at file 14 4 ≡ 40)
      × (le_at file 26 2 ≡ 1)
      × (le_at file 28 2 ≡ 32)
      × (le_at file 30 4 ≡ 0)
  unfolding bmp_header to_le_bytes from_le_bytes
  fixed_fields = (refl, refl, refl, refl, refl, refl)

  rest_field : drop 54 file ≡ pixels
  unfolding bmp_header to_le_bytes
  rest_field = refl

  header-ok : headers_ok file ≡ true
  header-ok =
      let (magic, at, info, planes, bits, plain) = fixed_fields in
      rw (magic, size_field, info, width_field, height_field, planes, bits, plain, length_field)
        (ground arith)

  pub read_bmp-file :
      h * (w * 4) ≤ size → read_bmp file ≡ some (w, h, concat (rows_up h (w * 4) pixels))
  unfolding read_bmp
  read_bmp-file le =
      rw
        (
          header-ok,
          width_field,
          height_field,
          fixed_fields.1,
          rest_field,
          le→leb (h * (w * 4)) (length pixels) (omega arith),
        )
        refl

-- What `write_bmp` makes of a payload: either each row is there, and a reader gets them all back, or the
-- last row is not.
pub bmp_of-cases :
    (px : List ℕ) (w h bpr : ℕ)
    → w < 2 ^ 31
    → h < 2 ^ 16
    → bpr < 2 ^ 32
    → (RowsIn bpr (w * 4) px h
        × (file : List ℕ) × (bmp_of px w h bpr ≡ ok file)
        × (read_bmp file ≡ some (w, h, concat (row_slices h 0 bpr (w * 4) px))))
      ⊎ ((k : ℕ) × (h ≡ suc k)
          × (length px < k * bpr + w * 4)
          × (bmp_of px w h bpr ≡ err (message "row out of range")))
unfolding bmp_of
bmp_of-cases px w h bpr hw hh hb =
    let t : mul_usize w 4 ≡ w * 4 = mod-eq_of_lt (omega arith) in
    let size : mul_usize (w * 4) h ≡ h * (w * 4) =
      mod-eq_of_lt (grind arith) ∙ mul_comm (w * 4) h in
    let wide : w * 4 < 2 ^ 35 = omega arith in
    let rows = row_slices h 0 bpr (w * 4) px in
    let header = bmp_header w h (h * (w * 4)) in
    rw (t, size)
      (elim (RowsIn-cases bpr (w * 4) px hb wide h) [
        | inl r ↦
            let all : RowsIn bpr (w * 4) px (0 + h) = λ y lt. r y (omega arith) in
            let (each, many) = row_slices-length bpr (w * 4) px hb wide h 0 all in
            let long : length (flipped rows) ≡ h * (w * 4) =
              length-flipped (w * 4) rows each ∙ ap (λ n. n * (w * 4)) many in
            let back : rows_up h (w * 4) (flipped rows) ≡ rows =
              ap (λ n. rows_up n (w * 4) (flipped rows)) (sym many)
              ∙ rows_up-flipped (w * 4) rows each in
            inl (
              r,
              header ++ flipped rows,
              bmp_loop-in bpr (w * 4) px hb wide h header (omega arith) r,
              read_bmp-file w h (h * (w * 4)) (flipped rows) hw (omega arith) long (omega arith)
                  ∙ ap (λ rs. some (w, h, concat rs)) back,
            )
        | inr (k, e, short) ↦ inr (
          k,
          e,
          short,
          rw e (
              bmp_loop-out bpr (w * 4) px hb wide k (bmp_header w (suc k) (suc k * (w * 4)))
                (omega arith) short),
        )
      ])
