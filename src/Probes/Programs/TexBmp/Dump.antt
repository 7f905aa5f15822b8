-- ===== src/Probes/Programs/TexBmp/Dump.antt =====
-- texbmp.rs: the two files that a run writes for each phase.
use gputools_replay.Prelude.{
  ℕ, suc, String, ◌+◌, ◌*◌, ◌^◌, ◌≤◌, ◌<◌, ◌≡◌, refl, sym, ap, ◌⊎◌, inl, inr, Option, none, some,
  List, [], ◌∷◌, Outcome, ok, err, panic, length, arith, mul_usize, true, false, if◌then◌else◌,
  Bool-cases, subst,
}
use native.Mathlib.Nat.{mod-eq_of_lt}
use gputools_replay.Errors.{Text, Error}
use gputools_replay.Plist.{Plist}
use gputools_replay.Image.{Image, aspect_bpp, packed_bytes, contents, Cow}
use gputools_replay.Image.Bounds.{IsWire, fits}
use gputools_replay.Image.Packed.{row_slices, concat, packed_bytes-eq}
use gputools_replay.Probes.Programs.{Fetch}
use gputools_replay.Probes.Programs.TexBmp.{
  Fetched, FileName, bgra, bmp, Written, bmp_of, write_bmp, packed_loop, dump_fetched, dump,
  fetch_one,
}
use gputools_replay.Probes.Programs.TexBmp.Rows.{RowsIn, packed_loop-in, packed_loop-out}
use gputools_replay.Probes.Programs.TexBmp.Reader.{read_bmp, bmp_of-cases}

-- The fields are numbers of the reply, and the width is one that a BMP file can hold.
pub record IsPlain (f : Fetched) : Type 0 where
  pub width_i32 : f.width < 2 ^ 31
  pub height_u16 : f.height < 2 ^ 16
  pub stride_u32 : f.bytes_per_row < 2 ^ 32

-- The bytes of the pixels without the padding of the rows.
abbrev pub tight_pixels : Fetched → List ℕ
tight_pixels f = concat (row_slices f.height 0 f.bytes_per_row (f.width * 4) f.payload)

-- Each row of four bytes a pixel ends within the payload.
abbrev pub HasRows : Fetched → Type 0
HasRows f = RowsIn f.bytes_per_row (f.width * 4) f.payload f.height

-- The last row ends past the payload.
abbrev pub IsShort : Fetched → Type 0
IsShort f = (k : ℕ) × (f.height ≡ suc k) × (length f.payload < k * f.bytes_per_row + f.width * 4)

packed_tight :
    (f : Fetched)
    → IsPlain f
    → HasRows f
    → packed_loop f.height 0 f.bytes_per_row (mul_usize f.width 4) f.payload []
      ≡ ok (tight_pixels f)
packed_tight f v rows =
    let t : mul_usize f.width 4 ≡ f.width * 4 = mod-eq_of_lt (omega (arith, v.width_i32)) in
    rw t (
      packed_loop-in f.bytes_per_row (f.width * 4) f.payload v.stride_u32
        (omega (arith, v.width_i32)) f.height 0 [] (omega (arith, v.height_u16))
        (λ y lt. rows y (omega arith)))

packed_short :
    (f : Fetched)
    → IsPlain f
    → IsShort f
    → packed_loop f.height 0 f.bytes_per_row (mul_usize f.width 4) f.payload [] ≡ panic
packed_short f v (k, e, short) =
    let t : mul_usize f.width 4 ≡ f.width * 4 = mod-eq_of_lt (omega (arith, v.width_i32)) in
    let start : (0 + k) * f.bytes_per_row ≡ k * f.bytes_per_row =
      ap (λ n. n * f.bytes_per_row) (omega arith) in
    rw t (
      subst (λ h. packed_loop h 0 f.bytes_per_row (f.width * 4) f.payload [] ≡ panic) (sym e)
        (packed_loop-out f.bytes_per_row (f.width * 4) f.payload v.stride_u32
          (omega (arith, v.width_i32)) k 0 [] (omega (arith, e, v.height_u16))
          (omega (arith, start, short))))

module _ (fails : FileName → Option Text) (works : (n : FileName) → fails n ≡ none) (r : ℕ)
    (phase : String) (f : Fetched) (files : Written) where
  two_files :
      (packed file : List ℕ)
      → packed_loop f.height 0 f.bytes_per_row (mul_usize f.width 4) f.payload [] ≡ ok packed
      → bmp_of f.payload f.width f.height f.bytes_per_row ≡ ok file
      → dump_fetched fails r phase f files
        ≡ ((bmp r phase, file) ∷ (bgra r phase, packed) ∷ files, ok tt)
  unfolding dump_fetched write_bmp
  two_files packed file p b = ground (arith, works (bgra r phase), works (bmp r phase))

  no_files :
      packed_loop f.height 0 f.bytes_per_row (mul_usize f.width 4) f.payload [] ≡ panic
      → dump_fetched fails r phase f files ≡ (files, panic)
  unfolding dump_fetched
  no_files p = rw (dump_fetched, p) refl

  dump_fetched-cases :
      IsPlain f
      → (HasRows f
          × (file : List ℕ) × (dump_fetched fails r phase f files
              ≡ ((bmp r phase, file) ∷ (bgra r phase, tight_pixels f) ∷ files, ok tt))
          × (read_bmp file ≡ some (f.width, f.height, tight_pixels f)))
        ⊎ (IsShort f × (dump_fetched fails r phase f files ≡ (files, panic)))
  dump_fetched-cases v =
      elim (bmp_of-cases f.payload f.width f.height f.bytes_per_row v.width_i32 v.height_u16
        v.stride_u32) [
          | inl (rows, file, made, back) ↦
              inl (rows, file, two_files (tight_pixels f) file (packed_tight f v rows) made, back)
          | inr (k, e, short, no_file) ↦
              inr ((k, e, short), no_files (packed_short f v (k, e, short)))
        ]

fits-bounds :
    (img : Image) (bs : List ℕ)
    → fits img bs 4 ≡ true
    → (img.width * 4 ≤ img.bytes_per_row) × (img.height * img.bytes_per_row ≤ length bs)
fits-bounds img bs h = ground arith

fits-not-IsShort :
    (img : Image) (f : Fetched)
    → (img.width ≡ f.width) × (img.height ≡ f.height) × (img.bytes_per_row ≡ f.bytes_per_row)
    → fits img f.payload 4 ≡ true
    → ¬ IsShort f
fits-not-IsShort img f (same_w, same_h, same_s) fit (k, e, short) =
    let (wide, long) = fits-bounds img f.payload fit in
    let rows : img.height * img.bytes_per_row ≡ suc k * f.bytes_per_row = cc (same_h, same_s, e) in
    omega (arith, rows, wide, long, short)

module _ (fails : FileName → Option Text) (works : (n : FileName) → fails n ≡ none) {V D : Type 0}
    (p : Plist V D) (fetch : Fetch) (r : ℕ) (phase : String) (f : Fetched)
    (fetched : fetch_one p fetch r ≡ ok f) (v : IsPlain f) (files : Written) where
  dump-fetched : dump fails p fetch r phase files ≡ dump_fetched fails r phase f files
  unfolding dump
  dump-fetched = rw (dump, fetched) refl

  -- On a texture that the session answers, less than 2^31 pixels wide and with the other sizes in their
  -- fields' range, `dump` does one of two things, where the files can be written. If each row of four bytes
  -- a pixel lies in the payload, it writes the rows without their padding to one file and a BMP to the other,
  -- out of which a reader gets the width, the height and the same pixels, from the top row down. Else the last
  -- row ends past the payload, and `dump` panics before it writes a file.
  pub dump-cases :
      (HasRows f
        × (file : List ℕ) × (dump fails p fetch r phase files
            ≡ ((bmp r phase, file) ∷ (bgra r phase, tight_pixels f) ∷ files, ok tt))
        × (read_bmp file ≡ some (f.width, f.height, tight_pixels f)))
      ⊎ (IsShort f × (dump fails p fetch r phase files ≡ (files, panic)))
  dump-cases = rw dump-fetched (dump_fetched-cases fails works r phase f files v)

  -- Where the library's `packed_bytes` succeeds on the image of a fetched texture whose elements are four bytes,
  -- `dump` writes those bytes to one file, and to the other a BMP out of which a reader gets the width, the height
  -- and those bytes.
  pub dump-packed_bytes :
      (img : Image)
      → IsWire img f.payload
      → (img.width ≡ f.width) × (img.height ≡ f.height) × (img.bytes_per_row ≡ f.bytes_per_row)
      → aspect_bpp img ≡ ok 4
      → (c : Cow) → packed_bytes img ≡ ok c
      → (file : List ℕ) × (dump fails p fetch r phase files
          ≡ ((bmp r phase, file) ∷ (bgra r phase, contents c) ∷ files, ok tt))
        × (read_bmp file ≡ some (f.width, f.height, contents c))
  dump-packed_bytes img w (same_w, same_h, same_s) b c e = go (Bool-cases (fits img f.payload 4))
    where
      tight : List ℕ
      tight = concat (row_slices img.height 0 img.bytes_per_row (img.width * 4) f.payload)

      same : tight ≡ tight_pixels f
      same = cc

      packed :
          ◌≡◌ {A = Outcome Error (List ℕ)}
            (if fits img f.payload 4 then ok tight else err Error.truncated)
            (ok (contents c))
      packed = let h = packed_bytes-eq img f.payload w in sym (rw (e, b) at h)

      Dumped : List ℕ → Type 0
      Dumped pixels =
          (file : List ℕ) × (dump fails p fetch r phase files
            ≡ ((bmp r phase, file) ∷ (bgra r phase, pixels) ∷ files, ok tt))
          × (read_bmp file ≡ some (f.width, f.height, pixels))

      go : (fits img f.payload 4 ≡ true) ⊎ (fits img f.payload 4 ≡ false) → Dumped (contents c)
      go (inl fit) =
          let pixels : tight_pixels f ≡ contents c =
            let h : ◌≡◌ {A = Outcome Error (List ℕ)} (ok tight) (ok (contents c)) =
              rw fit at packed in
            cc (same, h) in
          elim dump-cases [
            | inl (rows, file, d, back) ↦ subst Dumped pixels (file, d, back)
            | inr ((k, e', short), d) ↦
                absurd (fits-not-IsShort img f (same_w, same_h, same_s) fit (k, e', short))
          ]
      go (inr wide) =
          let h : ◌≡◌ {A = Outcome Error (List ℕ)} (err Error.truncated) (ok (contents c)) =
            rw wide at packed in
          cc (h)
