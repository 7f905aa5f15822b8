-- ===== src/Image/Packed.antt =====
-- `packed_bytes` of image.rs against the rows of the image, cut out one by one.
use gputools_replay.Prelude.{
  ℕ, zero, suc, ◌+◌, ◌*◌, ◌%◌, ◌^◌, ◌≤◌, ◌<◌, ◌≡◌, refl, sym, ap, ◌∙◌, List, [], ◌∷◌, ◌++◌, true,
  Bool-cases, ok, err, panic, Outcome, ◌>>=◌, some, arith, length, ◌==◌, ==_iff, if◌then◌else◌, inl,
  inr, take, drop, take-add, drop-drop, length-take, length-drop, length-append, mul_usize,
  add_usize, usize_mod, slice, slice_in, slice_front, subst,
}
use native.Mathlib.Nat.{mod-eq_of_lt}
use mathlib.Core.List.{append-nil, append_assoc}
use gputools_replay.Errors.{Error, truncated}
use gputools_replay.Image.{Image, aspect_bpp, contents, pack_loop, packed_bytes}
use gputools_replay.Image.Bounds.{
  IsWire, fits, checked_len-eq, aspect_bpp_bounds, mul_usize_fits, product_fits,
}

-- The first `tight` bytes of each of `k` strides from the `y`-th on.
unfoldable pub row_slices : ℕ → ℕ → ℕ → ℕ → List ℕ → List (List ℕ)
row_slices zero y stride tight bytes = []
row_slices (suc k) y stride tight bytes =
    take tight (drop (y * stride) bytes) ∷ row_slices k (y + 1) stride tight bytes

abbrev pub concat {ℓ} : {A : Type ℓ} → List (List A) → List A
concat [] = []
concat (xs ∷ xss) = xs ++ concat xss

-- `k` rows from row `y` on lie within `len` bytes, and no offset into them wraps.
pub record RowsFit (k y stride tight len : ℕ) : Type 0 where
  pub tight_le : tight ≤ stride
  pub within : (y + k) * stride ≤ len
  pub no_wrap : (y + k) * stride < 2 ^ 64

pub RowsFit-next :
    {k y stride tight len : ℕ}
    → RowsFit (suc k) y stride tight len
    → RowsFit k (y + 1) stride tight len
RowsFit-next {k} {y} {stride} f =
    let e : (y + 1 + k) * stride ≡ (y + suc k) * stride = ap (λ n. n * stride) (omega arith) in
    record {
      tight_le = f.tight_le;
      within = omega (arith, e, f.within);
      no_wrap = omega (arith, e, f.no_wrap);
    }

-- The slice that the loops take for row `y` is there.
pub row_slice :
    (k y stride tight : ℕ) (bytes : List ℕ)
    → RowsFit (suc k) y stride tight (length bytes)
    → slice bytes (mul_usize y stride) (add_usize (mul_usize y stride) tight)
      ≡ some (take tight (drop (y * stride) bytes))
row_slice k y stride tight bytes f =
    let start : mul_usize y stride ≡ y * stride = mod-eq_of_lt (omega (arith, f.no_wrap)) in
    let stop : (y * stride + tight) % usize_mod ≡ y * stride + tight =
      mod-eq_of_lt (omega (arith, f.no_wrap, f.tight_le)) in
    rw (start, stop) (slice_in bytes (y * stride) tight (omega arith))

pub pack_loop-eq :
    (k y stride tight : ℕ) (bytes out : List ℕ)
    → RowsFit k y stride tight (length bytes)
    → pack_loop k y stride tight bytes out ≡ ok (out ++ concat (row_slices k y stride tight bytes))
unfolding pack_loop row_slices
pack_loop-eq zero y stride tight bytes out f = ap ok (sym (append-nil out))
pack_loop-eq (suc k) y stride tight bytes out f =
    rw (row_slice k y stride tight bytes f)
      (pack_loop-eq k (y + 1) stride tight bytes _ (RowsFit-next f) ∙ ap ok (append_assoc out _ _))

-- Rows with no padding are the bytes themselves.
pub concat-row_slices_tight :
    (k y stride : ℕ) (bytes : List ℕ)
    → (y + k) * stride ≤ length bytes
    → concat (row_slices k y stride stride bytes) ≡ take (k * stride) (drop (y * stride) bytes)
unfolding row_slices
concat-row_slices_tight zero y stride bytes h =
    ap (λ n. take n (drop (y * stride) bytes)) {x = 0} (omega arith)
concat-row_slices_tight (suc k) y stride bytes h =
    let next : (y + 1 + k) * stride ≡ (y + suc k) * stride = ap (λ n. n * stride) (omega arith) in
    let rest : concat (row_slices k (y + 1) stride stride bytes)
        ≡ take (k * stride) (drop stride (drop (y * stride) bytes)) =
      concat-row_slices_tight k (y + 1) stride bytes (omega arith)
      ∙ ap (take (k * stride))
          (ap (λ n. drop n bytes) (omega arith) ∙ sym (drop-drop (y * stride) stride bytes)) in
    ap (λ r. take stride (drop (y * stride) bytes) ++ r) rest
    ∙ sym (take-add stride (k * stride) (drop (y * stride) bytes))
    ∙ ap (λ n. take n (drop (y * stride) bytes)) (omega arith)

pub length-concat-row_slices :
    (k y stride tight : ℕ) (bytes : List ℕ)
    → RowsFit k y stride tight (length bytes)
    → length (concat (row_slices k y stride tight bytes)) ≡ k * tight
unfolding row_slices
length-concat-row_slices zero y stride tight bytes f = omega arith
length-concat-row_slices (suc k) y stride tight bytes f = rw length-append (
    omega (
      arith,
      length-take tight (drop (y * stride) bytes),
      length-drop (y * stride) bytes,
      length-concat-row_slices k (y + 1) stride tight bytes (RowsFit-next f),
    ))

-- With no padding the rows are the front of the payload.
pub front_rows :
    (k stride tight : ℕ) (bytes : List ℕ)
    → RowsFit k 0 stride tight (length bytes)
    → stride ≡ tight
    → slice bytes 0 (k * stride) ≡ some (concat (row_slices k 0 stride tight bytes))
front_rows k stride tight bytes f e =
    let whole : concat (row_slices k 0 stride stride bytes) ≡ take (k * stride) bytes =
      concat-row_slices_tight k 0 stride bytes f.within
      ∙ ap (λ n. take (k * stride) (drop n bytes)) {y = 0} (omega arith) in
    subst (λ t. slice bytes 0 (k * stride) ≡ some (concat (row_slices k 0 stride t bytes))) e
      (slice_front bytes (k * stride) (omega (arith, f.within)) ∙ ap some (sym whole))

-- The loops' hypothesis, from the bounds that `checked_len` has tested.
pub fits-RowsFit :
    (img : Image) (bs : List ℕ) (b : ℕ)
    → IsWire img bs
    → fits img bs b ≡ true
    → RowsFit img.height 0 img.bytes_per_row (img.width * b) (length bs)
fits-RowsFit img bs b w h =
    let small : img.height * img.bytes_per_row < 2 ^ 64 =
      product_fits img.height img.bytes_per_row w.height_u32 w.stride_u32 in
    record { tight_le = ground arith; within = ground arith; no_wrap = omega (arith, small) }

abbrev pub map_ok : {A B : Type 0} → (A → B) → Outcome Error A → Outcome Error B
map_ok f m = m >>= λ a. ok (f a)

module _ (img : Image) (bs : List ℕ) (w : IsWire img bs) where
  -- The rows of the image with elements of `b` bytes, without their padding.
  abbrev pub tight_rows : ℕ → List (List ℕ)
  tight_rows b = row_slices img.height 0 img.bytes_per_row (img.width * b) bs

  pub packed_tight :
      (b : ℕ)
      → fits img bs b ≡ true
      → img.bytes_per_row ≡ img.width * b
      → slice bs 0 (img.height * img.bytes_per_row) ≡ some (concat (tight_rows b))
  packed_tight b h e = front_rows img.height _ _ bs (fits-RowsFit img bs b w h) e

  packed_ok :
      (b : ℕ)
      → b ≤ 16
      → aspect_bpp img ≡ ok b
      → map_ok contents (packed_bytes img)
        ≡ (if fits img bs b then ok (concat (tight_rows b)) else err truncated)
  unfolding packed_bytes
  packed_ok b small e =
      let len : mul_usize img.width b ≡ img.width * b =
        mul_usize_fits img.width b w.width_u32 (omega arith) in
      rw (e, checked_len-eq img bs b w small, len, w.readable)
        (elim (Bool-cases (fits img bs b)) [
          | inl h ↦ rw h (elim (Bool-cases (img.bytes_per_row == img.width * b)) [
            | inl t ↦ rw (t, packed_tight b h ((==_iff _ _).0 t))
            | inr t ↦ rw (
              t,
              pack_loop-eq img.height 0 img.bytes_per_row (img.width * b) bs []
                  (fits-RowsFit img bs b w h),
            )
          ])
          | inr h ↦ rw h
        ])

  -- `packed_bytes` of any image with 32-bit geometry and a readable payload: the error of `aspect_bpp` if there is one; `Truncated` if the
  -- stride or the payload is too short; else the first `width * b` bytes of each row, in order,
  -- where `b` is the size of an element. It never panics.
  pub packed_bytes-eq : map_ok contents (packed_bytes img) ≡ (
      aspect_bpp img >>= λ b. if fits img bs b then ok (concat (tight_rows b)) else err truncated)
  packed_bytes-eq = go (aspect_bpp img) refl
    where
      go :
          (m : Outcome Error ℕ)
          → aspect_bpp img ≡ m
          → map_ok contents (packed_bytes img)
            ≡ (m >>= λ b. if fits img bs b then ok (concat (tight_rows b)) else err truncated)
      go (ok b) e = packed_ok b (aspect_bpp_bounds img e).1 e
      go (err x) e = unfold packed_bytes in rw e
      go panic e = unfold packed_bytes in rw e
