-- ===== src/Reply/Records/Drops.antt =====
-- The parts of an 80-byte chunk that lie outside the fields of a texture or wireframe record.
use gputools_replay.Prelude.{
  ok, suc, ℕ, ◌+◌, ◌/◌, ◌%◌, ◌^◌, ◌≤◌, ◌≡◌, refl, ap, sym, ◌∙◌, List, [], ◌∷◌, ◌++◌, arith, length,
  length-append, take, drop, take-append, drop-append, drop-append_past, length-drop, All, IsByte,
}
use gputools_replay.Util.{from_le_bytes}
use gputools_replay.Util.Reads.{le_at}
use gputools_replay.Reply.Records.{decode_texture, decode_wireframe}
use gputools_replay.Reply.Records.Total.{
  word, texture_of, wireframe_of, decode_texture_in, decode_wireframe_in,
}

-- A read that ends inside the first part of a buffer does not look at the second.
le_at-append : (o n : ℕ) (a t : List ℕ) → o + n ≤ length a → le_at (a ++ t) o n ≡ le_at a o n
le_at-append o n a t h = ap from_le_bytes (
    ap (take n) (drop-append o a t (omega arith))
    ∙ take-append n (drop o a) t (omega (arith, length-drop o a)))

-- A read behind the first part looks only at the second.
le_at_past : (m k n : ℕ) (a t : List ℕ) → length a ≡ m → le_at (a ++ t) (m + k) n ≡ le_at t k n
le_at_past m k n a t h = ap (λ x. from_le_bytes (take n x)) (drop-append_past m k a t h)

module _ (a t u : List ℕ) (ha : length a ≡ 0x48) (ht : length t ≡ 8) (hu : length u ≡ 8) where
  same_before : (o : ℕ) → o + 4 ≤ 0x48 → word (a ++ t) o ≡ word (a ++ u) o
  same_before o h = le_at-append o 4 a t (omega arith) ∙ sym (le_at-append o 4 a u (omega arith))

  same_half : (o : ℕ) → o + 2 ≤ 0x48 → le_at (a ++ t) o 2 ≡ le_at (a ++ u) o 2
  same_half o h = le_at-append o 2 a t (omega arith) ∙ sym (le_at-append o 2 a u (omega arith))

  slice_field :
      word t 0 / 2 ^ 16 ≡ word u 0 / 2 ^ 16
      → word (a ++ t) 0x48 / 2 ^ 16 ≡ word (a ++ u) 0x48 / 2 ^ 16
  slice_field p = omega (arith, le_at_past 0x48 0 4 a t ha, le_at_past 0x48 0 4 a u ha)

  plane_field :
      word t 4 % 2 ^ 16 ≡ word u 4 % 2 ^ 16
      → word (a ++ t) 0x4c / 2 ^ 8 % 256 ≡ word (a ++ u) 0x4c / 2 ^ 8 % 256
  plane_field q = omega (arith, le_at_past 0x48 4 4 a t ha, le_at_past 0x48 4 4 a u ha)

  level_field :
      word t 4 % 2 ^ 16 ≡ word u 4 % 2 ^ 16 → word (a ++ t) 0x4c % 256 ≡ word (a ++ u) 0x4c % 256
  level_field q = omega (arith, le_at_past 0x48 4 4 a t ha, le_at_past 0x48 4 4 a u ha)

  texture_tail :
      word t 0 / 2 ^ 16 ≡ word u 0 / 2 ^ 16
      → word t 4 % 2 ^ 16 ≡ word u 4 % 2 ^ 16
      → texture_of (a ++ t) ≡ texture_of (a ++ u)
  texture_tail p q = cc (
    same_before 0x00 (omega arith),
    same_before 0x04 (omega arith),
    same_before 0x08 (omega arith),
    same_before 0x0c (omega arith),
    same_before 0x10 (omega arith),
    same_before 0x14 (omega arith),
    same_before 0x18 (omega arith),
    same_before 0x1c (omega arith),
    same_before 0x20 (omega arith),
    same_before 0x24 (omega arith),
    same_before 0x28 (omega arith),
    same_before 0x2c (omega arith),
    same_before 0x30 (omega arith),
    same_before 0x38 (omega arith),
    same_before 0x3c (omega arith),
    same_before 0x40 (omega arith),
    same_before 0x44 (omega arith),
    same_half 0x34 (omega arith),
    same_half 0x36 (omega arith),
    slice_field p,
    plane_field q,
    level_field q,
  )

-- The low half of the word at 0x48 and the high half of the word at 0x4c are in no field of a
-- texture record and not in `unmapped`: chunks that differ only there decode to the same record.
pub texture_drops :
    (a : List ℕ) (s₀ s₁ level plane : ℕ) (l₀ l₁ h₀ h₁ l₀' l₁' h₀' h₁' : ℕ)
    → length a ≡ 0x48
    → All IsByte (l₀ ∷ l₁ ∷ l₀' ∷ l₁' ∷ s₀ ∷ s₁ ∷ level ∷ plane ∷ [])
    → decode_texture (a ++ (l₀ ∷ l₁ ∷ s₀ ∷ s₁ ∷ level ∷ plane ∷ h₀ ∷ h₁ ∷ []))
      ≡ decode_texture (a ++ (l₀' ∷ l₁' ∷ s₀ ∷ s₁ ∷ level ∷ plane ∷ h₀' ∷ h₁' ∷ []))
unfolding from_le_bytes
texture_drops a s₀ s₁ level plane l₀ l₁ h₀ h₁ l₀' l₁' h₀' h₁' ha hb =
    let t : List ℕ = l₀ ∷ l₁ ∷ s₀ ∷ s₁ ∷ level ∷ plane ∷ h₀ ∷ h₁ ∷ [] in
    let u : List ℕ = l₀' ∷ l₁' ∷ s₀ ∷ s₁ ∷ level ∷ plane ∷ h₀' ∷ h₁' ∷ [] in
    decode_texture_in (a ++ t) (omega (arith, length-append a t))
    ∙ ap ok (texture_tail a t u ha refl refl (omega arith) (omega arith))
    ∙ sym (decode_texture_in (a ++ u) (omega (arith, length-append a u)))

module _ (a b : List ℕ) (ha : length a ≡ 0x36) (x y x' y' : ℕ) where
  same_head :
      (o n : ℕ) → o + n ≤ 0x36 → le_at (a ++ (x ∷ y ∷ b)) o n ≡ le_at (a ++ (x' ∷ y' ∷ b)) o n
  same_head o n h =
      le_at-append o n a (x ∷ y ∷ b) (omega arith)
      ∙ sym (le_at-append o n a (x' ∷ y' ∷ b) (omega arith))

  same_rest :
      (k n : ℕ)
      → le_at (a ++ (x ∷ y ∷ b)) (0x36 + suc (suc k)) n
        ≡ le_at (a ++ (x' ∷ y' ∷ b)) (0x36 + suc (suc k)) n
  same_rest k n =
      le_at_past 0x36 (suc (suc k)) n a (x ∷ y ∷ b) ha
      ∙ sym (le_at_past 0x36 (suc (suc k)) n a (x' ∷ y' ∷ b) ha)

  wireframe_tail : wireframe_of (a ++ (x ∷ y ∷ b)) ≡ wireframe_of (a ++ (x' ∷ y' ∷ b))
  wireframe_tail = cc (
    same_head 0x00 4 (omega arith),
    same_head 0x04 4 (omega arith),
    same_head 0x08 4 (omega arith),
    same_head 0x0c 4 (omega arith),
    same_head 0x10 4 (omega arith),
    same_head 0x14 4 (omega arith),
    same_head 0x18 4 (omega arith),
    same_head 0x1c 4 (omega arith),
    same_head 0x20 4 (omega arith),
    same_head 0x24 4 (omega arith),
    same_head 0x28 4 (omega arith),
    same_head 0x2c 4 (omega arith),
    same_head 0x30 4 (omega arith),
    same_head 0x34 2 (omega arith),
    same_rest 0 4,
    same_rest 4 4,
    same_rest 8 4,
    same_rest 12 4,
    same_rest 16 4,
    same_rest 20 4,
  )

-- The two bytes at 0x36 are in no field of a wireframe record and not in `unmapped`: 80-byte chunks
-- that differ only there decode to the same record.
wireframe_drops :
    (a b : List ℕ) (x y x' y' : ℕ)
    → length a ≡ 0x36
    → length b ≡ 0x18
    → decode_wireframe (a ++ (x ∷ y ∷ b)) ≡ decode_wireframe (a ++ (x' ∷ y' ∷ b))
wireframe_drops a b x y x' y' ha hb =
    decode_wireframe_in _ (omega (arith, length-append a (x ∷ y ∷ b)))
    ∙ ap ok (wireframe_tail a b ha x y x' y')
    ∙ sym (decode_wireframe_in _ (omega (arith, length-append a (x' ∷ y' ∷ b))))
