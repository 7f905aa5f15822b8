-- ===== src/Describe/Textures/Order.antt =====
-- The indices that `describe_textures` goes through: sorted, and one for each reference.
use gputools_replay.Prelude.{
  ℕ, ◌+◌, ◌≤◌, ◌<◌, ◌≢◌, sym, Bool-cases, List, [], ◌∷◌, leb, length, All, arith, inl, inr,
}
use gputools_replay.Handles.{Texture}
use gputools_replay.Describe.Textures.{
  enumerate, insert_by_ref, sort_by_ref, contains, first_of_refs,
}

-- The first components differ from `i`.
abbrev pub Fresh : ℕ → List (ℕ × Texture) → Type 0
Fresh i xs = All (λ x. x.0 ≢ i) xs

-- No index is there twice, and all are below `n`.
abbrev pub Indices : ℕ → List (ℕ × Texture) → Type 0
Indices n [] = Unit
Indices n (x ∷ xs) = (x.0 < n) × Fresh x.0 xs × Indices n xs

insert_by_ref-Fresh :
    (i : ℕ) (x : ℕ × Texture) (ys : List (ℕ × Texture))
    → x.0 ≢ i
    → Fresh i ys
    → Fresh i (insert_by_ref x ys)
insert_by_ref-Fresh i x [] h k = (h, tt)
insert_by_ref-Fresh i x (y ∷ ys) h k = elim (Bool-cases (leb x.1.stream_ref y.1.stream_ref)) [
  | inl t ↦ rw t (h, k)
  | inr t ↦ rw t (k.0, insert_by_ref-Fresh i x ys h k.1)
]

insert_by_ref-Indices :
    (n : ℕ) (x : ℕ × Texture) (ys : List (ℕ × Texture))
    → x.0 < n
    → Fresh x.0 ys
    → Indices n ys
    → Indices n (insert_by_ref x ys)
insert_by_ref-Indices n x [] h k m = (h, tt, tt)
insert_by_ref-Indices n x (y ∷ ys) h k m = elim (Bool-cases (leb x.1.stream_ref y.1.stream_ref)) [
  | inl t ↦ rw t (h, k, m)
  | inr t ↦ rw t (
    m.0,
    insert_by_ref-Fresh y.0 x ys (λ e. k.0 (sym e)) m.1,
    insert_by_ref-Indices n x ys h k.1 m.2,
  )
]

sort_by_ref-Fresh : (i : ℕ) (xs : List (ℕ × Texture)) → Fresh i xs → Fresh i (sort_by_ref xs)
sort_by_ref-Fresh i [] k = tt
sort_by_ref-Fresh i (x ∷ xs) k =
    insert_by_ref-Fresh i x (sort_by_ref xs) k.0 (sort_by_ref-Fresh i xs k.1)

pub sort_by_ref-Indices :
    (n : ℕ) (xs : List (ℕ × Texture)) → Indices n xs → Indices n (sort_by_ref xs)
sort_by_ref-Indices n [] m = tt
sort_by_ref-Indices n (x ∷ xs) m =
    insert_by_ref-Indices n x (sort_by_ref xs) m.0 (sort_by_ref-Fresh x.0 xs m.1)
      (sort_by_ref-Indices n xs m.2)

first_of_refs-Fresh :
    (i : ℕ) (seen : List ℕ) (xs : List (ℕ × Texture)) → Fresh i xs → Fresh i (first_of_refs seen xs)
first_of_refs-Fresh i seen [] k = tt
first_of_refs-Fresh i seen (x ∷ xs) k = elim (Bool-cases (contains seen x.1.stream_ref)) [
  | inl t ↦ rw t (first_of_refs-Fresh i (x.1.stream_ref ∷ seen) xs k.1)
  | inr t ↦ rw t (k.0, first_of_refs-Fresh i (x.1.stream_ref ∷ seen) xs k.1)
]

pub first_of_refs-Indices :
    (n : ℕ) (seen : List ℕ) (xs : List (ℕ × Texture))
    → Indices n xs
    → Indices n (first_of_refs seen xs)
first_of_refs-Indices n seen [] m = tt
first_of_refs-Indices n seen (x ∷ xs) m = elim (Bool-cases (contains seen x.1.stream_ref)) [
  | inl t ↦ rw t (first_of_refs-Indices n (x.1.stream_ref ∷ seen) xs m.2)
  | inr t ↦ rw t (
    m.0,
    first_of_refs-Fresh x.0 (x.1.stream_ref ∷ seen) xs m.1,
    first_of_refs-Indices n (x.1.stream_ref ∷ seen) xs m.2,
  )
]

enumerate-Fresh : (i j : ℕ) (ts : List Texture) → i < j → Fresh i (enumerate j ts)
enumerate-Fresh i j [] h = tt
enumerate-Fresh i j (t ∷ ts) h =
    (λ e. absurd (omega (arith, h, e)), enumerate-Fresh i (j + 1) ts (omega arith))

pub enumerate-Indices :
    (n i : ℕ) (ts : List Texture) → i + length ts ≤ n → Indices n (enumerate i ts)
enumerate-Indices n i [] h = tt
enumerate-Indices n i (t ∷ ts) h = (
  omega arith,
  enumerate-Fresh i (i + 1) ts (omega arith),
  enumerate-Indices n (i + 1) ts (omega arith),
)
