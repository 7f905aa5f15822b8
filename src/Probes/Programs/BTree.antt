-- ===== src/Probes/Programs/BTree.antt =====
-- The standard library's `BTreeMap`, as the programs use it: a list of entries in ascending order of keys.
-- Below it, the test whether a list has a number.
use gputools_replay.Prelude.{
  Bool, false, ◌||◌, ℕ, ◌<◌, ◌+◌, ◌≡◌, refl, Bool-cases, inl, inr, Option, none, some, List, [],
  ◌∷◌, All, All-map, ltb, ltb→lt, ◌==◌, ==_iff, if◌then◌else◌, arith, length,
}

module _ {V : Type 0} where
  -- `map.get(&k)`
  unfoldable pub get : ℕ → List (ℕ × V) → Option V
  get k [] = none
  get k ((j, v) ∷ m) = if j == k then some v else get k m

  -- `map.insert(k, v)`, which replaces the value of a key that is there.
  unfoldable pub insert : ℕ → V → List (ℕ × V) → List (ℕ × V)
  insert k v [] = (k, v) ∷ []
  insert k v ((j, w) ∷ m) =
      let rest = insert k v m in
      if ltb k j then (k, v) ∷ (j, w) ∷ m else if j == k then (k, v) ∷ m else (j, w) ∷ rest

  -- The keys ascend.
  abbrev pub IsAscending : List (ℕ × V) → Type 0
  IsAscending [] = Unit
  IsAscending ((k, v) ∷ m) = All (λ (e : ℕ × V). k < e.0) m × IsAscending m

  pub get-insert :
      (r k : ℕ) (v : V) (m : List (ℕ × V))
      → get r (insert k v m) ≡ (if k == r then some v else get r m)
  unfolding get insert
  get-insert r k v [] = refl
  get-insert r k v ((j, w) ∷ m) = ground (arith, get-insert r k v m)

  pub get-above : (k : ℕ) (m : List (ℕ × V)) → All (λ (e : ℕ × V). k < e.0) m → get k m ≡ none
  unfolding get
  get-above k [] h = refl
  get-above k ((j, v) ∷ m) h = ground (arith, get-above k m h.1)

  insert-above :
      (l k : ℕ) (v : V) (m : List (ℕ × V))
      → l < k
      → All (λ (e : ℕ × V). l < e.0) m
      → All (λ (e : ℕ × V). l < e.0) (insert k v m)
  unfolding insert
  insert-above l k v [] lt h = (lt, tt)
  insert-above l k v ((j, w) ∷ m) lt h = elim (Bool-cases (ltb k j)) [
    | inl e ↦ rw e (lt, h)
    | inr e ↦ elim (Bool-cases (j == k)) [
      | inl f ↦ rw (e, f) (lt, h.1)
      | inr f ↦ rw (e, f) (h.0, insert-above l k v m lt h.1)
    ]
  ]

  pub insert-IsAscending :
      (k : ℕ) (v : V) (m : List (ℕ × V)) → IsAscending m → IsAscending (insert k v m)
  unfolding insert
  insert-IsAscending k v [] h = (tt, tt)
  insert-IsAscending k v ((j, w) ∷ m) h = elim (Bool-cases (ltb k j)) [
    | inl e ↦ let lt : k < j = ltb→lt k j e in rw e ((lt, All-map (λ x g. omega arith) m h.0), h)
    | inr e ↦ elim (Bool-cases (j == k)) [
      | inl f ↦
          let same : j ≡ k = (==_iff j k).0 f in rw (e, f) (All-map (λ x g. omega arith) m h.0, h.1)
      | inr f ↦
          let lt : j < k = ground arith in
          rw (e, f) (insert-above j k v m lt h.0, insert-IsAscending k v m h.1)
    ]
  ]

  -- A key that is new adds an entry.
  pub length-insert :
      (k : ℕ) (v : V) (m : List (ℕ × V))
      → IsAscending m
      → length (insert k v m) ≡ length m + (elim (get k m) [ none ↦ 1 | some w ↦ 0 ])
  unfolding insert get
  length-insert k v [] h = refl
  length-insert k v ((j, w) ∷ m) h = elim (Bool-cases (ltb k j)) [
    | inl e ↦
        let lt : k < j = ltb→lt k j e in
        let new : get k ((j, w) ∷ m) ≡ none =
          get-above k ((j, w) ∷ m) (lt, All-map (λ x g. omega arith) m h.0) in
        rw (e, new) (omega arith)
    | inr e ↦ elim (Bool-cases (j == k)) [
      | inl f ↦ rw (e, f) (omega arith)
      | inr f ↦ rw (e, f) (omega (arith, length-insert k v m h.1))
    ]
  ]

unfoldable pub contains : ℕ → List ℕ → Bool
contains r [] = false
contains r (s ∷ ss) = (s == r) || contains r ss
