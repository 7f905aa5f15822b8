-- ===== src/Probes/Programs/Playback/Answers.antt =====
-- playback.rs: what the two lists of stream refs hold.
use gputools_replay.Prelude.{
  ℕ, ◌≡◌, refl, sym, ap, ◌∙◌, subst, Bool, true, false, not, ◌&&◌, ◌||◌, Bool-cases, inl, inr,
  Option, none, some, List, [], ◌∷◌, ok, >>=-eq-ok, All, ◌==◌, ==_iff, if◌then◌else◌, ◌<◌,
}
use gputools_replay.Plist.{Plist}
use gputools_replay.Probes.Records.{InfoRecord}
use gputools_replay.Probes.Envelope.{Reply}
use gputools_replay.Probes.Programs.{Fetch, sweep_requests, fetch_records}
use gputools_replay.Probes.Programs.BTree.{
  contains, get, insert, IsAscending, get-insert, insert-IsAscending,
}
use gputools_replay.Probes.Programs.Playback.{
  Mode, Refs, collect_refs, difference, keep_missing, Diff, sweep_refs, playback_run,
}

-- Whether a record has a reference, and whether a list does.
unfoldable pub answers : ℕ → List InfoRecord → Bool
answers r [] = false
answers r (x ∷ xs) = (x.stream_ref == r) || answers r xs

-- The numbers ascend, so that none stands twice.
abbrev pub Ascends : List ℕ → Type 0
Ascends [] = Unit
Ascends (r ∷ rs) = All (λ s. r < s) rs × Ascends rs

abbrev present : Option (Unit {0}) → Bool
present none = false
present (some u) = true

get-collect_refs :
    (r : ℕ) (recs : List InfoRecord) (m : Refs)
    → present (get r (collect_refs recs m)) ≡ (answers r recs || present (get r m))
unfolding collect_refs answers
get-collect_refs r [] m = refl
get-collect_refs r (x ∷ xs) m =
    get-collect_refs r xs (insert x.stream_ref tt m)
    ∙ ap (λ o. answers r xs || present o) (get-insert r x.stream_ref tt m)
    ∙ choose (x.stream_ref == r) (answers r xs)
  where
    choose :
        (b c : Bool)
        → (c || present (if b then some tt else get r m)) ≡ ((b || c) || present (get r m))
    choose true true = refl
    choose true false = refl
    choose false true = refl
    choose false false = refl

collect_refs-IsAscending :
    (recs : List InfoRecord) (m : Refs) → IsAscending m → IsAscending (collect_refs recs m)
unfolding collect_refs
collect_refs-IsAscending [] m h = h
collect_refs-IsAscending (x ∷ xs) m h =
    collect_refs-IsAscending xs _ (insert-IsAscending x.stream_ref tt m h)

contains-keep :
    (r k : ℕ) (o : Option (Unit {0})) (rest : List ℕ)
    → contains r (keep_missing k o rest) ≡ (((k == r) && not (present o)) || contains r rest)
unfolding contains
contains-keep r k none rest = elim (Bool-cases (k == r)) [ inl e ↦ rw e refl | inr e ↦ rw e refl ]
contains-keep r k (some u) rest = elim (Bool-cases (k == r)) [
  | inl e ↦ rw e refl
  | inr e ↦ rw e refl
]

contains-difference :
    (r : ℕ) (a b : Refs)
    → contains r (difference a b) ≡ (present (get r a) && not (present (get r b)))
unfolding difference contains get
contains-difference r [] b = refl
contains-difference r ((k, u) ∷ a) b =
    contains-keep r k (get k b) (difference a b)
    ∙ ap (λ c. ((k == r) && not (present (get k b))) || c) (contains-difference r a b)
    ∙ elim (Bool-cases (k == r)) [
      | inl e ↦
          let same : k ≡ r = (==_iff k r).0 e in
          subst
            (λ j.
              (((k == r) && not (present (get j b)))
                || (present (get r a) && not (present (get r b))))
              ≡ (present (if k == r then some u else get r a) && not (present (get r b))))
            (sym same) (rw e (table (present (get r a)) (present (get r b))))
      | inr e ↦ rw e refl
    ]
  where
    table : (p q : Bool) → ((true && not q) || (p && not q)) ≡ (true && not q)
    table true true = refl
    table true false = refl
    table false true = refl
    table false false = refl

keep_missing-All :
    (P : ℕ → Type 0) (k : ℕ) (o : Option (Unit {0})) (rest : List ℕ)
    → P k
    → All P rest
    → All P (keep_missing k o rest)
keep_missing-All P k none rest h t = (h, t)
keep_missing-All P k (some u) rest h t = t

difference-above :
    (l : ℕ) (a b : Refs) → All (λ (e : ℕ × Unit {0}). l < e.0) a → All (λ s. l < s) (difference a b)
unfolding difference
difference-above l [] b h = tt
difference-above l ((k, u) ∷ a) b h =
    keep_missing-All _ k (get k b) (difference a b) h.0 (difference-above l a b h.1)

keep_missing-Ascends :
    (k : ℕ) (o : Option (Unit {0})) (rest : List ℕ)
    → All (λ s. k < s) rest
    → Ascends rest
    → Ascends (keep_missing k o rest)
keep_missing-Ascends k none rest h t = (h, t)
keep_missing-Ascends k (some u) rest h t = t

difference-Ascends : (a b : Refs) → IsAscending a → Ascends (difference a b)
unfolding difference
difference-Ascends [] b h = tt
difference-Ascends ((k, u) ∷ a) b h =
    keep_missing-Ascends k (get k b) (difference a b) (difference-above k a b h.0)
      (difference-Ascends a b h.1)

-- The list holds what the one sweep has and the other does not, in ascending order.
abbrev pub IsMissing : List ℕ → (here there : List InfoRecord) → Type 0
IsMissing refs here there =
    Ascends refs × ((r : ℕ) → contains r refs ≡ (answers r here && not (answers r there)))

swept : (r : ℕ) (recs : List InfoRecord) → present (get r (collect_refs recs [])) ≡ answers r recs
unfolding get
swept r recs = get-collect_refs r recs [] ∙ or_false (answers r recs)
  where
    or_false : (b : Bool) → (b || false) ≡ b
    or_false true = refl
    or_false false = refl

difference-IsMissing :
    (here there : List InfoRecord)
    → IsMissing (difference (collect_refs here []) (collect_refs there [])) here there
difference-IsMissing here there = (
  difference-Ascends (collect_refs here []) (collect_refs there [])
      (collect_refs-IsAscending here [] tt),
  λ r.
      contains-difference r (collect_refs here []) (collect_refs there [])
      ∙ ap (λ p. p && not (present (get r (collect_refs there [])))) (swept r here)
      ∙ ap (λ q. answers r here && not q) (swept r there),
)

module _ {V D : Type 0} (p : Plist V D) (before : Fetch) (after : Mode → Fetch) (max_ref : ℕ)
    (mode : Mode) (d : Diff) where
  sweep_refs-ok :
      (fetch : Fetch) (m : Refs)
      → sweep_refs p fetch max_ref ≡ ok m
      → (reply : Reply) × (recs : List InfoRecord) × (fetch_records p fetch (sweep_requests max_ref)
          ≡ ok (reply, recs))
        × (collect_refs recs [] ≡ m)
  unfolding sweep_refs
  sweep_refs-ok fetch m h =
      let ((reply, recs), e, last) =
        >>=-eq-ok (fetch_records p fetch (sweep_requests max_ref)) _ h in
      (reply, recs, e, cc (last))

  -- The two lists of `playback` are those of two sweeps which were read, the second after the playback that the
  -- mode asks for: the stream refs of the second sweep's records that no record of the first has, and those
  -- of the first that no record of the second has. Both ascend, with no reference twice.
  pub playback-diff :
      playback_run p before after max_ref mode ≡ ok d
      → (b : Reply) × (old : List InfoRecord) × (a : Reply) × (new : List InfoRecord)
        × (fetch_records p before (sweep_requests max_ref) ≡ ok (b, old))
        × (fetch_records p (after mode) (sweep_requests max_ref) ≡ ok (a, new))
        × IsMissing d.newly_answering new old
        × IsMissing d.dropped old new
  unfolding playback_run
  playback-diff h =
      let (m, e, rest) = >>=-eq-ok (sweep_refs p before max_ref) _ h in
      let (n, f, last) = >>=-eq-ok (sweep_refs p (after mode) max_ref) _ rest in
      let (b, old, read_b, made_b) = sweep_refs-ok before m e in
      let (a, new, read_a, made_a) = sweep_refs-ok (after mode) n f in
      let newly : difference (collect_refs new []) (collect_refs old []) ≡ d.newly_answering =
        let g : difference n m ≡ d.newly_answering = cc (last) in cc (g, made_a, made_b) in
      let gone : difference (collect_refs old []) (collect_refs new []) ≡ d.dropped =
        let g : difference m n ≡ d.dropped = cc (last) in cc (g, made_a, made_b) in
      (
        b,
        old,
        a,
        new,
        read_b,
        read_a,
        subst (λ l. IsMissing l new old) newly (difference-IsMissing new old),
        subst (λ l. IsMissing l old new) gone (difference-IsMissing old new),
      )
