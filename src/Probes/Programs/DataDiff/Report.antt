-- ===== src/Probes/Programs/DataDiff/Report.antt =====
-- datadiff.rs: what the summary says of each texture.
use gputools_replay.Prelude.{bytes_eq, subst}
use gputools_replay.Prelude.{
  ℕ, suc, ◌+◌, ◌≡◌, refl, sym, ap, ◌∙◌, Bool-cases, inl, inr, Option, none, some, List, [], ◌∷◌, ok,
  >>=-eq-ok, arith, ◌==◌, ==_iff, if◌then◌else◌, length,
}
use gputools_replay.Probes.Programs.DataDiff.Swept.{
  last_bytes, bytes_of, collect_payloads-IsAscending, count_refs, length-collect_payloads,
  get-swept,
}
use gputools_replay.Plist.{Plist}
use gputools_replay.Probes.Records.{InfoRecord}
use gputools_replay.Probes.Envelope.{Reply}
use gputools_replay.Probes.Programs.{Fetch, sweep_requests, fetch_records}
use gputools_replay.Probes.Programs.BTree.{contains, get, IsAscending, get-above}
use gputools_replay.Probes.Programs.DataDiff.{
  Payload, collect_payloads, Line, changed, dropped, Summary, compare_texture, compare_loop,
  no_summary, sweep, datadiff_run,
}

-- The first line on a reference.
abbrev pub stream_ref_of : Line → ℕ
stream_ref_of (changed r) = r
stream_ref_of (dropped r) = r

unfoldable pub line_on : ℕ → List Line → Option Line
line_on r [] = none
line_on r (l ∷ ls) = if stream_ref_of l == r then some l else line_on r ls

-- The line that a reference should have, from its bytes before and after: none if it did not answer before
-- or has the same bytes after.
abbrev pub due : ℕ → (before after : Option (List ℕ)) → Option Line
due r none after = none
due r (some b) none = some (dropped r)
due r (some b) (some a) = if bytes_eq a b then none else some (changed r)

abbrev or_else : Option Line → Option Line → Option Line
or_else none later = later
or_else (some l) later = some l

compare_texture-line :
    (r k : ℕ) (b : List ℕ) (a : Option Payload) (s : Summary)
    → line_on r (compare_texture k b a s).lines ≡ (
        if k == r
        then or_else (due k (some b) (bytes_of a)) (line_on r s.lines)
        else line_on r s.lines)
unfolding line_on
compare_texture-line r k b none s = ground arith
compare_texture-line r k b (some a) s = ground arith

or_else-none : (o : Option Line) → or_else o none ≡ o
or_else-none none = refl
or_else-none (some l) = refl

-- A reference that is not in the map gets no line.
compare_loop-keep :
    (r : ℕ) (after before : List (ℕ × Payload)) (s : Summary)
    → get r before ≡ none
    → line_on r (compare_loop after before s).lines ≡ line_on r s.lines
unfolding compare_loop get
compare_loop-keep r after [] s g = refl
compare_loop-keep r after ((k, b) ∷ m) s g = elim (Bool-cases (k == r)) [
  | inl e ↦ absurd (let bad : some b ≡ none = rw e at g in cc)
  | inr e ↦
      compare_loop-keep r after m _ (rw e at g)
      ∙ compare_texture-line r k b.bytes (get k after) s
      ∙ rw e refl
]

-- One that is there gets the line that is due.
compare_loop-line :
    (r : ℕ) (after before : List (ℕ × Payload)) (s : Summary)
    → IsAscending before
    → line_on r s.lines ≡ none
    → line_on r (compare_loop after before s).lines
      ≡ due r (bytes_of (get r before)) (bytes_of (get r after))
unfolding compare_loop get
compare_loop-line r after [] s h e = e
compare_loop-line r after ((k, b) ∷ m) s h e = elim (Bool-cases (k == r)) [
  | inl f ↦
      let same : k ≡ r = (==_iff k r).0 f in
      let gone : get r m ≡ none = subst (λ j. get j m ≡ none) same (get-above k m h.0) in
      compare_loop-keep r after m _ gone
      ∙ compare_texture-line r k b.bytes (get k after) s
      ∙ rw (f, e)
          (subst
            (λ j.
              or_else (due j (some b.bytes) (bytes_of (get j after))) none
              ≡ due r (some b.bytes) (bytes_of (get r after)))
            (sym same) (or_else-none _))
  | inr f ↦ rw f (
      compare_loop-line r after m _ h.1 (compare_texture-line r k b.bytes (get k after) s ∙ rw f e))
]

-- How many lines tell of a change.
unfoldable pub changed_count : List Line → ℕ
changed_count [] = 0
changed_count (changed r ∷ ls) = suc (changed_count ls)
changed_count (dropped r ∷ ls) = changed_count ls

compare_loop-counts :
    (after before : List (ℕ × Payload)) (s : Summary)
    → ((compare_loop after before s).same + length (compare_loop after before s).lines
        ≡ s.same + length s.lines + length before)
      × ((compare_loop after before s).changes + changed_count s.lines
          ≡ s.changes + changed_count (compare_loop after before s).lines)
unfolding compare_loop
compare_loop-counts after [] s = (omega arith, refl)
compare_loop-counts after ((k, b) ∷ m) s =
    let (n, c) = compare_loop-counts after m (compare_texture k b.bytes (get k after) s) in
    let (n', c') = step (get k after) in (omega (arith, n, n'), omega (arith, c, c'))
  where
    step :
        (a : Option Payload)
        → ((compare_texture k b.bytes a s).same + length (compare_texture k b.bytes a s).lines
            ≡ s.same + length s.lines + 1)
          × ((compare_texture k b.bytes a s).changes + changed_count s.lines
              ≡ s.changes + changed_count (compare_texture k b.bytes a s).lines)
    step none = unfold changed_count in (omega arith, omega arith)
    step (some a) =
        unfold changed_count in
        elim (Bool-cases (bytes_eq a.bytes b.bytes)) [
          | inl e ↦ rw e (omega arith, omega arith)
          | inr e ↦ rw e (omega arith, omega arith)
        ]

-- What a summary says of the records before and after.
abbrev pub IsReport : List ℕ → List InfoRecord → List ℕ → List InfoRecord → Summary → Type 0
IsReport blob old blob' new s =
    ((r : ℕ) → line_on r s.lines ≡ due r (last_bytes r blob old none) (last_bytes r blob' new none))
    × (s.changes ≡ changed_count s.lines)
    × (s.same + length s.lines ≡ count_refs old [])

compared :
    (blob : List ℕ) (old : List InfoRecord) (blob' : List ℕ) (new : List InfoRecord)
    → IsReport blob old blob' new
        (compare_loop (collect_payloads blob' new []) (collect_payloads blob old []) no_summary)
compared blob old blob' new =
    let before = collect_payloads blob old [] in
    let after = collect_payloads blob' new [] in
    let (total, changes) = compare_loop-counts after before no_summary in
    let up : IsAscending before = collect_payloads-IsAscending blob old [] tt in
    (
      λ r.
          compare_loop-line r after before no_summary up (unfold line_on in refl)
          ∙ ap (λ o. due r o (bytes_of (get r after))) (get-swept r blob old)
          ∙ ap (due r (last_bytes r blob old none)) (get-swept r blob' new),
      unfold changed_count in omega (arith, changes),
      omega (
        arith,
        total,
        length-collect_payloads blob old [] [] tt (λ r. unfold contains get in refl),
      ),
    )

module _ {V D : Type 0} (p : Plist V D) (before after : Fetch) (max_ref : ℕ) (s : Summary) where
  sweep-ok :
      (fetch : Fetch) (m : List (ℕ × Payload))
      → sweep p fetch max_ref ≡ ok m
      → (reply : Reply) × (recs : List InfoRecord) × (fetch_records p fetch (sweep_requests max_ref)
          ≡ ok (reply, recs))
        × (collect_payloads reply.blob recs [] ≡ m)
  unfolding sweep
  sweep-ok fetch m h =
      let ((reply, recs), e, last) =
        >>=-eq-ok (fetch_records p fetch (sweep_requests max_ref)) _ h in
      (reply, recs, e, cc (last))

  -- A summary of `datadiff` is that of two sweeps which were read. Each reference has the line that is due: none if
  -- no record before playback has it, a line that it was dropped if no record after playback has it, and else a line
  -- that it changed exactly if the last record with it before and the last one after name different bytes, where a
  -- payload out of range is empty. The count of changes is that of the lines which tell of one, and the textures that
  -- stayed the same and the lines are together as many as the different references that answered before.
  pub datadiff-IsReport :
      datadiff_run p before after max_ref ≡ ok s
      → (b : Reply) × (old : List InfoRecord) × (a : Reply) × (new : List InfoRecord)
        × (fetch_records p before (sweep_requests max_ref) ≡ ok (b, old))
        × (fetch_records p after (sweep_requests max_ref) ≡ ok (a, new))
        × IsReport b.blob old a.blob new s
  unfolding datadiff_run
  datadiff-IsReport h =
      let (m, e, rest) = >>=-eq-ok (sweep p before max_ref) _ h in
      let (n, f, last) = >>=-eq-ok (sweep p after max_ref) _ rest in
      let (b, old, read_b, made_b) = sweep-ok before m e in
      let (a, new, read_a, made_a) = sweep-ok after n f in
      let done : compare_loop n m no_summary ≡ s = cc (last) in
      let same : compare_loop (collect_payloads a.blob new []) (collect_payloads b.blob old [])
            no_summary
          ≡ s =
        cc (done, made_a, made_b) in
      (
        b,
        old,
        a,
        new,
        read_b,
        read_a,
        subst (IsReport b.blob old a.blob new) same (compared b.blob old a.blob new),
      )
