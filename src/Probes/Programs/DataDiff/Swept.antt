-- ===== src/Probes/Programs/DataDiff/Swept.antt =====
-- datadiff.rs: the payloads that a sweep collects.
use gputools_replay.Probes.Programs.BTree.{length-insert}
use gputools_replay.Prelude.{
  ℕ, ◌+◌, ◌≡◌, refl, ap, ◌∙◌, Bool, true, false, Bool-cases, inl, inr, Option, none, some, List, [],
  ◌∷◌, arith, ◌==◌, if◌then◌else◌, length,
}
use gputools_replay.Probes.Records.{InfoRecord}
use gputools_replay.Probes.Programs.{payload_of}
use gputools_replay.Probes.Programs.BTree.{
  contains, get, insert, IsAscending, get-insert, insert-IsAscending,
}
use gputools_replay.Probes.Programs.DataDiff.{Payload, entry_of, bytes_or_empty, collect_payloads}

-- The bytes that the last record of a reference names.
unfoldable pub last_bytes : ℕ → List ℕ → List InfoRecord → Option (List ℕ) → Option (List ℕ)
last_bytes r blob [] found = found
last_bytes r blob (x ∷ xs) found =
    last_bytes r blob xs
      (if x.stream_ref == r then some (bytes_or_empty (payload_of blob x)) else found)

abbrev pub bytes_of : Option Payload → Option (List ℕ)
bytes_of none = none
bytes_of (some x) = some x.bytes

get-collect_payloads :
    (r : ℕ) (blob : List ℕ) (recs : List InfoRecord) (m : List (ℕ × Payload))
    → bytes_of (get r (collect_payloads blob recs m)) ≡ last_bytes r blob recs (bytes_of (get r m))
unfolding collect_payloads last_bytes
get-collect_payloads r blob [] m = refl
get-collect_payloads r blob (x ∷ xs) m =
    get-collect_payloads r blob xs (insert x.stream_ref (entry_of blob x) m)
    ∙ ap (last_bytes r blob xs)
        (ap bytes_of (get-insert r x.stream_ref (entry_of blob x) m) ∙ choose (x.stream_ref == r))
  where
    choose :
        (b : Bool)
        → bytes_of (if b then some (entry_of blob x) else get r m)
          ≡ (if b then some (bytes_or_empty (payload_of blob x)) else bytes_of (get r m))
    choose true = refl
    choose false = refl

pub collect_payloads-IsAscending :
    (blob : List ℕ) (recs : List InfoRecord) (m : List (ℕ × Payload))
    → IsAscending m
    → IsAscending (collect_payloads blob recs m)
unfolding collect_payloads
collect_payloads-IsAscending blob [] m h = h
collect_payloads-IsAscending blob (x ∷ xs) m h =
    collect_payloads-IsAscending blob xs _ (insert-IsAscending x.stream_ref (entry_of blob x) m h)

-- How many references the records have, besides those seen already.
unfoldable pub count_refs : List InfoRecord → List ℕ → ℕ
count_refs [] seen = 0
count_refs (x ∷ xs) seen =
    (if contains x.stream_ref seen then 0 else 1) + count_refs xs (x.stream_ref ∷ seen)

abbrev pub is_some : {A : Type 0} → Option A → Bool
is_some none = false
is_some (some a) = true

pub length-collect_payloads :
    (blob : List ℕ) (recs : List InfoRecord) (m : List (ℕ × Payload)) (seen : List ℕ)
    → IsAscending m
    → ((r : ℕ) → contains r seen ≡ is_some (get r m))
    → length (collect_payloads blob recs m) ≡ length m + count_refs recs seen
unfolding collect_payloads count_refs
length-collect_payloads blob [] m seen h c = omega arith
length-collect_payloads blob (x ∷ xs) m seen h c =
    let rest =
      length-collect_payloads blob xs (insert x.stream_ref (entry_of blob x) m)
        (x.stream_ref ∷ seen) (insert-IsAscending x.stream_ref (entry_of blob x) m h) known in
    let grown = length-insert x.stream_ref (entry_of blob x) m h in
    omega
      (arith, rest, grown, added (get x.stream_ref m) (contains x.stream_ref seen) (c x.stream_ref))
  where
    known :
        (r : ℕ)
        → contains r (x.stream_ref ∷ seen)
          ≡ is_some (get r (insert x.stream_ref (entry_of blob x) m))
    known r =
        rw (get-insert r x.stream_ref (entry_of blob x) m) (elim (Bool-cases (x.stream_ref == r)) [
          | inl e ↦ unfold contains in rw e refl
          | inr e ↦ unfold contains in rw e (c r)
        ])

    added :
        (o : Option Payload) (b : Bool)
        → b ≡ is_some o
        → ◌≡◌ {A = ℕ} (elim o [ none ↦ 1 | some w ↦ 0 ]) (if b then 0 else 1)
    added none true e = cc (e)
    added none false e = refl
    added (some w) true e = refl
    added (some w) false e = cc (e)

pub get-swept :
    (r : ℕ) (blob : List ℕ) (recs : List InfoRecord)
    → bytes_of (get r (collect_payloads blob recs [])) ≡ last_bytes r blob recs none
unfolding get
get-swept r blob recs = get-collect_payloads r blob recs []
