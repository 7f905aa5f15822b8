-- ===== src/Reply.antt =====
-- crates/gputools-replay/src/reply.rs: the decoded reply, generic in the record class. The classes
-- stand in Reply/Records.antt, the envelope that `RawReply::parse` reads in Reply/Envelope.antt.

pub mod Records
pub mod Bounds
pub mod Envelope
use gputools_replay.Prelude.{
  ℕ, zero, suc, ◌+◌, ◌%◌, ◌/◌, Option, none, some, List, [], ◌∷◌, Outcome, ok, err, collect, ◌>>=◌,
  ◌>>◌, ◌==◌, leb, if◌then◌else◌, length, take, drop, slice, checked_add, usize_mod, ◌≡◌, ◌<◌,
}
use gputools_replay.Errors.{FetchError, parse, info_not_multiple, payload_exceeds}

-- The `Record` trait. `decode` reads fixed offsets of its chunk, and a short chunk panics.
pub record Record (T : Type 0) : Type 0 where
  pub stride : ℕ
  pub decode : List ℕ → Outcome FetchError T
  pub data_range : T → ℕ × ℕ

-- What an implementation of the trait promises: every whole chunk decodes, without a panic.
pub record IsLawful {T : Type 0} (r : Record T) : Type 0 where
  pub positive : 0 < r.stride
  pub total : (c : List ℕ) → length c ≡ r.stride → (x : T) × (r.decode c ≡ ok x)

-- The field `data` of the source is `blob` here.
pub record RawReply : Type 0 where
  pub unknown_len : ℕ
  pub info : List ℕ
  pub blob : List ℕ

pub record Reply (T : Type 0) : Type 0 where
  pub raw : RawReply
  pub records : List T

-- The first `k` chunks of `n` bytes.
unfoldable pub chunks : ℕ → ℕ → List ℕ → List (List ℕ)
chunks zero n xs = []
chunks (suc k) n xs = take n xs ∷ chunks k n (drop n xs)

-- `xs.chunks_exact(n)`, which leaves out a last chunk that is not whole.
abbrev pub chunks_exact : List ℕ → ℕ → List (List ℕ)
chunks_exact xs n = chunks (length xs / n) n xs

-- `o.checked_add(n).filter(|end| *end <= len).ok_or_else(..)?`
unfoldable pub check_range : ℕ × ℕ → ℕ → Outcome FetchError (Unit {0})
check_range (o, n) len = elim (checked_add o n) [
  | none ↦ err (parse (payload_exceeds o n len))
  | some stop ↦ if leb stop len then ok tt else err (parse (payload_exceeds o n len))
]

module _ {T : Type 0} (r : Record T) where
  unfoldable pub check_ranges : List T → ℕ → Outcome FetchError (Unit {0})
  check_ranges [] len = ok tt
  check_ranges (x ∷ xs) len = check_range (r.data_range x) len >> check_ranges xs len

  -- `Reply::decode`
  unfoldable pub decode : RawReply → Outcome FetchError (Reply T)
  decode raw =
      if length raw.info % r.stride == 0
      then (do
        records ← collect r.decode (chunks_exact raw.info r.stride)
        check_ranges records (length raw.blob)
        ok (record { raw = raw; records = records }))
      else err (parse (info_not_multiple (length raw.info) r.stride))

  -- `Reply::payload`
  unfoldable pub payload : Reply T → T → List ℕ
  payload reply x =
      let (o, n) = r.data_range x in
      elim (slice reply.raw.blob o ((o + n) % usize_mod)) [ none ↦ [] | some bytes ↦ bytes ]
