-- ===== src/Harvester/Laws.antt =====
-- The parser of harvester.rs on any bytes, and the accessors on a block that it accepted.
use gputools_replay.Prelude.{
  bytes_eq, bytes_eq_iff, ℕ, ◌+◌, ◌*◌, ◌%◌, ◌^◌, ◌≤◌, ◌<◌, ◌≡◌, ◌≢◌, ◌⊎◌, inl, inr, refl, ◌∙◌, true,
  false, Bool-cases, ◌||◌, none, some, List, ok, err, ◌>>=◌, ok_or, ◌==◌, ==_iff, ltb, leb,
  if◌then◌else◌, length, take, drop, slice_front, slice_rest, lt→ltb, checked_mul, checked_add,
  usize_mod, as_u32, arith,
}
use native.Mathlib.Nat.{mod-eq_of_lt}
use native.Mathlib.Decide.{dec_le}
use gputools_replay.Errors.{HarvesterError, bad_magic, wrong_type, truncated}
use gputools_replay.Util.Reads.{le_at, u16_at_in, u32_at_in, u64_at_in}
use gputools_replay.Harvester.{
  CaptureBlock, PlaneDescriptor, magic, plane_off, parse_block, plane_at, plane, data_of,
}

-- The block's header as the file format lays it out.
abbrev pub block_of : List ℕ → CaptureBlock
block_of bytes = record {
  bytes = bytes;
  metadata_size = le_at bytes 0x0c 4;
  plane_count = le_at bytes 0x10 8;
}

-- The planes and the metadata lie in the bytes.
pub record IsBlock (bytes : List ℕ) : Type 0 where
  pub has_magic : take 8 bytes ≡ magic
  pub has_type : le_at bytes 0x0a 2 ≡ 1
  pub metadata_in : le_at bytes 0x0c 4 ≤ length bytes
  pub planes_in : le_at bytes 0x10 8 * 48 + 24 ≤ length bytes
  pub planes_usize : le_at bytes 0x10 8 * 48 + 24 < 2 ^ 64

-- The metadata or the planes that the header announces end past the bytes, or the planes' end is no `usize`.
abbrev pub IsPast : List ℕ → Type 0
IsPast bytes =
    (length bytes < le_at bytes 0x0c 4)
    ⊎ (length bytes < le_at bytes 0x10 8 * 48 + 24)
    ⊎ (2 ^ 64 ≤ le_at bytes 0x10 8 * 48 + 24)

parse_long :
    (bytes : List ℕ)
    → 24 ≤ length bytes
    → parse_block bytes ≡ (
        if bytes_eq (take 8 bytes) magic
        then (if le_at bytes 0x0a 2 == 1
            then (ok_or truncated (plane_off (le_at bytes 0x10 8)) >>= λ e.
                if ltb (length bytes) (le_at bytes 0x0c 4) || ltb (length bytes) e
                then err truncated
                else ok (block_of bytes))
            else err (wrong_type (le_at bytes 0x0a 2)))
        else err bad_magic)
unfolding parse_block
parse_long bytes h =
    let long : ltb (length bytes) 24 ≡ false = ground arith in
    rw
      (
        long,
        slice_front bytes 8 (omega arith),
        u16_at_in {E = HarvesterError} bytes 0x0a (omega arith),
        u32_at_in {E = HarvesterError} bytes 0x0c (omega arith),
        u64_at_in {E = HarvesterError} bytes 0x10 (omega arith),
      )
      refl

bytes_eq-false : (xs ys : List ℕ) → bytes_eq xs ys ≡ false → xs ≢ ys
bytes_eq-false xs ys h e = let r : bytes_eq xs ys ≡ true = (bytes_eq_iff xs ys).1 e in cc

-- The end of `n` plane descriptors, if it is a `usize`.
plane_off_cases :
    (n : ℕ)
    → ((plane_off n ≡ some (n * 48 + 24)) × (n * 48 + 24 < 2 ^ 64))
      ⊎ ((plane_off n ≡ none) × (2 ^ 64 ≤ n * 48 + 24))
unfolding plane_off checked_mul checked_add
plane_off_cases n = elim (Bool-cases (ltb (n * 48) usize_mod)) [
  | inr a ↦ inr (ground arith, ground arith)
  | inl a ↦ elim (Bool-cases (ltb (n * 48 + 24) usize_mod)) [
    | inl b ↦ inl (ground arith, ground arith)
    | inr b ↦ inr (ground arith, ground arith)
  ]
]

-- The last test of the parser.
planes_cases :
    (bytes : List ℕ)
    → take 8 bytes ≡ magic
    → le_at bytes 0x0a 2 ≡ 1
    → parse_block bytes ≡ (
        ok_or truncated (plane_off (le_at bytes 0x10 8)) >>= λ e.
        if ltb (length bytes) (le_at bytes 0x0c 4) || ltb (length bytes) e
        then err truncated
        else ok (block_of bytes))
    → ((parse_block bytes ≡ ok (block_of bytes)) × IsBlock bytes)
      ⊎ ((parse_block bytes ≡ err truncated) × IsPast bytes)
planes_cases bytes m t e = elim (plane_off_cases (le_at bytes 0x10 8)) [
  | inr (a, big) ↦ inr (e ∙ rw a, inr (inr big))
  | inl (a, small) ↦
      elim (Bool-cases (
        ltb (length bytes) (le_at bytes 0x0c 4)
        || ltb (length bytes) (le_at bytes 0x10 8 * 48 + 24))) [
          | inl past ↦ inr (
            e ∙ rw (a, past),
            elim (dec_le (le_at bytes 0x0c 4) (length bytes)) [
              | yes within ↦ inr (inl (ground arith))
              | no beyond ↦ inl (omega arith)
            ],
          )
          | inr fit ↦ inl (
            e ∙ rw (a, fit),
            record {
              has_magic = m;
              has_type = t;
              metadata_in = ground arith;
              planes_in = ground arith;
              planes_usize = small;
            },
          )
        ]
]

-- `parse` of any bytes, which never panics: `BadMagic` exactly if the header is short or its magic is
-- another; else `WrongType` with the tag that the header has, exactly if that is not 1; else `Truncated`
-- exactly if the metadata or the planes that the header announces end past the bytes, or the planes' end
-- is no `usize`; else the block.
pub parse_block-cases :
    (bytes : List ℕ)
    → (((length bytes < 24) ⊎ (take 8 bytes ≢ magic)) × (parse_block bytes ≡ err bad_magic))
      ⊎ ((24 ≤ length bytes)
          × (take 8 bytes ≡ magic)
          × (((le_at bytes 0x0a 2 ≢ 1)
                × (parse_block bytes ≡ err (wrong_type (le_at bytes 0x0a 2))))
              ⊎ ((le_at bytes 0x0a 2 ≡ 1)
                  × (((parse_block bytes ≡ ok (block_of bytes)) × IsBlock bytes)
                      ⊎ ((parse_block bytes ≡ err truncated) × IsPast bytes)))))
parse_block-cases bytes = elim (Bool-cases (ltb (length bytes) 24)) [
  | inl short ↦ inl (inl (ground arith), unfold parse_block in rw short)
  | inr long ↦
      let e = parse_long bytes (ground arith) in
      elim (Bool-cases (bytes_eq (take 8 bytes) magic)) [
        | inr m ↦ inl (inr (bytes_eq-false (take 8 bytes) magic m), e ∙ rw m)
        | inl m ↦
            let has : take 8 bytes ≡ magic = (bytes_eq_iff (take 8 bytes) magic).0 m in
            inr (
              ground arith,
              has,
              elim (Bool-cases (le_at bytes 0x0a 2 == 1)) [
                | inr t ↦ inl (λ k. ground arith, e ∙ rw (m, t))
                | inl t ↦
                    let one : le_at bytes 0x0a 2 ≡ 1 = (==_iff _ _).0 t in
                    inr (one, planes_cases bytes has one (e ∙ rw (m, t)))
              ],
            )
      ]
]

-- The `i`-th descriptor of the file format: six words at its offset, the first cut to 32 bits.
abbrev pub descriptor_of : List ℕ → ℕ → PlaneDescriptor
descriptor_of bytes o = record {
  pixel_format = as_u32 (le_at bytes o 8);
  width = le_at bytes (o + 0x08) 8;
  height = le_at bytes (o + 0x10) 8;
  depth = le_at bytes (o + 0x18) 8;
  bytes_per_row = le_at bytes (o + 0x20) 8;
  bytes_per_image = le_at bytes (o + 0x28) 8;
}

plane_at_in :
    (bytes : List ℕ) (o : ℕ)
    → o + 48 ≤ length bytes
    → o + 48 < 2 ^ 64
    → plane_at bytes o ≡ ok (descriptor_of bytes o)
plane_at_in bytes o h small =
    let at : (k : ℕ) → k ≤ 40 → (o + k) % usize_mod ≡ o + k = λ k le. mod-eq_of_lt (omega arith) in
    rw (
      at 8 (omega arith),
      at 16 (omega arith),
      at 24 (omega arith),
      at 32 (omega arith),
      at 40 (omega arith),
      u64_at_in {E = HarvesterError} bytes o (omega arith),
      u64_at_in {E = HarvesterError} bytes (o + 8) (omega arith),
      u64_at_in {E = HarvesterError} bytes (o + 16) (omega arith),
      u64_at_in {E = HarvesterError} bytes (o + 24) (omega arith),
      u64_at_in {E = HarvesterError} bytes (o + 32) (omega arith),
      u64_at_in {E = HarvesterError} bytes (o + 40) (omega arith),
    )

block_accessors :
    (bytes : List ℕ) (i : ℕ)
    → IsBlock bytes
    → (plane (block_of bytes) i
        ≡ ok
            (if ltb i (le_at bytes 0x10 8) then some (descriptor_of bytes (i * 48 + 24)) else none))
      × (data_of (block_of bytes) ≡ ok (drop (le_at bytes 0x0c 4) bytes))
unfolding plane data_of
block_accessors bytes i v = (
  elim (Bool-cases (leb (le_at bytes 0x10 8) i)) [
    | inl out ↦ let no : ltb i (le_at bytes 0x10 8) ≡ false = ground arith in rw (out, no)
    | inr within ↦
        let yes : ltb i (le_at bytes 0x10 8) ≡ true = ground arith in
        let lt : i < le_at bytes 0x10 8 = ground arith in
        rw (within, yes)
          (elim (plane_off_cases i) [
            | inr (a, big) ↦ absurd (omega (arith, big, lt, v.planes_usize))
            | inl (a, small) ↦
                let room : i * 48 + 24 + 48 ≤ length bytes = omega (arith, lt, v.planes_in) in
                let size : i * 48 + 24 + 48 < 2 ^ 64 = omega (arith, lt, v.planes_usize) in
                let fin : checked_add (i * 48 + 24) 48 ≡ some (i * 48 + 24 + 48) =
                  unfold checked_add in rw (lt→ltb _ _ size) in
                let ends : ltb (length bytes) (i * 48 + 24 + 48) ≡ false = ground arith in
                rw (a, fin, ends, plane_at_in bytes (i * 48 + 24) room size)
          ])
  ],
  rw (slice_rest bytes (le_at bytes 0x0c 4) v.metadata_in),
)

-- On a block that the parser accepted, neither accessor panics: `plane` has the descriptor at the
-- offset of the `i`-th plane exactly for the `i` below the plane count, and `data` is what follows
-- the metadata.
pub parse_block-accessors :
    (bytes : List ℕ) (b : CaptureBlock) (i : ℕ)
    → parse_block bytes ≡ ok b
    → (plane b i
        ≡ ok (if ltb i b.plane_count then some (descriptor_of bytes (i * 48 + 24)) else none))
      × (data_of b ≡ ok (drop b.metadata_size bytes))
parse_block-accessors bytes b i h = elim (parse_block-cases bytes) [
  | inl (n, p) ↦ cc
  | inr (l, m, inl (n, p)) ↦ cc
  | inr (l, m, inr (t, inl (p, v))) ↦
      let e : b ≡ block_of bytes = cc in rw e (block_accessors bytes i v)
  | inr (l, m, inr (t, inr (p, n))) ↦ cc
]
