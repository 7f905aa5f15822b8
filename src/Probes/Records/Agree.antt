-- ===== src/Probes/Records/Agree.antt =====
-- `parse_records` against the library's decoder of texture records.
use gputools_replay.Prelude.{
  ℕ, ◌+◌, ◌/◌, ◌%◌, ◌^◌, ◌≤◌, some, List, [], ◌∷◌, ok, err, collect, ◌==◌, length, length-take,
  length-drop, take, drop, slice_in, All, arith, ◌≡◌, ◌≢◌, ◌⊎◌, inl, inr, Bool-cases, true, refl,
}
use gputools_replay.Util.Reads.{le_at}
use gputools_replay.Reply.{chunks_exact}
use gputools_replay.Reply.Bounds.{chunks_exact-length}
use gputools_replay.Reply.Records.{
  TextureRecord, Unmapped, insert, lookup, decode_texture, texture, texture_unmapped,
}
use gputools_replay.Reply.Records.Total.{word, texture_of, texture-IsLawful, decode_texture_in}
use gputools_replay.Probes.{trailing_bytes}
use gputools_replay.Probes.Records.{
  InfoRecord, u16_at, u32_at, offset_name, unmapped_loop, unmapped_offsets, parse_record,
  parse_records,
}

-- The entries of the map `unmapped` that a chunk gives.
abbrev unmapped_words : List ℕ → List ℕ → Unmapped → Unmapped
unmapped_words c [] m = m
unmapped_words c (o ∷ os) m = unmapped_words c os (insert (offset_name o) (word c o) m)

abbrev info_of : List ℕ → InfoRecord
info_of c = record {
  request_ordinal = word c 0x00;
  stream_ref = word c 0x08;
  data_offset = word c 0x18;
  size = word c 0x1c;
  width = word c 0x30;
  height = le_at c 0x34 2;
  depth = le_at c 0x36 2;
  pixel_format = word c 0x38;
  bytes_per_row = word c 0x40;
  bytes_per_image = word c 0x44;
  unmapped = unmapped_words c unmapped_offsets [];
}

module _ (c : List ℕ) (o : ℕ) where
  u16_at_in : o + 2 ≤ length c → u16_at c o ≡ ok (le_at c o 2)
  unfolding u16_at
  u16_at_in h =
      let whole : (length (take 2 (drop o c)) == 2) ≡ true =
        ground (arith, length-take 2 (drop o c), length-drop o c) in
      rw (slice_in c o 2 h, whole)

  u32_at_in : o + 4 ≤ length c → u32_at c o ≡ ok (le_at c o 4)
  unfolding u32_at
  u32_at_in h =
      let whole : (length (take 4 (drop o c)) == 4) ≡ true =
        ground (arith, length-take 4 (drop o c), length-drop o c) in
      rw (slice_in c o 4 h, whole)

unmapped_loop_in :
    (c os : List ℕ) (m : Unmapped)
    → All (λ o. o + 4 ≤ length c) os
    → unmapped_loop c os m ≡ ok (unmapped_words c os m)
unfolding unmapped_loop
unmapped_loop_in c [] m h = refl
unmapped_loop_in c (o ∷ os) m h =
    rw (u32_at_in c o h.0) (unmapped_loop_in c os (insert (offset_name o) (word c o) m) h.1)

parse_record_in : (c : List ℕ) → length c ≡ 80 → parse_record c ≡ ok (info_of c)
unfolding parse_record
parse_record_in c h = rw (
  unmapped_loop_in c unmapped_offsets [] (omega arith),
  u32_at_in c 0x00 (omega arith),
  u32_at_in c 0x08 (omega arith),
  u32_at_in c 0x18 (omega arith),
  u32_at_in c 0x1c (omega arith),
  u32_at_in c 0x30 (omega arith),
  u16_at_in c 0x34 (omega arith),
  u16_at_in c 0x36 (omega arith),
  u32_at_in c 0x38 (omega arith),
  u32_at_in c 0x40 (omega arith),
  u32_at_in c 0x44 (omega arith),
)

-- The two records say the same of a chunk: the fields that both name, what the two words that only the
-- library takes apart hold, and each word that both leave unmapped.
abbrev pub Same : TextureRecord → InfoRecord → Type 0
Same t i =
    (t.request_ordinal ≡ i.request_ordinal)
    × (t.stream_ref ≡ i.stream_ref)
    × (t.data_offset ≡ i.data_offset)
    × (t.size ≡ i.size)
    × (t.width ≡ i.width)
    × (t.height ≡ i.height)
    × (t.depth ≡ i.depth)
    × (t.pixel_format ≡ i.pixel_format)
    × (t.bytes_per_row ≡ i.bytes_per_row)
    × (t.bytes_per_image ≡ i.bytes_per_image)
    × ((w : ℕ) × (lookup "0x48" i.unmapped ≡ some w) × (t.slice ≡ w / 2 ^ 16))
    × ((w : ℕ) × (lookup "0x4c" i.unmapped ≡ some w)
        × (t.plane ≡ w / 2 ^ 8 % 256)
        × (t.level ≡ w % 256))
    × All (λ o. lookup (offset_name o) t.unmapped ≡ lookup (offset_name o) i.unmapped)
        texture_unmapped

-- Two lists of one length, related place by place.
abbrev pub Pointwise : {A B : Type 0} → (A → B → Type 0) → List A → List B → Type 0
Pointwise R [] [] = Unit
Pointwise R (x ∷ xs) (y ∷ ys) = R x y × Pointwise R xs ys
Pointwise R [] (y ∷ ys) = ⊥
Pointwise R (x ∷ xs) [] = ⊥

texture_of-Same : (c : List ℕ) → Same (texture_of c) (info_of c)
texture_of-Same c = (
  refl,
  refl,
  refl,
  refl,
  refl,
  refl,
  refl,
  refl,
  refl,
  refl,
  (word c 0x48, refl, refl),
  (word c 0x4c, refl, refl, refl),
  (refl, (refl, (refl, (refl, (refl, (refl, (refl, (refl, (refl, tt))))))))),
)

collect-Same :
    (cs : List (List ℕ))
    → All (λ c. length c ≡ 80) cs
    → (ts : List TextureRecord) × (is : List InfoRecord) × (collect decode_texture cs ≡ ok ts)
      × (collect parse_record cs ≡ ok is)
      × (length is ≡ length cs)
      × Pointwise Same ts is
unfolding collect
collect-Same [] h = ([], [], refl, refl, refl, tt)
collect-Same (c ∷ cs) h =
    let (ts, is, a, b, l, same) = collect-Same cs h.1 in
    (
      texture_of c ∷ ts,
      info_of c ∷ is,
      rw (decode_texture_in c h.0, a) refl,
      rw (parse_record_in c h.0, b) refl,
      omega arith,
      (texture_of-Same c, same),
    )

-- `parse_records` refuses exactly a table that is no whole number of records. It reads any other without a
-- short record, and its records say the same, one by one, as the texture records that the library decodes from the
-- table.
pub parse_records-Same :
    (info : List ℕ)
    → ((length info % 80 ≢ 0) × (parse_records info ≡ err (trailing_bytes (length info) 80)))
      ⊎ ((length info % 80 ≡ 0)
          × (ts : List TextureRecord) × (is : List InfoRecord) × (collect decode_texture
                (chunks_exact info 80)
              ≡ ok ts)
          × (parse_records info ≡ ok is)
          × Pointwise Same ts is)
unfolding parse_records
parse_records-Same info = elim (Bool-cases (length info % 80 == 0)) [
  | inr t ↦ inl (λ e. ground arith, rw t refl)
  | inl t ↦
      let (ts, is, a, b, l, same) =
        collect-Same (chunks_exact info 80) (chunks_exact-length texture texture-IsLawful info) in
      inr (ground arith, ts, is, a, rw t b, same)
]
