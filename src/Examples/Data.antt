-- ===== src/Examples/Data.antt =====
-- The inputs that the examples share: replies, images and an element type.
use gputools_replay.Prelude.{
  ℕ, zero, suc, ◌+◌, ◌*◌, ◌%◌, ◌≡◌, ◌≢◌, refl, ap, List, [], ◌∷◌, ◌++◌, Option, some, none, true,
  length, ◌==◌, ==_iff, Bool-cases, inl, inr, Bool, ◌&&◌, ltb, All, IsByte, if◌then◌else◌, arith,
}
use gputools_replay.Bytes.{AlignedBuf, Payload, Pod, IsPod}
use gputools_replay.Reply.{RawReply, Reply}
use gputools_replay.Reply.Records.{TextureRecord}
use gputools_replay.Reply.Records.Total.{texture_of}
use gputools_replay.Image.{Image}

abbrev pub le32 : ℕ → List ℕ
le32 b = b ∷ 0 ∷ 0 ∷ 0 ∷ []

-- The info table of one texture: 2 by 2 texels of BGRA8Unorm in rows of 12 bytes, 24 bytes at offset 8.
abbrev pub texture_info : List ℕ
texture_info =
    le32 0
    ++ le32 0
    ++ le32 7
    ++ le32 0
    ++ le32 0
    ++ le32 0
    ++ le32 8
    ++ le32 24
    ++ le32 0
    ++ le32 0
    ++ le32 0
    ++ le32 0
    ++ le32 2
    ++ (2 ∷ 0 ∷ 1 ∷ 0 ∷ [])
    ++ le32 80
    ++ le32 0
    ++ le32 12
    ++ le32 24
    ++ le32 0
    ++ le32 0

abbrev pub count_up : ℕ → ℕ → List ℕ
count_up zero n = []
count_up (suc k) n = n ∷ count_up k (n + 1)

abbrev pub texture_raw : RawReply
texture_raw = record { unknown_len = 0; info = texture_info; blob = count_up 32 100 }

abbrev pub texture_reply : Reply TextureRecord
texture_reply = record { raw = texture_raw; records = texture_of texture_info ∷ [] }

-- A reply whose `info` table is no whole number of records.
abbrev pub short_raw : RawReply
short_raw = record { unknown_len = 0; info = 1 ∷ 2 ∷ []; blob = [] }

abbrev pub buf_at : ℕ → List ℕ → AlignedBuf
buf_at addr bytes = record { addr = addr; blocks = bytes; len = length bytes }

abbrev pub payload_of : ℕ → List ℕ → Payload
payload_of addr bytes = record { buf = buf_at addr bytes; off = 0; len = length bytes }

-- R16Uint, 2 by 2, in rows of 6 bytes.
abbrev pub padded_bytes : List ℕ
padded_bytes = count_up 12 0

abbrev pub padded_image : Image
padded_image = record {
  width = 2;
  height = 2;
  bytes_per_row = 6;
  pixel_format = 23;
  payload = payload_of 32 padded_bytes;
}

-- The same texels in tight rows.
abbrev pub tight_bytes : List ℕ
tight_bytes = count_up 8 0

abbrev pub tight_image : Image
tight_image = record {
  width = 2;
  height = 2;
  bytes_per_row = 4;
  pixel_format = 23;
  payload = payload_of 32 tight_bytes;
}

-- BC1_RGBA, 5 by 3 texels: two blocks of 8 bytes in a row of 24 bytes.
abbrev pub block_bytes : List ℕ
block_bytes = count_up 24 0

abbrev pub block_image : Image
block_image = record {
  width = 5;
  height = 3;
  bytes_per_row = 24;
  pixel_format = 130;
  payload = payload_of 16 block_bytes;
}

abbrev pub pairs : List ℕ → Option (List (ℕ × ℕ))
pairs [] = some []
pairs (a ∷ []) = none
pairs (a ∷ b ∷ bs) = elim (pairs bs) [ none ↦ none | some ps ↦ some ((a, b) ∷ ps) ]

abbrev pub flatten : List (ℕ × ℕ) → List ℕ
flatten [] = []
flatten ((a, b) ∷ ps) = a ∷ b ∷ flatten ps

-- A 16-bit element as its two bytes: read from even addresses only.
abbrev pub two_bytes : Pod (ℕ × ℕ)
two_bytes = record {
  size_of = 2;
  align_of = 2;
  try_cast_slice = λ addr bs. if addr % 2 == 0 then pairs bs else none;
  to_bytes = flatten;
}

pairs_whole :
    (k : ℕ) (bs : List ℕ)
    → length bs ≡ k * 2
    → (ps : List (ℕ × ℕ)) × (pairs bs ≡ some ps) × (length ps ≡ k) × (flatten ps ≡ bs)
pairs_whole zero [] h = ([], refl, refl, refl)
pairs_whole zero (a ∷ bs) h = absurd (omega arith)
pairs_whole (suc k) [] h = absurd (omega arith)
pairs_whole (suc k) (a ∷ []) h = absurd (omega arith)
pairs_whole (suc k) (a ∷ b ∷ bs) h =
    let (ps, p, l, f) = pairs_whole k bs (omega arith) in ((a, b) ∷ ps, rw p, ap suc l, rw f)

pairs_slop : (bs : List ℕ) → length bs % 2 ≢ 0 → pairs bs ≡ none
pairs_slop [] h = absurd (h refl)
pairs_slop (a ∷ []) h = refl
pairs_slop (a ∷ b ∷ bs) h = rw (pairs_slop bs (λ e. h (omega arith)))

pub two_bytes-IsPod : IsPod two_bytes
two_bytes-IsPod = record {
  size_multiple = refl;
  align_positive = omega arith;
  cast_aligned = λ addr k bs pos z len.
      let t : (addr % 2 == 0) ≡ true = (==_iff _ _).1 z in rw t (pairs_whole k bs len);
  cast_slop = λ addr bs pos n. elim (Bool-cases (addr % 2 == 0)) [
    | inl t ↦ rw t (pairs_slop bs n)
    | inr t ↦ rw t
  ];
  cast_misaligned = λ addr bs n. elim (Bool-cases (addr % 2 == 0)) [
    | inl t ↦ absurd (n ((==_iff _ _).0 t))
    | inr t ↦ rw t
  ];
}

abbrev all_bytes : List ℕ → Bool
all_bytes [] = true
all_bytes (b ∷ bs) = ltb b 256 && all_bytes bs

pub all_bytes-All : (bs : List ℕ) → all_bytes bs ≡ true → All IsByte bs
all_bytes-All [] h = tt
all_bytes-All (b ∷ bs) h = (ground arith, all_bytes-All bs (ground arith))

-- 80 bytes, of which none is zero.
abbrev pub some_chunk : List ℕ
some_chunk = count_up 80 1
