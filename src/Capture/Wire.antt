-- ===== src/Capture/Wire.antt =====
-- What the fetches of capture.rs return for a reply that `Reply::decode` accepted.
use gputools_replay.Prelude.{
  ℕ, zero, suc, ◌+◌, ◌/◌, ◌≤◌, ◌<◌, ◌≡◌, ◌^◌, ap, ◌∙◌, List, [], ◌∷◌, some, Outcome, ok, collect,
  >>=-eq-ok, All, All-map, All-take, All-drop, IsByte, arith, length, take, drop, slice, slice_in,
  length-take,
}
use gputools_replay.Errors.{Error, FetchError}
use gputools_replay.Bytes.{AlignedBuf, Payload, payload_bytes, as_slice}
use gputools_replay.Bytes.Laws.{as_slice-from_bytes, payload_bytes_in}
use gputools_replay.Reply.{Record, IsLawful, RawReply, Reply, decode, payload, chunks, chunks_exact}
use gputools_replay.Reply.Bounds.{
  Fits, decode-Fits, decode_records, payload_in, chunks_exact-length,
}
use native.Mathlib.Nat.{pow-le-pow_right}
use gputools_replay.Reply.Records.{TextureRecord, texture, decode_texture}
use gputools_replay.Reply.Records.Total.{texture_of, texture-IsLawful, decode_texture_in}
use gputools_replay.Util.Reads.{le_at, from_le_bytes-lt}
use gputools_replay.Request.{TextureRequest}
use gputools_replay.Image.Bounds.{IsWire}
use gputools_replay.Handles.{texture_from_parts}
use gputools_replay.Capture.{payload_at, handles, fetch_handles, textures_with}

module _ {T H : Type 0} (r : Record T) (v : IsLawful r) (from_parts : T → Payload → H) where
  read :
      (reply : Reply T) (x : T) (buf : AlignedBuf)
      → as_slice {E = Error} buf ≡ ok reply.raw.blob
      → Fits r (length reply.raw.blob) x
      → payload_bytes {E = Error} (payload_at r buf x) ≡ ok (payload r reply x)
  read reply x buf whole f =
      let (o, n) = r.data_range x in
      let cut : slice reply.raw.blob o (o + n) ≡ some (take n (drop o reply.raw.blob)) =
        slice_in reply.raw.blob o n f.0 in
      let same : take n (drop o reply.raw.blob) ≡ payload r reply x =
        let p = (payload_in r reply x f).0 in cc in
      payload_bytes_in (payload_at r buf x) reply.raw.blob whole f.0 f.1 ∙ ap ok same

  -- If the session's fetch returns the decoding of a raw reply, then the fetch of the capture
  -- succeeds with one handle for each record, in order, on one buffer at the given address, and each
  -- handle's payload reads, without a panic, the bytes that the record names.
  pub fetch_handles-bytes :
      {Q : Type 0} (run : List Q → Outcome FetchError (Reply T)) (addr : ℕ) (q : Q) (qs : List Q)
      (raw : RawReply) (reply : Reply T)
      → decode r raw ≡ ok reply
      → run (q ∷ qs) ≡ ok reply
      → (buf : AlignedBuf) × (buf.addr ≡ addr)
        × (fetch_handles r from_parts run addr (q ∷ qs)
            ≡ ok (handles r from_parts buf reply.records))
        × All
            (λ x. payload_bytes {E = Error} (payload_at r buf x) ≡ ok (payload r reply x))
            reply.records
  unfolding fetch_handles
  fetch_handles-bytes run addr q qs raw reply d e =
      let (buf, made, whole, at) = as_slice-from_bytes {E = Error} addr reply.raw.blob in
      (
        buf,
        at,
        rw (e, made),
        All-map (λ x f. read reply x buf whole f) reply.records (decode-Fits r raw reply d),
      )

-- A field of at most four bytes is a `u32`.
le_at_u32 : (c : List ℕ) (o n : ℕ) → All IsByte c → n ≤ 4 → le_at c o n < 2 ^ 32
le_at_u32 c o n h small =
    let bytes : List ℕ = take n (drop o c) in
    let lt : le_at c o n < 256 ^ length bytes =
      from_le_bytes-lt bytes (All-take IsByte n (drop o c) (All-drop IsByte o c h)) in
    let few : length bytes ≤ 4 = omega (arith, length-take n (drop o c)) in
    omega (arith, lt, pow-le-pow_right {n = 256} (omega arith) few)

-- The chunks of bytes are bytes.
chunks_bytes : (k n : ℕ) (xs : List ℕ) → All IsByte xs → All (All IsByte) (chunks k n xs)
unfolding chunks
chunks_bytes zero n xs h = tt
chunks_bytes (suc k) n xs h =
    (All-take IsByte n xs h, chunks_bytes k n (drop n xs) (All-drop IsByte n xs h))

abbrev pub HasU32 : TextureRecord → Type 0
HasU32 x = (x.width < 2 ^ 32) × (x.height < 2 ^ 32) × (x.bytes_per_row < 2 ^ 32)

decoded_HasU32 :
    (cs : List (List ℕ)) (xs : List TextureRecord)
    → All (All IsByte) cs
    → All (λ c. length c ≡ 80) cs
    → collect decode_texture cs ≡ ok xs
    → All HasU32 xs
unfolding collect
decoded_HasU32 [] xs b l h = let e : xs ≡ [] = cc in rw e tt
decoded_HasU32 (c ∷ cs) xs b l h =
    let (x, hx, h2) = >>=-eq-ok (decode_texture c) _ h in
    let (ys, hy, h3) = >>=-eq-ok (collect decode_texture cs) _ h2 in
    let e : xs ≡ x ∷ ys = cc in
    let at = decode_texture_in c l.0 in
    let same : x ≡ texture_of c = cc in
    rw (e, same)
      (
        (
          le_at_u32 c 0x30 4 b.0 (omega arith),
          le_at_u32 c 0x34 2 b.0 (omega arith),
          le_at_u32 c 0x40 4 b.0 (omega arith),
        ),
        decoded_HasU32 cs ys b.1 l.1 hy,
      )

All-both :
    {A : Type 0} (P R : A → Type 0) (xs : List A) → All P xs → All R xs → All (λ x. P x × R x) xs
All-both P R [] h k = tt
All-both P R (x ∷ xs) h k = ((h.0, k.0), All-both P R xs h.1 k.1)

-- If the session's fetch returns the decoding of a raw reply whose `info` table is bytes, then
-- `textures_with` succeeds with a texture for each record, in order, and each texture is one that
-- the theorems on images speak of: its geometry is made of 32-bit numbers, and its raw bytes are
-- those that the record names in the reply.
pub textures_with-IsWire :
    (run : List TextureRequest → Outcome FetchError (Reply TextureRecord)) (addr : ℕ)
    (q : TextureRequest) (qs : List TextureRequest) (raw : RawReply) (reply : Reply TextureRecord)
    → All IsByte raw.info
    → decode texture raw ≡ ok reply
    → run (q ∷ qs) ≡ ok reply
    → (buf : AlignedBuf) × (textures_with run addr (q ∷ qs)
        ≡ ok (handles texture texture_from_parts buf reply.records))
      × All
          (λ x.
            let t = texture_from_parts x (payload_at texture buf x) in
            IsWire t.image (payload texture reply x))
          reply.records
textures_with-IsWire run addr q qs raw reply b d e =
    let (buf, at, got, read) =
      fetch_handles-bytes texture texture-IsLawful texture_from_parts run addr q qs raw reply d e in
    let (same, whole, decoded, checked) = decode_records texture d in
    let sizes =
      decoded_HasU32 (chunks_exact raw.info 80) reply.records
        (chunks_bytes (length raw.info / 80) 80 raw.info b)
        (chunks_exact-length texture texture-IsLawful raw.info) decoded in
    (
      buf,
      got,
      All-map
          (λ x (k, bytes). record {
            width_u32 = k.0;
            height_u32 = k.1;
            stride_u32 = k.2;
            readable = bytes;
          })
          reply.records (All-both _ _ reply.records sizes read),
    )
