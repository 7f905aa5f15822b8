-- ===== src/Examples/Replies.antt =====
-- The theorems on replies and on the fetches of a capture, at concrete inputs.
use gputools_replay.Prelude.{
  inr, ◌+◌, ◌*◌, ◌%◌, ◌≡◌, ◌≢◌, ◌⊎◌, refl, List, [], ◌∷◌, ◌++◌, Outcome, ok, err, length, slice,
  some, All, collect, IsByte, checked_add,
}
use mathlib.Core.List.{Memᴰ}
use gputools_replay.Errors.{FetchError, parse, info_not_multiple, payload_exceeds}
use gputools_replay.Bytes.{AlignedBuf}
use gputools_replay.Util.{from_le_bytes, u16_at, u32_at}
use gputools_replay.Reply.{Reply, decode, payload, chunks, chunks_exact, check_ranges, check_range}
use gputools_replay.Reply.Bounds.{decode_cases, decode-payload, Fits}
use gputools_replay.Reply.Records.{TextureRecord, decode_texture, texture, unmapped_loop}
use gputools_replay.Reply.Records.Total.{texture-IsLawful}
use gputools_replay.Reply.Records.Lossless.{records_lossless}
use gputools_replay.Reply.Records.Drops.{texture_drops}
use gputools_replay.Request.{TextureRequest, natural}
use gputools_replay.Image.Bounds.{IsWire}
use gputools_replay.Handles.{texture_from_parts}
use gputools_replay.Capture.{textures_with, handles, payload_at}
use gputools_replay.Capture.Wire.{textures_with-IsWire}
use gputools_replay.Examples.Data.{
  texture_info, texture_raw, texture_reply, short_raw, count_up, some_chunk, all_bytes-All,
}

texture_reply-decode : decode texture texture_raw ≡ ok texture_reply
unfolding decode decode_texture collect chunks u32_at slice u16_at unmapped_loop check_ranges
    check_range checked_add from_le_bytes
texture_reply-decode = refl

info_bytes : All IsByte texture_info
info_bytes = all_bytes-All texture_info refl

decode-payload_example :
    (texture_reply.raw ≡ texture_raw)
    × (length texture_raw.info ≡ 80 * length texture_reply.records)
    × All
        (λ (x : TextureRecord).
          (slice texture_raw.blob x.data_offset (x.data_offset + x.size)
            ≡ some (payload texture texture_reply x))
          × (length (payload texture texture_reply x) ≡ x.size))
        texture_reply.records
decode-payload_example =
    decode-payload texture texture-IsLawful texture_raw texture_reply texture_reply-decode

decode_cases_example :
    ((reply : Reply TextureRecord) × (decode texture short_raw ≡ ok reply))
    ⊎ ((decode texture short_raw ≡ err (parse (info_not_multiple 2 80))) × (2 % 80 ≢ 0))
    ⊎ ((xs : List TextureRecord) × (x : TextureRecord) × (collect decode_texture
            (chunks_exact (1 ∷ 2 ∷ []) 80)
          ≡ ok xs)
        × Memᴰ x xs
        × (decode texture short_raw ≡ err (parse (payload_exceeds x.data_offset x.size 0)))
        × ¬ Fits texture 0 x)
decode_cases_example = decode_cases texture texture-IsLawful short_raw

records_lossless_example : some_chunk ≡ some_chunk
records_lossless_example =
    records_lossless some_chunk some_chunk (all_bytes-All some_chunk refl)
      (all_bytes-All some_chunk refl) refl refl (inr (inr (inr refl)))

texture_drops_example :
    decode_texture (count_up 0x48 0 ++ (1 ∷ 2 ∷ 5 ∷ 6 ∷ 7 ∷ 8 ∷ 9 ∷ 10 ∷ []))
    ≡ decode_texture (count_up 0x48 0 ++ (3 ∷ 4 ∷ 5 ∷ 6 ∷ 7 ∷ 8 ∷ 11 ∷ 12 ∷ []))
texture_drops_example =
    texture_drops (count_up 0x48 0) 5 6 7 8 1 2 9 10 3 4 11 12 refl
      (all_bytes-All (1 ∷ 2 ∷ 3 ∷ 4 ∷ 5 ∷ 6 ∷ 7 ∷ 8 ∷ []) refl)

abbrev run : List TextureRequest → Outcome FetchError (Reply TextureRecord)
run _ = ok texture_reply

textures_with-IsWire_example :
    (buf : AlignedBuf) × (textures_with run 4096 (natural 7 ∷ [])
      ≡ ok (handles texture texture_from_parts buf texture_reply.records))
    × All
        (λ x.
          let t = texture_from_parts x (payload_at texture buf x) in
          IsWire t.image (payload texture texture_reply x))
        texture_reply.records
textures_with-IsWire_example =
    textures_with-IsWire run 4096 (natural 7) [] texture_raw texture_reply info_bytes
      texture_reply-decode refl
