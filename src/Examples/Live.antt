-- ===== src/Examples/Live.antt =====
-- The theorem on a fetch of a capture, at a reply with one record.
use gputools_replay.Prelude.{
  checked_add, ℕ, ◌++◌, some, List, [], ◌∷◌, replicate, collect, ok, All, ◌≡◌, refl, slice,
}
use gputools_replay.Errors.{Text, Error}
use gputools_replay.Plist.{Plist}
use gputools_replay.Bytes.{AlignedBuf, Payload, payload_bytes, from_bytes}
use gputools_replay.Util.{u32_at, from_le_bytes}
use gputools_replay.Reply.{RawReply, Reply, decode, payload, chunks, check_ranges, check_range}
use gputools_replay.Reply.Envelope.{
  parse_reply, open_envelope, resolve, parse_loop, parse_entry, store as store_entry,
}
use gputools_replay.Reply.Records.{BufferRecord, buffer, decode_buffer, unmapped_loop}
use gputools_replay.Reply.Records.Total.{buffer-IsLawful}
use gputools_replay.Session.Observer.{notify_all, first_error_since}
use gputools_replay.Fetch.{fetch_class, await_reply}
use gputools_replay.Fetch.Batch.{
  build_buffer_batch, build_batch, build_objects, new_request, build_batch_from,
}
use gputools_replay.Fetch.Waiting.{run, apply, read_response, pump_until}
use gputools_replay.Fetch.Waiting.Source.{Answered}
use gputools_replay.Handles.{Buffer}
use gputools_replay.Capture.{payload_at, handles, fetch_handles}
use gputools_replay.Capture.Live.{live_handles, live_handles-honest}
use gputools_replay.Examples.Fetches.{answered, whole}
use gputools_replay.Examples.Plists.{
  Value, Entries, values, archive_of, string, dict, array, item, end, entry, stop, bytes,
}

-- A record of stream ref 9 with the two bytes of the blob.
abbrev one_record : List ℕ
one_record = replicate 8 0 ++ (9 ∷ replicate 19 0) ++ (2 ∷ replicate 51 0)

abbrev one_objects : List Value
one_objects =
    string "$null"
    ∷ dict (
        entry "NS.keys"
          (array (item (string "unknown") (item (string "info") (item (string "data") end))))
          (entry "NS.objects"
            (array (
              item (dict (entry "NS.objects" (array end) stop))
                (item (bytes one_record) (item (bytes (5 ∷ 6 ∷ [])) end))))
            stop))
    ∷ []

abbrev one_plist : Plist Value Entries
one_plist = values (archive_of one_objects)

abbrev made : BufferRecord → Payload → Buffer
made x p = record { stream_ref = x.stream_ref; payload = p }

abbrev shared_buf : AlignedBuf
shared_buf = record { addr = 4096; blocks = 5 ∷ 6 ∷ replicate 14 0; len = 2 }

abbrev got : List Buffer
got = record { stream_ref = 9; payload = record { buf = shared_buf; off = 0; len = 2 } } ∷ []

live_run :
    live_handles one_plist buffer made answered 30 5 4096 (build_buffer_batch whole) (9 ∷ []) []
    ≡ some ([], ok got)
unfolding live_handles fetch_handles from_bytes fetch_class build_batch build_objects new_request
    build_batch_from await_reply pump_until run apply read_response parse_reply open_envelope
    resolve parse_loop parse_entry store_entry notify_all first_error_since decode collect chunks
    check_ranges check_range decode_buffer unmapped_loop u32_at from_le_bytes slice checked_add
live_run = refl

abbrev no_errors : List Text
no_errors = []

live_handles-honest_example :
    (no_errors ≡ [])
    × (raw : RawReply) × (reply : Reply BufferRecord) × (buf : AlignedBuf) × (decode buffer raw
        ≡ ok reply)
    × ((m : ℕ) × Answered one_plist (answered.turns m) raw)
    × (buf.addr ≡ 4096)
    × (got ≡ handles buffer made buf reply.records)
    × All
        (λ x. payload_bytes {E = Error} (payload_at buffer buf x) ≡ ok (payload buffer reply x))
        reply.records
live_handles-honest_example =
    live_handles-honest one_plist buffer made answered 30 5 4096 buffer-IsLawful
      (build_buffer_batch whole) 9 [] no_errors [] got live_run
