-- ===== src/Examples/Fetches.antt =====
-- The theorems on fetches, at concrete inputs.
use gputools_replay.Prelude.{
  ℕ, zero, suc, ◌+◌, ◌<◌, true, none, some, List, [], ◌∷◌, map, length, collect, Outcome, ok, err,
  ◌≡◌, ◌≢◌, ◌↔◌, refl, arith,
}
use gputools_replay.Errors.{Text, FetchError, replayer, literal}
use gputools_replay.Reply.{RawReply, Reply, decode, chunks, check_ranges}
use gputools_replay.Reply.Envelope.{
  parse_reply, open_envelope, resolve, parse_loop, parse_entry, store as store_entry,
}
use gputools_replay.Reply.Records.{BufferRecord, buffer}
use gputools_replay.Session.Observer.{nil, notify_all, first_error_since}
use gputools_replay.Fetch.{Schedule, fetch_class, await_reply}
use gputools_replay.Fetch.Batch.{
  Runtime, fetch_streamref, build_buffer_batch, build_batch, build_objects, new_request,
  build_batch_from, build_batch-ok_iff,
}
use gputools_replay.Fetch.Waiting.{
  Event, notify, respond, take_handler, store, Response, response, dispatched, run, apply,
  read_response, pump_until,
}
use gputools_replay.Fetch.Waiting.Once.{slot-once}
use gputools_replay.Fetch.Waiting.Pump.{wait_at, GoesOn, Ends, pump_until_iff}
use gputools_replay.Fetch.Waiting.Source.{Answered}
use gputools_replay.Fetch.Results.{fetch-honest, fetch-reported, fetch-returns}
use gputools_replay.Examples.Plists.{
  Value, Entries, values, archive_of, string, dict, array, item, end, entry, stop, bytes,
}
use gputools_replay.Plist.{Plist}

-- The archive of a reply with no records.
abbrev empty_objects : List Value
empty_objects =
    string "$null"
    ∷ dict (
        entry "NS.keys"
          (array (item (string "unknown") (item (string "info") (item (string "data") end))))
          (entry "NS.objects"
            (array (
              item (dict (entry "NS.objects" (array end) stop))
                (item (bytes []) (item (bytes []) end))))
            stop))
    ∷ []

abbrev pub empty_plist : Plist Value Entries
empty_plist = values (archive_of empty_objects)

abbrev empty_raw : RawReply
empty_raw = record { unknown_len = 0; info = []; blob = [] }

abbrev empty_reply : Reply BufferRecord
empty_reply = record { raw = empty_raw; records = [] }

abbrev pub good_response : Response
good_response = response true true none (some (0 ∷ []))

abbrev pub bad_response : Response
bad_response = response true true none none

abbrev pub whole : Runtime
whole = record { is_registered = λ name. true; init = λ name place. true }

-- The completion fires twice in the second turn; the clock moves by 20 each turn.
abbrev fired : ℕ → List Event
fired zero = []
fired (suc zero) =
    respond good_response ∷ take_handler 0 ∷ store ∷ respond bad_response ∷ take_handler 0 ∷ []
fired (suc (suc n)) = []

abbrev pub ticks : ℕ → ℕ
ticks zero = 0
ticks (suc n) = 20 + ticks n

abbrev pub answered : Schedule
answered = record { between = []; token = true; start = 0; turns = fired; clock = ticks; late = [] }

-- The same, with a report after the wait.
abbrev complained : Schedule
complained = record answered { late = notify nil ∷ [] }

abbrev no_errors : List Text
no_errors = []

abbrev refs : List ℕ
refs = 9 ∷ []

abbrev complaint : Outcome FetchError (Reply BufferRecord)
complaint = err (replayer (literal "(nil)"))

answered_run :
    fetch_class empty_plist buffer answered 30 5 (build_buffer_batch whole) (9 ∷ []) []
    ≡ some ([], ok empty_reply)
unfolding fetch_class build_batch build_objects new_request build_batch_from await_reply pump_until
    run apply read_response parse_reply open_envelope resolve parse_loop parse_entry store_entry
    notify_all first_error_since decode collect chunks check_ranges
answered_run = refl

complained_run :
    fetch_class empty_plist buffer complained 30 5 (build_buffer_batch whole) (9 ∷ []) []
    ≡ some (literal "(nil)" ∷ [], err (replayer (literal "(nil)")))
unfolding fetch_class build_batch build_objects new_request build_batch_from await_reply pump_until
    run apply read_response parse_reply open_envelope resolve parse_loop parse_entry store_entry
    notify_all first_error_since decode collect chunks check_ranges
complained_run = refl

-- No completion comes, and the third turn is past the deadline.
abbrev silent : Schedule
silent = record answered { turns = λ n. [] }

silent_run :
    fetch_class empty_plist buffer silent 30 5 (build_buffer_batch whole) (9 ∷ []) []
    ≡ some ([], err FetchError.timeout)
unfolding fetch_class build_batch build_objects new_request build_batch_from await_reply pump_until
    run apply read_response parse_reply open_envelope resolve parse_loop parse_entry store_entry
    notify_all first_error_since decode collect chunks check_ranges
silent_run = refl

fetch-honest_example :
    (no_errors ≡ [])
    × (raw : RawReply) × (decode buffer raw ≡ ok empty_reply)
    × (m : ℕ) × Answered empty_plist (answered.turns m) raw
fetch-honest_example =
    fetch-honest empty_plist buffer answered 30 5 (build_buffer_batch whole) (9 ∷ []) no_errors []
      empty_reply answered_run

built : build_buffer_batch whole (9 ∷ []) ≡ ok (fetch_streamref "GTReplayFetchBuffer" 9 ∷ [])
unfolding build_batch build_objects new_request build_batch_from
built = refl

fetch-reported_example : complaint ≡ err (replayer (literal "(nil)"))
fetch-reported_example =
    fetch-reported empty_plist buffer complained 30 5 (build_buffer_batch whole) 9 [] []
      (literal "(nil)" ∷ []) [] (literal "(nil)") complaint
      (fetch_streamref "GTReplayFetchBuffer" 9 ∷ []) built refl complained_run refl

fetch-returns_example :
    (x : List Text × Outcome FetchError (Reply BufferRecord)) × (fetch_class empty_plist buffer
        silent 30 5
        (build_buffer_batch whole)
        (9 ∷ [])
        []
      ≡ some x)
fetch-returns_example =
    fetch-returns empty_plist buffer silent 30 5 (build_buffer_batch whole) (9 ∷ []) [] 2
      (omega arith) (omega arith)

abbrev first_events : List Event
first_events = respond good_response ∷ take_handler 0 ∷ store ∷ []

abbrev later_events : List Event
later_events = respond bad_response ∷ take_handler 0 ∷ store ∷ []

first_filled : (run empty_plist 0 first_events (dispatched [])).slot ≡ some (ok empty_raw)
unfolding run apply read_response parse_reply open_envelope resolve parse_loop parse_entry
    store_entry first_error_since
first_filled = refl

slot-once_example :
    ((run empty_plist 0 later_events (run empty_plist 0 first_events (dispatched []))).slot
      ≡ some (ok empty_raw))
    × ((run empty_plist 0 later_events
          (record (run empty_plist 0 first_events (dispatched [])) { slot = none })).slot
        ≡ none)
slot-once_example = slot-once empty_plist 0 [] first_events later_events (ok empty_raw) first_filled

pump_until_iff_example :
    (pump_until empty_plist 0 fired ticks 30 5 0 (dispatched [])
      ≡ some
          (record (wait_at empty_plist 0 fired 1 0 (dispatched [])) { slot = none }, ok empty_raw))
    ↔ ((k : ℕ) × (k < 5)
        × GoesOn empty_plist 0 fired ticks 30 k 0 (dispatched [])
        × Ends empty_plist 0 fired ticks 30
            (0 + k)
            (wait_at empty_plist 0 fired k 0 (dispatched []))
            (
              record (wait_at empty_plist 0 fired 1 0 (dispatched [])) { slot = none },
              ok empty_raw,
            ))
pump_until_iff_example =
    pump_until_iff empty_plist 0 fired ticks 30 5 0 (dispatched [])
      (record (wait_at empty_plist 0 fired 1 0 (dispatched [])) { slot = none }) (ok empty_raw)

build_batch-ok_iff_example :
    (build_batch whole "GTReplayFetchBuffer" (fetch_streamref "GTReplayFetchBuffer") (9 ∷ [])
      ≡ ok (fetch_streamref "GTReplayFetchBuffer" 9 ∷ []))
    ↔ ((refs ≢ [])
        × (whole.is_registered "GTReplayFetchBuffer" ≡ true)
        × ((i : ℕ) → i < length refs → whole.init "GTReplayFetchBuffer" i ≡ true)
        × (whole.is_registered "GTReplayRequestBatch" ≡ true)
        × (whole.init "GTReplayRequestBatch" 0 ≡ true)
        × ((fetch_streamref "GTReplayFetchBuffer" 9 ∷ [])
            ≡ map (fetch_streamref "GTReplayFetchBuffer") (9 ∷ [])))
build_batch-ok_iff_example =
    build_batch-ok_iff whole "GTReplayFetchBuffer" (fetch_streamref "GTReplayFetchBuffer") (9 ∷ [])
      (fetch_streamref "GTReplayFetchBuffer" 9 ∷ [])
