-- ===== src/Examples/Probes.antt =====
-- The theorems on the probes, at concrete inputs.
use gputools_replay.Prelude.{
  ℕ, zero, suc, ◌%◌, true, false, Option, some, List, [], ◌∷◌, map, length, replicate, collect, ok,
  err, ◌≡◌, ◌≢◌, ◌⊎◌, refl,
}
use gputools_replay.Errors.{literal, chars}
use gputools_replay.Reply.{chunks_exact}
use gputools_replay.Reply.Records.{TextureRecord, decode_texture, texture}
use gputools_replay.Reply.Envelope
use gputools_replay.Session
use gputools_replay.Session.{World, Call, load, fresh}
use gputools_replay.Session.Observer.{Notified, nil, ns_error}
use gputools_replay.Fetch
use gputools_replay.Probes.{trailing_bytes, replayer_error}
use gputools_replay.Probes.Records.{InfoRecord, parse_records}
use gputools_replay.Probes.Records.Agree.{Pointwise, Same, parse_records-Same}
use gputools_replay.Probes.Envelope.{parse_reply}
use gputools_replay.Probes.Envelope.Agree.{translate, raw_of, parse_reply-agrees}
use gputools_replay.Probes.Observer.{notify_all, first_error_since, truncate}
use gputools_replay.Probes.Batch.{
  FetchRequest, get_class, init_object, build_objects, build_requests,
}
use gputools_replay.Probes.Batch.Agree.{as_request}
use gputools_replay.Probes.Waiting.{
  Event, notify, respond, store, read_response, apply, run, wait_for,
}
use gputools_replay.Probes.Fetch.{Schedule, fetch_textures, dispatch, await_reply}
use gputools_replay.Probes.Fetch.Kinds.{as_library, summary, reread_summary}
use gputools_replay.Probes.Fetch.Agree.{fetch_textures-agrees}
use gputools_replay.Probes.Guard.{check_bundle_shape, check_entries}
use gputools_replay.Probes.Session.{
  open_session, prechecks, unlock_env_ok, bootstrap, create_pool, create_service, load_capture,
}
use gputools_replay.Probes.Session.Kinds.{SameOpen}
use gputools_replay.Probes.Session.Agree.{open_session-agrees}
use gputools_replay.Probes.Session.Tolerant.{quiet, SameEnd, NoSession, open_session-quiet}
use gputools_replay.Examples.Plists.{reply_plist}
use gputools_replay.Examples.Fetches.{empty_plist, whole, good_response, bad_response, ticks}
use gputools_replay.Examples.Sessions.{good_world, good_session}

abbrev described : Notified → Option (List ℕ)
described e = some (100 ∷ [])

abbrev two_requests : List FetchRequest
two_requests =
    record { stream_ref = 24; width = 0; height = 0; plane = 0 }
    ∷ record { stream_ref = 26; width = 64; height = 64; plane = 1 }
    ∷ []

-- The completion fires twice in the second turn.
abbrev fired : ℕ → List Event
fired zero = []
fired (suc zero) = respond good_response ∷ store 0 ∷ respond bad_response ∷ store 0 ∷ []
fired (suc (suc n)) = []

abbrev answered : Schedule
answered = record { between = []; token = true; start = 0; turns = fired; clock = ticks; late = [] }

-- The same, with a report while the wait goes on.
abbrev complained : Schedule
complained = record answered { late = notify nil ∷ [] }

answered_run :
    fetch_textures described false answered 30 5 whole two_requests [] ≡ some ([], ok (0 ∷ []))
unfolding fetch_textures build_requests get_class build_objects init_object dispatch await_reply
    notify_all wait_for run apply read_response first_error_since
answered_run = refl

complained_run :
    fetch_textures described false complained 30 5 whole two_requests []
    ≡ some (literal "(nil)" ∷ [], err (replayer_error (literal "(nil)")))
unfolding fetch_textures build_requests get_class build_objects init_object dispatch await_reply
    notify_all wait_for run apply read_response first_error_since
complained_run = refl

tolerated_run :
    fetch_textures described true complained 30 5 whole two_requests []
    ≡ some (literal "(nil)" ∷ [], ok (0 ∷ []))
unfolding fetch_textures build_requests get_class build_objects init_object dispatch await_reply
    notify_all wait_for run apply read_response first_error_since
tolerated_run = refl

fetch_textures-agrees_example :
    summary empty_plist texture (
      Fetch.fetch_textures empty_plist whole
        (as_library complained)
        30
        5
        (map as_request two_requests)
        [])
    ≡ reread_summary empty_plist texture
        (fetch_textures described false complained 30 5 whole two_requests [])
fetch_textures-agrees_example =
    fetch_textures-agrees empty_plist described complained 30 5 whole [] [] refl two_requests

-- The load reports an error, and answers yes all the same.
abbrev load_reports : Call → List Notified
load_reports Session.Call.apr_initialize = []
load_reports Session.Call.apr_pool_create_ex = []
load_reports Session.Call.controller_init = []
load_reports Session.Call.client_init = []
load_reports Session.Call.init_with_observer = []
load_reports Session.Call.init_with_context = []
load_reports (load path) = ns_error (7 ∷ []) ∷ []

abbrev noisy_world : World
noisy_world = record good_world { reports = load_reports }

noisy_run :
    (open_session described false noisy_world fresh).1 ≡ err (replayer_error (chars (100 ∷ [])))
unfolding open_session prechecks check_bundle_shape check_entries unlock_env_ok bootstrap
    create_pool create_service load_capture notify_all first_error_since truncate
noisy_run = refl

tolerant_run : (open_session described true noisy_world fresh).1 ≡ ok good_session
unfolding open_session prechecks check_bundle_shape check_entries unlock_env_ok bootstrap
    create_pool create_service load_capture notify_all first_error_since truncate
tolerant_run = refl

open_session-agrees_example :
    SameOpen
      (Session.open_session noisy_world fresh)
      (open_session described false noisy_world fresh)
open_session-agrees_example = open_session-agrees described noisy_world fresh fresh (refl, refl, tt)

-- The same, where `load:` answers no.
abbrev refusing_world : World
refusing_world = record noisy_world { loaded = false }

open_session-quiet_example :
    SameEnd
      (open_session described true refusing_world fresh)
      (open_session described false (quiet refusing_world) fresh)
    × ((false ≡ true) ⊎ NoSession (open_session described true refusing_world fresh).1)
open_session-quiet_example = open_session-quiet described refusing_world fresh

abbrev two_records : List ℕ
two_records = replicate 160 3

parse_records-Same_example :
    ((length two_records % 80 ≢ 0)
      × (parse_records two_records ≡ err (trailing_bytes (length two_records) 80)))
    ⊎ ((length two_records % 80 ≡ 0)
        × (ts : List TextureRecord) × (is : List InfoRecord) × (collect decode_texture
              (chunks_exact two_records 80)
            ≡ ok ts)
        × (parse_records two_records ≡ ok is)
        × Pointwise Same ts is)
parse_records-Same_example = parse_records-Same two_records

parse_reply-agrees_example :
    Envelope.parse_reply reply_plist (0 ∷ []) ≡ translate raw_of (parse_reply reply_plist (0 ∷ []))
parse_reply-agrees_example = parse_reply-agrees reply_plist (0 ∷ [])
