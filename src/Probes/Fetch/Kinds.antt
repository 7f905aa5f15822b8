-- ===== src/Probes/Fetch/Kinds.antt =====
-- What a fetch of the probes and a fetch of the library come to, up to the wording of errors.
use gputools_replay.Prelude.{ℕ, Option, none, some, List, length, Outcome, ok, err, panic, ◌>>=◌}
use gputools_replay.Errors.{
  Text, FetchError, empty_batch, no_token, no_response, no_data, replayer, parse, setup, literal,
}
use gputools_replay.Errors
use gputools_replay.Plist.{Plist}
use gputools_replay.Reply.{Record, Reply, decode}
use gputools_replay.Fetch
use gputools_replay.Probes.Waiting.{Result}
use gputools_replay.Probes.Waiting.Says.{library_events, reread}
use gputools_replay.Probes.Fetch.{Schedule}

-- The library's schedule in which every block that takes the handler locks the slot next.
abbrev pub as_library : Schedule → Fetch.Schedule
as_library s = record {
  between = s.between;
  token = s.token;
  start = s.start;
  turns = λ n. library_events (s.turns n);
  clock = s.clock;
  late = library_events s.late;
}

-- An error without the text of a report or of a failed setup, which the two sides word differently.
abbrev pub kind : FetchError → FetchError
kind (replayer t) = replayer (literal "")
kind (setup t) = setup (literal "")
kind (parse t) = parse t
kind empty_batch = empty_batch
kind no_token = no_token
kind Errors.FetchError.timeout = Errors.FetchError.timeout
kind no_response = no_response
kind no_data = no_data

module _ {V D : Type 0} (p : Plist V D) {T : Type 0} (r : Record T) where
  abbrev pub kinds : Outcome FetchError (Reply T) → Outcome FetchError (Reply T)
  kinds (ok reply) = ok reply
  kinds (err e) = err (kind e)
  kinds panic = panic

  -- How many texts the observer has recorded at the end, and the result up to the wording of errors.
  abbrev pub summary :
      Option (List Text × Outcome FetchError (Reply T)) → Option (ℕ × Outcome FetchError (Reply T))
  summary none = none
  summary (some (errors, o)) = some (length errors, kinds o)

  -- The same of a fetch of the probes, whose bytes are parsed and decoded.
  abbrev pub reread_summary :
      Option (List Text × Result) → Option (ℕ × Outcome FetchError (Reply T))
  reread_summary none = none
  reread_summary (some (errors, o)) =
      some (length errors, kinds (do raw ← reread p o; decode r raw))
