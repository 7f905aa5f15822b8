-- ===== src/Fetch.antt =====
-- crates/gputools-replay/src/fetch.rs: the fetch core. Fetch/Batch.antt builds the batches,
-- Fetch/Waiting.antt has the completion handler and the wait, and this file the typed blocking fetches.
-- A fetch starts from what the session's observer has recorded, and gives with its result what the
-- observer has recorded at its end.
pub mod Batch
pub mod Waiting
mod Awaits
pub mod Results
use gputools_replay.Prelude.{
  ℕ, ◌+◌, Bool, true, false, Option, none, some, List, [], ◌∷◌, Outcome, ok, err, panic, ◌>>=◌,
}
use gputools_replay.Errors.{Text, FetchError, empty_batch, no_token, replayer}
use gputools_replay.Plist.{Plist}
use gputools_replay.Reply.{Record, Reply, decode}
use gputools_replay.Reply.Records.{
  TextureRecord, BufferRecord, HeapRecord, AccelRecord, PipelineRecord, WireframeRecord, texture,
  buffer, heap, accel, pipeline, wireframe,
}
use gputools_replay.Request.{TextureRequest, WireframeRequest}
use gputools_replay.Session.Observer.{Notified, notify_all, error_count, first_error_since}
use gputools_replay.Fetch.Batch.{
  Runtime, Object, build_texture_batch, build_buffer_batch, build_heap_batch, build_accel_batch,
  build_pipeline_batch, build_wireframe_batch,
}
use gputools_replay.Fetch.Waiting.{Event, Wait, Result, dispatched, run, pump_until}

-- What the framework and its threads do during one fetch.
pub record Schedule : Type 0 where
  -- the reports between the mark of the fetch and that of `fetch_with_handler`
  pub between : List Notified
  -- whether `-fetch:` returns a token
  pub token : Bool
  -- the time when the wait starts
  pub start : ℕ
  -- the events before the check of each turn, and the time that the turn reads
  pub turns : ℕ → List Event
  pub clock : ℕ → ℕ
  -- the events between the end of the wait and the check of the observer
  pub late : List Event

-- `fetch_with_handler`, for the observer as it stands: its mark and the wait that it leaves
abbrev pub fetch_with_handler : Bool → List Text → Outcome FetchError (ℕ × Wait)
fetch_with_handler true errors = ok (error_count errors, dispatched errors)
fetch_with_handler false errors = err no_token

module _ {V D : Type 0} (p : Plist V D) {T : Type 0} (r : Record T) where
  -- The check of the observer before the reply is decoded.
  abbrev pub finish_fetch : Option Text → Result → Outcome FetchError (Reply T)
  finish_fetch (some message) result = err (replayer message)
  finish_fetch none result = do raw ← result; decode r raw

  module _ (s : Schedule) (timeout fuel : ℕ) where
    -- From the end of the wait on.
    abbrev pub after_wait :
        (mark inner : ℕ)
        → Option (Wait × Result)
        → Option (List Text × Outcome FetchError (Reply T))
    after_wait mark inner none = none
    after_wait mark inner (some (ended, result)) =
        let last = run p inner s.late ended in
        some (last.errors, finish_fetch (first_error_since mark last.errors) result)

    -- From the wait on, for the mark of the fetch, that of `fetch_with_handler` and the wait.
    unfoldable pub await_reply : ℕ → ℕ × Wait → Option (List Text × Outcome FetchError (Reply T))
    await_reply mark (inner, w) =
        after_wait mark inner (pump_until p inner s.turns s.clock (s.start + timeout) fuel 0 w)

    -- From the dispatch on.
    abbrev pub after_dispatch :
        List Text
        → List Text
        → Outcome FetchError (ℕ × Wait)
        → Option (List Text × Outcome FetchError (Reply T))
    after_dispatch errors heard (ok w) = await_reply (error_count errors) w
    after_dispatch errors heard (err e) = some (heard, err e)
    after_dispatch errors heard panic = some (heard, panic)

    -- From the built batch on.
    abbrev pub after_build :
        List Text
        → Outcome FetchError (List Object)
        → Option (List Text × Outcome FetchError (Reply T))
    after_build errors (ok batch) =
        let heard = notify_all s.between errors in
        after_dispatch errors heard (fetch_with_handler s.token heard)
    after_build errors (err e) = some (errors, err e)
    after_build errors panic = some (errors, panic)

    -- The body that the six fetches of the source have in common.
    unfoldable pub fetch_class :
        {Q : Type 0}
        → (List Q → Outcome FetchError (List Object))
        → List Q
        → List Text
        → Option (List Text × Outcome FetchError (Reply T))
    fetch_class build [] errors = some (errors, err empty_batch)
    fetch_class build (q ∷ qs) errors = after_build errors (build (q ∷ qs))

module _ {V D : Type 0} (p : Plist V D) (rt : Runtime) (s : Schedule) (timeout fuel : ℕ) where
  -- `Session::fetch_textures`
  abbrev pub fetch_textures :
      List TextureRequest
      → List Text
      → Option (List Text × Outcome FetchError (Reply TextureRecord))
  fetch_textures = fetch_class p texture s timeout fuel (build_texture_batch rt)

  -- `Session::fetch_buffers`
  abbrev pub fetch_buffers :
      List ℕ → List Text → Option (List Text × Outcome FetchError (Reply BufferRecord))
  fetch_buffers = fetch_class p buffer s timeout fuel (build_buffer_batch rt)

  -- `Session::fetch_heaps`
  abbrev pub fetch_heaps :
      List ℕ → List Text → Option (List Text × Outcome FetchError (Reply HeapRecord))
  fetch_heaps = fetch_class p heap s timeout fuel (build_heap_batch rt)

  -- `Session::fetch_acceleration_structures`
  abbrev pub fetch_acceleration_structures :
      List ℕ → List Text → Option (List Text × Outcome FetchError (Reply AccelRecord))
  fetch_acceleration_structures = fetch_class p accel s timeout fuel (build_accel_batch rt)

  -- `Session::fetch_pipeline_binaries`
  abbrev pub fetch_pipeline_binaries :
      List ℕ → List Text → Option (List Text × Outcome FetchError (Reply PipelineRecord))
  fetch_pipeline_binaries = fetch_class p pipeline s timeout fuel (build_pipeline_batch rt)

  -- `Session::fetch_wireframes`
  abbrev pub fetch_wireframes :
      List WireframeRequest
      → List Text
      → Option (List Text × Outcome FetchError (Reply WireframeRecord))
  fetch_wireframes = fetch_class p wireframe s timeout fuel (build_wireframe_batch rt)
