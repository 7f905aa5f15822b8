-- ===== src/Probes/Fetch/Agree.antt =====
-- A fetch of the probes, whose bytes the library's parser and decoder then read, against the blocking fetch
-- of the library that the framework answers in the same way.
use gputools_replay.Prelude.{
  ℕ, ◌<◌, ◌≤◌, String, Bool, true, false, Option, none, some, List, [], ◌∷◌, map, length, Outcome,
  ◌>>=◌, arith, ◌≡◌, ◌≢◌, inl, inr, refl, sym, ap, ◌∙◌, subst,
}
use gputools_replay.Errors.{Text, FetchError}
use gputools_replay.Plist.{Plist}
use gputools_replay.Reply.{Record, decode}
use gputools_replay.Reply.Records.{texture}
use gputools_replay.Session.Observer.{Notified}
use gputools_replay.Session.Observer
use gputools_replay.Fetch.Batch.{Runtime}
use gputools_replay.Fetch.Batch
use gputools_replay.Fetch
use gputools_replay.Fetch.Waiting
use gputools_replay.Probes.{SessionError}
use gputools_replay.Probes.Observer.{
  Heard, silent, heard, first_error_since-Heard, first_error_since-library, notify_all,
  length-notify_all, length-notify_all_library,
}
use gputools_replay.Probes.Batch.{FetchRequest, Object}
use gputools_replay.Probes.Batch.Agree.{
  Built, as_request, as_wireframe, build_batch-Built, build_raw_batch-Built,
  build_wireframe_batch-Built,
}
use gputools_replay.Probes.Waiting.{Wait, Result, dispatched, run, wait_for}
use gputools_replay.Probes.Waiting.Says.{library_events, reread, Says}
use gputools_replay.Probes.Waiting.Loop.{Ended, wait_for-Ended, length-run, length-run_library}
use gputools_replay.Probes.Fetch.{
  Schedule, finish_fetch, after_wait, await_reply, dispatch, fetch_textures, fetch_raw,
  fetch_wireframe,
}
use gputools_replay.Probes.Fetch.Kinds.{as_library, kinds, summary, reread_summary}

module _ {V D : Type 0} (p : Plist V D) {T : Type 0} (r : Record T) where
  -- The two marks of the library stand before what either observer recorded after them.
  finish-agrees :
      (mark inner : ℕ) (a : Waiting.Result) (b : Result) (xs ys : List Text) (o : Option Text)
      (q : Option Text) (late : ℕ)
      → mark ≤ inner
      → late ≤ length xs
      → length xs ≡ length ys
      → Heard mark xs o
      → Heard mark ys q
      → Says p (inner < late) a b
      → kinds p r (Fetch.finish_fetch p r o a)
        ≡ kinds p r (do raw ← reread p (finish_fetch false q b); decode r raw)
  finish-agrees mark inner a b xs ys none none late le l n (silent h) (silent g) (inl e) =
      ap (λ x. kinds p r (do raw ← x; decode r raw)) e
  finish-agrees mark inner a b xs ys none none late le l n (silent h) (silent g) (inr y) =
      absurd (omega arith)
  finish-agrees mark inner a b xs ys (some m) none late le l n (heard t h) (silent g) s =
      absurd (omega arith)
  finish-agrees mark inner a b xs ys none (some k) late le l n (silent h) (heard u g) s =
      absurd (omega arith)
  finish-agrees mark inner a b xs ys (some m) (some k) late le l n (heard t h) (heard u g) s = refl

  module _ (description : Notified → Option (List ℕ)) (s : Schedule) (timeout fuel : ℕ) where
    after_wait-agrees :
        (mark inner : ℕ) (x : Option (Waiting.Wait × Waiting.Result)) (y : Option (Wait × Result))
        → mark ≤ inner
        → Ended p inner x y
        → summary p r (Fetch.after_wait p r (as_library s) timeout fuel mark inner x)
          ≡ reread_summary p r (after_wait description false s timeout fuel mark y)
    after_wait-agrees mark inner none none le e = refl
    after_wait-agrees mark inner none (some y) le e = absurd e
    after_wait-agrees mark inner (some x) none le e = absurd e
    after_wait-agrees mark inner (some (l, a)) (some (w, b)) le (n, e) =
        let xs = (Waiting.run p inner (library_events s.late) l).errors in
        let ys = (run description s.late w).errors in
        let grown = length-run_library p inner s.late l in
        let same : length xs ≡ length ys =
          omega (arith, n, grown, length-run description s.late w) in
        rw same (
          ap (λ o. some (length ys, o))
            (finish-agrees mark inner a b xs ys _ _ (length l.errors) le (omega (arith, grown)) same
              (subst (Heard mark xs) (sym (first_error_since-library mark xs))
                (first_error_since-Heard mark xs))
              (first_error_since-Heard mark ys) e))

    -- From the built batch on.
    pub dispatch-agrees :
        (xs ys : List Text)
        → length xs ≡ length ys
        → (l : Outcome FetchError (List Batch.Object)) (o : Outcome SessionError (List Object))
        → Built l o
        → summary p r (Fetch.after_build p r (as_library s) timeout fuel xs l)
          ≡ reread_summary p r (dispatch description false s timeout fuel o ys)
    unfolding dispatch Fetch.await_reply await_reply
    dispatch-agrees xs ys n l o (inr (t, u, e, a, b, c)) = rw (a, b, c, n) refl
    dispatch-agrees xs ys n l o (inl (b, c, e, f, same)) = rw (e, f) (sent s.token)
      where
        more :
            length (Observer.notify_all s.between xs) ≡ length (notify_all description s.between ys)
        more = omega (
          arith,
          n,
          length-notify_all_library s.between xs,
          length-notify_all description s.between ys,
        )

        sent :
            (token : Bool)
            → summary p r (
                Fetch.after_dispatch p r
                  (as_library s)
                  timeout
                  fuel
                  xs
                  (Observer.notify_all s.between xs)
                  (Fetch.fetch_with_handler token (Observer.notify_all s.between xs)))
              ≡ reread_summary p r (
                  await_reply description false s timeout fuel
                    (length ys)
                    (notify_all description s.between ys)
                    token)
        sent false = rw more refl
        sent true =
            after_wait-agrees (length xs) (length (Observer.notify_all s.between xs)) _ _
              (omega (arith, length-notify_all_library s.between xs))
              (wait_for-Ended p (length (Observer.notify_all s.between xs)) description s.turns
                s.clock s.start timeout fuel 0 _ (dispatched (notify_all description s.between ys))
                (more, tt, refl, refl, tt))
            ∙ ap
                (λ k. reread_summary p r (
                  after_wait description false s timeout fuel k (
                    wait_for description s.turns s.clock s.start timeout fuel 0
                      (dispatched (notify_all description s.between ys)))))
                n

  module _ (description : Notified → Option (List ℕ)) (s : Schedule) (timeout fuel : ℕ)
      (rt : Runtime) (xs ys : List Text) (n : length xs ≡ length ys) where
    pub fetch_wireframe-agrees :
        (uids : List ℕ)
        → uids ≢ []
        → summary p r (
            Fetch.fetch_class p r
              (as_library s)
              timeout
              fuel
              (Batch.build_wireframe_batch rt)
              (map as_wireframe uids)
              xs)
          ≡ reread_summary p r (fetch_wireframe description false s timeout fuel rt uids ys)
    unfolding fetch_wireframe Fetch.fetch_class
    fetch_wireframe-agrees [] h = absurd (h refl)
    fetch_wireframe-agrees (q ∷ qs) h =
        dispatch-agrees description s timeout fuel xs ys n _ _ (build_wireframe_batch-Built rt q qs)

    pub fetch_raw-agrees :
        (responds : String → Bool) (class : String)
        → responds class ≡ true
        → (refs : List ℕ)
        → summary p r (
            Fetch.fetch_class p r
              (as_library s)
              timeout
              fuel
              (Batch.build_streamref_batch rt class)
              (map (λ q. q) refs)
              xs)
          ≡ reread_summary p r
              (fetch_raw description false s timeout fuel rt responds class refs ys)
    unfolding fetch_raw Fetch.fetch_class
    fetch_raw-agrees responds class h [] = rw n refl
    fetch_raw-agrees responds class h (q ∷ qs) =
        dispatch-agrees description s timeout fuel xs ys n _ _
          (build_raw_batch-Built rt responds class h q qs)

-- A texture fetch of the probes without the tolerance, whose bytes are parsed and decoded as the library does it,
-- ends as the library's fetch of the same textures. Both spend the fuel, or give the same reply or an error
-- of the same kind, with as many reports heard. The framework answers both alike: each block that takes the
-- library's handler locks the slot next. So the check of the observer in the library's block changes no result.
pub fetch_textures-agrees :
    {V D : Type 0} (p : Plist V D) (description : Notified → Option (List ℕ)) (s : Schedule)
    (timeout fuel : ℕ) (rt : Runtime) (xs ys : List Text)
    → length xs ≡ length ys
    → (requests : List FetchRequest)
    → summary p texture
        (Fetch.fetch_textures p rt (as_library s) timeout fuel (map as_request requests) xs)
      ≡ reread_summary p texture (fetch_textures description false s timeout fuel rt requests ys)
unfolding fetch_textures Fetch.fetch_class
fetch_textures-agrees p description s timeout fuel rt xs ys n [] = rw n refl
fetch_textures-agrees p description s timeout fuel rt xs ys n (q ∷ qs) =
    dispatch-agrees p texture description s timeout fuel xs ys n _ _ (build_batch-Built rt q qs)
