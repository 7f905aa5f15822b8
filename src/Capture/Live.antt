-- ===== src/Capture/Live.antt =====
-- crates/gputools-replay-hl/src/capture.rs on top of crates/gputools-replay/src/fetch.rs: a fetch of a
-- capture that calls the blocking fetch of its session.
use gputools_replay.Prelude.{
  ℕ, Option, none, some, List, [], ◌∷◌, Outcome, ok, err, panic, map_err, All, ◌≡◌, refl, ap, ◌∙◌,
}
use gputools_replay.Errors.{Text, Error, FetchError, fetch}
use gputools_replay.Plist.{Plist}
use gputools_replay.Bytes.{AlignedBuf, Payload, payload_bytes}
use gputools_replay.Reply.{Record, IsLawful, RawReply, Reply, decode, payload}
use gputools_replay.Fetch.{Schedule, fetch_class}
use gputools_replay.Fetch.Batch.{Object}
use gputools_replay.Fetch.Results.{fetch-honest}
use gputools_replay.Fetch.Waiting.Source.{Answered}
use gputools_replay.Capture.{payload_at, handles, fetch_handles}
use gputools_replay.Capture.Wire.{fetch_handles-bytes}

map_err-ok :
    {A : Type 0} (out : Outcome FetchError A) (a : A) → map_err fetch out ≡ ok a → out ≡ ok a
map_err-ok (ok x) a h = let e : x ≡ a = cc (h) in ap ok e
map_err-ok (err e) a h = cc (h)
map_err-ok panic a h = cc (h)

module _ {V D : Type 0} (p : Plist V D) {T H : Type 0} (r : Record T) (from_parts : T → Payload → H)
    (s : Schedule) (timeout fuel addr : ℕ) where
  -- The handles, from what the session's fetch gives.
  abbrev pub delivered :
      {Q : Type 0}
      → List Q
      → Option (List Text × Outcome FetchError (Reply T))
      → Option (List Text × Outcome Error (List H))
  delivered qs none = none
  delivered qs (some (errors, out)) =
      some (errors, fetch_handles r from_parts (λ sent. out) addr qs)

  -- A fetch of the capture: what its session has heard at the end, and the handles. No request asks
  -- nothing of the session.
  unfoldable pub live_handles :
      {Q : Type 0}
      → (List Q → Outcome FetchError (List Object))
      → List Q
      → List Text
      → Option (List Text × Outcome Error (List H))
  live_handles build [] errors = some (errors, ok [])
  live_handles build (q ∷ qs) errors =
      delivered (q ∷ qs) (fetch_class p r s timeout fuel build (q ∷ qs) errors)

  -- A fetch of a capture with at least one request, of a lawful class of records, that gives handles is
  -- honest from the framework's response to the bytes. Its session's observer heard nothing during it. Some
  -- completion of the wait brought a reply that decodes,
  -- there is one handle for each of its records, in order, and each handle's payload reads the bytes that
  -- its record names in that reply.
  pub live_handles-honest :
      (v : IsLawful r) {Q : Type 0} (build : List Q → Outcome FetchError (List Object)) (q : Q)
      (qs : List Q) (errors last : List Text) (hs : List H)
      → live_handles build (q ∷ qs) errors ≡ some (last, ok hs)
      → (last ≡ errors)
        × (raw : RawReply) × (reply : Reply T) × (buf : AlignedBuf) × (decode r raw ≡ ok reply)
        × ((m : ℕ) × Answered p (s.turns m) raw)
        × (buf.addr ≡ addr)
        × (hs ≡ handles r from_parts buf reply.records)
        × All
            (λ x. payload_bytes {E = Error} (payload_at r buf x) ≡ ok (payload r reply x))
            reply.records
  unfolding live_handles fetch_handles
  live_handles-honest v {Q} build q qs errors last hs h =
      ended (fetch_class p r s timeout fuel build (q ∷ qs) errors) refl h
    where
      Honest : Type 0
      Honest =
          (last ≡ errors)
          × (raw : RawReply) × (reply : Reply T) × (buf : AlignedBuf) × (decode r raw ≡ ok reply)
          × ((m : ℕ) × Answered p (s.turns m) raw)
          × (buf.addr ≡ addr)
          × (hs ≡ handles r from_parts buf reply.records)
          × All (λ x. payload_bytes {E = Error} (payload_at r buf x) ≡ ok (payload r reply x))
              reply.records

      answered :
          (reply : Reply T)
          → fetch_class p r s timeout fuel build (q ∷ qs) errors ≡ some (last, ok reply)
          → fetch_handles r from_parts (λ (sent : List Q). ok reply) addr (q ∷ qs) ≡ ok hs
          → Honest
      answered reply e g =
          let (silent, raw, d, m, a) =
            fetch-honest p r s timeout fuel build (q ∷ qs) errors last reply e in
          let (buf, at, made, bytes) =
            fetch_handles-bytes r v from_parts (λ (sent : List Q). ok reply) addr q qs raw reply d
              refl in
          let same : hs ≡ handles r from_parts buf reply.records = cc (g, made) in
          (silent, raw, reply, buf, d, (m, a), at, same, bytes)

      ended :
          (o : Option (List Text × Outcome FetchError (Reply T)))
          → fetch_class p r s timeout fuel build (q ∷ qs) errors ≡ o
          → delivered (q ∷ qs) o ≡ some (last, ok hs)
          → Honest
      ended none e g = cc (g)
      ended (some (heard, err x)) e g = cc (g)
      ended (some (heard, panic)) e g = cc (g)
      ended (some (heard, ok reply)) e g =
          let silent : heard ≡ last = cc (g) in
          let made : fetch_handles r from_parts (λ (sent : List Q). ok reply) addr (q ∷ qs)
              ≡ ok hs =
            cc (g) in
          answered reply (e ∙ ap (λ l. some (l, ok reply)) silent) made
