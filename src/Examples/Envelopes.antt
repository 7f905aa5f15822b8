-- ===== src/Examples/Envelopes.antt =====
-- The theorems on archives, at concrete inputs.
use gputools_replay.Prelude.{[], ◌∷◌, ok, ◌≡◌, ◌↔◌, refl}
use gputools_replay.Reply.{RawReply}
use gputools_replay.Reply.Envelope.{
  parse_reply, open_envelope, resolve, parse_loop, parse_entry, store,
}
use gputools_replay.Reply.Envelope.Entries.{Archives, parse_reply_iff}
use gputools_replay.Examples.Plists.{reply_plist}

abbrev small_raw : RawReply
small_raw = record { unknown_len = 1; info = 1 ∷ 2 ∷ []; blob = 3 ∷ [] }

reply_plist-parse : parse_reply reply_plist (0 ∷ []) ≡ ok small_raw
unfolding parse_reply open_envelope resolve parse_loop parse_entry store
reply_plist-parse = refl

parse_reply_iff_example :
    (parse_reply reply_plist (0 ∷ []) ≡ ok small_raw) ↔ Archives reply_plist (0 ∷ []) small_raw
parse_reply_iff_example = parse_reply_iff reply_plist (0 ∷ []) small_raw
