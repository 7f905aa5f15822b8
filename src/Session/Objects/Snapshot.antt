-- ===== src/Session/Objects/Snapshot.antt =====
-- crates/gputools-replay-hl/src/capture.rs: `Capture::open` and the accessors that serve its snapshot of
-- the loaded textures, which agree with the live map of that moment.
use gputools_replay.Prelude.{
  ℕ, Option, none, some, List, [], ◌∷◌, map, Outcome, ok, err, panic, ◌>>=◌, ◌==◌, if◌then◌else◌,
}
use gputools_replay.Errors.{Error, SessionError, session}
use gputools_replay.Session.{World, Process, Session, open_session}
use gputools_replay.Session.Objects.{
  ObjectMapError, TextureDescriptor, Slot, live_textures, live_unused_refs,
}

-- The fields of a capture that the snapshot and the session make up. The field `path` and the bundle,
-- which is opened when it is first asked for, belong to the manifest.
pub record Capture : Type 0 where
  pub session : Session
  pub timeout : ℕ
  pub loaded : Outcome ObjectMapError (List (ℕ × TextureDescriptor))
  pub unused : Outcome ObjectMapError (List ℕ)

-- The capture of a session that is open, for the slot of its controller. The timeout is in seconds.
abbrev pub snapshot : Slot → Outcome SessionError Session → Outcome Error Capture
snapshot slot (ok s) = ok (record {
  session = s;
  timeout = 60;
  loaded = live_textures slot;
  unused = live_unused_refs slot;
})
snapshot slot (err e) = err (session e)
snapshot slot panic = panic

-- `Capture::open`
unfoldable pub open_capture : World → Slot → Process → Process × Outcome Error Capture
open_capture w slot p = let (q, opened) = open_session w p in (q, snapshot slot opened)

-- `Capture::set_timeout`
abbrev pub set_timeout : ℕ → Capture → Capture
set_timeout t c = record c { timeout = t }

-- `.iter().find(|(r, _)| *r == stream_ref).map(|(_, d)| *d)`
abbrev pub find_ref : ℕ → List (ℕ × TextureDescriptor) → Option TextureDescriptor
find_ref r [] = none
find_ref r (x ∷ xs) = let rest = find_ref r xs in if x.0 == r then some x.1 else rest

-- `Capture::texture_descriptor`
unfoldable pub texture_descriptor : Capture → ℕ → Outcome ObjectMapError (Option TextureDescriptor)
texture_descriptor c r = do loaded ← c.loaded; ok (find_ref r loaded)

-- `Capture::loaded_textures`
abbrev pub loaded_textures : Capture → Outcome ObjectMapError (List (ℕ × TextureDescriptor))
loaded_textures c = c.loaded

-- `Capture::loaded_texture_refs`
unfoldable pub loaded_texture_refs : Capture → Outcome ObjectMapError (List ℕ)
loaded_texture_refs c = do loaded ← c.loaded; ok (map (λ x. x.0) loaded)

-- `Capture::unused_resource_refs`
abbrev pub unused_resource_refs : Capture → Outcome ObjectMapError (List ℕ)
unused_resource_refs c = c.unused
