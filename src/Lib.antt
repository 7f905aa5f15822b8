-- ===== src/Lib.antt =====
-- Verification library of gputools-replay, which reads the contents of GPU captures: a session asks
-- the replay framework for resources, the reply is a table of 80-byte records and a blob of bytes,
-- and the high-level crate hands out typed handles on them.
--
-- The parts, each with the file that models it (paths from the repository's root):
--   crates/gputools-replay/src/error.rs and crates/gputools-replay-hl/src/error.rs  Errors
--   crates/gputools-replay/src/util.rs        Util: u16_at, u32_at, u64_at, truncate
--   crates/gputools-replay/src/reply.rs       Reply: Record, Reply::decode, Reply::payload;
--                                             Reply/Records: the six record classes;
--                                             Reply/Envelope: RawReply::parse
--   crates/gputools-replay/src/config.rs      Config: ReplayerConfig::apply_env
--   crates/gputools-replay/src/session.rs and crates/gputools-replay-sys/src/env.rs
--                                             Session: Session::open, load_bundle, check_unlock_env;
--                                             Session/Observer: ErrorObserver
--   crates/gputools-replay/src/descriptor.rs, session.rs and crates/gputools-replay-sys/src/layout.rs
--                                             Session/Objects: the object map, texture_descriptor,
--                                             loaded_textures, loaded_texture_refs,
--                                             unused_resource_refs, controller_object_map
--   crates/gputools-replay/src/fetch.rs       Fetch: the six blocking fetches; Fetch/Batch: the batches;
--                                             Fetch/Waiting: fetch_with_handler's block, store_into,
--                                             read_response and pump_until
--   crates/gputools-replay/src/request.rs     Request
--   crates/gputools-replay/src/harvester.rs   Harvester: CaptureBlock::parse, plane, data
--   crates/gputools-replay-hl/src/format.rs   Format, Format/Table, Format/Names
--   crates/gputools-replay-hl/src/bytes.rs    Bytes: AlignedBuf, Payload
--   crates/gputools-replay-hl/src/image.rs    Image, Image/Blocks; Texture and Wireframe in Handles
--   crates/gputools-replay-hl/src/buffer.rs, accel.rs and pipeline.rs  Handles,
--                                             Handles/Accel
--   crates/gputools-replay-hl/src/pipeline.rs Pipeline: Pipeline::stages and performance_stats;
--                                             Pipeline/Archive: unarchive_root, unarchive_value
--   crates/gputools-replay-hl/src/capture.rs  Capture: the fetches; Session/Objects/Snapshot:
--                                             Capture::open and the accessors of its snapshot;
--                                             Capture/Manifest: the manifest and textures_described
--   crates/gputools-replay-hl/src/describe.rs Describe: zip_best_effort;
--                                             Describe/Textures: describe_textures
--   probes/src/reply.rs                       Probes/Envelope: parse_reply; Probes/Records:
--                                             parse_records
--   probes/src/guard.rs and session.rs        Probes/Guard, Probes/Observer, Probes/Session: Session::open;
--                                             Probes/Batch, Probes/Waiting, Probes/Fetch: the fetches
--   probes/src/bin/texbmp.rs, pixelcheck.rs, datadiff.rs and playback.rs
--                                             Probes/Programs and its children of those names
--
-- How they interact: Session::open checks the bundle, bootstraps the framework once per process and
-- registers the observer. A fetch of Capture asks the session (Fetch): it builds a batch, dispatches it
-- and waits for the slot that the completion handler fills with a parsed response (Reply.Envelope);
-- the observer decides whether the reply counts. The raw reply is decoded (Reply.decode) into records
-- (Reply.Records). Capture copies the reply's blob into one aligned buffer (Bytes) and builds
-- a handle for each record (Handles); a texture's pixels are then read through its Image, whose
-- element size comes from the format table (Format). Capture::open also takes a snapshot of the loaded
-- textures (Session.Objects), which its accessors serve. The probes have a session and a parser of
-- their own, which are compared with the library's; their programs fetch before and after playback and
-- judge, compare or write what came.
--
-- The other children of these modules hold proofs, and Examples holds concrete inputs. Prelude has
-- the shared names: Boolean tests, lists over native numbers, machine words and `Outcome`, the
-- result of a Rust call, which is a value, an error value or a panic.
--
-- Conventions. A byte is a number, and a theorem that needs it below 256 says so. `usize` has 64 bits;
-- unchecked arithmetic wraps as in release builds, checked and saturating arithmetic is written out.
-- An index or slice out of range, an unwrap of nothing and a division by zero are panics. Loops
-- run over a list or down from a count that the code fixes before the loop, so they need no fuel;
-- the index of zip_best_effort goes with the descriptors from it on. The one exception is the wait,
-- pump_until, which ends when the clock says so: it runs on fuel, one unit for each turn of the run
-- loop, and enough is one more than the number of a turn whose clock has reached the deadline.
-- The recursion of unarchive_value runs on what is left of the depth that the source allows, 65 levels.
-- What the framework's threads do under one lock is one event, and a fetch is given the list of
-- events before each of its turns, so that a theorem for all lists is one for all interleavings. The
-- time is a number, and the sum of the start and the timeout is not bounded.
-- The crate `plist` is the record `Plist` of the operations that the code calls; its error is read as
-- its text. What the file system, the environment and the framework answer to one `open` is `World`.
-- `bytemuck` is the record `Pod` of a size, an alignment, a cast from bytes at an address and the
-- bytes of elements, with its documentation as `IsPod`. The allocator's address of a new buffer and
-- the session's typed fetch are arguments of Capture's definitions.
--
-- A program of the probes is modelled from its open session on, whose fetches before and after playback
-- are arguments; the standard library's `BTreeMap` is an ascending list of entries (Probes/Programs/BTree),
-- and a written file is an entry of a list.
--
-- Not modelled: the Objective-C bindings of crates/gputools-replay-sys and the other programs of the
-- probes, which are calls into the framework; playback (play_all, play_to, rewind), which is calls only;
-- what a program only prints; autorelease pools and what is leaked on purpose.
pub mod Prelude
pub mod Errors
pub mod Util
pub mod Plist
pub mod Config
pub mod Session
pub mod Reply
pub mod Format
pub mod Bytes
pub mod Image
pub mod Request
pub mod Fetch
pub mod Handles
pub mod Pipeline
pub mod Capture
pub mod Harvester
pub mod Describe
pub mod Probes
pub mod Examples
