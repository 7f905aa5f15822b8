-- ===== src/Examples/Programs.antt =====
-- Runs of four programs of the probes on small replies, and the theorems on them there.
use gputools_replay.Prelude.{
  bytes_eq, checked_add, ℕ, zero, suc, ◌%◌, ◌/◌, ◌≡◌, ◌⊎◌, ◌↔◌, refl, inl, inr, Option, none, some,
  List, [], ◌∷◌, ◌++◌, replicate, collect, ok, panic, arith, slice, if◌then◌else◌, ◌==◌,
}
use gputools_replay.Errors.{Text, literal}
use gputools_replay.Util.{codes, from_le_bytes}
use gputools_replay.Reply.{chunks}
use gputools_replay.Plist.{Plist}
use gputools_replay.Probes.Records.{
  InfoRecord, parse_records, parse_record, unmapped_loop, u32_at, u16_at,
}
use gputools_replay.Probes.Envelope.{
  Reply, parse_reply, open_envelope, parse_loop, parse_entry, store, resolve,
}
use gputools_replay.Probes.Programs.{Fetch, success, fetch_records, sweep_requests}
use gputools_replay.Probes.Programs.BTree.{get, insert}
use gputools_replay.Probes.Programs.TexBmp.{Fetched, FileName, bgra, bmp, fetch_one, dump}
use gputools_replay.Probes.Programs.TexBmp.Reader.{read_bmp}
use gputools_replay.Probes.Programs.TexBmp.Dump.{
  IsPlain, HasRows, IsShort, tight_pixels, dump-cases,
}
use gputools_replay.Probes.Programs.PixelCheck.{
  truth, check, row_loop, rows_loop, verdicts, stored_ones, wrong_ones, judge, phase,
  pixelcheck_run,
}
use gputools_replay.Probes.Programs.PixelCheck.Success.{IsSound, pixelcheck-success_iff}
use gputools_replay.Probes.Programs.DataDiff.{
  Summary, changed, dropped, collect_payloads, compare_loop, sweep, datadiff_run,
}
use gputools_replay.Probes.Programs.DataDiff.Report.{IsReport, datadiff-IsReport}
use gputools_replay.Probes.Programs.Playback.{
  Mode, play_all, play_to, parse_mode, Diff, collect_refs, difference, sweep_refs, playback_run,
}
use gputools_replay.Probes.Programs.Playback.Arguments.{IsNumeral, parse_mode_iff}
use gputools_replay.Probes.Programs.Playback.Answers.{IsMissing, playback-diff}
use gputools_replay.Examples.Plists.{
  Value, Entries, values, archive_of, string, dict, array, item, end, entry, stop, bytes,
}

-- A number of two bytes in a word of four.
abbrev word : ℕ → List ℕ
word n = n % 256 ∷ n / 256 ∷ 0 ∷ 0 ∷ []

-- A record of the info table, of a 2D texture.
abbrev info_of : (stream_ref data_offset size width height bytes_per_row : ℕ) → List ℕ
info_of stream_ref data_offset size width height bytes_per_row =
    replicate 8 0
    ++ word stream_ref
    ++ replicate 12 0
    ++ word data_offset
    ++ word size
    ++ replicate 16 0
    ++ word width
    ++ (height % 256 ∷ height / 256 ∷ 1 ∷ 0 ∷ [])
    ++ word 80
    ++ replicate 4 0
    ++ word bytes_per_row
    ++ replicate 12 0

-- The archive of a reply with an info table and a blob.
abbrev archive : (info blob : List ℕ) → Value
archive info blob = archive_of (
    string "$null"
    ∷ dict (
        entry "NS.keys"
          (array (item (string "unknown") (item (string "info") (item (string "data") end))))
          (entry "NS.objects"
            (array (
              item (dict (entry "NS.objects" (array end) stop))
                (item (bytes info) (item (bytes blob) end))))
            stop))
    ∷ [])

abbrev pick : Value → Value → List ℕ → Text ⊎ Value
pick old new [] = inl (literal "end of file")
pick old new (b ∷ bs) = if b == 0 then inr old else inr new

-- A reader that tells two archives apart by the first byte.
abbrev two_archives : Value → Value → Plist Value Entries
two_archives old new = record (values old) { from_bytes = pick old new }

-- The session's fetch before and after playback.
abbrev before : Fetch
before requests = ok (0 ∷ [])

abbrev after : Fetch
after requests = ok (1 ∷ [])

-- One pixel in each of two rows of five bytes, of which the last one is short.
abbrev tall : Plist Value Entries
tall = values (archive (info_of 3 1 9 1 2 5) (9 ∷ 1 ∷ 2 ∷ 3 ∷ 4 ∷ 0 ∷ 5 ∷ 6 ∷ 7 ∷ 8 ∷ []))

abbrev tall_fetched : Fetched
tall_fetched = record {
  payload = 1 ∷ 2 ∷ 3 ∷ 4 ∷ 0 ∷ 5 ∷ 6 ∷ 7 ∷ 8 ∷ [];
  width = 1;
  height = 2;
  bytes_per_row = 5;
  pixel_format = 80;
}

tall_fetch : fetch_one tall before 3 ≡ ok tall_fetched
unfolding fetch_one fetch_records parse_reply open_envelope parse_loop parse_entry store resolve
    parse_records parse_record unmapped_loop u32_at u16_at from_le_bytes slice checked_add collect
    chunks
tall_fetch = refl

tall-IsPlain : IsPlain tall_fetched
tall-IsPlain = record {
  width_i32 = omega arith;
  height_u16 = omega arith;
  stride_u32 = omega arith;
}

abbrev no_failure : FileName → Option Text
no_failure n = none

dump-cases_example :
    (HasRows tall_fetched
      × (file : List ℕ) × (dump no_failure tall before 3 "before" []
          ≡ ((bmp 3 "before", file) ∷ (bgra 3 "before", tight_pixels tall_fetched) ∷ [], ok tt))
      × (read_bmp file ≡ some (1, 2, tight_pixels tall_fetched)))
    ⊎ (IsShort tall_fetched × (dump no_failure tall before 3 "before" [] ≡ ([], panic)))
dump-cases_example =
    dump-cases no_failure (λ n. refl) tall before 3 "before" tall_fetched tall_fetch tall-IsPlain []

-- A row of the texture `private_blit_src`, whose contents are stored.
abbrev yellow : ℕ → List ℕ
yellow zero = []
yellow (suc k) = 0 ∷ 255 ∷ 255 ∷ 255 ∷ yellow k

abbrev stored : Plist Value Entries
stored = values (archive (info_of 3 0 256 64 1 256) (yellow 64))

stored_run : pixelcheck_run stored before after 0 ≡ success
unfolding pixelcheck_run phase verdicts check truth rows_loop row_loop stored_ones wrong_ones judge
    bytes_eq fetch_records parse_reply open_envelope parse_loop parse_entry store resolve
    parse_records parse_record unmapped_loop u32_at u16_at from_le_bytes slice checked_add collect
    chunks
stored_run = refl

-- The program ends with success on the same record with an empty payload.
abbrev vacuous : Plist Value Entries
vacuous = values (archive (info_of 3 0 0 64 1 256) [])

vacuous_run : pixelcheck_run vacuous before after 0 ≡ success
unfolding pixelcheck_run phase verdicts check truth rows_loop row_loop stored_ones wrong_ones judge
    bytes_eq fetch_records parse_reply open_envelope parse_loop parse_entry store resolve
    parse_records parse_record unmapped_loop u32_at u16_at from_le_bytes slice checked_add collect
    chunks
vacuous_run = refl

pixelcheck-success_iff_example :
    IsSound stored before after 0
    × ((later : Reply × List InfoRecord) × (fetch_records stored after (sweep_requests 0)
          ≡ ok later))
pixelcheck-success_iff_example = (pixelcheck-success_iff stored before after 0).0 stored_run

-- Two sweeps: across playback texture 3 changes, 5 goes, 6 stays and 7 comes.
abbrev swept : Plist Value Entries
swept =
    two_archives
      (archive (info_of 6 2 1 1 1 1 ++ info_of 3 0 1 1 1 1 ++ info_of 5 1 1 1 1 1) (8 ∷ 9 ∷ 7 ∷ []))
      (archive (info_of 7 1 1 1 1 1 ++ info_of 6 2 1 1 1 1 ++ info_of 3 0 1 1 1 1) (4 ∷ 9 ∷ 7 ∷ []))

abbrev swept_summary : Summary
swept_summary = record { same = 1; changes = 1; lines = dropped 5 ∷ changed 3 ∷ [] }

datadiff_swept : datadiff_run swept before after 0 ≡ ok swept_summary
unfolding datadiff_run sweep collect_payloads compare_loop get insert bytes_eq fetch_records
    parse_reply open_envelope parse_loop parse_entry store resolve parse_records parse_record
    unmapped_loop u32_at u16_at from_le_bytes slice checked_add collect chunks
datadiff_swept = refl

datadiff-IsReport_example :
    (b : Reply) × (old : List InfoRecord) × (a : Reply) × (new : List InfoRecord) × (fetch_records
        swept before
        (sweep_requests 0)
      ≡ ok (b, old))
    × (fetch_records swept after (sweep_requests 0) ≡ ok (a, new))
    × IsReport b.blob old a.blob new swept_summary
datadiff-IsReport_example = datadiff-IsReport swept before after 0 swept_summary datadiff_swept

abbrev swept_diff : Diff
swept_diff = record { newly_answering = 7 ∷ []; dropped = 5 ∷ [] }

abbrev after_mode : Mode → Fetch
after_mode mode = after

playback_swept : playback_run swept before after_mode 0 play_all ≡ ok swept_diff
unfolding playback_run sweep_refs collect_refs difference get insert fetch_records parse_reply
    open_envelope parse_loop parse_entry store resolve parse_records parse_record unmapped_loop
    u32_at u16_at from_le_bytes slice checked_add collect chunks
playback_swept = refl

playback-diff_example :
    (b : Reply) × (old : List InfoRecord) × (a : Reply) × (new : List InfoRecord) × (fetch_records
        swept before
        (sweep_requests 0)
      ≡ ok (b, old))
    × (fetch_records swept after (sweep_requests 0) ≡ ok (a, new))
    × IsMissing swept_diff.newly_answering new old
    × IsMissing swept_diff.dropped old new
playback-diff_example = playback-diff swept before after_mode 0 play_all swept_diff playback_swept

parse_mode_iff_example :
    ((parse_mode (codes "playto:+07") ≡ ok play_all) ↔ (codes "playto:+07" ≡ codes "playall"))
    × ((n : ℕ)
        → (parse_mode (codes "playto:+07") ≡ ok (play_to n))
          ↔ ((rest : List ℕ) × (codes "playto:+07" ≡ codes "playto:" ++ rest) × IsNumeral rest n))
parse_mode_iff_example = parse_mode_iff (codes "playto:+07")
