-- ===== src/Probes/Programs/TexBmp.antt =====
-- probes/src/bin/texbmp.rs: one texture, written as its packed pixels and as a BMP file. The capacity that
-- the buffers ask for is not modelled, and a line on the terminal has no other effect.
pub mod Rows
pub mod Reader
pub mod Dump
use gputools_replay.Prelude.{
  ℕ, zero, suc, ◌+◌, ◌*◌, ◌%◌, ◌/◌, String, Option, none, some, List, [], ◌∷◌, ◌++◌, Outcome, ok,
  err, panic, ◌>>=◌, ok_or, unwrap, slice, as_u32, mul_usize, add_usize,
}
use gputools_replay.Errors.{Text}
use gputools_replay.Plist.{Plist}
use gputools_replay.Probes.Records.{InfoRecord}
use gputools_replay.Probes.Envelope.{Reply}
use gputools_replay.Probes.Programs.{
  payload_of, ProgramError, Exit, success, failure, aborted, no_record, message, io, Fetch, natural,
  fetch_records,
}

-- What `fetch_one` returns.
pub record Fetched : Type 0 where
  pub payload : List ℕ
  pub width : ℕ
  pub height : ℕ
  pub bytes_per_row : ℕ
  pub pixel_format : ℕ

-- `records.first()`
abbrev pub first_record : List InfoRecord → Option InfoRecord
first_record [] = none
first_record (r ∷ rs) = some r

module _ {V D : Type 0} (p : Plist V D) where
  -- `fetch_one`
  unfoldable pub fetch_one : Fetch → ℕ → Outcome ProgramError Fetched
  fetch_one fetch stream_ref = do
    got ← fetch_records p fetch (natural stream_ref ∷ [])
    r ← ok_or (no_record stream_ref) (first_record got.1)
    payload ← ok_or (message "payload out of range") (payload_of got.0.blob r)
    ok (record {
      payload = payload;
      width = r.width;
      height = r.height;
      bytes_per_row = r.bytes_per_row;
      pixel_format = r.pixel_format;
    })

-- `n.to_le_bytes()`, of `k` bytes
unfoldable pub to_le_bytes : ℕ → ℕ → List ℕ
to_le_bytes zero n = []
to_le_bytes (suc k) n = n % 256 ∷ to_le_bytes k (n / 256)

-- `BITMAPFILEHEADER` and `BITMAPINFOHEADER`. `w as i32` has the bytes of `w`.
unfoldable pub bmp_header : (w h img_size : ℕ) → List ℕ
bmp_header w h img_size =
    b'B' ∷ b'M' ∷ to_le_bytes 4 (as_u32 (54 + img_size))
    ++ to_le_bytes 4 0
    ++ to_le_bytes 4 54
    ++ to_le_bytes 4 40
    ++ to_le_bytes 4 w
    ++ to_le_bytes 4 h
    ++ to_le_bytes 2 1
    ++ to_le_bytes 2 32
    ++ to_le_bytes 4 0
    ++ to_le_bytes 4 (as_u32 img_size)
    ++ to_le_bytes 4 2835
    ++ to_le_bytes 4 2835
    ++ to_le_bytes 4 0
    ++ to_le_bytes 4 0

-- `for y in (0..h).rev()`, with the rows below `y` left.
unfoldable pub bmp_loop :
    ℕ → (stride row_bytes : ℕ) → List ℕ → List ℕ → Outcome ProgramError (List ℕ)
bmp_loop zero stride row_bytes px out = ok out
bmp_loop (suc y) stride row_bytes px out = do
  let start = mul_usize y stride
  row ← ok_or (message "row out of range") (slice px start (add_usize start row_bytes))
  bmp_loop y stride row_bytes px (out ++ row)

-- The bytes that `write_bmp` writes.
unfoldable pub bmp_of : List ℕ → (w h bpr : ℕ) → Outcome ProgramError (List ℕ)
bmp_of px w h bpr =
    let row_bytes = mul_usize w 4 in
    bmp_loop h bpr row_bytes px (bmp_header w h (mul_usize row_bytes h))

-- The loop of `dump`, with `k` rows left from row `y` on.
unfoldable pub packed_loop :
    ℕ → ℕ → (stride row_bytes : ℕ) → List ℕ → List ℕ → Outcome ProgramError (List ℕ)
packed_loop zero y stride row_bytes px out = ok out
packed_loop (suc k) y stride row_bytes px out = do
  let start = mul_usize y stride
  row ← unwrap (slice px start (add_usize start row_bytes))
  packed_loop k (y + 1) stride row_bytes px (out ++ row)

-- The files of a run: `ref{r}-{phase}` with its extension.
pub data FileName : Type 0 where
  bgra bmp : (stream_ref : ℕ) (phase : String) → FileName

-- The files that a program has written, the last one first.
abbrev pub Written : Type 0
Written = List (FileName × List ℕ)

-- `std::fs::write`, which fails with a text or writes the file.
abbrev pub write_file :
    (FileName → Option Text)
    → FileName
    → List ℕ
    → Written
    → Written × Outcome ProgramError (Unit {0})
write_file fails name bytes files = elim (fails name) [
  | some e ↦ (files, err (io e))
  | none ↦ ((name, bytes) ∷ files, ok tt)
]

-- A step on the files, and the next one if it succeeds.
infixl 5 ◌then_on_files◌
abbrev pub ◌then_on_files◌ :
    Written × Outcome ProgramError (Unit {0})
    → (Written → Written × Outcome ProgramError (Unit {0}))
    → Written × Outcome ProgramError (Unit {0})
(files, ok done) then_on_files next = next files
(files, err e) then_on_files next = (files, err e)
(files, panic) then_on_files next = (files, panic)

abbrev pub exit_of : Outcome ProgramError (Unit {0}) → Exit
exit_of (ok done) = success
exit_of (err e) = failure
exit_of panic = aborted

module _ (fails : FileName → Option Text) where
  -- `write_bmp`
  unfoldable pub write_bmp :
      FileName → List ℕ → (w h bpr : ℕ) → Written → Written × Outcome ProgramError (Unit {0})
  write_bmp name px w h bpr files = elim (bmp_of px w h bpr) [
    | ok out ↦ write_file fails name out files
    | err e ↦ (files, err e)
    | panic ↦ (files, panic)
  ]

  -- `dump`, from what `fetch_one` returned.
  unfoldable pub dump_fetched :
      ℕ → String → Fetched → Written → Written × Outcome ProgramError (Unit {0})
  dump_fetched r phase f files =
      elim (packed_loop f.height 0 f.bytes_per_row (mul_usize f.width 4) f.payload []) [
        | ok packed ↦
            write_file fails (bgra r phase) packed files
            then_on_files write_bmp (bmp r phase) f.payload f.width f.height f.bytes_per_row
        | err e ↦ (files, err e)
        | panic ↦ (files, panic)
      ]

  module _ {V D : Type 0} (p : Plist V D) where
    -- `dump`
    unfoldable pub dump : Fetch → ℕ → String → Written → Written × Outcome ProgramError (Unit {0})
    dump fetch r phase files = elim (fetch_one p fetch r) [
      | ok f ↦ dump_fetched r phase f files
      | err e ↦ (files, err e)
      | panic ↦ (files, panic)
    ]

    -- The second half of `main`, from what the first dump came to.
    abbrev pub dump_after : Fetch → ℕ → Written × Outcome ProgramError (Unit {0}) → Written × Exit
    dump_after after r (files, ok done) =
        let (last, result) = dump after r "after" files in (last, exit_of result)
    dump_after after r (files, err e) = (files, failure)
    dump_after after r (files, panic) = (files, aborted)

    -- `main` from the open session on, for the session's fetch before and after `play_all`.
    unfoldable pub texbmp_run : (before after : Fetch) → ℕ → Written × Exit
    texbmp_run before after r = dump_after after r (dump before r "before" [])
