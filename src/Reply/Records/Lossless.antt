-- ===== src/Reply/Records/Lossless.antt =====
-- The 80 bytes of a chunk against the record that is decoded from them.
use gputools_replay.Prelude.{
  ℕ, zero, suc, ◌+◌, ◌*◌, ◌≡◌, ap, sym, ◌∙◌, ◌⊎◌, inl, inr, take-take, drop-take, List, [], ◌∷◌,
  arith, length, take, drop, drop-drop, length-take, length-drop, All, All-take, All-drop, eq-nil,
  eq_of_take-drop, IsByte,
}
use gputools_replay.Util.{from_le_bytes}
use gputools_replay.Util.Reads.{le_at, from_le_bytes-injective}
use gputools_replay.Reply.Records.{
  BufferRecord, HeapRecord, AccelRecord, PipelineRecord, decode_buffer, decode_heap, decode_accel,
  decode_pipeline,
}
use gputools_replay.Reply.Records.Total.{
  word, buffer_of, heap_of, accel_of, pipeline_of, decode_buffer_in, decode_heap_in,
  decode_accel_in, decode_pipeline_in,
}

-- The `k` words from offset `o` on.
abbrev words : ℕ → ℕ → List ℕ → List ℕ
words zero o c = []
words (suc k) o c = word c o ∷ words k (o + 4) c

-- Equal words come of equal bytes.
words-injective :
    (k o : ℕ) (c d : List ℕ)
    → All IsByte c
    → All IsByte d
    → length c ≡ o + 4 * k
    → length d ≡ o + 4 * k
    → words k o c ≡ words k o d
    → drop o c ≡ drop o d
words-injective zero o c d hc hd lc ld e =
    eq-nil (drop o c) (omega (arith, length-drop o c))
    ∙ sym (eq-nil (drop o d) (omega (arith, length-drop o d)))
words-injective (suc k) o c d hc hd lc ld e =
    eq_of_take-drop 4 (drop o c) (drop o d)
      (from_le_bytes-injective _ _ (All-take IsByte 4 (drop o c) (All-drop IsByte o c hc))
        (All-take IsByte 4 (drop o d) (All-drop IsByte o d hd))
        (omega (
          arith,
          length-take 4 (drop o c),
          length-take 4 (drop o d),
          length-drop o c,
          length-drop o d,
        ))
        (ground arith))
      (rw (drop-drop o 4 c, drop-drop o 4 d)
        (words-injective k (o + 4) c d hc hd (omega arith) (omega arith) (ground arith)))

buffer_words : (c d : List ℕ) → buffer_of c ≡ buffer_of d → words 20 0 c ≡ words 20 0 d
buffer_words c d e = ground (arith, ap (λ (x : BufferRecord). x.unmapped) e)

heap_words : (c d : List ℕ) → heap_of c ≡ heap_of d → words 20 0 c ≡ words 20 0 d
heap_words c d e = ground (arith, ap (λ (x : HeapRecord). x.unmapped) e)

accel_words : (c d : List ℕ) → accel_of c ≡ accel_of d → words 20 0 c ≡ words 20 0 d
accel_words c d e = ground (arith, ap (λ (x : AccelRecord). x.unmapped) e)

module _ (c d : List ℕ) (hc : All IsByte c) (hd : All IsByte d) (lc : length c ≡ 80)
    (ld : length d ≡ 80) where
  buffer_lossless : decode_buffer c ≡ decode_buffer d → c ≡ d
  buffer_lossless e =
      words-injective 20 0 c d hc hd lc ld
        (buffer_words c d (ground (arith, decode_buffer_in c lc, decode_buffer_in d ld)))

  heap_lossless : decode_heap c ≡ decode_heap d → c ≡ d
  heap_lossless e =
      words-injective 20 0 c d hc hd lc ld
        (heap_words c d (ground (arith, decode_heap_in c lc, decode_heap_in d ld)))

  accel_lossless : decode_accel c ≡ decode_accel d → c ≡ d
  accel_lossless e =
      words-injective 20 0 c d hc hd lc ld
        (accel_words c d (ground (arith, decode_accel_in c lc, decode_accel_in d ld)))

  handle_words : le_at c 8 8 ≡ le_at d 8 8 → (word c 8 ≡ word d 8) × (word c 12 ≡ word d 12)
  handle_words e =
      let same : take 8 (drop 8 c) ≡ take 8 (drop 8 d) =
        from_le_bytes-injective _ _ (All-take IsByte 8 (drop 8 c) (All-drop IsByte 8 c hc))
          (All-take IsByte 8 (drop 8 d) (All-drop IsByte 8 d hd))
          (omega (
            arith,
            length-take 8 (drop 8 c),
            length-take 8 (drop 8 d),
            length-drop 8 c,
            length-drop 8 d,
          ))
          e in
      (
        ap from_le_bytes
            (sym (take-take 4 4 (drop 8 c)) ∙ ap (take 4) same ∙ take-take 4 4 (drop 8 d)),
        ap from_le_bytes (upper c ∙ ap (drop 4) same ∙ sym (upper d)),
      )
    where
      upper : (x : List ℕ) → take 4 (drop 12 x) ≡ drop 4 (take 8 (drop 8 x))
      upper x = rw (← drop-drop 8 4 x) (sym (drop-take 4 4 (drop 8 x)))

  pipeline_words : pipeline_of c ≡ pipeline_of d → words 20 0 c ≡ words 20 0 d
  pipeline_words e = ground (
    arith,
    ap (λ (x : PipelineRecord). x.unmapped) e,
    ap (λ (x : PipelineRecord). x.handle) e,
    handle_words (ap (λ (x : PipelineRecord). x.handle) e),
  )

  pipeline_lossless : decode_pipeline c ≡ decode_pipeline d → c ≡ d
  pipeline_lossless e =
      words-injective 20 0 c d hc hd lc ld
        (pipeline_words (ground (arith, decode_pipeline_in c lc, decode_pipeline_in d ld)))

  -- Two 80-byte chunks of bytes that decode to the same buffer, heap, acceleration-structure or pipeline
  -- record are the same bytes: the mapped fields and `unmapped` together keep all of the chunk.
  pub records_lossless :
      (decode_buffer c ≡ decode_buffer d)
        ⊎ (decode_heap c ≡ decode_heap d)
        ⊎ (decode_accel c ≡ decode_accel d)
        ⊎ (decode_pipeline c ≡ decode_pipeline d)
      → c ≡ d
  records_lossless (inl e) = buffer_lossless e
  records_lossless (inr (inl e)) = heap_lossless e
  records_lossless (inr (inr (inl e))) = accel_lossless e
  records_lossless (inr (inr (inr e))) = pipeline_lossless e
