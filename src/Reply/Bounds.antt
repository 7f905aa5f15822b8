-- ===== src/Reply/Bounds.antt =====
-- `Reply::decode` on any reply, and the payloads of the records that it lets through.
use gputools_replay.Prelude.{
  ℕ, zero, suc, ◌+◌, ◌*◌, ◌%◌, ◌/◌, ◌≤◌, ◌≢◌, some, List, [], ◌∷◌, ok, err, collect, ◌==◌, leb, ltb,
  length, length-take, length-drop, take, drop, slice, slice_in, checked_add, usize_mod, ◌≡◌, ◌<◌,
  All, All-map, arith, subst, sym, refl, ◌⊎◌, inl, inr, Bool-cases, >>=-eq-ok, ap, ◌∙◌,
}
use mathlib.Core.List.{Memᴰ}
use native.Mathlib.Nat.{mod-eq_of_lt, div-add-mod}
use gputools_replay.Errors.{parse, info_not_multiple, payload_exceeds}
use gputools_replay.Reply.{
  Record, IsLawful, RawReply, Reply, chunks, chunks_exact, check_range, check_ranges, decode,
  payload,
}

module _ {T : Type 0} (r : Record T) where
  -- The record's payload lies in a blob of `len` bytes, and its end is a `usize`.
  abbrev pub Fits : ℕ → T → Type 0
  Fits len x =
      ((r.data_range x).0 + (r.data_range x).1 ≤ len)
      × ((r.data_range x).0 + (r.data_range x).1 < usize_mod)

  check_range_ok :
      (o n len : ℕ) → check_range (o, n) len ≡ ok tt → (o + n ≤ len) × (o + n < usize_mod)
  unfolding check_range checked_add
  check_range_ok o n len h = ground arith

  -- The check passes, or it refuses with the range and the length, and the range does not fit.
  check_range_cases :
      (o n len : ℕ)
      → (check_range (o, n) len ≡ ok tt)
        ⊎ ((check_range (o, n) len ≡ err (parse (payload_exceeds o n len)))
            × ¬ ((o + n ≤ len) × (o + n < usize_mod)))
  unfolding check_range checked_add
  check_range_cases o n len = elim (Bool-cases (ltb (o + n) usize_mod)) [
    | inl a ↦ elim (Bool-cases (leb (o + n) len)) [
      | inl b ↦ inl (ground arith)
      | inr b ↦ inr (ground arith, λ f. ground arith)
    ]
    | inr a ↦ inr (ground arith, λ f. ground arith)
  ]

  check_ranges-Fits : (xs : List T) (len : ℕ) → check_ranges r xs len ≡ ok tt → All (Fits len) xs
  unfolding check_ranges
  check_ranges-Fits [] len h = tt
  check_ranges-Fits (x ∷ xs) len h =
      let (u, a, b) = >>=-eq-ok (check_range (r.data_range x) len) (λ _. check_ranges r xs len) h in
      (check_range_ok (r.data_range x).0 (r.data_range x).1 len a, check_ranges-Fits xs len b)

  -- The loop over the records ends at the first one that does not fit.
  check_ranges_cases :
      (xs : List T) (len : ℕ)
      → (check_ranges r xs len ≡ ok tt)
        ⊎ ((x : T) × Memᴰ x xs
            × (check_ranges r xs len
                ≡ err (parse (payload_exceeds (r.data_range x).0 (r.data_range x).1 len)))
            × ¬ Fits len x)
  unfolding check_ranges
  check_ranges_cases [] len = inl refl
  check_ranges_cases (x ∷ xs) len =
      elim (check_range_cases (r.data_range x).0 (r.data_range x).1 len) [
        | inl a ↦ rw a (elim (check_ranges_cases xs len) [
          | inl b ↦ inl b
          | inr (y, m, e, n) ↦ inr (y, Memᴰ.tail m, e, n)
        ])
        | inr (a, b) ↦ inr (x, Memᴰ.head refl, rw a, b)
      ]

  chunks-length :
      (k n : ℕ) (xs : List ℕ) → k * n ≤ length xs → All (λ c. length c ≡ n) (chunks k n xs)
  unfolding chunks
  chunks-length zero n xs h = tt
  chunks-length (suc k) n xs h = (
    omega (arith, length-take n xs),
    chunks-length k n (drop n xs) (omega (arith, length-drop n xs)),
  )

  length-chunks : (k n : ℕ) (xs : List ℕ) → length (chunks k n xs) ≡ k
  unfolding chunks
  length-chunks zero n xs = refl
  length-chunks (suc k) n xs = ap suc (length-chunks k n (drop n xs))

  collect_total :
      (v : IsLawful r) (cs : List (List ℕ))
      → All (λ c. length c ≡ r.stride) cs
      → (ys : List T) × (collect r.decode cs ≡ ok ys) × (length ys ≡ length cs)
  unfolding collect
  collect_total v [] h = ([], refl, refl)
  collect_total v (c ∷ cs) h =
      let (y, p) = v.total c h.0 in
      let (ys, q, l) = collect_total v cs h.1 in (y ∷ ys, rw (p, q), ap suc l)

  pub chunks_exact-length :
      IsLawful r → (xs : List ℕ) → All (λ c. length c ≡ r.stride) (chunks_exact xs r.stride)
  chunks_exact-length v xs =
      chunks-length (length xs / r.stride) r.stride xs
        (omega (arith, div-add-mod (length xs) r.stride))

  pub decode_records :
      {raw : RawReply} {reply : Reply T}
      → decode r raw ≡ ok reply
      → (reply.raw ≡ raw)
        × (length raw.info % r.stride ≡ 0)
        × (collect r.decode (chunks_exact raw.info r.stride) ≡ ok reply.records)
        × (check_ranges r reply.records (length raw.blob) ≡ ok tt)
  unfolding decode
  decode_records {raw} {reply} h = ground arith

  pub payload_in :
      (reply : Reply T) (x : T)
      → Fits (length reply.raw.blob) x
      → (slice reply.raw.blob (r.data_range x).0 ((r.data_range x).0 + (r.data_range x).1)
          ≡ some (payload r reply x))
        × (length (payload r reply x) ≡ (r.data_range x).1)
  unfolding payload
  payload_in reply x f =
      let (o, n) = r.data_range x in
      let e : (o + n) % usize_mod ≡ o + n = mod-eq_of_lt f.1 in
      let s : slice reply.raw.blob o (o + n) ≡ some (take n (drop o reply.raw.blob)) =
        slice_in reply.raw.blob o n f.0 in
      rw (e, s, payload)
        (refl, omega (arith, length-take n (drop o reply.raw.blob), length-drop o reply.raw.blob))

  pub decode-Fits :
      (raw : RawReply) (reply : Reply T)
      → decode r raw ≡ ok reply
      → All (Fits (length reply.raw.blob)) reply.records
  decode-Fits raw reply h =
      let (same, whole, got, checked) = decode_records h in
      rw same (check_ranges-Fits reply.records (length raw.blob) checked)

  -- On any reply `decode` returns one of three things, and never panics: a decoded reply; the error
  -- that names the stride, and then the `info` table is no whole number of strides; or the error
  -- that names the payload of a record, and then that record does not fit the `data` blob.
  pub decode_cases :
      (v : IsLawful r) (raw : RawReply)
      → ((reply : Reply T) × (decode r raw ≡ ok reply))
        ⊎ ((decode r raw ≡ err (parse (info_not_multiple (length raw.info) r.stride)))
            × (length raw.info % r.stride ≢ 0))
        ⊎ ((xs : List T) × (x : T) × (collect r.decode (chunks_exact raw.info r.stride) ≡ ok xs)
            × Memᴰ x xs
            × (decode r raw
                ≡ err (
                    parse
                      (payload_exceeds (r.data_range x).0 (r.data_range x).1 (length raw.blob))))
            × ¬ Fits (length raw.blob) x)
  unfolding decode
  decode_cases v raw = elim (Bool-cases (length raw.info % r.stride == 0)) [
    | inr a ↦ inr (inl (rw a, λ e. ground arith))
    | inl a ↦
        let (xs, p, l) =
          collect_total v (chunks_exact raw.info r.stride) (chunks_exact-length v raw.info) in
        rw (a, p)
          (elim (check_ranges_cases xs (length raw.blob)) [
            | inl b ↦ inl (record { raw = raw; records = xs }, rw b)
            | inr (x, m, e, n) ↦ inr (inr (xs, x, refl, m, rw e, n))
          ])
  ]

  payload_of :
      {raw : RawReply} (reply : Reply T)
      → reply.raw ≡ raw
      → (x : T) → Fits (length raw.blob) x
      → (slice raw.blob (r.data_range x).0 ((r.data_range x).0 + (r.data_range x).1)
          ≡ some (payload r reply x))
        × (length (payload r reply x) ≡ (r.data_range x).1)
  payload_of {raw} reply same x f =
      subst
        (λ (w : RawReply).
          (slice w.blob (r.data_range x).0 ((r.data_range x).0 + (r.data_range x).1)
            ≡ some (payload r reply x))
          × (length (payload r reply x) ≡ (r.data_range x).1))
        same (payload_in reply x (subst (λ (w : RawReply). Fits (length w.blob) x) (sym same) f))

  length_records :
      (v : IsLawful r) (raw : RawReply) (reply : Reply T)
      → length raw.info % r.stride ≡ 0
      → collect r.decode (chunks_exact raw.info r.stride) ≡ ok reply.records
      → length raw.info ≡ r.stride * length reply.records
  length_records v raw reply whole got =
      let (ys, p, l) =
        collect_total v (chunks_exact raw.info r.stride) (chunks_exact-length v raw.info) in
      let same : ys ≡ reply.records = cc in
      let k : length reply.records ≡ length raw.info / r.stride =
        rw (← same) (l ∙ length-chunks (length raw.info / r.stride) r.stride raw.info) in
      rw k (omega (arith, div-add-mod (length raw.info) r.stride))

  -- A decoded reply of a lawful class has one record for each whole stride of the `info` table, and the slice of the
  -- `data` blob that a record names is there, is what `payload` returns, and has the named length.
  pub decode-payload :
      (v : IsLawful r) (raw : RawReply) (reply : Reply T)
      → decode r raw ≡ ok reply
      → (reply.raw ≡ raw)
        × (length raw.info ≡ r.stride * length reply.records)
        × All
            (λ x.
              (slice raw.blob (r.data_range x).0 ((r.data_range x).0 + (r.data_range x).1)
                ≡ some (payload r reply x))
              × (length (payload r reply x) ≡ (r.data_range x).1))
            reply.records
  decode-payload v raw reply h =
      let (same, whole, got, checked) = decode_records h in
      (
        same,
        length_records v raw reply whole got,
        All-map (λ x f. payload_of reply same x f) reply.records
            (check_ranges-Fits reply.records (length raw.blob) checked),
      )
