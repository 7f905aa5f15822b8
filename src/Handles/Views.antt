-- ===== src/Handles/Views.antt =====
-- The typed views of buffer.rs and accel.rs on a payload that can be read.
use gputools_replay.Prelude.{
  ℕ, ◌*◌, ◌/◌, ◌%◌, ◌^◌, ◌<◌, ◌≡◌, ◌≢◌, ◌⊎◌, inl, inr, refl, sym, ap, ◌∙◌, Bool-cases, List,
  Outcome, ok, err, ◌==◌, ==_iff, length, arith,
}
use native.Mathlib.Nat.{div-add-mod}
use gputools_replay.Errors.{Error, format_mismatch}
use gputools_replay.Util.Reads.{le_at}
use gputools_replay.Bytes.{Payload, payload_bytes, payload_addr, Pod, IsPod}
use gputools_replay.Image.Typed.{cast_cases}
use gputools_replay.Handles.{
  Buffer, Heap, buffer_as_slice, heap_as_slice, payload_as_slice, AccelStructure,
}

module _ {P : Type 0} (pod : Pod P) (v : IsPod pod) (pos : 0 < pod.size_of) where
  -- What `as_slice` may return for a payload: all its bytes as elements, or the error, for one of
  -- the two reasons.
  abbrev pub IsView : Payload → List ℕ → Outcome Error (List P) → Type 0
  IsView p bs r =
      ((ps : List P) × (r ≡ ok ps) × (length ps * pod.size_of ≡ length bs) × (pod.to_bytes ps ≡ bs))
      ⊎ ((r ≡ err (format_mismatch pod.size_of (length bs)))
          × ((length bs % pod.size_of ≢ 0) ⊎ (payload_addr p % pod.align_of ≢ 0)))

  payload_as_slice-IsView :
      (p : Payload) (bs : List ℕ)
      → payload_bytes {E = Error} p ≡ ok bs
      → IsView p bs (payload_as_slice pod p)
  payload_as_slice-IsView p bs e = rw e (elim (Bool-cases (length bs % pod.size_of == 0)) [
    | inr t ↦
        let n : length bs % pod.size_of ≢ 0 = λ k. ground arith in
        rw (v.cast_slop (payload_addr p) bs pos n) (inr (refl, inl n))
    | inl t ↦
        let whole : length bs ≡ length bs / pod.size_of * pod.size_of =
          omega (arith, div-add-mod (length bs) pod.size_of, (==_iff _ _).0 t) in
        elim (cast_cases pod v (payload_addr p) (length bs / pod.size_of) bs pos whole) [
          | inl (ps, c, l, same, z) ↦
              rw c (inl (ps, refl, ap (λ n. n * pod.size_of) l ∙ sym whole, same))
          | inr (c, z) ↦ rw c (inr (refl, inr z))
        ]
  ])

  -- `Buffer::as_slice` and `Heap::as_slice`, of a payload that can be read and an element type that
  -- `bytemuck` casts as documented: the whole payload as elements, or `FormatMismatch`, and then its
  -- length is no multiple of the element's size or its address none of the alignment.
  pub as_slice-cases :
      (b : Buffer) (h : Heap) (bs hs : List ℕ)
      → payload_bytes {E = Error} b.payload ≡ ok bs
      → payload_bytes {E = Error} h.payload ≡ ok hs
      → IsView b.payload bs (buffer_as_slice pod b) × IsView h.payload hs (heap_as_slice pod h)
  unfolding buffer_as_slice heap_as_slice
  as_slice-cases b h bs hs e e2 =
      (payload_as_slice-IsView b.payload bs e, payload_as_slice-IsView h.payload hs e2)

module _ {P : Type 0} (pod : Pod P) (v : IsPod pod) (size : pod.size_of ≡ 12) (a : AccelStructure)
    (bs : List ℕ) (e : payload_bytes {E = Error} a.payload ≡ ok bs)
    (bytes : le_at bs 0x2c 4 < 2 ^ 32) where
  -- The number of triangles that the header declares.
  abbrev pub count : ℕ
  count = le_at bs 0x2c 4
