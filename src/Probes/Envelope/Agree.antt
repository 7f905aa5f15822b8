-- ===== src/Probes/Envelope/Agree.antt =====
-- `parse_reply` of the probes against `RawReply::parse` of the library.
use text.Mathlib.Text.{◌==◌ as str_eq}
use gputools_replay.Prelude.{
  ℕ, String, Bool, true, false, Bool-cases, Option, none, some, List, [], ◌∷◌, Outcome, ok, err,
  panic, ◌>>=◌, ok_or, if◌then◌else◌, ltb, length, get_elem?, usize_mod, ◌==◌, ◌≡◌, ◌⊎◌, inl, inr,
  refl, ap, ◌∙◌,
}
use gputools_replay.Errors.{FetchError, parse, Text, literal, info_not_multiple}
use gputools_replay.Plist.{
  Plist, View, uid, dictionary, other, as_dictionary, get_array, get_dictionary,
}
use gputools_replay.Reply
use gputools_replay.Reply.{RawReply}
use gputools_replay.Reply.Envelope
use gputools_replay.Probes.{ReplyError, plist, unexpected_shape, trailing_bytes, short_record}
use gputools_replay.Probes.Envelope.{
  Reply, Parts, no_parts, shape, resolve, resolve_uid, store, parse_entry, parse_loop,
  open_envelope, finish, parse_reply, unknown_of,
}

-- The error of the library that says the same. The library's readers have no short record: they panic.
abbrev pub as_fetch_error : ReplyError → FetchError
as_fetch_error (plist e) = parse e
as_fetch_error (unexpected_shape msg) = parse msg
as_fetch_error (trailing_bytes len stride) = parse (info_not_multiple len stride)
as_fetch_error (short_record offset) = parse (literal "record is too short")

-- `f` of the value, and the library's error.
abbrev pub translate : {A B : Type 0} → (A → B) → Outcome ReplyError A → Outcome FetchError B
translate f (ok a) = ok (f a)
translate f (err e) = err (as_fetch_error e)
translate f panic = panic

module _ {A B C D : Type 0} (f : A → C) (g : B → D) where
  translate->>= :
      (m : Outcome ReplyError A) (n : Outcome FetchError C) (k : A → Outcome ReplyError B)
      (l : C → Outcome FetchError D)
      → n ≡ translate f m
      → ((a : A) → l (f a) ≡ translate g (k a))
      → (n >>= l) ≡ translate g (m >>= k)
  translate->>= (ok a) n k l h e = ap (λ x. x >>= l) h ∙ e a
  translate->>= (err x) n k l h e = ap (λ x. x >>= l) h
  translate->>= panic n k l h e = ap (λ x. x >>= l) h

-- The same for a missing value, which is an error on both sides.
ok_or->>= :
    {A B D : Type 0} (g : B → D) (e : ReplyError) (o : Option A) (k : A → Outcome ReplyError B)
    (l : A → Outcome FetchError D)
    → ((a : A) → l a ≡ translate g (k a))
    → (ok_or (as_fetch_error e) o >>= l) ≡ translate g (ok_or e o >>= k)
ok_or->>= g e none k l h = refl
ok_or->>= g e (some a) k l h = h a

translate-ok_or :
    {A : Type 0} (e : ReplyError) (o : Option A)
    → ok_or (as_fetch_error e) o ≡ translate (λ a. a) (ok_or e o)
translate-ok_or e none = refl
translate-ok_or e (some a) = refl

-- The library's values for those of the probes.
abbrev pub raw_of : Reply → RawReply
raw_of r = record { unknown_len = r.unknown_count; info = r.info; blob = r.blob }

abbrev parts_of : Parts → Reply.Envelope.Parts
parts_of r = record { unknown_len = r.unknown_count; info = r.info; blob = r.blob }

module _ {V D : Type 0} (p : Plist V D) where
  resolve_uid-agrees :
      (objects : List V) (n : ℕ)
      → Reply.Envelope.resolve_uid p objects n ≡ translate (λ v. v) (resolve_uid p objects n)
  resolve_uid-agrees objects n = elim (Bool-cases (ltb n usize_mod)) [
    | inl t ↦ rw t (translate-ok_or _ (get_elem? objects n))
    | inr t ↦ rw t refl
  ]

  resolve-agrees :
      (objects : List V) (v : V)
      → Reply.Envelope.resolve p objects v ≡ translate (λ v. v) (resolve p objects v)
  unfolding Reply.Envelope.resolve resolve
  resolve-agrees objects v = by_view (p.view v)
    where
      by_view :
          (w : View D)
          → (elim w [
            | uid n ↦ Reply.Envelope.resolve_uid p objects n
            | dictionary d ↦ ok v
            | other ↦ ok v
          ])
            ≡ translate
                (λ v. v)
                (elim w [ uid n ↦ resolve_uid p objects n | dictionary d ↦ ok v | other ↦ ok v ])
      by_view (uid n) = resolve_uid-agrees objects n
      by_view (dictionary d) = refl
      by_view other = refl

  store-agrees :
      (name : String) (v : V) (parts : Parts)
      → Reply.Envelope.store p name v (parts_of parts) ≡ translate parts_of (store p name v parts)
  unfolding Reply.Envelope.store store
  store-agrees name v parts = elim (Bool-cases (str_eq name "unknown")) [
    | inl t ↦ rw t (ok_or->>= parts_of _ (unknown_of p v) _ _ (λ a. refl))
    | inr t ↦ elim (Bool-cases (str_eq name "info")) [
      | inl i ↦ rw (t, i) (ok_or->>= parts_of _ (p.as_data v) _ _ (λ a. refl))
      | inr i ↦ elim (Bool-cases (str_eq name "data")) [
        | inl d ↦ rw (t, i, d) (ok_or->>= parts_of _ (p.as_data v) _ _ (λ a. refl))
        | inr d ↦ rw (t, i, d) refl
      ]
    ]
  ]

  parse_entry-agrees :
      (objects : List V) (k v : V) (parts : Parts)
      → Reply.Envelope.parse_entry p objects k v (parts_of parts)
        ≡ translate parts_of (parse_entry p objects k v parts)
  unfolding Reply.Envelope.parse_entry parse_entry
  parse_entry-agrees objects k v parts =
      translate->>= (λ a. a) parts_of _ _ _ _ (resolve-agrees objects k)
        (λ key. ok_or->>= parts_of _ (p.as_string key) _ _ (λ name.
          translate->>= (λ a. a) parts_of _ _ _ _ (resolve-agrees objects v)
            (λ w. store-agrees name w parts)))

  parse_loop-agrees :
      (objects ks vs : List V) (parts : Parts)
      → Reply.Envelope.parse_loop p objects ks vs (parts_of parts)
        ≡ translate parts_of (parse_loop p objects ks vs parts)
  unfolding Reply.Envelope.parse_loop parse_loop
  parse_loop-agrees objects [] vs parts = refl
  parse_loop-agrees objects (k ∷ ks) [] parts = refl
  parse_loop-agrees objects (k ∷ ks) (v ∷ vs) parts =
      translate->>= parts_of parts_of _ _ _ _ (parse_entry-agrees objects k v parts)
        (λ next. parse_loop-agrees objects ks vs next)

  finish-agrees :
      (parts : Parts) → Reply.Envelope.finish p (parts_of parts) ≡ translate raw_of (finish p parts)
  finish-agrees parts =
      ok_or->>= raw_of _ parts.unknown_count _ _ (λ u.
        ok_or->>= raw_of _ parts.info _ _ (λ i. ok_or->>= raw_of _ parts.blob _ _ (λ b. refl)))

  open_envelope-agrees :
      (bytes : List ℕ)
      → Reply.Envelope.open_envelope p bytes ≡ translate (λ o. o) (open_envelope p bytes)
  unfolding Reply.Envelope.open_envelope open_envelope
  open_envelope-agrees bytes =
      translate->>= (λ a. a) (λ o. o) _ _ _ _ (read (p.from_bytes bytes))
        (λ root.
          ok_or->>= (λ o. o) _ (as_dictionary p root) _ _
            (λ dict.
              ok_or->>= (λ o. o) _ (get_array p dict "$objects") _ _
                (λ objects.
                  ok_or->>= (λ o. o) _ (get_dictionary p dict "$top") _ _
                    (λ top.
                      ok_or->>= (λ o. o) _ (p.get top "root") _ _
                        (λ root_ref.
                          translate->>= (λ a. a) (λ o. o) _ _ _ _ (resolve-agrees objects root_ref)
                            (λ target.
                              ok_or->>= (λ o. o) _ (as_dictionary p target) _ _
                                (λ payload.
                                  ok_or->>= (λ o. o) _ (get_array p payload "NS.keys") _ _
                                    (λ keys.
                                      ok_or->>= (λ o. o) _ (get_array p payload "NS.objects") _ _
                                        (λ vals.
                                          same (length keys == length vals)
                                            (objects, keys, vals))))))))))
    where
      read :
          (r : Text ⊎ V)
          → (elim r [ inl e ↦ err (parse e) | inr root ↦ ok root ])
            ≡ translate (λ v. v) (elim r [ inl e ↦ err (plist e) | inr root ↦ ok root ])
      read (inl e) = refl
      read (inr v) = refl

      same :
          (b : Bool) (o : List V × List V × List V)
          → (if b
              then ok o
              else err (Reply.Envelope.shape "NS.keys and NS.objects differ in length"))
            ≡ translate
                (λ o. o)
                (if b then ok o else err (shape "NS.keys and NS.objects differ in length"))
      same true o = refl
      same false o = refl

  -- On any bytes the parser of the probes and that of the library agree: the same reply, or an error that says
  -- the same.
  pub parse_reply-agrees :
      (bytes : List ℕ) → Reply.Envelope.parse_reply p bytes ≡ translate raw_of (parse_reply p bytes)
  unfolding Reply.Envelope.parse_reply parse_reply
  parse_reply-agrees bytes =
      translate->>= (λ o. o) raw_of _ _ _ _ (open_envelope-agrees bytes)
        (λ o.
          translate->>= parts_of raw_of _ _ _ _ (parse_loop-agrees o.0 o.1 o.2 no_parts)
            (λ parts. finish-agrees parts))
