-- ===== src/Reply/Envelope/Entries.antt =====
-- `RawReply::parse` against a description of the entries of the archived dictionary.
use text.Mathlib.Text.{◌==◌ as str_eq}
use text.Mathlib.TextEquality.{eq_iff}
use gputools_replay.Prelude.{
  ℕ, String, Option, none, some, List, [], ◌∷◌, ok, err, >>=-eq-ok, ok_or, if◌then◌else◌, Bool,
  true, false, Bool-cases, Option-cases, ◌≡◌, ◌↔◌, ◌⊎◌, inl, inr, refl, sym, ap, ◌∙◌, All,
}
use gputools_replay.Errors.{FetchError}
use gputools_replay.Format.{is_some}
use gputools_replay.Plist.{Plist}
use gputools_replay.Reply.{RawReply}
use gputools_replay.Reply.Envelope.{
  Parts, no_parts, resolve, unknown_of, store, parse_entry, parse_loop, open_envelope, finish,
  parse_reply,
}

-- A text that is one name is no other.
other_name : (n a b : String) → str_eq n a ≡ true → str_eq a b ≡ false → str_eq n b ≡ false
other_name n a b h k = ap (λ m. str_eq m b) ((eq_iff n a).0 h) ∙ k

ok_or-some : {A : Type 0} (e : FetchError) (o : Option A) (a : A) → ok_or e o ≡ ok a → o ≡ some a
ok_or-some e none a h = cc
ok_or-some e (some x) a h = cc

module _ {V D : Type 0} (p : Plist V D) where
  -- The value of an entry has the shape that its name asks for. Other names ask for none.
  abbrev pub shaped : String × V → Bool
  shaped (n, w) =
      if str_eq n "unknown"
      then is_some (unknown_of p w)
      else if str_eq n "info"
      then is_some (p.as_data w)
      else if str_eq n "data"
      then is_some (p.as_data w)
      else true

  -- The two references of an entry resolve to a text and to a value.
  abbrev pub Reads : List V → V → V → String × V → Type 0
  Reads objects k v (n, w) =
      (key : V) × (resolve p objects k ≡ ok key)
      × (p.as_string key ≡ some n)
      × (resolve p objects v ≡ ok w)

  -- The entries that the keys and the values describe, in order.
  abbrev pub Describes : List V → List V → List V → List (String × V) → Type 0
  Describes objects (k ∷ ks) (v ∷ vs) (e ∷ es) = Reads objects k v e × Describes objects ks vs es
  Describes objects [] vs [] = Unit
  Describes objects (k ∷ ks) [] [] = Unit
  Describes objects (k ∷ ks) (v ∷ vs) [] = ⊥
  Describes objects [] vs (e ∷ es) = ⊥
  Describes objects (k ∷ ks) [] (e ∷ es) = ⊥

  -- What `read` makes of the last entry of a name.
  abbrev pub last_of {ℓ} :
      {A : Type ℓ} → (V → Option A) → String → Option A → List (String × V) → Option A
  last_of read name acc [] = acc
  last_of read name acc ((n, w) ∷ es) = last_of read name (if str_eq n name then read w else acc) es

  step : String × V → Parts → Parts
  step (n, w) parts =
      if str_eq n "unknown"
      then record parts { unknown_len = unknown_of p w }
      else if str_eq n "info"
      then record parts { info = p.as_data w }
      else if str_eq n "data"
      then record parts { blob = p.as_data w }
      else parts

  store_cases :
      (e : String × V) (parts : Parts)
      → ((shaped e ≡ true) × (store p e.0 e.1 parts ≡ ok (step e parts)))
        ⊎ ((shaped e ≡ false) × (x : FetchError) × (store p e.0 e.1 parts ≡ err x))
  unfolding store step
  store_cases (n, w) parts = elim (Bool-cases (str_eq n "unknown")) [
    | inl t ↦ elim (Option-cases (unknown_of p w)) [
      | inl e ↦ rw (t, e) (inr (refl, _, refl))
      | inr (m, e) ↦ rw (t, e) (inl (refl, refl))
    ]
    | inr t ↦ elim (Bool-cases (str_eq n "info")) [
      | inl i ↦ elim (Option-cases (p.as_data w)) [
        | inl e ↦ rw (t, i, e) (inr (refl, _, refl))
        | inr (m, e) ↦ rw (t, i, e) (inl (refl, refl))
      ]
      | inr i ↦ elim (Bool-cases (str_eq n "data")) [
        | inl d ↦ elim (Option-cases (p.as_data w)) [
          | inl e ↦ rw (t, i, d, e) (inr (refl, _, refl))
          | inr (m, e) ↦ rw (t, i, d, e) (inl (refl, refl))
        ]
        | inr d ↦ rw (t, i, d) (inl (refl, refl))
      ]
    ]
  ]

  fold : List (String × V) → Parts → Parts
  fold [] parts = parts
  fold (e ∷ es) parts = fold es (step e parts)

  fold-last :
      (es : List (String × V)) (parts : Parts)
      → fold es parts ≡ record {
        unknown_len = last_of (unknown_of p) "unknown" parts.unknown_len es;
        info = last_of p.as_data "info" parts.info es;
        blob = last_of p.as_data "data" parts.blob es;
      }
  unfolding fold step
  fold-last [] parts = refl
  fold-last ((n, w) ∷ es) parts = elim (Bool-cases (str_eq n "unknown")) [
    | inl t ↦
        rw (t, other_name n "unknown" "info" t refl, other_name n "unknown" "data" t refl)
          (fold-last es _)
    | inr t ↦ elim (Bool-cases (str_eq n "info")) [
      | inl i ↦ rw (t, i, other_name n "info" "data" i refl) (fold-last es _)
      | inr i ↦ elim (Bool-cases (str_eq n "data")) [
        | inl d ↦ rw (t, i, d) (fold-last es _)
        | inr d ↦ rw (t, i, d) (fold-last es _)
      ]
    ]
  ]

  loop_complete :
      (objects ks vs : List V) (es : List (String × V)) (parts : Parts)
      → Describes objects ks vs es
      → All (λ e. shaped e ≡ true) es
      → parse_loop p objects ks vs parts ≡ ok (fold es parts)
  unfolding parse_loop parse_entry fold
  loop_complete objects [] vs [] parts d h = refl
  loop_complete objects [] vs (e ∷ es) parts d h = absurd d
  loop_complete objects (k ∷ ks) [] [] parts d h = refl
  loop_complete objects (k ∷ ks) [] (e ∷ es) parts d h = absurd d
  loop_complete objects (k ∷ ks) (v ∷ vs) [] parts d h = absurd d
  loop_complete objects (k ∷ ks) (v ∷ vs) (e ∷ es) parts d h =
      let (key, a, n, b) = d.0 in
      elim (store_cases e parts) [
        | inl (t, s) ↦ rw (a, n, b, s) (loop_complete objects ks vs es (step e parts) d.1 h.1)
        | inr (t, x, s) ↦ cc (h.0)
      ]

  loop_sound :
      (objects ks vs : List V) (parts last : Parts)
      → parse_loop p objects ks vs parts ≡ ok last
      → (es : List (String × V)) × Describes objects ks vs es
        × All (λ e. shaped e ≡ true) es
        × (last ≡ fold es parts)
  unfolding parse_loop parse_entry fold
  loop_sound objects [] vs parts last h = ([], tt, tt, cc)
  loop_sound objects (k ∷ ks) [] parts last h = ([], tt, tt, cc)
  loop_sound objects (k ∷ ks) (v ∷ vs) parts last h =
      let (next, b, rest) = >>=-eq-ok (parse_entry p objects k v parts) _ h in
      let (key, r, b2) = >>=-eq-ok (resolve p objects k) _ b in
      let (n, t, b3) = >>=-eq-ok (ok_or _ (p.as_string key)) _ b2 in
      let (w, u, b4) = >>=-eq-ok (resolve p objects v) _ b3 in
      elim (store_cases (n, w) parts) [
        | inl (g, s) ↦
            let next_is : next ≡ step (n, w) parts = cc in
            let (es, d, shapes, e) = loop_sound objects ks vs next last rest in
            (
              (n, w) ∷ es,
              ((key, r, ok_or-some _ _ _ t, u), d),
              (g, shapes),
              e ∙ ap (fold es) next_is,
            )
        | inr (g, x, s) ↦ cc
      ]

  finish_fields :
      (unknown_len : Option ℕ) (info blob : Option (List ℕ)) (raw : RawReply)
      → finish p (record { unknown_len = unknown_len; info = info; blob = blob }) ≡ ok raw
      → (unknown_len ≡ some raw.unknown_len) × (info ≡ some raw.info) × (blob ≡ some raw.blob)
  finish_fields none info blob raw h = cc
  finish_fields (some u) none blob raw h = cc
  finish_fields (some u) (some i) none raw h = cc
  finish_fields (some u) (some i) (some b) raw h =
      let e : record { unknown_len = u; info = i; blob = b } ≡ raw = cc in
      (
        ap (λ (r : RawReply). some r.unknown_len) e,
        ap (λ (r : RawReply). some r.info) e,
        ap (λ (r : RawReply). some r.blob) e,
      )

  -- The bytes are the archive of the reply. The envelope opens, each of its entries resolves and has the
  -- shape that its name asks for, and the reply's fields are what the last entries of three names hold.
  abbrev pub Archives : List ℕ → RawReply → Type 0
  Archives bytes raw =
      (objects : List V) × (ks : List V) × (vs : List V) × (es : List (String × V)) × (open_envelope
          p bytes
        ≡ ok (objects, ks, vs))
      × Describes objects ks vs es
      × All (λ e. shaped e ≡ true) es
      × (last_of (unknown_of p) "unknown" none es ≡ some raw.unknown_len)
      × (last_of p.as_data "info" none es ≡ some raw.info)
      × (last_of p.as_data "data" none es ≡ some raw.blob)

  -- `RawReply::parse` succeeds with a reply exactly on an archive of one: the envelope opens, each
  -- entry resolves and has the shape that its name asks for, and the reply's three fields are what
  -- the last entries named `unknown`, `info` and `data` hold. Other entries make no difference.
  pub parse_reply_iff :
      (bytes : List ℕ) (raw : RawReply) → (parse_reply p bytes ≡ ok raw) ↔ Archives bytes raw
  unfolding parse_reply
  parse_reply_iff bytes raw = (
    λ h.
        let (opened, o, h2) = >>=-eq-ok (open_envelope p bytes) _ h in
        let (parts, l, h3) = >>=-eq-ok (parse_loop p opened.0 opened.1 opened.2 no_parts) _ h2 in
        let (es, d, shapes, e) = loop_sound opened.0 opened.1 opened.2 no_parts parts l in
        let fields =
          finish_fields _ _ _ raw (ap (finish p) (sym (e ∙ fold-last es no_parts)) ∙ h3) in
        (opened.0, opened.1, opened.2, es, o, d, shapes, fields.0, fields.1, fields.2),
    λ (objects, ks, vs, es, o, d, shapes, u, i, b).
        rw (o, loop_complete objects ks vs es no_parts d shapes, fold-last es no_parts, u, i, b),
  )
