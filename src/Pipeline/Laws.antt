-- ===== src/Pipeline/Laws.antt =====
-- What `Pipeline::stages` reads.
use mathlib.Core.List.{append-nil, append_assoc}
use gputools_replay.Prelude.{
  ℕ, String, some, List, [], ◌∷◌, ◌++◌, ok, >>=-eq-ok, ok_or, ◌≡◌, ◌↔◌, refl, sym, ap, ◌∙◌,
}
use gputools_replay.Errors.{bad_pipeline, entry_not_dict, stage_data_missing}
use gputools_replay.Plist.{Plist, as_dictionary}
use gputools_replay.Pipeline.{
  Stage, StageKind, vertex, fragment, compute, id_or_zero, data_in, stage_of, entries_loop,
  key_entries, keys_loop, stages,
}
use gputools_replay.Pipeline.Archive.{unarchive_root}
use gputools_replay.Pipeline.Archive.Decodes.{ok_or-some}

module _ {V D : Type 0} (p : Plist V D) where
  -- An entry is a dictionary with data, which the stage holds with the entry's id or 0.
  abbrev pub Holds : StageKind → V → Stage → Type 0
  Holds kind entry stage =
      (s : D) × (as_dictionary p entry ≡ some s)
      × (data_in p (p.get s "data") ≡ some stage.mach_o)
      × (stage.unique_id ≡ id_or_zero p (p.get s "uniqueId"))
      × (stage.kind ≡ kind)

  -- One stage for each entry, in order.
  abbrev pub HoldAll : StageKind → List V → List Stage → Type 0
  HoldAll kind [] [] = Unit
  HoldAll kind (e ∷ es) (s ∷ ss) = Holds kind e s × HoldAll kind es ss
  HoldAll kind [] (s ∷ ss) = ⊥
  HoldAll kind (e ∷ es) [] = ⊥

  stage_of-ok :
      (key : String) (kind : StageKind) (entry : V) (stage : Stage)
      → stage_of p key kind entry ≡ ok stage
      → Holds kind entry stage
  unfolding stage_of
  stage_of-ok key kind entry stage h =
      let (s, a, b) =
        >>=-eq-ok (ok_or (bad_pipeline (entry_not_dict key)) (as_dictionary p entry)) _ h in
      let (mach_o, c, d) =
        >>=-eq-ok (ok_or (bad_pipeline (stage_data_missing key)) (data_in p (p.get s "data"))) _
          b in
      let made : record {
        kind = kind;
        mach_o = mach_o;
        unique_id = id_or_zero p (p.get s "uniqueId");
      }
          ≡ stage =
        cc (d) in
      (
        s,
        ok_or-some _ _ s a,
        ok_or-some _ _ mach_o c ∙ ap (λ (x : Stage). some x.mach_o) made,
        sym (ap (λ (x : Stage). x.unique_id) made),
        sym (ap (λ (x : Stage). x.kind) made),
      )

  stage_of-Holds :
      (key : String) (kind : StageKind) (entry : V) (stage : Stage)
      → Holds kind entry stage
      → stage_of p key kind entry ≡ ok stage
  unfolding stage_of
  stage_of-Holds key kind entry stage (s, a, b, c, d) = rw (a, b) (ap ok (cc (c, d)))

  entries_loop-ok :
      (key : String) (kind : StageKind) (es : List V) (acc out : List Stage)
      → entries_loop p key kind es acc ≡ ok out
      → (new : List Stage) × HoldAll kind es new × (out ≡ acc ++ new)
  unfolding entries_loop
  entries_loop-ok key kind [] acc out h =
      let e : acc ≡ out = cc in ([], tt, sym e ∙ sym (append-nil acc))
  entries_loop-ok key kind (e ∷ es) acc out h =
      let (stage, a, b) = >>=-eq-ok (stage_of p key kind e) _ h in
      let (new, all, same) = entries_loop-ok key kind es (acc ++ (stage ∷ [])) out b in
      (stage ∷ new, (stage_of-ok key kind e stage a, all), same ∙ append_assoc acc (stage ∷ []) new)

  entries_loop-HoldAll :
      (key : String) (kind : StageKind) (es : List V) (acc new : List Stage)
      → HoldAll kind es new
      → entries_loop p key kind es acc ≡ ok (acc ++ new)
  unfolding entries_loop
  entries_loop-HoldAll key kind [] acc [] h = ap ok (sym (append-nil acc))
  entries_loop-HoldAll key kind [] acc (s ∷ ss) h = absurd h
  entries_loop-HoldAll key kind (e ∷ es) acc [] h = absurd h
  entries_loop-HoldAll key kind (e ∷ es) acc (s ∷ ss) h = rw (stage_of-Holds key kind e s h.0) (
      entries_loop-HoldAll key kind es (acc ++ (s ∷ [])) ss h.1
      ∙ ap ok (append_assoc acc (s ∷ []) ss))

  -- `Pipeline::stages` succeeds exactly where the archive unarchives to a dictionary all of whose entries
  -- under `vertex`, `fragment` and `compute` are readable, and gives one stage for each entry: first those
  -- under `vertex`, then `fragment`, then `compute`, each in the order of the entries. A key that is
  -- absent or no array has no entries.
  pub stages-ok_iff :
      (raw_bytes : List ℕ) (out : List Stage)
      → (stages p raw_bytes ≡ ok out) ↔ (
          (dict : D) × (vs : List Stage) × (fs : List Stage) × (cs : List Stage) × (unarchive_root p
              raw_bytes
            ≡ ok dict)
          × HoldAll vertex (key_entries p dict "vertex") vs
          × HoldAll fragment (key_entries p dict "fragment") fs
          × HoldAll compute (key_entries p dict "compute") cs
          × (out ≡ (vs ++ fs) ++ cs))
  unfolding stages keys_loop
  stages-ok_iff raw_bytes out = (
    λ h.
        let (dict, r, h1) = >>=-eq-ok (unarchive_root p raw_bytes) _ h in
        let (s1, l1, h2) =
          >>=-eq-ok (entries_loop p "vertex" vertex (key_entries p dict "vertex") []) _ h1 in
        let (s2, l2, h3) =
          >>=-eq-ok (entries_loop p "fragment" fragment (key_entries p dict "fragment") s1) _ h2 in
        let (s3, l3, h4) =
          >>=-eq-ok (entries_loop p "compute" compute (key_entries p dict "compute") s2) _ h3 in
        let (vs, a, e1) = entries_loop-ok "vertex" vertex (key_entries p dict "vertex") [] s1 l1 in
        let (fs, b, e2) =
          entries_loop-ok "fragment" fragment (key_entries p dict "fragment") s1 s2 l2 in
        let (cs, c, e3) =
          entries_loop-ok "compute" compute (key_entries p dict "compute") s2 s3 l3 in
        let last : s3 ≡ out = cc (h4) in
        (
          dict,
          vs,
          fs,
          cs,
          r,
          a,
          b,
          c,
          sym last ∙ e3 ∙ ap (λ x. x ++ cs) (e2 ∙ ap (λ x. x ++ fs) e1),
        ),
    λ (dict, vs, fs, cs, r, a, b, c, e).
        rw
          (
            r,
            entries_loop-HoldAll "vertex" vertex (key_entries p dict "vertex") [] vs a,
            entries_loop-HoldAll "fragment" fragment (key_entries p dict "fragment") vs fs b,
            entries_loop-HoldAll "compute" compute (key_entries p dict "compute") (vs ++ fs) cs c,
            e,
          )
          refl,
  )
