-- ===== src/Pipeline/Archive/Decodes.antt =====
-- `unarchive_value` against a description of what a value of an archive decodes to, which knows no depth.
use gputools_replay.Prelude.{
  ℕ, zero, suc, String, Bool-cases, Option, none, some, List, [], ◌∷◌, Outcome, ok, >>=-eq-ok,
  ok_or, collect, ◌==◌, ==_iff, length, ◌≡◌, inl, inr, refl, subst, arith,
}
use gputools_replay.Errors.{Error}
use gputools_replay.Plist.{Plist, View, uid, dictionary, other, get_array}
use gputools_replay.Pipeline.Archive.{
  target_of, pairs_loop, unarchive_dictionary, unarchive_node, unarchive_value,
}

pub ok_or-some : {A : Type 0} (e : Error) (o : Option A) (a : A) → ok_or e o ≡ ok a → o ≡ some a
ok_or-some e none a h = cc
ok_or-some e (some x) a h = cc

module _ {V D : Type 0} (p : Plist V D) (objects : List V) where
  mutual
    -- A value decodes to another: by the object that it refers to, as the array or the dictionary that
    -- its `NS.objects` and `NS.keys` hold, or to itself where it has none of these.
    pub data Decodes : V → V → Type 0 where
      same : {v : V} → p.view v ≡ other → Decodes v v
      opaque :
          {v : V} {d : D}
          → p.view v ≡ dictionary d
          → get_array p d "NS.objects" ≡ none
          → Decodes v v
      follow :
          {v t w : V} {idx : ℕ}
          → p.view v ≡ uid idx
          → target_of p objects idx ≡ ok t
          → Decodes t w
          → Decodes v w
      items :
          {v : V} {d : D} {vs ws : List V}
          → p.view v ≡ dictionary d
          → get_array p d "NS.objects" ≡ some vs
          → get_array p d "NS.keys" ≡ none
          → DecodesAll vs ws
          → Decodes v (p.from_array ws)
      entries :
          {v : V} {d out : D} {ks vs : List V}
          → p.view v ≡ dictionary d
          → get_array p d "NS.objects" ≡ some vs
          → get_array p d "NS.keys" ≡ some ks
          → length ks ≡ length vs
          → DecodesInto ks vs p.empty out
          → Decodes v (p.from_dictionary out)

    pub data DecodesAll : List V → List V → Type 0 where
      none_left : DecodesAll [] []
      one_more :
          {v w : V} {vs ws : List V} → Decodes v w → DecodesAll vs ws → DecodesAll (v ∷ vs) (w ∷ ws)

    -- The entries are inserted in order, so that the last of a key counts.
    pub data DecodesInto : List V → List V → D → D → Type 0 where
      all_in : {out : D} → DecodesInto [] [] out out
      insert_one :
          {k v name value : V} {ks vs : List V} {key : String} {out last : D}
          → Decodes k name
          → p.as_string name ≡ some key
          → Decodes v value
          → DecodesInto ks vs (p.insert out key value) last
          → DecodesInto (k ∷ ks) (v ∷ vs) out last

  module _ (f : V → Outcome Error V) (sound : (v w : V) → f v ≡ ok w → Decodes v w) where
    collect_sound : (vs ws : List V) → collect f vs ≡ ok ws → DecodesAll vs ws
    unfolding collect
    collect_sound [] ws h = let e : [] ≡ ws = cc in subst (DecodesAll []) e none_left
    collect_sound (v ∷ vs) ws h =
        let (w, a, b) = >>=-eq-ok (f v) _ h in
        let (rest, c, d) = >>=-eq-ok (collect f vs) _ b in
        let e : w ∷ rest ≡ ws = cc (d) in
        subst (DecodesAll (v ∷ vs)) e (one_more (sound v w a) (collect_sound vs rest c))

    pairs_sound :
        (ks vs : List V) (out last : D)
        → length ks ≡ length vs
        → pairs_loop p f ks vs out ≡ ok last
        → DecodesInto ks vs out last
    unfolding pairs_loop
    pairs_sound [] [] out last l h =
        let e : out ≡ last = cc in subst (DecodesInto [] [] out) e all_in
    pairs_sound [] (v ∷ vs) out last l h = absurd (omega arith)
    pairs_sound (k ∷ ks) [] out last l h = absurd (omega arith)
    pairs_sound (k ∷ ks) (v ∷ vs) out last l h =
        let (name, a, b) = >>=-eq-ok (f k) _ h in
        let (key, c, d) = >>=-eq-ok (ok_or _ (p.as_string name)) _ b in
        let (value, x, y) = >>=-eq-ok (f v) _ d in
        insert_one (sound k name a) (ok_or-some _ (p.as_string name) key c) (sound v value x)
          (pairs_sound ks vs (p.insert out key value) last (omega arith) y)

    dictionary_sound :
        (v w : V) (d : D) (arr keys : Option (List V))
        → p.view v ≡ dictionary d
        → get_array p d "NS.objects" ≡ arr
        → get_array p d "NS.keys" ≡ keys
        → unarchive_dictionary p f v arr keys ≡ ok w
        → Decodes v w
    unfolding unarchive_dictionary
    dictionary_sound v w d none keys n a k h =
        let e : v ≡ w = cc in subst (Decodes v) e (opaque n a)
    dictionary_sound v w d (some vs) none n a k h =
        let (ws, c, e) = >>=-eq-ok (collect f vs) _ h in
        let z : p.from_array ws ≡ w = cc (e) in
        subst (Decodes v) z (items n a k (collect_sound vs ws c))
    dictionary_sound v w d (some vs) (some ks) n a k h =
        elim (Bool-cases (length ks == length vs)) [
          | inr t ↦ let no = rw t at h in cc (no)
          | inl t ↦
              let g = rw t at h in
              let (out, c, e) = >>=-eq-ok (pairs_loop p f ks vs p.empty) _ g in
              let z : p.from_dictionary out ≡ w = cc (e) in
              let l = (==_iff (length ks) (length vs)).0 t in
              subst (Decodes v) z (entries n a k l (pairs_sound ks vs p.empty out l c))
        ]

    node_sound :
        (v w : V) (s : View D) → p.view v ≡ s → unarchive_node p f objects v s ≡ ok w → Decodes v w
    unfolding unarchive_node
    node_sound v w (uid idx) e h =
        let (t, a, b) = >>=-eq-ok (target_of p objects idx) _ h in follow e a (sound t w b)
    node_sound v w (dictionary d) e h =
        dictionary_sound v w d (get_array p d "NS.objects") (get_array p d "NS.keys") e refl refl h
    node_sound v w other e h = let s : v ≡ w = cc in subst (Decodes v) s (same e)

  pub unarchive_sound : (left : ℕ) (v w : V) → unarchive_value p objects left v ≡ ok w → Decodes v w
  unfolding unarchive_value
  unarchive_sound zero v w h = cc
  unarchive_sound (suc left) v w h =
      node_sound (unarchive_value p objects left) (unarchive_sound left) v w (p.view v) refl h
