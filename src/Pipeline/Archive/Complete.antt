-- ===== src/Pipeline/Archive/Complete.antt =====
-- A success of `unarchive_value` is one at every greater depth, and every decoding has a depth.
use gputools_replay.Prelude.{
  ℕ, zero, suc, ◌+◌, ◌≤◌, true, Bool-cases, Option, none, some, List, [], ◌∷◌, Outcome, ok,
  >>=-eq-ok, ok_or, collect, ◌==◌, ==_iff, length, ◌≡◌, inl, inr, refl, arith,
}
use gputools_replay.Errors.{Error}
use gputools_replay.Plist.{Plist, View, uid, dictionary, other, get_array}
use gputools_replay.Pipeline.Archive.{
  target_of, pairs_loop, unarchive_dictionary, unarchive_node, unarchive_value,
}
use gputools_replay.Pipeline.Archive.Decodes.{
  Decodes, DecodesAll, DecodesInto, same, opaque, follow, items, entries, none_left, one_more,
  all_in, insert_one, unarchive_sound,
}

module _ {V D : Type 0} (p : Plist V D) (objects : List V) where
  module _ (f g : V → Outcome Error V) (more : (v w : V) → f v ≡ ok w → g v ≡ ok w) where
    collect_more : (vs ws : List V) → collect f vs ≡ ok ws → collect g vs ≡ ok ws
    unfolding collect
    collect_more [] ws h = h
    collect_more (v ∷ vs) ws h =
        let (w, a, b) = >>=-eq-ok (f v) _ h in
        let (rest, c, d) = >>=-eq-ok (collect f vs) _ b in rw (more v w a, collect_more vs rest c) d

    pairs_more :
        (ks vs : List V) (out last : D)
        → pairs_loop p f ks vs out ≡ ok last
        → pairs_loop p g ks vs out ≡ ok last
    unfolding pairs_loop
    pairs_more [] vs out last h = h
    pairs_more (k ∷ ks) [] out last h = h
    pairs_more (k ∷ ks) (v ∷ vs) out last h =
        let (name, a, b) = >>=-eq-ok (f k) _ h in
        let (key, c, d) = >>=-eq-ok (ok_or _ (p.as_string name)) _ b in
        let (value, x, y) = >>=-eq-ok (f v) _ d in
        rw (more k name a, c, more v value x) (pairs_more ks vs (p.insert out key value) last y)

    dictionary_more :
        (v w : V) (arr keys : Option (List V))
        → unarchive_dictionary p f v arr keys ≡ ok w
        → unarchive_dictionary p g v arr keys ≡ ok w
    unfolding unarchive_dictionary
    dictionary_more v w none keys h = h
    dictionary_more v w (some vs) none h =
        let (ws, c, e) = >>=-eq-ok (collect f vs) _ h in rw (collect_more vs ws c) e
    dictionary_more v w (some vs) (some ks) h = elim (Bool-cases (length ks == length vs)) [
      | inr t ↦ let no = rw t at h in cc (no)
      | inl t ↦
          let k = rw t at h in
          let (out, c, e) = >>=-eq-ok (pairs_loop p f ks vs p.empty) _ k in
          rw (t, pairs_more ks vs p.empty out c) e
    ]

    node_more :
        (v w : V) (s : View D)
        → unarchive_node p f objects v s ≡ ok w
        → unarchive_node p g objects v s ≡ ok w
    unfolding unarchive_node
    node_more v w (uid idx) h =
        let (t, a, b) = >>=-eq-ok (target_of p objects idx) _ h in rw a (more t w b)
    node_more v w (dictionary d) h =
        dictionary_more v w (get_array p d "NS.objects") (get_array p d "NS.keys") h
    node_more v w other h = h

  unarchive_more :
      (n m : ℕ) (v w : V)
      → n ≤ m
      → unarchive_value p objects n v ≡ ok w
      → unarchive_value p objects m v ≡ ok w
  unfolding unarchive_value
  unarchive_more zero m v w le h = cc
  unarchive_more (suc n) zero v w le h = absurd (omega arith)
  unarchive_more (suc n) (suc m) v w le h =
      node_more (unarchive_value p objects n) (unarchive_value p objects m)
        (λ x y. unarchive_more n m x y (omega arith)) v w (p.view v) h

  -- `n` is enough depth for a result.
  abbrev pub Enough : ℕ → V → V → Type 0
  Enough n v w = (m : ℕ) → n ≤ m → unarchive_value p objects m v ≡ ok w

  -- One level more than what the node needs is enough.
  Enough-suc :
      (n : ℕ) (v w : V)
      → ((m : ℕ)
          → n ≤ m
          → unarchive_node p (unarchive_value p objects m) objects v (p.view v) ≡ ok w)
      → Enough (suc n) v w
  unfolding unarchive_value
  Enough-suc n v w h zero le = absurd (omega arith)
  Enough-suc n v w h (suc m) le = h m (omega arith)

  mutual
    unfolding unarchive_node unarchive_dictionary collect pairs_loop

    Decodes-complete : (v w : V) → Decodes p objects v w → (n : ℕ) × Enough n v w
    Decodes-complete v w (same e) = (1, Enough-suc 0 v v (λ m le. rw e refl))
    Decodes-complete v w (opaque e a) = (1, Enough-suc 0 v v (λ m le. rw (e, a) refl))
    Decodes-complete v w (follow {v = u} {t} {w = x} e g d) =
        let (n, h) = Decodes-complete t x d in
        (suc n, Enough-suc n v w (λ m le. rw (e, g) (h m le)))
    Decodes-complete v w (items {v = u} {d} {vs} {ws} e a k all) =
        let (n, h) = DecodesAll-complete vs ws all in
        (suc n, Enough-suc n v w (λ m le. rw (e, a, k, h m le) refl))
    Decodes-complete v w (entries {v = u} {d} {out} {ks} {vs} e a k l into) =
        let (n, h) = DecodesInto-complete ks vs p.empty out into in
        let t : (length ks == length vs) ≡ true = (==_iff (length ks) (length vs)).1 l in
        (suc n, Enough-suc n v w (λ m le. rw (e, a, k, t, h m le) refl))

    DecodesAll-complete :
        (vs ws : List V)
        → DecodesAll p objects vs ws
        → (n : ℕ) × ((m : ℕ) → n ≤ m → collect (unarchive_value p objects m) vs ≡ ok ws)
    DecodesAll-complete vs ws none_left = (0, λ m le. refl)
    DecodesAll-complete vs ws (one_more {v} {w} {vs = us} {ws = xs} d all) =
        let (n, h) = Decodes-complete v w d in
        let (k, g) = DecodesAll-complete us xs all in
        (n + k, λ m le. rw (h m (omega arith), g m (omega arith)) refl)

    DecodesInto-complete :
        (ks vs : List V) (out last : D)
        → DecodesInto p objects ks vs out last
        → (n : ℕ) × ((m : ℕ)
            → n ≤ m
            → pairs_loop p (unarchive_value p objects m) ks vs out ≡ ok last)
    DecodesInto-complete ks vs out last all_in = (0, λ m le. refl)
    DecodesInto-complete ks vs out last
          (insert_one {k} {v} {name} {value} {ks = ks2} {vs = vs2} {key} {out = o} {last = l} dk s
            dv rest) =
        let (n1, h1) = Decodes-complete k name dk in
        let (n2, h2) = Decodes-complete v value dv in
        let (n3, h3) = DecodesInto-complete ks2 vs2 (p.insert o key value) l rest in
        (n1 + n2 + n3, λ m le. rw (h1 m (omega arith), s, h2 m (omega arith)) (h3 m (omega arith)))

  -- Unarchiving agrees with the description of what a value decodes to, which knows no depth. A result
  -- at any depth is a decoding, and every decoding is the result at some depth and at all greater ones.
  pub unarchive-Decodes :
      (v w : V)
      → ((left : ℕ) → unarchive_value p objects left v ≡ ok w → Decodes p objects v w)
        × (Decodes p objects v w → (n : ℕ) × Enough n v w)
  unarchive-Decodes v w = (λ left h. unarchive_sound p objects left v w h, Decodes-complete v w)
