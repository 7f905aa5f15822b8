-- ===== src/Probes/Programs/Playback/Arguments.antt =====
-- playback.rs: the texts that `Mode::parse` accepts.
use gputools_replay.Prelude.{
  bytes_eq, bytes_eq_iff, ℕ, ◌+◌, ◌-◌, ◌*◌, ◌^◌, ◌≤◌, ◌<◌, ◌≡◌, ◌≢◌, ◌↔◌, ◌⊎◌, inl, inr, refl, sym,
  ap, ◌∙◌, subst, true, ◌&&◌, Bool-cases, Option, none, some, List, [], ◌∷◌, ◌++◌, ok, ◌>>=◌, ok_or,
  All, arith, ltb, ◌==◌, ==_iff,
}
use gputools_replay.Prelude.{get_elem?}
use gputools_replay.Util.{codes}
use gputools_replay.Probes.Programs.{bad_target}
use gputools_replay.Probes.Programs.Playback.{
  Mode, play_all, play_to, is_digit, digits_loop, parse_u32, strip_prefix, parse_target, parse_mode,
}

-- The number that decimal digits stand for, after those read so far.
abbrev pub value_from : ℕ → List ℕ → ℕ
value_from acc [] = acc
value_from acc (c ∷ cs) = value_from (acc * 10 + (c - b'0')) cs

abbrev pub IsDigit : ℕ → Type 0
IsDigit c = (b'0' ≤ c) × (c ≤ b'9')

-- Decimal digits, at least one, that stand for a `u32`.
pub record IsDecimal (ds : List ℕ) (n : ℕ) : Type 0 where
  pub some_digit : ds ≢ []
  pub digits : All IsDigit ds
  pub value : value_from 0 ds ≡ n
  pub is_u32 : n < 2 ^ 32

value_from-ge : (acc : ℕ) (cs : List ℕ) → acc ≤ value_from acc cs
value_from-ge acc [] = omega arith
value_from-ge acc (c ∷ cs) = omega (arith, value_from-ge (acc * 10 + (c - b'0')) cs)

is_digit_iff : (c : ℕ) → (is_digit c ≡ true) ↔ IsDigit c
is_digit_iff c = (λ h. ground arith, λ h. ground arith)

digits_loop_iff :
    (cs : List ℕ) (acc n : ℕ)
    → acc < 2 ^ 32
    → (digits_loop cs acc ≡ some n) ↔ (All IsDigit cs × (value_from acc cs ≡ n) × (n < 2 ^ 32))
unfolding digits_loop
digits_loop_iff [] acc n lt =
    (λ h. let e : acc ≡ n = cc (h) in (tt, e, omega arith), λ h. ap some h.1)
digits_loop_iff (c ∷ cs) acc n lt =
    elim (Bool-cases (is_digit c && ltb (acc * 10 + (c - b'0')) (2 ^ 32))) [
      | inl t ↦
          let (there, back) = digits_loop_iff cs (acc * 10 + (c - b'0')) n (ground arith) in
          let digit : IsDigit c = (is_digit_iff c).0 (ground arith) in
          (
            λ h. let (a, v, s) = there (rw t at h) in ((digit, a), v, s),
            λ ((d, a), v, s). rw t (back (a, v, s)),
          )
      | inr t ↦ (
        λ h. absurd (let bad : none ≡ some n = rw t at h in cc),
        λ ((d, a), v, s).
            let small = value_from-ge (acc * 10 + (c - b'0')) cs in
            let digit : is_digit c ≡ true = (is_digit_iff c).1 d in
            absurd (ground (arith, small, digit)),
      )
    ]

loop-IsDecimal : (ds : List ℕ) (n : ℕ) → ds ≢ [] → (digits_loop ds 0 ≡ some n) ↔ IsDecimal ds n
loop-IsDecimal ds n ne =
    let (there, back) = digits_loop_iff ds 0 n (omega arith) in
    (
      λ h. let (a, v, s) = there h in record { some_digit = ne; digits = a; value = v; is_u32 = s },
      λ d. back (d.digits, d.value, d.is_u32),
    )

-- A `u32` in decimal, which may have a plus sign.
abbrev pub IsNumeral : List ℕ → ℕ → Type 0
IsNumeral s n = IsDecimal s n ⊎ ((ds : List ℕ) × (s ≡ b'+' ∷ ds) × IsDecimal ds n)

parse_u32_iff : (s : List ℕ) (n : ℕ) → (parse_u32 s ≡ some n) ↔ IsNumeral s n
unfolding parse_u32
parse_u32_iff [] n =
    (λ h. cc (h), elim [ inl d ↦ absurd (d.some_digit refl) | inr (ds, e, d) ↦ cc (e) ])
parse_u32_iff (c ∷ []) n =
    let (there, back) = loop-IsDecimal (c ∷ []) n (λ e. cc (e)) in
    (λ h. inl (there h), elim [ inl d ↦ back d | inr (ds, e, d) ↦ absurd (d.some_digit (cc (e))) ])
parse_u32_iff (c ∷ d ∷ cs) n = elim (Bool-cases (c == b'+')) [
  | inl t ↦
      let plus : c ≡ b'+' = (==_iff c b'+').0 t in
      let (there, back) = loop-IsDecimal (d ∷ cs) n (λ e. cc (e)) in
      (
        λ h. inr (d ∷ cs, cc (plus), there (rw t at h)),
        elim [
          | inl w ↦ absurd (let low : b'0' ≤ c = w.digits.0.0 in omega arith)
          | inr (ds, e, w) ↦
              let same : d ∷ cs ≡ ds = cc (e) in
              rw t (back (subst (λ l. IsDecimal l n) (sym same) w))
        ],
      )
  | inr t ↦
      let (there, back) = loop-IsDecimal (c ∷ d ∷ cs) n (λ e. cc (e)) in
      (
        λ h. inl (there (rw t at h)),
        elim [
          | inl w ↦ rw t (back w)
          | inr (ds, e, w) ↦ absurd (let plus : c ≡ b'+' = cc (e) in ground arith)
        ],
      )
]

strip_prefix_iff : (p s rest : List ℕ) → (strip_prefix p s ≡ some rest) ↔ (s ≡ p ++ rest)
unfolding strip_prefix
strip_prefix_iff [] s rest = (λ h. cc (h), λ h. ap some h)
strip_prefix_iff (q ∷ ps) [] rest = (λ h. cc (h), λ h. cc (h))
strip_prefix_iff (q ∷ ps) (c ∷ cs) rest = elim (Bool-cases (c == q)) [
  | inl t ↦
      let same : c ≡ q = (==_iff c q).0 t in
      let (there, back) = strip_prefix_iff ps cs rest in
      (λ h. let e : cs ≡ ps ++ rest = there (rw t at h) in cc (same, e), λ h. rw t (back (cc (h))))
  | inr t ↦ (
    λ h. absurd (let bad : none ≡ some rest = rw t at h in cc),
    λ h. absurd (let same : c ≡ q = cc (h) in ground arith),
  )
]

target-ok :
    (s : List ℕ) (o : Option (List ℕ)) (m : Mode)
    → parse_target s o ≡ ok m
    → (rest : List ℕ) × (n : ℕ) × (o ≡ some rest) × (parse_u32 rest ≡ some n) × (m ≡ play_to n)
target-ok s none m h = cc (h)
target-ok s (some rest) m h = number (parse_u32 rest) refl h
  where
    number :
        (o : Option ℕ)
        → parse_u32 rest ≡ o
        → (do index ← ok_or (bad_target rest) o; ok (play_to index)) ≡ ok m
        → (rest' : List ℕ) × (n : ℕ) × (some rest ≡ some rest')
          × (parse_u32 rest' ≡ some n)
          × (m ≡ play_to n)
    number none e g = cc (g)
    number (some n) e g = (rest, n, refl, e, cc (g))

-- The two kinds of text differ at the fifth character.
abbrev fifth : List ℕ → ℕ
fifth s = elim (get_elem? s 4) [ none ↦ 0 | some c ↦ c ]

all-ne-to : (rest : List ℕ) → codes "playall" ≢ codes "playto:" ++ rest
all-ne-to rest e = let c : ◌≡◌ {A = ℕ} b'a' b't' = ap fifth e in omega arith

-- `Mode::parse` accepts two kinds of text and no other: `playall`, which is `PlayAll`, and `playto:` with a
-- `u32` in decimal, which is `PlayTo` of that number. The digits may have leading zeros and one plus sign.
pub parse_mode_iff :
    (s : List ℕ)
    → ((parse_mode s ≡ ok play_all) ↔ (s ≡ codes "playall"))
      × ((n : ℕ)
          → (parse_mode s ≡ ok (play_to n))
            ↔ ((rest : List ℕ) × (s ≡ codes "playto:" ++ rest) × IsNumeral rest n))
unfolding parse_mode
parse_mode_iff s = elim (Bool-cases (bytes_eq s (codes "playall"))) [
  | inl t ↦
      let all : s ≡ codes "playall" = (bytes_eq_iff s _).0 t in
      rw t (
        (λ h. all, λ h. refl),
        λ n. (λ h. cc (h), λ (rest, e, d). absurd (all-ne-to rest (sym all ∙ e))),
      )
  | inr t ↦ rw t (
    (
      λ h.
          let (rest, n, e, f, g) = target-ok s (strip_prefix (codes "playto:") s) play_all h in
          cc (g),
      λ h. absurd (let same = (bytes_eq_iff s (codes "playall")).1 h in cc (same, t)),
    ),
    λ n. (
      λ h.
          let (rest, k, e, f, g) = target-ok s (strip_prefix (codes "playto:") s) (play_to n) h in
          let same : n ≡ k = cc (g) in
          (
            rest,
            (strip_prefix_iff (codes "playto:") s rest).0 e,
            (parse_u32_iff rest n).0 (rw same f),
          ),
      λ (rest, e, d).
          let cut = (strip_prefix_iff (codes "playto:") s rest).1 e in
          let number = (parse_u32_iff rest n).1 d in rw cut (rw number refl),
    ),
  )
]
