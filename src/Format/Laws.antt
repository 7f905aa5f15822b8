-- ===== src/Format/Laws.antt =====
-- The two tables of format.rs, `name` and `format_kind`, against each other.
use gputools_replay.Prelude.{
  ℕ, ◌^◌, ◌<◌, ◌≡◌, ◌↔◌, refl, String, Option, none, some, List, [], ◌∷◌, Bool, true, false, ◌&&◌,
  ◌||◌, not, ◌==◌, arith,
}
use native.Mathlib.Nat.{mod-eq_of_lt}
use gputools_replay.Util.{codes}
use gputools_replay.Format.{FormatKind, unknown, match_arms, is_srgb, color_format}
use gputools_replay.Format.Table.{format_arms, format_kind}
use gputools_replay.Format.Names.{name_arms, name}

-- Both matches at once: they have the same keys in the same order, and `check` passes on each arm.
abbrev agree {ℓ κ} : {A : Type ℓ} {B : Type κ} → (A → B → Bool) → List (ℕ × A) → List (ℕ × B) → Bool
agree check [] [] = true
agree check [] (y ∷ ys) = false
agree check (x ∷ xs) [] = false
agree check ((k, v) ∷ xs) ((j, w) ∷ ys) = k == j && check v w && agree check xs ys

match_arms-agree {ℓ κ} :
    {A : Type ℓ} {B : Type κ} (check : A → B → Bool) (raw : ℕ) (xs : List (ℕ × A))
    (ys : List (ℕ × B)) (d : A) (e : B)
    → agree check xs ys ≡ true
    → check d e ≡ true
    → check (match_arms raw xs d) (match_arms raw ys e) ≡ true
unfolding match_arms
match_arms-agree check raw [] [] d e h k = k
match_arms-agree check raw [] (y ∷ ys) d e h k = cc
match_arms-agree check raw (x ∷ xs) [] d e h k = cc
match_arms-agree check raw ((i, v) ∷ xs) ((j, w) ∷ ys) d e h k =
    ground (arith, match_arms-agree check raw xs ys d e)

is_unknown : FormatKind → Bool
is_unknown unknown = true
is_unknown _ = false

abbrev same_codes : List ℕ → List ℕ → Bool
same_codes [] [] = true
same_codes [] (y ∷ ys) = false
same_codes (x ∷ xs) [] = false
same_codes (x ∷ xs) (y ∷ ys) = x == y && same_codes xs ys

-- Some tail of the first text is the second.
abbrev ends_with : List ℕ → List ℕ → Bool
ends_with [] suffix = same_codes [] suffix
ends_with (x ∷ xs) suffix = same_codes (x ∷ xs) suffix || ends_with xs suffix

abbrev pub says_srgb : String → Bool
says_srgb n = ends_with (codes n) (codes "_sRGB")

abbrev bool_eq : Bool → Bool → Bool
bool_eq true y = y
bool_eq false y = not y

-- A name is given exactly for a described format, and ends in `_sRGB` exactly if the format is sRGB.
abbrev names_kind : Option String → FormatKind → Bool
names_kind none kind = is_unknown kind
names_kind (some n) kind = not (is_unknown kind) && bool_eq (says_srgb n) (is_srgb kind)

tables_agree : agree names_kind name_arms format_arms ≡ true
unfolding is_unknown is_srgb color_format
tables_agree = refl

names_kind-name : (raw : ℕ) → raw < 2 ^ 32 → names_kind (name raw) (format_kind raw) ≡ true
unfolding name format_kind is_unknown
names_kind-name raw h =
    rw (mod-eq_of_lt h)
      (match_arms-agree names_kind raw name_arms format_arms none unknown tables_agree refl)

-- A 32-bit value has a name exactly if the table describes its format.
pub name-none_iff : (raw : ℕ) → raw < 2 ^ 32 → (name raw ≡ none) ↔ (format_kind raw ≡ unknown)
unfolding is_unknown
name-none_iff raw h = ground (arith, names_kind-name raw h)

-- A described format is sRGB exactly if its name ends in `_sRGB`.
pub is_srgb-name :
    (raw : ℕ) (n : String)
    → raw < 2 ^ 32
    → name raw ≡ some n
    → is_srgb (format_kind raw) ≡ says_srgb n
unfolding is_unknown
is_srgb-name raw n h e = ground (arith, names_kind-name raw h)
