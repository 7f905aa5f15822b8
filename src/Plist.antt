-- ===== src/Plist.antt =====
-- The property lists that crates/gputools-replay/src/reply.rs and
-- crates/gputools-replay-hl/src/pipeline.rs read, through the crate `plist`: its values and
-- dictionaries are types that a `Plist` names with the operations that the code uses.
use gputools_replay.Prelude.{ℕ, String, Option, none, some, List, ◌≡◌, ◌⊎◌, if◌then◌else◌}
use text.Mathlib.Text.{◌==◌ as str_eq}
use gputools_replay.Errors.{Text}

-- What a `match` on a value sees: `Value::Uid`, `Value::Dictionary`, or another variant.
pub data View (D : Type 0) : Type 0 where
  uid : ℕ → View D
  dictionary : D → View D
  other : View D

pub record Plist (V D : Type 0) : Type 0 where
  -- `plist::from_bytes`, whose error is read as its text
  pub from_bytes : List ℕ → Text ⊎ V
  pub view : V → View D
  pub as_array : V → Option (List V)
  pub as_string : V → Option String
  pub as_data : V → Option (List ℕ)
  pub as_unsigned_integer : V → Option ℕ
  -- `Dictionary::get`, `Dictionary::new` and `Dictionary::insert`
  pub get : D → String → Option V
  pub empty : D
  pub insert : D → String → V → D
  -- `Value::Dictionary` and `Value::Array`
  pub from_dictionary : D → V
  pub from_array : List V → V

module _ {V D : Type 0} (p : Plist V D) where
  -- `Value::as_dictionary`
  abbrev pub as_dictionary : V → Option D
  as_dictionary v = elim (p.view v) [ uid n ↦ none | dictionary d ↦ some d | other ↦ none ]

  -- `d.get(key).and_then(Value::as_array)`
  abbrev pub get_array : D → String → Option (List V)
  get_array d key = elim (p.get d key) [ none ↦ none | some v ↦ p.as_array v ]

  -- `d.get(key).and_then(Value::as_dictionary)`
  abbrev pub get_dictionary : D → String → Option D
  get_dictionary d key = elim (p.get d key) [ none ↦ none | some v ↦ as_dictionary v ]

-- What `plist` documents of them: the wrappers are read back, and a dictionary is a map.
pub record IsPlist {V D : Type 0} (p : Plist V D) : Type 0 where
  pub view_dictionary : (d : D) → p.view (p.from_dictionary d) ≡ dictionary d
  pub view_array : (vs : List V) → p.view (p.from_array vs) ≡ other
  pub array_read : (vs : List V) → p.as_array (p.from_array vs) ≡ some vs
  pub get_empty : (k : String) → p.get p.empty k ≡ none
  pub get_insert :
      (d : D) (k j : String) (v : V)
      → p.get (p.insert d k v) j ≡ (if str_eq k j then some v else p.get d j)
