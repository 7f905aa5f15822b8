-- ===== src/Probes/Envelope.antt =====
-- probes/src/reply.rs: `parse_reply`, the archived dictionary that a fetch returns.
pub mod Agree
use text.Mathlib.Text.{◌==◌ as str_eq}
use gputools_replay.Prelude.{
  ℕ, String, Option, none, some, List, [], ◌∷◌, Outcome, ok, err, panic, ◌>>=◌, ok_or,
  if◌then◌else◌, ◌==◌, ltb, length, get_elem?, usize_mod, inl, inr,
}
use gputools_replay.Errors.{literal, uid_out_of_bounds}
use gputools_replay.Plist.{
  Plist, View, uid, dictionary, other, as_dictionary, get_array, get_dictionary,
}
use gputools_replay.Probes.{ReplyError, plist, unexpected_shape}

pub record Reply : Type 0 where
  pub unknown_count : ℕ
  pub info : List ℕ
  -- the field `data` of the source
  pub blob : List ℕ

-- `shape(msg)`, of a literal
abbrev pub shape : String → ReplyError
shape msg = unexpected_shape (literal msg)

-- The three variables that the loop fills.
pub record Parts : Type 0 where
  pub unknown_count : Option ℕ
  pub info : Option (List ℕ)
  pub blob : Option (List ℕ)

abbrev pub no_parts : Parts
no_parts = record { unknown_count = none; info = none; blob = none }

module _ {V D : Type 0} (p : Plist V D) where
  -- `resolve`, for a value that is a UID
  abbrev pub resolve_uid : List V → ℕ → Outcome ReplyError V
  resolve_uid objects idx =
      if ltb idx usize_mod
      then ok_or (unexpected_shape (uid_out_of_bounds idx)) (get_elem? objects idx)
      else err (shape "UID out of range")

  -- `resolve`
  unfoldable pub resolve : List V → V → Outcome ReplyError V
  resolve objects v = elim (p.view v) [
    | uid idx ↦ resolve_uid objects idx
    | dictionary d ↦ ok v
    | other ↦ ok v
  ]

  -- What each arm of the `match name.as_str()` reads.
  abbrev pub unknown_of : V → Option ℕ
  unknown_of value = elim (as_dictionary p value) [
    | none ↦ none
    | some d ↦ elim (get_array p d "NS.objects") [ none ↦ none | some arr ↦ some (length arr) ]
  ]

  -- The arms of the `match name.as_str()`.
  unfoldable pub store : String → V → Parts → Outcome ReplyError Parts
  store name value parts =
      if str_eq name "unknown"
      then (do
        n ← ok_or (shape "`unknown` is not an NSArray") (unknown_of value)
        ok (record parts { unknown_count = some n }))
      else if str_eq name "info"
      then (do
        bytes ← ok_or (shape "`info` is not data") (p.as_data value)
        ok (record parts { info = some bytes }))
      else if str_eq name "data"
      then (do
        bytes ← ok_or (shape "`data` is not data") (p.as_data value)
        ok (record parts { blob = some bytes }))
      else ok parts

  -- The body of the loop.
  unfoldable pub parse_entry : List V → V → V → Parts → Outcome ReplyError Parts
  parse_entry objects k v parts = do
    key ← resolve objects k
    name ← ok_or (shape "a payload key is not a string") (p.as_string key)
    value ← resolve objects v
    store name value parts

  -- `for (k, v) in keys.iter().zip(vals.iter())`
  unfoldable pub parse_loop : List V → List V → List V → Parts → Outcome ReplyError Parts
  parse_loop objects (k ∷ ks) (v ∷ vs) parts = do
    next ← parse_entry objects k v parts
    parse_loop objects ks vs next
  parse_loop objects [] vs parts = ok parts
  parse_loop objects (k ∷ ks) [] parts = ok parts

  -- The part before the loop: the objects, the keys and the values.
  unfoldable pub open_envelope : List ℕ → Outcome ReplyError (List V × List V × List V)
  open_envelope bytes = do
    root ← elim (p.from_bytes bytes) [ inl e ↦ err (plist e) | inr root ↦ ok root ]
    dict ← ok_or (shape "root is not a dictionary") (as_dictionary p root)
    objects ← ok_or (shape "no $objects array") (get_array p dict "$objects")
    top ← ok_or (shape "no $top dictionary") (get_dictionary p dict "$top")
    root_ref ← ok_or (shape "no $top.root") (p.get top "root")
    target ← resolve objects root_ref
    payload ← ok_or (shape "$top.root is not a dictionary") (as_dictionary p target)
    keys ← ok_or (shape "payload has no NS.keys") (get_array p payload "NS.keys")
    vals ← ok_or (shape "payload has no NS.objects") (get_array p payload "NS.objects")
    if length keys == length vals
        then ok (objects, keys, vals)
        else err (shape "NS.keys and NS.objects differ in length")

  -- The struct that `parse_reply` returns.
  abbrev pub finish : Parts → Outcome ReplyError Reply
  finish parts = do
    unknown_count ← ok_or (shape "missing key `unknown`") parts.unknown_count
    info ← ok_or (shape "missing key `info`") parts.info
    blob ← ok_or (shape "missing key `data`") parts.blob
    ok (record { unknown_count = unknown_count; info = info; blob = blob })

  -- `Reply::parse`
  unfoldable pub parse_reply : List ℕ → Outcome ReplyError Reply
  parse_reply bytes = do
    opened ← open_envelope bytes
    parts ← parse_loop opened.0 opened.1 opened.2 no_parts
    finish parts
