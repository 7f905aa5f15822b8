-- ===== src/Examples/Plists.antt =====
-- A property list as data, which stands in for the crate `plist` in the examples. Its reader knows one
-- archive: the bytes only say whether there is one.
use text.Mathlib.Text.{◌==◌ as str_eq}
use gputools_replay.Prelude.{
  ℕ, String, Option, none, some, List, [], ◌∷◌, if◌then◌else◌, ◌⊎◌, inl, inr,
}
use gputools_replay.Errors.{Text, literal}
use gputools_replay.Plist.{Plist, View, uid, dictionary, other}

mutual
  pub data Value : Type 0 where
    reference : ℕ → Value
    dict : Entries → Value
    array : Values → Value
    string : String → Value
    bytes : List ℕ → Value
    number : ℕ → Value

  pub data Values : Type 0 where
    end : Values
    item : Value → Values → Values

  pub data Entries : Type 0 where
    stop : Entries
    entry : String → Value → Entries → Entries

abbrev pub to_list : Values → List Value
to_list end = []
to_list (item v vs) = v ∷ to_list vs

abbrev pub of_list : List Value → Values
of_list [] = end
of_list (v ∷ vs) = item v (of_list vs)

abbrev pub look : Entries → String → Option Value
look stop key = none
look (entry name v rest) key = if str_eq name key then some v else look rest key

abbrev pub view_of : Value → View Entries
view_of (reference n) = uid n
view_of (dict d) = dictionary d
view_of (array vs) = other
view_of (string s) = other
view_of (bytes b) = other
view_of (number n) = other

abbrev pub items_of : Value → Option (List Value)
items_of (array vs) = some (to_list vs)
items_of (reference n) = none
items_of (dict d) = none
items_of (string s) = none
items_of (bytes b) = none
items_of (number n) = none

abbrev pub text_of : Value → Option String
text_of (string s) = some s
text_of (reference n) = none
text_of (dict d) = none
text_of (array vs) = none
text_of (bytes b) = none
text_of (number n) = none

abbrev pub bytes_of : Value → Option (List ℕ)
bytes_of (bytes b) = some b
bytes_of (reference n) = none
bytes_of (dict d) = none
bytes_of (array vs) = none
bytes_of (string s) = none
bytes_of (number n) = none

abbrev pub number_of : Value → Option ℕ
number_of (number n) = some n
number_of (reference m) = none
number_of (dict d) = none
number_of (array vs) = none
number_of (string s) = none
number_of (bytes b) = none

abbrev pub read_as : Value → List ℕ → Text ⊎ Value
read_as root [] = inl (literal "end of file")
read_as root (b ∷ bs) = inr root

abbrev pub values : Value → Plist Value Entries
values root = record {
  from_bytes = read_as root;
  view = view_of;
  as_array = items_of;
  as_string = text_of;
  as_data = bytes_of;
  as_unsigned_integer = number_of;
  get = look;
  empty = stop;
  insert = λ d k v. entry k v d;
  from_dictionary = dict;
  from_array = λ vs. array (of_list vs);
}

-- The archive of a reply: an unknown array of one object, an info table and a blob.
abbrev pub reply_objects : List Value
reply_objects =
    string "$null"
    ∷ dict (
        entry "NS.keys" (array (item (reference 2) (item (reference 3) (item (reference 4) end)))) (
          entry "NS.objects"
            (array (item (reference 5) (item (reference 6) (item (reference 7) end)))) stop))
    ∷ string "unknown"
    ∷ string "info"
    ∷ string "data"
    ∷ dict (entry "NS.objects" (array (item (number 7) end)) stop)
    ∷ bytes (1 ∷ 2 ∷ [])
    ∷ bytes (3 ∷ [])
    ∷ []

abbrev pub archive_of : List Value → Value
archive_of objects = dict (
    entry "$objects" (array (of_list objects))
      (entry "$top" (dict (entry "root" (reference 1) stop)) stop))

abbrev pub reply_plist : Plist Value Entries
reply_plist = values (archive_of reply_objects)
