-- ===== src/Tests/SampleToml.antt =====
-- A small instance of the toml++ interface: documents as trees, and a parser that knows one text.
use pafio_nightly.Prelude.{
  ℕ, Bool, false, Option, none, some, List, [], ◌∷◌, any, ◌==◌, if◌then◌else◌, Text, text, text_eq,
}
use pafio_nightly.Toml.Library.{Library}

pub data Node : Type 0 where
  str : Text → Node
  bool : Bool → Node
  number : ℕ → Node
  no_items no_fields : Node
  item : Node → Node → Node
  field : Text → Node → Node → Node

abbrev pub Fields : Type 0
Fields = List (Text × Node)

abbrev pub as_fields : Node → Option Fields
as_fields no_fields = some []
as_fields (field key n rest) = elim (as_fields rest) [
  | none ↦ none
  | some fields ↦ some ((key, n) ∷ fields)
]
as_fields _ = none

abbrev pub as_items : Node → Option (List Node)
as_items no_items = some []
as_items (item n rest) = elim (as_items rest) [ none ↦ none | some items ↦ some (n ∷ items) ]
as_items _ = none

find_key : Fields → Text → Option Node
unfolding text_eq
find_key [] key = none
find_key ((k, n) ∷ rest) key =
    let later = find_key rest key in if text_eq k key then some n else later

abbrev pub as_text : Node → Option Text
as_text (str s) = some s
as_text _ = none

abbrev pub as_boolean : Node → Option Bool
as_boolean (bool b) = some b
as_boolean _ = none

abbrev is_number_one : Node → Bool
is_number_one (number n) = n == 1
is_number_one _ = false

-- The library whose parser reads the texts `one` and `two` as the documents, and nothing else.
unfoldable pub two_documents : Node → Node → Library
unfolding find_key text_eq
two_documents one two = record {
  Node = Node;
  Table = Fields;
  parse = λ content.
      if text_eq content (text "one")
      then as_fields one
      else if text_eq content (text "two")
      then as_fields two
      else none;
  contains = λ fields key. any (λ f. text_eq f.0 key) fields;
  at = find_key;
  entries = λ fields. fields;
  as_table = as_fields;
  as_array = as_items;
  as_string = as_text;
  as_bool = as_boolean;
  is_one = is_number_one;
}

-- The library whose parser reads the text `one` as the document, and `two` as the empty one.
unfoldable pub sample_library : Node → Library
unfolding two_documents
sample_library document = two_documents document no_fields
