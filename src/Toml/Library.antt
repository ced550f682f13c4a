-- ===== src/Toml/Library.antt =====
-- toml++ (fetched by the build, not part of the repository) as the loaders use it: the nodes of a
-- parsed document, and the member functions that are called on them.
use pafio_nightly.Prelude.{
  String, Bool, false, Option, none, some, List, Text, text, Result, ok, err, validation,
}

pub record Library : Type 1 where
  pub Node : Type 0
  pub Table : Type 0
  -- `toml::parse_file`, by the content of the file: `none` where it throws a `parse_error`
  pub parse : Text → Option Table
  -- `table.contains(key)`
  pub contains : Table → Text → Bool
  -- `table[key]`, where there is such a node
  pub at : Table → Text → Option Node
  -- the keys and nodes of a table, in the order of iteration
  pub entries : Table → List (Text × Node)
  pub as_table : Node → Option Table
  pub as_array : Node → Option (List Node)
  -- `node.value<std::string>()`, `node.value<bool>()` and `node.value<int64_t>() == 1`
  pub as_string : Node → Option Text
  pub as_bool : Node → Option Bool
  pub is_one : Node → Bool

module _ (T : Library) where
  open T use {Table, Node, contains, at, as_table, as_array, as_string, as_bool, is_one}

  -- a view of `table[key]` that is no node is empty for every conversion
  abbrev pub view : {A : Type 0} → (Node → Option A) → Option Node → Option A
  view f none = none
  view f (some n) = f n

  abbrev pub table_at : Table → String → Option Table
  table_at t key = view as_table (at t (text key))

  abbrev pub array_at : Table → String → Option (List Node)
  array_at t key = view as_array (at t (text key))

  abbrev pub string_at : Table → String → Option Text
  string_at t key = view as_string (at t (text key))

  abbrev pub bool_at : Table → String → Option Bool
  bool_at t key = view as_bool (at t (text key))

  abbrev pub is_one_at : Table → String → Bool
  is_one_at t key = elim (at t (text key)) [ none ↦ false | some n ↦ is_one n ]

  abbrev pub has : Table → String → Bool
  has t key = contains t (text key)

abbrev pub or_throw {ℓ} : {A : Type ℓ} → String → Option A → Result A
or_throw message none = err validation message
or_throw message (some a) = ok a
