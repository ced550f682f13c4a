-- ===== src/Trust/Json.antt =====
-- nlohmann::json (fetched by the build, not part of the repository) as the verifier uses it.
use pafio_nightly.Prelude.{ℕ, Bool, Option, none, some, List, [], ◌∷◌, if◌then◌else◌, Text, text_eq}
use pafio_nightly.Prelude.Int.{ℤ}

pub record JsonLibrary : Type 1 where
  pub Value : Type 0
  -- `json::parse`: `none` where it throws a `parse_error`
  pub parse : Text → Option Value
  -- `is_object()`, with the members in the order of iteration, which is that of the keys
  pub as_object : Value → Option (List (Text × Value))
  pub as_array : Value → Option (List Value)
  pub as_string : Value → Option Text
  pub as_boolean : Value → Option Bool
  pub is_null : Value → Bool
  -- `is_number_integer()`, with `get<int>()`
  pub as_integer : Value → Option ℤ
  -- `get<int>()`, where it does not throw a `type_error`
  pub to_int : Value → Option ℤ
  -- `value.dump()`, and `json(string).dump()`
  pub dump : Value → Text
  pub dump_text : Text → Text
  -- how deep a value is nested
  pub depth : Value → ℕ

module _ (J : JsonLibrary) where
  open J use {Value, as_object, as_array, as_string, as_boolean, as_integer}

  abbrev pub find_member : List (Text × Value) → Text → Option Value
  find_member [] key = none
  find_member ((name, value) ∷ rest) key =
      let later = find_member rest key in if text_eq name key then some value else later

  -- `value.contains(key)` and `value[key]`; what is no object contains nothing
  abbrev pub member : Value → Text → Option Value
  member value key = elim (as_object value) [ none ↦ none | some fields ↦ find_member fields key ]

  abbrev pub member_as : {A : Type 0} → (Value → Option A) → Value → Text → Option A
  member_as convert value key = elim (member value key) [ none ↦ none | some inner ↦ convert inner ]

  -- an object, as the value that it is
  abbrev pub if_object : Value → Option Value
  if_object value = elim (as_object value) [ none ↦ none | some fields ↦ some value ]

  abbrev pub if_nonempty : Option Text → Option Text
  if_nonempty (some (c ∷ s)) = some (c ∷ s)
  if_nonempty _ = none

  -- an array that is not empty
  abbrev pub if_filled : Option (List Value) → Option (List Value)
  if_filled (some (v ∷ vs)) = some (v ∷ vs)
  if_filled _ = none

  abbrev pub object_at : Value → Text → Option Value
  object_at = member_as if_object

  abbrev pub string_at : Value → Text → Option Text
  string_at = member_as (λ v. if_nonempty (as_string v))

  abbrev pub integer_at : Value → Text → Option ℤ
  integer_at = member_as as_integer

  abbrev pub boolean_at : Value → Text → Option Bool
  boolean_at = member_as as_boolean

  abbrev pub filled_array_at : Value → Text → Option (List Value)
  filled_array_at = member_as (λ v. if_filled (as_array v))

  abbrev pub members : Value → List (Text × Value)
  members value = elim (as_object value) [ none ↦ [] | some fields ↦ fields ]
