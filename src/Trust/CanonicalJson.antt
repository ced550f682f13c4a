-- ===== src/Trust/CanonicalJson.antt =====
-- PafioSecurity/CanonicalJson.hpp: the bytes that are signed. The recursion is on fuel for the depth
-- of the value.
use pafio_nightly.Prelude.{
  ℕ, zero, suc, Bool, true, false, none, some, List, [], ◌∷◌, ◌++◌, map, if◌then◌else◌, Text, text,
}
use pafio_nightly.Prelude.Sort.{sort_by}
use pafio_nightly.Trust.Json.{JsonLibrary}

-- the parts with commas between them
unfoldable pub commas : List Text → Text
commas [] = []
commas (part ∷ []) = part
commas (part ∷ next ∷ rest) = part ++ (b',' ∷ commas (next ∷ rest))

module _ (J : JsonLibrary) where
  open J use {
    Value, as_object, as_array, as_string, as_boolean, as_integer, is_null, dump, dump_text, depth,
  }

  abbrev pub name_of : Text × Text → Text
  name_of (name, rendered) = name

  abbrev pub render_member : Text × Text → Text
  render_member (name, rendered) = dump_text name ++ (b':' ∷ rendered)

  abbrev pub render_boolean : Bool → Text
  render_boolean true = text "true"
  render_boolean false = text "false"

  unfoldable pub append_canonical_json : ℕ → Value → Text
  append_canonical_json zero value = []
  append_canonical_json (suc fuel) value =
      if is_null value then text "null" else elim (as_boolean value) [
        | some b ↦ render_boolean b
        | none ↦ elim (as_string value) [
          | some s ↦ dump_text s
          | none ↦ elim (as_array value) [
            | some items ↦ b'[' ∷ (commas (map (append_canonical_json fuel) items) ++ text "]")
            | none ↦ elim (as_object value) [
              | some fields ↦
                  b'{'
                  ∷ (commas (
                        map render_member (
                          sort_by name_of (
                            map (λ (f : Text × Value). (f.0, append_canonical_json fuel f.1))
                              fields)))
                      ++ text "}")
              | none ↦ dump value
            ]
          ]
        ]
      ]

  unfoldable pub canonical_json_bytes : Value → Text
  canonical_json_bytes value = append_canonical_json (suc (depth value)) value
