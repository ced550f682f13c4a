-- ===== src/Tests/Strings.antt =====
-- Basic strings and manifest texts, run on examples.
use pafio_nightly.Prelude.{some, [], ◌∷◌, ◌++◌, Text, text, ◌≡◌, refl}
use pafio_nightly.Toml.{quote_toml_string}
use pafio_nightly.Toml.BasicString.{
  read_basic_string, read-quote_toml_string, quote_toml_string_injective,
}

abbrev quotation : Text
quotation = b'a' ∷ b'"' ∷ 10 ∷ 1 ∷ []

quote_test : quote_toml_string quotation ≡ text "\"a\\\"\\n\\u0001\""
unfolding quote_toml_string
quote_test = refl

read-quote_toml_string_example :
    read_basic_string (quote_toml_string quotation ++ text ", ") ≡ some (quotation, text ", ")
read-quote_toml_string_example = read-quote_toml_string quotation (text ", ")

quote_toml_string_injective_example : (quotation ≡ quotation) × (text "x" ≡ text "x")
quote_toml_string_injective_example =
    quote_toml_string_injective quotation quotation (text "x") (text "x") refl
