-- ===== src/Toml.antt =====
-- PafioManifest/TomlString.hpp, and the interface of the toml++ library that the loaders read
-- documents through.
pub mod BasicString
pub mod Library
use pafio_nightly.Prelude.{
  ℕ, ◌+◌, ◌-◌, ◌/◌, ◌%◌, Bool, ◌||◌, List, [], ◌∷◌, ◌++◌, ◌==◌, ltb, if◌then◌else◌, Text,
}

-- `kHex[n]`
unfoldable pub hex_digit : ℕ → ℕ
hex_digit n = if ltb n 10 then b'0' + n else b'A' + (n - 10)

-- what one byte of the value is written as
unfoldable pub quote_byte : ℕ → Text
unfolding hex_digit
quote_byte ch =
    if ch == b'"'
    then b'\\' ∷ b'"' ∷ []
    else if ch == b'\\'
    then b'\\' ∷ b'\\' ∷ []
    else if ch == 8
    then b'\\' ∷ b'b' ∷ []
    else if ch == 9
    then b'\\' ∷ b't' ∷ []
    else if ch == 10
    then b'\\' ∷ b'n' ∷ []
    else if ch == 12
    then b'\\' ∷ b'f' ∷ []
    else if ch == 13
    then b'\\' ∷ b'r' ∷ []
    else if ltb ch 32 || ch == 127
    then b'\\' ∷ b'u' ∷ b'0' ∷ b'0' ∷ hex_digit (ch / 16) ∷ hex_digit (ch % 16) ∷ []
    else ch ∷ []

unfoldable pub quote_bytes : Text → Text
unfolding quote_byte
quote_bytes [] = []
quote_bytes (ch ∷ s) = quote_byte ch ++ quote_bytes s

unfoldable pub quote_toml_string : Text → Text
unfolding quote_bytes
quote_toml_string value = b'"' ∷ (quote_bytes value ++ (b'"' ∷ []))
