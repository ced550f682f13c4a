-- ===== src/Lexicon.antt =====
-- PafioCore/ContractLexicon.cpp: the patterns of names, versions and digests, and the operations
-- on registry URLs. A pattern is a row of byte classes, each once or any number of times, which is
-- what the four `std::regex` patterns of the file are made of.
pub mod Digests
pub mod Roots
use pafio_nightly.Prelude.{
  ℕ, zero, suc, String, Bool, true, false, ◌&&◌, ◌||◌, Option, none, some, List, [], ◌∷◌, ◌++◌,
  ◌==◌, within, if◌then◌else◌, Text, text, text_eq, has_byte, cut, before, behind_text, strip_back,
  Result, ok, err, validation, require, ◌>>=◌, ◌>>◌,
}

pub data Item : Type 0 where
  once : (ℕ → Bool) → Item
  star : (ℕ → Bool) → Item

abbrev pub times : ℕ → (ℕ → Bool) → List Item
times zero p = []
times (suc n) p = once p ∷ times n p

-- `std::regex_match`: the whole text fits the row. A star tries to stop, and to take a byte more.
unfoldable pub regex_match : List Item → Text → Bool
regex_match [] [] = true
regex_match [] (c ∷ s) = false
regex_match (once p ∷ r) [] = false
regex_match (once p ∷ r) (c ∷ s) = p c && regex_match r s
regex_match (star p ∷ r) [] = regex_match r []
regex_match (star p ∷ r) (c ∷ s) = regex_match r (c ∷ s) || (p c && regex_match (star p ∷ r) s)

-- the classes `[a-z0-9]`, `[a-z0-9_-]`, `\d` and `[0-9a-f]`
unfoldable pub is_lower_or_digit : ℕ → Bool
is_lower_or_digit c = within b'a' b'z' c || within b'0' b'9' c

unfoldable pub is_name_byte : ℕ → Bool
unfolding is_lower_or_digit
is_name_byte c = is_lower_or_digit c || c == b'_' || c == b'-'

unfoldable pub is_digit : ℕ → Bool
is_digit c = within b'0' b'9' c

unfoldable pub is_lower_hex : ℕ → Bool
is_lower_hex c = within b'0' b'9' c || within b'a' b'f' c

abbrev pub package_name_pattern : List Item
package_name_pattern =
    once is_lower_or_digit
    ∷ star is_name_byte
    ∷ once (λ c. c == b'/')
    ∷ once is_lower_or_digit
    ∷ star is_name_byte
    ∷ []

abbrev pub exact_semver_pattern : List Item
exact_semver_pattern =
    once is_digit
    ∷ star is_digit
    ∷ once (λ c. c == b'.')
    ∷ once is_digit
    ∷ star is_digit
    ∷ once (λ c. c == b'.')
    ∷ once is_digit
    ∷ star is_digit
    ∷ []

abbrev pub sha256_digest_pattern : List Item
sha256_digest_pattern = times 64 is_lower_hex

abbrev pub git_commit_id_pattern : List Item
git_commit_id_pattern = times 40 is_lower_hex

unfoldable pub is_package_name : Text → Bool
unfolding regex_match is_name_byte
is_package_name name = regex_match package_name_pattern name

unfoldable pub is_exact_semver : Text → Bool
unfolding regex_match is_digit
is_exact_semver version = regex_match exact_semver_pattern version

unfoldable pub is_sha256_digest : Text → Bool
unfolding regex_match is_lower_hex
is_sha256_digest digest = regex_match sha256_digest_pattern digest

unfoldable pub is_git_commit_id : Text → Bool
unfolding regex_match is_lower_hex
is_git_commit_id rev = regex_match git_commit_id_pattern rev

unfoldable pub url_has_userinfo : Text → Bool
unfolding behind_text before has_byte
url_has_userinfo value = elim (behind_text (text "://") value) [
  | none ↦ false
  | some authority_start ↦ has_byte b'@' (before b'/' authority_start)
]

unfoldable pub normalize_registry_root : Text → Text
unfolding strip_back
normalize_registry_root value = strip_back (λ c. c == b'/') value

unfoldable pub require_package_name : Text → Result (Unit {0})
require_package_name name = require (is_package_name name) validation "must match namespace/name"

unfoldable pub require_exact_semver : Text → Result (Unit {0})
require_exact_semver version =
    require (is_exact_semver version) validation "must be exact semver x.y.z"

unfoldable pub require_sha256_digest : Text → Result (Unit {0})
require_sha256_digest digest =
    require (is_sha256_digest digest) validation "must be a lowercase sha256 hex digest"

unfoldable pub require_git_commit_id : Text → Result (Unit {0})
require_git_commit_id rev =
    require (is_git_commit_id rev) validation "must be a full immutable git commit id"

-- the text behind the first slash
abbrev behind_slash : Option (Text × Text) → Text
behind_slash none = []
behind_slash (some (_, rest)) = rest

unfoldable pub package_short_name : Text → Result Text
unfolding require_package_name cut
package_short_name package_name = do
  require_package_name package_name
  ok (behind_slash (cut b'/' package_name))
