-- ===== src/Registry/Paths.antt =====
-- PafioSecurity/RegistrySecurity.cpp: package names and object paths of a registry.
pub mod Parts
pub mod Objects
pub mod PackageNames
use pafio_nightly.Prelude.{
  ℕ, zero, suc, String, Bool, true, false, not, ◌&&◌, ◌||◌, Option, none, some, List, [], ◌∷◌, ◌++◌,
  ◌==◌, ltb, if◌then◌else◌, Text, text, text_eq, has_byte, cut, before, split_lines, starts_with,
  any, all, each, Result, ok, err, fetch, require, ◌>>=◌, ◌>>◌,
}
use pafio_nightly.Lexicon.{is_lower_or_digit, is_sha256_digest}
use pafio_nightly.FilePath.{last_is, is_absolute, lexically_normal}

unfoldable pub is_safe_package_segment : Text → Bool
unfolding is_lower_or_digit
is_safe_package_segment [] = false
is_safe_package_segment (c ∷ s) =
    if not (is_lower_or_digit c)
    then false
    else all (λ ch. is_lower_or_digit ch || ch == b'-' || ch == b'_') (c ∷ s)

pub record RegistryPackageNameParts : Type 0 where
  pub namespace_name : Text
  pub short_name : Text

-- what is done with the texts before and behind the first slash, which must be the only one
abbrev pub parts_of : Option (Text × Text) → Result RegistryPackageNameParts
parts_of none = err fetch "must match namespace/name"
parts_of (some (namespace_name, short_name)) =
    if has_byte b'/' short_name
    then err fetch "must match namespace/name"
    else if not (is_safe_package_segment namespace_name) || not (is_safe_package_segment short_name)
    then err fetch "must match namespace/name"
    else ok (record { namespace_name = namespace_name; short_name = short_name })

unfoldable pub split_registry_package_name : Text → Result RegistryPackageNameParts
unfolding cut has_byte is_safe_package_segment
split_registry_package_name name = parts_of (cut b'/' name)

unfoldable pub validate_registry_package_identity : Text → Result (Unit {0})
unfolding split_registry_package_name
validate_registry_package_identity name = do _ ← split_registry_package_name name; ok tt

unfoldable pub split_posix_path : Text → List Text
unfolding split_lines
split_posix_path value = split_lines b'/' value

abbrev is_bad_part : Text → Bool
is_bad_part part = text_eq part [] || text_eq part (text ".") || text_eq part (text "..")

unfoldable pub normalize_registry_object_path : Text → Result Text
normalize_registry_object_path path = do
  require (not (text_eq path [] || last_is b'/' path)) fetch
      "must be a non-empty POSIX-relative path"
  require (not (has_byte b'\\' path || starts_with path (b'/' ∷ []))) fetch
      "must be a POSIX-relative path inside the registry root"
  require (not (any (λ ch. ltb ch 32) path)) fetch "must not contain control characters"
  require (not (is_absolute path)) fetch "must be relative"
  require (not (any is_bad_part (split_posix_path path))) fetch
      "must be a canonical POSIX-relative path inside the registry root"
  let normal = lexically_normal path
  require
      (not (
        text_eq normal []
        || text_eq normal (text ".")
        || text_eq normal (text "..")
        || starts_with normal (text "../")))
      fetch "escapes the registry root"
  ok normal

unfoldable pub normalize_registry_relative_path : Text → Result Text
unfolding normalize_registry_object_path
normalize_registry_relative_path path = normalize_registry_object_path path

unfoldable pub is_registry_sha256_digest : Text → Bool
unfolding is_sha256_digest
is_registry_sha256_digest value = is_sha256_digest value
