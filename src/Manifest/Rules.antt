-- ===== src/Manifest/Rules.antt =====
-- The tests of Manifest.cpp on paths and registry roots.
use pafio_nightly.Prelude.{
  Bool, false, not, ◌||◌, [], any, if◌then◌else◌, Text, text, text_eq, starts_with, Result,
  validation, require, ◌>>◌,
}
use pafio_nightly.Lexicon.{url_has_userinfo}
use pafio_nightly.FilePath.{is_absolute, components}

unfoldable pub is_non_empty_relative_path : Text → Bool
unfolding text_eq is_absolute
is_non_empty_relative_path value = if text_eq value [] then false else not (is_absolute value)

unfoldable pub is_contained_relative_path : Text → Bool
is_contained_relative_path value =
    if text_eq value []
    then false
    else if is_absolute value
    then false
    else not (any (λ component. text_eq component (text "..")) (components value))

unfoldable pub is_registry_root_url : Text → Bool
unfolding starts_with
is_registry_root_url value =
    starts_with value (text "file://")
    || starts_with value (text "http://")
    || starts_with value (text "https://")

unfoldable pub require_no_url_userinfo : Text → Result (Unit {0})
require_no_url_userinfo value =
    require (not (url_has_userinfo value)) validation
      "must not embed credentials in the URL userinfo"

unfoldable pub validate_relative_path : Text → Result (Unit {0})
validate_relative_path value =
    require (is_non_empty_relative_path value) validation "must be an explicit relative path"

unfoldable pub validate_contained_relative_path : Text → Result (Unit {0})
validate_contained_relative_path value =
    require (is_contained_relative_path value) validation
      "must be an explicit relative path inside the package"

unfoldable pub validate_registry_root : Text → Result (Unit {0})
unfolding require_no_url_userinfo
validate_registry_root root = do
  require (is_registry_root_url root) validation "must use file://, http://, or https://"
  require_no_url_userinfo root
