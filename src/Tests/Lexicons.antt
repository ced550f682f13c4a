-- ===== src/Tests/Lexicons.antt =====
-- Digests, commit ids and registry roots, run on examples.
use pafio_nightly.Prelude.{ℕ, true, false, ◌++◌, Text, text, ◌≡◌, ◌↔◌, refl}
use pafio_nightly.FilePath.{last_is}
use pafio_nightly.Lexicon.{
  is_sha256_digest, is_git_commit_id, normalize_registry_root, is_exact_semver,
}
use pafio_nightly.Lexicon.Digests.{IsLowerHex, is_sha256_digest_lem}
use pafio_nightly.Lexicon.Roots.{slashes, normalize_registry_root_lem}

abbrev commit : Text
commit = text "0123456789abcdef0123456789abcdef01234567"

is_sha256_digest_lem_example :
    ((is_sha256_digest commit ≡ true) ↔ IsLowerHex 64 commit)
    × ((is_git_commit_id commit ≡ true) ↔ IsLowerHex 40 commit)
is_sha256_digest_lem_example = is_sha256_digest_lem commit

commit_test : is_git_commit_id commit ≡ true
unfolding is_git_commit_id
commit_test = refl

semver_test : is_exact_semver (text "1.02.3") ≡ true
unfolding is_exact_semver
semver_test = refl

prefix_test : is_exact_semver (text "v1.2.3") ≡ false
unfolding is_exact_semver
prefix_test = refl

normalize_registry_root_lem_example :
    (normalize_registry_root (text "file:///r//") ≡ text "file:///r") ↔ (
      (last_is b'/' (text "file:///r") ≡ false)
      × ((n : ℕ) × (text "file:///r//" ≡ text "file:///r" ++ slashes n)))
normalize_registry_root_lem_example =
    normalize_registry_root_lem (text "file:///r//") (text "file:///r")
