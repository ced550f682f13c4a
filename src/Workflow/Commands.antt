-- ===== src/Workflow/Commands.antt =====
-- Dependencies.cpp: `add` and `remove`.
use pafio_nightly.Prelude.{
  ℕ, Bool, true, false, not, ◌&&◌, none, some, List, [], ◌∷◌, erase_at, if◌then◌else◌, Text,
  text_eq, has_byte, Result, ok, err, validation, require,
}
use pafio_nightly.Lexicon.{package_short_name}
use pafio_nightly.Manifest.{PackageConfig, ManifestDocument}
use pafio_nightly.Manifest.Parse.{load_manifest}
use pafio_nightly.Workflow.Effects.{
  Workshop, Effect, ◌>>=◌, ◌>>◌, pure, place, there, read_file, read_if_there,
}
use pafio_nightly.Workflow.Edit.{
  AddDependencyRequest, RemoveDependencyRequest, DependencyCommandResult, MatchLocation,
  select_section, set_section, ensure_package_manifest, find_matches, lock_path,
  commit_manifest_edit,
}
use pafio_nightly.Workflow.Requests.{check_add_request, insert_dependency}

abbrev pub alias_or_short_name : AddDependencyRequest → Result Text
alias_or_short_name request = elim request.alias [
  | none ↦ package_short_name request.package_name
  | some alias ↦ ok alias
]

abbrev no_matches : List MatchLocation → Bool
no_matches [] = true
no_matches (m ∷ ms) = false

-- by alias, and where there is none and the target has a slash, by package name
unfoldable pub matches_for : PackageConfig → RemoveDependencyRequest → List MatchLocation
matches_for p request =
    let by_alias = find_matches p request.target request.section false in
    if no_matches by_alias && has_byte b'/' request.target
    then find_matches p request.target request.section true
    else by_alias

abbrev pub single_match : List MatchLocation → Result MatchLocation
single_match [] = err validation "dependency was not found in manifest"
single_match (m ∷ []) = ok m
single_match (m ∷ _ ∷ _) = err validation "dependency target is ambiguous in manifest"

abbrev pub without_match : PackageConfig → MatchLocation → PackageConfig
without_match p match =
    set_section p match.section (erase_at (select_section p match.section) match.index)

module _ (W : Workshop) where
  open W use {machine}

  abbrev pub require_there : Text → Effect (Unit {0})
  require_there manifest_path files =
      pure (require (there W manifest_path files) validation "manifest not found") files

  unfoldable pub load_manifest_at : Text → Effect ManifestDocument
  load_manifest_at manifest_path files =
      pure (load_manifest machine.library files (place W manifest_path)) files

  unfoldable pub add_dependency_and_refresh_lock :
      ℕ → AddDependencyRequest → Effect DependencyCommandResult
  add_dependency_and_refresh_lock fuel request = do
    require_there request.manifest_path
    pure (check_add_request request)
    alias ← pure (alias_or_short_name request)
    original_manifest ← read_file W request.manifest_path
    original_lock ← read_if_there W (lock_path request.manifest_path)
    manifest ← load_manifest_at request.manifest_path
    p ← pure (ensure_package_manifest manifest)
    changed ← pure (insert_dependency request alias p)
    commit_manifest_edit W fuel request.manifest_path original_manifest original_lock
        (record manifest { pkg = some changed }) alias request.package_name request.section

  unfoldable pub remove_dependency_and_refresh_lock :
      ℕ → RemoveDependencyRequest → Effect DependencyCommandResult
  remove_dependency_and_refresh_lock fuel request = do
    require_there request.manifest_path
    pure (
        require (not (text_eq request.target [])) validation
          "remove requires a dependency alias or package name")
    original_manifest ← read_file W request.manifest_path
    original_lock ← read_if_there W (lock_path request.manifest_path)
    manifest ← load_manifest_at request.manifest_path
    p ← pure (ensure_package_manifest manifest)
    match ← pure (single_match (matches_for p request))
    commit_manifest_edit W fuel request.manifest_path original_manifest original_lock
        (record manifest { pkg = some (without_match p match) }) match.alias match.package_name
        match.section
