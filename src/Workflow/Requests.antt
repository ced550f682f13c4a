-- ===== src/Workflow/Requests.antt =====
-- Dependencies.cpp: the checks of a request to add a dependency, before any file is read, and those
-- against the manifest.
use pafio_nightly.Prelude.{
  ℕ, ◌+◌, ◌==◌, Bool, true, false, not, ◌&&◌, ◌||◌, Option, none, some, List, [], ◌∷◌, ◌++◌, any,
  if◌then◌else◌, Text, text_eq, Result, ok, validation, require, ◌>>◌,
}
use pafio_nightly.Lexicon.{
  require_package_name, require_exact_semver, require_git_commit_id, url_has_userinfo,
}
use pafio_nightly.Manifest.{path, git, registry, DependencySourceKind, Dependency, PackageConfig}
use pafio_nightly.Manifest.Parse.{is_some}
use pafio_nightly.Manifest.Rules.{is_non_empty_relative_path, is_registry_root_url}
use pafio_nightly.Workflow.Edit.{AddDependencyRequest, select_section, set_section, is_package}

abbrev pub is_empty_text : Option Text → Bool
is_empty_text none = false
is_empty_text (some s) = text_eq s []

abbrev pub text_of : Option Text → Text
text_of none = []
text_of (some s) = s

abbrev one_if : Bool → ℕ
one_if true = 1
one_if false = 0

abbrev pub kind_count : AddDependencyRequest → ℕ
kind_count request =
    one_if request.use_git
    + (one_if request.use_registry + one_if (not request.use_git && not request.use_registry))

unfoldable pub check_git_request : AddDependencyRequest → Result (Unit {0})
check_git_request request = do
  require (not (text_eq (text_of request.rev) [])) validation "git dependencies require --rev"
  require_git_commit_id (text_of request.rev)
  require (not (url_has_userinfo request.source)) validation
      "git dependency source must not embed credentials in the URL userinfo"
  require (not (is_some request.version)) validation "--version is only valid with --registry"

unfoldable pub check_registry_request : AddDependencyRequest → Result (Unit {0})
check_registry_request request = do
  require (not (is_some request.rev)) validation "--rev is only valid with --git"
  require (not (text_eq (text_of request.version) [])) validation
      "registry dependencies require --version"
  require_exact_semver (text_of request.version)
  require (is_registry_root_url request.source) validation
      "registry dependency source must use file://, http://, or https://"

unfoldable pub check_path_request : AddDependencyRequest → Result (Unit {0})
check_path_request request =
    require (not (is_some request.rev || is_some request.version)) validation
      "--rev is only valid with --git and --version is only valid with --registry"

unfoldable pub check_kind : AddDependencyRequest → Result (Unit {0})
check_kind request =
    if request.use_git
    then check_git_request request
    else if request.use_registry
    then check_registry_request request
    else check_path_request request

unfoldable pub check_add_request : AddDependencyRequest → Result (Unit {0})
check_add_request request = do
  require (not (is_empty_text request.alias)) validation
      "dependency alias must be a non-empty string"
  require (not (text_eq request.source [])) validation
      "dependency source must be a non-empty string"
  require_package_name request.package_name
  require (kind_count request == 1) validation "add requires exactly one dependency source kind"
  require
      (not (
        not request.use_git
        && (not request.use_registry && not (is_non_empty_relative_path request.source))))
      validation "path dependency source must be an explicit relative path"
  check_kind request

abbrev pub has_alias : Text → List Dependency → Bool
has_alias alias = any (λ d. text_eq d.alias alias)

abbrev pub has_package : Text → List Dependency → Bool
has_package name = any (λ d. is_package name d.pkg)

abbrev pub kind_of_request : AddDependencyRequest → DependencySourceKind
kind_of_request request =
    if request.use_git then git else if request.use_registry then registry else path

abbrev pub dependency_of : AddDependencyRequest → Text → Dependency
dependency_of request alias = record {
  alias = alias;
  pkg = some request.package_name;
  source_kind = kind_of_request request;
  source = request.source;
  rev = request.rev;
  version = request.version;
}

-- the package with the dependency at the end of its section
unfoldable pub insert_dependency :
    AddDependencyRequest → Text → PackageConfig → Result PackageConfig
insert_dependency request alias p = do
  require (not (has_alias alias p.dependencies || has_alias alias p.dev_dependencies)) validation
      "dependency alias already exists in manifest"
  require
      (not (
        has_package request.package_name p.dependencies
        || has_package request.package_name p.dev_dependencies))
      validation "dependency package already exists in manifest"
  ok (
      set_section p request.section
        (select_section p request.section ++ (dependency_of request alias ∷ [])))
