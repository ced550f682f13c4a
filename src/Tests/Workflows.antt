-- ===== src/Tests/Workflows.antt =====
-- A manifest to which a dependency is added, and a project that is synchronised.
use pafio_nightly.Prelude.Sort.{sort_by}
use pafio_nightly.Lexicon.{
  is_digit, is_exact_semver, is_git_commit_id, is_lower_hex, is_lower_or_digit, is_name_byte,
  is_package_name, regex_match, require_exact_semver, require_git_commit_id, require_package_name,
  url_has_userinfo,
}
use pafio_nightly.FilePath.{components, is_absolute, last_is, lexically_normal, parent_path, slash}
use pafio_nightly.Manifest.Rules.{
  is_contained_relative_path, is_non_empty_relative_path, is_registry_root_url,
  require_no_url_userinfo, validate_contained_relative_path, validate_registry_root,
  validate_relative_path,
}
use pafio_nightly.Manifest.Parse.{
  load_manifest, parse_bins, parse_build_config, parse_dependencies, parse_dependency,
  parse_git_dependency, parse_lib, parse_package, parse_path_dependency, parse_registry_dependency,
  parse_source, parse_target, parse_targets, parse_tests, parse_workspace, read_manifest,
  require_string, require_string_array, require_table,
}
use pafio_nightly.Prelude.{
  true, false, none, some, validation, [], ◌∷◌, if◌then◌else◌, Text, text, text_eq, err, fetch, ◌≡◌,
  refl, before, behind_text, drop_text, each, has_byte, map_result, split_lines, starts_with,
  text_ltb,
}
use pafio_nightly.Prelude.Runs.{Run, back, thrown}
use pafio_nightly.Manifest.{path, Dependency, PackageConfig, Files}
use pafio_nightly.Resolve.{
  build_lock_id, build_source_fingerprint, canonical_absolute_path, collect_dependencies,
  path_is_within, snapshot_relative_key,
}
use pafio_nightly.Resolve.Select.{
  load_document, match_member, match_members, resolve_git_dependency, resolve_path_dependency,
  resolve_registry_dependency, select_package_manifest_from_root,
}
use pafio_nightly.Resolve.Graph.{
  resolve_node, enter_node, leave_node, make_node, resolve_dependencies, select_dependency, unique,
  visit_named, visit_new, visit_source,
}
use pafio_nightly.Resolve.Roots.{
  make_resolver, resolve_single_version_graph, build_root_seeds, load_locked_registry_hints,
  member_seed, member_seeds, resolve_seeds, unique_seeds,
}
use pafio_nightly.Tests.SampleToml.{
  Node as Toml, as_fields, str, bool, number, no_fields, field, two_documents,
}
use pafio_nightly.Prelude.{Bool, ok}
use pafio_nightly.Manifest.{ManifestDocument}
use pafio_nightly.Manifest.Sources.{IsValidPackage}
use pafio_nightly.Tests.Graphs.{app_document, package_named}
use pafio_nightly.Tests.SampleJson.{sample_digest}
use pafio_nightly.Toml.Library.{Library}
use pafio_nightly.Workflow.Same.{Same}
use pafio_nightly.Workflow.Restore.{Succeeds, TakesLockBack, LockIsOne, lock_of}
use pafio_nightly.Workflow.Atomic.{
  add_dependency_and_refresh_lock-Same, remove_dependency_and_refresh_lock-Same,
  add_dependency_and_refresh_lock-Succeeds,
}
use pafio_nightly.Workflow.Insert.{insert_dependency-removes, insert_dependency-IsValidPackage}
use pafio_nightly.Workflow.Sync.{taken, Surroundings, SyncProjectResult, sync_project_dependencies}
use pafio_nightly.Workflow.Locked.{Synced}
use pafio_nightly.Workflow.Effects.{Workshop, written, place, read_file, write_file, remove_file}
use pafio_nightly.Workflow.Edit.{
  lock_path, AddDependencyRequest, RemoveDependencyRequest, MatchLocation, find_matches,
  collect_matches, dependency_matches_target, DependencySection, DependencyCommandResult,
  commit_manifest_edit, write_edit, put_back, restore_lockfile, resolve_single_version_lockfile,
}
use pafio_nightly.Workflow.Requests.{
  check_add_request, check_kind, check_git_request, check_registry_request, check_path_request,
  insert_dependency,
}
use pafio_nightly.Workflow.Commands.{
  load_manifest_at, alias_or_short_name, matches_for, single_match, without_match,
  remove_dependency_and_refresh_lock, add_dependency_and_refresh_lock,
}
use pafio_nightly.Manifest.Serialize.{serialize_manifest_canonical}
use pafio_nightly.Lockfile.{serialize_lockfile_canonical}
use pafio_nightly.Lexicon.{package_short_name}
use pafio_nightly.Prelude.{cut}

abbrev is_back {ℓ} : {A : Type ℓ} → Run A → Bool
is_back (back a) = true
is_back _ = false

abbrev root_document : Toml
root_document = field (text "pafio") (field (text "manifest-version") (number 1) no_fields) (
    field (text "package")
      (field (text "name") (str (text "core/app")) (
        field (text "version") (str (text "0.1.0"))
          (field (text "edition") (str (text "2026")) no_fields)))
      (field (text "build") (field (text "implicit-std") (bool true) no_fields) (
        field (text "lib") (field (text "path") (str (text "src/lib.styio")) no_fields) no_fields)))

-- a library that reads one text only, and one that reads every text
abbrev strict : Library
strict = two_documents root_document no_fields

abbrev lenient : Library
unfolding two_documents
lenient = record strict { parse = λ content. as_fields root_document }

abbrev manifest_at : Text
manifest_at = text "/w/pafio.toml"

abbrev project : Files
project p = if text_eq p manifest_at then some (text "one") else none

abbrev workshop : Library → Workshop
workshop library = record {
  machine = record {
    library = library;
    files = project;
    current_path = text "/w";
    version = text "0.1";
    materialize_git = λ _ _. err fetch "no network";
    materialize_registry = λ _ _ _ _ _. err fetch "no network";
  };
  write_outcome = λ path content. written;
  refuses_remove = λ path. false;
}

abbrev request : AddDependencyRequest
request = record {
  manifest_path = text "pafio.toml";
  package_name = text "core/lib";
  alias = none;
  section = DependencySection.dependencies;
  use_git = false;
  use_registry = false;
  source = text "lib";
  rev = none;
  version = none;
}

abbrev after_failed_add : Files
after_failed_add = (add_dependency_and_refresh_lock (workshop strict) 5 request project).1

add_fails :
    add_dependency_and_refresh_lock (workshop strict) 5 request project
    ≡ (thrown validation "failed to parse manifest", after_failed_add)
unfolding load_manifest require_table parse_package require_string parse_build_config parse_lib
    parse_bins parse_targets parse_target validate_contained_relative_path
    is_contained_relative_path is_absolute components parse_tests parse_dependencies map_result
    parse_dependency is_digit is_exact_semver is_git_commit_id is_lower_hex is_lower_or_digit
    is_name_byte is_package_name regex_match require_exact_semver require_git_commit_id
    require_package_name url_has_userinfo parse_git_dependency parse_path_dependency
    parse_registry_dependency parse_source parse_workspace read_manifest require_string_array
    is_non_empty_relative_path is_registry_root_url require_no_url_userinfo validate_registry_root
    validate_relative_path each before behind_text drop_text has_byte split_lines starts_with
    text_eq make_resolver load_locked_registry_hints build_root_seeds member_seeds member_seed
    unique_seeds resolve_seeds resolve_single_version_graph resolve_node visit_source visit_named
    visit_new enter_node leave_node unique make_node resolve_dependencies select_dependency
    load_document match_member match_members select_package_manifest_from_root
    resolve_path_dependency resolve_git_dependency resolve_registry_dependency
    canonical_absolute_path build_source_fingerprint build_lock_id collect_dependencies
    path_is_within snapshot_relative_key lexically_normal slash parent_path last_is sort_by text_ltb
    add_dependency_and_refresh_lock load_manifest_at read_file write_file remove_file
    commit_manifest_edit write_edit put_back restore_lockfile resolve_single_version_lockfile
    check_add_request check_kind check_git_request check_registry_request check_path_request
    insert_dependency package_short_name cut two_documents serialize_manifest_canonical
add_fails = refl

manifest_there : project (place (workshop strict) (text "pafio.toml")) ≡ some (text "one")
unfolding text_eq canonical_absolute_path lexically_normal slash last_is is_absolute components
manifest_there = refl

lock_takes_back :
    TakesLockBack
      (workshop strict)
      (lock_path (text "pafio.toml"))
      (lock_of (workshop strict) project (text "pafio.toml"))
unfolding text_eq canonical_absolute_path lexically_normal slash parent_path last_is is_absolute
    components
lock_takes_back = refl

project-LockIsOne : LockIsOne (workshop strict) (text "pafio.toml")
unfolding text_eq canonical_absolute_path lexically_normal slash parent_path last_is is_absolute
    components
project-LockIsOne = refl

add_dependency_and_refresh_lock-Same_example : after_failed_add manifest_at ≡ project manifest_at
add_dependency_and_refresh_lock-Same_example =
    add_dependency_and_refresh_lock-Same (workshop strict) 5 request project after_failed_add
      (text "one") validation "failed to parse manifest" manifest_there refl lock_takes_back
      project-LockIsOne add_fails manifest_at

abbrev strict_app : Library
strict_app = two_documents app_document no_fields

abbrev removal : RemoveDependencyRequest
removal = record { manifest_path = text "pafio.toml"; target = text "lib"; section = none }

abbrev after_failed_remove : Files
after_failed_remove = (remove_dependency_and_refresh_lock (workshop strict_app) 5 removal project).1

remove_fails :
    remove_dependency_and_refresh_lock (workshop strict_app) 5 removal project
    ≡ (thrown validation "failed to parse manifest", after_failed_remove)
unfolding load_manifest require_table parse_package require_string parse_build_config parse_lib
    parse_bins parse_targets parse_target validate_contained_relative_path
    is_contained_relative_path is_absolute components parse_tests parse_dependencies map_result
    parse_dependency is_digit is_exact_semver is_git_commit_id is_lower_hex is_lower_or_digit
    is_name_byte is_package_name regex_match require_exact_semver require_git_commit_id
    require_package_name url_has_userinfo parse_git_dependency parse_path_dependency
    parse_registry_dependency parse_source parse_workspace read_manifest require_string_array
    is_non_empty_relative_path is_registry_root_url require_no_url_userinfo validate_registry_root
    validate_relative_path each before behind_text drop_text has_byte split_lines starts_with
    text_eq make_resolver load_locked_registry_hints build_root_seeds member_seeds member_seed
    unique_seeds resolve_seeds resolve_single_version_graph resolve_node visit_source visit_named
    visit_new enter_node leave_node unique make_node resolve_dependencies select_dependency
    load_document match_member match_members select_package_manifest_from_root
    resolve_path_dependency resolve_git_dependency resolve_registry_dependency
    canonical_absolute_path build_source_fingerprint build_lock_id collect_dependencies
    path_is_within snapshot_relative_key lexically_normal slash parent_path last_is sort_by text_ltb
    remove_dependency_and_refresh_lock matches_for find_matches collect_matches
    dependency_matches_target load_manifest_at read_file write_file remove_file commit_manifest_edit
    write_edit put_back restore_lockfile resolve_single_version_lockfile check_add_request
    check_kind check_git_request check_registry_request check_path_request insert_dependency
    package_short_name cut two_documents serialize_manifest_canonical
remove_fails = refl

app_manifest_there : project (place (workshop strict_app) (text "pafio.toml")) ≡ some (text "one")
unfolding text_eq canonical_absolute_path lexically_normal slash last_is is_absolute components
app_manifest_there = refl

app_lock_takes_back :
    TakesLockBack
      (workshop strict_app)
      (lock_path (text "pafio.toml"))
      (lock_of (workshop strict_app) project (text "pafio.toml"))
unfolding text_eq canonical_absolute_path lexically_normal slash parent_path last_is is_absolute
    components
app_lock_takes_back = refl

app-LockIsOne : LockIsOne (workshop strict_app) (text "pafio.toml")
unfolding text_eq canonical_absolute_path lexically_normal slash parent_path last_is is_absolute
    components
app-LockIsOne = refl

remove_dependency_and_refresh_lock-Same_example :
    after_failed_remove manifest_at ≡ project manifest_at
remove_dependency_and_refresh_lock-Same_example =
    remove_dependency_and_refresh_lock-Same (workshop strict_app) 5 removal project
      after_failed_remove (text "one") validation "failed to parse manifest" app_manifest_there refl
      app_lock_takes_back app-LockIsOne remove_fails manifest_at

abbrev add_result : DependencyCommandResult
add_result = record {
  manifest_path = manifest_at;
  lockfile_path = text "/w/pafio.lock";
  alias = text "lib";
  package_name = text "core/lib";
  section = DependencySection.dependencies;
  package_count = 1;
}

abbrev after_add : Files
after_add = (add_dependency_and_refresh_lock (workshop lenient) 5 request project).1

add_returns :
    add_dependency_and_refresh_lock (workshop lenient) 5 request project
    ≡ (back add_result, after_add)
unfolding load_manifest require_table parse_package require_string parse_build_config parse_lib
    parse_bins parse_targets parse_target validate_contained_relative_path
    is_contained_relative_path is_absolute components parse_tests parse_dependencies map_result
    parse_dependency is_digit is_exact_semver is_git_commit_id is_lower_hex is_lower_or_digit
    is_name_byte is_package_name regex_match require_exact_semver require_git_commit_id
    require_package_name url_has_userinfo parse_git_dependency parse_path_dependency
    parse_registry_dependency parse_source parse_workspace read_manifest require_string_array
    is_non_empty_relative_path is_registry_root_url require_no_url_userinfo validate_registry_root
    validate_relative_path each before behind_text drop_text has_byte split_lines starts_with
    text_eq make_resolver load_locked_registry_hints build_root_seeds member_seeds member_seed
    unique_seeds resolve_seeds resolve_single_version_graph resolve_node visit_source visit_named
    visit_new enter_node leave_node unique make_node resolve_dependencies select_dependency
    load_document match_member match_members select_package_manifest_from_root
    resolve_path_dependency resolve_git_dependency resolve_registry_dependency
    canonical_absolute_path build_source_fingerprint build_lock_id collect_dependencies
    path_is_within snapshot_relative_key lexically_normal slash parent_path last_is sort_by text_ltb
    add_dependency_and_refresh_lock load_manifest_at read_file write_file remove_file
    commit_manifest_edit write_edit put_back restore_lockfile resolve_single_version_lockfile
    check_add_request check_kind check_git_request check_registry_request check_path_request
    insert_dependency package_short_name cut two_documents serialize_manifest_canonical
    serialize_lockfile_canonical
add_returns = refl

add_dependency_and_refresh_lock-Succeeds_example :
    (manifest : ManifestDocument) × (p changed : PackageConfig) × (alias : Text) × (load_manifest
        lenient project
        (place (workshop lenient) request.manifest_path)
      ≡ ok manifest)
    × (manifest.pkg ≡ some p)
    × (check_add_request request ≡ ok tt)
    × (alias_or_short_name request ≡ ok alias)
    × (insert_dependency request alias p ≡ ok changed)
    × Succeeds
        (workshop lenient)
        5
        request.manifest_path
        (record manifest { pkg = some changed })
        alias
        request.package_name
        request.section
        project
        (back add_result, after_add)
add_dependency_and_refresh_lock-Succeeds_example =
    add_dependency_and_refresh_lock-Succeeds (workshop lenient) 5 request project after_add
      add_result add_returns

abbrev added : Dependency
added = record {
  alias = text "lib";
  pkg = some (text "core/lib");
  source_kind = path;
  source = text "lib";
  rev = none;
  version = none;
}

abbrev root_package : PackageConfig
root_package = package_named (text "core/app") []

abbrev with_lib : PackageConfig
with_lib = package_named (text "core/app") (added ∷ [])

insertion : insert_dependency request (text "lib") root_package ≡ ok with_lib
unfolding insert_dependency
insertion = refl

insert_dependency-removes_example :
    (m : MatchLocation) × (single_match (matches_for with_lib removal) ≡ ok m)
    × (without_match with_lib m ≡ root_package)
insert_dependency-removes_example =
    insert_dependency-removes request (text "lib") (text "pafio.toml") root_package with_lib
      insertion

request_passes : check_add_request request ≡ ok tt
unfolding check_add_request text_eq require_package_name is_package_name is_non_empty_relative_path
    is_absolute check_kind check_path_request
request_passes = refl

root_package-IsValidPackage : IsValidPackage root_package
unfolding is_package_name is_exact_semver is_contained_relative_path text_eq is_absolute components
root_package-IsValidPackage = record {
  name = refl;
  version = refl;
  edition = λ e. cc;
  has_target = refl;
  lib = refl;
  bins = tt;
  bin_names = tt;
  tests = tt;
  test_names = tt;
  dependencies = tt;
  dev_dependencies = tt;
}

insert_dependency-IsValidPackage_example : IsValidPackage with_lib
insert_dependency-IsValidPackage_example =
    insert_dependency-IsValidPackage request (text "lib") root_package with_lib refl request_passes
      insertion root_package-IsValidPackage

abbrev surroundings : Surroundings
surroundings = record {
  workshop = workshop lenient;
  sha256_text = sample_digest;
  dump = λ document. document.lock_sha256;
  is_directory = λ path. true;
  lock_outcome = taken;
  meanwhile = λ files. files;
  until_taken = λ files. files;
}

abbrev after_sync : Files
after_sync = (sync_project_dependencies surroundings 5 (text "pafio.toml") false false project).1

abbrev sync_run : Run SyncProjectResult
sync_run = (sync_project_dependencies surroundings 5 (text "pafio.toml") false false project).0

abbrev after_locked : Files
after_locked = (sync_project_dependencies surroundings 5 (text "pafio.toml") false true project).1
