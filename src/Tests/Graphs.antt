-- ===== src/Tests/Graphs.antt =====
-- A package with a path dependency, resolved.
use pafio_nightly.Prelude.Sort.{sort_by}
use pafio_nightly.Lexicon.{
  is_digit, is_exact_semver, is_git_commit_id, is_lower_hex, is_lower_or_digit, is_name_byte,
  is_package_name, regex_match, require_exact_semver, require_git_commit_id, require_package_name,
  url_has_userinfo,
}
use pafio_nightly.FilePath.{components, is_absolute, last_is, lexically_normal, parent_path, slash}
use pafio_nightly.Manifest.Rules.{
  is_contained_relative_path, is_non_empty_relative_path, is_registry_root_url,
  require_no_url_userinfo, validate_contained_relative_path, validate_registry_root,
  validate_relative_path,
}
use pafio_nightly.Manifest.Parse.{
  load_manifest, parse_bins, parse_build_config, parse_dependencies, parse_dependency,
  parse_git_dependency, parse_lib, parse_package, parse_path_dependency, parse_registry_dependency,
  parse_source, parse_target, parse_targets, parse_tests, parse_workspace, read_manifest,
  require_string, require_string_array, require_table,
}
use pafio_nightly.Prelude.{
  true, false, none, some, List, [], ◌∷◌, if◌then◌else◌, Text, text, text_eq, err, fetch, ◌≡◌, refl,
  before, behind_text, drop_text, each, has_byte, map_result, split_lines, starts_with, text_ltb,
}
use pafio_nightly.Prelude.Runs.{Run, back}
use pafio_nightly.Manifest.{path, Dependency, PackageConfig, Files}
use pafio_nightly.Lockfile.{LockPackage}
use pafio_nightly.Resolve.{
  SourceKind, Machine, local_origin, build_lock_id, build_source_fingerprint,
  canonical_absolute_path, collect_dependencies, path_is_within, snapshot_relative_key,
}
use pafio_nightly.Resolve.Select.{
  Resolver, load_document, match_member, match_members, resolve_git_dependency,
  resolve_path_dependency, resolve_registry_dependency, select_package_manifest_from_root,
}
use pafio_nightly.Resolve.Graph.{
  Node, GraphState, active, done, empty_graph, resolve_node, enter_node, leave_node, make_node,
  resolve_dependencies, select_dependency, unique, visit_named, visit_new, visit_source,
}
use pafio_nightly.Resolve.Graph.Invariant.{IsGraph, Extends}
use pafio_nightly.Resolve.Graph.Single.{resolve_node-single}
use pafio_nightly.Resolve.Roots.{
  ResolvedGraphResult, make_resolver, resolve_single_version_graph, build_root_seeds,
  load_locked_registry_hints, member_seed, member_seeds, resolve_seeds, unique_seeds,
}
use pafio_nightly.Resolve.Roots.Lock.{IsSingleVersion, resolve_single_version_graph-single}
use pafio_nightly.Tests.SampleToml.{
  Node as Toml, str, bool, number, no_fields, field, two_documents,
}

abbrev pub document_of : Text → Toml → Toml
document_of name dependencies =
    field (text "pafio") (field (text "manifest-version") (number 1) no_fields) (
      field (text "package")
        (field (text "name") (str name) (
          field (text "version") (str (text "0.1.0"))
            (field (text "edition") (str (text "2026")) no_fields)))
        (field (text "build") (field (text "implicit-std") (bool true) no_fields) (
          field (text "lib") (field (text "path") (str (text "src/lib.styio")) no_fields)
            (field (text "dependencies") dependencies no_fields))))

abbrev pub app_document : Toml
app_document =
    document_of (text "core/app")
      (field (text "lib") (field (text "path") (str (text "lib")) no_fields) no_fields)

abbrev lib_document : Toml
lib_document = document_of (text "core/lib") no_fields

abbrev pub app_path : Text
app_path = text "/w/pafio.toml"

abbrev pub lib_path : Text
lib_path = text "/w/lib/pafio.toml"

unfoldable pub files : Files
unfolding text_eq
files p =
    if text_eq p app_path
    then some (text "one")
    else if text_eq p lib_path
    then some (text "two")
    else none

unfoldable pub machine : Machine
unfolding files two_documents
machine = record {
  library = two_documents app_document lib_document;
  files = files;
  current_path = text "/w";
  version = text "0.1";
  materialize_git = λ _ _. err fetch "no network";
  materialize_registry = λ _ _ _ _ _. err fetch "no network";
}

abbrev pub app_id : Text
app_id = text "workspace:core/app@0.1.0"

abbrev pub lib_id : Text
lib_id = text "path:core/lib@0.1.0"

abbrev ids_of : Run ResolvedGraphResult → List Text
ids_of (back g) = g.root_ids
ids_of _ = []

abbrev pub package_named : Text → List Dependency → PackageConfig
package_named name dependencies = record {
  name = name;
  version = text "0.1.0";
  edition = text "2026";
  publish = false;
  build = record { implicit_std = true };
  lib = some (record { path = text "src/lib.styio" });
  bins = [];
  tests = [];
  dependencies = dependencies;
  dev_dependencies = [];
}

abbrev pub on_lib : Dependency
on_lib = record {
  alias = text "lib";
  pkg = none;
  source_kind = path;
  source = text "lib";
  rev = none;
  version = none;
}

abbrev pub app_node : Node
app_node = record {
  manifest_path = app_path;
  package_dir = text "/w";
  pkg = package_named (text "core/app") (on_lib ∷ []);
  origin = local_origin SourceKind.workspace;
  source_fingerprint = text "workspace:/w";
  id = app_id;
  dependencies = lib_id ∷ [];
  dependency_aliases = record { alias = text "lib"; package_id = lib_id } ∷ [];
}

abbrev pub lib_node : Node
lib_node = record {
  manifest_path = lib_path;
  package_dir = text "/w/lib";
  pkg = package_named (text "core/lib") [];
  origin = local_origin SourceKind.path;
  source_fingerprint = text "path:/w/lib";
  id = lib_id;
  dependencies = [];
  dependency_aliases = [];
}

abbrev local_package : Text → Text → Text → List Text → LockPackage
local_package id name kind dependencies = record {
  id = id;
  name = name;
  version = text "0.1.0";
  source_kind = kind;
  git = none;
  rev = none;
  registry = none;
  sha256 = none;
  dependencies = dependencies;
}

abbrev pub resolved : ResolvedGraphResult
resolved = record {
  manifest_path = app_path;
  lockfile_path = text "/w/pafio.lock";
  root_ids = app_id ∷ [];
  packages = lib_node ∷ app_node ∷ [];
  lockfile = record {
    generated_by = text "pafio 0.1";
    resolver = text "single-version-v1";
    packages =
        local_package lib_id (text "core/lib") (text "path") []
        ∷ local_package app_id (text "core/app") (text "workspace") (lib_id ∷ [])
        ∷ [];
  };
}

app_resolves :
    resolve_single_version_graph machine 5 (text "pafio.toml") false false ≡ back resolved
unfolding machine load_manifest require_table parse_package require_string parse_build_config
    parse_lib parse_bins parse_targets parse_target validate_contained_relative_path
    is_contained_relative_path is_absolute components parse_tests parse_dependencies map_result
    parse_dependency is_digit is_exact_semver is_git_commit_id is_lower_hex is_lower_or_digit
    is_name_byte is_package_name regex_match require_exact_semver require_git_commit_id
    require_package_name url_has_userinfo parse_git_dependency parse_path_dependency
    parse_registry_dependency parse_source parse_workspace read_manifest require_string_array
    is_non_empty_relative_path is_registry_root_url require_no_url_userinfo validate_registry_root
    validate_relative_path each before behind_text drop_text has_byte split_lines starts_with
    text_eq make_resolver load_locked_registry_hints build_root_seeds member_seeds member_seed
    unique_seeds resolve_seeds resolve_single_version_graph resolve_node visit_source visit_named
    visit_new enter_node leave_node unique make_node resolve_dependencies select_dependency
    load_document match_member match_members select_package_manifest_from_root
    resolve_path_dependency resolve_git_dependency resolve_registry_dependency
    canonical_absolute_path build_source_fingerprint build_lock_id collect_dependencies
    path_is_within snapshot_relative_key lexically_normal slash parent_path last_is sort_by text_ltb
app_resolves = refl

resolve_single_version_graph-single_example : IsSingleVersion resolved
resolve_single_version_graph-single_example =
    resolve_single_version_graph-single machine 5 (text "pafio.toml") false false resolved
      app_resolves

abbrev pub app_resolver : Resolver
app_resolver = record {
  machine = machine;
  root_manifest_path = app_path;
  root_manifest = record {
    pkg = some (package_named (text "core/app") (on_lib ∷ []));
    workspace = none;
  };
  offline = false;
  locked = false;
  top_level_workspace_dirs = text "/w" ∷ [];
  locked_registry_digests = [];
}

abbrev app_graph : GraphState
app_graph = record {
  nodes = app_node ∷ lib_node ∷ [];
  node_by_source_fingerprint = (text "path:/w/lib", 1) ∷ (text "workspace:/w", 0) ∷ [];
  node_by_package_name = (text "core/lib", 1) ∷ (text "core/app", 0) ∷ [];
  visit_state_by_index = (0, done) ∷ (1, done) ∷ (1, active) ∷ (0, active) ∷ [];
  active_stack = [];
  materialized_registry = [];
}

app_visited :
    resolve_node app_resolver 5 app_path (local_origin SourceKind.workspace) empty_graph
    ≡ back (0, app_graph)
unfolding machine load_manifest require_table parse_package require_string parse_build_config
    parse_lib parse_bins parse_targets parse_target validate_contained_relative_path
    is_contained_relative_path is_absolute components parse_tests parse_dependencies map_result
    parse_dependency is_digit is_exact_semver is_git_commit_id is_lower_hex is_lower_or_digit
    is_name_byte is_package_name regex_match require_exact_semver require_git_commit_id
    require_package_name url_has_userinfo parse_git_dependency parse_path_dependency
    parse_registry_dependency parse_source parse_workspace read_manifest require_string_array
    is_non_empty_relative_path is_registry_root_url require_no_url_userinfo validate_registry_root
    validate_relative_path each before behind_text drop_text has_byte split_lines starts_with
    text_eq make_resolver load_locked_registry_hints build_root_seeds member_seeds member_seed
    unique_seeds resolve_seeds resolve_single_version_graph resolve_node visit_source visit_named
    visit_new enter_node leave_node unique make_node resolve_dependencies select_dependency
    load_document match_member match_members select_package_manifest_from_root
    resolve_path_dependency resolve_git_dependency resolve_registry_dependency
    canonical_absolute_path build_source_fingerprint build_lock_id collect_dependencies
    path_is_within snapshot_relative_key lexically_normal slash parent_path last_is sort_by text_ltb
app_visited = refl

nothing-IsGraph : IsGraph (λ _. Unit) (λ _. Unit) empty_graph
nothing-IsGraph = record {
  origins = tt;
  memo = tt;
  names = tt;
  sources = tt;
  known_names = tt;
  known_sources = tt;
  closed = tt;
}

resolve_node-single_example :
    IsGraph (λ _. Unit) (λ _. Unit) app_graph × Extends empty_graph app_graph
resolve_node-single_example =
    resolve_node-single app_resolver 5 app_path (local_origin SourceKind.workspace) empty_graph 0
      app_graph nothing-IsGraph app_visited
