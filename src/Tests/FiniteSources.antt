-- ===== src/Tests/FiniteSources.antt =====
-- The sources of a machine with two packages, and that its resolution comes back.
use mathlib.Core.Path.{subst}
use pafio_nightly.FilePath.{components, is_absolute, last_is, lexically_normal, parent_path, slash}
use pafio_nightly.Lexicon.{
  is_digit, is_exact_semver, is_git_commit_id, is_lower_hex, is_lower_or_digit, is_name_byte,
  is_package_name, regex_match, require_exact_semver, require_git_commit_id, require_package_name,
  url_has_userinfo,
}
use pafio_nightly.Manifest.{Dependency, DependencySourceKind, git, path, registry}
use pafio_nightly.Manifest.Parse.{
  is_some, contains_text, load_manifest, parse_bins, parse_build_config, parse_dependencies,
  parse_dependency, parse_git_dependency, parse_lib, parse_package, parse_path_dependency,
  parse_registry_dependency, parse_source, parse_target, parse_targets, parse_tests,
  parse_workspace, read_manifest, require_string, require_string_array, require_table,
}
use pafio_nightly.Manifest.Rules.{
  is_contained_relative_path, is_non_empty_relative_path, is_registry_root_url,
  require_no_url_userinfo, validate_contained_relative_path, validate_registry_root,
  validate_relative_path,
}
use pafio_nightly.Prelude.{
  >>=-eq-ok, Bool-cases, List, Option, Text, [], arith, before, behind_text, drop_text, each, false,
  has_byte, inl, inr, map_result, none, ok, ok_injective, refl, require-eq-ok, some, split_lines,
  starts_with, sym, text, text_eq, text_eq_iff, text_ltb, true, ◌∙◌, ◌∷◌, ◌≡◌, ◌≢◌, ◌⊎◌,
}
use pafio_nightly.Prelude.Runs.{out_of_fuel}
use pafio_nightly.Prelude.Sort.{sort_by}
use pafio_nightly.Resolve.{
  ManifestSelection, SourceKind, SourceOrigin, build_lock_id, build_source_fingerprint,
  canonical_absolute_path, value_of, collect_dependencies, exists, local_origin, path_is_within,
  snapshot_relative_key,
}
use pafio_nightly.Resolve.Graph.{
  enter_node, leave_node, make_node, resolve_dependencies, resolve_node, select_by,
  select_dependency, unique, visit_named, visit_new, visit_source,
}
use pafio_nightly.Resolve.Graph.Sources.{IsAmong, SelectsAmong}
use pafio_nightly.Resolve.Roots.{
  build_root_seeds, load_locked_registry_hints, make_resolver, member_seed, member_seeds,
  resolve_seeds, resolve_single_version_graph, unique_seeds,
}
use pafio_nightly.Resolve.Roots.Fuel.{SeedsAmong, resolve_single_version_graph-returns}
use pafio_nightly.Resolve.Select.{
  Materialized, materialize_registry, Resolver, load_document, match_member, match_members,
  resolve_git_dependency, resolve_path_dependency, resolve_registry_dependency,
  select_package_manifest_from_root,
}
use pafio_nightly.Tests.Graphs.{app_path, app_resolver, files, lib_path, machine}

abbrev sources : List Text
sources = text "workspace:/w" ∷ text "path:/w/lib" ∷ []

abbrev Local : SourceOrigin → Type 0
Local origin = origin.snapshot_root ≡ none

abbrev IsSelection : ManifestSelection → Type 0
IsSelection s = Local s.origin × IsAmong app_resolver sources s.manifest_path s.origin

abbrev app_selection : ManifestSelection
app_selection = record { manifest_path = app_path; origin = local_origin SourceKind.workspace }

abbrev lib_selection : ManifestSelection
lib_selection = record { manifest_path = lib_path; origin = local_origin SourceKind.path }

app_good : IsSelection app_selection
unfolding machine load_manifest require_table parse_package require_string parse_build_config
    parse_lib parse_bins parse_targets parse_target validate_contained_relative_path
    is_contained_relative_path is_absolute components parse_tests parse_dependencies map_result
    parse_dependency is_digit is_exact_semver is_git_commit_id is_lower_hex is_lower_or_digit
    is_name_byte is_package_name regex_match require_exact_semver require_git_commit_id
    require_package_name url_has_userinfo parse_git_dependency parse_path_dependency
    parse_registry_dependency parse_source parse_workspace read_manifest require_string_array
    is_non_empty_relative_path is_registry_root_url require_no_url_userinfo validate_registry_root
    validate_relative_path each before behind_text drop_text has_byte split_lines starts_with
    text_eq make_resolver load_locked_registry_hints build_root_seeds member_seeds member_seed
    unique_seeds resolve_seeds resolve_single_version_graph resolve_node visit_source visit_named
    visit_new enter_node leave_node unique make_node resolve_dependencies select_dependency
    load_document match_member match_members select_package_manifest_from_root
    resolve_path_dependency resolve_git_dependency resolve_registry_dependency
    canonical_absolute_path build_source_fingerprint build_lock_id collect_dependencies
    path_is_within snapshot_relative_key lexically_normal slash parent_path last_is sort_by text_ltb
app_good = (refl, λ f e. subst (λ k. contains_text sources k ≡ true) (ok_injective e) refl)

lib_good : IsSelection lib_selection
unfolding machine load_manifest require_table parse_package require_string parse_build_config
    parse_lib parse_bins parse_targets parse_target validate_contained_relative_path
    is_contained_relative_path is_absolute components parse_tests parse_dependencies map_result
    parse_dependency is_digit is_exact_semver is_git_commit_id is_lower_hex is_lower_or_digit
    is_name_byte is_package_name regex_match require_exact_semver require_git_commit_id
    require_package_name url_has_userinfo parse_git_dependency parse_path_dependency
    parse_registry_dependency parse_source parse_workspace read_manifest require_string_array
    is_non_empty_relative_path is_registry_root_url require_no_url_userinfo validate_registry_root
    validate_relative_path each before behind_text drop_text has_byte split_lines starts_with
    text_eq make_resolver load_locked_registry_hints build_root_seeds member_seeds member_seed
    unique_seeds resolve_seeds resolve_single_version_graph resolve_node visit_source visit_named
    visit_new enter_node leave_node unique make_node resolve_dependencies select_dependency
    load_document match_member match_members select_package_manifest_from_root
    resolve_path_dependency resolve_git_dependency resolve_registry_dependency
    canonical_absolute_path build_source_fingerprint build_lock_id collect_dependencies
    path_is_within snapshot_relative_key lexically_normal slash parent_path last_is sort_by text_ltb
lib_good = (refl, λ f e. subst (λ k. contains_text sources k ≡ true) (ok_injective e) refl)

-- what the manifest at the path selects, whatever package is expected
app_selected :
    (expected : Option Text) (s : ManifestSelection)
    → select_package_manifest_from_root app_resolver app_path
        (local_origin SourceKind.path)
        expected
      ≡ ok s
    → IsSelection s
unfolding machine load_manifest require_table parse_package require_string parse_build_config
    parse_lib parse_bins parse_targets parse_target validate_contained_relative_path
    is_contained_relative_path is_absolute components parse_tests parse_dependencies map_result
    parse_dependency is_digit is_exact_semver is_git_commit_id is_lower_hex is_lower_or_digit
    is_name_byte is_package_name regex_match require_exact_semver require_git_commit_id
    require_package_name url_has_userinfo parse_git_dependency parse_path_dependency
    parse_registry_dependency parse_source parse_workspace read_manifest require_string_array
    is_non_empty_relative_path is_registry_root_url require_no_url_userinfo validate_registry_root
    validate_relative_path each before behind_text drop_text has_byte split_lines starts_with
    text_eq make_resolver load_locked_registry_hints build_root_seeds member_seeds member_seed
    unique_seeds resolve_seeds resolve_single_version_graph resolve_node visit_source visit_named
    visit_new enter_node leave_node unique make_node resolve_dependencies select_dependency
    load_document match_member match_members select_package_manifest_from_root
    resolve_path_dependency resolve_git_dependency resolve_registry_dependency
    canonical_absolute_path build_source_fingerprint build_lock_id collect_dependencies
    path_is_within snapshot_relative_key lexically_normal slash parent_path last_is sort_by text_ltb
app_selected none s e = subst IsSelection (ok_injective e) app_good
app_selected (some x) s e = elim (Bool-cases (text_eq (text "core/app") x)) [
  | inl t ↦ subst IsSelection (ok_injective (rw t at e)) app_good
  | inr t ↦ cc (rw t at e)
]

lib_selected :
    (expected : Option Text) (s : ManifestSelection)
    → select_package_manifest_from_root app_resolver lib_path
        (local_origin SourceKind.path)
        expected
      ≡ ok s
    → IsSelection s
unfolding machine load_manifest require_table parse_package require_string parse_build_config
    parse_lib parse_bins parse_targets parse_target validate_contained_relative_path
    is_contained_relative_path is_absolute components parse_tests parse_dependencies map_result
    parse_dependency is_digit is_exact_semver is_git_commit_id is_lower_hex is_lower_or_digit
    is_name_byte is_package_name regex_match require_exact_semver require_git_commit_id
    require_package_name url_has_userinfo parse_git_dependency parse_path_dependency
    parse_registry_dependency parse_source parse_workspace read_manifest require_string_array
    is_non_empty_relative_path is_registry_root_url require_no_url_userinfo validate_registry_root
    validate_relative_path each before behind_text drop_text has_byte split_lines starts_with
    text_eq make_resolver load_locked_registry_hints build_root_seeds member_seeds member_seed
    unique_seeds resolve_seeds resolve_single_version_graph resolve_node visit_source visit_named
    visit_new enter_node leave_node unique make_node resolve_dependencies select_dependency
    load_document match_member match_members select_package_manifest_from_root
    resolve_path_dependency resolve_git_dependency resolve_registry_dependency
    canonical_absolute_path build_source_fingerprint build_lock_id collect_dependencies
    path_is_within snapshot_relative_key lexically_normal slash parent_path last_is sort_by text_ltb
lib_selected none s e = subst IsSelection (ok_injective e) lib_good
lib_selected (some x) s e = elim (Bool-cases (text_eq (text "core/lib") x)) [
  | inl t ↦ subst IsSelection (ok_injective (rw t at e)) lib_good
  | inr t ↦ cc (rw t at e)
]

two_files : (p : Text) → exists machine p ≡ true → (p ≡ app_path) ⊎ (p ≡ lib_path)
unfolding machine files
two_files p h = elim (Bool-cases (text_eq p app_path)) [
  | inl t ↦ inl ((text_eq_iff p app_path).0 t)
  | inr t ↦ elim (Bool-cases (text_eq p lib_path)) [
    | inl u ↦ inr ((text_eq_iff p lib_path).0 u)
    | inr u ↦ cc (rw (t, u) at h)
  ]
]

file_selected :
    (p : Text) (expected : Option Text) (s : ManifestSelection)
    → exists machine p ≡ true
    → select_package_manifest_from_root app_resolver p (local_origin SourceKind.path) expected
      ≡ ok s
    → IsSelection s
file_selected p expected s there e = elim (two_files p there) [
  | inl at ↦ app_selected expected s (rw at at e)
  | inr at ↦ lib_selected expected s (rw at at e)
]

path_selected :
    (package_dir : Text) (origin : SourceOrigin) (dependency : Dependency) (s : ManifestSelection)
    → Local origin
    → resolve_path_dependency app_resolver package_dir origin dependency ≡ ok s
    → IsSelection s
unfolding resolve_path_dependency
path_selected package_dir origin dependency s local e =
    let (there, later) =
      require-eq-ok
        (exists machine (
          canonical_absolute_path machine
            (slash (slash package_dir dependency.source) (text "pafio.toml"))))
        _ _ _ e in
    file_selected _ dependency.pkg s there (rw local at later)

git_selected :
    (package_dir : Text) (dependency : Dependency) (s : ManifestSelection)
    → resolve_git_dependency app_resolver package_dir dependency ≢ ok s
unfolding resolve_git_dependency machine
git_selected package_dir dependency s e =
    let (rev, _, k) = >>=-eq-ok (value_of dependency.rev) _ e in cc

-- the client has nothing, and the memo stays empty
registry_selected :
    (dependency : Dependency) (t : ManifestSelection × Materialized)
    → resolve_registry_dependency app_resolver dependency [] ≢ ok t
unfolding resolve_registry_dependency machine materialize_registry
registry_selected dependency t e =
    let (_, e₁) = require-eq-ok (is_some dependency.pkg) _ _ _ e in
    let (_, e₂) = require-eq-ok (is_some dependency.version) _ _ _ e₁ in cc

abbrev Empty : Materialized → Type 0
Empty memo = memo ≡ []

selects_among : SelectsAmong app_resolver Local Empty sources
unfolding select_dependency
selects_among node dependency st s st' local empty e = by_kind dependency.source_kind e
  where
    by_kind :
        (kind : DependencySourceKind)
        → select_by app_resolver kind node dependency st ≡ ok (s, st')
        → Local s.origin
          × Empty st'.materialized_registry
          × IsAmong app_resolver sources s.manifest_path s.origin
    by_kind path k =
        let (t, found, last) =
          >>=-eq-ok (resolve_path_dependency app_resolver node.package_dir node.origin dependency) _
            k in
        let (a, b) = path_selected node.package_dir node.origin dependency t local found in
        subst
          (λ u.
            Local u.0.origin
            × Empty u.1.materialized_registry
            × IsAmong app_resolver sources u.0.manifest_path u.0.origin)
          (ok_injective last) (a, empty, b)
    by_kind git k =
        let (t, found, _) =
          >>=-eq-ok (resolve_git_dependency app_resolver node.package_dir dependency) _ k in
        absurd (git_selected node.package_dir dependency t found)
    by_kind registry k =
        let (t, found, _) =
          >>=-eq-ok (resolve_registry_dependency app_resolver dependency st.materialized_registry) _
            k in
        absurd (registry_selected dependency t (rw empty at found))

app_made :
    make_resolver machine (text "pafio.toml") false false ≡ ok (app_resolver, app_selection ∷ [])
unfolding machine load_manifest require_table parse_package require_string parse_build_config
    parse_lib parse_bins parse_targets parse_target validate_contained_relative_path
    is_contained_relative_path is_absolute components parse_tests parse_dependencies map_result
    parse_dependency is_digit is_exact_semver is_git_commit_id is_lower_hex is_lower_or_digit
    is_name_byte is_package_name regex_match require_exact_semver require_git_commit_id
    require_package_name url_has_userinfo parse_git_dependency parse_path_dependency
    parse_registry_dependency parse_source parse_workspace read_manifest require_string_array
    is_non_empty_relative_path is_registry_root_url require_no_url_userinfo validate_registry_root
    validate_relative_path each before behind_text drop_text has_byte split_lines starts_with
    text_eq make_resolver load_locked_registry_hints build_root_seeds member_seeds member_seed
    unique_seeds resolve_seeds resolve_single_version_graph resolve_node visit_source visit_named
    visit_new enter_node leave_node unique make_node resolve_dependencies select_dependency
    load_document match_member match_members select_package_manifest_from_root
    resolve_path_dependency resolve_git_dependency resolve_registry_dependency
    canonical_absolute_path build_source_fingerprint build_lock_id collect_dependencies
    path_is_within snapshot_relative_key lexically_normal slash parent_path last_is sort_by text_ltb
app_made = refl

finite :
    (r : Resolver) (seeds : List ManifestSelection)
    → make_resolver machine (text "pafio.toml") false false ≡ ok (r, seeds)
    → SelectsAmong r Local Empty sources × SeedsAmong r Local sources seeds
finite r seeds e =
    subst (λ t. SelectsAmong t.0 Local Empty sources × SeedsAmong t.0 Local sources t.1)
      (ok_injective (sym app_made ∙ e)) (selects_among, (app_good, tt))

resolve_single_version_graph-returns_example :
    resolve_single_version_graph machine 3 (text "pafio.toml") false false ≢ out_of_fuel
resolve_single_version_graph-returns_example =
    resolve_single_version_graph-returns machine 3 (text "pafio.toml") false false Local Empty
      sources refl finite (omega arith)
