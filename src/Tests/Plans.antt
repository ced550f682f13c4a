-- ===== src/Tests/Plans.antt =====
-- The order, the entry and the directories of plans on concrete inputs.
use pafio_nightly.Prelude.{
  true, false, none, some, List, [], ◌∷◌, map, text, Text, text_eq, text_ltb, cut, map_result, each,
  ok, err, fetch, plan, All, arith, ◌≡◌, ◌≢◌, refl, if◌then◌else◌,
}
use pafio_nightly.Prelude.Sort.{sort_by}
use pafio_nightly.Prelude.Runs.{back, thrown, out_of_fuel}
use pafio_nightly.FilePath.{components, is_absolute, last_is, lexically_normal, slash}
use pafio_nightly.Manifest.Parse.{contains_text}
use pafio_nightly.Resolve.{Machine, canonical_absolute_path}
use pafio_nightly.Resolve.Graph.{Node}
use pafio_nightly.Resolve.Roots.{ResolvedGraphResult}
use pafio_nightly.Plan.Order.{
  require_package_by_id, begin_visit, end_visit, visit_each, visit_unseen, visit_package,
  build_package_order,
}
use pafio_nightly.Plan.Order.Precede.{Precede, build_package_order-precedes}
use pafio_nightly.Plan.Order.Fuel.{build_package_order-returns}
use pafio_nightly.Plan.Entry.{
  BuildPlanRequest, SelectedTarget, collect_root_packages, active_root, resolve_entry_package,
  absolute_target_path, require_existing_source_file, target_at, selected_lib, selected_bin,
  selected_test, default_target, resolve_entry_target,
}
use pafio_nightly.Plan.Entry.Root.{IsRoot, Wanted, resolve_entry_package-Wanted}
use pafio_nightly.Plan.Entry.Chosen.{IsTarget, Asked, resolve_entry_target-Asked}
use pafio_nightly.Plan.Checks.{
  PlanSelection, validate_intent, validate_uniform_build_config, require_uniform, resolve_profile,
  select_plan,
}
use pafio_nightly.Plan.Checks.Uniform.{IsSound, select_plan-IsSound}
use pafio_nightly.Plan.Invocations.{
  DirectoryEntry, decimal_part, parse_invocation_dir_name, insert_dir, newest_first,
  collect_invocations, prune_invocation_roots,
}
use pafio_nightly.Plan.Invocations.Names.{
  IsName, parse_invocation_dir_name-IsName, parse_invocation_dir_name-reads,
}
use pafio_nightly.Plan.Invocations.Retained.{Retains, prune_invocation_roots-Retains}
use pafio_nightly.Tests.SampleToml.{no_fields, two_documents}
use pafio_nightly.Tests.Graphs.{app_id, lib_id, app_node, lib_node, resolved}

resolved_order : build_package_order 3 resolved ≡ back (lib_id ∷ app_id ∷ [])
unfolding build_package_order visit_each visit_package visit_unseen require_package_by_id
    begin_visit end_visit sort_by text_eq text_ltb
resolved_order = refl

build_package_order-precedes_example :
    Precede (lib_node ∷ app_node ∷ []) [] (lib_id ∷ app_id ∷ [])
    × All
        (λ (p : Node). contains_text (lib_id ∷ app_id ∷ []) p.id ≡ true)
        (lib_node ∷ app_node ∷ [])
build_package_order-precedes_example =
    build_package_order-precedes 3 resolved (lib_id ∷ app_id ∷ []) resolved_order

-- two packages that depend on each other
abbrev cyclic : ResolvedGraphResult
cyclic = record resolved {
  packages = record lib_node { dependencies = app_id ∷ [] } ∷ app_node ∷ [];
}

cyclic_refused :
    build_package_order 3 cyclic ≡ thrown plan "compile-plan requires an acyclic package graph"
unfolding build_package_order visit_each visit_package visit_unseen require_package_by_id
    begin_visit end_visit sort_by text_eq text_ltb
cyclic_refused = refl

build_package_order-returns_example : build_package_order 3 cyclic ≢ out_of_fuel
build_package_order-returns_example = build_package_order-returns 3 cyclic (omega arith)

abbrev run_request : BuildPlanRequest
run_request = record {
  intent = text "run";
  package_name = none;
  bin_name = none;
  test_name = none;
  select_lib = false;
  profile = text "dev";
}

entry_found : resolve_entry_package run_request resolved ≡ ok app_node
unfolding resolve_entry_package collect_root_packages map_result require_package_by_id active_root
    sort_by text_eq text_ltb
entry_found = refl

resolve_entry_package-Wanted_example : IsRoot resolved app_node × Wanted none resolved app_node
resolve_entry_package-Wanted_example =
    resolve_entry_package-Wanted run_request resolved app_node entry_found

-- a package with one binary besides its library
abbrev with_main : Node
with_main = record app_node {
  pkg = record app_node.pkg {
    bins = record { name = text "main"; path = text "src/main.styio" } ∷ [];
  };
}

abbrev main_path : Text
main_path = text "/w/src/main.styio"

abbrev main_target : SelectedTarget
main_target = record { pkg = with_main; kind = text "bin"; name = text "main"; file = main_path }

abbrev on_disk : Machine
on_disk = record {
  library = two_documents no_fields no_fields;
  files = λ p. if text_eq p main_path then some (text "one") else none;
  current_path = text "/w";
  version = text "0.1";
  materialize_git = λ _ _. err fetch "no network";
  materialize_registry = λ _ _ _ _ _. err fetch "no network";
}

main_found : resolve_entry_target on_disk (λ p. false) run_request with_main ≡ ok main_target
unfolding resolve_entry_target default_target target_at require_existing_source_file
    absolute_target_path canonical_absolute_path lexically_normal slash components is_absolute
    last_is text_eq selected_lib selected_bin selected_test
main_found = refl

resolve_entry_target-Asked_example :
    IsTarget on_disk (λ p. false) with_main main_target
    × Asked (text "run") false none none main_target
resolve_entry_target-Asked_example =
    resolve_entry_target-Asked on_disk (λ p. false) run_request with_main main_target main_found

read_name : parse_invocation_dir_name (text "120-3") ≡ some (120, 3)
unfolding parse_invocation_dir_name decimal_part cut text_eq
read_name = refl

parse_invocation_dir_name-IsName_example : IsName (text "120-3") 120 3
parse_invocation_dir_name-IsName_example =
    parse_invocation_dir_name-IsName (text "120-3") 120 3 read_name

parse_invocation_dir_name-reads_example : parse_invocation_dir_name (text "0120-3") ≡ some (120, 3)
parse_invocation_dir_name-reads_example =
    parse_invocation_dir_name-reads (text "0120") (text "3") (λ e. cc) (λ e. cc) refl refl
      (omega arith) (omega arith)

abbrev invocation : Text → DirectoryEntry
invocation name = record { name = name; is_directory = true }

abbrev listing : List DirectoryEntry
listing = map invocation (
    text "9-0"
    ∷ text "10-0"
    ∷ text "10-1"
    ∷ text "11-0"
    ∷ text "12-0"
    ∷ text "13-0"
    ∷ text "14-0"
    ∷ text "15-0"
    ∷ text "16-0"
    ∷ text "99-0"
    ∷ text "notes"
    ∷ [])

oldest_removed :
    prune_invocation_roots (text "/c") (text "/c/99-0") [] listing false ≡ text "/c/9-0" ∷ []
unfolding prune_invocation_roots collect_invocations newest_first insert_dir
    parse_invocation_dir_name decimal_part cut text_eq slash is_absolute last_is
oldest_removed = refl

prune_invocation_roots-Retains_example :
    Retains
      (text "/c")
      (text "/c/99-0")
      []
      listing
      false
      (prune_invocation_roots (text "/c") (text "/c/99-0") [] listing false)
prune_invocation_roots-Retains_example =
    prune_invocation_roots-Retains (text "/c") (text "/c/99-0") [] listing false

-- the graph of the package with the binary
abbrev main_graph : ResolvedGraphResult
main_graph = record resolved { packages = lib_node ∷ with_main ∷ [] }

abbrev selection : PlanSelection
selection = record {
  entry_package = with_main;
  entry_target = main_target;
  profile = record { name = text "dev"; opt_level = 0; debug = true; lto = false };
  package_order = lib_id ∷ app_id ∷ [];
}

plan_selected : select_plan on_disk (λ p. false) 3 run_request main_graph ≡ back selection
unfolding select_plan validate_intent validate_uniform_build_config require_uniform each
    resolve_profile resolve_entry_package collect_root_packages map_result require_package_by_id
    active_root sort_by text_eq text_ltb resolve_entry_target default_target target_at
    require_existing_source_file absolute_target_path canonical_absolute_path lexically_normal slash
    components is_absolute last_is selected_lib selected_bin selected_test build_package_order
    visit_each visit_package visit_unseen begin_visit end_visit
plan_selected = refl

select_plan-IsSound_example : IsSound on_disk (λ p. false) main_graph selection
select_plan-IsSound_example =
    select_plan-IsSound on_disk (λ p. false) 3 run_request main_graph selection plan_selected
