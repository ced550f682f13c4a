-- ===== src/Plan/Entry.antt =====
-- CompilePlan.cpp: the package and the target that a plan is made for.
pub mod Root
pub mod Chosen
use pafio_nightly.Prelude.{
  Bool, true, false, not, ◌&&◌, ◌||◌, Option, none, some, List, [], ◌∷◌, if◌then◌else◌, Text, text,
  text_eq, Result, ok, err, plan, require, map_result, ◌>>=◌, ◌>>◌,
}
use pafio_nightly.Prelude.Sort.{sort_by}
use pafio_nightly.FilePath.{slash}
use pafio_nightly.Manifest.{LibTarget, BinTarget, TestTarget}
use pafio_nightly.Manifest.Parse.{is_some}
use pafio_nightly.Resolve.{Machine, canonical_absolute_path, exists}
use pafio_nightly.Resolve.Graph.{Node}
use pafio_nightly.Resolve.Roots.{ResolvedGraphResult, node_id}
use pafio_nightly.Plan.Order.{require_package_by_id}

-- the fields of a request that choose the entry and the profile
pub record BuildPlanRequest : Type 0 where
  pub intent : Text
  pub package_name : Option Text
  pub bin_name : Option Text
  pub test_name : Option Text
  pub select_lib : Bool
  pub profile : Text

unfoldable pub collect_root_packages : ResolvedGraphResult → Result (List Node)
collect_root_packages graph = do
  roots ← map_result (require_package_by_id graph.packages) graph.root_ids
  ok (sort_by node_id roots)

unfoldable pub first_named : Text → List Node → Result Node
first_named name [] = err plan "selected package is not a root package of the active manifest"
first_named name (p ∷ rest) =
    let later = first_named name rest in if text_eq p.pkg.name name then ok p else later

-- the root of the manifest that is active, or the one root that there is
unfoldable pub active_root : Text → Result Node → List Node → Result Node
active_root manifest_path otherwise [] = otherwise
active_root manifest_path otherwise (p ∷ rest) =
    let later = active_root manifest_path otherwise rest in
    if text_eq p.manifest_path manifest_path then ok p else later

abbrev pub only_root : List Node → Result Node
only_root (p ∷ []) = ok p
only_root roots = err plan "workspace build is ambiguous"

abbrev is_filled : List Node → Bool
is_filled [] = false
is_filled (p ∷ rest) = true

abbrev pub choose_root : Option Text → Text → List Node → Result Node
choose_root (some name) manifest_path roots = first_named name roots
choose_root none manifest_path roots = active_root manifest_path (only_root roots) roots

unfoldable pub resolve_entry_package : BuildPlanRequest → ResolvedGraphResult → Result Node
resolve_entry_package request graph = do
  roots ← collect_root_packages graph
  require (is_filled roots) plan "compile-plan generation requires at least one root package"
  choose_root request.package_name graph.manifest_path roots

pub record SelectedTarget : Type 0 where
  pub pkg : Node
  pub kind : Text
  pub name : Text
  pub file : Text

module _ (machine : Machine) (is_directory : Text → Bool) where
  unfoldable pub absolute_target_path : Node → Text → Text
  absolute_target_path p relative_path =
      canonical_absolute_path machine (slash p.package_dir relative_path)

  unfoldable pub require_existing_source_file : Text → Result (Unit {0})
  require_existing_source_file path = do
    require (exists machine path || is_directory path) plan "source file not found"
    require (exists machine path) plan "source path is not a file"

  -- a target whose file is there
  unfoldable pub target_at : Node → Text → Text → Text → Result SelectedTarget
  target_at p kind name relative_path = do
    require_existing_source_file (absolute_target_path p relative_path)
    ok (record { pkg = p; kind = kind; name = name; file = absolute_target_path p relative_path })

  abbrev pub lib_target : Node → LibTarget → Result SelectedTarget
  lib_target p lib = target_at p (text "lib") p.pkg.name lib.path

  abbrev pub bin_target : Node → BinTarget → Result SelectedTarget
  bin_target p bin = target_at p (text "bin") bin.name bin.path

  abbrev pub test_target : Node → TestTarget → Result SelectedTarget
  test_target p test = target_at p (text "test") test.name test.path

  abbrev pub declared_lib : Node → Option LibTarget → Result SelectedTarget
  declared_lib p none = err plan "selected package does not define [lib]"
  declared_lib p (some lib) = lib_target p lib

  unfoldable pub selected_lib : Text → Node → Result SelectedTarget
  selected_lib intent p = do
    require (not (text_eq intent (text "run"))) plan "run does not accept --lib"
    require (not (text_eq intent (text "test"))) plan "test does not accept --lib"
    declared_lib p p.pkg.lib

  unfoldable pub selected_bin : Node → Text → List BinTarget → Result SelectedTarget
  selected_bin p name [] = err plan "selected package does not define [[bin]].name"
  selected_bin p name (bin ∷ rest) =
      let later = selected_bin p name rest in
      if text_eq bin.name name then bin_target p bin else later

  unfoldable pub selected_test : Node → Text → List TestTarget → Result SelectedTarget
  selected_test p name [] = err plan "selected package does not define [[test]].name"
  selected_test p name (test ∷ rest) =
      let later = selected_test p name rest in
      if text_eq test.name name then test_target p test else later

  abbrev pub only_test : Node → List TestTarget → Result SelectedTarget
  only_test p (test ∷ []) = test_target p test
  only_test p [] = err plan "selected package does not define any [[test]] target"
  only_test p tests = err plan "test target is ambiguous"

  abbrev pub only_bin : Node → List BinTarget → Result SelectedTarget
  only_bin p (bin ∷ []) = bin_target p bin
  only_bin p [] = err plan "selected package does not define any [[bin]] target"
  only_bin p bins = err plan "run target is ambiguous"

  -- the library of a package with no binary, its one binary without a library, and to check its
  -- one test without either
  abbrev pub implied_target :
      Bool → Node → Option LibTarget → List BinTarget → List TestTarget → Result SelectedTarget
  implied_target is_check p (some lib) [] tests = lib_target p lib
  implied_target is_check p none (bin ∷ []) tests = bin_target p bin
  implied_target true p none [] (test ∷ []) = test_target p test
  implied_target _ p _ _ _ = err plan "target is ambiguous"

  -- no target is named
  unfoldable pub default_target : Text → Node → Result SelectedTarget
  default_target intent p =
      if text_eq intent (text "test")
      then only_test p p.pkg.tests
      else if text_eq intent (text "run")
      then only_bin p p.pkg.bins
      else implied_target (text_eq intent (text "check")) p p.pkg.lib p.pkg.bins p.pkg.tests

  abbrev pub named_target : Text → Option Text → Option Text → Node → Result SelectedTarget
  named_target intent (some name) test_name p = selected_bin p name p.pkg.bins
  named_target intent none (some name) p = selected_test p name p.pkg.tests
  named_target intent none none p = default_target intent p

  unfoldable pub resolve_entry_target : BuildPlanRequest → Node → Result SelectedTarget
  resolve_entry_target request p = do
    require (not (request.select_lib && is_some request.bin_name)) plan
        "cannot combine --lib and --bin"
    require (not (request.select_lib && is_some request.test_name)) plan
        "cannot combine --lib and --test"
    require (not (is_some request.bin_name && is_some request.test_name)) plan
        "cannot combine --bin and --test"
    elim request.select_lib [
      | true ↦ selected_lib request.intent p
      | false ↦ named_target request.intent request.bin_name request.test_name p
    ]
