-- ===== src/Workflow/Edit.antt =====
-- Dependencies.cpp: the requests, the search for a dependency, and the commit of an edit.
use pafio_nightly.Prelude.{
  ℕ, suc, String, Bool, false, Option, none, some, List, [], ◌∷◌, ◌++◌, length, if◌then◌else◌, Text,
  text, text_eq, ErrorKind, Result, ok, err, validation,
}
use pafio_nightly.Prelude.Runs.{Run, back, thrown, out_of_fuel, follow}
use pafio_nightly.FilePath.{slash, parent_path}
use pafio_nightly.Manifest.{Dependency, PackageConfig, ManifestDocument, Files}
use pafio_nightly.Manifest.Parse.{get_or}
use pafio_nightly.Manifest.Serialize.{serialize_manifest_canonical}
use pafio_nightly.Lockfile.{LockfileDocument, serialize_lockfile_canonical}
use pafio_nightly.Resolve.{Machine}
use pafio_nightly.Resolve.Roots.{resolve_single_version_graph}
use pafio_nightly.Workflow.Effects.{
  Workshop, Effect, ◌>>=◌, ◌>>◌, pure_run, over, write_file, remove_file,
}

pub data DependencySection : Type 0 where
  dependencies dev_dependencies : DependencySection

pub record AddDependencyRequest : Type 0 where
  pub manifest_path : Text
  pub package_name : Text
  pub alias : Option Text
  pub section : DependencySection
  pub use_git : Bool
  pub use_registry : Bool
  pub source : Text
  pub rev : Option Text
  pub version : Option Text

pub record RemoveDependencyRequest : Type 0 where
  pub manifest_path : Text
  pub target : Text
  pub section : Option DependencySection

pub record DependencyCommandResult : Type 0 where
  pub manifest_path : Text
  pub lockfile_path : Text
  pub alias : Text
  pub package_name : Text
  pub section : DependencySection
  pub package_count : ℕ

pub record LockGenerationResult : Type 0 where
  pub manifest_path : Text
  pub lockfile_path : Text
  pub root_ids : List Text
  pub lockfile : LockfileDocument

abbrev pub lock_path : Text → Text
lock_path manifest_path = slash (parent_path manifest_path) (text "pafio.lock")

abbrev pub select_section : PackageConfig → DependencySection → List Dependency
select_section p dependencies = p.dependencies
select_section p dev_dependencies = p.dev_dependencies

abbrev pub set_section : PackageConfig → DependencySection → List Dependency → PackageConfig
set_section p dependencies changed = record p { dependencies = changed }
set_section p dev_dependencies changed = record p { dev_dependencies = changed }

unfoldable pub dependency_section_name : DependencySection → Text
dependency_section_name dev_dependencies = text "dev-dependencies"
dependency_section_name dependencies = text "dependencies"

abbrev pub ensure_package_manifest : ManifestDocument → Result PackageConfig
ensure_package_manifest manifest = elim manifest.pkg [
  | none ↦ err validation "requires a manifest with [package]"
  | some p ↦ ok p
]

abbrev pub is_package : Text → Option Text → Bool
is_package target none = false
is_package target (some name) = text_eq name target

unfoldable pub dependency_matches_target : Dependency → Text → Bool → Bool
dependency_matches_target dependency target treat_as_package_name =
    if treat_as_package_name
    then is_package target dependency.pkg
    else text_eq dependency.alias target

pub record MatchLocation : Type 0 where
  pub section : DependencySection
  pub index : ℕ
  pub alias : Text
  pub package_name : Text

-- `collect`, from an index on
unfoldable pub collect_matches :
    DependencySection → Text → Bool → ℕ → List Dependency → List MatchLocation
collect_matches section target by_package index [] = []
collect_matches section target by_package index (dependency ∷ rest) =
    let later = collect_matches section target by_package (suc index) rest in
    if dependency_matches_target dependency target by_package
    then record {
      section = section;
      index = index;
      alias = dependency.alias;
      package_name = get_or dependency.pkg [];
    }
      ∷ later
    else later

abbrev pub collect_section : PackageConfig → Text → Bool → DependencySection → List MatchLocation
collect_section p target by_package section =
    collect_matches section target by_package 0 (select_section p section)

unfoldable pub find_matches :
    PackageConfig → Text → Option DependencySection → Bool → List MatchLocation
find_matches p target (some section) by_package = collect_section p target by_package section
find_matches p target none by_package =
    collect_section p target by_package dependencies
    ++ collect_section p target by_package dev_dependencies

unfoldable pub resolve_single_version_lockfile : Machine → ℕ → Text → Run LockGenerationResult
resolve_single_version_lockfile machine fuel manifest_path =
    follow (resolve_single_version_graph machine fuel manifest_path false false) λ graph.
      back (record {
        manifest_path = graph.manifest_path;
        lockfile_path = graph.lockfile_path;
        root_ids = graph.root_ids;
        lockfile = graph.lockfile;
      })

module _ (W : Workshop) where
  open W use {machine}

  unfoldable pub restore_lockfile : Text → Option Text → Effect (Unit {0})
  restore_lockfile lockfile_path (some original) = write_file W lockfile_path original
  restore_lockfile lockfile_path none = remove_file W lockfile_path

  abbrev pub command_result :
      LockGenerationResult → Text → Text → DependencySection → DependencyCommandResult
  command_result generated alias package_name section = record {
    manifest_path = generated.manifest_path;
    lockfile_path = generated.lockfile_path;
    alias = alias;
    package_name = package_name;
    section = section;
    package_count = length generated.lockfile.packages;
  }

  -- the body of the `try`
  unfoldable pub write_edit :
      ℕ → Text → ManifestDocument → Text → Text → DependencySection → Effect DependencyCommandResult
  write_edit fuel manifest_path manifest alias package_name section = do
    write_file W manifest_path (serialize_manifest_canonical manifest)
    generated ← λ files. (resolve_single_version_lockfile (over W files) fuel manifest_path, files)
    write_file W generated.lockfile_path (serialize_lockfile_canonical generated.lockfile)
    pure_run (back (command_result generated alias package_name section))

  -- `catch (...)`: both files are put back, and the exception goes on
  unfoldable pub put_back : {A : Type 0} → Text → Text → Option Text → ErrorKind → String → Effect A
  put_back manifest_path original_manifest original_lock kind message = do
    write_file W manifest_path original_manifest
    restore_lockfile (lock_path manifest_path) original_lock
    pure_run (thrown kind message)

  abbrev pub catching :
      {A : Type 0} → (ErrorKind → String → Effect A) → Run A × Files → Run A × Files
  catching handler (back value, files) = (back value, files)
  catching handler (thrown kind message, files) = handler kind message files
  catching handler (out_of_fuel, files) = (out_of_fuel, files)

  unfoldable pub commit_manifest_edit :
      ℕ
      → Text
      → Text
      → Option Text
      → ManifestDocument
      → Text
      → Text
      → DependencySection
      → Effect DependencyCommandResult
  commit_manifest_edit fuel manifest_path original_manifest original_lock manifest alias
        package_name section files =
      catching (put_back manifest_path original_manifest original_lock)
        (write_edit fuel manifest_path manifest alias package_name section files)
