-- ===== src/Workflow/Resolution.antt =====
-- PafioResolve/ResolutionContract.cpp: the document that a resolved graph is recorded as.
use pafio_nightly.Prelude.{
  Bool, false, not, ◌||◌, Option, none, some, List, [], ◌∷◌, map, if◌then◌else◌, Text, text,
  text_eq, ends_with, Result, ok, err, resolution, require, each, map_result, ◌>>=◌, ◌>>◌,
}
use pafio_nightly.Prelude.Sort.{sort_by}
use pafio_nightly.FilePath.{is_absolute, lexically_normal}
use pafio_nightly.Lockfile.{itself}
use pafio_nightly.Manifest.Parse.{contains_text}
use pafio_nightly.Registry.Paths.{is_registry_sha256_digest}
use pafio_nightly.Resolve.{source_kind_string}
use pafio_nightly.Resolve.Graph.{Node, ResolvedDependencyAlias}
use pafio_nightly.Resolve.Roots.{ResolvedGraphResult, node_id}

pub record PackageValue : Type 0 where
  pub content_sha256 : Option Text
  pub dependencies : List ResolvedDependencyAlias
  pub id : Text
  pub root : Text

-- the JSON document of schema version 1
pub record ResolutionDocument : Type 0 where
  pub lock_sha256 : Text
  pub manifest_sha256 : Text
  pub packages : List PackageValue
  pub roots : List Text

unfoldable pub validate_digest : Text → Result (Unit {0})
validate_digest digest =
    require (is_registry_sha256_digest digest) resolution "must be a lowercase sha256 hex digest"

unfoldable pub canonical_root : (Text → Bool) → Text → Result Text
canonical_root is_directory root = do
  require (is_absolute root) resolution "resolution package root must be absolute"
  require (is_directory (lexically_normal root)) resolution
      "resolution package root must be an existing directory"
  ok (lexically_normal root)

unfoldable pub check_ids : List Text → List Node → Result (Unit {0})
check_ids seen [] = ok tt
check_ids seen (node ∷ rest) = do
  require (not (text_eq node.id [])) resolution "resolution package id must not be empty"
  require (not (contains_text seen node.id)) resolution "resolution contains duplicate package id"
  check_ids (node.id ∷ seen) rest

-- `std::adjacent_find` finds something
unfoldable pub has_adjacent : List Text → Bool
has_adjacent [] = false
has_adjacent (a ∷ []) = false
has_adjacent (a ∷ b ∷ rest) = text_eq a b || has_adjacent (b ∷ rest)

abbrev pub require_known : List Text → Text → Result (Unit {0})
require_known ids id =
    require (contains_text ids id) resolution "resolution references unknown package id"

abbrev pub is_previous : Option Text → Text → Bool
is_previous none alias = false
is_previous (some previous) alias = text_eq alias previous

-- the loop over the aliases of a package, with the previous one
unfoldable pub check_aliases :
    List Text → Option Text → List ResolvedDependencyAlias → Result (Unit {0})
check_aliases ids previous [] = ok tt
check_aliases ids previous (dependency ∷ rest) = do
  require (not (text_eq dependency.alias [])) resolution
      "resolution dependency alias must not be empty"
  require (not (is_previous previous dependency.alias)) resolution
      "resolution contains duplicate dependency alias"
  require_known ids dependency.package_id
  check_aliases ids (some dependency.alias) rest

abbrev pub content_of_registry : Text → Option Text → Result (Option Text)
content_of_registry id none = err resolution "registry resolution package is missing content sha256"
content_of_registry id (some sha256) = do
  validate_digest sha256
  require (ends_with id (b'#' ∷ sha256)) resolution
      "registry resolution package id does not match content sha256"
  ok (some sha256)

abbrev pub content_of_mutable : Option Text → Result (Option Text)
content_of_mutable none = ok none
content_of_mutable (some sha256) =
    err resolution "mutable resolution package must not declare content sha256"

unfoldable pub content_sha256_of : Node → Result (Option Text)
content_sha256_of node =
    if text_eq (source_kind_string node.origin.kind) (text "registry")
    then content_of_registry node.id node.origin.registry_sha256
    else content_of_mutable node.origin.registry_sha256

abbrev pub alias_name : ResolvedDependencyAlias → Text
alias_name dependency = dependency.alias

unfoldable pub package_value : (Text → Bool) → List Text → Node → Result PackageValue
package_value is_directory ids node = do
  let aliases = sort_by alias_name node.dependency_aliases
  check_aliases ids none aliases
  content ← content_sha256_of node
  root ← canonical_root is_directory node.package_dir
  ok (record { content_sha256 = content; dependencies = aliases; id = node.id; root = root })

-- `SerializeResolutionCanonical`, up to the text of the JSON document
unfoldable pub resolution_document :
    (Text → Bool) → ResolvedGraphResult → Text → Text → Result ResolutionDocument
resolution_document is_directory graph manifest_sha256 lock_sha256 = do
  validate_digest manifest_sha256
  validate_digest lock_sha256
  check_ids [] graph.packages
  let roots = sort_by itself graph.root_ids
  require (not (has_adjacent roots)) resolution "resolution contains duplicate root package id"
  let ids = map node_id graph.packages
  each (require_known ids) roots
  packages ← map_result (package_value is_directory ids) (sort_by node_id graph.packages)
  ok (record {
    lock_sha256 = lock_sha256;
    manifest_sha256 = manifest_sha256;
    packages = packages;
    roots = roots;
  })
