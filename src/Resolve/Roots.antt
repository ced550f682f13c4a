-- ===== src/Resolve/Roots.antt =====
-- Resolver.cpp: the construction of the resolver, and the graph from all roots of a workspace.
pub mod Lock
pub mod Fuel
use pafio_nightly.Prelude.{
  ℕ, zero, suc, String, Bool, true, false, not, ◌||◌, ◌&&◌, Option, none, some, List, [], ◌∷◌, ◌++◌,
  map, any, ◌==◌, if◌then◌else◌, Text, text, text_eq, Result, ok, err, ErrorKind, validation,
  workspace, require, ◌>>=◌, ◌>>◌,
}
use pafio_nightly.Prelude.Sort.{sort_by}
use pafio_nightly.Prelude.Runs.{Run, back, thrown, out_of_fuel, run, follow}
use pafio_nightly.FilePath.{slash, parent_path}
use pafio_nightly.Manifest.{PackageConfig, WorkspaceConfig, ManifestDocument}
use pafio_nightly.Manifest.Parse.{is_some, get_or, contains_text, load_manifest}
use pafio_nightly.Lockfile.{LockPackage, LockfileDocument, is_kind, itself, load_lockfile}
use pafio_nightly.Resolve.{
  SourceKind, SourceOrigin, ManifestSelection, Machine, local_origin, canonical_absolute_path,
  exists, source_kind_string, registry_lock_hint_key,
}
use pafio_nightly.Resolve.Select.{Resolver, find}
use pafio_nightly.Resolve.Graph.{
  Node, GraphState, ResolvedDependencyAlias, empty_graph, node_at, unique, resolve_node,
}

-- digests by key, and the keys that have had two digests
abbrev pub Hints : Type 0
Hints = List (Text × Text) × List Text

unfoldable pub erase_key : Text → List (Text × Text) → List (Text × Text)
unfolding text_eq
erase_key key [] = []
erase_key key ((k, d) ∷ rest) =
    let later = erase_key key rest in if text_eq k key then later else (k, d) ∷ later

abbrev add_hint : Text → Text → Hints → Hints
add_hint key sha256 (digests, ambiguous) = elim (find key digests) [
  | none ↦ ((key, sha256) ∷ digests, ambiguous)
  | some known ↦
      if text_eq known sha256
      then (digests, ambiguous)
      else (erase_key key digests, key ∷ ambiguous)
]

-- one round of the loop over the locked packages
unfoldable pub hint_step : LockPackage → Hints → Hints
unfolding erase_key registry_lock_hint_key
hint_step p hints =
    let key = registry_lock_hint_key (get_or p.registry []) p.name p.version in
    if not (is_kind p.source_kind "registry") || not (is_some p.registry) || not (is_some p.sha256)
    then hints
    else if contains_text hints.1 key
    then hints
    else add_hint key (get_or p.sha256 []) hints

unfoldable pub collect_hints : List LockPackage → Hints → Hints
unfolding hint_step
collect_hints [] hints = hints
collect_hints (p ∷ rest) hints = collect_hints rest (hint_step p hints)

abbrev is_validation : ErrorKind → Bool
is_validation validation = true
is_validation _ = false

-- a lockfile that is invalid counts only where it is asked for
unfoldable pub load_locked_registry_hints : Machine → Text → Bool → Result (List (Text × Text))
load_locked_registry_hints machine root_manifest_path locked =
    let lockfile_path = slash (parent_path root_manifest_path) (text "pafio.lock") in
    if not (exists machine lockfile_path)
    then ok []
    else elim (load_lockfile machine.library machine.files lockfile_path) [
      | ok lockfile ↦ ok (collect_hints lockfile.packages ([], [])).0
      | err kind message ↦ if is_validation kind && not locked then ok [] else err kind message
    ]

abbrev root_seed : Text → ManifestSelection
root_seed manifest_path = record {
  manifest_path = manifest_path;
  origin = local_origin SourceKind.workspace;
}

unfoldable pub member_seed : Machine → Text → List Text → Text → Result ManifestSelection
member_seed machine root_dir excluded member = do
  require (not (contains_text excluded member)) workspace "workspace member is also excluded"
  let manifest_path =
      canonical_absolute_path machine (slash (slash root_dir member) (text "pafio.toml"))
  require (exists machine manifest_path) workspace "workspace member manifest not found"
  doc ← load_manifest machine.library machine.files manifest_path
  require (is_some doc.pkg) workspace "workspace member manifest must define [package]"
  ok (root_seed manifest_path)

unfoldable pub member_seeds :
    Machine → Text → List Text → List Text → Result (List ManifestSelection)
member_seeds machine root_dir excluded [] = ok []
member_seeds machine root_dir excluded (member ∷ rest) = do
  seed ← member_seed machine root_dir excluded member
  seeds ← member_seeds machine root_dir excluded rest
  ok (seed ∷ seeds)

-- `operator<` of paths compares name by name: a separator comes before every byte of a name
abbrev pub path_order : ManifestSelection → Text
path_order seed = map (λ c. if c == b'/' then 0 else c) seed.manifest_path

abbrev pub seed_cons : ManifestSelection → List ManifestSelection → List ManifestSelection
seed_cons a [] = a ∷ []
seed_cons a (b ∷ rest) = if text_eq a.manifest_path b.manifest_path then a ∷ rest else a ∷ b ∷ rest

unfoldable pub unique_seeds : List ManifestSelection → List ManifestSelection
unfolding text_eq
unique_seeds [] = []
unique_seeds (a ∷ rest) = seed_cons a (unique_seeds rest)

abbrev package_seeds : Text → Option PackageConfig → List ManifestSelection
package_seeds manifest_path none = []
package_seeds manifest_path (some p) = root_seed manifest_path ∷ []

abbrev workspace_seeds : Machine → Text → Option WorkspaceConfig → Result (List ManifestSelection)
workspace_seeds machine root_dir none = ok []
workspace_seeds machine root_dir (some w) =
    member_seeds machine root_dir w.exclude (sort_by itself w.members)

abbrev dir_of : Machine → ManifestSelection → Text
dir_of machine seed = canonical_absolute_path machine (parent_path seed.manifest_path)

-- the roots in order, and the directories of the packages of the workspace
unfoldable pub build_root_seeds :
    Machine → Text → ManifestDocument → Result (List ManifestSelection × List Text)
unfolding unique_seeds
build_root_seeds machine root_manifest_path root_manifest = do
  let own = package_seeds root_manifest_path root_manifest.pkg
  members ← workspace_seeds machine (parent_path root_manifest_path) root_manifest.workspace
  let dirs = map (dir_of machine) (own ++ members)
  elim root_manifest.workspace [
    | none ↦ ok (own, dirs)
    | some _ ↦ ok (unique_seeds (sort_by path_order (own ++ members)), dirs)
  ]

-- the constructor, with the options `offline` and `locked`
unfoldable pub make_resolver :
    Machine → Text → Bool → Bool → Result (Resolver × List ManifestSelection)
make_resolver machine manifest_path offline locked = do
  let root_manifest_path = canonical_absolute_path machine manifest_path
  root_manifest ← load_manifest machine.library machine.files root_manifest_path
  digests ← load_locked_registry_hints machine root_manifest_path locked
  roots ← build_root_seeds machine root_manifest_path root_manifest
  ok (
    record {
      machine = machine;
      root_manifest_path = root_manifest_path;
      root_manifest = root_manifest;
      offline = offline;
      locked = locked;
      top_level_workspace_dirs = roots.1;
      locked_registry_digests = digests;
    },
    roots.0,
  )

unfoldable pub resolve_seeds :
    Resolver → ℕ → List ManifestSelection → GraphState → Run (List Text × GraphState)
resolve_seeds r fuel [] st = back ([], st)
resolve_seeds r fuel (seed ∷ rest) st =
    follow (resolve_node r fuel seed.manifest_path seed.origin st) λ (index, st₁).
      follow (node_at st₁ index)
        λ node. follow (resolve_seeds r fuel rest st₁) λ (ids, st₂). back (node.id ∷ ids, st₂)

abbrev pub node_id : Node → Text
node_id n = n.id

abbrev pub lock_package : Node → LockPackage
lock_package n = record {
  id = n.id;
  name = n.pkg.name;
  version = n.pkg.version;
  source_kind = source_kind_string n.origin.kind;
  git = n.origin.git_source;
  rev = n.origin.git_rev;
  registry = n.origin.registry_root;
  sha256 = n.origin.registry_sha256;
  dependencies = n.dependencies;
}

-- The resolved packages are the nodes in order of their ids, with the source kind as a word; the
-- nodes stand for them here.
pub record ResolvedGraphResult : Type 0 where
  pub manifest_path : Text
  pub lockfile_path : Text
  pub root_ids : List Text
  pub packages : List Node
  pub lockfile : LockfileDocument

abbrev pub graph_result : Resolver → List Text → List Node → ResolvedGraphResult
graph_result r root_ids packages = record {
  manifest_path = r.root_manifest_path;
  lockfile_path = slash (parent_path r.root_manifest_path) (text "pafio.lock");
  root_ids = root_ids;
  packages = packages;
  lockfile = record {
    generated_by = text "pafio " ++ r.machine.version;
    resolver = text "single-version-v1";
    packages = map lock_package packages;
  };
}

-- `ResolveSingleVersionGraph`
unfoldable pub resolve_single_version_graph :
    Machine → ℕ → Text → Bool → Bool → Run ResolvedGraphResult
resolve_single_version_graph machine fuel manifest_path offline locked =
    follow (run (make_resolver machine manifest_path offline locked)) λ (r, seeds).
      follow (resolve_seeds r fuel seeds empty_graph)
        λ (ids, st). back (graph_result r (unique (sort_by itself ids)) (sort_by node_id st.nodes))
