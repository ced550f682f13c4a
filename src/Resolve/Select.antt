-- ===== src/Resolve/Select.antt =====
-- Resolver.cpp: from a dependency to the manifest that it selects.
use pafio_nightly.Prelude.{
  Bool, true, false, not, ◌||◌, ◌&&◌, Option, none, some, List, [], ◌∷◌, ◌++◌, if◌then◌else◌, Text,
  text, text_eq, Result, ok, err, resolution, require, ◌>>=◌, ◌>>◌,
}
use pafio_nightly.Prelude.Sort.{sort_by}
use pafio_nightly.FilePath.{slash, parent_path}
use pafio_nightly.Manifest.{Dependency, PackageConfig, WorkspaceConfig, ManifestDocument}
use pafio_nightly.Manifest.Parse.{is_some, get_or, contains_text, load_manifest}
use pafio_nightly.Lockfile.{itself}
use pafio_nightly.Resolve.{
  SourceKind, workspace, path, git, registry, SourceOrigin, ManifestSelection, Machine,
  RegistryMaterializationResult, local_origin, canonical_absolute_path, exists, value_of,
  path_is_within, normalize_git_source, registry_lock_hint_key,
}

-- What the resolver knows before it visits the first node.
pub record Resolver : Type 1 where
  pub machine : Machine
  pub root_manifest_path : Text
  pub root_manifest : ManifestDocument
  pub offline : Bool
  pub locked : Bool
  pub top_level_workspace_dirs : List Text
  pub locked_registry_digests : List (Text × Text)

-- `find` in a map from texts
abbrev pub find {ℓ} : {A : Type ℓ} → Text → List (Text × A) → Option A
find key [] = none
find key ((k, a) ∷ rest) = let later = find key rest in if text_eq k key then some a else later

unfoldable pub load_document : Resolver → Text → Result ManifestDocument
load_document r manifest_path =
    if text_eq manifest_path r.root_manifest_path
    then ok r.root_manifest
    else load_manifest r.machine.library r.machine.files manifest_path

abbrev escapes_snapshot : Machine → SourceOrigin → Text → Bool
escapes_snapshot machine origin manifest_path = elim origin.snapshot_root [
  | none ↦ false
  | some root ↦ not (path_is_within machine manifest_path root)
]

-- the manifest of a member, if it is the expected package
unfoldable pub match_member : Machine → SourceOrigin → Text → Text → Result (List Text)
match_member machine origin expected member_manifest = do
  require (not (escapes_snapshot machine origin member_manifest)) resolution
      "workspace member escapes its materialized source snapshot"
  require (exists machine member_manifest) resolution
      "dependency workspace member manifest not found"
  member_doc ← load_manifest machine.library machine.files member_manifest
  elim member_doc.pkg [
    | none ↦ err resolution "dependency workspace member manifest must define [package]"
    | some p ↦ ok (if text_eq p.name expected then member_manifest ∷ [] else [])
  ]

-- the loop over the sorted members
unfoldable pub match_members :
    Machine → SourceOrigin → Text → Text → List Text → List Text → Result (List Text)
match_members machine origin root_dir expected excluded [] = ok []
match_members machine origin root_dir expected excluded (member ∷ rest) = do
  here ← elim (contains_text excluded member) [
    | true ↦ ok []
    | false ↦
        match_member machine origin expected
          (canonical_absolute_path machine (slash (slash root_dir member) (text "pafio.toml")))
  ]
  later ← match_members machine origin root_dir expected excluded rest
  ok (here ++ later)

abbrev match_root : Text → Option PackageConfig → Option Text → List Text
match_root manifest_path none expected = []
match_root manifest_path (some p) none = manifest_path ∷ []
match_root manifest_path (some p) (some expected) =
    if text_eq p.name expected then manifest_path ∷ [] else []

abbrev match_workspace :
    Machine → SourceOrigin → Text → Bool → Option WorkspaceConfig → Option Text → Result (List Text)
match_workspace machine origin manifest_path has_package none expected = ok []
match_workspace machine origin manifest_path has_package (some w) none =
    if not has_package
    then err resolution "dependency target is a workspace root and requires an explicit package"
    else ok []
match_workspace machine origin manifest_path has_package (some w) (some expected) =
    match_members machine origin (parent_path manifest_path) expected w.exclude
      (sort_by itself w.members)

abbrev one_match : List Text → Result Text
one_match [] = err resolution "dependency target package was not found"
one_match (m ∷ []) = ok m
one_match (m ∷ n ∷ rest) = err resolution "dependency target package is ambiguous"

-- a package of the tree is a workspace member or a path package by where it lies
abbrev selected_origin : Resolver → SourceOrigin → SourceKind → Text → SourceOrigin
selected_origin r origin git manifest_path = origin
selected_origin r origin registry manifest_path = origin
selected_origin r origin kind manifest_path = record origin {
  kind =
      if contains_text r.top_level_workspace_dirs
        (canonical_absolute_path r.machine (parent_path manifest_path))
      then workspace
      else path;
}

unfoldable pub select_package_manifest_from_root :
    Resolver → Text → SourceOrigin → Option Text → Result ManifestSelection
select_package_manifest_from_root r root_manifest_path origin expected = do
  doc ← load_document r root_manifest_path
  let at_root = match_root root_manifest_path doc.pkg expected
  members ←
      match_workspace r.machine origin root_manifest_path (is_some doc.pkg) doc.workspace expected
  found ← one_match (at_root ++ members)
  ok (record { manifest_path = found; origin = selected_origin r origin origin.kind found })

-- the directory and the origin of the package that declares the dependency
unfoldable pub resolve_path_dependency :
    Resolver → Text → SourceOrigin → Dependency → Result ManifestSelection
resolve_path_dependency r package_dir origin dependency = do
  let machine = r.machine
  let dependency_root =
      canonical_absolute_path machine
        (slash (slash package_dir dependency.source) (text "pafio.toml"))
  require (exists machine dependency_root) resolution "path dependency manifest not found"
  elim origin.snapshot_root [
    | none ↦ select_package_manifest_from_root r dependency_root (local_origin path) dependency.pkg
    | some root ↦ do
      require
          (path_is_within machine (parent_path dependency_root) root
            || text_eq (canonical_absolute_path machine (parent_path dependency_root))
                (canonical_absolute_path machine root))
          resolution "path dependency escapes its materialized source snapshot"
      select_package_manifest_from_root r dependency_root origin dependency.pkg
  ]

unfoldable pub resolve_git_dependency : Resolver → Text → Dependency → Result ManifestSelection
resolve_git_dependency r package_dir dependency = do
  rev ← value_of dependency.rev
  git_origin ←
      r.machine.materialize_git (normalize_git_source r.machine dependency.source package_dir) rev
  snapshot_root ← value_of git_origin.snapshot_root
  let root_manifest = slash snapshot_root (text "pafio.toml")
  require (exists r.machine root_manifest) resolution
      "git dependency snapshot does not contain pafio.toml"
  select_package_manifest_from_root r root_manifest git_origin dependency.pkg

abbrev pub Materialized : Type 0
Materialized = List (Text × RegistryMaterializationResult)

abbrev flag : Bool → Text
flag true = text "1"
flag false = text "0"

unfoldable pub materialize_key : Text → Text → Text → Bool → Option Text → Text
materialize_key source name version offline locked_sha256 =
    source
    ++ (31 ∷ (name ++ (31 ∷ (version ++ (31 ∷ (flag offline ++ (31 ∷ get_or locked_sha256 [])))))))

-- the memo of what has been materialized, and the call of the client where it has nothing
unfoldable pub materialize_registry :
    Resolver
    → Text
    → Text
    → Text
    → Option Text
    → Materialized
    → Result (RegistryMaterializationResult × Materialized)
materialize_registry r source name version locked_sha256 memo =
    let key = materialize_key source name version r.offline locked_sha256 in
    elim (find key memo) [
      | some m ↦ ok (m, memo)
      | none ↦ do
        m ← r.machine.materialize_registry source name version r.offline locked_sha256
        ok (m, (key, m) ∷ memo)
    ]

unfoldable pub resolve_registry_dependency :
    Resolver → Dependency → Materialized → Result (ManifestSelection × Materialized)
resolve_registry_dependency r dependency memo = do
  require (is_some dependency.pkg) resolution "registry dependency must declare package"
  require (is_some dependency.version) resolution "registry dependency must declare version"
  let name = get_or dependency.pkg []
  let version = get_or dependency.version []
  let locked_sha256 =
      find (registry_lock_hint_key dependency.source name version) r.locked_registry_digests
  require (not (r.locked && not (is_some locked_sha256))) resolution
      "locked registry dependency has no matching package digest in pafio.lock"
  done ← materialize_registry r dependency.source name version locked_sha256 memo
  let m = done.0
  let registry_origin = record (local_origin registry) {
    registry_root = some m.registry_root;
    registry_version = some m.version;
    registry_sha256 = some m.sha256;
    snapshot_root = some m.snapshot_root;
  }
  let root_manifest = slash m.snapshot_root (text "pafio.toml")
  require (exists r.machine root_manifest) resolution
      "registry dependency snapshot does not contain pafio.toml"
  selected ← select_package_manifest_from_root r root_manifest registry_origin dependency.pkg
  ok (selected, done.1)
