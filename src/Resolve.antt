-- ===== src/Resolve.antt =====
-- PafioResolve/Resolver.cpp: the data of the resolver, and the keys of packages.
pub mod Select
pub mod Graph
pub mod Roots
use pafio_nightly.Prelude.{
  ℕ, String, Bool, true, false, not, ◌||◌, ◌&&◌, Option, none, some, List, [], ◌∷◌, ◌++◌,
  if◌then◌else◌, Text, text, text_eq, starts_with, behind_text, Result, ok, err, logic, ◌>>=◌,
}
use pafio_nightly.Prelude.Sort.{sort_by}
use pafio_nightly.FilePath.{is_absolute, slash, lexically_normal, lexically_relative}
use pafio_nightly.Lexicon.{normalize_registry_root}
use pafio_nightly.Toml.Library.{Library}
use pafio_nightly.Manifest.{Dependency, PackageConfig, ManifestDocument, Files}
use pafio_nightly.Manifest.Parse.{is_some}
use pafio_nightly.Manifest.Serialize.{alias_of}

pub data SourceKind : Type 0 where
  workspace path git registry : SourceKind

pub record SourceOrigin : Type 0 where
  pub kind : SourceKind
  pub git_source : Option Text
  pub git_rev : Option Text
  pub registry_root : Option Text
  pub registry_version : Option Text
  pub registry_sha256 : Option Text
  pub repo_hash : Option Text
  pub snapshot_root : Option Text

abbrev pub local_origin : SourceKind → SourceOrigin
local_origin kind = record {
  kind = kind;
  git_source = none;
  git_rev = none;
  registry_root = none;
  registry_version = none;
  registry_sha256 = none;
  repo_hash = none;
  snapshot_root = none;
}

pub record ManifestSelection : Type 0 where
  pub manifest_path : Text
  pub origin : SourceOrigin

pub record RegistryMaterializationResult : Type 0 where
  pub registry_root : Text
  pub package_name : Text
  pub version : Text
  pub sha256 : Text
  pub snapshot_root : Text

-- What the resolver is run on: the toml++ library, the files as they are once the snapshots are in
-- place, the current directory, and the git cache and registry client, which put them there.
pub record Machine : Type 1 where
  pub library : Library
  pub files : Files
  pub current_path : Text
  pub version : Text
  pub materialize_git : Text → Text → Result SourceOrigin
  pub materialize_registry :
      Text → Text → Text → Bool → Option Text → Result RegistryMaterializationResult

-- `CanonicalAbsolutePath`: `fs::absolute` and the normal form
unfoldable pub canonical_absolute_path : Machine → Text → Text
canonical_absolute_path machine p = lexically_normal (slash machine.current_path p)

abbrev pub exists : Machine → Text → Bool
exists machine p = is_some (machine.files p)

-- `optional.value()`
abbrev pub value_of {ℓ} : {A : Type ℓ} → Option A → Result A
value_of none = err logic "bad optional access"
value_of (some a) = ok a

abbrev pub looks_like_remote_git_source : Text → Bool
looks_like_remote_git_source source =
    is_some (behind_text (text "://") source) || starts_with source (text "git@")

-- the text form of the relative path does not climb out of the root
unfoldable pub path_is_within : Machine → Text → Text → Bool
path_is_within machine candidate root =
    let relative =
      lexically_relative (canonical_absolute_path machine candidate)
        (canonical_absolute_path machine root) in
    if text_eq relative []
    then false
    else not (text_eq relative (text "..")) && not (starts_with relative (text "../"))

unfoldable pub normalize_git_source : Machine → Text → Text → Text
normalize_git_source machine source package_dir =
    if looks_like_remote_git_source source
    then source
    else canonical_absolute_path machine
        (if is_absolute source then source else slash package_dir source)

abbrev pub source_kind_string : SourceKind → Text
source_kind_string workspace = text "workspace"
source_kind_string path = text "path"
source_kind_string git = text "git"
source_kind_string registry = text "registry"

unfoldable pub registry_lock_hint_key : Text → Text → Text → Text
registry_lock_hint_key registry_root package_name version =
    normalize_registry_root registry_root ++ (b'\n' ∷ (package_name ++ (b'\n' ∷ version)))

unfoldable pub snapshot_relative_key : Machine → SourceOrigin → Text → Result Text
snapshot_relative_key machine origin package_dir = do
  snapshot_root ← value_of origin.snapshot_root
  let key =
      lexically_relative (canonical_absolute_path machine package_dir)
        (canonical_absolute_path machine snapshot_root)
  ok (if text_eq key [] then text "." else key)

abbrev fingerprint_of : Machine → SourceKind → SourceOrigin → Text → Result Text
fingerprint_of machine git origin package_dir = do
  source ← value_of origin.git_source
  rev ← value_of origin.git_rev
  key ← snapshot_relative_key machine origin package_dir
  ok (text "git:" ++ (source ++ (b'#' ∷ (rev ++ (b':' ∷ key)))))
fingerprint_of machine registry origin package_dir = do
  root ← value_of origin.registry_root
  sha256 ← value_of origin.registry_sha256
  key ← snapshot_relative_key machine origin package_dir
  ok (text "registry:" ++ (root ++ (b'#' ∷ (sha256 ++ (b':' ∷ key)))))
fingerprint_of machine kind origin package_dir =
    ok (source_kind_string kind ++ (b':' ∷ canonical_absolute_path machine package_dir))

unfoldable pub build_source_fingerprint : Machine → SourceOrigin → Text → Result Text
build_source_fingerprint machine origin package_dir =
    fingerprint_of machine origin.kind origin package_dir

-- what is added to the id for the source
abbrev id_suffix : SourceKind → SourceOrigin → Result Text
id_suffix git origin = do rev ← value_of origin.git_rev; ok (b'#' ∷ rev)
id_suffix registry origin = do sha256 ← value_of origin.registry_sha256; ok (b'#' ∷ sha256)
id_suffix kind origin = ok []

unfoldable pub build_lock_id : SourceOrigin → PackageConfig → Result Text
build_lock_id origin p = do
  suffix ← id_suffix origin.kind origin
  ok (source_kind_string origin.kind ++ (b':' ∷ (p.name ++ (b'@' ∷ (p.version ++ suffix)))))

unfoldable pub collect_dependencies : PackageConfig → List Dependency
collect_dependencies p = sort_by alias_of (p.dependencies ++ p.dev_dependencies)
