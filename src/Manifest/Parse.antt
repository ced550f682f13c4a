-- ===== src/Manifest/Parse.antt =====
-- Manifest.cpp: from the tables of a document to a manifest. A table that a function is given by
-- name is looked up in the document as the code does it.
use pafio_nightly.Prelude.{
  String, ℕ, ◌+◌, Bool, true, false, not, ◌&&◌, ◌||◌, Option, none, some, List, [], ◌∷◌, map, any,
  ◌==◌, if◌then◌else◌, Text, text, text_eq, Result, ok, validation, require, each, map_result,
  ◌>>=◌, ◌>>◌,
}
use pafio_nightly.Lexicon.{require_package_name, require_exact_semver, require_git_commit_id}
use pafio_nightly.Toml.Library.{
  Library, table_at, array_at, string_at, bool_at, is_one_at, has, or_throw,
}
use pafio_nightly.Manifest.{
  path, git, registry, Dependency, BuildConfig, LibTarget, BinTarget, TestTarget, WorkspaceConfig,
  PackageConfig, ManifestDocument, Files,
}
use pafio_nightly.Manifest.Rules.{
  validate_relative_path, validate_contained_relative_path, validate_registry_root,
  require_no_url_userinfo,
}

abbrev pub get_or {ℓ} : {A : Type ℓ} → Option A → A → A
get_or none d = d
get_or (some a) d = a

abbrev pub is_some {ℓ} : {A : Type ℓ} → Option A → Bool
is_some none = false
is_some (some a) = true

abbrev pub no_values : List Text → Bool
no_values [] = true
no_values (x ∷ xs) = false

abbrev count : Bool → ℕ
count true = 1
count false = 0

-- `RequirePackageName` of an optional package
abbrev pub check_package : Option Text → Result (Unit {0})
check_package none = ok tt
check_package (some name) = require_package_name name

abbrev pub contains_text : List Text → Text → Bool
contains_text seen name = any (λ s. text_eq s name) seen

abbrev pub has_target : Option LibTarget → List BinTarget → List TestTarget → Bool
has_target none [] [] = false
has_target _ _ _ = true

abbrev pub bin_of : Text × Text → BinTarget
bin_of (name, target) = record { name = name; path = target }

abbrev pub test_of : Text × Text → TestTarget
test_of (name, target) = record { name = name; path = target }

abbrev pub optionally {ℓ} : {A : Type ℓ} → Bool → Result A → Result (Option A)
optionally false r = ok none
optionally true r = do a ← r; ok (some a)

module _ (T : Library) where
  open T use {Table, Node, as_table, as_array, as_string, entries}

  unfoldable pub require_table : Table → String → Result Table
  require_table parent key = or_throw "missing or invalid table" (table_at T parent key)

  unfoldable pub require_string : Table → String → Result Text
  require_string table key = or_throw "missing or invalid value" (string_at T table key)

  unfoldable pub require_string_array : Table → String → Bool → Result (List Text)
  require_string_array table key require_non_empty = do
    array ← or_throw "missing or invalid array" (array_at T table key)
    values ← map_result (λ node. or_throw "array must contain only strings" (as_string node)) array
    require (not (require_non_empty && no_values values)) validation "array must not be empty"
    ok values

  unfoldable pub parse_path_dependency : Text → Option Text → Table → Result Dependency
  parse_path_dependency alias pkg dep = do
    source ← require_string dep "path"
    validate_relative_path source
    ok (record {
      alias = alias;
      pkg = pkg;
      source_kind = path;
      source = source;
      rev = none;
      version = none;
    })

  unfoldable pub parse_git_dependency : Text → Option Text → Table → Result Dependency
  parse_git_dependency alias pkg dep = do
    source ← require_string dep "git"
    require (not (text_eq source [])) validation "git must be a non-empty string"
    require_no_url_userinfo source
    rev ← require_string dep "rev"
    require_git_commit_id rev
    ok (record {
      alias = alias;
      pkg = pkg;
      source_kind = git;
      source = source;
      rev = some rev;
      version = none;
    })

  unfoldable pub parse_registry_dependency : Text → Option Text → Table → Result Dependency
  parse_registry_dependency alias pkg dep = do
    require (is_some pkg) validation "must declare package for registry sources"
    version ← require_string dep "version"
    require_exact_semver version
    source ← require_string dep "registry"
    validate_registry_root source
    ok (record {
      alias = alias;
      pkg = pkg;
      source_kind = registry;
      source = source;
      rev = none;
      version = some version;
    })

  -- the branches by source kind, on `has_path` and `has_git`
  unfoldable pub parse_source : Bool → Bool → Text → Option Text → Table → Result Dependency
  parse_source true has_git alias pkg dep = parse_path_dependency alias pkg dep
  parse_source false true alias pkg dep = parse_git_dependency alias pkg dep
  parse_source false false alias pkg dep = parse_registry_dependency alias pkg dep

  -- one round of the loop over a dependency table
  unfoldable pub parse_dependency : Text × Node → Result Dependency
  parse_dependency (alias, node) = do
    dep ← or_throw "dependency must be an inline table" (as_table node)
    let has_path = has T dep "path"
    let has_git = has T dep "git"
    let has_registry_source = has T dep "version" || has T dep "registry"
    require (count has_path + count has_git + count has_registry_source == 1) validation
        "must declare exactly one source kind"
    let pkg = string_at T dep "package"
    check_package pkg
    parse_source has_path has_git alias pkg dep

  unfoldable pub parse_dependencies : Table → String → Result (List Dependency)
  parse_dependencies doc table_name = elim (table_at T doc table_name) [
    | none ↦ ok []
    | some dependencies ↦ map_result parse_dependency (entries dependencies)
  ]

  unfoldable pub parse_build_config : Table → Result BuildConfig
  parse_build_config doc = do
    build_table ← require_table doc "build"
    implicit_std ←
        or_throw "[build].implicit-std must be a boolean" (bool_at T build_table "implicit-std")
    ok (record { implicit_std = implicit_std })

  unfoldable pub parse_lib : Table → Result (Option LibTarget)
  parse_lib doc = elim (table_at T doc "lib") [
    | none ↦ ok none
    | some lib_table ↦ do
      target ← require_string lib_table "path"
      validate_contained_relative_path target
      ok (some (record { path = target }))
  ]

  -- one round of the loops over `[[bin]]` and `[[test]]`: the name and path of a target
  unfoldable pub parse_target : List Text → Node → Result (Text × Text)
  parse_target seen node = do
    table ← or_throw "target entries must be tables" (as_table node)
    name ← require_string table "name"
    target ← require_string table "path"
    require (not (text_eq name [])) validation "target name must be a non-empty string"
    validate_contained_relative_path target
    require (not (contains_text seen name)) validation "duplicate target name in package manifest"
    ok (name, target)

  unfoldable pub parse_targets : List Text → List Node → Result (List (Text × Text))
  parse_targets seen [] = ok []
  parse_targets seen (node ∷ rest) = do
    target ← parse_target seen node
    targets ← parse_targets (target.0 ∷ seen) rest
    ok (target ∷ targets)

  -- an array of tables; where there is none, there are no targets
  unfoldable pub parse_bins : Table → Result (List BinTarget)
  parse_bins doc = elim (array_at T doc "bin") [
    | none ↦ ok []
    | some nodes ↦ do targets ← parse_targets [] nodes; ok (map bin_of targets)
  ]

  unfoldable pub parse_tests : Table → Result (List TestTarget)
  parse_tests doc = elim (array_at T doc "test") [
    | none ↦ ok []
    | some nodes ↦ do targets ← parse_targets [] nodes; ok (map test_of targets)
  ]

  unfoldable pub parse_package : Table → Result PackageConfig
  parse_package doc = do
    package_table ← require_table doc "package"
    name ← require_string package_table "name"
    version ← require_string package_table "version"
    edition ← require_string package_table "edition"
    build ← parse_build_config doc
    lib ← parse_lib doc
    bins ← parse_bins doc
    tests ← parse_tests doc
    dependencies ← parse_dependencies doc "dependencies"
    dev_dependencies ← parse_dependencies doc "dev-dependencies"
    require_package_name name
    require_exact_semver version
    require (not (text_eq edition [])) validation "package.edition must be an explicit string"
    require (has_target lib bins tests) validation
        "package manifests must define at least one explicit target"
    ok (record {
      name = name;
      version = version;
      edition = edition;
      publish = get_or (bool_at T package_table "publish") false;
      build = build;
      lib = lib;
      bins = bins;
      tests = tests;
      dependencies = dependencies;
      dev_dependencies = dev_dependencies;
    })

  unfoldable pub parse_workspace : Table → Result WorkspaceConfig
  parse_workspace doc = do
    workspace_table ← require_table doc "workspace"
    members ← require_string_array workspace_table "members" true
    exclude ←
        if has T workspace_table "exclude"
        then require_string_array workspace_table "exclude" false
        else ok []
    resolver ← require_string workspace_table "resolver"
    require (text_eq resolver (text "1")) validation "[workspace].resolver must be \"1\""
    each validate_relative_path members
    each validate_relative_path exclude
    ok (record { members = members; exclude = exclude; resolver = resolver })

  -- `LoadManifest`, from the parsed document
  unfoldable pub read_manifest : Table → Result ManifestDocument
  read_manifest doc = do
    pafio_table ← require_table doc "pafio"
    require (is_one_at T pafio_table "manifest-version") validation
        "pafio manifest-version must be 1"
    let has_package = has T doc "package"
    let has_workspace = has T doc "workspace"
    require (has_package || has_workspace) validation
        "manifest must contain [package], [workspace], or both"
    pkg ← optionally has_package (parse_package doc)
    workspace ← optionally has_workspace (parse_workspace doc)
    ok (record { pkg = pkg; workspace = workspace })

  abbrev pub parsed : Option Text → Option Table
  parsed none = none
  parsed (some content) = T.parse content

  -- a file that is not there cannot be parsed either
  unfoldable pub load_manifest : Files → Text → Result ManifestDocument
  unfolding read_manifest
  load_manifest files manifest_path = do
    doc ← or_throw "failed to parse manifest" (parsed (files manifest_path))
    read_manifest doc
