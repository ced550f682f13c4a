-- ===== src/Lockfile.antt =====
-- PafioManifest/Lockfile.hpp and Lockfile.cpp: the records of a lockfile, loading and writing it.
pub mod Valid
pub mod Sources
pub mod Canonical
pub mod UpToOrder
use pafio_nightly.Prelude.{
  String, Bool, true, false, not, ◌&&◌, ◌||◌, Option, none, some, List, [], ◌∷◌, ◌++◌, any,
  if◌then◌else◌, Text, text, text_eq, Result, ok, err, validation, require, map_result, ◌>>=◌, ◌>>◌,
}
use pafio_nightly.Prelude.Sort.{sort_by}
use pafio_nightly.Lexicon.{
  require_package_name, require_exact_semver, require_git_commit_id, require_sha256_digest,
}
use pafio_nightly.Toml.{quote_toml_string}
use pafio_nightly.Toml.Library.{Library, table_at, array_at, string_at, is_one_at, or_throw}
use pafio_nightly.Manifest.{Files}
use pafio_nightly.Manifest.Parse.{get_or, is_some, parsed, require_string, require_string_array}
use pafio_nightly.Manifest.Serialize.{emit_string, emit_string_array, emit_all}

pub record LockPackage : Type 0 where
  pub id : Text
  pub name : Text
  pub version : Text
  pub source_kind : Text
  pub git : Option Text
  pub rev : Option Text
  pub registry : Option Text
  pub sha256 : Option Text
  pub dependencies : List Text

pub record LockfileDocument : Type 0 where
  pub generated_by : Text
  pub resolver : Text
  pub packages : List LockPackage

abbrev pub is_kind : Text → String → Bool
is_kind source_kind word = text_eq source_kind (text word)

unfoldable pub validate_source_kind : Text → Result (Unit {0})
validate_source_kind source_kind =
    require
      (is_kind source_kind "workspace"
        || is_kind source_kind "path"
        || is_kind source_kind "git"
        || is_kind source_kind "registry")
      validation "lockfile package source-kind must be one of workspace, path, git, or registry"

-- `!field.has_value() || field->empty()`
abbrev pub no_text : Option Text → Bool
no_text none = true
no_text (some value) = text_eq value []

unfoldable pub check_git_package : LockPackage → Result (Unit {0})
check_git_package p = do
  require (not (no_text p.git)) validation "git must be a non-empty string"
  require (not (no_text p.rev)) validation "rev must be a non-empty string"
  require_git_commit_id (get_or p.rev [])
  require (not (is_some p.registry || is_some p.sha256)) validation
      "registry and sha256 are only valid when source-kind = \"registry\""

unfoldable pub check_registry_package : LockPackage → Result (Unit {0})
check_registry_package p = do
  require (not (no_text p.registry)) validation "registry must be a non-empty string"
  require (is_some p.sha256) validation "sha256 must be present"
  require_sha256_digest (get_or p.sha256 [])
  require (not (is_some p.git || is_some p.rev)) validation
      "git and rev are only valid when source-kind = \"git\""

unfoldable pub check_local_package : LockPackage → Result (Unit {0})
check_local_package p =
    require (not (is_some p.git || is_some p.rev || is_some p.registry || is_some p.sha256))
      validation "git/rev are only valid for git packages, registry/sha256 for registry packages"

unfoldable pub check_package_source : LockPackage → Result (Unit {0})
check_package_source p =
    if is_kind p.source_kind "git"
    then check_git_package p
    else if is_kind p.source_kind "registry"
    then check_registry_package p
    else check_local_package p

unfoldable pub check_lock_package : LockPackage → Result LockPackage
check_lock_package p = do
  require (not (text_eq p.id [])) validation "id must be a non-empty string"
  require_package_name p.name
  require_exact_semver p.version
  validate_source_kind p.source_kind
  check_package_source p
  ok p

module _ (T : Library) where
  open T use {Table, Node, as_table}

  -- one round of the loop over `[[package]]`
  unfoldable pub parse_lock_package : Node → Result LockPackage
  parse_lock_package node = do
    table ← or_throw "lockfile package entry must be a table" (as_table node)
    id ← require_string T table "id"
    name ← require_string T table "name"
    version ← require_string T table "version"
    source_kind ← require_string T table "source-kind"
    dependencies ← require_string_array T table "dependencies" false
    check_lock_package (record {
      id = id;
      name = name;
      version = version;
      source_kind = source_kind;
      git = string_at T table "git";
      rev = string_at T table "rev";
      registry = string_at T table "registry";
      sha256 = string_at T table "sha256";
      dependencies = dependencies;
    })

  abbrev pub parse_lock_packages : Option (List Node) → Result (List LockPackage)
  parse_lock_packages none = ok []
  parse_lock_packages (some nodes) = map_result parse_lock_package nodes

  unfoldable pub read_lockfile : Table → Result LockfileDocument
  read_lockfile doc = do
    require (is_one_at T doc "lock-version") validation "lock-version must be 1"
    metadata ← or_throw "missing or invalid [metadata] table" (table_at T doc "metadata")
    generated_by ← require_string T metadata "generated-by"
    resolver ← require_string T metadata "resolver"
    require (not (text_eq generated_by [])) validation
        "[metadata].generated-by must be a non-empty string"
    require (text_eq resolver (text "single-version-v1")) validation
        "[metadata].resolver must be single-version-v1"
    packages ← parse_lock_packages (array_at T doc "package")
    ok (record { generated_by = generated_by; resolver = resolver; packages = packages })

  unfoldable pub load_lockfile : Files → Text → Result LockfileDocument
  load_lockfile files lockfile_path = do
    doc ← or_throw "failed to parse lockfile" (parsed T (files lockfile_path))
    read_lockfile doc

abbrev pub id_of : LockPackage → Text
id_of p = p.id

abbrev pub itself : Text → Text
itself s = s

-- the fields of a package that depend on its source kind
unfoldable pub emit_lock_source : LockPackage → Text
emit_lock_source p =
    if is_kind p.source_kind "git"
    then emit_string (text "git") (get_or p.git []) ++ emit_string (text "rev") (get_or p.rev [])
    else if is_kind p.source_kind "registry"
    then emit_string (text "registry") (get_or p.registry [])
      ++ emit_string (text "sha256") (get_or p.sha256 [])
    else []

unfoldable pub emit_lock_package : LockPackage → Text
emit_lock_package p =
    text "\n[[package]]\n"
    ++ (emit_string (text "id") p.id
        ++ (emit_string (text "name") p.name
            ++ (emit_string (text "version") p.version
                ++ (emit_string (text "source-kind") p.source_kind
                    ++ (emit_lock_source p
                        ++ emit_string_array (text "dependencies")
                            (sort_by itself p.dependencies))))))

unfoldable pub serialize_lockfile_canonical : LockfileDocument → Text
serialize_lockfile_canonical lockfile =
    text "lock-version = 1\n\n[metadata]\n"
    ++ (emit_string (text "generated-by") lockfile.generated_by
        ++ (emit_string (text "resolver") lockfile.resolver
            ++ emit_all emit_lock_package (sort_by id_of lockfile.packages)))
