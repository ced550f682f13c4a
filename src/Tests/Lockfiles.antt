-- ===== src/Tests/Lockfiles.antt =====
-- A lockfile with a git package and a workspace package: loaded, and written.
use pafio_nightly.Lexicon.{
  is_digit, is_exact_semver, is_git_commit_id, is_lower_hex, is_lower_or_digit, is_name_byte,
  is_package_name, is_sha256_digest, regex_match, require_exact_semver, require_git_commit_id,
  require_package_name, require_sha256_digest,
}
use pafio_nightly.Manifest.Parse.{require_string, require_string_array}
use pafio_nightly.Prelude.Sort.{sort_by, Distinct}
use pafio_nightly.Prelude.{
  none, some, [], ◌∷◌, Text, text, text_eq, ok, ◌≡◌, ◌↔◌, refl, text_ltb, map_result,
}
use pafio_nightly.Manifest.{Files}
use pafio_nightly.Lockfile.{
  id_of, LockPackage, LockfileDocument, load_lockfile, serialize_lockfile_canonical,
  check_git_package, check_local_package, check_lock_package, check_package_source,
  check_registry_package, parse_lock_package, read_lockfile, validate_source_kind,
}
use pafio_nightly.Lockfile.Valid.{IsValidLockfile, load_lockfile-valid}
use pafio_nightly.Lockfile.UpToOrder.{IsSameUpToOrder, serialize_lockfile_canonical-faithful}
use pafio_nightly.Tests.SampleToml.{
  Node, str, number, no_items, no_fields, item, field, sample_library,
}

abbrev commit : Text
commit = text "0123456789abcdef0123456789abcdef01234567"

abbrev git_node : Node
git_node = field (text "id") (str (text "git:core/g")) (
    field (text "name") (str (text "core/g")) (
      field (text "version") (str (text "1.0.0")) (
        field (text "source-kind") (str (text "git")) (
          field (text "git") (str (text "https://g.dev/g"))
            (field (text "rev") (str commit) (field (text "dependencies") no_items no_fields))))))

abbrev app_node : Node
app_node = field (text "id") (str (text "core/app")) (
    field (text "name") (str (text "core/app")) (
      field (text "version") (str (text "0.1.0")) (
        field (text "source-kind") (str (text "workspace"))
          (field (text "dependencies") (item (str (text "git:core/g")) no_items) no_fields))))

abbrev document : Node
document = field (text "lock-version") (number 1) (
    field (text "metadata")
      (field (text "generated-by") (str (text "pafio"))
        (field (text "resolver") (str (text "single-version-v1")) no_fields))
      (field (text "package") (item git_node (item app_node no_items)) no_fields))

abbrev files : Files
files _ = some (text "one")

abbrev git_package : LockPackage
git_package = record {
  id = text "git:core/g";
  name = text "core/g";
  version = text "1.0.0";
  source_kind = text "git";
  git = some (text "https://g.dev/g");
  rev = some commit;
  registry = none;
  sha256 = none;
  dependencies = [];
}

abbrev app_package : LockPackage
app_package = record {
  id = text "core/app";
  name = text "core/app";
  version = text "0.1.0";
  source_kind = text "workspace";
  git = none;
  rev = none;
  registry = none;
  sha256 = none;
  dependencies = text "git:core/g" ∷ [];
}

abbrev lockfile : LockfileDocument
lockfile = record {
  generated_by = text "pafio";
  resolver = text "single-version-v1";
  packages = git_package ∷ app_package ∷ [];
}

abbrev other_order : LockfileDocument
other_order = record lockfile { packages = app_package ∷ git_package ∷ [] }

lockfile_loads : load_lockfile (sample_library document) files (text "pafio.lock") ≡ ok lockfile
unfolding load_lockfile sample_library read_lockfile require_string map_result parse_lock_package
    require_string_array check_lock_package require_package_name is_package_name
    require_exact_semver is_exact_semver validate_source_kind check_package_source check_git_package
    require_git_commit_id is_git_commit_id check_local_package is_digit is_lower_hex
    is_lower_or_digit is_name_byte is_sha256_digest regex_match require_sha256_digest
    check_registry_package text_eq
lockfile_loads = refl

load_lockfile-valid_example : IsValidLockfile lockfile
load_lockfile-valid_example =
    load_lockfile-valid (sample_library document) files (text "pafio.lock") lockfile lockfile_loads

other_order-valid : IsValidLockfile other_order
other_order-valid =
    let v =
      load_lockfile-valid (sample_library document) files (text "pafio.lock") lockfile
        lockfile_loads in
    record {
      generated_by = v.generated_by;
      resolver = v.resolver;
      packages = (v.packages.1.0, (v.packages.0, tt));
    }

lockfile-Distinct : Distinct id_of lockfile.packages
lockfile-Distinct = (((λ e. cc), tt), (tt, tt))

other_order-Distinct : Distinct id_of other_order.packages
other_order-Distinct = (((λ e. cc), tt), (tt, tt))

serialize_lockfile_canonical-faithful_example :
    (serialize_lockfile_canonical lockfile ≡ serialize_lockfile_canonical other_order)
    ↔ IsSameUpToOrder lockfile other_order
serialize_lockfile_canonical-faithful_example =
    serialize_lockfile_canonical-faithful lockfile other_order
      (load_lockfile-valid (sample_library document) files (text "pafio.lock") lockfile
        lockfile_loads)
      other_order-valid lockfile-Distinct other_order-Distinct

same_text_test : serialize_lockfile_canonical lockfile ≡ serialize_lockfile_canonical other_order
unfolding serialize_lockfile_canonical sort_by text_ltb
same_text_test = refl
