-- ===== src/Tests/Manifests.antt =====
-- A manifest with two targets and two dependencies: loaded, and written in another order.
use pafio_nightly.Lexicon.{
  is_digit, is_exact_semver, is_git_commit_id, is_lower_hex, is_lower_or_digit, is_name_byte,
  is_package_name, regex_match, require_exact_semver, require_git_commit_id, require_package_name,
  url_has_userinfo,
}
use pafio_nightly.FilePath.{components, is_absolute}
use pafio_nightly.Manifest.Rules.{
  is_contained_relative_path, is_non_empty_relative_path, is_registry_root_url,
  require_no_url_userinfo, validate_contained_relative_path, validate_registry_root,
  validate_relative_path,
}
use mathlib.Core.List.{Permᴰ}
use pafio_nightly.Prelude.{
  true, false, none, some, List, [], ◌∷◌, text, text_eq, ok, ◌≡◌, refl, arith, before, behind_text,
  drop_text, each, has_byte, map_result, split_lines, starts_with,
}
use pafio_nightly.Manifest.{path, registry, Dependency, BinTarget, PackageConfig, Files}
use pafio_nightly.Manifest.Parse.{
  load_manifest, parse_bins, parse_build_config, parse_dependencies, parse_dependency,
  parse_git_dependency, parse_lib, parse_package, parse_path_dependency, parse_registry_dependency,
  parse_source, parse_target, parse_targets, parse_tests, parse_workspace, read_manifest,
  require_string, require_string_array, require_table,
}
use pafio_nightly.Manifest.Sources.{IsValidManifest}
use pafio_nightly.Manifest.Valid.{load_manifest-valid}
use pafio_nightly.Manifest.Serialize.{serialize_manifest_canonical}
use pafio_nightly.Manifest.Serialize.Canonical.{serialize_manifest_canonical-perm}
use pafio_nightly.Tests.SampleToml.{
  Node, str, bool, number, no_items, no_fields, item, field, sample_library,
}

abbrev document : Node
document = field (text "pafio") (field (text "manifest-version") (number 1) no_fields) (
    field (text "package")
      (field (text "name") (str (text "core/app")) (
        field (text "version") (str (text "0.1.0"))
          (field (text "edition") (str (text "2026")) no_fields)))
      (field (text "build") (field (text "implicit-std") (bool true) no_fields) (
        field (text "bin")
          (item
            (field (text "name") (str (text "b"))
              (field (text "path") (str (text "src/b.styio")) no_fields))
            (item
              (field (text "name") (str (text "a"))
                (field (text "path") (str (text "src/a.styio")) no_fields))
              no_items))
          (field (text "dependencies")
            (field (text "y") (field (text "path") (str (text "../y")) no_fields) (
              field (text "x")
                (field (text "package") (str (text "core/x")) (
                  field (text "version") (str (text "1.2.3"))
                    (field (text "registry") (str (text "https://pkgs.dev")) no_fields)))
                no_fields))
            no_fields))))

abbrev files : Files
files _ = some (text "one")

abbrev bin_a : BinTarget
bin_a = record { name = text "a"; path = text "src/a.styio" }

abbrev bin_b : BinTarget
bin_b = record { name = text "b"; path = text "src/b.styio" }

abbrev dependency_x : Dependency
dependency_x = record {
  alias = text "x";
  pkg = some (text "core/x");
  source_kind = registry;
  source = text "https://pkgs.dev";
  rev = none;
  version = some (text "1.2.3");
}

abbrev dependency_y : Dependency
dependency_y = record {
  alias = text "y";
  pkg = none;
  source_kind = path;
  source = text "../y";
  rev = none;
  version = none;
}

abbrev package_with : List BinTarget → List Dependency → PackageConfig
package_with bins dependencies = record {
  name = text "core/app";
  version = text "0.1.0";
  edition = text "2026";
  publish = false;
  build = record { implicit_std = true };
  lib = none;
  bins = bins;
  tests = [];
  dependencies = dependencies;
  dev_dependencies = [];
}

abbrev as_written : PackageConfig
as_written = package_with (bin_b ∷ bin_a ∷ []) (dependency_y ∷ dependency_x ∷ [])

abbrev reordered : PackageConfig
reordered = package_with (bin_a ∷ bin_b ∷ []) (dependency_x ∷ dependency_y ∷ [])

manifest_loads :
    load_manifest (sample_library document) files (text "pafio.toml")
    ≡ ok (record { pkg = some as_written; workspace = none })
unfolding load_manifest sample_library require_table parse_package require_string parse_build_config
    parse_lib parse_bins parse_targets parse_target validate_contained_relative_path
    is_contained_relative_path is_absolute components parse_tests parse_dependencies map_result
    parse_dependency is_digit is_exact_semver is_git_commit_id is_lower_hex is_lower_or_digit
    is_name_byte is_package_name regex_match require_exact_semver require_git_commit_id
    require_package_name url_has_userinfo parse_git_dependency parse_path_dependency
    parse_registry_dependency parse_source parse_workspace read_manifest require_string_array
    is_non_empty_relative_path is_registry_root_url require_no_url_userinfo validate_registry_root
    validate_relative_path each before behind_text drop_text has_byte split_lines starts_with
    text_eq
manifest_loads = refl

load_manifest-valid_example : IsValidManifest (record { pkg = some as_written; workspace = none })
load_manifest-valid_example =
    load_manifest-valid (sample_library document) files (text "pafio.toml")
      (record { pkg = some as_written; workspace = none }) manifest_loads

serialize_manifest_canonical-perm_example :
    serialize_manifest_canonical (record { pkg = some as_written; workspace = none })
    ≡ serialize_manifest_canonical (record { pkg = some reordered; workspace = none })
serialize_manifest_canonical-perm_example =
    serialize_manifest_canonical-perm as_written reordered none
      (record {
        rest = refl;
        bins = Permᴰ.swap refl refl;
        tests = Permᴰ.nil;
        dependencies = Permᴰ.swap refl refl;
        dev_dependencies = Permᴰ.nil;
      })
      (record {
        bins = (((λ e. ground arith), tt), (tt, tt));
        tests = tt;
        dependencies = (((λ e. ground arith), tt), (tt, tt));
        dev_dependencies = tt;
      })
