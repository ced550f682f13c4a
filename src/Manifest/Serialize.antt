-- ===== src/Manifest/Serialize.antt =====
-- Manifest.cpp: the canonical text of a manifest, and the manifests of new projects.
pub mod Canonical
pub mod Fields
use pafio_nightly.Prelude.{
  ℕ, Bool, true, false, ◌||◌, Option, none, some, List, [], ◌∷◌, ◌++◌, ◌==◌, within, if◌then◌else◌,
  Text, text, text_eq, Result, ok, ◌>>=◌, ◌>>◌,
}
use pafio_nightly.Prelude.Sort.{sort_by}
use pafio_nightly.Lexicon.{once, star, regex_match, require_package_name, package_short_name}
use pafio_nightly.Toml.{quote_toml_string}
use pafio_nightly.Manifest.{
  DependencySourceKind, path, git, registry, Dependency, BinTarget, TestTarget, LibTarget,
  WorkspaceConfig, PackageConfig, ManifestDocument,
}
use pafio_nightly.Manifest.Parse.{get_or}

-- `[A-Za-z0-9_-]`
abbrev pub is_bare_key_byte : ℕ → Bool
is_bare_key_byte c =
    within b'A' b'Z' c || within b'a' b'z' c || within b'0' b'9' c || c == b'_' || c == b'-'

unfoldable pub quote_toml_key : Text → Text
unfolding regex_match quote_toml_string
quote_toml_key value =
    if regex_match (once is_bare_key_byte ∷ star is_bare_key_byte ∷ []) value
    then value
    else quote_toml_string value

-- `key = "value"` and the end of the line
unfoldable pub emit_string : Text → Text → Text
unfolding quote_toml_string
emit_string key value = key ++ (text " = " ++ (quote_toml_string value ++ (b'\n' ∷ [])))

abbrev pub emit_bool : Text → Bool → Text
emit_bool key value =
    key ++ (text " = " ++ ((if value then text "true" else text "false") ++ (b'\n' ∷ [])))

-- quoted values with `, ` between them
unfoldable pub emit_values : List Text → Text
unfolding quote_toml_string
emit_values [] = []
emit_values (x ∷ []) = quote_toml_string x
emit_values (x ∷ y ∷ r) = quote_toml_string x ++ (text ", " ++ emit_values (y ∷ r))

unfoldable pub emit_string_array : Text → List Text → Text
unfolding emit_values
emit_string_array key values = key ++ (text " = [" ++ (emit_values values ++ text "]\n"))

abbrev emit_field : Text → Text → Text
emit_field label value = label ++ (text " = " ++ quote_toml_string value)

abbrev package_field : Option Text → Text
package_field none = []
package_field (some name) = emit_field (text "package") name ++ text ", "

-- the fields of a dependency by its source kind
abbrev source_fields : DependencySourceKind → Dependency → Text
source_fields path d = emit_field (text "path") d.source
source_fields git d =
    emit_field (text "git") d.source ++ (text ", " ++ emit_field (text "rev") (get_or d.rev []))
source_fields registry d =
    emit_field (text "version") (get_or d.version [])
    ++ (text ", " ++ emit_field (text "registry") d.source)

unfoldable pub emit_dependency : Dependency → Text
unfolding quote_toml_string quote_toml_key
emit_dependency d =
    quote_toml_key d.alias
    ++ (text " = { " ++ (package_field d.pkg ++ (source_fields d.source_kind d ++ text " }\n")))

-- a loop that writes a piece for each element
unfoldable pub emit_all : {A : Type 0} → (A → Text) → List A → Text
emit_all f [] = []
emit_all f (x ∷ xs) = f x ++ emit_all f xs

abbrev pub alias_of : Dependency → Text
alias_of d = d.alias

abbrev pub bin_name : BinTarget → Text
bin_name t = t.name

abbrev pub test_name : TestTarget → Text
test_name t = t.name

unfoldable pub emit_dependency_section : Text → List Dependency → Text
unfolding emit_all emit_dependency
emit_dependency_section name dependencies =
    text "[" ++ (name ++ (text "]\n" ++ emit_all emit_dependency (sort_by alias_of dependencies)))

-- the section and the empty line before it, which stand only where there are dependencies
abbrev pub emit_dependencies : Text → List Dependency → Text
emit_dependencies name [] = []
emit_dependencies name (d ∷ ds) = b'\n' ∷ emit_dependency_section name (d ∷ ds)

unfoldable pub emit_target : Text → Text → Text → Text
unfolding emit_string
emit_target header name target =
    header ++ (emit_string (text "name") name ++ emit_string (text "path") target)

abbrev emit_bin : BinTarget → Text
emit_bin t = emit_target (text "\n[[bin]]\n") t.name t.path

abbrev emit_test : TestTarget → Text
emit_test t = emit_target (text "\n[[test]]\n") t.name t.path

abbrev emit_lib : Option LibTarget → Text
emit_lib none = []
emit_lib (some lib) = text "\n[lib]\n" ++ emit_string (text "path") lib.path

unfoldable pub emit_package : PackageConfig → Text
unfolding emit_string emit_all emit_target emit_dependency_section
emit_package p =
    text "\n[package]\n"
    ++ (emit_string (text "name") p.name
        ++ (emit_string (text "version") p.version
            ++ (emit_string (text "edition") p.edition
                ++ (emit_bool (text "publish") p.publish
                    ++ (text "\n[build]\n"
                        ++ (emit_bool (text "implicit-std") p.build.implicit_std
                            ++ (emit_lib p.lib
                                ++ (emit_all emit_bin (sort_by bin_name p.bins)
                                    ++ (emit_all emit_test (sort_by test_name p.tests)
                                        ++ (emit_dependencies (text "dependencies") p.dependencies
                                            ++ emit_dependencies (text "dev-dependencies")
                                                p.dev_dependencies))))))))))

abbrev emit_exclude : List Text → Text
emit_exclude [] = []
emit_exclude (x ∷ xs) = emit_string_array (text "exclude") (x ∷ xs)

unfoldable pub emit_workspace : WorkspaceConfig → Text
unfolding emit_string_array emit_string
emit_workspace w =
    text "\n[workspace]\n"
    ++ (emit_string_array (text "members") w.members
        ++ (emit_exclude w.exclude ++ emit_string (text "resolver") w.resolver))

abbrev pub if_there : {A : Type 0} → (A → Text) → Option A → Text
if_there f none = []
if_there f (some a) = f a

unfoldable pub serialize_manifest_canonical : ManifestDocument → Text
unfolding emit_package emit_workspace
serialize_manifest_canonical m =
    text "[pafio]\nmanifest-version = 1\n"
    ++ (if_there emit_package m.pkg ++ if_there emit_workspace m.workspace)

-- `BuildScaffoldManifest`
unfoldable pub build_scaffold_manifest : Text → Text → Result ManifestDocument
unfolding require_package_name package_short_name text_eq
build_scaffold_manifest package_name kind = do
  require_package_name package_name
  short_name ← package_short_name package_name
  let is_lib = text_eq kind (text "lib")
  ok (record {
    pkg = some (record {
      name = package_name;
      version = text "0.1.0";
      edition = text "2026";
      publish = false;
      build = record { implicit_std = true };
      lib = if is_lib then some (record { path = text "src/lib.styio" }) else none;
      bins = if is_lib then [] else record { name = short_name; path = text "src/main.styio" } ∷ [];
      tests = [];
      dependencies = [];
      dev_dependencies = [];
    });
    workspace = none;
  })
