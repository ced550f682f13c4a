-- ===== src/Manifest/Valid.antt =====
-- The proof that a manifest that loads is valid: targets, the package, the workspace, the whole.
use pafio_nightly.Prelude.{
  String, Bool, true, false, not, ◌||◌, Option, List, [], ◌∷◌, map, if◌then◌else◌, Text, text,
  text_eq, text_eq_iff, Result, ok, each, All, arith, ◌≡◌, refl, >>=-eq-ok, require-eq-ok,
  ok_injective, Option-cases, inl, inr,
}
use pafio_nightly.Lexicon.{
  is_package_name, is_exact_semver, require_package_name, require_exact_semver,
}
use pafio_nightly.Toml.Library.{Library, array_at, is_one_at, has, or_throw}
use pafio_nightly.Manifest.{
  LibTarget, BinTarget, TestTarget, WorkspaceConfig, PackageConfig, ManifestDocument, Files,
}
use pafio_nightly.Manifest.Rules.{
  is_contained_relative_path, validate_relative_path, validate_contained_relative_path,
}
use pafio_nightly.Manifest.Parse.{
  contains_text, is_some, no_values, require_string_array, parse_dependencies, parse_build_config,
  parse_lib, parse_target, parse_targets, parse_bins, parse_tests, parse_package, parse_workspace,
  read_manifest, load_manifest, parsed, has_target, optionally, require_table, require_string,
}
use pafio_nightly.Manifest.Sources.{
  OptionAll, IsValidTarget, DistinctNames, IsValidPackage, IsValidWorkspace, IsValidManifest,
  nonempty_of_test, parse_dependencies-valid,
}
use pafio_nightly.Manifest.Targets.{
  ValidPairs, negated, each_relative, bins_of_targets, tests_of_targets,
}

module _ (T : Library) where
  open T use {Table, Node, as_table, as_array, as_string, entries}

  parse_target-valid :
      (seen : List Text) (node : Node) (t : Text × Text)
      → parse_target T seen node ≡ ok t
      → IsValidTarget t.0 t.1 × (contains_text seen t.0 ≡ false)
  unfolding parse_target validate_contained_relative_path
  parse_target-valid seen node t h = grind (arith, nonempty_of_test)

  parse_targets-valid :
      (seen : List Text) (nodes : List Node) {ts : List (Text × Text)}
      → parse_targets T seen nodes ≡ ok ts
      → ValidPairs ts × DistinctNames seen (map (λ t. t.0) ts)
  unfolding parse_targets
  parse_targets-valid seen [] h = rw (← ok_injective h) (tt, tt)
  parse_targets-valid seen (node ∷ rest) h =
      let (t, first, later) = >>=-eq-ok (parse_target T seen node) _ h in
      let (ts, others, whole) = >>=-eq-ok (parse_targets T (t.0 ∷ seen) rest) _ later in
      let v = parse_target-valid seen node t first in
      let ih = parse_targets-valid (t.0 ∷ seen) rest others in
      rw (← ok_injective whole) ((v.0, ih.0), (v.1, ih.1))

  parse_bins-valid :
      (doc : Table) {bins : List BinTarget}
      → parse_bins T doc ≡ ok bins
      → All (λ (t : BinTarget). IsValidTarget t.name t.path) bins
        × DistinctNames [] (map (λ (t : BinTarget). t.name) bins)
  unfolding parse_bins
  parse_bins-valid doc h = elim (Option-cases (array_at T doc "bin")) [
    | inl e ↦ rw (← ok_injective (rw (e, parse_bins) at h)) (tt, tt)
    | inr (nodes, e) ↦
        bins_of_targets (parse_targets T [] nodes) (rw (e, parse_bins) at h)
          (λ ts. parse_targets-valid [] nodes {ts = ts})
  ]

  parse_tests-valid :
      (doc : Table) {tests : List TestTarget}
      → parse_tests T doc ≡ ok tests
      → All (λ (t : TestTarget). IsValidTarget t.name t.path) tests
        × DistinctNames [] (map (λ (t : TestTarget). t.name) tests)
  unfolding parse_tests
  parse_tests-valid doc h = elim (Option-cases (array_at T doc "test")) [
    | inl e ↦ rw (← ok_injective (rw (e, parse_tests) at h)) (tt, tt)
    | inr (nodes, e) ↦
        tests_of_targets (parse_targets T [] nodes) (rw (e, parse_tests) at h)
          (λ ts. parse_targets-valid [] nodes {ts = ts})
  ]

  parse_lib-valid :
      (doc : Table) {lib : Option LibTarget}
      → parse_lib T doc ≡ ok lib
      → OptionAll (λ (t : LibTarget). is_contained_relative_path t.path ≡ true) lib
  unfolding parse_lib validate_contained_relative_path
  parse_lib-valid doc h = ground arith

  string_array-nonempty :
      (t : Table) (key : String) {l : List Text}
      → require_string_array T t key true ≡ ok l
      → no_values l ≡ false
  unfolding require_string_array
  string_array-nonempty t key h = ground arith

  parse_workspace-valid :
      (doc : Table) (w : WorkspaceConfig) → parse_workspace T doc ≡ ok w → IsValidWorkspace w
  unfolding parse_workspace
  parse_workspace-valid doc w h =
      let (t, _, h0) = >>=-eq-ok (require_table T doc "workspace") _ h in
      let (members, e1, h1) = >>=-eq-ok (require_string_array T t "members" true) _ h0 in
      let listed = if has T t "exclude" then require_string_array T t "exclude" false else ok [] in
      let (exclude, _, h2) = >>=-eq-ok listed _ h1 in
      let (resolver, _, h3) = >>=-eq-ok (require_string T t "resolver") _ h2 in
      let (is_one, h4) = require-eq-ok (text_eq resolver (text "1")) _ _ _ h3 in
      let (_, e5, h5) = >>=-eq-ok (each validate_relative_path members) _ h4 in
      let (_, e6, h6) = >>=-eq-ok (each validate_relative_path exclude) _ h5 in
      rw (← ok_injective h6) (record {
        members_nonempty = λ e. cc (rw e at (string_array-nonempty t "members" e1));
        members = each_relative members e5;
        exclude = each_relative exclude e6;
        resolver = (text_eq_iff resolver (text "1")).0 is_one;
      })

  parse_package-valid :
      (doc : Table) (p : PackageConfig) → parse_package T doc ≡ ok p → IsValidPackage p
  unfolding parse_package require_package_name require_exact_semver
  parse_package-valid doc p h =
      let (t, _, h0) = >>=-eq-ok (require_table T doc "package") _ h in
      let (name, _, h1) = >>=-eq-ok (require_string T t "name") _ h0 in
      let (version, _, h2) = >>=-eq-ok (require_string T t "version") _ h1 in
      let (edition, _, h3) = >>=-eq-ok (require_string T t "edition") _ h2 in
      let (build, _, h4) = >>=-eq-ok (parse_build_config T doc) _ h3 in
      let (lib, e5, h5) = >>=-eq-ok (parse_lib T doc) _ h4 in
      let (bins, e6, h6) = >>=-eq-ok (parse_bins T doc) _ h5 in
      let (tests, e7, h7) = >>=-eq-ok (parse_tests T doc) _ h6 in
      let (deps, e8, h8) = >>=-eq-ok (parse_dependencies T doc "dependencies") _ h7 in
      let (dev, e9, h9) = >>=-eq-ok (parse_dependencies T doc "dev-dependencies") _ h8 in
      let (named, h10) = require-eq-ok (is_package_name name) _ _ _ h9 in
      let (exact, h11) = require-eq-ok (is_exact_semver version) _ _ _ h10 in
      let (edited, h12) = require-eq-ok (not (text_eq edition [])) _ _ _ h11 in
      let (targeted, h13) = require-eq-ok (has_target lib bins tests) _ _ _ h12 in
      let bins_ok = parse_bins-valid doc e6 in
      let tests_ok = parse_tests-valid doc e7 in
      rw (← ok_injective h13) (record {
        name = named;
        version = exact;
        edition = nonempty_of_test edition (negated edited);
        has_target = targeted;
        lib = parse_lib-valid doc e5;
        bins = bins_ok.0;
        bin_names = bins_ok.1;
        tests = tests_ok.0;
        test_names = tests_ok.1;
        dependencies = parse_dependencies-valid T doc "dependencies" e8;
        dev_dependencies = parse_dependencies-valid T doc "dev-dependencies" e9;
      })

  -- the part is there exactly where its table is, and is valid
  optionally-valid :
      {A : Type 0} (P : A → Type 0) (b : Bool) (r : Result A) {o : Option A}
      → optionally b r ≡ ok o
      → ((a : A) → r ≡ ok a → P a)
      → OptionAll P o × (is_some o ≡ b)
  optionally-valid P false r h valid = rw (← ok_injective h) (tt, refl)
  optionally-valid P true r h valid =
      let (a, e, whole) = >>=-eq-ok r _ h in rw (← ok_injective whole) (valid a e, refl)

  pub read_manifest-valid :
      (doc : Table) (m : ManifestDocument) → read_manifest T doc ≡ ok m → IsValidManifest m
  unfolding read_manifest
  read_manifest-valid doc m h =
      let (t, _, h0) = >>=-eq-ok (require_table T doc "pafio") _ h in
      let (_, h1) = require-eq-ok (is_one_at T t "manifest-version") _ _ _ h0 in
      let has_package = has T doc "package" in
      let has_workspace = has T doc "workspace" in
      let (one, h2) = require-eq-ok (has_package || has_workspace) _ _ _ h1 in
      let (p, e3, h3) = >>=-eq-ok (optionally has_package (parse_package T doc)) _ h2 in
      let (w, e4, h4) = >>=-eq-ok (optionally has_workspace (parse_workspace T doc)) _ h3 in
      let vp =
        optionally-valid IsValidPackage has_package (parse_package T doc) e3
          (parse_package-valid doc) in
      let vw =
        optionally-valid IsValidWorkspace has_workspace (parse_workspace T doc) e4
          (parse_workspace-valid doc) in
      rw (← ok_injective h4)
        (record { pkg = vp.0; workspace = vw.0; some_part = rw (vp.1, vw.1) one })

  -- A manifest that loads has a package, a workspace or both. The package has a valid name, an exact
  -- version, an edition, at least one target, targets with distinct names per kind whose paths stay
  -- inside the package, and dependencies with the fields of exactly one source kind: a relative
  -- path; a URL without userinfo and a full commit id; or a registry root without userinfo, a
  -- package and an exact version. A workspace has relative members, one at least, relative
  -- exclusions, and resolver "1".
  pub load_manifest-valid :
      (files : Files) (manifest_path : Text) (m : ManifestDocument)
      → load_manifest T files manifest_path ≡ ok m
      → IsValidManifest m
  unfolding load_manifest
  load_manifest-valid files manifest_path m h =
      let doc = or_throw "failed to parse manifest" (parsed T (files manifest_path)) in
      let (d, _, h0) = >>=-eq-ok doc _ h in read_manifest-valid d m h0
