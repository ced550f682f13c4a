-- ===== src/Manifest/Sources.antt =====
-- What a manifest that loads is known to satisfy, and the proof for its dependency tables.
use pafio_nightly.Prelude.{
  String, Bool, true, false, ◌||◌, Option, none, some, List, [], ◌∷◌, map, Text, text, text_eq,
  text_eq_iff, Result, ok, map_result, ◌>>◌, All, arith, ◌≡◌, ◌≢◌, refl, sym, >>=-eq-ok,
  require-eq-ok, ok_injective,
}
use mathlib.Core.Path.{subst}
use pafio_nightly.Lexicon.{
  is_package_name, is_exact_semver, is_git_commit_id, url_has_userinfo, require_package_name,
  require_exact_semver, require_git_commit_id,
}
use pafio_nightly.Toml.Library.{Library, table_at, string_at, or_throw}
use pafio_nightly.Manifest.{
  DependencySourceKind, path, git, registry, Dependency, LibTarget, BinTarget, TestTarget,
  WorkspaceConfig, PackageConfig, ManifestDocument,
}
use pafio_nightly.Manifest.Rules.{
  is_non_empty_relative_path, is_contained_relative_path, is_registry_root_url,
  validate_relative_path, validate_registry_root, require_no_url_userinfo,
}
use pafio_nightly.Manifest.Parse.{
  contains_text, is_some, parse_path_dependency, parse_git_dependency, parse_registry_dependency,
  parse_source, parse_dependency, parse_dependencies, check_package, has_target,
}

abbrev pub OptionAll {ℓ} : {A : Type ℓ} → (A → Type 0) → Option A → Type 0
OptionAll P none = Unit
OptionAll P (some a) = P a

abbrev pub SomeHas {ℓ} : {A : Type ℓ} → (A → Type 0) → Option A → Type 0
SomeHas P none = ⊥
SomeHas P (some a) = P a

-- the fields that a dependency of this kind has, and what they hold
abbrev pub IsValidSource : DependencySourceKind → Dependency → Type 0
IsValidSource path d =
    (is_non_empty_relative_path d.source ≡ true) × (d.rev ≡ none) × (d.version ≡ none)
IsValidSource git d =
    (d.source ≢ [])
    × (url_has_userinfo d.source ≡ false)
    × SomeHas (λ r. is_git_commit_id r ≡ true) d.rev
    × (d.version ≡ none)
IsValidSource registry d =
    (is_some d.pkg ≡ true)
    × SomeHas (λ v. is_exact_semver v ≡ true) d.version
    × (is_registry_root_url d.source ≡ true)
    × (url_has_userinfo d.source ≡ false)
    × (d.rev ≡ none)

abbrev pub IsValidDependency : Dependency → Type 0
IsValidDependency d =
    OptionAll (λ p. is_package_name p ≡ true) d.pkg × IsValidSource d.source_kind d

-- a name that is not empty, and a path inside the package
abbrev pub IsValidTarget : Text → Text → Type 0
IsValidTarget name target = (name ≢ []) × (is_contained_relative_path target ≡ true)

-- no name of the list is in `seen` or stands twice
abbrev pub DistinctNames : List Text → List Text → Type 0
DistinctNames seen [] = Unit
DistinctNames seen (name ∷ rest) =
    (contains_text seen name ≡ false) × DistinctNames (name ∷ seen) rest

pub record IsValidPackage (p : PackageConfig) : Type 0 where
  pub name : is_package_name p.name ≡ true
  pub version : is_exact_semver p.version ≡ true
  pub edition : p.edition ≢ []
  pub has_target : has_target p.lib p.bins p.tests ≡ true
  pub lib : OptionAll (λ (t : LibTarget). is_contained_relative_path t.path ≡ true) p.lib
  pub bins : All (λ (t : BinTarget). IsValidTarget t.name t.path) p.bins
  pub bin_names : DistinctNames [] (map (λ (t : BinTarget). t.name) p.bins)
  pub tests : All (λ (t : TestTarget). IsValidTarget t.name t.path) p.tests
  pub test_names : DistinctNames [] (map (λ (t : TestTarget). t.name) p.tests)
  pub dependencies : All IsValidDependency p.dependencies
  pub dev_dependencies : All IsValidDependency p.dev_dependencies

pub record IsValidWorkspace (w : WorkspaceConfig) : Type 0 where
  pub members_nonempty : w.members ≢ []
  pub members : All (λ m. is_non_empty_relative_path m ≡ true) w.members
  pub exclude : All (λ m. is_non_empty_relative_path m ≡ true) w.exclude
  pub resolver : w.resolver ≡ text "1"

pub record IsValidManifest (m : ManifestDocument) : Type 0 where
  pub pkg : OptionAll IsValidPackage m.pkg
  pub workspace : OptionAll IsValidWorkspace m.workspace
  pub some_part : (is_some m.pkg || is_some m.workspace) ≡ true

-- what holds of each result of a loop holds of all
pub map_result-All :
    {A B : Type 0} (P : B → Type 0) (f : A → Result B) (xs : List A) {ys : List B}
    → ((x : A) (y : B) → f x ≡ ok y → P y)
    → map_result f xs ≡ ok ys
    → All P ys
unfolding map_result
map_result-All P f [] each_one h = rw (← ok_injective h) tt
map_result-All P f (x ∷ xs) each_one h =
    let (y, first, later) = >>=-eq-ok (f x) _ h in
    let (ys, rest, whole) = >>=-eq-ok (map_result f xs) _ later in
    rw (← ok_injective whole) (each_one x y first, map_result-All P f xs each_one rest)

pub nonempty_of_test : (s : Text) → text_eq s [] ≡ false → s ≢ []
nonempty_of_test s h e = cc (rw e at h, (text_eq_iff [] []).1 refl)

module _ (T : Library) where
  open T use {Table, Node, as_table, as_array, as_string, entries}

  parse_path_dependency-valid :
      (alias : Text) (p : Option Text) (dep : Table) {d : Dependency}
      → parse_path_dependency T alias p dep ≡ ok d
      → (d.pkg ≡ p) × (d.source_kind ≡ path) × IsValidSource path d
  unfolding parse_path_dependency validate_relative_path
  parse_path_dependency-valid alias p dep h = ground arith

  parse_git_dependency-valid :
      (alias : Text) (p : Option Text) (dep : Table) {d : Dependency}
      → parse_git_dependency T alias p dep ≡ ok d
      → (d.pkg ≡ p) × (d.source_kind ≡ git) × IsValidSource git d
  unfolding parse_git_dependency require_no_url_userinfo require_git_commit_id
  parse_git_dependency-valid alias p dep h = grind (arith, nonempty_of_test)

  parse_registry_dependency-valid :
      (alias : Text) (p : Option Text) (dep : Table) {d : Dependency}
      → parse_registry_dependency T alias p dep ≡ ok d
      → (d.pkg ≡ p) × (d.source_kind ≡ registry) × IsValidSource registry d
  unfolding parse_registry_dependency validate_registry_root require_exact_semver
  parse_registry_dependency-valid alias p dep h = ground arith

  parse_source-valid :
      (has_path has_git : Bool) (alias : Text) (p : Option Text) (dep : Table) {d : Dependency}
      → parse_source T has_path has_git alias p dep ≡ ok d
      → (d.pkg ≡ p) × IsValidSource d.source_kind d
  unfolding parse_source
  parse_source-valid true has_git alias p dep {d} h =
      let v = parse_path_dependency-valid alias p dep h in
      (v.0, subst (λ k. IsValidSource k d) (sym v.1) v.2)
  parse_source-valid false true alias p dep {d} h =
      let v = parse_git_dependency-valid alias p dep h in
      (v.0, subst (λ k. IsValidSource k d) (sym v.1) v.2)
  parse_source-valid false false alias p dep {d} h =
      let v = parse_registry_dependency-valid alias p dep h in
      (v.0, subst (λ k. IsValidSource k d) (sym v.1) v.2)

  check_package-valid :
      (o : Option Text) (r : Result Dependency) {d : Dependency}
      → (check_package o >> r) ≡ ok d
      → OptionAll (λ p. is_package_name p ≡ true) o × (r ≡ ok d)
  unfolding require_package_name
  check_package-valid none r h = (tt, h)
  check_package-valid (some p) r h = require-eq-ok (is_package_name p) _ _ r h

  pub parse_dependency-valid :
      (entry : Text × Node) (d : Dependency) → parse_dependency T entry ≡ ok d → IsValidDependency d
  unfolding parse_dependency
  parse_dependency-valid (alias, node) d h =
      let (dep, _, h0) =
        >>=-eq-ok (or_throw "dependency must be an inline table" (as_table node)) _ h in
      let p = string_at T dep "package" in
      let (_, h1) = require-eq-ok _ _ _ (check_package p >> parse_source T _ _ alias p dep) h0 in
      let (named, h2) = check_package-valid p (parse_source T _ _ alias p dep) h1 in
      let (same, source) = parse_source-valid _ _ alias p dep h2 in
      (subst (OptionAll (λ q. is_package_name q ≡ true)) (sym same) named, source)

  pub parse_dependencies-valid :
      (doc : Table) (name : String) {ds : List Dependency}
      → parse_dependencies T doc name ≡ ok ds
      → All IsValidDependency ds
  unfolding parse_dependencies
  parse_dependencies-valid doc name h = in_table (table_at T doc name) h
    where
      in_table :
          (o : Option Table) {ds : List Dependency}
          → (elim o [ none ↦ ok [] | some t ↦ map_result (parse_dependency T) (entries t) ]) ≡ ok ds
          → All IsValidDependency ds
      in_table none e = rw (← ok_injective e) tt
      in_table (some t) e =
          map_result-All IsValidDependency (parse_dependency T) (entries t) parse_dependency-valid e
