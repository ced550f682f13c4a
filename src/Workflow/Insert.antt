-- ===== src/Workflow/Insert.antt =====
-- The edits of a package: a dependency that is added is valid, and removing it gives the package
-- back.
use mathlib.Core.Path.{subst}
use pafio_nightly.Prelude.{
  ℕ, suc, ◌+◌, Bool, true, false, not, ◌&&◌, ◌||◌, Option, none, some, List, [], ◌∷◌, ◌++◌, ◌≡◌,
  ◌≢◌, refl, ap, sym, ◌∙◌, All-append, length, erase_at, Text, text_eq, text_eq_refl, Bool-cases,
  ok, require-eq-ok, require-ok, ok_injective, arith, inl, inr, ◌==◌,
}
use pafio_nightly.Lexicon.{
  is_package_name, is_exact_semver, is_git_commit_id, url_has_userinfo, require_package_name,
  require_exact_semver, require_git_commit_id,
}
use pafio_nightly.Manifest.{path, git, registry, Dependency, PackageConfig}
use pafio_nightly.Manifest.Parse.{is_some, get_or}
use pafio_nightly.Manifest.Rules.{is_non_empty_relative_path, is_registry_root_url}
use pafio_nightly.Manifest.Sources.{
  SomeHas, IsValidDependency, IsValidSource, IsValidPackage, nonempty_of_test,
}
use pafio_nightly.Manifest.Targets.{negated}
use pafio_nightly.Workflow.Edit.{
  DependencySection, dependencies, dev_dependencies, AddDependencyRequest, RemoveDependencyRequest,
  MatchLocation, select_section, set_section, dependency_matches_target, collect_matches,
  find_matches,
}
use pafio_nightly.Workflow.Requests.{
  check_add_request, check_kind, check_git_request, check_registry_request, check_path_request,
  kind_of_request, dependency_of, insert_dependency, has_alias, has_package, kind_count,
  is_empty_text, text_of,
}
use pafio_nightly.Workflow.Commands.{matches_for, single_match, without_match}

some_of_text : (o : Option Text) → text_eq (text_of o) [] ≡ false → o ≡ some (text_of o)
unfolding text_eq
some_of_text none h = cc
some_of_text (some s) h = refl

none_of_test : (o : Option Text) → is_some o ≡ false → o ≡ none
none_of_test none h = refl
none_of_test (some s) h = cc

or_false : (a b : Bool) → (a || b) ≡ false → (a ≡ false) × (b ≡ false)
or_false true b h = cc
or_false false b h = (refl, h)

check_git-IsValid :
    (request : AddDependencyRequest) (alias : Text) {u : Unit {0}}
    → request.source ≢ []
    → check_git_request request ≡ ok u
    → IsValidSource git (dependency_of request alias)
unfolding check_git_request require_git_commit_id
check_git-IsValid request alias named h =
    let (given, h1) = require-eq-ok (not (text_eq (text_of request.rev) [])) _ _ _ h in
    let (commit, h2) = require-eq-ok (is_git_commit_id (text_of request.rev)) _ _ _ h1 in
    let (clean, h3) = require-eq-ok (not (url_has_userinfo request.source)) _ _ _ h2 in
    let no_version = require-ok (not (is_some request.version)) _ _ h3 in
    (
      named,
      negated clean,
      subst (SomeHas (λ r. is_git_commit_id r ≡ true))
          (sym (some_of_text request.rev (negated given))) commit,
      none_of_test request.version (negated no_version),
    )

check_registry-IsValid :
    (request : AddDependencyRequest) (alias : Text) {u : Unit {0}}
    → url_has_userinfo request.source ≡ false
    → check_registry_request request ≡ ok u
    → IsValidSource registry (dependency_of request alias)
unfolding check_registry_request require_exact_semver
check_registry-IsValid request alias clean h =
    let (no_rev, h1) = require-eq-ok (not (is_some request.rev)) _ _ _ h in
    let (given, h2) = require-eq-ok (not (text_eq (text_of request.version) [])) _ _ _ h1 in
    let (exact, h3) = require-eq-ok (is_exact_semver (text_of request.version)) _ _ _ h2 in
    let url = require-ok (is_registry_root_url request.source) _ _ h3 in
    (
      refl,
      subst (SomeHas (λ v. is_exact_semver v ≡ true))
          (sym (some_of_text request.version (negated given))) exact,
      url,
      clean,
      none_of_test request.rev (negated no_rev),
    )

check_path-IsValid :
    (request : AddDependencyRequest) (alias : Text) {u : Unit {0}}
    → is_non_empty_relative_path request.source ≡ true
    → check_path_request request ≡ ok u
    → IsValidSource path (dependency_of request alias)
unfolding check_path_request
check_path-IsValid request alias relative h =
    let (no_rev, no_version) =
      or_false _ _
        (negated (require-ok (not (is_some request.rev || is_some request.version)) _ _ h)) in
    (relative, none_of_test request.rev no_rev, none_of_test request.version no_version)

path_relative :
    (git_kind registry_kind relative : Bool)
    → git_kind ≡ false
    → registry_kind ≡ false
    → not (not git_kind && (not registry_kind && not relative)) ≡ true
    → relative ≡ true
path_relative git_kind registry_kind relative g r h = ground arith

-- A request that passes the checks is for a valid dependency, if it is not for a registry whose
-- root embeds credentials.
check_kind-IsValid :
    (request : AddDependencyRequest) (alias : Text) {u : Unit {0}}
    → request.source ≢ []
    → (request.use_registry && url_has_userinfo request.source) ≡ false
    → not (
        not request.use_git
        && (not request.use_registry && not (is_non_empty_relative_path request.source)))
      ≡ true
    → check_kind request ≡ ok u
    → IsValidSource (kind_of_request request) (dependency_of request alias)
unfolding check_kind check_git_request check_registry_request check_path_request
check_kind-IsValid request alias named clean relative h = elim (Bool-cases request.use_git) [
  | inl is_git ↦ rw is_git (check_git-IsValid request alias named (rw is_git at h))
  | inr not_git ↦ elim (Bool-cases request.use_registry) [
    | inl is_registry ↦
        rw (not_git, is_registry)
          (check_registry-IsValid request alias (rw is_registry at clean)
            (rw (not_git, is_registry) at h))
    | inr not_registry ↦
        rw (not_git, not_registry)
          (check_path-IsValid request alias (path_relative _ _ _ not_git not_registry relative)
            (rw (not_git, not_registry) at h))
  ]
]

check_add_request-IsValid :
    (request : AddDependencyRequest) (alias : Text) {u : Unit {0}}
    → (request.use_registry && url_has_userinfo request.source) ≡ false
    → check_add_request request ≡ ok u
    → IsValidDependency (dependency_of request alias)
unfolding check_add_request require_package_name
check_add_request-IsValid request alias clean h =
    let (_, h1) = require-eq-ok (not (is_empty_text request.alias)) _ _ _ h in
    let (named, h2) = require-eq-ok (not (text_eq request.source [])) _ _ _ h1 in
    let (name, h3) = require-eq-ok (is_package_name request.package_name) _ _ _ h2 in
    let (_, h4) = require-eq-ok (kind_count request == 1) _ _ _ h3 in
    let (relative, h5) =
      require-eq-ok
        (not (
          not request.use_git
          && (not request.use_registry && not (is_non_empty_relative_path request.source))))
        _ _ _ h4 in
    (
      name,
      check_kind-IsValid request alias (nonempty_of_test request.source (negated named)) clean
          relative h5,
    )

-- a section in which nothing matches gives no locations
collect_none :
    (section : DependencySection) (target : Text) (index : ℕ) (ds : List Dependency)
    → has_alias target ds ≡ false
    → collect_matches section target false index ds ≡ []
unfolding collect_matches dependency_matches_target
collect_none section target index [] h = refl
collect_none section target index (d ∷ ds) h =
    let (a, b) = or_false (text_eq d.alias target) _ h in
    rw (a, collect_none section target (suc index) ds b)

abbrev location : DependencySection → ℕ → Dependency → MatchLocation
location section index d = record {
  section = section;
  index = index;
  alias = d.alias;
  package_name = get_or d.pkg [];
}

-- and with one more dependency at the end, which matches, it gives that place
collect_last :
    (section : DependencySection) (index : ℕ) (ds : List Dependency) (d : Dependency)
    → has_alias d.alias ds ≡ false
    → collect_matches section d.alias false index (ds ++ (d ∷ []))
      ≡ location section (index + length ds) d ∷ []
unfolding collect_matches dependency_matches_target
collect_last section index [] d h =
    rw (text_eq_refl d.alias) (ap (λ n. location section n d ∷ []) (omega arith))
collect_last section index (e ∷ ds) d h =
    let (a, b) = or_false (text_eq e.alias d.alias) _ h in
    rw a
      (collect_last section (suc index) ds d b ∙ ap (λ n. location section n d ∷ []) (omega arith))

erase_last {ℓ} : {A : Type ℓ} (xs : List A) (x : A) → erase_at (xs ++ (x ∷ [])) (length xs) ≡ xs
erase_last [] x = refl
erase_last (y ∷ xs) x = ap (λ l. y ∷ l) (erase_last xs x)

abbrev removal : Text → Text → RemoveDependencyRequest
removal manifest_path target = record {
  manifest_path = manifest_path;
  target = target;
  section = none;
}

-- where one location is found by alias, it is the one that is removed
found_by_alias :
    (p : PackageConfig) (manifest_path target : Text) (m : MatchLocation)
    → find_matches p target none false ≡ m ∷ []
    → single_match (matches_for p (removal manifest_path target)) ≡ ok m
unfolding matches_for
found_by_alias p manifest_path target m e = rw e

Removes : Text → Text → PackageConfig → PackageConfig → Type 0
Removes manifest_path alias changed p =
    (m : MatchLocation) × (single_match (matches_for changed (removal manifest_path alias)) ≡ ok m)
    × (without_match changed m ≡ p)

Removes-last :
    (section : DependencySection) (p : PackageConfig) (d : Dependency) (manifest_path : Text)
    → has_alias d.alias p.dependencies ≡ false
    → has_alias d.alias p.dev_dependencies ≡ false
    → Removes manifest_path d.alias (set_section p section (select_section p section ++ (d ∷ []))) p
unfolding Removes find_matches
Removes-last dependencies p d manifest_path a b =
    let m = location dependencies (length p.dependencies) d in
    let changed = record p { dependencies = p.dependencies ++ (d ∷ []) } in
    (
      m,
      found_by_alias changed manifest_path d.alias m (
          rw
            (
              collect_last dependencies 0 p.dependencies d a,
              collect_none dev_dependencies d.alias 0 p.dev_dependencies b,
            )
            (ap (λ n. location dependencies n d ∷ []) (omega arith))),
      ap (λ ds. record p { dependencies = ds }) (erase_last p.dependencies d),
    )
Removes-last dev_dependencies p d manifest_path a b =
    let m = location dev_dependencies (length p.dev_dependencies) d in
    let changed = record p { dev_dependencies = p.dev_dependencies ++ (d ∷ []) } in
    (
      m,
      found_by_alias changed manifest_path d.alias m (
          rw
            (
              collect_none dependencies d.alias 0 p.dependencies a,
              collect_last dev_dependencies 0 p.dev_dependencies d b,
            )
            (ap (λ n. location dev_dependencies n d ∷ []) (omega arith))),
      ap (λ ds. record p { dev_dependencies = ds }) (erase_last p.dev_dependencies d),
    )

-- what an accepted insertion gives
insert_dependency-parts :
    (request : AddDependencyRequest) (alias : Text) (p changed : PackageConfig)
    → insert_dependency request alias p ≡ ok changed
    → (has_alias alias p.dependencies ≡ false)
      × (has_alias alias p.dev_dependencies ≡ false)
      × (set_section p request.section
            (select_section p request.section ++ (dependency_of request alias ∷ []))
          ≡ changed)
unfolding insert_dependency
insert_dependency-parts request alias p changed h =
    let (fresh, h1) =
      require-eq-ok (not (has_alias alias p.dependencies || has_alias alias p.dev_dependencies)) _ _
        _ h in
    let (_, h2) =
      require-eq-ok
        (not (
          has_package request.package_name p.dependencies
          || has_package request.package_name p.dev_dependencies))
        _ _ _ h1 in
    let (a, b) = or_false _ _ (negated fresh) in (a, b, ok_injective h2)

-- After a dependency is inserted, the request to remove its alias finds one location, and the
-- package without it is the package before.
pub insert_dependency-removes :
    (request : AddDependencyRequest) (alias manifest_path : Text) (p changed : PackageConfig)
    → insert_dependency request alias p ≡ ok changed
    → (m : MatchLocation) × (single_match (
          matches_for changed
            (record { manifest_path = manifest_path; target = alias; section = none }))
        ≡ ok m)
      × (without_match changed m ≡ p)
unfolding Removes
insert_dependency-removes request alias manifest_path p changed h =
    let (a, b, e) = insert_dependency-parts request alias p changed h in
    subst (λ q. Removes manifest_path alias q p) e
      (Removes-last request.section p (dependency_of request alias) manifest_path a b)

valid_section :
    (section : DependencySection) (p : PackageConfig) (d : Dependency)
    → IsValidDependency d
    → IsValidPackage p
    → IsValidPackage (set_section p section (select_section p section ++ (d ∷ [])))
valid_section dependencies p d good v = record {
  name = v.name;
  version = v.version;
  edition = v.edition;
  has_target = v.has_target;
  lib = v.lib;
  bins = v.bins;
  bin_names = v.bin_names;
  tests = v.tests;
  test_names = v.test_names;
  dependencies = All-append IsValidDependency p.dependencies (d ∷ []) v.dependencies (good, tt);
  dev_dependencies = v.dev_dependencies;
}
valid_section dev_dependencies p d good v = record {
  name = v.name;
  version = v.version;
  edition = v.edition;
  has_target = v.has_target;
  lib = v.lib;
  bins = v.bins;
  bin_names = v.bin_names;
  tests = v.tests;
  test_names = v.test_names;
  dependencies = v.dependencies;
  dev_dependencies =
      All-append IsValidDependency p.dev_dependencies (d ∷ []) v.dev_dependencies (good, tt);
}

-- A request that passes the checks, and is not for a registry root that embeds credentials, leaves
-- a valid package valid.
pub insert_dependency-IsValidPackage :
    (request : AddDependencyRequest) (alias : Text) (p changed : PackageConfig)
    → (request.use_registry && url_has_userinfo request.source) ≡ false
    → check_add_request request ≡ ok tt
    → insert_dependency request alias p ≡ ok changed
    → IsValidPackage p
    → IsValidPackage changed
insert_dependency-IsValidPackage request alias p changed clean checked h v =
    subst IsValidPackage (insert_dependency-parts request alias p changed h).2 (
      valid_section request.section p (dependency_of request alias)
        (check_add_request-IsValid request alias clean checked) v)
