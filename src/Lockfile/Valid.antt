-- ===== src/Lockfile/Valid.antt =====
-- A lockfile that loads has the fields that its packages' sources need, and no others.
use pafio_nightly.Prelude.{
  Text, text, text_eq, text_eq_iff, Bool, true, false, not, ◌||◌, Option, none, some, List, [], ok,
  All, arith, ◌≡◌, ◌≢◌, refl, sym, ◌⊎◌, inl, inr, Bool-cases, >>=-eq-ok, require-eq-ok, require-ok,
  ok_injective,
}
use mathlib.Core.Path.{subst}
use pafio_nightly.Lexicon.{
  is_package_name, is_exact_semver, is_git_commit_id, is_sha256_digest, require_package_name,
  require_exact_semver, require_git_commit_id, require_sha256_digest,
}
use pafio_nightly.Toml.Library.{Library, table_at, array_at, is_one_at, or_throw}
use pafio_nightly.Manifest.{Files}
use pafio_nightly.Manifest.Parse.{get_or, is_some, parsed, require_string, require_string_array}
use pafio_nightly.Manifest.Sources.{SomeHas, map_result-All, nonempty_of_test}
use pafio_nightly.Lockfile.{
  LockPackage, LockfileDocument, is_kind, validate_source_kind, no_text, check_git_package,
  check_registry_package, check_local_package, check_package_source, check_lock_package,
  parse_lock_package, parse_lock_packages, read_lockfile, load_lockfile,
}

-- a commit of a repository and nothing of a registry
pub record IsGitPackage (p : LockPackage) : Type 0 where
  pub kind : p.source_kind ≡ text "git"
  pub git : SomeHas (λ s. s ≢ []) p.git
  pub rev : SomeHas (λ s. is_git_commit_id s ≡ true) p.rev
  pub registry : p.registry ≡ none
  pub sha256 : p.sha256 ≡ none

-- a registry and a digest and nothing of a repository
pub record IsRegistryPackage (p : LockPackage) : Type 0 where
  pub kind : p.source_kind ≡ text "registry"
  pub registry : SomeHas (λ s. s ≢ []) p.registry
  pub sha256 : SomeHas (λ s. is_sha256_digest s ≡ true) p.sha256
  pub git : p.git ≡ none
  pub rev : p.rev ≡ none

-- a package of the tree
pub record IsLocalPackage (p : LockPackage) : Type 0 where
  pub kind : (p.source_kind ≡ text "workspace") ⊎ (p.source_kind ≡ text "path")
  pub git : p.git ≡ none
  pub rev : p.rev ≡ none
  pub registry : p.registry ≡ none
  pub sha256 : p.sha256 ≡ none

pub record IsValidLockPackage (p : LockPackage) : Type 0 where
  pub id : p.id ≢ []
  pub name : is_package_name p.name ≡ true
  pub version : is_exact_semver p.version ≡ true
  pub source : IsGitPackage p ⊎ (IsRegistryPackage p ⊎ IsLocalPackage p)

pub record IsValidLockfile (l : LockfileDocument) : Type 0 where
  pub generated_by : l.generated_by ≢ []
  pub resolver : l.resolver ≡ text "single-version-v1"
  pub packages : All IsValidLockPackage l.packages

kind_text : {s : Text} (word : Text) → text_eq s word ≡ true → s ≡ word
kind_text {s} word h = (text_eq_iff s word).0 h

some_text : (o : Option Text) → no_text o ≡ false → SomeHas (λ s. s ≢ []) o
some_text none h = cc
some_text (some s) h = nonempty_of_test s h

some_test :
    (t : Text → Bool) (o : Option Text)
    → is_some o ≡ true
    → t (get_or o []) ≡ true
    → SomeHas (λ s. t s ≡ true) o
some_test t none h e = cc
some_test t (some s) h e = e

is_some_text : (o : Option Text) → no_text o ≡ false → is_some o ≡ true
is_some_text none h = cc
is_some_text (some s) h = refl

not_some : (o : Option Text) → is_some o ≡ false → o ≡ none
not_some none h = refl
not_some (some s) h = cc

negated : {b : Bool} → not b ≡ true → b ≡ false
negated h = ground arith

git-valid :
    (p : LockPackage) {u : Unit {0}}
    → p.source_kind ≡ text "git"
    → check_git_package p ≡ ok u
    → IsGitPackage p
unfolding check_git_package require_git_commit_id
git-valid p k h =
    let (a, h1) = require-eq-ok (not (no_text p.git)) _ _ _ h in
    let (b, h2) = require-eq-ok (not (no_text p.rev)) _ _ _ h1 in
    let (c, h3) = require-eq-ok (is_git_commit_id (get_or p.rev [])) _ _ _ h2 in
    let d = require-ok (not (is_some p.registry || is_some p.sha256)) _ _ h3 in
    record {
      kind = k;
      git = some_text p.git (negated a);
      rev = some_test is_git_commit_id p.rev (is_some_text p.rev (negated b)) c;
      registry = not_some p.registry (ground arith);
      sha256 = not_some p.sha256 (ground arith);
    }

registry-valid :
    (p : LockPackage) {u : Unit {0}}
    → p.source_kind ≡ text "registry"
    → check_registry_package p ≡ ok u
    → IsRegistryPackage p
unfolding check_registry_package require_sha256_digest
registry-valid p k h =
    let (a, h1) = require-eq-ok (not (no_text p.registry)) _ _ _ h in
    let (b, h2) = require-eq-ok (is_some p.sha256) _ _ _ h1 in
    let (c, h3) = require-eq-ok (is_sha256_digest (get_or p.sha256 [])) _ _ _ h2 in
    let d = require-ok (not (is_some p.git || is_some p.rev)) _ _ h3 in
    record {
      kind = k;
      registry = some_text p.registry (negated a);
      sha256 = some_test is_sha256_digest p.sha256 b c;
      git = not_some p.git (ground arith);
      rev = not_some p.rev (ground arith);
    }

local-valid :
    (p : LockPackage) {u : Unit {0}}
    → (p.source_kind ≡ text "workspace") ⊎ (p.source_kind ≡ text "path")
    → check_local_package p ≡ ok u
    → IsLocalPackage p
unfolding check_local_package
local-valid p k h =
    let d = require-ok _ _ _ h in
    record {
      kind = k;
      git = not_some p.git (ground arith);
      rev = not_some p.rev (ground arith);
      registry = not_some p.registry (ground arith);
      sha256 = not_some p.sha256 (ground arith);
    }

source-valid :
    (p : LockPackage) {u v : Unit {0}}
    → validate_source_kind p.source_kind ≡ ok u
    → check_package_source p ≡ ok v
    → IsGitPackage p ⊎ (IsRegistryPackage p ⊎ IsLocalPackage p)
unfolding validate_source_kind check_package_source
source-valid p allowed h =
    let one = require-ok _ _ _ allowed in
    elim (Bool-cases (is_kind p.source_kind "git")) [
      | inl g ↦ inl (git-valid p (kind_text (text "git") g) (rw g at h))
      | inr g ↦ elim (Bool-cases (is_kind p.source_kind "registry")) [
        | inl r ↦ inr (inl (registry-valid p (kind_text (text "registry") r) (rw (g, r) at h)))
        | inr r ↦ inr (inr (local-valid p (local one g r) (rw (g, r) at h)))
      ]
    ]
  where
    local :
        (is_kind p.source_kind "workspace"
            || is_kind p.source_kind "path"
            || is_kind p.source_kind "git"
            || is_kind p.source_kind "registry")
          ≡ true
        → is_kind p.source_kind "git" ≡ false
        → is_kind p.source_kind "registry" ≡ false
        → (p.source_kind ≡ text "workspace") ⊎ (p.source_kind ≡ text "path")
    local one g r = elim (Bool-cases (is_kind p.source_kind "workspace")) [
      | inl w ↦ inl (kind_text (text "workspace") w)
      | inr w ↦ inr (kind_text (text "path") (ground arith))
    ]

pub check_lock_package-valid :
    (p : LockPackage) {q : LockPackage}
    → check_lock_package p ≡ ok q
    → (q ≡ p) × IsValidLockPackage p
unfolding check_lock_package require_package_name require_exact_semver
check_lock_package-valid p h =
    let (a, h1) = require-eq-ok (not (text_eq p.id [])) _ _ _ h in
    let (b, h2) = require-eq-ok (is_package_name p.name) _ _ _ h1 in
    let (c, h3) = require-eq-ok (is_exact_semver p.version) _ _ _ h2 in
    let (_, d, h4) = >>=-eq-ok (validate_source_kind p.source_kind) _ h3 in
    let (_, e, h5) = >>=-eq-ok (check_package_source p) _ h4 in
    (
      sym (ok_injective h5),
      record {
        id = nonempty_of_test p.id (negated a);
        name = b;
        version = c;
        source = source-valid p d e;
      },
    )

module _ (T : Library) where
  open T use {Table, Node, as_table}

  parse_lock_package-valid :
      (node : Node) (p : LockPackage) → parse_lock_package T node ≡ ok p → IsValidLockPackage p
  unfolding parse_lock_package
  parse_lock_package-valid node p h =
      let (table, _, h1) =
        >>=-eq-ok (or_throw "lockfile package entry must be a table" (as_table node)) _ h in
      let (_, _, h2) = >>=-eq-ok (require_string T table "id") _ h1 in
      let (_, _, h3) = >>=-eq-ok (require_string T table "name") _ h2 in
      let (_, _, h4) = >>=-eq-ok (require_string T table "version") _ h3 in
      let (_, _, h5) = >>=-eq-ok (require_string T table "source-kind") _ h4 in
      let (_, _, h6) = >>=-eq-ok (require_string_array T table "dependencies" false) _ h5 in
      let (same, valid) = check_lock_package-valid _ h6 in subst IsValidLockPackage (sym same) valid

  parse_lock_packages-valid :
      (o : Option (List Node)) {ps : List LockPackage}
      → parse_lock_packages T o ≡ ok ps
      → All IsValidLockPackage ps
  parse_lock_packages-valid none h = rw (← ok_injective h) tt
  parse_lock_packages-valid (some nodes) h =
      map_result-All IsValidLockPackage (parse_lock_package T) nodes parse_lock_package-valid h

  read_lockfile-valid :
      (doc : Table) {l : LockfileDocument} → read_lockfile T doc ≡ ok l → IsValidLockfile l
  unfolding read_lockfile
  read_lockfile-valid doc h =
      let (_, h1) = require-eq-ok (is_one_at T doc "lock-version") _ _ _ h in
      let (metadata, _, h2) =
        >>=-eq-ok (or_throw "missing or invalid [metadata] table" (table_at T doc "metadata")) _
          h1 in
      let (g, _, h3) = >>=-eq-ok (require_string T metadata "generated-by") _ h2 in
      let (r, _, h4) = >>=-eq-ok (require_string T metadata "resolver") _ h3 in
      let (a, h5) = require-eq-ok (not (text_eq g [])) _ _ _ h4 in
      let (b, h6) = require-eq-ok (text_eq r (text "single-version-v1")) _ _ _ h5 in
      let (ps, c, h7) = >>=-eq-ok (parse_lock_packages T (array_at T doc "package")) _ h6 in
      subst IsValidLockfile (ok_injective h7) (record {
        generated_by = nonempty_of_test g (negated a);
        resolver = (text_eq_iff r (text "single-version-v1")).0 b;
        packages = parse_lock_packages-valid (array_at T doc "package") c;
      })

  -- A lockfile that loads is valid: the generator is named, the resolver is `single-version-v1`,
  -- and every package has an id, a package name, an exact version and one of three shapes: a git
  -- package has its repository and a full commit id and neither registry nor digest, a registry
  -- package its registry and a SHA-256 digest and neither repository nor commit, and a workspace or
  -- path package none of the four.
  pub load_lockfile-valid :
      (files : Files) (lockfile_path : Text) (l : LockfileDocument)
      → load_lockfile T files lockfile_path ≡ ok l
      → IsValidLockfile l
  unfolding load_lockfile
  load_lockfile-valid files lockfile_path l h =
      let (doc, _, h1) =
        >>=-eq-ok (or_throw "failed to parse lockfile" (parsed T (files lockfile_path))) _ h in
      read_lockfile-valid doc h1
