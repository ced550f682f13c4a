-- ===== src/Lockfile/UpToOrder.antt =====
-- Lockfile.cpp: the text of a lockfile says everything that the lockfile says, but for the order of
-- its packages and of their dependencies, and does not depend on that order.
use mathlib.Core.Path.{subst}
use mathlib.Core.List.{Permᴰ}
use mathlib.Core.List.Permᴰ
use pafio_nightly.Prelude.{List, [], ◌∷◌, map, ◌≡◌, refl, sym, ap, ◌∙◌, ◌↔◌}
use pafio_nightly.Prelude.Sort.{
  sort_by, sort_by-members, sort_by-perm, sort_by-repeated, sort_by-map, Distinct,
}
use pafio_nightly.Lockfile.{
  LockPackage, LockfileDocument, id_of, itself, serialize_lockfile_canonical,
}
use pafio_nightly.Lockfile.Valid.{IsValidLockfile}
use pafio_nightly.Lockfile.Canonical.{
  canonical_package, canonical, serialize_lockfile_canonical-canonical,
}

-- two packages that differ in the order of their dependencies only
pub record IsSamePackage (p q : LockPackage) : Type 0 where
  pub id : p.id ≡ q.id
  pub name : p.name ≡ q.name
  pub version : p.version ≡ q.version
  pub source_kind : p.source_kind ≡ q.source_kind
  pub git : p.git ≡ q.git
  pub rev : p.rev ≡ q.rev
  pub registry : p.registry ≡ q.registry
  pub sha256 : p.sha256 ≡ q.sha256
  pub dependencies : Permᴰ p.dependencies q.dependencies

abbrev pub Pairwise : List LockPackage → List LockPackage → Type 0
Pairwise [] [] = Unit
Pairwise [] (q ∷ qs) = ⊥
Pairwise (p ∷ ps) [] = ⊥
Pairwise (p ∷ ps) (q ∷ qs) = IsSamePackage p q × Pairwise ps qs

-- two lockfiles that differ in the order of their packages and of the dependencies only
pub record IsSameUpToOrder (l m : LockfileDocument) : Type 0 where
  pub generated_by : l.generated_by ≡ m.generated_by
  pub resolver : l.resolver ≡ m.resolver
  pub ordered : List LockPackage
  pub others : List LockPackage
  pub left : Permᴰ l.packages ordered
  pub same : Pairwise ordered others
  pub right : Permᴰ others m.packages

canonical_package-IsSamePackage :
    (p q : LockPackage) → canonical_package p ≡ canonical_package q → IsSamePackage p q
unfolding canonical_package
canonical_package-IsSamePackage p q e = record {
  id = ap (λ (x : LockPackage). x.id) e;
  name = ap (λ (x : LockPackage). x.name) e;
  version = ap (λ (x : LockPackage). x.version) e;
  source_kind = ap (λ (x : LockPackage). x.source_kind) e;
  git = ap (λ (x : LockPackage). x.git) e;
  rev = ap (λ (x : LockPackage). x.rev) e;
  registry = ap (λ (x : LockPackage). x.registry) e;
  sha256 = ap (λ (x : LockPackage). x.sha256) e;
  dependencies = Permᴰ.trans (sort_by-members itself p.dependencies) (
      subst (λ d. Permᴰ d q.dependencies) (sym (ap (λ (x : LockPackage). x.dependencies) e))
        (Permᴰ.symm (sort_by-members itself q.dependencies)));
}

canonical_packages-Pairwise :
    (ps qs : List LockPackage)
    → map canonical_package ps ≡ map canonical_package qs
    → Pairwise ps qs
canonical_packages-Pairwise [] [] e = tt
canonical_packages-Pairwise [] (q ∷ qs) e = cc
canonical_packages-Pairwise (p ∷ ps) [] e = cc
canonical_packages-Pairwise (p ∷ ps) (q ∷ qs) e =
    (canonical_package-IsSamePackage p q (cc), canonical_packages-Pairwise ps qs (cc))

same-canonical_package :
    (p q : LockPackage) → IsSamePackage p q → canonical_package p ≡ canonical_package q
unfolding canonical_package
same-canonical_package p q s =
    let sorted = sort_by-repeated itself (λ x y e. e) s.dependencies in
    cc (s.id, s.name, s.version, s.source_kind, s.git, s.rev, s.registry, s.sha256, sorted)

same-canonical_packages :
    (ps qs : List LockPackage)
    → Pairwise ps qs
    → map canonical_package ps ≡ map canonical_package qs
same-canonical_packages [] [] s = refl
same-canonical_packages [] (q ∷ qs) s = absurd s
same-canonical_packages (p ∷ ps) [] s = absurd s
same-canonical_packages (p ∷ ps) (q ∷ qs) s =
    cc (same-canonical_package p q s.0, same-canonical_packages ps qs s.1)

-- the packages in order, each with its dependencies in order
canonical_packages-order :
    (ps : List LockPackage)
    → map canonical_package (sort_by id_of ps) ≡ sort_by id_of (map canonical_package ps)
unfolding canonical_package
canonical_packages-order ps = sort_by-map id_of canonical_package (λ p. refl) ps

canonical-IsSameUpToOrder :
    (l m : LockfileDocument) → canonical l ≡ canonical m → IsSameUpToOrder l m
unfolding canonical
canonical-IsSameUpToOrder l m e = record {
  generated_by = ap (λ (x : LockfileDocument). x.generated_by) e;
  resolver = ap (λ (x : LockfileDocument). x.resolver) e;
  ordered = sort_by id_of l.packages;
  others = sort_by id_of m.packages;
  left = sort_by-members id_of l.packages;
  same =
      canonical_packages-Pairwise (sort_by id_of l.packages) (sort_by id_of m.packages)
        (ap (λ (x : LockfileDocument). x.packages) e);
  right = Permᴰ.symm (sort_by-members id_of m.packages);
}

same-canonical :
    (l m : LockfileDocument)
    → Distinct id_of l.packages
    → Distinct id_of m.packages
    → IsSameUpToOrder l m
    → canonical l ≡ canonical m
unfolding canonical
same-canonical l m d e s =
    let first = sort_by-perm id_of s.left d in
    let last = sort_by-perm id_of (Permᴰ.symm s.right) e in
    let middle =
      canonical_packages-order s.ordered
      ∙ ap (sort_by id_of) (same-canonical_packages s.ordered s.others s.same)
      ∙ sym (canonical_packages-order s.others) in
    let packages =
      ap (map canonical_package) first ∙ middle ∙ sym (ap (map canonical_package) last) in
    cc (s.generated_by, s.resolver, packages)

-- Two valid lockfiles, each with distinct ids, are written as the same text exactly when they
-- differ in the order of their packages and in that of the dependencies of a package only.
pub serialize_lockfile_canonical-faithful :
    (l m : LockfileDocument)
    → IsValidLockfile l
    → IsValidLockfile m
    → Distinct id_of l.packages
    → Distinct id_of m.packages
    → (serialize_lockfile_canonical l ≡ serialize_lockfile_canonical m) ↔ IsSameUpToOrder l m
serialize_lockfile_canonical-faithful l m v w d e =
    let text_of = serialize_lockfile_canonical-canonical l m v w in
    (λ h. canonical-IsSameUpToOrder l m (text_of.0 h), λ s. text_of.1 (same-canonical l m d e s))
