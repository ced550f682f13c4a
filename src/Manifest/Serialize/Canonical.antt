-- ===== src/Manifest/Serialize/Canonical.antt =====
-- The canonical text does not depend on the order in which a manifest lists its parts.
use mathlib.Core.List.{Permᴰ}
use pafio_nightly.Prelude.{Option, some, List, ◌++◌, ◌≡◌, refl, sym, ap, ◌∙◌, Text, text}
use pafio_nightly.Prelude.Sort.{Distinct, Distinct-perm, sort_by-perm}
use pafio_nightly.Manifest.{Dependency, BinTarget, TestTarget, PackageConfig, WorkspaceConfig}
use pafio_nightly.Manifest.Serialize.{
  alias_of, bin_name, test_name, emit_dependencies, emit_dependency_section, emit_package,
  emit_workspace, if_there, serialize_manifest_canonical,
}

-- Two packages that differ in the order of their targets and dependencies only.
pub record SameParts (p q : PackageConfig) : Type 0 where
  pub rest : q ≡ record p {
    bins = q.bins;
    tests = q.tests;
    dependencies = q.dependencies;
    dev_dependencies = q.dev_dependencies;
  }
  pub bins : Permᴰ p.bins q.bins
  pub tests : Permᴰ p.tests q.tests
  pub dependencies : Permᴰ p.dependencies q.dependencies
  pub dev_dependencies : Permᴰ p.dev_dependencies q.dev_dependencies

-- No two targets of a kind share a name, and no two dependencies of a table an alias.
pub record DistinctParts (p : PackageConfig) : Type 0 where
  pub bins : Distinct bin_name p.bins
  pub tests : Distinct test_name p.tests
  pub dependencies : Distinct alias_of p.dependencies
  pub dev_dependencies : Distinct alias_of p.dev_dependencies

emit_dependencies-perm :
    (name : Text) {xs ys : List Dependency}
    → Permᴰ xs ys
    → Distinct alias_of xs
    → emit_dependencies name xs ≡ emit_dependencies name ys
unfolding emit_dependency_section
emit_dependencies-perm name Permᴰ.nil d = refl
emit_dependencies-perm name (Permᴰ.cons e p) d = rw (sort_by-perm alias_of (Permᴰ.cons e p) d) refl
emit_dependencies-perm name (Permᴰ.swap {l} e f) d =
    rw (sort_by-perm alias_of (Permᴰ.swap {l = l} e f) d) refl
emit_dependencies-perm name (Permᴰ.trans p q) d =
    emit_dependencies-perm name p d ∙ emit_dependencies-perm name q (Distinct-perm alias_of p d)

reordered :
    (p : PackageConfig) (bins : List BinTarget) (tests : List TestTarget)
    (deps devs : List Dependency)
    → DistinctParts p
    → Permᴰ p.bins bins
    → Permᴰ p.tests tests
    → Permᴰ p.dependencies deps
    → Permᴰ p.dev_dependencies devs
    → emit_package p
      ≡ emit_package
          (record p { bins = bins; tests = tests; dependencies = deps; dev_dependencies = devs })
unfolding emit_package
reordered p bins tests deps devs d b t e f =
    rw
      (
        sort_by-perm bin_name b d.bins,
        sort_by-perm test_name t d.tests,
        emit_dependencies-perm (text "dependencies") e d.dependencies,
        emit_dependencies-perm (text "dev-dependencies") f d.dev_dependencies,
      )
      refl

emit_package-perm :
    (p q : PackageConfig) → SameParts p q → DistinctParts p → emit_package p ≡ emit_package q
emit_package-perm p q s d =
    reordered p q.bins q.tests q.dependencies q.dev_dependencies d s.bins s.tests s.dependencies
      s.dev_dependencies
    ∙ ap emit_package (sym s.rest)

-- The canonical text of a manifest is that of every manifest that lists the same targets and
-- dependencies in another order, where no two targets of a kind share a name and no two
-- dependencies of a table share an alias.
pub serialize_manifest_canonical-perm :
    (p q : PackageConfig) (w : Option WorkspaceConfig)
    → SameParts p q
    → DistinctParts p
    → serialize_manifest_canonical (record { pkg = some p; workspace = w })
      ≡ serialize_manifest_canonical (record { pkg = some q; workspace = w })
unfolding serialize_manifest_canonical
serialize_manifest_canonical-perm p q w s d =
    ap (λ part. text "[pafio]\nmanifest-version = 1\n" ++ (part ++ if_there emit_workspace w))
      (emit_package-perm p q s d)
