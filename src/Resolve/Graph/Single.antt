-- ===== src/Resolve/Graph/Single.antt =====
-- Every visit keeps the graph: one version and one source for each package.
use mathlib.Core.Path.{subst}
use pafio_nightly.Prelude.{
  ℕ, zero, suc, not, Option, none, some, List, [], ◌∷◌, length, Text, ◌≡◌, refl, sym, ap, ◌∙◌,
}
use pafio_nightly.Prelude.Runs.{back, run, follow, follow-eq-back, run-eq-back, back_injective}
use pafio_nightly.FilePath.{parent_path}
use pafio_nightly.Manifest.{Dependency}
use pafio_nightly.Resolve.{
  SourceOrigin, canonical_absolute_path, build_source_fingerprint, collect_dependencies,
}
use pafio_nightly.Resolve.Select.{Resolver, Materialized, find}
use pafio_nightly.Resolve.Graph.{
  Node, GraphState, ResolvedDependencyAlias, node_at, enter_node, select_dependency,
  resolve_dependencies, names_package, make_node, visit_new, visit_named, visit_source,
  resolve_node, same_name, same_source,
}
use pafio_nightly.Resolve.Graph.Invariant.{
  IsGraph, Extends, Closed, enter_node-IsGraph, leave_node-IsGraph, leave_node-Extends,
}
use pafio_nightly.Resolve.Graph.Steps.{
  past_test, node_at-has_id, node_at-All, Extends-refl, Extends-trans, select_dependency-keeps,
  Visit, SelectsOrigins, make_node-new, same_name-back,
}

module _ (r : Resolver) (Q : SourceOrigin → Type 0) (M : Materialized → Type 0)
    (selects : SelectsOrigins r Q M) where
  abbrev pub Preserving : Visit r → Type 0
  Preserving visit =
      (manifest_path : Text) (origin : SourceOrigin) (st : GraphState) (i : ℕ) (st' : GraphState)
      → IsGraph Q M st
      → Q origin
      → visit manifest_path origin st ≡ back (i, st')
      → IsGraph Q M st' × Extends st st'

  -- what a loop over dependencies comes back with, from the state `st`
  abbrev GoodLoop : GraphState → List Text × List ResolvedDependencyAlias × GraphState → Type 0
  GoodLoop st t = IsGraph Q M t.2 × Extends st t.2 × Closed t.2.nodes t.0

  pub resolve_dependencies-keeps :
      (visit : Visit r)
      → Preserving visit
      → (index : ℕ) (deps : List Dependency) (st : GraphState)
        {t : List Text × List ResolvedDependencyAlias × GraphState}
      → IsGraph Q M st
      → resolve_dependencies r visit index deps st ≡ back t
      → GoodLoop st t
  unfolding resolve_dependencies
  resolve_dependencies-keeps visit keeps index [] st g h =
      subst (GoodLoop st) (back_injective h) (g, Extends-refl st, tt)
  resolve_dependencies-keeps visit keeps index (dependency ∷ rest) st g h =
      let (node, e₀, h₁) = follow-eq-back (node_at st index) _ h in
      let ((s, st₁), e₁, h₂) = follow-eq-back (run (select_dependency r node dependency st)) _ h₁ in
      let selected = run-eq-back _ e₁ in
      let (q, m) =
        selects node dependency st s st₁ (node_at-All Q st index g.origins e₀) g.memo selected in
      let (g₁, x₁) = select_dependency-keeps r Q M node dependency st selected g m in
      let ((found, st₂), e₂, h₃) = follow-eq-back (visit s.manifest_path s.origin st₁) _ h₂ in
      let (g₂, x₂) = keeps s.manifest_path s.origin st₁ found st₂ g₁ q e₂ in
      let (dn, e₃, h₄) = follow-eq-back (node_at st₂ found) _ h₃ in
      let h₅ = past_test (not (names_package r dependency.pkg dn.pkg.name)) _ _ _ h₄ in
      let ((ids, aliases, st₃), e₄, h₆) =
        follow-eq-back (resolve_dependencies r visit index rest st₂) _ h₅ in
      let (g₃, x₃, c₃) = resolve_dependencies-keeps visit keeps index rest st₂ g₂ e₄ in
      subst (GoodLoop st) (back_injective h₆) (
        g₃,
        Extends-trans x₁ (Extends-trans x₂ x₃),
        (x₃.ids dn.id (node_at-has_id st₂ found e₃), c₃),
      )

  abbrev GoodVisit : GraphState → ℕ × GraphState → Type 0
  GoodVisit st t = IsGraph Q M t.1 × Extends st t.1

  visit_new-keeps :
      (visit : Visit r) (node : Node) (st : GraphState) {t : ℕ × GraphState}
      → Preserving visit
      → IsGraph Q M st
      → Q node.origin
      → find node.pkg.name st.node_by_package_name ≡ none
      → find node.source_fingerprint st.node_by_source_fingerprint ≡ none
      → node.dependencies ≡ []
      → visit_new r visit node st ≡ back t
      → GoodVisit st t
  unfolding visit_new
  visit_new-keeps visit node st keeps g q new_name new_source leaf h =
      let g₁ = enter_node-IsGraph Q M node st g q new_name new_source leaf in
      let ((ids, aliases, st₂), e, h₁) =
        follow-eq-back
          (resolve_dependencies r visit (length st.nodes) (collect_dependencies node.pkg)
            (enter_node node st))
          _ h in
      let (g₂, x₂, c₂) =
        resolve_dependencies-keeps visit keeps (length st.nodes) (collect_dependencies node.pkg)
          (enter_node node st) g₁ e in
      subst (GoodVisit st) (back_injective h₁) (
        leave_node-IsGraph Q M (length st.nodes) ids aliases st₂ g₂ c₂,
        leave_node-Extends node (length st.nodes) ids aliases st st₂ x₂,
      )

  visit_named-keeps :
      (visit : Visit r) (node : Node) (st : GraphState) {t : ℕ × GraphState}
      → Preserving visit
      → IsGraph Q M st
      → Q node.origin
      → find node.source_fingerprint st.node_by_source_fingerprint ≡ none
      → node.dependencies ≡ []
      → visit_named r visit node st ≡ back t
      → GoodVisit st t
  unfolding visit_named
  visit_named-keeps visit node st {t} keeps g q new_source leaf h =
      by_name (find node.pkg.name st.node_by_package_name) refl h
    where
      by_name :
          (o : Option ℕ)
          → find node.pkg.name st.node_by_package_name ≡ o
          → (elim o [
            | some index ↦ follow (node_at st index) λ other. same_name r node index other st
            | none ↦ visit_new r visit node st
          ])
            ≡ back t
          → GoodVisit st t
      by_name none e k = visit_new-keeps visit node st keeps g q e new_source leaf k
      by_name (some index) e k =
          let (other, _, k₁) = follow-eq-back (node_at st index) _ k in
          subst (GoodVisit st) (same_name-back r node index other st k₁) (g, Extends-refl st)

  visit_source-keeps :
      (visit : Visit r) (manifest_path : Text) (origin : SourceOrigin) (fingerprint : Text)
      (st : GraphState) {t : ℕ × GraphState}
      → Preserving visit
      → IsGraph Q M st
      → Q origin
      → visit_source r visit manifest_path origin fingerprint st ≡ back t
      → GoodVisit st t
  unfolding visit_source
  visit_source-keeps visit manifest_path origin fingerprint st {t} keeps g q h =
      by_source (find fingerprint st.node_by_source_fingerprint) refl h
    where
      by_source :
          (o : Option ℕ)
          → find fingerprint st.node_by_source_fingerprint ≡ o
          → (elim o [
            | some index ↦ same_source r index st
            | none ↦
                follow
                  (run (make_node r manifest_path origin fingerprint))
                  λ node. visit_named r visit node st
          ])
            ≡ back t
          → GoodVisit st t
      by_source (some index) e k =
          subst (GoodVisit st) (back_injective (past_test _ _ _ (back (index, st)) k))
            (g, Extends-refl st)
      by_source none e k =
          let (node, made, k₁) =
            follow-eq-back (run (make_node r manifest_path origin fingerprint)) _ k in
          let (same, leaf, at) =
            make_node-new r manifest_path origin fingerprint (run-eq-back _ made) in
          visit_named-keeps visit node st keeps g (subst Q (sym at) q)
            (ap (λ f. find f st.node_by_source_fingerprint) same ∙ e) leaf k₁

  pub resolve_node-keeps : (fuel : ℕ) → Preserving (resolve_node r fuel)
  unfolding resolve_node
  resolve_node-keeps zero manifest_path origin st i st' g q h = cc
  resolve_node-keeps (suc fuel) manifest_path origin st i st' g q h =
      let normal = canonical_absolute_path r.machine manifest_path in
      let (fingerprint, _, k) =
        follow-eq-back (run (build_source_fingerprint r.machine origin (parent_path normal))) _ h in
      visit_source-keeps (resolve_node r fuel) normal origin fingerprint st
        (resolve_node-keeps fuel) g q k

-- The package graph that a visit of any manifest leaves behind, from a graph that is sound: no two
-- nodes have the same package name, and no two the same source; every dependency of a node is the
-- id of a node; and the stack of nodes under way is as it was. It holds for every machine, whatever
-- the manifests, snapshots and registries are.
pub resolve_node-single :
    (r : Resolver) (fuel : ℕ) (manifest_path : Text) (origin : SourceOrigin) (st : GraphState)
    (i : ℕ) (st' : GraphState)
    → IsGraph (λ _. Unit) (λ _. Unit) st
    → resolve_node r fuel manifest_path origin st ≡ back (i, st')
    → IsGraph (λ _. Unit) (λ _. Unit) st' × Extends st st'
resolve_node-single r fuel manifest_path origin st i st' g h =
    resolve_node-keeps r (λ _. Unit) (λ _. Unit) (λ _ _ _ _ _ _ _ _. (tt, tt)) fuel manifest_path
      origin st i st' g tt h
