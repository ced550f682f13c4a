-- ===== src/Resolve/Graph/Fuel.antt =====
-- Enough fuel: the resolver comes back where there are finitely many sources to select, since each
-- level of the recursion takes up one that it has not seen.
use mathlib.Core.Path.{subst}
use pafio_nightly.Prelude.{
  ℕ, zero, suc, ◌≤◌, ◌<◌, true, Option, none, some, List, [], ◌∷◌, length, Text, arith, ◌≡◌, ◌≢◌,
  refl, sym, ap, ◌∙◌, inl, inr,
}
use pafio_nightly.Prelude.Runs.{
  out_of_fuel, run, follow, follow-eq-out_of_fuel, run-eq-back, run-returns, behind_run,
}
use pafio_nightly.FilePath.{parent_path}
use pafio_nightly.Manifest.{Dependency}
use pafio_nightly.Manifest.Parse.{is_some, contains_text}
use pafio_nightly.Resolve.{
  SourceOrigin, canonical_absolute_path, build_source_fingerprint, collect_dependencies,
}
use pafio_nightly.Resolve.Select.{Resolver, Materialized, find}
use pafio_nightly.Resolve.Graph.{
  Node, GraphState, node_at, enter_node, select_dependency, resolve_dependencies, make_node,
  visit_new, visit_named, visit_source, resolve_node, same_name, same_source,
}
use pafio_nightly.Resolve.Graph.Invariant.{IsGraph, enter_node-IsGraph}
use pafio_nightly.Resolve.Graph.Single.{Preserving, resolve_node-keeps}
use pafio_nightly.Resolve.Graph.Steps.{
  Visit, SelectsOrigins, node_at-All, select_dependency-keeps, make_node-new,
}
use pafio_nightly.Resolve.Graph.Sources.{
  unseen, unseen_less, unseen_strict, enter_node-known, entered_known, node_at-returns,
  keep_dependency-eq-out_of_fuel, IsAmong, SelectsAmong,
}

module _ (r : Resolver) (Q : SourceOrigin → Type 0) (M : Materialized → Type 0)
    (sources : List Text) (among : SelectsAmong r Q M sources) where
  pub origins : SelectsOrigins r Q M
  origins node dependency st s st' q m e =
      let (a, b, _) = among node dependency st s st' q m e in (a, b)

  abbrev KeepsGraph : Visit r → Type 0
  KeepsGraph = Preserving r Q M origins

  abbrev pub Answering : Visit r → ℕ → Type 0
  Answering visit n =
      (manifest_path : Text) (origin : SourceOrigin) (st : GraphState)
      → IsGraph Q M st
      → Q origin
      → IsAmong r sources manifest_path origin
      → unseen sources st < n
      → visit manifest_path origin st ≢ out_of_fuel

  resolve_dependencies-returns :
      (visit : Visit r) (n : ℕ)
      → KeepsGraph visit
      → Answering visit n
      → (index : ℕ) (deps : List Dependency) (st : GraphState) → IsGraph Q M st
      → unseen sources st < n
      → resolve_dependencies r visit index deps st ≢ out_of_fuel
  unfolding resolve_dependencies
  resolve_dependencies-returns visit n keeps returns index [] st g lt h = cc
  resolve_dependencies-returns visit n keeps returns index (dependency ∷ rest) st g lt h =
      elim (follow-eq-out_of_fuel (node_at st index) _ h) [
        | inl e ↦ node_at-returns st index e
        | inr (node, e₀, h₁) ↦
            elim (follow-eq-out_of_fuel (run (select_dependency r node dependency st)) _ h₁) [
              | inl e ↦ run-returns _ e
              | inr ((s, st₁), e₁, h₂) ↦
                  let selected = run-eq-back _ e₁ in
                  let (q, m, within) =
                    among node dependency st s st₁ (node_at-All Q st index g.origins e₀) g.memo
                      selected in
                  let (g₁, x₁) = select_dependency-keeps r Q M node dependency st selected g m in
                  let less₁ = unseen_less sources st st₁ x₁.sources in
                  elim (follow-eq-out_of_fuel (visit s.manifest_path s.origin st₁) _ h₂) [
                    | inl e ↦
                        returns s.manifest_path s.origin st₁ g₁ q within (omega (arith, less₁, lt))
                          e
                    | inr ((found, st₂), e₂, h₃) ↦
                        let (g₂, x₂) = keeps s.manifest_path s.origin st₁ found st₂ g₁ q e₂ in
                        let less₂ = unseen_less sources st₁ st₂ x₂.sources in
                        elim (follow-eq-out_of_fuel (node_at st₂ found) _ h₃) [
                          | inl e ↦ node_at-returns st₂ found e
                          | inr (dn, _, h₄) ↦
                              resolve_dependencies-returns visit n keeps returns index rest st₂ g₂
                                (omega (arith, less₁, less₂, lt))
                                (keep_dependency-eq-out_of_fuel r dependency dn _ h₄)
                        ]
                  ]
            ]
      ]

  visit_new-returns :
      (visit : Visit r) (n : ℕ) (node : Node) (st : GraphState)
      → KeepsGraph visit
      → Answering visit n
      → IsGraph Q M st
      → Q node.origin
      → find node.pkg.name st.node_by_package_name ≡ none
      → find node.source_fingerprint st.node_by_source_fingerprint ≡ none
      → node.dependencies ≡ []
      → contains_text sources node.source_fingerprint ≡ true
      → unseen sources st < suc n
      → visit_new r visit node st ≢ out_of_fuel
  unfolding visit_new
  visit_new-returns visit n node st keeps returns g q new_name new_source leaf member lt h =
      let g₁ = enter_node-IsGraph Q M node st g q new_name new_source leaf in
      let fewer =
        unseen_strict sources st (enter_node node st) node.source_fingerprint
          (enter_node-known node st) member (ap is_some new_source) (entered_known node st) in
      elim (follow-eq-out_of_fuel
        (resolve_dependencies r visit (length st.nodes) (collect_dependencies node.pkg)
          (enter_node node st))
        _ h) [
          | inl e ↦
              resolve_dependencies-returns visit n keeps returns (length st.nodes)
                (collect_dependencies node.pkg) (enter_node node st) g₁ (omega (arith, fewer, lt)) e
          | inr (_, _, e) ↦ cc
        ]

  same_name-returns :
      (node : Node) (index : ℕ) (other : Node) (st : GraphState)
      → same_name r node index other st ≢ out_of_fuel
  same_name-returns node index other st h = ground arith

  same_source-returns : (index : ℕ) (st : GraphState) → same_source r index st ≢ out_of_fuel
  same_source-returns index st h = ground arith

  visit_named-returns :
      (visit : Visit r) (n : ℕ) (node : Node) (st : GraphState)
      → KeepsGraph visit
      → Answering visit n
      → IsGraph Q M st
      → Q node.origin
      → find node.source_fingerprint st.node_by_source_fingerprint ≡ none
      → node.dependencies ≡ []
      → contains_text sources node.source_fingerprint ≡ true
      → unseen sources st < suc n
      → visit_named r visit node st ≢ out_of_fuel
  unfolding visit_named
  visit_named-returns visit n node st keeps returns g q new_source leaf member lt h =
      by_name (find node.pkg.name st.node_by_package_name) refl h
    where
      by_name :
          (o : Option ℕ)
          → find node.pkg.name st.node_by_package_name ≡ o
          → (elim o [
            | some index ↦ follow (node_at st index) λ other. same_name r node index other st
            | none ↦ visit_new r visit node st
          ])
            ≢ out_of_fuel
      by_name none e k =
          visit_new-returns visit n node st keeps returns g q e new_source leaf member lt k
      by_name (some index) e k = elim (follow-eq-out_of_fuel (node_at st index) _ k) [
        | inl out ↦ node_at-returns st index out
        | inr (other, _, out) ↦ same_name-returns node index other st out
      ]

  visit_source-returns :
      (visit : Visit r) (n : ℕ) (manifest_path : Text) (origin : SourceOrigin) (fingerprint : Text)
      (st : GraphState)
      → KeepsGraph visit
      → Answering visit n
      → IsGraph Q M st
      → Q origin
      → contains_text sources fingerprint ≡ true
      → unseen sources st < suc n
      → visit_source r visit manifest_path origin fingerprint st ≢ out_of_fuel
  unfolding visit_source
  visit_source-returns visit n manifest_path origin fingerprint st keeps returns g q member lt h =
      by_source (find fingerprint st.node_by_source_fingerprint) refl h
    where
      by_source :
          (o : Option ℕ)
          → find fingerprint st.node_by_source_fingerprint ≡ o
          → (elim o [
            | some index ↦ same_source r index st
            | none ↦
                follow
                  (run (make_node r manifest_path origin fingerprint))
                  λ node. visit_named r visit node st
          ])
            ≢ out_of_fuel
      by_source (some index) e k = same_source-returns index st k
      by_source none e k =
          behind_run (make_node r manifest_path origin fingerprint) _
            (λ node made.
              let (same, leaf, at) = make_node-new r manifest_path origin fingerprint made in
              visit_named-returns visit n node st keeps returns g (subst Q (sym at) q)
                (ap (λ f. find f st.node_by_source_fingerprint) same ∙ e) leaf
                (ap (contains_text sources) same ∙ member) lt)
            k

  pub resolve_node-returns : (fuel : ℕ) → Answering (resolve_node r fuel) fuel
  unfolding resolve_node
  resolve_node-returns zero manifest_path origin st g q within lt h = ground arith
  resolve_node-returns (suc fuel) manifest_path origin st g q within lt h =
      let normal = canonical_absolute_path r.machine manifest_path in
      behind_run (build_source_fingerprint r.machine origin (parent_path normal)) _
        (λ fingerprint e.
          visit_source-returns (resolve_node r fuel) fuel normal origin fingerprint st
            (resolve_node-keeps r Q M origins fuel) (resolve_node-returns fuel) g q
            (within fingerprint e) lt)
        h

pub unseen-bound : (sources : List Text) (st : GraphState) → unseen sources st ≤ length sources
unseen-bound [] st = omega arith
unseen-bound (f ∷ rest) st = ground (arith, unseen-bound rest st)
