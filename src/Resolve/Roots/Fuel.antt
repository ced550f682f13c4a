-- ===== src/Resolve/Roots/Fuel.antt =====
-- The whole resolution comes back, on fuel for the number of sources.
use pafio_nightly.Prelude.{
  ℕ, ◌<◌, Bool, List, [], ◌∷◌, length, Text, ok, All, arith, ◌≡◌, ◌≢◌, refl, inl, inr,
}
use pafio_nightly.Prelude.Runs.{
  Run, back, thrown, out_of_fuel, follow, follow-eq-out_of_fuel, behind_run,
}
use pafio_nightly.Resolve.{SourceOrigin, ManifestSelection, Machine}
use pafio_nightly.Resolve.Select.{Resolver, Materialized}
use pafio_nightly.Resolve.Graph.{GraphState, empty_graph, node_at, unique, resolve_node}
use pafio_nightly.Resolve.Graph.Invariant.{IsGraph}
use pafio_nightly.Resolve.Graph.Single.{resolve_node-keeps}
use pafio_nightly.Resolve.Graph.Fuel.{unseen-bound, resolve_node-returns, origins}
use pafio_nightly.Resolve.Graph.Sources.{
  unseen, unseen_less, node_at-returns, IsAmong, SelectsAmong,
}
use pafio_nightly.Prelude.Sort.{sort_by}
use pafio_nightly.Lockfile.{itself}
use pafio_nightly.Resolve.Roots.{
  node_id, graph_result, make_resolver, resolve_seeds, resolve_single_version_graph,
}
use pafio_nightly.Resolve.Roots.Lock.{empty_graph-IsGraph}

abbrev pub SeedsAmong :
    Resolver → (SourceOrigin → Type 0) → List Text → List ManifestSelection → Type 0
SeedsAmong r Q sources = All (λ s. Q s.origin × IsAmong r sources s.manifest_path s.origin)

resolve_seeds-returns :
    (r : Resolver) (Q : SourceOrigin → Type 0) (M : Materialized → Type 0) (sources : List Text)
    (among : SelectsAmong r Q M sources) (fuel : ℕ) (seeds : List ManifestSelection)
    (st : GraphState)
    → IsGraph Q M st
    → SeedsAmong r Q sources seeds
    → unseen sources st < fuel
    → resolve_seeds r fuel seeds st ≢ out_of_fuel
unfolding resolve_seeds
resolve_seeds-returns r Q M sources among fuel [] st g w lt h = cc
resolve_seeds-returns r Q M sources among fuel (seed ∷ rest) st g w lt h =
    let (q, within) = w.0 in
    elim (follow-eq-out_of_fuel (resolve_node r fuel seed.manifest_path seed.origin st) _ h) [
      | inl e ↦
          resolve_node-returns r Q M sources among fuel seed.manifest_path seed.origin st g q within
            lt e
      | inr ((i, st₁), e₁, h₁) ↦
          let (g₁, x₁) =
            resolve_node-keeps r Q M (origins r Q M sources among) fuel seed.manifest_path
              seed.origin st i st₁ g q e₁ in
          let less = unseen_less sources st st₁ x₁.sources in
          elim (follow-eq-out_of_fuel (node_at st₁ i) _ h₁) [
            | inl e ↦ node_at-returns st₁ i e
            | inr (node, _, h₂) ↦
                elim (follow-eq-out_of_fuel (resolve_seeds r fuel rest st₁) _ h₂) [
                  | inl e ↦
                      resolve_seeds-returns r Q M sources among fuel rest st₁ g₁ w.1
                        (omega (arith, less, lt)) e
                  | inr (_, _, e) ↦ cc
                ]
          ]
    ]

before_back :
    {A B : Type 0} (first : Run A) (f : A → B)
    → follow first (λ a. back (f a)) ≡ out_of_fuel
    → first ≡ out_of_fuel
before_back (back a) f h = cc
before_back (thrown k e) f h = cc
before_back out_of_fuel f h = refl

-- Where whatever can be selected comes from a finite list of sources, the resolution does not run
-- out of fuel that exceeds the length of the list: it returns a graph or throws. What can be
-- selected is asked for origins of a kind `Q` and memos of a kind `M` only, which the roots and the
-- empty memo have, and selections keep.
pub resolve_single_version_graph-returns :
    (machine : Machine) (fuel : ℕ) (manifest_path : Text) (offline locked : Bool)
    (Q : SourceOrigin → Type 0) (M : Materialized → Type 0) (sources : List Text)
    → M []
    → ((r : Resolver) (seeds : List ManifestSelection)
        → make_resolver machine manifest_path offline locked ≡ ok (r, seeds)
        → SelectsAmong r Q M sources × SeedsAmong r Q sources seeds)
    → length sources < fuel
    → resolve_single_version_graph machine fuel manifest_path offline locked ≢ out_of_fuel
unfolding resolve_single_version_graph
resolve_single_version_graph-returns machine fuel manifest_path offline locked Q M sources empty
      finite lt h =
    behind_run (make_resolver machine manifest_path offline locked) _
      (λ (r, seeds) made e.
        let (among, w) = finite r seeds made in
        resolve_seeds-returns r Q M sources among fuel seeds empty_graph
          (empty_graph-IsGraph Q M empty) w (omega (arith, unseen-bound sources empty_graph, lt))
          (before_back (resolve_seeds r fuel seeds empty_graph)
            (λ t. graph_result r (unique (sort_by itself t.0)) (sort_by node_id t.1.nodes)) e))
      h
