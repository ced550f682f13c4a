-- ===== src/Resolve/Roots/Lock.antt =====
-- What the lockfile of a resolved graph is known to satisfy.
use mathlib.Core.Path.{subst}
use mathlib.Core.List.{Permᴰ}
use pafio_nightly.Prelude.{
  ℕ, Bool, true, ◌||◌, List, [], ◌∷◌, map, any, Text, text_eq, All, All-perm, arith, ◌≡◌, refl, sym,
  ap, ◌∙◌,
}
use pafio_nightly.Prelude.Sort.{sort_by, sort_by-members, Distinct, Distinct-perm}
use pafio_nightly.Prelude.Runs.{back, run, follow-eq-back, back_injective}
use pafio_nightly.Lockfile.{LockPackage, itself}
use pafio_nightly.Resolve.{SourceOrigin, ManifestSelection, Machine}
use pafio_nightly.Resolve.Select.{Resolver, Materialized}
use pafio_nightly.Resolve.Graph.{Node, GraphState, empty_graph, node_at, unique, resolve_node}
use pafio_nightly.Resolve.Graph.Invariant.{
  IsGraph, Extends, Closed, has_id, node_name, All-weaken, All-unique,
}
use pafio_nightly.Resolve.Graph.Single.{resolve_node-single}
use pafio_nightly.Resolve.Graph.Steps.{Extends-refl, Extends-trans, node_at-has_id}
use pafio_nightly.Resolve.Roots.{
  ResolvedGraphResult, make_resolver, resolve_seeds, node_id, lock_package, graph_result,
  resolve_single_version_graph,
}

abbrev pub lock_name : LockPackage → Text
lock_name p = p.name

-- there is a locked package of the id
abbrev pub is_locked : Text → List LockPackage → Bool
is_locked id packages = any (λ p. text_eq p.id id) packages

-- One version of each package, and the dependencies and roots are locked packages.
pub record IsSingleVersion (g : ResolvedGraphResult) : Type 0 where
  pub names : Distinct lock_name g.lockfile.packages
  pub closed :
      All
        (λ p. All (λ d. is_locked d g.lockfile.packages ≡ true) p.dependencies)
        g.lockfile.packages
  pub roots : All (λ d. is_locked d g.lockfile.packages ≡ true) g.root_ids

abbrev GoodSeeds : GraphState → List Text × GraphState → Type 0
GoodSeeds st t = IsGraph (λ _. Unit) (λ _. Unit) t.1 × Extends st t.1 × Closed t.1.nodes t.0

resolve_seeds-keeps :
    (r : Resolver) (fuel : ℕ) (seeds : List ManifestSelection) (st : GraphState)
    {t : List Text × GraphState}
    → IsGraph (λ _. Unit) (λ _. Unit) st
    → resolve_seeds r fuel seeds st ≡ back t
    → GoodSeeds st t
unfolding resolve_seeds
resolve_seeds-keeps r fuel [] st g h =
    subst (GoodSeeds st) (back_injective h) (g, Extends-refl st, tt)
resolve_seeds-keeps r fuel (seed ∷ rest) st g h =
    let ((i, st₁), e₁, h₁) =
      follow-eq-back (resolve_node r fuel seed.manifest_path seed.origin st) _ h in
    let (g₁, x₁) = resolve_node-single r fuel seed.manifest_path seed.origin st i st₁ g e₁ in
    let (node, e₂, h₂) = follow-eq-back (node_at st₁ i) _ h₁ in
    let ((ids, st₂), e₃, h₃) = follow-eq-back (resolve_seeds r fuel rest st₁) _ h₂ in
    let (g₂, x₂, c₂) = resolve_seeds-keeps r fuel rest st₁ g₁ e₃ in
    subst (GoodSeeds st) (back_injective h₃)
      (g₂, Extends-trans x₁ x₂, (x₂.ids node.id (node_at-has_id st₁ i e₂), c₂))

pub empty_graph-IsGraph :
    (Q : SourceOrigin → Type 0) (M : Materialized → Type 0) → M [] → IsGraph Q M empty_graph
empty_graph-IsGraph Q M m = record {
  origins = tt;
  memo = m;
  names = tt;
  sources = tt;
  known_names = tt;
  known_sources = tt;
  closed = tt;
}

has_id-perm : (d : Text) {ns ms : List Node} → Permᴰ ns ms → has_id d ns ≡ has_id d ms
has_id-perm d Permᴰ.nil = refl
has_id-perm d (Permᴰ.cons e p) = rw (e, has_id-perm d p) refl
has_id-perm d (Permᴰ.swap {a} {b} {a'} {b'} {l} e f) = rw (e, f) (ground arith)
has_id-perm d (Permᴰ.trans p q) = has_id-perm d p ∙ has_id-perm d q

is_locked-map : (d : Text) (ns : List Node) → is_locked d (map lock_package ns) ≡ has_id d ns
is_locked-map d [] = refl
is_locked-map d (n ∷ ns) = ap (λ b. text_eq n.id d || b) (is_locked-map d ns)

All-map :
    {A B : Type 0} (f : A → B) (P : B → Type 0) (xs : List A)
    → All (λ a. P (f a)) xs
    → All P (map f xs)
All-map f P [] h = tt
All-map f P (x ∷ xs) h = (h.0, All-map f P xs h.1)

Distinct-lock : (ns : List Node) → Distinct node_name ns → Distinct lock_name (map lock_package ns)
Distinct-lock [] d = tt
Distinct-lock (n ∷ ns) d = (All-map lock_package _ ns d.0, Distinct-lock ns d.1)

graph_result-single :
    (r : Resolver) (ids : List Text) (st : GraphState)
    → IsGraph (λ _. Unit) (λ _. Unit) st
    → Closed st.nodes ids
    → IsSingleVersion (graph_result r (unique (sort_by itself ids)) (sort_by node_id st.nodes))
graph_result-single r ids st g c = record {
  names = Distinct-lock sorted (Distinct-perm node_name members g.names);
  closed =
      All-map lock_package _ sorted (
        All-perm _ members (All-weaken _ _ st.nodes (λ n h. all_locked n.dependencies h) g.closed));
  roots =
      All-unique _ (sort_by itself ids)
        (All-perm _ (sort_by-members itself ids) (all_locked ids c));
}
  where
    sorted : List Node
    sorted = sort_by node_id st.nodes

    members : Permᴰ st.nodes sorted
    members = sort_by-members node_id st.nodes

    all_locked :
        (ds : List Text)
        → Closed st.nodes ds
        → All (λ d. is_locked d (map lock_package sorted) ≡ true) ds
    all_locked ds h =
        All-weaken _ _ ds (λ d e. is_locked-map d sorted ∙ sym (has_id-perm d members) ∙ e) h

-- A graph that the resolver returns, for any machine, manifest and options, has one version of each
-- package: no two packages of its lockfile have the same name. Every dependency of a locked package,
-- and every root, is the id of a locked package.
pub resolve_single_version_graph-single :
    (machine : Machine) (fuel : ℕ) (manifest_path : Text) (offline locked : Bool)
    (g : ResolvedGraphResult)
    → resolve_single_version_graph machine fuel manifest_path offline locked ≡ back g
    → IsSingleVersion g
unfolding resolve_single_version_graph
resolve_single_version_graph-single machine fuel manifest_path offline locked g h =
    let ((r, seeds), _, h₁) =
      follow-eq-back (run (make_resolver machine manifest_path offline locked)) _ h in
    let ((ids, st), e, h₂) = follow-eq-back (resolve_seeds r fuel seeds empty_graph) _ h₁ in
    let (good, _, c) =
      resolve_seeds-keeps r fuel seeds empty_graph (empty_graph-IsGraph _ _ tt) e in
    subst IsSingleVersion (back_injective h₂) (graph_result-single r ids st good c)
