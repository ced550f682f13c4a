-- ===== src/Resolve/Graph/Steps.antt =====
-- Single steps of a visit: what a selection and a new node change.
use mathlib.Core.Path.{subst}
use pafio_nightly.Prelude.{
  ℕ, zero, suc, Bool, true, false, not, Option, none, some, List, [], ◌∷◌, if◌then◌else◌, Text,
  text_eq, text_eq_refl, Result, ok, err, ErrorKind, String, logic, >>=-eq-ok, ok_injective, All,
  arith, ◌≡◌, refl, sym, ap, ◌∙◌,
}
use pafio_nightly.Prelude.Runs.{Run, back, thrown, back_injective}
use pafio_nightly.Manifest.{DependencySourceKind, path, git, registry, Dependency}
use pafio_nightly.Resolve.{SourceOrigin, ManifestSelection, build_lock_id}
use pafio_nightly.Resolve.Select.{
  Resolver, Materialized, load_document, resolve_registry_dependency,
}
use pafio_nightly.Resolve.Graph.{
  Node, GraphState, nth, node_at, select_by, with_memo, select_dependency, package_of, make_node,
  same_name,
}
use pafio_nightly.Resolve.Graph.Invariant.{IsGraph, Extends, has_id}

pub past_test :
    {A : Type 0} (b : Bool) (k : ErrorKind) (e : String) (m : Run A) {a : A}
    → (if b then thrown k e else m) ≡ back a
    → m ≡ back a
past_test true k e m h = cc
past_test false k e m h = h

some_injective : {a b : Node} → ◌≡◌ {A = Option Node} (some a) (some b) → a ≡ b
some_injective e = cc

nth-has_id :
    (nodes : List Node) (i : ℕ) {n : Node} → nth nodes i ≡ some n → has_id n.id nodes ≡ true
nth-has_id [] i h = cc
nth-has_id (x ∷ nodes) zero {n} h =
    subst (λ m. has_id m.id (x ∷ nodes) ≡ true) (some_injective h) (rw (text_eq_refl x.id) refl)
nth-has_id (x ∷ nodes) (suc i) h = ground (arith, nth-has_id nodes i h)

node_at-nth : (st : GraphState) (i : ℕ) {n : Node} → node_at st i ≡ back n → nth st.nodes i ≡ some n
node_at-nth st i {n} h = found (nth st.nodes i) h
  where
    found :
        (o : Option Node)
        → (elim o [ none ↦ thrown logic "out of range" | some node ↦ back node ]) ≡ back n
        → o ≡ some n
    found none e = cc
    found (some m) e = cc

pub node_at-has_id :
    (st : GraphState) (i : ℕ) {n : Node} → node_at st i ≡ back n → has_id n.id st.nodes ≡ true
node_at-has_id st i h = nth-has_id st.nodes i (node_at-nth st i h)

pub node_at-All :
    (Q : SourceOrigin → Type 0) (st : GraphState) (i : ℕ) {n : Node}
    → All (λ m. Q m.origin) st.nodes
    → node_at st i ≡ back n
    → Q n.origin
node_at-All Q st i {n} h e = at st.nodes i h (node_at-nth st i e)
  where
    at : (ns : List Node) (j : ℕ) → All (λ m. Q m.origin) ns → nth ns j ≡ some n → Q n.origin
    at [] j a k = cc
    at (m ∷ ns) zero a k = subst (λ x. Q x.origin) (some_injective k) a.0
    at (m ∷ ns) (suc j) a k = at ns j a.1 k

pub Extends-refl : (st : GraphState) → Extends st st
Extends-refl st = record { ids = λ d h. h; stack = refl; sources = λ f h. h }

pub Extends-trans : {a b c : GraphState} → Extends a b → Extends b c → Extends a c
Extends-trans p q = record {
  ids = λ d h. q.ids d (p.ids d h);
  stack = q.stack ∙ p.stack;
  sources = λ f h. q.sources f (p.sources f h);
}

memo-IsGraph :
    (Q : SourceOrigin → Type 0) (M : Materialized → Type 0) (st : GraphState) (memo : Materialized)
    → IsGraph Q M st
    → M memo
    → IsGraph Q M (record st { materialized_registry = memo })
memo-IsGraph Q M st memo g m = record {
  origins = g.origins;
  memo = m;
  names = g.names;
  sources = g.sources;
  known_names = g.known_names;
  known_sources = g.known_sources;
  closed = g.closed;
}

module _ (r : Resolver) where
  with_memo-same :
      (st : GraphState) (m : Result ManifestSelection) {s : ManifestSelection} {st' : GraphState}
      → with_memo r st m ≡ ok (s, st')
      → st' ≡ st
  with_memo-same st (err k e) h = cc
  with_memo-same st (ok m) h = ap (λ p. p.1) (sym (ok_injective h))

  select_by-memo :
      (kind : DependencySourceKind) (node : Node) (dependency : Dependency) (st : GraphState)
      {s : ManifestSelection} {st' : GraphState}
      → select_by r kind node dependency st ≡ ok (s, st')
      → (memo : Materialized) × (st' ≡ record st { materialized_registry = memo })
  select_by-memo path node dependency st h = (st.materialized_registry, with_memo-same st _ h)
  select_by-memo git node dependency st h = (st.materialized_registry, with_memo-same st _ h)
  select_by-memo registry node dependency st h =
      let ((_, memo), _, e) =
        >>=-eq-ok (resolve_registry_dependency r dependency st.materialized_registry) _ h in
      (memo, ap (λ p. p.1) (sym (ok_injective e)))

  -- a selection changes the memo only
  pub select_dependency-keeps :
      (Q : SourceOrigin → Type 0) (M : Materialized → Type 0) (node : Node)
      (dependency : Dependency) (st : GraphState) {s : ManifestSelection} {st' : GraphState}
      → select_dependency r node dependency st ≡ ok (s, st')
      → IsGraph Q M st
      → M st'.materialized_registry
      → IsGraph Q M st' × Extends st st'
  unfolding select_dependency
  select_dependency-keeps Q M node dependency st {s} {st'} h g m =
      let (memo, e) = select_by-memo dependency.source_kind node dependency st h in
      subst (λ t. IsGraph Q M t × Extends st t) (sym e)
        (
          memo-IsGraph Q M st memo g (subst (λ t. M t.materialized_registry) e m),
          record { ids = λ d h. h; stack = refl; sources = λ f h. h },
        )

  abbrev pub Visit : Type 0
  Visit = Text → SourceOrigin → GraphState → Run (ℕ × GraphState)

  -- from a node of such an origin and such a memo, the same are come to
  abbrev pub SelectsOrigins : (SourceOrigin → Type 0) → (Materialized → Type 0) → Type 0
  SelectsOrigins Q M =
      (node : Node) (dependency : Dependency) (st : GraphState) (s : ManifestSelection)
      (st' : GraphState)
      → Q node.origin
      → M st.materialized_registry
      → select_dependency r node dependency st ≡ ok (s, st')
      → Q s.origin × M st'.materialized_registry

  pub make_node-new :
      (manifest_path : Text) (origin : SourceOrigin) (fingerprint : Text) {n : Node}
      → make_node r manifest_path origin fingerprint ≡ ok n
      → (n.source_fingerprint ≡ fingerprint) × (n.dependencies ≡ []) × (n.origin ≡ origin)
  unfolding make_node
  make_node-new manifest_path origin fingerprint h =
      let (m, _, h₁) = >>=-eq-ok (load_document r manifest_path) _ h in
      let (p, _, h₂) = >>=-eq-ok (package_of r origin m.pkg) _ h₁ in
      let (id, _, h₃) = >>=-eq-ok (build_lock_id origin p) _ h₂ in
      subst
        (λ n. (n.source_fingerprint ≡ fingerprint) × (n.dependencies ≡ []) × (n.origin ≡ origin))
        (ok_injective h₃) (refl, refl, refl)

  pub same_name-back :
      (node : Node) (index : ℕ) (other : Node) (st : GraphState) {t : ℕ × GraphState}
      → same_name r node index other st ≡ back t
      → (index, st) ≡ t
  same_name-back node index other st h =
      let h₁ = past_test (not (text_eq other.pkg.version node.pkg.version)) _ _ _ h in
      back_injective
        (past_test (not (text_eq other.source_fingerprint node.source_fingerprint)) _ _ _ h₁)
