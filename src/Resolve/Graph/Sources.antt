-- ===== src/Resolve/Graph/Sources.antt =====
-- The sources that a graph has not seen yet, and which calls need no fuel.
use pafio_nightly.Prelude.{
  ℕ, ◌≤◌, ◌<◌, Bool, true, false, not, Option, none, some, List, Text, text_eq_refl, ok, logic,
  arith, ◌≡◌, ◌≢◌, refl, inl, inr, Bool-cases,
}
use pafio_nightly.Prelude.Marks.{unmarked, unmarked_less, unmarked_strict}
use pafio_nightly.Prelude.Runs.{Run, back, thrown, out_of_fuel, follow-eq-out_of_fuel}
use pafio_nightly.FilePath.{parent_path}
use pafio_nightly.Manifest.{Dependency}
use pafio_nightly.Manifest.Parse.{is_some, contains_text}
use pafio_nightly.Resolve.{
  SourceOrigin, ManifestSelection, canonical_absolute_path, build_source_fingerprint,
}
use pafio_nightly.Resolve.Select.{Resolver, Materialized, find}
use pafio_nightly.Resolve.Graph.{
  Node, GraphState, nth, node_at, enter_node, select_dependency, names_package, Found,
  keep_dependency,
}

abbrev known : GraphState → Text → Bool
known st f = is_some (find f st.node_by_source_fingerprint)

-- how many of the sources have not been seen
abbrev pub unseen : List Text → GraphState → ℕ
unseen sources st = unmarked (known st) sources

pub unseen_less :
    (sources : List Text) (st st' : GraphState)
    → ((f : Text) → known st f ≡ true → known st' f ≡ true)
    → unseen sources st' ≤ unseen sources st
unseen_less sources st st' more = unmarked_less (known st) (known st') more sources

pub unseen_strict :
    (sources : List Text) (st st' : GraphState) (fingerprint : Text)
    → ((f : Text) → known st f ≡ true → known st' f ≡ true)
    → contains_text sources fingerprint ≡ true
    → known st fingerprint ≡ false
    → known st' fingerprint ≡ true
    → unseen sources st' < unseen sources st
unseen_strict sources st st' fingerprint more =
    unmarked_strict (known st) (known st') more sources fingerprint

pub enter_node-known :
    (node : Node) (st : GraphState) (f : Text)
    → known st f ≡ true
    → known (enter_node node st) f ≡ true
unfolding enter_node
enter_node-known node st f h = ground arith

pub entered_known :
    (node : Node) (st : GraphState) → known (enter_node node st) node.source_fingerprint ≡ true
unfolding enter_node
entered_known node st = rw (text_eq_refl node.source_fingerprint) refl

pub node_at-returns : (st : GraphState) (i : ℕ) → node_at st i ≢ out_of_fuel
node_at-returns st i h = found (nth st.nodes i) h
  where
    found :
        (o : Option Node)
        → (elim o [ none ↦ thrown logic "out of range" | some node ↦ back node ]) ≢ out_of_fuel
    found none e = cc
    found (some m) e = cc

pub keep_dependency-eq-out_of_fuel :
    (r : Resolver) (dependency : Dependency) (dn : Node) (rest : Run (Found r))
    → keep_dependency r dependency dn rest ≡ out_of_fuel
    → rest ≡ out_of_fuel
keep_dependency-eq-out_of_fuel r dependency dn rest h =
    elim (Bool-cases (not (names_package r dependency.pkg dn.pkg.name))) [
      | inl e ↦ cc (rw e at h)
      | inr e ↦ elim (follow-eq-out_of_fuel rest _ (rw e at h)) [ inl k ↦ k | inr (_, _, k) ↦ cc ]
    ]

-- the source of a manifest and origin, if it has one, is among the sources
abbrev pub IsAmong : Resolver → List Text → Text → SourceOrigin → Type 0
IsAmong r sources manifest_path origin =
    (f : Text)
    → build_source_fingerprint r.machine origin
        (parent_path (canonical_absolute_path r.machine manifest_path))
      ≡ ok f
    → contains_text sources f ≡ true

-- From a node whose origin is of the kind `Q`, with a memo of the kind `M`, what is selected for a
-- dependency has such an origin and comes from one of the sources, and the memo is of its kind again.
abbrev pub SelectsAmong :
    Resolver → (SourceOrigin → Type 0) → (Materialized → Type 0) → List Text → Type 0
SelectsAmong r Q M sources =
    (node : Node) (dependency : Dependency) (st : GraphState) (s : ManifestSelection)
    (st' : GraphState)
    → Q node.origin
    → M st.materialized_registry
    → select_dependency r node dependency st ≡ ok (s, st')
    → Q s.origin × M st'.materialized_registry × IsAmong r sources s.manifest_path s.origin
