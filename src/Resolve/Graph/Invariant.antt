-- ===== src/Resolve/Graph/Invariant.antt =====
-- What holds of the graph at every step of the resolver, and that entering and leaving a node
-- keeps it.
use mathlib.Core.Path.{subst}
use pafio_nightly.Prelude.{
  ℕ, zero, suc, Bool, true, ◌||◌, none, List, [], ◌∷◌, ◌++◌, any, length, Text, text_eq,
  text_eq_refl, All, All-append, All-perm, arith, ◌≡◌, ◌≢◌, refl, sym, ap, ◌∙◌, inl, inr,
  Bool-cases,
}
use pafio_nightly.Prelude.Sort.{sort_by, sort_by-members, Distinct}
use pafio_nightly.Manifest.Parse.{is_some}
use pafio_nightly.Lockfile.{itself}
use pafio_nightly.Resolve.{SourceOrigin}
use pafio_nightly.Resolve.Select.{Materialized, find}
use pafio_nightly.Resolve.Graph.{
  Node, GraphState, ResolvedDependencyAlias, pop, enter_node, leave_node, finish_node, finish_at,
  unique, unique_cons,
}

abbrev pub node_name : Node → Text
node_name n = n.pkg.name

abbrev pub node_source : Node → Text
node_source n = n.source_fingerprint

-- there is a node of the id
abbrev pub has_id : Text → List Node → Bool
has_id id nodes = any (λ n. text_eq n.id id) nodes

-- every id is that of a node
abbrev pub Closed : List Node → List Text → Type 0
Closed nodes ids = All (λ d. has_id d nodes ≡ true) ids

-- The nodes have distinct names and distinct sources, the maps know them, the dependencies of each
-- are nodes, each has an origin of the kind `Q`, and the memo
-- is of the kind `M`.
pub record IsGraph (Q : SourceOrigin → Type 0) (M : Materialized → Type 0) (st : GraphState)
    : Type 0 where
  pub origins : All (λ n. Q n.origin) st.nodes
  pub memo : M st.materialized_registry
  pub names : Distinct node_name st.nodes
  pub sources : Distinct node_source st.nodes
  pub known_names : All (λ n. is_some (find n.pkg.name st.node_by_package_name) ≡ true) st.nodes
  pub known_sources :
      All (λ n. is_some (find n.source_fingerprint st.node_by_source_fingerprint) ≡ true) st.nodes
  pub closed : All (λ n. Closed st.nodes n.dependencies) st.nodes

-- a visit adds nodes, and leaves the stack as it was
pub record Extends (st st' : GraphState) : Type 0 where
  pub ids : (d : Text) → has_id d st.nodes ≡ true → has_id d st'.nodes ≡ true
  pub stack : st'.active_stack ≡ st.active_stack
  pub sources :
      (f : Text)
      → is_some (find f st.node_by_source_fingerprint) ≡ true
      → is_some (find f st'.node_by_source_fingerprint) ≡ true

module _ (key : Node → Text) where
  fresh_of_unknown :
      {A : Type 0} (m : List (Text × A)) (node : Node) (nodes : List Node)
      → find (key node) m ≡ none
      → All (λ n. is_some (find (key n) m) ≡ true) nodes
      → All (λ n. key n ≢ key node) nodes
  fresh_of_unknown m node [] h known = tt
  fresh_of_unknown m node (n ∷ nodes) h known =
      ((λ e. cc (rw (e, h) at known.0)), fresh_of_unknown m node nodes h known.1)

  distinct_snoc :
      (node : Node) (nodes : List Node)
      → All (λ n. key n ≢ key node) nodes
      → Distinct key nodes
      → Distinct key (nodes ++ (node ∷ []))
  distinct_snoc node [] f d = (tt, tt)
  distinct_snoc node (n ∷ nodes) f d = (
    All-append (λ m. key n ≢ key m) nodes (node ∷ []) d.0 (f.0, tt),
    distinct_snoc node nodes f.1 d.1,
  )

  -- what is known stays known when an entry is added
  known_cons :
      {A : Type 0} (k : Text) (a : A) (m : List (Text × A)) (nodes : List Node)
      → All (λ n. is_some (find (key n) m) ≡ true) nodes
      → All (λ n. is_some (find (key n) ((k, a) ∷ m)) ≡ true) nodes
  known_cons k a m [] known = tt
  known_cons k a m (n ∷ nodes) known = (ground arith, known_cons k a m nodes known.1)

  known_snoc :
      {A : Type 0} (node : Node) (a : A) (m : List (Text × A)) (nodes : List Node)
      → All (λ n. is_some (find (key n) m) ≡ true) nodes
      → All (λ n. is_some (find (key n) ((key node, a) ∷ m)) ≡ true) (nodes ++ (node ∷ []))
  known_snoc node a m nodes known =
      All-append _ nodes (node ∷ []) (known_cons (key node) a m nodes known)
        (rw (text_eq_refl (key node)) refl, tt)

has_id-append : (d : Text) (ns ms : List Node) → has_id d ns ≡ true → has_id d (ns ++ ms) ≡ true
has_id-append d [] ms h = cc
has_id-append d (n ∷ ns) ms h = ground (arith, has_id-append d ns ms)

pub All-weaken :
    {A : Type 0} (P Q : A → Type 0) (xs : List A) → ((a : A) → P a → Q a) → All P xs → All Q xs
All-weaken P Q [] f h = tt
All-weaken P Q (x ∷ xs) f h = (f x h.0, All-weaken P Q xs f h.1)

-- a new node has neither a known name nor a known source, and no dependencies yet
pub enter_node-IsGraph :
    (Q : SourceOrigin → Type 0) (M : Materialized → Type 0) (node : Node) (st : GraphState)
    → IsGraph Q M st
    → Q node.origin
    → find node.pkg.name st.node_by_package_name ≡ none
    → find node.source_fingerprint st.node_by_source_fingerprint ≡ none
    → node.dependencies ≡ []
    → IsGraph Q M (enter_node node st)
unfolding enter_node
enter_node-IsGraph Q M node st g q new_name new_source leaf = record {
  origins = All-append _ st.nodes (node ∷ []) g.origins (q, tt);
  memo = g.memo;
  names =
      distinct_snoc node_name node st.nodes
        (fresh_of_unknown node_name st.node_by_package_name node st.nodes new_name g.known_names)
        g.names;
  sources =
      distinct_snoc node_source node st.nodes
        (fresh_of_unknown node_source st.node_by_source_fingerprint node st.nodes new_source
          g.known_sources)
        g.sources;
  known_names = known_snoc node_name node _ st.node_by_package_name st.nodes g.known_names;
  known_sources =
      known_snoc node_source node _ st.node_by_source_fingerprint st.nodes g.known_sources;
  closed =
      All-append _ st.nodes (node ∷ [])
        (All-weaken _ _ st.nodes (λ n c. still_closed n.dependencies c) g.closed) (rw leaf tt, tt);
}
  where
    still_closed : (ids : List Text) → Closed st.nodes ids → Closed (st.nodes ++ (node ∷ [])) ids
    still_closed ids c = All-weaken _ _ ids (λ d h. has_id-append d st.nodes (node ∷ []) h) c

module _ (index : ℕ) (ids : List Text) (aliases : List ResolvedDependencyAlias) where
  All-finish :
      (P : Node → Type 0) (i : ℕ) (nodes : List Node)
      → ((n : Node) → P n → P (finish_node ids aliases n))
      → All P nodes
      → All P (finish_at i ids aliases nodes)
  All-finish P i [] keeps h = tt
  All-finish P zero (n ∷ nodes) keeps h = (keeps n h.0, h.1)
  All-finish P (suc i) (n ∷ nodes) keeps h = (h.0, All-finish P i nodes keeps h.1)

  Distinct-finish :
      (key : Node → Text) (i : ℕ) (nodes : List Node)
      → ((n : Node) → key (finish_node ids aliases n) ≡ key n)
      → Distinct key nodes
      → Distinct key (finish_at i ids aliases nodes)
  Distinct-finish key i [] keeps d = tt
  Distinct-finish key zero (n ∷ nodes) keeps d =
      (subst (λ k. All (λ m. k ≢ key m) nodes) (sym (keeps n)) d.0, d.1)
  Distinct-finish key (suc i) (n ∷ nodes) keeps d = (
    All-finish (λ m. key n ≢ key m) i nodes (λ m ne e. ne (e ∙ keeps m)) d.0,
    Distinct-finish key i nodes keeps d.1,
  )

  has_id-finish :
      (d : Text) (i : ℕ) (nodes : List Node)
      → has_id d (finish_at i ids aliases nodes) ≡ has_id d nodes
  has_id-finish d i [] = refl
  has_id-finish d zero (n ∷ nodes) = refl
  has_id-finish d (suc i) (n ∷ nodes) = ap (λ b. text_eq n.id d || b) (has_id-finish d i nodes)

pub All-unique : (P : Text → Type 0) (xs : List Text) → All P xs → All P (unique xs)
unfolding unique
All-unique P [] h = tt
All-unique P (x ∷ xs) h = cons x (unique xs) h.0 (All-unique P xs h.1)
  where
    cons : (a : Text) (l : List Text) → P a → All P l → All P (unique_cons a l)
    cons a [] p q = (p, tt)
    cons a (b ∷ l) p q = elim (Bool-cases (text_eq a b)) [ inl e ↦ rw e q | inr e ↦ rw e (p, q) ]

-- the dependencies that a node is left with are nodes
pub leave_node-IsGraph :
    (Q : SourceOrigin → Type 0) (M : Materialized → Type 0) (index : ℕ) (ids : List Text)
    (aliases : List ResolvedDependencyAlias) (st : GraphState)
    → IsGraph Q M st
    → Closed st.nodes ids
    → IsGraph Q M (leave_node index ids aliases st)
unfolding leave_node
leave_node-IsGraph Q M index ids aliases st g c = record {
  origins = All-finish index ids aliases _ index st.nodes (λ n h. h) g.origins;
  memo = g.memo;
  names = Distinct-finish index ids aliases node_name index st.nodes (λ n. refl) g.names;
  sources = Distinct-finish index ids aliases node_source index st.nodes (λ n. refl) g.sources;
  known_names = All-finish index ids aliases _ index st.nodes (λ n h. h) g.known_names;
  known_sources = All-finish index ids aliases _ index st.nodes (λ n h. h) g.known_sources;
  closed =
      All-finish index ids aliases _ index st.nodes (λ n h. finished)
        (All-weaken _ _ st.nodes (λ n h. still_closed n.dependencies h) g.closed);
}
  where
    still_closed :
        (ds : List Text) → Closed st.nodes ds → Closed (finish_at index ids aliases st.nodes) ds
    still_closed ds h =
        All-weaken _ _ ds (λ d e. has_id-finish index ids aliases d index st.nodes ∙ e) h

    finished : Closed (finish_at index ids aliases st.nodes) (unique (sort_by itself ids))
    finished =
        still_closed _
          (All-unique _ (sort_by itself ids) (All-perm _ (sort_by-members itself ids) c))

find_cons :
    (f k : Text) (i : ℕ) (m : List (Text × ℕ))
    → is_some (find f m) ≡ true
    → is_some (find f ((k, i) ∷ m)) ≡ true
find_cons f k i m h = ground arith

-- a visit between entering and leaving a node adds nodes, and the node is taken off the stack
pub leave_node-Extends :
    (node : Node) (index : ℕ) (ids : List Text) (aliases : List ResolvedDependencyAlias)
    (st st' : GraphState)
    → Extends (enter_node node st) st'
    → Extends st (leave_node index ids aliases st')
unfolding enter_node leave_node
leave_node-Extends node index ids aliases st st' x = record {
  ids = λ d h.
      has_id-finish index ids aliases d index st'.nodes
      ∙ x.ids d (has_id-append d st.nodes (node ∷ []) h);
  stack = ap pop x.stack;
  sources = λ f h. x.sources f (find_cons f node.source_fingerprint (length st.nodes) _ h);
}
