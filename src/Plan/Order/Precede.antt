-- ===== src/Plan/Order/Precede.antt =====
-- The order of `BuildPackageOrder` has each package once, behind all that it depends on.
use mathlib.Core.Path.{subst}
use mathlib.Core.List.Permᴰ
use pafio_nightly.Prelude.{
  ℕ, zero, suc, true, false, List, [], ◌∷◌, ◌++◌, append_assoc, append-nil, map, Text, text_eq,
  text_eq_iff, text_eq_refl, ok, All, All-perm, arith, ◌≡◌, refl, sym, ◌∙◌, Bool-cases, inl, inr,
  ◌⊎◌, ◌≢◌,
}
use pafio_nightly.Prelude.Sort.{sort_by, sort_by-members}
use pafio_nightly.Prelude.Runs.{Run, back, run, follow-eq-back, run-eq-back, back_injective}
use pafio_nightly.Lockfile.{itself}
use pafio_nightly.Manifest.Parse.{contains_text}
use pafio_nightly.Resolve.Graph.{Node}
use pafio_nightly.Resolve.Roots.{ResolvedGraphResult, node_id}
use pafio_nightly.Plan.Order.{
  VisitState, unseen, active, done, Visits, no_visits, look_up, state_of, require_package_by_id,
  begin_visit, end_visit, visit_each, visit_unseen, visit_package, build_package_order,
}

look_up-other :
    (x id : Text) (state : VisitState) (rest : List (Text × VisitState))
    → text_eq id x ≡ false
    → look_up x ((id, state) ∷ rest) ≡ look_up x rest
look_up-other x id state rest h = rw h refl

look_up-same :
    (id : Text) (state : VisitState) (rest : List (Text × VisitState))
    → look_up id ((id, state) ∷ rest) ≡ state
look_up-same id state rest = rw (text_eq_refl id) refl

contains_append :
    (xs : List Text) (id x : Text)
    → contains_text xs x ≡ true
    → contains_text (xs ++ (id ∷ [])) x ≡ true
contains_append (y ∷ xs) id x h = ground (arith, contains_append xs id x)
contains_append [] id x h = cc

contains_last : (xs : List Text) (id : Text) → contains_text (xs ++ (id ∷ [])) id ≡ true
contains_last [] id = rw (text_eq_refl id) refl
contains_last (y ∷ xs) id = ground (arith, contains_last xs id)

contains_other :
    (xs : List Text) (id x : Text)
    → text_eq id x ≡ false
    → contains_text (xs ++ (id ∷ [])) x ≡ true
    → contains_text xs x ≡ true
contains_other [] id x ne h = ground arith
contains_other (y ∷ xs) id x ne h = ground (arith, contains_other xs id x ne)

-- an id that is seen is not one that is unseen
other_id :
    (id x : Text) (visits : Visits) {state : VisitState}
    → state_of id visits ≡ unseen
    → state_of x visits ≡ state
    → state ≢ unseen
    → text_eq id x ≡ false
other_id id x visits u h seen = elim (Bool-cases (text_eq id x)) [
  | inl same ↦
      absurd (seen (sym h ∙ subst (λ y. state_of y visits ≡ unseen) ((text_eq_iff id x).0 same) u))
  | inr other ↦ other
]

-- what is done stays done, and what is active stays active
pub record Keeps (before after : Visits) : Type 0 where
  pub keeps_done : (x : Text) → state_of x before ≡ done → state_of x after ≡ done
  pub keeps_active : (x : Text) → state_of x before ≡ active → state_of x after ≡ active

abbrev pub keeps_itself : (visits : Visits) → Keeps visits visits
keeps_itself visits = record { keeps_done = λ x h. h; keeps_active = λ x h. h }

abbrev pub keeps_on : {a b c : Visits} → Keeps a b → Keeps b c → Keeps a c
keeps_on ab bc = record {
  keeps_done = λ x h. bc.keeps_done x (ab.keeps_done x h);
  keeps_active = λ x h. bc.keeps_active x (ab.keeps_active x h);
}

pub begun : (id : Text) (visits : Visits) → state_of id (begin_visit id visits) ≡ active
unfolding begin_visit
begun id visits = look_up-same id active visits.visit_state

ended : (id : Text) (visits : Visits) → state_of id (end_visit id visits) ≡ done
unfolding end_visit
ended id visits = look_up-same id done visits.visit_state

pub VisitState-cases : (s : VisitState) → (s ≡ unseen) ⊎ ((s ≡ active) ⊎ (s ≡ done))
VisitState-cases unseen = inl refl
VisitState-cases active = inr (inl refl)
VisitState-cases done = inr (inr refl)

All-map : {P Q : Text → Type 0} → ((x : Text) → P x → Q x) → (xs : List Text) → All P xs → All Q xs
All-map f [] h = tt
All-map f (x ∷ xs) h = (f x h.0, All-map f xs h.1)

module _ (packages : List Node) where
  -- a package of this id, whose dependencies have a place, and which has none itself
  pub record HasPlace (placed : List Text) (id : Text) : Type 0 where
    pub found : Node
    pub is_found : require_package_by_id packages id ≡ ok found
    pub behind : All (λ d. contains_text placed d ≡ true) found.dependencies
    pub is_new : contains_text placed id ≡ false

  -- each id of the list has its place behind those that are placed and those in front of it
  abbrev pub Precede : List Text → List Text → Type 0
  Precede placed [] = Unit
  Precede placed (id ∷ rest) = HasPlace placed id × Precede (placed ++ (id ∷ [])) rest

  Precede-last :
      (placed ids : List Text) (id : Text)
      → Precede placed ids
      → HasPlace (placed ++ ids) id
      → Precede placed (ids ++ (id ∷ []))
  Precede-last placed [] id p h = (rw (append-nil placed) at h, tt)
  Precede-last placed (x ∷ ids) id p h =
      (p.0, Precede-last (placed ++ (x ∷ [])) ids id p.1 (rw (append_assoc placed (x ∷ []) ids) h))

  -- the visits so far have put in order what is done
  pub record IsOrdered (visits : Visits) : Type 0 where
    pub precede : Precede [] visits.order
    pub has_done : (x : Text) → state_of x visits ≡ done → contains_text visits.order x ≡ true
    pub only_done : (x : Text) → contains_text visits.order x ≡ true → state_of x visits ≡ done

  abbrev pub Orders : (Text → Visits → Run Visits) → Type 0
  Orders visit =
      (id : Text) (before after : Visits)
      → IsOrdered before
      → visit id before ≡ back after
      → IsOrdered after × (Keeps before after × (state_of id after ≡ done))

  pub visit_each-Orders :
      (visit : Text → Visits → Run Visits)
      → Orders visit
      → (ids : List Text) (before after : Visits) → IsOrdered before
      → visit_each visit ids before ≡ back after
      → IsOrdered after × (Keeps before after × All (λ d. state_of d after ≡ done) ids)
  unfolding visit_each
  visit_each-Orders visit orders [] before after o h =
      subst (λ v. IsOrdered v × (Keeps before v × Unit)) (back_injective h)
        (o, (keeps_itself before, tt))
  visit_each-Orders visit orders (id ∷ rest) before after o h =
      let (next, e1, e2) = follow-eq-back (visit id before) _ h in
      let (o1, (k1, d1)) = orders id before next o e1 in
      let (o2, (k2, d2)) = visit_each-Orders visit orders rest next after o1 e2 in
      (o2, (keeps_on k1 k2, (k2.keeps_done id d1, d2)))

  pub begin_visit-keeps :
      (id : Text) (before : Visits)
      → state_of id before ≡ unseen
      → Keeps before (begin_visit id before)
  unfolding begin_visit
  begin_visit-keeps id before u = record {
    keeps_done = λ x h.
        look_up-other x id active before.visit_state (other_id id x before u h (λ e. cc)) ∙ h;
    keeps_active = λ x h.
        look_up-other x id active before.visit_state (other_id id x before u h (λ e. cc)) ∙ h;
  }

  pub begin_visit-IsOrdered :
      (id : Text) (before : Visits)
      → state_of id before ≡ unseen
      → IsOrdered before
      → IsOrdered (begin_visit id before)
  unfolding begin_visit
  begin_visit-IsOrdered id before u o = record {
    precede = o.precede;
    has_done = λ x h. elim (Bool-cases (text_eq id x)) [
      | inl same ↦ cc (rw same at h)
      | inr other ↦ o.has_done x (sym (look_up-other x id active before.visit_state other) ∙ h)
    ];
    only_done = λ x h. (begin_visit-keeps id before u).keeps_done x (o.only_done x h);
  }

  end_visit-HasPlace :
      (id : Text) (found : Node) (next : Visits)
      → require_package_by_id packages id ≡ ok found
      → state_of id next ≡ active
      → IsOrdered next
      → All (λ d. state_of d next ≡ done) found.dependencies
      → HasPlace next.order id
  end_visit-HasPlace id found next e a o d = record {
    found = found;
    is_found = e;
    behind = All-map (λ x h. o.has_done x h) found.dependencies d;
    is_new = elim (Bool-cases (contains_text next.order id)) [
      | inl h ↦ cc (sym a ∙ o.only_done id h)
      | inr h ↦ h
    ];
  }

  end_visit-IsOrdered :
      (id : Text) (next : Visits)
      → IsOrdered next
      → HasPlace next.order id
      → IsOrdered (end_visit id next)
  unfolding end_visit
  end_visit-IsOrdered id next o place = record {
    precede = Precede-last [] next.order id o.precede place;
    has_done = λ x h. elim (Bool-cases (text_eq id x)) [
      | inl same ↦ rw (sym ((text_eq_iff id x).0 same)) (contains_last next.order id)
      | inr other ↦
          contains_append next.order id x
            (o.has_done x (sym (look_up-other x id done next.visit_state other) ∙ h))
    ];
    only_done = λ x h. elim (Bool-cases (text_eq id x)) [
      | inl same ↦ rw same refl
      | inr other ↦
          look_up-other x id done next.visit_state other
          ∙ o.only_done x (contains_other next.order id x other h)
    ];
  }

  end_visit-keeps :
      (id : Text) (before next : Visits)
      → state_of id before ≡ unseen
      → Keeps before next
      → Keeps before (end_visit id next)
  unfolding end_visit
  end_visit-keeps id before next u k = record {
    keeps_done = λ x h.
        look_up-other x id done next.visit_state (other_id id x before u h (λ e. cc))
        ∙ k.keeps_done x h;
    keeps_active = λ x h.
        look_up-other x id done next.visit_state (other_id id x before u h (λ e. cc))
        ∙ k.keeps_active x h;
  }

  visit_unseen-Orders :
      (visit : Text → Visits → Run Visits)
      → Orders visit
      → (id : Text) (before after : Visits) → state_of id before ≡ unseen
      → IsOrdered before
      → visit_unseen packages visit id before ≡ back after
      → IsOrdered after × (Keeps before after × (state_of id after ≡ done))
  unfolding visit_unseen
  visit_unseen-Orders visit orders id before after u o h =
      let (found, e1, h1) = follow-eq-back (run (require_package_by_id packages id)) _ h in
      let (next, e2, e3) =
        follow-eq-back (visit_each visit found.dependencies (begin_visit id before)) _ h1 in
      let (o2, (k2, d2)) =
        visit_each-Orders visit orders found.dependencies (begin_visit id before) next
          (begin_visit-IsOrdered id before u o) e2 in
      let a = k2.keeps_active id (begun id before) in
      let place = end_visit-HasPlace id found next (run-eq-back _ e1) a o2 d2 in
      subst (λ v. IsOrdered v × (Keeps before v × (state_of id v ≡ done))) (back_injective e3)
        (
          end_visit-IsOrdered id next o2 place,
          (
            end_visit-keeps id before next u (keeps_on (begin_visit-keeps id before u) k2),
            ended id next,
          ),
        )

  pub visit_package-Orders : (fuel : ℕ) → Orders (visit_package packages fuel)
  unfolding visit_package
  visit_package-Orders zero id before after o h = cc
  visit_package-Orders (suc fuel) id before after o h =
      elim (VisitState-cases (state_of id before)) [
        | inl u ↦
            visit_unseen-Orders (visit_package packages fuel) (visit_package-Orders fuel) id before
              after u o (rw (visit_package, u) at h)
        | inr (inl a) ↦ cc (rw (visit_package, a) at h)
        | inr (inr d) ↦
            subst (λ v. IsOrdered v × (Keeps before v × (state_of id v ≡ done)))
              (back_injective (rw (visit_package, d) at h)) (o, (keeps_itself before, d))
      ]

  pub no_visits-IsOrdered : IsOrdered no_visits
  no_visits-IsOrdered = record { precede = tt; has_done = λ x h. cc; only_done = λ x h. cc }

ids_in :
    (order : List Text) (packages : List Node)
    → All (λ x. contains_text order x ≡ true) (map node_id packages)
    → All (λ (p : Node). contains_text order p.id ≡ true) packages
ids_in order [] h = tt
ids_in order (p ∷ rest) h = (h.0, ids_in order rest h.1)

-- An order that `BuildPackageOrder` returns has the id of each package of the graph. Each id in it
-- is that of a package, stands in it once, and all dependencies of the package stand in front of it.
pub build_package_order-precedes :
    (fuel : ℕ) (graph : ResolvedGraphResult) (order : List Text)
    → build_package_order fuel graph ≡ back order
    → Precede graph.packages [] order
      × All (λ (p : Node). contains_text order p.id ≡ true) graph.packages
unfolding build_package_order
build_package_order-precedes fuel graph order h =
    let ids = map node_id graph.packages in
    let (after, e, e1) =
      follow-eq-back (visit_each (visit_package graph.packages fuel) (sort_by itself ids) no_visits)
        _ h in
    let (o, (k, d)) =
      visit_each-Orders graph.packages (visit_package graph.packages fuel)
        (visit_package-Orders graph.packages fuel) (sort_by itself ids) no_visits after
        (no_visits-IsOrdered graph.packages) e in
    let all_in = All-map (λ x h. o.has_done x h) (sort_by itself ids) d in
    subst
      (λ l.
        Precede graph.packages [] l
        × All (λ (p : Node). contains_text l p.id ≡ true) graph.packages)
      (back_injective e1)
      (
        o.precede,
        ids_in after.order graph.packages (
            All-perm (λ x. contains_text after.order x ≡ true)
              (Permᴰ.symm (sort_by-members itself ids)) all_in),
      )
