-- ===== src/Prelude/Sort.antt =====
-- `std::sort` with a strict comparison of keys, and `std::unique`. Elements of one key keep their
-- order here; `std::sort` leaves it open, so results are stated for lists of distinct keys.
use mathlib.Core.Path.{◌≡◌, refl, ap, ◌∙◌, sym, subst}
use mathlib.Core.Logic.{inl, inr, ◌≢◌}
use mathlib.Core.Bool.{false}
use mathlib.Core.List.{List, [], ◌∷◌, map, Permᴰ}
use mathlib.Core.List.Permᴰ
use native.Mathlib.Omega.{arith}
use pafio_nightly.Prelude.Tests.{if◌then◌else◌, Bool-cases}
use pafio_nightly.Prelude.Texts.{
  Text, text_eq, text_eq_iff, text_ltb, text_ltb_irrefl, text_ltb_trans, text_ltb_total,
}
use pafio_nightly.Prelude.Lists.{All}

module _ {A : Type 0} (key : A → Text) where
  insert_by : A → List A → List A
  insert_by x [] = x ∷ []
  insert_by x (y ∷ ys) = if text_ltb (key y) (key x) then y ∷ insert_by x ys else x ∷ y ∷ ys

  unfoldable pub sort_by : List A → List A
  unfolding insert_by
  sort_by [] = []
  sort_by (x ∷ xs) = insert_by x (sort_by xs)

  -- `x` has a key that no member of the list has
  abbrev pub Fresh : A → List A → Type 0
  Fresh x = All (λ y. key x ≢ key y)

  abbrev pub Distinct : List A → Type 0
  Distinct [] = Unit
  Distinct (x ∷ xs) = Fresh x xs × Distinct xs

  insert_by_comm :
      (x y : A) (l : List A)
      → key x ≢ key y
      → insert_by x (insert_by y l) ≡ insert_by y (insert_by x l)
  unfolding insert_by
  insert_by_comm x y [] ne = ground (
    arith,
    text_ltb_total (key x) (key y),
    text_ltb_trans (key x) (key y) (key x),
    text_ltb_irrefl (key x),
  )
  insert_by_comm x y (z ∷ l) ne = ground (
    arith,
    insert_by_comm x y l ne,
    text_ltb_total (key x) (key y),
    text_ltb_trans (key x) (key y) (key x),
    text_ltb_irrefl (key x),
    text_ltb_trans (key z) (key x) (key y),
    text_ltb_trans (key z) (key y) (key x),
    text_ltb_trans (key x) (key y) (key z),
  )

  Fresh-perm : {xs ys : List A} (x : A) → Permᴰ xs ys → Fresh x xs → Fresh x ys
  Fresh-perm x Permᴰ.nil h = h
  Fresh-perm x (Permᴰ.cons e p) h = (rw e at h.0, Fresh-perm x p h.1)
  Fresh-perm x (Permᴰ.swap e d) h = (rw d at h.1.0, (rw e at h.0, h.1.1))
  Fresh-perm x (Permᴰ.trans p q) h = Fresh-perm x q (Fresh-perm x p h)

  pub Distinct-perm : {xs ys : List A} → Permᴰ xs ys → Distinct xs → Distinct ys
  Distinct-perm Permᴰ.nil h = h
  Distinct-perm (Permᴰ.cons {b} {l₁} e p) h =
      (Fresh-perm b p (subst (λ z. Fresh z l₁) e h.0), Distinct-perm p h.1)
  Distinct-perm (Permᴰ.swap {a'} {b'} {l} e d) h =
      let fa = h.0 in
      let fb = h.1.0 in
      let first = λ (q : key a' ≡ key b'). fa.0 (ap key e ∙ sym q ∙ sym (ap key d)) in
      ((first, subst (λ z. Fresh z l) d fb), (subst (λ z. Fresh z l) e fa.1, h.1.1))
  Distinct-perm (Permᴰ.trans p q) h = Distinct-perm q (Distinct-perm p h)

  -- The sorted list does not depend on the order of the input.
  pub sort_by-perm : {xs ys : List A} → Permᴰ xs ys → Distinct xs → sort_by xs ≡ sort_by ys
  unfolding sort_by
  sort_by-perm Permᴰ.nil d = refl
  sort_by-perm (Permᴰ.cons e p) d = cc (sort_by-perm p d.1)
  sort_by-perm (Permᴰ.swap {a} {b} {l} e f) d = cc (insert_by_comm a b (sort_by l) d.0.0)
  sort_by-perm (Permᴰ.trans p q) d = sort_by-perm p d ∙ sort_by-perm q (Distinct-perm p d)

  insert_by-perm : (x : A) (l : List A) → Permᴰ (x ∷ l) (insert_by x l)
  unfolding insert_by
  insert_by-perm x [] = Permᴰ.cons refl Permᴰ.nil
  insert_by-perm x (y ∷ l) = elim (Bool-cases (text_ltb (key y) (key x))) [
    | inl h ↦ rw h (Permᴰ.trans (Permᴰ.swap refl refl) (Permᴰ.cons refl (insert_by-perm x l)))
    | inr h ↦ rw h (Permᴰ.refl (x ∷ y ∷ l))
  ]

  -- where equal keys are equal members, members may be repeated
  pub sort_by-repeated :
      ((x y : A) → key x ≡ key y → x ≡ y) → {xs ys : List A} → Permᴰ xs ys → sort_by xs ≡ sort_by ys
  unfolding sort_by
  sort_by-repeated one Permᴰ.nil = refl
  sort_by-repeated one (Permᴰ.cons e p) = cc (sort_by-repeated one p)
  sort_by-repeated one (Permᴰ.swap {a} {b} {l} e f) = elim (Bool-cases (text_eq (key a) (key b))) [
    | inl same ↦ cc (one a b ((text_eq_iff (key a) (key b)).0 same))
    | inr other ↦
        cc
          (insert_by_comm a b (sort_by l) (λ h. cc (sym other ∙ (text_eq_iff (key a) (key b)).1 h)))
  ]
  sort_by-repeated one (Permᴰ.trans p q) = sort_by-repeated one p ∙ sort_by-repeated one q

  -- a change of the members that leaves their keys
  module _ (f : A → A) (keeps : (x : A) → key (f x) ≡ key x) where
    insert_by-map : (x : A) (l : List A) → map f (insert_by x l) ≡ insert_by (f x) (map f l)
    unfolding insert_by
    insert_by-map x [] = refl
    insert_by-map x (y ∷ l) = elim (Bool-cases (text_ltb (key y) (key x))) [
      | inl h ↦ rw (keeps x, keeps y, h) (ap (◌∷◌ (f y)) (insert_by-map x l))
      | inr h ↦ rw (keeps x, keeps y, h) refl
    ]

    pub sort_by-map : (xs : List A) → map f (sort_by xs) ≡ sort_by (map f xs)
    unfolding sort_by
    sort_by-map [] = refl
    sort_by-map (x ∷ xs) = insert_by-map x (sort_by xs) ∙ ap (insert_by (f x)) (sort_by-map xs)

  -- The sorted list has the members of the input.
  pub sort_by-members : (xs : List A) → Permᴰ xs (sort_by xs)
  unfolding sort_by
  sort_by-members [] = Permᴰ.nil
  sort_by-members (x ∷ xs) =
      Permᴰ.trans (Permᴰ.cons refl (sort_by-members xs)) (insert_by-perm x (sort_by xs))

  -- each key is at least the one before it
  abbrev pub IsSorted : List A → Type 0
  IsSorted [] = Unit
  IsSorted (x ∷ xs) = All (λ y. text_ltb (key y) (key x) ≡ false) xs × IsSorted xs

  -- a sorted list is left as it is
  pub sort_by_of_sorted : (xs : List A) → IsSorted xs → sort_by xs ≡ xs
  unfolding sort_by
  sort_by_of_sorted [] h = refl
  sort_by_of_sorted (x ∷ []) h = refl
  sort_by_of_sorted (x ∷ y ∷ xs) h = rw (sort_by_of_sorted (y ∷ xs) h.1) (ground arith)
