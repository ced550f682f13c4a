-- ===== src/Lockfile/Sources.antt =====
-- What is written for the source of a package determines it, for the packages of a valid lockfile.
use pafio_nightly.Prelude.{
  Text, text, text_eq, Option, none, some, [], ◌++◌, append_assoc, arith, ◌≡◌, refl, sym, ap, ◌∙◌,
  ◌⊎◌, inl, inr,
}
use pafio_nightly.Manifest.Serialize.Fields.{emit_string_injective}
use pafio_nightly.Manifest.Parse.{get_or}
use pafio_nightly.Manifest.Sources.{SomeHas}
use pafio_nightly.Manifest.Serialize.{emit_string}
use pafio_nightly.Lockfile.{LockPackage, emit_lock_source}
use pafio_nightly.Lockfile.Valid.{
  IsGitPackage, IsRegistryPackage, IsLocalPackage, IsValidLockPackage,
}

-- the shape of a package goes with the word of its source kind
git_of_kind : {q : LockPackage} → IsValidLockPackage q → q.source_kind ≡ text "git" → IsGitPackage q
git_of_kind {q} w k = elim w.source [
  | inl g ↦ g
  | inr (inl g) ↦ let clash = sym k ∙ g.kind in ground arith
  | inr (inr l) ↦ elim l.kind [
    | inl e ↦ let clash = sym k ∙ e in ground arith
    | inr e ↦ let clash = sym k ∙ e in ground arith
  ]
]

registry_of_kind :
    {q : LockPackage} → IsValidLockPackage q → q.source_kind ≡ text "registry" → IsRegistryPackage q
registry_of_kind {q} w k = elim w.source [
  | inl g ↦ let clash = sym k ∙ g.kind in ground arith
  | inr (inl g) ↦ g
  | inr (inr l) ↦ elim l.kind [
    | inl e ↦ let clash = sym k ∙ e in ground arith
    | inr e ↦ let clash = sym k ∙ e in ground arith
  ]
]

local_of_kind :
    {q : LockPackage}
    → IsValidLockPackage q
    → (q.source_kind ≡ text "workspace") ⊎ (q.source_kind ≡ text "path")
    → IsLocalPackage q
local_of_kind {q} w k = elim w.source [
  | inl g ↦ elim k [
    | inl e ↦ let clash = sym e ∙ g.kind in ground arith
    | inr e ↦ let clash = sym e ∙ g.kind in ground arith
  ]
  | inr (inl g) ↦ elim k [
    | inl e ↦ let clash = sym e ∙ g.kind in ground arith
    | inr e ↦ let clash = sym e ∙ g.kind in ground arith
  ]
  | inr (inr l) ↦ l
]

emit_git :
    (p : LockPackage) (r : Text)
    → p.source_kind ≡ text "git"
    → emit_lock_source p ++ r
      ≡ emit_string (text "git") (get_or p.git [])
        ++ (emit_string (text "rev") (get_or p.rev []) ++ r)
unfolding emit_lock_source text_eq
emit_git p r k = rw k (append_assoc (emit_string (text "git") (get_or p.git [])) _ r)

emit_registry :
    (p : LockPackage) (r : Text)
    → p.source_kind ≡ text "registry"
    → emit_lock_source p ++ r
      ≡ emit_string (text "registry") (get_or p.registry [])
        ++ (emit_string (text "sha256") (get_or p.sha256 []) ++ r)
unfolding emit_lock_source text_eq
emit_registry p r k = rw k (append_assoc (emit_string (text "registry") (get_or p.registry [])) _ r)

emit_local :
    (p : LockPackage) (r : Text)
    → (p.source_kind ≡ text "workspace") ⊎ (p.source_kind ≡ text "path")
    → emit_lock_source p ++ r ≡ r
unfolding emit_lock_source text_eq
emit_local p r (inl k) = rw k refl
emit_local p r (inr k) = rw k refl

some_equal :
    (P Q : Text → Type 0) (a b : Option Text)
    → SomeHas P a
    → SomeHas Q b
    → get_or a [] ≡ get_or b []
    → a ≡ b
some_equal P Q none b p q e = absurd p
some_equal P Q (some x) none p q e = absurd q
some_equal P Q (some x) (some y) p q e = ap some e

module _ (p q : LockPackage) (r s : Text) where
  abbrev pub SameSource : Type 0
  SameSource =
      (p.git ≡ q.git)
      × (p.rev ≡ q.rev)
      × (p.registry ≡ q.registry)
      × (p.sha256 ≡ q.sha256)
      × (r ≡ s)

  git_injective :
      IsGitPackage p
      → IsGitPackage q
      → emit_lock_source p ++ r ≡ emit_lock_source q ++ s
      → SameSource
  git_injective g h e =
      let (one, rest) =
        emit_string_injective _ _ _ _ _ (sym (emit_git p r g.kind) ∙ e ∙ emit_git q s h.kind) in
      let (two, end) = emit_string_injective _ _ _ _ _ rest in
      (
        some_equal _ _ p.git q.git g.git h.git one,
        some_equal _ _ p.rev q.rev g.rev h.rev two,
        g.registry ∙ sym h.registry,
        g.sha256 ∙ sym h.sha256,
        end,
      )

  registry_injective :
      IsRegistryPackage p
      → IsRegistryPackage q
      → emit_lock_source p ++ r ≡ emit_lock_source q ++ s
      → SameSource
  registry_injective g h e =
      let (one, rest) =
        emit_string_injective _ _ _ _ _
          (sym (emit_registry p r g.kind) ∙ e ∙ emit_registry q s h.kind) in
      let (two, end) = emit_string_injective _ _ _ _ _ rest in
      (
        g.git ∙ sym h.git,
        g.rev ∙ sym h.rev,
        some_equal _ _ p.registry q.registry g.registry h.registry one,
        some_equal _ _ p.sha256 q.sha256 g.sha256 h.sha256 two,
        end,
      )

  pub emit_lock_source_injective :
      IsValidLockPackage p
      → IsValidLockPackage q
      → p.source_kind ≡ q.source_kind
      → emit_lock_source p ++ r ≡ emit_lock_source q ++ s
      → SameSource
  emit_lock_source_injective v w k e = elim v.source [
    | inl g ↦ git_injective g (git_of_kind w (sym k ∙ g.kind)) e
    | inr (inl g) ↦ registry_injective g (registry_of_kind w (sym k ∙ g.kind)) e
    | inr (inr l) ↦
        let m =
          local_of_kind w (elim l.kind [ inl a ↦ inl (sym k ∙ a) | inr a ↦ inr (sym k ∙ a) ]) in
        (
          l.git ∙ sym m.git,
          l.rev ∙ sym m.rev,
          l.registry ∙ sym m.registry,
          l.sha256 ∙ sym m.sha256,
          sym (emit_local p r l.kind) ∙ e ∙ emit_local q s m.kind,
        )
  ]
