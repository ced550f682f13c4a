-- ===== src/Lockfile/Canonical.antt =====
-- The text of a lockfile says everything that the lockfile says, but for the order of its packages
-- and of their dependencies.
use pafio_nightly.Prelude.{
  Text, text, List, [], ◌∷◌, ◌++◌, map, append_assoc, All, All-perm, arith, ◌≡◌, refl, sym, ap, ◌∙◌,
  ◌↔◌, inl, inr,
}
use pafio_nightly.Prelude.Sort.{sort_by, sort_by-members}
use pafio_nightly.Manifest.Serialize.Fields.{
  append_cancel, emit_string_injective, emit_string_array_injective,
}
use pafio_nightly.Lockfile.Sources.{emit_lock_source_injective}
use pafio_nightly.Manifest.Serialize.{emit_string, emit_string_array, emit_all}
use pafio_nightly.Lockfile.{
  LockPackage, LockfileDocument, id_of, itself, emit_lock_source, emit_lock_package,
  serialize_lockfile_canonical,
}
use pafio_nightly.Lockfile.Valid.{IsValidLockPackage, IsValidLockfile}

-- A package with its dependencies in order.
unfoldable pub canonical_package : LockPackage → LockPackage
canonical_package p = record p { dependencies = sort_by itself p.dependencies }

unfoldable pub canonical : LockfileDocument → LockfileDocument
canonical l = record l { packages = map canonical_package (sort_by id_of l.packages) }

-- the text of a package whose dependencies stand in order
emit_sorted : LockPackage → Text
emit_sorted p =
    text "\n[[package]]\n"
    ++ (emit_string (text "id") p.id
        ++ (emit_string (text "name") p.name
            ++ (emit_string (text "version") p.version
                ++ (emit_string (text "source-kind") p.source_kind
                    ++ (emit_lock_source p
                        ++ emit_string_array (text "dependencies") p.dependencies)))))

same_package :
    (p q : LockPackage)
    → p.id ≡ q.id
    → p.name ≡ q.name
    → p.version ≡ q.version
    → p.source_kind ≡ q.source_kind
    → p.git ≡ q.git
    → p.rev ≡ q.rev
    → p.registry ≡ q.registry
    → p.sha256 ≡ q.sha256
    → p.dependencies ≡ q.dependencies
    → p ≡ q
same_package p q a b c d e f g h k = cc (a, b, c, d, e, f, g, h, k)

emit_sorted_injective :
    (p q : LockPackage) (r s : Text)
    → IsValidLockPackage p
    → IsValidLockPackage q
    → emit_sorted p ++ r ≡ emit_sorted q ++ s
    → (p ≡ q) × (r ≡ s)
emit_sorted_injective p q r s v w e =
    let behind_header =
      append_cancel (text "\n[[package]]\n") _ _ (sym (flat p r) ∙ e ∙ flat q s) in
    let (a, e1) = emit_string_injective _ _ _ _ _ behind_header in
    let (b, e2) = emit_string_injective _ _ _ _ _ e1 in
    let (c, e3) = emit_string_injective _ _ _ _ _ e2 in
    let (d, e4) = emit_string_injective _ _ _ _ _ e3 in
    let (g, h, k, l, e5) = emit_lock_source_injective p q _ _ v w d e4 in
    let (m, e6) = emit_string_array_injective _ _ _ _ _ e5 in
    (same_package p q a b c d g h k l m, e6)
  where
    flat :
        (x : LockPackage) (t : Text)
        → emit_sorted x ++ t
          ≡ text "\n[[package]]\n"
            ++ (emit_string (text "id") x.id
                ++ (emit_string (text "name") x.name
                    ++ (emit_string (text "version") x.version
                        ++ (emit_string (text "source-kind") x.source_kind
                            ++ (emit_lock_source x
                                ++ (emit_string_array (text "dependencies") x.dependencies
                                    ++ t))))))
    flat x t =
        unfold emit_sorted in
        rw (append_assoc, append_assoc, append_assoc, append_assoc, append_assoc, append_assoc) refl

emit_all_injective :
    (ps qs : List LockPackage)
    → All IsValidLockPackage ps
    → All IsValidLockPackage qs
    → emit_all emit_sorted ps ≡ emit_all emit_sorted qs
    → ps ≡ qs
emit_all_injective [] [] v w e = refl
emit_all_injective [] (q ∷ qs) v w e = unfold emit_all emit_sorted in ground arith
emit_all_injective (p ∷ ps) [] v w e = unfold emit_all emit_sorted in ground arith
emit_all_injective (p ∷ ps) (q ∷ qs) v w e =
    let (one, rest) = emit_sorted_injective p q _ _ v.0 w.0 (sym (flat p ps) ∙ e ∙ flat q qs) in
    cc (one, emit_all_injective ps qs v.1 w.1 rest)
  where
    flat :
        (x : LockPackage) (xs : List LockPackage)
        → emit_all emit_sorted (x ∷ xs) ≡ emit_sorted x ++ emit_all emit_sorted xs
    flat x xs = unfold emit_all in refl

canonical_package-valid :
    (p : LockPackage) → IsValidLockPackage p → IsValidLockPackage (canonical_package p)
unfolding canonical_package
canonical_package-valid p v = record {
  id = v.id;
  name = v.name;
  version = v.version;
  source = elim v.source [
    | inl g ↦ inl (record {
      kind = g.kind;
      git = g.git;
      rev = g.rev;
      registry = g.registry;
      sha256 = g.sha256;
    })
    | inr (inl g) ↦ inr (
        inl (record {
          kind = g.kind;
          registry = g.registry;
          sha256 = g.sha256;
          git = g.git;
          rev = g.rev;
        }))
    | inr (inr l) ↦ inr (
        inr (record {
          kind = l.kind;
          git = l.git;
          rev = l.rev;
          registry = l.registry;
          sha256 = l.sha256;
        }))
  ];
}

All-map-canonical :
    (ps : List LockPackage)
    → All IsValidLockPackage ps
    → All IsValidLockPackage (map canonical_package ps)
All-map-canonical [] v = tt
All-map-canonical (p ∷ ps) v = (canonical_package-valid p v.0, All-map-canonical ps v.1)

emit_lock_package-sorted :
    (p : LockPackage) → emit_lock_package p ≡ emit_sorted (canonical_package p)
unfolding emit_lock_package emit_sorted canonical_package
emit_lock_package-sorted p = unfold emit_lock_source in refl

emit_all-sorted :
    (ps : List LockPackage)
    → emit_all emit_lock_package ps ≡ emit_all emit_sorted (map canonical_package ps)
unfolding emit_all
emit_all-sorted [] = refl
emit_all-sorted (p ∷ ps) = cc (emit_lock_package-sorted p, emit_all-sorted ps)

-- the text of a lockfile from its parts in order
sorted_text : LockfileDocument → Text
sorted_text l =
    text "lock-version = 1\n\n[metadata]\n"
    ++ (emit_string (text "generated-by") l.generated_by
        ++ (emit_string (text "resolver") l.resolver ++ emit_all emit_sorted l.packages))

serialize-sorted_text :
    (l : LockfileDocument) → serialize_lockfile_canonical l ≡ sorted_text (canonical l)
unfolding serialize_lockfile_canonical sorted_text canonical
serialize-sorted_text l =
    ap
      (λ t.
        text "lock-version = 1\n\n[metadata]\n"
        ++ (emit_string (text "generated-by") l.generated_by
            ++ (emit_string (text "resolver") l.resolver ++ t)))
      (emit_all-sorted (sort_by id_of l.packages))

canonical_packages-valid :
    (l : LockfileDocument) → IsValidLockfile l → All IsValidLockPackage (canonical l).packages
unfolding canonical
canonical_packages-valid l v =
    All-map-canonical (sort_by id_of l.packages)
      (All-perm IsValidLockPackage (sort_by-members id_of l.packages) v.packages)

sorted_text_injective :
    (l m : LockfileDocument)
    → All IsValidLockPackage l.packages
    → All IsValidLockPackage m.packages
    → sorted_text l ≡ sorted_text m
    → l ≡ m
unfolding sorted_text
sorted_text_injective l m v w e =
    let behind = append_cancel (text "lock-version = 1\n\n[metadata]\n") _ _ e in
    let (a, e1) = emit_string_injective _ _ _ _ _ behind in
    let (b, e2) = emit_string_injective _ _ _ _ _ e1 in
    cc (a, b, emit_all_injective l.packages m.packages v w e2)

-- the text and the lockfile whose packages and dependencies stand in order determine each other
pub serialize_lockfile_canonical-canonical :
    (l m : LockfileDocument)
    → IsValidLockfile l
    → IsValidLockfile m
    → (serialize_lockfile_canonical l ≡ serialize_lockfile_canonical m)
      ↔ (canonical l ≡ canonical m)
serialize_lockfile_canonical-canonical l m v w = (
  λ e.
      sorted_text_injective (canonical l) (canonical m) (canonical_packages-valid l v)
        (canonical_packages-valid m w)
        (sym (serialize-sorted_text l) ∙ e ∙ serialize-sorted_text m),
  λ e. serialize-sorted_text l ∙ ap sorted_text e ∙ sym (serialize-sorted_text m),
)
