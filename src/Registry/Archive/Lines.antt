-- ===== src/Registry/Archive/Lines.antt =====
-- What the lines that the two loops of the prescan accept are.
use pafio_nightly.Prelude.{
  ℕ, suc, true, false, List, [], ◌∷◌, if◌then◌else◌, Text, text_eq, strip_back, All, arith, ◌≡◌,
  refl, Result-cases, inl, inr, ◌⊎◌, is_ok,
}
use pafio_nightly.Registry.Paths.{normalize_registry_object_path}
use pafio_nightly.Registry.Paths.Objects.{tests_of_accepted, normalize_registry_object_path_lem}
use pafio_nightly.Registry.Paths.Parts.{IsObjectPath}
use pafio_nightly.Registry.Archive.{
  ArchivePrescanResult, Scan, go, stop, scan_path, scan_paths, scan_members, scan_member, counted,
  and_then, is_manifest, is_separator, looks_absolute_or_drive,
}

abbrev pub entry_of : Text → Text
entry_of = strip_back is_separator

-- A path line names a member inside the target directory: without the separators behind it, it is
-- an object path, and no drive letter stands in front.
abbrev pub IsSafeEntry : Text → Type 0
IsSafeEntry line = (looks_absolute_or_drive (entry_of line) ≡ false) × IsObjectPath (entry_of line)

-- A verbose line is empty, or describes a regular file or a directory.
abbrev pub IsPlainMember : Text → Type 0
IsPlainMember [] = Unit
IsPlainMember (type ∷ _) = (type ≡ b'-') ⊎ (type ≡ b'd')

abbrev pub manifests : List Text → ℕ
manifests [] = 0
manifests (line ∷ rest) = let n = manifests rest in if is_manifest (entry_of line) then suc n else n

-- the counters behind the lines, all of them accepted
abbrev pub after : List Text → ArchivePrescanResult → ArchivePrescanResult
after [] r = r
after (line ∷ rest) r = after rest (counted (entry_of line) r)

nonempty_object : (p : Text) → IsObjectPath p → text_eq p [] ≡ false
nonempty_object p w = (tests_of_accepted p ((normalize_registry_object_path_lem p p).1 (refl, w))).0

pub and_then-eq-go :
    (s : Scan) (f : ArchivePrescanResult → Scan) {r' : ArchivePrescanResult}
    → and_then s f ≡ go r'
    → (q : ArchivePrescanResult) × (s ≡ go q) × (f q ≡ go r')
and_then-eq-go (go q) f h = (q, refl, h)
and_then-eq-go (stop q) f h = cc

step_of_tests :
    (line : Text) (r r' : ArchivePrescanResult)
    → scan_path line r ≡ go r'
    → (r' ≡ counted (entry_of line) r)
      × (looks_absolute_or_drive (entry_of line) ≡ false)
      × (is_ok (normalize_registry_object_path (entry_of line)) ≡ true)
unfolding scan_path
step_of_tests line r r' h = ground arith

accepted_object : (p : Text) → is_ok (normalize_registry_object_path p) ≡ true → IsObjectPath p
accepted_object p h = elim (Result-cases (normalize_registry_object_path p)) [
  | inl (q, e) ↦ ((normalize_registry_object_path_lem p q).0 e).1
  | inr (_, _, e) ↦ cc (rw e at h)
]

scan_path-safe :
    (line : Text) (r r' : ArchivePrescanResult)
    → scan_path line r ≡ go r'
    → (r' ≡ counted (entry_of line) r) × IsSafeEntry line
scan_path-safe line r r' h =
    let (e, relative, object) = step_of_tests line r r' h in
    (e, (relative, accepted_object (entry_of line) object))

scan_path_of_safe :
    (line : Text) (r : ArchivePrescanResult)
    → IsSafeEntry line
    → scan_path line r ≡ go (counted (entry_of line) r)
unfolding scan_path
scan_path_of_safe line r h =
    let p = entry_of line in
    rw (nonempty_object p h.1, h.0, (normalize_registry_object_path_lem p p).1 (refl, h.1)) refl

pub scan_paths-safe :
    (lines : List Text) (r r' : ArchivePrescanResult)
    → scan_paths lines r ≡ go r'
    → (r' ≡ after lines r) × All IsSafeEntry lines
unfolding scan_paths
scan_paths-safe [] r r' h = (cc, tt)
scan_paths-safe (line ∷ rest) r r' h =
    let (q, first, later) = and_then-eq-go (scan_path line r) (scan_paths rest) h in
    let step = scan_path-safe line r q first in
    let ih = scan_paths-safe rest q r' later in (cc (ih.0, step.0), (step.1, ih.1))

pub scan_paths_of_safe :
    (lines : List Text) (r : ArchivePrescanResult)
    → All IsSafeEntry lines
    → scan_paths lines r ≡ go (after lines r)
unfolding scan_paths
scan_paths_of_safe [] r h = refl
scan_paths_of_safe (line ∷ rest) r h =
    rw (scan_path_of_safe line r h.0) (scan_paths_of_safe rest (counted (entry_of line) r) h.1)

pub scan_members-plain :
    (lines : List Text) (r r' : ArchivePrescanResult)
    → scan_members lines r ≡ go r'
    → (r' ≡ r) × All IsPlainMember lines
unfolding scan_members scan_member
scan_members-plain [] r r' h = (cc, tt)
scan_members-plain ([] ∷ rest) r r' h =
    let ih = scan_members-plain rest r r' h in (ih.0, (tt, ih.1))
scan_members-plain ((type ∷ _) ∷ rest) r r' h = ground (arith, scan_members-plain rest r r')

pub scan_members_of_plain :
    (lines : List Text) (r : ArchivePrescanResult)
    → All IsPlainMember lines
    → scan_members lines r ≡ go r
unfolding scan_members scan_member
scan_members_of_plain [] r h = refl
scan_members_of_plain ([] ∷ rest) r h = scan_members_of_plain rest r h.1
scan_members_of_plain ((type ∷ _) ∷ rest) r h = ground (arith, scan_members_of_plain rest r h.1)
