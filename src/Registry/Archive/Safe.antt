-- ===== src/Registry/Archive/Safe.antt =====
-- What a listing that passes the prescan is made of.
use pafio_nightly.Prelude.{
  ◌+◌, Bool, true, false, List, [], ◌∷◌, Text, split_lines, All, length, arith, ◌≡◌, ◌↔◌, refl,
}
use pafio_nightly.Registry.Archive.{
  ArchivePrescanResult, empty_result, Scan, go, stop, scan_path, scan_paths, scan_members,
  scan_member, check_manifest, finish, counted, and_then, prescan_archive_listing,
}
use pafio_nightly.Registry.Archive.Lines.{
  entry_of, IsSafeEntry, IsPlainMember, manifests, after, and_then-eq-go, scan_paths-safe,
  scan_paths_of_safe, scan_members-plain, scan_members_of_plain,
}

after-counts :
    (lines : List Text) (r : ArchivePrescanResult)
    → ((after lines r).entry_count ≡ r.entry_count + length lines)
      × ((after lines r).manifest_candidates ≡ r.manifest_candidates + manifests lines)
after-counts [] r = omega arith
after-counts (line ∷ rest) r = ground (arith, after-counts rest (counted (entry_of line) r))

-- What the two listings must be.
pub record IsExtractable (paths members : List Text) (require_single : Bool) : Type 0 where
  pub safe : All IsSafeEntry paths
  pub plain : All IsPlainMember members
  pub single : require_single ≡ true → manifests paths ≡ 1

-- every early return is a refusal
abbrev Refuses : Scan → Type 0
Refuses (go r) = Unit
Refuses (stop r) = r.ok ≡ false

and_then-Refuses :
    (s : Scan) (f : ArchivePrescanResult → Scan)
    → Refuses s
    → ((r : ArchivePrescanResult) → Refuses (f r))
    → Refuses (and_then s f)
and_then-Refuses (go r) f h k = k r
and_then-Refuses (stop r) f h k = h

scan_path-Refuses : (line : Text) (r : ArchivePrescanResult) → Refuses (scan_path line r)
unfolding scan_path
scan_path-Refuses line r = ground arith

scan_paths-Refuses : (lines : List Text) (r : ArchivePrescanResult) → Refuses (scan_paths lines r)
unfolding scan_paths
scan_paths-Refuses [] r = tt
scan_paths-Refuses (line ∷ rest) r =
    and_then-Refuses (scan_path line r) (scan_paths rest) (scan_path-Refuses line r)
      (scan_paths-Refuses rest)

scan_members-Refuses :
    (lines : List Text) (r : ArchivePrescanResult) → Refuses (scan_members lines r)
unfolding scan_members scan_member
scan_members-Refuses [] r = tt
scan_members-Refuses ([] ∷ rest) r = scan_members-Refuses rest r
scan_members-Refuses ((type ∷ _) ∷ rest) r = ground (arith, scan_members-Refuses rest r)

check_manifest-Refuses :
    (single : Bool) (r : ArchivePrescanResult) → Refuses (check_manifest single r)
check_manifest-Refuses single r = ground arith

finish-ok : (s : Scan) → Refuses s → (finish s).ok ≡ true → (r : ArchivePrescanResult) × (s ≡ go r)
finish-ok (go r) n h = (r, refl)
finish-ok (stop r) n h = cc

check_manifest-go :
    (single : Bool) (r q : ArchivePrescanResult)
    → check_manifest single r ≡ go q
    → (q ≡ r) × (single ≡ true → r.manifest_candidates ≡ 1)
check_manifest-go true r q h = ground arith
check_manifest-go false r q h = (cc, λ s. cc)

check_manifest_of :
    (single : Bool) (r : ArchivePrescanResult)
    → (single ≡ true → r.manifest_candidates ≡ 1)
    → check_manifest single r ≡ go r
check_manifest_of true r h = ground (arith, h refl)
check_manifest_of false r h = refl

module _ (paths members : List Text) (single : Bool) where
  front : Scan
  front = and_then (scan_paths paths empty_result) (check_manifest single)

  whole : Scan
  whole = and_then front (scan_members members)

  whole-Refuses : Refuses whole
  unfolding whole front
  whole-Refuses =
      and_then-Refuses front (scan_members members)
        (and_then-Refuses (scan_paths paths empty_result) (check_manifest single)
          (scan_paths-Refuses paths empty_result) (check_manifest-Refuses single))
        (scan_members-Refuses members)

  whole-go :
      (r : ArchivePrescanResult)
      → whole ≡ go r
      → (r ≡ after paths empty_result) × IsExtractable paths members single
  unfolding whole front
  whole-go r h =
      let (q, early, later) = and_then-eq-go front (scan_members members) h in
      let (p, walked, checked) =
        and_then-eq-go (scan_paths paths empty_result) (check_manifest single) early in
      let safe = scan_paths-safe paths empty_result p walked in
      let plain = scan_members-plain members q r later in
      let count = (after-counts paths empty_result).1 in
      let same = check_manifest-go single p q checked in
      (
        cc (safe.0, plain.0, same.0),
        record {
          safe = safe.1;
          plain = plain.1;
          single = λ s. ground (arith, same.1 s, safe.0, count);
        },
      )

  whole_of_extractable : IsExtractable paths members single → whole ≡ go (after paths empty_result)
  unfolding whole front
  whole_of_extractable x =
      rw
        (
          scan_paths_of_safe paths empty_result x.safe,
          check_manifest_of single (after paths empty_result)
              (λ s. omega (arith, x.single s, (after-counts paths empty_result).1)),
        )
        (scan_members_of_plain members (after paths empty_result) x.plain)

-- An archive passes the prescan exactly when its listing was captured whole, every path line is a
-- relative path of plain names (so nothing can be written outside the target), every verbose line
-- is a regular file or a directory, and, where one manifest is required, exactly one line names
-- one.
pub prescan_archive_listing-ok :
    (path_listing verbose_listing : Text) (truncated single : Bool)
    → ((prescan_archive_listing path_listing verbose_listing truncated single).ok ≡ true) ↔ (
        (truncated ≡ false)
        × IsExtractable (split_lines b'\n' path_listing) (split_lines b'\n' verbose_listing) single)
unfolding prescan_archive_listing whole front
prescan_archive_listing-ok path_listing verbose_listing true single = ((λ h. cc), λ h. cc h.0)
prescan_archive_listing-ok path_listing verbose_listing false single =
    let paths = split_lines b'\n' path_listing in
    let members = split_lines b'\n' verbose_listing in
    (
      (λ h.
          let (r, e) =
            finish-ok (whole paths members single) (whole-Refuses paths members single) h in
          (refl, (whole-go paths members single r e).1)),
      λ h. rw (whole_of_extractable paths members single h.1) refl,
    )

-- A listing that passes is counted: an entry for each path line, and a candidate for each line that
-- names a manifest.
pub prescan_archive_listing-counts :
    (path_listing verbose_listing : Text) (truncated single : Bool)
    → (prescan_archive_listing path_listing verbose_listing truncated single).ok ≡ true
    → ((prescan_archive_listing path_listing verbose_listing truncated single).entry_count
        ≡ length (split_lines b'\n' path_listing))
      × ((prescan_archive_listing path_listing verbose_listing truncated single).manifest_candidates
          ≡ manifests (split_lines b'\n' path_listing))
unfolding prescan_archive_listing whole front
prescan_archive_listing-counts path_listing verbose_listing true single h = cc
prescan_archive_listing-counts path_listing verbose_listing false single h =
    let paths = split_lines b'\n' path_listing in
    let members = split_lines b'\n' verbose_listing in
    let x = (prescan_archive_listing-ok path_listing verbose_listing false single).0 h in
    rw (whole_of_extractable paths members single x.1)
      (omega (arith, after-counts paths empty_result))
