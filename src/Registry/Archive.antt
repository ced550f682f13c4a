-- ===== src/Registry/Archive.antt =====
-- PafioSecurity/PrescanArchive.cpp: what the listing of an archive must look like before it is
-- extracted. The words of a message stand for the message, which also names the entry.
pub mod Lines
pub mod Safe
use pafio_nightly.Prelude.{
  ℕ, zero, suc, String, ◌+◌, Bool, true, false, not, ◌&&◌, ◌||◌, Option, none, some, List, [], ◌∷◌,
  ◌++◌, ◌==◌, within, if◌then◌else◌, Text, text, text_eq, strip_back, split_lines, ends_with,
  Result, ok, err,
}
use pafio_nightly.Registry.Paths.{normalize_registry_object_path}

pub record ArchivePrescanResult : Type 0 where
  pub ok : Bool
  pub error : String
  pub error_code : String
  pub entry_count : ℕ
  pub manifest_candidates : ℕ

abbrev pub empty_result : ArchivePrescanResult
empty_result = record {
  ok = false;
  error = "";
  error_code = "";
  entry_count = 0;
  manifest_candidates = 0;
}

abbrev pub fail : ArchivePrescanResult → String → String → ArchivePrescanResult
fail r code message = record r { ok = false; error_code = code; error = message }

unfoldable pub looks_absolute_or_drive : Text → Bool
looks_absolute_or_drive [] = true
looks_absolute_or_drive (a ∷ []) = a == b'/' || a == b'\\'
looks_absolute_or_drive (a ∷ b ∷ s) =
    if a == b'/' || a == b'\\'
    then true
    else (within b'A' b'Z' a || within b'a' b'z' a) && b == b':'

-- a loop goes on with its counters, or the function returns
pub data Scan : Type 0 where
  go : ArchivePrescanResult → Scan
  stop : ArchivePrescanResult → Scan

abbrev pub is_separator : ℕ → Bool
is_separator c = c == b'/' || c == b'\\'

unfoldable pub is_manifest : Text → Bool
unfolding text_eq ends_with
is_manifest entry = text_eq entry (text "pafio.toml") || ends_with entry (text "/pafio.toml")

abbrev pub counted : Text → ArchivePrescanResult → ArchivePrescanResult
counted entry r = record r {
  entry_count = r.entry_count + 1;
  manifest_candidates =
      if is_manifest entry then r.manifest_candidates + 1 else r.manifest_candidates;
}

-- one round of the loop over the path lines
unfoldable pub scan_path : Text → ArchivePrescanResult → Scan
scan_path line r =
    let entry = strip_back is_separator line in
    if text_eq entry []
    then stop (fail r "prescan.empty_path" "archive member path is empty after normalization")
    else if looks_absolute_or_drive entry
    then stop (fail r "prescan.absolute_path" "archive member path must be relative")
    else elim (normalize_registry_object_path entry) [
      | ok _ ↦ go (counted entry r)
      | err _ message ↦ stop (fail r "prescan.traversal" message)
    ]

abbrev pub and_then : Scan → (ArchivePrescanResult → Scan) → Scan
and_then (go r) f = f r
and_then (stop r) f = stop r

unfoldable pub scan_paths : List Text → ArchivePrescanResult → Scan
scan_paths [] r = go r
scan_paths (line ∷ rest) r = and_then (scan_path line r) (λ r'. scan_paths rest r')

-- one round of the loop over the verbose lines, by the first byte of the line
unfoldable pub scan_member : Text → ArchivePrescanResult → Scan
scan_member [] r = go r
scan_member (type ∷ _) r =
    if not (type == b'-') && not (type == b'd')
    then stop (fail r "prescan.member_type" "archive member type is not allowed")
    else go r

unfoldable pub scan_members : List Text → ArchivePrescanResult → Scan
scan_members [] r = go r
scan_members (line ∷ rest) r = and_then (scan_member line r) (λ r'. scan_members rest r')

abbrev pub check_manifest : Bool → ArchivePrescanResult → Scan
check_manifest require_single r =
    if require_single && not (r.manifest_candidates == 1)
    then stop (fail r "prescan.manifest" "archive must contain exactly one pafio.toml manifest")
    else go r

abbrev pub finish : Scan → ArchivePrescanResult
finish (go r) = record r { ok = true }
finish (stop r) = r

unfoldable pub prescan_archive_listing : Text → Text → Bool → Bool → ArchivePrescanResult
prescan_archive_listing path_listing verbose_listing truncated require_single =
    if truncated
    then fail empty_result "prescan.listing_overflow"
        "archive listing exceeded capture limit; refusing extraction"
    else finish (
        and_then
          (and_then (scan_paths (split_lines b'\n' path_listing) empty_result)
            (check_manifest require_single))
          (scan_members (split_lines b'\n' verbose_listing)))
