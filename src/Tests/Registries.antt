-- ===== src/Tests/Registries.antt =====
-- Object paths, package names, registry roots and archive listings, run on examples.
use pafio_nightly.FilePath.{is_absolute, last_is, lexically_normal}
use pafio_nightly.Prelude.{
  true, false, [], length, Text, text, split_lines, starts_with, ok, is_ok, ◌≡◌, ◌↔◌, ◌⊎◌, refl,
  has_byte, strip_back, text_eq,
}
use pafio_nightly.Lexicon.{is_package_name, normalize_registry_root, url_has_userinfo, is_digit}
use pafio_nightly.Registry.Paths.{
  normalize_registry_object_path, split_registry_package_name, split_posix_path,
}
use pafio_nightly.Registry.Paths.Objects.{normalize_registry_object_path_lem}
use pafio_nightly.Registry.Paths.Parts.{IsObjectPath}
use pafio_nightly.Registry.Paths.PackageNames.{split_registry_package_name-accepts}
use pafio_nightly.Registry.Archive.{
  prescan_archive_listing, is_manifest, looks_absolute_or_drive, scan_member, scan_members,
  scan_path, scan_paths,
}
use pafio_nightly.Registry.Archive.Safe.{
  IsExtractable, prescan_archive_listing-ok, prescan_archive_listing-counts,
}
use pafio_nightly.Registry.Archive.Lines.{manifests}
use pafio_nightly.Registry.Security.{
  RegistryReadSecurityRequest, RegistryReadSecurityDecision, RegistryWriteSecurityRequest,
  RegistryWriteSecurityDecision, is_loopback_host, is_file_registry_root, is_http_registry_root,
  is_loopback_http_registry_root, before_last, count_byte, is_loopback_authority, read_octets, stoi,
  to_lower,
}
use pafio_nightly.Registry.Security.Access.{
  resolve_default_registry_read_security, resolve_default_registry_write_security,
  validate_write_registry_root_scheme,
}
use pafio_nightly.Registry.Security.Loopback.{IsLoopbackHost, is_loopback_host_lem}
use pafio_nightly.Registry.Security.Policy.{
  resolve_default_registry_read_security_lem, resolve_default_registry_write_security-safe,
}

abbrev object_path : Text
object_path = text "blobs/ab.tar"

normalize_registry_object_path_lem_example :
    (normalize_registry_object_path object_path ≡ ok object_path)
    ↔ ((object_path ≡ object_path) × IsObjectPath object_path)
normalize_registry_object_path_lem_example =
    normalize_registry_object_path_lem object_path object_path

object_path_test : normalize_registry_object_path object_path ≡ ok object_path
unfolding normalize_registry_object_path text_eq last_is has_byte starts_with is_absolute
    split_posix_path lexically_normal
object_path_test = refl

parent_test : is_ok (normalize_registry_object_path (text "blobs/../ab.tar")) ≡ false
unfolding normalize_registry_object_path text_eq last_is has_byte starts_with is_absolute
    split_posix_path
parent_test = refl

split_registry_package_name-accepts_example :
    is_ok (split_registry_package_name (text "core/lib")) ≡ is_package_name (text "core/lib")
split_registry_package_name-accepts_example = split_registry_package_name-accepts (text "core/lib")

package_name_test : is_ok (split_registry_package_name (text "core/lib")) ≡ true
unfolding split_registry_package_name
package_name_test = refl

abbrev paths_listing : Text
paths_listing = text "pkg/\npkg/pafio.toml\npkg/src/lib.styio\n"

abbrev verbose_listing : Text
verbose_listing = text "drwxr pkg/\n-rw-r pkg/pafio.toml\n-rw-r pkg/src/lib.styio\n"

prescan_archive_listing-ok_example :
    ((prescan_archive_listing paths_listing verbose_listing false true).ok ≡ true) ↔ (
      (false ≡ false)
      × IsExtractable (split_lines b'\n' paths_listing) (split_lines b'\n' verbose_listing) true)
prescan_archive_listing-ok_example =
    prescan_archive_listing-ok paths_listing verbose_listing false true

listing_passes : (prescan_archive_listing paths_listing verbose_listing false true).ok ≡ true
unfolding prescan_archive_listing scan_paths split_lines scan_path text_eq strip_back
    looks_absolute_or_drive normalize_registry_object_path last_is has_byte starts_with is_absolute
    split_posix_path lexically_normal is_manifest scan_members scan_member
listing_passes = refl

link_refused :
    (prescan_archive_listing paths_listing (text "lrwxr pkg -> /etc") false true).ok ≡ false
unfolding prescan_archive_listing scan_paths split_lines scan_path text_eq strip_back
    looks_absolute_or_drive normalize_registry_object_path last_is has_byte starts_with is_absolute
    split_posix_path lexically_normal is_manifest scan_members scan_member
link_refused = refl

prescan_archive_listing-counts_example :
    ((prescan_archive_listing paths_listing verbose_listing false true).entry_count
      ≡ length (split_lines b'\n' paths_listing))
    × ((prescan_archive_listing paths_listing verbose_listing false true).manifest_candidates
        ≡ manifests (split_lines b'\n' paths_listing))
prescan_archive_listing-counts_example =
    prescan_archive_listing-counts paths_listing verbose_listing false true listing_passes

is_loopback_host_lem_example :
    (is_loopback_host (text "127.0.0.1") ≡ true) ↔ IsLoopbackHost (text "127.0.0.1")
is_loopback_host_lem_example = is_loopback_host_lem (text "127.0.0.1")

loopback_test : is_loopback_host (text "127.0.0.1") ≡ true
unfolding is_loopback_host text_eq count_byte read_octets split_lines is_digit stoi
loopback_test = refl

not_loopback_test : is_loopback_host (text "127.0.0.example") ≡ false
unfolding is_loopback_host text_eq count_byte read_octets split_lines is_digit stoi
not_loopback_test = refl

abbrev read_request : RegistryReadSecurityRequest
read_request = record { registry_root = text "https://pkgs.dev/"; offline = false }

abbrev read_decision : RegistryReadSecurityDecision
read_decision = record {
  registry_root = text "https://pkgs.dev";
  request_headers = [];
  provider_name = text "public-default";
}

resolve_default_registry_read_security_lem_example :
    (resolve_default_registry_read_security read_request ≡ ok read_decision) ↔ (
      ((is_file_registry_root (normalize_registry_root read_request.registry_root) ≡ true)
        ⊎ (is_http_registry_root (normalize_registry_root read_request.registry_root) ≡ true))
      × (url_has_userinfo (normalize_registry_root read_request.registry_root) ≡ false)
      × (read_decision.registry_root ≡ normalize_registry_root read_request.registry_root)
      × (read_decision.request_headers ≡ [])
      × (read_decision.provider_name ≡ text "public-default"))
resolve_default_registry_read_security_lem_example =
    resolve_default_registry_read_security_lem read_request read_decision

read_test : resolve_default_registry_read_security read_request ≡ ok read_decision
unfolding resolve_default_registry_read_security is_file_registry_root normalize_registry_root
    is_http_registry_root url_has_userinfo
read_test = refl

abbrev write_request : RegistryWriteSecurityRequest
write_request = record {
  registry_root = text "http://localhost:8080/";
  allow_plaintext_http = true;
}

abbrev write_decision : RegistryWriteSecurityDecision
write_decision = record {
  registry_root = text "http://localhost:8080";
  request_headers = [];
  provider_name = text "public-default";
  mode = text "anonymous";
}

write_test : resolve_default_registry_write_security write_request ≡ ok write_decision
unfolding resolve_default_registry_write_security is_http_registry_root normalize_registry_root
    url_has_userinfo is_loopback_http_registry_root is_loopback_authority is_loopback_host
    before_last to_lower validate_write_registry_root_scheme
write_test = refl

resolve_default_registry_write_security-safe_example :
    (write_decision.registry_root ≡ normalize_registry_root write_request.registry_root)
    × (url_has_userinfo write_decision.registry_root ≡ false)
    × (write_decision.mode ≡ text "anonymous")
    × (write_decision.request_headers ≡ [])
    × ((starts_with write_decision.registry_root (text "https://") ≡ true)
        ⊎ ((write_request.allow_plaintext_http ≡ true)
            × (is_loopback_http_registry_root write_decision.registry_root ≡ true)))
resolve_default_registry_write_security-safe_example =
    resolve_default_registry_write_security-safe write_request write_decision write_test
