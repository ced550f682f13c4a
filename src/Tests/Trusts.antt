-- ===== src/Tests/Trusts.antt =====
-- A registry with one package, run through the verifier.
use pafio_nightly.Trust.Time.{
  days_before_month, days_before_year, days_in_month, is_leap, is_valid_moment, parse_utc_timestamp,
  read_moment, seconds_of,
}
use pafio_nightly.Trust.CanonicalJson.{append_canonical_json, canonical_json_bytes, commas}
use pafio_nightly.Registry.Paths.{
  is_registry_sha256_digest, normalize_registry_object_path, split_posix_path,
}
use pafio_nightly.Prelude.Sort.{sort_by}
use pafio_nightly.Lexicon.{is_lower_hex, is_sha256_digest, regex_match}
use pafio_nightly.FilePath.{
  components, drop_last, ends_in_name, is_absolute, is_file_name, join, last_is, lexically_normal,
  normal_components, render,
}
use pafio_nightly.Prelude.{
  Bool, true, false, none, some, List, [], ◌∷◌, text, ◌≡◌, ◌≤◌, refl, String, length, text_eq,
  if◌then◌else◌, has_byte, split_lines, starts_with, text_ltb,
}
use pafio_nightly.Prelude.Int.{pos}
use pafio_nightly.Trust.Fields.{
  Verifier, Objects, enforce_expires, enforce_version_monotonic, normalize_relative, parse_object,
  require_bool_field, require_int_field, require_object_bytes, require_object_field, require_sha256,
  require_string_field, value_int, value_text, verify_meta_hash,
}
use pafio_nightly.Trust.Chain.{
  TufVerifyResult, Verdict, verdict, verify_package_chain, verify_tuf_chain_for_package,
  TrustedRoot, read_root, verify_anchor, is_targets_object, verify_checkpoint, verify_config,
  verify_entries, verify_listed, verify_rest, verify_root, verify_snapshot, verify_targets,
  verify_timestamp,
}
use pafio_nightly.Trust.Registry.{
  verify_tuf_registry_root, first_of, replayable_snapshot, replayable_timestamp, scan_entries,
  scan_snapshot, verify_first,
}
use mathlib.Core.List.{foldl}
use pafio_nightly.Trust.Json.{member, member_as, integer_at}
use pafio_nightly.Trust.Outcomes.{done}
use pafio_nightly.Trust.Fields.{parse_object}
use pafio_nightly.Trust.Roles.{
  RolePolicy, read_envelope, open_envelope, parse_keyids, parse_keys, parse_role_policy,
  parse_threshold, require_quorum, tally_all, tally_keyid, tally_root_signature, tally_signature,
  verify_role_envelope,
}
use pafio_nightly.Trust.Attested.{Attested}
use pafio_nightly.Trust.Accepted.{IsTrusted}
use pafio_nightly.Trust.Accepted.Anchor.{RootStands}
use pafio_nightly.Trust.Accepted.Verified.{verify_package_chain-IsTrusted}
use pafio_nightly.Trust.Registry.Covers.{SnapshotCovered, verify_tuf_registry_root-covers}
use pafio_nightly.Trust.Chain.{uncaught}
use pafio_nightly.Trust.Chain.Log.{
  verify_log, zeros, hex_of_raw, extend, leaf_name, padded, raw_of_hex, read_leaf, verify_leaves,
}
use pafio_nightly.Trust.Chain.Leaves.{AreLeaves, verify_log-folds}
use pafio_nightly.Trust.Chain.Refusals.{verify_package_chain-uncaught}
use pafio_nightly.Tests.SampleToml.{
  Node, str, bool, number, no_items, no_fields, item, field, as_text,
}
use pafio_nightly.Tests.SampleJson.{
  Documents, sample_json, sample_verifier, sample_objects, sample_digest, find_document,
}

abbrev f : String → Node → Node → Node
f key value rest = field (text key) value rest

abbrev s : String → Node
s value = str (text value)

abbrev digest : String → Node
digest path = f "hashes" (f "sha256" (str (sample_digest (text path))) no_fields) no_fields

abbrev role : Node
role = f "keyids" (item (s "k") no_items) no_fields

abbrev envelope : Node → Node
envelope signed =
    f "signed" signed
      (f "signatures" (item (f "keyid" (s "k") (f "sig" (s "p") no_fields)) no_items) no_fields)

abbrev signed_part : String → Node → Node
signed_part type rest =
    f "type" (s type) (f "spec_version" (s "1") (f "expires" (s "2030-01-01T00:00:00Z") rest))

abbrev root_signed : Node
root_signed = signed_part "root" (
    f "version" (number 1) (
      f "keys" (f "k" (f "keyval" (f "public" (s "p") no_fields) no_fields) no_fields) (
        f "roles"
          (f "root" role
            (f "timestamp" role (f "snapshot" role (f "targets" role (f "log" role no_fields)))))
          no_fields)))

abbrev timestamp_signed : Node
timestamp_signed = signed_part "timestamp" (
    f "version" (number 3)
      (f "meta" (f "trust/snapshot.json" (digest "trust/snapshot.json") no_fields) no_fields))

abbrev documents : Documents
documents =
    (
      text "config.json",
      f "protocol" (s "pafio-static-registry") (
          f "protocol_version" (number 2) (
            f "capabilities"
              (f "append_only_index" (bool true) (
                f "source_artifacts" (bool true)
                  (f "binary_artifacts" (bool false) (f "transparency_log" (bool true) no_fields))))
              no_fields)),
    )
    ∷ (text "trust/root.json", envelope root_signed)
    ∷ (text "trust/timestamp.json", envelope timestamp_signed)
    ∷ (
      text "trust/snapshot.json",
      envelope (
          signed_part "snapshot" (
            f "version" (number 4) (
              f "meta" (f "targets/core.json" (digest "targets/core.json") no_fields) (
                f "log_meta" (f "log/checkpoint.json" (digest "log/checkpoint.json") no_fields)
                  no_fields)))),
    )
    ∷ (
      text "log/checkpoint.json",
      envelope (
          signed_part "checkpoint" (
            f "tree_size" (number 1) (
              f "root_hash" (s "0404040404040404040404040404040404040404040404040404040404040404")
                no_fields))),
    )
    ∷ (
      text "targets/core.json",
      envelope (
          signed_part "targets"
            (f "namespace" (s "core") (f "packages" (f "core/lib" no_fields no_fields) no_fields))),
    )
    ∷ (text "log/leaves/000000000001.json", f "sequence" (number 1) no_fields)
    ∷ []

abbrev verifier : Verifier
verifier = sample_verifier documents

abbrev objects : Objects
objects = sample_objects documents

abbrev is_good : Verdict verifier → Bool
is_good (verdict result) = result.is_ok
is_good _ = false

chain_test :
    is_good (
      verify_tuf_chain_for_package verifier objects
        (text "core/lib")
        (text "core")
        none
        (text "targets/core.json")
        (pos 3)
        (pos 4))
    ≡ true
unfolding verify_tuf_chain_for_package verify_package_chain verify_anchor verify_config
    require_object_bytes find_document parse_object value_text value_int require_object_field
    require_bool_field verify_root open_envelope require_string_field read_root parse_role_policy
    parse_keyids parse_threshold components drop_last ends_in_name is_absolute is_file_name join
    last_is lexically_normal normal_components render is_lower_hex is_sha256_digest regex_match
    sort_by has_byte split_lines starts_with text_eq text_ltb is_registry_sha256_digest
    normalize_registry_object_path split_posix_path append_canonical_json canonical_json_bytes
    commas extend hex_of_raw leaf_name padded raw_of_hex read_leaf verify_leaves verify_log
    is_targets_object verify_checkpoint verify_entries verify_listed verify_rest verify_snapshot
    verify_targets verify_timestamp enforce_expires enforce_version_monotonic normalize_relative
    require_int_field require_sha256 verify_meta_hash parse_keys read_envelope require_quorum
    tally_all tally_keyid tally_root_signature tally_signature verify_role_envelope
    days_before_month days_before_year days_in_month is_leap is_valid_moment parse_utc_timestamp
    read_moment seconds_of
chain_test = refl

registry_test : is_good (verify_tuf_registry_root verifier objects) ≡ true
unfolding verify_tuf_registry_root replayable_timestamp replayable_snapshot scan_snapshot
    scan_entries first_of verify_first is_targets_object verify_entries verify_log verify_leaves
    read_leaf extend verify_package_chain verify_anchor verify_config require_object_bytes
    find_document parse_object value_text value_int require_object_field require_bool_field
    verify_root open_envelope require_string_field read_root parse_role_policy parse_keyids
    parse_threshold components drop_last ends_in_name is_absolute is_file_name join last_is
    lexically_normal normal_components render is_lower_hex is_sha256_digest regex_match sort_by
    has_byte split_lines starts_with text_eq text_ltb is_registry_sha256_digest
    normalize_registry_object_path split_posix_path append_canonical_json canonical_json_bytes
    commas hex_of_raw leaf_name padded raw_of_hex verify_checkpoint verify_listed verify_rest
    verify_snapshot verify_targets verify_timestamp enforce_expires enforce_version_monotonic
    normalize_relative require_int_field require_sha256 verify_meta_hash parse_keys read_envelope
    require_quorum tally_all tally_keyid tally_root_signature tally_signature verify_role_envelope
    days_before_month days_before_year days_in_month is_leap is_valid_moment parse_utc_timestamp
    read_moment seconds_of
registry_test = refl

abbrev targets_signed : Node
targets_signed =
    signed_part "targets"
      (f "namespace" (s "core") (f "packages" (f "core/lib" no_fields no_fields) no_fields))

abbrev accepted : TufVerifyResult verifier
accepted = record {
  is_ok = true;
  error = "";
  error_code = "";
  targets = some (record {
    signed_payload = targets_signed;
    relative_path = text "targets/core.json";
    sha256 = sample_digest (text "targets/core.json");
  });
  root_version = pos 1;
  timestamp_version = pos 3;
  snapshot_version = pos 4;
}

chain_accepts :
    verify_package_chain verifier objects
      (text "core/lib")
      (text "core")
      none
      (text "targets/core.json")
      false
      (pos 3)
      (pos 4)
    ≡ verdict accepted
unfolding verify_package_chain verify_anchor verify_config require_object_bytes find_document
    parse_object value_text value_int require_object_field require_bool_field verify_root
    open_envelope require_string_field read_root parse_role_policy parse_keyids parse_threshold
    components drop_last ends_in_name is_absolute is_file_name join last_is lexically_normal
    normal_components render is_lower_hex is_sha256_digest regex_match sort_by has_byte split_lines
    starts_with text_eq text_ltb is_registry_sha256_digest normalize_registry_object_path
    split_posix_path append_canonical_json canonical_json_bytes commas extend hex_of_raw leaf_name
    padded raw_of_hex read_leaf verify_leaves verify_log is_targets_object verify_checkpoint
    verify_entries verify_listed verify_rest verify_snapshot verify_targets verify_timestamp
    enforce_expires enforce_version_monotonic normalize_relative require_int_field require_sha256
    verify_meta_hash parse_keys read_envelope require_quorum tally_all tally_keyid
    tally_root_signature tally_signature verify_role_envelope days_before_month days_before_year
    days_in_month is_leap is_valid_moment parse_utc_timestamp read_moment seconds_of
chain_accepts = refl

verify_package_chain-IsTrusted_example :
    IsTrusted verifier objects
      (text "core/lib")
      (text "core")
      none
      (text "targets/core.json")
      (pos 3)
      (pos 4)
      accepted
verify_package_chain-IsTrusted_example =
    verify_package_chain-IsTrusted verifier objects (text "core/lib") (text "core") none
      (text "targets/core.json") false (pos 3) (pos 4) chain_accepts refl

registry_accepts : verify_tuf_registry_root verifier objects ≡ verdict accepted
unfolding verify_tuf_registry_root replayable_timestamp replayable_snapshot scan_snapshot
    scan_entries first_of verify_first is_targets_object verify_entries verify_log verify_leaves
    read_leaf extend verify_package_chain verify_anchor verify_config require_object_bytes
    find_document parse_object value_text value_int require_object_field require_bool_field
    verify_root open_envelope require_string_field read_root parse_role_policy parse_keyids
    parse_threshold components drop_last ends_in_name is_absolute is_file_name join last_is
    lexically_normal normal_components render is_lower_hex is_sha256_digest regex_match sort_by
    has_byte split_lines starts_with text_eq text_ltb is_registry_sha256_digest
    normalize_registry_object_path split_posix_path append_canonical_json canonical_json_bytes
    commas hex_of_raw leaf_name padded raw_of_hex verify_checkpoint verify_listed verify_rest
    verify_snapshot verify_targets verify_timestamp enforce_expires enforce_version_monotonic
    normalize_relative require_int_field require_sha256 verify_meta_hash parse_keys read_envelope
    require_quorum tally_all tally_keyid tally_root_signature tally_signature verify_role_envelope
    days_before_month days_before_year days_in_month is_leap is_valid_moment parse_utc_timestamp
    read_moment seconds_of
registry_accepts = refl

verify_tuf_registry_root-covers_example :
    (root : TrustedRoot verifier) × (snapshot : Node) × RootStands verifier objects none root
    × Attested verifier objects
        (text "trust/snapshot.json")
        (text "snapshot")
        root.snapshot_role
        root.key_lookup
        snapshot
    × SnapshotCovered verifier objects root snapshot
verify_tuf_registry_root-covers_example =
    verify_tuf_registry_root-covers verifier objects registry_accepts refl

abbrev checkpoint_signed : Node
checkpoint_signed = signed_part "checkpoint" (
    f "tree_size" (number 1) (
      f "root_hash" (s "0404040404040404040404040404040404040404040404040404040404040404")
        no_fields))

log_passes : verify_log verifier objects checkpoint_signed ≡ done tt
unfolding replayable_timestamp replayable_snapshot scan_snapshot scan_entries first_of verify_first
    is_targets_object verify_entries verify_log verify_leaves read_leaf extend verify_package_chain
    verify_anchor verify_config require_object_bytes find_document parse_object value_text value_int
    require_object_field require_bool_field verify_root open_envelope require_string_field read_root
    parse_role_policy parse_keyids parse_threshold components drop_last ends_in_name is_absolute
    is_file_name join last_is lexically_normal normal_components render is_lower_hex
    is_sha256_digest regex_match sort_by has_byte split_lines starts_with text_eq text_ltb
    is_registry_sha256_digest normalize_registry_object_path split_posix_path append_canonical_json
    canonical_json_bytes commas hex_of_raw leaf_name padded raw_of_hex verify_checkpoint
    verify_listed verify_rest verify_snapshot verify_targets verify_timestamp enforce_expires
    enforce_version_monotonic normalize_relative require_int_field require_sha256 verify_meta_hash
    parse_keys read_envelope require_quorum tally_all tally_keyid tally_root_signature
    tally_signature verify_role_envelope days_before_month days_before_year days_in_month is_leap
    is_valid_moment parse_utc_timestamp read_moment seconds_of
log_passes = refl

verify_log-folds_example :
    (leaves : List Node) × (integer_at (sample_json documents) checkpoint_signed (text "tree_size")
      ≡ some (pos (length leaves)))
    × (length leaves ≤ 1000000)
    × AreLeaves verifier objects 1 leaves
    × (member_as (sample_json documents) as_text checkpoint_signed (text "root_hash")
        ≡ some (hex_of_raw (foldl (extend verifier) (zeros 32) leaves)))
verify_log-folds_example = verify_log-folds verifier objects checkpoint_signed log_passes

abbrev only_k : RolePolicy
only_k = record { keyids = text "k" ∷ []; threshold = pos 1 }

abbrev trusted : TrustedRoot verifier
trusted = record {
  signed_payload = root_signed;
  key_lookup = λ keyid. if text_eq (text "k") keyid then some (text "p") else none;
  root_role = only_k;
  timestamp_role = only_k;
  snapshot_role = only_k;
  targets_role = only_k;
  log_role = only_k;
  version = pos 1;
}

anchored : verify_anchor verifier objects none ≡ done trusted
unfolding verify_package_chain verify_anchor verify_config require_object_bytes find_document
    parse_object value_text value_int require_object_field require_bool_field verify_root
    open_envelope require_string_field read_root parse_role_policy parse_keyids parse_threshold
    components drop_last ends_in_name is_absolute is_file_name join last_is lexically_normal
    normal_components render is_lower_hex is_sha256_digest regex_match sort_by has_byte split_lines
    starts_with text_eq text_ltb is_registry_sha256_digest normalize_registry_object_path
    split_posix_path append_canonical_json canonical_json_bytes commas extend hex_of_raw leaf_name
    padded raw_of_hex read_leaf verify_leaves verify_log is_targets_object verify_checkpoint
    verify_entries verify_listed verify_rest verify_snapshot verify_targets verify_timestamp
    enforce_expires enforce_version_monotonic normalize_relative require_int_field require_sha256
    verify_meta_hash parse_keys read_envelope require_quorum tally_all tally_keyid
    tally_root_signature tally_signature verify_role_envelope days_before_month days_before_year
    days_in_month is_leap is_valid_moment parse_utc_timestamp read_moment seconds_of
anchored = refl

-- a registry whose configuration gives its protocol as a number
abbrev odd_documents : Documents
odd_documents = (text "config.json", f "protocol" (number 2) no_fields) ∷ []

odd_config :
    parse_object (sample_json odd_documents) (text "config.json")
    ≡ done (f "protocol" (number 2) no_fields)
unfolding parse_object find_document text_eq
odd_config = refl

odd_bytes : sample_objects odd_documents (text "config.json") ≡ some (text "config.json")
unfolding find_document text_eq
odd_bytes = refl

odd_protocol :
    member (sample_json odd_documents) (f "protocol" (number 2) no_fields) (text "protocol")
    ≡ some (number 2)
unfolding text_eq
odd_protocol = refl

verify_package_chain-uncaught_example :
    verify_package_chain
      (sample_verifier odd_documents)
      (sample_objects odd_documents)
      (text "core/lib")
      (text "core")
      none
      (text "targets/core.json")
      false
      (pos 0)
      (pos 0)
    ≡ uncaught
verify_package_chain-uncaught_example =
    verify_package_chain-uncaught (sample_verifier odd_documents) (sample_objects odd_documents)
      (text "core/lib") (text "core") none (text "targets/core.json") false (pos 0) (pos 0)
      (text "config.json") (f "protocol" (number 2) no_fields) (number 2) odd_bytes odd_config
      odd_protocol refl
