-- ===== src/Trust/Accepted/Stages.antt =====
-- The documents that the timestamp leads to: the snapshot, the checkpoint and the targets.
use mathlib.Core.Path.{subst}
use pafio_nightly.Prelude.{
  true, false, some, List, [], ◌∷◌, ◌≡◌, ap, ◌∙◌, inl, inr, Text, text, text_eq, text_eq_iff,
  Bool-cases,
}
use pafio_nightly.Prelude.Int.{ℤ}
use pafio_nightly.Trust.Json.{members, object_at, string_at}
use pafio_nightly.Trust.Outcomes.{
  done, or_fail, bind-eq-done, unless-eq-done, or_fail-eq-done, done_injective,
}
use pafio_nightly.Trust.Fields.{
  Verifier, Objects, require_object_field, require_string_field, require_int_field,
  normalize_relative, enforce_version_monotonic, verify_meta_hash,
}
use pafio_nightly.Trust.Roles.{read_envelope}
use pafio_nightly.Trust.Attested.{
  Attested, Pinned, HasVersion, read_envelope-Attested, enforce_version-HasVersion,
  verify_meta_hash-Pinned,
}
use pafio_nightly.Trust.Chain.{
  TrustedRoot, verify_snapshot, verify_checkpoint, verify_listed, verify_targets,
}
use pafio_nightly.Trust.Accepted.{Entry, IsListed}

module _ (V : Verifier) where
  open V use {json, sha256_text}
  open json use {Value}

  verify_listed-IsListed :
      (objects : Objects) (path : Text) (entries : List (Text × Value)) {u : Unit {0}}
      → verify_listed V objects path entries ≡ done u
      → IsListed V objects entries path
  unfolding verify_listed
  verify_listed-IsListed objects path [] h = cc
  verify_listed-IsListed objects path ((name, meta) ∷ rest) h =
      let (normalized, e, h1) = bind-eq-done (normalize_relative name) _ h in
      elim (Bool-cases (text_eq normalized path)) [
        | inl same ↦
            let at = (text_eq_iff normalized path).0 same in
            let pinned = verify_meta_hash-Pinned V meta normalized objects false (rw same at h1) in
            inl (e ∙ ap done at, subst (Pinned V objects meta) at pinned)
        | inr other ↦ inr (verify_listed-IsListed objects path rest (rw other at h1))
      ]

  pub object_field-there :
      (payload : Value) (field : Text) {inner : Value}
      → require_object_field json payload field ≡ done inner
      → object_at json payload field ≡ some inner
  unfolding require_object_field
  object_field-there payload field h = or_fail-eq-done _ _ (object_at json payload field) h

  -- the snapshot, and the entry of the timestamp that pins it
  unfoldable pub SnapshotStands : Objects → TrustedRoot V → Value → ℤ → Value × ℤ → Type 0
  SnapshotStands objects root timestamp floor (snapshot, version) =
      ((entry : Value) × Entry V timestamp (text "meta") (text "trust/snapshot.json") entry
        × Pinned V objects entry (text "trust/snapshot.json"))
      × Attested V objects (text "trust/snapshot.json") (text "snapshot") root.snapshot_role
          root.key_lookup snapshot
      × HasVersion V snapshot floor version

  pub verify_snapshot-stands :
      (objects : Objects) (root : TrustedRoot V) (timestamp : Value) (floor : ℤ) {p : Value × ℤ}
      → verify_snapshot V objects root timestamp floor ≡ done p
      → SnapshotStands objects root timestamp floor p
  unfolding verify_snapshot SnapshotStands
  verify_snapshot-stands objects root timestamp floor h =
      let (meta, e0, h0) = bind-eq-done (require_object_field json timestamp (text "meta")) _ h in
      let (entry, e1, h1) =
        bind-eq-done (require_object_field json meta (text "trust/snapshot.json")) _ h0 in
      let (_, e2, h2) =
        bind-eq-done (verify_meta_hash V entry (text "trust/snapshot.json") objects true) _ h1 in
      let (read, e3, h3) =
        bind-eq-done
          (read_envelope V objects (text "trust/snapshot.json") (text "snapshot") root.snapshot_role
            root.key_lookup)
          _ h2 in
      let (_, e4, h4) = bind-eq-done (enforce_version_monotonic json read floor) _ h3 in
      let (v, e5, h5) = bind-eq-done (require_int_field json read (text "version")) _ h4 in
      subst (SnapshotStands objects root timestamp floor) (done_injective h5) (
        (
          entry,
          (
            meta,
            object_field-there timestamp (text "meta") e0,
            object_field-there meta (text "trust/snapshot.json") e1,
          ),
          verify_meta_hash-Pinned V entry _ objects true e2,
        ),
        read_envelope-Attested V objects _ _ root.snapshot_role root.key_lookup e3,
        enforce_version-HasVersion V read floor v e4 e5,
      )

  unfoldable pub CheckpointStands : Objects → TrustedRoot V → Value → Value × Value → Type 0
  CheckpointStands objects root snapshot (entries, checkpoint) =
      (object_at json snapshot (text "meta") ≡ some entries)
      × ((entry : Value) × Entry V snapshot (text "log_meta") (text "log/checkpoint.json") entry
          × Pinned V objects entry (text "log/checkpoint.json"))
      × Attested V objects (text "log/checkpoint.json") (text "checkpoint") root.log_role
          root.key_lookup checkpoint

  pub verify_checkpoint-stands :
      (objects : Objects) (root : TrustedRoot V) (snapshot : Value) {p : Value × Value}
      → verify_checkpoint V objects root snapshot ≡ done p
      → CheckpointStands objects root snapshot p
  unfolding verify_checkpoint CheckpointStands
  verify_checkpoint-stands objects root snapshot h =
      let (entries, e0, h0) = bind-eq-done (require_object_field json snapshot (text "meta")) _ h in
      let (log_meta, e1, h1) =
        bind-eq-done (require_object_field json snapshot (text "log_meta")) _ h0 in
      let (entry, e2, h2) =
        bind-eq-done (require_object_field json log_meta (text "log/checkpoint.json")) _ h1 in
      let (_, e3, h3) =
        bind-eq-done (verify_meta_hash V entry (text "log/checkpoint.json") objects false) _ h2 in
      let (read, e4, h4) =
        bind-eq-done
          (read_envelope V objects (text "log/checkpoint.json") (text "checkpoint") root.log_role
            root.key_lookup)
          _ h3 in
      subst (CheckpointStands objects root snapshot) (done_injective h4) (
        object_field-there snapshot (text "meta") e0,
        (
          entry,
          (
            log_meta,
            object_field-there snapshot (text "log_meta") e1,
            object_field-there log_meta (text "log/checkpoint.json") e2,
          ),
          verify_meta_hash-Pinned V entry _ objects false e3,
        ),
        read_envelope-Attested V objects _ _ root.log_role root.key_lookup e4,
      )

  unfoldable pub TargetsStand :
      Objects → TrustedRoot V → Value → Text → Text → Text → Value × Text → Type 0
  TargetsStand objects root entries package_name namespace targets_path (targets, path) =
      (normalize_relative targets_path ≡ done path)
      × IsListed V objects (members json entries) path
      × Attested V objects path (text "targets") root.targets_role root.key_lookup targets
      × (string_at json targets (text "namespace") ≡ some namespace)
      × ((listed : Value) × Entry V targets (text "packages") package_name listed)

  pub verify_targets-stand :
      (objects : Objects) (root : TrustedRoot V) (entries : Value)
      (package_name namespace targets_path : Text) {p : Value × Text}
      → verify_targets V objects root entries package_name namespace targets_path ≡ done p
      → TargetsStand objects root entries package_name namespace targets_path p
  unfolding verify_targets TargetsStand require_string_field
  verify_targets-stand objects root entries package_name namespace targets_path h =
      let (path, e0, h0) = bind-eq-done (normalize_relative targets_path) _ h in
      let (_, e1, h1) = bind-eq-done (verify_listed V objects path (members json entries)) _ h0 in
      let (read, e2, h2) =
        bind-eq-done
          (read_envelope V objects path (text "targets") root.targets_role root.key_lookup) _ h1 in
      let (name, e3, h3) = bind-eq-done (require_string_field json read (text "namespace")) _ h2 in
      let (same, h4) = unless-eq-done (text_eq name namespace) _ _ _ h3 in
      let (packages, e5, h5) =
        bind-eq-done (require_object_field json read (text "packages")) _ h4 in
      let (listed, e6, h6) =
        bind-eq-done
          (or_fail "tuf.package_missing" "targets metadata is missing package"
            (object_at json packages package_name))
          _ h5 in
      let named = or_fail-eq-done _ _ (string_at json read (text "namespace")) e3 in
      subst (TargetsStand objects root entries package_name namespace targets_path)
        (done_injective h6)
        (
          e0,
          verify_listed-IsListed objects path (members json entries) e1,
          read_envelope-Attested V objects path _ root.targets_role root.key_lookup e2,
          named ∙ ap some ((text_eq_iff name namespace).0 same),
          (
            listed,
            (
              packages,
              object_field-there read (text "packages") e5,
              or_fail-eq-done _ _ (object_at json packages package_name) e6,
            ),
          ),
        )
