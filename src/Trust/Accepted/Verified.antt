-- ===== src/Trust/Accepted/Verified.antt =====
-- An accepted package: the documents of the chain put together.
use mathlib.Core.Path.{subst}
use pafio_nightly.Prelude.{Bool, true, Option, some, ◌≡◌, refl, ap, Text}
use pafio_nightly.Prelude.Int.{ℤ}
use pafio_nightly.Trust.Outcomes.{done, bind-eq-done, or_fail-eq-done, done_injective}
use pafio_nightly.Trust.Fields.{Verifier, Objects, require_object_bytes}
use pafio_nightly.Trust.Chain.{
  TufVerifiedTargets, TufVerifyResult, initial_result, verdict, TrustedRoot, verify_timestamp,
  verify_snapshot, verify_checkpoint, verify_targets, verify_rest, verify_anchor,
  verify_package_chain,
}
use pafio_nightly.Trust.Accepted.{attempt-ok, IsTrusted}
use pafio_nightly.Trust.Accepted.Anchor.{RootStands, verify_anchor-stands, verify_timestamp-stands}
use pafio_nightly.Trust.Accepted.Stages.{
  SnapshotStands, CheckpointStands, TargetsStand, verify_snapshot-stands, verify_checkpoint-stands,
  verify_targets-stand,
}
use pafio_nightly.Trust.Chain.{verify_registry}

module _ (V : Verifier) where
  open V use {json, sha256_text}
  open json use {Value}

  RestStands : Objects → TrustedRoot V → Value → Text → Text → Text → TufVerifiedTargets V → Type 0
  RestStands objects root snapshot package_name namespace targets_path found =
      (entries : Value) × (checkpoint : Value) × (path : Text) × CheckpointStands V objects root
        snapshot (entries, checkpoint)
      × TargetsStand V objects root entries package_name namespace targets_path
          (found.signed_payload, path)
      × ((bytes : Text) × (objects path ≡ some bytes)
          × (found ≡ record {
            signed_payload = found.signed_payload;
            relative_path = path;
            sha256 = sha256_text bytes;
          }))

  verify_rest-stands :
      (objects : Objects) (root : TrustedRoot V) (snapshot : Value)
      (package_name namespace targets_path : Text) (full : Bool) {found : TufVerifiedTargets V}
      → verify_rest V objects root snapshot package_name namespace targets_path full ≡ done found
      → RestStands objects root snapshot package_name namespace targets_path found
  unfolding verify_rest require_object_bytes RestStands
  verify_rest-stands objects root snapshot package_name namespace targets_path full h =
      let ((entries, checkpoint), e0, h0) =
        bind-eq-done (verify_checkpoint V objects root snapshot) _ h in
      let ((targets, path), e1, h1) =
        bind-eq-done (verify_targets V objects root entries package_name namespace targets_path) _
          h0 in
      let (_, _, h2) = bind-eq-done (verify_registry V full objects root entries checkpoint) _ h1 in
      let (bytes, e3, h3) = bind-eq-done (require_object_bytes objects path) _ h2 in
      subst (RestStands objects root snapshot package_name namespace targets_path)
        (done_injective h3)
        (
          entries,
          checkpoint,
          path,
          verify_checkpoint-stands V objects root snapshot e0,
          verify_targets-stand V objects root entries package_name namespace targets_path e1,
          (bytes, or_fail-eq-done _ _ (objects path) e3, refl),
        )

  verdict_injective : {a b : TufVerifyResult V} → verdict a ≡ verdict b → a ≡ b
  verdict_injective h = cc

  -- Where the verifier accepts a package, the root, the timestamp, the snapshot, the checkpoint and
  -- the targets are each signed by as many distinct keys of their role as the role asks for, and
  -- current. The root has the digest of the pin, where there is a pin. The timestamp and the
  -- snapshot each have a positive version that is not below the floor of their own, and the result
  -- has it. The timestamp has the digest of the snapshot, and the snapshot those of the checkpoint
  -- and the targets. The targets name the namespace and the package, and the result has them.
  pub verify_package_chain-IsTrusted :
      (objects : Objects) (package_name namespace : Text) (pin : Option Text) (targets_path : Text)
      (full : Bool) (timestamp_floor snapshot_floor : ℤ) {result : TufVerifyResult V}
      → verify_package_chain V objects package_name namespace pin targets_path full timestamp_floor
          snapshot_floor
        ≡ verdict result
      → result.is_ok ≡ true
      → IsTrusted V objects package_name namespace pin targets_path timestamp_floor snapshot_floor
          result
  unfolding verify_package_chain RootStands SnapshotStands CheckpointStands TargetsStand RestStands
  verify_package_chain-IsTrusted objects package_name namespace pin targets_path full tf sf h good =
      let (root, e0, h0) = attempt-ok V (initial_result V) (verify_anchor V objects pin) _ h good in
      let r1 = record (initial_result V) { root_version = root.version } in
      let ((timestamp, t), e1, h1) =
        attempt-ok V r1 (verify_timestamp V objects root tf) _ h0 good in
      let r2 = record r1 { timestamp_version = t } in
      let ((snapshot, s), e2, h2) =
        attempt-ok V r2 (verify_snapshot V objects root timestamp sf) _ h1 good in
      let r3 = record r2 { snapshot_version = s } in
      let (found, e3, h3) =
        attempt-ok V r3
          (verify_rest V objects root snapshot package_name namespace targets_path full) _ h2
          good in
      let (signed, pinned, root_ok, read) = verify_anchor-stands V objects pin e0 in
      let (timestamp_ok, timestamp_v) = verify_timestamp-stands V objects root tf e1 in
      let (entry, snapshot_ok, snapshot_v) =
        verify_snapshot-stands V objects root timestamp sf e2 in
      let (entries, checkpoint, path, (meta, pins, checkpoint_ok), targets_ok, sized) =
        verify_rest-stands objects root snapshot package_name namespace targets_path full e3 in
      let (at, listed, targets_signed, named, has) = targets_ok in
      let (bytes, there, same) = sized in
      subst (IsTrusted V objects package_name namespace pin targets_path tf sf)
        (verdict_injective h3)
        (record {
          root_signed = signed;
          root = root;
          timestamp = timestamp;
          snapshot = snapshot;
          checkpoint = checkpoint;
          targets = found.signed_payload;
          path = path;
          root_pinned = pinned;
          root_attested = root_ok;
          root_read = read;
          root_version = refl;
          timestamp_attested = timestamp_ok;
          timestamp_version = timestamp_v;
          snapshot_pinned = entry;
          snapshot_attested = snapshot_ok;
          snapshot_version = snapshot_v;
          checkpoint_pinned = pins;
          checkpoint_attested = checkpoint_ok;
          path_of_targets = at;
          targets_listed = (entries, meta, listed);
          targets_attested = targets_signed;
          namespace_matches = named;
          package_listed = has;
          result_targets = (bytes, there, ap some same);
        })
