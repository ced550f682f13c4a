-- ===== src/Trust/Registry/Covers.antt =====
-- A registry that is accepted as a whole: every entry of its snapshot is checked.
use mathlib.Core.Path.{subst}
use pafio_nightly.Prelude.{
  Bool, true, false, none, some, List, [], ◌∷◌, ◌≡◌, inl, inr, ◌⊎◌, All, Text, text,
}
use pafio_nightly.Prelude.Int.{ℤ}
use pafio_nightly.Trust.Json.{members, object_at}
use pafio_nightly.Trust.Outcomes.{done, bind-eq-done, done_injective}
use pafio_nightly.Trust.Fields.{
  Verifier, Objects, require_object_field, require_int_field, normalize_relative, verify_meta_hash,
}
use pafio_nightly.Trust.Roles.{read_envelope}
use pafio_nightly.Trust.Attested.{Attested, Pinned, read_envelope-Attested, verify_meta_hash-Pinned}
use pafio_nightly.Trust.Chain.{
  TufVerifyResult, initial_result, verdict, TrustedRoot, verify_anchor, is_targets_object,
}
use pafio_nightly.Trust.Accepted.{attempt-ok}
use pafio_nightly.Trust.Accepted.Anchor.{RootStands, verify_anchor-stands}
use pafio_nightly.Trust.Accepted.Stages.{object_field-there}
use pafio_nightly.Trust.Registry.{
  FirstPackage, no_package, replayable_timestamp, replayable_snapshot, first_if_targets,
  scan_entries, scan_snapshot, verify_tuf_registry_root,
}

module _ (V : Verifier) where
  open V use {json}
  open json use {Value}

  -- the entry's name is a path, its object has the digest that it states, and is signed as a
  -- targets document if it declares to be one
  abbrev pub IsCovered : Objects → TrustedRoot V → Text × Value → Type 0
  IsCovered objects root (name, meta) =
      (path : Text) × (normalize_relative name ≡ done path)
      × Pinned V objects meta path
      × ((is_targets_object V objects path ≡ done false)
          ⊎ ((targets : Value) × Attested V objects path (text "targets") root.targets_role
                root.key_lookup targets))

  signed_if_targets :
      (objects : Objects) (root : TrustedRoot V) (first : FirstPackage) (path : Text) (is : Bool)
      {next : FirstPackage}
      → is_targets_object V objects path ≡ done is
      → first_if_targets V objects root first path is ≡ done next
      → (is_targets_object V objects path ≡ done false)
        ⊎ ((targets : Value) × Attested V objects path
              (text "targets")
              root.targets_role
              root.key_lookup
              targets)
  signed_if_targets objects root first path false e h = inl e
  signed_if_targets objects root first path true e h =
      let (targets, e0, _) =
        bind-eq-done
          (read_envelope V objects path (text "targets") root.targets_role root.key_lookup) _ h in
      inr (targets, read_envelope-Attested V objects path _ root.targets_role root.key_lookup e0)

  scan_entries-covers :
      (objects : Objects) (root : TrustedRoot V) (first : FirstPackage)
      (entries : List (Text × Value)) {last : FirstPackage}
      → scan_entries V objects root first entries ≡ done last
      → All (IsCovered objects root) entries
  unfolding scan_entries
  scan_entries-covers objects root first [] h = tt
  scan_entries-covers objects root first ((name, meta) ∷ rest) h =
      let (path, e0, h0) = bind-eq-done (normalize_relative name) _ h in
      let (_, e1, h1) = bind-eq-done (verify_meta_hash V meta path objects false) _ h0 in
      let (is, e2, h2) = bind-eq-done (is_targets_object V objects path) _ h1 in
      let (next, e3, h3) = bind-eq-done (first_if_targets V objects root first path is) _ h2 in
      (
        (
          path,
          e0,
          verify_meta_hash-Pinned V meta path objects false e1,
          signed_if_targets objects root first path is e2 e3,
        ),
        scan_entries-covers objects root next rest h3,
      )

  pub SnapshotCovered : Objects → TrustedRoot V → Value → Type 0
  SnapshotCovered objects root snapshot =
      (entries : Value) × (object_at json snapshot (text "meta") ≡ some entries)
      × All (IsCovered objects root) (members json entries)

  scan_snapshot-covers :
      (objects : Objects) (root : TrustedRoot V) (snapshot : Value) {first : FirstPackage}
      → scan_snapshot V objects root snapshot ≡ done first
      → SnapshotCovered objects root snapshot
  unfolding scan_snapshot SnapshotCovered
  scan_snapshot-covers objects root snapshot h =
      let (entries, e0, h0) = bind-eq-done (require_object_field json snapshot (text "meta")) _ h in
      let (log_meta, _, h1) =
        bind-eq-done (require_object_field json snapshot (text "log_meta")) _ h0 in
      let (entry, _, h2) =
        bind-eq-done (require_object_field json log_meta (text "log/checkpoint.json")) _ h1 in
      let (_, _, h3) =
        bind-eq-done (verify_meta_hash V entry (text "log/checkpoint.json") objects false) _ h2 in
      let (_, _, h4) =
        bind-eq-done
          (read_envelope V objects (text "log/checkpoint.json") (text "checkpoint") root.log_role
            root.key_lookup)
          _ h3 in
      (
        entries,
        object_field-there V snapshot (text "meta") e0,
        scan_entries-covers objects root no_package (members json entries) h4,
      )

  replayable_snapshot-Attested :
      (objects : Objects) (root : TrustedRoot V) (timestamp : Value) {p : Value × ℤ}
      → replayable_snapshot V objects root timestamp ≡ done p
      → Attested V objects
          (text "trust/snapshot.json")
          (text "snapshot")
          root.snapshot_role
          root.key_lookup
          p.0
  unfolding replayable_snapshot
  replayable_snapshot-Attested objects root timestamp h =
      let (meta, _, h0) = bind-eq-done (require_object_field json timestamp (text "meta")) _ h in
      let (entry, _, h1) =
        bind-eq-done (require_object_field json meta (text "trust/snapshot.json")) _ h0 in
      let (_, _, h2) =
        bind-eq-done (verify_meta_hash V entry (text "trust/snapshot.json") objects true) _ h1 in
      let (read, e3, h3) =
        bind-eq-done
          (read_envelope V objects (text "trust/snapshot.json") (text "snapshot") root.snapshot_role
            root.key_lookup)
          _ h2 in
      let (v, _, h4) = bind-eq-done (require_int_field json read (text "version")) _ h3 in
      subst
        (λ (p : Value × ℤ).
          Attested V objects (text "trust/snapshot.json") (text "snapshot") root.snapshot_role
            root.key_lookup p.0)
        (done_injective h4)
        (read_envelope-Attested V objects _ _ root.snapshot_role root.key_lookup e3)

  -- Where a registry is accepted as a whole, there is a root that stands, a snapshot that is signed
  -- by a quorum of its role and current, and every entry of the snapshot is covered: its name is a
  -- path, the object there has the digest that the entry states, and if the object declares to be a
  -- targets document, it is signed by a quorum of the targets role and current.
  pub verify_tuf_registry_root-covers :
      (objects : Objects) {result : TufVerifyResult V}
      → verify_tuf_registry_root V objects ≡ verdict result
      → result.is_ok ≡ true
      → (root : TrustedRoot V) × (snapshot : Value) × RootStands V objects none root
        × Attested V objects
            (text "trust/snapshot.json")
            (text "snapshot")
            root.snapshot_role
            root.key_lookup
            snapshot
        × SnapshotCovered objects root snapshot
  unfolding verify_tuf_registry_root
  verify_tuf_registry_root-covers objects h good =
      let (root, e0, h0) =
        attempt-ok V (initial_result V) (verify_anchor V objects none) _ h good in
      let r1 = record (initial_result V) { root_version = root.version } in
      let ((timestamp, t), _, h1) =
        attempt-ok V r1 (replayable_timestamp V objects root) _ h0 good in
      let r2 = record r1 { timestamp_version = t } in
      let ((snapshot, s), e2, h2) =
        attempt-ok V r2 (replayable_snapshot V objects root timestamp) _ h1 good in
      let r3 = record r2 { snapshot_version = s } in
      let (first, e3, _) = attempt-ok V r3 (scan_snapshot V objects root snapshot) _ h2 good in
      (
        root,
        snapshot,
        verify_anchor-stands V objects none e0,
        replayable_snapshot-Attested objects root timestamp e2,
        scan_snapshot-covers objects root snapshot e3,
      )
