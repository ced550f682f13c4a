-- ===== src/Workflow/Commit.antt =====
-- Dependencies.cpp: what `CommitManifestEdit` leaves where it throws and where it returns.
use pafio_nightly.Prelude.{ℕ, String, Option, some, ◌≡◌, ◌≢◌, sym, inl, inr, Text, ErrorKind}
use pafio_nightly.Prelude.Runs.{Run, back, thrown, out_of_fuel}
use pafio_nightly.Manifest.{ManifestDocument, Files}
use pafio_nightly.Workflow.Effects.{written, Workshop, proceed, pure_run, place, write_file}
use pafio_nightly.Workflow.Same.{WriteOutcome-cases, Safe, Safe-of_Same}
use pafio_nightly.Workflow.Edit.{
  DependencySection, DependencyCommandResult, lock_path, put_back, commit_manifest_edit,
}
use pafio_nightly.Workflow.Restore.{
  TakesLockBack, LockIsOne, Succeeds, put_back-restores, write_edit-Outcomes,
}

never_back :
    {A B : Type 0} (p : Run A × Files) (kind : ErrorKind) (message : String) {b : B} {out : Files}
    → proceed p (λ _. pure_run {A = B} (thrown kind message)) ≢ (back b, out)
never_back (back value, later) kind message h = cc
never_back (thrown other words, later) kind message h = cc
never_back (out_of_fuel, later) kind message h = cc

put_back-throws :
    (W : Workshop) (manifest_path original_manifest : Text) (original_lock : Option Text)
    (kind : ErrorKind) (message : String) (later : Files) {result : DependencyCommandResult}
    {out : Files}
    → put_back W manifest_path original_manifest original_lock kind message later
      ≢ (back result, out)
unfolding put_back write_file
put_back-throws W manifest_path original_manifest original_lock kind message later h =
    elim (WriteOutcome-cases (W.write_outcome (place W manifest_path) original_manifest)) [
      | inl e ↦ cc (rw e at h)
      | inr (inl e) ↦ cc (rw e at h)
      | inr (inr e) ↦ never_back _ kind message (rw e at h)
    ]

module _ (W : Workshop) (fuel : ℕ) (manifest_path original_manifest : Text)
    (original_lock : Option Text) (manifest : ManifestDocument) (alias package_name : Text)
    (section : DependencySection) (files : Files) where
  pub commit_manifest_edit-Safe :
      files (place W manifest_path) ≡ some original_manifest
      → files (place W (lock_path manifest_path)) ≡ original_lock
      → W.write_outcome (place W manifest_path) original_manifest ≡ written
      → TakesLockBack W (lock_path manifest_path) original_lock
      → LockIsOne W manifest_path
      → Safe files (
          commit_manifest_edit W fuel manifest_path original_manifest original_lock manifest alias
            package_name section files)
  unfolding commit_manifest_edit
  commit_manifest_edit-Safe at lock writes takes one =
      elim (write_edit-Outcomes W fuel manifest_path manifest alias package_name section files) [
        | inl (generated, _, e) ↦ rw e tt
        | inr (inl (kind, message, later, e, most)) ↦ rw e (
            Safe-of_Same files
              (put_back W manifest_path original_manifest original_lock kind message later)
              (put_back-restores W DependencyCommandResult files later manifest_path
                original_manifest original_lock kind message at lock writes takes (most one)))
        | inr (inr (later, e)) ↦ rw e tt
      ]

  pub commit_manifest_edit-Succeeds :
      {result : DependencyCommandResult} {out : Files}
      → commit_manifest_edit W fuel manifest_path original_manifest original_lock manifest alias
          package_name section files
        ≡ (back result, out)
      → Succeeds W fuel manifest_path manifest alias package_name section files (back result, out)
  unfolding commit_manifest_edit
  commit_manifest_edit-Succeeds h =
      elim (write_edit-Outcomes W fuel manifest_path manifest alias package_name section files) [
        | inl (generated, found, e) ↦ (generated, found, sym (rw e at h))
        | inr (inl (kind, message, later, e, most)) ↦ absurd (
            put_back-throws W manifest_path original_manifest original_lock kind message later
              (rw e at h))
        | inr (inr (later, e)) ↦ cc (rw e at h)
      ]
