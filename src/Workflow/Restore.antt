-- ===== src/Workflow/Restore.antt =====
-- Dependencies.cpp: what the edit and the handler of `CommitManifestEdit` leave of the files, step by
-- step.
use mathlib.Core.Path.{subst}
use pafio_nightly.Prelude.{
  ℕ, List, String, false, text, cache, >>=-eq-ok, ok_injective, Option, none, some, ◌≡◌, ◌≢◌, refl,
  ap, sym, ◌∙◌, inl, inr, ◌⊎◌, Text, ErrorKind,
}
use pafio_nightly.Prelude.Runs.{
  Run, back, thrown, out_of_fuel, run, Run-cases, follow-eq-back, run-eq-back, back_injective,
}
use pafio_nightly.FilePath.{slash, parent_path}
use pafio_nightly.Manifest.Parse.{load_manifest}
use pafio_nightly.Resolve.{ManifestSelection, canonical_absolute_path}
use pafio_nightly.Resolve.Select.{Resolver}
use pafio_nightly.Resolve.Graph.{empty_graph}
use pafio_nightly.Resolve.Roots.{
  ResolvedGraphResult, make_resolver, resolve_single_version_graph, resolve_seeds, build_root_seeds,
  load_locked_registry_hints,
}
use pafio_nightly.Manifest.{ManifestDocument, Files}
use pafio_nightly.Manifest.Serialize.{serialize_manifest_canonical}
use pafio_nightly.Lockfile.{serialize_lockfile_canonical}
use pafio_nightly.Workflow.Effects.{
  refused, written, Workshop, Effect, ◌>>=◌, proceed, pure_run, put, place, over, write_file,
  remove_file,
}
use pafio_nightly.Workflow.Same.{Same, AtMost, put_second, both_back, WriteOutcome-cases}
use pafio_nightly.Workflow.Edit.{
  DependencySection, DependencyCommandResult, LockGenerationResult, lock_path,
  resolve_single_version_lockfile, restore_lockfile, write_edit, put_back, command_result,
}

module _ (W : Workshop) where
  open W use {machine, write_outcome, refuses_remove}

  -- the lockfile that is beside a manifest
  abbrev pub lock_of : Files → Text → Option Text
  lock_of files manifest_path = files (place W (lock_path manifest_path))

  -- the disk lets the lockfile that was there be put back, or be removed where there was none
  abbrev pub TakesLockBack : Text → Option Text → Type 0
  TakesLockBack path none = refuses_remove (place W path) ≡ false
  TakesLockBack path (some original) = write_outcome (place W path) original ≢ refused

  restore_lockfile-puts :
      (path : Text) (original_lock : Option Text) (files : Files)
      → TakesLockBack path original_lock
      → (restore_lockfile W path original_lock files).1 ≡ put files (place W path) original_lock
  unfolding restore_lockfile write_file remove_file
  restore_lockfile-puts path none files takes = rw takes refl
  restore_lockfile-puts path (some original) files takes =
      elim (WriteOutcome-cases (write_outcome (place W path) original)) [
        | inl e ↦ absurd (takes e)
        | inr (inl e) ↦ rw e refl
        | inr (inr e) ↦ rw e refl
      ]

  -- whatever the last operation of a block is, if it leaves the files alone
  after_restore :
      {A : Type 0} (p : Run (Unit {0}) × Files) (r : Run A) → (proceed p (λ _. pure_run r)).1 ≡ p.1
  after_restore (back u, files) r = refl
  after_restore (thrown kind message, files) r = refl
  after_restore (out_of_fuel, files) r = refl

  -- the handler puts both files back
  pub put_back-restores :
      (A : Type 0) (files later : Files) (manifest_path original_manifest : Text)
      (original_lock : Option Text) (kind : ErrorKind) (message : String)
      → files (place W manifest_path) ≡ some original_manifest
      → files (place W (lock_path manifest_path)) ≡ original_lock
      → write_outcome (place W manifest_path) original_manifest ≡ written
      → TakesLockBack (lock_path manifest_path) original_lock
      → AtMost (place W manifest_path) (place W (lock_path manifest_path)) files later
      → Same files
          (put_back W {A = A} manifest_path original_manifest original_lock kind message later).1
  unfolding put_back write_file
  put_back-restores A files later manifest_path original_manifest original_lock kind message at lock
        writes takes most =
      let M = place W manifest_path in
      let L = place W (lock_path manifest_path) in
      let once = put later M (some original_manifest) in
      rw writes (
        rw
          (after_restore {A = A} (restore_lockfile W (lock_path manifest_path) original_lock once)
            (thrown kind message))
          (rw (restore_lockfile-puts (lock_path manifest_path) original_lock once takes)
            (both_back M L (some original_manifest) original_lock files later at lock most)))

  -- the lockfile's path as the resolver writes it
  abbrev pub lockfile_of : Text → Text
  lockfile_of manifest_path = slash (parent_path (place W manifest_path)) (text "pafio.lock")

  -- the command and the resolver name one lockfile
  abbrev pub LockIsOne : Text → Type 0
  LockIsOne manifest_path = place W (lockfile_of manifest_path) ≡ place W (lock_path manifest_path)

  generated-lockfile_of :
      (fuel : ℕ) (manifest_path : Text) (files : Files) (generated : LockGenerationResult)
      → resolve_single_version_lockfile (over W files) fuel manifest_path ≡ back generated
      → generated.lockfile_path ≡ lockfile_of manifest_path
  unfolding resolve_single_version_lockfile resolve_single_version_graph make_resolver
      canonical_absolute_path
  generated-lockfile_of fuel manifest_path files generated h =
      let M = over W files in
      let path = canonical_absolute_path M manifest_path in
      let (graph, e, h1) =
        follow-eq-back (resolve_single_version_graph M fuel manifest_path false false) _ h in
      let ((r, seeds), e1, h2) =
        follow-eq-back (run (make_resolver M manifest_path false false)) _ e in
      let ((ids, st), e2, h3) = follow-eq-back (resolve_seeds r fuel seeds empty_graph) _ h2 in
      let (doc, a, k1) =
        >>=-eq-ok (load_manifest machine.library files path) _ (run-eq-back _ e1) in
      let (digests, b, k2) = >>=-eq-ok (load_locked_registry_hints M path false) _ k1 in
      let (roots, c, k3) = >>=-eq-ok (build_root_seeds M path doc) _ k2 in
      let root : path ≡ r.root_manifest_path =
        ap (λ (p : Resolver × List ManifestSelection). p.0.root_manifest_path) (ok_injective k3) in
      sym (ap (λ (g : LockGenerationResult). g.lockfile_path) (back_injective h1))
      ∙ sym (ap (λ (g : ResolvedGraphResult). g.lockfile_path) (back_injective h3))
      ∙ ap (λ p. slash (parent_path p) (text "pafio.lock")) (sym root)

  module _ (fuel : ℕ) (manifest_path : Text) (manifest : ManifestDocument)
      (alias package_name : Text) (section : DependencySection) (files : Files) where
    -- the files with the new manifest
    abbrev pub edited : Files
    edited = put files (place W manifest_path) (some (serialize_manifest_canonical manifest))

    -- the edit throws, and at most the manifest and the lockfile are another
    abbrev pub Fails : Run DependencyCommandResult × Files → Type 0
    Fails p =
        (kind : ErrorKind) × (message : String) × (later : Files) × (p
          ≡ (thrown kind message, later))
        × (LockIsOne manifest_path
            → AtMost (place W manifest_path) (place W (lock_path manifest_path)) files later)

    -- the edit returns: the manifest is written, the lockfile that is resolved from it is too, and
    -- the result is of that lockfile
    abbrev pub Succeeds : Run DependencyCommandResult × Files → Type 0
    Succeeds p =
        (generated : LockGenerationResult) × (resolve_single_version_lockfile (over W edited) fuel
            manifest_path
          ≡ back generated)
        × (p ≡ (
          back (command_result W generated alias package_name section),
          put edited (place W generated.lockfile_path)
              (some (serialize_lockfile_canonical generated.lockfile)),
        ))

    abbrev pub Outcomes : Run DependencyCommandResult × Files → Type 0
    Outcomes p = Succeeds p ⊎ (Fails p ⊎ ((later : Files) × (p ≡ (out_of_fuel, later))))

    edited-AtMost : AtMost (place W manifest_path) (place W (lock_path manifest_path)) files edited
    edited-AtMost path p q = rw p refl

    -- what is done with the lockfile that is resolved
    abbrev write_lock : LockGenerationResult → Effect DependencyCommandResult
    write_lock generated =
        write_file W generated.lockfile_path (serialize_lockfile_canonical generated.lockfile)
        >>= λ _. pure_run (back (command_result W generated alias package_name section))

    -- the lockfile is written, or an exception is thrown in front of its rename or behind it
    write_lock-Outcomes :
        (generated : LockGenerationResult)
        → resolve_single_version_lockfile (over W edited) fuel manifest_path ≡ back generated
        → Outcomes (write_lock generated edited)
    unfolding write_file
    write_lock-Outcomes generated found =
        let text_of = serialize_lockfile_canonical generated.lockfile in
        let L = place W generated.lockfile_path in
        let named =
          ap (place W) (generated-lockfile_of fuel manifest_path edited generated found) in
        elim (WriteOutcome-cases (write_outcome L text_of)) [
          | inl e ↦ rw e (
              inr
                (inl (cache, "failed to finalize atomic write", edited, refl, λ _. edited-AtMost)))
          | inr (inl e) ↦ rw e (
              inr (
                inl (
                  cache,
                  "failed to synchronize atomic write parent directory",
                  put edited L (some text_of),
                  refl,
                  λ one.
                      subst
                        (λ l.
                          AtMost (place W manifest_path) (place W (lock_path manifest_path)) files
                            (put edited l (some text_of)))
                        (sym (named ∙ one))
                        (put_second (place W manifest_path) (place W (lock_path manifest_path))
                          (some text_of) files edited edited-AtMost),
                )))
          | inr (inr e) ↦ rw e (inl (generated, found, refl))
        ]

    pub write_edit-Outcomes :
        Outcomes (write_edit W fuel manifest_path manifest alias package_name section files)
    unfolding write_edit write_file
    write_edit-Outcomes =
        elim (WriteOutcome-cases
          (write_outcome (place W manifest_path) (serialize_manifest_canonical manifest))) [
            | inl e ↦ rw e (
                inr
                  (inl (cache, "failed to finalize atomic write", files, refl, λ _ path p q. refl)))
            | inr (inl e) ↦ rw e (
                inr (
                  inl (
                    cache,
                    "failed to synchronize atomic write parent directory",
                    edited,
                    refl,
                    λ _. edited-AtMost,
                  )))
            | inr (inr e) ↦
                rw e
                  (elim (Run-cases
                    (resolve_single_version_lockfile (over W edited) fuel manifest_path)) [
                      | inl (generated, found) ↦
                          subst (λ r. Outcomes (proceed (r, edited) write_lock)) (sym found)
                            (write_lock-Outcomes generated found)
                      | inr (inl (kind, message, failed)) ↦
                          rw failed (inr (inl (kind, message, edited, refl, λ _. edited-AtMost)))
                      | inr (inr spent) ↦ rw spent (inr (inr (edited, refl)))
                    ])
          ]
