-- ===== src/Workflow/Locked.antt =====
-- `sync`: what it has fresh where it returns, and that in locked mode it never writes a lockfile.
use mathlib.Core.Path.{subst}
use pafio_nightly.Prelude.{
  Bool, true, false, Option, none, some, ◌≡◌, refl, ap, sym, ◌∙◌, inl, inr, ◌⊎◌, Text, text_eq,
  text_eq_iff, Bool-cases, Result, ok, err, validation, require, require-ok,
}
use pafio_nightly.Prelude.Runs.{Run, back, thrown, out_of_fuel, run, run-eq-back}
use pafio_nightly.FilePath.{parent_path}
use pafio_nightly.Manifest.{ManifestDocument, Files}
use pafio_nightly.Manifest.Parse.{load_manifest}
use pafio_nightly.Manifest.Serialize.{serialize_manifest_canonical}
use pafio_nightly.Workflow.Effects.{
  WriteOutcome, refused, unsynchronized, written, Effect, proceed, pure, place, put, come_of,
  write_file,
}
use pafio_nightly.Workflow.Same.{
  Same, Leaves, Leaves-pure, pure-eq-back, put_self, put-Same, Same-trans, WriteOutcome-cases,
}
use pafio_nightly.Workflow.Commands.{load_manifest_at}
use pafio_nightly.Workflow.Sync.{
  Surroundings, lock_file_for, opened, LockfileMode, unchanged, write, SyncProjectResult,
  resolution_path_of, Prepared, manifest_digest, is_content, write_if_other, lock_is_current,
  sync_lockfile, sync_result, commit_sync,
}

-- an operation that returned, in front of one that did
pub proceed-eq-back :
    {A B : Type 0} (p : Run A × Files) (next : A → Effect B) {b : B} {out : Files}
    → proceed p next ≡ (back b, out)
    → (a : A) × (mid : Files) × (p ≡ (back a, mid)) × (next a mid ≡ (back b, out))
proceed-eq-back (back a, mid) next h = (a, mid, refl, h)
proceed-eq-back (thrown kind message, mid) next h = cc
proceed-eq-back (out_of_fuel, mid) next h = cc

-- one that leaves the files alone, in front of another
Leaves-proceed :
    {A B : Type 0} (Q : Files → Type 0) (files : Files) (p : Run A × Files) (next : A → Effect B)
    → Q files
    → p.1 ≡ files
    → ((a : A) → Leaves Q (next a files))
    → Leaves Q (proceed p next)
Leaves-proceed Q files (back a, mid) next q e h = subst (λ m. Leaves Q (next a m)) (sym e) (h a)
Leaves-proceed Q files (thrown kind message, mid) next q e h = subst Q (sym e) q
Leaves-proceed Q files (out_of_fuel, mid) next q e h = tt

back_pair :
    {A : Type 0} (r : Run A) (files out : Files) (a : A)
    → ◌≡◌ {A = Run A × Files} (r, files) (back a, out)
    → (r ≡ back a) × (files ≡ out)
back_pair {A} r files out a h =
    (ap (λ (p : Run A × Files). p.0) h, ap (λ (p : Run A × Files). p.1) h)

-- one that leaves the files alone and returned, in front of one that returned
pub quiet-eq-back :
    {A B : Type 0} (files : Files) (p : Run A × Files) (next : A → Effect B) {b : B} {out : Files}
    → p.1 ≡ files
    → proceed p next ≡ (back b, out)
    → (a : A) × (p ≡ (back a, files)) × (next a files ≡ (back b, out))
quiet-eq-back files (back a, mid) next {b} {out} e h =
    (a, ap (λ m. (back a, m)) e, subst (λ m. next a m ≡ (back b, out)) e h)
quiet-eq-back files (thrown kind message, mid) next e h = cc
quiet-eq-back files (out_of_fuel, mid) next e h = cc

Leaves-last :
    {A B : Type 0} (Q : Files → Type 0) (p : Run A × Files) (b : B)
    → Leaves Q p
    → Leaves Q (proceed p (λ _. pure (ok b)))
Leaves-last Q (back a, mid) b h = tt
Leaves-last Q (thrown kind message, mid) b h = h
Leaves-last Q (out_of_fuel, mid) b h = tt

module _ (S : Surroundings) where
  open S use {workshop, meanwhile, until_taken}
  open workshop use {machine}

  -- the files once the lock is taken or given up: what other processes did before, the file of the
  -- lock, and what they did from then on
  abbrev pub under_lock : Files → Prepared S → Files
  under_lock files p =
      until_taken (opened S (lock_file_for S (parent_path p.graph.lockfile_path)) (meanwhile files))

  found_content :
      (o : Option Text) (content : Text) → is_content S o content ≡ true → o ≡ some content
  found_content none content h = cc
  found_content (some found) content h = ap some ((text_eq_iff found content).0 h)

  current_lock :
      (o : Option Text) (rendered : Text) {mode : LockfileMode}
      → lock_is_current S o rendered ≡ ok mode
      → o ≡ some rendered
  current_lock none rendered h = cc
  current_lock (some found) rendered h = elim (Bool-cases (text_eq found rendered)) [
    | inl same ↦ ap some ((text_eq_iff found rendered).0 same)
    | inr stale ↦ cc (rw (stale, lock_is_current) at h)
  ]

  -- the content is there afterwards, and nothing else is another
  write_if_other-writes :
      (path content : Text) (same fresh : LockfileMode) (files out : Files) (mode : LockfileMode)
      → write_if_other S path content same fresh files ≡ (back mode, out)
      → Same (put files (place workshop path) (some content)) out
  unfolding write_if_other write_file
  write_if_other-writes path content same fresh files out mode h =
      elim (Bool-cases (is_content S (files (place workshop path)) content)) [
        | inl there_already ↦
            let e = ap (λ (p : Run LockfileMode × Files). p.1) (rw there_already at h) in
            let at = found_content (files (place workshop path)) content there_already in
            λ q.
              sym (ap (λ (f : Files). f q) e)
              ∙ sym (put_self files (place workshop path) (some content) at q)
        | inr other ↦
            elim (WriteOutcome-cases (workshop.write_outcome (place workshop path) content)) [
              | inl w ↦ cc (rw (other, w) at h)
              | inr (inl w) ↦ cc (rw (other, w) at h)
              | inr (inr w) ↦
                  let e = ap (λ (p : Run LockfileMode × Files). p.1) (rw (other, w) at h) in
                  λ q. sym (ap (λ (f : Files). f q) e)
            ]
      ]

  -- the file has the content, written behind an exception that the disk throws too late, and every
  -- other file is as it was
  abbrev pub WrittenLate : Text → Text → Files → Files → Type 0
  WrittenLate path content files out =
      (workshop.write_outcome (place workshop path) content ≡ unsynchronized)
      × Same (put files (place workshop path) (some content)) out

  abbrev pub SameOrLate : Text → Text → Files → Files → Type 0
  SameOrLate path content files out = Same files out ⊎ WrittenLate path content files out

  come_of-SameOrLate :
      (path content : Text) (fresh : LockfileMode) (files : Files) (o : WriteOutcome)
      → workshop.write_outcome (place workshop path) content ≡ o
      → Leaves (SameOrLate path content files) (
          proceed
            (come_of o files (put files (place workshop path) (some content)))
            (λ _. pure (ok fresh)))
  come_of-SameOrLate path content fresh files refused e = inl (λ q. refl)
  come_of-SameOrLate path content fresh files unsynchronized e = inr (e, λ q. refl)
  come_of-SameOrLate path content fresh files written e = tt

  write_if_other-SameOrLate :
      (path content : Text) (same fresh : LockfileMode) (files : Files)
      → Leaves (SameOrLate path content files) (write_if_other S path content same fresh files)
  unfolding write_if_other write_file
  write_if_other-SameOrLate path content same fresh files =
      elim (Bool-cases (is_content S (files (place workshop path)) content)) [
        | inl there_already ↦ rw there_already tt
        | inr other ↦ rw other (come_of-SameOrLate path content fresh files _ refl)
      ]

  sync_lockfile-writes :
      (is_locked : Bool) (p : Prepared S) (files out : Files) (mode : LockfileMode)
      → sync_lockfile S is_locked p files ≡ (back mode, out)
      → Same (put files (place workshop p.graph.lockfile_path) (some p.rendered)) out
        × ((is_locked ≡ false) ⊎ (files (place workshop p.graph.lockfile_path) ≡ some p.rendered))
  unfolding sync_lockfile
  sync_lockfile-writes false p files out mode h = (
    write_if_other-writes p.graph.lockfile_path p.rendered unchanged write files out mode h,
    inl refl,
  )
  sync_lockfile-writes true p files out mode h =
      let L = place workshop p.graph.lockfile_path in
      let (current, same) =
        back_pair (run (lock_is_current S (files L) p.rendered)) files out mode h in
      let at = current_lock (files L) p.rendered (run-eq-back _ current) in
      (
        λ q. sym (ap (λ (f : Files). f q) same) ∙ sym (put_self files L (some p.rendered) at q),
        inr at,
      )

  sync_lockfile-quiet : (p : Prepared S) (files : Files) → (sync_lockfile S true p files).1 ≡ files
  unfolding sync_lockfile
  sync_lockfile-quiet p files = refl

  pub manifest_digest-quiet :
      (path : Text) (files : Files) → (manifest_digest S path files).1 ≡ files
  unfolding manifest_digest load_manifest_at
  manifest_digest-quiet path files =
      digest_quiet (load_manifest machine.library files (place workshop path))
    where
      digest_quiet :
          (r : Result ManifestDocument)
          → (proceed
              (run r, files)
              (λ manifest. pure (ok (S.sha256_text (serialize_manifest_canonical manifest))))).1
            ≡ files
      digest_quiet (ok m) = refl
      digest_quiet (err kind message) = refl

  -- the files that a sync has fresh, on those that it found when it had the lock
  abbrev pub Synced : Bool → Prepared S → Files → Files → Type 0
  Synced is_locked p files out =
      Same
        (put (put files (place workshop p.graph.lockfile_path) (some p.rendered))
          (place workshop (resolution_path_of S p.graph.manifest_path)) (some p.resolution_bytes))
        out
      × ((is_locked ≡ false) ⊎ (files (place workshop p.graph.lockfile_path) ≡ some p.rendered))
      × (manifest_digest S p.graph.manifest_path files ≡ (back p.manifest_sha256, files))

  pub commit_sync-Synced :
      (is_locked : Bool) (p : Prepared S) (files out : Files) (result : SyncProjectResult)
      → commit_sync S is_locked p files ≡ (back result, out)
      → Synced is_locked p files out
  unfolding commit_sync
  commit_sync-Synced is_locked p files out result h =
      let path = p.graph.manifest_path in
      let (current, e0, h0) =
        quiet-eq-back files (manifest_digest S path files) _ (manifest_digest-quiet path files) h in
      let (_, same, h1) =
        pure-eq-back files
          (require (text_eq current p.manifest_sha256) validation
            "manifest changed while sync was preparing")
          _ h0 in
      let (mode, mid, e1, h2) = proceed-eq-back (sync_lockfile S is_locked p files) _ h1 in
      let (last, final, e2, h3) =
        proceed-eq-back
          (write_if_other S (resolution_path_of S path) p.resolution_bytes mode mode mid) _ h2 in
      let (locks, is_current) = sync_lockfile-writes is_locked p files mid mode e1 in
      let records =
        write_if_other-writes (resolution_path_of S path) p.resolution_bytes mode mode mid final
          last e2 in
      let ends = (back_pair (back (sync_result S p mode)) final out result h3).1 in
      let digest = (text_eq_iff current p.manifest_sha256).0 (require-ok _ _ _ same) in
      (
        subst
            (Same (
              put (put files (place workshop p.graph.lockfile_path) (some p.rendered))
                (place workshop (resolution_path_of S path)) (some p.resolution_bytes)))
            ends
            (Same-trans
              (put-Same (place workshop (resolution_path_of S path)) (some p.resolution_bytes)
                locks)
              records),
        is_current,
        e0 ∙ ap (λ t. (back t, files)) digest,
      )

  -- a locked commit that throws has changed nothing, or has written the resolution
  pub commit_sync-SameOrLate :
      (p : Prepared S) (files : Files)
      → Leaves
          (SameOrLate (resolution_path_of S p.graph.manifest_path) p.resolution_bytes files)
          (commit_sync S true p files)
  unfolding commit_sync
  commit_sync-SameOrLate p files =
      let path = p.graph.manifest_path in
      let Q = SameOrLate (resolution_path_of S path) p.resolution_bytes files in
      let unchanged_files : Q files = inl (λ q. refl) in
      Leaves-proceed Q files (manifest_digest S path files) _ unchanged_files
        (manifest_digest-quiet path files)
        λ current.
          Leaves-pure Q files
            (require (text_eq current p.manifest_sha256) validation
              "manifest changed while sync was preparing")
            _ unchanged_files
            λ _ _.
              Leaves-proceed Q files (sync_lockfile S true p files) _ unchanged_files
                (sync_lockfile-quiet p files)
                λ mode.
                  Leaves-last Q
                    (write_if_other S (resolution_path_of S path) p.resolution_bytes mode mode
                      files)
                    (sync_result S p mode)
                    (write_if_other-SameOrLate (resolution_path_of S path) p.resolution_bytes mode
                      mode files)
