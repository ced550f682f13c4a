-- ===== src/Workflow/Synced.antt =====
-- `sync` as a whole, with what other processes do between its resolution and its lock.
use pafio_nightly.Prelude.{ℕ, Bool, ◌⊎◌, Text}
use pafio_nightly.Manifest.{Files}
use pafio_nightly.Workflow.Same.{Same}
use pafio_nightly.Workflow.Sync.{Surroundings, Prepared, resolution_path_of}
use pafio_nightly.Workflow.Locked.{SameOrLate, under_lock}

module _ (S : Surroundings) (fuel : ℕ) (manifest_path : Text) (offline : Bool) (files : Files) where
  open S use {workshop, sha256_text, is_directory, lock_outcome, meanwhile}

  -- What a locked `sync` that is prepared leaves: the files before it opened the file of the lock,
  -- those under the lock, or these with the resolution written late.
  abbrev pub LockedLeaves : Prepared S → Files → Type 0
  LockedLeaves p out =
      Same (meanwhile files) out
      ⊎ SameOrLate S (resolution_path_of S p.graph.manifest_path) p.resolution_bytes
          (under_lock S files p) out
