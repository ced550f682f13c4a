-- ===== src/Workflow/Sync.antt =====
-- Dependencies.cpp: `sync`, which resolves, and then writes under the lock of the project.
use pafio_nightly.Prelude.{
  ℕ, suc, Bool, true, false, not, ◌&&◌, Option, none, some, List, [], ◌∷◌, length, if◌then◌else◌,
  Text, text, text_eq, Result, ok, err, sync, cache, lock_held, validation, require,
}
use pafio_nightly.Prelude.Runs.{Run, back, thrown}
use pafio_nightly.FilePath.{slash, parent_path}
use pafio_nightly.Manifest.{Files}
use pafio_nightly.Manifest.Parse.{get_or}
use pafio_nightly.Manifest.Serialize.{serialize_manifest_canonical}
use pafio_nightly.Lockfile.{serialize_lockfile_canonical}
use pafio_nightly.Resolve.{canonical_absolute_path, source_kind_string}
use pafio_nightly.Resolve.Graph.{Node}
use pafio_nightly.Resolve.Roots.{ResolvedGraphResult, resolve_single_version_graph}
use pafio_nightly.Workflow.Effects.{
  Workshop, Effect, ◌>>=◌, ◌>>◌, pure, put, place, over, there, write_file,
}
use pafio_nightly.Workflow.Commands.{require_there, load_manifest_at}
use pafio_nightly.Workflow.Resolution.{ResolutionDocument, resolution_document}

-- What comes of the lock of a project: its file is not opened, is opened but cannot be locked, is
-- held by another process until the time is over, or is taken.
pub data LockOutcome : Type 0 where
  not_opened failed held taken : LockOutcome

-- What `sync` is run on: besides the machine and the disk, the digest, the text of a JSON document,
-- the directories, what comes of the lock, and what other processes do to the files before the file
-- of the lock is opened and, from then on, until it is taken or given up.
pub record Surroundings : Type 1 where
  pub workshop : Workshop
  pub sha256_text : Text → Text
  pub dump : ResolutionDocument → Text
  pub is_directory : Text → Bool
  pub lock_outcome : LockOutcome
  pub meanwhile : Files → Files
  pub until_taken : Files → Files

pub data LockfileMode : Type 0 where
  locked unchanged write : LockfileMode

pub record SyncProjectResult : Type 0 where
  pub graph : ResolvedGraphResult
  pub resolution_path : Text
  pub lockfile_mode : LockfileMode
  pub manifest_path : Text
  pub package_count : ℕ
  pub git_package_count : ℕ
  pub registry_package_count : ℕ

abbrev pub count_kind : Text → List Node → ℕ
count_kind kind [] = 0
count_kind kind (node ∷ rest) =
    let more = count_kind kind rest in
    if text_eq (source_kind_string node.origin.kind) kind then suc more else more

module _ (S : Surroundings) where
  open S use {workshop, sha256_text, dump, is_directory, lock_outcome, meanwhile, until_taken}
  open workshop use {machine}

  unfoldable pub project_state_root_for_manifest : Text → Text
  project_state_root_for_manifest manifest_path =
      canonical_absolute_path machine
        (slash (parent_path (canonical_absolute_path machine manifest_path)) (text ".pafio"))

  abbrev pub resolution_path_of : Text → Text
  resolution_path_of manifest_path =
      slash (project_state_root_for_manifest manifest_path) (text "resolution-v1.json")

  -- what is prepared before the lock is taken
  pub record Prepared : Type 0 where
    pub graph : ResolvedGraphResult
    pub rendered : Text
    pub manifest_sha256 : Text
    pub resolution_bytes : Text

  -- the digest of the manifest in canonical form
  unfoldable pub manifest_digest : Text → Effect Text
  manifest_digest manifest_path = do
    manifest ← load_manifest_at workshop manifest_path
    pure (ok (sha256_text (serialize_manifest_canonical manifest)))

  abbrev pub requested_lock : Text → Text
  requested_lock manifest_path =
      slash (parent_path (canonical_absolute_path machine manifest_path)) (text "pafio.lock")

  unfoldable pub prepare : ℕ → Text → Bool → Bool → Effect Prepared
  prepare fuel manifest_path offline is_locked = do
    require_there workshop manifest_path
    λ files.
        pure
          (require (not (is_locked && not (there workshop (requested_lock manifest_path) files)))
            sync "lockfile missing")
          files
    graph ← λ files. (
      resolve_single_version_graph (over workshop files) fuel manifest_path offline is_locked,
      files,
    )
    let rendered = serialize_lockfile_canonical graph.lockfile
    manifest_sha256 ← manifest_digest graph.manifest_path
    document ← pure (resolution_document is_directory graph manifest_sha256 (sha256_text rendered))
    pure (
        ok (record {
          graph = graph;
          rendered = rendered;
          manifest_sha256 = manifest_sha256;
          resolution_bytes = dump document;
        }))

  -- other processes, before the file of the lock is opened
  abbrev pub wait : Effect (Unit {0})
  wait files = (back tt, meanwhile files)

  abbrev pub lock_file_for : Text → Text
  lock_file_for store_path = slash store_path (text ".pafio-project.lock")

  -- `open` with `O_CREAT`: a file that is there keeps its content
  abbrev pub opened : Text → Files → Files
  opened path files =
      put files (place workshop path) (some (get_or (files (place workshop path)) []))

  abbrev pub lock_result : LockOutcome → Files → Files → Run (Unit {0}) × Files
  lock_result not_opened before after = (thrown cache "failed to open lock file", before)
  lock_result failed before after = (thrown cache "failed to acquire lock file", after)
  lock_result held before after = (thrown lock_held "lock held for store", after)
  lock_result taken before after = (back tt, after)

  -- the file of the lock is created where there is none, and stays
  unfoldable pub acquire_file_lock : Text → Effect (Unit {0})
  acquire_file_lock store_path files =
      lock_result lock_outcome files (until_taken (opened (lock_file_for store_path) files))

  abbrev pub is_content : Option Text → Text → Bool
  is_content none content = false
  is_content (some found) content = text_eq found content

  -- `!fs::exists(path) || ReadFile(path) != content`, and then a write
  unfoldable pub write_if_other : Text → Text → LockfileMode → LockfileMode → Effect LockfileMode
  write_if_other path content same fresh files =
      if is_content (files (place workshop path)) content
      then (back same, files)
      else (write_file workshop path content >>= λ _. pure (ok fresh)) files

  abbrev pub lock_is_current : Option Text → Text → Result LockfileMode
  lock_is_current none rendered = err sync "lockfile missing"
  lock_is_current (some found) rendered =
      if text_eq found rendered then ok locked else err sync "lockfile is stale"

  -- in locked mode the lockfile is only compared
  unfoldable pub sync_lockfile : Bool → Prepared → Effect LockfileMode
  sync_lockfile true p files =
      pure (lock_is_current (files (place workshop p.graph.lockfile_path)) p.rendered) files
  sync_lockfile false p files =
      write_if_other p.graph.lockfile_path p.rendered unchanged write files

  abbrev pub sync_result : Prepared → LockfileMode → SyncProjectResult
  sync_result p mode = record {
    graph = p.graph;
    resolution_path = resolution_path_of p.graph.manifest_path;
    lockfile_mode = mode;
    manifest_path = p.graph.manifest_path;
    package_count = length p.graph.packages;
    git_package_count = count_kind (text "git") p.graph.packages;
    registry_package_count = count_kind (text "registry") p.graph.packages;
  }

  -- what is done under the lock
  unfoldable pub commit_sync : Bool → Prepared → Effect SyncProjectResult
  commit_sync is_locked p = do
    current ← manifest_digest p.graph.manifest_path
    pure (
        require (text_eq current p.manifest_sha256) validation
          "manifest changed while sync was preparing")
    mode ← sync_lockfile is_locked p
    _ ← write_if_other (resolution_path_of p.graph.manifest_path) p.resolution_bytes mode mode
    pure (ok (sync_result p mode))

  unfoldable pub sync_project_dependencies : ℕ → Text → Bool → Bool → Effect SyncProjectResult
  sync_project_dependencies fuel manifest_path offline is_locked = do
    p ← prepare fuel manifest_path offline is_locked
    wait
    acquire_file_lock (parent_path p.graph.lockfile_path)
    commit_sync is_locked p
