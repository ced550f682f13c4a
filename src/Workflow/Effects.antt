-- ===== src/Workflow/Effects.antt =====
-- What the commands do to files: an operation takes the files and gives them back, with what it
-- returned or threw.
use pafio_nightly.Prelude.{
  Bool, true, false, Option, none, some, if◌then◌else◌, Text, text_eq, Result, ok, err, runtime,
  cache,
}
use pafio_nightly.Prelude.Runs.{Run, back, thrown, out_of_fuel, run}
use pafio_nightly.Manifest.{Files}
use pafio_nightly.Resolve.{Machine, canonical_absolute_path}

-- What comes of an atomic write: an exception before the rename, one behind it, from the
-- synchronization of the directory, or none.
pub data WriteOutcome : Type 0 where
  refused unsynchronized written : WriteOutcome

-- The machine of the resolver, whose files are those that an operation is given, and the answers of
-- the disk: what comes of a write, by path and content, and which removals it refuses.
pub record Workshop : Type 1 where
  pub machine : Machine
  pub write_outcome : Text → Text → WriteOutcome
  pub refuses_remove : Text → Bool

abbrev pub Effect {ℓ} : Type ℓ → Type ℓ
Effect A = Files → Run A × Files

-- what follows an operation that returned
abbrev pub proceed : {A B : Type 0} → Run A × Files → (A → Effect B) → Run B × Files
proceed (back value, files) next = next value files
proceed (thrown kind message, files) next = (thrown kind message, files)
proceed (out_of_fuel, files) next = (out_of_fuel, files)

infixl 5 ◌>>=◌ ◌>>◌
abbrev pub ◌>>=◌ : {A B : Type 0} → Effect A → (A → Effect B) → Effect B
◌>>=◌ first next files = proceed (first files) next

abbrev pub ◌>>◌ : {B : Type 0} → Effect (Unit {0}) → Effect B → Effect B
check >> rest = check >>= λ _. rest

-- a call that leaves the files alone
abbrev pub pure {ℓ} : {A : Type ℓ} → Result A → Effect A
pure result files = (run result, files)

abbrev pub pure_run {ℓ} : {A : Type ℓ} → Run A → Effect A
pure_run result files = (result, files)

abbrev pub look {ℓ} : {A : Type ℓ} → (Files → A) → Effect A
look f files = (back (f files), files)

-- the files with one of them set, or removed
abbrev pub put : Files → Text → Option Text → Files
put files path content other = if text_eq path other then content else files other

-- An exception in front of the rename leaves the old files, and one of `SynchronizeParentDirectory`,
-- behind it, the new ones.
abbrev pub come_of : WriteOutcome → Files → Files → Run (Unit {0}) × Files
come_of refused old new = (thrown cache "failed to finalize atomic write", old)
come_of unsynchronized old new =
    (thrown cache "failed to synchronize atomic write parent directory", new)
come_of written old new = (back tt, new)

abbrev pub content_or_throw : Option Text → Result Text
content_or_throw none = err runtime "failed to read file"
content_or_throw (some content) = ok content

module _ (W : Workshop) where
  open W use {machine, write_outcome, refuses_remove}

  -- the file that a path names
  abbrev pub place : Text → Text
  place path = canonical_absolute_path machine path

  -- the machine with the files that are there
  abbrev pub over : Files → Machine
  over files = record machine { files = files }

  abbrev pub there : Text → Files → Bool
  there path files = elim (files (place path)) [ none ↦ false | some content ↦ true ]

  unfoldable pub read_file : Text → Effect Text
  read_file path files = (run (content_or_throw (files (place path))), files)

  -- `AtomicWriteFile`: the new content, or an exception
  unfoldable pub write_file : Text → Text → Effect (Unit {0})
  write_file path content files =
      come_of (write_outcome (place path) content) files (put files (place path) (some content))

  -- `fs::remove` with an error code that is ignored
  unfoldable pub remove_file : Text → Effect (Unit {0})
  remove_file path files =
      if refuses_remove (place path)
      then (back tt, files)
      else (back tt, put files (place path) none)

  -- `fs::exists(path) ? ReadFile(path) : nullopt`
  abbrev pub read_if_there : Text → Effect (Option Text)
  read_if_there path files = (back (files (place path)), files)
