-- ===== src/Workflow/Atomic.antt =====
-- The commands as a whole: what they leave where they throw, and what they have written where they
-- return.
use mathlib.Core.Path.{subst}
use pafio_nightly.Prelude.{
  ℕ, String, not, Option, none, some, [], ◌≡◌, refl, ap, sym, ◌∙◌, Text, text_eq, ok, ErrorKind,
  validation, require, Option-cases, inl, inr, ok_injective,
}
use pafio_nightly.Prelude.Runs.{Run, back, thrown}
use pafio_nightly.Manifest.{PackageConfig, ManifestDocument, Files}
use pafio_nightly.Manifest.Parse.{load_manifest}
use pafio_nightly.Workflow.Effects.{Workshop, written, place, there, read_file, content_or_throw}
use pafio_nightly.Workflow.Edit.{
  AddDependencyRequest, RemoveDependencyRequest, DependencyCommandResult, lock_path,
  ensure_package_manifest,
}
use pafio_nightly.Workflow.Requests.{check_add_request, insert_dependency}
use pafio_nightly.Workflow.Commands.{
  alias_or_short_name, matches_for, single_match, without_match, load_manifest_at,
  add_dependency_and_refresh_lock, remove_dependency_and_refresh_lock,
}
use pafio_nightly.Workflow.Same.{Same, Safe, Safe-pure, pure-eq-back}
use pafio_nightly.Workflow.Restore.{Succeeds, TakesLockBack, LockIsOne, lock_of}
use pafio_nightly.Workflow.Commit.{commit_manifest_edit-Safe, commit_manifest_edit-Succeeds}

some_injective : {A : Type 0} {a b : A} → some a ≡ some b → a ≡ b
some_injective h = cc

content_there :
    (content : Option Text) (read : Text) → content_or_throw content ≡ ok read → content ≡ some read
content_there none read h = cc
content_there (some c) read h = cc

package_there :
    (manifest : ManifestDocument) (p : PackageConfig)
    → ensure_package_manifest manifest ≡ ok p
    → manifest.pkg ≡ some p
package_there manifest p h = elim (Option-cases manifest.pkg) [
  | inl none_there ↦ cc (rw none_there at h)
  | inr (q, some_there) ↦ some_there ∙ ap some (ok_injective (rw some_there at h))
]

Same-of_Safe :
    {A : Type 0} (files out : Files) (p : Run A × Files) (kind : ErrorKind) (message : String)
    → Safe files p
    → p ≡ (thrown kind message, out)
    → Same files out
Same-of_Safe files out p kind message safe h = subst (Safe files) h safe

module _ (W : Workshop) (fuel : ℕ) where
  open W use {machine, write_outcome}

  add-Safe :
      (request : AddDependencyRequest) (files : Files) (original : Text)
      → files (place W request.manifest_path) ≡ some original
      → write_outcome (place W request.manifest_path) original ≡ written
      → TakesLockBack W (lock_path request.manifest_path) (lock_of W files request.manifest_path)
      → LockIsOne W request.manifest_path
      → Safe files (add_dependency_and_refresh_lock W fuel request files)
  unfolding add_dependency_and_refresh_lock read_file load_manifest_at
  add-Safe request files original at writes takes one =
      let path = request.manifest_path in
      Safe-pure files (require (there W path files) validation "manifest not found") _ λ _ _.
        Safe-pure files (check_add_request request) _ λ _ _.
          Safe-pure files (alias_or_short_name request) _ λ alias _.
            Safe-pure files (content_or_throw (files (place W path))) _ λ read e.
              Safe-pure files (load_manifest machine.library files (place W path)) _ λ manifest _.
                Safe-pure files (ensure_package_manifest manifest) _ λ p _.
                  Safe-pure files (insert_dependency request alias p) _ λ changed _.
                    let here = content_there (files (place W path)) read e in
                    commit_manifest_edit-Safe W fuel path read (files (place W (lock_path path)))
                      (record manifest { pkg = some changed }) alias request.package_name
                      request.section files here refl
                      (subst (λ c. write_outcome (place W path) c ≡ written)
                        (some_injective (sym at ∙ here)) writes)
                      takes one

  remove-Safe :
      (request : RemoveDependencyRequest) (files : Files) (original : Text)
      → files (place W request.manifest_path) ≡ some original
      → write_outcome (place W request.manifest_path) original ≡ written
      → TakesLockBack W (lock_path request.manifest_path) (lock_of W files request.manifest_path)
      → LockIsOne W request.manifest_path
      → Safe files (remove_dependency_and_refresh_lock W fuel request files)
  unfolding remove_dependency_and_refresh_lock read_file load_manifest_at
  remove-Safe request files original at writes takes one =
      let path = request.manifest_path in
      Safe-pure files (require (there W path files) validation "manifest not found") _ λ _ _.
        Safe-pure files
          (require (not (text_eq request.target [])) validation
            "remove requires a dependency alias or package name")
          _
          λ _ _. Safe-pure files (content_or_throw (files (place W path))) _ λ read e.
            Safe-pure files (load_manifest machine.library files (place W path)) _ λ manifest _.
              Safe-pure files (ensure_package_manifest manifest) _ λ p _.
                Safe-pure files (single_match (matches_for p request)) _ λ match _.
                  let here = content_there (files (place W path)) read e in
                  commit_manifest_edit-Safe W fuel path read (files (place W (lock_path path)))
                    (record manifest { pkg = some (without_match p match) }) match.alias
                    match.package_name match.section files here refl
                    (subst (λ c. write_outcome (place W path) c ≡ written)
                      (some_injective (sym at ∙ here)) writes)
                    takes one

  -- `add` on a manifest that is there, whose lockfile the command and the resolver name alike. The
  -- disk writes the content of the manifest back without an exception, and lets the lockfile be put
  -- back, or removed where there was none. Where `add` throws, for whatever reason, an exception
  -- behind the rename of either file included, every file has the content that it had before.
  pub add_dependency_and_refresh_lock-Same :
      (request : AddDependencyRequest) (files out : Files) (original : Text) (kind : ErrorKind)
      (message : String)
      → files (place W request.manifest_path) ≡ some original
      → write_outcome (place W request.manifest_path) original ≡ written
      → TakesLockBack W (lock_path request.manifest_path) (lock_of W files request.manifest_path)
      → LockIsOne W request.manifest_path
      → add_dependency_and_refresh_lock W fuel request files ≡ (thrown kind message, out)
      → (path : Text) → out path ≡ files path
  add_dependency_and_refresh_lock-Same request files out original kind message at writes takes one
        h =
      Same-of_Safe files out (add_dependency_and_refresh_lock W fuel request files) kind message
        (add-Safe request files original at writes takes one) h

  -- `remove` on a manifest that is there, whose lockfile the command and the resolver name alike, on
  -- a disk as for `add`: where it throws, every file has the content that it had before.
  pub remove_dependency_and_refresh_lock-Same :
      (request : RemoveDependencyRequest) (files out : Files) (original : Text) (kind : ErrorKind)
      (message : String)
      → files (place W request.manifest_path) ≡ some original
      → write_outcome (place W request.manifest_path) original ≡ written
      → TakesLockBack W (lock_path request.manifest_path) (lock_of W files request.manifest_path)
      → LockIsOne W request.manifest_path
      → remove_dependency_and_refresh_lock W fuel request files ≡ (thrown kind message, out)
      → (path : Text) → out path ≡ files path
  remove_dependency_and_refresh_lock-Same request files out original kind message at writes takes
        one h =
      Same-of_Safe files out (remove_dependency_and_refresh_lock W fuel request files) kind message
        (remove-Safe request files original at writes takes one) h

  -- Where `add` returns, the manifest that is there has a package, the package with the new
  -- dependency is written as the manifest in canonical form, the lockfile that is resolved from
  -- that manifest is written in canonical form, and no other file is changed.
  pub add_dependency_and_refresh_lock-Succeeds :
      (request : AddDependencyRequest) (files out : Files) (result : DependencyCommandResult)
      → add_dependency_and_refresh_lock W fuel request files ≡ (back result, out)
      → (manifest : ManifestDocument) × (p changed : PackageConfig) × (alias : Text)
        × (load_manifest machine.library files (place W request.manifest_path) ≡ ok manifest)
        × (manifest.pkg ≡ some p)
        × (check_add_request request ≡ ok tt)
        × (alias_or_short_name request ≡ ok alias)
        × (insert_dependency request alias p ≡ ok changed)
        × Succeeds W fuel request.manifest_path
            (record manifest { pkg = some changed })
            alias
            request.package_name
            request.section
            files
            (back result, out)
  unfolding add_dependency_and_refresh_lock read_file load_manifest_at
  add_dependency_and_refresh_lock-Succeeds request files out result h =
      let path = request.manifest_path in
      let (_, _, h0) =
        pure-eq-back files (require (there W path files) validation "manifest not found") _ h in
      let (_, e1, h1) = pure-eq-back files (check_add_request request) _ h0 in
      let (alias, e2, h2) = pure-eq-back files (alias_or_short_name request) _ h1 in
      let (read, e3, h3) = pure-eq-back files (content_or_throw (files (place W path))) _ h2 in
      let (manifest, e4, h4) =
        pure-eq-back files (load_manifest machine.library files (place W path)) _ h3 in
      let (p, e5, h5) = pure-eq-back files (ensure_package_manifest manifest) _ h4 in
      let (changed, e6, h6) = pure-eq-back files (insert_dependency request alias p) _ h5 in
      (
        manifest,
        p,
        changed,
        alias,
        e4,
        package_there manifest p e5,
        e1,
        e2,
        e6,
        commit_manifest_edit-Succeeds W fuel path read (files (place W (lock_path path)))
            (record manifest { pkg = some changed }) alias request.package_name request.section
            files h6,
      )
