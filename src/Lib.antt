-- ===== src/Lib.antt =====
-- A model of pafio, the package manager: what its C++ code computes, and proofs about it.
--
-- The program reads a manifest (pafio.toml), resolves its dependencies, and records them in a
-- lockfile (pafio.lock). Archives and metadata come from registries, which are read and written
-- through a policy on their roots; an archive is scanned before anything is extracted.
--
-- The modules and the code that they model:
--   Prelude         texts as lists of bytes, results with the class of the exception that is
--                   thrown, `std::sort` by a text key, and the lemmas that all parts share
--   Lexicon         src/PafioCore/ContractLexicon.cpp: the patterns of names, versions and digests
--   FilePath        `std::filesystem::path` on POSIX, as far as the sources call it
--   Toml            src/PafioManifest/TomlString.hpp, and the interface of the toml++ library
--   Manifest        src/PafioManifest/Manifest.hpp and Manifest.cpp
--   Lockfile        src/PafioManifest/Lockfile.hpp and Lockfile.cpp
--   Registry        src/PafioSecurity/RegistrySecurity.cpp and PrescanArchive.cpp
--   Resolve         src/PafioResolve/Resolver.cpp: `Select` finds the manifest of a dependency,
--                   `Graph` visits the packages depth first, `Roots` starts from the workspace
--   Trust           src/PafioSecurity/TufVerifier.cpp and CanonicalJson.hpp: `Roles` counts
--                   signatures, `Chain` goes from the root to the targets, `Registry` checks all of
--                   a registry
--   Workflow        src/PafioWorkflow/Dependencies.cpp and PafioResolve/ResolutionContract.cpp:
--                   `Edit` and `Commands` add and remove dependencies, `Sync` brings the lockfile up
--                   to date; PafioCore/AtomicFile.cpp and FileLock.cpp, as far as they change files
--                   that these read
--   Plan            src/PafioPlan/CompilePlan.cpp: `Order` puts the packages in order, `Entry`
--                   chooses the package and the target, `Checks` goes through the checks of a plan,
--                   `Invocations` removes directories of old invocations
--   Tests           runs on concrete inputs
--
-- A definition has the name of the function it models, in lower case. A function that throws
-- returns a `Result`: the class of the exception and its fixed words. What a function changes
-- through a reference, it returns. The toml++ library, which the build fetches, is a record of
-- operations that the loaders take (`Toml.Library`); files are a function from a path to a content.
--
-- The resolver's recursion is on fuel for its depth. A visit takes up a source that has not been
-- seen, so that fuel for the number of sources that can be selected is enough; the order of a plan
-- takes fuel for the number of packages, and one more. What runs a process or reads a network is a
-- field of `Resolve.Machine`; the files are taken as they are once the snapshots of the
-- dependencies are in place. A visit that throws leaves no state: the handler in `ResolveNode`
-- takes the node off the stack and throws again, and the resolver ends. Elements that `std::sort`
-- compares as equal are in an order that it leaves open; here they keep theirs.
--
-- Not modelled: the command line and the commands, the processes, the registry
-- client, packing, publishing, vendoring, and of a compile plan the hash of the sources and the
-- document. Signatures are checked by a process of openssl.
--
-- The verifier of metadata is run on a record of what it calls (`Trust.Fields.Verifier`):
-- nlohmann::json, which the build fetches, the clock, the digests and the check of a signature. The
-- recursion over a JSON value is on fuel for its depth. `Fail` is an outcome of its own, apart from
-- exceptions that no handler catches. The commands take the files and give them back, with what
-- they returned or threw. A write replaces a file or leaves it. It may throw in both cases, since
-- AtomicWriteFile synchronizes the directory behind its rename; what comes of a write is a
-- parameter by its path and content. So is what comes of the lock of the project, whose file stays
-- once it is opened, and what other processes do until `sync` has the lock; under it, and while
-- `add` and `remove` run, they leave the files alone. Temporary files, directories and the modes of
-- files are left out. The clock counts nanoseconds without a bound, where that of the source, of 64
-- bits, ends in the year 2262. Paths are names of files by their absolute normal form.
pub mod Prelude
pub mod Lexicon
pub mod FilePath
pub mod Toml
pub mod Manifest
pub mod Lockfile
pub mod Registry
pub mod Resolve
pub mod Trust
pub mod Plan
pub mod Workflow
pub mod Tests
