-- ===== src/Lib.antt =====
-- Ritebook: a command line that publishes, registers, installs and contributes skills, kept in Git
-- repositories. This library models its shared validation, the catalogue of a published index, the
-- registry of indexes with its cache, the sync of a repository's declared skills with its lockfile,
-- the journalled transaction of an installation, and the contribution of a changed skill to the
-- repository that it came from. The lockfile joins two parts: the sync writes and reads it, and the
-- contribution reads from it where a skill came from.
--
-- All paths are from the repository's root, below src/ritebook.
--
-- Texts are lists of code points (Text: the methods of `str` that the source calls). Exceptions
-- are values: a function that raises returns a `Result` of the errors in Kernel.Errors,
-- Installation.Errors, Registry.Errors and Contribution.Errors, without the message; a method that
-- changes state is an `Action`, which returns its result and the state, also where it raises
-- (Prelude.Actions).
--
-- Kernel: shared_kernel/.
--   Kernel.Identifiers: identifiers.py, and the name pattern of the linter
--     (features/skill_linter/.../validators.py). The regular expressions are scans.
--   Kernel.TextSafety: text_safety.py. Kernel.PortablePaths: portable_paths.py.
--   Kernel.CatalogPaths: catalog_paths.py. Kernel.GitBranches: git_branches.py.
--   Kernel.StrictJson: strict_json.py. Kernel.Timestamps: timestamps.py.
--   Kernel.SchemaV1: schema_v1_catalog.py. Kernel.GitSources: git_sources.py.
--   Their child modules have the grammar that a text or a document is compared with.
-- Json: the values between the decoder of JSON and the code.
--
-- Publisher: features/publisher/: the catalogue (domain/catalog.py) and the document of it
--   (adapters/outbound/json_index/writer.py), which Kernel.SchemaV1 reads.
--
-- Linter: features/skill_linter/: the validation of a parsed header
--   (application/use_cases/validate_skill_headers/validators.py).
--
-- Registry: features/index_registry/.
--   Registry.Records: application/dtos/. Registry.Reader: adapters/outbound/json_index/reader.py.
--   Registry.Store: the registry file by its entries
--     (adapters/outbound/filesystem_registry/adapter.py) and the cached indexes
--     (adapters/outbound/index_cache/adapter.py). Each operation on the disk takes an event, which
--     says whether it raises and what it left.
--   Registry.Document: an entry of the registry's JSON document, and back.
--   Registry.Lock: the loop of `_acquire_lock` in the same adapter.
--   Registry.AddIndex, Registry.UpdateIndex, Registry.Listing: application/use_cases/. What the
--     first two share is in Registry.Publish.
--   Registry.Consistency: the agreement of the entries and the cache, by operation in its child
--     modules.
--
-- Installation: features/skill_installation/.
--   Installation.References and Installation.Records: application/dtos/install_skill.py.
--   Installation.State: adapters/outbound/json_installation_state/adapter.py. State itself has an
--     entry of the ownership state as JSON, and back. State.Documents writes the ownership state and
--     the lockfile, State.Reading reads them. The other child modules are about what is read back:
--     Snapshots, OwnershipFile, LockEntries, LockFile.
--   Installation.Targets: the selection of skills and the conflicts of targets in
--     application/use_cases/install_from_requirements.py, and _provenance.py.
--   Installation.Direct: application/use_cases/install_skill.py. Direct has the decisions and the
--     record, Direct.Execute the run against its ports.
--   Installation.Sync: `_desired_installations` (Sync.Desired) and `_reconcile_desired` of the
--     same file. Sync.Ports is the interface to the installer and the writer: a record of
--     operations over an abstract file system, and hypotheses on them (`IsLawful`): what those ports
--     document of planned targets and of places apart from them. Sync.Outcome has the decisions on
--     one target, Sync.Reconcile the loop, Sync.Execute the whole of `execute`, and
--     Sync.Execute.Quiet hypotheses on what the other calls leave alone (`AreQuiet`). Tests.Sync.Memory
--     fills the interface with a file system in memory; the adapters themselves are not modelled.
--   Installation.Transaction: adapters/outbound/installation_transaction/adapter.py and
--     safe_filesystem.py. Session has the disk, the journal and the single disk operations,
--     Restore the rollback and the recovery, Operations the methods of
--     `FilesystemInstallationTransaction`.
--
-- Contribution: features/skill_contribution/.
--   Contribution.Records: application/dtos/publish_skill_change.py.
--   Contribution.Lockfile: adapters/outbound/json_lockfile/reader.py. Contribution.Written and
--     Contribution.Resolution relate it to the lockfile that Installation.State.Documents writes.
--   Contribution.References: the two parsers of a reference, that of Installation.References and
--     that of Contribution.Records.
--   Contribution.Git: the runs of git (`_git`, `_run`, `_read_required_output`) and the interface to
--     git and the file system. Contribution.Workspace: adapters/outbound/git_workspace/adapter.py.
--     Contribution.Checkout: adapters/outbound/contribution_checkout/adapter.py.
--   Contribution.Directory: adapters/outbound/skill_directory/adapter.py.
--   Contribution.Catalog: the roots of the catalogue that adapters/outbound/validation/adapter.py and
--     adapters/outbound/index_regeneration/adapter.py compute, with the commands for the linter and
--     the publisher (application/dtos/ of these two), and Contribution.Regeneration the rest of these
--     two files. Regeneration.Restoring is about the working directory around the publisher.
--   Contribution.Execute: application/use_cases/publish_skill_change.py, against its ports.
--     Execute.Order has the abstract machine of its steps, Execute.Recording the ports that keep a
--     log of their calls.
--
-- The transaction's disk maps a path to a tree, which moves as a whole, or a file. Each disk
-- operation is atomic, as a rename is, and spends one unit of a budget; with none left the process
-- stops. The budget so ranges over all points at which the process can stop; a full recovery is
-- given four units. The removal of a directory is one operation, so a stop within one is not
-- modelled. The loop of the registry's lock runs on fuel: one attempt more than the sleeps that fill
-- the timeout are enough. Its times are in ticks of any length. All other loops are structural
-- recursion.
--
-- Not modelled: messages of exceptions, the command line, TOML and YAML documents, the root of the
-- registry's JSON document with its migration, the calls of git for the registry and for the sources
-- of an installation, the staging of a skill's files, the writing of a published index, the release
-- of the registry's lock and the lock of the transaction, and the checks of the transaction that a
-- directory is not replaced meanwhile.
-- The digests (sha256, and that of a tree), `str` of a number, the decoder of JSON (JsonLibrary),
-- the split of URLs (UrlLibrary), what `str` and `int` make of other JSON values
-- (CoercionLibrary), the calendar (DatetimeLibrary), the paths of the language (StoreLibrary) and
-- the ports to git (IndexPorts) are parameters, and so are what the state and the lockfile are
-- written and read with (StateLibrary, LockfileLibrary), the paths of a sync (SyncLibrary), git and
-- the files of a contribution (ContributionHost, DirectoryHost), the linter and the publisher that it
-- calls (Neighbours), the ports of its use case (PublishPorts), and how the attempts at a lock end
-- (LockTrials).
mod Prelude
pub mod Text
pub mod Json
pub mod Kernel
pub mod Publisher
pub mod Linter
pub mod Registry
pub mod Installation
pub mod Contribution
mod Tests
