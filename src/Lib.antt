-- ===== src/Lib.antt =====
-- Verification library of catalyst-forge-libs: Go libraries for secrets, S3 synchronisation, OCI
-- bundles and more. The modules follow the parts of the repository.
--
-- secrets/core and secrets/providers/memory:
--   Secrets/Types       Secret, SecretRef and the errors, of secret.go and errors.go
--   Secrets/Secret      the methods of Secret, with the memory that a clearing leaves
--   Secrets/Provider    the provider interfaces of interfaces.go, the entries of audit.go
--   Secrets/Memory      the memory provider, every operation; View, Laws, Batch, Ends: its proofs
--   Secrets/Manager     Manager, WriteableManager and RotatableManager of manager.go, every method;
--                       Audit, Registry, Routing: their proofs
--   Secrets/Backend     the memory provider as a provider of the managers
--   Secrets/SecretString  the lazy references of secret_string.go; Uses: their proofs
-- A manager holds providers by name; a request goes to the provider under the name, on a state that
-- the provider may change, and leaves an entry in the audit log. A lazy reference asks a resolver,
-- which may be a manager.
--
-- aws/s3/internal/sync:
--   S3/Comparator       comparator/comparator.go, every comparator
--   S3/Planner          planner/planner.go, every method; Latest, Maps, Uploads, Picked, Reasons, Exact, Order,
--                       Validity and Valid: its proofs
--   S3/Client           the calls of aws/s3/internal/s3api/s3.go that are used, and what S3 documents of them
--   S3/Scanner          scanner/patterns.go and the two scans of scanner/scanner.go; Quotes,
--                       Pages, Excluded: its proofs
--   S3/Executor         executor/executor.go: uploads and deletions
--   S3/Sync             sync/sync.go: the phases of a synchronisation; Effect, Reasons, Mirror, Quiet
--                       and Report: its proofs
-- The planner asks a comparator whether a file on both sides has changed. Sync passes what the scanner
-- finds to the planner, and the plan to the executor, which calls S3.
--
-- aws/s3/internal/transfer:
--   S3/Multipart        multipart/multipart.go: uploads in parts, with the wrap-around of the sizes; Bodies, Parts,
--                       Failure: its proofs
--
-- earthly/earthfile:
--   Earthly             dependencies.go: the dependencies of a file; Mentions: what it lists; Firsts, Walk: its proofs
--
-- aws/s3/internal/validation:
--   S3/Validation       bucket names, object keys and ACLs of validate.go; Buckets: its proofs
--
-- aws/s3/internal/operations/delete:
--   S3/Deletion         batch.go: batches one by one, in parallel, of a stream, and buffered; Batches,
--                       Accounts and Pending: its proofs
--
-- oci:
--   Oci/Entry           the cache entry of internal/cache/types.go
--   Oci/Lru             LRUEviction of internal/cache/eviction.go, its lock included; Deadlock, Links and
--                       Recency: its proofs
--   Oci/Eviction        the size, TTL and composite strategies of that file, with their proofs
--   Oci/Reference       the tests on references and digests of internal/cache/tags.go and manifest.go
--   Oci/Storage         internal/cache/storage.go over a file system; Integrity: its proofs
--   Oci/Shelf           the storage of entries as an interface, for the caches of tags and manifests
--   Oci/Manifests       internal/cache/manifest.go; Laws: its proofs
--   Oci/Tags            internal/cache/tags.go; Laws and History: its proofs
--   Oci/Index           internal/cache/index.go; RoundTrip and Laws: its proofs
--   Oci/Security        security.go, and the checks of a header in archive_targz_helpers.go, which the
--                       loop of Extract in archive_targz.go makes; Limits, Chain: its proofs
--   Oci/Path            internal/validate/path.go, safeJoin and normalizeAndResolvePath of
--                       archive_targz_helpers.go; Safe, Members: its proofs
--
-- executor:
--   Executor            executor.go: options, retries, results; Retries, Environment: its proofs
--
-- Common has what they share: text as byte codes, maps as association lists, sort.Slice as an
-- interface with an implementation, int64 arithmetic on bit patterns. Tests has the examples.
--
-- Goroutines run in the order of a schedule, any rearrangement, each one's body as a step; of an upload in
-- parts some run after the abort.
-- State is passed on, an error is a value, nil is `none`, and a method that holds a mutex is one
-- step. The order of a `range` over a map is that of the association list. Parameters stand for what
-- is not in the repository: the context, the clock, crypto/rand, encoding/json, file digests,
-- filepath.Rel and filepath.Abs, sort.Slice, running a process, and the providers and comparators behind interfaces.
-- Three functions are on fuel. S3.Scanner.scan_pages is given a number of rounds, and as many as the
-- listing has pages are enough (S3.Scanner.Pages). Common.Chunks.pieces is given the length of its list,
-- and no round takes less than one element (concat-chunks). Secrets.Memory.digits is given the number and
-- one more, and a number has no more digits than that. All other loops recur on a list.
--
-- Not modelled: the AWS providers and the other operations, the git and fs libraries, the parser of earthly, the
-- OCI client and the rest of its cache, since they mostly call other libraries and do I/O; and the texts
-- of error messages, request ids and log times.
pub mod Common
pub mod Secrets
pub mod S3
pub mod Oci
pub mod Executor
pub mod Earthly
pub mod Tests
