-- ===== src/Tests/Buckets.antt =====
-- Examples for aws/s3/internal/sync/sync and aws/s3/internal/operations over a bucket that takes every call within
-- the limit of S3.
use catalyst_forge_libs.Common.{
  inl, ltb, leb, ◌&&◌, lt→ltb, le→leb, ℕ, zero, suc, ◌<◌, ◌≤◌, Bool, true, false, Option, none,
  some, List, [], ◌∷◌, ◌++◌, ◌≡◌, ◌⊎◌, refl, arith, Str, str_eq, codes, length, keep_if, All,
  if◌then◌else◌,
}
use catalyst_forge_libs.Common.Sort.{by_insertion, Shuffle-refl}
use catalyst_forge_libs.S3.Comparator.{LocalFile, RemoteFile, size_only}
use catalyst_forge_libs.S3.Planner.{Operation, upload, get_operation_stats, type_order}
use catalyst_forge_libs.S3.Client.{S3Client, IsFaithful, delete_limit, Called, is_among}
use catalyst_forge_libs.S3.Executor.{Schedule, is_kind}
use catalyst_forge_libs.S3.Sync.{Config, SyncResult, Synced, synced, no_result, sync}
use catalyst_forge_libs.S3.Sync.Quiet.{sync_quiet}
use catalyst_forge_libs.S3.Sync.Report.{sync_report, delete_phase_hides_failures}
use catalyst_forge_libs.S3.Sync.{delete_phase}
use catalyst_forge_libs.S3.Deletion.{
  DeleteResult, BatchSchedule, max_batch_size, delete_batch, delete_stream, delete_parallel,
  new_optimized_deleter, flush,
}
use catalyst_forge_libs.S3.Deletion.Accounts.{
  occurrences, reported, ReportsEach, delete_batch_accounts, delete_stream_accounts,
  delete_parallel_forgets,
}
use catalyst_forge_libs.S3.Deletion.Pending.{
  Use, added, flushed_with, use_all, named_keys, optimized_deleter_lem,
}
use catalyst_forge_libs.Tests.Sync.{page, old_page, stray, rel, operations, planned}

abbrev pub Bucket : Type 0
Bucket = Str → Option Str

abbrev pub bucket_client : S3Client Bucket
bucket_client = record {
  put_object = λ key body b. (none, λ k. if str_eq key k then some body else b k);
  delete_objects = λ keys b.
      if ltb 0 (length keys) && leb (length keys) delete_limit
      then (
        Called.ok (record { deleted = keys; errors = [] }),
        λ k. if is_among k keys then none else b k,
      )
      else (Called.failed (codes "MalformedXML"), b);
}

abbrev pub object : Str → Bucket → Option Str
object k b = b k

pub bucket_client-IsFaithful : IsFaithful bucket_client object
bucket_client-IsFaithful = record {
  put_succeeds = λ key body b. refl;
  object-put = λ key body k b. refl;
  delete_succeeds = λ keys b given few.
      ground (arith, lt→ltb 0 (length keys) given, le→leb (length keys) delete_limit few);
  object-delete = λ keys k b given few.
      ground (arith, lt→ltb 0 (length keys) given, le→leb (length keys) delete_limit few);
}

bucket_client-ReportsEach : ReportsEach bucket_client
bucket_client-ReportsEach k keys b out answered =
    let same : record { deleted = keys; errors = [] } ≡ out = ground (arith, answered) in
    ground (arith, same)

-- A client whose calls are refused.
abbrev refusing_client : S3Client Bucket
refusing_client = record {
  put_object = λ key body b. (some (codes "AccessDenied"), b);
  delete_objects = λ keys b. (Called.failed (codes "AccessDenied"), b);
}

abbrev pub in_turn : Schedule
in_turn = record { order = λ ops. ops; shuffles = λ ops. Shuffle-refl ops }

abbrev batches_in_turn : BatchSchedule
batches_in_turn = record { order = λ batches. batches; shuffles = λ batches. Shuffle-refl batches }

abbrev pub read : Str → Option Str
read path = if str_eq path (codes "/w/a") then some (codes "hello") else none

abbrev pub before : Bucket
before k =
    if str_eq k (codes "p/a")
    then some (codes "old!")
    else if str_eq k (codes "p/b")
    then some (codes "bye")
    else none

abbrev pub config : Bool → Config
config dry = record { prefix = codes "p/"; delete_extra = true; dry_run = dry }

abbrev files : List LocalFile
files = page ∷ []

abbrev pub objects : List RemoteFile
objects = old_page ∷ stray ∷ []

abbrev run : Bool → Synced × Bucket
run dry =
    sync bucket_client read in_turn (by_insertion Operation) size_only rel (config dry) (some files)
      (some objects) before

abbrev outcome : SyncResult
outcome = record no_result {
  files_uploaded = 1;
  files_skipped = 1;
  files_deleted = 1;
  bytes_uploaded = 5;
}

sync_quiet_example : (run true).1 ≡ before
sync_quiet_example =
    (sync_quiet bucket_client read in_turn (by_insertion Operation) size_only rel (config true)
        (some files) (some objects) (run true).0 before (run true).1 refl).0
      (inl refl)

uploads-Readable :
    All
      (λ op. (body : Str) × (read op.local_path ≡ some body))
      (keep_if (is_kind upload) operations)
unfolding type_order str_eq
uploads-Readable = ((codes "hello", refl), tt)

sync_report_example :
    (r : SyncResult) × ((run false).0 ≡ synced r)
    × (r.errors ≡ [])
    × (r.files_uploaded ≡ (get_operation_stats operations).uploads)
    × (r.files_deleted ≡ (get_operation_stats operations).deletes)
    × (r.files_skipped ≡ (get_operation_stats operations).skips)
sync_report_example =
    sync_report bucket_client object read in_turn (by_insertion Operation) size_only rel
      (config false) files objects operations before bucket_client-IsFaithful refl planned
      uploads-Readable

-- S3 refuses each object of the call.
abbrev locked_client : S3Client Bucket
locked_client = record bucket_client {
  delete_objects = λ keys b. (
    Called.ok (record {
      deleted = [];
      errors =
          record { key = codes "p/b"; version = []; code = codes "AccessDenied"; message = [] }
          ∷ [];
    }),
    b,
  );
}

delete_phase_hides_failures_example :
    (delete_phase locked_client read in_turn operations no_result before).0.errors ≡ []
delete_phase_hides_failures_example =
    delete_phase_hides_failures locked_client read in_turn operations no_result before
      (λ keys b given few. (_, refl))

abbrev two_keys : List Str
two_keys = codes "p/a" ∷ codes "p/b" ∷ []

delete_batch_accounts_example :
    ((message : Str) × ((delete_batch bucket_client two_keys before).0 ≡ Called.failed message)
      × ((bucket_client.delete_objects two_keys before).0 ≡ Called.failed message)
      × (0 < length two_keys)
      × (length two_keys ≤ max_batch_size))
    ⊎ ((r : DeleteResult) × ((delete_batch bucket_client two_keys before).0 ≡ Called.ok r)
        × (reported (codes "p/a") r ≡ occurrences (codes "p/a") two_keys))
delete_batch_accounts_example =
    delete_batch_accounts bucket_client (codes "p/a") two_keys before bucket_client-ReportsEach

delete_stream_accounts_example :
    (r : DeleteResult) × ((delete_stream bucket_client batches_in_turn two_keys before).0
      ≡ Called.ok r)
    × (reported (codes "p/a") r ≡ occurrences (codes "p/a") two_keys)
delete_stream_accounts_example =
    delete_stream_accounts bucket_client batches_in_turn (codes "p/a") two_keys before
      bucket_client-ReportsEach

abbrev copies : ℕ → List Str
copies zero = []
copies (suc n) = codes "k" ∷ copies n

length-copies : (n : ℕ) → length (copies n) ≡ n
length-copies zero = refl
length-copies (suc n) = omega (arith, length-copies n)

delete_parallel_forgets_example :
    (r : DeleteResult) × ((delete_parallel refusing_client batches_in_turn (copies 1001) before).0
      ≡ Called.ok r)
    × (reported (codes "k") r ≡ 0)
delete_parallel_forgets_example =
    delete_parallel_forgets refusing_client batches_in_turn (codes "AccessDenied") (codes "k")
      (copies 1001) before (λ batch b. refl) (omega (arith, length-copies 1001)) refl

abbrev uses : List Use
uses = added (codes "p/a") ∷ flushed_with (codes "p/b") ∷ added (codes "p/c") ∷ []

optimized_deleter_lem_example :
    let (o, v) = use_all bucket_client uses (new_optimized_deleter 2) before in
    let (answer, o', v') = flush bucket_client o v in
    ((sent : List Str) × (named_keys uses ≡ sent ++ o.pending_keys)
      × (v (codes "p/a") ≡ (if is_among (codes "p/a") sent then none else before (codes "p/a"))))
    × (o'.pending_keys ≡ [])
    × (v' (codes "p/a")
        ≡ (if is_among (codes "p/a") (named_keys uses) then none else before (codes "p/a")))
optimized_deleter_lem_example =
    optimized_deleter_lem bucket_client object 2 uses (codes "p/a") before bucket_client-IsFaithful
