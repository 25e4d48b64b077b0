-- ===== src/S3/Sync.antt =====
-- aws/s3/internal/sync/sync/sync.go: the three phases of a synchronisation. What the scanner finds on
-- both sides is a parameter, `none` for its error; the prefix is normalised as in aws/s3/sync.go.
pub mod Effect
pub mod Reasons
pub mod Mirror
pub mod Quiet
pub mod Report
use catalyst_forge_libs.Common.{
  ℕ, ◌+◌, Bool, true, false, not, Option, none, some, List, [], ◌∷◌, ◌++◌, Str, codes, keep_if,
  is_empty, length, ◌==◌, ◌&&◌, if◌then◌else◌,
}
use catalyst_forge_libs.Common.Sort.{SortSlice}
use catalyst_forge_libs.S3.Comparator.{LocalFile, RemoteFile, Comparator}
use catalyst_forge_libs.S3.Planner.{
  Operation, OperationType, upload, delete, skip, Reason, Planned, ok, err, PlanError, plan,
}
use catalyst_forge_libs.S3.Client.{S3Client}
use catalyst_forge_libs.S3.Executor.{
  Schedule, Cause, UploadResult, DeleteResult, is_kind, execute_uploads, execute_deletes,
}

pub record Config : Type 0 where
  pub prefix : Str
  pub delete_extra : Bool
  pub dry_run : Bool

-- sync.Operation, the planned operation without its priority.
pub record SyncOperation : Type 0 where
  pub kind : OperationType
  pub local_path : Str
  pub remote_key : Str
  pub size : ℕ
  pub reason : Reason

-- The paths of a SyncError with the code EXECUTION_ERROR.
pub data Phase : Type 0 where
  uploads deletes : Phase

pub record SyncResult : Type 0 where
  pub files_uploaded : ℕ
  pub files_skipped : ℕ
  pub files_deleted : ℕ
  pub bytes_uploaded : ℕ
  pub errors : List (Phase × Cause)
  pub operations : List SyncOperation

pub data SyncError : Type 0 where
  inventory_failed : SyncError
  planning_failed : PlanError → SyncError

pub data Synced : Type 0 where
  synced : SyncResult → Synced
  not_synced : SyncError → Synced

abbrev pub no_result : SyncResult
no_result = record {
  files_uploaded = 0;
  files_skipped = 0;
  files_deleted = 0;
  bytes_uploaded = 0;
  errors = [];
  operations = [];
}

unfoldable pub convert_to_sync_operations : List Operation → List SyncOperation
convert_to_sync_operations [] = []
convert_to_sync_operations (op ∷ ops) =
    (record {
      kind = op.kind;
      local_path = op.local_path;
      remote_key = op.remote_key;
      size = op.size;
      reason = op.reason;
    })
    ∷ convert_to_sync_operations ops

-- if prefix != "" && !strings.HasSuffix(prefix, "/") { prefix += "/" }
unfoldable pub ends_with_slash : Str → Bool
ends_with_slash [] = false
ends_with_slash (c ∷ []) = c == b'/'
ends_with_slash (c ∷ d ∷ cs) = ends_with_slash (d ∷ cs)

unfoldable pub normalize_prefix : Str → Str
unfolding ends_with_slash
normalize_prefix prefix =
    if not (is_empty prefix) && not (ends_with_slash prefix) then prefix ++ codes "/" else prefix

module _ {W : Type 0} (client : S3Client W) (read : Str → Option Str) (schedule : Schedule) where
  -- The uploads, where there are any, then the deletions, where there are any.
  unfoldable pub upload_phase : List Operation → SyncResult → W → SyncResult × W
  unfolding execute_uploads
  upload_phase ops r w =
      if is_empty ops
      then (r, w)
      else (let (failure, uploaded, w') = execute_uploads client read schedule ops w in
          (
            elim failure [
              | some e ↦ record r { errors = r.errors ++ (uploads, e) ∷ [] }
              | none ↦ record r {
                files_uploaded = uploaded.files_uploaded;
                bytes_uploaded = uploaded.bytes_uploaded;
              }
            ],
            w',
          ))

  unfoldable pub delete_phase : List Operation → SyncResult → W → SyncResult × W
  unfolding execute_deletes
  delete_phase ops r w =
      if is_empty ops
      then (r, w)
      else (let (failure, deleted, w') = execute_deletes client ops w in
          (
            elim failure [
              | some e ↦ record r { errors = r.errors ++ (deletes, e) ∷ [] }
              | none ↦ record r { files_deleted = deleted.files_deleted }
            ],
            w',
          ))

  unfoldable pub execute_operations : List Operation → W → SyncResult × W
  unfolding upload_phase delete_phase
  execute_operations operations w =
      let (r, w') =
        upload_phase (keep_if (is_kind upload) operations)
          (record no_result { files_skipped = length (keep_if (is_kind skip) operations) }) w in
      delete_phase (keep_if (is_kind delete) operations) r w'

  unfoldable pub sync :
      SortSlice Operation
      → Comparator
      → (Str → Option Str)
      → Config
      → Option (List LocalFile)
      → Option (List RemoteFile)
      → W
      → Synced × W
  unfolding plan convert_to_sync_operations execute_operations
  sync sorter compare rel config none remote w = (not_synced inventory_failed, w)
  sync sorter compare rel config (some files) none w = (not_synced inventory_failed, w)
  sync sorter compare rel config (some files) (some objects) w =
      elim (plan sorter compare rel config.prefix files objects config.delete_extra) [
        | err e ↦ (not_synced (planning_failed e), w)
        | ok operations ↦
            if config.dry_run
            then (
              synced (record no_result { operations = convert_to_sync_operations operations }),
              w,
            )
            else (let (r, w') = execute_operations operations w in (synced r, w'))
      ]
