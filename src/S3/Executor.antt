-- ===== src/S3/Executor.antt =====
-- aws/s3/internal/sync/executor/executor.go. The goroutines of the uploads run in the order of a
-- schedule, each one's body as a step. The context is not cancelled. `read` is os.Open with the body
-- that is sent. Numbers of bytes are int64 bit patterns.
use catalyst_forge_libs.Common.{
  ℕ, ◌+◌, Bool, Option, none, some, List, [], ◌∷◌, ◌++◌, Str, length, keep_if,
}
use catalyst_forge_libs.Common.Words.{add64}
use catalyst_forge_libs.Common.Chunks.{chunks}
use catalyst_forge_libs.Common.Sort.{Shuffle}
use catalyst_forge_libs.S3.Client.{S3Client, DeleteFailure, ok, failed}
use catalyst_forge_libs.S3.Planner.{Operation, OperationType, upload, delete, same_type}

-- Why an operation failed, as the errors wrap it.
pub data Cause : Type 0 where
  open_failed : Cause
  upload_failed batch_delete_failed delete_error : Str → Cause

pub record UploadError : Type 0 where
  pub local_path : Str
  pub remote_key : Str
  pub cause : Cause

pub record UploadResult : Type 0 where
  pub files_uploaded : ℕ
  pub bytes_uploaded : ℕ
  pub errors : List UploadError

pub record DeleteError : Type 0 where
  pub remote_key : Str
  pub cause : Cause

pub record DeleteResult : Type 0 where
  pub files_deleted : ℕ
  pub errors : List DeleteError

abbrev pub no_uploads : UploadResult
no_uploads = record { files_uploaded = 0; bytes_uploaded = 0; errors = [] }

abbrev pub no_deletes : DeleteResult
no_deletes = record { files_deleted = 0; errors = [] }

-- The order in which the operations of one call get to run: any rearrangement.
pub record Schedule : Type 0 where
  pub order : List Operation → List Operation
  pub shuffles : (ops : List Operation) → Shuffle (order ops) ops

abbrev pub is_kind : OperationType → Operation → Bool
is_kind kind op = same_type op.kind kind

abbrev pub first_of : Option Cause → Option Cause → Option Cause
first_of none e = e
first_of (some first) e = some first

unfoldable pub note_error : Operation → Cause → UploadResult → UploadResult
note_error op cause r = record r {
  errors =
      r.errors
      ++ (record { local_path = op.local_path; remote_key = op.remote_key; cause = cause }) ∷ [];
}

-- The objects of a batch, and of each batch whose call failed, the errors.
abbrev pub remote_keys : List Operation → List Str
remote_keys [] = []
remote_keys (op ∷ ops) = op.remote_key ∷ remote_keys ops

abbrev pub batch_errors : Str → List Operation → List DeleteError
batch_errors message [] = []
batch_errors message (op ∷ ops) =
    (record { remote_key = op.remote_key; cause = batch_delete_failed message })
    ∷ batch_errors message ops

abbrev pub single_errors : List DeleteFailure → List DeleteError
single_errors [] = []
single_errors (e ∷ es) =
    (record { remote_key = e.key; cause = delete_error e.message }) ∷ single_errors es

module _ {W : Type 0} (client : S3Client W) (read : Str → Option Str) where
  unfoldable pub upload_file : Operation → UploadResult → W → Option Cause × UploadResult × W
  unfolding note_error add64
  upload_file op r w = elim (read op.local_path) [
    | none ↦ (some open_failed, note_error op open_failed r, w)
    | some body ↦
        let (failure, w') = client.put_object op.remote_key body w in
        elim failure [
          | some message ↦
              (some (upload_failed message), note_error op (upload_failed message) r, w')
          | none ↦ (
            none,
            record r {
              files_uploaded = r.files_uploaded + 1;
              bytes_uploaded = add64 r.bytes_uploaded op.size;
            },
            w',
          )
        ]
  ]

  -- executeWithConcurrency: every operation runs, and the first error is kept.
  unfoldable pub run_uploads :
      List Operation → Option Cause → UploadResult → W → Option Cause × UploadResult × W
  unfolding upload_file
  run_uploads [] first r w = (first, r, w)
  run_uploads (op ∷ ops) first r w =
      let (failure, r', w') = upload_file op r w in run_uploads ops (first_of first failure) r' w'

  unfoldable pub execute_uploads : Schedule → List Operation → W → Option Cause × UploadResult × W
  unfolding run_uploads
  execute_uploads schedule operations w =
      run_uploads (schedule.order (keep_if (is_kind upload) operations)) none no_uploads w

abbrev pub max_batch_size : ℕ
max_batch_size = 1000

module _ {W : Type 0} (client : S3Client W) where
  unfoldable pub execute_delete_batch :
      List Operation → DeleteResult → W → Option Cause × DeleteResult × W
  execute_delete_batch operations r w =
      let (output, w') = client.delete_objects (remote_keys operations) w in
      elim output [
        | failed message ↦ (
          some (batch_delete_failed message),
          record r { errors = r.errors ++ batch_errors message operations },
          w',
        )
        | ok out ↦ (
          none,
          record {
            files_deleted = r.files_deleted + length out.deleted;
            errors = r.errors ++ single_errors out.errors;
          },
          w',
        )
      ]

  -- The loop over the batches, which ends with the first error.
  unfoldable pub execute_batches :
      List (List Operation) → DeleteResult → W → Option Cause × DeleteResult × W
  unfolding execute_delete_batch
  execute_batches [] r w = (none, r, w)
  execute_batches (batch ∷ batches) r w =
      let (failure, r', w') = execute_delete_batch batch r w in
      let rest = execute_batches batches r' w' in
      elim failure [ none ↦ rest | some e ↦ (some e, r', w') ]

  unfoldable pub execute_deletes : List Operation → W → Option Cause × DeleteResult × W
  unfolding execute_batches chunks
  execute_deletes operations w =
      execute_batches (chunks max_batch_size (keep_if (is_kind delete) operations)) no_deletes w
