-- ===== src/S3/Deletion.antt =====
-- aws/s3/internal/operations/delete/batch.go: the deletion of many objects. The channel of DeleteStream
-- is the list of its keys. The goroutines of DeleteParallel and DeleteStream run in the order of a
-- schedule, the body of each, with its send or its merge, as one step. `parallelism` only bounds how
-- many run at a time and is left out.
pub mod Accounts
pub mod Batches
pub mod Pending
use catalyst_forge_libs.Common.{
  ℕ, ◌+◌, ◌<◌, Bool, true, false, Option, none, some, List, [], ◌∷◌, ◌++◌, Str, codes, length, leb,
  ltb, is_empty, if◌then◌else◌,
}
use catalyst_forge_libs.Common.Chunks.{chunks}
use catalyst_forge_libs.Common.Sort.{Shuffle}
use catalyst_forge_libs.S3.Client.{S3Client, DeleteOutput, DeleteFailure, Called, ok, failed}

-- s3types.DeleteError
pub record DeleteError : Type 0 where
  pub key : Str
  pub version : Str
  pub code : Str
  pub message : Str

-- s3types.DeleteResult; of a deleted object there is the key.
pub record DeleteResult : Type 0 where
  pub deleted : List Str
  pub errors : List DeleteError

abbrev pub no_result : DeleteResult
no_result = record { deleted = []; errors = [] }

-- The order in which the goroutines run: any rearrangement of their batches.
pub record BatchSchedule : Type 0 where
  pub order : List (List Str) → List (List Str)
  pub shuffles : (batches : List (List Str)) → Shuffle (order batches) batches

abbrev pub max_batch_size : ℕ
max_batch_size = 1000

unfoldable pub convert_errors : List DeleteFailure → List DeleteError
convert_errors [] = []
convert_errors (e ∷ es) =
    (record { key = e.key; version = e.version; code = e.code; message = e.message })
    ∷ convert_errors es

unfoldable pub convert_output : DeleteOutput → DeleteResult
unfolding convert_errors
convert_output out = record { deleted = out.deleted; errors = convert_errors out.errors }

-- The errors of a batch whose call failed, and the one of DeleteParallel, which has no key.
unfoldable pub batch_errors : Str → Str → List Str → List DeleteError
batch_errors code message [] = []
batch_errors code message (key ∷ keys) =
    (record { key = key; version = []; code = code; message = message })
    ∷ batch_errors code message keys

unfoldable pub parallel_error : Str → DeleteError
parallel_error message = record {
  key = [];
  version = [];
  code = codes "ParallelBatchError";
  message = message;
}

unfoldable pub merge : DeleteResult → DeleteResult → DeleteResult
merge all more = record {
  deleted = all.deleted ++ more.deleted;
  errors = all.errors ++ more.errors;
}

-- The split of DeleteStream: the batch at hand goes out when it is full, and at the end unless empty.
unfoldable pub collect_batches : List Str → List Str → List (List Str)
collect_batches batch [] = if is_empty batch then [] else batch ∷ []
collect_batches batch (key ∷ keys) =
    let full = collect_batches [] keys in
    let open_batch = collect_batches (batch ++ key ∷ []) keys in
    if leb max_batch_size (length (batch ++ key ∷ []))
    then (batch ++ key ∷ []) ∷ full
    else open_batch

-- The two channels of DeleteParallel.
pub record Collected : Type 0 where
  pub results : DeleteResult
  pub failures : List DeleteError

module _ {W : Type 0} (client : S3Client W) where
  unfoldable pub delete_batch_direct : List Str → W → Called DeleteResult × W
  unfolding convert_output
  delete_batch_direct keys w =
      let (output, w') = client.delete_objects keys w in
      elim output [ failed message ↦ (failed message, w') | ok out ↦ (ok (convert_output out), w') ]

  -- What a batch adds to the result of deleteLargeBatch, and to that of DeleteStream.
  unfoldable pub batch_result : Str → List Str → W → DeleteResult × W
  unfolding delete_batch_direct batch_errors
  batch_result code keys w =
      let (answer, w') = delete_batch_direct keys w in
      elim answer [
        | failed message ↦ (record { deleted = []; errors = batch_errors code message keys }, w')
        | ok result ↦ (result, w')
      ]

  unfoldable pub run_batches : Str → List (List Str) → DeleteResult → W → DeleteResult × W
  unfolding batch_result merge
  run_batches code [] result w = (result, w)
  run_batches code (batch ∷ batches) result w =
      let (more, w') = batch_result code batch w in run_batches code batches (merge result more) w'

  unfoldable pub delete_large_batch : List Str → W → Called DeleteResult × W
  unfolding run_batches chunks
  delete_large_batch keys w =
      let (result, w') =
        run_batches (codes "BatchError") (chunks max_batch_size keys) no_result w in
      (ok result, w')

  unfoldable pub delete_batch : List Str → W → Called DeleteResult × W
  unfolding delete_large_batch delete_batch_direct
  delete_batch keys w =
      if is_empty keys
      then (ok no_result, w)
      else if leb (length keys) max_batch_size
      then delete_batch_direct keys w
      else delete_large_batch keys w

  unfoldable pub run_parallel : List (List Str) → Collected → W → Collected × W
  unfolding delete_batch_direct merge parallel_error
  run_parallel [] all w = (all, w)
  run_parallel (batch ∷ batches) all w =
      let (answer, w') = delete_batch_direct batch w in
      run_parallel batches
        (elim answer as (λ _. Collected) [
          | failed message ↦ record all { failures = all.failures ++ parallel_error message ∷ [] }
          | ok result ↦ record all { results = merge all.results result }
        ])
        w'

  unfoldable pub delete_parallel : BatchSchedule → List Str → W → Called DeleteResult × W
  unfolding run_parallel chunks
  delete_parallel schedule keys w =
      if leb (length keys) max_batch_size
      then delete_batch_direct keys w
      else (let (all, w') =
            run_parallel (schedule.order (chunks max_batch_size keys))
              (record { results = no_result; failures = [] }) w in
          (
            ok (record {
              deleted = all.results.deleted;
              errors = all.results.errors ++ all.failures;
            }),
            w',
          ))

  unfoldable pub delete_stream : BatchSchedule → List Str → W → Called DeleteResult × W
  unfolding run_batches collect_batches
  delete_stream schedule keys w =
      let (result, w') =
        run_batches (codes "StreamBatchError") (schedule.order (collect_batches [] keys)) no_result
          w in
      (ok result, w')

pub record OptimizedDeleter : Type 0 where
  pub pending_keys : List Str
  pub flush_size : ℕ

-- A flush size that is not positive counts as 0 here.
unfoldable pub new_optimized_deleter : ℕ → OptimizedDeleter
new_optimized_deleter flush_size = record {
  pending_keys = [];
  flush_size = if leb flush_size 0 then 1000 else flush_size;
}

unfoldable pub add : Str → OptimizedDeleter → OptimizedDeleter
add key o = record o { pending_keys = o.pending_keys ++ key ∷ [] }

module _ {W : Type 0} (client : S3Client W) where
  unfoldable pub flush : OptimizedDeleter → W → Called DeleteResult × OptimizedDeleter × W
  flush o w =
      let emptied = record o { pending_keys = [] } in
      if is_empty o.pending_keys
      then (ok no_result, emptied, w)
      else (let (answer, w') = delete_batch client o.pending_keys w in (answer, emptied, w'))

  -- `none` is the answer `nil, nil` while the buffer is not full.
  unfoldable pub delete_with_auto_flush :
      Str → OptimizedDeleter → W → Option (Called DeleteResult) × OptimizedDeleter × W
  unfolding add flush
  delete_with_auto_flush key o w =
      if leb o.flush_size (length (add key o).pending_keys)
      then (let (answer, o', w') = flush (add key o) w in (some answer, o', w'))
      else (none, add key o, w)
