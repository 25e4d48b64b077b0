-- ===== src/S3/Sync/Report.antt =====
-- What a synchronisation of aws/s3/internal/sync/sync/sync.go reports.
use catalyst_forge_libs.Common.{
  ◌<◌, ◌≤◌, ◌+◌, false, Option, none, some, List, [], ◌∷◌, ◌≡◌, refl, ◌∙◌, ap, arith, inl, inr, Str,
  All, keep_if, length, length-append, Option-cases,
}
use catalyst_forge_libs.Common.Sort.{SortSlice, Shuffle-All, Shuffle-sym, length-Shuffle}
use catalyst_forge_libs.Common.Chunks.{chunks, concat, concat-chunks}
use catalyst_forge_libs.S3.Comparator.{LocalFile, RemoteFile, Comparator}
use catalyst_forge_libs.S3.Planner.{
  Operation, upload, delete, skip, type_order, ok, plan, OperationStats, count_operation,
  count_operations, get_operation_stats,
}
use catalyst_forge_libs.S3.Client.{S3Client, Called, DeleteOutput, IsFaithful, delete_limit}
use catalyst_forge_libs.S3.Executor.{
  Schedule, Cause, open_failed, upload_failed, UploadResult, DeleteResult, is_kind, first_of,
  no_uploads, no_deletes, remote_keys, upload_file, note_error, run_uploads, execute_uploads,
  execute_delete_batch, execute_batches, execute_deletes, max_batch_size,
}
use catalyst_forge_libs.S3.Sync.{
  Config, SyncResult, synced, no_result, upload_phase, delete_phase, execute_operations, sync,
}
use catalyst_forge_libs.S3.Sync.Effect.{
  length-remote_keys, FitsCall, chunks-FitsCall, keep_if-twice,
}

module _ {W : Type 0} (client : S3Client W) (read : Str → Option Str) where
  upload_file-accounts :
      (op : Operation) (r : UploadResult) (w : W)
      → (upload_file client read op r w).1.files_uploaded
          + length (upload_file client read op r w).1.errors
        ≡ r.files_uploaded + length r.errors + 1
  unfolding upload_file note_error
  upload_file-accounts op r w = elim (Option-cases (read op.local_path)) [
    | inl unread ↦ ground (
      arith,
      unread,
      length-append r.errors (
          record { local_path = op.local_path; remote_key = op.remote_key; cause = open_failed }
          ∷ []),
    )
    | inr (body, opened) ↦ elim (Option-cases (client.put_object op.remote_key body w).0) [
      | inl put ↦ ground (arith, opened, put)
      | inr (message, bad) ↦ ground (
        arith,
        opened,
        bad,
        length-append r.errors (
            record {
              local_path = op.local_path;
              remote_key = op.remote_key;
              cause = upload_failed message;
            }
            ∷ []),
      )
    ]
  ]

  -- Every upload is counted or stands among the errors.
  run_uploads-accounts :
      (ops : List Operation) (first : Option Cause) (r : UploadResult) (w : W)
      → (run_uploads client read ops first r w).1.files_uploaded
          + length (run_uploads client read ops first r w).1.errors
        ≡ r.files_uploaded + length r.errors + length ops
  unfolding run_uploads
  run_uploads-accounts [] first r w = omega arith
  run_uploads-accounts (op ∷ ops) first r w = omega (
    arith,
    upload_file-accounts op r w,
    run_uploads-accounts ops (first_of first (upload_file client read op r w).0)
        (upload_file client read op r w).1 (upload_file client read op r w).2,
  )

-- A client whose uploads all succeed, as far as the files can be read.
module _ {W : Type 0} {client : S3Client W} {object : Str → W → Option Str}
    (faithful : IsFaithful client object) where
  abbrev Readable : (Str → Option Str) → List Operation → Type 0
  Readable read ops = All (λ op. (body : Str) × (read op.local_path ≡ some body)) ops

  upload_file-succeeds :
      (read : Str → Option Str) (op : Operation) (r : UploadResult) (w : W) (body : Str)
      → read op.local_path ≡ some body
      → ((upload_file client read op r w).0 ≡ none)
        × ((upload_file client read op r w).1.files_uploaded ≡ r.files_uploaded + 1)
  unfolding upload_file
  upload_file-succeeds read op r w body opened =
      let put = faithful.put_succeeds op.remote_key body w in
      (ground (arith, opened, put), ground (arith, opened, put))

  run_uploads-succeeds :
      (read : Str → Option Str) (ops : List Operation) (r : UploadResult) (w : W)
      → Readable read ops
      → ((run_uploads client read ops none r w).0 ≡ none)
        × ((run_uploads client read ops none r w).1.files_uploaded ≡ r.files_uploaded + length ops)
  unfolding run_uploads
  run_uploads-succeeds read [] r w h = (refl, omega arith)
  run_uploads-succeeds read (op ∷ ops) r w h =
      let (body, opened) = h.0 in
      let (fine, one) = upload_file-succeeds read op r w body opened in
      let (quiet, counted) =
        run_uploads-succeeds read ops (upload_file client read op r w).1
          (upload_file client read op r w).2 h.1 in
      rw (run_uploads, fine) (quiet, omega (arith, counted, one))

  execute_delete_batch-succeeds :
      (batch : List Operation) (r : DeleteResult) (w : W)
      → FitsCall batch
      → ((execute_delete_batch client batch r w).0 ≡ none)
        × ((execute_delete_batch client batch r w).1.files_deleted ≡ r.files_deleted + length batch)
  unfolding execute_delete_batch
  execute_delete_batch-succeeds batch r w fit =
      let answered =
        faithful.delete_succeeds (remote_keys batch) w
          (omega (arith, length-remote_keys batch, fit.0))
          (omega (arith, length-remote_keys batch, fit.1)) in
      (ground (arith, answered), ground (arith, answered, length-remote_keys batch))

  execute_batches-succeeds :
      (batches : List (List Operation)) (r : DeleteResult) (w : W)
      → All FitsCall batches
      → ((execute_batches client batches r w).0 ≡ none)
        × ((execute_batches client batches r w).1.files_deleted
            ≡ r.files_deleted + length (concat batches))
  unfolding execute_batches
  execute_batches-succeeds [] r w fit = (refl, omega arith)
  execute_batches-succeeds (batch ∷ batches) r w fit =
      let (fine, some_gone) = execute_delete_batch-succeeds batch r w fit.0 in
      let (quiet, counted) =
        execute_batches-succeeds batches (execute_delete_batch client batch r w).1
          (execute_delete_batch client batch r w).2 fit.1 in
      rw (execute_batches, fine)
        (quiet, omega (arith, counted, some_gone, length-append batch (concat batches)))

  execute_uploads-succeeds :
      (read : Str → Option Str) (schedule : Schedule) (ops : List Operation) (w : W)
      → Readable read ops
      → keep_if (is_kind upload) ops ≡ ops
      → ((execute_uploads client read schedule ops w).0 ≡ none)
        × ((execute_uploads client read schedule ops w).1.files_uploaded ≡ length ops)
  unfolding execute_uploads
  execute_uploads-succeeds read schedule ops w h kept = rw kept (
      let (quiet, counted) =
        run_uploads-succeeds read (schedule.order ops) no_uploads w
          (Shuffle-All _ (Shuffle-sym (schedule.shuffles ops)) h) in
      (quiet, omega (arith, counted, length-Shuffle (schedule.shuffles ops))))

  execute_deletes-succeeds :
      (ops : List Operation) (w : W)
      → keep_if (is_kind delete) ops ≡ ops
      → ((execute_deletes client ops w).0 ≡ none)
        × ((execute_deletes client ops w).1.files_deleted ≡ length ops)
  unfolding execute_deletes
  execute_deletes-succeeds ops w kept = rw kept (
      let (quiet, counted) =
        execute_batches-succeeds (chunks max_batch_size ops) no_deletes w (chunks-FitsCall ops) in
      (quiet, omega (arith, counted, ap length (concat-chunks max_batch_size ops (omega arith)))))

  upload_phase-succeeds :
      (read : Str → Option Str) (schedule : Schedule) (ops : List Operation) (r : SyncResult)
      (w : W)
      → Readable read ops
      → keep_if (is_kind upload) ops ≡ ops
      → r.files_uploaded ≡ 0
      → ((upload_phase client read schedule ops r w).0.files_uploaded ≡ length ops)
        × ((upload_phase client read schedule ops r w).0.errors ≡ r.errors)
        × ((upload_phase client read schedule ops r w).0.files_deleted ≡ r.files_deleted)
        × ((upload_phase client read schedule ops r w).0.files_skipped ≡ r.files_skipped)
  unfolding upload_phase
  upload_phase-succeeds read schedule [] r w h kept fresh = (fresh, refl, refl, refl)
  upload_phase-succeeds read schedule (op ∷ ops) r w h kept fresh =
      let (quiet, counted) = execute_uploads-succeeds read schedule (op ∷ ops) w h kept in
      rw (upload_phase, quiet) (counted, refl, refl, refl)

  delete_phase-succeeds :
      (read : Str → Option Str) (schedule : Schedule) (ops : List Operation) (r : SyncResult)
      (w : W)
      → keep_if (is_kind delete) ops ≡ ops
      → r.files_deleted ≡ 0
      → ((delete_phase client read schedule ops r w).0.files_deleted ≡ length ops)
        × ((delete_phase client read schedule ops r w).0.errors ≡ r.errors)
        × ((delete_phase client read schedule ops r w).0.files_uploaded ≡ r.files_uploaded)
        × ((delete_phase client read schedule ops r w).0.files_skipped ≡ r.files_skipped)
  unfolding delete_phase
  delete_phase-succeeds read schedule [] r w kept fresh = (fresh, refl, refl, refl)
  delete_phase-succeeds read schedule (op ∷ ops) r w kept fresh =
      let (quiet, counted) = execute_deletes-succeeds (op ∷ ops) w kept in
      rw (delete_phase, quiet) (counted, refl, refl, refl)

count_operations-lengths :
    (ops : List Operation) (s : OperationStats)
    → ((count_operations ops s).uploads ≡ s.uploads + length (keep_if (is_kind upload) ops))
      × ((count_operations ops s).deletes ≡ s.deletes + length (keep_if (is_kind delete) ops))
      × ((count_operations ops s).skips ≡ s.skips + length (keep_if (is_kind skip) ops))
unfolding count_operations count_operation type_order
count_operations-lengths [] s = (omega arith, omega arith, omega arith)
count_operations-lengths (op ∷ ops) s =
    let (u, d, k) = count_operations-lengths ops (count_operation op.kind op.size s) in
    (ground (arith, u), ground (arith, d), ground (arith, k))

-- If S3 does what it documents and every file of an upload can be read, a synchronisation whose plan
-- is made and that is no dry run ends with a result without errors, whose numbers of uploaded, deleted
-- and skipped files are those of the planner's statistics of the plan.
pub sync_report :
    {W : Type 0} (client : S3Client W) (object : Str → W → Option Str) (read : Str → Option Str)
    (schedule : Schedule) (sorter : SortSlice Operation) (compare : Comparator)
    (rel : Str → Option Str) (config : Config) (files : List LocalFile) (objects : List RemoteFile)
    (ops : List Operation) (w : W)
    → IsFaithful client object
    → config.dry_run ≡ false
    → plan sorter compare rel config.prefix files objects config.delete_extra ≡ ok ops
    → All (λ op. (body : Str) × (read op.local_path ≡ some body)) (keep_if (is_kind upload) ops)
    → (r : SyncResult) × ((sync client read schedule sorter compare rel config
          (some files)
          (some objects)
          w).0
        ≡ synced r)
      × (r.errors ≡ [])
      × (r.files_uploaded ≡ (get_operation_stats ops).uploads)
      × (r.files_deleted ≡ (get_operation_stats ops).deletes)
      × (r.files_skipped ≡ (get_operation_stats ops).skips)
unfolding sync execute_operations get_operation_stats
sync_report client object read schedule sorter compare rel config files objects ops w faithful wet
      planned readable =
    let ups = keep_if (is_kind upload) ops in
    let dels = keep_if (is_kind delete) ops in
    let start = record no_result { files_skipped = length (keep_if (is_kind skip) ops) } in
    let (up_count, up_errors, up_deleted, up_skipped) =
      upload_phase-succeeds faithful read schedule ups start w readable
        (keep_if-twice (is_kind upload) ops) refl in
    let mid = upload_phase client read schedule ups start w in
    let (del_count, del_errors, del_uploaded, del_skipped) =
      delete_phase-succeeds faithful read schedule dels mid.0 mid.1
        (keep_if-twice (is_kind delete) ops) up_deleted in
    let (u, d, k) =
      count_operations-lengths ops (record {
        uploads = 0;
        deletes = 0;
        skips = 0;
        bytes_to_upload = 0;
        bytes_to_delete = 0;
      }) in
    (
      (execute_operations client read schedule ops w).0,
      rw (sync, planned, wet) refl,
      del_errors ∙ up_errors,
      omega (arith, del_uploaded, up_count, u),
      omega (arith, del_count, d),
      omega (arith, del_skipped, up_skipped, k),
    )

module _ {W : Type 0} (client : S3Client W) where
  execute_batches-quiet :
      (batches : List (List Operation)) (r : DeleteResult) (w : W)
      → All FitsCall batches
      → ((keys : List Str) (v : W)
          → 0 < length keys
          → length keys ≤ delete_limit
          → (out : DeleteOutput) × ((client.delete_objects keys v).0 ≡ Called.ok out))
      → (execute_batches client batches r w).0 ≡ none
  unfolding execute_batches
  execute_batches-quiet [] r w fit answers = refl
  execute_batches-quiet (batch ∷ batches) r w fit answers =
      let (out, answered) =
        answers (remote_keys batch) w (omega (arith, length-remote_keys batch, fit.0.0))
          (omega (arith, length-remote_keys batch, fit.0.1)) in
      let fine : (execute_delete_batch client batch r w).0 ≡ none =
        unfold execute_delete_batch in rw (execute_delete_batch, answered) refl in
      rw (execute_batches, fine)
        (execute_batches-quiet batches (execute_delete_batch client batch r w).1
          (execute_delete_batch client batch r w).2 fit.1 answers)

-- Where the calls of DeleteObjects that S3 takes answer, even if each answer says that none of its objects could be
-- deleted, the deletions add no error to the result.
pub delete_phase_hides_failures :
    {W : Type 0} (client : S3Client W) (read : Str → Option Str) (schedule : Schedule)
    (ops : List Operation) (r : SyncResult) (w : W)
    → ((keys : List Str) (v : W)
        → 0 < length keys
        → length keys ≤ delete_limit
        → (out : DeleteOutput) × ((client.delete_objects keys v).0 ≡ Called.ok out))
    → (delete_phase client read schedule ops r w).0.errors ≡ r.errors
unfolding delete_phase execute_deletes
delete_phase_hides_failures client read schedule [] r w answers = refl
delete_phase_hides_failures client read schedule (op ∷ ops) r w answers =
    let fine =
      execute_batches-quiet client (chunks max_batch_size (keep_if (is_kind delete) (op ∷ ops)))
        no_deletes w (chunks-FitsCall (keep_if (is_kind delete) (op ∷ ops))) answers in
    rw (delete_phase, execute_deletes, fine) refl
