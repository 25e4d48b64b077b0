-- ===== src/S3/Deletion/Accounts.antt =====
-- What aws/s3/internal/operations/delete/batch.go reports of the keys that it is given.
use catalyst_forge_libs.Common.{
  ℕ, ◌+◌, ◌≤◌, ◌<◌, false, List, [], ◌∷◌, ◌++◌, ◌≡◌, refl, sym, ◌∙◌, ap, arith, Str, codes, str_eq,
  length, leb, ◌⊎◌, inl, inr, is_empty, Bool-cases, str_eq_iff, if◌then◌else◌,
}
use catalyst_forge_libs.Common.Sort.{Shuffle, done, keep, swap, chain}
use catalyst_forge_libs.Common.Chunks.{chunks, concat, concat-chunks}
use catalyst_forge_libs.S3.Client.{S3Client, DeleteOutput, DeleteFailure, Called, ok, failed}
use catalyst_forge_libs.S3.Deletion.{
  DeleteError, DeleteResult, no_result, BatchSchedule, max_batch_size, convert_errors,
  convert_output, batch_errors, merge, delete_batch_direct, batch_result, run_batches,
  delete_large_batch, delete_batch, collect_batches, delete_stream, delete_parallel, run_parallel,
  Collected, parallel_error,
}
use catalyst_forge_libs.S3.Deletion.Batches.{concat-collect_batches}

abbrev pub occurrences : Str → List Str → ℕ
occurrences k [] = 0
occurrences k (key ∷ keys) = (if str_eq key k then 1 else 0) + occurrences k keys

abbrev pub failed_keys : List DeleteFailure → List Str
failed_keys [] = []
failed_keys (e ∷ es) = e.key ∷ failed_keys es

abbrev pub error_keys : List DeleteError → List Str
error_keys [] = []
error_keys (e ∷ es) = e.key ∷ error_keys es

-- How often a key stands in a result, as deleted or with an error.
abbrev pub reported : Str → DeleteResult → ℕ
reported k r = occurrences k r.deleted + occurrences k (error_keys r.errors)

-- S3 reports each object of an answered call: as often as it was asked for, it is deleted or failed.
abbrev pub ReportsEach : {W : Type 0} → S3Client W → Type 0
ReportsEach {W} client =
    (k : Str) (keys : List Str) (w : W) (out : DeleteOutput)
    → (client.delete_objects keys w).0 ≡ ok out
    → occurrences k out.deleted + occurrences k (failed_keys out.errors) ≡ occurrences k keys

occurrences-append :
    (k : Str) (xs ys : List Str) → occurrences k (xs ++ ys) ≡ occurrences k xs + occurrences k ys
occurrences-append k [] ys = omega arith
occurrences-append k (x ∷ xs) ys = omega (arith, occurrences-append k xs ys)

error_keys-append :
    (xs ys : List DeleteError) → error_keys (xs ++ ys) ≡ error_keys xs ++ error_keys ys
error_keys-append [] ys = refl
error_keys-append (x ∷ xs) ys = ap (λ rest. x.key ∷ rest) (error_keys-append xs ys)

error_keys-convert_errors :
    (es : List DeleteFailure) → error_keys (convert_errors es) ≡ failed_keys es
unfolding convert_errors
error_keys-convert_errors [] = refl
error_keys-convert_errors (e ∷ es) = ap (λ rest. e.key ∷ rest) (error_keys-convert_errors es)

error_keys-batch_errors :
    (code message : Str) (keys : List Str) → error_keys (batch_errors code message keys) ≡ keys
unfolding batch_errors
error_keys-batch_errors code message [] = refl
error_keys-batch_errors code message (key ∷ keys) =
    ap (λ rest. key ∷ rest) (error_keys-batch_errors code message keys)

occurrences-Shuffle :
    (k : Str) {xs ys : List (List Str)}
    → Shuffle xs ys
    → occurrences k (concat xs) ≡ occurrences k (concat ys)
occurrences-Shuffle k done = refl
occurrences-Shuffle k (keep {xs} {ys} x s) = omega (
  arith,
  occurrences-append k x (concat xs),
  occurrences-append k x (concat ys),
  occurrences-Shuffle k s,
)
occurrences-Shuffle k (swap x y xs) = omega (
  arith,
  occurrences-append k x (y ++ concat xs),
  occurrences-append k y (concat xs),
  occurrences-append k y (x ++ concat xs),
  occurrences-append k x (concat xs),
)
occurrences-Shuffle k (chain s t) = occurrences-Shuffle k s ∙ occurrences-Shuffle k t

reported-merge :
    (k : Str) (a b : DeleteResult) → reported k (merge a b) ≡ reported k a + reported k b
unfolding merge
reported-merge k a b = omega (
  arith,
  occurrences-append k a.deleted b.deleted,
  ap (occurrences k) (error_keys-append a.errors b.errors),
  occurrences-append k (error_keys a.errors) (error_keys b.errors),
)

module _ {W : Type 0} (client : S3Client W) (reports : ReportsEach client) (k : Str) where
  reported-delete_batch_direct :
      (keys : List Str) (w : W) (r : DeleteResult)
      → (delete_batch_direct client keys w).0 ≡ ok r
      → reported k r ≡ occurrences k keys
  unfolding delete_batch_direct convert_output
  reported-delete_batch_direct keys w r h = go (client.delete_objects keys w).0 refl
    where
      go :
          (output : Called DeleteOutput)
          → (client.delete_objects keys w).0 ≡ output
          → reported k r ≡ occurrences k keys
      go (failed message) e = absurd (ground (arith, h, e))
      go (ok out) e =
          let r_is : convert_output out ≡ r = ground (arith, h, e) in
          sym (ap (reported k) r_is)
          ∙ ap (λ keys. occurrences k out.deleted + occurrences k keys)
              (error_keys-convert_errors out.errors)
          ∙ reports k keys w out e

  reported-batch_result :
      (code : Str) (keys : List Str) (w : W)
      → reported k (batch_result client code keys w).0 ≡ occurrences k keys
  unfolding batch_result
  reported-batch_result code keys w = go (delete_batch_direct client keys w).0 refl
    where
      go :
          (answer : Called DeleteResult)
          → (delete_batch_direct client keys w).0 ≡ answer
          → reported k (batch_result client code keys w).0 ≡ occurrences k keys
      go (failed message) e =
          rw (batch_result, e)
            (omega (arith, ap (occurrences k) (error_keys-batch_errors code message keys)))
      go (ok r) e = rw (batch_result, e) (reported-delete_batch_direct keys w r e)

  reported-run_batches :
      (code : Str) (batches : List (List Str)) (r : DeleteResult) (w : W)
      → reported k (run_batches client code batches r w).0
        ≡ reported k r + occurrences k (concat batches)
  unfolding run_batches
  reported-run_batches code [] r w = omega arith
  reported-run_batches code (batch ∷ batches) r w =
      let more = batch_result client code batch w in
      omega (
        arith,
        reported-run_batches code batches (merge r more.0) more.1,
        reported-merge k r more.0,
        reported-batch_result code batch w,
        occurrences-append k batch (concat batches),
      )

  reported-delete_large_batch :
      (keys : List Str) (w : W)
      → (r : DeleteResult) × ((delete_large_batch client keys w).0 ≡ ok r)
        × (reported k r ≡ occurrences k keys)
  unfolding delete_large_batch
  reported-delete_large_batch keys w = (
    (run_batches client (codes "BatchError") (chunks max_batch_size keys) no_result w).0,
    refl,
    omega (
      arith,
      reported-run_batches (codes "BatchError") (chunks max_batch_size keys) no_result w,
      ap (occurrences k) (concat-chunks max_batch_size keys (omega arith)),
    ),
  )

-- If S3 reports each object of a call that it answers, DeleteBatch either fails, for 1 to 1000 keys and
-- with the failure of its only call, or answers and reports each key as often as it was given, as
-- deleted or with an error, also where calls for some of the batches fail.
pub delete_batch_accounts :
    {W : Type 0} (client : S3Client W) (k : Str) (keys : List Str) (w : W)
    → ReportsEach client
    → ((message : Str) × ((delete_batch client keys w).0 ≡ failed message)
        × ((client.delete_objects keys w).0 ≡ failed message)
        × (0 < length keys)
        × (length keys ≤ max_batch_size))
      ⊎ ((r : DeleteResult) × ((delete_batch client keys w).0 ≡ ok r)
          × (reported k r ≡ occurrences k keys))
unfolding delete_batch
delete_batch_accounts client k [] w reports = inr (no_result, refl, omega arith)
delete_batch_accounts {W} client k (key ∷ keys) w reports =
    elim (Bool-cases (leb (length (key ∷ keys)) max_batch_size)) [
      | inr large ↦
          rw (delete_batch, large)
            (inr (reported-delete_large_batch client reports k (key ∷ keys) w))
      | inl small ↦
          rw (delete_batch, small)
            (direct (delete_batch_direct client (key ∷ keys) w).0 refl (ground (arith, small)))
    ]
  where
    -- The only call.
    direct :
        (answer : Called DeleteResult)
        → (delete_batch_direct client (key ∷ keys) w).0 ≡ answer
        → length (key ∷ keys) ≤ max_batch_size
        → ((message : Str) × ((delete_batch_direct client (key ∷ keys) w).0 ≡ failed message)
            × ((client.delete_objects (key ∷ keys) w).0 ≡ failed message)
            × (0 < length (key ∷ keys))
            × (length (key ∷ keys) ≤ max_batch_size))
          ⊎ ((r : DeleteResult) × ((delete_batch_direct client (key ∷ keys) w).0 ≡ ok r)
              × (reported k r ≡ occurrences k (key ∷ keys)))
    direct (failed message) e few =
        inl (message, e, unfold delete_batch_direct in ground (arith, e), omega arith, few)
    direct (ok r) e few =
        inr (r, e, reported-delete_batch_direct client reports k (key ∷ keys) w r e)

-- If S3 reports each object of a call that it answers, DeleteStream answers and reports each key as often
-- as the channel brought it, as deleted or with an error, in whatever order its batches run.
pub delete_stream_accounts :
    {W : Type 0} (client : S3Client W) (schedule : BatchSchedule) (k : Str) (keys : List Str)
    (w : W)
    → ReportsEach client
    → (r : DeleteResult) × ((delete_stream client schedule keys w).0 ≡ ok r)
      × (reported k r ≡ occurrences k keys)
unfolding delete_stream
delete_stream_accounts client schedule k keys w reports = (
  (run_batches client (codes "StreamBatchError") (schedule.order (collect_batches [] keys))
      no_result w).0,
  refl,
  omega (
    arith,
    reported-run_batches client reports k (codes "StreamBatchError")
        (schedule.order (collect_batches [] keys)) no_result w,
    occurrences-Shuffle k (schedule.shuffles (collect_batches [] keys)),
    ap (occurrences k) (concat-collect_batches [] keys),
  ),
)

module _ {W : Type 0} (client : S3Client W) (message : Str) (k : Str) where
  failures-run_parallel :
      (batches : List (List Str)) (all : Collected) (w : W)
      → ((keys : List Str) (v : W) → (client.delete_objects keys v).0 ≡ failed message)
      → is_empty k ≡ false
      → ((run_parallel client batches all w).0.results ≡ all.results)
        × (occurrences k (error_keys (run_parallel client batches all w).0.failures)
            ≡ occurrences k (error_keys all.failures))
  unfolding run_parallel parallel_error
  failures-run_parallel [] all w fails named = (refl, refl)
  failures-run_parallel (batch ∷ batches) all w fails named =
      let fail : (delete_batch_direct client batch w).0 ≡ failed message =
        unfold delete_batch_direct in rw (delete_batch_direct, fails batch w) refl in
      let noted = record all { failures = all.failures ++ parallel_error message ∷ [] } in
      let (same, quiet) =
        failures-run_parallel batches noted (delete_batch_direct client batch w).1 fails named in
      rw (run_parallel, fail)
        (
          same,
          quiet
              ∙ ground (
                arith,
                ap (occurrences k) (error_keys-append all.failures (parallel_error message ∷ [])),
                occurrences-append k (error_keys all.failures) ([] ∷ []),
                str_eq_iff [] k,
                named,
              ),
        )

-- DeleteParallel forgets the keys of a failed batch: if every call fails, it answers for more than 1000
-- keys with a result in which no key stands at all, neither as deleted nor with an error.
pub delete_parallel_forgets :
    {W : Type 0} (client : S3Client W) (schedule : BatchSchedule) (message k : Str)
    (keys : List Str) (w : W)
    → ((batch : List Str) (v : W) → (client.delete_objects batch v).0 ≡ failed message)
    → max_batch_size < length keys
    → is_empty k ≡ false
    → (r : DeleteResult) × ((delete_parallel client schedule keys w).0 ≡ ok r) × (reported k r ≡ 0)
unfolding delete_parallel
delete_parallel_forgets client schedule message k keys w fails many named =
    let start : Collected = record { results = no_result; failures = [] } in
    let batches = schedule.order (chunks max_batch_size keys) in
    let (same, quiet) = failures-run_parallel client message k batches start w fails named in
    let all = (run_parallel client batches start w).0 in
    (
      record { deleted = all.results.deleted; errors = all.results.errors ++ all.failures },
      rw (delete_parallel, large) refl,
      omega (
        arith,
        quiet,
        ap (λ (r : DeleteResult). occurrences k r.deleted) same,
        ap (λ (r : DeleteResult). occurrences k (error_keys r.errors)) same,
        ap (occurrences k) (error_keys-append all.results.errors all.failures),
        occurrences-append k (error_keys all.results.errors) (error_keys all.failures),
      ),
    )
  where
    large : leb (length keys) max_batch_size ≡ false
    large = ground (arith, many)
