-- ===== src/S3/Sync/Quiet.antt =====
-- When a synchronisation of aws/s3/internal/sync/sync/sync.go changes nothing.
use catalyst_forge_libs.Common.{
  ◌⊎◌, sym, true, Option, none, some, List, [], ◌≡◌, refl, ap, arith, inl, inr, Str,
}
use catalyst_forge_libs.Common.Sort.{SortSlice}
use catalyst_forge_libs.S3.Comparator.{LocalFile, RemoteFile, Comparator}
use catalyst_forge_libs.S3.Planner.{Operation, Planned, ok, err, plan}
use catalyst_forge_libs.S3.Client.{S3Client}
use catalyst_forge_libs.S3.Executor.{Schedule}
use catalyst_forge_libs.S3.Sync.{
  Config, SyncResult, Synced, synced, not_synced, SyncError, no_result, convert_to_sync_operations,
  sync,
}

-- Whatever the scans find, a synchronisation that is a dry run, or that ends with an error, leaves the bucket
-- as it was, and the result of a dry run counts no upload, deletion or error.
pub sync_quiet :
    {W : Type 0} (client : S3Client W) (read : Str → Option Str) (schedule : Schedule)
    (sorter : SortSlice Operation) (compare : Comparator) (rel : Str → Option Str) (config : Config)
    (local : Option (List LocalFile)) (remote : Option (List RemoteFile)) (answer : Synced)
    (w w' : W)
    → sync client read schedule sorter compare rel config local remote w ≡ (answer, w')
    → (((config.dry_run ≡ true) ⊎ ((e : SyncError) × (answer ≡ not_synced e))) → w' ≡ w)
      × (config.dry_run ≡ true
          → (r : SyncResult) → answer ≡ synced r
          → (r.errors ≡ [])
            × (r.files_uploaded ≡ 0)
            × (r.files_deleted ≡ 0)
            × (r.bytes_uploaded ≡ 0))
unfolding sync
sync_quiet client read schedule sorter compare rel config none remote answer w w' h =
    (λ why. ground (arith, h), λ dry r e. absurd (ground (arith, h, e)))
sync_quiet client read schedule sorter compare rel config (some files) none answer w w' h =
    (λ why. ground (arith, h), λ dry r e. absurd (ground (arith, h, e)))
sync_quiet client read schedule sorter compare rel config (some files) (some objects) answer w w'
      h =
    planned (plan sorter compare rel config.prefix files objects config.delete_extra) refl
  where
    planned :
        (p : Planned (List Operation))
        → plan sorter compare rel config.prefix files objects config.delete_extra ≡ p
        → (((config.dry_run ≡ true) ⊎ ((e : SyncError) × (answer ≡ not_synced e))) → w' ≡ w)
          × (config.dry_run ≡ true
              → (r : SyncResult) → answer ≡ synced r
              → (r.errors ≡ [])
                × (r.files_uploaded ≡ 0)
                × (r.files_deleted ≡ 0)
                × (r.bytes_uploaded ≡ 0))
    planned (err f) p = (λ why. ground (arith, h, p), λ dry r e. absurd (ground (arith, h, p, e)))
    planned (ok ops) p = (
      λ why. elim why [
        | inl dry ↦ ground (arith, h, p, dry)
        | inr (e, fails) ↦ ground (arith, h, p, fails)
      ],
      λ dry r e.
          let same : record no_result { operations = convert_to_sync_operations ops } ≡ r =
            ground (arith, h, p, dry, e) in
          (
            ap (λ (x : SyncResult). x.errors) (sym same),
            ap (λ (x : SyncResult). x.files_uploaded) (sym same),
            ap (λ (x : SyncResult). x.files_deleted) (sym same),
            ap (λ (x : SyncResult). x.bytes_uploaded) (sym same),
          ),
    )
