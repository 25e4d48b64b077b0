-- ===== src/Tests/Scans.antt =====
-- Examples for aws/s3/internal/sync/scanner and aws/s3/internal/validation.
use catalyst_forge_libs.Common.{
  List, keep_if, Bool, true, false, Option, none, some, [], ◌∷◌, ◌≡◌, ◌↔◌, refl, ap, arith, Str,
  str_eq, codes, some_pass,
}
use catalyst_forge_libs.Common.Dict.{insert}
use catalyst_forge_libs.Common.Text.{has_prefix}
use catalyst_forge_libs.Common.Chunks.{chunks}
use catalyst_forge_libs.Common.Sort.{by_insertion, insertion_sort}
use catalyst_forge_libs.S3.Comparator.{size_only}
use catalyst_forge_libs.S3.Comparator.{RemoteFile}
use catalyst_forge_libs.S3.Planner.{
  Operation, plan, runs_before, calculate_upload_priority, remote_rel, type_order,
}
use catalyst_forge_libs.S3.Planner.Latest.{latest_remote}
use catalyst_forge_libs.S3.Executor.{execute_uploads, execute_deletes}
use catalyst_forge_libs.S3.Sync.{Synced, synced, SyncResult, no_result, sync}
use catalyst_forge_libs.S3.Scanner.{
  Page, scanned, scan_remote, scan_local, should_include_file, matches_pattern,
}
use catalyst_forge_libs.S3.Scanner.Pages.{last, more, all_contents, AllDescribe, scan_remote_lem}
use catalyst_forge_libs.S3.Scanner.Excluded.{excluded_is_deleted}
use catalyst_forge_libs.S3.Validation.{validate_bucket_name}
use catalyst_forge_libs.S3.Validation.Buckets.{IsBucketName, validate_bucket_name_iff}
use catalyst_forge_libs.Tests.Sync.{page, old_page, rel, rel-AnswersRelative}
use catalyst_forge_libs.Tests.Buckets.{
  Bucket, bucket_client, bucket_client-IsFaithful, object, in_turn, read, before, config, objects,
}

-- filepath.Match of patterns without wildcards
abbrev same_name : (pattern name : Str) → Option Bool
same_name pattern name = some (str_eq pattern name)

abbrev run : Synced × Bucket
run =
    sync bucket_client read in_turn (by_insertion Operation) size_only rel (config false)
      (scan_local same_name rel [] (codes "a" ∷ []) (page ∷ [])) (some objects) before

abbrev outcome : SyncResult
outcome = record no_result { files_deleted = 2 }

run-outcome : run.0 ≡ synced outcome
unfolding sync execute_uploads execute_deletes chunks plan str_eq insert has_prefix remote_rel
    size_only insertion_sort runs_before calculate_upload_priority type_order scan_local
    should_include_file matches_pattern
run-outcome = refl

run_ends : run ≡ (synced outcome, run.1)
run_ends = ap (λ (a : Synced). (a, run.1)) run-outcome

remote_there : latest_remote (codes "p/") objects (codes "a") ≡ some old_page
unfolding has_prefix str_eq
remote_there = refl

left_out : some_pass (matches_pattern same_name (codes "a")) (codes "a" ∷ []) ≡ true
unfolding matches_pattern str_eq
left_out = refl

excluded_is_deleted_example : run.1 (codes "p/a") ≡ none
excluded_is_deleted_example =
    excluded_is_deleted bucket_client object read in_turn (by_insertion Operation) size_only rel
      (config false) same_name [] (codes "a" ∷ []) (page ∷ []) objects (codes "a") old_page before
      run.1 outcome bucket_client-IsFaithful rel-AnswersRelative refl refl run_ends remote_there
      left_out

abbrev first_page : Page
first_page = record {
  contents = record { key = codes "p/a"; size = 4; last_modified = 9; etag = none } ∷ [];
  is_truncated = true;
  next_token = some (codes "2");
}

abbrev last_page : Page
last_page = record {
  contents = record { key = codes "q"; size = 1; last_modified = 9; etag = none } ∷ [];
  is_truncated = false;
  next_token = none;
}

abbrev list_page : Option Str → Option Page
list_page none = some first_page
list_page (some token) = some last_page

scan_remote_lem_example :
    (files : List RemoteFile) × (scan_remote list_page (codes "p/") 2 ≡ scanned files)
    × AllDescribe files
        (keep_if (λ o. has_prefix o.key (codes "p/")) (all_contents (first_page ∷ last_page ∷ [])))
scan_remote_lem_example =
    scan_remote_lem list_page (codes "p/") (first_page ∷ last_page ∷ []) 2
      (more none first_page (last_page ∷ []) refl refl
        (last (some (codes "2")) last_page refl refl))
      (omega arith)

validate_bucket_name_iff_example :
    (validate_bucket_name (codes "my-bucket") ≡ none) ↔ IsBucketName (codes "my-bucket")
validate_bucket_name_iff_example = validate_bucket_name_iff (codes "my-bucket")
