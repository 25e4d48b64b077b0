-- ===== src/S3/Planner/Reasons.antt =====
-- The reasons for which aws/s3/internal/sync/planner/planner.go plans an operation.
use catalyst_forge_libs.Common.{Bool, true, Option, none, some, [], ◌++◌, ◌≡◌, Str}
use catalyst_forge_libs.Common.Dict.{Dict, lookup}
use catalyst_forge_libs.S3.Comparator.{LocalFile, RemoteFile, Compared, Comparator}
use catalyst_forge_libs.S3.Planner.{
  Operation, Reason, upload, delete, skip, extra_remote_file, unchanged, calculate_upload_priority,
  new_file, modified,
}

-- The entry of a map at a path.
abbrev pub at : {V : Type 0} → Dict V → Str → Option V
at m q = lookup q m

-- The upload of a file to a key.
abbrev pub upload_to : Str → LocalFile → Reason → Operation
upload_to key f reason = record {
  kind = upload;
  local_path = f.path;
  remote_key = key;
  size = f.size;
  reason = reason;
  priority = calculate_upload_priority f.size;
}

-- The deletion of an object under its own key.
abbrev pub deletion_of : RemoteFile → Operation
deletion_of r = record {
  kind = delete;
  local_path = [];
  remote_key = r.key;
  size = r.size;
  reason = extra_remote_file;
  priority = 10;
}

-- The skip of a file that stands under a key.
abbrev pub skip_at : Str → LocalFile → Operation
skip_at key f = record {
  kind = skip;
  local_path = f.path;
  remote_key = key;
  size = f.size;
  reason = unchanged;
  priority = 100;
}

-- The reasons to plan an operation: a new or changed local file is uploaded, an extra remote file
-- is deleted if that is asked for, and every path on both sides is skipped.
pub data IsPlanned (compare : Comparator) (prefix : Str) (locals : Str → Option LocalFile)
    (remotes : Str → Option RemoteFile) (delete_extra : Bool) (op : Operation) : Type 0 where
  new :
      (q : Str) (f : LocalFile)
      → locals q ≡ some f
      → remotes q ≡ none
      → op ≡ upload_to (prefix ++ q) f new_file
      → IsPlanned compare prefix locals remotes delete_extra op
  changed :
      (q : Str) (f : LocalFile) (r : RemoteFile)
      → locals q ≡ some f
      → remotes q ≡ some r
      → compare f r ≡ Compared.ok true
      → op ≡ upload_to (prefix ++ q) f modified
      → IsPlanned compare prefix locals remotes delete_extra op
  extra :
      (q : Str) (r : RemoteFile)
      → delete_extra ≡ true
      → remotes q ≡ some r
      → locals q ≡ none
      → op ≡ deletion_of r
      → IsPlanned compare prefix locals remotes delete_extra op
  on_both :
      (q : Str) (f : LocalFile) (r : RemoteFile)
      → locals q ≡ some f
      → remotes q ≡ some r
      → op ≡ skip_at (prefix ++ q) f
      → IsPlanned compare prefix locals remotes delete_extra op
