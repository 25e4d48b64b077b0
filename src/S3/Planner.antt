-- ===== src/S3/Planner.antt =====
-- aws/s3/internal/sync/planner/planner.go. filepath.Rel with filepath.ToSlash is the parameter
-- `rel` (`none` for its error), sort.Slice the parameter `sorter`. Sizes are in bytes; a sum of
-- sizes is kept as its int64 bit pattern.
pub mod Maps
pub mod Uploads
pub mod Picked
pub mod Latest
pub mod Reasons
pub mod Exact
pub mod Validity
pub mod Valid
pub mod Order
use catalyst_forge_libs.Common.{
  ℕ, ◌+◌, ◌*◌, ◌%◌, ◌^◌, ◌<◌, Bool, true, false, not, Option, none, some, List, [], ◌∷◌, ◌++◌, Str,
  codes, ltb, leb, ◌==◌, is_empty, length, keep_if, has_prefix, trim_prefix, str_eq, some_pass,
  ◌&&◌, if◌then◌else◌,
}
use catalyst_forge_libs.Common.Dict.{Dict, lookup, insert, contains}
use catalyst_forge_libs.Common.Sort.{SortSlice}
use catalyst_forge_libs.Common.Words.{add64}
use catalyst_forge_libs.S3.Comparator.{LocalFile, RemoteFile, Compared, Comparator, CompareError}

pub data OperationType : Type 0 where
  upload delete skip : OperationType

pub data Reason : Type 0 where
  new_file modified extra_remote_file unchanged : Reason

-- The `LocalPath` of a deletion is empty.
pub record Operation : Type 0 where
  pub kind : OperationType
  pub local_path : Str
  pub remote_key : Str
  pub size : ℕ
  pub reason : Reason
  pub priority : ℕ

pub data PlanError : Type 0 where
  compare_failed : CompareError → PlanError
  no_operations : PlanError
  conflict : Str → PlanError

pub data Planned (A : Type 0) : Type 0 where
  ok : A → Planned A
  err : PlanError → Planned A

-- The loops that fill the two maps.
unfoldable pub add_locals : (Str → Option Str) → List LocalFile → Dict LocalFile → Dict LocalFile
add_locals rel [] m = m
add_locals rel (f ∷ fs) m =
    add_locals rel fs (elim (rel f.path) [ none ↦ m | some r ↦ insert r f m ])

unfoldable pub build_local_map : (Str → Option Str) → List LocalFile → Dict LocalFile
unfolding add_locals
build_local_map rel fs = add_locals rel fs []

-- The key without the prefix, and without one slash behind it.
unfoldable pub remote_rel : Str → Str → Str
unfolding trim_prefix
remote_rel prefix key = trim_prefix (trim_prefix key prefix) (codes "/")

unfoldable pub add_remotes : Str → List RemoteFile → Dict RemoteFile → Dict RemoteFile
add_remotes prefix [] m = m
add_remotes prefix (o ∷ os) m =
    add_remotes prefix os
      (if has_prefix o.key prefix then insert (remote_rel prefix o.key) o m else m)

unfoldable pub build_remote_map : Str → List RemoteFile → Dict RemoteFile
unfolding add_remotes
build_remote_map prefix os = add_remotes prefix os []

unfoldable pub calculate_upload_priority : ℕ → ℕ
calculate_upload_priority size =
    if ltb size (1024 * 1024)
    then 1
    else if ltb size (10 * 1024 * 1024)
    then 2
    else if ltb size (100 * 1024 * 1024)
    then 3
    else 4

abbrev pub upload_operation : Str → Str → LocalFile → Reason → Operation
upload_operation prefix rel_path f reason = record {
  kind = upload;
  local_path = f.path;
  remote_key = prefix ++ rel_path;
  size = f.size;
  reason = reason;
  priority = calculate_upload_priority f.size;
}

abbrev pub delete_operation : RemoteFile → Operation
delete_operation r = record {
  kind = delete;
  local_path = [];
  remote_key = r.key;
  size = r.size;
  reason = extra_remote_file;
  priority = 10;
}

abbrev pub skip_operation : Str → Str → LocalFile → Operation
skip_operation prefix rel_path f = record {
  kind = skip;
  local_path = f.path;
  remote_key = prefix ++ rel_path;
  size = f.size;
  reason = unchanged;
  priority = 100;
}

-- The step of planUploads for one local file: nothing, or an upload, or the comparator's error.
unfoldable pub plan_upload :
    Comparator → Str → Dict RemoteFile → Str → LocalFile → Planned (List Operation)
unfolding lookup
plan_upload compare prefix remotes rel_path f = elim (lookup rel_path remotes) [
  | none ↦ ok (upload_operation prefix rel_path f new_file ∷ [])
  | some r ↦ elim (compare f r) [
    | Compared.failed e ↦ err (compare_failed e)
    | Compared.ok changed ↦
        ok (if changed then upload_operation prefix rel_path f modified ∷ [] else [])
  ]
]

abbrev pub join : Planned (List Operation) → Planned (List Operation) → Planned (List Operation)
join (err e) rest = err e
join (ok ops) (err e) = err e
join (ok ops) (ok more) = ok (ops ++ more)

-- The loop stops at the first error.
unfoldable pub plan_uploads :
    Comparator → Str → Dict LocalFile → Dict RemoteFile → Planned (List Operation)
unfolding plan_upload
plan_uploads compare prefix [] remotes = ok []
plan_uploads compare prefix ((rel_path, f) ∷ locals) remotes =
    join (plan_upload compare prefix remotes rel_path f)
      (plan_uploads compare prefix locals remotes)

unfoldable pub plan_deletes : Dict LocalFile → Dict RemoteFile → List Operation
unfolding contains
plan_deletes locals [] = []
plan_deletes locals ((rel_path, r) ∷ remotes) =
    let rest = plan_deletes locals remotes in
    if contains rel_path locals then rest else delete_operation r ∷ rest

unfoldable pub plan_skips : Str → Dict LocalFile → Dict RemoteFile → List Operation
unfolding contains
plan_skips prefix [] remotes = []
plan_skips prefix ((rel_path, f) ∷ locals) remotes =
    let rest = plan_skips prefix locals remotes in
    if contains rel_path remotes then skip_operation prefix rel_path f ∷ rest else rest

unfoldable pub type_order : OperationType → ℕ
type_order upload = 1
type_order delete = 2
type_order skip = 3

-- The order of optimizePlan: by priority, then by type.
unfoldable pub runs_before : Operation → Operation → Bool
unfolding type_order
runs_before a b =
    if a.priority == b.priority
    then ltb (type_order a.kind) (type_order b.kind)
    else ltb a.priority b.priority

module _ (sorter : SortSlice Operation) where
  unfoldable pub optimize_plan : List Operation → List Operation
  optimize_plan ops = sorter.sort runs_before ops

  unfoldable pub plan :
      Comparator
      → (Str → Option Str)
      → Str
      → List LocalFile
      → List RemoteFile
      → Bool
      → Planned (List Operation)
  unfolding plan_uploads plan_deletes plan_skips optimize_plan build_local_map build_remote_map
  plan compare rel prefix files objects delete_extra =
      let locals = build_local_map rel files in
      let remotes = build_remote_map prefix objects in
      elim (plan_uploads compare prefix locals remotes) [
        | err e ↦ err e
        | ok uploads ↦ ok (
            optimize_plan (
              (uploads ++ (if delete_extra then plan_deletes locals remotes else []))
              ++ plan_skips prefix locals remotes))
      ]

pub record OperationStats : Type 0 where
  pub uploads : ℕ
  pub deletes : ℕ
  pub skips : ℕ
  pub bytes_to_upload : ℕ
  pub bytes_to_delete : ℕ

unfoldable pub count_operation : OperationType → ℕ → OperationStats → OperationStats
unfolding add64
count_operation upload size s = record s {
  uploads = s.uploads + 1;
  bytes_to_upload = add64 s.bytes_to_upload size;
}
count_operation delete size s = record s {
  deletes = s.deletes + 1;
  bytes_to_delete = add64 s.bytes_to_delete size;
}
count_operation skip size s = record s { skips = s.skips + 1 }

unfoldable pub count_operations : List Operation → OperationStats → OperationStats
unfolding count_operation
count_operations [] s = s
count_operations (op ∷ ops) s = count_operations ops (count_operation op.kind op.size s)

unfoldable pub get_operation_stats : List Operation → OperationStats
unfolding count_operations
get_operation_stats ops =
    count_operations ops
      (record { uploads = 0; deletes = 0; skips = 0; bytes_to_upload = 0; bytes_to_delete = 0 })

abbrev pub same_type : OperationType → OperationType → Bool
same_type a b = type_order a == type_order b

-- The operations of ValidatePlan's map under each remote key that is not empty.
unfoldable pub group_by_key : List Operation → Dict (List Operation) → Dict (List Operation)
unfolding lookup
group_by_key [] m = m
group_by_key (op ∷ ops) m = group_by_key ops (
    if is_empty op.remote_key
    then m
    else insert op.remote_key
        ((elim (lookup op.remote_key m) as (λ _. List Operation) [ none ↦ [] | some l ↦ l ])
          ++ op ∷ [])
        m)

unfoldable pub conflicting : List Operation → Bool
unfolding type_order
conflicting ops =
    ltb 1 (length ops)
    && (some_pass (λ op. same_type op.kind upload) ops
        && some_pass (λ op. same_type op.kind delete) ops)

unfoldable pub check_keys : Dict (List Operation) → Planned (Unit {0})
unfolding conflicting
check_keys [] = ok tt
check_keys ((key, ops) ∷ rest) =
    let later = check_keys rest in if conflicting ops then err (conflict key) else later

unfoldable pub validate_plan : List Operation → Planned (Unit {0})
unfolding group_by_key check_keys
validate_plan ops = if is_empty ops then err no_operations else check_keys (group_by_key ops [])

-- The three guards of FilterOperations, each of which drops an operation. A bound that is not
-- above 0 is no bound, so bounds are numbers here.
unfoldable pub passes : List OperationType → ℕ → ℕ → Operation → Bool
unfolding type_order
passes include_types min_size max_size op =
    if not (is_empty include_types) && not (some_pass (λ t. same_type op.kind t) include_types)
    then false
    else if ltb 0 min_size && ltb op.size min_size
    then false
    else if ltb 0 max_size && ltb max_size op.size
    then false
    else true

unfoldable pub filter_operations : List Operation → List OperationType → ℕ → ℕ → List Operation
unfolding passes
filter_operations ops include_types min_size max_size =
    keep_if (passes include_types min_size max_size) ops
