-- ===== src/Tests/Sync.antt =====
-- Examples for aws/s3/internal/sync.
use catalyst_forge_libs.Common.{
  In, Bool-cases, true, false, Option, none, some, List, [], ◌∷◌, ◌≡◌, ◌≢◌, ◌↔◌, inl, inr, refl,
  arith, Str, str_eq, codes, if◌then◌else◌,
}
use catalyst_forge_libs.Common.Dict.{insert}
use catalyst_forge_libs.Common.Text.{has_prefix}
use catalyst_forge_libs.Common.Sort.{IsOrdered, by_insertion, insertion_sort}
use catalyst_forge_libs.S3.Comparator.{
  LocalFile, RemoteFile, Compared, second, smart, size_only, null, composite,
}
use catalyst_forge_libs.S3.Comparator.Laws.{Agrees, smart_lem, FirstChanged, composite_lem}
use catalyst_forge_libs.S3.Planner.{
  Operation, Planned, plan, runs_before, upload_operation, delete_operation, skip_operation,
  modified, remote_rel, calculate_upload_priority, validate_plan,
}
use catalyst_forge_libs.S3.Planner.Latest.{latest_local, latest_remote}
use catalyst_forge_libs.S3.Planner.Reasons.{IsPlanned}
use catalyst_forge_libs.S3.Planner.Exact.{plan_exact}
use catalyst_forge_libs.S3.Planner.Order.{in_earlier_phase, plan-IsOrdered}
use catalyst_forge_libs.S3.Planner.Validity.{NoConflict, validate_plan_iff}
use catalyst_forge_libs.S3.Planner.Valid.{AnswersRelative, validate_plan-plan}

abbrev pub page : LocalFile
page = record { path = codes "/w/a"; size = 5; mod_time = 10; checksum = [] }

abbrev pub old_page : RemoteFile
old_page = record { key = codes "p/a"; size = 4; last_modified = 9; etag = [] }

abbrev pub stray : RemoteFile
stray = record { key = codes "p/b"; size = 3; last_modified = 9; etag = [] }

-- filepath.Rel under /w
abbrev pub rel : Str → Option Str
rel path = if str_eq path (codes "/w/a") then some (codes "a") else none

abbrev pub operations : List Operation
operations =
    upload_operation (codes "p/") (codes "a") page modified
    ∷ delete_operation stray
    ∷ skip_operation (codes "p/") (codes "a") page
    ∷ []

pub planned :
    plan
      (by_insertion Operation)
      size_only
      rel
      (codes "p/")
      (page ∷ [])
      (old_page ∷ stray ∷ [])
      true
    ≡ Planned.ok operations
unfolding plan str_eq insert has_prefix remote_rel size_only insertion_sort runs_before
    calculate_upload_priority
planned = refl

plan_exact_example :
    In (delete_operation stray) operations
    ↔ IsPlanned size_only
        (codes "p/")
        (latest_local rel (page ∷ []))
        (latest_remote (codes "p/") (old_page ∷ stray ∷ []))
        true
        (delete_operation stray)
plan_exact_example =
    plan_exact (by_insertion Operation) size_only rel (codes "p/") (page ∷ [])
      (old_page ∷ stray ∷ []) true operations planned (delete_operation stray)

plan-IsOrdered_example : IsOrdered runs_before operations × IsOrdered in_earlier_phase operations
plan-IsOrdered_example =
    plan-IsOrdered (by_insertion Operation) size_only rel (codes "p/") (page ∷ [])
      (old_page ∷ stray ∷ []) true operations planned

pub rel-AnswersRelative : AnswersRelative rel
unfolding has_prefix
rel-AnswersRelative p q h = elim (Bool-cases (str_eq p (codes "/w/a"))) [
  | inl same ↦ ground arith
  | inr other ↦ absurd (ground arith)
]

validate_plan-plan_example : validate_plan operations ≡ Planned.ok tt
validate_plan-plan_example =
    validate_plan-plan (by_insertion Operation) size_only rel (codes "p/") (page ∷ [])
      (old_page ∷ stray ∷ []) true operations rel-AnswersRelative planned (λ e. cc)

validate_plan_iff_example :
    (validate_plan operations ≡ Planned.ok tt) ↔ ((operations ≢ []) × NoConflict operations)
validate_plan_iff_example = validate_plan_iff operations

smart_lem_example :
    (smart second (λ path. none) page old_page ≡ Compared.ok false)
    ↔ Agrees second (λ path. none) page old_page
smart_lem_example = (smart_lem second (λ path. none) page old_page (omega arith) (omega arith)).1

composite_lem_example :
    (composite true (null ∷ size_only ∷ []) page old_page ≡ Compared.ok true)
    ↔ FirstChanged (null ∷ size_only ∷ []) page old_page
composite_lem_example = (composite_lem true (null ∷ size_only ∷ []) page old_page).0
