-- ===== src/Oci/Security.antt =====
-- oci/security.go, and the checks of a header in oci/archive_targz_helpers.go. A limit that is not
-- above 0 is no limit, so limits are numbers, 0 for none. Sizes are int64 bit patterns, and a tar
-- reader gives none that is negative. The number of files is counted without bound.
pub mod Limits
pub mod Chain
use catalyst_forge_libs.Common.{
  ℕ, ◌+◌, ◌-◌, ◌*◌, ◌/◌, ◌%◌, ◌^◌, Bool, true, false, not, Option, none, some, List, [], ◌∷◌, ◌++◌,
  Str, codes, ltb, ◌==◌, ◌&&◌, if◌then◌else◌,
}
use catalyst_forge_libs.Common.Words.{add64, leb_signed}
use catalyst_forge_libs.Oci.Path.{resolved, rejected, normalize_and_resolve_path}

pub record FileInfo : Type 0 where
  pub name : Str
  pub size : ℕ
  pub mode : ℕ

pub record ArchiveStats : Type 0 where
  pub total_files : ℕ
  pub total_size : ℕ

pub data SecurityError : Type 0 where
  -- the BundleError of a validator, with what it refers to
  violation : Str → SecurityError
  -- the three wrappings of the chain
  path_failed file_failed : Str → SecurityError → SecurityError
  archive_failed : ℕ → ℕ → SecurityError → SecurityError
  -- the BundleError of the extraction
  extract_failed : Str → SecurityError → SecurityError

-- The interface: each method returns its error, or `none` for nil.
pub record Validator : Type 0 where
  pub validate_path : Str → Option SecurityError
  pub validate_file : FileInfo → Option SecurityError
  pub validate_archive : ArchiveStats → Option SecurityError

-- a > b as signed numbers
abbrev pub above : ℕ → ℕ → Bool
above a b = not (leb_signed a b)

unfoldable pub size_validator : ℕ → ℕ → Validator
unfolding leb_signed
size_validator max_file_size max_total_size = record {
  validate_path = λ path. none;
  validate_file = λ info.
      if ltb 0 max_file_size && above info.size max_file_size
      then some (violation info.name)
      else none;
  validate_archive = λ stats.
      if ltb 0 max_total_size && above stats.total_size max_total_size
      then some (violation (codes "archive"))
      else none;
}

unfoldable pub file_count_validator : ℕ → Validator
file_count_validator max_files = record {
  validate_path = λ path. none;
  validate_file = λ info. none;
  validate_archive = λ stats.
      if ltb 0 max_files && ltb max_files stats.total_files
      then some (violation (codes "archive"))
      else none;
}

-- mode & 0o4000 and mode & 0o2000
abbrev pub setuid : ℕ → ℕ
setuid mode = (mode / 2048 % 2) * 2048

abbrev pub setgid : ℕ → ℕ
setgid mode = (mode / 1024 % 2) * 1024

unfoldable pub permission_sanitizer : Validator
permission_sanitizer = record {
  validate_path = λ path. none;
  validate_file = λ info.
      if not (setuid info.mode == 0)
      then some (violation info.name)
      else if not (setgid info.mode == 0)
      then some (violation info.name)
      else none;
  validate_archive = λ stats. none;
}

-- mode &^ 0o4000 &^ 0o2000
unfoldable pub sanitize_permissions : ℕ → ℕ
sanitize_permissions mode = let cleared = mode - setuid mode in cleared - setgid cleared

-- The loop of each method of the chain: the first error, wrapped.
unfoldable pub first_error :
    (Validator → Option SecurityError)
    → (SecurityError → SecurityError)
    → List Validator
    → Option SecurityError
first_error check wrap [] = none
first_error check wrap (v ∷ vs) =
    let rest = first_error check wrap vs in elim (check v) [ none ↦ rest | some e ↦ some (wrap e) ]

unfoldable pub validator_chain : List Validator → Validator
unfolding first_error
validator_chain validators = record {
  validate_path = λ path. first_error (λ v. v.validate_path path) (path_failed path) validators;
  validate_file =
      λ info. first_error (λ v. v.validate_file info) (file_failed info.name) validators;
  validate_archive = λ stats.
      first_error (λ v. v.validate_archive stats)
        (archive_failed stats.total_files stats.total_size) validators;
}

abbrev pub add_validator : Validator → List Validator → List Validator
add_validator v validators = validators ++ v ∷ []

pub record ExtractOptions : Type 0 where
  pub max_files : ℕ
  pub max_size : ℕ
  pub max_file_size : ℕ
  pub strip_prefix : Str

-- The chain that Extract makes.
unfoldable pub validators_of : ExtractOptions → Validator
unfolding validator_chain size_validator file_count_validator permission_sanitizer
validators_of opts = validator_chain (
    size_validator opts.max_file_size opts.max_size
    ∷ file_count_validator opts.max_files
    ∷ permission_sanitizer
    ∷ [])

-- Of a tar header, the name, the size and the int64 mode.
pub record Header : Type 0 where
  pub name : Str
  pub size : ℕ
  pub mode : ℕ

-- The error, or the total size with this header counted.
pub data Checked : Type 0 where
  refused : SecurityError → Checked
  counted : ℕ → Checked

abbrev pub of_archive : Header → ℕ → Option SecurityError → Checked
of_archive hdr total none = counted total
of_archive hdr total (some e) = refused (extract_failed hdr.name e)

unfoldable pub validate_file_and_archive :
    Validator → Header → ExtractOptions → (total_size file_count : ℕ) → Checked
unfolding add64
validate_file_and_archive validators hdr opts total_size file_count =
    let info : FileInfo = record { name = hdr.name; size = hdr.size; mode = hdr.mode % 2 ^ 32 } in
    elim (validators.validate_file info) [
      | some e ↦ refused (extract_failed hdr.name e)
      | none ↦
          if ltb 0 opts.max_files && ltb opts.max_files file_count
          then refused (extract_failed hdr.name (violation hdr.name))
          else of_archive hdr (add64 total_size hdr.size) (
              validators.validate_archive
                (record { total_files = file_count; total_size = add64 total_size hdr.size }))
    ]

-- What handleHeader checks before it writes a member; `absolute` and `root_abs` are those of the place.
unfoldable pub check_header :
    (Str → Option Str)
    → Str
    → Validator
    → ExtractOptions
    → Header
    → (total_size file_count : ℕ) → Checked
unfolding validate_file_and_archive normalize_and_resolve_path
check_header absolute root_abs validators opts hdr total_size file_count =
    elim (normalize_and_resolve_path absolute hdr.name opts.strip_prefix root_abs) [
      | rejected e ↦ refused (extract_failed hdr.name (violation hdr.name))
      | resolved full_path ↦ validate_file_and_archive validators hdr opts total_size file_count
    ]

-- The loop of Extract, header by header, where writing the members does not fail; the first error ends it.
unfoldable pub check_headers :
    (Str → Option Str)
    → Str
    → Validator
    → ExtractOptions
    → List Header
    → (total_size file_count : ℕ) → Checked
unfolding check_header
check_headers absolute root_abs validators opts [] total_size file_count = counted total_size
check_headers absolute root_abs validators opts (hdr ∷ headers) total_size file_count =
    elim (check_header absolute root_abs validators opts hdr total_size (file_count + 1)) [
      | refused e ↦ refused e
      | counted total ↦
          check_headers absolute root_abs validators opts headers total (file_count + 1)
    ]

unfoldable pub check_archive : (Str → Option Str) → Str → ExtractOptions → List Header → Checked
unfolding check_headers validators_of
check_archive absolute root_abs opts headers =
    check_headers absolute root_abs (validators_of opts) opts headers 0 0
