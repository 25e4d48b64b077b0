-- ===== src/Tests/Archives.antt =====
-- Examples for oci/security.go, oci/internal/validate/path.go and oci/archive_targz_helpers.go.
use catalyst_forge_libs.Common.{
  ◌≤◌, true, false, Option, none, some, List, [], ◌∷◌, ◌++◌, ◌≡◌, ◌↔◌, refl, arith, Str, codes, All,
  str_eq,
}
use catalyst_forge_libs.Oci.Security.{
  FileInfo, Header, ExtractOptions, violation, counted, Validator, check_archive,
}
use catalyst_forge_libs.Oci.Security.Limits.{IsSafe, Within, sizes_of, check_archive_lem}
use catalyst_forge_libs.Oci.Path.{
  validate_path, split, is_absolute_path, resolved, normalize_and_resolve_path, clean,
}
use catalyst_forge_libs.Oci.Path.Safe.{stays_inside, validate_path_lem}

abbrev opts : ExtractOptions
opts = record { max_files = 3; max_size = 100; max_file_size = 60; strip_prefix = [] }

abbrev headers : List Header
headers =
    (record { name = codes "a"; size = 50; mode = 420 })
    ∷ (record { name = codes "b"; size = 40; mode = 493 })
    ∷ []

-- filepath.Abs below /t
abbrev place : Str → Option Str
place member = some (codes "/t/" ++ member)

check_archive_lem_example : (check_archive place (codes "/t") opts headers ≡ counted 90) ↔ (
    All (IsSafe place (codes "/t") opts) headers
    × Within 3 2
    × (90 ≤ 100)
    × (90 ≡ sizes_of headers))
check_archive_lem_example =
    check_archive_lem place (codes "/t") opts headers 90 (omega arith) (omega arith) (omega arith)
      (omega arith, (omega arith, tt))

abbrev setuid_file : FileInfo
setuid_file = record { name = codes "s"; size = 1; mode = 2541 }

-- A validator that refuses every path.
abbrev closed : Validator
closed = record {
  validate_path = λ path. some (violation path);
  validate_file = λ info. none;
  validate_archive = λ stats. none;
}

unc_path : is_absolute_path (codes "\\\\host\\share") ≡ true
unfolding is_absolute_path
unc_path = refl

cleaned : clean (codes "a/./b//../c") ≡ codes "a/c"
unfolding clean str_eq
cleaned = refl

plain_path : validate_path false (codes "dir/a.txt") ≡ none
unfolding validate_path str_eq
plain_path = refl

validate_path_lem_example : stays_inside (split b'/' (codes "dir/a.txt")) 0 ≡ true
validate_path_lem_example = (validate_path_lem false (codes "dir/a.txt") plain_path).4

-- filepath.Abs below /out
abbrev absolute : Str → Option Str
absolute member = some (codes "/out/" ++ member)

resolved_file :
    normalize_and_resolve_path absolute (codes "dir/a.txt") (codes "dir") (codes "/out")
    ≡ resolved (codes "/out/a.txt")
unfolding normalize_and_resolve_path str_eq
resolved_file = refl
