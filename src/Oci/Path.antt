-- ===== src/Oci/Path.antt =====
-- oci/internal/validate/path.go, and normalizeAndResolvePath and safeJoin of
-- oci/archive_targz_helpers.go. Paths are byte strings. A byte from 128 up begins or continues a rune
-- above 127, so the loops over runes are loops over bytes. The separators are those of Unix.
pub mod Safe
pub mod Members
use catalyst_forge_libs.Common.{
  ℕ, ◌+◌, ◌≤◌, Bool, true, false, not, Option, none, some, List, [], ◌∷◌, ◌++◌, Str, codes, ltb,
  leb, ◌==◌, is_empty, some_pass, str_eq, has_prefix, trim_prefix, ◌&&◌, ◌||◌, if◌then◌else◌,
}
use mathlib.Core.List.{reverse}

pub data PathError : Type 0 where
  empty_path absolute_path encoded_traversal path_traversal control_character problematic_character
        hidden_file :
      PathError
  -- of the extraction: a BundleError with ErrSecurityViolation, and the failure of filepath.Abs
  security_violation : PathError

abbrev pub is_space : ℕ → Bool
is_space c = c == b' ' || (c == 9 || (c == 10 || c == 13))

unfoldable pub is_whitespace_only : Str → Bool
is_whitespace_only [] = true
is_whitespace_only (c ∷ cs) = is_space c && is_whitespace_only cs

-- path[0] after path[1] == ':' and a slash in path[2]
unfoldable pub has_drive : Str → Bool
has_drive (d ∷ colon ∷ slash ∷ rest) =
    (colon == b':' && (slash == b'\\' || slash == b'/'))
    && ((leb b'A' d && leb d b'Z') || (leb b'a' d && leb d b'z'))
has_drive path = false

-- filepath.IsAbs, a drive, or a UNC path
unfoldable pub is_absolute_path : Str → Bool
unfolding has_prefix has_drive
is_absolute_path path =
    has_prefix path (codes "/") || (has_drive path || has_prefix path (codes "\\\\"))

-- strings.ToLower, as far as the variants below can tell: no letter outside ASCII becomes one of theirs.
unfoldable pub to_lower : Str → Str
to_lower [] = []
to_lower (c ∷ cs) = (if leb b'A' c && leb c b'Z' then c + 32 else c) ∷ to_lower cs

-- strings.Contains
unfoldable pub contains_str : Str → Str → Bool
unfolding has_prefix
contains_str [] sub = is_empty sub
contains_str (c ∷ cs) sub =
    let later = contains_str cs sub in if has_prefix (c ∷ cs) sub then true else later

abbrev pub encoded_variants : List Str
encoded_variants =
    codes "..%2f"
    ∷ codes "..%5c"
    ∷ codes "%2e%2e%2f"
    ∷ codes "%2e%2e%5c"
    ∷ codes "%2e%2e/"
    ∷ codes "%2e%2e\\"
    ∷ codes "..%c0%af"
    ∷ codes "..%c1%9c"
    ∷ []

unfoldable pub has_encoded_traversal : Str → Bool
unfolding to_lower contains_str
has_encoded_traversal path = some_pass (contains_str (to_lower path)) encoded_variants

abbrev pub cons_first : ℕ → List Str → List Str
cons_first c [] = (c ∷ []) ∷ []
cons_first c (part ∷ parts) = (c ∷ part) ∷ parts

-- strings.Split by one byte
unfoldable pub split : ℕ → Str → List Str
split sep [] = [] ∷ []
split sep (c ∷ cs) = let parts = split sep cs in if c == sep then [] ∷ parts else cons_first c parts

abbrev pub dots : Str
dots = codes ".."

unfoldable pub contains_path_traversal : Str → Bool
unfolding contains_str split
contains_path_traversal path =
    (contains_str path dots && some_pass (λ part. str_eq part dots) (split b'/' path))
    || (contains_str path dots && some_pass (λ part. str_eq part dots) (split b'\\' path))

-- filepath.Clean of a path that is not rooted, the only kind it is called on: the elements that stay,
-- the last one first.
unfoldable pub clean_parts : List Str → List Str → List Str
clean_parts [] stack = stack
clean_parts (part ∷ parts) stack = clean_parts parts (
    if is_empty part || str_eq part (codes ".")
    then stack
    else if str_eq part dots
    then (elim stack as (λ _. List Str) [
      | [] ↦ dots ∷ []
      | top ∷ below ↦ if str_eq top dots then dots ∷ top ∷ below else below
    ])
    else part ∷ stack)

abbrev pub join_parts : List Str → Str
join_parts [] = []
join_parts (part ∷ []) = part
join_parts (part ∷ next ∷ parts) = part ++ b'/' ∷ join_parts (next ∷ parts)

unfoldable pub clean : Str → Str
unfolding split clean_parts
clean path =
    let parts = clean_parts (split b'/' path) [] in
    if is_empty parts then codes "." else join_parts (reverse parts)

unfoldable pub detect_path_traversal : Str → Option PathError
unfolding has_encoded_traversal clean has_prefix contains_path_traversal
detect_path_traversal path =
    if has_encoded_traversal path
    then some encoded_traversal
    else if has_prefix (clean path) dots
    then some path_traversal
    else if contains_path_traversal path
    then some path_traversal
    else none

-- The first byte that the loop refuses. A NUL is caught before the loop, and is below 32 anyway.
unfoldable pub detect_characters : Str → Option PathError
detect_characters [] = none
detect_characters (c ∷ cs) =
    let rest = detect_characters cs in
    if ltb c 32 && (not (c == 9) && (not (c == 10) && not (c == 13)))
    then some control_character
    else if leb 127 c
    then some problematic_character
    else rest

unfoldable pub detect_problematic_characters : Str → Option PathError
unfolding detect_characters
detect_problematic_characters path =
    if some_pass (λ c. c == 0) path then some control_character else detect_characters path

unfoldable pub is_hidden_part : Str → Bool
unfolding has_prefix
is_hidden_part part =
    has_prefix part (codes ".") && (not (str_eq part (codes ".")) && not (str_eq part dots))

unfoldable pub is_hidden_file : Str → Bool
unfolding is_hidden_part split
is_hidden_file path = some_pass is_hidden_part (split b'/' path)

-- The argument is AllowHiddenFiles.
unfoldable pub validate_path : Bool → Str → Option PathError
unfolding is_whitespace_only is_absolute_path detect_path_traversal detect_problematic_characters
    is_hidden_file
validate_path allow_hidden path =
    if is_empty path
    then some empty_path
    else if is_whitespace_only path
    then some empty_path
    else if is_absolute_path path
    then some absolute_path
    else elim (detect_path_traversal path) [
      | some e ↦ some e
      | none ↦ elim (detect_problematic_characters path) [
        | some e ↦ some e
        | none ↦ if not allow_hidden && is_hidden_file path then some hidden_file else none
      ]
    ]

pub data Resolved : Type 0 where
  resolved : Str → Resolved
  rejected : PathError → Resolved

-- `absolute` is what filepath.Abs, Clean and Join make of a member below the target directory, `none`
-- for the error of filepath.Abs.
unfoldable pub safe_join : (Str → Option Str) → Str → Str → Resolved
unfolding has_prefix
safe_join absolute root_abs member = elim (absolute member) [
  | none ↦ rejected security_violation
  | some target ↦
      if not (has_prefix target (root_abs ++ codes "/")) && not (str_eq target root_abs)
      then rejected security_violation
      else resolved target
]

abbrev pub stripped : Str → Str → Str
stripped prefix name =
    if not (is_empty prefix) && has_prefix name prefix
    then trim_prefix (trim_prefix name prefix) (codes "/")
    else name

unfoldable pub normalize_and_resolve_path : (Str → Option Str) → Str → Str → Str → Resolved
unfolding validate_path safe_join trim_prefix has_prefix
normalize_and_resolve_path absolute name strip_prefix root_abs = elim (validate_path false name) [
  | some e ↦ rejected security_violation
  | none ↦ safe_join absolute root_abs (stripped strip_prefix name)
]
