-- ===== src/S3/Scanner.antt =====
-- aws/s3/internal/sync/scanner: patterns.go, and of scanner.go the two scans. filepath.Match is `match`,
-- `none` for a bad pattern; filepath.Rel with filepath.ToSlash is `rel`. What filepath.Walk finds is a
-- list, and a page of ListObjectsV2 a function of the continuation token. The context is not cancelled.
pub mod Excluded
pub mod Quotes
pub mod Pages
use catalyst_forge_libs.Common.{
  ℕ, zero, suc, Bool, true, false, not, Option, none, some, List, [], ◌∷◌, ◌++◌, Str, codes, str_eq,
  length, is_empty, keep_if, some_pass, has_prefix, trim_prefix, ◌==◌, ◌&&◌, ◌||◌, if◌then◌else◌,
}
use catalyst_forge_libs.Oci.Path.{contains_str, cons_first}
use catalyst_forge_libs.S3.Comparator.{LocalFile, RemoteFile}

-- strings.HasSuffix
unfoldable pub has_suffix : Str → Str → Bool
has_suffix [] p = is_empty p
has_suffix (c ∷ s) p = let later = has_suffix s p in if str_eq (c ∷ s) p then true else later

-- strings.TrimSuffix of a slash
unfoldable pub trim_slash : Str → Str
trim_slash [] = []
trim_slash (c ∷ []) = if c == b'/' then [] else c ∷ []
trim_slash (c ∷ d ∷ s) = c ∷ trim_slash (d ∷ s)

-- strings.Split(pattern, "**"); `skip` is set behind the first star of a pair.
unfoldable pub split_stars : Bool → Str → List Str
split_stars skip [] = [] ∷ []
split_stars true (c ∷ s) = split_stars false s
split_stars false (c ∷ s) =
    let apart = split_stars true s in
    let joined = split_stars false s in
    if has_prefix (c ∷ s) (codes "**") then [] ∷ apart else cons_first c joined

module _ (match : (pattern name : Str) → Option Bool) where
  -- An invalid pattern does not match.
  abbrev pub simple_match : Str → Str → Bool
  simple_match path pattern = elim (match pattern path) [ none ↦ false | some m ↦ m ]

  unfoldable pub matches_parts : Str → Str → List Str → Bool
  matches_parts path pattern [] = false
  matches_parts path pattern (whole ∷ []) = simple_match path pattern
  matches_parts path pattern (before ∷ behind ∷ []) =
      if not (has_prefix path before)
      then false
      else if is_empty behind
      then true
      else has_suffix path behind
  matches_parts path pattern (before ∷ behind ∷ more ∷ parts) = false

  unfoldable pub matches_glob_pattern : Str → Str → Bool
  unfolding split_stars matches_parts
  matches_glob_pattern path pattern = matches_parts path pattern (split_stars false pattern)

  unfoldable pub matches_pattern : Str → Str → Bool
  unfolding has_suffix trim_slash contains_str matches_glob_pattern
  matches_pattern path pattern =
      if has_suffix pattern (codes "/")
      then has_prefix (path ++ codes "/") (trim_slash pattern ++ codes "/")
        || str_eq path (trim_slash pattern)
      else if contains_str pattern (codes "**")
      then matches_glob_pattern path pattern
      else simple_match path pattern

  unfoldable pub should_include_file : Str → List Str → List Str → Bool
  should_include_file path include_patterns exclude_patterns =
      if some_pass (matches_pattern path) exclude_patterns
      then false
      else if is_empty include_patterns
      then true
      else some_pass (matches_pattern path) include_patterns

  -- The files that Walk finds, without the directories; `none` where filepath.Rel fails.
  unfoldable pub scan_local :
      (Str → Option Str) → List Str → List Str → List LocalFile → Option (List LocalFile)
  scan_local rel include_patterns exclude_patterns [] = some []
  scan_local rel include_patterns exclude_patterns (f ∷ fs) =
      let rest = scan_local rel include_patterns exclude_patterns fs in
      elim (rel f.path) [
        | none ↦ none
        | some q ↦ elim rest [
          | none ↦ none
          | some files ↦
              some (
                if should_include_file q include_patterns exclude_patterns
                then f ∷ files
                else files)
        ]
      ]

-- An object of a page.
pub record Listed : Type 0 where
  pub key : Str
  pub size : ℕ
  pub last_modified : ℕ
  pub etag : Option Str

pub record Page : Type 0 where
  pub contents : List Listed
  pub is_truncated : Bool
  pub next_token : Option Str

-- strings.Trim of quotes
unfoldable pub trim_quotes_left : Str → Str
trim_quotes_left [] = []
trim_quotes_left (c ∷ s) = let rest = trim_quotes_left s in if c == b'"' then rest else c ∷ s

unfoldable pub trim_quotes_right : Str → Str
trim_quotes_right [] = []
trim_quotes_right (c ∷ s) =
    let rest = trim_quotes_right s in if is_empty rest && c == b'"' then [] else c ∷ rest

unfoldable pub remote_file : Listed → RemoteFile
unfolding trim_quotes_left trim_quotes_right
remote_file o = record {
  key = o.key;
  size = o.size;
  last_modified = o.last_modified;
  etag = elim o.etag as (λ _. Str) [ none ↦ [] | some e ↦ trim_quotes_right (trim_quotes_left e) ];
}

-- The objects of a page that have the prefix.
unfoldable pub page_files : Str → List Listed → List RemoteFile
unfolding remote_file
page_files prefix [] = []
page_files prefix (o ∷ os) =
    let rest = page_files prefix os in
    if has_prefix o.key prefix then remote_file o ∷ rest else rest

pub data Scanned : Type 0 where
  scanned : List RemoteFile → Scanned
  list_failed still_running : Scanned

-- The loop over the pages, for a number of rounds.
unfoldable pub scan_pages :
    (Option Str → Option Page) → Str → ℕ → Option Str → List RemoteFile → Scanned
unfolding page_files
scan_pages list_page prefix zero token objects = still_running
scan_pages list_page prefix (suc rounds) token objects = elim (list_page token) [
  | none ↦ list_failed
  | some page ↦
      let found = objects ++ page_files prefix page.contents in
      let rest = scan_pages list_page prefix rounds page.next_token found in
      if page.is_truncated then rest else scanned found
]

unfoldable pub scan_remote : (Option Str → Option Page) → Str → ℕ → Scanned
unfolding scan_pages
scan_remote list_page prefix rounds = scan_pages list_page prefix rounds none []
