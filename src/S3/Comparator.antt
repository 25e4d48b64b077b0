-- ===== src/S3/Comparator.antt =====
-- aws/s3/internal/sync/comparator/comparator.go and the two file types of aws/s3/s3types/types.go.
-- Sizes are in bytes, times and durations in nanoseconds.
pub mod Laws
use catalyst_forge_libs.Common.{
  ℕ, ◌+◌, ◌-◌, ◌*◌, ◌^◌, Bool, true, false, not, Option, none, some, List, [], ◌∷◌, Str, ltb, leb,
  ◌==◌, is_empty, str_eq, some_pass, ◌&&◌, if◌then◌else◌,
}

pub record LocalFile : Type 0 where
  pub path : Str
  pub size : ℕ
  pub mod_time : ℕ
  pub checksum : Str

pub record RemoteFile : Type 0 where
  pub key : Str
  pub size : ℕ
  pub last_modified : ℕ
  pub etag : Str

pub data CompareError : Type 0 where
  checksum_failed no_comparators : CompareError
  composite_failed : CompareError → CompareError

pub data Compared : Type 0 where
  ok : Bool → Compared
  failed : CompareError → Compared

-- The interface has one method, so a comparator is that method.
abbrev pub Comparator : Type 0
Comparator = LocalFile → RemoteFile → Compared

-- The hex digest of the file at a path, or `none` where it cannot be opened or read.
abbrev pub Digest : Type 0
Digest = Str → Option Str

abbrev pub second : ℕ
second = 1_000_000_000

-- timeDiff := local.ModTime.Sub(remote.LastModified), made positive, is above the tolerance.
-- Sub stops at the ends of int64, and the least int64 is its own negation.
unfoldable pub differs_by_time : ℕ → LocalFile → RemoteFile → Bool
differs_by_time max_diff l r =
    if leb r.last_modified l.mod_time
    then (if leb (2 ^ 63) (l.mod_time - r.last_modified)
        then ltb max_diff (2 ^ 63 - 1)
        else ltb max_diff (l.mod_time - r.last_modified))
    else if leb (2 ^ 63) (r.last_modified - l.mod_time)
    then false
    else ltb max_diff (r.last_modified - l.mod_time)

-- strings.Contains(s, "-")
unfoldable pub has_dash : Str → Bool
has_dash = some_pass (λ c. c == b'-')

-- An ETag that stands for the whole object: it is there, and not that of a multipart upload.
unfoldable pub is_plain_etag : Str → Bool
unfolding has_dash
is_plain_etag etag = not (is_empty etag) && not (has_dash etag)

unfoldable pub smart : ℕ → Digest → Comparator
unfolding differs_by_time is_plain_etag
smart max_diff md5 l r =
    if not (l.size == r.size)
    then ok true
    else if is_plain_etag r.etag
    then (elim (md5 l.path) [
      | none ↦ ok (differs_by_time max_diff l r)
      | some local_md5 ↦ ok (not (str_eq local_md5 r.etag))
    ])
    else ok (differs_by_time max_diff l r)

-- NewSmartComparator
abbrev pub new_smart : Digest → Comparator
new_smart = smart (2 * second)

unfoldable pub size_only : Comparator
size_only l r = ok (not (l.size == r.size))

-- The digest is that of the configured hash function.
unfoldable pub checksum : Digest → Comparator
unfolding is_plain_etag
checksum digest l r = elim (digest l.path) [
  | none ↦ failed checksum_failed
  | some local_checksum ↦
      ok (if is_plain_etag r.etag then not (str_eq local_checksum r.etag) else true)
]

unfoldable pub by_time : ℕ → Comparator
unfolding differs_by_time
by_time max_diff l r = ok (differs_by_time max_diff l r)

-- The loop of CompositeComparator.HasChanged.
unfoldable pub any_changed : List Comparator → Comparator
any_changed [] l r = ok false
any_changed (c ∷ cs) l r =
    let rest = any_changed cs l r in
    elim (c l r) [ failed e ↦ failed (composite_failed e) | ok true ↦ ok true | ok false ↦ rest ]

-- RequireAll is a field that HasChanged does not read.
unfoldable pub composite : Bool → List Comparator → Comparator
unfolding any_changed
composite require_all [] l r = failed no_comparators
composite require_all (c ∷ cs) l r = any_changed (c ∷ cs) l r

unfoldable pub null : Comparator
null l r = ok false
