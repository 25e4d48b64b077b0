-- ===== src/Secrets/Memory.antt =====
-- secrets/providers/memory/provider.go: the in-memory provider. The context is the argument
-- `cancelled`, the clock and the random source are arguments too.
pub mod View
pub mod Laws
pub mod Batch
pub mod Ends
use catalyst_forge_libs.Common.{
  ℕ, zero, suc, ◌+◌, ◌/◌, ◌%◌, Bool, true, false, Option, none, some, List, [], ◌∷◌, ◌++◌, Str,
  codes, length, is_empty, ◌==◌, if◌then◌else◌,
}
use catalyst_forge_libs.Common.Dict.{Dict, lookup, insert, remove, contains}
use catalyst_forge_libs.Secrets.Types.{
  Secret, SecretRef, Error, Result, ok, err, cancelled, random_failed, secret_not_found,
  version_not_found,
}
use catalyst_forge_libs.Secrets.Secret.{clear}

-- Secrets by path and version.
abbrev pub Store : Type 0
Store = Dict (Dict Secret)

abbrev pub new : Store
new = []

abbrev pub latest_version : Str
latest_version = codes "latest"

-- append([]byte(nil), v...), which is nil for no bytes
unfoldable pub copy_slice : Option Str → Option Str
copy_slice none = none
copy_slice (some []) = none
copy_slice (some (b ∷ bs)) = some (b ∷ bs)

unfoldable pub copy_secret : Secret → Secret
unfolding copy_slice
copy_secret s = record s { value = copy_slice s.value }

unfoldable pub version_of : SecretRef → Str
version_of ref = if is_empty ref.version then latest_version else ref.version

-- versions[version] under the path, with the two errors of a failed lookup.
unfoldable pub find : SecretRef → Store → Result Secret
unfolding version_of lookup
find ref p = elim (lookup ref.path p) [
  | none ↦ err (secret_not_found ref.path)
  | some versions ↦ elim (lookup (version_of ref) versions) [
    | none ↦ err (version_not_found ref.path (version_of ref))
    | some secret ↦ ok secret
  ]
]

unfoldable pub resolve : Bool → SecretRef → Store → Result Secret
unfolding find copy_secret
resolve true ref p = err cancelled
resolve false ref p = elim (find ref p) [ ok secret ↦ ok (copy_secret secret) | err e ↦ err e ]

-- The loop of ResolveBatch: `results` is keyed by the path alone.
unfoldable pub resolve_all : List SecretRef → Store → Dict Secret → Dict Secret
unfolding find copy_secret
resolve_all [] p results = results
resolve_all (ref ∷ refs) p results = resolve_all refs p (elim (find ref p) [
  | ok secret ↦ insert ref.path (copy_secret secret) results
  | err e ↦ results
])

unfoldable pub resolve_batch : Bool → List SecretRef → Store → Result (Dict Secret)
unfolding resolve_all
resolve_batch true refs p = err cancelled
resolve_batch false refs p = ok (resolve_all refs p [])

unfoldable pub exist : Bool → SecretRef → Store → Result Bool
unfolding version_of lookup contains
exist true ref p = err cancelled
exist false ref p = elim (lookup ref.path p) [
  | none ↦ ok false
  | some versions ↦ ok (contains (version_of ref) versions)
]

-- p.store[path], made first if there is none
unfoldable pub versions_at : Str → Store → Dict Secret
unfolding lookup
versions_at path p = elim (lookup path p) [ none ↦ [] | some versions ↦ versions ]

unfoldable pub new_secret : Str → Str → ℕ → Secret
unfolding copy_slice
new_secret version value now = record {
  value = copy_slice (some value);
  version = version;
  created_at = now;
  expires_at = none;
  auto_clear = false;
}

unfoldable pub store : Bool → SecretRef → Str → ℕ → Store → Option Error × Store
unfolding version_of versions_at new_secret
store true ref value now p = (some cancelled, p)
store false ref value now p =
    let version = version_of ref in
    let versions = insert version (new_secret version value now) (versions_at ref.path p) in
    (none, insert ref.path versions p)

-- Deletes one version, and the path with its last version.
unfoldable pub delete : Bool → SecretRef → Store → Option Error × Store
unfolding find versions_at version_of
delete true ref p = (some cancelled, p)
delete false ref p = elim (find ref p) [
  | err e ↦ (some e, p)
  | ok secret ↦
      let versions = remove (version_of ref) (versions_at ref.path p) in
      (none, if is_empty versions then remove ref.path p else insert ref.path versions p)
]

-- The digits of %d, least significant last, on fuel: a number has fewer digits than itself plus one.
unfoldable pub digits : ℕ → ℕ → Str → Str
digits zero n acc = acc
digits (suc f) n acc =
    let rest = digits f (n / 10) ((b'0' + n % 10) ∷ acc) in
    if n / 10 == 0 then (b'0' + n % 10) ∷ acc else rest

-- fmt.Sprintf("v%d", time.Now().UnixNano())
unfoldable pub rotated_version : ℕ → Str
unfolding digits
rotated_version nanos = b'v' ∷ digits (nanos + 1) nanos []

-- The number of random bytes: as many as the latest version has, or 32.
unfoldable pub rotated_size : Dict Secret → ℕ
unfolding lookup
rotated_size versions = elim (lookup latest_version versions) [
  | none ↦ 32
  | some secret ↦ elim secret.value [ none ↦ 0 | some bytes ↦ length bytes ]
]

-- crypto/rand is the parameter `rand_read`: so many bytes, or `none` for its error.
unfoldable pub rotate : (ℕ → Option Str) → Bool → SecretRef → ℕ → ℕ → Store → Result Secret × Store
unfolding lookup rotated_size copy_secret
rotate rand_read true ref nanos now p = (err cancelled, p)
rotate rand_read false ref nanos now p = elim (lookup ref.path p) [
  | none ↦ (err (secret_not_found ref.path), p)
  | some versions ↦ elim (rand_read (rotated_size versions)) [
    | none ↦ (err random_failed, p)
    | some bytes ↦
        let version = rotated_version nanos in
        let fresh : Secret = record {
          value = some bytes;
          version = version;
          created_at = now;
          expires_at = none;
          auto_clear = false;
        } in
        (ok (copy_secret fresh), insert ref.path (insert version fresh versions) p)
  ]
]

-- The inner loop of Close: clears and deletes each version, and keeps the cleared memory.
unfoldable pub close_versions :
    Dict Secret → Dict Secret → List (Option Str) → Dict Secret × List (Option Str)
unfolding clear
close_versions [] versions memory = (versions, memory)
close_versions ((version, secret) ∷ rest) versions memory =
    close_versions rest (remove version versions) (memory ++ (clear secret).1 ∷ [])

unfoldable pub close_paths : Store → Store → List (Option Str) → Store × List (Option Str)
unfolding close_versions
close_paths [] p memory = (p, memory)
close_paths ((path, versions) ∷ rest) p memory =
    close_paths rest (remove path p) (close_versions versions versions memory).1

-- The store after Close, and what is left in the memory of every secret that it held.
unfoldable pub close : Store → Store × List (Option Str)
unfolding close_paths
close p = close_paths p p []
