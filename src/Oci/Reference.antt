-- ===== src/Oci/Reference.antt =====
-- The tests on references and digests in oci/internal/cache/manifest.go and tags.go, and the paths under
-- which tags and manifests are stored.
use catalyst_forge_libs.Common.{
  ℕ, Bool, true, false, not, List, [], ◌∷◌, ◌++◌, Str, codes, str_eq, length, is_empty, ltb, ◌==◌,
  ◌&&◌, ◌||◌, if◌then◌else◌,
}
use catalyst_forge_libs.Oci.Path.{split}

unfoldable pub is_hex_string : Str → Bool
is_hex_string [] = true
is_hex_string (r ∷ s) =
    let rest = is_hex_string s in
    if ltb r b'0' || ((ltb b'9' r && ltb r b'A') || ((ltb b'F' r && ltb r b'a') || ltb b'f' r))
    then false
    else rest

unfoldable pub is_valid_algorithm : Str → Bool
unfolding str_eq
is_valid_algorithm algorithm =
    str_eq algorithm (codes "sha256")
    || (str_eq algorithm (codes "sha384") || str_eq algorithm (codes "sha512"))

unfoldable pub is_valid_hex_hash : Str → Str → Bool
unfolding str_eq is_hex_string
is_valid_hex_hash algorithm hash =
    if not (is_hex_string hash)
    then false
    else if str_eq algorithm (codes "sha256")
    then length hash == 64
    else if str_eq algorithm (codes "sha384")
    then length hash == 96
    else if str_eq algorithm (codes "sha512")
    then length hash == 128
    else false

-- The parts of a digest, where there are two of them.
unfoldable pub is_valid_pair : List Str → Bool
unfolding is_valid_algorithm is_valid_hex_hash
is_valid_pair [] = false
is_valid_pair (a ∷ []) = false
is_valid_pair (a ∷ h ∷ []) =
    if is_empty a || is_empty h then false else is_valid_algorithm a && is_valid_hex_hash a h
is_valid_pair (a ∷ h ∷ more ∷ parts) = false

unfoldable pub is_valid_digest : Str → Bool
unfolding is_valid_pair split
is_valid_digest digest = if is_empty digest then false else is_valid_pair (split b':' digest)

abbrev pub last_of : List Str → Str
last_of [] = []
last_of (part ∷ []) = part
last_of (part ∷ more ∷ parts) = last_of (more ∷ parts)

-- strings.Contains of one byte
unfoldable pub has_byte : ℕ → Str → Bool
has_byte b [] = false
has_byte b (c ∷ s) = if c == b then true else has_byte b s

unfoldable pub tag_parts_fit : List Str → Bool
tag_parts_fit [] = false
tag_parts_fit (repository ∷ []) = false
tag_parts_fit (repository ∷ tag ∷ []) = not (is_empty tag)
tag_parts_fit (repository ∷ tag ∷ more ∷ parts) = false

unfoldable pub digest_parts_fit : List Str → Bool
unfolding is_valid_digest
digest_parts_fit [] = false
digest_parts_fit (repository ∷ []) = false
digest_parts_fit (repository ∷ digest ∷ []) = is_valid_digest digest
digest_parts_fit (repository ∷ digest ∷ more ∷ parts) = false

unfoldable pub is_valid_reference : Str → Bool
unfolding has_byte split tag_parts_fit digest_parts_fit
is_valid_reference reference =
    if is_empty reference
    then false
    else (let last_part =
          if has_byte b'/' reference then last_of (split b'/' reference) else reference in
        if has_byte b':' last_part
        then tag_parts_fit (split b':' last_part)
        else if has_byte b'@' last_part
        then digest_parts_fit (split b'@' last_part)
        else false)

-- strings.ReplaceAll of one byte by an underscore
unfoldable pub replace_all : ℕ → Str → Str
replace_all b [] = []
replace_all b (c ∷ s) = (if c == b then b'_' else c) ∷ replace_all b s

unfoldable pub tag_path : Str → Str
unfolding replace_all
tag_path reference =
    codes "tags/" ++ replace_all b'@' (replace_all b':' (replace_all b'/' reference))

unfoldable pub manifest_path : Str → Str
manifest_path digest = codes "manifests/" ++ digest
