-- ===== src/S3/Validation.antt =====
-- aws/s3/internal/validation/validate.go: names of buckets, keys of objects, ACLs. The bytes of a name
-- stand for its runes, which changes no answer, since a byte of a longer rune is refused as the rune
-- is. Of an object key the runes, unicode.IsControl and filepath.Clean are parameters.
pub mod Buckets
use catalyst_forge_libs.Common.{
  ℕ, ◌+◌, ◌-◌, ◌*◌, ◌%◌, ◌^◌, Bool, true, false, not, Option, none, some, List, [], ◌∷◌, Str, codes,
  str_eq, length, is_empty, some_pass, ltb, leb, ◌==◌, ◌&&◌, ◌||◌, has_prefix, if◌then◌else◌,
}
use catalyst_forge_libs.Oci.Path.{split, contains_str}

pub data BucketError : Type 0 where
  empty_name bad_length bad_character bad_edge ip_address leading_number adjacent_specials
        reserved_word :
      BucketError

unfoldable pub validate_bucket_name_basics : Str → Option BucketError
validate_bucket_name_basics bucket =
    if is_empty bucket
    then some empty_name
    else if ltb (length bucket) 3 || ltb 63 (length bucket)
    then some bad_length
    else none

abbrev pub is_digit : ℕ → Bool
is_digit c = leb b'0' c && leb c b'9'

abbrev pub is_valid_bucket_char : ℕ → Bool
is_valid_bucket_char c = is_digit c || ((leb b'a' c && leb c b'z') || (c == b'.' || c == b'-'))

unfoldable pub validate_bucket_name_characters : Str → Option BucketError
validate_bucket_name_characters bucket =
    if some_pass (λ c. not (is_valid_bucket_char c)) bucket then some bad_character else none

abbrev pub first_byte : Str → ℕ
first_byte [] = 0
first_byte (c ∷ s) = c

abbrev pub last_byte : Str → ℕ
last_byte [] = 0
last_byte (c ∷ []) = c
last_byte (c ∷ d ∷ s) = last_byte (d ∷ s)

unfoldable pub has_adjacent_special_chars : Str → Bool
has_adjacent_special_chars [] = false
has_adjacent_special_chars (a ∷ []) = false
has_adjacent_special_chars (a ∷ b ∷ s) =
    let rest = has_adjacent_special_chars (b ∷ s) in
    if (a == b'.' && b == b'.') || (a == b'-' && b == b'-') then true else rest

unfoldable pub is_reserved_word : Str → Bool
is_reserved_word bucket = str_eq bucket (codes "localhost")

-- The number of a part as its int64 bit pattern, `none` at a character that is no digit.
unfoldable pub part_number : ℕ → Str → Option ℕ
part_number num [] = some num
part_number num (c ∷ s) =
    let rest = part_number ((num * 10 + (c - b'0')) % 2 ^ 64) s in
    if ltb c b'0' || ltb b'9' c then none else rest

-- The loop over the parts: an empty one decides, and so does one that is no number up to 255.
unfoldable pub ip_parts : List Str → Bool
unfolding part_number
ip_parts [] = true
ip_parts (part ∷ parts) =
    let rest = ip_parts parts in
    if length part == 0 then true else elim (part_number 0 part) [
      | none ↦ false
      | some num ↦ if ltb 255 num && ltb num (2 ^ 63) then false else rest
    ]

unfoldable pub is_ip_address : Str → Bool
unfolding ip_parts
is_ip_address s =
    let parts = split b'.' s in if not (length parts == 4) then false else ip_parts parts

unfoldable pub validate_bucket_name_structure : Str → Option BucketError
validate_bucket_name_structure bucket =
    if (first_byte bucket == b'-' || first_byte bucket == b'.')
      || (last_byte bucket == b'-' || last_byte bucket == b'.')
    then some bad_edge
    else if is_ip_address bucket
    then some ip_address
    else if leb b'0' (first_byte bucket) && leb (first_byte bucket) b'9'
    then some leading_number
    else if has_adjacent_special_chars bucket
    then some adjacent_specials
    else if is_reserved_word bucket
    then some reserved_word
    else none

unfoldable pub validate_bucket_name : Str → Option BucketError
unfolding validate_bucket_name_basics validate_bucket_name_characters validate_bucket_name_structure
validate_bucket_name bucket = elim (validate_bucket_name_basics bucket) [
  | some e ↦ some e
  | none ↦ elim (validate_bucket_name_characters bucket) [
    | some e ↦ some e
    | none ↦ validate_bucket_name_structure bucket
  ]
]

pub data KeyError : Type 0 where
  empty_key path_traversal too_long control_characters : KeyError

module _ (clean : Str → Str) (runes : Str → List ℕ) (is_control : ℕ → Bool) where
  abbrev pub is_drive : Str → Bool
  is_drive [] = false
  is_drive (a ∷ []) = false
  is_drive (a ∷ b ∷ []) = false
  is_drive (a ∷ b ∷ c ∷ s) = b == b':' && (c == b'\\' || c == b'/')

  unfoldable pub has_path_traversal : Str → Bool
  has_path_traversal key =
      if contains_str key (codes "..")
      then true
      else if has_prefix (clean key) (codes "..")
      then true
      else if has_prefix (clean key) (codes "/")
      then true
      else if is_drive (clean key)
      then true
      else false

  unfoldable pub validate_object_key : Str → Option KeyError
  unfolding has_path_traversal
  validate_object_key key =
      if is_empty key
      then some empty_key
      else if has_path_traversal key
      then some path_traversal
      else if ltb 1024 (length key)
      then some too_long
      else if some_pass is_control (runes key)
      then some control_characters
      else none

abbrev pub valid_acls : List Str
valid_acls =
    codes "private"
    ∷ codes "public-read"
    ∷ codes "public-read-write"
    ∷ codes "authenticated-read"
    ∷ codes "aws-exec-read"
    ∷ codes "bucket-owner-read"
    ∷ codes "bucket-owner-full-control"
    ∷ []

-- The ACL is accepted.
unfoldable pub validate_acl : Str → Bool
validate_acl acl = if is_empty acl then true else some_pass (λ known. str_eq acl known) valid_acls
