-- ===== src/S3/Validation/Buckets.antt =====
-- Which names of buckets aws/s3/internal/validation/validate.go accepts.
use catalyst_forge_libs.Common.{
  ℕ, ◌≤◌, Bool, true, false, not, none, List, [], ◌∷◌, ◌≡◌, ◌≢◌, ◌↔◌, refl, arith, inl, inr, Str,
  codes, str_eq, str_eq_iff, length, is_empty, some_pass, leb, ◌&&◌, ◌||◌, has_prefix, Bool-cases,
  Option-cases,
}
use catalyst_forge_libs.Oci.Path.{split, cons_first, contains_str}
use catalyst_forge_libs.S3.Validation.{
  validate_bucket_name_basics, is_digit, is_valid_bucket_char, validate_bucket_name_characters,
  first_byte, last_byte, has_adjacent_special_chars, is_reserved_word, part_number, ip_parts,
  is_ip_address, validate_bucket_name_structure, validate_bucket_name,
}

abbrev pub is_letter : ℕ → Bool
is_letter c = leb b'a' c && leb c b'z'

-- A name of 3 to 63 letters, digits, dots and hyphens, that starts with a letter and ends with a letter
-- or a digit, in which no two dots and no two hyphens are neighbours, and that is not localhost.
pub record IsBucketName (bucket : Str) : Type 0 where
  pub long_enough : 3 ≤ length bucket
  pub short_enough : length bucket ≤ 63
  pub characters : some_pass (λ c. not (is_valid_bucket_char c)) bucket ≡ false
  pub first_letter : is_letter (first_byte bucket) ≡ true
  pub last_fits : (is_letter (last_byte bucket) || is_digit (last_byte bucket)) ≡ true
  pub no_dots : contains_str bucket (codes "..") ≡ false
  pub no_hyphens : contains_str bucket (codes "--") ≡ false
  pub not_reserved : bucket ≢ codes "localhost"

has_adjacent-contains :
    (s : Str)
    → has_adjacent_special_chars s ≡ (contains_str s (codes "..") || contains_str s (codes "--"))
unfolding has_adjacent_special_chars contains_str has_prefix
has_adjacent-contains [] = refl
has_adjacent-contains (a ∷ []) = ground arith
has_adjacent-contains (a ∷ b ∷ s) = ground (arith, has_adjacent-contains (b ∷ s))

-- No name that starts with a letter is an IP address.
ip_parts_letter :
    (c : ℕ) (parts : List Str) → is_letter c ≡ true → ip_parts (cons_first c parts) ≡ false
unfolding ip_parts part_number
ip_parts_letter c [] h = ground (arith, h)
ip_parts_letter c (part ∷ parts) h = ground (arith, h)

is_ip_address_letter :
    (bucket : Str) → is_letter (first_byte bucket) ≡ true → is_ip_address bucket ≡ false
unfolding is_ip_address split
is_ip_address_letter [] h = absurd (ground (arith, h))
is_ip_address_letter (c ∷ s) h = ground (arith, h, ip_parts_letter c (split b'.' s) h)

valid_last :
    (s : Str)
    → is_empty s ≡ false
    → some_pass (λ c. not (is_valid_bucket_char c)) s ≡ false
    → is_valid_bucket_char (last_byte s) ≡ true
valid_last [] ne h = absurd (ground (arith, ne))
valid_last (c ∷ []) ne h = ground (arith, h)
valid_last (c ∷ d ∷ s) ne h = valid_last (d ∷ s) refl (ground (arith, h))

valid_first :
    (s : Str)
    → is_empty s ≡ false
    → some_pass (λ c. not (is_valid_bucket_char c)) s ≡ false
    → is_valid_bucket_char (first_byte s) ≡ true
valid_first [] ne h = absurd (ground (arith, ne))
valid_first (c ∷ s) ne h = ground (arith, h)

phases :
    (b : Str)
    → validate_bucket_name b ≡ none
    → (validate_bucket_name_basics b ≡ none)
      × (validate_bucket_name_characters b ≡ none)
      × (validate_bucket_name_structure b ≡ none)
unfolding validate_bucket_name
phases b h = elim (Option-cases (validate_bucket_name_basics b)) [
  | inr (e, bad) ↦ absurd (ground (arith, h, bad))
  | inl basics ↦ elim (Option-cases (validate_bucket_name_characters b)) [
    | inr (e, bad) ↦ absurd (ground (arith, h, basics, bad))
    | inl characters ↦ (basics, characters, ground (arith, h, basics, characters))
  ]
]

basics_lem :
    (b : Str)
    → validate_bucket_name_basics b ≡ none
    → (is_empty b ≡ false) × (3 ≤ length b) × (length b ≤ 63)
unfolding validate_bucket_name_basics
basics_lem b h = (ground (arith, h), ground (arith, h), ground (arith, h))

-- What the last check accepts, among names of accepted characters.
structure_lem :
    (b : Str)
    → is_valid_bucket_char (first_byte b) ≡ true
    → is_valid_bucket_char (last_byte b) ≡ true
    → validate_bucket_name_structure b ≡ none
    → (is_letter (first_byte b) ≡ true)
      × ((is_letter (last_byte b) || is_digit (last_byte b)) ≡ true)
      × (has_adjacent_special_chars b ≡ false)
      × (is_reserved_word b ≡ false)
unfolding validate_bucket_name_structure
structure_lem b first last h = (
  ground (arith, first, last, h),
  ground (arith, first, last, h),
  ground (arith, first, last, h),
  ground (arith, first, last, h),
)

validate_bucket_name_sound : (b : Str) → validate_bucket_name b ≡ none → IsBucketName b
validate_bucket_name_sound b h =
    let (basics, characters, structure) = phases b h in
    let (named, long, short) = basics_lem b basics in
    let chars : some_pass (λ c. not (is_valid_bucket_char c)) b ≡ false =
      unfold validate_bucket_name_characters in ground (arith, characters) in
    let (first, last, adjacent, unreserved) =
      structure_lem b (valid_first b named chars) (valid_last b named chars) structure in
    record {
      long_enough = long;
      short_enough = short;
      characters = chars;
      first_letter = first;
      last_fits = last;
      no_dots = ground (arith, adjacent, has_adjacent-contains b);
      no_hyphens = ground (arith, adjacent, has_adjacent-contains b);
      not_reserved = λ e.
          unfold is_reserved_word in
          ground (arith, unreserved, (str_eq_iff b (codes "localhost")).1 e);
    }

validate_bucket_name_complete : (b : Str) → IsBucketName b → validate_bucket_name b ≡ none
validate_bucket_name_complete b ok =
    let basics : validate_bucket_name_basics b ≡ none =
      unfold validate_bucket_name_basics in
      ground (arith, ok.long_enough, ok.short_enough, nonempty b ok.long_enough) in
    let characters : validate_bucket_name_characters b ≡ none =
      unfold validate_bucket_name_characters in rw ok.characters refl in
    let unreserved : is_reserved_word b ≡ false = not_localhost b ok.not_reserved in
    let adjacent : has_adjacent_special_chars b ≡ false =
      ground (arith, has_adjacent-contains b, ok.no_dots, ok.no_hyphens) in
    let structure : validate_bucket_name_structure b ≡ none =
      unfold validate_bucket_name_structure in
      ground (
        arith,
        ok.first_letter,
        ok.last_fits,
        unreserved,
        adjacent,
        is_ip_address_letter b ok.first_letter,
      ) in
    unfold validate_bucket_name in rw (validate_bucket_name, basics, characters) structure
  where
    nonempty : (b : Str) → 3 ≤ length b → is_empty b ≡ false
    nonempty [] h = absurd (omega (arith, h))
    nonempty (c ∷ s) h = refl

    not_localhost : (b : Str) → b ≢ codes "localhost" → is_reserved_word b ≡ false
    not_localhost b h = elim (Bool-cases (str_eq b (codes "localhost"))) [
      | inl same ↦ absurd (h ((str_eq_iff b (codes "localhost")).0 same))
      | inr other ↦ unfold is_reserved_word in other
    ]

-- ValidateBucketName accepts exactly the names of 3 to 63 lower-case letters, digits, dots and hyphens that
-- start with a letter and end with a letter or a digit, hold no two dots and no two hyphens in a row, and
-- are not localhost.
pub validate_bucket_name_iff : (b : Str) → (validate_bucket_name b ≡ none) ↔ IsBucketName b
validate_bucket_name_iff b = (validate_bucket_name_sound b, validate_bucket_name_complete b)
