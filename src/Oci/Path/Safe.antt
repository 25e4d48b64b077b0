-- ===== src/Oci/Path/Safe.antt =====
-- What the path checks of oci/internal/validate/path.go and oci/archive_targz_helpers.go let through.
use catalyst_forge_libs.Common.{
  ℕ, ◌+◌, ◌-◌, ◌<◌, ◌≤◌, Bool, true, false, not, Option, none, some, List, [], ◌∷◌, ◌≡◌, ◌≢◌, ◌⊎◌,
  refl, sym, ◌∙◌, ap, arith, inl, inr, Str, codes, str_eq, str_eq_iff, has_prefix, is_empty,
  some_pass, ◌==◌, All, In, Bool-cases, subst, ◌&&◌, ◌||◌, if◌then◌else◌,
}
use catalyst_forge_libs.Common.Sort.{All-of_In}
use catalyst_forge_libs.Oci.Path.{
  PathError, is_whitespace_only, is_absolute_path, contains_str, cons_first, split, dots,
  contains_path_traversal, detect_path_traversal, empty_path, absolute_path, hidden_file,
  detect_characters, detect_problematic_characters, is_hidden_part, is_hidden_file, validate_path,
}

-- A walk along the elements of a path never leaves the directory that it starts in; `depth` is how
-- far below it the walk is.
abbrev pub stays_inside : List Str → ℕ → Bool
stays_inside [] depth = true
stays_inside (part ∷ parts) depth =
    let below = stays_inside parts (depth + 1) in
    let above = stays_inside parts (depth - 1) in
    let here = stays_inside parts depth in
    if str_eq part dots
    then (if depth == 0 then false else above)
    else if is_empty part || str_eq part (codes ".")
    then here
    else below

-- Printable ASCII, or a tab, a line feed or a carriage return.
abbrev pub IsPlain : ℕ → Type 0
IsPlain c = ((32 ≤ c) × (c < 127)) ⊎ ((c ≡ 9) ⊎ ((c ≡ 10) ⊎ (c ≡ 13)))

stays_inside_without_dots :
    (parts : List Str) (depth : ℕ)
    → All (λ part. str_eq part dots ≡ false) parts
    → stays_inside parts depth ≡ true
stays_inside_without_dots [] depth h = refl
stays_inside_without_dots (part ∷ parts) depth h = ground (
  arith,
  h.0,
  stays_inside_without_dots parts depth h.1,
  stays_inside_without_dots parts (depth + 1) h.1,
)

split_parts :
    (sep : ℕ) (path : Str)
    → (first : Str) × (rest : List Str) × (split sep path ≡ first ∷ rest)
      × (has_prefix path first ≡ true)
unfolding split has_prefix
split_parts sep [] = ([], [], refl, refl)
split_parts sep (c ∷ cs) = elim (Bool-cases (c == sep)) [
  | inl same ↦ ([], split sep cs, rw same refl, refl)
  | inr other ↦
      let (first, rest, e, starts) = split_parts sep cs in
      (c ∷ first, rest, rw (other, e) refl, ground arith)
]

contains_str_of_In :
    (sep : ℕ) (path part : Str) → In part (split sep path) → contains_str path part ≡ true
unfolding split contains_str
contains_str_of_In sep [] part (inl e) = rw e refl
contains_str_of_In sep [] part (inr m) = elim m [ ]
contains_str_of_In sep (c ∷ cs) part m = elim (Bool-cases (c == sep)) [
  | inl same ↦ elim (rw same at m) [
    | inl e ↦ rw e refl
    | inr later ↦ ground (arith, contains_str_of_In sep cs part later)
  ]
  | inr other ↦
      let (first, rest, e, starts) = split_parts sep cs in
      let parts = subst (In part) (ap (cons_first c) e) (rw other at m) in
      elim parts [
        | inl whole ↦
            let begins : has_prefix (c ∷ cs) (c ∷ first) ≡ true =
              unfold has_prefix in ground (arith, starts) in
            rw (whole, begins) refl
        | inr later ↦
            ground (arith, contains_str_of_In sep cs part (subst (In part) (sym e) (inr later)))
      ]
]

no_dots :
    (p : Str → Bool) (parts : List Str)
    → some_pass p parts ≡ false
    → All (λ part. p part ≡ false) parts
no_dots p [] h = tt
no_dots p (part ∷ parts) h = (ground arith, no_dots p parts (ground arith))

parts_without_dots :
    (sep : ℕ) (path : Str)
    → (contains_str path dots && some_pass (λ part. str_eq part dots) (split sep path)) ≡ false
    → All (λ part. str_eq part dots ≡ false) (split sep path)
parts_without_dots sep path h = elim (Bool-cases (contains_str path dots)) [
  | inl there ↦ no_dots (λ part. str_eq part dots) (split sep path) (rw there at h)
  | inr absent ↦
      All-of_In (λ part. str_eq part dots ≡ false) (split sep path)
        λ part m. ground (arith, contains_str_of_In sep path part m, str_eq_iff part dots)
]

detect_characters-IsPlain : (path : Str) → detect_characters path ≡ none → All IsPlain path
unfolding detect_characters
detect_characters-IsPlain [] h = tt
detect_characters-IsPlain (c ∷ cs) h = (ground arith, detect_characters-IsPlain cs (ground arith))

-- The early returns of ValidatePath over the results of its checks.
abbrev first_failure :
    (empty blank absolute shown : Bool) → Option PathError → Option PathError → Option PathError
first_failure empty blank absolute hidden traversal character =
    if empty
    then some empty_path
    else if blank
    then some empty_path
    else if absolute
    then some absolute_path
    else elim traversal [
      | some e ↦ some e
      | none ↦ elim character [ some e ↦ some e | none ↦ if hidden then some hidden_file else none ]
    ]

none_failed :
    (empty blank absolute hidden : Bool) (traversal character : Option PathError)
    → first_failure empty blank absolute hidden traversal character ≡ none
    → (blank ≡ false)
      × (absolute ≡ false)
      × (hidden ≡ false)
      × (traversal ≡ none)
      × (character ≡ none)
none_failed empty blank absolute hidden none none h =
    (ground arith, ground arith, ground arith, refl, refl)
none_failed empty blank absolute hidden none (some e) h = absurd (ground arith)
none_failed empty blank absolute hidden (some e) character h = absurd (ground arith)

unfolded :
    (allow_hidden : Bool) (path : Str)
    → validate_path allow_hidden path
      ≡ first_failure
          (is_empty path)
          (is_whitespace_only path)
          (is_absolute_path path)
          (not allow_hidden && is_hidden_file path)
          (detect_path_traversal path)
          (detect_problematic_characters path)
unfolding validate_path
unfolded allow_hidden path = refl

passed_dots :
    (path : Str) → detect_path_traversal path ≡ none → contains_path_traversal path ≡ false
passed_dots path t = unfold detect_path_traversal in ground arith

passed_characters :
    (path : Str) → detect_problematic_characters path ≡ none → detect_characters path ≡ none
passed_characters path t = unfold detect_problematic_characters in ground arith

either : (a b : Bool) → (a || b) ≡ false → (a ≡ false) × (b ≡ false)
either a b h = (ground arith, ground arith)

no_traversal :
    (path : Str)
    → contains_path_traversal path ≡ false
    → ((contains_str path dots && some_pass (λ part. str_eq part dots) (split b'/' path)) ≡ false)
      × ((contains_str path dots && some_pass (λ part. str_eq part dots) (split b'\\' path))
          ≡ false)
unfolding contains_path_traversal
no_traversal path h = either _ _ h

shown_parts :
    (allow_hidden : Bool) (path : Str)
    → (not allow_hidden && is_hidden_file path) ≡ false
    → (allow_hidden ≡ true) ⊎ All (λ part. is_hidden_part part ≡ false) (split b'/' path)
shown_parts true path h = inl refl
shown_parts false path h =
    inr (no_dots is_hidden_part (split b'/' path) (unfold is_hidden_file in h))

not_dots :
    (parts : List Str)
    → All (λ part. str_eq part dots ≡ false) parts
    → All (λ part. part ≢ dots) parts
not_dots [] h = tt
not_dots (part ∷ parts) h = (ground (arith, h.0, str_eq_iff part dots), not_dots parts h.1)

-- A path that passes ValidatePath is not blank and not absolute, as Windows and UNC paths go too; none
-- of its elements is "..", whether slashes or backslashes part them, and a walk along it never leaves
-- the directory that it starts in; each of its bytes is printable ASCII or white space; and none of its
-- elements is hidden, unless hidden files are allowed.
pub validate_path_lem :
    (allow_hidden : Bool) (path : Str)
    → validate_path allow_hidden path ≡ none
    → (is_whitespace_only path ≡ false)
      × (is_absolute_path path ≡ false)
      × All (λ part. part ≢ dots) (split b'/' path)
      × All (λ part. part ≢ dots) (split b'\\' path)
      × (stays_inside (split b'/' path) 0 ≡ true)
      × All IsPlain path
      × ((allow_hidden ≡ true) ⊎ All (λ part. is_hidden_part part ≡ false) (split b'/' path))
validate_path_lem allow_hidden path h =
    let (shown, relative, hidden, inside, plain) =
      none_failed (is_empty path) _ _ _ _ _ (sym (unfolded allow_hidden path) ∙ h) in
    let (slashes, backslashes) = no_traversal path (passed_dots path inside) in
    let parts = parts_without_dots b'/' path slashes in
    (
      shown,
      relative,
      not_dots (split b'/' path) parts,
      not_dots (split b'\\' path) (parts_without_dots b'\\' path backslashes),
      stays_inside_without_dots (split b'/' path) 0 parts,
      detect_characters-IsPlain path (passed_characters path plain),
      shown_parts allow_hidden path hidden,
    )
