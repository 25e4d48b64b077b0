-- ===== src/Oci/Security/Limits.antt =====
-- What the checks of Extract in oci/archive_targz.go let through.
use catalyst_forge_libs.Common.{
  Str, Option, ℕ, ◌+◌, ◌%◌, ◌^◌, ◌<◌, ◌≤◌, List, [], ◌∷◌, ◌≡◌, ◌↔◌, ◌⊎◌, refl, sym, ◌∙◌, ap, arith,
  inr, length, All,
}
use catalyst_forge_libs.Oci.Path.{Resolved, resolved, rejected, normalize_and_resolve_path}
use catalyst_forge_libs.Oci.Path.Members.{IsMember, resolved-IsMember, IsMember-resolved}
use catalyst_forge_libs.Oci.Security.{
  Header, ExtractOptions, Checked, refused, counted, setuid, setgid, validators_of,
  validate_file_and_archive, check_header, check_headers, check_archive,
}

abbrev pub sizes_of : List Header → ℕ
sizes_of [] = 0
sizes_of (hdr ∷ headers) = hdr.size + sizes_of headers

-- A header that is not larger than a file may be, and has neither the setuid nor the setgid bit.
abbrev pub IsFit : ExtractOptions → Header → Type 0
IsFit opts hdr =
    (hdr.size ≤ opts.max_file_size)
    × (setuid (hdr.mode % 2 ^ 32) ≡ 0)
    × (setgid (hdr.mode % 2 ^ 32) ≡ 0)

-- A header that is fit and names a member below the root.
abbrev pub IsSafe : (Str → Option Str) → Str → ExtractOptions → Header → Type 0
IsSafe absolute root_abs opts hdr =
    IsMember absolute root_abs opts.strip_prefix hdr.name × IsFit opts hdr

-- At most so many, where there is a limit.
abbrev pub Within : ℕ → ℕ → Type 0
Within limit n = (limit ≡ 0) ⊎ (n ≤ limit)

module _ (absolute : Str → Option Str) (root_abs : Str) (opts : ExtractOptions)
    (bound : opts.max_size + opts.max_file_size < 2 ^ 63) (limited : 0 < opts.max_size)
    (limited_file : 0 < opts.max_file_size) where
  module _ (hdr : Header) (small : hdr.size < 2 ^ 63) (total count : ℕ)
      (so_far : total ≤ opts.max_size) where
    passes :
        IsFit opts hdr
        → Within opts.max_files count
        → total + hdr.size ≤ opts.max_size
        → validate_file_and_archive (validators_of opts) hdr opts total count
          ≡ counted (total + hdr.size)
    unfolding validate_file_and_archive validators_of
    passes safe few fits = ground arith

    counted_only :
        (t : ℕ)
        → validate_file_and_archive (validators_of opts) hdr opts total count ≡ counted t
        → IsFit opts hdr
          × Within opts.max_files count
          × (total + hdr.size ≤ opts.max_size)
          × (t ≡ total + hdr.size)
    unfolding validate_file_and_archive validators_of
    counted_only t h = ground arith

    header_passes :
        IsSafe absolute root_abs opts hdr
        → Within opts.max_files count
        → total + hdr.size ≤ opts.max_size
        → check_header absolute root_abs (validators_of opts) opts hdr total count
          ≡ counted (total + hdr.size)
    unfolding check_header
    header_passes (member, fit) few fits =
        let (target, placed) =
          IsMember-resolved absolute root_abs opts.strip_prefix hdr.name member in
        rw (check_header, placed) (passes fit few fits)

    header_counted :
        (t : ℕ)
        → check_header absolute root_abs (validators_of opts) opts hdr total count ≡ counted t
        → IsSafe absolute root_abs opts hdr
          × Within opts.max_files count
          × (total + hdr.size ≤ opts.max_size)
          × (t ≡ total + hdr.size)
    unfolding check_header
    header_counted t h =
        go (normalize_and_resolve_path absolute hdr.name opts.strip_prefix root_abs) refl
      where
        go :
            (r : Resolved)
            → normalize_and_resolve_path absolute hdr.name opts.strip_prefix root_abs ≡ r
            → IsSafe absolute root_abs opts hdr
              × Within opts.max_files count
              × (total + hdr.size ≤ opts.max_size)
              × (t ≡ total + hdr.size)
        go (rejected e) placed = absurd (ground (arith, h, placed))
        go (resolved target) placed =
            let (fit, few, fits, e) = counted_only t (rw (check_header, placed) at h) in
            (
              (resolved-IsMember absolute root_abs opts.strip_prefix hdr.name target placed, fit),
              few,
              fits,
              e,
            )

  -- One step of the loop.
  check_headers_after :
      (hdr : Header) (headers : List Header) (total count t : ℕ)
      → check_header absolute root_abs (validators_of opts) opts hdr total (count + 1) ≡ counted t
      → check_headers absolute root_abs (validators_of opts) opts (hdr ∷ headers) total count
        ≡ check_headers absolute root_abs (validators_of opts) opts headers t (count + 1)
  unfolding check_headers
  check_headers_after hdr headers total count t h = rw (check_headers, h) refl

  checked_none :
      (total count t : ℕ)
      → check_headers absolute root_abs (validators_of opts) opts [] total count ≡ counted t
      → t ≡ total
  unfolding check_headers
  checked_none total count t h = ground arith

  checked_first :
      (hdr : Header) (headers : List Header) (total count t : ℕ)
      → check_headers absolute root_abs (validators_of opts) opts (hdr ∷ headers) total count
        ≡ counted t
      → (u : ℕ) × (check_header absolute root_abs (validators_of opts) opts hdr total (count + 1)
          ≡ counted u)
  unfolding check_headers
  checked_first hdr headers total count t h =
      go (check_header absolute root_abs (validators_of opts) opts hdr total (count + 1)) refl
    where
      go :
          (r : Checked)
          → check_header absolute root_abs (validators_of opts) opts hdr total (count + 1) ≡ r
          → (u : ℕ) × (check_header absolute root_abs
                (validators_of opts)
                opts
                hdr
                total
                (count + 1)
              ≡ counted u)
      go (counted u) e = (u, e)
      go (refused f) e = absurd (ground arith)

  check_sound :
      (headers : List Header) (total count t : ℕ)
      → All (λ hdr. hdr.size < 2 ^ 63) headers
      → total ≤ opts.max_size
      → Within opts.max_files count
      → check_headers absolute root_abs (validators_of opts) opts headers total count ≡ counted t
      → All (IsSafe absolute root_abs opts) headers
        × Within opts.max_files (count + length headers)
        × (total + sizes_of headers ≤ opts.max_size)
        × (t ≡ total + sizes_of headers)
  check_sound [] total count t small so_far few h =
      (tt, ground arith, omega arith, omega (arith, checked_none total count t h))
  check_sound (hdr ∷ headers) total count t small so_far few h =
      let (u, first) = checked_first hdr headers total count t h in
      let (safe, few', fits, e) = header_counted hdr small.0 total (count + 1) so_far u first in
      let (safes, all_few, all_fit, e') =
        check_sound headers u (count + 1) t small.1 (omega (arith, fits, e)) few'
          (sym (check_headers_after hdr headers total count u first) ∙ h) in
      ((safe, safes), ground (arith, all_few), omega (arith, all_fit, e), omega (arith, e, e'))

  check_complete :
      (headers : List Header) (total count : ℕ)
      → All (λ hdr. hdr.size < 2 ^ 63) headers
      → All (IsSafe absolute root_abs opts) headers
      → Within opts.max_files (count + length headers)
      → total + sizes_of headers ≤ opts.max_size
      → check_headers absolute root_abs (validators_of opts) opts headers total count
        ≡ counted (total + sizes_of headers)
  check_complete [] total count small safe few fits =
      unfold check_headers in ap counted (omega arith)
  check_complete (hdr ∷ headers) total count small safe few fits =
      check_headers_after hdr headers total count (total + hdr.size) (
        header_passes hdr small.0 total (count + 1) (omega (arith, fits)) safe.0
          (ground (arith, few)) (omega (arith, fits)))
      ∙ check_complete headers (total + hdr.size) (count + 1) small.1 safe.1 (ground (arith, few))
          (omega (arith, fits))
      ∙ ap counted (omega arith)

-- Where the total and the single size are limited, the two limits together stay below 2 ^ 63, and no size in
-- a header is negative: whatever filepath.Abs answers, the checks of Extract let exactly those archives
-- through in which every header is safe, the headers are not too many and their sizes together fit the limit.
-- A header is safe if its name passes ValidatePath, its place is the target directory or begins with it and
-- a slash, its size is allowed and it has no setuid or setgid bit. No wrap-around of the running total gets
-- an archive past them, and what they count is the sum of the sizes. Writing the members, and the check of
-- the target of a symbolic link with it, is not part of this.
pub check_archive_lem :
    (absolute : Str → Option Str) (root_abs : Str) (opts : ExtractOptions) (headers : List Header)
    (t : ℕ)
    → opts.max_size + opts.max_file_size < 2 ^ 63
    → 0 < opts.max_size
    → 0 < opts.max_file_size
    → All (λ hdr. hdr.size < 2 ^ 63) headers
    → (check_archive absolute root_abs opts headers ≡ counted t) ↔ (
        All (IsSafe absolute root_abs opts) headers
        × Within opts.max_files (length headers)
        × (sizes_of headers ≤ opts.max_size)
        × (t ≡ sizes_of headers))
unfolding check_archive
check_archive_lem absolute root_abs opts headers t bound limited limited_file small = (
  λ h.
      let (safe, few, fits, e) =
        check_sound absolute root_abs opts bound limited limited_file headers 0 0 t small
          (omega arith) (inr (omega arith)) h in
      (safe, ground (arith, few), omega (arith, fits), omega (arith, e)),
  λ (safe, few, fits, e).
      check_complete absolute root_abs opts bound limited limited_file headers 0 0 small safe
        (ground (arith, few)) (omega (arith, fits))
      ∙ ap counted (omega (arith, e)),
)
