-- ===== src/S3/Scanner/Pages.antt =====
-- ScanRemote of aws/s3/internal/sync/scanner/scanner.go over the pages of a listing.
use catalyst_forge_libs.Common.{
  ◌⊎◌, keep_if, ℕ, zero, suc, ◌≤◌, true, false, Option, none, some, List, [], ◌∷◌, ◌++◌, ◌≡◌, refl,
  sym, ◌∙◌, ap, arith, Str, has_prefix, length, append_assoc, append-nil, Bool-cases, inl, inr,
}
use catalyst_forge_libs.S3.Comparator.{RemoteFile}
use catalyst_forge_libs.S3.Scanner.{
  Listed, Page, page_files, remote_file, trim_quotes_left, trim_quotes_right, scanned, scan_pages,
  scan_remote,
}
use catalyst_forge_libs.S3.Scanner.Quotes.{IsTrimmed, trim_quotes-IsTrimmed}

-- The listing from a token on has these pages: each one but the last is truncated and gives the token of
-- the next one.
pub data Listing (list_page : Option Str → Option Page) : Option Str → List Page → Type 0 where
  last :
      (token : Option Str) (p : Page)
      → list_page token ≡ some p
      → p.is_truncated ≡ false
      → Listing list_page token (p ∷ [])
  more :
      (token : Option Str) (p : Page) (pages : List Page)
      → list_page token ≡ some p
      → p.is_truncated ≡ true
      → Listing list_page p.next_token pages
      → Listing list_page token (p ∷ pages)

abbrev pub all_contents : List Page → List Listed
all_contents [] = []
all_contents (p ∷ pages) = p.contents ++ all_contents pages

page_files-append :
    (prefix : Str) (xs ys : List Listed)
    → page_files prefix (xs ++ ys) ≡ page_files prefix xs ++ page_files prefix ys
unfolding page_files
page_files-append prefix [] ys = refl
page_files-append prefix (x ∷ xs) ys = elim (Bool-cases (has_prefix x.key prefix)) [
  | inl fits ↦ rw (fits, page_files-append prefix xs ys) refl
  | inr other ↦ rw (other, page_files-append prefix xs ys) refl
]

scan_pages_lem :
    (list_page : Option Str → Option Page) (prefix : Str) (pages : List Page) (rounds : ℕ)
    (token : Option Str) (objects : List RemoteFile)
    → Listing list_page token pages
    → length pages ≤ rounds
    → scan_pages list_page prefix rounds token objects
      ≡ scanned (objects ++ page_files prefix (all_contents pages))
unfolding scan_pages
scan_pages_lem list_page prefix _ zero _ objects (last token p found ends) few =
    absurd (omega (arith, few))
scan_pages_lem list_page prefix _ zero _ objects (more token p rest found goes l) few =
    absurd (omega (arith, few))
scan_pages_lem list_page prefix _ (suc rounds) _ objects (last token p found ends) few =
    rw (scan_pages, found, ends)
      (ap (λ os. scanned (objects ++ page_files prefix os)) (sym (append-nil p.contents)))
scan_pages_lem list_page prefix _ (suc rounds) _ objects (more token p rest found goes l) few =
    rw (scan_pages, found, goes)
      (scan_pages_lem list_page prefix rest rounds p.next_token
          (objects ++ page_files prefix p.contents) l (omega (arith, few))
        ∙ ap scanned (
            append_assoc objects (page_files prefix p.contents)
              (page_files prefix (all_contents rest))
            ∙ ap (λ os. objects ++ os)
                (sym (page_files-append prefix p.contents (all_contents rest)))))

-- A file has the key, the size and the time of an object, and its ETag without the quotes round it, or an
-- empty one for an object without an ETag.
abbrev pub Describes : RemoteFile → Listed → Type 0
Describes r o =
    (r.key ≡ o.key)
    × (r.size ≡ o.size)
    × (r.last_modified ≡ o.last_modified)
    × ((o.etag ≡ none) × (r.etag ≡ []) ⊎ ((e : Str) × (o.etag ≡ some e) × IsTrimmed e r.etag))

-- Files and objects of the same number, each described by the one in its place.
abbrev pub AllDescribe : List RemoteFile → List Listed → Type 0
AllDescribe [] [] = Unit
AllDescribe [] (o ∷ os) = ⊥
AllDescribe (r ∷ rs) [] = ⊥
AllDescribe (r ∷ rs) (o ∷ os) = Describes r o × AllDescribe rs os

remote_file-Describes : (o : Listed) → Describes (remote_file o) o
unfolding remote_file
remote_file-Describes o = (refl, refl, refl, quoted o.etag)
  where
    quoted :
        (etag : Option Str)
        → (etag ≡ none)
            × ((elim etag as (λ _. Str) [
              | none ↦ []
              | some e ↦ trim_quotes_right (trim_quotes_left e)
            ])
                ≡ [])
          ⊎ ((e : Str) × (etag ≡ some e)
              × IsTrimmed e (elim etag as (λ _. Str) [
                | none ↦ []
                | some e ↦ trim_quotes_right (trim_quotes_left e)
              ]))
    quoted none = inl (refl, refl)
    quoted (some e) = inr (e, refl, trim_quotes-IsTrimmed e)

page_files-AllDescribe :
    (prefix : Str) (os : List Listed)
    → AllDescribe (page_files prefix os) (keep_if (λ o. has_prefix o.key prefix) os)
unfolding page_files
page_files-AllDescribe prefix [] = tt
page_files-AllDescribe prefix (o ∷ os) = elim (Bool-cases (has_prefix o.key prefix)) [
  | inl fits ↦ rw fits (remote_file-Describes o, page_files-AllDescribe prefix os)
  | inr other ↦ rw other (page_files-AllDescribe prefix os)
]

-- If the listing ends, ScanRemote ends with it, after as many rounds as there are pages, and finds a file for
-- each object of the pages whose key has the prefix, in their order, and no other: with the object's key, size
-- and time, and its ETag without the quotes at its ends.
pub scan_remote_lem :
    (list_page : Option Str → Option Page) (prefix : Str) (pages : List Page) (rounds : ℕ)
    → Listing list_page none pages
    → length pages ≤ rounds
    → (files : List RemoteFile) × (scan_remote list_page prefix rounds ≡ scanned files)
      × AllDescribe files (keep_if (λ o. has_prefix o.key prefix) (all_contents pages))
unfolding scan_remote
scan_remote_lem list_page prefix pages rounds l few = (
  page_files prefix (all_contents pages),
  scan_pages_lem list_page prefix pages rounds none [] l few,
  page_files-AllDescribe prefix (all_contents pages),
)
