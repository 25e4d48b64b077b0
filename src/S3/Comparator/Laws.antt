-- ===== src/S3/Comparator/Laws.antt =====
-- What the comparators decide.
use catalyst_forge_libs.Common.{
  ◌≤◌, Str, Bool-cases, ==_iff, ℕ, ◌+◌, ◌^◌, ◌<◌, Bool, true, false, none, some, List, [], ◌∷◌, ◌≡◌,
  ◌≢◌, ◌↔◌, ◌⊎◌, refl, arith, str_eq_iff, All, inl, inr, Option-cases,
}
use catalyst_forge_libs.S3.Comparator.{
  LocalFile, RemoteFile, ok, failed, Comparator, CompareError, Digest, differs_by_time, has_dash,
  is_plain_etag, smart, any_changed, composite,
}

-- Two times that are less than 2 ^ 63 nanoseconds (292 years) apart differ exactly where one is
-- more than the tolerance after the other.
pub differs_by_time_lem :
    (max_diff : ℕ) (l : LocalFile) (r : RemoteFile)
    → l.mod_time < r.last_modified + 2 ^ 63
    → r.last_modified < l.mod_time + 2 ^ 63
    → (differs_by_time max_diff l r ≡ true)
      ↔ ((r.last_modified + max_diff < l.mod_time) ⊎ (l.mod_time + max_diff < r.last_modified))
unfolding differs_by_time
differs_by_time_lem max_diff l r h k = ground arith

-- An ETag that is the digest of the whole object: not empty, and without the dash of a multipart upload.
abbrev pub IsWhole : Str → Type 0
IsWhole etag = (etag ≢ []) × All (λ c. c ≢ b'-') etag

has_dash-false : (etag : Str) → (has_dash etag ≡ false) ↔ All (λ c. c ≢ b'-') etag
unfolding has_dash
has_dash-false [] = (λ h. tt, λ h. refl)
has_dash-false (c ∷ etag) =
    let ih = has_dash-false etag in
    (
      λ h. (λ e. absurd (ground (arith, h, e)), ih.0 (ground (arith, h))),
      λ h. ground (arith, ==_iff c b'-', h.0, ih.1 h.1),
    )

is_plain_etag-true : (etag : Str) → (is_plain_etag etag ≡ true) ↔ IsWhole etag
unfolding is_plain_etag
is_plain_etag-true [] = (λ h. absurd (ground arith), λ h. absurd (h.0 refl))
is_plain_etag-true (c ∷ etag) =
    let dash = has_dash-false (c ∷ etag) in
    (λ h. (λ e. cc, dash.0 (ground (arith, h))), λ h. ground (arith, dash.1 h.1))

-- Neither time is more than the tolerance after the other.
abbrev pub IsNear : ℕ → LocalFile → RemoteFile → Type 0
IsNear max_diff l r =
    (l.mod_time ≤ r.last_modified + max_diff) × (r.last_modified ≤ l.mod_time + max_diff)

differs_by_time-false :
    (max_diff : ℕ) (l : LocalFile) (r : RemoteFile)
    → l.mod_time < r.last_modified + 2 ^ 63
    → r.last_modified < l.mod_time + 2 ^ 63
    → (differs_by_time max_diff l r ≡ false) ↔ IsNear max_diff l r
unfolding differs_by_time
differs_by_time-false max_diff l r h k = ground arith

-- The files agree by their sizes and by the best evidence there is: the digest where the ETag is
-- that of the whole object and the file can be read, else the times.
abbrev pub Agrees : ℕ → Digest → LocalFile → RemoteFile → Type 0
Agrees max_diff md5 l r =
    (l.size ≡ r.size)
    × ((IsWhole r.etag × (md5 l.path ≡ some r.etag))
        ⊎ (((IsWhole r.etag → ⊥) ⊎ (md5 l.path ≡ none)) × IsNear max_diff l r))

module _ (max_diff : ℕ) (md5 : Digest) (l : LocalFile) (r : RemoteFile)
    (h : l.mod_time < r.last_modified + 2 ^ 63) (k : r.last_modified < l.mod_time + 2 ^ 63) where
  smart-Agrees : smart max_diff md5 l r ≡ ok false → Agrees max_diff md5 l r
  unfolding smart
  smart-Agrees same = elim (Bool-cases (is_plain_etag r.etag)) [
    | inr part ↦ (
      ground (arith, same),
      inr (
        inl (λ whole. absurd (ground (arith, part, (is_plain_etag-true r.etag).1 whole))),
        (differs_by_time-false max_diff l r h k).0 (ground (arith, same, part)),
      ),
    )
    | inl plain ↦ elim (Option-cases (md5 l.path)) [
      | inl unread ↦ (
        ground (arith, same),
        inr (
          inr unread,
          (differs_by_time-false max_diff l r h k).0 (ground (arith, same, plain, unread)),
        ),
      )
      | inr (d, read) ↦ (
        ground (arith, same),
        inl (
          (is_plain_etag-true r.etag).0 plain,
          ground (arith, same, plain, read, str_eq_iff d r.etag),
        ),
      )
    ]
  ]

  Agrees-smart : Agrees max_diff md5 l r → smart max_diff md5 l r ≡ ok false
  unfolding smart
  Agrees-smart (sizes, inl (whole, read)) =
      ground (arith, sizes, read, (is_plain_etag-true r.etag).1 whole, str_eq_iff r.etag r.etag)
  Agrees-smart (sizes, inr (evidence, near)) =
      let close = (differs_by_time-false max_diff l r h k).1 near in
      elim (Bool-cases (is_plain_etag r.etag)) [
        | inr part ↦ ground (arith, sizes, part, close)
        | inl plain ↦ elim evidence [
          | inl broken ↦ absurd (broken ((is_plain_etag-true r.etag).0 plain))
          | inr unread ↦ ground (arith, sizes, plain, unread, close)
        ]
      ]

smart_total :
    (max_diff : ℕ) (md5 : Digest) (l : LocalFile) (r : RemoteFile) (e : CompareError)
    → smart max_diff md5 l r ≢ failed e
unfolding smart
smart_total max_diff md5 l r e = ground arith

-- The smart comparator never fails. Where the two times are less than 2 ^ 63 nanoseconds (292 years) apart, it
-- reports no change exactly where the sizes are equal and the best evidence agrees: if the ETag is not empty
-- and has no dash and the file can be read, its MD5 digest is the ETag, else neither time is more than the
-- tolerance after the other.
pub smart_lem :
    (max_diff : ℕ) (md5 : Digest) (l : LocalFile) (r : RemoteFile)
    → l.mod_time < r.last_modified + 2 ^ 63
    → r.last_modified < l.mod_time + 2 ^ 63
    → ((e : CompareError) → smart max_diff md5 l r ≢ failed e)
      × ((smart max_diff md5 l r ≡ ok false) ↔ Agrees max_diff md5 l r)
smart_lem max_diff md5 l r h k = (
  smart_total max_diff md5 l r,
  (smart-Agrees max_diff md5 l r h k, Agrees-smart max_diff md5 l r h k),
)

-- No comparator of the list fails or reports a change.
abbrev pub AllUnchanged : List Comparator → LocalFile → RemoteFile → Type 0
AllUnchanged cs l r = All (λ c. c l r ≡ ok false) cs

-- One comparator reports a change, and those before it report none.
abbrev pub FirstChanged : List Comparator → LocalFile → RemoteFile → Type 0
FirstChanged [] l r = ⊥
FirstChanged (c ∷ cs) l r = (c l r ≡ ok true) ⊎ ((c l r ≡ ok false) × FirstChanged cs l r)

any_changed-false :
    (cs : List Comparator) (l : LocalFile) (r : RemoteFile)
    → (any_changed cs l r ≡ ok false) ↔ AllUnchanged cs l r
unfolding any_changed
any_changed-false [] l r = (λ h. tt, λ h. refl)
any_changed-false (c ∷ cs) l r =
    let ih = any_changed-false cs l r in
    (λ h. (ground arith, ih.0 (ground arith)), λ h. ground (arith, ih.1 h.1))

any_changed-true :
    (cs : List Comparator) (l : LocalFile) (r : RemoteFile)
    → (any_changed cs l r ≡ ok true) ↔ FirstChanged cs l r
unfolding any_changed
any_changed-true [] l r = (λ h. absurd (ground arith), λ h. absurd h)
any_changed-true (c ∷ cs) l r =
    let ih = any_changed-true cs l r in (ground (arith, ih), ground (arith, ih))

-- Whatever RequireAll says, a composite comparator reports a change exactly where one of its
-- comparators does and none before it fails or reports one, and reports no change exactly where it
-- has comparators and none of them fails or reports a change.
pub composite_lem :
    (require_all : Bool) (cs : List Comparator) (l : LocalFile) (r : RemoteFile)
    → ((composite require_all cs l r ≡ ok true) ↔ FirstChanged cs l r)
      × ((composite require_all cs l r ≡ ok false) ↔ ((cs ≢ []) × AllUnchanged cs l r))
unfolding composite
composite_lem require_all [] l r = ((λ h. cc, λ h. absurd h), (λ h. cc, λ h. absurd (h.0 refl)))
composite_lem require_all (c ∷ cs) l r =
    let ne = any_changed-false (c ∷ cs) l r in
    (any_changed-true (c ∷ cs) l r, (λ h. (λ e. cc, ne.0 h), λ h. ne.1 h.1))
