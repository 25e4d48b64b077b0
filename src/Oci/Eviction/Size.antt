-- ===== src/Oci/Eviction/Size.antt =====
-- SizeEviction of oci/internal/cache/eviction.go.
use catalyst_forge_libs.Common.{
  ℕ, suc, ◌+◌, ◌-◌, ◌^◌, ◌<◌, ◌≤◌, true, false, List, [], ◌∷◌, ◌++◌, ◌≡◌, ◌⊎◌, refl, sym, ◌∙◌, ap,
  arith, inl, inr, Str, leb, take, drop, take-append-drop, Bool-cases,
}
use catalyst_forge_libs.Common.Dict.{Dict}
use catalyst_forge_libs.Common.Sort.{
  SortSlice, Shuffle, done, keep, swap, chain, IsOrdered, IsOrder,
}
use catalyst_forge_libs.Common.Words.{
  add64, sub64, leb_signed, add64_fits, sub64_fits, leb_signed_fits,
}
use catalyst_forge_libs.Oci.Entry.{Entry, entry_size}
use catalyst_forge_libs.Oci.Eviction.{
  Candidate, keys, total_size, evicted_before, select_until, size_select,
}

-- The size of several entries, without wrap-around.
abbrev pub bytes_of : List Candidate → ℕ
bytes_of [] = 0
bytes_of ((key, e) ∷ rest) = entry_size e + bytes_of rest

bytes_of-append : (xs ys : List Candidate) → bytes_of (xs ++ ys) ≡ bytes_of xs + bytes_of ys
bytes_of-append [] ys = omega arith
bytes_of-append ((key, e) ∷ xs) ys = omega (arith, bytes_of-append xs ys)

bytes_of-Shuffle : {xs ys : List Candidate} → Shuffle xs ys → bytes_of xs ≡ bytes_of ys
bytes_of-Shuffle done = refl
bytes_of-Shuffle (keep (key, e) s) = omega (arith, bytes_of-Shuffle s)
bytes_of-Shuffle (swap (k, d) (j, e) xs) = omega arith
bytes_of-Shuffle (chain s t) = bytes_of-Shuffle s ∙ bytes_of-Shuffle t

total_size_fits :
    (xs : List Candidate) (total : ℕ)
    → total + bytes_of xs < 2 ^ 64
    → total_size xs total ≡ total + bytes_of xs
unfolding total_size
total_size_fits [] total h = omega arith
total_size_fits ((key, e) ∷ xs) total h =
    let sum = add64_fits total (entry_size e) (omega (arith, h)) in
    ground (arith, sum, total_size_fits xs (total + entry_size e))

-- What the loop frees: enough, and with one entry less not enough.
abbrev pub IsJustEnough : ℕ → ℕ → List Candidate → ℕ → Type 0
IsJustEnough need freed xs n =
    (need ≤ freed + bytes_of (take n xs))
    × ((n ≡ 0) ⊎ ((m : ℕ) × (n ≡ suc m) × (freed + bytes_of (take m xs) < need)))

IsJustEnough-suc :
    (need freed n : ℕ) (key : Str) (e : Entry) (xs : List Candidate)
    → freed < need
    → IsJustEnough need (freed + entry_size e) xs n
    → IsJustEnough need freed ((key, e) ∷ xs) (suc n)
IsJustEnough-suc need freed n key e xs h (enough, inl none_taken) =
    (omega arith, inr (n, refl, rw none_taken (omega arith)))
IsJustEnough-suc need freed n key e xs h (enough, inr (m, one_more, least)) =
    (omega arith, inr (n, refl, rw one_more (omega arith)))

module _ (need freed : ℕ) (key : Str) (e : Entry) (xs : List Candidate) where
  select_until_stops : leb_signed need freed ≡ true → select_until need ((key, e) ∷ xs) freed ≡ []
  unfolding select_until
  select_until_stops h = rw h refl

  select_until_goes_on :
      leb_signed need freed ≡ false
      → select_until need ((key, e) ∷ xs) freed
        ≡ key ∷ select_until need xs (add64 freed (entry_size e))
  unfolding select_until
  select_until_goes_on h = rw h refl

module _ (sorter : SortSlice Candidate) (now max_size_bytes : ℕ) (entries : Dict Entry) where
  size_select_fits :
      leb_signed (total_size entries 0) max_size_bytes ≡ true
      → size_select sorter now max_size_bytes entries ≡ []
  unfolding size_select
  size_select_fits h = rw h refl

  size_select_over :
      leb_signed (total_size entries 0) max_size_bytes ≡ false
      → size_select sorter now max_size_bytes entries
        ≡ select_until
            (sub64 (total_size entries 0) max_size_bytes)
            (sorter.sort (evicted_before now) entries)
            0
  unfolding size_select
  size_select_over h = rw h refl

select_until-IsJustEnough :
    (need : ℕ) (xs : List Candidate) (freed : ℕ)
    → need ≤ freed + bytes_of xs
    → freed + bytes_of xs < 2 ^ 63
    → (n : ℕ) × (select_until need xs freed ≡ keys (take n xs)) × IsJustEnough need freed xs n
select_until-IsJustEnough need [] freed h small = (0, unfold select_until in refl, (h, inl refl))
select_until-IsJustEnough need ((key, e) ∷ xs) freed h small =
    let signed = leb_signed_fits need freed (omega (arith, h, small)) (omega (arith, small)) in
    let sum = add64_fits freed (entry_size e) (omega (arith, small)) in
    elim (Bool-cases (leb need freed)) [
      | inl enough ↦
          (0, select_until_stops need freed key e xs (signed ∙ enough), (ground arith, inl refl))
      | inr more ↦
          let (n, same, just) =
            select_until-IsJustEnough need xs (freed + entry_size e) (omega (arith, h))
              (omega (arith, small)) in
          (
            suc n,
            select_until_goes_on need freed key e xs (signed ∙ more)
                ∙ ap (λ f. key ∷ select_until need xs f) sum
                ∙ ap (λ ks. key ∷ ks) same,
            IsJustEnough-suc need freed n key e xs (ground arith) just,
          )
    ]

evicted_before-IsOrder : (now : ℕ) → IsOrder (evicted_before now)
unfolding evicted_before
evicted_before-IsOrder now = record {
  irreflexive = λ (_, a). ground arith;
  transitive = λ (_, a) (_, b) (_, c) h k. ground arith;
  negative = λ (_, a) (_, b) (_, c) h k. ground arith;
}

bytes_of-take-drop :
    (n : ℕ) (xs : List Candidate) → bytes_of (take n xs) + bytes_of (drop n xs) ≡ bytes_of xs
bytes_of-take-drop n xs =
    sym (bytes_of-append (take n xs) (drop n xs)) ∙ ap bytes_of (take-append-drop n xs)

-- While all sizes together stay below 2 ^ 63, SizeEviction chooses the first so many keys of the
-- entries in order of eviction, what is left fits the limit, and with one key less it would not:
-- the choice is empty exactly where the cache fits already.
pub size_select_lem :
    (sorter : SortSlice Candidate) (now max_size_bytes : ℕ) (entries : Dict Entry)
    → bytes_of entries < 2 ^ 63
    → max_size_bytes < 2 ^ 63
    → (sorted : List Candidate) × (n : ℕ) × Shuffle sorted entries
      × IsOrdered (evicted_before now) sorted
      × (size_select sorter now max_size_bytes entries ≡ keys (take n sorted))
      × (bytes_of (drop n sorted) ≤ max_size_bytes)
      × ((n ≡ 0) ⊎ ((m : ℕ) × (n ≡ suc m) × (max_size_bytes < bytes_of (drop m sorted))))
size_select_lem sorter now max_size_bytes entries small limit =
    let sorted = sorter.sort (evicted_before now) entries in
    let shuffle = sorter.shuffles (evicted_before now) entries in
    let ordered = sorter.orders (evicted_before now) (evicted_before-IsOrder now) entries in
    let all : bytes_of sorted ≡ bytes_of entries = bytes_of-Shuffle shuffle in
    let total : total_size entries 0 ≡ bytes_of entries =
      total_size_fits entries 0 (omega (arith, small)) ∙ omega arith in
    let signed = leb_signed_fits (bytes_of entries) max_size_bytes small limit in
    elim (Bool-cases (leb (bytes_of entries) max_size_bytes)) [
      | inl fits ↦ (
        sorted,
        0,
        shuffle,
        ordered,
        size_select_fits sorter now max_size_bytes entries
            (ap (λ t. leb_signed t max_size_bytes) total ∙ signed ∙ fits),
        ground arith,
        inl refl,
      )
      | inr over ↦
          let need = bytes_of entries - max_size_bytes in
          let difference =
            sub64_fits (bytes_of entries) max_size_bytes small limit (ground arith) in
          let (n, same, (enough, least)) =
            select_until-IsJustEnough need sorted 0 (omega (arith, all))
              (omega (arith, all, small)) in
          (
            sorted,
            n,
            shuffle,
            ordered,
            size_select_over sorter now max_size_bytes entries
                  (ap (λ t. leb_signed t max_size_bytes) total ∙ signed ∙ over)
                ∙ ap (λ t. select_until (sub64 t max_size_bytes) sorted 0) total
                ∙ ap (λ d. select_until d sorted 0) difference
                ∙ same,
            omega (arith, enough, all, bytes_of-take-drop n sorted),
            elim least [
              | inl z ↦ inl z
              | inr (m, e, short) ↦
                  inr (m, e, omega (arith, short, all, bytes_of-take-drop m sorted))
            ],
          )
    ]
