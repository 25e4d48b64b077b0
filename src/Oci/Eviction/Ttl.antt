-- ===== src/Oci/Eviction/Ttl.antt =====
-- TTLEviction of oci/internal/cache/eviction.go.
use catalyst_forge_libs.Common.{
  ℕ, true, List, [], ◌∷◌, ◌≡◌, ◌↔◌, refl, ap, arith, inl, inr, Str, In, In-keep_if, keep_if-In,
  keep_if,
}
use catalyst_forge_libs.Common.Dict.{Dict}
use catalyst_forge_libs.Common.Sort.{SortSlice, Shuffle-In, Shuffle-sym, IsOrdered, IsOrder}
use catalyst_forge_libs.Oci.Entry.{Entry, is_expired}
use catalyst_forge_libs.Oci.Eviction.{Candidate, keys, expires_before, ttl_select}

keys-In : (key : Str) (e : Entry) (xs : List Candidate) → In (key, e) xs → In key (keys xs)
keys-In key e [] m = elim m [ ]
keys-In key e ((j, d) ∷ xs) (inl same) = inl (ap (λ (c : Candidate). c.0) same)
keys-In key e ((j, d) ∷ xs) (inr m) = inr (keys-In key e xs m)

In-of_keys : (key : Str) (xs : List Candidate) → In key (keys xs) → (e : Entry) × In (key, e) xs
In-of_keys key [] m = elim m [ ]
In-of_keys key ((j, d) ∷ xs) (inl same) = (d, inl (ap (λ k. (k, d)) same))
In-of_keys key ((j, d) ∷ xs) (inr m) = let (e, there) = In-of_keys key xs m in (e, inr there)

expires_before-IsOrder : IsOrder expires_before
expires_before-IsOrder = record {
  irreflexive = λ (_, a). ground arith;
  transitive = λ (_, a) (_, b) (_, c) h k. ground arith;
  negative = λ (_, a) (_, b) (_, c) h k. ground arith;
}

-- TTLEviction chooses exactly the keys whose entry is expired, and in an order in which no entry
-- expired before one that is chosen earlier.
pub ttl_select_lem :
    (sorter : SortSlice Candidate) (now : ℕ) (entries : Dict Entry)
    → ((key : Str)
        → In key (ttl_select sorter now entries)
          ↔ ((e : Entry) × In (key, e) entries × (is_expired now e ≡ true)))
      × ((expired : List Candidate) × (ttl_select sorter now entries ≡ keys expired)
          × IsOrdered expires_before expired)
unfolding ttl_select
ttl_select_lem sorter now entries =
    let p = λ (c : Candidate). is_expired now c.1 in
    let expired = keep_if p entries in
    let shuffle = sorter.shuffles expires_before expired in
    (
      λ key. (
        λ m.
            let (e, there) = In-of_keys key (sorter.sort expires_before expired) m in
            let (held, gone) = In-keep_if p entries (key, e) (Shuffle-In (key, e) shuffle there) in
            (e, held, gone),
        λ (e, held, gone).
            keys-In key e (sorter.sort expires_before expired)
              (Shuffle-In (key, e) (Shuffle-sym shuffle) (keep_if-In p entries (key, e) held gone)),
      ),
      (
        sorter.sort expires_before expired,
        refl,
        sorter.orders expires_before expires_before-IsOrder expired,
      ),
    )
