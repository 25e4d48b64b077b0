-- ===== src/Oci/Eviction/Composite.antt =====
-- CompositeEviction of oci/internal/cache/eviction.go.
use catalyst_forge_libs.Common.{
  ℕ, Bool, true, false, List, [], ◌∷◌, ◌++◌, ◌≡◌, ◌↔◌, ◌⊎◌, refl, sym, ◌∙◌, ap, subst, arith, inl,
  inr, Str, str_eq, str_eq_iff, some_pass, take, drop, take-append-drop, append-nil, append_assoc,
  In, In-append, In-append_left, In-append_right, Bool-cases, if◌then◌else◌,
}
use catalyst_forge_libs.Common.Dict.{Dict}
use catalyst_forge_libs.Common.Sort.{
  SortSlice, Shuffle, Shuffle-In, Shuffle-sym, IsOrdered, IsOrder,
}
use catalyst_forge_libs.Oci.Entry.{Entry}
use catalyst_forge_libs.Oci.Eviction.{
  EvictionStrategy, CompositeEviction, add_candidates, collect, before, pairs_of, composite_select,
}

-- No key stands twice.
abbrev pub NoTwice : List Str → Type 0
NoTwice [] = Unit
NoTwice (key ∷ keys) = (some_pass (λ j. str_eq j key) keys ≡ false) × NoTwice keys

some_pass-append :
    (p : Str → Bool) (xs ys : List Str)
    → some_pass p (xs ++ ys) ≡ (if some_pass p xs then true else some_pass p ys)
some_pass-append p [] ys = refl
some_pass-append p (x ∷ xs) ys = ground (arith, some_pass-append p xs ys)

has_key-In : (key : Str) (xs : List Str) → some_pass (λ j. str_eq j key) xs ≡ true → In key xs
has_key-In key [] h = absurd (ground arith)
has_key-In key (x ∷ xs) h = elim (Bool-cases (str_eq x key)) [
  | inl same ↦ inl (sym ((str_eq_iff x key).0 same))
  | inr other ↦ inr (has_key-In key xs (ground arith))
]

NoTwice-snoc :
    (key : Str) (xs : List Str)
    → some_pass (λ j. str_eq j key) xs ≡ false
    → NoTwice xs
    → NoTwice (xs ++ key ∷ [])
NoTwice-snoc key [] h n = (refl, tt)
NoTwice-snoc key (x ∷ xs) h n = (
  rw some_pass-append (ground (arith, n.0, str_eq_iff x key, str_eq_iff key x)),
  NoTwice-snoc key xs (ground arith) n.1,
)

-- What is chosen stays, and the new candidates follow it.
add_candidates_after :
    (keys result : List Str) → (more : List Str) × (add_candidates keys result ≡ result ++ more)
unfolding add_candidates
add_candidates_after [] result = ([], sym (append-nil result))
add_candidates_after (key ∷ keys) result =
    elim (Bool-cases (some_pass (λ j. str_eq j key) result)) [
      | inl there ↦ let (more, e) = add_candidates_after keys result in (more, rw there e)
      | inr new ↦
          let (more, e) = add_candidates_after keys (result ++ key ∷ []) in
          (key ∷ more, rw new (e ∙ append_assoc result (key ∷ []) more))
    ]

add_candidates-NoTwice :
    (keys result : List Str) → NoTwice result → NoTwice (add_candidates keys result)
unfolding add_candidates
add_candidates-NoTwice [] result n = n
add_candidates-NoTwice (key ∷ keys) result n =
    elim (Bool-cases (some_pass (λ j. str_eq j key) result)) [
      | inl there ↦ rw there (add_candidates-NoTwice keys result n)
      | inr new ↦ rw new (add_candidates-NoTwice keys _ (NoTwice-snoc key result new n))
    ]

add_candidates-In :
    (k : Str) (keys result : List Str)
    → In k (add_candidates keys result) ↔ (In k keys ⊎ In k result)
unfolding add_candidates
add_candidates-In k [] result = (λ m. inr m, λ h. elim h [ inl m ↦ elim m [ ] | inr m ↦ m ])
add_candidates-In k (key ∷ keys) result = elim (Bool-cases (some_pass (λ j. str_eq j key) result)) [
  | inl there ↦
      let ih = add_candidates-In k keys result in
      rw there (
        λ m. elim (ih.0 m) [ inl later ↦ inl (inr later) | inr held ↦ inr held ],
        λ h. elim h [
          | inl (inl same) ↦
              ih.1 (inr (subst (λ x. In x result) (sym same) (has_key-In key result there)))
          | inl (inr later) ↦ ih.1 (inl later)
          | inr held ↦ ih.1 (inr held)
        ],
      )
  | inr new ↦
      let ih = add_candidates-In k keys (result ++ key ∷ []) in
      rw new (
        λ m. elim (ih.0 m) [
          | inl later ↦ inl (inr later)
          | inr held ↦ elim (In-append k result (key ∷ []) held) [
            | inl old ↦ inr old
            | inr (inl same) ↦ inl (inl same)
            | inr (inr none_left) ↦ elim none_left [ ]
          ]
        ],
        λ h. elim h [
          | inl (inl same) ↦ ih.1 (inr (In-append_right k result (key ∷ []) (inl same)))
          | inl (inr later) ↦ ih.1 (inl later)
          | inr held ↦ ih.1 (inr (In-append_left k result (key ∷ []) held))
        ],
      )
]

module _ {W : Type 0} (entries : Dict Entry) (w : W) where
  -- A strategy of the list chooses the key.
  abbrev pub Chosen : Str → List (EvictionStrategy W × ℕ) → Type 0
  Chosen k pairs =
      (s : EvictionStrategy W) × (p : ℕ) × In (s, p) pairs × In k (s.select_for_eviction entries w)

  collect-NoTwice :
      (pairs : List (EvictionStrategy W × ℕ)) (result : List Str)
      → NoTwice result
      → NoTwice (collect pairs entries w result)
  unfolding collect
  collect-NoTwice [] result n = n
  collect-NoTwice ((s, p) ∷ pairs) result n =
      collect-NoTwice pairs _ (add_candidates-NoTwice (s.select_for_eviction entries w) result n)

  collect_after :
      (pairs : List (EvictionStrategy W × ℕ)) (result : List Str)
      → (more : List Str) × (collect pairs entries w result ≡ result ++ more)
  unfolding collect
  collect_after [] result = ([], sym (append-nil result))
  collect_after ((s, p) ∷ pairs) result =
      let (first, e) = add_candidates_after (s.select_for_eviction entries w) result in
      let (more, f) =
        collect_after pairs (add_candidates (s.select_for_eviction entries w) result) in
      (first ++ more, f ∙ ap (λ l. l ++ more) e ∙ append_assoc result first more)

  collect-append :
      (xs ys : List (EvictionStrategy W × ℕ)) (result : List Str)
      → collect (xs ++ ys) entries w result ≡ collect ys entries w (collect xs entries w result)
  unfolding collect
  collect-append [] ys result = refl
  collect-append ((s, p) ∷ xs) ys result = collect-append xs ys _

  collect-In :
      (k : Str) (pairs : List (EvictionStrategy W × ℕ)) (result : List Str)
      → In k (collect pairs entries w result) ↔ (Chosen k pairs ⊎ In k result)
  unfolding collect
  collect-In k [] result = (λ m. inr m, λ h. elim h [ inl (s, p, m, c) ↦ elim m [ ] | inr m ↦ m ])
  collect-In k ((s, p) ∷ pairs) result =
      let keys = s.select_for_eviction entries w in
      let here = add_candidates-In k keys result in
      let ih = collect-In k pairs (add_candidates keys result) in
      (
        λ m. elim (ih.0 m) [
          | inl (s', p', there, c) ↦ inl (s', p', inr there, c)
          | inr held ↦ elim (here.0 held) [ inl c ↦ inl (s, p, inl refl, c) | inr old ↦ inr old ]
        ],
        λ h. elim h [
          | inl (s', p', inl same, c) ↦ ih.1 (
              inr (
                here.1 (
                  inl (
                    subst (λ (x : EvictionStrategy W × ℕ). In k (x.0.select_for_eviction entries w))
                      same c))))
          | inl (s', p', inr there, c) ↦ ih.1 (inl (s', p', there, c))
          | inr old ↦ ih.1 (inr (here.1 (inr old)))
        ],
      )

  before-IsOrder : IsOrder (before {W = W})
  before-IsOrder = record {
    irreflexive = λ a. ground arith;
    transitive = λ a b c h k. ground arith;
    negative = λ a b c h k. ground arith;
  }

  -- A composite chooses exactly the keys that one of its strategies chooses, each once. The strategies
  -- stand in the order of their priorities, the least number first, and for every n the keys of the
  -- first n of them come before all other keys.
  pub composite_select_lem :
      (sorter : SortSlice (EvictionStrategy W × ℕ)) (c : CompositeEviction W)
      → let chosen = composite_select sorter c entries w in
        NoTwice chosen
        × ((k : Str) → In k chosen ↔ Chosen k (pairs_of c.strategies c.priorities))
        × ((sorted : List (EvictionStrategy W × ℕ)) × IsOrdered before sorted
            × Shuffle sorted (pairs_of c.strategies c.priorities)
            × ((n : ℕ)
                → (more : List Str) × (chosen ≡ collect (take n sorted) entries w [] ++ more)))
  unfolding composite_select
  composite_select_lem sorter c =
      let pairs = pairs_of c.strategies c.priorities in
      let sorted = sorter.sort before pairs in
      let shuffle = sorter.shuffles before pairs in
      (
        collect-NoTwice sorted [] tt,
        λ k. (
          λ m. elim ((collect-In k sorted []).0 m) [
            | inl (s, p, there, chosen) ↦ (s, p, Shuffle-In (s, p) shuffle there, chosen)
            | inr nothing ↦ elim nothing [ ]
          ],
          λ (s, p, there, chosen).
              (collect-In k sorted []).1
                (inl (s, p, Shuffle-In (s, p) (Shuffle-sym shuffle) there, chosen)),
        ),
        (
          sorted,
          sorter.orders before before-IsOrder pairs,
          shuffle,
          λ n.
              let (more, e) =
                collect_after (drop n sorted) (collect (take n sorted) entries w []) in
              (
                more,
                ap (λ l. collect l entries w []) (sym (take-append-drop n sorted))
                    ∙ collect-append (take n sorted) (drop n sorted) []
                    ∙ e,
              ),
        ),
      )
