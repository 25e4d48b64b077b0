-- ===== src/Oci/Index/Laws.antt =====
-- The calls of oci/internal/cache/index.go and the entries that have not expired.
use catalyst_forge_libs.Common.{
  ℕ, ◌+◌, ◌*◌, ◌≤◌, length, Bool, true, false, Option, none, some, List, [], ◌∷◌, ◌≡◌, refl, ◌∙◌,
  ap, arith, inl, inr, Str, str_eq, str_eq_iff, str_eq_self, some_pass, leb, ltb, ◌||◌, Bool-cases,
  if◌then◌else◌,
}
use catalyst_forge_libs.Common.Dict.{
  Dict, lookup, insert, remove, lookup-insert, lookup-remove, Distinct, remove-Distinct,
}
use catalyst_forge_libs.Common.Sort.{SortSlice}
use catalyst_forge_libs.Oci.Index.{
  IndexEntry, Index, IndexFile, Encoding, is_expired, drop_if, keys, expired_keys, remove_all, put,
  compact, is_sparse, delete, cleanup,
}

-- An entry, unless it has expired.
abbrev pub live : ℕ → Option IndexEntry → Option IndexEntry
live now none = none
live now (some e) = if is_expired now e then none else some e

-- The entry under a key, unless it has expired.
abbrev pub view : ℕ → Index → Str → Option IndexEntry
view now idx k = live now (lookup k idx.entries)

is_expired_later :
    (now t : ℕ) (e : IndexEntry) → now ≤ t → is_expired now e ≡ true → is_expired t e ≡ true
unfolding is_expired
is_expired_later now t e h old = ground arith

-- What is gone at a time is gone later.
live_later : (now t : ℕ) (o : Option IndexEntry) → now ≤ t → live t (live now o) ≡ live t o
live_later now t none h = refl
live_later now t (some e) h = ground (arith, is_expired_later now t e h)

lookup-drop_if :
    (p : IndexEntry → Bool) (k : Str) (m : Dict IndexEntry)
    → Distinct m
    → lookup k (drop_if p m) ≡ (elim (lookup k m) as (λ _. Option IndexEntry) [
      | none ↦ none
      | some e ↦ if p e then none else some e
    ])
unfolding drop_if lookup
lookup-drop_if p k [] d = refl
lookup-drop_if p k ((j, e) ∷ m) d = ground (arith, lookup-drop_if p k m d.1, d.0, str_eq_iff j k)

drop_if-Distinct :
    (p : IndexEntry → Bool) (m : Dict IndexEntry) → Distinct m → Distinct (drop_if p m)
unfolding drop_if
drop_if-Distinct p [] d = tt
drop_if-Distinct p ((j, e) ∷ m) d = elim (Bool-cases (p e)) [
  | inl gone ↦ rw gone (drop_if-Distinct p m d.1)
  | inr stays ↦ rw stays (lookup-drop_if p j m d.1 ∙ rw d.0 refl, drop_if-Distinct p m d.1)
]

lookup-remove_all :
    (ks : List Str) (k : Str) (m : Dict IndexEntry)
    → lookup k (remove_all ks m) ≡ (if some_pass (λ j. str_eq j k) ks then none else lookup k m)
unfolding remove_all
lookup-remove_all [] k m = refl
lookup-remove_all (j ∷ ks) k m =
    ground (arith, lookup-remove_all ks k (remove j m), lookup-remove j k m)

remove_all-Distinct :
    (ks : List Str) (m : Dict IndexEntry) → Distinct m → Distinct (remove_all ks m)
unfolding remove_all
remove_all-Distinct [] m d = d
remove_all-Distinct (k ∷ ks) m d = remove_all-Distinct ks (remove k m) (remove-Distinct k m d)

among-keys :
    (p : IndexEntry → Bool) (k : Str) (m : Dict IndexEntry)
    → Distinct m
    → some_pass (λ j. str_eq j k) (keys p m) ≡ (elim (lookup k m) [ none ↦ false | some e ↦ p e ])
unfolding keys lookup
among-keys p k [] d = refl
among-keys p k ((j, e) ∷ m) d = ground (arith, among-keys p k m d.1, d.0, str_eq_iff j k)

module _ {W : Type 0} (encoding : Encoding) (file : IndexFile W) (sorter : SortSlice Str) where
  compact-lookup :
      (now : ℕ) (idx : Index) (w : W) (k : Str)
      → Distinct idx.entries
      → lookup k (compact encoding file sorter now idx w).1.entries
        ≡ live now (lookup k idx.entries)
  unfolding compact
  compact-lookup now idx w k d =
      lookup-drop_if (is_expired now) k idx.entries d ∙ same (lookup k idx.entries)
    where
      same :
          (o : Option IndexEntry)
          → (elim o as (λ _. Option IndexEntry) [
            | none ↦ none
            | some e ↦ if is_expired now e then none else some e
          ])
            ≡ live now o
      same none = refl
      same (some e) = refl

  compact-view :
      (now t : ℕ) (idx : Index) (w : W) (k : Str)
      → Distinct idx.entries
      → now ≤ t
      → view t (compact encoding file sorter now idx w).1 k ≡ view t idx k
  compact-view now t idx w k d h =
      ap (live t) (compact-lookup now idx w k d) ∙ live_later now t (lookup k idx.entries) h

  lookup-expired_removed :
      (now : ℕ) (idx : Index) (k : Str)
      → Distinct idx.entries
      → lookup k (remove_all (expired_keys now idx) idx.entries) ≡ live now (lookup k idx.entries)
  unfolding expired_keys
  lookup-expired_removed now idx k d =
      lookup-remove_all (keys (is_expired now) idx.entries) k idx.entries
      ∙ ground (arith, among-keys (is_expired now) k idx.entries d)

  cleanup-lookup :
      (now : ℕ) (force : Bool) (idx : Index) (w : W) (k : Str)
      → Distinct idx.entries
      → lookup k (cleanup encoding file sorter now force idx w).1.entries
        ≡ live now (lookup k idx.entries)
  unfolding cleanup
  cleanup-lookup now force idx w k d = elim (Bool-cases needed) [
    | inr rests ↦ rw rests (lookup-expired_removed now idx k d)
    | inl runs ↦ rw runs (
        compact-lookup now cleaned w k (remove_all-Distinct (expired_keys now idx) idx.entries d)
        ∙ ap (live now) (lookup-expired_removed now idx k d)
        ∙ live_later now now (lookup k idx.entries) (omega arith))
  ]
    where
      cleaned : Index
      cleaned = record idx { entries = remove_all (expired_keys now idx) idx.entries }

      needed : Bool
      needed =
          force
          || (is_sparse encoding file sorter cleaned
              || ltb (idx.last_compaction + 24 * (3600 * 1000000000)) now)

  put-lookup :
      (j : Str) (e : IndexEntry) (idx : Index) (w : W) (k : Str)
      → lookup k (put encoding file sorter j e idx w).1.entries
        ≡ (if str_eq j k then some e else lookup k idx.entries)
  unfolding put
  put-lookup j e idx w k =
      elim (Bool-cases (leb idx.max_entries (length (insert j e idx.entries)))) [
        | inl full ↦ rw full (lookup-insert j k e idx.entries)
        | inr room ↦ rw room (lookup-insert j k e idx.entries)
      ]

  delete-view :
      (now t : ℕ) (j : Str) (idx : Index) (w : W) (k : Str)
      → Distinct idx.entries
      → now ≤ t
      → view t (delete encoding file sorter now j idx w).1 k
        ≡ (if str_eq j k then none else view t idx k)
  unfolding delete
  delete-view now t j idx w k d h = elim (Bool-cases (is_sparse encoding file sorter removed)) [
    | inl sparse ↦
        rw sparse (compact-view now t removed w k (remove-Distinct j idx.entries d) h ∙ without)
    | inr dense ↦ rw dense without
  ]
    where
      removed : Index
      removed = record idx { entries = remove j idx.entries }

      without :
          live t (lookup k (remove j idx.entries)) ≡ (if str_eq j k then none else view t idx k)
      without = ground (arith, lookup-remove j k idx.entries)

  lookup-deleted :
      (now : ℕ) (j : Str) (idx : Index) (w : W)
      → Distinct idx.entries
      → lookup j (delete encoding file sorter now j idx w).1.entries ≡ none
  unfolding delete
  lookup-deleted now j idx w d = elim (Bool-cases (is_sparse encoding file sorter removed)) [
    | inl sparse ↦
        rw sparse
          (compact-lookup now removed w j (remove-Distinct j idx.entries d) ∙ ap (live now) without)
    | inr dense ↦ rw dense without
  ]
    where
      removed : Index
      removed = record idx { entries = remove j idx.entries }

      without : lookup j (remove j idx.entries) ≡ none
      without = lookup-remove j j idx.entries ∙ rw (str_eq_self j) refl

-- In an index with no key twice, whether or not the file can be written: a Compact or a Cleanup leaves
-- exactly the entries that have not expired at its time, a Put changes the entry of its key only, and a
-- Delete takes the entry of its key away, expired or not, and of the other entries at most ones that have
-- expired.
pub calls-view :
    {W : Type 0} (encoding : Encoding) (file : IndexFile W) (sorter : SortSlice Str) (now t : ℕ)
    (idx : Index) (w : W) (k j : Str) (e : IndexEntry) (force : Bool)
    → Distinct idx.entries
    → now ≤ t
    → (lookup k (compact encoding file sorter now idx w).1.entries ≡ view now idx k)
      × (lookup k (cleanup encoding file sorter now force idx w).1.entries ≡ view now idx k)
      × (lookup k (put encoding file sorter j e idx w).1.entries
          ≡ (if str_eq j k then some e else lookup k idx.entries))
      × (view t (delete encoding file sorter now j idx w).1 k
          ≡ (if str_eq j k then none else view t idx k))
      × (lookup j (delete encoding file sorter now j idx w).1.entries ≡ none)
calls-view encoding file sorter now t idx w k j e force d h = (
  compact-lookup encoding file sorter now idx w k d,
  cleanup-lookup encoding file sorter now force idx w k d,
  put-lookup encoding file sorter j e idx w k,
  delete-view encoding file sorter now t j idx w k d h,
  lookup-deleted encoding file sorter now j idx w d,
)
