-- ===== src/Oci/Lru/Recency.antt =====
-- LRUEviction of oci/internal/cache/eviction.go against its specification, a list of keys with the
-- most recently used in front.
use catalyst_forge_libs.Common.{
  ℕ, true, false, Option, none, some, List, [], ◌∷◌, ◌++◌, ◌≡◌, refl, sym, ◌∙◌, ap, ap₂, arith, inl,
  inr, Str, keep_if, Bool-cases, Option-cases, if◌then◌else◌,
}
use mathlib.Core.List.{reverse}
use catalyst_forge_libs.Common.Dict.{Dict, lookup, contains}
use catalyst_forge_libs.Oci.Entry.{Entry}
use catalyst_forge_libs.Oci.Lru.{
  Element, LruEviction, new_lru, without, accessed, on_access, on_add, on_remove, touch, keys_of,
  select_for_eviction,
}
use catalyst_forge_libs.Oci.Lru.Links.{
  IsLinked, has_key, drop_key, contains-has_key, keys_of-tracked, keys_of-accessed,
  accessed-IsLinked, without-IsLinked, added-IsLinked,
}

-- A call of the cache on its eviction strategy, with the clock.
pub data Event : Type 0 where
  adding : Entry → ℕ → Event
  accessing : Str → ℕ → Event
  removing : Str → Event

unfoldable pub step : Event → LruEviction → Option LruEviction
unfolding on_add on_access on_remove
step (adding e now) = on_add e now
step (accessing key now) = on_access key now
step (removing key) = on_remove key

unfoldable pub run : List Event → LruEviction → Option LruEviction
unfolding step
run [] l = some l
run (e ∷ es) l = elim (step e l) [ none ↦ none | some l' ↦ run es l' ]

-- The specification: an addition of a known key never ends.
abbrev pub recency_step : Event → List Str → Option (List Str)
recency_step (adding e now) ks = if has_key e.key ks then none else some (e.key ∷ ks)
recency_step (accessing key now) ks = some (if has_key key ks then key ∷ drop_key key ks else ks)
recency_step (removing key) ks = some (if has_key key ks then drop_key key ks else ks)

abbrev pub run_recency : List Event → List Str → Option (List Str)
run_recency [] ks = some ks
run_recency (e ∷ es) ks = elim (recency_step e ks) [ none ↦ none | some ks' ↦ run_recency es ks' ]

-- What one step keeps: no result on both sides, or a result that is linked, unlocked and has the keys.
abbrev Matches : Option LruEviction → Option (List Str) → Type 0
Matches none none = Unit
Matches (some l) (some ks) =
    IsLinked l.entries l.access_list l.next × (l.locked ≡ false) × (keys_of l.access_list ≡ ks)
Matches o o' = ⊥

keys_of-append : (xs ys : List Element) → keys_of (xs ++ ys) ≡ keys_of xs ++ keys_of ys
keys_of-append [] ys = refl
keys_of-append (x ∷ xs) ys = rw (keys_of-append xs ys) refl

module _ (l : LruEviction) (h : IsLinked l.entries l.access_list l.next)
    (free : l.locked ≡ false) where
  tracked_key : (key : Str) (i : ℕ) → lookup key l.entries ≡ some i → contains key l.entries ≡ true
  unfolding contains
  tracked_key key i tracked = ground arith

  untracked_key : (key : Str) → lookup key l.entries ≡ none → contains key l.entries ≡ false
  unfolding contains
  untracked_key key untracked = ground arith

  step-Matches : (e : Event) → Matches (step e l) (recency_step e (keys_of l.access_list))
  unfolding step on_add on_access on_remove touch contains
  step-Matches (adding e now) = elim (Bool-cases (contains e.key l.entries)) [
    | inl tracked ↦ rw (free, sym (contains-has_key h e.key) ∙ tracked, tracked) tt
    | inr untracked ↦
        rw (free, sym (contains-has_key h e.key) ∙ untracked, untracked)
          (added-IsLinked h e untracked, refl, refl)
  ]
  step-Matches (accessing key now) = elim (Option-cases (lookup key l.entries)) [
    | inl untracked ↦
        rw (free, sym (contains-has_key h key) ∙ untracked_key key untracked, touch, untracked)
          (h, refl, refl)
    | inr (i, tracked) ↦
        rw (free, sym (contains-has_key h key) ∙ tracked_key key i tracked, touch, tracked)
          (
            accessed-IsLinked h key i tracked now,
            refl,
            keys_of-append (accessed i now l.access_list) (without i l.access_list)
                ∙ ap₂ (λ a b. a ++ b) (keys_of-accessed h key i tracked now)
                    (keys_of-tracked h key i tracked),
          )
  ]
  step-Matches (removing key) = elim (Option-cases (lookup key l.entries)) [
    | inl untracked ↦
        rw (free, sym (contains-has_key h key) ∙ untracked_key key untracked, untracked)
          (h, refl, refl)
    | inr (i, tracked) ↦
        rw (free, sym (contains-has_key h key) ∙ tracked_key key i tracked, tracked)
          (without-IsLinked h key i tracked, refl, keys_of-tracked h key i tracked)
  ]

-- The keys that SelectForEviction chooses, where the state is there.
abbrev pub selected : Dict Entry → Option LruEviction → Option (List Str)
selected current none = none
selected current (some l) = some (select_for_eviction current l)

-- From the least recently used key to the most recently used one, those that the cache still has.
abbrev pub oldest_first : Dict Entry → Option (List Str) → Option (List Str)
oldest_first current none = none
oldest_first current (some ks) = some (keep_if (λ key. contains key current) (reverse ks))

module _ (current : Dict Entry) where
  go_on :
      (es : List Event) (o : Option LruEviction) (o' : Option (List Str))
      → Matches o o'
      → ((l : LruEviction)
          → IsLinked l.entries l.access_list l.next
          → l.locked ≡ false
          → selected current (run es l)
            ≡ oldest_first current (run_recency es (keys_of l.access_list)))
      → selected current (elim o as (λ _. Option LruEviction) [ none ↦ none | some l' ↦ run es l' ])
        ≡ oldest_first current
            (elim o' as (λ _. Option (List Str)) [ none ↦ none | some ks ↦ run_recency es ks ])
  go_on es none none m later = refl
  go_on es (some l) (some ks) (linked, unlocked, same) later =
      later l linked unlocked ∙ ap (λ x. oldest_first current (run_recency es x)) same
  go_on es none (some ks) m later = elim m [ ]
  go_on es (some l) none m later = elim m [ ]

  run-recency :
      (es : List Event) (l : LruEviction)
      → IsLinked l.entries l.access_list l.next
      → l.locked ≡ false
      → selected current (run es l) ≡ oldest_first current (run_recency es (keys_of l.access_list))
  unfolding run select_for_eviction
  run-recency [] l h free = refl
  run-recency (e ∷ es) l h free =
      go_on es (step e l) (recency_step e (keys_of l.access_list)) (step-Matches l h free e)
        (λ l' h' free'. run-recency es l' h' free')

IsLinked-new : IsLinked [] [] 0
unfolding lookup
IsLinked-new = record {
  keyed = λ e m. elim m [ ];
  held = λ key i there. absurd (ground arith);
  alone = λ e e' m m'. elim m [ ];
  fresh = λ e m. elim m [ ];
}

-- After any calls of a new LRU strategy, the map, the addresses and the list together do what a
-- plain list of keys does on which an addition and an access put the key in front and a removal
-- takes it off: SelectForEviction chooses the keys that the cache still has, the least recently used
-- first, or an addition of a tracked key has locked the strategy up.
pub run_recency_lem :
    (es : List Event) (current : Dict Entry)
    → selected current (run es new_lru) ≡ oldest_first current (run_recency es [])
run_recency_lem es current = run-recency current es new_lru IsLinked-new refl
