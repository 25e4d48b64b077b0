-- ===== src/Oci/Eviction.antt =====
-- oci/internal/cache/eviction.go: SizeEviction, TTLEviction and CompositeEviction. The cache is an
-- association list in the order of the run's `range`; a candidate key stands with its entry. The
-- clock is read once, `now`. sort.Slice is a parameter. Sizes are int64 bit patterns.
pub mod Size
pub mod Ttl
pub mod Composite
use catalyst_forge_libs.Common.{
  ℕ, ◌+◌, Bool, true, false, Option, none, some, List, [], ◌∷◌, ◌++◌, Str, ltb, ◌==◌, length,
  keep_if, some_pass, str_eq, if◌then◌else◌,
}
use catalyst_forge_libs.Common.Dict.{Dict}
use catalyst_forge_libs.Common.Sort.{SortSlice}
use catalyst_forge_libs.Common.Words.{add64, sub64, leb_signed}
use catalyst_forge_libs.Oci.Entry.{Entry, is_expired, entry_size}

abbrev pub Candidate : Type 0
Candidate = Str × Entry

abbrev pub keys : List Candidate → List Str
keys [] = []
keys ((key, e) ∷ rest) = key ∷ keys rest

unfoldable pub total_size : List Candidate → ℕ → ℕ
unfolding add64 entry_size
total_size [] total = total
total_size ((key, e) ∷ rest) total = total_size rest (add64 total (entry_size e))

-- Expired entries first, then the larger ones.
unfoldable pub evicted_before : ℕ → Candidate → Candidate → Bool
unfolding is_expired entry_size
evicted_before now (_, a) (_, b) =
    if is_expired now a
    then (if is_expired now b then ltb (entry_size b) (entry_size a) else true)
    else if is_expired now b
    then false
    else ltb (entry_size b) (entry_size a)

-- The loop that stops when enough is freed.
unfoldable pub select_until : ℕ → List Candidate → ℕ → List Str
unfolding leb_signed add64 entry_size
select_until bytes_to_free [] freed = []
select_until bytes_to_free ((key, e) ∷ rest) freed =
    let more = select_until bytes_to_free rest (add64 freed (entry_size e)) in
    if leb_signed bytes_to_free freed then [] else key ∷ more

abbrev pub expiry : Entry → ℕ
expiry e = e.created_at + e.ttl

abbrev pub expires_before : Candidate → Candidate → Bool
expires_before (_, a) (_, b) = ltb (expiry a) (expiry b)

module _ (sorter : SortSlice Candidate) (now : ℕ) where
  -- SizeEviction.SelectForEviction
  unfoldable pub size_select : ℕ → Dict Entry → List Str
  unfolding total_size evicted_before select_until leb_signed sub64
  size_select max_size_bytes entries =
      let total = total_size entries 0 in
      if leb_signed total max_size_bytes
      then []
      else select_until (sub64 total max_size_bytes) (sorter.sort (evicted_before now) entries) 0

  -- TTLEviction.SelectForEviction
  unfoldable pub ttl_select : Dict Entry → List Str
  unfolding is_expired
  ttl_select entries = keys (sorter.sort expires_before (keep_if (λ c. is_expired now c.1) entries))

-- EvictionStrategy, on a state `W`.
pub record EvictionStrategy (W : Type 0) : Type 0 where
  pub select_for_eviction : Dict Entry → W → List Str
  pub on_access : Entry → W → W
  pub on_add : Entry → W → W
  pub on_remove : Entry → W → W

-- The priorities are only compared with each other; none is below 0.
pub record CompositeEviction (W : Type 0) : Type 0 where
  pub strategies : List (EvictionStrategy W)
  pub priorities : List ℕ

-- The constructor panics where the lengths differ: `none`.
unfoldable pub new_composite :
    {W : Type 0} → List (EvictionStrategy W) → List ℕ → Option (CompositeEviction W)
new_composite strategies priorities =
    if length strategies == length priorities
    then some (record { strategies = strategies; priorities = priorities })
    else none

-- `selected` holds the keys of `result`, so the test reads `result`.
unfoldable pub add_candidates : List Str → List Str → List Str
add_candidates [] result = result
add_candidates (key ∷ keys) result =
    add_candidates keys
      (if some_pass (λ j. str_eq j key) result then result else result ++ key ∷ [])

module _ {W : Type 0} where
  -- c.priorities[i] for each i; the constructor has seen to it that none is missing.
  unfoldable pub pairs_of : List (EvictionStrategy W) → List ℕ → List (EvictionStrategy W × ℕ)
  pairs_of [] priorities = []
  pairs_of (s ∷ strategies) [] = []
  pairs_of (s ∷ strategies) (p ∷ priorities) = (s, p) ∷ pairs_of strategies priorities

  abbrev pub before : EvictionStrategy W × ℕ → EvictionStrategy W × ℕ → Bool
  before a b = ltb a.1 b.1

  unfoldable pub collect : List (EvictionStrategy W × ℕ) → Dict Entry → W → List Str → List Str
  unfolding add_candidates
  collect [] entries w result = result
  collect ((s, p) ∷ pairs) entries w result =
      collect pairs entries w (add_candidates (s.select_for_eviction entries w) result)

  -- CompositeEviction.SelectForEviction
  unfoldable pub composite_select :
      SortSlice (EvictionStrategy W × ℕ) → CompositeEviction W → Dict Entry → W → List Str
  unfolding pairs_of collect
  composite_select sorter c entries w =
      collect (sorter.sort before (pairs_of c.strategies c.priorities)) entries w []

  unfoldable pub notify : (EvictionStrategy W → W → W) → List (EvictionStrategy W) → W → W
  notify tell [] w = w
  notify tell (s ∷ strategies) w = notify tell strategies (tell s w)

  -- CompositeEviction as a strategy.
  unfoldable pub composite :
      SortSlice (EvictionStrategy W × ℕ) → CompositeEviction W → EvictionStrategy W
  unfolding composite_select notify
  composite sorter c = record {
    select_for_eviction = composite_select sorter c;
    on_access = λ e. notify (λ s. s.on_access e) c.strategies;
    on_add = λ e. notify (λ s. s.on_add e) c.strategies;
    on_remove = λ e. notify (λ s. s.on_remove e) c.strategies;
  }
