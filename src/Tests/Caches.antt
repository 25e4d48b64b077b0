-- ===== src/Tests/Caches.antt =====
-- Examples for oci/internal/cache.
use catalyst_forge_libs.Common.{
  ℕ, suc, ◌<◌, ◌≤◌, true, false, none, some, List, [], ◌∷◌, ◌≡◌, ◌↔◌, ◌⊎◌, refl, arith, codes, take,
  drop, str_eq,
}
use catalyst_forge_libs.Common.Dict.{Dict, contains}
use catalyst_forge_libs.Common.Sort.{by_insertion, Shuffle, IsOrdered}
use catalyst_forge_libs.Oci.Entry.{Entry, entry_size}
use catalyst_forge_libs.Oci.Lru.{LruEviction, on_add, new_lru}
use catalyst_forge_libs.Oci.Lru.Deadlock.{on_add_deadlock}
use catalyst_forge_libs.Oci.Lru.Recency.{adding, accessing, run, selected, run_recency_lem}
use catalyst_forge_libs.Oci.Eviction.{Candidate, keys, evicted_before, size_select}
use catalyst_forge_libs.Oci.Eviction.Size.{bytes_of, size_select_lem}

abbrev page : Entry
page = record {
  key = codes "a";
  content = codes "12345";
  metadata = [];
  created_at = 10;
  accessed_at = 10;
  ttl = 5;
  access_count = 0;
}

abbrev tracking : LruEviction
tracking = record {
  locked = false;
  entries = (codes "a", 0) ∷ [];
  access_list = (record { address = 0; key = codes "a"; entry = page }) ∷ [];
  next = 1;
}

on_add_deadlock_example :
    (on_add page 12 tracking ≡ none) ↔ (contains (codes "a") tracking.entries ≡ true)
on_add_deadlock_example = (on_add_deadlock page 12 tracking refl).0

abbrev note : Entry
note = record page { key = codes "b"; ttl = 0 }

abbrev cache : Dict Entry
cache = (codes "a", page) ∷ (codes "b", note) ∷ []

-- The access moves "a" in front of "b", so "b" goes first.
run_recency_lem_example :
    selected cache (run (adding page 1 ∷ adding note 2 ∷ accessing (codes "a") 3 ∷ []) new_lru)
    ≡ some (codes "b" ∷ codes "a" ∷ [])
unfolding contains str_eq
run_recency_lem_example =
    run_recency_lem (adding page 1 ∷ adding note 2 ∷ accessing (codes "a") 3 ∷ []) cache

size_select_lem_example :
    (sorted : List Candidate) × (n : ℕ) × Shuffle sorted cache
    × IsOrdered (evicted_before 90) sorted
    × (size_select (by_insertion Candidate) 90 100 cache ≡ keys (take n sorted))
    × (bytes_of (drop n sorted) ≤ 100)
    × ((n ≡ 0) ⊎ ((m : ℕ) × (n ≡ suc m) × (100 < bytes_of (drop m sorted))))
unfolding entry_size
size_select_lem_example =
    size_select_lem (by_insertion Candidate) 90 100 cache (omega arith) (omega arith)
