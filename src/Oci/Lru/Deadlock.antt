-- ===== src/Oci/Lru/Deadlock.antt =====
-- OnAdd of LRUEviction in oci/internal/cache/eviction.go and its lock.
use catalyst_forge_libs.Common.{ℕ, true, false, Option, none, some, ◌≡◌, ◌≢◌, ◌↔◌, arith, Str}
use catalyst_forge_libs.Common.Dict.{contains}
use catalyst_forge_libs.Oci.Entry.{Entry}
use catalyst_forge_libs.Oci.Lru.{LruEviction, on_access, on_add, on_remove}

-- What returns has released the lock.
abbrev pub IsReleased : Option LruEviction → Type 0
IsReleased none = Unit
IsReleased (some l) = l.locked ≡ false

-- From an unlocked state, OnAdd waits forever exactly where its key is tracked already; OnAccess and
-- OnRemove always return, and whatever returns has released the lock.
pub on_add_deadlock :
    (e : Entry) (now : ℕ) (l : LruEviction)
    → l.locked ≡ false
    → ((on_add e now l ≡ none) ↔ (contains e.key l.entries ≡ true))
      × ((key : Str) → on_access key now l ≢ none)
      × ((key : Str) → on_remove key l ≢ none)
      × IsReleased (on_add e now l)
      × ((key : Str) → IsReleased (on_access key now l))
      × ((key : Str) → IsReleased (on_remove key l))
unfolding on_add on_access on_remove
on_add_deadlock e now l free = (
  ground arith,
  λ key. ground arith,
  λ key. ground arith,
  ground arith,
  λ key. ground arith,
  λ key. ground arith,
)
