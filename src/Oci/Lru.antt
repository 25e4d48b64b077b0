-- ===== src/Oci/Lru.antt =====
-- oci/internal/cache/eviction.go: LRUEviction. Its list elements have addresses, which the map
-- holds. sync.RWMutex cannot be taken twice: an operation that waits for a lock which nobody will
-- release is `none`.
pub mod Deadlock
pub mod Links
pub mod Recency
use catalyst_forge_libs.Common.{
  ℕ, suc, ◌+◌, Bool, true, false, not, Option, none, some, List, [], ◌∷◌, ◌++◌, Str, ◌==◌, keep_if,
  str_eq, if◌then◌else◌,
}
use mathlib.Core.List.{reverse}
use catalyst_forge_libs.Common.Dict.{Dict, lookup, insert, remove, contains}
use catalyst_forge_libs.Oci.Entry.{Entry}

-- A list.Element at its address, with its lruEntry. Its entry stands for what the pointer refers to, and
-- is never nil.
pub record Element : Type 0 where
  pub address : ℕ
  pub key : Str
  pub entry : Entry

-- `access_list` has its front first. `next` is the address of the next element.
pub record LruEviction : Type 0 where
  pub locked : Bool
  pub entries : Dict ℕ
  pub access_list : List Element
  pub next : ℕ

abbrev pub new_lru : LruEviction
new_lru = record { locked = false; entries = []; access_list = []; next = 0 }

-- accessList.Remove(elem)
unfoldable pub without : ℕ → List Element → List Element
without i = keep_if (λ e. not (e.address == i))

-- The element at an address, with its entry's access noted.
unfoldable pub accessed : ℕ → ℕ → List Element → List Element
accessed i now [] = []
accessed i now (e ∷ es) =
    if e.address == i
    then (record e {
      entry = record e.entry { accessed_at = now; access_count = e.entry.access_count + 1 };
    })
      ∷ []
    else accessed i now es

-- The body of OnAccess, the lock held: the element moves to the front.
unfoldable pub touch : Str → ℕ → LruEviction → LruEviction
unfolding lookup without accessed
touch key now l = elim (lookup key l.entries) [
  | none ↦ l
  | some i ↦ record l { access_list = accessed i now l.access_list ++ without i l.access_list }
]

-- Lock, body, and the deferred Unlock.
unfoldable pub with_lock : (LruEviction → Option LruEviction) → LruEviction → Option LruEviction
with_lock body l = if l.locked then none else (elim (body (record l { locked = true })) [
  | none ↦ none
  | some l' ↦ some (record l' { locked = false })
])

unfoldable pub on_access : Str → ℕ → LruEviction → Option LruEviction
unfolding with_lock touch
on_access key now = with_lock (λ l. some (touch key now l))

-- The new element in front of the list.
unfoldable pub push_front : Entry → LruEviction → LruEviction
unfolding insert
push_front e l = record l {
  entries = insert e.key l.next l.entries;
  access_list = (record { address = l.next; key = e.key; entry = e }) ∷ l.access_list;
  next = suc l.next;
}

-- A known key is handed to OnAccess while the lock is held.
unfoldable pub on_add : Entry → ℕ → LruEviction → Option LruEviction
unfolding with_lock contains on_access push_front
on_add e now =
    with_lock
      (λ l. if contains e.key l.entries then on_access e.key now l else some (push_front e l))

unfoldable pub on_remove : Str → LruEviction → Option LruEviction
unfolding with_lock lookup remove without
on_remove key = with_lock (λ l. elim (lookup key l.entries) [
  | none ↦ some l
  | some i ↦
      some (record l { entries = remove key l.entries; access_list = without i l.access_list })
])

abbrev pub keys_of : List Element → List Str
keys_of [] = []
keys_of (e ∷ es) = e.key ∷ keys_of es

-- From the back of the list to its front, the keys that the cache still has.
unfoldable pub select_for_eviction : Dict Entry → LruEviction → List Str
unfolding contains
select_for_eviction current l =
    keep_if (λ key. contains key current) (reverse (keys_of l.access_list))
