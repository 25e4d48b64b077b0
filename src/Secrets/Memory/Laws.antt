-- ===== src/Secrets/Memory/Laws.antt =====
-- The operations of the memory provider refine a partial function from path and version to secret,
-- and keep the store free of paths without versions.
use catalyst_forge_libs.Common.{
  ℕ, Bool, true, false, Option, none, some, [], ◌∷◌, ◌≡◌, refl, ◌≢◌, ◌↔◌, arith, Str, is_empty,
  if◌then◌else◌, str_eq_iff, inl, inr, Option-cases,
}
use catalyst_forge_libs.Common.Dict.{Dict, lookup, insert, remove, lookup-insert, lookup-remove}
use catalyst_forge_libs.Secrets.Types.{Secret, SecretRef, Result, ok, err, cancelled}
use catalyst_forge_libs.Secrets.Memory.{
  Store, new, copy_secret, version_of, versions_at, new_secret, resolve, exist, store, delete,
  rotate, rotated_version, rotated_size,
}
use catalyst_forge_libs.Secrets.Memory.View.{view, updated, view-store, view-delete}

-- What a caller of Resolve gets of a secret that the abstract map holds.
abbrev pub answer : Result Secret → Option Secret
answer (ok s) = some s
answer (err e) = none

abbrev pub copied : Option Secret → Option Secret
copied none = none
copied (some s) = some (copy_secret s)

abbrev pub present : Option Secret → Bool
present none = false
present (some s) = true

module _ (ref : SecretRef) (p : Store) where
  resolve-view : answer (resolve false ref p) ≡ copied (view p ref.path (version_of ref))
  unfolding resolve view
  resolve-view = ground arith

  exist-view : exist false ref p ≡ ok (present (view p ref.path (version_of ref)))
  unfolding exist view
  exist-view = ground arith

  delete_succeeds : ((delete false ref p).0 ≡ none) ↔ (view p ref.path (version_of ref) ≢ none)
  unfolding delete view
  delete_succeeds = ground arith

  delete_fails : view p ref.path (version_of ref) ≡ none → (delete false ref p).1 ≡ p
  unfolding delete view
  delete_fails h = ground arith

  delete_removes :
      (q w : Str)
      → view (delete false ref p).1 q w ≡ updated (view p) ref.path (version_of ref) none q w
  delete_removes q w = elim (Option-cases (view p ref.path (version_of ref))) [
    | inl absent ↦
        rw (delete_fails absent)
          (ground (arith, absent, str_eq_iff ref.path q, str_eq_iff (version_of ref) w))
    | inr (s, held) ↦ view-delete ref p q w (delete_succeeds.1 λ none_there. cc)
  ]

operations_not_cancelled :
    (ref : SecretRef) (value : Str) (now : ℕ) (p : Store)
    → (answer (resolve false ref p) ≡ copied (view p ref.path (version_of ref)))
      × (exist false ref p ≡ ok (present (view p ref.path (version_of ref))))
      × ((q w : Str)
          → view (store false ref value now p).1 q w
            ≡ updated
                (view p)
                ref.path
                (version_of ref)
                (some (new_secret (version_of ref) value now))
                q
                w)
      × ((q w : Str)
          → view (delete false ref p).1 q w ≡ updated (view p) ref.path (version_of ref) none q w)
      × (((delete false ref p).0 ≡ none) ↔ (view p ref.path (version_of ref) ≢ none))
operations_not_cancelled ref value now p = (
  resolve-view ref p,
  exist-view ref p,
  view-store ref p value now,
  delete_removes ref p,
  delete_succeeds ref p,
)

-- The four operations, seen through `view`. Where the context is not cancelled, Resolve and Exists read it at
-- the path and version of the reference, Store and Delete change it there and nowhere else, and Delete
-- reports success exactly where there was something to delete. Where it is cancelled, Resolve and Exists
-- answer an error, and Store and Delete change nothing and report none of it as a success.
pub operations_refine_view :
    (stopped : Bool) (ref : SecretRef) (value : Str) (now : ℕ) (p : Store)
    → (answer (resolve stopped ref p)
        ≡ (if stopped then none else copied (view p ref.path (version_of ref))))
      × (exist stopped ref p
          ≡ (if stopped then err cancelled else ok (present (view p ref.path (version_of ref)))))
      × ((q w : Str)
          → view (store stopped ref value now p).1 q w ≡ (
              if stopped
              then view p q w
              else updated
                  (view p)
                  ref.path
                  (version_of ref)
                  (some (new_secret (version_of ref) value now))
                  q
                  w))
      × ((store stopped ref value now p).0 ≡ (if stopped then some cancelled else none))
      × ((q w : Str)
          → view (delete stopped ref p).1 q w
            ≡ (if stopped then view p q w else updated (view p) ref.path (version_of ref) none q w))
      × (((delete stopped ref p).0 ≡ none)
          ↔ ((stopped ≡ false) × (view p ref.path (version_of ref) ≢ none)))
unfolding resolve exist store delete
operations_refine_view false ref value now p =
    let (reads, exists, stores, deletes, succeeds) = operations_not_cancelled ref value now p in
    (reads, exists, stores, refl, deletes, (λ h. (refl, succeeds.0 h), λ h. succeeds.1 h.1))
operations_refine_view true ref value now p = (
  refl,
  refl,
  λ q w. refl,
  refl,
  λ q w. refl,
  (λ h. absurd (ground arith), λ h. absurd (ground (arith, h.0))),
)

-- Every path that is in the store has a version.
pub record IsTidy (p : Store) : Type 0 where
  pub has_version :
      (q : Str) (versions : Dict Secret) → lookup q p ≡ some versions → is_empty versions ≡ false

insert-ne-empty {ℓ} : {V : Type ℓ} (k : Str) (v : V) (m : Dict V) → is_empty (insert k v m) ≡ false
unfolding insert
insert-ne-empty k v [] = refl
insert-ne-empty k v (e ∷ m) = ground arith

insert-IsTidy :
    (q : Str) (versions : Dict Secret) (p : Store)
    → is_empty versions ≡ false
    → IsTidy p
    → IsTidy (insert q versions p)
insert-IsTidy q versions p h t = record {
  has_version = λ r vs found. ground (arith, lookup-insert q r versions p, t.has_version r vs);
}

remove-IsTidy : (q : Str) (p : Store) → IsTidy p → IsTidy (remove q p)
remove-IsTidy q p t = record {
  has_version = λ r vs found. ground (arith, lookup-remove q r p, t.has_version r vs);
}

module _ (ref : SecretRef) (p : Store) (t : IsTidy p) where
  store-IsTidy : (c : Bool) (value : Str) (now : ℕ) → IsTidy (store c ref value now p).1
  unfolding store
  store-IsTidy true value now = t
  store-IsTidy false value now =
      insert-IsTidy ref.path _ p (insert-ne-empty (version_of ref) _ (versions_at ref.path p)) t

  delete-IsTidy : (c : Bool) → IsTidy (delete c ref p).1
  unfolding delete
  delete-IsTidy true = t
  delete-IsTidy false = record {
    has_version = λ q versions found. ground (
      arith,
      t.has_version q versions,
      lookup-remove ref.path q p,
      lookup-insert ref.path q (remove (version_of ref) (versions_at ref.path p)) p,
    );
  }

  rotate-IsTidy :
      (rand_read : ℕ → Option Str) (c : Bool) (nanos now : ℕ)
      → IsTidy (rotate rand_read c ref nanos now p).1
  unfolding rotate
  rotate-IsTidy rand_read true nanos now = t
  rotate-IsTidy rand_read false nanos now = elim (Option-cases (lookup ref.path p)) [
    | inl absent ↦ rw (absent, rotate) t
    | inr (versions, held) ↦ elim (Option-cases (rand_read (rotated_size versions))) [
      | inl failed ↦ rw (held, failed, rotate) t
      | inr (bytes, read) ↦
          rw (held, read, rotate)
            (insert-IsTidy ref.path _ p (insert-ne-empty (rotated_version nanos) _ versions) t)
    ]
  ]

-- Store, Delete and Rotate, cancelled or not, failing or not, keep every path of the store with at
-- least one version under it.
pub operations-IsTidy :
    (ref : SecretRef) (p : Store) (c : Bool)
    → IsTidy p
    → ((value : Str) (now : ℕ) → IsTidy (store c ref value now p).1)
      × IsTidy (delete c ref p).1
      × ((rand_read : ℕ → Option Str) (nanos now : ℕ)
          → IsTidy (rotate rand_read c ref nanos now p).1)
operations-IsTidy ref p c t = (
  store-IsTidy ref p t c,
  delete-IsTidy ref p t c,
  λ rand_read. rotate-IsTidy ref p t rand_read c,
)

pub IsTidy-new : IsTidy new
unfolding lookup
IsTidy-new = record { has_version = λ q versions found. cc }
