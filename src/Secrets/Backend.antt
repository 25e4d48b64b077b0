-- ===== src/Secrets/Backend.antt =====
-- The memory provider behind the managers: secrets/providers/memory/provider.go as an
-- implementation of secrets/core/interfaces.go.
use catalyst_forge_libs.Common.{
  ℕ, Bool, false, Option, none, some, [], ◌∷◌, ◌≡◌, refl, ◌∙◌, arith, Str, is_empty, str_eq_iff, ap,
}
use catalyst_forge_libs.Common.Dict.{Dict, lookup}
use catalyst_forge_libs.Secrets.Types.{Secret, SecretRef, Action, Result, ok, err}
use catalyst_forge_libs.Secrets.Provider.{Provider, Writer, Rotator, rotatable, World}
use catalyst_forge_libs.Secrets.Memory
use catalyst_forge_libs.Secrets.Memory.{Store, copy_slice, copy_secret, version_of}
use catalyst_forge_libs.Secrets.Memory.View.{view, view-store, find_of_view}
use catalyst_forge_libs.Secrets.Manager.{Manager, deliver, store_in, resolve_from}

abbrev pub as_pointer : Result Secret → Result (Option Secret)
as_pointer (ok s) = ok (some s)
as_pointer (err e) = err e

abbrev pub as_pointers : Dict Secret → Dict (Option Secret)
as_pointers [] = []
as_pointers ((k, s) ∷ rest) = (k, some s) ∷ as_pointers rest

abbrev pub as_batch : Result (Dict Secret) → Result (Dict (Option Secret))
as_batch (ok results) = ok (as_pointers results)
as_batch (err e) = err e

-- The methods of the provider, at one state of the context, the clock and the random source.
module _ (cancelled : Bool) (now nanos : ℕ) (rand_read : ℕ → Option Str) where
  unfoldable pub writer : Writer Store
  unfolding Memory.store Memory.delete
  writer = record {
    store = λ ref value p. Memory.store cancelled ref value now p;
    delete = λ ref p. Memory.delete cancelled ref p;
  }

  unfoldable pub rotator : Rotator Store
  unfolding Memory.rotate
  rotator = record {
    rotate = λ ref p.
        let (result, p') = Memory.rotate rand_read cancelled ref nanos now p in
        (as_pointer result, p');
  }

  unfoldable pub memory_provider : Provider Store
  unfolding writer rotator Memory.resolve Memory.resolve_batch Memory.exist Memory.close
  memory_provider = record {
    resolve = λ ref p. (as_pointer (Memory.resolve cancelled ref p), p);
    resolve_batch = λ refs p. (as_batch (Memory.resolve_batch cancelled refs p), p);
    exist = λ ref p. (Memory.exist cancelled ref p, p);
    close = λ p. (none, (Memory.close p).0);
    access = rotatable writer rotator;
  }

abbrev stored : SecretRef → Str → ℕ → Secret
stored ref value now = record {
  value = copy_slice (some value);
  version = version_of ref;
  created_at = now;
  expires_at = none;
  auto_clear = false;
}

resolve_of_find :
    (ref : SecretRef) (p : Store) (s : Secret)
    → Memory.find ref p ≡ ok s
    → Memory.resolve false ref p ≡ ok (copy_secret s)
unfolding Memory.resolve
resolve_of_find ref p s h = ground arith

copy-stored :
    (ref : SecretRef) (value : Str) (now : ℕ)
    → copy_secret (stored ref value now) ≡ stored ref value now
unfolding copy_secret
copy-stored ref [] now = refl
copy-stored ref (b ∷ bs) now = refl

-- The round trip at the provider alone.
resolve-store :
    (ref ref' : SecretRef) (value : Str) (now : ℕ) (p : Store)
    → ref'.path ≡ ref.path
    → version_of ref' ≡ version_of ref
    → Memory.resolve false ref' (Memory.store false ref value now p).1 ≡ ok (stored ref value now)
unfolding Memory.new_secret
resolve-store ref ref' value now p same_path same_version =
    let p' = (Memory.store false ref value now p).1 in
    let here : view p' ref'.path (version_of ref') ≡ some (stored ref value now) = ground (
      arith,
      view-store ref p value now ref'.path (version_of ref'),
      str_eq_iff ref.path ref'.path,
      str_eq_iff (version_of ref) (version_of ref'),
    ) in
    resolve_of_find ref' p' _ (find_of_view ref' p' (stored ref value now) here)
    ∙ ap ok (copy-stored ref value now)

module _ (m : Manager Store) (name : Str) (now nanos : ℕ) (rand_read : ℕ → Option Str)
    (w : World Store) where
  store_in_memory :
      (ref : SecretRef) (value : Str)
      → is_empty name ≡ false
      → lookup name m.providers ≡ some (memory_provider false now nanos rand_read)
      → ((store_in m name ref value w).0 ≡ none)
        × ((store_in m name ref value w).1.state ≡ (Memory.store false ref value now w.state).1)
  unfolding store_in memory_provider
  store_in_memory ref value named there = (ground arith, ground arith)

  resolve_from_memory :
      (ref : SecretRef)
      → is_empty name ≡ false
      → lookup name m.providers ≡ some (memory_provider false now nanos rand_read)
      → (resolve_from m name ref w).0
        ≡ deliver m Action.resolve name ref (as_pointer (Memory.resolve false ref w.state))
  unfolding resolve_from memory_provider
  resolve_from_memory ref named there = ground arith

module _ (m : Manager Store) (name : Str) (now nanos : ℕ) (rand_read : ℕ → Option Str)
    (w : World Store) where
  -- What a writeable manager stores in the memory provider under a name that is not empty, the context
  -- not being cancelled, ResolveFrom returns under that name, for every reference with the same path that means the same version: the value
  -- byte for byte (none at all where it is empty), the version, and the manager's own AutoClear.
  pub resolve_from-store_in :
      (ref ref' : SecretRef) (value : Str)
      → is_empty name ≡ false
      → lookup name m.providers ≡ some (memory_provider false now nanos rand_read)
      → ref'.path ≡ ref.path
      → version_of ref' ≡ version_of ref
      → ((store_in m name ref value w).0 ≡ none)
        × ((resolve_from m name ref' (store_in m name ref value w).1).0
            ≡ ok (
                some (record {
                  value = copy_slice (some value);
                  version = version_of ref;
                  created_at = now;
                  expires_at = none;
                  auto_clear = m.auto_clear;
                })))
  resolve_from-store_in ref ref' value named there same_path same_version = (
    (store_in_memory m name now nanos rand_read w ref value named there).0,
    resolve_from_memory m name now nanos rand_read (store_in m name ref value w).1 ref' named there
        ∙ ap (λ p. deliver m Action.resolve name ref' (as_pointer (Memory.resolve false ref' p)))
            (store_in_memory m name now nanos rand_read w ref value named there).1
        ∙ ap (λ r. deliver m Action.resolve name ref' (as_pointer r))
            (resolve-store ref ref' value now w.state same_path same_version)
        ∙ unfold deliver in refl,
  )
