-- ===== src/Secrets/Manager/Routing.antt =====
-- How the managers pass a request to a provider and its answer to the caller.
use catalyst_forge_libs.Common.{
  Bool, false, Option, none, some, List, [], ◌∷◌, ◌≡◌, refl, arith, Str, is_empty,
}
use catalyst_forge_libs.Common.Dict.{Dict, lookup}
use catalyst_forge_libs.Secrets.Types.{
  Secret, SecretRef, Action, Error, ok, err, provider_error, provider_not_found, no_write_support,
}
use catalyst_forge_libs.Secrets.Provider.{Provider, Writer, Rotator, rotatable, World, writer_of}
use catalyst_forge_libs.Secrets.Manager.{
  Manager, batch_ref, deliver_all, resolve_from, resolve_batch_from, exists_from, store_in,
  delete_from, rotate_in,
}

-- A secret with its AutoClear set.
abbrev pub with_auto_clear : Bool → Option Secret → Option Secret
with_auto_clear b none = none
with_auto_clear b (some s) = some (record s { auto_clear = b })

abbrev pub each {ℓ κ} : {A : Type ℓ} {B : Type κ} → (A → B) → Option A → Option B
each f none = none
each f (some a) = some (f a)

module _ {W : Type 0} (m : Manager W) (name : Str) (w : World W) where
  -- With no provider under the name, which is not empty, the six operations that name one change no
  -- provider's state and return the error that says so.
  pub unknown_provider :
      (ref : SecretRef) (refs : List SecretRef) (value : Str)
      → is_empty name ≡ false
      → lookup name m.providers ≡ none
      → ((resolve_from m name ref w).0 ≡ err (provider_not_found name))
        × ((resolve_from m name ref w).1.state ≡ w.state)
        × (resolve_batch_from m name refs w ≡ (err (provider_not_found name), w))
        × (exists_from m name ref w ≡ (err (provider_not_found name), w))
        × ((store_in m name ref value w).0 ≡ some (provider_not_found name))
        × ((store_in m name ref value w).1.state ≡ w.state)
        × ((delete_from m name ref w).0 ≡ some (provider_not_found name))
        × ((delete_from m name ref w).1.state ≡ w.state)
        × ((rotate_in m name ref w).0 ≡ err (provider_not_found name))
        × ((rotate_in m name ref w).1.state ≡ w.state)
  unfolding resolve_from resolve_batch_from exists_from store_in delete_from rotate_in
  unknown_provider ref refs value named absent = (
    ground arith,
    ground arith,
    ground arith,
    ground arith,
    ground arith,
    ground arith,
    ground arith,
    ground arith,
    ground arith,
    ground arith,
  )

  -- Where the provider under the name, which is not empty, is not writeable, Store and Delete are
  -- refused, with no change of the provider's state.
  pub write_unsupported :
      (ref : SecretRef) (value : Str) (p : Provider W)
      → is_empty name ≡ false
      → lookup name m.providers ≡ some p
      → writer_of p.access ≡ none
      → ((store_in m name ref value w).0 ≡ some (no_write_support name))
        × ((store_in m name ref value w).1.state ≡ w.state)
        × ((delete_from m name ref w).0 ≡ some (no_write_support name))
        × ((delete_from m name ref w).1.state ≡ w.state)
  unfolding store_in delete_from
  write_unsupported ref value p named there h =
      (ground arith, ground arith, ground arith, ground arith)

  deliver_all-lookup :
      (q : Str) (results : Dict (Option Secret))
      → lookup q (deliver_all m results) ≡ each (with_auto_clear m.auto_clear) (lookup q results)
  unfolding lookup deliver_all
  deliver_all-lookup q [] = refl
  deliver_all-lookup q ((k, none) ∷ rest) = ground (arith, deliver_all-lookup q rest)
  deliver_all-lookup q ((k, some s) ∷ rest) = ground (arith, deliver_all-lookup q rest)

  -- What the provider under the name, which is not empty, answers reaches the caller of ResolveFrom
  -- and ResolveBatchFrom with the manager's AutoClear in every secret and nothing else changed.
  pub provider_answers :
      (ref : SecretRef) (refs : List SecretRef) (p : Provider W) (o : Option Secret)
      (results : Dict (Option Secret))
      → is_empty name ≡ false
      → lookup name m.providers ≡ some p
      → (p.resolve ref w.state).0 ≡ ok o
      → (p.resolve_batch refs w.state).0 ≡ ok results
      → ((resolve_from m name ref w).0 ≡ ok (with_auto_clear m.auto_clear o))
        × ((resolve_from m name ref w).1.state ≡ (p.resolve ref w.state).1)
        × ((answers : Dict (Option Secret)) × ((resolve_batch_from m name refs w).0 ≡ ok answers)
            × ((q : Str)
                → lookup q answers ≡ each (with_auto_clear m.auto_clear) (lookup q results)))
        × ((resolve_batch_from m name refs w).1.state ≡ (p.resolve_batch refs w.state).1)
  unfolding resolve_from resolve_batch_from
  provider_answers ref refs p o results named there answered batch = (
    ground arith,
    ground arith,
    (deliver_all m results, ground arith, λ q. deliver_all-lookup q results),
    ground arith,
  )

  -- Where each of the six requests fails at the provider under the name, which is not empty and which
  -- can write and rotate, that failure reaches the caller of each operation wrapped with what was
  -- being done, the provider's name and the reference, that of a batch the one for the whole batch.
  pub provider_failures :
      (ref : SecretRef) (refs : List SecretRef) (value : Str) (p : Provider W) (writer : Writer W)
      (rotator : Rotator W) (e : Error)
      → is_empty name ≡ false
      → lookup name m.providers ≡ some p
      → p.access ≡ rotatable writer rotator
      → (p.resolve ref w.state).0 ≡ err e
      → (p.resolve_batch refs w.state).0 ≡ err e
      → (p.exist ref w.state).0 ≡ err e
      → (writer.store ref value w.state).0 ≡ some e
      → (writer.delete ref w.state).0 ≡ some e
      → (rotator.rotate ref w.state).0 ≡ err e
      → ((resolve_from m name ref w).0 ≡ err (provider_error Action.resolve name ref e))
        × ((resolve_batch_from m name refs w).0
            ≡ err (provider_error Action.batch name batch_ref e))
        × ((exists_from m name ref w).0 ≡ err (provider_error Action.exist name ref e))
        × ((store_in m name ref value w).0 ≡ some (provider_error Action.store name ref e))
        × ((delete_from m name ref w).0 ≡ some (provider_error Action.delete name ref e))
        × ((rotate_in m name ref w).0 ≡ err (provider_error Action.rotate name ref e))
  unfolding resolve_from resolve_batch_from exists_from store_in delete_from rotate_in
  provider_failures ref refs value p writer rotator e named there can r b x s d t =
      (ground arith, ground arith, ground arith, ground arith, ground arith, ground arith)
