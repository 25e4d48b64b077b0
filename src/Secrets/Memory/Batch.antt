-- ===== src/Secrets/Memory/Batch.antt =====
-- ResolveBatch of the memory provider: one result for each path, of the last reference that is found.
use catalyst_forge_libs.Common.{
  false, Option, none, some, List, [], ◌∷◌, ◌≡◌, refl, ap, arith, Str, str_eq, if◌then◌else◌,
}
use catalyst_forge_libs.Common.Dict.{Dict, lookup, insert, lookup-insert}
use catalyst_forge_libs.Secrets.Types.{Secret, SecretRef, Result, ok, err}
use catalyst_forge_libs.Secrets.Memory.{
  Store, copy_secret, version_of, find, resolve_all, resolve_batch,
}
use catalyst_forge_libs.Secrets.Memory.View.{view}
use catalyst_forge_libs.Secrets.Memory.Laws.{answer, copied}

-- The secret of the last reference with the path `q` that the store holds.
abbrev pub last_held : Str → List SecretRef → Store → Option Secret
last_held q [] p = none
last_held q (ref ∷ refs) p = elim (last_held q refs p) [
  | some s ↦ some s
  | none ↦ if str_eq ref.path q then copied (view p ref.path (version_of ref)) else none
]

abbrev or_else {ℓ} : {A : Type ℓ} → Option A → Option A → Option A
or_else none b = b
or_else (some a) b = some a

abbrev put_found : Str → Result Secret → Dict Secret → Dict Secret
put_found path (ok s) results = insert path (copy_secret s) results
put_found path (err e) results = results

lookup-put_found :
    (path q : Str) (r : Result Secret) (results : Dict Secret)
    → lookup q (put_found path r results)
      ≡ (if str_eq path q then or_else (copied (answer r)) (lookup q results) else lookup q results)
lookup-put_found path q (ok s) results = rw lookup-insert (ground arith)
lookup-put_found path q (err e) results = ground arith

found_is_view :
    (ref : SecretRef) (p : Store) → answer (find ref p) ≡ view p ref.path (version_of ref)
unfolding find view
found_is_view ref p = ground arith

resolve_all-step :
    (ref : SecretRef) (refs : List SecretRef) (p : Store) (results : Dict Secret)
    → resolve_all (ref ∷ refs) p results
      ≡ resolve_all refs p (put_found ref.path (find ref p) results)
unfolding resolve_all
resolve_all-step ref refs p results = ap (λ r. resolve_all refs p r) (ground arith)

lookup-resolve_all :
    (q : Str) (refs : List SecretRef) (p : Store) (results : Dict Secret)
    → lookup q (resolve_all refs p results) ≡ or_else (last_held q refs p) (lookup q results)
lookup-resolve_all q [] p results = unfold resolve_all in refl
lookup-resolve_all q (ref ∷ refs) p results = rw resolve_all-step (
    ground (
      arith,
      lookup-resolve_all q refs p (put_found ref.path (find ref p) results),
      lookup-put_found ref.path q (find ref p) results,
      found_is_view ref p,
    ))

-- A batch that is not cancelled always succeeds. Under each path it has the secret of the last
-- reference with that path that the store holds, and nothing where it holds none.
pub resolve_batch_last_held :
    (refs : List SecretRef) (p : Store)
    → (results : Dict Secret) × (resolve_batch false refs p ≡ ok results)
      × ((q : Str) → lookup q results ≡ last_held q refs p)
unfolding resolve_batch
resolve_batch_last_held refs p =
    (resolve_all refs p [], refl, λ q. rw lookup-resolve_all (unfold lookup in ground arith))
