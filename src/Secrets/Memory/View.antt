-- ===== src/Secrets/Memory/View.antt =====
-- The memory provider against its abstract view, a partial function from path and version to secret.
use catalyst_forge_libs.Common.{
  ℕ, true, false, Option, none, some, [], ◌∷◌, ◌≡◌, refl, arith, Str, is_empty, str_eq, str_eq_iff,
  if◌then◌else◌,
}
use catalyst_forge_libs.Common.Dict.{Dict, lookup, insert, remove, lookup-insert, lookup-remove}
use catalyst_forge_libs.Secrets.Types.{Secret, SecretRef, ok, is_ok}
use catalyst_forge_libs.Secrets.Memory.{
  Store, version_of, versions_at, find, new_secret, store, delete,
}

unfoldable pub versions_view : Option (Dict Secret) → Str → Option Secret
versions_view none w = none
versions_view (some versions) w = lookup w versions

-- What the store holds at a path and a version.
unfoldable pub view : Store → Str → Str → Option Secret
unfolding versions_view
view p q w = versions_view (lookup q p) w

-- The view after one entry is written.
abbrev pub updated :
    (Str → Str → Option Secret) → Str → Str → Option Secret → Str → Str → Option Secret
updated f path version o q w =
    if str_eq path q then (if str_eq version w then o else f q w) else f q w

-- Writing the versions of one path.
view-insert_path :
    (path q w : Str) (versions : Dict Secret) (p : Store)
    → view (insert path versions p) q w ≡ (if str_eq path q then lookup w versions else view p q w)
unfolding view
view-insert_path path q w versions p = ground (arith, lookup-insert path q versions p)

view-remove_path :
    (path q w : Str) (p : Store)
    → view (remove path p) q w ≡ (if str_eq path q then none else view p q w)
unfolding view
view-remove_path path q w p = ground (arith, lookup-remove path q p)

lookup-versions_at : (path w : Str) (p : Store) → lookup w (versions_at path p) ≡ view p path w
unfolding view versions_at
lookup-versions_at path w p = ground arith

lookup_of_empty {ℓ} : {V : Type ℓ} (w : Str) (m : Dict V) → is_empty m ≡ true → lookup w m ≡ none
unfolding lookup
lookup_of_empty w [] h = refl
lookup_of_empty w (e ∷ m) h = cc

module _ (ref : SecretRef) (p : Store) where
  -- `find` is the view, with the errors of what is missing.
  pub find-eq_ok : (s : Secret) → (find ref p ≡ ok s) → view p ref.path (version_of ref) ≡ some s
  unfolding find view
  find-eq_ok s h = ground arith

  pub find_of_view : (s : Secret) → view p ref.path (version_of ref) ≡ some s → find ref p ≡ ok s
  unfolding find view
  find_of_view s h = ground arith

  pub find_of_none : view p ref.path (version_of ref) ≡ none → is_ok (find ref p) ≡ false
  unfolding find view
  find_of_none h = ground arith

  -- A Store writes its own path and version, and nothing else.
  pub view-store :
      (value : Str) (now : ℕ) (q w : Str)
      → view (store false ref value now p).1 q w
        ≡ updated
            (view p)
            ref.path
            (version_of ref)
            (some (new_secret (version_of ref) value now))
            q
            w
  unfolding store
  view-store value now q w = rw view-insert_path (
      ground (
        arith,
        str_eq_iff ref.path q,
        lookup-versions_at ref.path w p,
        lookup-insert (version_of ref) w (new_secret (version_of ref) value now)
            (versions_at ref.path p),
      ))

  -- A Delete that succeeds removes its own path and version, and nothing else.
  pub view-delete :
      (q w : Str)
      → (delete false ref p).0 ≡ none
      → view (delete false ref p).1 q w ≡ updated (view p) ref.path (version_of ref) none q w
  unfolding delete
  view-delete q w h = ground (
    arith,
    str_eq_iff ref.path q,
    lookup-versions_at ref.path w p,
    lookup-remove (version_of ref) w (versions_at ref.path p),
    view-insert_path ref.path q w (remove (version_of ref) (versions_at ref.path p)) p,
    view-remove_path ref.path q w p,
    lookup_of_empty w (remove (version_of ref) (versions_at ref.path p)),
  )
