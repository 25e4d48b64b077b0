-- ===== src/Secrets/Memory/Ends.antt =====
-- Rotate and Close of the memory provider.
use catalyst_forge_libs.Common.{
  ℕ, false, Option, none, some, List, [], ◌∷◌, ◌≡◌, refl, arith, Str, str_eq_iff, inl, inr,
  Option-cases, All, All-append, if◌then◌else◌,
}
use catalyst_forge_libs.Common.Dict.{
  Dict, lookup, insert, remove, contains, lookup-insert, lookup-remove,
}
use catalyst_forge_libs.Secrets.Types.{Secret, SecretRef, ok}
use catalyst_forge_libs.Secrets.Secret.{clear, zero_out_zeros}
use catalyst_forge_libs.Secrets.Memory.{
  Store, copy_secret, rotated_version, rotated_size, rotate, close_versions, close_paths, close,
}
use catalyst_forge_libs.Secrets.Memory.View.{view, updated}

-- A cleared memory: nothing, or zeros alone.
abbrev pub IsZeroed : Option Str → Type 0
IsZeroed none = Unit
IsZeroed (some bytes) = All (λ b. b ≡ 0) bytes

clear-IsZeroed : (s : Secret) → IsZeroed (clear s).1
unfolding clear
clear-IsZeroed s = elim (Option-cases s.value) [
  | inl empty ↦ rw (empty, clear) tt
  | inr (bytes, held) ↦ rw (held, clear) (zero_out_zeros bytes)
]

close_versions-IsZeroed :
    (rest versions : Dict Secret) (memory : List (Option Str))
    → All IsZeroed memory
    → All IsZeroed (close_versions rest versions memory).1
unfolding close_versions
close_versions-IsZeroed [] versions memory h = h
close_versions-IsZeroed ((version, secret) ∷ rest) versions memory h =
    close_versions-IsZeroed rest (remove version versions) _
      (All-append IsZeroed memory _ h (clear-IsZeroed secret, tt))

close_paths-IsZeroed :
    (entries p : Store) (memory : List (Option Str))
    → All IsZeroed memory
    → All IsZeroed (close_paths entries p memory).1
unfolding close_paths
close_paths-IsZeroed [] p memory h = h
close_paths-IsZeroed ((path, versions) ∷ rest) p memory h =
    close_paths-IsZeroed rest (remove path p) _ (close_versions-IsZeroed versions versions memory h)

lookup-close_paths :
    (q : Str) (entries p : Store) (memory : List (Option Str))
    → lookup q (close_paths entries p memory).0 ≡ (if contains q entries then none else lookup q p)
unfolding close_paths contains lookup
lookup-close_paths q [] p memory = refl
lookup-close_paths q ((path, versions) ∷ rest) p memory = ground (
  arith,
  lookup-close_paths q rest (remove path p) (close_versions versions versions memory).1,
  lookup-remove path q p,
)

-- Close leaves no path in the store, and only zeros in the memory of the secrets that it held.
pub close_clears :
    (p : Store) → ((q : Str) → lookup q (close p).0 ≡ none) × All IsZeroed (close p).1
unfolding close contains
close_clears p = (λ q. ground (arith, lookup-close_paths q p p []), close_paths-IsZeroed p p [] tt)

module _ (rand_read : ℕ → Option Str) (ref : SecretRef) (nanos now : ℕ) (p : Store) where
  -- A Rotate that returns a secret returns a copy of what it has put under the new version, and
  -- every other version of every path is as it was, the latest one too.
  pub rotate_adds_version :
      (s : Secret)
      → (rotate rand_read false ref nanos now p).0 ≡ ok s
      → (fresh : Secret) × (s ≡ copy_secret fresh)
        × (fresh.version ≡ rotated_version nanos)
        × ((q w : Str)
            → view (rotate rand_read false ref nanos now p).1 q w
              ≡ updated (view p) ref.path (rotated_version nanos) (some fresh) q w)
  unfolding rotate view
  rotate_adds_version s h = elim (Option-cases (lookup ref.path p)) [
    | inl absent ↦ absurd (ground arith)
    | inr (versions, held) ↦ elim (Option-cases (rand_read (rotated_size versions))) [
      | inl failed ↦ absurd (ground arith)
      | inr (bytes, read) ↦
          let fresh : Secret = record {
            value = some bytes;
            version = rotated_version nanos;
            created_at = now;
            expires_at = none;
            auto_clear = false;
          } in
          (
            fresh,
            ground arith,
            refl,
            λ q w.
                rw (held, read, rotate)
                  (ground (
                    arith,
                    str_eq_iff ref.path q,
                    lookup-insert ref.path q (insert (rotated_version nanos) fresh versions) p,
                    lookup-insert (rotated_version nanos) w fresh versions,
                  )),
          )
    ]
  ]
