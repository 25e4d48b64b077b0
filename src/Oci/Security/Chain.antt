-- ===== src/Oci/Security/Chain.antt =====
-- ValidatorChain and PermissionSanitizer of oci/security.go.
use catalyst_forge_libs.Common.{
  ℕ, ◌+◌, Option, none, some, List, [], ◌∷◌, ◌≡◌, ◌↔◌, ◌⊎◌, refl, arith, inl, inr, Str, All,
}
use catalyst_forge_libs.Oci.Security.{
  FileInfo, ArchiveStats, SecurityError, path_failed, file_failed, Validator, setuid, setgid,
  permission_sanitizer, sanitize_permissions, first_error, validator_chain,
}

-- Some validator fails with `e`, and all before it pass.
abbrev pub FirstFails : (Validator → Option SecurityError) → List Validator → SecurityError → Type 0
FirstFails check [] e = ⊥
FirstFails check (v ∷ vs) e = (check v ≡ some e) ⊎ ((check v ≡ none) × FirstFails check vs e)

module _ (check : Validator → Option SecurityError) (wrap : SecurityError → SecurityError) where
  first_error-none :
      (vs : List Validator) → (first_error check wrap vs ≡ none) ↔ All (λ v. check v ≡ none) vs
  unfolding first_error
  first_error-none [] = (λ h. tt, λ h. refl)
  first_error-none (v ∷ vs) =
      let ih = first_error-none vs in
      (λ h. (ground arith, ih.0 (ground arith)), λ h. ground (arith, ih.1 h.1))

  first_error-some :
      (vs : List Validator) (e : SecurityError)
      → FirstFails check vs e
      → first_error check wrap vs ≡ some (wrap e)
  unfolding first_error
  first_error-some [] e h = absurd h
  first_error-some (v ∷ vs) e (inl fails) = rw (first_error, fails) refl
  first_error-some (v ∷ vs) e (inr (passes, later)) =
      rw (first_error, passes) (first_error-some vs e later)

-- Each method of a chain passes exactly where every validator of the chain passes.
pub validator_chain_passes :
    (vs : List Validator) (path : Str) (info : FileInfo) (stats : ArchiveStats)
    → (((validator_chain vs).validate_path path ≡ none) ↔ All (λ v. v.validate_path path ≡ none) vs)
      × (((validator_chain vs).validate_file info ≡ none)
          ↔ All (λ v. v.validate_file info ≡ none) vs)
      × (((validator_chain vs).validate_archive stats ≡ none)
          ↔ All (λ v. v.validate_archive stats ≡ none) vs)
unfolding validator_chain
validator_chain_passes vs path info stats =
    (first_error-none _ _ vs, first_error-none _ _ vs, first_error-none _ _ vs)

-- Where a validator of a chain refuses a path or a file and all before it pass, the chain answers with
-- the refusal of that validator, wrapped with the path or the name of the file.
pub validator_chain_fails :
    (vs : List Validator) (path : Str) (info : FileInfo) (e f : SecurityError)
    → FirstFails (λ v. v.validate_path path) vs e
    → FirstFails (λ v. v.validate_file info) vs f
    → ((validator_chain vs).validate_path path ≡ some (path_failed path e))
      × ((validator_chain vs).validate_file info ≡ some (file_failed info.name f))
unfolding validator_chain
validator_chain_fails vs path info e f h k =
    (first_error-some _ _ vs e h, first_error-some _ _ vs f k)

-- SanitizePermissions takes the setuid and the setgid bit away and no other, and the sanitizer
-- accepts a file exactly where that changes nothing.
pub sanitize_permissions_lem :
    (mode : ℕ)
    → (sanitize_permissions mode + setuid mode + setgid mode ≡ mode)
      × (setuid (sanitize_permissions mode) ≡ 0)
      × (setgid (sanitize_permissions mode) ≡ 0)
      × ((name : Str) (size : ℕ)
          → (permission_sanitizer.validate_file (record { name = name; size = size; mode = mode })
              ≡ none)
            ↔ (sanitize_permissions mode ≡ mode))
unfolding sanitize_permissions permission_sanitizer
sanitize_permissions_lem mode = (omega arith, omega arith, omega arith, λ name size. ground arith)
