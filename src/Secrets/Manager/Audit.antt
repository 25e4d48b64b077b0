-- ===== src/Secrets/Manager/Audit.antt =====
-- The audit log of the managers: one entry for each access that names a provider.
use catalyst_forge_libs.Common.{
  Option, some, List, [], ◌∷◌, ◌++◌, ◌≡◌, arith, Str, is_empty, ◌&&◌, if◌then◌else◌,
}
use catalyst_forge_libs.Secrets.Types.{SecretRef, Action, Error, error_of, provider_error}
use catalyst_forge_libs.Secrets.Provider.{AuditEntry, World}
use catalyst_forge_libs.Secrets.Manager.{
  Manager, entry, succeeded, resolve_from, store_in, delete_from, rotate_in,
}

-- The error before `WrapProviderError`.
abbrev pub cause : Option Error → Option Error
cause (some (provider_error action name ref e)) = some e
cause e = e

-- The log grows by one entry where auditing is on and a provider is named, and stays else.
abbrev pub audited : {W : Type 0} → Manager W → Str → World W → AuditEntry → List AuditEntry
audited m name w e =
    if is_empty name
    then w.audit
    else if m.enable_audit && m.has_logger
    then w.audit ++ e ∷ []
    else w.audit

module _ {W : Type 0} (m : Manager W) (name : Str) (ref : SecretRef) (w : World W) where
  abbrev Audits : Action → Option Error → World W → Type 0
  Audits action error after =
      after.audit ≡ audited m name w (entry action ref (succeeded error) (cause error))

  audit-resolve_from :
      Audits Action.resolve (error_of (resolve_from m name ref w).0) (resolve_from m name ref w).1
  unfolding resolve_from
  audit-resolve_from = ground arith

  audit-store_in :
      (value : Str)
      → Audits Action.store (store_in m name ref value w).0 (store_in m name ref value w).1
  unfolding store_in
  audit-store_in value = ground arith

  audit-delete_from : Audits Action.delete (delete_from m name ref w).0 (delete_from m name ref w).1
  unfolding delete_from
  audit-delete_from = ground arith

  audit-rotate_in :
      Audits Action.rotate (error_of (rotate_in m name ref w).0) (rotate_in m name ref w).1
  unfolding rotate_in
  audit-rotate_in = ground arith

  -- Whatever the providers do, each of ResolveFrom, StoreIn, DeleteFrom and RotateIn adds exactly
  -- one entry to the log where auditing is on and the provider's name is not empty, and none
  -- elsewhere. The entry has the action, the reference, whether the caller got an error, and that
  -- error without the wrapping.
  pub audit_trail :
      (value : Str)
      → ((resolve_from m name ref w).1.audit
          ≡ audited m name w (
              entry Action.resolve ref
                (succeeded (error_of (resolve_from m name ref w).0))
                (cause (error_of (resolve_from m name ref w).0))))
        × ((store_in m name ref value w).1.audit
            ≡ audited m name w (
                entry Action.store ref
                  (succeeded (store_in m name ref value w).0)
                  (cause (store_in m name ref value w).0)))
        × ((delete_from m name ref w).1.audit
            ≡ audited m name w (
                entry Action.delete ref
                  (succeeded (delete_from m name ref w).0)
                  (cause (delete_from m name ref w).0)))
        × ((rotate_in m name ref w).1.audit
            ≡ audited m name w (
                entry Action.rotate ref
                  (succeeded (error_of (rotate_in m name ref w).0))
                  (cause (error_of (rotate_in m name ref w).0))))
  audit_trail value = (audit-resolve_from, audit-store_in value, audit-delete_from, audit-rotate_in)
