-- ===== src/Secrets/Manager.antt =====
-- secrets/core/manager.go: the managers. The embedded structs add methods and no fields, so the
-- three manager types are one record. Each method is one critical section of its mutex.
pub mod Registry
pub mod Audit
pub mod Routing
use catalyst_forge_libs.Common.{
  ℕ, Bool, true, false, Option, none, some, List, [], ◌∷◌, ◌++◌, Str, codes, is_empty, ◌&&◌,
  if◌then◌else◌,
}
use catalyst_forge_libs.Common.Dict.{Dict, lookup, insert, contains}
use catalyst_forge_libs.Secrets.Types.{
  Secret, SecretRef, Action, Error, Result, ok, err, is_ok, error_of, empty_provider_name,
  nil_provider, no_default_provider, already_registered, provider_not_found, no_write_support,
  no_rotation_support, provider_error,
}
use catalyst_forge_libs.Secrets.Provider.{
  Provider, Writer, Rotator, writer_of, rotator_of, AuditEntry, World,
}

pub record Config : Type 0 where
  pub default_provider : Str
  pub auto_clear : Bool
  pub cache_ttl : ℕ
  pub enable_audit : Bool
  pub has_logger : Bool

-- `has_logger` says whether the audit logger is there, that is not nil.
pub record Manager (W : Type 0) : Type 0 where
  pub providers : Dict (Provider W)
  pub default_provider : Str
  pub auto_clear : Bool
  pub enable_audit : Bool
  pub has_logger : Bool

unfoldable pub new_manager : {W : Type 0} → Option Config → Manager W
new_manager none = record {
  providers = [];
  default_provider = [];
  auto_clear = false;
  enable_audit = false;
  has_logger = false;
}
new_manager (some config) = record {
  providers = [];
  default_provider = config.default_provider;
  auto_clear = config.auto_clear;
  enable_audit = config.enable_audit;
  has_logger = config.has_logger;
}

-- The reference that stands for a whole batch in its error.
abbrev pub batch_ref : SecretRef
batch_ref = record { path = codes "batch-operation"; version = []; metadata = [] }

abbrev pub entry : Action → SecretRef → Bool → Option Error → AuditEntry
entry action ref success error = record {
  action = action;
  ref = ref;
  success = success;
  error = error;
}

-- WrapProviderError, which is nil for a nil error.
abbrev pub wrap_error : Action → Str → SecretRef → Option Error → Option Error
wrap_error action name ref none = none
wrap_error action name ref (some e) = some (provider_error action name ref e)

abbrev pub succeeded : Option Error → Bool
succeeded none = true
succeeded (some e) = false

module _ {W : Type 0} where
  unfoldable pub register_provider :
      Str → Option (Provider W) → Manager W → Option Error × Manager W
  unfolding contains
  register_provider name provider m =
      if is_empty name then (some empty_provider_name, m) else elim provider [
        | none ↦ (some nil_provider, m)
        | some p ↦
            if contains name m.providers
            then (some (already_registered name), m)
            else (none, record m { providers = insert name p m.providers })
      ]

  -- if m.enableAudit && m.auditLogger != nil { m.auditLogger.LogAccess(…) }
  unfoldable pub log_access : Manager W → AuditEntry → World W → World W
  log_access m e w =
      if m.enable_audit && m.has_logger then record w { audit = w.audit ++ e ∷ [] } else w

  -- What the caller gets of a provider's secret: the manager's AutoClear, or the wrapped error.
  unfoldable pub deliver :
      Manager W → Action → Str → SecretRef → Result (Option Secret) → Result (Option Secret)
  deliver m action name ref (ok none) = ok none
  deliver m action name ref (ok (some s)) = ok (some (record s { auto_clear = m.auto_clear }))
  deliver m action name ref (err e) = err (provider_error action name ref e)

  unfoldable pub resolve_from :
      Manager W → Str → SecretRef → World W → Result (Option Secret) × World W
  unfolding log_access deliver lookup
  resolve_from m name ref w =
      if is_empty name then (err empty_provider_name, w) else elim (lookup name m.providers) [
        | none ↦ (
          err (provider_not_found name),
          log_access m (entry Action.resolve ref false (some (provider_not_found name))) w,
        )
        | some p ↦
            let (result, state) = p.resolve ref w.state in
            (
              deliver m Action.resolve name ref result,
              log_access m (entry Action.resolve ref (is_ok result) (error_of result))
                  (record w { state = state }),
            )
      ]

  unfoldable pub resolve : Manager W → SecretRef → World W → Result (Option Secret) × World W
  unfolding resolve_from
  resolve m ref w =
      if is_empty m.default_provider
      then (err no_default_provider, w)
      else resolve_from m m.default_provider ref w

  -- for _, secret := range results { if secret != nil { secret.AutoClear = m.autoClear } }
  unfoldable pub deliver_all : Manager W → Dict (Option Secret) → Dict (Option Secret)
  deliver_all m [] = []
  deliver_all m ((key, none) ∷ rest) = (key, none) ∷ deliver_all m rest
  deliver_all m ((key, some s) ∷ rest) =
      (key, some (record s { auto_clear = m.auto_clear })) ∷ deliver_all m rest

  unfoldable pub resolve_batch_from :
      Manager W → Str → List SecretRef → World W → Result (Dict (Option Secret)) × World W
  unfolding lookup deliver_all
  resolve_batch_from m name refs w =
      if is_empty name then (err empty_provider_name, w) else elim (lookup name m.providers) [
        | none ↦ (err (provider_not_found name), w)
        | some p ↦
            let (result, state) = p.resolve_batch refs w.state in
            (
              elim result [
                | ok results ↦ ok (deliver_all m results)
                | err e ↦ err (provider_error Action.batch name batch_ref e)
              ],
              record w { state = state },
            )
      ]

  unfoldable pub resolve_batch :
      Manager W → List SecretRef → World W → Result (Dict (Option Secret)) × World W
  unfolding resolve_batch_from
  resolve_batch m refs w =
      if is_empty m.default_provider
      then (err no_default_provider, w)
      else resolve_batch_from m m.default_provider refs w

  unfoldable pub exists_from : Manager W → Str → SecretRef → World W → Result Bool × World W
  unfolding lookup
  exists_from m name ref w =
      if is_empty name then (err empty_provider_name, w) else elim (lookup name m.providers) [
        | none ↦ (err (provider_not_found name), w)
        | some p ↦
            let (result, state) = p.exist ref w.state in
            (
              elim result [
                | ok there ↦ ok there
                | err e ↦ err (provider_error Action.exist name ref e)
              ],
              record w { state = state },
            )
      ]

  unfoldable pub exists : Manager W → SecretRef → World W → Result Bool × World W
  unfolding exists_from
  exists m ref w =
      if is_empty m.default_provider
      then (err no_default_provider, w)
      else exists_from m m.default_provider ref w

  -- The loop of Close: each provider in turn, with the names and errors of those that fail.
  unfoldable pub close_all : Dict (Provider W) → W → List (Str × Error) → List (Str × Error) × W
  close_all [] state errs = (errs, state)
  close_all ((name, p) ∷ rest) state errs =
      let (failed, state') = p.close state in
      close_all rest state' (elim failed [ none ↦ errs | some e ↦ errs ++ (name, e) ∷ [] ])

  -- No errors are a nil error.
  unfoldable pub close : Manager W → World W → List (Str × Error) × Manager W × World W
  unfolding close_all
  close m w =
      let (errs, state) = close_all m.providers w.state [] in
      (errs, record m { providers = [] }, record w { state = state })

  unfoldable pub store_in : Manager W → Str → SecretRef → Str → World W → Option Error × World W
  unfolding log_access lookup writer_of
  store_in m name ref value w =
      if is_empty name then (some empty_provider_name, w) else elim (lookup name m.providers) [
        | none ↦ (
          some (provider_not_found name),
          log_access m (entry Action.store ref false (some (provider_not_found name))) w,
        )
        | some p ↦ elim (writer_of p.access) [
          | none ↦ (
            some (no_write_support name),
            log_access m (entry Action.store ref false (some (no_write_support name))) w,
          )
          | some writer ↦
              let (failed, state) = writer.store ref value w.state in
              (
                wrap_error Action.store name ref failed,
                log_access m (entry Action.store ref (succeeded failed) failed)
                    (record w { state = state }),
              )
        ]
      ]

  unfoldable pub store : Manager W → SecretRef → Str → World W → Option Error × World W
  unfolding store_in
  store m ref value w =
      if is_empty m.default_provider
      then (some no_default_provider, w)
      else store_in m m.default_provider ref value w

  unfoldable pub delete_from : Manager W → Str → SecretRef → World W → Option Error × World W
  unfolding log_access lookup writer_of
  delete_from m name ref w =
      if is_empty name then (some empty_provider_name, w) else elim (lookup name m.providers) [
        | none ↦ (
          some (provider_not_found name),
          log_access m (entry Action.delete ref false (some (provider_not_found name))) w,
        )
        | some p ↦ elim (writer_of p.access) [
          | none ↦ (
            some (no_write_support name),
            log_access m (entry Action.delete ref false (some (no_write_support name))) w,
          )
          | some writer ↦
              let (failed, state) = writer.delete ref w.state in
              (
                wrap_error Action.delete name ref failed,
                log_access m (entry Action.delete ref (succeeded failed) failed)
                    (record w { state = state }),
              )
        ]
      ]

  unfoldable pub delete : Manager W → SecretRef → World W → Option Error × World W
  unfolding delete_from
  delete m ref w =
      if is_empty m.default_provider
      then (some no_default_provider, w)
      else delete_from m m.default_provider ref w

  unfoldable pub rotate_in :
      Manager W → Str → SecretRef → World W → Result (Option Secret) × World W
  unfolding log_access deliver lookup rotator_of
  rotate_in m name ref w =
      if is_empty name then (err empty_provider_name, w) else elim (lookup name m.providers) [
        | none ↦ (
          err (provider_not_found name),
          log_access m (entry Action.rotate ref false (some (provider_not_found name))) w,
        )
        | some p ↦ elim (rotator_of p.access) [
          | none ↦ (
            err (no_rotation_support name),
            log_access m (entry Action.rotate ref false (some (no_rotation_support name))) w,
          )
          | some rotator ↦
              let (result, state) = rotator.rotate ref w.state in
              (
                deliver m Action.rotate name ref result,
                log_access m (entry Action.rotate ref (is_ok result) (error_of result))
                    (record w { state = state }),
              )
        ]
      ]

  unfoldable pub rotate : Manager W → SecretRef → World W → Result (Option Secret) × World W
  unfolding rotate_in
  rotate m ref w =
      if is_empty m.default_provider
      then (err no_default_provider, w)
      else rotate_in m m.default_provider ref w
