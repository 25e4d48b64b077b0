-- ===== src/Secrets/Provider.antt =====
-- secrets/core/interfaces.go and audit.go: the provider interfaces, as records of functions on a
-- state `W`, and the audit log. What a type assertion finds is the constructor of `Access`.
use catalyst_forge_libs.Common.{Bool, Option, none, some, List, Str}
use catalyst_forge_libs.Common.Dict.{Dict}
use catalyst_forge_libs.Secrets.Types.{Secret, SecretRef, Action, Error, Result}

-- WriteableProvider
pub record Writer (W : Type 0) : Type 0 where
  pub store : SecretRef → Str → W → Option Error × W
  pub delete : SecretRef → W → Option Error × W

-- RotatableProvider
pub record Rotator (W : Type 0) : Type 0 where
  pub rotate : SecretRef → W → Result (Option Secret) × W

pub data Access (W : Type 0) : Type 0 where
  read_only : Access W
  writeable : Writer W → Access W
  rotatable : Writer W → Rotator W → Access W

-- A secret is a pointer, and may be nil.
pub record Provider (W : Type 0) : Type 0 where
  pub resolve : SecretRef → W → Result (Option Secret) × W
  pub resolve_batch : List SecretRef → W → Result (Dict (Option Secret)) × W
  pub exist : SecretRef → W → Result Bool × W
  pub close : W → Option Error × W
  pub access : Access W

-- provider.(WriteableProvider)
unfoldable pub writer_of : {W : Type 0} → Access W → Option (Writer W)
writer_of read_only = none
writer_of (writeable w) = some w
writer_of (rotatable w r) = some w

-- provider.(RotatableProvider)
unfoldable pub rotator_of : {W : Type 0} → Access W → Option (Rotator W)
rotator_of read_only = none
rotator_of (writeable w) = none
rotator_of (rotatable w r) = some r

-- One call of AuditLogger.LogAccess.
pub record AuditEntry : Type 0 where
  pub action : Action
  pub ref : SecretRef
  pub success : Bool
  pub error : Option Error

-- What the managers act on: the providers' state, and the audit log, oldest entry first.
pub record World (W : Type 0) : Type 0 where
  pub state : W
  pub audit : List AuditEntry
