-- ===== src/Secrets/Types.antt =====
-- secrets/core/secret.go and errors.go: secrets, references and errors. An error is a value; the
-- texts of the messages are not kept, what they are about is.
use catalyst_forge_libs.Common.{ℕ, Bool, true, false, Option, none, Str}
use catalyst_forge_libs.Common.Dict.{Dict}

-- A `nil` slice is `none`. Times are nanoseconds.
pub record Secret : Type 0 where
  pub value : Option Str
  pub version : Str
  pub created_at : ℕ
  pub expires_at : Option ℕ
  pub auto_clear : Bool

pub record SecretRef : Type 0 where
  pub path : Str
  pub version : Str
  pub metadata : Dict Str

-- What a manager was doing when a provider failed: the message of `WrapProviderError`.
pub data Action : Type 0 where
  resolve batch exist store delete rotate : Action

pub data Error : Type 0 where
  -- of the memory provider
  cancelled random_failed : Error
  secret_not_found : Str → Error
  version_not_found : Str → Str → Error
  -- of the managers
  empty_provider_name nil_provider no_default_provider : Error
  already_registered provider_not_found no_write_support no_rotation_support : Str → Error
  -- `WrapProviderError`: the message, then `ProviderError` with its provider, reference and cause
  provider_error : Action → Str → SecretRef → Error → Error
  -- of `SecretString`
  no_resolver already_consumed : Error
  failed_to_resolve : Error → Error
  -- of `Secret.UnmarshalJSON`
  unmarshal_failed : Error
  -- a `nil` pointer is dereferenced
  nil_dereference : Error
  -- any other failure of a provider
  other : ℕ → Error

pub data Result {ℓ} (A : Type ℓ) : Type ℓ where
  ok : A → Result A
  err : Error → Result A

abbrev pub is_ok {ℓ} : {A : Type ℓ} → Result A → Bool
is_ok (ok a) = true
is_ok (err e) = false

-- The error that Go's `err` holds, `none` for nil.
abbrev pub error_of {ℓ} : {A : Type ℓ} → Result A → Option Error
error_of (ok a) = none
error_of (err e) = Option.some e
