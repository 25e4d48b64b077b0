-- ===== src/Tests/SecretUses.antt =====
-- Examples for secrets/core/secret_string.go.
use catalyst_forge_libs.Common.{ℕ, suc, ◌≤◌, true, false, none, some, [], ◌∷◌, refl, codes}
use catalyst_forge_libs.Secrets.Types.{Secret, SecretRef, ok}
use catalyst_forge_libs.Secrets.SecretString.{SecretString, Resolver}
use catalyst_forge_libs.Secrets.SecretString.Uses.{
  resolving, reading_string, reading_bytes, run_uses, served_at_most_once,
}

abbrev token : Secret
token = record {
  value = some (codes "tk");
  version = codes "1";
  created_at = 3;
  expires_at = none;
  auto_clear = true;
}

abbrev token_ref : SecretRef
token_ref = record { path = codes "token"; version = []; metadata = [] }

-- A resolver that counts its calls.
abbrev counting : Resolver ℕ
counting ref n = (ok (some token), suc n)

abbrev one_time : SecretString
one_time = record {
  ref = token_ref;
  one_time_use = true;
  allow_cache = true;
  resolved = none;
  consumed = false;
}

abbrev cached : SecretString
cached = record one_time { one_time_use = false }

served_at_most_once_example :
    (run_uses counting (resolving ∷ reading_string ∷ reading_bytes ∷ []) one_time 0).0 ≤ 1
served_at_most_once_example =
    served_at_most_once counting (resolving ∷ reading_string ∷ reading_bytes ∷ []) one_time 0 refl
