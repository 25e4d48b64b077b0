-- ===== src/Tests/Secrets.antt =====
-- Examples for secrets/providers/memory/provider.go and secrets/core/secret.go.
use catalyst_forge_libs.Common.{
  ℕ, true, false, Option, none, some, [], ◌∷◌, ◌≡◌, Str, str_eq, codes,
}
use catalyst_forge_libs.Common.Dict.{lookup}
use catalyst_forge_libs.Secrets.Types.{Secret, SecretRef}
use catalyst_forge_libs.Secrets.Memory.{Store, copy_secret, version_of, resolve}
use catalyst_forge_libs.Secrets.Memory.View.{view}
use catalyst_forge_libs.Secrets.Memory.Laws.{answer, operations_refine_view}

abbrev password : Secret
password = record {
  value = some (codes "pw");
  version = codes "latest";
  created_at = 7;
  expires_at = none;
  auto_clear = true;
}

abbrev db_ref : SecretRef
db_ref = record { path = codes "db"; version = []; metadata = [] }

abbrev old_db_ref : SecretRef
old_db_ref = record { path = codes "db"; version = codes "v1"; metadata = [] }

abbrev one_password : Store
one_password = (codes "db", (codes "latest", password) ∷ []) ∷ []

operations_refine_view_example : answer (resolve false db_ref one_password) ≡ some password
unfolding view lookup copy_secret version_of str_eq
operations_refine_view_example = (operations_refine_view false db_ref (codes "x") 9 one_password).0

-- A random source that counts down.
abbrev counting : ℕ → Option Str
counting n = some (n ∷ 1 ∷ [])

abbrev rotated : Secret
rotated = record {
  value = some (2 ∷ 1 ∷ []);
  version = codes "v42";
  created_at = 9;
  expires_at = none;
  auto_clear = false;
}
