-- ===== src/Tests/Managers.antt =====
-- Examples for secrets/core/manager.go.
use catalyst_forge_libs.Common.{ℕ, suc, true, false, none, some, [], ◌∷◌, ◌≡◌, refl, str_eq, codes}
use catalyst_forge_libs.Common.Dict.{lookup}
use catalyst_forge_libs.Secrets.Types.{Secret, SecretRef, Action, ok, err, other}
use catalyst_forge_libs.Secrets.Provider.{Provider, Writer, Rotator, read_only, rotatable, World}
use catalyst_forge_libs.Secrets.Memory.{Store, copy_slice, version_of}
use catalyst_forge_libs.Secrets.Backend.{memory_provider, resolve_from-store_in}
use catalyst_forge_libs.Secrets.Manager.{Manager, entry, resolve_from, store_in}
use catalyst_forge_libs.Secrets.Manager.Audit.{audit_trail}

abbrev ref : SecretRef
ref = record { path = codes "db"; version = []; metadata = [] }

abbrev latest_ref : SecretRef
latest_ref = record { path = codes "db"; version = codes "latest"; metadata = [] }

abbrev token : Secret
token = record {
  value = some (codes "tk");
  version = codes "1";
  created_at = 3;
  expires_at = none;
  auto_clear = false;
}

-- Providers whose state counts the requests: one that answers, and one that fails at everything.
abbrev answering : Provider ℕ
answering = record {
  resolve = λ r n. (ok (some token), suc n);
  resolve_batch = λ rs n. (ok ((codes "db", some token) ∷ []), suc n);
  exist = λ r n. (ok true, suc n);
  close = λ n. (none, suc n);
  access = read_only;
}

abbrev failing_writer : Writer ℕ
failing_writer = record {
  store = λ r value n. (some (other 1), suc n);
  delete = λ r n. (some (other 1), suc n);
}

abbrev failing_rotator : Rotator ℕ
failing_rotator = record { rotate = λ r n. (err (other 1), suc n) }

abbrev failing : Provider ℕ
failing = record {
  resolve = λ r n. (err (other 1), suc n);
  resolve_batch = λ rs n. (err (other 1), suc n);
  exist = λ r n. (err (other 1), suc n);
  close = λ n. (some (other 1), suc n);
  access = rotatable failing_writer failing_rotator;
}

abbrev manager : Manager ℕ
manager = record {
  providers = (codes "good", answering) ∷ (codes "bad", failing) ∷ [];
  default_provider = codes "good";
  auto_clear = true;
  enable_audit = true;
  has_logger = true;
}

abbrev world : World ℕ
world = record { state = 0; audit = [] }

abbrev memory_manager : Manager Store
memory_manager = record {
  providers = (codes "mem", memory_provider false 5 6 (λ n. none)) ∷ [];
  default_provider = codes "mem";
  auto_clear = true;
  enable_audit = false;
  has_logger = false;
}

resolve_from-store_in_example :
    (resolve_from memory_manager
      (codes "mem")
      latest_ref
      (store_in memory_manager
        (codes "mem")
        ref
        (codes "pw")
        (record { state = []; audit = [] })).1).0
    ≡ ok (
        some (record {
          value = some (codes "pw");
          version = codes "latest";
          created_at = 5;
          expires_at = none;
          auto_clear = true;
        }))
unfolding lookup str_eq version_of copy_slice
resolve_from-store_in_example =
    (resolve_from-store_in memory_manager (codes "mem") 5 6 (λ n. none)
      (record { state = []; audit = [] }) ref latest_ref (codes "pw") refl refl refl refl).1

audit_trail_example :
    (store_in manager (codes "bad") ref (codes "pw") world).1.audit
    ≡ entry Action.store ref false (some (other 1)) ∷ []
unfolding store_in str_eq
audit_trail_example = (audit_trail manager (codes "bad") ref world (codes "pw")).1
