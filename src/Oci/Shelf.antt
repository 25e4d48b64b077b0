-- ===== src/Oci/Shelf.antt =====
-- What the caches of tags and manifests use of oci/internal/cache/storage.go together with the JSON of an
-- entry: an interface over a state `W`. `none` is any failure to read or to decode.
use catalyst_forge_libs.Common.{Bool, true, Option, none, some, ◌≡◌, Str, str_eq, if◌then◌else◌}

pub record Shelf (E W : Type 0) : Type 0 where
  pub read : Str → W → Option E
  pub write : Str → E → W → Bool × W
  pub remove : Str → W → Bool × W

-- A storage that does not fail: what was written is read, what was removed is not, and the other paths
-- stay as they are.
pub record IsShelf {E W : Type 0} (shelf : Shelf E W) : Type 0 where
  pub write_succeeds : (path : Str) (e : E) (w : W) → (shelf.write path e w).0 ≡ true
  pub read-write :
      (path q : Str) (e : E) (w : W)
      → shelf.read q (shelf.write path e w).1 ≡ (if str_eq path q then some e else shelf.read q w)
  pub read-remove :
      (path q : Str) (w : W)
      → shelf.read q (shelf.remove path w).1 ≡ (if str_eq path q then none else shelf.read q w)
