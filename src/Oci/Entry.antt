-- ===== src/Oci/Entry.antt =====
-- oci/internal/cache/types.go: the cache entry. Times and durations are in nanoseconds; a duration
-- that is not above 0 is 0 here, which is all that the code tells of it.
use catalyst_forge_libs.Common.{
  ℕ, ◌+◌, ◌-◌, ◌*◌, Bool, false, [], ◌∷◌, Str, ltb, leb, length, if◌then◌else◌,
}
use catalyst_forge_libs.Common.Dict.{Dict}

pub record Entry : Type 0 where
  pub key : Str
  pub content : Str
  pub metadata : Dict Str
  pub created_at : ℕ
  pub accessed_at : ℕ
  pub ttl : ℕ
  pub access_count : ℕ

-- `now` is the clock that time.Since reads. An entry of the future is not expired.
unfoldable pub is_expired : ℕ → Entry → Bool
is_expired now e = if leb e.ttl 0 then false else ltb e.ttl (now - e.created_at)

unfoldable pub metadata_size : Dict Str → ℕ
metadata_size [] = 0
metadata_size ((k, v) ∷ rest) = length k + length v + metadata_size rest

unfoldable pub entry_size : Entry → ℕ
unfolding metadata_size
entry_size e = length e.key + length e.content + metadata_size e.metadata + 8 * 3 + 16 * 2 + 8
