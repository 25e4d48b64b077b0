-- ===== src/Oci/Manifests.antt =====
-- oci/internal/cache/manifest.go, with the fields of a manifest that it reads. `now` is the time of a call
-- in nanoseconds; a TTL that is not positive is 0; an int64 size is its bit pattern. The context is not
-- cancelled, and the manifest is not nil.
pub mod Laws
use catalyst_forge_libs.Common.{
  ℕ, ◌+◌, ◌^◌, Bool, true, false, not, Option, none, some, List, [], ◌∷◌, Str, is_empty, ltb, leb,
  ◌==◌, if◌then◌else◌,
}
use catalyst_forge_libs.Oci.Shelf.{Shelf}
use catalyst_forge_libs.Oci.Reference.{is_valid_digest, manifest_path}

pub record Descriptor : Type 0 where
  pub media_type : Str
  pub size : ℕ

pub record Manifest : Type 0 where
  pub schema_version : ℕ
  pub media_type : Str
  pub config : Descriptor
  pub layers : List Descriptor

-- manifestCacheEntry
pub record ManifestEntry : Type 0 where
  pub manifest : Manifest
  pub created_at : ℕ
  pub accessed_at : ℕ

pub data ManifestError : Type 0 where
  empty_digest empty_reference invalid_digest invalid_manifest : ManifestError
  unreadable not_found write_failed : ManifestError

pub data Answer (A : Type 0) : Type 0 where
  ok : A → Answer A
  err : ManifestError → Answer A

abbrev pub is_negative : ℕ → Bool
is_negative size = leb (2 ^ 63) size

unfoldable pub layers_fit : List Descriptor → Bool
layers_fit [] = true
layers_fit (layer ∷ layers) =
    let rest = layers_fit layers in
    if is_empty layer.media_type then false else if is_negative layer.size then false else rest

unfoldable pub validate_manifest : Manifest → Bool
unfolding layers_fit
validate_manifest m =
    if not (m.schema_version == 2)
    then false
    else if is_empty m.media_type
    then false
    else if is_empty m.config.media_type
    then false
    else if is_negative m.config.size
    then false
    else layers_fit m.layers

unfoldable pub is_expired : ℕ → ℕ → ManifestEntry → Bool
is_expired ttl now entry = if leb ttl 0 then false else ltb (entry.created_at + ttl) now

module _ {W : Type 0} (shelf : Shelf ManifestEntry W) (ttl : ℕ) where
  unfoldable pub get_manifest : ℕ → Str → W → Answer Manifest × W
  get_manifest now digest w =
      if not (is_valid_digest digest)
      then (err invalid_digest, w)
      else elim (shelf.read (manifest_path digest) w) [
        | none ↦ (err unreadable, w)
        | some entry ↦
            if is_expired ttl now entry
            then (err not_found, (shelf.remove (manifest_path digest) w).1)
            else (
              ok entry.manifest,
              (shelf.write (manifest_path digest) (record entry { accessed_at = now }) w).1,
            )
      ]

  unfoldable pub put_manifest : ℕ → Str → Manifest → W → Answer (Unit {0}) × W
  put_manifest now digest manifest w =
      if is_empty digest
      then (err empty_digest, w)
      else if not (is_valid_digest digest)
      then (err invalid_digest, w)
      else if not (validate_manifest manifest)
      then (err invalid_manifest, w)
      else (let (written, w') =
            shelf.write (manifest_path digest)
              (record { manifest = manifest; created_at = now; accessed_at = now }) w in
          (if written then ok tt else err write_failed, w'))

  unfoldable pub has_manifest : ℕ → Str → W → Answer Bool × W
  has_manifest now digest w =
      if not (is_valid_digest digest)
      then (err invalid_digest, w)
      else elim (shelf.read (manifest_path digest) w) [
        | none ↦ (ok false, w)
        | some entry ↦
            if is_expired ttl now entry
            then (ok false, (shelf.remove (manifest_path digest) w).1)
            else (ok true, w)
      ]

  -- ValidateManifest, which asks no registry.
  unfoldable pub validate_reference : ℕ → Str → Str → W → Answer Bool × W
  validate_reference now reference digest w =
      if is_empty reference
      then (err empty_reference, w)
      else if is_empty digest
      then (err empty_digest, w)
      else if not (is_valid_digest digest)
      then (err invalid_digest, w)
      else has_manifest now digest w
