-- ===== src/Oci/Manifests/Laws.antt =====
-- The calls of oci/internal/cache/manifest.go over a storage that does not fail.
use catalyst_forge_libs.Common.{
  ℕ, ◌+◌, true, false, Option, none, some, [], ◌∷◌, ◌≡◌, refl, sym, ◌∙◌, ap, arith, inl, inr, Str,
  codes, str_eq, str_eq_self, str_eq_iff, is_empty, leb, ltb, drop_prefix, drop_prefix-append,
  false≢true, Bool-cases, Option-cases, if◌then◌else◌,
}
use catalyst_forge_libs.Oci.Shelf.{Shelf, IsShelf}
use catalyst_forge_libs.Oci.Reference.{is_valid_digest, manifest_path}
use catalyst_forge_libs.Oci.Manifests.{
  Manifest, ManifestEntry, Answer, ok, err, unreadable, invalid_manifest, not_found,
  validate_manifest, is_expired, get_manifest, put_manifest,
}

-- Manifests of different digests never share a path.
manifest_path-injective : (a b : Str) → manifest_path a ≡ manifest_path b → a ≡ b
unfolding manifest_path
manifest_path-injective a b e =
    sym (drop_prefix-append (codes "manifests/") a)
    ∙ ap (λ s. drop_prefix s (codes "manifests/")) e
    ∙ drop_prefix-append (codes "manifests/") b

-- A manifest as it is answered at some time.
abbrev pub fresh : ℕ → ℕ → Option ManifestEntry → Answer Manifest
fresh ttl now none = err unreadable
fresh ttl now (some e) = if is_expired ttl now e then err not_found else ok e.manifest

get_manifest-fresh :
    {W : Type 0} (shelf : Shelf ManifestEntry W) (ttl now : ℕ) (d : Str) (w : W)
    → is_valid_digest d ≡ true
    → (get_manifest shelf ttl now d w).0 ≡ fresh ttl now (shelf.read (manifest_path d) w)
unfolding get_manifest
get_manifest-fresh shelf ttl now d w valid = elim (Option-cases (shelf.read (manifest_path d) w)) [
  | inl absent ↦ rw (get_manifest, valid, absent) refl
  | inr (e, there) ↦ elim (Bool-cases (is_expired ttl now e)) [
    | inl old ↦ rw (get_manifest, valid, there, old) refl
    | inr young ↦ rw (get_manifest, valid, there, young) refl
  ]
]

same_path_iff : (a b : Str) → str_eq (manifest_path a) (manifest_path b) ≡ str_eq a b
same_path_iff a b = elim (Bool-cases (str_eq a b)) [
  | inl same ↦ rw (ap manifest_path ((str_eq_iff a b).0 same), same) (str_eq_self (manifest_path b))
  | inr other ↦ rw other (elim (Bool-cases (str_eq (manifest_path a) (manifest_path b))) [
    | inr apart ↦ apart
    | inl together ↦
        let same =
          manifest_path-injective a b
            ((str_eq_iff (manifest_path a) (manifest_path b)).0 together) in
        absurd (false≢true (sym other ∙ (str_eq_iff a b).1 same))
  ])
]

get_manifest-write :
    {W : Type 0} (shelf : Shelf ManifestEntry W) (ttl created now : ℕ) (d d' : Str) (m : Manifest)
    (w : W)
    → IsShelf shelf
    → is_valid_digest d' ≡ true
    → (get_manifest shelf ttl now d'
        (shelf.write
          (manifest_path d)
          (record { manifest = m; created_at = created; accessed_at = created })
          w).1).0
      ≡ (if str_eq d d'
          then (if leb ttl 0 then ok m else if ltb (created + ttl) now then err not_found else ok m)
          else (get_manifest shelf ttl now d' w).0)
unfolding is_expired
get_manifest-write shelf ttl created now d d' m w faithful valid' =
    let entry : ManifestEntry = record {
      manifest = m;
      created_at = created;
      accessed_at = created;
    } in
    get_manifest-fresh shelf ttl now d' (shelf.write (manifest_path d) entry w).1 valid'
    ∙ ap (fresh ttl now) (faithful.read-write (manifest_path d) (manifest_path d') entry w)
    ∙ elim (Bool-cases (str_eq d d')) [
      | inl same ↦ rw (same_path_iff d d', same) (ground arith)
      | inr other ↦
          rw (same_path_iff d d', other) (sym (get_manifest-fresh shelf ttl now d' w valid'))
    ]

-- Over a storage that does not fail: PutManifest of a valid manifest under a valid digest succeeds, and
-- then GetManifest of a valid digest answers, if the digest is the same one and as long as the time to
-- live has not passed, that manifest; and for any other digest what it answered before. PutManifest of
-- an invalid manifest is refused and changes nothing.
pub get_manifest-put :
    {W : Type 0} (shelf : Shelf ManifestEntry W) (ttl created now : ℕ) (d d' : Str) (m : Manifest)
    (w : W)
    → IsShelf shelf
    → is_valid_digest d ≡ true
    → is_valid_digest d' ≡ true
    → let (answer, w') = put_manifest shelf ttl created d m w in
      (answer ≡ (if validate_manifest m then ok tt else err invalid_manifest))
      × ((get_manifest shelf ttl now d' w').0 ≡ (
          if validate_manifest m
          then (if str_eq d d'
              then (if leb ttl 0
                  then ok m
                  else if ltb (created + ttl) now
                  then err not_found
                  else ok m)
              else (get_manifest shelf ttl now d' w).0)
          else (get_manifest shelf ttl now d' w).0))
unfolding put_manifest
get_manifest-put shelf ttl created now d d' m w faithful valid valid' =
    elim (Bool-cases (validate_manifest m)) [
      | inr bad ↦ (
        rw (put_manifest, nonempty d valid, valid, bad) refl,
        rw (put_manifest, nonempty d valid, valid, bad) refl,
      )
      | inl fine ↦
          let entry : ManifestEntry = record {
            manifest = m;
            created_at = created;
            accessed_at = created;
          } in
          (
            rw
                (
                  put_manifest,
                  nonempty d valid,
                  valid,
                  fine,
                  faithful.write_succeeds (manifest_path d) entry w,
                )
                refl,
            rw (put_manifest, nonempty d valid, valid, fine)
                (get_manifest-write shelf ttl created now d d' m w faithful valid'),
          )
    ]
  where
    nonempty : (d : Str) → is_valid_digest d ≡ true → is_empty d ≡ false
    nonempty [] h = absurd (unfold is_valid_digest in ground (arith, h))
    nonempty (c ∷ d) h = refl
