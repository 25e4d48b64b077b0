-- ===== src/Tests/Records.antt =====
-- Examples for the tag cache and the index of oci/internal/cache.
use catalyst_forge_libs.Common.{
  leb, ltb, ◌+◌, ℕ, true, false, Option, none, some, List, [], ◌∷◌, ◌++◌, ◌≡◌, refl, subst, arith,
  inl, inr, Str, str_eq, str_eq_iff, codes, Bool-cases, if◌then◌else◌,
}
use catalyst_forge_libs.Common.Dict.{lookup, Distinct}
use catalyst_forge_libs.Common.Sort.{by_insertion}
use catalyst_forge_libs.Oci.Reference.{is_valid_reference, is_valid_digest, tag_path}
use catalyst_forge_libs.Oci.Shelf.{Shelf, IsShelf}
use catalyst_forge_libs.Oci.Tags.{
  TagConfig, TagEntry, TagMapping, TagHistoryEntry, at_most, Answer, put_tag_mapping,
  get_tag_mapping, get_tag_history,
}
use catalyst_forge_libs.Oci.Tags.Laws.{get_tag_mapping-put}
use catalyst_forge_libs.Oci.Tags.History.{
  digests, keep_last, replaced, held, put_all, get_tag_history_lem,
}
use catalyst_forge_libs.Oci.Manifests.{
  Manifest, ManifestEntry, Answer as ManifestAnswer, invalid_manifest, not_found, validate_manifest,
  get_manifest, put_manifest,
}
use catalyst_forge_libs.Oci.Manifests.Laws.{get_manifest-put}
use catalyst_forge_libs.Oci.Index.{
  IndexEntry, Index, IndexFile, Encoding, Found, holds, missing, new_index, persist, load, compact,
  cleanup, put, delete,
}
use catalyst_forge_libs.Oci.Index.Laws.{view, calls-view}
use catalyst_forge_libs.Oci.Index.RoundTrip.{IsFile, IsStorable, Storable, load-persist}

abbrev Tags : Type 0
Tags = Str → Option TagEntry

abbrev tag_shelf : Shelf TagEntry Tags
tag_shelf = record {
  read = λ path t. t path;
  write = λ path e t. (true, λ q. if str_eq path q then some e else t q);
  remove = λ path t. (true, λ q. if str_eq path q then none else t q);
}

tag_shelf-IsShelf : IsShelf tag_shelf
tag_shelf-IsShelf = record {
  write_succeeds = λ path e t. refl;
  read-write = λ path q e t. refl;
  read-remove = λ path q t. refl;
}

abbrev no_tags : Tags
no_tags path = none

abbrev tag_config : TagConfig
tag_config = record { default_ttl = 100; max_history_size = at_most 1; enable_history = true }

abbrev slashed : Str
slashed = codes "a/b:c"

abbrev underscored : Str
underscored = codes "a_b:c"

abbrev sixteen : Str
sixteen = codes "0123456789abcdef"

abbrev digest_of : Str → Str
digest_of last = codes "sha256:" ++ (sixteen ++ (sixteen ++ (sixteen ++ last)))

abbrev first_digest : Str
first_digest = digest_of sixteen

abbrev second_digest : Str
second_digest = digest_of (codes "fedcba9876543210")

slashed_valid : is_valid_reference slashed ≡ true
unfolding is_valid_reference
slashed_valid = refl

underscored_valid : is_valid_reference underscored ≡ true
unfolding is_valid_reference
underscored_valid = refl

first_valid : is_valid_digest first_digest ≡ true
unfolding is_valid_digest
first_valid = refl

second_valid : is_valid_digest second_digest ≡ true
unfolding is_valid_digest
second_valid = refl

same_place : tag_path underscored ≡ tag_path slashed
unfolding tag_path
same_place = refl

elsewhere : str_eq (tag_path slashed) (codes "tags/x") ≡ false
unfolding tag_path str_eq
elsewhere = refl

get_tag_mapping-put_example :
    let (answer, t) = put_tag_mapping tag_shelf tag_config 5 slashed first_digest no_tags in
    (answer ≡ Answer.ok tt)
    × ((m : TagMapping) × ((get_tag_mapping tag_shelf tag_config 5 underscored t).0 ≡ Answer.ok m)
        × (m.digest ≡ first_digest))
    × (t (codes "tags/x") ≡ none)
get_tag_mapping-put_example =
    get_tag_mapping-put tag_shelf tag_config 5 slashed underscored first_digest (codes "tags/x")
      no_tags tag_shelf-IsShelf refl slashed_valid underscored_valid same_place first_valid
      elsewhere

abbrev later_puts : List (ℕ × Str)
later_puts = (6, second_digest) ∷ (7, second_digest) ∷ (8, first_digest) ∷ []

get_tag_history_lem_example :
    let t = put_all tag_shelf tag_config slashed ((5, first_digest) ∷ later_puts) no_tags in
    ((h : List TagHistoryEntry) × ((get_tag_history tag_shelf tag_config 9 slashed t).0
        ≡ Answer.ok h)
      × (digests h ≡ keep_last 1 (replaced first_digest later_puts)))
    × ((m : TagMapping) × ((get_tag_mapping tag_shelf tag_config 9 slashed t).0 ≡ Answer.ok m)
        × (m.digest ≡ held first_digest later_puts))
get_tag_history_lem_example =
    get_tag_history_lem tag_shelf tag_config slashed first_digest 1 5 9 later_puts no_tags
      tag_shelf-IsShelf slashed_valid refl refl first_valid refl
      ((second_valid, refl), ((second_valid, refl), ((first_valid, refl), tt))) refl

abbrev sample : Str → IndexEntry
sample key = record {
  key = key;
  size = 3;
  created_at = 1;
  accessed_at = 1;
  ttl = 10;
  access_count = 0;
  metadata = [];
  file_path = [];
}

abbrev index : Index
index = record {
  entries = (codes "b", sample (codes "b")) ∷ [];
  is_unnamed = false;
  max_entries = 4;
  last_compaction = 0;
}

-- Entries like the samples, by their keys.
abbrev by_key : Encoding
by_key = record { marshal = λ e. some e.key; unmarshal = λ text. some (sample text); max_line = 10 }

abbrev one_file : IndexFile Found
one_file = record { load_file = λ f. f; replace_file = λ bytes f. (true, holds bytes) }

one_file-IsFile : IsFile one_file
one_file-IsFile = record { replace_succeeds = λ bytes f. refl; load-replace = λ bytes f. refl }

sample-IsStorable : IsStorable by_key (codes "b") (sample (codes "b"))
sample-IsStorable = record {
  text = codes "b";
  marshalled = refl;
  decodes = refl;
  one_line = refl;
  trimmed = refl;
  not_blank = refl;
  fits = omega arith;
  keyed = refl;
  named = refl;
}

index-Storable : Storable by_key index.entries
unfolding lookup
index-Storable k e h = elim (Bool-cases (str_eq (codes "b") k)) [
  | inr other ↦ absurd (ground (arith, other, h))
  | inl same ↦
      let its_key : codes "b" ≡ k = (str_eq_iff (codes "b") k).0 same in
      let its_entry : sample (codes "b") ≡ e = ground (arith, same, h) in
      subst (λ j. IsStorable by_key j e) its_key
        (subst (λ f. IsStorable by_key (codes "b") f) its_entry sample-IsStorable)
]

load-persist_example :
    let (fine, f) = persist by_key one_file (by_insertion Str) index missing in
    let (loaded, again) = load by_key one_file (by_insertion Str) (new_index false 4 0) f in
    (fine ≡ true)
    × (loaded ≡ true)
    × (lookup (codes "b") again.entries ≡ lookup (codes "b") index.entries)
load-persist_example =
    load-persist by_key one_file (by_insertion Str) index 4 0 (codes "b") missing one_file-IsFile
      index-Storable refl

calls-view_example :
    (lookup (codes "b") (compact by_key one_file (by_insertion Str) 12 index missing).1.entries
      ≡ view 12 index (codes "b"))
    × (lookup
          (codes "b")
          (cleanup by_key one_file (by_insertion Str) 12 false index missing).1.entries
        ≡ view 12 index (codes "b"))
    × (lookup
          (codes "b")
          (put by_key one_file
            (by_insertion Str)
            (codes "a")
            (sample (codes "a"))
            index
            missing).1.entries
        ≡ (if str_eq (codes "a") (codes "b")
            then some (sample (codes "a"))
            else lookup (codes "b") index.entries))
    × (view 13
          (delete by_key one_file (by_insertion Str) 12 (codes "a") index missing).1
          (codes "b")
        ≡ (if str_eq (codes "a") (codes "b") then none else view 13 index (codes "b")))
    × (lookup
          (codes "a")
          (delete by_key one_file (by_insertion Str) 12 (codes "a") index missing).1.entries
        ≡ none)
calls-view_example =
    calls-view by_key one_file (by_insertion Str) 12 13 index missing (codes "b") (codes "a")
      (sample (codes "a")) false index_distinct (omega arith)
  where
    index_distinct : Distinct index.entries
    index_distinct = (unfold lookup in refl, tt)

abbrev Manifests : Type 0
Manifests = Str → Option ManifestEntry

abbrev manifest_shelf : Shelf ManifestEntry Manifests
manifest_shelf = record {
  read = λ path t. t path;
  write = λ path e t. (true, λ q. if str_eq path q then some e else t q);
  remove = λ path t. (true, λ q. if str_eq path q then none else t q);
}

manifest_shelf-IsShelf : IsShelf manifest_shelf
manifest_shelf-IsShelf = record {
  write_succeeds = λ path e t. refl;
  read-write = λ path q e t. refl;
  read-remove = λ path q t. refl;
}

abbrev image : Manifest
image = record {
  schema_version = 2;
  media_type = codes "application/vnd.oci.image.manifest.v1+json";
  config = record { media_type = codes "application/json"; size = 2 };
  layers = record { media_type = codes "application/gzip"; size = 7 } ∷ [];
}

abbrev no_manifests : Manifests
no_manifests path = none

get_manifest-put_example :
    let (answer, t) = put_manifest manifest_shelf 10 1 first_digest image no_manifests in
    (answer ≡ (
      if validate_manifest image
      then ManifestAnswer.ok tt
      else ManifestAnswer.err invalid_manifest))
    × ((get_manifest manifest_shelf 10 5 second_digest t).0 ≡ (
        if validate_manifest image
        then (if str_eq first_digest second_digest
            then (if leb 10 0
                then ManifestAnswer.ok image
                else if ltb (1 + 10) 5
                then ManifestAnswer.err not_found
                else ManifestAnswer.ok image)
            else (get_manifest manifest_shelf 10 5 second_digest no_manifests).0)
        else (get_manifest manifest_shelf 10 5 second_digest no_manifests).0))
get_manifest-put_example =
    get_manifest-put manifest_shelf 10 1 5 first_digest second_digest image no_manifests
      manifest_shelf-IsShelf first_valid second_valid
