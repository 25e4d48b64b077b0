-- ===== src/Oci/Tags.antt =====
-- oci/internal/cache/tags.go, with the tag types of types.go. `now` is the time of a call, in
-- nanoseconds; a TTL that is not positive is 0. The context is not cancelled.
pub mod Laws
pub mod History
use catalyst_forge_libs.Common.{
  ℕ, ◌+◌, ◌-◌, Bool, true, false, not, Option, none, some, List, [], ◌∷◌, ◌++◌, Str, str_eq, length,
  drop, is_empty, ltb, leb, ◌==◌, ◌&&◌, ◌||◌, if◌then◌else◌,
}
use catalyst_forge_libs.Common.Words.{add64}
use catalyst_forge_libs.Oci.Shelf.{Shelf}
use catalyst_forge_libs.Oci.Reference.{is_valid_reference, is_valid_digest, tag_path}

pub record TagHistoryEntry : Type 0 where
  pub digest : Str
  pub changed_at : ℕ

pub record TagMapping : Type 0 where
  pub reference : Str
  pub digest : Str
  pub created_at : ℕ
  pub updated_at : ℕ
  pub access_count : ℕ
  pub history : List TagHistoryEntry

-- tagCacheEntry
pub record TagEntry : Type 0 where
  pub mapping : TagMapping
  pub created_at : ℕ
  pub accessed_at : ℕ

-- MaxHistorySize
pub data HistorySize : Type 0 where
  at_most : ℕ → HistorySize
  negative : HistorySize

pub record TagConfig : Type 0 where
  pub default_ttl : ℕ
  pub max_history_size : HistorySize
  pub enable_history : Bool

-- `panicked` is the slice expression of PutTagMapping out of range.
pub data TagError : Type 0 where
  empty_reference invalid_reference empty_digest invalid_digest : TagError
  unreadable not_found write_failed remove_failed panicked : TagError

pub data Answer (A : Type 0) : Type 0 where
  ok : A → Answer A
  err : TagError → Answer A

abbrev pub is_negative : HistorySize → Bool
is_negative (at_most n) = false
is_negative negative = true

-- TagResolverConfig.Validate succeeds.
unfoldable pub is_valid_config : TagConfig → Bool
is_valid_config config =
    if leb config.default_ttl 0
    then false
    else if is_negative config.max_history_size
    then false
    else true

abbrev pub default_size : HistorySize → HistorySize
default_size (at_most n) = at_most (if n == 0 then 10 else n)
default_size negative = negative

unfoldable pub set_defaults : TagConfig → TagConfig
set_defaults config = record config {
  max_history_size = default_size config.max_history_size;
  enable_history = if not config.enable_history then true else config.enable_history;
}

-- NewTagCache keeps the configuration; the cache has no other state than its storage.
unfoldable pub new_tag_cache : TagConfig → TagConfig
unfolding is_valid_config set_defaults
new_tag_cache config = if is_valid_config config then config else set_defaults config

unfoldable pub is_expired : TagConfig → ℕ → TagEntry → Bool
is_expired config now entry =
    if leb config.default_ttl 0 then false else ltb (entry.created_at + config.default_ttl) now

-- The history with an entry more, and without its oldest ones where it is too long.
unfoldable pub limit_history : HistorySize → List TagHistoryEntry → Option (List TagHistoryEntry)
limit_history negative h = none
limit_history (at_most n) h = some (if ltb n (length h) then drop (length h - n) h else h)

-- The history of an entry that gets a digest.
unfoldable pub next_history : TagConfig → ℕ → Str → TagMapping → Option (List TagHistoryEntry)
unfolding limit_history
next_history config now digest old =
    if config.enable_history && not (str_eq old.digest digest)
    then limit_history config.max_history_size
        (old.history ++ (record { digest = old.digest; changed_at = now }) ∷ [])
    else some old.history

-- The update of an entry that is there.
abbrev pub with_digest : ℕ → Str → TagEntry → List TagHistoryEntry → TagEntry
with_digest now digest entry h = record {
  mapping = record entry.mapping { digest = digest; updated_at = now; history = h };
  created_at = entry.created_at;
  accessed_at = now;
}

unfoldable pub update_entry : TagConfig → ℕ → Str → TagEntry → Option TagEntry
unfolding next_history
update_entry config now digest entry = elim (next_history config now digest entry.mapping) [
  | none ↦ none
  | some h ↦ some (with_digest now digest entry h)
]

unfoldable pub new_entry : ℕ → Str → Str → TagEntry
new_entry now reference digest = record {
  mapping = record {
    reference = reference;
    digest = digest;
    created_at = now;
    updated_at = now;
    access_count = 0;
    history = [];
  };
  created_at = now;
  accessed_at = now;
}

-- What GetTagMapping writes back.
unfoldable pub accessed : ℕ → TagEntry → TagEntry
unfolding add64
accessed now entry = record entry {
  mapping = record entry.mapping { access_count = add64 entry.mapping.access_count 1 };
  accessed_at = now;
}

module _ {W : Type 0} (shelf : Shelf TagEntry W) (config : TagConfig) where
  unfoldable pub get_tag_mapping : ℕ → Str → W → Answer TagMapping × W
  get_tag_mapping now reference w =
      if not (is_valid_reference reference)
      then (err invalid_reference, w)
      else elim (shelf.read (tag_path reference) w) [
        | none ↦ (err unreadable, w)
        | some entry ↦
            if is_expired config now entry
            then (err not_found, (shelf.remove (tag_path reference) w).1)
            else (
              ok (accessed now entry).mapping,
              (shelf.write (tag_path reference) (accessed now entry) w).1,
            )
      ]

  -- What the write at the end answers.
  unfoldable pub write_tag_entry : Str → TagEntry → W → Answer (Unit {0}) × W
  write_tag_entry reference entry w =
      let (written, w') = shelf.write (tag_path reference) entry w in
      (if written then ok tt else err write_failed, w')

  -- The entry that PutTagMapping finds.
  unfoldable pub existing : ℕ → Str → W → Option TagEntry
  existing now reference w = elim (shelf.read (tag_path reference) w) [
    | none ↦ none
    | some entry ↦ if is_expired config now entry then none else some entry
  ]

  unfoldable pub put_tag_mapping : ℕ → Str → Str → W → Answer (Unit {0}) × W
  put_tag_mapping now reference digest w =
      if is_empty reference
      then (err empty_reference, w)
      else if is_empty digest
      then (err empty_digest, w)
      else if not (is_valid_reference reference)
      then (err invalid_reference, w)
      else if not (is_valid_digest digest)
      then (err invalid_digest, w)
      else elim (existing now reference w) [
        | none ↦ write_tag_entry reference (new_entry now reference digest) w
        | some entry ↦ elim (update_entry config now digest entry) [
          | none ↦ (err panicked, w)
          | some updated ↦ write_tag_entry reference updated w
        ]
      ]

  unfoldable pub has_tag_mapping : ℕ → Str → W → Answer Bool × W
  has_tag_mapping now reference w =
      if not (is_valid_reference reference)
      then (err invalid_reference, w)
      else elim (shelf.read (tag_path reference) w) [
        | none ↦ (ok false, w)
        | some entry ↦
            if is_expired config now entry
            then (ok false, (shelf.remove (tag_path reference) w).1)
            else (ok true, w)
      ]

  unfoldable pub delete_tag_mapping : Str → W → Answer (Unit {0}) × W
  delete_tag_mapping reference w =
      if not (is_valid_reference reference)
      then (err invalid_reference, w)
      else (let (removed, w') = shelf.remove (tag_path reference) w in
          (if removed then ok tt else err remove_failed, w'))

  unfoldable pub get_tag_history : ℕ → Str → W → Answer (List TagHistoryEntry) × W
  get_tag_history now reference w =
      if not (is_valid_reference reference)
      then (err invalid_reference, w)
      else elim (shelf.read (tag_path reference) w) [
        | none ↦ (ok [], w)
        | some entry ↦
            if is_expired config now entry
            then (ok [], (shelf.remove (tag_path reference) w).1)
            else (ok entry.mapping.history, w)
      ]
