-- ===== src/Oci/Index.antt =====
-- oci/internal/cache/index.go. encoding/json is `marshal` and `unmarshal`, sort.Strings the parameter
-- `sorter`, the file an interface. `now` is the time of a call in nanoseconds, a TTL that is not
-- positive is 0, and maxEntries is not negative. The comparison with three quarters of maxEntries is
-- exact, as that of the floats is below 2^51. The context is not cancelled.
pub mod RoundTrip
pub mod Laws
use catalyst_forge_libs.Common.{
  ℕ, ◌+◌, ◌*◌, Bool, true, false, not, Option, none, some, List, [], ◌∷◌, ◌++◌, Str, codes, length,
  is_empty, ltb, leb, ◌==◌, ◌||◌, ◌&&◌, if◌then◌else◌,
}
use catalyst_forge_libs.Common.Dict.{Dict, lookup, insert, remove}
use catalyst_forge_libs.Common.Sort.{SortSlice}
use catalyst_forge_libs.Common.Words.{add64}
use catalyst_forge_libs.Oci.Path.{split}

pub record IndexEntry : Type 0 where
  pub key : Str
  pub size : ℕ
  pub created_at : ℕ
  pub accessed_at : ℕ
  pub ttl : ℕ
  pub access_count : ℕ
  pub metadata : Dict Str
  pub file_path : Str

-- `index_path` is kept as whether it is empty.
pub record Index : Type 0 where
  pub entries : Dict IndexEntry
  pub is_unnamed : Bool
  pub max_entries : ℕ
  pub last_compaction : ℕ

-- What os.Stat, os.Open and the reads find under the index path.
pub data Found : Type 0 where
  missing unreadable : Found
  holds : Str → Found

-- The index file: reading it, and the temporary file that is written and renamed.
pub record IndexFile (W : Type 0) : Type 0 where
  pub load_file : W → Found
  pub replace_file : Str → W → Bool × W

-- encoding/json at the entries, and the longest line that bufio.Scanner returns.
pub record Encoding : Type 0 where
  pub marshal : IndexEntry → Option Str
  pub unmarshal : Str → Option IndexEntry
  pub max_line : ℕ

unfoldable pub is_expired : ℕ → IndexEntry → Bool
is_expired now entry = if leb entry.ttl 0 then false else ltb (entry.created_at + entry.ttl) now

unfoldable pub new_index : Bool → ℕ → ℕ → Index
new_index unnamed max_entries now = record {
  entries = [];
  is_unnamed = unnamed;
  max_entries = max_entries;
  last_compaction = now;
}

-- The entry is shared: the caller's is the one in the map.
unfoldable pub get : ℕ → Str → Index → Option IndexEntry × Index
unfolding lookup insert add64
get now key idx = elim (lookup key idx.entries) [
  | none ↦ (none, idx)
  | some entry ↦
      let touched = record entry { accessed_at = now; access_count = add64 entry.access_count 1 } in
      (some touched, record idx { entries = insert key touched idx.entries })
]

abbrev pub keys_of : Dict IndexEntry → List Str
keys_of [] = []
keys_of ((key, entry) ∷ entries) = key ∷ keys_of entries

-- for key, entry := range idx.entries { if test(entry) { delete(idx.entries, key) } }
unfoldable pub drop_if : (IndexEntry → Bool) → Dict IndexEntry → Dict IndexEntry
drop_if test [] = []
drop_if test ((key, entry) ∷ entries) =
    let rest = drop_if test entries in if test entry then rest else (key, entry) ∷ rest

-- Keys with a filter; the order is that of the map.
unfoldable pub keys : (IndexEntry → Bool) → Dict IndexEntry → List Str
keys filter [] = []
keys filter ((key, entry) ∷ entries) =
    let rest = keys filter entries in if filter entry then key ∷ rest else rest

unfoldable pub expired_keys : ℕ → Index → List Str
unfolding keys is_expired
expired_keys now idx = keys (is_expired now) idx.entries

-- delete(idx.entries, key) for each key of a list
unfoldable pub remove_all : List Str → Dict IndexEntry → Dict IndexEntry
unfolding remove
remove_all [] entries = entries
remove_all (key ∷ keys) entries = remove_all keys (remove key entries)

-- The order of sort.Strings.
unfoldable pub str_less : Str → Str → Bool
str_less [] [] = false
str_less [] (b ∷ t) = true
str_less (a ∷ s) [] = false
str_less (a ∷ s) (b ∷ t) = if a == b then str_less s t else ltb a b

abbrev pub newline : ℕ
newline = 10

abbrev pub is_space : ℕ → Bool
is_space c = c == b' ' || (leb 9 c && leb c 13)

abbrev pub trim_left : Str → Str
trim_left [] = []
trim_left (c ∷ s) = let rest = trim_left s in if is_space c then rest else c ∷ s

abbrev pub trim_right : Str → Str
trim_right [] = []
trim_right (c ∷ s) = let rest = trim_right s in if is_empty rest && is_space c then [] else c ∷ rest

-- strings.TrimSpace of ASCII
abbrev pub trim_space : Str → Str
trim_space s = trim_right (trim_left s)

-- bufio.ScanLines: an empty last line is not returned.
unfoldable pub drop_last_empty : List Str → List Str
drop_last_empty [] = []
drop_last_empty (line ∷ []) = if is_empty line then [] else line ∷ []
drop_last_empty (line ∷ next ∷ lines) = line ∷ drop_last_empty (next ∷ lines)

module _ (encoding : Encoding) where
  -- The lines that persist writes, `none` if an entry cannot be encoded.
  unfoldable pub encode_entries : List Str → Dict IndexEntry → Option Str
  unfolding lookup
  encode_entries [] entries = some []
  encode_entries (key ∷ keys) entries =
      let rest = encode_entries keys entries in
      let line = elim (lookup key entries) as (λ _. Option Str) [
        | none ↦ some (codes "null")
        | some entry ↦ encoding.marshal entry
      ] in
      elim line as (λ _. Option Str) [
        | none ↦ none
        | some text ↦ elim rest [ none ↦ none | some more ↦ some (text ++ newline ∷ more) ]
      ]

  -- The loop of Load, which ends with an error at a line that is too long.
  unfoldable pub load_lines : List Str → Dict IndexEntry → Bool × Dict IndexEntry
  unfolding insert
  load_lines [] entries = (true, entries)
  load_lines (line ∷ lines) entries =
      let skipped = load_lines lines entries in
      let text = trim_space line in
      if ltb encoding.max_line (length line)
      then (false, entries)
      else if is_empty text
      then skipped
      else elim (encoding.unmarshal text) [
        | none ↦ skipped
        | some entry ↦
            if is_empty entry.key
            then skipped
            else load_lines lines (insert entry.key entry entries)
      ]

  module _ {W : Type 0} (file : IndexFile W) (sorter : SortSlice Str) where
    unfoldable pub load : Index → W → Bool × Index
    unfolding load_lines split drop_last_empty
    load idx w = elim (file.load_file w) [
      | missing ↦ (true, idx)
      | unreadable ↦ (false, idx)
      | holds bytes ↦
          let (fine, entries) = load_lines (drop_last_empty (split newline bytes)) idx.entries in
          (fine, record idx { entries = entries })
    ]

    unfoldable pub persist : Index → W → Bool × W
    persist idx w =
        if idx.is_unnamed
        then (true, w)
        else elim (encode_entries (sorter.sort str_less (keys_of idx.entries)) idx.entries) [
          | none ↦ (false, w)
          | some bytes ↦ file.replace_file bytes w
        ]

    unfoldable pub put : Str → IndexEntry → Index → W → Bool × Index × W
    put key entry idx w =
        let idx' = record idx { entries = insert key entry idx.entries } in
        if leb idx.max_entries (length idx'.entries)
        then (let (fine, w') = persist idx' w in (fine, idx', w'))
        else (true, idx', w)

    unfoldable pub compact : ℕ → Index → W → Bool × Index × W
    unfolding drop_if
    compact now idx w =
        let idx' = record idx {
          entries = drop_if (is_expired now) idx.entries;
          last_compaction = now;
        } in
        let (fine, w') = persist idx' w in (fine, idx', w')

    -- len < maxEntries * 0.75
    abbrev pub is_sparse : Index → Bool
    is_sparse idx = ltb (4 * length idx.entries) (3 * idx.max_entries)

    unfoldable pub delete : ℕ → Str → Index → W → Bool × Index × W
    delete now key idx w =
        let idx' = record idx { entries = remove key idx.entries } in
        if is_sparse idx' then compact now idx' w else (true, idx', w)

    unfoldable pub cleanup : ℕ → Bool → Index → W → Bool × Index × W
    cleanup now force_compact idx w =
        let idx' = record idx { entries = remove_all (expired_keys now idx) idx.entries } in
        if force_compact
          || (is_sparse idx' || ltb (idx.last_compaction + 24 * (3600 * 1000000000)) now)
        then compact now idx' w
        else (true, idx', w)
