-- ===== src/Oci/Index/RoundTrip.antt =====
-- Persist and then Load of oci/internal/cache/index.go.
use catalyst_forge_libs.Common.{
  ℕ, ◌≤◌, ◌==◌, Bool, true, false, Option, none, some, List, [], ◌∷◌, ◌++◌, ◌≡◌, refl, ◌∙◌, ap,
  arith, inl, inr, Str, str_eq, str_eq_iff, some_pass, is_empty, In, length, ltb, Bool-cases,
  if◌then◌else◌,
}
use catalyst_forge_libs.Common.Dict.{Dict, lookup, insert, lookup-insert}
use catalyst_forge_libs.Common.Sort.{SortSlice, Shuffle-In, Shuffle-sym}
use catalyst_forge_libs.Oci.Path.{split, cons_first}
use catalyst_forge_libs.Oci.Index.{
  IndexEntry, Index, IndexFile, Encoding, holds, keys_of, str_less, newline, trim_space,
  drop_last_empty, encode_entries, load_lines, load, persist, new_index,
}

-- No byte of the text is a newline.
abbrev pub has_newline : Str → Bool
has_newline = some_pass (λ c. c == newline)

-- What an entry that can be stored asks of the encoding: its JSON is one line, without space around it
-- and not too long, that decodes to the entry, which has a key.
pub record IsStorable (encoding : Encoding) (k : Str) (e : IndexEntry) : Type 0 where
  pub text : Str
  pub marshalled : encoding.marshal e ≡ some text
  pub decodes : encoding.unmarshal text ≡ some e
  pub one_line : has_newline text ≡ false
  pub trimmed : trim_space text ≡ text
  pub not_blank : is_empty text ≡ false
  pub fits : length text ≤ encoding.max_line
  pub keyed : e.key ≡ k
  pub named : is_empty k ≡ false

-- Every entry of the map can be stored, and stands under its own key.
abbrev pub Storable : Encoding → Dict IndexEntry → Type 0
Storable encoding m = (k : Str) (e : IndexEntry) → lookup k m ≡ some e → IsStorable encoding k e

-- A file that can be written, and then holds what was written.
pub record IsFile {W : Type 0} (file : IndexFile W) : Type 0 where
  pub replace_succeeds : (bytes : Str) (w : W) → (file.replace_file bytes w).0 ≡ true
  pub load-replace :
      (bytes : Str) (w : W) → file.load_file (file.replace_file bytes w).1 ≡ holds bytes

split-line :
    (line rest : Str)
    → has_newline line ≡ false
    → split newline (line ++ newline ∷ rest) ≡ line ∷ split newline rest
unfolding split
split-line [] rest h = refl
split-line (c ∷ line) rest h =
    let same_line : (c == newline) ≡ false = ground (arith, h) in
    rw (same_line, split-line line rest (ground (arith, h))) refl

drop_last_empty-cons :
    (line : Str) (bytes : Str)
    → drop_last_empty (line ∷ split newline bytes) ≡ line ∷ drop_last_empty (split newline bytes)
unfolding drop_last_empty split
drop_last_empty-cons line bytes = go (split newline bytes) (nonempty bytes)
  where
    first_there : (c : ℕ) (parts : List Str) → is_empty (cons_first c parts) ≡ false
    first_there c [] = refl
    first_there c (part ∷ parts) = refl

    nonempty : (bytes : Str) → is_empty (split newline bytes) ≡ false
    nonempty [] = refl
    nonempty (c ∷ bytes) = elim (Bool-cases (c == newline)) [
      | inl end ↦ rw end refl
      | inr middle ↦ rw middle (first_there c (split newline bytes))
    ]

    go :
        (parts : List Str)
        → is_empty parts ≡ false
        → drop_last_empty (line ∷ parts) ≡ line ∷ drop_last_empty parts
    go [] h = absurd (ground (arith, h))
    go (part ∷ parts) h = refl

abbrev among : Str → List Str → Bool
among k = some_pass (λ j. str_eq j k)

module _ (encoding : Encoding) (m : Dict IndexEntry) (storable : Storable encoding m) where
  -- What is written for some of the keys, and what the loop of Load makes of it.
  record Loads (ks : List Str) : Type 0 where
    bytes : Str
    encoded : encode_entries encoding ks m ≡ some bytes
    loads :
        (acc : Dict IndexEntry)
        → (load_lines encoding (drop_last_empty (split newline bytes)) acc).0 ≡ true
    looked :
        (acc : Dict IndexEntry) (k : Str)
        → lookup k (load_lines encoding (drop_last_empty (split newline bytes)) acc).1
          ≡ (if among k ks then lookup k m else lookup k acc)

  load_line :
      (k : Str) (e : IndexEntry) (s : IsStorable encoding k e) (lines : List Str)
      (acc : Dict IndexEntry)
      → load_lines encoding (s.text ∷ lines) acc ≡ load_lines encoding lines (insert k e acc)
  unfolding load_lines
  load_line k e s lines acc =
      let short : ltb encoding.max_line (length s.text) ≡ false = ground (arith, s.fits) in
      rw (load_lines, short, s.trimmed, s.not_blank, s.decodes, s.keyed, s.named) refl

  Loads-cons :
      (k : Str) (e : IndexEntry) (ks : List Str) → lookup k m ≡ some e → Loads ks → Loads (k ∷ ks)
  Loads-cons k e ks there rest =
      let s = storable k e there in
      let lines = drop_last_empty (split newline rest.bytes) in
      let split_up : drop_last_empty (split newline (s.text ++ newline ∷ rest.bytes))
          ≡ s.text ∷ lines =
        ap drop_last_empty (split-line s.text rest.bytes s.one_line)
        ∙ drop_last_empty-cons s.text rest.bytes in
      record {
        bytes = s.text ++ newline ∷ rest.bytes;
        encoded =
            unfold encode_entries in rw (encode_entries, there, s.marshalled, rest.encoded) refl;
        loads = λ acc. rw (split_up, load_line k e s lines acc) (rest.loads (insert k e acc));
        looked = λ acc j.
            rw (split_up, load_line k e s lines acc)
              (rest.looked (insert k e acc) j ∙ found s acc j);
      }
    where
      found :
          IsStorable encoding k e
          → (acc : Dict IndexEntry) (j : Str)
          → (if among j ks then lookup j m else lookup j (insert k e acc))
            ≡ (if among j (k ∷ ks) then lookup j m else lookup j acc)
      found s acc j = elim (Bool-cases (str_eq k j)) [
        | inl same ↦ ground (
          arith,
          same,
          lookup-insert k j e acc,
          there,
          ap (λ i. lookup i m) ((str_eq_iff k j).0 same),
        )
        | inr other ↦ ground (arith, other, lookup-insert k j e acc)
      ]

  Loads-of_keys :
      (ks : List Str) → ((k : Str) → In k ks → (e : IndexEntry) × (lookup k m ≡ some e)) → Loads ks
  Loads-of_keys [] h = record {
    bytes = [];
    encoded = unfold encode_entries in refl;
    loads = λ acc. unfold load_lines drop_last_empty split in refl;
    looked = λ acc k. unfold load_lines drop_last_empty split in refl;
  }
  Loads-of_keys (k ∷ ks) h =
      let (e, there) = h k (inl refl) in
      Loads-cons k e ks there (Loads-of_keys ks (λ j j_in. h j (inr j_in)))

In-keys_of :
    (m : Dict IndexEntry) (k : Str) → In k (keys_of m) → (e : IndexEntry) × (lookup k m ≡ some e)
unfolding lookup
In-keys_of [] k h = elim h [ ]
In-keys_of ((j, e) ∷ m) k (inl same) = (e, ground (arith, same, str_eq_iff j k))
In-keys_of ((j, e) ∷ m) k (inr later) = elim (Bool-cases (str_eq j k)) [
  | inl same ↦ (e, rw same refl)
  | inr other ↦ let (f, there) = In-keys_of m k later in (f, rw other there)
]

keys_of-In :
    (m : Dict IndexEntry) (k : Str) (e : IndexEntry) → lookup k m ≡ some e → In k (keys_of m)
unfolding lookup
keys_of-In [] k e h = absurd (ground (arith, h))
keys_of-In ((j, f) ∷ m) k e h = elim (Bool-cases (str_eq j k)) [
  | inl same ↦ inl (ground (arith, same, str_eq_iff j k))
  | inr other ↦ inr (keys_of-In m k e (ground (arith, other, h)))
]

among-of_In : (k : Str) (ks : List Str) → In k ks → among k ks ≡ true
among-of_In k [] h = elim h [ ]
among-of_In k (j ∷ ks) (inl same) = ground (arith, same, str_eq_iff j k)
among-of_In k (j ∷ ks) (inr later) = ground (arith, among-of_In k ks later)

module _ {W : Type 0} (encoding : Encoding) (file : IndexFile W) (sorter : SortSlice Str) where
  persist-of_bytes :
      (idx : Index) (bytes : Str) (w : W)
      → idx.is_unnamed ≡ false
      → encode_entries encoding (sorter.sort str_less (keys_of idx.entries)) idx.entries
        ≡ some bytes
      → persist encoding file sorter idx w ≡ file.replace_file bytes w
  unfolding persist
  persist-of_bytes idx bytes w named encoded = rw (named, encoded) refl

  load-of_bytes :
      (idx : Index) (bytes : Str) (w : W)
      → file.load_file w ≡ holds bytes
      → load encoding file sorter idx w ≡ (
        (load_lines encoding (drop_last_empty (split newline bytes)) idx.entries).0,
        record idx {
          entries = (load_lines encoding (drop_last_empty (split newline bytes)) idx.entries).1;
        },
      )
  unfolding load
  load-of_bytes idx bytes w there = rw (load, there) refl

-- If every entry stands under its own key and has a JSON of one line that is not too long and decodes to
-- it, and the file can be written, then Persist succeeds, and a Load into a new index succeeds and finds
-- under every key what the index held.
pub load-persist :
    {W : Type 0} (encoding : Encoding) (file : IndexFile W) (sorter : SortSlice Str) (idx : Index)
    (max_entries now : ℕ) (k : Str) (w : W)
    → IsFile file
    → Storable encoding idx.entries
    → idx.is_unnamed ≡ false
    → let (fine, w') = persist encoding file sorter idx w in
      let (loaded, idx') = load encoding file sorter (new_index false max_entries now) w' in
      (fine ≡ true) × (loaded ≡ true) × (lookup k idx'.entries ≡ lookup k idx.entries)
unfolding new_index
load-persist {W} encoding file sorter idx max_entries now k w faithful storable named =
    let ks = sorter.sort str_less (keys_of idx.entries) in
    let shuffle = sorter.shuffles str_less (keys_of idx.entries) in
    let all =
      Loads-of_keys encoding idx.entries storable ks
        (λ j j_in. In-keys_of idx.entries j (Shuffle-In j shuffle j_in)) in
    let start = new_index false max_entries now in
    let written = persist-of_bytes encoding file sorter idx all.bytes w named all.encoded in
    let read_back =
      ap (λ (p : Bool × W). load encoding file sorter start p.1) written
      ∙ load-of_bytes encoding file sorter start all.bytes (file.replace_file all.bytes w).1
          (faithful.load-replace all.bytes w) in
    (
      ap (λ (p : Bool × W). p.0) written ∙ faithful.replace_succeeds all.bytes w,
      ap (λ (p : Bool × Index). p.0) read_back ∙ all.loads [],
      ap (λ (p : Bool × Index). lookup k p.1.entries) read_back
          ∙ all.looked [] k
          ∙ every_key (lookup k idx.entries) refl,
    )
  where
    every_key :
        (o : Option IndexEntry)
        → lookup k idx.entries ≡ o
        → (if among k (sorter.sort str_less (keys_of idx.entries))
            then lookup k idx.entries
            else lookup k [])
          ≡ lookup k idx.entries
    every_key none absent = unfold lookup in ground (arith, absent)
    every_key (some e) held_there =
        rw
          (among-of_In k (sorter.sort str_less (keys_of idx.entries)) (
            Shuffle-In k (Shuffle-sym (sorter.shuffles str_less (keys_of idx.entries)))
              (keys_of-In idx.entries k e held_there)))
          refl
