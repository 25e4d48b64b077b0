-- ===== src/Tests/Files.antt =====
-- Examples for oci/internal/cache/storage.go over files in memory.
use catalyst_forge_libs.Common.{
  Bool, true, false, Option, none, some, [], ◌∷◌, ◌++◌, ◌≡◌, refl, subst, arith, Str, str_eq, codes,
  if◌then◌else◌,
}
use catalyst_forge_libs.Oci.Storage.{
  FileSystem, done, Reading, Storage, newline, split_line, read_with_checksum, write_atomically,
  read_with_integrity,
}
use catalyst_forge_libs.Oci.Storage.Integrity.{
  IsFileSystem, Apart, read_with_integrity_sound, read_with_integrity-write_atomically,
}

abbrev Files : Type 0
Files = Str → Option Str

abbrev set : Str → Option Str → Files → Files
set p c w q = if str_eq p q then c else w q

abbrev in_memory : FileSystem Files
in_memory = record {
  mkdir_all = λ p w. (true, w);
  temp_dir = λ d prefix w. (some (codes "t"), w);
  create = λ p w. (true, set p (some []) w);
  append = λ p b w. elim (w p) as (λ _. Bool × Files) [
    | none ↦ (false, w)
    | some c ↦ (true, set p (some (c ++ b)) w)
  ];
  read_all = λ p w. w p;
  exists = λ p w. elim (w p) [ none ↦ some false | some c ↦ some true ];
  rename = λ p to w. elim (w p) as (λ _. Bool × Files) [
    | none ↦ (false, w)
    | some c ↦ (true, set to (some c) (set p none w))
  ];
  remove = λ p w. (done, set p none w);
}

abbrev content : Str → Files → Option Str
content p w = w p

in_memory-IsFileSystem : IsFileSystem in_memory content
in_memory-IsFileSystem = record {
  read_all-content = λ p w. refl;
  content-exists = λ p c w h. rw h refl;
  mkdir_all_succeeds = λ p w. refl;
  content-mkdir_all = λ p q w. refl;
  temp_dir_succeeds = λ d prefix w. (codes "t", refl);
  content-temp_dir = λ d prefix q w. refl;
  create_succeeds = λ p w. refl;
  content-create = λ p q w. refl;
  append_succeeds = λ p b c w h. rw h refl;
  content-append = λ p b c q w h. rw h refl;
  rename_succeeds = λ p to c w h. rw h refl;
  content-rename = λ p to c q w h. rw h refl;
  content-remove = λ p q w. refl;
}

abbrev join : Str → Str → Str
join a b = a ++ b'/' ∷ b

abbrev dir : Str → Str
dir p = codes "r"

-- A checksum that only tells whether there is data.
abbrev checksum : Str → Str
checksum [] = codes "0"
checksum (c ∷ d) = codes "1"

abbrev storage : Storage
storage = record { root_path = codes "r"; temp_path = codes "r/.temp" }

away_from :
    (full : Str)
    → str_eq (codes "t/temp") full ≡ false
    → str_eq (codes "t") full ≡ false
    → Apart in_memory join storage full
away_from full temp_apart dir_apart t w made =
    let named : codes "t" ≡ t = ground (arith, made) in
    (
      subst (λ x. str_eq (join x (codes "temp")) full ≡ false) named temp_apart,
      subst (λ x. str_eq x full ≡ false) named dir_apart,
    )

distinct :
    (str_eq (codes "t/temp") (codes "r/x") ≡ false) × (str_eq (codes "t") (codes "r/x") ≡ false)
unfolding str_eq
distinct = (refl, refl)

distinct_too :
    (str_eq (codes "t/temp") (codes "r/y") ≡ false)
    × (str_eq (codes "t") (codes "r/y") ≡ false)
    × (str_eq (codes "r/x") (codes "r/y") ≡ false)
unfolding str_eq
distinct_too = (refl, refl, refl)

abbrev stored : Files
stored = set (codes "r/x") (some (codes "1" ++ newline ∷ codes "data")) (λ q. none)

read_back :
    read_with_integrity in_memory join dir checksum storage (codes "x") stored
    ≡ Reading.ok (codes "data")
unfolding read_with_integrity read_with_checksum split_line str_eq
read_back = refl

read_with_integrity_sound_example :
    stored (codes "r/x") ≡ some (codes "1" ++ newline ∷ codes "data")
read_with_integrity_sound_example =
    read_with_integrity_sound in_memory join dir checksum storage (codes "x") (codes "data") stored
      read_back

read_with_integrity-write_atomically_example :
    let (fine, w) =
      write_atomically in_memory join dir checksum storage (codes "x") (codes "new") stored in
    (fine ≡ true)
    × (read_with_integrity in_memory join dir checksum storage (codes "x") w
        ≡ Reading.ok (codes "new"))
    × (w (codes "r/y") ≡ stored (codes "r/y"))
read_with_integrity-write_atomically_example =
    read_with_integrity-write_atomically in_memory content join dir checksum storage (codes "x")
      (codes "new") (codes "r/y") stored in_memory-IsFileSystem refl
      (away_from (codes "r/x") distinct.0 distinct.1)
      (away_from (codes "r/y") distinct_too.0 distinct_too.1) distinct_too.2
