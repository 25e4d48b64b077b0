-- ===== src/Oci/Storage.antt =====
-- oci/internal/cache/storage.go over an interface of the file system (the billy wrapper of fs). A call
-- holds the locks of its file, so it is one step. filepath.Join and filepath.Dir are `join` and `dir`, and
-- `checksum` is the SHA-256 in hex. The context is not cancelled.
pub mod Integrity
use catalyst_forge_libs.Common.{
  ℕ, Bool, true, false, Option, none, some, List, [], ◌∷◌, ◌++◌, Str, codes, str_eq, is_empty, ◌==◌,
  if◌then◌else◌,
}

-- What Remove answers: done, os.IsNotExist, or another error.
pub data Removed : Type 0 where
  done absent failed : Removed

pub record FileSystem (W : Type 0) : Type 0 where
  pub mkdir_all : Str → W → Bool × W
  pub temp_dir : (dir prefix : Str) → W → Option Str × W
  pub create : Str → W → Bool × W
  pub append : (path bytes : Str) → W → Bool × W
  pub read_all : Str → W → Option Str
  pub exists : Str → W → Option Bool
  pub rename : (from to : Str) → W → Bool × W
  pub remove : Str → W → Removed × W

-- ErrCacheCorrupted is told from the other failures.
pub data Reading : Type 0 where
  ok : Str → Reading
  unreadable corrupted : Reading

pub record Storage : Type 0 where
  pub root_path : Str
  pub temp_path : Str

abbrev pub newline : ℕ
newline = 10

-- strings.SplitN(s, "\n", 2), where it has two parts
unfoldable pub split_line : Str → Option (Str × Str)
split_line [] = none
split_line (c ∷ s) =
    let rest = split_line s in
    if c == newline then some ([], s) else elim rest [ none ↦ none | some p ↦ some (c ∷ p.0, p.1) ]

module _ {W : Type 0} (fs : FileSystem W) (join : Str → Str → Str) (dir : Str → Str)
    (checksum : Str → Str) where
  unfoldable pub new_storage : Str → W → Option Storage × W
  new_storage root_path w =
      if is_empty root_path
      then (none, w)
      else (let (made, w1) = fs.mkdir_all root_path w in
          if made
          then (let temp = join root_path (codes ".temp") in
              let (made_too, w2) = fs.mkdir_all temp w1 in
              if made_too
              then (some (record { root_path = root_path; temp_path = temp }), w2)
              else (none, w2))
          else (none, w1))

  unfoldable pub write_with_checksum : Str → Str → W → Bool × W
  write_with_checksum path data_bytes w =
      let (created, w1) = fs.create path w in
      if created
      then (let (headed, w2) = fs.append path (checksum data_bytes ++ newline ∷ []) w1 in
          if headed then fs.append path data_bytes w2 else (false, w2))
      else (false, w1)

  unfoldable pub read_with_checksum : Str → W → Reading
  unfolding split_line
  read_with_checksum path w = elim (fs.read_all path w) [
    | none ↦ unreadable
    | some bytes ↦ elim (split_line bytes) [
      | none ↦ corrupted
      | some lines ↦ if str_eq lines.0 (checksum lines.1) then ok lines.1 else corrupted
    ]
  ]

  -- The deferred clean-up of the temporary directory.
  unfoldable pub clean_up : Str → W → W
  clean_up temp w = elim (fs.exists temp w) [
    | none ↦ w
    | some there ↦ if there then (fs.remove temp w).1 else w
  ]

  module _ (s : Storage) where
    unfoldable pub write_atomically : Str → Str → W → Bool × W
    write_atomically path data_bytes w =
        let full_path = join s.root_path path in
        let (made, w1) = fs.mkdir_all (dir full_path) w in
        if made
        then (let (temp, w2) = fs.temp_dir s.temp_path (codes "cache_") w1 in
            elim temp [
              | none ↦ (false, w2)
              | some t ↦
                  let (written, w3) = write_with_checksum (join t (codes "temp")) data_bytes w2 in
                  if written
                  then (let (renamed, w4) = fs.rename (join t (codes "temp")) full_path w3 in
                      (renamed, clean_up t w4))
                  else (false, clean_up t w3)
            ])
        else (false, w1)

    unfoldable pub read_with_integrity : Str → W → Reading
    read_with_integrity path w = elim (fs.exists (join s.root_path path) w) [
      | none ↦ unreadable
      | some there ↦ if there then read_with_checksum (join s.root_path path) w else unreadable
    ]

    unfoldable pub exists : Str → W → Option Bool
    exists path w = fs.exists (join s.root_path path) w

    unfoldable pub remove : Str → W → Bool × W
    remove path w =
        let (answer, w') = fs.remove (join s.root_path path) w in
        (elim answer as (λ _. Bool) [ done ↦ true | absent ↦ true | failed ↦ false ], w')
