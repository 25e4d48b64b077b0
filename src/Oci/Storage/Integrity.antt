-- ===== src/Oci/Storage/Integrity.antt =====
-- What oci/internal/cache/storage.go reads back.
use catalyst_forge_libs.Common.{
  ℕ, Bool, true, false, Option, none, some, [], ◌∷◌, ◌++◌, ◌≡◌, refl, ◌∙◌, ap, arith, inl, inr, Str,
  codes, str_eq, str_eq_iff, str_eq_self, some_pass, append_assoc, Bool-cases, Option-cases, ◌==◌,
  ==_iff, if◌then◌else◌,
}
use catalyst_forge_libs.Oci.Storage.{
  FileSystem, Reading, ok, corrupted, Storage, newline, split_line, write_with_checksum,
  read_with_checksum, clean_up, write_atomically, read_with_integrity,
}

-- A file system that does not fail, where `content` sees the bytes of a file.
pub record IsFileSystem {W : Type 0} (fs : FileSystem W) (content : Str → W → Option Str)
    : Type 0 where
  pub read_all-content : (p : Str) (w : W) → fs.read_all p w ≡ content p w
  pub content-exists : (p c : Str) (w : W) → content p w ≡ some c → fs.exists p w ≡ some true
  pub mkdir_all_succeeds : (p : Str) (w : W) → (fs.mkdir_all p w).0 ≡ true
  pub content-mkdir_all : (p q : Str) (w : W) → content q (fs.mkdir_all p w).1 ≡ content q w
  pub temp_dir_succeeds :
      (d prefix : Str) (w : W) → (t : Str) × ((fs.temp_dir d prefix w).0 ≡ some t)
  pub content-temp_dir :
      (d prefix q : Str) (w : W) → content q (fs.temp_dir d prefix w).1 ≡ content q w
  pub create_succeeds : (p : Str) (w : W) → (fs.create p w).0 ≡ true
  pub content-create :
      (p q : Str) (w : W)
      → content q (fs.create p w).1 ≡ (if str_eq p q then some [] else content q w)
  pub append_succeeds : (p b c : Str) (w : W) → content p w ≡ some c → (fs.append p b w).0 ≡ true
  pub content-append :
      (p b c q : Str) (w : W)
      → content p w ≡ some c
      → content q (fs.append p b w).1 ≡ (if str_eq p q then some (c ++ b) else content q w)
  pub rename_succeeds : (p to c : Str) (w : W) → content p w ≡ some c → (fs.rename p to w).0 ≡ true
  pub content-rename :
      (p to c q : Str) (w : W)
      → content p w ≡ some c
      → content q (fs.rename p to w).1
        ≡ (if str_eq to q then some c else if str_eq p q then none else content q w)
  pub content-remove :
      (p q : Str) (w : W) → content q (fs.remove p w).1 ≡ (if str_eq p q then none else content q w)

split_line_sound : (s a b : Str) → split_line s ≡ some (a, b) → s ≡ a ++ newline ∷ b
unfolding split_line
split_line_sound [] a b h = absurd (ground (arith, h))
split_line_sound (c ∷ s) a b h = elim (Bool-cases (c == newline)) [
  | inl end ↦
      let first : [] ≡ a = ground (arith, end, h) in
      let rest : s ≡ b = ground (arith, end, h) in
      ap (λ (x : ℕ). x ∷ s) ((==_iff c newline).0 end)
      ∙ ap (λ x. newline ∷ x) rest
      ∙ ap (λ x. x ++ newline ∷ b) first
  | inr middle ↦ elim (Option-cases (split_line s)) [
    | inl no_line ↦ absurd (ground (arith, middle, no_line, h))
    | inr (lines, found) ↦
        let first : c ∷ lines.0 ≡ a = ground (arith, middle, found, h) in
        let rest : lines.1 ≡ b = ground (arith, middle, found, h) in
        ap (λ (x : Str). c ∷ x) (split_line_sound s lines.0 lines.1 found)
        ∙ ap (λ x. c ∷ (lines.0 ++ newline ∷ x)) rest
        ∙ ap (λ x. x ++ newline ∷ b) first
  ]
]

split_line-append :
    (a b : Str)
    → some_pass (λ c. c == newline) a ≡ false
    → split_line (a ++ newline ∷ b) ≡ some (a, b)
unfolding split_line
split_line-append [] b h = refl
split_line-append (c ∷ a) b h =
    let middle : (c == newline) ≡ false = ground (arith, h) in
    rw (middle, split_line-append a b (ground (arith, h))) refl

module _ {W : Type 0} (fs : FileSystem W) (join : Str → Str → Str) (dir : Str → Str)
    (checksum : Str → Str) (s : Storage) where
  module _ {content : Str → W → Option Str} (faithful : IsFileSystem fs content) where
    write_with_checksum_lem :
        (p d q : Str) (w : W)
        → ((write_with_checksum fs join dir checksum p d w).0 ≡ true)
          × (content q (write_with_checksum fs join dir checksum p d w).1
              ≡ (if str_eq p q then some (checksum d ++ newline ∷ d) else content q w))
    unfolding write_with_checksum
    write_with_checksum_lem p d q w =
        let w1 = (fs.create p w).1 in
        let head = checksum d ++ newline ∷ [] in
        let w2 = (fs.append p head w1).1 in
        let empty : content p w1 ≡ some [] =
          faithful.content-create p p w ∙ rw (str_eq_self p) refl in
        let headed : content p w2 ≡ some head =
          faithful.content-append p head [] p w1 empty ∙ rw (str_eq_self p) refl in
        (
          rw
              (
                write_with_checksum,
                faithful.create_succeeds p w,
                faithful.append_succeeds p head [] w1 empty,
              )
              (faithful.append_succeeds p d head w2 headed),
          rw
              (
                write_with_checksum,
                faithful.create_succeeds p w,
                faithful.append_succeeds p head [] w1 empty,
              )
              (ground (
                arith,
                faithful.content-append p d head q w2 headed,
                faithful.content-append p head [] q w1 empty,
                faithful.content-create p q w,
                append_assoc (checksum d) (newline ∷ []) d,
              )),
        )

    content-clean_up :
        (t q : Str) (w : W)
        → str_eq t q ≡ false
        → content q (clean_up fs join dir checksum t w) ≡ content q w
    unfolding clean_up
    content-clean_up t q w apart = ground (arith, apart, faithful.content-remove t q w)

    -- A file whose bytes are a checksum and its data.
    read-of_content :
        (p d : Str) (w : W)
        → some_pass (λ c. c == newline) (checksum d) ≡ false
        → content p w ≡ some (checksum d ++ newline ∷ d)
        → read_with_checksum fs join dir checksum p w ≡ ok d
    unfolding read_with_checksum
    read-of_content p d w one_line there =
        rw
          (
            read_with_checksum,
            faithful.read_all-content p w,
            there,
            split_line-append (checksum d) d one_line,
            str_eq_self (checksum d),
          )
          refl

-- Whatever the file system does: what ReadWithIntegrity answers is the data of a file that holds the
-- checksum of the data on its first line, and then the data.
pub read_with_integrity_sound :
    {W : Type 0} (fs : FileSystem W) (join : Str → Str → Str) (dir : Str → Str)
    (checksum : Str → Str) (s : Storage) (p d : Str) (w : W)
    → read_with_integrity fs join dir checksum s p w ≡ ok d
    → fs.read_all (join s.root_path p) w ≡ some (checksum d ++ newline ∷ d)
unfolding read_with_integrity read_with_checksum
read_with_integrity_sound fs join dir checksum s p d w h =
    go (fs.exists (join s.root_path p) w) refl (fs.read_all (join s.root_path p) w) refl
  where
    lines_case :
        (bytes : Str) (lines : Option (Str × Str))
        → split_line bytes ≡ lines
        → (elim lines as (λ _. Reading) [
          | none ↦ corrupted
          | some l ↦ if str_eq l.0 (checksum l.1) then ok l.1 else corrupted
        ])
          ≡ ok d
        → some bytes ≡ some (checksum d ++ newline ∷ d)
    lines_case bytes none e k = absurd (ground arith)
    lines_case bytes (some l) e k =
        let data_is : l.1 ≡ d = ground (arith, k) in
        let sum_is : l.0 ≡ checksum l.1 = ground (arith, k, str_eq_iff l.0 (checksum l.1)) in
        ap some (
          split_line_sound bytes l.0 l.1 e
          ∙ ap (λ x. x ++ newline ∷ l.1) sum_is
          ∙ ap (λ x. checksum x ++ newline ∷ x) data_is)

    go :
        (there : Option Bool)
        → fs.exists (join s.root_path p) w ≡ there
        → (bytes : Option Str) → fs.read_all (join s.root_path p) w ≡ bytes
        → bytes ≡ some (checksum d ++ newline ∷ d)
    go none e bytes f = absurd (ground (arith, h, e))
    go (some false) e bytes f = absurd (ground (arith, h, e))
    go (some true) e none f = absurd (ground (arith, h, e, f))
    go (some true) e (some bytes) f =
        lines_case bytes (split_line bytes) refl (ground (arith, h, e, f))

-- The temporary files of the storage are not where its file `full` is.
abbrev pub Apart : {W : Type 0} → FileSystem W → (Str → Str → Str) → Storage → Str → Type 0
Apart {W} fs join s full =
    (t : Str) (w : W)
    → (fs.temp_dir s.temp_path (codes "cache_") w).0 ≡ some t
    → (str_eq (join t (codes "temp")) full ≡ false) × (str_eq t full ≡ false)

module _ {W : Type 0} {fs : FileSystem W} {content : Str → W → Option Str}
    (faithful : IsFileSystem fs content) (join : Str → Str → Str) (dir : Str → Str)
    (checksum : Str → Str) (s : Storage) where
  content-write_atomically :
      (p d q : Str) (w : W)
      → Apart fs join s (join s.root_path p)
      → Apart fs join s q
      → ((write_atomically fs join dir checksum s p d w).0 ≡ true)
        × (content q (write_atomically fs join dir checksum s p d w).1 ≡ (
            if str_eq (join s.root_path p) q
            then some (checksum d ++ newline ∷ d)
            else content q w))
  unfolding write_atomically
  content-write_atomically p d q w apart apart_too =
      let full = join s.root_path p in
      let w1 = (fs.mkdir_all (dir full) w).1 in
      let (t, made) = faithful.temp_dir_succeeds s.temp_path (codes "cache_") w1 in
      let w2 = (fs.temp_dir s.temp_path (codes "cache_") w1).1 in
      let temp = join t (codes "temp") in
      let w3 = (write_with_checksum fs join dir checksum temp d w2).1 in
      let w4 = (fs.rename temp full w3).1 in
      let written = (write_with_checksum_lem fs join dir checksum s faithful temp d q w2).0 in
      let temp_holds : content temp w3 ≡ some (checksum d ++ newline ∷ d) =
        (write_with_checksum_lem fs join dir checksum s faithful temp d temp w2).1
        ∙ rw (str_eq_self temp) refl in
      (
        rw (write_atomically, faithful.mkdir_all_succeeds (dir full) w, made, written)
            (faithful.rename_succeeds temp full (checksum d ++ newline ∷ d) w3 temp_holds),
        rw (write_atomically, faithful.mkdir_all_succeeds (dir full) w, made, written)
            (content-clean_up fs join dir checksum s faithful t q w4 (apart_too t w1 made).1
              ∙ ground (
                arith,
                faithful.content-rename temp full (checksum d ++ newline ∷ d) q w3 temp_holds,
                (write_with_checksum_lem fs join dir checksum s faithful temp d q w2).1,
                (apart_too t w1 made).0,
                faithful.content-temp_dir s.temp_path (codes "cache_") q w1,
                faithful.content-mkdir_all (dir full) q w,
              )),
      )

-- Over a file system that does not fail, and where the temporary files are apart from the file at hand
-- and from another one: WriteAtomically succeeds, ReadWithIntegrity then answers the data that was
-- written, and the bytes of the other file are as they were. The checksum has no line break.
pub read_with_integrity-write_atomically :
    {W : Type 0} (fs : FileSystem W) (content : Str → W → Option Str) (join : Str → Str → Str)
    (dir : Str → Str) (checksum : Str → Str) (s : Storage) (p d other : Str) (w : W)
    → IsFileSystem fs content
    → some_pass (λ c. c == newline) (checksum d) ≡ false
    → Apart fs join s (join s.root_path p)
    → Apart fs join s other
    → str_eq (join s.root_path p) other ≡ false
    → let (fine, w') = write_atomically fs join dir checksum s p d w in
      (fine ≡ true)
      × (read_with_integrity fs join dir checksum s p w' ≡ ok d)
      × (content other w' ≡ content other w)
unfolding read_with_integrity
read_with_integrity-write_atomically fs content join dir checksum s p d other w faithful one_line
      apart apart_too different =
    let full = join s.root_path p in
    let w' = (write_atomically fs join dir checksum s p d w).1 in
    let holds : content full w' ≡ some (checksum d ++ newline ∷ d) =
      (content-write_atomically faithful join dir checksum s p d full w apart apart).1
      ∙ rw (str_eq_self full) refl in
    (
      (content-write_atomically faithful join dir checksum s p d full w apart apart).0,
      rw (read_with_integrity, faithful.content-exists full (checksum d ++ newline ∷ d) w' holds)
          (read-of_content fs join dir checksum s faithful full d w' one_line holds),
      (content-write_atomically faithful join dir checksum s p d other w apart apart_too).1
          ∙ rw different refl,
    )
