-- ===== src/S3/Scanner/Excluded.antt =====
-- What the patterns of aws/s3/internal/sync/scanner do to the remote copies of the files that they leave out.
use catalyst_forge_libs.Common.{
  Bool, true, false, Option, none, some, List, [], ◌∷◌, ◌≡◌, ◌⊎◌, subst, refl, sym, ◌∙◌, ap, arith,
  inl, inr, Str, str_eq, str_eq_iff, In, some_pass, Bool-cases, Option-cases, false≢true,
}
use catalyst_forge_libs.Common.Dict.{Dict, lookup, insert, lookup-insert}
use catalyst_forge_libs.Common.Sort.{SortSlice}
use catalyst_forge_libs.S3.Comparator.{LocalFile, RemoteFile, Comparator}
use catalyst_forge_libs.S3.Planner.{Operation, add_locals, build_local_map}
use catalyst_forge_libs.S3.Planner.Latest.{latest_remote, build_remote_map-latest}
use catalyst_forge_libs.S3.Planner.Valid.{AnswersRelative}
use catalyst_forge_libs.S3.Client.{S3Client, IsFaithful}
use catalyst_forge_libs.S3.Executor.{Schedule}
use catalyst_forge_libs.S3.Scanner.{should_include_file, scan_local, matches_pattern}
use catalyst_forge_libs.S3.Sync.{Config, SyncResult, synced, sync}
use catalyst_forge_libs.S3.Sync.Mirror.{sync-IsMirror_maps}

module _ (rel : Str → Option Str) where
  -- Every file of a map is under its relative path, and is one of a list or of another map.
  lookup-add_locals :
      (fs : List LocalFile) (m : Dict LocalFile) (q : Str) (f : LocalFile)
      → lookup q (add_locals rel fs m) ≡ some f
      → (In f fs × (rel f.path ≡ some q)) ⊎ (lookup q m ≡ some f)
  unfolding add_locals
  lookup-add_locals [] m q f h = inr h
  lookup-add_locals (g ∷ fs) m q f h = elim (Option-cases (rel g.path)) [
    | inl unrelated ↦ elim (lookup-add_locals fs m q f (rw unrelated at h)) [
      | inl later ↦ inl (inr later.0, later.1)
      | inr before ↦ inr before
    ]
    | inr (r, its) ↦ elim (lookup-add_locals fs (insert r g m) q f (rw its at h)) [
      | inl later ↦ inl (inr later.0, later.1)
      | inr added ↦ elim (Bool-cases (str_eq r q)) [
        | inl same ↦
            let is_g : g ≡ f = ground (arith, added, same, lookup-insert r q g m) in
            inl (
              inl (sym is_g),
              ap (λ (x : LocalFile). rel x.path) (sym is_g)
                  ∙ its
                  ∙ ap some ((str_eq_iff r q).0 same),
            )
        | inr other ↦ inr (ground (arith, added, other, lookup-insert r q g m))
      ]
    ]
  ]

  lookup-build_local_map :
      (fs : List LocalFile) (q : Str) (f : LocalFile)
      → lookup q (build_local_map rel fs) ≡ some f
      → In f fs × (rel f.path ≡ some q)
  unfolding build_local_map
  lookup-build_local_map fs q f h = elim (lookup-add_locals fs [] q f h) [
    | inl found ↦ found
    | inr nowhere ↦ absurd (unfold lookup in ground (arith, nowhere))
  ]

  -- Every file that ScanLocal finds passes the patterns.
  scan_local-included :
      (match : (pattern name : Str) → Option Bool) (includes excludes : List Str)
      (walked files : List LocalFile) (f : LocalFile) (q : Str)
      → scan_local match rel includes excludes walked ≡ some files
      → In f files
      → rel f.path ≡ some q
      → should_include_file match q includes excludes ≡ true
  unfolding scan_local
  scan_local-included match includes excludes [] files f q h m its =
      absurd (nothing files (ground (arith, h)) m)
    where
      nothing : (files : List LocalFile) → [] ≡ files → In f files → ⊥
      nothing files e m = elim (subst (In f) (sym e) m) [ ]
  scan_local-included match includes excludes (g ∷ walked) files f q h m its =
      elim (Option-cases (rel g.path)) [
        | inl unrelated ↦ absurd (ground (arith, h, unrelated))
        | inr (r, g_rel) ↦ elim (Option-cases (scan_local match rel includes excludes walked)) [
          | inl stopped ↦ absurd (ground (arith, h, g_rel, stopped))
          | inr (rest, done) ↦ elim (Bool-cases (should_include_file match r includes excludes)) [
            | inr out ↦
                let same : rest ≡ files = ground (arith, h, g_rel, done, out) in
                scan_local-included match includes excludes walked rest f q done
                  (subst (In f) (sym same) m) its
            | inl inside ↦
                let same : g ∷ rest ≡ files = ground (arith, h, g_rel, done, inside) in
                elim (subst (In f) (sym same) m) [
                  | inr later ↦
                      scan_local-included match includes excludes walked rest f q done later its
                  | inl is_g ↦
                      let paths : some r ≡ some q =
                        sym g_rel ∙ ap (λ (x : LocalFile). rel x.path) (sym is_g) ∙ its in
                      let same_path : r ≡ q = ground (arith, paths) in
                      sym (ap (λ x. should_include_file match x includes excludes) same_path)
                      ∙ inside
                ]
          ]
        ]
      ]

excluded :
    (match : (pattern name : Str) → Option Bool) (q : Str) (includes excludes : List Str)
    → some_pass (matches_pattern match q) excludes ≡ true
    → should_include_file match q includes excludes ≡ false
unfolding should_include_file
excluded match q includes excludes h = rw h refl

-- A synchronisation that deletes extra files deletes the remote copies of the files that its patterns leave
-- out: if filepath.Rel answers relative paths and S3 does what it documents, then after a run that is no
-- dry run, on what ScanLocal found, an object is gone if an exclude pattern matches its path and it is the last
-- listed one at that path, whatever stands there on the local side.
pub excluded_is_deleted :
    {W : Type 0} (client : S3Client W) (object : Str → W → Option Str) (read : Str → Option Str)
    (schedule : Schedule) (sorter : SortSlice Operation) (compare : Comparator)
    (rel : Str → Option Str) (config : Config) (match : (pattern name : Str) → Option Bool)
    (includes excludes : List Str) (walked : List LocalFile) (objects : List RemoteFile) (q : Str)
    (remote : RemoteFile) (w w' : W) (r : SyncResult)
    → IsFaithful client object
    → AnswersRelative rel
    → config.dry_run ≡ false
    → config.delete_extra ≡ true
    → sync client read schedule sorter compare rel config
        (scan_local match rel includes excludes walked)
        (some objects)
        w
      ≡ (synced r, w')
    → latest_remote config.prefix objects q ≡ some remote
    → some_pass (matches_pattern match q) excludes ≡ true
    → object remote.key w' ≡ none
unfolding sync
excluded_is_deleted client object read schedule sorter compare rel config match includes excludes
      walked objects q remote w w' r faithful relative wet asked ran there out =
    elim (Option-cases (scan_local match rel includes excludes walked)) [
      | inl failed ↦ absurd (ground (arith, ran, failed))
      | inr (files, found) ↦
          let no_local : lookup q (build_local_map rel files) ≡ none =
            elim (Option-cases (lookup q (build_local_map rel files))) [
              | inl absent ↦ absent
              | inr (f, held) ↦
                  let (f_in, its) = lookup-build_local_map rel files q f held in
                  absurd (
                    false≢true (
                      sym (excluded match q includes excludes out)
                      ∙ scan_local-included rel match includes excludes walked files f q found f_in
                          its))
            ] in
          let mirror =
            sync-IsMirror_maps client object read schedule sorter compare rel config files objects w
              w' r faithful relative wet (rw found at ran) in
          mirror.at_extra q remote
            (ap (λ (g : Str → Option RemoteFile). g q)
                (build_remote_map-latest config.prefix objects)
              ∙ there)
            no_local
          ∙ rw asked refl
    ]
