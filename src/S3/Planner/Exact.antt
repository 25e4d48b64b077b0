-- ===== src/S3/Planner/Exact.antt =====
-- What is in a plan: an operation is planned exactly for the reasons that the two maps give.
use catalyst_forge_libs.Common.{
  Bool, true, false, Option, none, some, List, [], ◌++◌, ◌≡◌, ◌↔◌, refl, sym, subst, arith, Str,
  inl, inr, In, In-append, In-append_left, In-append_right, if◌then◌else◌,
}
use catalyst_forge_libs.Common.Dict.{Dict, lookup, contains, Distinct, lookup-of_In, In-of_lookup}
use catalyst_forge_libs.Common.Sort.{SortSlice, Shuffle-In, Shuffle-sym}
use catalyst_forge_libs.S3.Comparator.{LocalFile, RemoteFile, Comparator}
use catalyst_forge_libs.S3.Planner.{
  Operation, Planned, ok, err, delete_operation, skip_operation, plan_uploads, plan_deletes,
  plan_skips, plan, build_local_map, build_remote_map, runs_before,
}
use catalyst_forge_libs.S3.Planner.Latest.{
  latest_local, latest_remote, build_local_map-latest, build_remote_map-latest,
}
use catalyst_forge_libs.S3.Planner.Maps.{build_local_map-Distinct, build_remote_map-IsKeyed}
use catalyst_forge_libs.S3.Planner.Uploads.{UploadOf, plan_uploads_sound, plan_uploads_complete}
use catalyst_forge_libs.S3.Planner.Picked.{
  picked_sound, picked_complete, plan_deletes-picked, plan_skips-picked, contains-false,
  contains-true,
}
use catalyst_forge_libs.S3.Planner.Reasons.{at, IsPlanned, new, changed, extra, on_both}

module _ (compare : Comparator) (prefix : Str) (locals : Dict LocalFile) (remotes : Dict RemoteFile)
    (distinct : Distinct locals) (distinct' : Distinct remotes) where
  -- What `plan` sorts.
  abbrev all_operations : List Operation → Bool → List Operation
  all_operations uploads delete_extra =
      (uploads ++ (if delete_extra then plan_deletes locals remotes else []))
      ++ plan_skips prefix locals remotes

  upload_sound :
      (delete_extra : Bool) (op : Operation) (q : Str) (f : LocalFile)
      → lookup q locals ≡ some f
      → UploadOf compare prefix remotes q f op
      → IsPlanned compare prefix (at locals) (at remotes) delete_extra op
  upload_sound delete_extra op q f local (UploadOf.new absent e) = new q f local absent e
  upload_sound delete_extra op q f local (UploadOf.change r there differs e) =
      changed q f r local there differs e

  deletes_sound :
      (delete_extra : Bool) (op : Operation)
      → In op (if delete_extra then plan_deletes locals remotes else [])
      → IsPlanned compare prefix (at locals) (at remotes) delete_extra op
  deletes_sound false op m = elim m [ ]
  deletes_sound true op m =
      let (q, r, found, passed, e) =
        picked_sound _ _ remotes op (subst (In op) (plan_deletes-picked locals remotes) m) in
      extra q r refl (lookup-of_In q r remotes distinct' found)
        (contains-false q locals (ground (arith, passed))) e

  skips_sound :
      (delete_extra : Bool) (op : Operation)
      → In op (plan_skips prefix locals remotes)
      → IsPlanned compare prefix (at locals) (at remotes) delete_extra op
  skips_sound delete_extra op m =
      let (q, f, found, passed, e) =
        picked_sound _ _ locals op (subst (In op) (plan_skips-picked prefix locals remotes) m) in
      let (r, there) = contains-true q remotes passed in
      on_both q f r (lookup-of_In q f locals distinct found) there e

  all_sound :
      (uploads : List Operation) (delete_extra : Bool) (op : Operation)
      → plan_uploads compare prefix locals remotes ≡ ok uploads
      → In op (all_operations uploads delete_extra)
      → IsPlanned compare prefix (at locals) (at remotes) delete_extra op
  all_sound uploads delete_extra op h m = elim (In-append op _ _ m) [
    | inl front ↦ elim (In-append op _ _ front) [
      | inl up ↦
          let (q, f, found, why) =
            plan_uploads_sound compare prefix remotes locals uploads op h up in
          upload_sound delete_extra op q f (lookup-of_In q f locals distinct found) why
      | inr del ↦ deletes_sound delete_extra op del
    ]
    | inr skipped ↦ skips_sound delete_extra op skipped
  ]

  upload_complete :
      (uploads : List Operation) (delete_extra : Bool) (op : Operation) (q : Str) (f : LocalFile)
      → plan_uploads compare prefix locals remotes ≡ ok uploads
      → lookup q locals ≡ some f
      → UploadOf compare prefix remotes q f op
      → In op (all_operations uploads delete_extra)
  upload_complete uploads delete_extra op q f h local u = In-append_left op _ _ (
      In-append_left op uploads _ (
        plan_uploads_complete compare prefix remotes locals uploads op q f h
          (In-of_lookup q f locals local) u))

  deletes_complete :
      (delete_extra : Bool) (op : Operation) (q : Str) (r : RemoteFile)
      → delete_extra ≡ true
      → lookup q remotes ≡ some r
      → lookup q locals ≡ none
      → op ≡ delete_operation r
      → In op (if delete_extra then plan_deletes locals remotes else [])
  deletes_complete delete_extra op q r asked there absent e = rw asked (
      rw plan_deletes-picked (
        rw e (
          picked_complete _ _ remotes q r (In-of_lookup q r remotes there)
            (unfold contains in rw (absent, contains) refl))))

  skips_complete :
      (op : Operation) (q : Str) (f : LocalFile) (r : RemoteFile)
      → lookup q locals ≡ some f
      → lookup q remotes ≡ some r
      → op ≡ skip_operation prefix q f
      → In op (plan_skips prefix locals remotes)
  skips_complete op q f r local there e = rw plan_skips-picked (
      rw e (
        picked_complete _ _ locals q f (In-of_lookup q f locals local)
          (unfold contains in rw (there, contains) refl)))

  all_complete :
      (uploads : List Operation) (delete_extra : Bool) (op : Operation)
      → plan_uploads compare prefix locals remotes ≡ ok uploads
      → IsPlanned compare prefix (at locals) (at remotes) delete_extra op
      → In op (all_operations uploads delete_extra)
  all_complete uploads delete_extra op h (new q f local absent e) =
      upload_complete uploads delete_extra op q f h local (UploadOf.new absent e)
  all_complete uploads delete_extra op h (changed q f r local there differs e) =
      upload_complete uploads delete_extra op q f h local (UploadOf.change r there differs e)
  all_complete uploads delete_extra op h (extra q r asked there absent e) =
      In-append_left op (uploads ++ (if delete_extra then plan_deletes locals remotes else [])) _
        (In-append_right op uploads _ (deletes_complete delete_extra op q r asked there absent e))
  all_complete uploads delete_extra op h (on_both q f r local there e) =
      In-append_right op (uploads ++ (if delete_extra then plan_deletes locals remotes else [])) _
        (skips_complete op q f r local there e)

-- How a plan is made.
pub plan_inversion :
    (sorter : SortSlice Operation) (compare : Comparator) (rel : Str → Option Str) (prefix : Str)
    (files : List LocalFile) (objects : List RemoteFile) (delete_extra : Bool)
    (ops : List Operation)
    → plan sorter compare rel prefix files objects delete_extra ≡ ok ops
    → let locals = build_local_map rel files in
      let remotes = build_remote_map prefix objects in
      (uploads : List Operation) × (plan_uploads compare prefix locals remotes ≡ ok uploads)
      × (ops
          ≡ sorter.sort runs_before (
              (uploads ++ (if delete_extra then plan_deletes locals remotes else []))
              ++ plan_skips prefix locals remotes))
unfolding plan
plan_inversion sorter compare rel prefix files objects delete_extra ops h =
    go (plan_uploads compare prefix (build_local_map rel files) (build_remote_map prefix objects))
      refl
  where
    go :
        (u : Planned (List Operation))
        → plan_uploads compare prefix (build_local_map rel files) (build_remote_map prefix objects)
          ≡ u
        → (uploads : List Operation) × (plan_uploads compare prefix
              (build_local_map rel files)
              (build_remote_map prefix objects)
            ≡ ok uploads)
          × (ops
              ≡ sorter.sort runs_before (
                  (uploads
                    ++ (if delete_extra
                        then plan_deletes
                            (build_local_map rel files)
                            (build_remote_map prefix objects)
                        else []))
                  ++ plan_skips prefix
                      (build_local_map rel files)
                      (build_remote_map prefix objects)))
    go (ok uploads) e = (uploads, e, ground arith)
    go (err f) e = absurd (ground arith)

-- The same over the two maps of the planner.
pub plan_exact_maps :
    (sorter : SortSlice Operation) (compare : Comparator) (rel : Str → Option Str) (prefix : Str)
    (files : List LocalFile) (objects : List RemoteFile) (delete_extra : Bool)
    (ops : List Operation)
    → plan sorter compare rel prefix files objects delete_extra ≡ ok ops
    → (op : Operation)
    → In op ops
      ↔ IsPlanned compare prefix
          (at (build_local_map rel files))
          (at (build_remote_map prefix objects))
          delete_extra
          op
plan_exact_maps sorter compare rel prefix files objects delete_extra ops h op =
    let locals = build_local_map rel files in
    let remotes = build_remote_map prefix objects in
    let distinct = build_local_map-Distinct rel files in
    let distinct' = (build_remote_map-IsKeyed prefix objects).distinct in
    let (uploads, planned, e) =
      plan_inversion sorter compare rel prefix files objects delete_extra ops h in
    let all =
      all_operations compare prefix locals remotes distinct distinct' uploads delete_extra in
    let shuffle = sorter.shuffles runs_before all in
    (
      λ m.
          all_sound compare prefix locals remotes distinct distinct' uploads delete_extra op planned
            (Shuffle-In op shuffle (subst (In op) e m)),
      λ why. subst (In op) (sym e) (
          Shuffle-In op (Shuffle-sym shuffle) (
            all_complete compare prefix locals remotes distinct distinct' uploads delete_extra op
              planned why)),
    )

-- A plan that is made holds an operation exactly where there is a reason for it, where the file at a path
-- is the last local one that filepath.Rel gives that path, and the object at a path the last listed one
-- whose key is the prefix, then perhaps a slash, then the path: an upload, to the prefix with the path, of
-- each file at a path with no object or with one from which the comparator finds it changed; a deletion,
-- if asked for, of each object at a path with no file; and a skip for each path with both, whatever the
-- comparator finds.
pub plan_exact :
    (sorter : SortSlice Operation) (compare : Comparator) (rel : Str → Option Str) (prefix : Str)
    (files : List LocalFile) (objects : List RemoteFile) (delete_extra : Bool)
    (ops : List Operation)
    → plan sorter compare rel prefix files objects delete_extra ≡ ok ops
    → (op : Operation)
    → In op ops
      ↔ IsPlanned compare prefix
          (latest_local rel files)
          (latest_remote prefix objects)
          delete_extra
          op
plan_exact sorter compare rel prefix files objects delete_extra ops h op =
    subst
      (λ (locals : Str → Option LocalFile).
        In op ops ↔ IsPlanned compare prefix locals (latest_remote prefix objects) delete_extra op)
      (build_local_map-latest rel files)
      (subst
        (λ (remotes : Str → Option RemoteFile).
          In op ops
          ↔ IsPlanned compare prefix (at (build_local_map rel files)) remotes delete_extra op)
        (build_remote_map-latest prefix objects)
        (plan_exact_maps sorter compare rel prefix files objects delete_extra ops h op))
