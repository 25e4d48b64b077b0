-- ===== src/S3/Planner/Valid.antt =====
-- The plans that planner.go makes pass its ValidatePlan.
use catalyst_forge_libs.Common.{
  Bool, false, Option, none, some, List, [], ◌∷◌, ◌++◌, ◌≡◌, ◌≢◌, refl, arith, Str, codes, sym, ap,
  ◌∙◌, has_prefix, has_prefix-append, drop_prefix-append, str_eq_iff,
}
use catalyst_forge_libs.Common.Dict.{Dict, lookup, insert, lookup-insert}
use catalyst_forge_libs.Common.Sort.{SortSlice}
use catalyst_forge_libs.S3.Comparator.{LocalFile, RemoteFile, Comparator}
use catalyst_forge_libs.S3.Planner.{
  upload, delete, Operation, ok, plan, validate_plan, add_locals, build_local_map, build_remote_map,
  remote_rel,
}
use catalyst_forge_libs.S3.Planner.Maps.{build_remote_map-IsKeyed}
use catalyst_forge_libs.S3.Planner.Reasons.{IsPlanned, new, changed, extra, on_both}
use catalyst_forge_libs.S3.Planner.Exact.{plan_exact_maps}
use catalyst_forge_libs.S3.Planner.Validity.{validate_plan_complete}

-- What filepath.Rel answers is a relative path: it has no slash in front.
abbrev pub AnswersRelative : (Str → Option Str) → Type 0
AnswersRelative rel = (p q : Str) → rel p ≡ some q → has_prefix q (codes "/") ≡ false

abbrev IsRelative : Dict LocalFile → Type 0
IsRelative m = (q : Str) (f : LocalFile) → lookup q m ≡ some f → has_prefix q (codes "/") ≡ false

module _ (rel : Str → Option Str) (relative : AnswersRelative rel) where
  add_locals-IsRelative :
      (fs : List LocalFile) (m : Dict LocalFile) → IsRelative m → IsRelative (add_locals rel fs m)
  unfolding add_locals
  add_locals-IsRelative [] m h = h
  add_locals-IsRelative (f ∷ fs) m h = add_locals-IsRelative fs _ (step (rel f.path) refl)
    where
      step :
          (o : Option Str)
          → rel f.path ≡ o
          → IsRelative (elim o as (λ _. Dict LocalFile) [ none ↦ m | some r ↦ insert r f m ])
      step none e = h
      step (some r) e = λ q g found.
          ground (arith, lookup-insert r q f m, str_eq_iff r q, h q g, relative f.path r e)

  build_local_map-IsRelative : (fs : List LocalFile) → IsRelative (build_local_map rel fs)
  unfolding build_local_map
  build_local_map-IsRelative fs =
      add_locals-IsRelative fs [] (λ q f found. absurd (unfold lookup in ground arith))

-- The path of a key that is the prefix and a relative path.
remote_rel-append :
    (prefix q : Str) → has_prefix q (codes "/") ≡ false → remote_rel prefix (prefix ++ q) ≡ q
unfolding remote_rel
remote_rel-append prefix q h =
    ground (arith, has_prefix-append prefix q, drop_prefix-append prefix q)

-- A remote file whose key is the prefix and the path of a local file stands under that path.
pub same_path :
    (rel : Str → Option Str) (prefix : Str) (files : List LocalFile) (objects : List RemoteFile)
    (q q' : Str) (f : LocalFile) (r : RemoteFile)
    → AnswersRelative rel
    → lookup q (build_local_map rel files) ≡ some f
    → lookup q' (build_remote_map prefix objects) ≡ some r
    → r.key ≡ prefix ++ q
    → q' ≡ q
same_path rel prefix files objects q q' f r relative local there key =
    ((build_remote_map-IsKeyed prefix objects).keyed q' r there).1
    ∙ ap (remote_rel prefix) key
    ∙ remote_rel-append prefix q (build_local_map-IsRelative rel relative files q f local)

module _ {compare : Comparator} {prefix : Str} {locals : Str → Option LocalFile}
    {remotes : Str → Option RemoteFile} {delete_extra : Bool} where
  -- The local file that a planned upload is for.
  upload_source :
      (op : Operation)
      → IsPlanned compare prefix locals remotes delete_extra op
      → op.kind ≡ upload
      → (q : Str) × (f : LocalFile) × (locals q ≡ some f) × (op.remote_key ≡ prefix ++ q)
  upload_source op (new q f local absent e) k =
      (q, f, local, ap (λ (o : Operation). o.remote_key) e)
  upload_source op (changed q f r local there differs e) k =
      (q, f, local, ap (λ (o : Operation). o.remote_key) e)
  upload_source op (extra q r asked there absent e) k =
      absurd (ground (arith, ap (λ (o : Operation). o.kind) e))
  upload_source op (on_both q f r local there e) k =
      absurd (ground (arith, ap (λ (o : Operation). o.kind) e))

  -- The remote file that a planned deletion is for.
  delete_source :
      (op : Operation)
      → IsPlanned compare prefix locals remotes delete_extra op
      → op.kind ≡ delete
      → (q : Str) × (r : RemoteFile) × (remotes q ≡ some r)
        × (locals q ≡ none)
        × (op.remote_key ≡ r.key)
  delete_source op (new q f local absent e) k =
      absurd (ground (arith, ap (λ (o : Operation). o.kind) e))
  delete_source op (changed q f r local there differs e) k =
      absurd (ground (arith, ap (λ (o : Operation). o.kind) e))
  delete_source op (extra q r asked there absent e) k =
      (q, r, there, absent, ap (λ (o : Operation). o.remote_key) e)
  delete_source op (on_both q f r local there e) k =
      absurd (ground (arith, ap (λ (o : Operation). o.kind) e))

-- If filepath.Rel answers relative paths, ValidatePlan accepts every plan with an operation: no
-- object is uploaded and deleted in one plan, whatever the prefix and the two file lists.
pub validate_plan-plan :
    (sorter : SortSlice Operation) (compare : Comparator) (rel : Str → Option Str) (prefix : Str)
    (files : List LocalFile) (objects : List RemoteFile) (delete_extra : Bool)
    (ops : List Operation)
    → AnswersRelative rel
    → plan sorter compare rel prefix files objects delete_extra ≡ ok ops
    → ops ≢ []
    → validate_plan ops ≡ ok tt
validate_plan-plan sorter compare rel prefix files objects delete_extra ops relative h ne =
    validate_plan_complete ops ne λ a b ma mb ka kb same.
      let why = plan_exact_maps sorter compare rel prefix files objects delete_extra ops h in
      let (q, f, local, a_key) = upload_source a ((why a).0 ma) ka in
      let (q', r, there, absent, b_key) = delete_source b ((why b).0 mb) kb in
      let path =
        same_path rel prefix files objects q q' f r relative local there
          (sym b_key ∙ sym same ∙ a_key) in
      absurd (ground (arith, local, absent, ap (λ p. lookup p (build_local_map rel files)) path))
