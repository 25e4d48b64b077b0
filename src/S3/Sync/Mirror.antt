-- ===== src/S3/Sync/Mirror.antt =====
-- The bucket after a synchronisation of aws/s3/internal/sync/sync/sync.go, key by key.
use catalyst_forge_libs.Common.{
  Bool, true, false, Option, none, some, List, [], ◌++◌, ◌≡◌, ◌⊎◌, refl, sym, ◌∙◌, ap, subst, arith,
  inl, inr, Str, str_eq, str_eq_iff, All, In, keep_if, Bool-cases, false≢true, if◌then◌else◌,
}
use catalyst_forge_libs.Common.Dict.{Dict, lookup}
use catalyst_forge_libs.Common.Sort.{SortSlice, All-of_In}
use catalyst_forge_libs.S3.Comparator.{LocalFile, RemoteFile, Comparator}
use catalyst_forge_libs.S3.Planner.{
  Operation, upload, delete, delete_operation, Planned, ok, err, plan, build_local_map,
  build_remote_map,
}
use catalyst_forge_libs.S3.Planner.Reasons.{IsPlanned, extra, at}
use catalyst_forge_libs.S3.Planner.Exact.{plan_exact_maps}
use catalyst_forge_libs.S3.Planner.Valid.{AnswersRelative, same_path}
use catalyst_forge_libs.S3.Client.{S3Client, IsFaithful, is_among}
use catalyst_forge_libs.S3.Executor.{Schedule, is_kind, remote_keys}
use catalyst_forge_libs.S3.Sync.{Config, SyncResult, synced, execute_operations, sync}
use catalyst_forge_libs.S3.Sync.Effect.{is_among_of_In, In-of_is_among, object-execute_operations}
use catalyst_forge_libs.S3.Sync.Reasons.{
  wanted, IsMirror, append_cancel, some_injective, not_true, In-kind, kind-In, upload_facts,
  delete_facts, wanted_planned,
}

-- A plan and what its operations do to a key.
module _ (sorter : SortSlice Operation) (compare : Comparator) (rel : Str → Option Str)
    (prefix : Str) (files : List LocalFile) (objects : List RemoteFile) (delete_extra : Bool)
    (ops : List Operation) (relative : AnswersRelative rel)
    (planned : plan sorter compare rel prefix files objects delete_extra ≡ ok ops) where
  abbrev locals : Dict LocalFile
  locals = build_local_map rel files

  abbrev remotes : Dict RemoteFile
  remotes = build_remote_map prefix objects

  abbrev why :
      (op : Operation)
      → In op ops
      → IsPlanned compare prefix (at locals) (at remotes) delete_extra op
  why op m =
      (plan_exact_maps sorter compare rel prefix files objects delete_extra ops planned op).0 m

  abbrev uploaded : Str → Bool
  uploaded k = is_among k (remote_keys (keep_if (is_kind upload) ops))

  abbrev deleted : Str → Bool
  deleted k = is_among k (remote_keys (keep_if (is_kind delete) ops))

  upload_at :
      (k : Str)
      → uploaded k ≡ true
      → (q : Str) × (f : LocalFile) × (lookup q locals ≡ some f)
        × (k ≡ prefix ++ q)
        × (wanted compare f (lookup q remotes) ≡ true)
  upload_at k h =
      let (op, m, e) = In-of_is_among k _ h in
      let (there, kind) = In-kind upload ops op m in
      let (q, f, local, key, path, sent) = upload_facts op (why op there) kind in
      (q, f, local, sym e ∙ key, sent)

  delete_at :
      (k : Str)
      → deleted k ≡ true
      → (q : Str) × (r : RemoteFile) × (delete_extra ≡ true)
        × (lookup q remotes ≡ some r)
        × (lookup q locals ≡ none)
        × (k ≡ r.key)
  delete_at k h =
      let (op, m, e) = In-of_is_among k _ h in
      let (there, kind) = In-kind delete ops op m in
      let (q, r, asked, there', absent, key) = delete_facts op (why op there) kind in
      (q, r, asked, there', absent, sym e ∙ key)

  local-uploaded :
      (q : Str) (f : LocalFile)
      → lookup q locals ≡ some f
      → uploaded (prefix ++ q) ≡ wanted compare f (lookup q remotes)
  local-uploaded q f local = elim (Bool-cases (wanted compare f (lookup q remotes))) [
    | inl sent ↦
        let (op, reason, kind, key) = wanted_planned {delete_extra = delete_extra} q f local sent in
        is_among_of_In (prefix ++ q) _ op
          (kind-In upload ops op
            ((plan_exact_maps sorter compare rel prefix files objects delete_extra ops planned op).1
              reason)
            kind)
          key
        ∙ sym sent
    | inr unsent ↦
        not_true (uploaded (prefix ++ q)) (λ h.
          let (q', f', local', key, sent) = upload_at (prefix ++ q) h in
          clash q' f' local' (append_cancel prefix q q' key) sent unsent)
        ∙ sym unsent
  ]
    where
      clash :
          (q' : Str) (f' : LocalFile)
          → lookup q' locals ≡ some f'
          → q ≡ q'
          → wanted compare f' (lookup q' remotes) ≡ true
          → wanted compare f (lookup q remotes) ≡ false
          → ⊥
      clash q' f' local' e sent unsent =
          let same : some f' ≡ some f = sym local' ∙ ap (λ p. lookup p locals) (sym e) ∙ local in
          false≢true (
            sym unsent
            ∙ ap (λ p. wanted compare f (lookup p remotes)) e
            ∙ ap (λ (g : LocalFile). wanted compare g (lookup q' remotes))
                (some_injective (sym same))
            ∙ sent)

  local_not_deleted :
      (q : Str) (f : LocalFile) → lookup q locals ≡ some f → deleted (prefix ++ q) ≡ false
  local_not_deleted q f local = not_true (deleted (prefix ++ q)) λ h.
      let (q', r, asked, there, absent, key) = delete_at (prefix ++ q) h in
      let path = same_path rel prefix files objects q q' f r relative local there (sym key) in
      absurd (ground (arith, local, absent, ap (λ p. lookup p locals) path))

  extra_not_uploaded :
      (q : Str) (r : RemoteFile)
      → lookup q remotes ≡ some r
      → lookup q locals ≡ none
      → uploaded r.key ≡ false
  extra_not_uploaded q r there absent = not_true (uploaded r.key) λ h.
      let (q', f, local, key, sent) = upload_at r.key h in
      let path = same_path rel prefix files objects q' q f r relative local there key in
      absurd (ground (arith, local, absent, ap (λ p. lookup p locals) path))

  extra-deleted :
      (q : Str) (r : RemoteFile)
      → lookup q remotes ≡ some r
      → lookup q locals ≡ none
      → deleted r.key ≡ delete_extra
  extra-deleted q r there absent = elim (Bool-cases delete_extra) [
    | inl asked ↦
        is_among_of_In r.key _ (delete_operation r)
          (kind-In delete ops (delete_operation r)
            ((plan_exact_maps sorter compare rel prefix files objects delete_extra ops planned
                (delete_operation r)).1
              (extra q r asked there absent refl))
            refl)
          refl
        ∙ sym asked
    | inr not_asked ↦
        not_true (deleted r.key) (λ h.
          let (q', r', asked, there', absent', key) = delete_at r.key h in
          false≢true (sym not_asked ∙ asked))
        ∙ sym not_asked
  ]

  -- Every upload to the key of a local file sends that file.
  local-Sends :
      (read : Str → Option Str) (q : Str) (f : LocalFile) (body : Str)
      → lookup q locals ≡ some f
      → read f.path ≡ some body
      → All
          (λ op. (str_eq op.remote_key (prefix ++ q) ≡ false) ⊎ (read op.local_path ≡ some body))
          (keep_if (is_kind upload) ops)
  local-Sends read q f body local opened = All-of_In _ _ λ op m.
      let (there, kind) = In-kind upload ops op m in
      let (q', f', local', key, path, sent) = upload_facts op (why op there) kind in
      elim (Bool-cases (str_eq op.remote_key (prefix ++ q))) [
        | inr other ↦ inl other
        | inl same ↦
            let e =
              append_cancel prefix q' q
                (sym key ∙ (str_eq_iff op.remote_key (prefix ++ q)).0 same) in
            inr (ground (arith, opened, path, local, local', ap (λ p. lookup p locals) e))
      ]

  other-Sends :
      (read : Str → Option Str) (k body : Str)
      → uploaded k ≡ false
      → All
          (λ op. (str_eq op.remote_key k ≡ false) ⊎ (read op.local_path ≡ some body))
          (keep_if (is_kind upload) ops)
  other-Sends read k body h = All-of_In _ _ λ op m. inl (
      not_true (str_eq op.remote_key k) (λ same.
        false≢true (sym h ∙ is_among_of_In k _ op m ((str_eq_iff op.remote_key k).0 same))))

  -- What the operations of the plan leave in the bucket.
  execute_operations-IsMirror :
      {W : Type 0} (client : S3Client W) (object : Str → W → Option Str) (read : Str → Option Str)
      (schedule : Schedule) (dry_run : Bool) (w : W)
      → IsFaithful client object
      → IsMirror compare
          (record { prefix = prefix; delete_extra = delete_extra; dry_run = dry_run })
          (at locals)
          (at remotes)
          read
          (λ k. object k w)
          (λ k. object k (execute_operations client read schedule ops w).1)
  execute_operations-IsMirror client object read schedule dry_run w faithful = record {
    at_local = λ q f body local opened.
        object-execute_operations faithful (prefix ++ q) read schedule body ops w
          (local-Sends read q f body local opened)
        ∙ ap
            (λ (b : Bool).
              if b
              then none
              else if uploaded (prefix ++ q)
              then some body
              else object (prefix ++ q) w)
            (local_not_deleted q f local)
        ∙ ap (λ (b : Bool). if b then some body else object (prefix ++ q) w)
            (local-uploaded q f local);
    at_extra = λ q r there absent.
        let quiet = extra_not_uploaded q r there absent in
        object-execute_operations faithful r.key read schedule [] ops w
          (other-Sends read r.key [] quiet)
        ∙ ap (λ (b : Bool). if b then none else if uploaded r.key then some [] else object r.key w)
            (extra-deleted q r there absent)
        ∙ ap (λ (b : Bool). if delete_extra then none else if b then some [] else object r.key w)
            quiet;
    at_other = λ k no_local no_remote.
        let quiet =
          not_true (uploaded k)
            (λ h. let (q, f, local, key, sent) = upload_at k h in no_local q f local key) in
        object-execute_operations faithful k read schedule [] ops w (other-Sends read k [] quiet)
        ∙ ap (λ (b : Bool). if b then none else if uploaded k then some [] else object k w)
            (not_true (deleted k) (λ h.
              let (q, r, asked, there, absent, key) = delete_at k h in no_remote q r there key))
        ∙ ap (λ (b : Bool). if b then some [] else object k w) quiet;
  }

-- The same over the two maps of the planner.
pub sync-IsMirror_maps :
    {W : Type 0} (client : S3Client W) (object : Str → W → Option Str) (read : Str → Option Str)
    (schedule : Schedule) (sorter : SortSlice Operation) (compare : Comparator)
    (rel : Str → Option Str) (config : Config) (files : List LocalFile) (objects : List RemoteFile)
    (w w' : W) (r : SyncResult)
    → IsFaithful client object
    → AnswersRelative rel
    → config.dry_run ≡ false
    → sync client read schedule sorter compare rel config (some files) (some objects) w
      ≡ (synced r, w')
    → IsMirror compare config
        (at (build_local_map rel files))
        (at (build_remote_map config.prefix objects))
        read
        (λ k. object k w)
        (λ k. object k w')
unfolding sync
sync-IsMirror_maps {W} client object read schedule sorter compare rel config files objects w w' r
      faithful relative wet h =
    go (plan sorter compare rel config.prefix files objects config.delete_extra) refl
  where
    go :
        (p : Planned (List Operation))
        → plan sorter compare rel config.prefix files objects config.delete_extra ≡ p
        → IsMirror compare config
            (at (build_local_map rel files))
            (at (build_remote_map config.prefix objects))
            read
            (λ k. object k w)
            (λ k. object k w')
    go (err e) planned = absurd (ground (arith, h, planned))
    go (ok ops) planned =
        let ended : (execute_operations client read schedule ops w).1 ≡ w' =
          ground (arith, h, planned, wet) in
        subst
          (λ (v : W).
            IsMirror compare config (at (build_local_map rel files))
              (at (build_remote_map config.prefix objects)) read (λ k. object k w)
              (λ k. object k v))
          ended
          (execute_operations-IsMirror sorter compare rel config.prefix files objects
            config.delete_extra ops relative planned client object read schedule config.dry_run w
            faithful)
