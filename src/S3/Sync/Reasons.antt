-- ===== src/S3/Sync/Reasons.antt =====
-- What the bucket holds after a synchronisation of aws/s3/internal/sync/sync/sync.go, and why an operation of
-- its plan is there.
use catalyst_forge_libs.Common.{
  Bool, true, false, Option, none, some, List, ◌++◌, ◌≡◌, ◌≢◌, refl, sym, ◌∙◌, ap, arith, inl, inr,
  Str, drop_prefix, drop_prefix-append, In, In-keep_if, keep_if-In, keep_if, Option-cases,
  if◌then◌else◌,
}
use catalyst_forge_libs.S3.Comparator.{LocalFile, RemoteFile, Compared, Comparator}
use catalyst_forge_libs.S3.Planner.{
  Operation, OperationType, upload, delete, type_order, new_file, modified, upload_operation,
}
use catalyst_forge_libs.S3.Planner.Reasons.{IsPlanned, new, changed, extra, on_both}
use catalyst_forge_libs.S3.Executor.{is_kind}
use catalyst_forge_libs.S3.Sync.{Config}

-- Whether a local file is sent: it is new, or the comparator finds it changed.
abbrev pub wanted : Comparator → LocalFile → Option RemoteFile → Bool
wanted compare f none = true
wanted compare f (some r) = elim (compare f r) [
  | Compared.ok differs ↦ differs
  | Compared.failed e ↦ false
]

-- What `after` holds under each key, where `before` was there: a local file that is sent and can be
-- read is under the prefix and its path, one that is not sent is left as it was, a remote file with
-- no local one is gone if that was asked for, and nothing else changes.
pub record IsMirror (compare : Comparator) (config : Config) (locals : Str → Option LocalFile)
    (remotes : Str → Option RemoteFile) (read : Str → Option Str) (before after : Str → Option Str)
    : Type 0 where
  pub at_local :
      (q : Str) (f : LocalFile) (body : Str)
      → locals q ≡ some f
      → read f.path ≡ some body
      → after (config.prefix ++ q)
        ≡ (if wanted compare f (remotes q) then some body else before (config.prefix ++ q))
  pub at_extra :
      (q : Str) (r : RemoteFile)
      → remotes q ≡ some r
      → locals q ≡ none
      → after r.key ≡ (if config.delete_extra then none else before r.key)
  pub at_other :
      (k : Str)
      → ((q : Str) (f : LocalFile) → locals q ≡ some f → k ≢ config.prefix ++ q)
      → ((q : Str) (r : RemoteFile) → remotes q ≡ some r → k ≢ r.key)
      → after k ≡ before k

pub append_cancel : (p a b : Str) → p ++ a ≡ p ++ b → a ≡ b
append_cancel p a b e =
    sym (drop_prefix-append p a) ∙ ap (λ s. drop_prefix s p) e ∙ drop_prefix-append p b

pub some_injective : {a b : LocalFile} → some a ≡ some b → a ≡ b
some_injective e = cc

pub not_true : (b : Bool) → (b ≡ true → ⊥) → b ≡ false
not_true true h = absurd (h refl)
not_true false h = refl

pub In-kind :
    (t : OperationType) (ops : List Operation) (op : Operation)
    → In op (keep_if (is_kind t) ops)
    → In op ops × (op.kind ≡ t)
unfolding type_order
In-kind t ops op m =
    let (there, kept) = In-keep_if (is_kind t) ops op m in (there, ground (arith, kept))

pub kind-In :
    (t : OperationType) (ops : List Operation) (op : Operation)
    → In op ops
    → op.kind ≡ t
    → In op (keep_if (is_kind t) ops)
unfolding type_order
kind-In t ops op m e = keep_if-In (is_kind t) ops op m (ground arith)

module _ {compare : Comparator} {prefix : Str} {locals : Str → Option LocalFile}
    {remotes : Str → Option RemoteFile} {delete_extra : Bool} where
  pub upload_facts :
      (op : Operation)
      → IsPlanned compare prefix locals remotes delete_extra op
      → op.kind ≡ upload
      → (q : Str) × (f : LocalFile) × (locals q ≡ some f)
        × (op.remote_key ≡ prefix ++ q)
        × (op.local_path ≡ f.path)
        × (wanted compare f (remotes q) ≡ true)
  upload_facts op (new q f local absent e) k = (
    q,
    f,
    local,
    ap (λ (o : Operation). o.remote_key) e,
    ap (λ (o : Operation). o.local_path) e,
    rw absent refl,
  )
  upload_facts op (changed q f r local there differs e) k = (
    q,
    f,
    local,
    ap (λ (o : Operation). o.remote_key) e,
    ap (λ (o : Operation). o.local_path) e,
    ground (arith, there, differs),
  )
  upload_facts op (extra q r asked there absent e) k =
      absurd (ground (arith, ap (λ (o : Operation). o.kind) e))
  upload_facts op (on_both q f r local there e) k =
      absurd (ground (arith, ap (λ (o : Operation). o.kind) e))

  pub delete_facts :
      (op : Operation)
      → IsPlanned compare prefix locals remotes delete_extra op
      → op.kind ≡ delete
      → (q : Str) × (r : RemoteFile) × (delete_extra ≡ true)
        × (remotes q ≡ some r)
        × (locals q ≡ none)
        × (op.remote_key ≡ r.key)
  delete_facts op (new q f local absent e) k =
      absurd (ground (arith, ap (λ (o : Operation). o.kind) e))
  delete_facts op (changed q f r local there differs e) k =
      absurd (ground (arith, ap (λ (o : Operation). o.kind) e))
  delete_facts op (extra q r asked there absent e) k =
      (q, r, asked, there, absent, ap (λ (o : Operation). o.remote_key) e)
  delete_facts op (on_both q f r local there e) k =
      absurd (ground (arith, ap (λ (o : Operation). o.kind) e))

  pub wanted_planned :
      (q : Str) (f : LocalFile)
      → locals q ≡ some f
      → wanted compare f (remotes q) ≡ true
      → (op : Operation) × IsPlanned compare prefix locals remotes delete_extra op
        × (op.kind ≡ upload)
        × (op.remote_key ≡ prefix ++ q)
  wanted_planned q f local h = elim (Option-cases (remotes q)) [
    | inl absent ↦ (upload_operation prefix q f new_file, new q f local absent refl, refl, refl)
    | inr (r, there) ↦ (
      upload_operation prefix q f modified,
      changed q f r local there (differs r (rw there at h)) refl,
      refl,
      refl,
    )
  ]
    where
      differs : (r : RemoteFile) → wanted compare f (some r) ≡ true → compare f r ≡ Compared.ok true
      differs r h = ground arith
