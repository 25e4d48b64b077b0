-- ===== src/S3/Sync/Effect.antt =====
-- What the executor leaves in a bucket: aws/s3/internal/sync/executor/executor.go over a faithful client.
use catalyst_forge_libs.Common.{
  Bool, true, false, Option, none, some, List, [], ◌∷◌, ◌++◌, ◌≡◌, ◌⊎◌, refl, sym, ◌∙◌, ap, arith,
  inl, inr, ◌<◌, ◌≤◌, length, Str, str_eq, str_eq_iff, All, In, keep_if, is_empty, Bool-cases,
  Option-cases, if◌then◌else◌,
}
use catalyst_forge_libs.Common.Chunks.{chunks, concat, concat-chunks, chunks_sizes}
use catalyst_forge_libs.Common.Sort.{Shuffle-In, Shuffle-sym, Shuffle-All}
use catalyst_forge_libs.S3.Client.{S3Client, IsFaithful, delete_limit, is_among}
use catalyst_forge_libs.S3.Planner.{Operation, upload, delete}
use catalyst_forge_libs.S3.Executor.{
  Schedule, Cause, UploadResult, DeleteResult, is_kind, first_of, remote_keys, upload_file,
  run_uploads, execute_uploads, execute_delete_batch, execute_batches, execute_deletes,
  max_batch_size,
}
use catalyst_forge_libs.S3.Sync.{SyncResult, upload_phase, delete_phase, execute_operations}

pub length-remote_keys : (ops : List Operation) → length (remote_keys ops) ≡ length ops
length-remote_keys [] = refl
length-remote_keys (op ∷ ops) = omega (arith, length-remote_keys ops)

-- One call takes the batch.
abbrev pub FitsCall : List Operation → Type 0
FitsCall batch = (0 < length batch) × (length batch ≤ delete_limit)

-- The batches that the executor makes fit.
pub chunks-FitsCall : (ops : List Operation) → All FitsCall (chunks max_batch_size ops)
chunks-FitsCall ops = chunks_sizes max_batch_size ops (omega arith)

is_among-append :
    (k : Str) (xs ys : List Operation)
    → is_among k (remote_keys (xs ++ ys))
      ≡ (if is_among k (remote_keys xs) then true else is_among k (remote_keys ys))
is_among-append k [] ys = refl
is_among-append k (x ∷ xs) ys = ground (arith, is_among-append k xs ys)

pub is_among_of_In :
    (k : Str) (ops : List Operation) (op : Operation)
    → In op ops
    → op.remote_key ≡ k
    → is_among k (remote_keys ops) ≡ true
is_among_of_In k [] op m e = elim m [ ]
is_among_of_In k (x ∷ ops) op (inl same) e = ground (arith, same, str_eq_iff x.remote_key k)
is_among_of_In k (x ∷ ops) op (inr m) e = ground (arith, is_among_of_In k ops op m e)

pub In-of_is_among :
    (k : Str) (ops : List Operation)
    → is_among k (remote_keys ops) ≡ true
    → (op : Operation) × In op ops × (op.remote_key ≡ k)
In-of_is_among k [] h = absurd (ground arith)
In-of_is_among k (x ∷ ops) h = elim (Bool-cases (str_eq x.remote_key k)) [
  | inl same ↦ (x, inl refl, (str_eq_iff x.remote_key k).0 same)
  | inr other ↦ let (op, m, e) = In-of_is_among k ops (ground arith) in (op, inr m, e)
]

module _ {W : Type 0} {client : S3Client W} {object : Str → W → Option Str}
    (faithful : IsFaithful client object) (k : Str) where
  module _ (read : Str → Option Str) (body : Str) where
    -- Every operation under the key sends the same body.
    abbrev Sends : List Operation → Type 0
    Sends ops = All (λ op. (str_eq op.remote_key k ≡ false) ⊎ (read op.local_path ≡ some body)) ops

    object-upload_file :
        (op : Operation) (r : UploadResult) (w : W)
        → (str_eq op.remote_key k ≡ false) ⊎ (read op.local_path ≡ some body)
        → object k (upload_file client read op r w).2
          ≡ (if str_eq op.remote_key k then some body else object k w)
    unfolding upload_file
    object-upload_file op r w sends = elim (Option-cases (read op.local_path)) [
      | inl unread ↦ ground arith
      | inr (b, opened) ↦
          ground (
            arith,
            faithful.put_succeeds op.remote_key b w,
            faithful.object-put op.remote_key b k w,
          )
    ]

    object-run_uploads :
        (ops : List Operation) (first : Option Cause) (r : UploadResult) (w : W)
        → Sends ops
        → object k (run_uploads client read ops first r w).2
          ≡ (if is_among k (remote_keys ops) then some body else object k w)
    unfolding run_uploads
    object-run_uploads [] first r w sends = refl
    object-run_uploads (op ∷ ops) first r w sends = ground (
      arith,
      object-run_uploads ops (first_of first (upload_file client read op r w).0)
          (upload_file client read op r w).1 (upload_file client read op r w).2 sends.1,
      object-upload_file op r w sends.0,
    )

  object-execute_batches :
      (batches : List (List Operation)) (r : DeleteResult) (w : W)
      → All FitsCall batches
      → object k (execute_batches client batches r w).2
        ≡ (if is_among k (remote_keys (concat batches)) then none else object k w)
  unfolding execute_batches execute_delete_batch
  object-execute_batches [] r w fit = refl
  object-execute_batches (batch ∷ batches) r w fit = ground (
    arith,
    object-execute_batches batches (execute_delete_batch client batch r w).1
        (execute_delete_batch client batch r w).2 fit.1,
    faithful.delete_succeeds (remote_keys batch) w
        (omega (arith, length-remote_keys batch, fit.0.0))
        (omega (arith, length-remote_keys batch, fit.0.1)),
    faithful.object-delete (remote_keys batch) k w
        (omega (arith, length-remote_keys batch, fit.0.0))
        (omega (arith, length-remote_keys batch, fit.0.1)),
    is_among-append k batch (concat batches),
  )

pub keep_if-twice :
    (p : Operation → Bool) (ops : List Operation) → keep_if p (keep_if p ops) ≡ keep_if p ops
keep_if-twice p [] = refl
keep_if-twice p (op ∷ ops) = ground (arith, keep_if-twice p ops)

is_among-empty :
    (k : Str) (ops : List Operation) → is_empty ops ≡ true → is_among k (remote_keys ops) ≡ false
is_among-empty k [] h = refl
is_among-empty k (op ∷ ops) h = absurd (ground arith)

is_among-Shuffle :
    (k : Str) (schedule : Schedule) (ops : List Operation)
    → is_among k (remote_keys (schedule.order ops)) ≡ is_among k (remote_keys ops)
is_among-Shuffle k schedule ops =
    both (is_among k (remote_keys (schedule.order ops))) (is_among k (remote_keys ops))
      (λ h.
        let (op, m, e) = In-of_is_among k (schedule.order ops) h in
        is_among_of_In k ops op (Shuffle-In op (schedule.shuffles ops) m) e)
      (λ h.
        let (op, m, e) = In-of_is_among k ops h in
        is_among_of_In k (schedule.order ops) op
          (Shuffle-In op (Shuffle-sym (schedule.shuffles ops)) m) e)
  where
    both : (a b : Bool) → (a ≡ true → b ≡ true) → (b ≡ true → a ≡ true) → a ≡ b
    both true b f g = sym (f refl)
    both false true f g = g refl
    both false false f g = refl

module _ {W : Type 0} {client : S3Client W} {object : Str → W → Option Str}
    (faithful : IsFaithful client object) (k : Str) (read : Str → Option Str)
    (schedule : Schedule) where
  object-upload_phase :
      (body : Str) (ops : List Operation) (r : SyncResult) (w : W)
      → All (λ op. (str_eq op.remote_key k ≡ false) ⊎ (read op.local_path ≡ some body)) ops
      → keep_if (is_kind upload) ops ≡ ops
      → object k (upload_phase client read schedule ops r w).1
        ≡ (if is_among k (remote_keys ops) then some body else object k w)
  unfolding upload_phase execute_uploads
  object-upload_phase body ops r w sends kept = elim (Bool-cases (is_empty ops)) [
    | inl none_there ↦ rw (none_there, is_among-empty k ops none_there) refl
    | inr some_there ↦
        rw (some_there, kept)
          (object-run_uploads faithful k read body (schedule.order ops) none _ w
              (Shuffle-All _ (Shuffle-sym (schedule.shuffles ops)) sends)
            ∙ ap (λ (b : Bool). if b then some body else object k w)
                (is_among-Shuffle k schedule ops))
  ]

  object-delete_phase :
      (ops : List Operation) (r : SyncResult) (w : W)
      → keep_if (is_kind delete) ops ≡ ops
      → object k (delete_phase client read schedule ops r w).1
        ≡ (if is_among k (remote_keys ops) then none else object k w)
  unfolding delete_phase execute_deletes
  object-delete_phase ops r w kept = elim (Bool-cases (is_empty ops)) [
    | inl none_there ↦ rw (none_there, is_among-empty k ops none_there) refl
    | inr some_there ↦
        rw (some_there, kept)
          (object-execute_batches faithful k (chunks max_batch_size ops) _ w (chunks-FitsCall ops)
            ∙ ap (λ (xs : List Operation). if is_among k (remote_keys xs) then none else object k w)
                (concat-chunks max_batch_size ops (omega arith)))
  ]

  -- What ExecuteOperations leaves under a key under which every upload sends the same body.
  pub object-execute_operations :
      (body : Str) (ops : List Operation) (w : W)
      → All
          (λ op. (str_eq op.remote_key k ≡ false) ⊎ (read op.local_path ≡ some body))
          (keep_if (is_kind upload) ops)
      → object k (execute_operations client read schedule ops w).1 ≡ (
          if is_among k (remote_keys (keep_if (is_kind delete) ops))
          then none
          else if is_among k (remote_keys (keep_if (is_kind upload) ops))
          then some body
          else object k w)
  unfolding execute_operations
  object-execute_operations body ops w sends =
      object-delete_phase (keep_if (is_kind delete) ops) _ _ (keep_if-twice (is_kind delete) ops)
      ∙ ap
          (λ (o : Option Str).
            if is_among k (remote_keys (keep_if (is_kind delete) ops)) then none else o)
          (object-upload_phase body (keep_if (is_kind upload) ops) _ w sends
            (keep_if-twice (is_kind upload) ops))
