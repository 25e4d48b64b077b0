-- ===== src/S3/Deletion/Pending.antt =====
-- The OptimizedDeleter of aws/s3/internal/operations/delete/batch.go over a faithful client.
use catalyst_forge_libs.Common.{
  ℕ, ◌<◌, ◌≤◌, All, true, Option, none, List, [], ◌∷◌, ◌++◌, ◌≡◌, refl, sym, ◌∙◌, ap, arith, Str,
  codes, length, leb, is_empty, inl, inr, Bool-cases, append_assoc, append-nil, if◌then◌else◌,
}
use catalyst_forge_libs.Common.Chunks.{chunks, concat, concat-chunks, chunks_sizes}
use catalyst_forge_libs.S3.Client.{S3Client, IsFaithful, delete_limit, is_among}
use catalyst_forge_libs.S3.Deletion.{
  DeleteResult, no_result, merge, max_batch_size, delete_batch_direct, batch_result, run_batches,
  delete_large_batch, delete_batch, OptimizedDeleter, new_optimized_deleter, add, flush,
  delete_with_auto_flush,
}

is_among-append :
    (k : Str) (xs ys : List Str)
    → is_among k (xs ++ ys) ≡ (if is_among k xs then true else is_among k ys)
is_among-append k [] ys = refl
is_among-append k (x ∷ xs) ys = ground (arith, is_among-append k xs ys)

-- One call takes the keys.
abbrev FitsCall : List Str → Type 0
FitsCall keys = (0 < length keys) × (length keys ≤ delete_limit)

-- The calls on an OptimizedDeleter.
pub data Use : Type 0 where
  added flushed_with : Str → Use
  flushed : Use

module _ {W : Type 0} (client : S3Client W) where
  unfoldable pub use_deleter : Use → OptimizedDeleter → W → OptimizedDeleter × W
  unfolding add flush delete_with_auto_flush
  use_deleter (added key) o w = (add key o, w)
  use_deleter (flushed_with key) o w =
      let (answer, o', w') = delete_with_auto_flush client key o w in (o', w')
  use_deleter flushed o w = let (answer, o', w') = flush client o w in (o', w')

  unfoldable pub use_all : List Use → OptimizedDeleter → W → OptimizedDeleter × W
  unfolding use_deleter
  use_all [] o w = (o, w)
  use_all (u ∷ us) o w = let (o', w') = use_deleter u o w in use_all us o' w'

-- The keys that the calls name, in their order.
abbrev pub named_keys : List Use → List Str
named_keys [] = []
named_keys (added key ∷ us) = key ∷ named_keys us
named_keys (flushed_with key ∷ us) = key ∷ named_keys us
named_keys (flushed ∷ us) = named_keys us

module _ {W : Type 0} {client : S3Client W} {object : Str → W → Option Str}
    (faithful : IsFaithful client object) (k : Str) where
  object-delete_batch_direct :
      (keys : List Str) (w : W)
      → FitsCall keys
      → object k (delete_batch_direct client keys w).1
        ≡ (if is_among k keys then none else object k w)
  unfolding delete_batch_direct
  object-delete_batch_direct keys w fit = ground (
    arith,
    faithful.delete_succeeds keys w fit.0 fit.1,
    faithful.object-delete keys k w fit.0 fit.1,
  )

  object-batch_result :
      (code : Str) (keys : List Str) (w : W)
      → FitsCall keys
      → object k (batch_result client code keys w).1
        ≡ (if is_among k keys then none else object k w)
  unfolding batch_result
  object-batch_result code keys w fit = ground (arith, object-delete_batch_direct keys w fit)

  object-run_batches :
      (code : Str) (batches : List (List Str)) (r : DeleteResult) (w : W)
      → All FitsCall batches
      → object k (run_batches client code batches r w).1
        ≡ (if is_among k (concat batches) then none else object k w)
  unfolding run_batches
  object-run_batches code [] r w fit = refl
  object-run_batches code (batch ∷ batches) r w fit = ground (
    arith,
    object-run_batches code batches (merge r (batch_result client code batch w).0)
        (batch_result client code batch w).1 fit.1,
    object-batch_result code batch w fit.0,
    is_among-append k batch (concat batches),
  )

  -- After DeleteBatch the objects of its keys are gone, and every other one is as it was.
  pub object-delete_batch :
      (keys : List Str) (w : W)
      → object k (delete_batch client keys w).1 ≡ (if is_among k keys then none else object k w)
  unfolding delete_batch delete_large_batch
  object-delete_batch [] w = refl
  object-delete_batch (key ∷ keys) w =
      elim (Bool-cases (leb (length (key ∷ keys)) max_batch_size)) [
        | inl small ↦
            rw (delete_batch, small)
              (object-delete_batch_direct (key ∷ keys) w (omega arith, ground (arith, small)))
        | inr large ↦
            rw (delete_batch, delete_large_batch, large)
              (object-run_batches (codes "BatchError") (chunks max_batch_size (key ∷ keys))
                  no_result w (chunks_sizes max_batch_size (key ∷ keys) (omega arith))
                ∙ ap (λ keys. if is_among k keys then none else object k w)
                    (concat-chunks max_batch_size (key ∷ keys) (omega arith)))
      ]

  -- What one call sends, and what it keeps.
  record IsStep (u : Use) (o : OptimizedDeleter) (w : W) (o' : OptimizedDeleter) (w' : W)
      : Type 0 where
    sent : List Str
    in_order : o.pending_keys ++ named_keys (u ∷ []) ≡ sent ++ o'.pending_keys
    effect : object k w' ≡ (if is_among k sent then none else object k w)

  flush-IsStep :
      (o : OptimizedDeleter) (w : W) → IsStep flushed o w (flush client o w).1 (flush client o w).2
  unfolding flush
  flush-IsStep o w = elim (Bool-cases (is_empty o.pending_keys)) [
    | inl nothing ↦ record {
      sent = o.pending_keys;
      in_order = rw (flush, nothing) refl;
      effect = rw (flush, nothing) (none_among o.pending_keys nothing);
    }
    | inr something ↦ record {
      sent = o.pending_keys;
      in_order = rw (flush, something) refl;
      effect = rw (flush, something) (object-delete_batch o.pending_keys w);
    }
  ]
    where
      none_among :
          (keys : List Str)
          → is_empty keys ≡ true
          → object k w ≡ (if is_among k keys then none else object k w)
      none_among [] e = refl
      none_among (key ∷ keys) e = absurd (ground arith)

  use_deleter-IsStep :
      (u : Use) (o : OptimizedDeleter) (w : W)
      → IsStep u o w (use_deleter client u o w).0 (use_deleter client u o w).1
  unfolding use_deleter add delete_with_auto_flush
  use_deleter-IsStep (added key) o w = record { sent = []; in_order = refl; effect = refl }
  use_deleter-IsStep flushed o w = flush-IsStep o w
  use_deleter-IsStep (flushed_with key) o w =
      elim (Bool-cases (leb o.flush_size (length (add key o).pending_keys))) [
        | inr waits ↦ record {
          sent = [];
          in_order = rw (use_deleter, delete_with_auto_flush, waits) refl;
          effect = rw (use_deleter, delete_with_auto_flush, waits) refl;
        }
        | inl full ↦
            let step = flush-IsStep (add key o) w in
            record {
              sent = step.sent;
              in_order =
                  rw (use_deleter, delete_with_auto_flush, full)
                    (sym (append-nil (o.pending_keys ++ key ∷ [])) ∙ step.in_order);
              effect = rw (use_deleter, delete_with_auto_flush, full) step.effect;
            }
      ]

  -- Whatever the calls, the keys that they name stand in their order in what was sent, then in what is
  -- pending; the objects of the keys that were sent are gone, and every other one is as it was.
  pub use_all_lem :
      (us : List Use) (o : OptimizedDeleter) (w : W)
      → let (o', w') = use_all client us o w in
        (sent : List Str) × (o.pending_keys ++ named_keys us ≡ sent ++ o'.pending_keys)
        × (object k w' ≡ (if is_among k sent then none else object k w))
  unfolding use_all
  use_all_lem [] o w = ([], append-nil o.pending_keys, refl)
  use_all_lem (u ∷ us) o w =
      let step = use_deleter-IsStep u o w in
      let (sent, in_order, effect) =
        use_all_lem us (use_deleter client u o w).0 (use_deleter client u o w).1 in
      (
        step.sent ++ sent,
        ap (λ keys. o.pending_keys ++ keys) (named_keys-append u us)
            ∙ sym (append_assoc o.pending_keys (named_keys (u ∷ [])) (named_keys us))
            ∙ ap (λ keys. keys ++ named_keys us) step.in_order
            ∙ append_assoc step.sent _ (named_keys us)
            ∙ ap (λ keys. step.sent ++ keys) in_order
            ∙ sym (append_assoc step.sent sent _),
        ground (arith, effect, step.effect, is_among-append k step.sent sent),
      )
    where
      named_keys-append :
          (u : Use) (us : List Use) → named_keys (u ∷ us) ≡ named_keys (u ∷ []) ++ named_keys us
      named_keys-append (added key) us = refl
      named_keys-append (flushed_with key) us = refl
      named_keys-append flushed us = refl

flush-empties :
    {W : Type 0} (client : S3Client W) (o : OptimizedDeleter) (w : W)
    → (flush client o w).1.pending_keys ≡ []
unfolding flush
flush-empties client o w = elim (Bool-cases (is_empty o.pending_keys)) [
  | inl nothing ↦ rw (flush, nothing) refl
  | inr something ↦ rw (flush, something) refl
]

-- A deleter that is made with any flush size and used in any way, over an S3 that does what it
-- documents: the keys that were named stand in their order in what was sent and then in what is
-- pending, the objects of the keys that were sent are gone, and every other one is as it was. So after
-- a last flush the objects of all the keys are gone, and nothing is pending.
pub optimized_deleter_lem :
    {W : Type 0} (client : S3Client W) (object : Str → W → Option Str) (flush_size : ℕ)
    (us : List Use) (k : Str) (w : W)
    → IsFaithful client object
    → let (o, v) = use_all client us (new_optimized_deleter flush_size) w in
      let (answer, o', v') = flush client o v in
      ((sent : List Str) × (named_keys us ≡ sent ++ o.pending_keys)
        × (object k v ≡ (if is_among k sent then none else object k w)))
      × (o'.pending_keys ≡ [])
      × (object k v' ≡ (if is_among k (named_keys us) then none else object k w))
unfolding new_optimized_deleter
optimized_deleter_lem client object flush_size us k w faithful =
    let o = (use_all client us (new_optimized_deleter flush_size) w).0 in
    let v = (use_all client us (new_optimized_deleter flush_size) w).1 in
    let (sent, in_order, effect) = use_all_lem faithful k us (new_optimized_deleter flush_size) w in
    let step = flush-IsStep faithful k o v in
    (
      (sent, in_order, effect),
      flush-empties client o v,
      step.effect
          ∙ ground (
            arith,
            effect,
            is_among-append k sent o.pending_keys,
            ap (is_among k) in_order,
            ap (is_among k) (append-nil o.pending_keys),
            ap (is_among k) step.in_order,
            ap (λ keys. is_among k (step.sent ++ keys)) (flush-empties client o v),
            ap (is_among k) (append-nil step.sent),
          ),
    )
