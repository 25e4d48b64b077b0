-- ===== src/S3/Deletion/Batches.antt =====
-- How DeleteStream in aws/s3/internal/operations/delete/batch.go splits its keys.
use catalyst_forge_libs.Common.{
  ◌≤◌, ◌<◌, List, [], ◌∷◌, ◌++◌, ◌≡◌, refl, ◌∙◌, ap, arith, Str, inl, inr, length, leb, Bool-cases,
  append_assoc, length-append, All,
}
use catalyst_forge_libs.Common.Chunks.{concat}
use catalyst_forge_libs.S3.Deletion.{max_batch_size, collect_batches}

-- The batches of DeleteStream hold its keys in their order.
pub concat-collect_batches :
    (batch keys : List Str) → concat (collect_batches batch keys) ≡ batch ++ keys
unfolding collect_batches
concat-collect_batches [] [] = refl
concat-collect_batches (b ∷ batch) [] = refl
concat-collect_batches batch (key ∷ keys) =
    elim (Bool-cases (leb max_batch_size (length (batch ++ key ∷ [])))) [
      | inl full ↦
          rw (collect_batches, full)
            (ap (λ rest. (batch ++ key ∷ []) ++ rest) (concat-collect_batches [] keys)
              ∙ append_assoc batch (key ∷ []) keys)
      | inr open_still ↦
          rw (collect_batches, open_still)
            (concat-collect_batches (batch ++ key ∷ []) keys ∙ append_assoc batch (key ∷ []) keys)
    ]

-- No batch of DeleteStream is empty or has more keys than one call takes.
pub collect_batches-sizes :
    (batch keys : List Str)
    → length batch < max_batch_size
    → All
        (λ (b : List Str). (0 < length b) × (length b ≤ max_batch_size))
        (collect_batches batch keys)
unfolding collect_batches
collect_batches-sizes [] [] h = tt
collect_batches-sizes (b ∷ batch) [] h = ((omega arith, omega (arith, h)), tt)
collect_batches-sizes batch (key ∷ keys) h =
    elim (Bool-cases (leb max_batch_size (length (batch ++ key ∷ [])))) [
      | inl full ↦
          rw (collect_batches, full)
            (
              (
                omega (arith, length-append batch (key ∷ [])),
                omega (arith, h, length-append batch (key ∷ [])),
              ),
              collect_batches-sizes [] keys (omega arith),
            )
      | inr open_still ↦
          rw (collect_batches, open_still)
            (collect_batches-sizes (batch ++ key ∷ []) keys (ground (arith, open_still)))
    ]
