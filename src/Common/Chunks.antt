-- ===== src/Common/Chunks.antt =====
-- for i := 0; i < len(xs); i += size { use(xs[i:min(i+size, len(xs))]) }: a list in pieces of a size that
-- is not 0, by recursion on the number of rounds.
use Prim.Native.Nat.{ℕ, zero, suc, ◌-◌, ◌≤◌, ◌<◌}
use mathlib.Core.Path.{◌≡◌, refl, ap, ◌∙◌}
use mathlib.Core.List.{List, [], ◌∷◌, ◌++◌}
use native.Mathlib.Omega.{arith}
use catalyst_forge_libs.Common.Lists.{length, take, drop, take-append-drop, length-take-le, All}

module _ {ℓ} {A : Type ℓ} where
  unfoldable pub pieces : ℕ → ℕ → List A → List (List A)
  pieces zero size xs = []
  pieces (suc rounds) size [] = []
  pieces (suc rounds) size (x ∷ xs) = take size (x ∷ xs) ∷ pieces rounds size (drop size (x ∷ xs))

  -- The loop makes no more rounds than there are elements.
  unfoldable pub chunks : ℕ → List A → List (List A)
  unfolding pieces
  chunks size xs = pieces (length xs) size xs

  abbrev pub concat : List (List A) → List A
  concat [] = []
  concat (xs ∷ xss) = xs ++ concat xss

  length-drop : (n : ℕ) (xs : List A) → length (drop n xs) ≡ length xs - n
  length-drop zero xs = omega arith
  length-drop (suc n) [] = omega arith
  length-drop (suc n) (x ∷ xs) = omega (arith, length-drop n xs)

  concat-pieces :
      (rounds size : ℕ) (xs : List A)
      → 0 < size
      → length xs ≤ rounds
      → concat (pieces rounds size xs) ≡ xs
  unfolding pieces
  concat-pieces zero size [] h few = refl
  concat-pieces zero size (x ∷ xs) h few = absurd (omega (arith, few))
  concat-pieces (suc rounds) size [] h few = refl
  concat-pieces (suc rounds) size (x ∷ xs) h few =
      ap (λ rest. take size (x ∷ xs) ++ rest)
        (concat-pieces rounds size (drop size (x ∷ xs)) h
          (omega (arith, few, length-drop size (x ∷ xs))))
      ∙ take-append-drop size (x ∷ xs)

  -- Nothing is lost, and the order stays.
  pub concat-chunks : (size : ℕ) (xs : List A) → 0 < size → concat (chunks size xs) ≡ xs
  unfolding chunks
  concat-chunks size xs h = concat-pieces (length xs) size xs h (omega arith)

  length-take_pos : (n : ℕ) (x : A) (xs : List A) → 0 < n → 0 < length (take n (x ∷ xs))
  length-take_pos zero x xs h = absurd (omega (arith, h))
  length-take_pos (suc n) x xs h = omega arith

  pieces_sizes :
      (rounds size : ℕ) (xs : List A)
      → 0 < size
      → All (λ piece. (0 < length piece) × (length piece ≤ size)) (pieces rounds size xs)
  unfolding pieces
  pieces_sizes zero size xs h = tt
  pieces_sizes (suc rounds) size [] h = tt
  pieces_sizes (suc rounds) size (x ∷ xs) h = (
    (length-take_pos size x xs h, length-take-le size (x ∷ xs)),
    pieces_sizes rounds size (drop size (x ∷ xs)) h,
  )

  -- No piece is empty or too long.
  pub chunks_sizes :
      (size : ℕ) (xs : List A)
      → 0 < size
      → All (λ piece. (0 < length piece) × (length piece ≤ size)) (chunks size xs)
  unfolding chunks
  chunks_sizes size xs h = pieces_sizes (length xs) size xs h
