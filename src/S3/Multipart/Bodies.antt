-- ===== src/S3/Multipart/Bodies.antt =====
-- Pieces of the data of an upload in aws/s3/internal/transfer/multipart/multipart.go, without wrap-around.
use catalyst_forge_libs.Common.{
  drop-drop, length-drop, ◌&&◌, ℕ, zero, suc, ◌+◌, ◌-◌, ◌*◌, ◌≤◌, ◌<◌, true, Option, some, List, [],
  ◌∷◌, ◌++◌, ◌≡◌, refl, sym, ◌∙◌, ap, arith, inl, inr, Str, length, take, drop, ltb, leb,
  Bool-cases, if◌then◌else◌,
}
use catalyst_forge_libs.Common.Chunks.{pieces}
use catalyst_forge_libs.S3.Multipart.{slice}

-- A part that starts at an offset, without wrap-around.
abbrev pub plain_body : Str → Str → ℕ → ℕ → ℕ → Option Str
plain_body content spare total_size part_size offset =
    slice content spare offset
      (if ltb total_size (offset + part_size) then total_size else offset + part_size)

-- The bodies of some parts in a row.
abbrev pub bodies : Str → Str → ℕ → ℕ → ℕ → ℕ → List (Option Str)
bodies content spare total_size part_size offset zero = []
bodies content spare total_size part_size offset (suc n) =
    plain_body content spare total_size part_size offset
    ∷ bodies content spare total_size part_size (offset + part_size) n

abbrev pub all_some : List Str → List (Option Str)
all_some [] = []
all_some (x ∷ xs) = some x ∷ all_some xs

take-drop-append :
    (m k : ℕ) (xs ys : Str) → k + m ≤ length xs → take m (drop k (xs ++ ys)) ≡ take m (drop k xs)
take-drop-append zero k xs ys h = refl
take-drop-append (suc m) zero [] ys h = absurd (omega (arith, h))
take-drop-append (suc m) zero (x ∷ xs) ys h =
    ap (λ rest. x ∷ rest) (take-drop-append m zero xs ys (omega (arith, h)))
take-drop-append (suc m) (suc k) [] ys h = absurd (omega (arith, h))
take-drop-append (suc m) (suc k) (x ∷ xs) ys h = take-drop-append (suc m) k xs ys (omega (arith, h))

take_all : (m : ℕ) (xs : Str) → length xs ≤ m → take m xs ≡ xs
take_all zero [] h = refl
take_all zero (x ∷ xs) h = absurd (omega (arith, h))
take_all (suc m) [] h = refl
take_all (suc m) (x ∷ xs) h = ap (λ rest. x ∷ rest) (take_all m xs (omega (arith, h)))

-- A part that starts inside the data holds the next bytes of it, as many as fit into a part.
pub plain_body_lem :
    (content spare : Str) (part_size offset : ℕ)
    → offset ≤ length content
    → plain_body content spare (length content) part_size offset
      ≡ some (take part_size (drop offset content))
unfolding slice
plain_body_lem content spare part_size offset inside =
    elim (Bool-cases (ltb (length content) (offset + part_size))) [
      | inl short ↦
          let fits : (leb offset (length content)
                && leb (length content) (length content + length spare))
              ≡ true =
            ground (arith, inside) in
          rw (short, fits)
            (ap some (
              take-drop-append (length content - offset) offset content spare
                (omega (arith, inside))
              ∙ take_all (length content - offset) (drop offset content)
                  (omega (arith, length-drop offset content))
              ∙ sym (
                  take_all part_size (drop offset content)
                    (ground (arith, short, length-drop offset content)))))
      | inr long ↦
          let fits : (leb offset (offset + part_size)
                && leb (offset + part_size) (length content + length spare))
              ≡ true =
            ground (arith, long) in
          rw (long, fits)
            (ap (λ n. some (take n (drop offset (content ++ spare)))) (omega arith)
              ∙ ap some (take-drop-append part_size offset content spare (ground (arith, long))))
    ]

nil_of_length : (xs : Str) → length xs ≡ 0 → xs ≡ []
nil_of_length [] h = refl
nil_of_length (x ∷ xs) h = absurd (omega (arith, h))

pieces_of_nil : (rounds size : ℕ) (xs : Str) → length xs ≡ 0 → pieces rounds size xs ≡ []
unfolding pieces
pieces_of_nil zero size xs h = refl
pieces_of_nil (suc rounds) size [] h = refl
pieces_of_nil (suc rounds) size (x ∷ xs) h = absurd (omega (arith, h))

pieces_step :
    (rounds size : ℕ) (xs : Str)
    → 0 < length xs
    → pieces (suc rounds) size xs ≡ take size xs ∷ pieces rounds size (drop size xs)
unfolding pieces
pieces_step rounds size [] h = absurd (omega (arith, h))
pieces_step rounds size (x ∷ xs) h = refl

pub product_step : (n k : ℕ) → suc n * k ≡ n * k + k
product_step n k = grind arith

pub bodies_lem :
    (content spare : Str) (part_size rounds offset n : ℕ)
    → 0 < part_size
    → length content - offset ≤ rounds
    → length content - offset ≤ n * part_size
    → n * part_size < (length content - offset) + part_size
    → bodies content spare (length content) part_size offset n
      ≡ all_some (pieces rounds part_size (drop offset content))
bodies_lem content spare ps rounds offset zero h enough covers tight =
    let ended : length (drop offset content) ≡ 0 =
      grind (arith, length-drop offset content, covers) in
    ap all_some (sym (pieces_of_nil rounds ps (drop offset content) ended))
bodies_lem content spare ps zero offset (suc n) h enough covers tight =
    absurd (omega (arith, enough, tight, product_step n ps))
bodies_lem content spare ps (suc rounds) offset (suc n) h enough covers tight =
    let goes_on : 0 < length content - offset = omega (arith, tight, product_step n ps) in
    let some_left : 0 < length (drop offset content) =
      omega (arith, goes_on, length-drop offset content) in
    let rest =
      bodies_lem content spare ps rounds (offset + ps) n h (omega (arith, enough, h))
        (omega (arith, covers, product_step n ps))
        (last_part n (length content) offset ps h goes_on tight) in
    rw
      (
        plain_body_lem content spare ps offset (omega (arith, goes_on)),
        rest,
        pieces_step rounds ps (drop offset content) some_left,
      )
      (ap (λ ys. some (take ps (drop offset content)) ∷ all_some (pieces rounds ps ys))
        (sym (drop-drop ps offset content)))
  where
    last_part :
        (n len offset ps : ℕ)
        → 0 < ps
        → 0 < len - offset
        → suc n * ps < (len - offset) + ps
        → n * ps < (len - (offset + ps)) + ps
    last_part zero len offset ps h goes_on tight = grind (arith, h)
    last_part (suc n) len offset ps h goes_on tight =
        omega (arith, tight, product_step (suc n) ps, product_step n ps, h)

pub zero_times : (k : ℕ) → 0 * k ≡ 0
zero_times k = grind arith
