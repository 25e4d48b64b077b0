-- ===== src/S3/Multipart/Parts.antt =====
-- The bodies of the parts of aws/s3/internal/transfer/multipart/multipart.go.
use catalyst_forge_libs.Common.{
  ◌⊎◌, ℕ, zero, suc, ◌+◌, ◌-◌, ◌*◌, ◌/◌, ◌%◌, ◌^◌, ◌≤◌, ◌<◌, Option, some, List, [], ◌∷◌, ◌≡◌, refl,
  ◌∙◌, ap, ap₂, arith, inl, inr, Str, length, take, drop, ltb, lt→ltb, is_empty, if◌then◌else◌,
}
use catalyst_forge_libs.Common.Words.{add64, leb_signed}
use catalyst_forge_libs.Common.Chunks.{chunks}
use catalyst_forge_libs.S3.Multipart.{
  get_part_size, calculate_parts, slice, part_offset, part_end, part_body, numbers_from,
}
use catalyst_forge_libs.S3.Multipart.Bodies.{
  plain_body, bodies, all_some, plain_body_lem, product_step, bodies_lem, zero_times,
}

-- The number of parts where the sum does not wrap.
quotient_lem :
    (size part_size : ℕ)
    → 0 < part_size
    → 0 < size
    → (size ≤ ((size + part_size - 1) / part_size) * part_size)
      × (((size + part_size - 1) / part_size) * part_size < size + part_size)
quotient_lem size part_size h some_data = (grind arith, grind arith)

calculate_parts_lem :
    (size part_size : ℕ)
    → 0 < size
    → size + part_size < 2 ^ 63
    → calculate_parts size part_size ≡ some ((size + part_size - 1) / part_size)
unfolding calculate_parts
calculate_parts_lem size part_size some_data fits = ground (arith, some_data, fits)

-- The bodies of the parts with some numbers.
abbrev pub numbered_bodies : Str → Str → ℕ → ℕ → List ℕ → List (Option Str)
numbered_bodies content spare total_size part_size [] = []
numbered_bodies content spare total_size part_size (n ∷ numbers) =
    part_body content spare total_size part_size n
    ∷ numbered_bodies content spare total_size part_size numbers

part_offset_lem :
    (part_size first : ℕ)
    → first < 2 ^ 31 - 1
    → first * part_size < 2 ^ 63
    → part_offset part_size (suc first) ≡ first * part_size
unfolding part_offset
part_offset_lem part_size first few fits =
    let number : (suc first % 2 ^ 32 + (2 ^ 32 - 1)) % 2 ^ 32 ≡ first = omega (arith, few) in
    rw (number, lt→ltb first (2 ^ 31) (omega (arith, few))) (omega (arith, fits))

part_end_lem :
    (offset part_size total_size : ℕ)
    → offset ≤ total_size
    → total_size + part_size < 2 ^ 63
    → part_end offset part_size total_size
      ≡ (if ltb total_size (offset + part_size) then total_size else offset + part_size)
unfolding part_end add64 leb_signed
part_end_lem offset part_size total_size inside fits = ground (arith, inside, fits)

part_body-plain :
    (content spare : Str) (total_size part_size first : ℕ)
    → first < 2 ^ 31 - 1
    → first * part_size ≤ total_size
    → total_size + part_size < 2 ^ 63
    → part_body content spare total_size part_size (suc first)
      ≡ plain_body content spare total_size part_size (first * part_size)
unfolding part_body
part_body-plain content spare total_size part_size first few inside fits =
    let offset = part_offset_lem part_size first few (omega (arith, inside, fits)) in
    ap (λ o. slice content spare o (part_end o part_size total_size)) offset
    ∙ ap (slice content spare (first * part_size))
        (part_end_lem (first * part_size) part_size total_size inside fits)

-- The last part begins before the end of the data, or is the only one.
abbrev StartsInside : ℕ → ℕ → ℕ → ℕ → Type 0
StartsInside total_size part_size first n =
    (n ≡ 0)
    ⊎ ((first * part_size + n * part_size < total_size + part_size) ⊎ ((n ≡ 1) × (first ≡ 0)))

starts_inside :
    (total_size ps first n : ℕ) → StartsInside total_size ps first (suc n) → first * ps ≤ total_size
starts_inside total_size ps first n (inl never) = absurd (omega (arith, never))
starts_inside total_size ps first n (inr (inl h)) = omega (arith, h, product_step n ps)
starts_inside total_size ps first n (inr (inr (one, start))) =
    omega (arith, ap (λ k. k * ps) start, zero_times ps)

inside_rest :
    (total_size ps first n : ℕ)
    → StartsInside total_size ps first (suc n)
    → StartsInside total_size ps (suc first) n
inside_rest total_size ps first n (inl never) = absurd (omega (arith, never))
inside_rest total_size ps first n (inr (inl h)) =
    inr (inl (omega (arith, h, product_step n ps, product_step first ps)))
inside_rest total_size ps first n (inr (inr (one, start))) = inl (omega (arith, one))

bodies-numbered :
    (content spare : Str) (total_size part_size first n : ℕ)
    → first + n < 2 ^ 31
    → StartsInside total_size part_size first n
    → total_size + part_size < 2 ^ 63
    → numbered_bodies content spare total_size part_size (numbers_from (suc first) n)
      ≡ bodies content spare total_size part_size (first * part_size) n
bodies-numbered content spare total_size ps first zero few tight fits = refl
bodies-numbered content spare total_size ps first (suc n) few tight fits =
    ap₂ (λ (b : Option Str) (bs : List (Option Str)). b ∷ bs)
      (part_body-plain content spare total_size ps first (omega (arith, few))
        (starts_inside total_size ps first n tight) fits)
      (bodies-numbered content spare total_size ps (suc first) n (omega (arith, few))
          (inside_rest total_size ps first n tight) fits
        ∙ ap (λ o. bodies content spare total_size ps o n) (product_step first ps))

take-drop_nil : (m k : ℕ) → take {A = ℕ} m (drop {A = ℕ} k []) ≡ []
take-drop_nil zero zero = refl
take-drop_nil (suc m) zero = refl
take-drop_nil zero (suc k) = refl
take-drop_nil (suc m) (suc k) = refl

get_part_size_positive : (configured_size : ℕ) → 0 < get_part_size configured_size
unfolding get_part_size
get_part_size_positive configured_size = ground arith

few_parts : (n ps size : ℕ) → 0 < ps → size ≤ (2 ^ 31 - 1) * ps → n * ps < size + ps → n < 2 ^ 31
few_parts n ps size positive few tight = grind (arith, positive, few, tight)

-- Where the size that is given is the length of the data, it and the part size together are below 2 ^ 63, and
-- the data is at most 2 ^ 31 - 1 parts long: the number of parts is not negative, no part panics, whatever the
-- array holds behind the data, and the bodies of the parts in the order of their numbers are the data cut into
-- pieces of the part size, the last one with what is left; of empty data there is one empty part.
pub parts_lem :
    (content spare : Str) (configured_size : ℕ)
    → length content + get_part_size configured_size < 2 ^ 63
    → length content ≤ (2 ^ 31 - 1) * get_part_size configured_size
    → let part_size = get_part_size configured_size in
      (n : ℕ) × (calculate_parts (length content) part_size ≡ some n)
      × (numbered_bodies content spare (length content) part_size (numbers_from 1 n)
          ≡ (if is_empty content then some [] ∷ [] else all_some (chunks part_size content)))
parts_lem [] spare configured_size fits few =
    let ps = get_part_size configured_size in
    (
      1,
      unfold calculate_parts in refl,
      bodies-numbered [] spare 0 ps 0 1 (omega arith) (inr (inr (refl, refl))) fits
          ∙ ap (λ b. b ∷ [])
              (plain_body_lem [] spare ps (0 * ps) (grind arith)
                ∙ ap some (take-drop_nil ps (0 * ps))),
    )
parts_lem (c ∷ s) spare configured_size fits few =
    let ps = get_part_size configured_size in
    let size = length (c ∷ s) in
    let n = (size + ps - 1) / ps in
    let positive = get_part_size_positive configured_size in
    let (covers, tight) = quotient_lem size ps positive (omega arith) in
    (
      n,
      calculate_parts_lem size ps (omega arith) fits,
      bodies-numbered (c ∷ s) spare size ps 0 n
            (omega (arith, few_parts n ps size positive few tight))
            (inr (inl (omega (arith, tight, zero_times ps)))) fits
          ∙ ap (λ o. bodies (c ∷ s) spare size ps o n) (zero_times ps)
          ∙ bodies_lem (c ∷ s) spare ps size 0 n positive (omega arith) (omega (arith, covers))
              (omega (arith, tight))
          ∙ unfold chunks in refl,
    )
