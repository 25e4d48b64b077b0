-- ===== src/S3/Scanner/Quotes.antt =====
-- strings.Trim of quotes, as ScanRemote of aws/s3/internal/sync/scanner/scanner.go calls it.
use catalyst_forge_libs.Common.{
  ℕ, zero, suc, true, false, [], ◌∷◌, ◌++◌, ◌≡◌, ◌≢◌, refl, ◌∙◌, ap, ap₂, arith, inl, inr, Str,
  is_empty, ◌==◌, ==_iff, ◌&&◌, Bool-cases,
}
use catalyst_forge_libs.S3.Scanner.{trim_quotes_left, trim_quotes_right}

-- A number of quotes.
abbrev pub quotes : ℕ → Str
quotes zero = []
quotes (suc n) = b'"' ∷ quotes n

abbrev pub NoStart : Str → Type 0
NoStart t = (rest : Str) → t ≢ b'"' ∷ rest

abbrev pub NoEnd : Str → Type 0
NoEnd t = (rest : Str) → t ≢ rest ++ b'"' ∷ []

-- `t` is `s` without the quotes at its two ends.
abbrev pub IsTrimmed : Str → Str → Type 0
IsTrimmed s t = ((m : ℕ) × (n : ℕ) × (s ≡ quotes m ++ (t ++ quotes n))) × NoStart t × NoEnd t

left_split : (s : Str) → (m : ℕ) × (s ≡ quotes m ++ trim_quotes_left s)
unfolding trim_quotes_left
left_split [] = (0, refl)
left_split (c ∷ s) = elim (Bool-cases (c == b'"')) [
  | inr plain ↦ (0, rw plain refl)
  | inl quote ↦
      let (m, e) = left_split s in
      (suc m, rw quote (ap₂ (λ (d : ℕ) (t : Str). d ∷ t) ((==_iff c b'"').0 quote) e))
]

left_start : (s : Str) → NoStart (trim_quotes_left s)
unfolding trim_quotes_left
left_start [] rest = λ e. cc
left_start (c ∷ s) rest = elim (Bool-cases (c == b'"')) [
  | inl quote ↦ rw quote (left_start s rest)
  | inr plain ↦ rw plain (λ e. absurd (ground (arith, plain, e)))
]

empty_of : (s : Str) → is_empty s ≡ true → s ≡ []
empty_of [] h = refl
empty_of (c ∷ s) h = absurd (ground arith)

right_split : (s : Str) → (n : ℕ) × (s ≡ trim_quotes_right s ++ quotes n)
unfolding trim_quotes_right
right_split [] = (0, refl)
right_split (c ∷ s) =
    let (n, e) = right_split s in
    elim (Bool-cases (is_empty (trim_quotes_right s) && c == b'"')) [
      | inr stays ↦ (n, rw stays (ap (λ t. c ∷ t) e))
      | inl gone ↦
          let nothing : trim_quotes_right s ≡ [] =
            empty_of (trim_quotes_right s) (ground (arith, gone)) in
          (
            suc n,
            rw gone (
                ap₂ (λ (d : ℕ) (t : Str). d ∷ t) (ground (arith, gone))
                  (e ∙ ap (λ t. t ++ quotes n) nothing)),
          )
    ]

right_end : (s : Str) → NoEnd (trim_quotes_right s)
unfolding trim_quotes_right
right_end [] [] = λ e. cc
right_end [] (d ∷ rest) = λ e. cc
right_end (c ∷ s) rest = elim (Bool-cases (is_empty (trim_quotes_right s) && c == b'"')) [
  | inl gone ↦ rw gone (nothing rest)
  | inr stays ↦ rw stays (kept rest stays (right_end s))
]
  where
    nothing : (rest : Str) → [] ≢ rest ++ b'"' ∷ []
    nothing [] = λ e. cc
    nothing (d ∷ rest) = λ e. cc

    kept :
        (rest : Str)
        → (is_empty (trim_quotes_right s) && c == b'"') ≡ false
        → NoEnd (trim_quotes_right s)
        → c ∷ trim_quotes_right s ≢ rest ++ b'"' ∷ []
    kept [] stays ends = λ e. absurd (ground (arith, stays, e))
    kept (d ∷ rest) stays ends = λ e. ends rest (ground (arith, e))

right_start : (s : Str) → NoStart s → NoStart (trim_quotes_right s)
unfolding trim_quotes_right
right_start [] h rest = λ e. cc
right_start (c ∷ s) h rest = elim (Bool-cases (is_empty (trim_quotes_right s) && c == b'"')) [
  | inl gone ↦ rw gone (λ e. cc)
  | inr stays ↦ rw stays (λ e. h s (ap (λ (d : ℕ). d ∷ s) (ground (arith, e))))
]

pub trim_quotes-IsTrimmed : (s : Str) → IsTrimmed s (trim_quotes_right (trim_quotes_left s))
trim_quotes-IsTrimmed s =
    let (m, front) = left_split s in
    let (n, back) = right_split (trim_quotes_left s) in
    (
      (m, n, front ∙ ap (λ t. quotes m ++ t) back),
      right_start (trim_quotes_left s) (left_start s),
      right_end (trim_quotes_left s),
    )
