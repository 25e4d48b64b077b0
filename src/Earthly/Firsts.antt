-- ===== src/Earthly/Firsts.antt =====
-- The list that addDep of earthly/earthfile/dependencies.go fills.
use catalyst_forge_libs.Common.{
  Bool, true, false, List, [], ◌∷◌, ◌++◌, ◌≡◌, ◌∙◌, refl, sym, ap, inl, inr, Bool-cases, Str,
  str_eq, str_cases, str_eq_self, not, some_pass, keep_if, append-nil, append_assoc, if◌then◌else◌,
  arith,
}
use catalyst_forge_libs.Earthly.{Dependency, Found, dependency_key}
use catalyst_forge_libs.Earthly.Mentions.{other_key, firsts}

abbrev pub add_one : Dependency → Found → Found
add_one d f =
    if some_pass (str_eq (dependency_key d)) f.seen
    then f
    else record { seen = f.seen ++ dependency_key d ∷ []; deps = f.deps ++ d ∷ [] }

abbrev pub add_all : List Dependency → Found → Found
add_all [] f = f
add_all (d ∷ ds) f = add_all ds (add_one d f)

pub add_all-append :
    (ds es : List Dependency) (f : Found) → add_all (ds ++ es) f ≡ add_all es (add_all ds f)
add_all-append [] es f = refl
add_all-append (d ∷ ds) es f = add_all-append ds es (add_one d f)

abbrev pub unseen : List Str → Dependency → Bool
unseen seen d = not (some_pass (str_eq (dependency_key d)) seen)

keep-keep :
    (p q r : Dependency → Bool) (ds : List Dependency)
    → ((d : Dependency) → r d ≡ (if q d then p d else false))
    → keep_if p (keep_if q ds) ≡ keep_if r ds
keep-keep p q r [] h = refl
keep-keep p q r (d ∷ ds) h = elim (Bool-cases (q d)) [
  | inl b ↦ elim (Bool-cases (p d)) [
    | inl c ↦ rw (h d, b, c) (ap (λ rest. d ∷ rest) (keep-keep p q r ds h))
    | inr c ↦ rw (h d, b, c) (keep-keep p q r ds h)
  ]
  | inr b ↦ rw (h d, b) (keep-keep p q r ds h)
]

some_pass-append :
    (p : Str → Bool) (xs : List Str) (x : Str)
    → some_pass p (xs ++ x ∷ []) ≡ (if some_pass p xs then true else p x)
some_pass-append p [] x = ground arith
some_pass-append p (y ∷ xs) x = ground (arith, some_pass-append p xs x)

unseen_old :
    (seen : List Str) (d e : Dependency)
    → some_pass (str_eq (dependency_key d)) seen ≡ true
    → unseen seen e ≡ (if other_key d e then unseen seen e else false)
unseen_old seen d e h = elim (str_cases (dependency_key e) (dependency_key d)) [
  | inl same ↦ rw (same, h, str_eq_self (dependency_key d)) refl
  | inr other ↦ rw other refl
]

unseen_new :
    (seen : List Str) (d e : Dependency)
    → unseen (seen ++ dependency_key d ∷ []) e ≡ (if other_key d e then unseen seen e else false)
unseen_new seen d e =
    ap not (some_pass-append (str_eq (dependency_key e)) seen (dependency_key d))
    ∙ bools (some_pass (str_eq (dependency_key e)) seen)
        (str_eq (dependency_key e) (dependency_key d))
  where
    bools : (a b : Bool) → not (if a then true else b) ≡ (if not b then not a else false)
    bools true true = refl
    bools true false = refl
    bools false true = refl
    bools false false = refl

pub keep_all : (ds : List Dependency) → keep_if (unseen []) ds ≡ ds
keep_all [] = refl
keep_all (d ∷ ds) = ap (λ rest. d ∷ rest) (keep_all ds)

pub add_all-firsts :
    (ds : List Dependency) (f : Found)
    → (add_all ds f).deps ≡ f.deps ++ keep_if (unseen f.seen) (firsts ds)
add_all-firsts [] f = sym (append-nil f.deps)
add_all-firsts (d ∷ ds) f = elim (Bool-cases (some_pass (str_eq (dependency_key d)) f.seen)) [
  | inl old ↦ rw old (
      ap
        (λ b.
          (add_all ds (
            if b
            then f
            else record { seen = f.seen ++ dependency_key d ∷ []; deps = f.deps ++ d ∷ [] })).deps)
        old
      ∙ add_all-firsts ds f
      ∙ ap (λ rest. f.deps ++ rest)
          (sym (
            keep-keep (unseen f.seen) (other_key d) (unseen f.seen) (firsts ds)
              (λ e. unseen_old f.seen d e old))))
  | inr fresh ↦
      let f' : Found = record { seen = f.seen ++ dependency_key d ∷ []; deps = f.deps ++ d ∷ [] } in
      rw fresh (
        ap (λ b. (add_all ds (if b then f else f')).deps) fresh
        ∙ add_all-firsts ds f'
        ∙ append_assoc f.deps (d ∷ []) (keep_if (unseen f'.seen) (firsts ds))
        ∙ ap (λ rest. f.deps ++ d ∷ rest)
            (sym (
              keep-keep (unseen f.seen) (other_key d) (unseen f'.seen) (firsts ds)
                (unseen_new f.seen d))))
]
