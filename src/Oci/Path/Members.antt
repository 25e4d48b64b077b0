-- ===== src/Oci/Path/Members.antt =====
-- Which members of an archive normalizeAndResolvePath of oci/archive_targz_helpers.go gives a place.
use catalyst_forge_libs.Common.{
  true, false, Option, none, some, ◌++◌, ◌≡◌, ◌⊎◌, sym, ◌∙◌, ap, arith, inl, inr, Str, codes,
  has_prefix, has_prefix-append, drop_prefix, prefix-append-drop, str_eq_iff, Bool-cases,
  Option-cases,
}
use catalyst_forge_libs.Oci.Path.{
  validate_path, resolved, safe_join, stripped, normalize_and_resolve_path,
}

-- A path that is the root as a string, or begins with it and a slash.
abbrev pub IsBelow : Str → Str → Type 0
IsBelow root_abs target =
    (target ≡ root_abs) ⊎ ((rest : Str) × (target ≡ (root_abs ++ codes "/") ++ rest))

-- A member whose name passes ValidatePath without hidden files, and that filepath.Abs puts below the root.
abbrev pub IsMember : (Str → Option Str) → Str → Str → Str → Type 0
IsMember absolute root_abs strip_prefix name =
    (validate_path false name ≡ none)
    × ((target : Str) × (absolute (stripped strip_prefix name) ≡ some target)
        × IsBelow root_abs target)

module _ (absolute : Str → Option Str) (root_abs member target : Str) where
  safe_join_sound :
      safe_join absolute root_abs member ≡ resolved target
      → (absolute member ≡ some target) × IsBelow root_abs target
  safe_join_sound h = elim (Option-cases (absolute member)) [
    | inl failed ↦ absurd (unfold safe_join in ground arith)
    | inr (t, found) ↦
        let same : t ≡ target = unfold safe_join in ground arith in
        (
          found ∙ ap some same,
          elim (Bool-cases (has_prefix target (root_abs ++ codes "/"))) [
            | inl below ↦ inr (
              drop_prefix target (root_abs ++ codes "/"),
              sym (prefix-append-drop target (root_abs ++ codes "/") below),
            )
            | inr beside ↦ inl (unfold safe_join in ground (arith, str_eq_iff target root_abs))
          ],
        )
  ]

  safe_join_complete :
      absolute member ≡ some target
      → IsBelow root_abs target
      → safe_join absolute root_abs member ≡ resolved target
  safe_join_complete found (inl same) =
      unfold safe_join in ground (arith, found, str_eq_iff target root_abs, same)
  safe_join_complete found (inr (rest, e)) =
      let below : has_prefix target (root_abs ++ codes "/") ≡ true =
        ap (λ t. has_prefix t (root_abs ++ codes "/")) e
        ∙ has_prefix-append (root_abs ++ codes "/") rest in
      unfold safe_join in ground (arith, found, below)

module _ (absolute : Str → Option Str) (root_abs strip_prefix name : Str) where
  pub resolved-IsMember :
      (target : Str)
      → normalize_and_resolve_path absolute name strip_prefix root_abs ≡ resolved target
      → IsMember absolute root_abs strip_prefix name
  unfolding normalize_and_resolve_path
  resolved-IsMember target h = elim (Option-cases (validate_path false name)) [
    | inl passes ↦
        let join : safe_join absolute root_abs (stripped strip_prefix name) ≡ resolved target =
          rw (normalize_and_resolve_path, passes) at h in
        let (found, below) =
          safe_join_sound absolute root_abs (stripped strip_prefix name) target join in
        (passes, (target, found, below))
    | inr (e, fails) ↦ absurd (ground (arith, fails, h))
  ]

  pub IsMember-resolved :
      IsMember absolute root_abs strip_prefix name
      → (target : Str) × (normalize_and_resolve_path absolute name strip_prefix root_abs
          ≡ resolved target)
  unfolding normalize_and_resolve_path
  IsMember-resolved (passes, (target, found, below)) = (
    target,
    rw (normalize_and_resolve_path, passes)
        (safe_join_complete absolute root_abs (stripped strip_prefix name) target found below),
  )
