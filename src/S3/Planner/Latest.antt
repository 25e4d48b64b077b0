-- ===== src/S3/Planner/Latest.antt =====
-- Which file stands for a path on each side of a plan of aws/s3/internal/sync/planner/planner.go.
use catalyst_forge_libs.Common.{
  Bool, true, false, not, Option, none, some, List, [], ◌∷◌, ◌++◌, ◌≡◌, refl, sym, ◌∙◌, ap, ap₂,
  arith, inl, inr, fun_ext, Str, codes, str_eq, str_cases, has_prefix, drop_prefix, trim_prefix,
  prefix-append-drop, has_prefix-append, ◌&&◌, ◌||◌, if◌then◌else◌, Bool-cases,
}
use catalyst_forge_libs.Common.Dict.{Dict, lookup, insert, lookup-insert}
use catalyst_forge_libs.S3.Comparator.{LocalFile, RemoteFile}
use catalyst_forge_libs.S3.Planner.{
  add_locals, build_local_map, remote_rel, add_remotes, build_remote_map,
}

-- The first of the two that is there.
abbrev pub over : {A : Type 0} → Option A → Option A → Option A
over none below = below
over (some a) below = some a

abbrev pub is_at : Str → Option Str → Bool
is_at q none = false
is_at q (some p) = str_eq p q

-- The local file at a path: the last one of which filepath.Rel answers that path.
abbrev pub latest_local : (Str → Option Str) → List LocalFile → Str → Option LocalFile
latest_local rel [] q = none
latest_local rel (f ∷ fs) q =
    over (latest_local rel fs q) (if is_at q (rel f.path) then some f else none)

-- A key at a path: behind the prefix stands the path, or a slash and the path; a path that begins with a
-- slash has only the second key.
abbrev pub key_at : Str → Str → Str → Bool
key_at prefix q key =
    (str_eq key (prefix ++ q) && not (has_prefix q (codes "/")))
    || str_eq key (prefix ++ (codes "/" ++ q))

-- The object at a path: the last one listed whose key is at it.
abbrev pub latest_remote : Str → List RemoteFile → Str → Option RemoteFile
latest_remote prefix [] q = none
latest_remote prefix (o ∷ os) q =
    over (latest_remote prefix os q) (if key_at prefix q o.key then some o else none)

over-if :
    {A : Type 0} (o below : Option A) (a : A) (b : Bool)
    → over o (if b then some a else below) ≡ over (over o (if b then some a else none)) below
over-if none below a true = refl
over-if none below a false = refl
over-if (some x) below a b = refl

over-none : {A : Type 0} (o : Option A) → over o none ≡ o
over-none none = refl
over-none (some a) = refl

lookup-add_locals :
    (rel : Str → Option Str) (fs : List LocalFile) (m : Dict LocalFile) (q : Str)
    → lookup q (add_locals rel fs m) ≡ over (latest_local rel fs q) (lookup q m)
unfolding add_locals
lookup-add_locals rel [] m q = refl
lookup-add_locals rel (f ∷ fs) m q = go (λ m'. lookup-add_locals rel fs m' q) (rel f.path)
  where
    go :
        ((m' : Dict LocalFile)
          → lookup q (add_locals rel fs m') ≡ over (latest_local rel fs q) (lookup q m'))
        → (o : Option Str)
        → lookup q (
            add_locals rel fs
              (elim o as (λ _. Dict LocalFile) [ none ↦ m | some r ↦ insert r f m ]))
          ≡ over (over (latest_local rel fs q) (if is_at q o then some f else none)) (lookup q m)
    go rest none = rest m ∙ over-if (latest_local rel fs q) (lookup q m) f false
    go rest (some p) =
        rest (insert p f m)
        ∙ ap (over (latest_local rel fs q)) (lookup-insert p q f m)
        ∙ over-if (latest_local rel fs q) (lookup q m) f (str_eq p q)

pub build_local_map-latest :
    (rel : Str → Option Str) (fs : List LocalFile)
    → (λ q. lookup q (build_local_map rel fs)) ≡ latest_local rel fs
unfolding build_local_map lookup
build_local_map-latest rel fs =
    fun_ext λ q. lookup-add_locals rel fs [] q ∙ over-none (latest_local rel fs q)

str_eq-append : (p s t : Str) → str_eq (p ++ s) (p ++ t) ≡ str_eq s t
unfolding str_eq
str_eq-append [] s t = refl
str_eq-append (c ∷ p) s t = ground (arith, str_eq-append p s t)

-- Behind the prefix.
at_rest :
    (s q : Str)
    → str_eq (trim_prefix s (codes "/")) q
      ≡ ((str_eq s q && not (has_prefix q (codes "/"))) || str_eq s (codes "/" ++ q))
unfolding str_eq has_prefix drop_prefix trim_prefix
at_rest [] [] = refl
at_rest [] (c ∷ q) = refl
at_rest (c ∷ s) [] = ground arith
at_rest (c ∷ s) (d ∷ q) = ground arith

remote_rel_at :
    (prefix q key : Str)
    → has_prefix key prefix ≡ true
    → str_eq (remote_rel prefix key) q ≡ key_at prefix q key
unfolding remote_rel trim_prefix
remote_rel_at prefix q key h =
    let s = drop_prefix key prefix in
    let e = prefix-append-drop key prefix h in
    let trimmed : trim_prefix key prefix ≡ s = rw h refl in
    ap (λ t. str_eq (trim_prefix t (codes "/")) q) trimmed
    ∙ at_rest s q
    ∙ ap₂ (λ (a b : Bool). (a && not (has_prefix q (codes "/"))) || b)
        (sym (str_eq-append prefix s q) ∙ ap (λ k. str_eq k (prefix ++ q)) e)
        (sym (str_eq-append prefix s (codes "/" ++ q))
          ∙ ap (λ k. str_eq k (prefix ++ (codes "/" ++ q))) e)

not_at : (prefix q key : Str) → has_prefix key prefix ≡ false → key_at prefix q key ≡ false
not_at prefix q key h =
    ap₂ (λ (a b : Bool). (a && not (has_prefix q (codes "/"))) || b) (other q)
      (other (codes "/" ++ q))
  where
    other : (t : Str) → str_eq key (prefix ++ t) ≡ false
    other t = elim (str_cases key (prefix ++ t)) [
      | inl same ↦
          absurd
            (ground (arith, sym h, ap (λ k. has_prefix k prefix) same, has_prefix-append prefix t))
      | inr differs ↦ differs
    ]

lookup-add_remotes :
    (prefix : Str) (os : List RemoteFile) (m : Dict RemoteFile) (q : Str)
    → lookup q (add_remotes prefix os m) ≡ over (latest_remote prefix os q) (lookup q m)
unfolding add_remotes
lookup-add_remotes prefix [] m q = refl
lookup-add_remotes prefix (o ∷ os) m q = elim (Bool-cases (has_prefix o.key prefix)) [
  | inl inside ↦ counts (λ m'. lookup-add_remotes prefix os m' q) inside
  | inr out ↦ passed (λ m'. lookup-add_remotes prefix os m' q) out
]
  where
    latest : Option RemoteFile
    latest = latest_remote prefix os q

    put : Bool → Dict RemoteFile
    put b = if b then insert (remote_rel prefix o.key) o m else m

    counts :
        ((m' : Dict RemoteFile) → lookup q (add_remotes prefix os m') ≡ over latest (lookup q m'))
        → has_prefix o.key prefix ≡ true
        → lookup q (add_remotes prefix os (put (has_prefix o.key prefix)))
          ≡ over (over latest (if key_at prefix q o.key then some o else none)) (lookup q m)
    counts rest inside =
        ap (λ b. lookup q (add_remotes prefix os (put b))) inside
        ∙ rest (insert (remote_rel prefix o.key) o m)
        ∙ ap (over latest) (
            lookup-insert (remote_rel prefix o.key) q o m
            ∙ ap (λ (b : Bool). if b then some o else lookup q m)
                (remote_rel_at prefix q o.key inside))
        ∙ over-if latest (lookup q m) o (key_at prefix q o.key)

    passed :
        ((m' : Dict RemoteFile) → lookup q (add_remotes prefix os m') ≡ over latest (lookup q m'))
        → has_prefix o.key prefix ≡ false
        → lookup q (add_remotes prefix os (put (has_prefix o.key prefix)))
          ≡ over (over latest (if key_at prefix q o.key then some o else none)) (lookup q m)
    passed rest out =
        ap (λ b. lookup q (add_remotes prefix os (put b))) out
        ∙ rest m
        ∙ over-if latest (lookup q m) o false
        ∙ ap (λ (b : Bool). over (over latest (if b then some o else none)) (lookup q m))
            (sym (not_at prefix q o.key out))

pub build_remote_map-latest :
    (prefix : Str) (os : List RemoteFile)
    → (λ q. lookup q (build_remote_map prefix os)) ≡ latest_remote prefix os
unfolding build_remote_map lookup
build_remote_map-latest prefix os =
    fun_ext λ q. lookup-add_remotes prefix os [] q ∙ over-none (latest_remote prefix os q)
