-- ===== src/S3/Planner/Picked.antt =====
-- The loops of planDeletes and planSkips in planner.go, as one loop that picks entries of a map.
use catalyst_forge_libs.Common.{
  Bool, true, false, not, none, some, List, [], ◌∷◌, ◌≡◌, refl, ap, arith, Str, inl, inr, In,
  Bool-cases, Option-cases, if◌then◌else◌,
}
use catalyst_forge_libs.Common.Dict.{Dict, lookup, contains}
use catalyst_forge_libs.S3.Comparator.{LocalFile, RemoteFile}
use catalyst_forge_libs.S3.Planner.{
  Operation, delete_operation, skip_operation, plan_deletes, plan_skips,
}

-- A loop that puts one operation in its result for each entry of a map that a test lets through.
module _ {V : Type 0} (test : Str → Bool) (make : Str → V → Operation) where
  abbrev pub picked : Dict V → List Operation
  picked [] = []
  picked ((k, v) ∷ m) = let rest = picked m in if test k then make k v ∷ rest else rest

  pub picked_sound :
      (m : Dict V) (op : Operation)
      → In op (picked m)
      → (q : Str) × (v : V) × In (q, v) m × (test q ≡ true) × (op ≡ make q v)
  picked_sound [] op h = elim h [ ]
  picked_sound ((k, v) ∷ m) op h = elim (Bool-cases (test k)) [
    | inl yes' ↦ elim (rw yes' at h) [
      | inl e ↦ (k, v, inl refl, yes', e)
      | inr rest ↦
          let (q, w, found, passed, e) = picked_sound m op rest in (q, w, inr found, passed, e)
    ]
    | inr no' ↦
        let (q, w, found, passed, e) = picked_sound m op (rw no' at h) in
        (q, w, inr found, passed, e)
  ]

  pub picked_complete :
      (m : Dict V) (q : Str) (v : V) → In (q, v) m → test q ≡ true → In (make q v) (picked m)
  picked_complete [] q v h passed = elim h [ ]
  picked_complete ((k, w) ∷ m) q v (inl e) passed =
      rw (rw (ap (λ (t : Str × V). t.0) e) at passed) (inl (ap (λ (t : Str × V). make t.0 t.1) e))
  picked_complete ((k, w) ∷ m) q v (inr h) passed = elim (Bool-cases (test k)) [
    | inl yes' ↦ rw yes' (inr (picked_complete m q v h passed))
    | inr no' ↦ rw no' (picked_complete m q v h passed)
  ]

pub plan_deletes-picked :
    (locals : Dict LocalFile) (remotes : Dict RemoteFile)
    → plan_deletes locals remotes
      ≡ picked (λ q. not (contains q locals)) (λ q r. delete_operation r) remotes
unfolding plan_deletes
plan_deletes-picked locals [] = refl
plan_deletes-picked locals ((k, r) ∷ remotes) = ground (arith, plan_deletes-picked locals remotes)

pub plan_skips-picked :
    (prefix : Str) (locals : Dict LocalFile) (remotes : Dict RemoteFile)
    → plan_skips prefix locals remotes
      ≡ picked (λ q. contains q remotes) (λ q f. skip_operation prefix q f) locals
unfolding plan_skips
plan_skips-picked prefix [] remotes = refl
plan_skips-picked prefix ((k, f) ∷ locals) remotes =
    ground (arith, plan_skips-picked prefix locals remotes)

pub contains-false : {V : Type 0} (q : Str) (m : Dict V) → contains q m ≡ false → lookup q m ≡ none
unfolding contains
contains-false q m h = ground arith

pub contains-true :
    {V : Type 0} (q : Str) (m : Dict V) → contains q m ≡ true → (v : V) × (lookup q m ≡ some v)
contains-true q m h = elim (Option-cases (lookup q m)) [
  | inl absent ↦ absurd (unfold contains in ground arith)
  | inr held ↦ held
]
