-- ===== src/S3/Planner/Order.antt =====
-- The order of a plan: optimizePlan in planner.go.
use catalyst_forge_libs.Common.{
  ℕ, ◌≤◌, ◌<◌, Bool, true, false, Option, List, [], ◌∷◌, ◌≡◌, refl, arith, Str, subst, sym, All,
  inl, inr, ltb, Bool-cases,
}
use catalyst_forge_libs.Common.Sort.{SortSlice, IsOrder, IsOrdered, All-of_In}
use catalyst_forge_libs.S3.Comparator.{LocalFile, RemoteFile, Comparator}
use catalyst_forge_libs.S3.Planner.{
  OperationType, upload, delete, skip, Operation, ok, runs_before, type_order, plan,
  calculate_upload_priority,
}
use catalyst_forge_libs.S3.Planner.Reasons.{IsPlanned, new, changed, extra, on_both}
use catalyst_forge_libs.S3.Planner.Exact.{plan_exact_maps, plan_inversion}

pub runs_before-IsOrder : IsOrder runs_before
unfolding runs_before
runs_before-IsOrder = record {
  irreflexive = λ a. ground arith;
  transitive = λ a b c h k. ground arith;
  negative = λ a b c h k. ground arith;
}

-- The phases of a run: uploads, then deletions, then skips.
abbrev pub in_earlier_phase : Operation → Operation → Bool
in_earlier_phase a b = ltb (type_order a.kind) (type_order b.kind)

-- The priorities that each type of operation gets.
abbrev Fits : OperationType → ℕ → Type 0
Fits upload priority = priority ≤ 4
Fits delete priority = priority ≡ 10
Fits skip priority = priority ≡ 100

upload_priority-le : (size : ℕ) → calculate_upload_priority size ≤ 4
unfolding calculate_upload_priority
upload_priority-le size = ground arith

IsPlanned-Fits :
    {compare : Comparator} {prefix : Str} {locals : Str → Option LocalFile}
    {remotes : Str → Option RemoteFile} {delete_extra : Bool} {op : Operation}
    → IsPlanned compare prefix locals remotes delete_extra op
    → Fits op.kind op.priority
IsPlanned-Fits (new q f local absent e) = rw e (upload_priority-le f.size)
IsPlanned-Fits (changed q f r local there differs e) = rw e (upload_priority-le f.size)
IsPlanned-Fits (extra q r asked there absent e) = rw e refl
IsPlanned-Fits (on_both q f r local there e) = rw e refl

phases_follow :
    (k l : OperationType) (m n : ℕ)
    → Fits k m
    → Fits l n
    → ltb (type_order k) (type_order l) ≡ true
    → m < n
unfolding type_order
phases_follow upload upload m n h h' before = absurd (ground arith)
phases_follow upload delete m n h h' before = omega arith
phases_follow upload skip m n h h' before = omega arith
phases_follow delete upload m n h h' before = absurd (ground arith)
phases_follow delete delete m n h h' before = absurd (ground arith)
phases_follow delete skip m n h h' before = omega arith
phases_follow skip l m n h h' before = absurd (no_later l before)
  where
    no_later : (l' : OperationType) → ltb 3 (type_order l') ≡ true → ⊥
    no_later upload e = ground arith
    no_later delete e = ground arith
    no_later skip e = ground arith

no_jump :
    (a b : Operation)
    → Fits a.kind a.priority
    → Fits b.kind b.priority
    → runs_before a b ≡ false
    → in_earlier_phase a b ≡ false
unfolding runs_before
no_jump a b fa fb h = elim (Bool-cases (in_earlier_phase a b)) [
  | inl earlier ↦
      let less = phases_follow a.kind b.kind a.priority b.priority fa fb earlier in
      absurd (ground (arith, less))
  | inr fine ↦ fine
]

IsOrdered-weaken :
    {A : Type 0} {less less' : A → A → Bool} (P : A → Type 0) (xs : List A)
    → ((x y : A) → P x → P y → less x y ≡ false → less' x y ≡ false)
    → All P xs
    → IsOrdered less xs
    → IsOrdered less' xs
IsOrdered-weaken P [] f all h = tt
IsOrdered-weaken {A} {less} {less'} P (x ∷ xs) f all h =
    (weaken xs all.1 h.0, IsOrdered-weaken P xs f all.1 h.1)
  where
    weaken :
        (ys : List A) → All P ys → All (λ y. less y x ≡ false) ys → All (λ y. less' y x ≡ false) ys
    weaken [] a o = tt
    weaken (y ∷ ys) a o = (f y x a.0 all.0 o.0, weaken ys a.1 o.1)

-- A plan that is made is sorted by priority, and by type among equal priorities. All its uploads
-- come before all its deletions, and those before all its skips.
pub plan-IsOrdered :
    (sorter : SortSlice Operation) (compare : Comparator) (rel : Str → Option Str) (prefix : Str)
    (files : List LocalFile) (objects : List RemoteFile) (delete_extra : Bool)
    (ops : List Operation)
    → plan sorter compare rel prefix files objects delete_extra ≡ ok ops
    → IsOrdered runs_before ops × IsOrdered in_earlier_phase ops
plan-IsOrdered sorter compare rel prefix files objects delete_extra ops h =
    let (uploads, planned, e) =
      plan_inversion sorter compare rel prefix files objects delete_extra ops h in
    let ordered : IsOrdered runs_before ops =
      subst (IsOrdered runs_before) (sym e) (sorter.orders runs_before runs_before-IsOrder _) in
    (
      ordered,
      IsOrdered-weaken (λ op. Fits op.kind op.priority) ops no_jump
          (All-of_In _ ops (λ op m.
            IsPlanned-Fits (
              (plan_exact_maps sorter compare rel prefix files objects delete_extra ops h op).0 m)))
          ordered,
    )
