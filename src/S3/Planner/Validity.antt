-- ===== src/S3/Planner/Validity.antt =====
-- ValidatePlan in planner.go, and the plans that it is given.
use catalyst_forge_libs.Common.{
  Bool, true, false, Option, none, some, List, [], ◌∷◌, ◌++◌, ◌≡◌, ◌≢◌, ◌↔◌, refl, arith, Str,
  subst, sym, ap, ◌∙◌, append-nil, append_assoc, All, In, inl, inr, ltb, is_empty, length, keep_if,
  In-keep_if, keep_if-In, some_pass, str_eq, str_eq_iff, str_eq_self, Bool-cases, Option-cases,
  false≢true, if◌then◌else◌,
}
use catalyst_forge_libs.Common.Dict.{
  Dict, lookup, insert, lookup-insert, Distinct, insert-Distinct, In-of_lookup, lookup-of_In,
}
use catalyst_forge_libs.Common.Sort.{All-In, All-of_In}
use catalyst_forge_libs.S3.Planner.{
  OperationType, upload, delete, Operation, ok, same_type, type_order, group_by_key, conflicting,
  check_keys, validate_plan,
}

-- The operations with a key.
abbrev with_key : Str → List Operation → List Operation
with_key k = keep_if (λ op. str_eq op.remote_key k)

abbrev at_key : Str → Dict (List Operation) → List Operation
at_key k m = elim (lookup k m) [ none ↦ [] | some l ↦ l ]

abbrev grouped : Operation → Dict (List Operation) → Dict (List Operation)
grouped op m =
    if is_empty op.remote_key then m else insert op.remote_key (at_key op.remote_key m ++ op ∷ []) m

at_key-grouped :
    (k : Str) (op : Operation) (m : Dict (List Operation))
    → is_empty k ≡ false
    → at_key k (grouped op m) ≡ at_key k m ++ (if str_eq op.remote_key k then op ∷ [] else [])
at_key-grouped k op m h = ground (
  arith,
  lookup-insert op.remote_key k (at_key op.remote_key m ++ op ∷ []) m,
  str_eq_iff op.remote_key k,
  append-nil (at_key k m),
)

at_key-group_by_key :
    (k : Str) (ops : List Operation) (m : Dict (List Operation))
    → is_empty k ≡ false
    → at_key k (group_by_key ops m) ≡ at_key k m ++ with_key k ops
unfolding group_by_key
at_key-group_by_key k [] m h = sym (append-nil (at_key k m))
at_key-group_by_key k (op ∷ ops) m h = ground (
  arith,
  at_key-group_by_key k ops (grouped op m) h,
  at_key-grouped k op m h,
  append_assoc (at_key k m) (if str_eq op.remote_key k then op ∷ [] else []) (with_key k ops),
)

-- The groups have distinct keys, and none of them is empty.
record IsGrouped (m : Dict (List Operation)) : Type 0 where
  distinct : Distinct m
  named : (k : Str) (l : List Operation) → lookup k m ≡ some l → is_empty k ≡ false

group_by_key-IsGrouped :
    (ops : List Operation) (m : Dict (List Operation))
    → IsGrouped m
    → IsGrouped (group_by_key ops m)
unfolding group_by_key
group_by_key-IsGrouped [] m g = g
group_by_key-IsGrouped (op ∷ ops) m g =
    group_by_key-IsGrouped ops (grouped op m) (step (is_empty op.remote_key) refl)
  where
    step : (b : Bool) → is_empty op.remote_key ≡ b → IsGrouped (grouped op m)
    step true e = rw e g
    step false e = rw e (record {
      distinct = insert-Distinct op.remote_key _ m g.distinct;
      named = λ k l found. ground (
        arith,
        lookup-insert op.remote_key k (at_key op.remote_key m ++ op ∷ []) m,
        str_eq_iff op.remote_key k,
        g.named k l,
      );
    })

check_keys_iff :
    (m : Dict (List Operation))
    → (check_keys m ≡ ok tt) ↔ All (λ (e : Str × List Operation). conflicting e.1 ≡ false) m
unfolding check_keys
check_keys_iff [] = (λ h. tt, λ h. refl)
check_keys_iff ((k, l) ∷ m) =
    let ih = check_keys_iff m in
    (λ h. (ground arith, ih.0 (ground arith)), λ h. ground (arith, ih.1 h.1))

same_type_sound : (a b : OperationType) → same_type a b ≡ true → a ≡ b
unfolding type_order
same_type_sound a b h = ground arith

pass_In :
    (t : OperationType) (ops : List Operation) (op : Operation)
    → In op ops
    → op.kind ≡ t
    → some_pass (λ o. same_type o.kind t) ops ≡ true
unfolding type_order
pass_In t [] op m e = elim m [ ]
pass_In t (o ∷ ops) op (inl same) e = ground arith
pass_In t (o ∷ ops) op (inr m) e = ground (arith, pass_In t ops op m e)

In-pass :
    (t : OperationType) (ops : List Operation)
    → some_pass (λ o. same_type o.kind t) ops ≡ true
    → (op : Operation) × In op ops × (op.kind ≡ t)
In-pass t [] h = absurd (ground arith)
In-pass t (o ∷ ops) h = elim (Bool-cases (same_type o.kind t)) [
  | inl same ↦ (o, inl refl, same_type_sound o.kind t same)
  | inr other ↦ let (op, m, e) = In-pass t ops (rw other at h) in (op, inr m, e)
]

-- No upload and no deletion have the same remote key, unless that is empty.
abbrev pub NoConflict : List Operation → Type 0
NoConflict ops =
    (a b : Operation)
    → In a ops
    → In b ops
    → a.kind ≡ upload
    → b.kind ≡ delete
    → a.remote_key ≡ b.remote_key
    → is_empty a.remote_key ≡ true

length-two :
    (l : List Operation) (a b : Operation)
    → In a l
    → In b l
    → a.kind ≡ upload
    → b.kind ≡ delete
    → ltb 1 (length l) ≡ true
length-two [] a b ma mb ka kb = elim ma [ ]
length-two (x ∷ []) a b (inl e) (inl f) ka kb =
    absurd (ground (arith, ap (λ (o : Operation). o.kind) e, ap (λ (o : Operation). o.kind) f))
length-two (x ∷ []) a b (inl e) (inr m) ka kb = elim m [ ]
length-two (x ∷ []) a b (inr m) mb ka kb = elim m [ ]
length-two (x ∷ y ∷ l) a b ma mb ka kb = ground arith

conflicting-parts :
    (l : List Operation)
    → conflicting l ≡ true
    → (some_pass (λ op. same_type op.kind upload) l ≡ true)
      × (some_pass (λ op. same_type op.kind delete) l ≡ true)
unfolding conflicting
conflicting-parts l h = (ground arith, ground arith)

-- The groups of a whole plan.
module _ (ops : List Operation) where
  abbrev groups : Dict (List Operation)
  groups = group_by_key ops []

  groups-IsGrouped : IsGrouped groups
  groups-IsGrouped =
      group_by_key-IsGrouped ops []
        (record { distinct = tt; named = λ k l found. absurd (unfold lookup in ground arith) })

  at_key-groups : (k : Str) → is_empty k ≡ false → at_key k groups ≡ with_key k ops
  at_key-groups k h = at_key-group_by_key k ops [] h ∙ unfold lookup in refl

  conflict_shows :
      (a b : Operation)
      → All (λ (e : Str × List Operation). conflicting e.1 ≡ false) groups
      → In a ops
      → In b ops
      → a.kind ≡ upload
      → b.kind ≡ delete
      → a.remote_key ≡ b.remote_key
      → is_empty a.remote_key ≡ false
      → ⊥
  unfolding conflicting
  conflict_shows a b fine ma mb ka kb same named =
      let k = a.remote_key in
      let a_there = keep_if-In (λ op. str_eq op.remote_key k) ops a ma (str_eq_self k) in
      let b_there =
        keep_if-In (λ op. str_eq op.remote_key k) ops b mb
          ((str_eq_iff b.remote_key k).1 (sym same)) in
      elim (Option-cases (lookup k groups)) [
        | inl absent ↦
            subst (In a)
              (sym (at_key-groups k named)
                ∙ ap
                    (λ (o : Option (List Operation)). elim o as (λ _. List Operation) [
                      | none ↦ []
                      | some l ↦ l
                    ])
                    absent)
              a_there
        | inr (l, held) ↦
            let e : with_key k ops ≡ l =
              sym (at_key-groups k named)
              ∙ ap
                  (λ (o : Option (List Operation)). elim o as (λ _. List Operation) [
                    | none ↦ []
                    | some l ↦ l
                  ])
                  held in
            let a_in = subst (In a) e a_there in
            let b_in = subst (In b) e b_there in
            let quiet = All-In _ groups (k, l) fine (In-of_lookup k l groups held) in
            ground (
              arith,
              quiet,
              length-two l a b a_in b_in ka kb,
              pass_In upload l a a_in ka,
              pass_In delete l b b_in kb,
            )
      ]

  group_is_quiet :
      (k : Str) (l : List Operation) → NoConflict ops → In (k, l) groups → conflicting l ≡ false
  group_is_quiet k l none_there m = elim (Bool-cases (conflicting l)) [
    | inr quiet ↦ quiet
    | inl bad ↦
        let held = lookup-of_In k l groups groups-IsGrouped.distinct m in
        let named = groups-IsGrouped.named k l held in
        let e : l ≡ with_key k ops =
          sym (
            ap
              (λ (o : Option (List Operation)). elim o as (λ _. List Operation) [
                | none ↦ []
                | some x ↦ x
              ])
              held)
          ∙ at_key-groups k named in
        let (has_upload, has_delete) = conflicting-parts l bad in
        let (a, ma, ka) = In-pass upload l has_upload in
        let (b, mb, kb) = In-pass delete l has_delete in
        let (a_in, a_key) = In-keep_if (λ op. str_eq op.remote_key k) ops a (subst (In a) e ma) in
        let (b_in, b_key) = In-keep_if (λ op. str_eq op.remote_key k) ops b (subst (In b) e mb) in
        let a_is = (str_eq_iff a.remote_key k).0 a_key in
        let b_is = (str_eq_iff b.remote_key k).0 b_key in
        absurd (
          false≢true
            (sym named ∙ ap is_empty (sym a_is) ∙ none_there a b a_in b_in ka kb (a_is ∙ sym b_is)))
  ]

  NoConflict-passes :
      NoConflict ops → All (λ (e : Str × List Operation). conflicting e.1 ≡ false) groups
  NoConflict-passes none_there = All-of_In _ groups λ e m. group_is_quiet e.0 e.1 none_there m

pub validate_plan_sound :
    (ops : List Operation) → validate_plan ops ≡ ok tt → (ops ≢ []) × NoConflict ops
unfolding validate_plan
validate_plan_sound [] h = absurd (ground arith)
validate_plan_sound (op ∷ ops) h = (
  λ e. cc,
  λ a b ma mb ka kb same. elim (Bool-cases (is_empty a.remote_key)) [
    | inl unnamed ↦ unnamed
    | inr named ↦ absurd (
        conflict_shows (op ∷ ops) a b ((check_keys_iff (groups (op ∷ ops))).0 h) ma mb ka kb same
          named)
  ],
)

pub validate_plan_complete :
    (ops : List Operation) → ops ≢ [] → NoConflict ops → validate_plan ops ≡ ok tt
unfolding validate_plan
validate_plan_complete [] ne none_there = absurd (ne refl)
validate_plan_complete (op ∷ ops) ne none_there =
    (check_keys_iff (groups (op ∷ ops))).1 (NoConflict-passes (op ∷ ops) none_there)

-- ValidatePlan accepts exactly the plans that have an operation and in which no upload and no
-- deletion share a remote key that is not empty.
pub validate_plan_iff :
    (ops : List Operation) → (validate_plan ops ≡ ok tt) ↔ ((ops ≢ []) × NoConflict ops)
validate_plan_iff ops = (validate_plan_sound ops, λ h. validate_plan_complete ops h.0 h.1)
