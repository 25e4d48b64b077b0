-- ===== src/Oci/Lru/Links.antt =====
-- The map and the list of LRUEviction in oci/internal/cache/eviction.go: how they hang together, and
-- that the methods keep it so.
use catalyst_forge_libs.Common.{
  ℕ, suc, ◌+◌, ◌<◌, Bool, true, false, not, some, List, [], ◌∷◌, ◌++◌, ◌≡◌, ◌≢◌, refl, arith, inl,
  inr, Str, str_eq, str_eq_iff, str_eq_self, ◌==◌, In, In-keep_if, keep_if-In, keep_if, some_pass,
  Bool-cases, Option-cases,
}
use catalyst_forge_libs.Common.Dict.{
  Dict, lookup, insert, remove, contains, lookup-insert, lookup-remove,
}
use catalyst_forge_libs.Oci.Entry.{Entry}
use catalyst_forge_libs.Oci.Lru.{Element, without, accessed, keys_of}

-- The map holds the address of each element under its key, and of no other; an address stands for
-- one key, and the next one is free.
pub record IsLinked (entries : Dict ℕ) (es : List Element) (next : ℕ) : Type 0 where
  pub keyed : (e : Element) → In e es → lookup e.key entries ≡ some e.address
  pub held :
      (key : Str) (i : ℕ)
      → lookup key entries ≡ some i
      → (e : Element) × In e es × (e.address ≡ i) × (e.key ≡ key)
  pub alone : (e e' : Element) → In e es → In e' es → e.address ≡ e'.address → e.key ≡ e'.key
  pub fresh : (e : Element) → In e es → e.address < next

abbrev pub has_key : Str → List Str → Bool
has_key key = some_pass (λ j. str_eq j key)

abbrev pub drop_key : Str → List Str → List Str
drop_key key = keep_if (λ j. not (str_eq j key))

has_key_of_In : (e : Element) (es : List Element) → In e es → has_key e.key (keys_of es) ≡ true
has_key_of_In e [] m = elim m [ ]
has_key_of_In e (x ∷ es) (inl same) = rw (same, str_eq_self) refl
has_key_of_In e (x ∷ es) (inr m) = ground (arith, has_key_of_In e es m)

In-of_has_key :
    (key : Str) (es : List Element)
    → has_key key (keys_of es) ≡ true
    → (e : Element) × In e es × (e.key ≡ key)
In-of_has_key key [] h = absurd (ground arith)
In-of_has_key key (x ∷ es) h = elim (Bool-cases (str_eq x.key key)) [
  | inl same ↦ (x, inl refl, (str_eq_iff x.key key).0 same)
  | inr other ↦ let (e, m, k) = In-of_has_key key es (ground arith) in (e, inr m, k)
]

keys_of-without :
    (i : ℕ) (key : Str) (es : List Element)
    → ((e : Element) → In e es → (e.address == i) ≡ str_eq e.key key)
    → keys_of (without i es) ≡ drop_key key (keys_of es)
unfolding without
keys_of-without i key [] h = refl
keys_of-without i key (x ∷ es) h =
    ground (arith, h x (inl refl), keys_of-without i key es (λ e m. h e (inr m)))

-- What `accessed` finds.
accessed_found :
    (i now : ℕ) (es : List Element) (e : Element)
    → In e es
    → e.address ≡ i
    → (x : Element) × (accessed i now es ≡ x ∷ [])
      × (x.address ≡ i)
      × (o : Element) × In o es
      × (o.address ≡ i)
      × (x.key ≡ o.key)
unfolding accessed
accessed_found i now [] e m a = elim m [ ]
accessed_found i now (y ∷ es) e m a = elim (Bool-cases (y.address == i)) [
  | inl here ↦ (
    record y {
      entry = record y.entry { accessed_at = now; access_count = y.entry.access_count + 1 };
    },
    rw here refl,
    ground arith,
    y,
    inl refl,
    ground arith,
    refl,
  )
  | inr later ↦ elim m [
    | inl same ↦ absurd (ground arith)
    | inr rest ↦
        let (x, f, xa, o, om, oa, k) = accessed_found i now es e rest a in
        (x, rw later f, xa, o, inr om, oa, k)
  ]
]

module _ {entries : Dict ℕ} {es : List Element} {next : ℕ} (h : IsLinked entries es next) where
  pub contains-has_key : (key : Str) → contains key entries ≡ has_key key (keys_of es)
  unfolding contains
  contains-has_key key = elim (Option-cases (lookup key entries)) [
    | inl absent ↦ elim (Bool-cases (has_key key (keys_of es))) [
      | inl there ↦
          let (e, m, k) = In-of_has_key key es there in absurd (ground (arith, h.keyed e m))
      | inr fine ↦ ground arith
    ]
    | inr (i, tracked) ↦
        let (e, m, a, k) = h.held key i tracked in ground (arith, has_key_of_In e es m)
  ]

  module _ (key : Str) (i : ℕ) (tracked : lookup key entries ≡ some i) where
    same_element : (e : Element) → In e es → (e.address == i) ≡ str_eq e.key key
    same_element e m =
        let (x, xm, a, k) = h.held key i tracked in
        elim (Bool-cases (e.address == i)) [
          | inl here ↦ ground (arith, h.alone e x m xm, str_eq_iff e.key key)
          | inr other ↦ ground (arith, h.keyed e m, str_eq_iff e.key key)
        ]

    pub keys_of-tracked : keys_of (without i es) ≡ drop_key key (keys_of es)
    keys_of-tracked = keys_of-without i key es same_element

    In-without : (e : Element) → In e (without i es) → In e es × (e.address ≢ i)
    unfolding without
    In-without e m =
        let (there, other) = In-keep_if (λ e. not (e.address == i)) es e m in (there, ground arith)

    without-In : (e : Element) → In e es → e.address ≢ i → In e (without i es)
    unfolding without
    without-In e m other = keep_if-In (λ e. not (e.address == i)) es e m (ground arith)

    pub keys_of-accessed : (now : ℕ) → keys_of (accessed i now es) ≡ key ∷ []
    keys_of-accessed now =
        let (e, m, a, k) = h.held key i tracked in
        let (x, found, xa, o, om, oa, xk) = accessed_found i now es e m a in
        rw found (ground (arith, h.alone o e om m))

    pub accessed-IsLinked : (now : ℕ) → IsLinked entries (accessed i now es ++ without i es) next
    accessed-IsLinked now =
        let (e, m, a, k) = h.held key i tracked in
        let (x, found, xa, o, om, oa, xk) = accessed_found i now es e m a in
        rw found (record {
          keyed = λ y (ym : In y (x ∷ without i es)). elim ym [
            | inl same ↦ ground (arith, h.keyed o om)
            | inr rest ↦ h.keyed y (In-without y rest).0
          ];
          held = λ key' i' there.
              let (y, ym, ya, yk) = h.held key' i' there in
              elim (Bool-cases (y.address == i)) [
                | inl here ↦ (x, inl refl, ground arith, ground (arith, h.alone o y om ym))
                | inr other ↦ (y, inr (without-In y ym (ground arith)), ya, yk)
              ];
          alone = λ y z (ym : In y (x ∷ without i es)) (zm : In z (x ∷ without i es)) same.
              elim ym [
                | inl ye ↦ elim zm [ inl ze ↦ cc | inr zr ↦ ground (arith, In-without z zr) ]
                | inr yr ↦ elim zm [
                  | inl ze ↦ ground (arith, In-without y yr)
                  | inr zr ↦ h.alone y z (In-without y yr).0 (In-without z zr).0 same
                ]
              ];
          fresh = λ y (ym : In y (x ∷ without i es)). elim ym [
            | inl same ↦ ground (arith, h.fresh o om)
            | inr rest ↦ h.fresh y (In-without y rest).0
          ];
        })

    pub without-IsLinked : IsLinked (remove key entries) (without i es) next
    without-IsLinked = record {
      keyed = λ y ym.
          let (there, other) = In-without y ym in
          ground (arith, lookup-remove key y.key entries, h.keyed y there, str_eq_iff key y.key);
      held = λ key' i' there.
          let kept : lookup key' entries ≡ some i' =
            ground (arith, lookup-remove key key' entries) in
          let (y, ym, ya, yk) = h.held key' i' kept in
          (
            y,
            without-In y ym (λ e. ground (
              arith,
              lookup-remove key key' entries,
              same_element y ym,
              str_eq_iff y.key key,
              str_eq_self key,
            )),
            ya,
            yk,
          );
      alone = λ y z ym zm. h.alone y z (In-without y ym).0 (In-without z zm).0;
      fresh = λ y ym. h.fresh y (In-without y ym).0;
    }

  pub added-IsLinked :
      (e : Entry)
      → contains e.key entries ≡ false
      → IsLinked
          (insert e.key next entries)
          ((record { address = next; key = e.key; entry = e }) ∷ es)
          (suc next)
  unfolding contains
  added-IsLinked e untracked =
      let x : Element = record { address = next; key = e.key; entry = e } in
      record {
        keyed = λ y (ym : In y (x ∷ es)). elim ym [
          | inl same ↦ ground (arith, lookup-insert e.key y.key next entries, str_eq_self e.key)
          | inr rest ↦ ground (
            arith,
            lookup-insert e.key y.key next entries,
            h.keyed y rest,
            str_eq_iff e.key y.key,
          )
        ];
        held = λ key i there. elim (Bool-cases (str_eq e.key key)) [
          | inl same ↦ (
            x,
            inl refl,
            ground (arith, lookup-insert e.key key next entries),
            (str_eq_iff e.key key).0 same,
          )
          | inr other ↦
              let (y, ym, ya, yk) =
                h.held key i (ground (arith, lookup-insert e.key key next entries)) in
              (y, inr ym, ya, yk)
        ];
        alone = λ y z (ym : In y (x ∷ es)) (zm : In z (x ∷ es)) same. elim ym [
          | inl ye ↦ elim zm [ inl ze ↦ cc | inr zr ↦ ground (arith, h.fresh z zr) ]
          | inr yr ↦ elim zm [
            | inl ze ↦ ground (arith, h.fresh y yr)
            | inr zr ↦ h.alone y z yr zr same
          ]
        ];
        fresh = λ y (ym : In y (x ∷ es)). elim ym [
          | inl same ↦ ground arith
          | inr rest ↦ ground (arith, h.fresh y rest)
        ];
      }
