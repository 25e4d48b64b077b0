-- ===== src/Oci/Tags/History.antt =====
-- The history that PutTagMapping in oci/internal/cache/tags.go keeps of a tag.
use catalyst_forge_libs.Common.{
  drop-drop, length-drop, ℕ, zero, suc, ◌+◌, ◌-◌, ◌≤◌, Bool, true, false, none, some, List, [], ◌∷◌,
  ◌++◌, ◌≡◌, refl, sym, ◌∙◌, ap, subst, arith, inl, inr, Str, str_eq, str_eq_self, length, drop,
  All, leb, ltb, append-nil, append_assoc, Bool-cases, length-append, if◌then◌else◌,
}
use catalyst_forge_libs.Oci.Shelf.{Shelf, IsShelf}
use catalyst_forge_libs.Oci.Reference.{is_valid_reference, is_valid_digest, tag_path}
use catalyst_forge_libs.Oci.Tags.{
  TagConfig, TagEntry, TagMapping, TagHistoryEntry, at_most, ok, is_expired, limit_history,
  next_history, with_digest, update_entry, new_entry, write_tag_entry, existing, put_tag_mapping,
  get_tag_history, get_tag_mapping, accessed,
}
use catalyst_forge_libs.Oci.Tags.Laws.{
  is_valid_reference-nonempty, is_valid_digest-nonempty, get-of_read,
}

abbrev pub digests : List TagHistoryEntry → List Str
digests [] = []
digests (e ∷ h) = e.digest ∷ digests h

-- The last `n` elements.
abbrev pub keep_last : ℕ → List Str → List Str
keep_last n xs = drop (length xs - n) xs

-- A tag that holds a digest and then gets those of a list: the digests that are replaced by another one,
-- in their order, and the one that it holds in the end.
abbrev pub replaced : Str → List (ℕ × Str) → List Str
replaced d [] = []
replaced d ((now, d') ∷ puts) = if str_eq d d' then replaced d' puts else d ∷ replaced d' puts

abbrev pub held : Str → List (ℕ × Str) → Str
held d [] = d
held d ((now, d') ∷ puts) = held d' puts

drop-append :
    {A : Type 0} (k : ℕ) (xs ys : List A) → k ≤ length xs → drop k (xs ++ ys) ≡ drop k xs ++ ys
drop-append zero xs ys h = refl
drop-append (suc k) [] ys h = absurd (omega (arith, h))
drop-append (suc k) (x ∷ xs) ys h = drop-append k xs ys (omega (arith, h))

drop_nil : {A : Type 0} (k : ℕ) → drop {A = A} k [] ≡ []
drop_nil zero = refl
drop_nil (suc k) = refl

keep_last-append :
    (n : ℕ) (xs ys : List Str) → keep_last n (keep_last n xs ++ ys) ≡ keep_last n (xs ++ ys)
keep_last-append n xs ys =
    ap (λ zs. drop (length zs - n) zs) (sym (drop-append (length xs - n) xs ys (omega arith)))
    ∙ drop-drop (length (drop (length xs - n) (xs ++ ys)) - n) (length xs - n) (xs ++ ys)
    ∙ ap (λ k. drop k (xs ++ ys))
        (omega (arith, length-drop (length xs - n) (xs ++ ys), length-append xs ys))

digests-append : (h g : List TagHistoryEntry) → digests (h ++ g) ≡ digests h ++ digests g
digests-append [] g = refl
digests-append (e ∷ h) g = ap (λ rest. e.digest ∷ rest) (digests-append h g)

digests-drop : (k : ℕ) (h : List TagHistoryEntry) → digests (drop k h) ≡ drop k (digests h)
digests-drop zero h = refl
digests-drop (suc k) [] = refl
digests-drop (suc k) (e ∷ h) = digests-drop k h

length-digests : (h : List TagHistoryEntry) → length (digests h) ≡ length h
length-digests [] = refl
length-digests (e ∷ h) = omega (arith, length-digests h)

digests-limit_history :
    (n : ℕ) (h : List TagHistoryEntry)
    → (h' : List TagHistoryEntry) × (limit_history (at_most n) h ≡ some h')
      × (digests h' ≡ keep_last n (digests h))
unfolding limit_history
digests-limit_history n h = elim (Bool-cases (ltb n (length h))) [
  | inl long ↦ (
    drop (length h - n) h,
    rw long refl,
    digests-drop (length h - n) h ∙ ap (λ k. drop (k - n) (digests h)) (sym (length-digests h)),
  )
  | inr short ↦ (h, rw short refl, ap (λ k. drop k (digests h)) (none_dropped short))
]
  where
    none_dropped : ltb n (length h) ≡ false → 0 ≡ length (digests h) - n
    none_dropped short = ground (arith, short, length-digests h)

-- The time of a call is beyond the time to live of an entry.
abbrev pub lapsed : TagConfig → ℕ → ℕ → Bool
lapsed config created now =
    if leb config.default_ttl 0 then false else ltb (created + config.default_ttl) now

module _ {W : Type 0} (shelf : Shelf TagEntry W) (config : TagConfig) (r : Str) where
  unfoldable pub put_all : List (ℕ × Str) → W → W
  put_all [] w = w
  put_all ((now, d) ∷ puts) w = put_all puts (put_tag_mapping shelf config now r d w).1

  module _ (n : ℕ) (faithful : IsShelf shelf) (valid : is_valid_reference r ≡ true)
      (bounded : config.max_history_size ≡ at_most n) (enabled : config.enable_history ≡ true) where
    digests-next_history :
        (now : ℕ) (d : Str) (old : TagMapping)
        → (h : List TagHistoryEntry) × (next_history config now d old ≡ some h)
          × (digests h ≡ (
              if str_eq old.digest d
              then digests old.history
              else keep_last n (digests old.history ++ old.digest ∷ [])))
    unfolding next_history
    digests-next_history now d old = elim (Bool-cases (str_eq old.digest d)) [
      | inl same ↦ (old.history, rw (enabled, same) refl, rw same refl)
      | inr other ↦
          let grown = old.history ++ (record { digest = old.digest; changed_at = now }) ∷ [] in
          let (h, limited, kept) = digests-limit_history n grown in
          (
            h,
            rw (enabled, other, bounded) limited,
            rw other (kept ∙ ap (keep_last n) (digests-append old.history _)),
          )
    ]

    read-put :
        (now : ℕ) (d : Str) (w : W) (e : TagEntry) (h : List TagHistoryEntry)
        → is_valid_digest d ≡ true
        → shelf.read (tag_path r) w ≡ some e
        → is_expired config now e ≡ false
        → next_history config now d e.mapping ≡ some h
        → shelf.read (tag_path r) (put_tag_mapping shelf config now r d w).1
          ≡ some (with_digest now d e h)
    unfolding put_tag_mapping existing update_entry write_tag_entry
    read-put now d w e h valid' there lasts next =
        rw
          (
            put_tag_mapping,
            is_valid_reference-nonempty r valid,
            is_valid_digest-nonempty d valid',
            valid,
            valid',
            existing,
            there,
            lasts,
            update_entry,
            next,
          )
          (faithful.read-write (tag_path r) (tag_path r) (with_digest now d e h) w
            ∙ rw (str_eq_self (tag_path r)) refl)

    read-put_first :
        (now : ℕ) (d : Str) (w : W)
        → is_valid_digest d ≡ true
        → shelf.read (tag_path r) w ≡ none
        → shelf.read (tag_path r) (put_tag_mapping shelf config now r d w).1
          ≡ some (new_entry now r d)
    unfolding put_tag_mapping existing write_tag_entry
    read-put_first now d w valid' absent =
        rw
          (
            put_tag_mapping,
            is_valid_reference-nonempty r valid,
            is_valid_digest-nonempty d valid',
            valid,
            valid',
            existing,
            absent,
          )
          (faithful.read-write (tag_path r) (tag_path r) (new_entry now r d) w
            ∙ rw (str_eq_self (tag_path r)) refl)

    abbrev Holds : ℕ → Str → List Str → W → Type 0
    Holds created d before w =
        (e : TagEntry) × (shelf.read (tag_path r) w ≡ some e)
        × (e.created_at ≡ created)
        × (e.mapping.digest ≡ d)
        × (digests e.mapping.history ≡ keep_last n before)

    -- The calls are in time, and their digests are valid.
    abbrev Accepted : ℕ → List (ℕ × Str) → Type 0
    Accepted created puts =
        All (λ (p : ℕ × Str). (is_valid_digest p.1 ≡ true) × (lapsed config created p.0 ≡ false))
          puts

    grown :
        (d d' : Str) (before : List Str) (h : List Str)
        → h ≡ keep_last n before
        → (if str_eq d d' then h else keep_last n (h ++ d ∷ []))
          ≡ keep_last n (if str_eq d d' then before else before ++ d ∷ [])
    grown d d' before h kept = elim (Bool-cases (str_eq d d')) [
      | inl same ↦ rw same kept
      | inr other ↦ rw (other, kept) (keep_last-append n before (d ∷ []))
    ]

    put-Holds :
        (now created : ℕ) (d d' : Str) (before : List Str) (w : W)
        → is_valid_digest d' ≡ true
        → lapsed config created now ≡ false
        → Holds created d before w
        → Holds created d'
            (if str_eq d d' then before else before ++ d ∷ [])
            (put_tag_mapping shelf config now r d' w).1
    unfolding is_expired
    put-Holds now created d d' before w valid' in_time (e, there, made, is_d, kept) =
        let (h, next, h_is) = digests-next_history now d' e.mapping in
        let lasts : is_expired config now e ≡ false = rw made in_time in
        (
          with_digest now d' e h,
          read-put now d' w e h valid' there lasts next,
          made,
          refl,
          h_is
              ∙ grown e.mapping.digest d' before (digests e.mapping.history) kept
              ∙ ap (λ x. keep_last n (if str_eq x d' then before else before ++ x ∷ [])) is_d,
        )

    put_all-Holds :
        (puts : List (ℕ × Str)) (created : ℕ) (d : Str) (before : List Str) (w : W)
        → Accepted created puts
        → Holds created d before w
        → Holds created (held d puts) (before ++ replaced d puts) (put_all puts w)
    unfolding put_all
    put_all-Holds [] created d before w fine there = rw (append-nil before) there
    put_all-Holds ((now, d') ∷ puts) created d before w fine there =
        subst
          (λ h.
            Holds created (held d' puts) h
              (put_all puts (put_tag_mapping shelf config now r d' w).1))
          (joined d d' before (replaced d' puts))
          (put_all-Holds puts created d' (if str_eq d d' then before else before ++ d ∷ [])
            (put_tag_mapping shelf config now r d' w).1 fine.1
            (put-Holds now created d d' before w fine.0.0 fine.0.1 there))
      where
        joined :
            (d d' : Str) (before rest : List Str)
            → (if str_eq d d' then before else before ++ d ∷ []) ++ rest
              ≡ before ++ (if str_eq d d' then rest else d ∷ rest)
        joined d d' before rest = elim (Bool-cases (str_eq d d')) [
          | inl same ↦ rw same refl
          | inr other ↦ rw other (append_assoc before (d ∷ []) rest)
        ]

-- Over a storage that does not fail, with history enabled and a size that is not negative: when a tag
-- that was not there is put, and put again within its time to live, all with valid digests, then its
-- history holds the digests that were replaced by another one, the oldest first, and only the last
-- `MaxHistorySize` of them; and it points to the last digest.
pub get_tag_history_lem :
    {W : Type 0} (shelf : Shelf TagEntry W) (config : TagConfig) (r d : Str) (n created now : ℕ)
    (puts : List (ℕ × Str)) (w : W)
    → IsShelf shelf
    → is_valid_reference r ≡ true
    → config.max_history_size ≡ at_most n
    → config.enable_history ≡ true
    → is_valid_digest d ≡ true
    → shelf.read (tag_path r) w ≡ none
    → All (λ (p : ℕ × Str). (is_valid_digest p.1 ≡ true) × (lapsed config created p.0 ≡ false)) puts
    → lapsed config created now ≡ false
    → let w' = put_all shelf config r ((created, d) ∷ puts) w in
      ((h : List TagHistoryEntry) × ((get_tag_history shelf config now r w').0 ≡ ok h)
        × (digests h ≡ keep_last n (replaced d puts)))
      × ((m : TagMapping) × ((get_tag_mapping shelf config now r w').0 ≡ ok m)
          × (m.digest ≡ held d puts))
unfolding put_all get_tag_history new_entry is_expired accessed
get_tag_history_lem {W} shelf config r d n created now puts w faithful valid bounded enabled valid'
      absent fine in_time =
    let w1 = (put_tag_mapping shelf config created r d w).1 in
    let first =
      read-put_first shelf config r n faithful valid bounded enabled created d w valid' absent in
    let (e, there, made, is_held, kept) =
      put_all-Holds shelf config r n faithful valid bounded enabled puts created d [] w1 fine
        (new_entry created r d, first, refl, refl, sym (drop_nil {A = Str} (0 - n))) in
    let lasts : is_expired config now e ≡ false = rw made in_time in
    (
      (e.mapping.history, rw (get_tag_history, valid, there, lasts) refl, kept),
      (
        (accessed now e).mapping,
        get-of_read shelf config faithful now r (put_all shelf config r puts w1) e valid there
            lasts,
        is_held,
      ),
    )
