-- ===== src/Oci/Tags/Laws.antt =====
-- The calls of oci/internal/cache/tags.go over a storage that does not fail.
use catalyst_forge_libs.Common.{
  ℕ, true, false, not, none, some, List, [], ◌∷◌, ◌++◌, ◌&&◌, ◌≡◌, refl, ◌∙◌, ap, arith, inl, inr,
  Str, str_eq, str_eq_self, is_empty, Bool-cases, Option-cases, if◌then◌else◌,
}
use catalyst_forge_libs.Oci.Shelf.{Shelf, IsShelf}
use catalyst_forge_libs.Oci.Reference.{is_valid_reference, is_valid_digest, tag_path}
use catalyst_forge_libs.Oci.Tags.{
  TagConfig, TagEntry, TagMapping, TagHistoryEntry, next_history, with_digest, HistorySize, at_most,
  negative, is_negative, Answer, ok, err, unreadable, is_expired, limit_history, update_entry,
  new_entry, accessed, get_tag_mapping, write_tag_entry, existing, put_tag_mapping, has_tag_mapping,
  delete_tag_mapping,
}

-- A reference and a digest that are accepted are not empty.
pub is_valid_reference-nonempty : (r : Str) → is_valid_reference r ≡ true → is_empty r ≡ false
unfolding is_valid_reference
is_valid_reference-nonempty [] h = absurd (ground arith)
is_valid_reference-nonempty (c ∷ r) h = refl

pub is_valid_digest-nonempty : (d : Str) → is_valid_digest d ≡ true → is_empty d ≡ false
unfolding is_valid_digest
is_valid_digest-nonempty [] h = absurd (ground arith)
is_valid_digest-nonempty (c ∷ d) h = refl

limit_history-some :
    (size : HistorySize) (h : List TagHistoryEntry)
    → is_negative size ≡ false
    → (h' : List TagHistoryEntry) × (limit_history size h ≡ some h')
unfolding limit_history
limit_history-some (at_most n) h fine = (_, refl)
limit_history-some negative h fine = absurd (ground arith)

next_history-some :
    (config : TagConfig) (now : ℕ) (d : Str) (old : TagMapping)
    → is_negative config.max_history_size ≡ false
    → (h : List TagHistoryEntry) × (next_history config now d old ≡ some h)
unfolding next_history
next_history-some config now d old fine =
    elim (Bool-cases (config.enable_history && not (str_eq old.digest d))) [
      | inr kept ↦ (old.history, rw (next_history, kept) refl)
      | inl grows ↦
          let (h, e) =
            limit_history-some config.max_history_size
              (old.history ++ (record { digest = old.digest; changed_at = now }) ∷ []) fine in
          (h, rw (next_history, grows) e)
    ]

update_entry-some :
    (config : TagConfig) (now : ℕ) (d : Str) (e : TagEntry)
    → is_negative config.max_history_size ≡ false
    → (e' : TagEntry) × (update_entry config now d e ≡ some e')
      × (e'.mapping.digest ≡ d)
      × (e'.created_at ≡ e.created_at)
unfolding update_entry
update_entry-some config now d e fine =
    let (h, found) = next_history-some config now d e.mapping fine in
    (with_digest now d e h, rw (update_entry, found) refl, refl, refl)

is_expired-new_entry :
    (config : TagConfig) (now : ℕ) (r d : Str) → is_expired config now (new_entry now r d) ≡ false
unfolding is_expired new_entry
is_expired-new_entry config now r d = ground arith

module _ {W : Type 0} (shelf : Shelf TagEntry W) (config : TagConfig) where
  existing-not_expired :
      (now : ℕ) (r : Str) (w : W) (e : TagEntry)
      → existing shelf config now r w ≡ some e
      → is_expired config now e ≡ false
  unfolding existing
  existing-not_expired now r w e h = ground (arith, h)

  module _ (faithful : IsShelf shelf) where
    -- What an accepted put leaves in the storage.
    record Kept (now : ℕ) (r d : Str) (w : W) (e : TagEntry) : Type 0 where
      answers : (put_tag_mapping shelf config now r d w).0 ≡ ok tt
      stores :
          (q : Str)
          → shelf.read q (put_tag_mapping shelf config now r d w).1
            ≡ (if str_eq (tag_path r) q then some e else shelf.read q w)
      holds : e.mapping.digest ≡ d
      lasts : is_expired config now e ≡ false

    write-Kept :
        (now : ℕ) (r d : Str) (w : W) (e : TagEntry)
        → put_tag_mapping shelf config now r d w ≡ write_tag_entry shelf config r e w
        → e.mapping.digest ≡ d
        → is_expired config now e ≡ false
        → Kept now r d w e
    unfolding write_tag_entry
    write-Kept now r d w e put holds lasts = record {
      answers =
          ap (λ (p : Answer (Unit {0}) × W). p.0) put
          ∙ ground (arith, faithful.write_succeeds (tag_path r) e w);
      stores = λ q.
          ap (λ (p : Answer (Unit {0}) × W). shelf.read q p.1) put
          ∙ faithful.read-write (tag_path r) q e w;
      holds = holds;
      lasts = lasts;
    }

    put_tag_mapping-Kept :
        (now : ℕ) (r d : Str) (w : W)
        → is_valid_reference r ≡ true
        → is_valid_digest d ≡ true
        → is_negative config.max_history_size ≡ false
        → (e : TagEntry) × Kept now r d w e
    unfolding put_tag_mapping
    put_tag_mapping-Kept now r d w valid valid' fine =
        elim (Option-cases (existing shelf config now r w)) [
          | inl fresh ↦ (
            new_entry now r d,
            write-Kept now r d w (new_entry now r d)
                (rw
                  (
                    put_tag_mapping,
                    is_valid_reference-nonempty r valid,
                    is_valid_digest-nonempty d valid',
                    valid,
                    valid',
                    fresh,
                  )
                  refl)
                (unfold new_entry in refl) (is_expired-new_entry config now r d),
          )
          | inr (old, there) ↦
              let (e, updated, holds, kept) = update_entry-some config now d old fine in
              (
                e,
                write-Kept now r d w e
                    (rw
                      (
                        put_tag_mapping,
                        is_valid_reference-nonempty r valid,
                        is_valid_digest-nonempty d valid',
                        valid,
                        valid',
                        there,
                        updated,
                      )
                      refl)
                    holds
                    (unfold is_expired in
                      ground (arith, kept, existing-not_expired now r w old there)),
              )
        ]

    pub get-of_read :
        (now : ℕ) (r : Str) (w : W) (e : TagEntry)
        → is_valid_reference r ≡ true
        → shelf.read (tag_path r) w ≡ some e
        → is_expired config now e ≡ false
        → (get_tag_mapping shelf config now r w).0 ≡ ok (accessed now e).mapping
    unfolding get_tag_mapping
    get-of_read now r w e valid there lasts = rw (get_tag_mapping, valid, there, lasts) refl

    get-of_none :
        (now : ℕ) (r : Str) (w : W)
        → is_valid_reference r ≡ true
        → shelf.read (tag_path r) w ≡ none
        → (get_tag_mapping shelf config now r w).0 ≡ err unreadable
    unfolding get_tag_mapping
    get-of_none now r w valid absent = rw (get_tag_mapping, valid, absent) refl

    has-of_none :
        (now : ℕ) (r : Str) (w : W)
        → is_valid_reference r ≡ true
        → shelf.read (tag_path r) w ≡ none
        → (has_tag_mapping shelf config now r w).0 ≡ ok false
    unfolding has_tag_mapping
    has-of_none now r w valid absent = rw (has_tag_mapping, valid, absent) refl

-- Over a storage that does not fail, and with a MaxHistorySize that is not negative, PutTagMapping of a valid
-- reference and a valid digest succeeds, and then GetTagMapping of any valid reference with the same path in
-- the storage answers the digest, at the time of the call, while what is stored under any other path stays
-- as it was.
pub get_tag_mapping-put :
    {W : Type 0} (shelf : Shelf TagEntry W) (config : TagConfig) (now : ℕ) (r r' d q : Str) (w : W)
    → IsShelf shelf
    → is_negative config.max_history_size ≡ false
    → is_valid_reference r ≡ true
    → is_valid_reference r' ≡ true
    → tag_path r' ≡ tag_path r
    → is_valid_digest d ≡ true
    → str_eq (tag_path r) q ≡ false
    → let (answer, w') = put_tag_mapping shelf config now r d w in
      (answer ≡ ok tt)
      × ((m : TagMapping) × ((get_tag_mapping shelf config now r' w').0 ≡ ok m) × (m.digest ≡ d))
      × (shelf.read q w' ≡ shelf.read q w)
unfolding accessed
get_tag_mapping-put shelf config now r r' d q w faithful fine valid valid_too same_place valid'
      elsewhere =
    let (e, put) = put_tag_mapping-Kept shelf config faithful now r d w valid valid' fine in
    let w' = (put_tag_mapping shelf config now r d w).1 in
    let there : shelf.read (tag_path r') w' ≡ some e =
      ap (λ p. shelf.read p w') same_place
      ∙ put.stores (tag_path r)
      ∙ rw (str_eq_self (tag_path r)) refl in
    (
      put.answers,
      (
        (accessed now e).mapping,
        get-of_read shelf config faithful now r' w' e valid_too there put.lasts,
        put.holds,
      ),
      put.stores q ∙ rw elsewhere refl,
    )

-- Over a storage that does not fail, a deleted mapping is not found, whatever was stored and whenever it
-- is asked for, and what is stored under any other path stays as it was.
pub get_tag_mapping-delete :
    {W : Type 0} (shelf : Shelf TagEntry W) (config : TagConfig) (now : ℕ) (r q : Str) (w : W)
    → IsShelf shelf
    → is_valid_reference r ≡ true
    → str_eq (tag_path r) q ≡ false
    → let w' = (delete_tag_mapping shelf config r w).1 in
      ((get_tag_mapping shelf config now r w').0 ≡ err unreadable)
      × ((has_tag_mapping shelf config now r w').0 ≡ ok false)
      × (shelf.read q w' ≡ shelf.read q w)
unfolding delete_tag_mapping
get_tag_mapping-delete shelf config now r q w faithful valid elsewhere =
    let gone : shelf.read (tag_path r) (delete_tag_mapping shelf config r w).1 ≡ none =
      rw (delete_tag_mapping, valid)
        (faithful.read-remove (tag_path r) (tag_path r) w ∙ rw (str_eq_self (tag_path r)) refl) in
    (
      get-of_none shelf config faithful now r (delete_tag_mapping shelf config r w).1 valid gone,
      has-of_none shelf config faithful now r (delete_tag_mapping shelf config r w).1 valid gone,
      rw (delete_tag_mapping, valid) (faithful.read-remove (tag_path r) q w ∙ rw elsewhere refl),
    )
