-- ===== src/Secrets/Manager/Registry.antt =====
-- The provider registry: RegisterProvider and Close.
use catalyst_forge_libs.Common.{
  false, Option, none, some, List, [], ◌∷◌, ◌++◌, ◌≡◌, refl, ◌≢◌, ◌↔◌, arith, Str, is_empty, str_eq,
  ◌&&◌, append_assoc, append-nil, ap, sym, ◌∙◌, if◌then◌else◌,
}
use catalyst_forge_libs.Common.Dict.{Dict, lookup, lookup-insert}
use catalyst_forge_libs.Secrets.Types.{Error}
use catalyst_forge_libs.Secrets.Provider.{Provider, World}
use catalyst_forge_libs.Secrets.Manager.{Manager, succeeded, register_provider, close_all, close}

append_failure :
    (name : Str) (failed : Option Error) (errs fs : List (Str × Error))
    → (elim failed as (λ _. List (Str × Error)) [ none ↦ errs | some e ↦ errs ++ (name, e) ∷ [] ])
        ++ fs
      ≡ errs ++ (elim failed as (λ _. List (Str × Error)) [ none ↦ fs | some e ↦ (name, e) ∷ fs ])
append_failure name none errs fs = refl
append_failure name (some e) errs fs = append_assoc errs ((name, e) ∷ []) fs

module _ {W : Type 0} where
  -- RegisterProvider succeeds exactly for a name that is neither empty nor taken and a provider that
  -- is not nil. It then adds that provider under that name; every other name, where it fails every
  -- name, and every setting of the manager stays.
  pub register_provider_lem :
      (name : Str) (provider : Option (Provider W)) (m : Manager W)
      → (((register_provider name provider m).0 ≡ none)
          ↔ ((is_empty name ≡ false) × (provider ≢ none) × (lookup name m.providers ≡ none)))
        × ((q : Str)
            → lookup q (register_provider name provider m).1.providers ≡ (
                if succeeded (register_provider name provider m).0 && str_eq name q
                then provider
                else lookup q m.providers))
        × ((register_provider name provider m).1
            ≡ record m { providers = (register_provider name provider m).1.providers })
  unfolding register_provider
  register_provider_lem name none m = (ground arith, λ q. ground arith, ground arith)
  register_provider_lem name (some p) m =
      (ground arith, λ q. ground (arith, lookup-insert name q p m.providers), ground arith)

  -- The state after each provider of the list was closed once, in order.
  abbrev pub closed_state : Dict (Provider W) → W → W
  closed_state [] state = state
  closed_state ((name, p) ∷ rest) state = closed_state rest (p.close state).1

  -- The names and errors of the providers whose Close fails, in order.
  abbrev pub failures : Dict (Provider W) → W → List (Str × Error)
  failures [] state = []
  failures ((name, p) ∷ rest) state = elim (p.close state).0 [
    | none ↦ failures rest (p.close state).1
    | some e ↦ (name, e) ∷ failures rest (p.close state).1
  ]

  close_all-failures :
      (ps : Dict (Provider W)) (state : W) (errs : List (Str × Error))
      → close_all ps state errs ≡ (errs ++ failures ps state, closed_state ps state)
  unfolding close_all
  close_all-failures [] state errs = ap (λ l. (l, state)) (sym (append-nil errs))
  close_all-failures ((name, p) ∷ rest) state errs =
      close_all-failures rest (p.close state).1 _
      ∙ ap (λ l. (l, closed_state rest (p.close state).1))
          (append_failure name (p.close state).0 errs (failures rest (p.close state).1))

  -- Close closes every provider of the registry once, also behind one that fails, reports the
  -- failures by name, and leaves no provider and every setting as it was.
  pub close_lem :
      (m : Manager W) (w : World W)
      → close m w ≡ (
        failures m.providers w.state,
        record m { providers = [] },
        record w { state = closed_state m.providers w.state },
      )
  unfolding close
  close_lem m w = rw close_all-failures
