-- ===== src/Secrets/SecretString.antt =====
-- secrets/core/secret_string.go: lazy references. The resolver is a function on a state `W`.
pub mod Uses
use catalyst_forge_libs.Common.{
  ℕ, Bool, true, false, Option, none, some, List, [], ◌∷◌, Str, ◌&&◌, not, if◌then◌else◌,
}
use catalyst_forge_libs.Secrets.Types.{
  Secret, SecretRef, Error, Result, ok, err, no_resolver, already_consumed, failed_to_resolve,
  nil_dereference,
}
use catalyst_forge_libs.Secrets.Secret.{to_string, to_bytes, clear}

abbrev pub Resolver : Type 0 → Type 0
Resolver W = SecretRef → W → Result (Option Secret) × W

-- The resolver that stands in where none is given.
unfoldable pub nil_resolver : {W : Type 0} → Resolver W
nil_resolver ref w = (err no_resolver, w)

pub record SecretString : Type 0 where
  pub ref : SecretRef
  pub one_time_use : Bool
  pub allow_cache : Bool
  pub resolved : Option Secret
  pub consumed : Bool

-- The functional options.
pub data SecretStringOption : Type 0 where
  with_one_time_use with_caching : Bool → SecretStringOption

unfoldable pub apply_options : List SecretStringOption → SecretString → SecretString
apply_options [] s = s
apply_options (with_one_time_use b ∷ opts) s = apply_options opts (record s { one_time_use = b })
apply_options (with_caching b ∷ opts) s = apply_options opts (record s { allow_cache = b })

unfoldable pub new_secret_string : SecretRef → List SecretStringOption → SecretString
unfolding apply_options
new_secret_string ref opts = apply_options opts (record {
  ref = ref;
  one_time_use = true;
  allow_cache = false;
  resolved = none;
  consumed = false;
})

-- make and copy: the copy of a nil value is empty and not nil.
abbrev pub bytes_of : Option Str → Str
bytes_of none = []
bytes_of (some bytes) = bytes

unfoldable pub copy_secret : Option Secret → Option Secret
copy_secret none = none
copy_secret (some s) = some (record s { value = some (bytes_of s.value) })

-- What is done with the resolver's answer: the cache is filled, the use is counted.
unfoldable pub take_answer :
    Result (Option Secret) → SecretString → Result (Option Secret) × SecretString
unfolding copy_secret
take_answer (err e) s = (err (failed_to_resolve e), s)
take_answer (ok secret) s = (
  ok secret,
  record s {
    resolved = if s.allow_cache && not s.one_time_use then copy_secret secret else s.resolved;
    consumed = if s.one_time_use then true else s.consumed;
  },
)

module _ {W : Type 0} (resolver : Resolver W) where
  unfoldable pub ask : SecretString → W → Result (Option Secret) × SecretString × W
  unfolding take_answer
  ask s w =
      let (result, w') = resolver s.ref w in
      let (answer, s') = take_answer result s in (answer, s', w')

  unfoldable pub resolve : SecretString → W → Result (Option Secret) × SecretString × W
  unfolding ask copy_secret
  resolve s w =
      if s.one_time_use && s.consumed
      then (err already_consumed, s, w)
      else if s.allow_cache
      then (elim s.resolved [
        | none ↦ ask s w
        | some held ↦
            if s.one_time_use
            then (ok (some held), record s { consumed = true; resolved = none }, w)
            else (ok (copy_secret (some held)), s, w)
      ])
      else ask s w

  -- A nil secret has no value to read: the method call on it panics.
  unfoldable pub string : SecretString → W → Result Str × SecretString × W
  unfolding resolve to_string
  string s w =
      let (result, s', w') = resolve s w in
      (
        elim result [
          | err e ↦ err e
          | ok secret ↦ elim secret [
            | none ↦ err nil_dereference
            | some held ↦ ok (to_string held).0
          ]
        ],
        s',
        w',
      )

  unfoldable pub bytes : SecretString → W → Result (Option Str) × SecretString × W
  unfolding resolve to_bytes
  bytes s w =
      let (result, s', w') = resolve s w in
      (
        elim result [
          | err e ↦ err e
          | ok secret ↦ elim secret [
            | none ↦ err nil_dereference
            | some held ↦ ok (to_bytes held).0
          ]
        ],
        s',
        w',
      )

unfoldable pub is_consumed : SecretString → Bool
is_consumed s = s.one_time_use && s.consumed

-- Clear also zeroes the cached secret: the second part is what its memory then holds.
unfoldable pub clear_cached : SecretString → SecretString × Option Str
unfolding clear
clear_cached s = (
  record s { resolved = none; consumed = if s.one_time_use then true else s.consumed },
  elim s.resolved [ none ↦ none | some held ↦ (clear held).1 ],
)
