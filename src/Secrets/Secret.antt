-- ===== src/Secrets/Secret.antt =====
-- secrets/core/secret.go: the methods of `Secret`. A method that may clear the secret returns the
-- secret that is left and the bytes that then stand in the memory of the old value.
use catalyst_forge_libs.Common.{
  true, Option, none, some, [], ◌∷◌, ◌≡◌, refl, arith, Str, length, All, if◌then◌else◌,
}
use catalyst_forge_libs.Secrets.Types.{Secret, Result, ok, err, unmarshal_failed}

-- for i := range s.Value { s.Value[i] = 0 }
unfoldable pub zero_out : Str → Str
zero_out [] = []
zero_out (b ∷ bs) = 0 ∷ zero_out bs

unfoldable pub clear : Secret → Secret × Option Str
clear s = elim s.value [
  | none ↦ (s, none)
  | some bytes ↦ (record s { value = none }, some (zero_out bytes))
]

-- The secret and its memory after `if s.AutoClear { s.Clear() }`.
unfoldable pub after_use : Secret → Secret × Option Str
unfolding clear
after_use s = if s.auto_clear then clear s else (s, s.value)

unfoldable pub to_string : Secret → Str × Secret × Option Str
unfolding after_use
to_string s = elim s.value [
  | none ↦ ([], s, none)
  | some bytes ↦ let (left, memory) = after_use s in (bytes, left, memory)
]

unfoldable pub to_bytes : Secret → Option Str × Secret × Option Str
unfolding after_use
to_bytes s = elim s.value [
  | none ↦ (none, s, none)
  | some bytes ↦ let (left, memory) = after_use s in (some bytes, left, memory)
]

-- encoding/json is a parameter: what it decodes, or `none` for its error.
unfoldable pub unmarshal_json : (Str → Option Secret) → Str → Secret → Result Secret
unfolding clear
unmarshal_json decode data' s = elim (decode data') [
  | none ↦ err unmarshal_failed
  | some decoded ↦ ok (if decoded.auto_clear then (clear decoded).0 else decoded)
]

pub zero_out_zeros : (bytes : Str) → All (λ b. b ≡ 0) (zero_out bytes)
unfolding zero_out
zero_out_zeros [] = tt
zero_out_zeros (b ∷ bs) = (refl, zero_out_zeros bs)

pub length-zero_out : (bytes : Str) → length (zero_out bytes) ≡ length bytes
unfolding zero_out
length-zero_out [] = refl
length-zero_out (b ∷ bs) = omega (arith, length-zero_out bs)

-- A use of a secret that clears itself hands out the whole value, as text and as bytes, and leaves
-- no value in the secret and nothing but zeros, as many as there were bytes, in its old memory.
pub use_of_auto_clear :
    (s : Secret) (bytes : Str)
    → s.value ≡ some bytes
    → s.auto_clear ≡ true
    → (to_string s ≡ (bytes, record s { value = none }, some (zero_out bytes)))
      × (to_bytes s ≡ (some bytes, record s { value = none }, some (zero_out bytes)))
      × All (λ b. b ≡ 0) (zero_out bytes)
      × (length (zero_out bytes) ≡ length bytes)
unfolding to_string to_bytes
use_of_auto_clear s bytes held auto =
    (ground arith, ground arith, zero_out_zeros bytes, length-zero_out bytes)
