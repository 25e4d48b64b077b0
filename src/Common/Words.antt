-- ===== src/Common/Words.antt =====
-- int64 arithmetic on bit patterns, numbers below 2 ^ 64.
use Prim.Native.Nat.{ℕ, ◌+◌, ◌-◌, ◌%◌, ◌^◌, ◌<◌}
use mathlib.Core.Bool.{Bool}
use mathlib.Core.Path.{◌≡◌}
use native.Mathlib.Omega.{arith}
use catalyst_forge_libs.Common.Tests.{leb}

unfoldable pub add64 : ℕ → ℕ → ℕ
add64 a b = (a + b) % 2 ^ 64

unfoldable pub sub64 : ℕ → ℕ → ℕ
sub64 a b = (a + (2 ^ 64 - b)) % 2 ^ 64

-- a <= b as signed numbers
unfoldable pub leb_signed : ℕ → ℕ → Bool
leb_signed a b = leb ((a + 2 ^ 63) % 2 ^ 64) ((b + 2 ^ 63) % 2 ^ 64)

pub add64_fits : (a b : ℕ) → a + b < 2 ^ 64 → add64 a b ≡ a + b
unfolding add64
add64_fits a b h = omega arith

pub sub64_fits : (a b : ℕ) → a < 2 ^ 63 → b < 2 ^ 63 → b < a → sub64 a b ≡ a - b
unfolding sub64
sub64_fits a b ha hb h = omega arith

pub leb_signed_fits : (a b : ℕ) → a < 2 ^ 63 → b < 2 ^ 63 → leb_signed a b ≡ leb a b
unfolding leb_signed
leb_signed_fits a b ha hb = ground arith
