-- ===== src/Common/Int32.antt =====
-- `int32_t` as its 32-bit pattern, a number below 2 ^ 32; arithmetic wraps.
use Prim.Native.Nat.{ℕ, ◌+◌, ◌-◌, ◌*◌, ◌/◌, ◌%◌, ◌^◌, ◌<◌}
use mathlib.Core.Bool.{Bool, xor}
use native.Mathlib.Omega.{arith}
use ta_engine.Common.Tests.{ltb, leb, if◌then◌else◌}

abbrev pub word : ℕ
word = 2 ^ 32

abbrev pub minus_one : ℕ
minus_one = 2 ^ 32 - 1

-- A number as an `int32_t` or a `uint32_t`.
unfoldable pub wrap : ℕ → ℕ
wrap n = n % word

unfoldable pub is_neg : ℕ → Bool
is_neg a = leb (2 ^ 31) a

unfoldable pub neg32 : ℕ → ℕ
neg32 a = (word - a) % word

-- The absolute value, as a number.
unfoldable pub mag : ℕ → ℕ
unfolding is_neg
mag a = if is_neg a then word - a else a

unfoldable pub add32 : ℕ → ℕ → ℕ
add32 a b = (a + b) % word

unfoldable pub sub32 : ℕ → ℕ → ℕ
sub32 a b = (a + word - b) % word

unfoldable pub mul32 : ℕ → ℕ → ℕ
mul32 a b = a * b % word

-- `a / b` and `a % b` round towards zero; the divisor is not 0.
unfoldable pub div32 : ℕ → ℕ → ℕ
unfolding mag is_neg neg32
div32 a b = let q = mag a / mag b in if xor (is_neg a) (is_neg b) then neg32 q else q

unfoldable pub mod32 : ℕ → ℕ → ℕ
unfolding mag is_neg neg32
mod32 a b = let r = mag a % mag b in if is_neg a then neg32 r else r

unfoldable pub not32 : ℕ → ℕ
not32 a = minus_one - a

-- Shifts by less than 32; `shr32` keeps the sign.
unfoldable pub shl32 : ℕ → ℕ → ℕ
shl32 a b = a * 2 ^ b % word

unfoldable pub shr32 : ℕ → ℕ → ℕ
unfolding is_neg not32
shr32 a b = if is_neg a then not32 (not32 a / 2 ^ b) else a / 2 ^ b

-- The order of the integers that the patterns stand for.
unfoldable pub lt32 : ℕ → ℕ → Bool
lt32 a b = ltb ((a + 2 ^ 31) % word) ((b + 2 ^ 31) % word)

unfoldable pub bool32 : Bool → ℕ
bool32 b = if b then 1 else 0

pub wrap-lt : (n : ℕ) → wrap n < word
unfolding wrap
wrap-lt n = omega arith
