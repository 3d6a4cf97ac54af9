-- ===== src/Prelude/Words.antt =====
-- Go's `int`, `int64` and `uint64`: a value is its 64-bit pattern, a number below 2 ^ 64, and each
-- operation wraps around. A signed value is negative if its pattern is 2 ^ 63 or more.
use Prim.Native.Nat.{ℕ, ◌+◌, ◌-◌, ◌*◌, ◌%◌, ◌^◌, ◌/◌, ◌≤◌, ◌<◌}
use mathlib.Core.Path.{◌≡◌}
use mathlib.Core.Bool.{Bool}
use native.Mathlib.Omega.{arith}
use native.Mathlib.Nat.{mod-eq_of_lt}
use fizzbuzz.Prelude.Tests.{ltb, leb, if◌then◌else◌}

abbrev pub two_64 : ℕ
two_64 = 2 ^ 64

abbrev pub two_63 : ℕ
two_63 = 2 ^ 63

-- math.MaxInt
abbrev pub max_int : ℕ
max_int = 2 ^ 63 - 1

infixl 65 ◌+w◌ ◌-w◌
infixl 70 ◌*w◌
abbrev pub ◌+w◌ : ℕ → ℕ → ℕ
a +w b = (a + b) % two_64

abbrev pub ◌-w◌ : ℕ → ℕ → ℕ
a -w b = (a + two_64 - b) % two_64

abbrev pub ◌*w◌ : ℕ → ℕ → ℕ
a *w b = (a * b) % two_64

abbrev pub is_neg : ℕ → Bool
is_neg a = leb two_63 a

-- `a >> k`, which keeps the sign: it rounds down.
abbrev pub shr_int : ℕ → ℕ → ℕ
shr_int a k = if is_neg a then two_64 - (two_64 - a + (2 ^ k - 1)) / 2 ^ k else a / 2 ^ k

-- Signed order: flipping the sign bit maps it to the order of the patterns.
abbrev pub lt_int : ℕ → ℕ → Bool
lt_int a b = ltb ((a + two_63) % two_64) ((b + two_63) % two_64)

pub lt_int-eq : (a b : ℕ) → a < two_63 → b < two_63 → lt_int a b ≡ ltb a b
lt_int-eq a b ha hb = ground arith

pub +w-eq : (a b : ℕ) → a + b < two_64 → a +w b ≡ a + b
+w-eq a b h = omega arith

pub -w-eq : (a b : ℕ) → b ≤ a → a < two_64 → a -w b ≡ a - b
-w-eq a b h k = omega arith

pub *w-eq : (a b : ℕ) → a * b < two_64 → a *w b ≡ a * b
*w-eq a b h = mod-eq_of_lt h
