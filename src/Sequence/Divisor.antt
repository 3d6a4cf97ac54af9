-- ===== src/Sequence/Divisor.antt =====
-- internal/fizzbuzz/size.go: `gcd`, `lcmCapped` and `multiples`. The divisors are validated, so they
-- are positive and below 2 ^ 63, where Go's signed operators are those of the natural numbers.
pub mod Laws
use fizzbuzz.Prelude.{ℕ, zero, suc, ◌/◌, ◌%◌, ◌||◌, ltb, leb, ◌==◌, if◌then◌else◌, ◌*w◌}

-- `for b != 0 { a, b = b, a%b }`: `b` falls in each round.
unfoldable pub gcd_loop : ℕ → ℕ → ℕ → ℕ
gcd_loop zero a b = a
gcd_loop (suc fuel) a b = let rest = gcd_loop fuel b (a % b) in if b == 0 then a else rest

unfoldable pub gcd : ℕ → ℕ → ℕ
unfolding gcd_loop
gcd a b = gcd_loop (suc b) a b

unfoldable pub lcm_capped : ℕ → ℕ → ℕ → ℕ
lcm_capped a b limit = let q = a / gcd a b in if ltb (limit / b) q then 0 else q *w b

unfoldable pub multiples : ℕ → ℕ → ℕ
multiples x m = if m == 0 || leb x 0 then 0 else x / m
