-- ===== src/Prelude/Sums.antt =====
-- Sums over a range of numbers: `sum_range f i n` adds `f` at i, i + 1, …, i + n - 1.
use Prim.Native.Nat.{ℕ, zero, suc, ◌+◌, ◌*◌, ◌≤◌, ◌<◌}
use mathlib.Core.Path.{◌≡◌, refl, sym, ap}
use mathlib.Core.Logic.{◌≢◌}
use native.Mathlib.Decide.{ℕ_discrete}
use native.Mathlib.Omega.{arith}
use native.Mathlib.Nat

pub sum_range : (ℕ → ℕ) → ℕ → ℕ → ℕ
sum_range f i zero = 0
sum_range f i (suc n) = f i + sum_range f (suc i) n

pub sum_range-zero : (f : ℕ → ℕ) (i : ℕ) → sum_range f i 0 ≡ 0
unfolding sum_range
sum_range-zero f i = refl

pub sum_range-suc : (f : ℕ → ℕ) (i n : ℕ) → sum_range f i (suc n) ≡ f i + sum_range f (suc i) n
unfolding sum_range
sum_range-suc f i n = refl

pub sum_range-add :
    (f : ℕ → ℕ) (i m n : ℕ) → sum_range f i (m + n) ≡ sum_range f i m + sum_range f (i + m) n
unfolding sum_range
sum_range-add f i zero n =
    let e : 0 + n ≡ n = omega arith in let e' : i + 0 ≡ i = omega arith in rw (e, e') (omega arith)
sum_range-add f i (suc m) n =
    let e : suc m + n ≡ suc (m + n) = omega arith in
    let e' : i + suc m ≡ suc i + m = omega arith in
    rw (e, e') (omega (arith, sum_range-add f (suc i) m n))

-- A relation between the terms is one between the sums.
pub sum_range_mono :
    (f g : ℕ → ℕ) (i n : ℕ)
    → ((j : ℕ) → i ≤ j → j < i + n → f j ≤ g j)
    → sum_range f i n ≤ sum_range g i n
unfolding sum_range
sum_range_mono f g i zero h = omega arith
sum_range_mono f g i (suc n) h =
    let now = h i (omega arith) (omega arith) in
    let rest = sum_range_mono f g (suc i) n (λ j p q. h j (omega arith) (omega arith)) in
    omega arith

pub sum_range_eq :
    (f g : ℕ → ℕ) (i n : ℕ)
    → ((j : ℕ) → i ≤ j → j < i + n → f j ≡ g j)
    → sum_range f i n ≡ sum_range g i n
unfolding sum_range
sum_range_eq f g i zero h = refl
sum_range_eq f g i (suc n) h =
    let now = h i (omega arith) (omega arith) in
    let rest = sum_range_eq f g (suc i) n (λ j p q. h j (omega arith) (omega arith)) in omega arith

-- Two sums that differ in one term.
pub sum_range_change :
    (f g : ℕ → ℕ) (k i n : ℕ)
    → i ≤ k
    → k < i + n
    → ((j : ℕ) → j ≢ k → f j ≡ g j)
    → sum_range f i n + g k ≡ sum_range g i n + f k
unfolding sum_range
sum_range_change f g k i zero le lt h = absurd (omega arith)
sum_range_change f g k i (suc n) le lt h = elim (ℕ_discrete k i) [
  | yes here ↦
      let rest = sum_range_eq f g (suc i) n (λ j p q. h j (λ e. omega arith)) in
      omega (arith, ap f here, ap g here)
  | no later ↦
      let now = h i (λ e. later (sym e)) in
      let rest = sum_range_change f g k (suc i) n (ground (arith, later)) (omega arith) h in
      omega arith
]

pub sum_range_term : (f : ℕ → ℕ) (k i n : ℕ) → i ≤ k → k < i + n → f k ≤ sum_range f i n
unfolding sum_range
sum_range_term f k i zero le lt = absurd (omega arith)
sum_range_term f k i (suc n) le lt = elim (ℕ_discrete k i) [
  | yes here ↦ omega (arith, ap f here)
  | no later ↦ omega (arith, sum_range_term f k (suc i) n (ground (arith, later)) (omega arith))
]

pub sum_range_none : (f : ℕ → ℕ) (i n : ℕ) → ((j : ℕ) → f j ≡ 0) → sum_range f i n ≡ 0
unfolding sum_range
sum_range_none f i zero h = refl
sum_range_none f i (suc n) h = omega (arith, h i, sum_range_none f (suc i) n h)

pub sum_range_le : (f : ℕ → ℕ) (m i n : ℕ) → ((j : ℕ) → f j ≤ m) → sum_range f i n ≤ n * m
unfolding sum_range
sum_range_le f m i zero h = omega arith
sum_range_le f m i (suc n) h =
    omega (arith, h i, sum_range_le f m (suc i) n h, native.Mathlib.Nat.suc-mul n m)
