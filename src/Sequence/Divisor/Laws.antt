-- ===== src/Sequence/Divisor/Laws.antt =====
-- What the divisor functions compute: the greatest common divisor, a test for both divisors at
-- once, and a count.
use Prim.Native.Nat.{◌∣◌}
use native.Mathlib.Nat.{
  dvd-sub, dvd-mod_iff, dvd_refl, dvd-zero, dvd_trans, dvd-mul_right, dvd-mul_left,
  dvd-mul_right_of_dvd, mul-dvd-mul_left, dvd_of_mul-dvd-mul_left, mul-div_cancel',
  mod-eq-zero_of_dvd, dvd_of_mod-eq-zero, le_of_dvd, div-lt_iff_lt-mul, div-zero, zero-div,
  div-le_self, div-eq_of_lt-le, div-add-mod, suc-mod, mod_self, mod-eq_of_lt, mod-lt,
  pos_of_dvd_of_pos, le-div_iff_mul-le, mod-zero,
}
use fizzbuzz.Prelude.{
  ℕ, zero, suc, ◌+◌, ◌-◌, ◌*◌, ◌/◌, ◌%◌, ◌≤◌, ◌<◌, ◌≡◌, ◌≢◌, ◌↔◌, ◌∙◌, ap, arith, ltb, ◌==◌,
  if◌then◌else◌, Bool-cases, inl, inr, ==→eq, ==→ne, two_63, ltb→lt, ltb→ge, *w-eq,
}
use fizzbuzz.Sequence.Divisor.{gcd_loop, gcd, lcm_capped, multiples}

dvd-mod-mul : (a b x d : ℕ) → d ∣ a * x → d ∣ b * x → d ∣ a % b * x
dvd-mod-mul a b x d p q =
    let e : a * x - b * x * (a / b) ≡ a % b * x =
      omega (arith, ap (λ (t : ℕ). t * x) (div-add-mod a b)) in
    rw (← e) (dvd-sub d p (dvd-mul_right_of_dvd d q (a / b)))

-- Whatever divides both products divides that of the greatest common divisor.
dvd-gcd_loop-mul : (fuel a b x d : ℕ) → b < fuel → d ∣ a * x → d ∣ b * x → d ∣ gcd_loop fuel a b * x
unfolding gcd_loop
dvd-gcd_loop-mul zero a b x d h p q = elim h [ ]
dvd-gcd_loop-mul (suc fuel) a b x d h p q = elim (Bool-cases (b == 0)) [
  | inl done ↦ rw done p
  | inr more ↦ rw more (
      dvd-gcd_loop-mul fuel b (a % b) x d (omega (arith, ==→ne b 0 more)) q
        (dvd-mod-mul a b x d p q))
]

gcd_loop-dvd : (fuel a b : ℕ) → b < fuel → (gcd_loop fuel a b ∣ a) × (gcd_loop fuel a b ∣ b)
unfolding gcd_loop
gcd_loop-dvd zero a b h = elim h [ ]
gcd_loop-dvd (suc fuel) a b h = elim (Bool-cases (b == 0)) [
  | inl done ↦ rw done (dvd_refl a, rw (==→eq b 0 done) (dvd-zero a))
  | inr more ↦
      let (p, q) = gcd_loop-dvd fuel b (a % b) (omega (arith, ==→ne b 0 more)) in
      rw more ((dvd-mod_iff (gcd_loop fuel b (a % b)) p).0 q, p)
]

-- `gcd` divides both numbers.
pub gcd-dvd : (a b : ℕ) → (gcd a b ∣ a) × (gcd a b ∣ b)
unfolding gcd
gcd-dvd a b = gcd_loop-dvd (suc b) a b (omega arith)

-- What divides a * x and b * x divides `gcd` * x: for x = 1, every common divisor divides `gcd`.
pub dvd-gcd : (a b x d : ℕ) → d ∣ a * x → d ∣ b * x → d ∣ gcd a b * x
unfolding gcd
dvd-gcd a b x d = dvd-gcd_loop-mul (suc b) a b x d (omega arith)

pub gcd_pos : (a b : ℕ) → 0 < a → 0 < gcd a b
gcd_pos a b h = pos_of_dvd_of_pos (gcd-dvd a b).0 h

module _ (a b : ℕ) (ha : 0 < a) (hb : 0 < b) where
  lcm_forms : a / gcd a b * b ≡ a * (b / gcd a b)
  lcm_forms =
      let g = gcd a b in
      let p = mul-div_cancel' g (gcd-dvd a b).0 in
      let q = mul-div_cancel' g (gcd-dvd a b).1 in
      omega (arith, ap (λ (t : ℕ). t * (b / g)) p, ap (λ (t : ℕ). a / g * t) q)

  lcm-dvd : (i : ℕ) → a / gcd a b * b ∣ i → (a ∣ i) × (b ∣ i)
  lcm-dvd i h = (
    dvd_trans a (rw lcm_forms (dvd-mul_right a (b / gcd a b))) h,
    dvd_trans b (dvd-mul_left b (a / gcd a b)) h,
  )

  dvd-lcm : (i : ℕ) → a ∣ i → b ∣ i → a / gcd a b * b ∣ i
  dvd-lcm i p q =
      let g = gcd a b in
      let s = i / a in
      let whole : a * s ≡ i = mul-div_cancel' a p in
      let common : b ∣ g * s = dvd-gcd a b s b (rw whole q) (dvd-mul_right b s) in
      let part : g * (b / g) ∣ g * s = rw (mul-div_cancel' g (gcd-dvd a b).1) common in
      let last : a * (b / g) ∣ a * s =
        mul-dvd-mul_left (b / g) a (dvd_of_mul-dvd-mul_left (b / g) (gcd_pos a b ha) part) in
      rw (lcm_forms, ← whole) last

  common_multiple_iff : (i : ℕ) → (i % (a / gcd a b * b) ≡ 0) ↔ ((i % a ≡ 0) × (i % b ≡ 0))
  common_multiple_iff i = (
    λ z.
        let (p, q) = lcm-dvd i (dvd_of_mod-eq-zero _ z) in
        (mod-eq-zero_of_dvd a p, mod-eq-zero_of_dvd b q),
    λ z. mod-eq-zero_of_dvd _ (dvd-lcm i (dvd_of_mod-eq-zero a z.0) (dvd_of_mod-eq-zero b z.1)),
  )

  -- For positive divisors, a limit below 2 ^ 63 and a number from 1 to the limit: it is a multiple of
  -- `lcmCapped` if and only if it is a multiple of both divisors. (For a result of 0, never.)
  pub mod-lcm_capped_iff :
      (n i : ℕ)
      → n < two_63
      → 0 < i
      → i ≤ n
      → (i % lcm_capped a b n ≡ 0) ↔ ((i % a ≡ 0) × (i % b ≡ 0))
  unfolding lcm_capped
  mod-lcm_capped_iff n i hn pos fits = elim (Bool-cases (ltb (n / b) (a / gcd a b))) [
    | inl over ↦
        let far : n < a / gcd a b * b = (div-lt_iff_lt-mul hb).0 (ltb→lt _ _ over) in
        rw over (
          λ z. absurd (omega (arith, mod-zero i, z)),
          λ z.
              let d = dvd_of_mod-eq-zero (a / gcd a b * b) ((common_multiple_iff i).1 z) in
              absurd (omega (arith, le_of_dvd pos d)),
        )
    | inr fine ↦
        let near : a / gcd a b * b ≤ n = (le-div_iff_mul-le hb).0 (ltb→ge _ _ fine) in
        rw (fine, *w-eq (a / gcd a b) b (omega arith)) (common_multiple_iff i)
  ]

-- A count of the multiples in [1, x], whatever m is.
pub multiples-eq : (x m : ℕ) → multiples x m ≡ x / m
unfolding multiples
multiples-eq x zero = rw (div-zero x)
multiples-eq zero (suc m) = rw (zero-div (suc m)) (ground arith)
multiples-eq (suc x) (suc m) = ground arith

div-suc : (x m : ℕ) → 0 < m → suc x / m ≡ x / m + (if suc x % m == 0 then 1 else 0)
div-suc x m h =
    let whole = div-add-mod x m in
    let small = mod-lt x h in
    elim (Bool-cases (suc x % m == 0)) [
      | inl exact ↦
          let full : suc (x % m) ≡ m =
            grind (arith, suc-mod x m, ==→eq _ _ exact, λ (p : suc (x % m) < m). mod-eq_of_lt p) in
          rw exact (div-eq_of_lt-le {k = x / m + 1} m (omega arith) (omega arith))
      | inr rest ↦
          let room : suc (x % m) ≢ m =
            λ e. ==→ne _ _ rest (suc-mod x m ∙ ap (λ (t : ℕ). t % m) e ∙ mod_self m) in
          rw rest (div-eq_of_lt-le {k = x / m + 0} m (omega arith) (omega arith))
    ]

pub multiples-le : (x m : ℕ) → multiples x m ≤ x
multiples-le x m = rw multiples-eq (div-le_self x m)

-- One more number is one more multiple, or none.
pub multiples-suc :
    (x m : ℕ) → multiples (suc x) m ≡ multiples x m + (if suc x % m == 0 then 1 else 0)
multiples-suc x zero = ground (
  arith,
  multiples-eq (suc x) 0,
  multiples-eq x 0,
  div-zero (suc x),
  div-zero x,
  mod-zero (suc x),
)
multiples-suc x (suc m) = rw (multiples-eq, multiples-eq) (div-suc x (suc m) (omega arith))
