-- ===== src/Sequence/Size/Bands.antt =====
-- The loop of `rangeBytes` over the decimal bands.
use native.Mathlib.Nat.{pow-suc, one-le-pow, pow-le-pow_right}
use fizzbuzz.Prelude.{
  ℕ, zero, suc, ◌+◌, ◌-◌, ◌*◌, ◌/◌, ◌%◌, ◌^◌, ◌≤◌, ◌<◌, min, max, ◌≡◌, ◌⊎◌, refl, sym, ap, arith,
  ltb, leb, ◌==◌, length, Bool-cases, inl, inr, ltb→lt, ltb→ge, leb→le, leb→gt, ==→eq, ==→ne,
  two_64, max_int, sum_range, sum_range-zero, sum_range-suc, sum_range-add,
}
use fizzbuzz.GoLib.Decimal.{format, length-format}
use fizzbuzz.Sequence.Size.{Plan, plain_in, band_end, add_band, band_loop}
use fizzbuzz.Sequence.Size.Count.{is_plain, plain_size, plain_in-sum}
use fizzbuzz.Sequence.Elements.{IsPlan}

-- The end of a band is below the next power of ten, and reaches it or math.MaxInt.
band_end_cases :
    (k : ℕ)
    → ((band_end (10 ^ k) + 1 ≡ 10 ^ suc k) × (band_end (10 ^ k) < max_int))
      ⊎ ((band_end (10 ^ k) ≡ max_int) × (max_int < 10 ^ suc k))
unfolding band_end
band_end_cases k = elim (Bool-cases (leb (10 ^ k) (max_int / 10))) [
  | inl fits ↦ rw fits (
      inl (
        omega (arith, pow-suc 10 k, one-le-pow k 10 (omega arith)),
        omega (arith, leb→le _ _ fits),
      ))
  | inr over ↦ rw over (inr (refl, omega (arith, pow-suc 10 k, leb→gt _ _ over)))
]

-- In one band all numbers have as many digits.
sum_plain_size :
    (pl : Plan) (k i n : ℕ)
    → 10 ^ k ≤ i
    → i + n ≤ 10 ^ suc k
    → sum_range (plain_size pl) i n ≡ sum_range (is_plain pl) i n * (k + 1 + 3)
sum_plain_size pl k i zero lo hi = simp sum_range-zero (omega arith)
sum_plain_size pl k i (suc n) lo hi =
    let e = sum_plain_size pl k (suc i) n (omega arith) (omega arith) in
    let d = length-format k i lo (omega arith) in
    let d' : length (format i) + 3 ≡ k + 1 + 3 = omega arith in
    let e' : plain_size pl i ≡ is_plain pl i * (k + 1 + 3) =
      unfold plain_size in ap (λ (t : ℕ). is_plain pl i * t) d' in
    rw (sum_range-suc, sum_range-suc) (omega arith)

-- Two ranges, of which the second begins where the first ends unless it is empty.
sum_two_ranges :
    (f : ℕ → ℕ) (x z m n : ℕ)
    → (n ≡ 0) ⊎ (x + m ≡ z)
    → sum_range f x m + sum_range f z n ≡ sum_range f x (m + n)
sum_two_ranges f x z m n (inl e) =
    rw (e, sum_range-zero) (let e' : m + 0 ≡ m = omega arith in rw e' (omega arith))
sum_two_ranges f x z m n (inr e) = rw (← e) (sym (sum_range-add f x m n))

module _ (pl : Plan) (v : IsPlan pl) where
  plain_in-range :
      (x y : ℕ) → 0 < x → x ≤ y → y ≤ pl.n → plain_in pl x y ≡ sum_range (is_plain pl) x (y + 1 - x)
  plain_in-range zero y pos h fits = elim pos [ ]
  plain_in-range (suc k) y pos h fits =
      let e : k + (y + 1 - suc k) ≡ y = omega arith in
      rw e at (plain_in-sum pl v k (y + 1 - suc k) (omega arith) (omega arith))

  module _ (lo hi : ℕ) (pos : 0 < lo) (fits : hi ≤ pl.n) where
    abbrev band_sum : ℕ → ℕ → ℕ
    band_sum x y = sum_range (plain_size pl) x (y + 1 - x)

    add_band-sum :
        (k d t : ℕ)
        → d ≡ k + 1
        → add_band pl lo hi d (10 ^ k) (t % two_64)
          ≡ (t + band_sum (max lo (10 ^ k)) (min hi (band_end (10 ^ k)))) % two_64
    unfolding add_band
    add_band-sum k d t e =
        let x = max lo (10 ^ k) in
        let y = min hi (band_end (10 ^ k)) in
        let bound = v.n_int in
        elim (Bool-cases (leb x y)) [
          | inl some_numbers ↦
              let le = leb→le x y some_numbers in
              let in_band : y + 1 ≤ 10 ^ suc k = omega (arith, band_end_cases k) in
              let plain = plain_in-range x y (omega arith) le (omega arith) in
              let sizes = sum_plain_size pl k x (y + 1 - x) (omega arith) (omega arith) in
              rw (some_numbers, e, plain, sizes) (omega arith)
          | inr no_numbers ↦
              let none_left : y + 1 - x ≡ 0 = omega (arith, leb→gt x y no_numbers) in
              rw (no_numbers, none_left, sum_range-zero) (omega arith)
        ]

    -- Enough rounds are given: the band after the 19th begins beyond math.MaxInt.
    pub band_loop-sum :
        (fuel k d t : ℕ)
        → 19 ≤ k + fuel
        → d ≡ k + 1
        → band_loop fuel pl lo hi d (10 ^ k) (t % two_64)
          ≡ (t + band_sum (max lo (10 ^ k)) hi) % two_64
    unfolding band_loop
    band_loop-sum zero k d t h e =
        let far : 10 ^ 19 ≤ 10 ^ k =
          pow-le-pow_right {n = 10} (omega arith) {i = 19} (omega arith) in
        let bound = v.n_int in
        let done : hi + 1 - max lo (10 ^ k) ≡ 0 = omega arith in
        rw (done, sum_range-zero) (omega arith)
    band_loop-sum (suc fuel) k d t h e = elim (Bool-cases (ltb hi (10 ^ k))) [
      | inl past ↦
          let done : hi + 1 - max lo (10 ^ k) ≡ 0 = omega (arith, ltb→lt _ _ past) in
          rw (past, done, sum_range-zero) (omega arith)
      | inr more ↦ elim (Bool-cases (band_end (10 ^ k) == max_int)) [
        | inl last ↦
            let bound = v.n_int in
            let all : min hi (band_end (10 ^ k)) ≡ hi = omega (arith, ==→eq _ _ last) in
            rw (more, last, add_band-sum k d t e, all)
        | inr next ↦ elim (band_end_cases k) [
          | inl (e', _) ↦
              let x = max lo (10 ^ k) in
              let z = max lo (10 ^ suc k) in
              let m = min hi (band_end (10 ^ k)) + 1 - x in
              let joined : m + (hi + 1 - z) ≡ hi + 1 - x = omega (arith, ltb→ge _ _ more) in
              let halves =
                sum_two_ranges (plain_size pl) x z m (hi + 1 - z)
                  (grind (arith, ltb→ge _ _ more)) in
              let rest =
                band_loop-sum fuel (suc k) (d + 1) (t + sum_range (plain_size pl) x m) (omega arith)
                  (omega arith) in
              rw (more, next, add_band-sum k d t e, e', rest)
                (omega (arith, halves, ap (sum_range (plain_size pl) x) joined))
          | inr (e', _) ↦ absurd (==→ne _ _ next e')
        ]
      ]
    ]
