-- ===== src/Sequence/Size/Count.antt =====
-- What `rangeBytes` counts: the multiples, the plain numbers and the replacements among the
-- elements of a range.
use fizzbuzz.Prelude.{
  ℕ, zero, suc, ◌+◌, ◌-◌, ◌*◌, ◌%◌, ◌≤◌, ◌<◌, ◌≡◌, ap, ◌∙◌, arith, ◌==◌, if◌then◌else◌, length,
  length-append, [], ◌∷◌, two_63, two_64, sum_range, sum_range-zero, sum_range-suc, -w-eq,
}
use fizzbuzz.Sequence.Divisor.{multiples}
use fizzbuzz.Sequence.Divisor.Laws.{multiples-suc, multiples-le}
use fizzbuzz.Sequence.Size.{Plan, multiples_in, plain_in, replacement_bytes}
use fizzbuzz.GoLib.Decimal.{format}
use fizzbuzz.Sequence.Elements.{IsPlan, element, number}

-- 1 for a multiple of `m`, else 0.
pub divides : ℕ → ℕ → ℕ
divides m i = if i % m == 0 then 1 else 0

-- 1 for an element that is a plain number, else 0.
pub is_plain : Plan → ℕ → ℕ
is_plain pl i = if i % pl.a == 0 then 0 else if i % pl.b == 0 then 0 else 1

-- The bytes of a plain number's element, 0 for a replacement.
unfoldable pub plain_size : Plan → ℕ → ℕ
plain_size pl i = is_plain pl i * (length (format i) + 3)

multiples-sum : (m k n : ℕ) → multiples (k + n) m ≡ multiples k m + sum_range (divides m) (suc k) n
unfolding divides
multiples-sum m k zero = let e : k + 0 ≡ k = omega arith in rw (e, sum_range-zero) (omega arith)
multiples-sum m k (suc n) =
    let e : k + suc n ≡ suc k + n = omega arith in
    rw (e, sum_range-suc, multiples-sum m (suc k) n, multiples-suc) (omega arith)

pub multiples_in-sum :
    (m k n : ℕ) → k + n < two_63 → multiples_in (suc k) (k + n) m ≡ sum_range (divides m) (suc k) n
unfolding multiples_in
multiples_in-sum m k n h =
    let e : suc k - 1 ≡ k = omega arith in
    rw e (
      -w-eq (multiples (k + n) m) (multiples k m) (omega (arith, multiples-sum m k n))
        (omega (arith, multiples-le (k + n) m))
      ∙ omega (arith, multiples-sum m k n))

sum_divides-le : (m i n : ℕ) → sum_range (divides m) i n ≤ n
unfolding divides
sum_divides-le m i zero = omega (arith, sum_range-zero (divides m) i)
sum_divides-le m i (suc n) =
    ground (arith, sum_range-suc (divides m) i n, sum_divides-le m (suc i) n)

pub length-number : (i : ℕ) → length (number i) ≡ length (format i) + 3
unfolding number
length-number i = omega (arith, length-append (format i) (b'"' ∷ []))

wrap_three :
    (x y z : ℕ) → ((x % two_64 + y % two_64) % two_64 + z % two_64) % two_64 ≡ (x + y + z) % two_64
wrap_three x y z = omega arith

-- The replacements that count for one divisor only.
regroup :
    (s p a b l x y z : ℕ)
    → l ≤ a
    → l ≤ b
    → s + l * (x + y) ≡ a * x + b * y + l * z + p
    → s ≡ (a - l) * x + (b - l) * y + l * z + p
regroup s p a b l x y z ha hb e =
    let da : (a - l) + l ≡ a = omega arith in
    let db : (b - l) + l ≡ b = omega arith in
    omega (arith, ap (λ (t : ℕ). t * x) da, ap (λ (t : ℕ). t * y) db)

module _ (pl : Plan) (v : IsPlan pl) where
  -- One element is plain, or a multiple of one divisor or of both.
  one_element :
      (i : ℕ)
      → 0 < i
      → i ≤ pl.n
      → (1 + divides pl.l i ≡ is_plain pl i + divides pl.a i + divides pl.b i)
        × (divides pl.l i ≤ divides pl.a i)
        × (divides pl.l i ≤ divides pl.b i)
  unfolding divides is_plain
  one_element i pos fits = ground (arith, v.both i pos fits)

  pub inclusion_exclusion :
      (i n : ℕ)
      → 0 < i
      → i + n ≤ pl.n + 1
      → (n + sum_range (divides pl.l) i n
          ≡ sum_range (is_plain pl) i n
            + sum_range (divides pl.a) i n
            + sum_range (divides pl.b) i n)
        × (sum_range (divides pl.l) i n ≤ sum_range (divides pl.a) i n)
        × (sum_range (divides pl.l) i n ≤ sum_range (divides pl.b) i n)
  inclusion_exclusion i zero pos h = simp sum_range-zero (omega arith)
  inclusion_exclusion i (suc n) pos h =
      let (e, p, q) = one_element i pos (omega arith) in
      let (es, ps, qs) = inclusion_exclusion (suc i) n (omega arith) (omega arith) in
      rw (sum_range-suc, sum_range-suc, sum_range-suc, sum_range-suc) (omega arith)

  one_size :
      (i : ℕ)
      → 0 < i
      → i ≤ pl.n
      → length (element pl i) + divides pl.l i * (length pl.e1 + length pl.e2)
        ≡ divides pl.a i * length pl.e1
          + divides pl.b i * length pl.e2
          + divides pl.l i * length pl.e12
          + plain_size pl i
  unfolding divides is_plain plain_size element
  one_size i pos fits = ground (arith, v.both i pos fits, length-number i)

  -- The sizes of the elements: those of the replacements, and those of the plain numbers.
  sizes_sum :
      (i n : ℕ)
      → 0 < i
      → i + n ≤ pl.n + 1
      → sum_range (λ j. length (element pl j)) i n
          + sum_range (divides pl.l) i n * (length pl.e1 + length pl.e2)
        ≡ sum_range (divides pl.a) i n * length pl.e1
          + sum_range (divides pl.b) i n * length pl.e2
          + sum_range (divides pl.l) i n * length pl.e12
          + sum_range (plain_size pl) i n
  sizes_sum i zero pos h = simp sum_range-zero (omega arith)
  sizes_sum i (suc n) pos h =
      let e = one_size i pos (omega arith) in
      let es = sizes_sum (suc i) n (omega arith) (omega arith) in simp sum_range-suc (omega arith)

  pub plain_in-sum :
      (k n : ℕ)
      → 0 < n
      → k + n ≤ pl.n
      → plain_in pl (suc k) (k + n) ≡ sum_range (is_plain pl) (suc k) n
  unfolding plain_in
  plain_in-sum k n pos h =
      let (e, _, _) = inclusion_exclusion (suc k) n (omega arith) (omega arith) in
      let bound = v.n_int in
      let small = λ (m : ℕ). sum_divides-le m (suc k) n in
      rw
        (
          multiples_in-sum pl.a k n (omega arith),
          multiples_in-sum pl.b k n (omega arith),
          multiples_in-sum pl.l k n (omega arith),
        )
        (omega (arith, small pl.a, small pl.b, small pl.l))

  replacement_bytes_split :
      (k n : ℕ)
      → k + n ≤ pl.n
      → (r : ℕ) × (replacement_bytes pl (suc k) (k + n) ≡ r % two_64)
        × (sum_range (λ j. length (element pl j)) (suc k) n
            ≡ r + sum_range (plain_size pl) (suc k) n)
  unfolding replacement_bytes
  replacement_bytes_split k n h =
      let bound = v.n_int in
      let (_, pa, pb) = inclusion_exclusion (suc k) n (omega arith) (omega arith) in
      let a = sum_range (divides pl.a) (suc k) n in
      let b = sum_range (divides pl.b) (suc k) n in
      let l = sum_range (divides pl.l) (suc k) n in
      let small = λ (m : ℕ). sum_divides-le m (suc k) n in
      (
        (a - l) * length pl.e1 + (b - l) * length pl.e2 + l * length pl.e12,
        rw
            (
              multiples_in-sum pl.a k n (omega arith),
              multiples_in-sum pl.b k n (omega arith),
              multiples_in-sum pl.l k n (omega arith),
              -w-eq a l pa (omega (arith, small pl.a)),
              -w-eq b l pb (omega (arith, small pl.b)),
            )
            (wrap_three ((a - l) * length pl.e1) ((b - l) * length pl.e2) (l * length pl.e12)),
        regroup _ (sum_range (plain_size pl) (suc k) n) a b l _ _ (length pl.e12) pa pb
            (sizes_sum (suc k) n (omega arith) (omega arith)),
      )

  -- Modulo 2 ^ 64, the bytes of the replacements are all but those of the plain numbers.
  pub replacement_bytes-sum :
      (k n hi : ℕ)
      → k + n ≡ hi
      → hi ≤ pl.n
      → (r : ℕ) × (replacement_bytes pl (suc k) hi ≡ r % two_64)
        × (sum_range (λ j. length (element pl j)) (suc k) n
            ≡ r + sum_range (plain_size pl) (suc k) n)
  replacement_bytes-sum k n hi e h = rw (← e) (replacement_bytes_split k n (omega arith))
