-- ===== src/Stats/Keys.antt =====
-- The keys of the counts: the id of the prefix in the high 32 bits, the limit in the low ones.
use Prim.Native.Nat.{bit_or, bit_or-bitwise, digits}
use native.Mathlib.Nat.{mul_assoc}
use fizzbuzz.Prelude.{
  ℕ, zero, suc, ◌+◌, ◌*◌, ◌/◌, ◌^◌, ◌≤◌, ◌<◌, max, ◌≡◌, refl, sym, ap, ◌∙◌, arith, *w-eq,
}
use fizzbuzz.Stats.{key_of}

abbrev or_digits : ℕ → ℕ → ℕ → ℕ
or_digits = digits (λ b. b) max

or_digits-zero : (n a : ℕ) → a ≤ n → or_digits n a 0 ≡ a
or_digits-zero zero a h = omega arith
or_digits-zero (suc n) zero h = refl
or_digits-zero (suc n) (suc a) h = omega (arith, or_digits-zero n (suc a / 2) (omega arith))

-- A number whose k lowest bits are 0, and one of k bits.
or_digits-add : (k n c x b : ℕ) → x ≡ c * 2 ^ k → x ≤ n → b < 2 ^ k → or_digits n x b ≡ x + b
or_digits-add zero n c x b e h small =
    let none : b ≡ 0 = omega arith in ap (or_digits n x) none ∙ or_digits-zero n x h ∙ omega arith
or_digits-add (suc k) zero c x b e h small = omega arith
or_digits-add (suc k) (suc n) c zero b e h small = omega arith
or_digits-add (suc k) (suc n) c (suc a) b e h small =
    let half : c * 2 ^ suc k ≡ c * 2 ^ k * 2 =
      ap (λ (t : ℕ). c * t) (let d : 2 ^ suc k ≡ 2 ^ k * 2 = omega arith in d)
      ∙ sym (mul_assoc c (2 ^ k) 2) in
    omega (arith, or_digits-add k n c (suc a / 2) (b / 2) (omega arith) (omega arith) (omega arith))

-- For an id and a limit below 2 ^ 32: the key is id * 2 ^ 32 + limit, so nothing of either is lost.
pub key_of-eq :
    (id limit : ℕ) → id < 2 ^ 32 → limit < 2 ^ 32 → key_of id limit ≡ id * 2 ^ 32 + limit
unfolding key_of
key_of-eq id limit h k =
    ap (λ (x : ℕ). bit_or x limit) (*w-eq id (2 ^ 32) (omega arith))
    ∙ bit_or-bitwise (id * 2 ^ 32) limit
    ∙ or_digits-add 32 (id * 2 ^ 32) id (id * 2 ^ 32) limit refl (omega arith) k
