-- ===== src/GoLib/Decimal.antt =====
-- `strconv.AppendInt(dst, v, 10)`, `strconv.FormatInt` and `%d`: the decimal digits of a number.
use fizzbuzz.Prelude.{
  ℕ, zero, suc, ◌+◌, ◌-◌, ◌/◌, ◌%◌, ◌^◌, ◌≤◌, ◌<◌, ◌≡◌, refl, ◌∙◌, ap, [], ◌∷◌, ◌++◌, arith, Bytes,
  codes, ltb, if◌then◌else◌, length, length-append, Bool-cases, inl, inr, ltb→ge, two_63, two_64,
  is_neg,
}
use native.Mathlib.Nat.{pow-suc}

-- The digits of `v`, most significant first; `fuel` bounds their number.
decimal : ℕ → ℕ → Bytes
decimal zero v = []
decimal (suc fuel) v =
    let longer = decimal fuel (v / 10) ++ (b'0' + v % 10) ∷ [] in
    if ltb v 10 then (b'0' + v) ∷ [] else longer

unfoldable pub format : ℕ → Bytes
unfolding decimal
format v = decimal (suc v) v

-- A signed value, by its pattern.
unfoldable pub format_int : ℕ → Bytes
unfolding format
format_int w = if is_neg w then b'-' ∷ format (two_64 - w) else format w

-- Any fuel above the number gives the same digits.
decimal_fuel : (m n v : ℕ) → v < m → v < n → decimal m v ≡ decimal n v
unfolding decimal
decimal_fuel zero n v h k = elim h [ ]
decimal_fuel (suc m) zero v h k = elim k [ ]
decimal_fuel (suc m) (suc n) v h k = elim (Bool-cases (ltb v 10)) [
  | inl small ↦ rw small
  | inr large ↦ rw large (
      ap (λ (ds : Bytes). ds ++ (b'0' + v % 10) ∷ [])
        (decimal_fuel m n (v / 10) (omega (arith, ltb→ge v 10 large))
          (omega (arith, ltb→ge v 10 large))))
]

pub format_small : (v : ℕ) → v < 10 → format v ≡ (b'0' + v) ∷ []
unfolding format
format_small v h = ground arith

-- The last digit stands behind those of the tenth.
pub format_large : (v : ℕ) → 10 ≤ v → format v ≡ format (v / 10) ++ (b'0' + v % 10) ∷ []
unfolding format decimal
format_large v h = elim (Bool-cases (ltb v 10)) [
  | inl small ↦ absurd (ground arith)
  | inr large ↦ rw large (
      ap (λ (ds : Bytes). ds ++ (b'0' + v % 10) ∷ [])
        (decimal_fuel v (suc (v / 10)) (v / 10) (omega arith) (omega arith)))
]

-- A number in the decimal band of `k + 1` digits has `k + 1` digits.
pub length-format : (k v : ℕ) → 10 ^ k ≤ v → v < 10 ^ suc k → length (format v) ≡ suc k
length-format zero v lo hi = rw (format_small v (omega arith)) refl
length-format (suc k) v lo hi =
    let big : 10 ≤ v = grind (arith, pow-suc 10 k, native.Mathlib.Nat.one-le-pow k 10) in
    rw (format_large v big) (
      length-append (format (v / 10)) ((b'0' + v % 10) ∷ [])
      ∙ (omega (
        arith,
        length-format k (v / 10) (omega (arith, pow-suc 10 k)) (omega (arith, pow-suc 10 (suc k))),
      )))

pub length-format-pos : (v : ℕ) → 1 ≤ length (format v)
length-format-pos v = elim (Bool-cases (ltb v 10)) [
  | inl small ↦ rw (format_small v (ground arith)) (omega arith)
  | inr large ↦
      rw (format_large v (ltb→ge v 10 large))
        (omega (arith, length-append (format (v / 10)) ((b'0' + v % 10) ∷ [])))
]

format_runs : format 1203 ≡ codes "1203"
unfolding format
format_runs = refl

format_int_runs : format_int (two_64 - 7) ≡ codes "-7"
unfolding format_int
format_int_runs = refl

pub format_int-eq : (v : ℕ) → v < two_63 → format_int v ≡ format v
unfolding format_int
format_int-eq v h = ground arith
