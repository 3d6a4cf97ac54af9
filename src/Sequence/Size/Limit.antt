-- ===== src/Sequence/Size/Limit.antt =====
-- How long a document can be.
use native.Mathlib.Nat.{pow-suc}
use fizzbuzz.Prelude.{
  ℕ, zero, suc, ◌+◌, ◌*◌, ◌/◌, ◌%◌, ◌^◌, ◌≤◌, ◌<◌, ◌≡◌, refl, ap, Bool-cases, inl, inr, [], ◌∷◌,
  arith, ltb, ltb→ge, ◌==◌, length, length-append, two_64,
}
use fizzbuzz.GoLib.Decimal.{format, format_small, format_large}
use fizzbuzz.GoLib.Json.Length.{AllShort, length-marshal_strings_le}
use fizzbuzz.Sequence.Params.{Params}
use fizzbuzz.Sequence.Reference.{say, strings, document}

length-format_le : (k v : ℕ) → v < 10 ^ suc k → length (format v) ≤ suc k
length-format_le zero v h = rw (format_small v (omega arith)) (omega arith)
length-format_le (suc k) v h = elim (Bool-cases (ltb v 10)) [
  | inl small ↦ rw (format_small v (ground arith)) (omega arith)
  | inr large ↦ rw (format_large v (ltb→ge v 10 large)) (
      omega (
        arith,
        length-append (format (v / 10)) ((b'0' + v % 10) ∷ []),
        length-format_le k (v / 10) (omega (arith, pow-suc 10 (suc k))),
      ))
]

-- The longest string of a sequence.
abbrev pub longest : Params → ℕ
longest p = length p.str1 + length p.str2 + 20

say-short : (p : Params) (i : ℕ) → i < two_64 → length (say p i) ≤ longest p
unfolding say
say-short p i h = elim (Bool-cases (i % p.int1 == 0)) [
  | inl one ↦ elim (Bool-cases (i % p.int2 == 0)) [
    | inl two ↦ rw (one, two) (omega (arith, length-append p.str1 p.str2))
    | inr two ↦ rw (one, two) (omega arith)
  ]
  | inr one ↦ elim (Bool-cases (i % p.int2 == 0)) [
    | inl two ↦ rw (one, two) (omega arith)
    | inr two ↦ rw (one, two) (omega (arith, length-format_le 19 i (omega arith)))
  ]
]

strings-AllShort : (p : Params) (i n : ℕ) → i + n ≤ two_64 → AllShort (longest p) (strings p i n)
unfolding strings
strings-AllShort p i zero h = tt
strings-AllShort p i (suc n) h =
    (say-short p i (omega arith), strings-AllShort p (suc i) n (omega arith))

length-strings : (p : Params) (i n : ℕ) → length (strings p i n) ≡ n
unfolding strings
length-strings p i zero = refl
length-strings p i (suc n) = ap suc (length-strings p (suc i) n)

-- For a limit below 2 ^ 64 - 1.
pub length-document_le :
    (p : Params) → p.limit + 1 ≤ two_64 → length (document p) ≤ p.limit * (6 * longest p + 3) + 2
unfolding document
length-document_le p h =
    let e : length (strings p 1 p.limit) * (6 * longest p + 3) ≡ p.limit * (6 * longest p + 3) =
      ap (λ n. n * (6 * longest p + 3)) (length-strings p 1 p.limit) in
    let all =
      length-marshal_strings_le (longest p) (strings p 1 p.limit)
        (strings-AllShort p 1 p.limit (omega arith)) in
    omega arith
