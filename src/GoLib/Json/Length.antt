-- ===== src/GoLib/Json/Length.antt =====
-- The length of a marshalled string.
use native.Mathlib.Nat.{suc-mul}
use fizzbuzz.Prelude.{
  ℕ, zero, suc, ◌+◌, ◌*◌, ◌≤◌, ◌≡◌, Bool, true, false, Bool-cases, inl, inr, List, [], ◌∷◌, ◌++◌,
  arith, Bytes, ltb, ◌==◌, ◌||◌, if◌then◌else◌, length, length-append,
}
use fizzbuzz.GoLib.Utf8.{rune_size}
use fizzbuzz.GoLib.Json.{
  escape_ascii, unicode_escape, is_line_separator, separator_escape, escape_rune, escape_from,
  marshal, marshal_rest, marshal_strings,
}

if_le :
    (b : Bool) (x y : Bytes) (n : ℕ) → length x ≤ n → length y ≤ n → length (if b then x else y) ≤ n
if_le true x y n h k = h
if_le false x y n h k = k

escape_ascii-short : (c : ℕ) → length (escape_ascii c) ≤ 6
unfolding escape_ascii unicode_escape
escape_ascii-short c = if_le (c == b'"' || c == b'\\') _ _ 6 (omega arith) (
    if_le (c == 8) _ _ 6 (omega arith) (
      if_le (c == 12) _ _ 6 (omega arith) (
        if_le (c == 10) _ _ 6 (omega arith) (
          if_le (c == 13) _ _ 6 (omega arith) (
            if_le (c == 9) _ _ 6 (omega arith) (
              if_le (ltb c 0x20 || c == b'<' || c == b'>' || c == b'&') _ _ 6 (omega arith)
                (omega arith)))))))

separator_escape-short : (s : Bytes) → length (separator_escape s) ≤ 6
unfolding separator_escape
separator_escape-short [] = omega arith
separator_escape-short (d ∷ []) = omega arith
separator_escape-short (d ∷ e ∷ s) = omega arith

escape_rune-short : (c : ℕ) (s : Bytes) → length (escape_rune c s).out ≤ 6
unfolding escape_rune
escape_rune-short c s = elim (Bool-cases (ltb c 0x80)) [
  | inl small ↦ rw small (escape_ascii-short c)
  | inr large ↦ elim (Bool-cases (rune_size c s == 0)) [
    | inl bad ↦ rw (large, bad) (omega arith)
    | inr good ↦ elim (Bool-cases (is_line_separator c s)) [
      | inl separator ↦ rw (large, good, separator) (separator_escape-short s)
      | inr other ↦ rw (large, good, other) (omega arith)
    ]
  ]
]

escape_from-short :
    (copied skipped : ℕ) (s : Bytes) → length (escape_from copied skipped s) ≤ 6 * length s
unfolding escape_from
escape_from-short copied skipped [] = omega arith
escape_from-short (suc n) skipped (c ∷ s) = omega (arith, escape_from-short n skipped s)
escape_from-short zero (suc n) (c ∷ s) = omega (arith, escape_from-short zero n s)
escape_from-short zero zero (c ∷ s) =
    let r = escape_rune c s in
    omega (
      arith,
      length-append r.out (escape_from r.copied r.skipped s),
      escape_rune-short c s,
      escape_from-short r.copied r.skipped s,
    )

pub length-marshal_le : (s : Bytes) → length (marshal s) ≤ 6 * length s + 2
unfolding marshal
length-marshal_le s =
    omega (arith, length-append (escape_from 0 0 s) (b'"' ∷ []), escape_from-short 0 0 s)

-- Every string of a list within a length.
abbrev pub AllShort : ℕ → List Bytes → Type 0
AllShort n [] = Unit
AllShort n (s ∷ ss) = (length s ≤ n) × AllShort n ss

length-marshal_rest_le :
    (n : ℕ) (ss : List Bytes) → AllShort n ss → length (marshal_rest ss) ≤ length ss * (6 * n + 3)
unfolding marshal_rest
length-marshal_rest_le n [] h = omega arith
length-marshal_rest_le n (s ∷ ss) (h, hs) =
    let rest = length-marshal_rest_le n ss hs in
    let e = length-append (marshal s) (marshal_rest ss) in
    let one = length-marshal_le s in
    let split : suc (length ss) * (6 * n + 3) ≡ length ss * (6 * n + 3) + (6 * n + 3) =
      suc-mul _ _ in
    omega arith

pub length-marshal_strings_le :
    (n : ℕ) (ss : List Bytes)
    → AllShort n ss
    → length (marshal_strings ss) ≤ length ss * (6 * n + 3) + 2
unfolding marshal_strings
length-marshal_strings_le n [] h = omega arith
length-marshal_strings_le n (s ∷ ss) (h, hs) =
    let rest = length-marshal_rest_le n ss hs in
    let split : suc (length ss) * (6 * n + 3) ≡ length ss * (6 * n + 3) + (6 * n + 3) =
      suc-mul _ _ in
    omega (
      arith,
      length-append (marshal s ++ marshal_rest ss) (b']' ∷ []),
      length-append (marshal s) (marshal_rest ss),
      length-marshal_le s,
    )

escape_ascii-pos : (c : ℕ) → 1 ≤ length (escape_ascii c)
unfolding escape_ascii unicode_escape
escape_ascii-pos c = le_if (c == b'"' || c == b'\\') _ _ (omega arith) (
    le_if (c == 8) _ _ (omega arith) (
      le_if (c == 12) _ _ (omega arith) (
        le_if (c == 10) _ _ (omega arith) (
          le_if (c == 13) _ _ (omega arith) (
            le_if (c == 9) _ _ (omega arith) (
              le_if (ltb c 0x20 || c == b'<' || c == b'>' || c == b'&') _ _ (omega arith)
                (omega arith)))))))
  where
    le_if : (b : Bool) (x y : Bytes) → 1 ≤ length x → 1 ≤ length y → 1 ≤ length (if b then x else y)
    le_if true x y h k = h
    le_if false x y h k = k

separator_escape-long :
    (c : ℕ) (s : Bytes) → is_line_separator c s ≡ true → 3 ≤ length (separator_escape s)
unfolding is_line_separator separator_escape
separator_escape-long c [] e = absurd (ground (arith, e))
separator_escape-long c (d ∷ []) e = absurd (ground (arith, e))
separator_escape-long c (d ∷ e ∷ s) h = omega arith

escape_rune-long :
    (c : ℕ) (s : Bytes) → 1 + (escape_rune c s).skipped ≤ length (escape_rune c s).out
unfolding escape_rune
escape_rune-long c s = elim (Bool-cases (ltb c 0x80)) [
  | inl small ↦ rw small (omega (arith, escape_ascii-pos c))
  | inr large ↦ elim (Bool-cases (rune_size c s == 0)) [
    | inl bad ↦ rw (large, bad) (omega arith)
    | inr good ↦ elim (Bool-cases (is_line_separator c s)) [
      | inl separator ↦
          rw (large, good, separator) (omega (arith, separator_escape-long c s separator))
      | inr other ↦ rw (large, good, other) (omega arith)
    ]
  ]
]

escape_from-long :
    (copied skipped : ℕ) (s : Bytes) → length s ≤ length (escape_from copied skipped s) + skipped
unfolding escape_from
escape_from-long copied skipped [] = omega arith
escape_from-long (suc n) skipped (c ∷ s) = omega (arith, escape_from-long n skipped s)
escape_from-long zero (suc n) (c ∷ s) = omega (arith, escape_from-long zero n s)
escape_from-long zero zero (c ∷ s) =
    let r = escape_rune c s in
    omega (
      arith,
      length-append r.out (escape_from r.copied r.skipped s),
      escape_rune-long c s,
      escape_from-long r.copied r.skipped s,
    )

pub le-length-marshal : (s : Bytes) → length s + 2 ≤ length (marshal s)
unfolding marshal
le-length-marshal s =
    omega (arith, length-append (escape_from 0 0 s) (b'"' ∷ []), escape_from-long 0 0 s)
