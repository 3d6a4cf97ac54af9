-- ===== src/GoLib/ParseInt.antt =====
-- `strconv.ParseInt(s, 10, 64)`, with the two errors it distinguishes.
use fizzbuzz.Prelude.{
  ℕ, zero, suc, ◌+◌, ◌-◌, ◌*◌, ◌/◌, ◌%◌, ◌<◌, ◌≡◌, refl, sym, ap, ◌∙◌, Bool, true, false, ◌&&◌,
  Bool-cases, inl, inr, [], ◌∷◌, ◌++◌, append_assoc, append-nil, Bytes, arith, ltb, leb, ltb→ge,
  if◌then◌else◌, ◌==◌, two_63, two_64, is_neg,
}
use fizzbuzz.GoLib.Decimal.{format, format_int, format_small, format_large}

-- strconv.ErrSyntax and strconv.ErrRange
pub data ParsedInt : Type 0 where
  parsed : ℕ → ParsedInt
  bad_syntax : ParsedInt
  out_of_range : ParsedInt

abbrev pub is_digit : ℕ → Bool
is_digit c = leb b'0' c && leb c b'9'

-- `strconv.ParseUint` behind the digits with the value `n`; it stops at the first error.
unfoldable pub parse_digits : ℕ → Bytes → ParsedInt
parse_digits n [] = parsed n
parse_digits n (c ∷ s) =
    let n' = n * 10 + (c - b'0') in
    let rest = parse_digits n' s in
    if is_digit c then if leb two_64 n' then out_of_range else rest else bad_syntax

unfoldable pub parse_uint : Bytes → ParsedInt
unfolding parse_digits
parse_uint [] = bad_syntax
parse_uint (c ∷ s) = parse_digits 0 (c ∷ s)

abbrev pub positive : ParsedInt → ParsedInt
positive (parsed n) = if leb two_63 n then out_of_range else parsed n
positive bad_syntax = bad_syntax
positive out_of_range = out_of_range

abbrev pub negative : ParsedInt → ParsedInt
negative (parsed n) = if ltb two_63 n then out_of_range else parsed ((two_64 - n) % two_64)
negative bad_syntax = bad_syntax
negative out_of_range = out_of_range

unfoldable pub parse_int : Bytes → ParsedInt
unfolding parse_uint
parse_int [] = bad_syntax
parse_int (c ∷ s) =
    if c == b'-'
    then negative (parse_uint s)
    else if c == b'+'
    then positive (parse_uint s)
    else positive (parse_uint (c ∷ s))

-- What a property of digits says of a number's text.
pub format_digits :
    {P : Bytes → Type 0}
    → ((d : ℕ) → d < 10 → P ((b'0' + d) ∷ []))
    → ((s : Bytes) (d : ℕ) → d < 10 → P s → P (s ++ (b'0' + d) ∷ []))
    → (k v : ℕ) → v < k
    → P (format v)
format_digits one more zero v lt = absurd (omega arith)
format_digits {P = P} one more (suc k) v lt = elim (Bool-cases (ltb v 10)) [
  | inl small ↦ rw (format_small v (ground arith)) (one v (ground arith))
  | inr large ↦ rw (format_large v (ltb→ge v 10 large)) (
      more (format (v / 10)) (v % 10) (omega arith)
        (format_digits {P = P} one more k (v / 10) (omega (arith, ltb→ge v 10 large))))
]

parse_digits_one :
    (n d : ℕ) (s : Bytes)
    → d < 10
    → n * 10 + d < two_64
    → parse_digits n ((b'0' + d) ∷ s) ≡ parse_digits (n * 10 + d) s
unfolding parse_digits
parse_digits_one n d s small fits =
    let e : b'0' + d - b'0' ≡ d = omega arith in
    let digit : is_digit (b'0' + d) ≡ true = ground arith in rw (e, digit) (ground arith)

parse_digits-format :
    (k v : ℕ) (s : Bytes) → v < k → v < two_64 → parse_digits 0 (format v ++ s) ≡ parse_digits v s
parse_digits-format zero v s lt fits = absurd (omega arith)
parse_digits-format (suc k) v s lt fits =
    let whole : 0 * 10 + v ≡ v = omega arith in
    elim (Bool-cases (ltb v 10)) [
      | inl small ↦
          rw (format_small v (ground arith))
            (parse_digits_one 0 v s (ground arith) (omega arith) ∙ ap (λ n. parse_digits n s) whole)
      | inr large ↦
          let e : v / 10 * 10 + v % 10 ≡ v = omega arith in
          rw (format_large v (ltb→ge v 10 large)) (
            ap (parse_digits 0) (append_assoc (format (v / 10)) ((b'0' + v % 10) ∷ []) s)
            ∙ parse_digits-format k (v / 10) ((b'0' + v % 10) ∷ s)
                (omega (arith, ltb→ge v 10 large)) (omega arith)
            ∙ parse_digits_one (v / 10) (v % 10) s (omega arith) (omega arith)
            ∙ ap (λ n. parse_digits n s) e)
    ]

abbrev starts_digit : Bytes → Bool
starts_digit [] = false
starts_digit (c ∷ s) = is_digit c

format-starts_digit : (v : ℕ) → starts_digit (format v) ≡ true
format-starts_digit v =
    format_digits {P = λ s. starts_digit s ≡ true} (λ d h. ground arith) more (suc v) v
      (omega arith)
  where
    more :
        (s : Bytes) (d : ℕ)
        → d < 10
        → starts_digit s ≡ true
        → starts_digit (s ++ (b'0' + d) ∷ []) ≡ true
    more [] d h e = ground arith
    more (c ∷ s) d h e = e

parse_uint-digits : (s : Bytes) → starts_digit s ≡ true → parse_uint s ≡ parse_digits 0 s
unfolding parse_uint
parse_uint-digits [] e = absurd (ground (arith, e))
parse_uint-digits (c ∷ s) e = refl

parse_int-digits : (s : Bytes) → starts_digit s ≡ true → parse_int s ≡ positive (parse_uint s)
unfolding parse_int
parse_int-digits [] e = absurd (ground (arith, e))
parse_int-digits (c ∷ s) e = ground (arith, e)

parse_uint-format : (v : ℕ) → v < two_64 → parse_uint (format v) ≡ parsed v
unfolding parse_digits
parse_uint-format v fits =
    parse_uint-digits (format v) (format-starts_digit v)
    ∙ ap (parse_digits 0) (sym (append-nil (format v)))
    ∙ parse_digits-format (suc v) v [] (omega arith) fits

-- Every 64-bit number is read back.
pub parse_int-format_int : (w : ℕ) → w < two_64 → parse_int (format_int w) ≡ parsed w
unfolding format_int parse_int
parse_int-format_int w fits = elim (Bool-cases (is_neg w)) [
  | inl minus ↦
      let e : (two_64 - (two_64 - w)) % two_64 ≡ w = omega arith in
      let within : ltb two_63 (two_64 - w) ≡ false = ground arith in
      rw (minus, parse_uint-format (two_64 - w) (ground arith), within, e) refl
  | inr plus ↦ rw plus (
      parse_int-digits (format w) (format-starts_digit w)
      ∙ ap positive (parse_uint-format w fits)
      ∙ rw plus refl)
]
