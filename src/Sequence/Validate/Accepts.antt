-- ===== src/Sequence/Validate/Accepts.antt =====
-- `Validate`: what it accepts.
use fizzbuzz.Prelude.{
  ℕ, ◌≤◌, ◌<◌, ◌≡◌, ◌↔◌, refl, sym, ap, ◌∙◌, Bool, true, false, Option, none, some, Bytes, codes,
  arith, not, ◌||◌, if◌then◌else◌, length, ◌==◌, lt_int, lt_int-eq, two_63, two_64, ltb→ge, ge→ltb,
  ==→ne, ne→==,
}
use fizzbuzz.GoLib.Utf8.{valid_string}
use fizzbuzz.Sequence.Params.{Params, Limits, FieldError}
use fizzbuzz.Sequence.Reference.{document}
use fizzbuzz.Sequence.Elements.{IsPositive}
use fizzbuzz.Sequence.Size.{json_size}
use fizzbuzz.Sequence.Size.Exact.{json_size-document}
use fizzbuzz.Sequence.Validate.{validate_str, validate, or_else}

-- A string that the limits allow.
pub record IsText (s : Bytes) (max_bytes : ℕ) : Type 0 where
  pub some_bytes : 0 < length s
  pub short : length s ≤ max_bytes
  pub valid : valid_string s ≡ true

-- Parameters in the machine's ranges: 64-bit patterns, and strings that fit in memory.
pub record InRange (p : Params) : Type 0 where
  pub int1_word : p.int1 < two_64
  pub int2_word : p.int2 < two_64
  pub limit_word : p.limit < two_64
  pub str1_fits : length p.str1 < two_63
  pub str2_fits : length p.str2 < two_63

-- Limits that are not negative.
pub record IsLimits (lim : Limits) : Type 0 where
  pub max_limit_int : lim.max_limit < two_63
  pub max_str_int : lim.max_str_bytes < two_63
  pub max_response_int : lim.max_response_bytes < two_63

-- What the documentation asks of the parameters.
pub record Accepted (p : Params) (lim : Limits) : Type 0 where
  pub positive : IsPositive p
  pub limit : p.limit ≤ lim.max_limit
  pub str1 : IsText p.str1 lim.max_str_bytes
  pub str2 : IsText p.str2 lim.max_str_bytes
  pub size : length (document p) ≤ lim.max_response_bytes

-- A check that fails returns its error.
check_iff :
    (c : Bool) (e : FieldError) (r : Option FieldError)
    → ((if c then some e else r) ≡ none) ↔ ((c ≡ false) × (r ≡ none))
check_iff true e r = (λ h. absurd (ground (arith, h)), λ h. absurd (ground (arith, h.0)))
check_iff false e r = (λ h. (refl, h), λ h. h.1)

or_else_iff : (x y : Option FieldError) → (or_else x y ≡ none) ↔ ((x ≡ none) × (y ≡ none))
or_else_iff none y = (λ h. (refl, h), λ h. h.1)
or_else_iff (some e) y = (λ h. absurd (ground (arith, h)), λ h. absurd (ground (arith, h.0)))

lt_int-false_iff : (a b : ℕ) → a < two_63 → b < two_63 → (lt_int a b ≡ false) ↔ (b ≤ a)
lt_int-false_iff a b h k =
    (λ e. ltb→ge a b (sym (lt_int-eq a b h k) ∙ e), λ le. lt_int-eq a b h k ∙ ge→ltb a b le)

-- Not below 1, with the sign: a positive `int`.
at_least_one_iff : (a : ℕ) → a < two_64 → (lt_int a 1 ≡ false) ↔ ((0 < a) × (a < two_63))
at_least_one_iff a h = (λ e. ground (arith, e), λ p. ground (arith, p.0, p.1))

-- For a string and a maximum below 2 ^ 63: `validateStr` returns nil if and only if the string is not
-- empty, has at most the maximum of bytes and is valid UTF-8.
pub validate_str_iff :
    (name s : Bytes) (max_bytes : ℕ)
    → length s < two_63
    → max_bytes < two_63
    → (validate_str name s max_bytes ≡ none) ↔ IsText s max_bytes
unfolding validate_str
validate_str_iff name s max_bytes h k =
    let le = lt_int-false_iff max_bytes (length s) k h in
    let (c1, d1) = check_iff (length s == 0) _ _ in
    let (c2, d2) = check_iff (lt_int max_bytes (length s)) _ _ in
    let (c3, d3) = check_iff (not (valid_string s)) _ _ in
    (
      λ e.
          let (some_bytes, r1) = c1 e in
          let (short, r2) = c2 r1 in
          record {
            some_bytes = omega (arith, ==→ne _ _ some_bytes);
            short = le.0 short;
            valid = not_false _ (c3 r2).0;
          },
      λ t.
          d1
            (ne→== _ _ (omega (arith, t.some_bytes)), d2 (le.1 t.short, d3 (ap not t.valid, refl))),
    )
  where
    not_false : (x : Bool) → not x ≡ false → x ≡ true
    not_false true h = refl
    not_false false h = absurd (ground (arith, h))

or_false_iff : (x y : Bool) → ((x || y) ≡ false) ↔ ((x ≡ false) × (y ≡ false))
or_false_iff true y = (λ h. absurd (ground (arith, h)), λ h. absurd (ground (arith, h.0)))
or_false_iff false y = (λ h. (refl, h), λ h. h.1)

-- The test of the size, for parameters that passed the others.
pub size_iff :
    (p : Params) (max_bytes : ℕ)
    → IsPositive p
    → length (document p) < two_63
    → max_bytes < two_63
    → (lt_int max_bytes (json_size p) ≡ false) ↔ (length (document p) ≤ max_bytes)
size_iff p max_bytes v small h =
    let e = json_size-document p v small in
    let (f, g) = lt_int-false_iff max_bytes (json_size p) h (omega arith) in
    (λ t. omega (arith, f t), λ t. g (omega arith))

-- What the checks before the last one ask, and the last one.
pub validate-checked :
    (p : Params) (lim : Limits)
    → InRange p
    → IsLimits lim
    → validate p lim ≡ none
    → IsPositive p
      × (p.limit ≤ lim.max_limit)
      × IsText p.str1 lim.max_str_bytes
      × IsText p.str2 lim.max_str_bytes
      × (lt_int lim.max_response_bytes (json_size p) ≡ false)
unfolding validate
validate-checked p lim r t e =
    let (e1, r1) = (check_iff (lt_int p.int1 1) _ _).0 e in
    let (e2, r2) = (check_iff (lt_int p.int2 1) _ _).0 r1 in
    let (e3, r3) = (check_iff (lt_int p.limit 1 || lt_int lim.max_limit p.limit) _ _).0 r2 in
    let (e4, r4) = (or_else_iff (validate_str (codes "str1") p.str1 lim.max_str_bytes) _).0 r3 in
    let (e5, r5) = (or_else_iff (validate_str (codes "str2") p.str2 lim.max_str_bytes) _).0 r4 in
    let (e6, r6) = (check_iff (lt_int lim.max_response_bytes (json_size p)) _ _).0 r5 in
    let (low, high) = (or_false_iff (lt_int p.limit 1) (lt_int lim.max_limit p.limit)).0 e3 in
    let one = (at_least_one_iff p.int1 r.int1_word).0 e1 in
    let two = (at_least_one_iff p.int2 r.int2_word).0 e2 in
    let limit = (at_least_one_iff p.limit r.limit_word).0 low in
    (
      record {
        int1_pos = one.0;
        int1_int = one.1;
        int2_pos = two.0;
        int2_int = two.1;
        limit_pos = limit.0;
        limit_int = limit.1;
      },
      (lt_int-false_iff lim.max_limit p.limit t.max_limit_int limit.1).0 high,
      (validate_str_iff (codes "str1") p.str1 lim.max_str_bytes r.str1_fits t.max_str_int).0 e4,
      (validate_str_iff (codes "str2") p.str2 lim.max_str_bytes r.str2_fits t.max_str_int).0 e5,
      e6,
    )

-- For parameters in the machine's ranges, limits that are not negative, and a document of fewer
-- than 2 ^ 63 bytes if the numbers are positive: `Validate` returns nil if and only if int1, int2
-- and limit are positive `int`s, the limit is at most MaxLimit, both strings are valid UTF-8 of
-- 1 to MaxStrBytes bytes, and the whole document has at most MaxResponseBytes bytes.
pub validate_iff :
    (p : Params) (lim : Limits)
    → InRange p
    → IsLimits lim
    → (IsPositive p → length (document p) < two_63)
    → (validate p lim ≡ none) ↔ Accepted p lim
unfolding validate
validate_iff p lim r t small =
    let (c1, d1) = check_iff (lt_int p.int1 1) _ _ in
    let (c2, d2) = check_iff (lt_int p.int2 1) _ _ in
    let (c3, d3) = check_iff (lt_int p.limit 1 || lt_int lim.max_limit p.limit) _ _ in
    let (c4, d4) = or_else_iff (validate_str (codes "str1") p.str1 lim.max_str_bytes) _ in
    let (c5, d5) = or_else_iff (validate_str (codes "str2") p.str2 lim.max_str_bytes) _ in
    let (c6, d6) = check_iff (lt_int lim.max_response_bytes (json_size p)) _ _ in
    let n1 = at_least_one_iff p.int1 r.int1_word in
    let n2 = at_least_one_iff p.int2 r.int2_word in
    let n3 = at_least_one_iff p.limit r.limit_word in
    let (f, g) = or_false_iff (lt_int p.limit 1) (lt_int lim.max_limit p.limit) in
    let s1 = validate_str_iff (codes "str1") p.str1 lim.max_str_bytes r.str1_fits t.max_str_int in
    let s2 = validate_str_iff (codes "str2") p.str2 lim.max_str_bytes r.str2_fits t.max_str_int in
    (
      λ e.
          let (v, limit, str1, str2, size) = validate-checked p lim r t e in
          record {
            positive = v;
            limit = limit;
            str1 = str1;
            str2 = str2;
            size = (size_iff p lim.max_response_bytes v (small v) t.max_response_int).0 size;
          },
      λ a.
          let v = a.positive in
          let high =
            (lt_int-false_iff lim.max_limit p.limit t.max_limit_int v.limit_int).1 a.limit in
          let size = (size_iff p lim.max_response_bytes v (small v) t.max_response_int).1 a.size in
          d1 (
            n1.1 (v.int1_pos, v.int1_int),
            d2 (
              n2.1 (v.int2_pos, v.int2_int),
              d3 (
                g (n3.1 (v.limit_pos, v.limit_int), high),
                d4 (s1.1 a.str1, d5 (s2.1 a.str2, d6 (size, refl))),
              ),
            ),
          ),
    )
