-- ===== src/Sequence/Validate/Suggestion.antt =====
-- `largestLimit`: the limit that the error for a large response suggests.
use fizzbuzz.Prelude.{
  ℕ, zero, suc, ◌+◌, ◌-◌, ◌≤◌, ◌<◌, ◌≡◌, ◌↔◌, inl, inr, refl, sym, ap, ◌∙◌, Bool, false, none, [],
  ◌∷◌, arith, length, length-append, ltb, Bool-cases, ltb→lt, ltb→ge, two_63, lt_int, ◌+w◌,
}
use fizzbuzz.GoLib.Json.{marshal_rest}
use fizzbuzz.GoLib.Search.{search, search-Found}
use fizzbuzz.Sequence.Params.{Params, Limits}
use fizzbuzz.Sequence.Reference.{say, strings, document}
use fizzbuzz.Sequence.Elements.{
  IsPositive, elements, elements-strings, elements-shorter, document-elements,
}
use fizzbuzz.Sequence.Size.{new_plan, json_size}
use fizzbuzz.Sequence.Validate.{validate, with_limit, largest_limit}
use fizzbuzz.Sequence.Validate.Accepts.{IsText, InRange, IsLimits, size_iff, validate_iff}

length-document :
    (p : Params) → 0 < p.limit → length (document p) ≡ length (elements (new_plan p) 1 p.limit) + 1
length-document p pos =
    let (rest, whole, doc) = document-elements p pos in
    omega (arith, ap length whole, ap length doc, length-append rest (b']' ∷ []))

-- The strings do not depend on the limit.
strings-with_limit : (p : Params) (m i n : ℕ) → strings (with_limit p m) i n ≡ strings p i n
unfolding strings say
strings-with_limit p m i zero = refl
strings-with_limit p m i (suc n) = rw (strings-with_limit p m (suc i) n)

length-document_limit :
    (p : Params) (m : ℕ)
    → 0 < m
    → length (document (with_limit p m)) ≡ length (elements (new_plan p) 1 m) + 1
length-document_limit p m pos =
    length-document (with_limit p m) pos
    ∙ ap (λ (t : _). length t + 1)
        (elements-strings (with_limit p m) 1 m
          ∙ ap marshal_rest (strings-with_limit p m 1 m)
          ∙ sym (elements-strings p 1 m))

document-shorter :
    (p : Params) (m n : ℕ)
    → 0 < m
    → m ≤ n
    → length (document (with_limit p m)) ≤ length (document (with_limit p n))
document-shorter p m n pos h = omega (
  arith,
  length-document_limit p m pos,
  length-document_limit p n (omega arith),
  elements-shorter (new_plan p) m n h,
)

module _ (p : Params) (max_bytes : ℕ) (v : IsPositive p) (small : length (document p) < two_63)
    (h : max_bytes < two_63) where
  abbrev too_large : ℕ → Bool
  too_large i = lt_int max_bytes (json_size (with_limit p (i +w 1)))

  limited-IsPositive : (m : ℕ) → 0 < m → m ≤ p.limit → IsPositive (with_limit p m)
  limited-IsPositive m pos le =
      let top = v.limit_int in
      record {
        int1_pos = v.int1_pos;
        int1_int = v.int1_int;
        int2_pos = v.int2_pos;
        int2_int = v.int2_int;
        limit_pos = pos;
        limit_int = omega arith;
      }

  limited_small : (m : ℕ) → 0 < m → m ≤ p.limit → length (document (with_limit p m)) < two_63
  limited_small m pos le = omega (arith, document-shorter p m p.limit pos le)

  too_large_iff :
      (m : ℕ)
      → 0 < m
      → m ≤ p.limit
      → (too_large (m - 1) ≡ false) ↔ (length (document (with_limit p m)) ≤ max_bytes)
  too_large_iff m pos le =
      let top = v.limit_int in
      let e : (m - 1) +w 1 ≡ m = omega arith in
      rw e (
        size_iff (with_limit p m) max_bytes (limited-IsPositive m pos le) (limited_small m pos le)
          h)

  -- A limit fits if and only if it is at most the one found.
  largest_limit_iff :
      (m : ℕ)
      → 0 < m
      → m ≤ p.limit
      → (length (document (with_limit p m)) ≤ max_bytes) ↔ (m ≤ largest_limit p max_bytes)
  unfolding largest_limit
  largest_limit_iff m pos le =
      let r = search p.limit too_large in
      let f = search-Found p.limit too_large in
      let within = f.within in
      (
        λ fits. elim (Bool-cases (ltb r m)) [
          | inr enough ↦ ltb→ge _ _ enough
          | inl less ↦
              let lt = ltb→lt _ _ less in
              let e : suc r - 1 ≡ r = omega arith in
              let holds = f.here (omega arith) in
              let fails =
                (too_large_iff (suc r) (omega arith) (omega arith)).1
                  (omega (arith, document-shorter p (suc r) m (omega arith) lt)) in
              absurd (ground (arith, sym holds ∙ ap too_large (sym e) ∙ fails))
        ],
        λ found.
            let fits = (too_large_iff r (omega arith) within).0 (f.before (omega arith)) in
            omega (arith, document-shorter p m r pos found),
      )

-- For parameters whose numbers and strings `Validate` accepts, limits that are not negative, and a
-- document of fewer than 2 ^ 63 bytes: `Validate` accepts the same parameters with another limit,
-- from 1 to the given one, if and only if that limit is at most the one that `largestLimit` finds.
pub largest_limit-validate :
    (p : Params) (lim : Limits) (m : ℕ)
    → InRange p
    → IsLimits lim
    → IsPositive p
    → p.limit ≤ lim.max_limit
    → IsText p.str1 lim.max_str_bytes
    → IsText p.str2 lim.max_str_bytes
    → length (document p) < two_63
    → 0 < m
    → m ≤ p.limit
    → (validate (with_limit p m) lim ≡ none) ↔ (m ≤ largest_limit p lim.max_response_bytes)
largest_limit-validate p lim m r t v fits s1 s2 small pos le =
    let q = with_limit p m in
    let top = v.limit_int in
    let range : InRange q = record {
      int1_word = r.int1_word;
      int2_word = r.int2_word;
      limit_word = omega arith;
      str1_fits = r.str1_fits;
      str2_fits = r.str2_fits;
    } in
    let positive =
      limited-IsPositive p lim.max_response_bytes v small t.max_response_int m pos le in
    let short = limited_small p lim.max_response_bytes v small t.max_response_int m pos le in
    let (accepted, accepts) = validate_iff q lim range t (λ x. short) in
    let (found, fitting) =
      largest_limit_iff p lim.max_response_bytes v small t.max_response_int m pos le in
    (
      λ e. found (accepted e).size,
      λ x. accepts (record {
        positive = positive;
        limit = omega arith;
        str1 = s1;
        str2 = s2;
        size = fitting x;
      }),
    )
