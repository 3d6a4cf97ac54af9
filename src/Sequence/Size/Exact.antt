-- ===== src/Sequence/Size/Exact.antt =====
-- `rangeBytes` and `JSONSize` against the elements and the document.
use fizzbuzz.Prelude.{
  ℕ, zero, suc, ◌+◌, ◌-◌, ◌%◌, ◌≤◌, ◌<◌, max, ◌^◌, ◌≡◌, refl, ap, ◌∙◌, sym, arith, ltb, length,
  length-append, [], ◌∷◌, Bool-cases, inl, inr, ltb→lt, ltb→ge, lt→ltb, two_63, two_64, lt_int-eq,
  sum_range, sum_range-zero,
}
use fizzbuzz.Sequence.Params.{Params}
use fizzbuzz.Sequence.Reference.{document}
use fizzbuzz.Sequence.Elements.{
  IsPlan, IsPositive, element, elements, length-elements, new_plan-IsPlan, document-elements,
}
use fizzbuzz.Sequence.Size.{Plan, new_plan, range_bytes, json_size}
use fizzbuzz.Sequence.Size.Count.{plain_size, replacement_bytes-sum}
use fizzbuzz.Sequence.Size.Bands.{band_loop-sum}

module _ (pl : Plan) (v : IsPlan pl) where
  range_bytes-sum :
      (lo hi : ℕ)
      → 0 < lo
      → hi ≤ pl.n
      → range_bytes pl lo hi ≡ sum_range (λ j. length (element pl j)) lo (hi + 1 - lo) % two_64
  unfolding range_bytes
  range_bytes-sum zero hi pos fits = elim pos [ ]
  range_bytes-sum (suc k) hi pos fits = elim (Bool-cases (ltb hi (suc k))) [
    | inl empty ↦
        let e : hi + 1 - suc k ≡ 0 = omega (arith, ltb→lt _ _ empty) in
        rw (empty, e, sum_range-zero)
    | inr some_elements ↦
        let n = hi + 1 - suc k in
        let e : k + n ≡ hi = omega (arith, ltb→ge _ _ some_elements) in
        let (r, start, sizes) = replacement_bytes-sum pl v k n hi e fits in
        let bands = band_loop-sum pl v (suc k) hi pos fits 19 0 1 r (omega arith) refl in
        let first : max (suc k) (10 ^ 0) ≡ suc k = omega arith in
        let same = ap (λ (x : ℕ). sum_range (plain_size pl) x (hi + 1 - x)) first in
        rw (some_elements, start) (bands ∙ ap (λ (t : ℕ). t % two_64) (omega (arith, sizes, same)))
  ]

  -- For a valid plan and 1 <= lo, hi <= n: `rangeBytes` is the number of bytes of the elements
  -- lo..hi, modulo 2 ^ 64.
  pub range_bytes-elements :
      (lo hi : ℕ)
      → 0 < lo
      → hi ≤ pl.n
      → range_bytes pl lo hi ≡ length (elements pl lo (hi + 1 - lo)) % two_64
  range_bytes-elements lo hi pos fits =
      range_bytes-sum lo hi pos fits ∙ ap (λ (t : ℕ). t % two_64) (sym (length-elements pl lo _))

-- For parameters with positive numbers and a document of fewer than 2 ^ 63 bytes: `JSONSize` is the
-- length of the document.
pub json_size-document :
    (p : Params) → IsPositive p → length (document p) < two_63 → json_size p ≡ length (document p)
unfolding json_size
json_size-document p v small =
    let (rest, whole, doc) = document-elements p v.limit_pos in
    let e : length (elements (new_plan p) 1 p.limit) ≡ suc (length rest) = ap length whole in
    let d : length (document p) ≡ suc (length rest + 1) =
      ap length doc ∙ ap suc (length-append rest (b']' ∷ [])) in
    let n : p.limit + 1 - 1 ≡ p.limit = omega arith in
    let positive = lt_int-eq 0 p.limit (omega arith) v.limit_int ∙ lt→ltb 0 p.limit v.limit_pos in
    rw
      (
        positive,
        range_bytes-elements (new_plan p) (new_plan-IsPlan v) 1 p.limit (omega arith)
            (unfold new_plan in omega arith),
        n,
        e,
        d,
      )
      (omega arith)
