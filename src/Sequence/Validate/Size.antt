-- ===== src/Sequence/Validate/Size.antt =====
-- The size of the response to accepted parameters.
use native.Mathlib.Nat.{mul-le-mul}
use fizzbuzz.Prelude.{◌+◌, ◌*◌, ◌≤◌, ◌<◌, ◌≡◌, none, arith, length, two_63}
use fizzbuzz.Sequence.Params.{Params, Limits}
use fizzbuzz.Sequence.Reference.{document}
use fizzbuzz.Sequence.Size.{json_size}
use fizzbuzz.Sequence.Size.Exact.{json_size-document}
use fizzbuzz.Sequence.Size.Limit.{longest, length-document_le}
use fizzbuzz.Sequence.Validate.{validate}
use fizzbuzz.Sequence.Validate.Accepts.{InRange, IsLimits, Accepted, validate-checked, size_iff}

-- Limits that leave every document within 63 bits.
abbrev pub FitsWord : Limits → Type 0
FitsWord lim = lim.max_limit * (12 * lim.max_str_bytes + 123) + 2 < two_63

-- For limits that are not negative and leave every document within 63 bits: parameters that `Validate`
-- accepts have a document of at most MaxResponseBytes bytes, and `JSONSize` is its length.
pub validate-size :
    (p : Params) (lim : Limits)
    → InRange p
    → IsLimits lim
    → FitsWord lim
    → validate p lim ≡ none
    → Accepted p lim × (json_size p ≡ length (document p))
validate-size p lim r t word e =
    let (v, limit, str1, str2, size) = validate-checked p lim r t e in
    let longer : 6 * longest p + 3 ≤ 12 * lim.max_str_bytes + 123 =
      omega (arith, str1.short, str2.short) in
    let product = mul-le-mul limit longer in
    let small : length (document p) < two_63 =
      omega (arith, length-document_le p (omega (arith, v.limit_int)), product) in
    (
      record {
        positive = v;
        limit = limit;
        str1 = str1;
        str2 = str2;
        size = (size_iff p lim.max_response_bytes v small t.max_response_int).0 size;
      },
      json_size-document p v small,
    )
