-- ===== src/Sequence/Elements.antt =====
-- The elements that a plan stands for, each with its leading comma, and the plans that `newPlan`
-- makes of validated parameters.
use fizzbuzz.Prelude.{
  ℕ, zero, suc, ◌+◌, ◌-◌, ◌%◌, ◌≤◌, ◌<◌, ◌≡◌, ◌↔◌, refl, sym, ap, ◌∙◌, [], ◌∷◌, ◌++◌, append_assoc,
  append-nil, arith, Bytes, ◌==◌, Bool-cases, inl, inr, if◌then◌else◌, length, length-append, take,
  drop, two_63, take-length-append, sum_range, sum_range-suc, sum_range-zero,
}
use fizzbuzz.GoLib.Decimal.{format}
use fizzbuzz.GoLib.Json.{marshal, marshal_rest, marshal_strings}
use fizzbuzz.GoLib.Json.Numbers.{marshal-format}
use fizzbuzz.Sequence.Params.{Params}
use fizzbuzz.Sequence.Element.{append_elem-marshal, join}
use fizzbuzz.Sequence.Divisor.Laws.{mod-lcm_capped_iff}
use fizzbuzz.Sequence.Size.{Plan, new_plan}
use fizzbuzz.Sequence.Reference.{say, strings, document}

-- `,"129"`
unfoldable pub number : ℕ → Bytes
number i = b',' ∷ b'"' ∷ format i ++ b'"' ∷ []

unfoldable pub element : Plan → ℕ → Bytes
element pl i =
    if i % pl.a == 0
    then if i % pl.b == 0 then pl.e12 else pl.e1
    else if i % pl.b == 0
    then pl.e2
    else number i

-- The elements i, i + 1, …, i + n - 1, one behind the other.
unfoldable pub elements : Plan → ℕ → ℕ → Bytes
elements pl i zero = []
elements pl i (suc n) = element pl i ++ elements pl (suc i) n

pub elements-add :
    (pl : Plan) (i m n : ℕ) → elements pl i (m + n) ≡ elements pl i m ++ elements pl (i + m) n
unfolding elements
elements-add pl i zero n =
    let e : 0 + n ≡ n = omega arith in let e' : i + 0 ≡ i = omega arith in rw (e, e')
elements-add pl i (suc m) n =
    let e : suc m + n ≡ suc (m + n) = omega arith in
    let e' : i + suc m ≡ suc i + m = omega arith in
    rw (e, e', elements-add pl (suc i) m n, append_assoc)

module _ (pl : Plan) where
  pub elements-split :
      (m n : ℕ) → m ≤ n → elements pl 1 n ≡ elements pl 1 m ++ elements pl (1 + m) (n - m)
  elements-split m n h =
      let e : m + (n - m) ≡ n = omega arith in
      ap (elements pl 1) (sym e) ∙ elements-add pl 1 m (n - m)

  pub elements-shorter : (m n : ℕ) → m ≤ n → length (elements pl 1 m) ≤ length (elements pl 1 n)
  elements-shorter m n h = omega (
    arith,
    ap length (elements-split m n h),
    length-append (elements pl 1 m) (elements pl (1 + m) (n - m)),
  )

pub length-elements :
    (pl : Plan) (i n : ℕ) → length (elements pl i n) ≡ sum_range (λ j. length (element pl j)) i n
unfolding elements
length-elements pl i zero = rw (sum_range-zero)
length-elements pl i (suc n) = rw (sum_range-suc, length-append, length-elements pl (suc i) n)

abbrev pub HasComma : Bytes → Type 0
HasComma e = (t : Bytes) × (e ≡ b',' ∷ t)

-- A plan whose numbers are positive `int`s, with the test for both divisors by `l`.
pub record IsPlan (pl : Plan) : Type 0 where
  pub a_pos : 0 < pl.a
  pub b_pos : 0 < pl.b
  pub a_int : pl.a < two_63
  pub b_int : pl.b < two_63
  pub n_int : pl.n < two_63
  pub e1_comma : HasComma pl.e1
  pub e2_comma : HasComma pl.e2
  pub e12_comma : HasComma pl.e12
  pub both : (i : ℕ) → 0 < i → i ≤ pl.n → (i % pl.l ≡ 0) ↔ ((i % pl.a ≡ 0) × (i % pl.b ≡ 0))

-- What `Validate` says of the numbers.
pub record IsPositive (p : Params) : Type 0 where
  pub int1_pos : 0 < p.int1
  pub int1_int : p.int1 < two_63
  pub int2_pos : 0 < p.int2
  pub int2_int : p.int2 < two_63
  pub limit_pos : 0 < p.limit
  pub limit_int : p.limit < two_63

drop-length-append : (xs ys : Bytes) → drop (length xs) (xs ++ ys) ≡ ys
drop-length-append [] ys = refl
drop-length-append (x ∷ xs) ys = drop-length-append xs ys

module _ (x y z : Bytes) where
  slice_first : take (length x) ((x ++ y) ++ z) ≡ x
  slice_first = rw append_assoc (take-length-append x (y ++ z))

  slice_second : take (length (x ++ y) - length x) (drop (length x) ((x ++ y) ++ z)) ≡ y
  slice_second =
      let e : length x + length y - length x ≡ length y = omega arith in
      rw (append_assoc, drop-length-append x (y ++ z), length-append, e) (take-length-append y z)

-- The slices of the shared buffer are the encoded replacements.
pub new_plan_slices :
    (p : Params)
    → ((new_plan p).e1 ≡ b',' ∷ marshal p.str1)
      × ((new_plan p).e2 ≡ b',' ∷ marshal p.str2)
      × ((new_plan p).e12 ≡ b',' ∷ marshal (p.str1 ++ p.str2))
unfolding new_plan join
new_plan_slices p =
    let x = b',' ∷ marshal p.str1 in
    let y = b',' ∷ marshal p.str2 in
    let z = b',' ∷ marshal (p.str1 ++ p.str2) in
    rw (append_elem-marshal, append_elem-marshal, append_elem-marshal, append-nil, append-nil)
      (slice_first x y z, slice_second x y z, drop-length-append (x ++ y) z)

pub new_plan-IsPlan : {p : Params} → IsPositive p → IsPlan (new_plan p)
unfolding new_plan
new_plan-IsPlan {p} v = record {
  a_pos = v.int1_pos;
  b_pos = v.int2_pos;
  a_int = v.int1_int;
  b_int = v.int2_int;
  n_int = v.limit_int;
  e1_comma = (marshal p.str1, (new_plan_slices p).0);
  e2_comma = (marshal p.str2, (new_plan_slices p).1);
  e12_comma = (marshal (p.str1 ++ p.str2), (new_plan_slices p).2);
  both = λ i pos fits.
      mod-lcm_capped_iff p.int1 p.int2 v.int1_pos v.int2_pos p.limit i v.limit_int pos fits;
}

element_of_fields :
    (pl : Plan) (p : Params) (i : ℕ)
    → pl.a ≡ p.int1
    → pl.b ≡ p.int2
    → pl.e1 ≡ b',' ∷ marshal p.str1
    → pl.e2 ≡ b',' ∷ marshal p.str2
    → pl.e12 ≡ b',' ∷ marshal (p.str1 ++ p.str2)
    → element pl i ≡ b',' ∷ marshal (say p i)
unfolding element say number
element_of_fields pl p i ea eb e1 e2 e12 = ground (arith, marshal-format i)

-- Element i of the plan of any parameters is a comma and the JSON encoding of the i-th string.
pub element-say : (p : Params) (i : ℕ) → element (new_plan p) i ≡ b',' ∷ marshal (say p i)
element-say p i =
    let (e1, e2, e12) = new_plan_slices p in
    element_of_fields (new_plan p) p i (unfold new_plan in refl) (unfold new_plan in refl) e1 e2 e12

pub elements-strings :
    (p : Params) (i n : ℕ) → elements (new_plan p) i n ≡ marshal_rest (strings p i n)
unfolding elements strings marshal_rest
elements-strings p i zero = refl
elements-strings p i (suc n) = rw (element-say p i, elements-strings p (suc i) n)

elements-marshal_strings :
    (p : Params) (m n : ℕ)
    → m ≡ suc n
    → (elements (new_plan p) 1 m ≡ b',' ∷ (marshal (say p 1) ++ marshal_rest (strings p 2 n)))
      × (marshal_strings (strings p 1 m)
          ≡ b'[' ∷ (marshal (say p 1) ++ marshal_rest (strings p 2 n)) ++ b']' ∷ [])
unfolding strings marshal_rest marshal_strings
elements-marshal_strings p m n e = rw e (elements-strings p 1 (suc n), refl)

-- The document is the elements with `[` for the first comma, and `]`.
pub document-elements :
    (p : Params)
    → 0 < p.limit
    → (rest : Bytes) × (elements (new_plan p) 1 p.limit ≡ b',' ∷ rest)
      × (document p ≡ b'[' ∷ rest ++ b']' ∷ [])
unfolding document
document-elements p h =
    let (whole, doc) = elements-marshal_strings p p.limit (p.limit - 1) (omega arith) in
    (marshal (say p 1) ++ marshal_rest (strings p 2 (p.limit - 1)), whole, doc)

pub element_comma : (pl : Plan) → IsPlan pl → (i : ℕ) → HasComma (element pl i)
unfolding element number
element_comma pl v i = elim (Bool-cases (i % pl.a == 0)) [
  | inl one ↦ elim (Bool-cases (i % pl.b == 0)) [
    | inl two ↦ rw (one, two) v.e12_comma
    | inr two ↦ rw (one, two) v.e1_comma
  ]
  | inr one ↦ elim (Bool-cases (i % pl.b == 0)) [
    | inl two ↦ rw (one, two) v.e2_comma
    | inr two ↦ rw (one, two) (b'"' ∷ format i ++ b'"' ∷ [], refl)
  ]
]
