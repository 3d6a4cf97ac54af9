-- ===== src/Sequence/Reference.antt =====
-- What the response must be: `json.Marshal` of the generalized FizzBuzz sequence as a []string.
use fizzbuzz.Prelude.{
  ℕ, zero, suc, ◌%◌, ◌≡◌, refl, List, [], ◌∷◌, Bytes, codes, ◌++◌, ◌==◌, if◌then◌else◌,
}
use fizzbuzz.GoLib.Decimal.{format}
use fizzbuzz.GoLib.Json.{marshal, marshal_strings}
use fizzbuzz.GoLib.Utf8.{rune_size}
use fizzbuzz.Sequence.Params.{Params}

-- The i-th string.
unfoldable pub say : Params → ℕ → Bytes
say p i =
    if i % p.int1 == 0
    then if i % p.int2 == 0 then p.str1 ++ p.str2 else p.str1
    else if i % p.int2 == 0
    then p.str2
    else format i

-- The strings i, i + 1, …, i + n - 1.
unfoldable pub strings : Params → ℕ → ℕ → List Bytes
unfolding say
strings p i zero = []
strings p i (suc n) = say p i ∷ strings p (suc i) n

unfoldable pub document : Params → Bytes
unfolding strings
document p = marshal_strings (strings p 1 p.limit)

document_runs :
    document (record { int1 = 2; int2 = 3; limit = 6; str1 = codes "a"; str2 = codes "<" })
    ≡ codes "[\"1\",\"a\",\"\\u003c\",\"a\",\"5\",\"a\\u003c\"]"
unfolding document marshal_strings marshal format rune_size
document_runs = refl
