-- ===== src/Server/Parse.antt =====
-- server.go: `parseParams`. A read value or the error; the parameters read before an error are not
-- used by the caller.
pub mod Reads
pub mod Written
pub mod Range
use fizzbuzz.Prelude.{ℕ, Option, none, some, List, [], ◌∷◌, Bytes, same_text, if◌then◌else◌, codes}
use fizzbuzz.GoLib.ParseInt.{ParsedInt, parsed, bad_syntax, out_of_range, parse_int}
use fizzbuzz.GoLib.Url.{Settings, parse_query}
use fizzbuzz.Sequence.Params.{Params, FieldError}

pub data Parsed (A : Type 0) : Type 0 where
  refused : FieldError → Parsed A
  got : A → Parsed A

-- `if err != nil { return p, err }`
abbrev pub and_then : {A B : Type 0} → Parsed A → (A → Parsed B) → Parsed B
and_then (refused e) rest = refused e
and_then (got x) rest = rest x

abbrev pub field_error : {A : Type 0} → Bytes → Bytes → Parsed A
field_error name reason = refused (record { param = name; reason = reason })

-- `q[name]`: the values of a name, in their order.
unfoldable pub values : Bytes → Settings → List Bytes
values name [] = []
values name ((key, value) ∷ q) =
    let rest = values name q in if same_text key name then value ∷ rest else rest

abbrev pub only_value : Bytes → List Bytes → Parsed Bytes
only_value name [] = field_error name (codes "is required")
only_value name (v ∷ []) = got v
only_value name (v ∷ w ∷ vs) = field_error name (codes "must be given exactly once")

-- `get`
unfoldable pub get : Settings → Bytes → Parsed Bytes
get q name = only_value name (values name q)

abbrev pub int_result : Bytes → ParsedInt → Parsed ℕ
int_result name (parsed n) = got n
int_result name out_of_range = field_error name (codes "is out of range")
int_result name bad_syntax = field_error name (codes "must be a base-10 integer")

-- `getInt`
unfoldable pub get_int : Settings → Bytes → Parsed ℕ
get_int q name = and_then (get q name) (λ v. int_result name (parse_int v))

unfoldable pub params_of : Settings → Parsed Params
params_of q = and_then (get_int q (codes "int1")) (λ int1.
    and_then (get_int q (codes "int2")) (λ int2. and_then (get_int q (codes "limit")) (λ limit.
      and_then (get q (codes "str1")) (λ str1. and_then (get q (codes "str2")) (λ str2.
        got (record { int1 = int1; int2 = int2; limit = limit; str1 = str1; str2 = str2 }))))))

abbrev pub params_of_query : Option Settings → Parsed Params
params_of_query none = field_error (codes "query") (codes "malformed percent-encoding")
params_of_query (some q) = params_of q

-- `parseParams`
unfoldable pub parse_params : Bytes → Parsed Params
unfolding params_of
parse_params raw = params_of_query (parse_query raw)
