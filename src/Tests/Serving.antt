-- ===== src/Tests/Serving.antt =====
-- The server with the default configuration and the counter in memory.
use fizzbuzz.Prelude.{
  ◌-◌, ◌^◌, ◌≤◌, ◌<◌, ◌≡◌, ◌↔◌, refl, true, false, none, some, Bytes, codes, arith, length,
  same_text,
}
use fizzbuzz.GoLib.ParseInt.{parse_digits, parse_uint, parse_int}
use fizzbuzz.GoLib.Url.{
  Settings, split_at, cut, contains, hex_value, plain, unescape, parse_piece, parse_pieces,
  parse_query,
}
use fizzbuzz.GoLib.Utf8.{rune_size, valid_string}
use fizzbuzz.Config.{default_config}
use fizzbuzz.Sequence.Params.{Params, default_limits}
use fizzbuzz.Sequence.Reference.{document}
use fizzbuzz.Sequence.Size.{json_size}
use fizzbuzz.Sequence.Validate.{validate}
use fizzbuzz.Sequence.Validate.Accepts.{IsText, InRange, Accepted, validate_iff}
use fizzbuzz.Sequence.Validate.Size.{validate-size}
use fizzbuzz.Server.Parse.{got, values, params_of, get, get_int, parse_params}
use fizzbuzz.Server.Parse.Reads.{Reads, parse_params-Reads}
use fizzbuzz.Server.Parse.Written.{query_text, parse_params-query_text}
use fizzbuzz.Server.Admission.Budget.{IsServed}
use fizzbuzz.Tests.Data.{fizz, fizz-IsPositive, length-fizz}

abbrev pub raw : Bytes
raw = codes "int1=3&int2=5&limit=15&str1=fizz&x=%41&str2=b%75zz"

pub raw-fizz : parse_params raw ≡ got fizz
unfolding parse_params params_of get get_int values same_text parse_query parse_pieces parse_piece
    split_at cut contains hex_value unescape parse_int parse_uint parse_digits
raw-fizz = refl

parse_params-Reads_example :
    (parse_params raw ≡ got fizz) ↔ ((q : Settings) × (parse_query raw ≡ some q) × Reads q fizz)
parse_params-Reads_example = parse_params-Reads raw fizz

abbrev spaced : Params
spaced = record fizz { int1 = 2 ^ 64 - 3; str1 = codes "a&b"; str2 = codes "c d" }

a-Encodes :
    (unescape plain (codes "a%26b") ≡ some (codes "a&b"))
    × (contains b'&' (codes "a%26b") ≡ false)
    × (contains b';' (codes "a%26b") ≡ false)
unfolding unescape contains hex_value
a-Encodes = (refl, refl, refl)

c-Encodes :
    (unescape plain (codes "c+d") ≡ some (codes "c d"))
    × (contains b'&' (codes "c+d") ≡ false)
    × (contains b';' (codes "c+d") ≡ false)
unfolding unescape contains hex_value
c-Encodes = (refl, refl, refl)

parse_params-query_text_example :
    parse_params (query_text spaced (codes "a%26b") (codes "c+d")) ≡ got spaced
parse_params-query_text_example =
    parse_params-query_text spaced (codes "a%26b") (codes "c+d") (omega arith) (omega arith)
      (omega arith) a-Encodes c-Encodes

pub default-IsServed : IsServed default_config
default-IsServed = record {
  limits = record {
    max_limit_int = omega arith;
    max_str_int = omega arith;
    max_response_int = omega arith;
  };
  fits = omega arith;
  budget = omega arith;
}

fizz-words : InRange fizz
fizz-words = record {
  int1_word = omega arith;
  int2_word = omega arith;
  limit_word = omega arith;
  str1_fits = omega arith;
  str2_fits = omega arith;
}

word-IsText : (s : Bytes) → 0 < length s → length s ≤ 1024 → valid_string s ≡ true → IsText s 1024
word-IsText s a b v = record { some_bytes = a; short = b; valid = v }

fizz-Accepted : Accepted fizz default_limits
fizz-Accepted = record {
  positive = fizz-IsPositive;
  limit = omega arith;
  str1 =
      word-IsText (codes "fizz") (omega arith) (omega arith)
        (unfold valid_string rune_size in refl);
  str2 =
      word-IsText (codes "buzz") (omega arith) (omega arith)
        (unfold valid_string rune_size in refl);
  size = omega (arith, length-fizz);
}

pub fizz-validated : validate fizz default_limits ≡ none
fizz-validated =
    (validate_iff fizz default_limits fizz-words default-IsServed.limits
        (λ v. omega (arith, length-fizz))).1
      fizz-Accepted

validate-size_example : Accepted fizz default_limits × (json_size fizz ≡ length (document fizz))
validate-size_example =
    validate-size fizz default_limits fizz-words default-IsServed.limits default-IsServed.fits
      fizz-validated
