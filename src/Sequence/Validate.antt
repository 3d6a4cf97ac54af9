-- ===== src/Sequence/Validate.antt =====
-- internal/fizzbuzz/params.go: `Validate`, `largestLimit` and `validateStr`. The numbers are 64-bit
-- patterns that are compared with their sign; a nil error is `none`.
pub mod Accepts
pub mod Suggestion
pub mod Size
use fizzbuzz.Prelude.{
  ℕ, ◌^◌, Bool, not, ◌||◌, Option, none, some, [], ◌++◌, Bytes, codes, if◌then◌else◌, length, ◌==◌,
  ◌+w◌, ◌-w◌, shr_int, lt_int,
}
use fizzbuzz.GoLib.Decimal.{format_int}
use fizzbuzz.GoLib.Search.{search}
use fizzbuzz.GoLib.Utf8.{valid_string}
use fizzbuzz.Sequence.Params.{Params, Limits, FieldError}
use fizzbuzz.Sequence.Size.{json_size}

abbrev pub refused : Bytes → Bytes → Option FieldError
refused param reason = some (record { param = param; reason = reason })

unfoldable pub validate_str : Bytes → Bytes → ℕ → Option FieldError
validate_str name s max_bytes =
    if length s == 0
    then refused name (codes "must not be empty")
    else if lt_int max_bytes (length s)
    then refused name (codes "must be at most " ++ format_int max_bytes ++ codes " bytes")
    else if not (valid_string s)
    then refused name (codes "must be valid UTF-8")
    else none

abbrev pub with_limit : Params → ℕ → Params
with_limit p n = record p { limit = n }

unfoldable pub largest_limit : Params → ℕ → ℕ
largest_limit p max_bytes =
    search p.limit (λ i. lt_int max_bytes (json_size (with_limit p (i +w 1))))

-- The reason for a response that is too large: the size in MiB, rounded up, the maximum, rounded
-- down, and the largest limit that fits if there is one.
unfoldable pub size_reason : Params → ℕ → Bytes
size_reason p max_bytes =
    let size = json_size p in
    let reason =
      codes "the response would be "
      ++ format_int (shr_int ((size +w 2 ^ 20) -w 1) 20)
      ++ codes " MiB, but the maximum is "
      ++ format_int (shr_int max_bytes 20)
      ++ codes " MiB" in
    let n = largest_limit p max_bytes in
    if lt_int 0 n
    then reason ++ codes "; with these strings, use a limit of " ++ format_int n ++ codes " or less"
    else reason

-- `if err := ...; err != nil { return err }`
abbrev pub or_else : Option FieldError → Option FieldError → Option FieldError
or_else none rest = rest
or_else (some e) rest = some e

unfoldable pub validate : Params → Limits → Option FieldError
validate p lim =
    if lt_int p.int1 1
    then refused (codes "int1") (codes "must be at least 1")
    else if lt_int p.int2 1
    then refused (codes "int2") (codes "must be at least 1")
    else if lt_int p.limit 1 || lt_int lim.max_limit p.limit
    then refused (codes "limit") (codes "must be between 1 and " ++ format_int lim.max_limit)
    else or_else (validate_str (codes "str1") p.str1 lim.max_str_bytes) (
        or_else (validate_str (codes "str2") p.str2 lim.max_str_bytes) (
          if lt_int lim.max_response_bytes (json_size p)
          then refused (codes "limit") (size_reason p lim.max_response_bytes)
          else none))
