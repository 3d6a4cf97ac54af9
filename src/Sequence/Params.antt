-- ===== src/Sequence/Params.antt =====
-- internal/fizzbuzz/params.go: the types `Limits`, `Params` and `FieldError`. The numbers are Go's
-- 64-bit patterns (Prelude.Words), the strings lists of bytes.
use native.Mathlib.Decide.{ℕ_discrete}
use fizzbuzz.Prelude.{ℕ, ◌*◌, ◌^◌, ◌++◌, Bytes, codes}

pub record Limits : Type 0 where
  pub max_limit : ℕ
  pub max_str_bytes : ℕ
  pub max_response_bytes : ℕ

abbrev pub default_limits : Limits
default_limits = record {
  max_limit = 10_000_000;
  max_str_bytes = 1024;
  max_response_bytes = 256 * 2 ^ 20;
}

pub record Params : Type 0 where
  pub int1 : ℕ
  pub int2 : ℕ
  pub limit : ℕ
  pub str1 : Bytes
  pub str2 : Bytes

unfoldable pub Params-discrete : Discrete Params
Params-discrete = hlevel ℕ_discrete

pub record FieldError : Type 0 where
  pub param : Bytes
  pub reason : Bytes

-- `(*FieldError).Error`
unfoldable pub error_text : FieldError → Bytes
error_text e = e.param ++ (codes ": " ++ e.reason)
