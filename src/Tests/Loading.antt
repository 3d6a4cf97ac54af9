-- ===== src/Tests/Loading.antt =====
-- The configuration of an empty environment.
use fizzbuzz.Prelude.{
  same_text, ℕ, ◌/◌, ◌^◌, ◌<◌, ◌≡◌, refl, ap, Option, none, List, [], Bytes, arith,
}
use fizzbuzz.Sequence.Validate.{validate}
use fizzbuzz.Sequence.Validate.Accepts.{InRange, IsLimits}
use fizzbuzz.Config.{Config, ConfigError, default_config, check_config, set_value, load_config}
use fizzbuzz.Config.Bounds.{load_config-bounds}
use fizzbuzz.Tests.Data.{fizz, length-fizz}

abbrev unset : Bytes → Bytes
unset key = []

abbrev no_number : Bytes → ℕ × Option Bytes
no_number v = (0, none)

abbrev loaded : Config × List ConfigError
loaded = load_config unset no_number no_number no_number

loaded-default : loaded ≡ (default_config, [])
unfolding load_config set_value check_config same_text
loaded-default = refl

loaded-IsLimits : IsLimits loaded.0.limits
loaded-IsLimits = rw loaded-default (record {
  max_limit_int = omega arith;
  max_str_int = omega arith;
  max_response_int = omega arith;
})

fizz-words : InRange fizz
fizz-words = record {
  int1_word = omega arith;
  int2_word = omega arith;
  limit_word = omega arith;
  str1_fits = omega arith;
  str2_fits = omega arith;
}

load_config-bounds_example :
    (loaded.0.stats_max_bytes / 152 < 2 ^ 32)
    × (validate fizz loaded.0.limits ≡ none → (0 < fizz.limit) × (fizz.limit < 2 ^ 32))
load_config-bounds_example =
    load_config-bounds unset no_number no_number no_number fizz (ap (λ (s : _). s.1) loaded-default)
      (rw loaded-default (omega arith)) loaded-IsLimits fizz-words (λ v. omega (arith, length-fizz))
