-- ===== src/Tests/Data.antt =====
-- Parameters, writers and plans for the examples.
use fizzbuzz.Prelude.{
  ◌≡◌, refl, false, ◌++◌, Bytes, codes, arith, ltb, length, take, min, ltb→ge, take-all,
}
use fizzbuzz.GoLib.Decimal.{format}
use fizzbuzz.GoLib.Json.{marshal, marshal_strings, marshal_rest}
use fizzbuzz.GoLib.Utf8.{rune_size}
use fizzbuzz.GoLib.Writer.{Writer, IsWriter}
use fizzbuzz.Sequence.Params.{Params}
use fizzbuzz.Sequence.Reference.{say, strings, document}
use fizzbuzz.Sequence.Elements.{IsPositive}

abbrev pub fizz : Params
fizz = record { int1 = 3; int2 = 5; limit = 15; str1 = codes "fizz"; str2 = codes "buzz" }

-- The periodic case.
abbrev pub every : Params
every = record { int1 = 1; int2 = 3; limit = 7; str1 = codes "a"; str2 = codes "b" }

pub fizz-IsPositive : IsPositive fizz
fizz-IsPositive = record {
  int1_pos = omega arith;
  int1_int = omega arith;
  int2_pos = omega arith;
  int2_int = omega arith;
  limit_pos = omega arith;
  limit_int = omega arith;
}

pub every-IsPositive : IsPositive every
every-IsPositive = record {
  int1_pos = omega arith;
  int1_int = omega arith;
  int2_pos = omega arith;
  int2_int = omega arith;
  limit_pos = omega arith;
  limit_int = omega arith;
}

pub length-fizz : length (document fizz) ≡ 89
unfolding document strings say marshal_strings marshal_rest marshal format rune_size
length-fizz = refl

pub length-every : length (document every) ≡ 31
unfolding document strings say marshal_strings marshal_rest marshal format rune_size
length-every = refl

-- A writer that keeps everything.
abbrev pub buffer : Writer Bytes
buffer = record { write = λ w b. record { w = w ++ b; n = length b; failed = false } }

abbrev pub kept : Bytes → Bytes
kept w = w

pub buffer-IsWriter : IsWriter buffer kept
buffer-IsWriter = record {
  counted = λ w b. omega arith;
  delivered = λ w b. rw (take-all (length b) b (omega arith)) refl;
  complete = λ w b e. refl;
}

-- A writer that takes 40 bytes of a call and fails on more.
abbrev pub narrow : Writer Bytes
narrow = record {
  write = λ w b. record {
    w = w ++ take (min (length b) 40) b;
    n = min (length b) 40;
    failed = ltb 40 (length b);
  };
}

pub narrow-IsWriter : IsWriter narrow kept
narrow-IsWriter = record {
  counted = λ w b. omega arith;
  delivered = λ w b. refl;
  complete = λ w b e. omega (arith, ltb→ge _ _ e);
}
