-- ===== src/GoLib/Json/Numbers.antt =====
-- The digits of a number are plain text: `json.Marshal` only puts quotes round them.
use fizzbuzz.Prelude.{
  ℕ, ◌/◌, ◌%◌, ◌+◌, ◌<◌, ◌≡◌, [], ◌∷◌, ◌++◌, arith, Bool-cases, inl, inr, ltb, ltb→ge, ltb→lt,
  lt_wf,
}
use mathlib.Core.WellFounded
use fizzbuzz.GoLib.Decimal.{format, format_small, format_large}
use fizzbuzz.GoLib.Json.{marshal, marshal-plain, AllPlain, IsPlain, AllPlain-append}

digit-IsPlain : (d : ℕ) → d < 10 → IsPlain (b'0' + d)
digit-IsPlain d h = ground arith

format-AllPlain : (v : ℕ) → AllPlain (format v)
format-AllPlain v = WellFounded.induction lt_wf {C = λ k. AllPlain (format k)} v λ k ih.
    elim (Bool-cases (ltb k 10)) [
      | inl small ↦
          rw (format_small k (ltb→lt k 10 small)) (digit-IsPlain k (ltb→lt k 10 small), tt)
      | inr large ↦ rw (format_large k (ltb→ge k 10 large)) (
          AllPlain-append (format (k / 10)) ((b'0' + k % 10) ∷ [])
            (ih (k / 10) (omega (arith, ltb→ge k 10 large)))
            (digit-IsPlain (k % 10) (omega arith), tt))
    ]

pub marshal-format : (v : ℕ) → marshal (format v) ≡ b'"' ∷ format v ++ b'"' ∷ []
marshal-format v = marshal-plain (format v) (format-AllPlain v)
