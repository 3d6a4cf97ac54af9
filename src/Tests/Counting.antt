-- ===== src/Tests/Counting.antt =====
-- The counter of the requests.
use native.Mathlib.Decide.{ℕ_discrete}
use mathlib.Core.List.{lookup}
use fizzbuzz.Prelude.{
  ℕ, ◌+◌, ◌*◌, ◌≤◌, ◌≡◌, ◌↔◌, refl, true, false, some, List, [], ◌∷◌, arith, ◌^◌,
}
use fizzbuzz.Sequence.Params.{Params}
use fizzbuzz.Stats.{
  Prefix-discrete, new_counter, key_of, lead, cost_of, record_key, record_hit, top_of,
}
use fizzbuzz.Stats.Maps.{store}
use fizzbuzz.Stats.Keys.{key_of-eq}
use fizzbuzz.Stats.Invariant.{hits}
use fizzbuzz.Stats.Exact.{IsAlloc, IsRequest}
use fizzbuzz.Stats.Winner.{served, top_of-hits, record_hit-reports_iff}
use fizzbuzz.Tests.Data.{fizz, every}

-- Size classes of 8 bytes.
abbrev pub rounded : ℕ → ℕ
rounded n = n + 8

pub rounded-IsAlloc : IsAlloc rounded
rounded-IsAlloc = record { bounded = λ n h. omega arith }

abbrev history : List Params
history = fizz ∷ every ∷ fizz ∷ []

fizz-IsRequest : IsRequest fizz
fizz-IsRequest = record {
  limit_pos = omega arith;
  limit_small = omega arith;
  str1_small = omega arith;
  str2_small = omega arith;
}

every-IsRequest : IsRequest every
every-IsRequest = record {
  limit_pos = omega arith;
  limit_small = omega arith;
  str1_small = omega arith;
  str2_small = omega arith;
}

reported : top_of (served rounded (new_counter 1000) history) ≡ some (fizz, 2)
unfolding top_of served new_counter record_hit record_key key_of lead cost_of store lookup
    ℕ_discrete Prefix-discrete
reported = refl

top_of-hits_example : (2 ≡ hits history fizz) × ((q : Params) → hits history q ≤ 2)
top_of-hits_example =
    top_of-hits rounded 1000 history fizz 2 rounded-IsAlloc (omega arith)
      (fizz-IsRequest, (every-IsRequest, (fizz-IsRequest, tt))) (omega arith) reported

-- A budget that is too small for the first request.
record_hit-reports_iff_example : ((record_hit rounded (new_counter 100) fizz).1 ≡ true) ↔ (
    ((new_counter 100).saturated ≡ false)
    × ((record_hit rounded (new_counter 100) fizz).0.saturated ≡ true))
record_hit-reports_iff_example = record_hit-reports_iff rounded (new_counter 100) fizz

key_of-eq_example : key_of 7 15 ≡ 7 * 2 ^ 32 + 15
key_of-eq_example = key_of-eq 7 15 (omega arith) (omega arith)
