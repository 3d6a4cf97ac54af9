-- ===== src/Tests/Parts.antt =====
-- The divisors, the decimal counter and the generator.
use Prim.Native.Nat.{◌∣◌}
use native.Mathlib.Nat.{dvd-mul_right}
use fizzbuzz.Prelude.{◌+◌, ◌*◌, ◌%◌, ◌≡◌, ◌↔◌, inl, refl, [], arith}
use fizzbuzz.Sequence.Divisor.{gcd, lcm_capped}
use fizzbuzz.Sequence.Divisor.Laws.{gcd-dvd, dvd-gcd, mod-lcm_capped_iff}
use fizzbuzz.Sequence.Digits.{set, inc, framed, zero_counter}
use fizzbuzz.Sequence.Digits.Framed.{Represents, framed-number, inc-Represents}
use fizzbuzz.Sequence.Digits.Set.{set-Represents}
use fizzbuzz.Sequence.Elements.{number, element, new_plan-IsPlan}
use fizzbuzz.Sequence.Size.{new_plan}
use fizzbuzz.Sequence.Gen.{new_gen, event, fill, max_elem}
use fizzbuzz.Sequence.Gen.Step.{IsGen, new_gen-IsGen, event-element}
use fizzbuzz.Sequence.Gen.Fill.{Filled, fill-Filled}
use fizzbuzz.Tests.Data.{fizz, every, fizz-IsPositive, every-IsPositive}

gcd-dvd_example : (gcd 12 18 ∣ 12) × (gcd 12 18 ∣ 18)
gcd-dvd_example = gcd-dvd 12 18

dvd-gcd_example : 6 ∣ gcd 12 18 * 1
dvd-gcd_example = dvd-gcd 12 18 1 6 (dvd-mul_right 6 2) (dvd-mul_right 6 3)

mod-lcm_capped_iff_example : (12 % lcm_capped 4 6 20 ≡ 0) ↔ ((12 % 4 ≡ 0) × (12 % 6 ≡ 0))
mod-lcm_capped_iff_example =
    mod-lcm_capped_iff 4 6 (omega arith) (omega arith) 20 12 (omega arith) (omega arith)
      (omega arith)

set-Represents_example : Represents (set zero_counter 99) 99
set-Represents_example = set-Represents zero_counter 99 (omega arith) (omega arith)

inc-Represents_example : Represents (inc (set zero_counter 99)) (99 + 1)
inc-Represents_example =
    inc-Represents (set zero_counter 99) 99
      (set-Represents zero_counter 99 (omega arith) (omega arith)) (omega arith)

framed-number_example : framed (set zero_counter 99) ≡ number 99
framed-number_example =
    framed-number (set-Represents zero_counter 99 (omega arith) (omega arith)) (omega arith)

-- The first element of `every` is a multiple of 1.
event-element_example :
    ((event (new_plan every) (new_gen (new_plan every) 1)).1
      ≡ element (new_plan every) (new_gen (new_plan every) 1).i)
    × ((event (new_plan every) (new_gen (new_plan every) 1)).0.i
        ≡ (new_gen (new_plan every) 1).i + 1)
    × IsGen (new_plan every) (event (new_plan every) (new_gen (new_plan every) 1)).0
event-element_example =
    event-element (new_plan every) (new_plan-IsPlan every-IsPositive) (new_gen (new_plan every) 1)
      (new_gen-IsGen (new_plan every) (new_plan-IsPlan every-IsPositive))
      (unfold new_gen in omega arith) (inl (unfold new_gen new_plan in refl))

-- A buffer of 20 bytes before the last element.
fill-Filled_example :
    Filled
      (new_plan fizz)
      20
      15
      (record { gen = new_gen (new_plan fizz) 1; out = [] })
      (fill (new_plan fizz) (20 + max_elem (new_plan fizz)) 20 15 (new_gen (new_plan fizz) 1))
fill-Filled_example =
    fill-Filled (new_plan fizz) (new_plan-IsPlan fizz-IsPositive) (unfold new_plan in omega arith)
      20 (20 + max_elem (new_plan fizz)) 15 (omega arith) (unfold new_plan in omega arith)
      (new_gen (new_plan fizz) 1) (new_gen-IsGen (new_plan fizz) (new_plan-IsPlan fizz-IsPositive))
      (unfold new_gen in omega arith)
