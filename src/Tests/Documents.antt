-- ===== src/Tests/Documents.antt =====
-- `WriteJSON`, `JSONSize` and `Validate` on whole parameters.
use fizzbuzz.Prelude.{
  ◌+◌, ◌-◌, ◌%◌, ◌≤◌, ◌≡◌, ◌↔◌, refl, false, none, [], ◌∷◌, ◌++◌, codes, arith, length, take,
  two_64,
}
use fizzbuzz.GoLib.Decimal.{format, format_int}
use fizzbuzz.GoLib.Json.{marshal, marshal_rest, marshal_strings}
use fizzbuzz.GoLib.Utf8.{rune_size, valid_string}
use fizzbuzz.Sequence.Params.{Limits, default_limits}
use fizzbuzz.Sequence.Reference.{say, document}
use fizzbuzz.Sequence.Element.{join, append_elem, append_elem-marshal}
use fizzbuzz.Sequence.Elements.{element, elements, new_plan-IsPlan, element-say}
use fizzbuzz.Sequence.Size.{
  new_plan, json_size, range_bytes, multiples_in, plain_in, band_end, add_band, band_loop,
  replacement_bytes,
}
use fizzbuzz.Sequence.Size.Exact.{json_size-document, range_bytes-elements}
use fizzbuzz.Sequence.Divisor.{gcd_loop, gcd, lcm_capped, multiples}
use fizzbuzz.Sequence.Digits.{copy_at, slice, set, carry, place, inc, framed}
use fizzbuzz.Sequence.Gen.{
  new_gen, max_elem, advance, event, put, put_number, plain_run, put_event, fill_loop, fill,
}
use fizzbuzz.Sequence.Write.{
  write_json, set_head, overlay, copy_into, zeros, repeat_period, write_counted, emit, emit_chunks,
  close, emit_all, write_periodic,
}
use fizzbuzz.Sequence.Write.Delivery.{write_json-document, write_json-prefix}
use fizzbuzz.Sequence.Validate.{validate, validate_str, largest_limit, with_limit}
use fizzbuzz.Sequence.Validate.Accepts.{
  IsText, InRange, IsLimits, Accepted, validate_iff, validate_str_iff,
}
use fizzbuzz.Sequence.Validate.Suggestion.{largest_limit-validate}
use fizzbuzz.Tests.Data.{
  fizz, every, fizz-IsPositive, every-IsPositive, length-fizz, length-every, buffer, kept,
  buffer-IsWriter, narrow, narrow-IsWriter,
}

write_json-prefix_example :
    (kept (write_json narrow [] fizz).w ≡ [] ++ take (write_json narrow [] fizz).n (document fizz))
    × ((write_json narrow [] fizz).n ≤ length (document fizz))
write_json-prefix_example =
    write_json-prefix narrow kept narrow-IsWriter [] fizz fizz-IsPositive (omega arith)
      (omega (arith, length-fizz))

json_size-document_example : json_size fizz ≡ length (document fizz)
json_size-document_example = json_size-document fizz fizz-IsPositive (omega (arith, length-fizz))

range_bytes-elements_example :
    range_bytes (new_plan fizz) 4 11 ≡ length (elements (new_plan fizz) 4 (11 + 1 - 4)) % two_64
range_bytes-elements_example =
    range_bytes-elements (new_plan fizz) (new_plan-IsPlan fizz-IsPositive) 4 11 (omega arith)
      (unfold new_plan in omega arith)

element-say_example : element (new_plan fizz) 15 ≡ b',' ∷ marshal (say fizz 15)
element-say_example = element-say fizz 15

fizz-InRange : InRange fizz
fizz-InRange = record {
  int1_word = omega arith;
  int2_word = omega arith;
  limit_word = omega arith;
  str1_fits = omega arith;
  str2_fits = omega arith;
}

abbrev small_limits : Limits
small_limits = record { max_limit = 100; max_str_bytes = 8; max_response_bytes = 60 }

small-IsLimits : IsLimits small_limits
small-IsLimits = record {
  max_limit_int = omega arith;
  max_str_int = omega arith;
  max_response_int = omega arith;
}

default-IsLimits : IsLimits default_limits
default-IsLimits = record {
  max_limit_int = omega arith;
  max_str_int = omega arith;
  max_response_int = omega arith;
}

fizz-IsText : IsText (codes "fizz") 8
fizz-IsText = record {
  some_bytes = omega arith;
  short = omega arith;
  valid = unfold valid_string rune_size in refl;
}

buzz-IsText : IsText (codes "buzz") 8
buzz-IsText = record {
  some_bytes = omega arith;
  short = omega arith;
  valid = unfold valid_string rune_size in refl;
}

validate_iff_example : (validate fizz default_limits ≡ none) ↔ Accepted fizz default_limits
validate_iff_example =
    validate_iff fizz default_limits fizz-InRange default-IsLimits (λ v. omega (arith, length-fizz))

validate_str_iff_example :
    (validate_str (codes "str1") (codes "fizz") 8 ≡ none) ↔ IsText (codes "fizz") 8
validate_str_iff_example =
    validate_str_iff (codes "str1") (codes "fizz") 8 (omega arith) (omega arith)

largest_limit-validate_example :
    (validate (with_limit fizz 6) small_limits ≡ none) ↔ (6 ≤ largest_limit fizz 60)
largest_limit-validate_example =
    largest_limit-validate fizz small_limits 6 fizz-InRange small-IsLimits fizz-IsPositive
      (omega arith) fizz-IsText buzz-IsText (omega (arith, length-fizz)) (omega arith) (omega arith)

append_elem-marshal_example :
    append_elem (codes "x") (codes "a<" ∷ codes "b" ∷ [])
    ≡ codes "x" ++ (b',' ∷ marshal (codes "a<b"))
unfolding join
append_elem-marshal_example = append_elem-marshal (codes "x") (codes "a<" ∷ codes "b" ∷ [])

every_complete : (write_json buffer [] every).failed ≡ false
unfolding new_plan multiples_in plain_in band_end add_band band_loop replacement_bytes range_bytes
    join append_elem gcd_loop gcd lcm_capped multiples copy_at slice set carry place inc framed
    new_gen max_elem advance event put put_number plain_run put_event fill_loop fill set_head
    overlay copy_into zeros repeat_period write_counted emit emit_chunks close emit_all
    write_periodic write_json marshal marshal_rest marshal_strings format format_int rune_size
every_complete = refl

write_json-document_example :
    (kept (write_json buffer [] every).w ≡ [] ++ document every)
    × ((write_json buffer [] every).n ≡ json_size every)
write_json-document_example =
    write_json-document buffer kept buffer-IsWriter [] every every-IsPositive (omega arith)
      (omega (arith, length-every)) every_complete
