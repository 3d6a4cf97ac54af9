-- ===== src/Tests/Bodies.antt =====
-- A body that is written as a whole.
use fizzbuzz.Prelude.{◌≡◌, refl, false, [], Bytes}
use fizzbuzz.GoLib.Decimal.{format, format_int}
use fizzbuzz.GoLib.Json.{marshal, marshal_rest, marshal_strings}
use fizzbuzz.GoLib.Utf8.{rune_size}
use fizzbuzz.Config.{default_config}
use fizzbuzz.Sequence.Digits.{copy_at, slice, set, carry, place, inc, framed}
use fizzbuzz.Sequence.Divisor.{gcd_loop, gcd, lcm_capped, multiples}
use fizzbuzz.Sequence.Element.{join, append_elem}
use fizzbuzz.Sequence.Gen.{
  new_gen, max_elem, advance, event, put, put_number, plain_run, put_event, fill_loop, fill,
}
use fizzbuzz.Sequence.Size.{
  new_plan, range_bytes, multiples_in, plain_in, band_end, add_band, band_loop, replacement_bytes,
}
use fizzbuzz.Sequence.Write.{
  buffer_length, write_json, set_head, overlay, copy_into, zeros, repeat_period, write_counted,
  write_loop, write_stream, emit, emit_chunks, close, emit_all, write_periodic,
}
use fizzbuzz.Server.Stream.{Deadline, deadline_writer, stream}
use fizzbuzz.Tests.Data.{fizz, buffer}

-- A connection whose clock stands still.
abbrev pub still : Deadline Bytes
still = record { now = λ w. 0; set_deadline = λ w t. w }

pub fizz_complete : (stream still default_config buffer [] fizz).failed ≡ false
unfolding buffer_length stream deadline_writer new_plan multiples_in plain_in band_end add_band
    band_loop replacement_bytes range_bytes join append_elem gcd_loop gcd lcm_capped multiples
    copy_at slice set carry place inc framed new_gen max_elem advance event put put_number plain_run
    put_event fill_loop fill set_head overlay copy_into zeros repeat_period write_counted write_loop
    write_stream emit emit_chunks close emit_all write_periodic write_json marshal marshal_rest
    marshal_strings format format_int rune_size
fizz_complete = refl
