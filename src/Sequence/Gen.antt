-- ===== src/Sequence/Gen.antt =====
-- internal/fizzbuzz/write.go: `gen`, the generator of the elements, and `fill`. The plan, which no
-- operation changes, is an argument in place of the pointer `pl`. A buffer that is written from its
-- start on is the list of the bytes written, whose length is `pos`; `cap` is the buffer's length.
pub mod Step
pub mod Run
pub mod Fill
use fizzbuzz.Prelude.{
  ℕ, zero, suc, ◌+◌, ◌-◌, ◌*◌, ◌/◌, min, max, Bool, ◌&&◌, ◌||◌, List, [], ◌∷◌, ◌++◌, Bytes, ltb,
  leb, ◌==◌, if◌then◌else◌, length, take, ◌+w◌, ◌*w◌,
}
use fizzbuzz.Sequence.Size.{Plan}
use fizzbuzz.Sequence.Digits.{Dcounter, zero_counter, set, inc, framed}

abbrev pub stream_buf : ℕ
stream_buf = 32 * 1024

abbrev pub max_num_elem : ℕ
max_num_elem = 24

abbrev pub max_repl_elem : ℕ
max_repl_elem = 3 + 6 * 2 * 1024

pub record Gen : Type 0 where
  pub i : ℕ
  pub next1 : ℕ
  pub next2 : ℕ
  pub c : Dcounter

unfoldable pub new_gen : Plan → ℕ → Gen
new_gen pl lo = record {
  i = lo;
  next1 = ((lo - 1) / pl.a + 1) *w pl.a;
  next2 = ((lo - 1) / pl.b + 1) *w pl.b;
  c = set zero_counter lo;
}

unfoldable pub max_elem : Plan → ℕ
max_elem pl = max max_num_elem (max (length pl.e1) (max (length pl.e2) (length pl.e12)))

-- `g.c.inc(); g.i++`
unfoldable pub advance : Gen → Gen
advance g = record g { i = g.i +w 1; c = inc g.c }

-- The element at a multiple, and the generator behind it.
unfoldable pub event : Plan → Gen → Gen × Bytes
unfolding advance
event pl g =
    if g.i == g.next1
    then if g.i == g.next2
      then (advance (record g { next1 = g.next1 +w pl.a; next2 = g.next2 +w pl.b }), pl.e12)
      else (advance (record g { next1 = g.next1 +w pl.a }), pl.e1)
    else (advance (record g { next2 = g.next2 +w pl.b }), pl.e2)

-- The state of `fill`: the generator, and `buf[:pos]`.
pub record Filling : Type 0 where
  pub gen : Gen
  pub out : Bytes

-- `pos += copy(buf[pos:], e)`: no more than the room left is copied.
unfoldable pub put : ℕ → Bytes → Bytes → Bytes
put cap out e = out ++ take (cap - length out) e

-- One round of the inner loop: a plain number.
unfoldable pub put_number : ℕ → Filling → Filling
put_number cap s = record { gen = advance s.gen; out = put cap s.out (framed s.gen.c) }

-- `for g.i < end && pos <= stop`; the first argument is `end - g.i`.
unfoldable pub plain_run : ℕ → ℕ → ℕ → Filling → Filling
plain_run zero cap stop s = s
plain_run (suc n) cap stop s =
    let rest = plain_run n cap stop (put_number cap s) in
    if leb (length s.out) stop then rest else s

-- `pos += copy(buf[pos:], g.event())`
unfoldable pub put_event : Plan → ℕ → Filling → Filling
put_event pl cap s = let r = event pl s.gen in record { gen = r.0; out = put cap s.out r.1 }

-- The outer loop; each round emits an element, so `fuel` bounds the elements that are left.
unfoldable pub fill_loop : ℕ → Plan → ℕ → ℕ → ℕ → Filling → Filling
fill_loop zero pl cap stop hi s = s
fill_loop (suc fuel) pl cap stop hi s =
    let end = min (min s.gen.next1 s.gen.next2) (hi + 1) in
    let s' = plain_run (end - s.gen.i) cap stop s in
    let rest = fill_loop fuel pl cap stop hi (put_event pl cap s') in
    if leb s.gen.i hi && leb (length s.out) stop
    then (if ltb hi s'.gen.i || ltb stop (length s'.out) then s' else rest)
    else s

-- `fill(buf, 0, stop, hi)`
unfoldable pub fill : Plan → ℕ → ℕ → ℕ → Gen → Filling
fill pl cap stop hi g = fill_loop (hi + 1 - g.i) pl cap stop hi (record { gen = g; out = [] })
