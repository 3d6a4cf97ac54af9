-- ===== src/Sequence/Write.antt =====
-- internal/fizzbuzz/write.go: `WriteJSON` and `writePeriodic`. A buffer from the pool is as long as
-- the pool makes it, and only the bytes that were just written are read, so what it held is left out.
pub mod Chunks
pub mod Stream
pub mod Emit
pub mod Period
pub mod Periodic
pub mod Whole
pub mod Delivery
use fizzbuzz.Prelude.{
  ℕ, zero, suc, ◌+◌, ◌-◌, ◌*◌, ◌/◌, ◌%◌, min, max, Bool, true, false, ◌&&◌, not, List, [], ◌∷◌,
  ◌++◌, Bytes, ltb, leb, ◌==◌, if◌then◌else◌, length, take, ◌+w◌, lt_int,
}
use fizzbuzz.GoLib.Writer.{Writer, Written}
use fizzbuzz.Sequence.Params.{Params}
use fizzbuzz.Sequence.Size.{Plan, new_plan, range_bytes}
use fizzbuzz.Sequence.Gen.{Gen, new_gen, max_elem, stream_buf, max_repl_elem, Filling, put, fill}

-- `b[0] = c`
unfoldable pub set_head : ℕ → Bytes → Bytes
set_head c [] = []
set_head c (x ∷ b) = c ∷ b

-- The length of the buffer that `WriteJSON` uses.
unfoldable pub buffer_length : Plan → ℕ
buffer_length pl =
    let pooled = stream_buf + max_repl_elem + 1 in
    let need = stream_buf + max_elem pl + 1 in if ltb pooled need then need else pooled

-- `copy(buf[off:], src)` in a buffer of fixed length.
unfoldable pub overlay : Bytes → Bytes → Bytes
overlay [] src = []
overlay (x ∷ buf) [] = x ∷ buf
overlay (x ∷ buf) (y ∷ src) = y ∷ overlay buf src

unfoldable pub copy_into : Bytes → ℕ → Bytes → Bytes
copy_into buf zero src = overlay buf src
copy_into [] (suc off) src = []
copy_into (x ∷ buf) (suc off) src = x ∷ copy_into buf off src

unfoldable pub zeros : ℕ → Bytes
zeros zero = []
zeros (suc n) = 0 ∷ zeros n

-- What one round of the loop writes: the elements, with `[` and `]` at the ends.
unfoldable pub round_bytes : Plan → ℕ → Bool → Filling → Bytes
round_bytes pl cap first s =
    let opened = if first then set_head b'[' s.out else s.out in
    if ltb pl.n s.gen.i then put cap opened (b']' ∷ []) else opened

-- `for j := 1; j < k; j++ { copy(chunk[j*pb:], chunk[:pb]) }`; the first argument is the number
-- of rounds left.
unfoldable pub repeat_period : ℕ → ℕ → ℕ → Bytes → Bytes
repeat_period zero j pb chunk = chunk
repeat_period (suc n) j pb chunk =
    repeat_period n (suc j) pb (copy_into chunk (j * pb) (take pb chunk))

-- The variables that the closure `emit` shares with `writePeriodic`.
pub record Emitter (W : Type 0) : Type 0 where
  pub sent : Written W
  pub chunk : Bytes
  pub first : Bool

abbrev pub new_emitter : {W : Type 0} → W → Bytes → Emitter W
new_emitter w chunk = record {
  sent = record { w = w; n = 0; failed = false };
  chunk = chunk;
  first = true;
}

module _ {W : Type 0} (o : Writer W) where
  -- `m, err := w.Write(b); written += int64(m)`
  unfoldable pub write_counted : W → ℕ → Bytes → Written W
  write_counted w written b = record {
    w = (o.write w b).w;
    n = written +w (o.write w b).n;
    failed = (o.write w b).failed;
  }

  -- `for g.i <= pl.n`; each round emits an element.
  unfoldable pub write_loop : ℕ → Plan → ℕ → Gen → Bool → W → ℕ → Written W
  write_loop zero pl cap g first w written = record { w = w; n = written; failed = false }
  write_loop (suc fuel) pl cap g first w written =
      let s = fill pl cap stream_buf pl.n g in
      let r = write_counted w written (round_bytes pl cap first s) in
      let rest = write_loop fuel pl cap s.gen false r.w r.n in
      if leb g.i pl.n
      then (if r.failed then r else rest)
      else record { w = w; n = written; failed = false }

  unfoldable pub write_stream : W → Plan → Written W
  write_stream w pl = write_loop pl.n pl (buffer_length pl) (new_gen pl 1) true w 0

  -- `emit(chunk[:m])`: the first call writes `[` for the first comma and puts the comma back.
  unfoldable pub emit : ℕ → Emitter W → Emitter W
  emit m e =
      let b = take m e.chunk in
      let opened = if e.first then set_head b'[' b else b in
      if length b == 0
      then record e { sent = record { w = e.sent.w; n = e.sent.n; failed = false } }
      else record {
        sent = write_counted e.sent.w e.sent.n opened;
        chunk = if e.first then set_head b',' e.chunk else e.chunk;
        first = false;
      }

  -- `for ; periods >= k; periods -= k`, with the periods that are left.
  unfoldable pub emit_chunks : ℕ → ℕ → ℕ → ℕ → Emitter W → Emitter W × ℕ
  emit_chunks zero k size periods e = (e, periods)
  emit_chunks (suc fuel) k size periods e =
      let e' = emit size e in
      let rest = emit_chunks fuel k size (periods - k) e' in
      if leb k periods then (if e'.sent.failed then (e', periods) else rest) else (e, periods)

  -- The closing bracket, and the result.
  unfoldable pub close : Emitter W → Written W
  close e = write_counted e.sent.w e.sent.n (b']' ∷ [])

  -- The calls of `emit` after the chunk is filled: each stops at an error.
  unfoldable pub emit_all : Plan → ℕ → ℕ → ℕ → Emitter W → Written W
  emit_all pl p pb k e =
      let (e1, periods) = emit_chunks (pl.n / p) k (k * pb) (pl.n / p) e in
      let e2 = emit (periods * pb) e1 in
      let e3 = emit (range_bytes pl 1 (pl.n % p)) e2 in
      if e1.sent.failed
      then e1.sent
      else if e2.sent.failed
      then e2.sent
      else if e3.sent.failed
      then e3.sent
      else close e3

  unfoldable pub write_periodic : W → Plan → Written W
  write_periodic w pl =
      let p = min (max pl.a pl.b) pl.n in
      let pb = range_bytes pl 1 p in
      let k = min (stream_buf / pb) (pl.n / p) in
      let cap = k * pb + max_elem pl in
      let s = fill pl cap pb p (new_gen pl 1) in
      let filled = copy_into (zeros cap) 0 s.out in
      let chunk = repeat_period (k - 1) 1 pb filled in emit_all pl p pb k (new_emitter w chunk)

  unfoldable pub write_json : W → Params → Written W
  write_json w p =
      let pl = new_plan p in
      if min pl.a pl.b == 1 && not (lt_int stream_buf (range_bytes pl 1 (min (max pl.a pl.b) pl.n)))
      then write_periodic w pl
      else write_stream w pl
