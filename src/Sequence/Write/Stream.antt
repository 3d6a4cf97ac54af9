-- ===== src/Sequence/Write/Stream.antt =====
-- The loop of `WriteJSON`, for every writer.
use mathlib.Core.Path.{subst}
use fizzbuzz.Prelude.{
  ℕ, zero, suc, ◌+◌, ◌-◌, ◌^◌, ◌≤◌, ◌<◌, ◌≡◌, inl, inr, refl, sym, ap, Bool, true, false, [], ◌∷◌,
  ◌++◌, append-nil, append_assoc, Bytes, arith, leb, le→leb, gt→leb, lt→ltb, ge→ltb, leb→le, leb→gt,
  if◌then◌else◌, Bool-cases, length, length-append, two_64,
}
use fizzbuzz.GoLib.Writer.{Writer, IsWriter, Sent, Sent-nothing, Sent-write, Sent-step}
use fizzbuzz.Sequence.Size.{Plan}
use fizzbuzz.Sequence.Elements.{IsPlan, element, elements, elements-add, element_comma}
use fizzbuzz.Sequence.Gen.{Gen, Filling, max_elem, stream_buf, fill, new_gen}
use fizzbuzz.Sequence.Gen.Step.{IsGen, new_gen-IsGen}
use fizzbuzz.Sequence.Gen.Run.{put_all}
use fizzbuzz.Sequence.Gen.Fill.{Filled, fill-Filled}
use fizzbuzz.Sequence.Write.{
  set_head, buffer_length, round_bytes, write_counted, write_loop, write_stream,
}

-- The bytes with `[` for the first comma, if they are the first.
abbrev pub opened : Bool → Bytes → Bytes
opened first b = if first then set_head b'[' b else b

pub length-opened : (first : Bool) (b : Bytes) → length (opened first b) ≡ length b
unfolding set_head
length-opened true [] = refl
length-opened true (x ∷ b) = refl
length-opened false b = refl

pub opened-append :
    (first : Bool) (x y : Bytes) → 0 < length x → opened first (x ++ y) ≡ opened first x ++ y
unfolding set_head
opened-append true [] y h = elim h [ ]
opened-append true (c ∷ x) y h = refl
opened-append false x y h = refl

pub element_some : (pl : Plan) → IsPlan pl → (i : ℕ) → 0 < length (element pl i)
element_some pl v i = let (t, e) = element_comma pl v i in rw (ap length e) (omega arith)

pub elements_some : (pl : Plan) → IsPlan pl → (i j : ℕ) → 0 < j → 0 < length (elements pl i j)
unfolding elements
elements_some pl v i zero h = elim h [ ]
elements_some pl v i (suc j) h =
    omega (arith, element_some pl v i, length-append (element pl i) (elements pl (suc i) j))

-- What is still to be written from element `i` on.
abbrev pub remaining : Plan → Bool → ℕ → Bytes
remaining pl first i =
    if leb i pl.n then opened first (elements pl i (pl.n + 1 - i)) ++ b']' ∷ [] else []

module _ (pl : Plan) (v : IsPlan pl) (small : pl.n < 2 ^ 62) where
  module _ (cap : ℕ) (space : stream_buf + max_elem pl + 1 ≤ cap) where
    last_round :
        (first : Bool) (g : Gen) (s : Filling) (j : ℕ)
        → 0 < j
        → g.i + j ≡ pl.n + 1
        → s.gen.i ≡ g.i + j
        → s.out ≡ elements pl g.i j
        → length s.out ≤ stream_buf + max_elem pl
        → remaining pl first g.i ≡ round_bytes pl cap first s ++ remaining pl false s.gen.i
    unfolding round_bytes
    last_round first g s j some_left done moved written room =
        let count : pl.n + 1 - g.i ≡ j = omega arith in
        rw
          (
            le→leb g.i pl.n (omega arith),
            gt→leb s.gen.i pl.n (omega arith),
            lt→ltb pl.n s.gen.i (omega arith),
            put_all cap (opened first s.out) (b']' ∷ []) (omega (arith, length-opened first s.out)),
            append-nil,
            written,
            count,
          )
          refl

    inner_round :
        (first : Bool) (g : Gen) (s : Filling) (j : ℕ)
        → 0 < j
        → g.i + j ≤ pl.n
        → s.gen.i ≡ g.i + j
        → s.out ≡ elements pl g.i j
        → remaining pl first g.i ≡ round_bytes pl cap first s ++ remaining pl false s.gen.i
    unfolding round_bytes
    inner_round first g s j some_left more moved written =
        let count : pl.n + 1 - g.i ≡ j + (pl.n + 1 - (g.i + j)) = omega arith in
        rw
          (
            le→leb g.i pl.n (omega arith),
            le→leb s.gen.i pl.n (omega arith),
            ge→ltb pl.n s.gen.i (omega arith),
            written,
            moved,
            count,
            elements-add pl g.i j (pl.n + 1 - (g.i + j)),
            opened-append first _ _ (elements_some pl v g.i j some_left),
            append_assoc,
          )
          refl

    -- The bytes of a round are the next of what remains, and the last round closes the array.
    round_bytes-remaining :
        (first : Bool) (g : Gen) (s : Filling)
        → g.i ≤ pl.n
        → Filled pl stream_buf pl.n (record { gen = g; out = [] }) s
        → remaining pl first g.i ≡ round_bytes pl cap first s ++ remaining pl false s.gen.i
    round_bytes-remaining first g s h f =
        let some_left = f.moves h (omega arith) in
        let e = f.emits in
        elim (Bool-cases (leb (g.i + f.j) pl.n)) [
          | inl more ↦ inner_round first g s f.j some_left (leb→le _ _ more) e.advanced e.written
          | inr done ↦
              last_round first g s f.j some_left (omega (arith, f.within, leb→gt _ _ done))
                e.advanced e.written e.room
        ]

    module _ {W : Type 0} (o : Writer W) (sink : W → Bytes) (ok : IsWriter o sink) where
      write_loop-Sent :
          (fuel : ℕ) (g : Gen) (first : Bool) (w : W) (count : ℕ)
          → IsGen pl g
          → g.i ≤ pl.n + 1
          → pl.n + 1 ≤ g.i + fuel
          → count < two_64
          → Sent sink w count (write_loop o fuel pl cap g first w count) (remaining pl first g.i)
      unfolding write_loop
      write_loop-Sent zero g first w count r h enough fits =
          rw (gt→leb g.i pl.n (omega arith))
            (Sent-nothing sink (record { w = w; n = count; failed = false }) fits)
      write_loop-Sent (suc fuel) g first w count r h enough fits =
          let s = fill pl cap stream_buf pl.n g in
          let sent = write_counted o w count (round_bytes pl cap first s) in
          elim (Bool-cases (leb g.i pl.n)) [
            | inl more ↦
                let f =
                  fill-Filled pl v small stream_buf cap pl.n (omega arith) (omega arith) g r h in
                let next = f.emits.advanced in
                let some_left = f.moves (leb→le _ _ more) (omega arith) in
                let this : Sent sink w count sent (round_bytes pl cap first s) =
                  unfold write_counted in Sent-write sink o ok w count _ in
                let bytes = round_bytes-remaining first g s (leb→le _ _ more) f in
                subst (Sent sink w count (write_loop o (suc fuel) pl cap g first w count))
                  (sym bytes)
                  (rw more (
                    Sent-step sink (write_loop o fuel pl cap s.gen false sent.w sent.n)
                      (remaining pl false s.gen.i) this
                      (λ good.
                        write_loop-Sent fuel s.gen false sent.w sent.n f.emits.valid
                          (omega (arith, f.within)) (omega arith)
                          (unfold write_counted in omega arith))))
            | inr done ↦
                rw done (Sent-nothing sink (record { w = w; n = count; failed = false }) fits)
          ]

  module _ {W : Type 0} (o : Writer W) (sink : W → Bytes) (ok : IsWriter o sink) where
    -- The streamed document, for a plan with at least one element.
    pub write_stream-Sent :
        (w : W)
        → 0 < pl.n
        → Sent sink w 0 (write_stream o w pl) (opened true (elements pl 1 pl.n) ++ b']' ∷ [])
    unfolding write_stream new_gen
    write_stream-Sent w pos =
        let count : pl.n + 1 - 1 ≡ pl.n = omega arith in
        let fits : stream_buf + max_elem pl + 1 ≤ buffer_length pl =
          unfold buffer_length in ground arith in
        let whole : remaining pl true 1 ≡ opened true (elements pl 1 pl.n) ++ b']' ∷ [] =
          rw (le→leb 1 pl.n pos, count) refl in
        subst (Sent sink w 0 (write_stream o w pl)) whole (
          write_loop-Sent (buffer_length pl) fits o sink ok pl.n (new_gen pl 1) true w 0
            (new_gen-IsGen pl v) (omega arith) (omega arith) (omega arith))
