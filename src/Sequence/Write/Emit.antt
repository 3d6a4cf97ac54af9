-- ===== src/Sequence/Write/Emit.antt =====
-- The closure `emit` of `writePeriodic`, and its loop over the chunks.
use mathlib.Core.Path.{subst}
use fizzbuzz.Prelude.{
  ℕ, zero, suc, ◌+◌, ◌-◌, ◌*◌, ◌≤◌, ◌<◌, ◌≡◌, inl, inr, refl, sym, ◌∙◌, Bool, true, false, [], ◌∷◌,
  ◌++◌, Bytes, arith, leb, leb→le, leb→gt, ne→==, ◌==◌, if◌then◌else◌, Bool-cases, length, take,
  two_64,
}
use fizzbuzz.GoLib.Writer.{Writer, IsWriter, Sent, Sent-nothing, Sent-write, Sent-trans}
use fizzbuzz.Sequence.Elements.{HasComma}
use fizzbuzz.Sequence.Write.{set_head, write_counted, Emitter, emit, emit_chunks}
use fizzbuzz.Sequence.Write.Chunks.{copies, copies-add, copies_some}
use fizzbuzz.Sequence.Write.Stream.{opened, opened-append}

-- The comma that `emit` puts back was there.
set_head_back : (chunk : Bytes) → HasComma chunk → set_head b',' chunk ≡ chunk
unfolding set_head
set_head_back chunk (t, e) = rw e

restored :
    (first : Bool) (chunk : Bytes)
    → HasComma chunk
    → (if first then set_head b',' chunk else chunk) ≡ chunk
restored true chunk h = set_head_back chunk h
restored false chunk h = refl

opened-nil : (first : Bool) → opened first [] ≡ []
unfolding set_head
opened-nil true = refl
opened-nil false = refl

module _ {W : Type 0} (o : Writer W) (sink : W → Bytes) (ok : IsWriter o sink) where
  -- One call of `emit` for the first bytes `b` of the chunk.
  pub emit-Sent :
      (m : ℕ) (e : Emitter W) (b : Bytes)
      → HasComma e.chunk
      → take m e.chunk ≡ b
      → e.sent.n < two_64
      → Sent sink e.sent.w e.sent.n (emit o m e).sent (opened e.first b)
        × ((emit o m e).chunk ≡ e.chunk)
        × ((emit o m e).first ≡ (if length b == 0 then e.first else false))
        × ((emit o m e).sent.n < two_64)
  unfolding emit
  emit-Sent m e [] comma taken small =
      let nothing =
        Sent-nothing sink (record { w = e.sent.w; n = e.sent.n; failed = false }) small in
      rw taken (
        subst (Sent sink e.sent.w e.sent.n (record { w = e.sent.w; n = e.sent.n; failed = false }))
            (sym (opened-nil e.first)) nothing,
        refl,
        refl,
        small,
      )
  emit-Sent m e (c ∷ b) comma taken small =
      let some_bytes : (length (c ∷ b) == 0) ≡ false = ne→== _ _ (omega arith) in
      rw (taken, some_bytes)
        (
          unfold write_counted in Sent-write sink o ok e.sent.w e.sent.n (opened e.first (c ∷ b)),
          restored e.first e.chunk comma,
          refl,
          unfold write_counted in omega arith,
        )

  module _ (b : Bytes) (k : ℕ) (k_pos : 0 < k) (b_some : 0 < length b) where
    -- What the loop over the chunks has done: `c` periods are written, all but fewer than `k` unless
    -- there was an error.
    pub record Chunked (q : ℕ) (e : Emitter W) (r : Emitter W × ℕ) : Type 0 where
      pub c : ℕ
      pub at_most : c ≤ q
      pub sent : Sent sink e.sent.w e.sent.n r.0.sent (opened e.first (copies c b))
      pub chunk : r.0.chunk ≡ e.chunk
      pub first : r.0.first ≡ (if c == 0 then e.first else false)
      pub small : r.0.sent.n < two_64
      pub left : r.0.sent.failed ≡ false → (c + r.1 ≡ q) × (r.1 < k)
      pub moves : k ≤ q → 0 < c

    Chunked-end : (q : ℕ) (e : Emitter W) → q < k → e.sent.n < two_64 → Chunked q e (e, q)
    Chunked-end q e h small =
        let none_open : opened e.first (copies 0 b) ≡ [] = unfold copies in opened-nil e.first in
        record {
          c = 0;
          at_most = omega arith;
          sent =
              subst (Sent sink e.sent.w e.sent.n e.sent) (sym none_open)
                (Sent-nothing sink e.sent small);
          chunk = refl;
          first = refl;
          small = small;
          left = λ g. (omega arith, h);
          moves = λ m. absurd (omega arith);
        }

    -- One chunk and the rest.
    Chunked-round :
        (q : ℕ) (e e' : Emitter W) (r : Emitter W × ℕ)
        → k ≤ q
        → e'.sent.failed ≡ false
        → Sent sink e.sent.w e.sent.n e'.sent (opened e.first (copies k b))
        → e'.chunk ≡ e.chunk
        → e'.first ≡ false
        → Chunked (q - k) e' r
        → Chunked q e r
    Chunked-round q e e' r h good sent same first t =
        let bytes : opened e.first (copies (k + t.c) b)
            ≡ opened e.first (copies k b) ++ opened e'.first (copies t.c b) =
          rw (copies-add k t.c b, opened-append e.first _ _ (copies_some k b k_pos b_some), first)
            refl in
        let some_rounds : (k + t.c == 0) ≡ false = ne→== _ _ (omega arith) in
        record {
          c = k + t.c;
          at_most = omega (arith, t.at_most);
          sent =
              subst (Sent sink e.sent.w e.sent.n r.0.sent) (sym bytes)
                (Sent-trans sink good sent t.sent);
          chunk = t.chunk ∙ same;
          first = t.first ∙ ground (arith, first, some_rounds);
          small = t.small;
          left = λ g. (omega (arith, t.left g), (t.left g).1);
          moves = λ m. omega arith;
        }

    -- The loop stops at an error, or goes on.
    Chunked-step :
        (q : ℕ) (e e' : Emitter W) (r : Emitter W × ℕ)
        → k ≤ q
        → Sent sink e.sent.w e.sent.n e'.sent (opened e.first (copies k b))
        → e'.chunk ≡ e.chunk
        → e'.first ≡ false
        → e'.sent.n < two_64
        → Chunked (q - k) e' r
        → Chunked q e (if e'.sent.failed then (e', q) else r)
    Chunked-step q e e' r h sent same first small t = go e'.sent.failed refl
      where
        some_rounds : (k == 0) ≡ false
        some_rounds = ne→== _ _ (omega arith)

        go : (x : Bool) → e'.sent.failed ≡ x → Chunked q e (if x then (e', q) else r)
        go true bad = record {
          c = k;
          at_most = h;
          sent = sent;
          chunk = same;
          first = first ∙ rw some_rounds refl;
          small = small;
          left = λ g. absurd (ground arith);
          moves = λ m. k_pos;
        }
        go false good = Chunked-round q e e' r h good sent same first t

    pub emit_chunks-Chunked :
        (fuel q : ℕ) (e : Emitter W)
        → q ≤ fuel
        → HasComma e.chunk
        → take (k * length b) e.chunk ≡ copies k b
        → e.sent.n < two_64
        → Chunked q e (emit_chunks o fuel k (k * length b) q e)
    unfolding emit_chunks
    emit_chunks-Chunked zero q e h comma taken small = Chunked-end q e (omega arith) small
    emit_chunks-Chunked (suc fuel) q e h comma taken small =
        let e' = emit o (k * length b) e in
        let (sent, same, first, small') =
          emit-Sent (k * length b) e (copies k b) comma taken small in
        let full : (length (copies k b) == 0) ≡ false =
          ne→== _ _ (omega (arith, copies_some k b k_pos b_some)) in
        let first' : e'.first ≡ false = first ∙ rw full refl in
        elim (Bool-cases (leb k q)) [
          | inl more ↦ rw more (
              Chunked-step q e e' (emit_chunks o fuel k (k * length b) (q - k) e') (leb→le _ _ more)
                sent same first' small'
                (emit_chunks-Chunked fuel (q - k) e' (omega arith) (rw same comma) (rw same taken)
                  small'))
          | inr done ↦ rw done (Chunked-end q e (leb→gt _ _ done) small)
        ]
