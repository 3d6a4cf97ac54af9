-- ===== src/Sequence/Write/Periodic.antt =====
-- `writePeriodic`, for every writer.
use mathlib.Core.Path.{subst}
use fizzbuzz.Prelude.{
  ℕ, zero, suc, ◌+◌, ◌-◌, ◌*◌, ◌/◌, ◌%◌, ◌≤◌, ◌<◌, ◌≡◌, refl, sym, ap, ◌∙◌, Bool, true, false,
  if◌then◌else◌, [], ◌∷◌, ◌++◌, append-nil, append_assoc, Bytes, arith, ne→==, length, take, two_64,
  take-length-append,
}
use fizzbuzz.GoLib.Writer.{Writer, IsWriter, Sent, Sent-write, Sent-step}
use fizzbuzz.Sequence.Size.{Plan, range_bytes}
use fizzbuzz.Sequence.Elements.{HasComma}
use fizzbuzz.Sequence.Write.{
  copy_into, zeros, write_counted, Emitter, emit, emit_chunks, repeat_period, close, emit_all,
}
use fizzbuzz.Sequence.Write.Chunks.{
  copies, copies-add, length-copies, length-zeros, overlay-eq, repeat_period-copies, copies_some,
}
use fizzbuzz.Sequence.Write.Emit.{emit-Sent, emit_chunks-Chunked}
use fizzbuzz.Sequence.Write.Stream.{opened, opened-append}

take_prefix : (m : ℕ) (xs x y : Bytes) → xs ≡ x ++ y → m ≡ length x → take m xs ≡ x
take_prefix m xs x y e h = rw (e, h) (take-length-append x y)

-- Fewer periods than the chunk holds are its first bytes.
copies_prefix :
    (r k : ℕ) (b rest : Bytes) → r ≤ k → take (r * length b) (copies k b ++ rest) ≡ copies r b
copies_prefix r k b rest h =
    let e : k ≡ r + (k - r) = omega arith in
    take_prefix (r * length b) (copies k b ++ rest) (copies r b) (copies (k - r) b ++ rest)
      (ap (λ (t : ℕ). copies t b ++ rest) e
        ∙ ap (λ (t : Bytes). t ++ rest) (copies-add r (k - r) b)
        ∙ append_assoc (copies r b) (copies (k - r) b) rest)
      (sym (length-copies r b))

copies_comma : (k : ℕ) (b rest : Bytes) → 0 < k → HasComma b → HasComma (copies k b ++ rest)
unfolding copies
copies_comma zero b rest h comma = elim h [ ]
copies_comma (suc k) b rest h (t, e) = ((t ++ copies k b) ++ rest, rw e refl)

-- The array after the first chunks.
chunk_bytes :
    (first : Bool) (c q : ℕ) (b part : Bytes)
    → first ≡ true
    → c ≤ q
    → 0 < c
    → 0 < length b
    → opened true (copies q b ++ part) ++ b']' ∷ []
      ≡ opened first (copies c b) ++ (copies (q - c) b ++ (part ++ b']' ∷ []))
chunk_bytes first c q b part is_first h c_pos b_some =
    let e : q ≡ c + (q - c) = omega arith in
    ap (λ (n : ℕ). opened true (copies n b ++ part) ++ b']' ∷ []) e
    ∙ rw
        (
          is_first,
          copies-add c (q - c) b,
          append_assoc (copies c b) (copies (q - c) b) part,
          opened-append true (copies c b) (copies (q - c) b ++ part) (copies_some c b c_pos b_some),
        )
        (simp append_assoc)

module _ {W : Type 0} (o : Writer W) (sink : W → Bytes) (ok : IsWriter o sink) where
  -- A call of `emit` that is not the first.
  emit_next :
      (m : ℕ) (e : Emitter W) (b : Bytes)
      → HasComma e.chunk
      → take m e.chunk ≡ b
      → e.sent.n < two_64
      → e.first ≡ false
      → Sent sink e.sent.w e.sent.n (emit o m e).sent b
        × ((emit o m e).chunk ≡ e.chunk)
        × ((emit o m e).first ≡ false)
        × ((emit o m e).sent.n < two_64)
  emit_next m e b comma taken small later =
      let (sent, same, first, small') = emit-Sent o sink ok m e b comma taken small in
      (
        subst (λ (x : Bool). Sent sink e.sent.w e.sent.n (emit o m e).sent (opened x b)) later sent,
        same,
        first ∙ rw later (ground arith),
        small',
      )

  module _ (b part more rest : Bytes) (k : ℕ) (k_pos : 0 < k) (comma : HasComma b)
      (parts : b ≡ part ++ more) where
    -- The part of a period is the beginning of the chunk.
    part_prefix : take (length part) (copies k b ++ rest) ≡ part
    part_prefix =
        let one : copies 1 b ≡ b = unfold copies in append-nil b in
        let e : k ≡ 1 + (k - 1) = omega arith in
        take_prefix (length part) (copies k b ++ rest) part (more ++ (copies (k - 1) b ++ rest))
          (ap (λ (t : ℕ). copies t b ++ rest) e
            ∙ ap (λ (t : Bytes). t ++ rest) (copies-add 1 (k - 1) b)
            ∙ rw (one, parts) (simp append_assoc))
          refl

    -- The calls after the loop: `r` more periods, the part, and the bracket.
    tail-Sent :
        (e : Emitter W) (r m n : ℕ)
        → r ≡ n
        → r ≤ k
        → m ≡ length part
        → e.chunk ≡ copies k b ++ rest
        → e.first ≡ false
        → e.sent.n < two_64
        → Sent sink e.sent.w e.sent.n
            (if (emit o (r * length b) e).sent.failed
              then (emit o (r * length b) e).sent
              else (if (emit o m (emit o (r * length b) e)).sent.failed
                  then (emit o m (emit o (r * length b) e)).sent
                  else close o (emit o m (emit o (r * length b) e))))
            (copies n b ++ (part ++ b']' ∷ []))
    unfolding close write_counted
    tail-Sent e r m n same_count le size chunk later small =
        let has : HasComma e.chunk =
          subst HasComma (sym chunk) (copies_comma k b rest k_pos comma) in
        let taken =
          ap (take (r * length b)) chunk
          ∙ copies_prefix r k b rest le
          ∙ ap (λ (q : ℕ). copies q b) same_count in
        let (s2, same2, later2, small2) =
          emit_next (r * length b) e (copies n b) has taken small later in
        let e2 = emit o (r * length b) e in
        let chunk2 : e2.chunk ≡ copies k b ++ rest = same2 ∙ chunk in
        let (s3, same3, later3, small3) =
          emit_next m e2 part (subst HasComma (sym same2) has)
            (ap (λ (n : ℕ). take n e2.chunk) size ∙ ap (take (length part)) chunk2 ∙ part_prefix)
            small2 later2 in
        Sent-step sink _ (part ++ b']' ∷ []) s2
          (λ g2. Sent-step sink _ (b']' ∷ []) s3 (λ g3. Sent-write sink o ok _ _ (b']' ∷ [])))

    -- The calls of `emit` for a chunk of `k` periods.
    pub emit_all-Sent :
        (pl : Plan) (p : ℕ) (e : Emitter W)
        → range_bytes pl 1 (pl.n % p) ≡ length part
        → k ≤ pl.n / p
        → e.chunk ≡ copies k b ++ rest
        → e.first ≡ true
        → e.sent.n < two_64
        → Sent sink e.sent.w e.sent.n
            (emit_all o pl p (length b) k e)
            (opened true (copies (pl.n / p) b ++ part) ++ b']' ∷ [])
    unfolding emit_all
    emit_all-Sent pl p e size le chunk first small =
        let q = pl.n / p in
        let has : HasComma e.chunk =
          subst HasComma (sym chunk) (copies_comma k b rest k_pos comma) in
        let some_bytes : 0 < length b = rw (ap length comma.1) (omega arith) in
        let taken = ap (take (k * length b)) chunk ∙ copies_prefix k k b rest (omega arith) in
        let t =
          emit_chunks-Chunked o sink ok b k k_pos some_bytes q q e (omega arith) has taken small in
        let r = emit_chunks o q k (k * length b) q e in
        let some_rounds : 0 < t.c = t.moves le in
        let e' : q ≡ t.c + (q - t.c) = omega (arith, t.at_most) in
        let bytes = chunk_bytes e.first t.c q b part first t.at_most some_rounds some_bytes in
        let later : r.0.first ≡ false = t.first ∙ rw (ne→== t.c 0 (omega arith)) refl in
        subst (Sent sink e.sent.w e.sent.n (emit_all o pl p (length b) k e)) (sym bytes) (
          Sent-step sink _ (copies (q - t.c) b ++ (part ++ b']' ∷ [])) t.sent (λ good.
            let left = t.left good in
            let count : r.1 ≡ q - t.c = omega arith in
            tail-Sent r.0 r.1 (range_bytes pl 1 (pl.n % p)) (q - t.c) count (omega arith) size
              (t.chunk ∙ chunk) later t.small))

-- The chunk before the first call of `emit`: the period, copied over the whole of it.
module _ (b : Bytes) (k cap : ℕ) (k_pos : 0 < k) (room : k * length b ≤ cap) where
  pub chunk-copies :
      (rest : Bytes) × (repeat_period (k - 1) 1 (length b) (copy_into (zeros cap) 0 b)
        ≡ copies k b ++ rest)
  chunk-copies =
      let whole : (k - 1) * length b + length b ≡ k * length b =
        omega (arith, ap (λ (t : ℕ). t * length b) (let e : k - 1 + 1 ≡ k = omega arith in e)) in
      let (rest, over, left) = overlay-eq (zeros cap) b (omega (arith, length-zeros cap)) in
      let once : copies 1 b ≡ b = unfold copies in append-nil b in
      let start : copy_into (zeros cap) 0 b ≡ copies 1 b ++ rest =
        unfold copy_into in (over ∙ ap (λ (t : Bytes). t ++ rest) (sym once)) in
      let (rest', all) =
        repeat_period-copies (k - 1) 0 b rest _ start (omega (arith, length-zeros cap)) in
      let e : 1 + (k - 1) ≡ k = omega arith in (rest', all ∙ ap (λ (q : ℕ). copies q b ++ rest') e)
