-- ===== src/Sequence/Gen/Run.antt =====
-- Steps of `fill` that copy elements: the relation between the states, and the run of plain numbers.
use fizzbuzz.Prelude.{
  ℕ, zero, suc, ◌+◌, ◌-◌, ◌^◌, ◌≤◌, ◌<◌, ◌≡◌, ◌⊎◌, inl, inr, refl, sym, ap, ◌∙◌, ◌++◌, append-nil,
  append_assoc, Bytes, arith, leb, leb→le, leb→gt, Bool-cases, length, length-append, take-all,
  two_63,
}
use fizzbuzz.GoLib.Decimal.{length-format}
use fizzbuzz.Sequence.Size.{Plan}
use fizzbuzz.Sequence.Size.Count.{length-number}
use fizzbuzz.Sequence.Elements.{IsPlan, number, element, elements, elements-add}
use fizzbuzz.Sequence.Digits.{framed}
use fizzbuzz.Sequence.Digits.Framed.{more_le}
use fizzbuzz.Sequence.Digits.Set.{band_of}
use fizzbuzz.Sequence.Gen.{Filling, max_elem, advance, event, put, put_number, put_event, plain_run}
use fizzbuzz.Sequence.Gen.Step.{IsGen, advance-IsGen, framed-element, event-element}

number_fits : (i : ℕ) → 0 < i → i < two_63 → length (number i) ≤ 24
number_fits i pos small =
    let (m, lo, hi) = band_of (suc i) i pos (omega arith) in
    omega (arith, length-number i, length-format m i lo hi, more_le m i lo small)

element_fits : (pl : Plan) (i : ℕ) → 0 < i → i < two_63 → length (element pl i) ≤ max_elem pl
unfolding element max_elem
element_fits pl i pos small = ground (arith, number_fits i pos small)

pub put_all : (cap : ℕ) (out e : Bytes) → length out + length e ≤ cap → put cap out e ≡ out ++ e
unfolding put
put_all cap out e h = ap (λ (t : Bytes). out ++ t) (take-all (cap - length out) e (omega arith))

-- From `s` to `s'` the next `j` elements are appended, and the invariant holds at the end.
pub record Emits (pl : Plan) (stop : ℕ) (s s' : Filling) (j : ℕ) : Type 0 where
  pub advanced : s'.gen.i ≡ s.gen.i + j
  pub written : s'.out ≡ s.out ++ elements pl s.gen.i j
  pub valid : IsGen pl s'.gen
  pub room : length s'.out ≤ stop + max_elem pl

pub Emits-nothing :
    (pl : Plan) (stop : ℕ) (s : Filling)
    → IsGen pl s.gen
    → length s.out ≤ stop + max_elem pl
    → Emits pl stop s s 0
Emits-nothing pl stop s r room = record {
  advanced = omega arith;
  written = unfold elements in sym (append-nil s.out);
  valid = r;
  room = room;
}

pub Emits-idle :
    {pl : Plan} {stop : ℕ} {s s' : Filling} (j : ℕ) → Emits pl stop s s' j → j ≡ 0 → s'.out ≡ s.out
Emits-idle {pl} {stop} {s} {s'} j p e =
    p.written
    ∙ ap (λ (k : ℕ). s.out ++ elements pl s.gen.i k) e
    ∙ unfold elements in append-nil s.out

pub Emits-trans :
    {pl : Plan} {stop : ℕ} {s s' s'' : Filling} (j k : ℕ)
    → Emits pl stop s s' j
    → Emits pl stop s' s'' k
    → Emits pl stop s s'' (j + k)
Emits-trans {pl} {stop} {s} {s'} {s''} j k p q = record {
  advanced = omega (arith, p.advanced, q.advanced);
  written = q.written ∙ rw (p.written, p.advanced, elements-add pl s.gen.i j k, append_assoc) refl;
  valid = q.valid;
  room = q.room;
}

-- One more element behind those in the buffer.
one_element :
    (pl : Plan) (stop cap : ℕ) (s s' : Filling) (e : Bytes)
    → s.gen.i < 2 ^ 62
    → IsGen pl s.gen
    → length s.out ≤ stop
    → stop + max_elem pl ≤ cap
    → e ≡ element pl s.gen.i
    → s'.out ≡ put cap s.out e
    → s'.gen.i ≡ s.gen.i + 1
    → IsGen pl s'.gen
    → Emits pl stop s s' 1
one_element pl stop cap s s' e small r fits space shown copied moved valid =
    let size : length e ≤ max_elem pl = rw shown (element_fits pl s.gen.i r.i_pos (omega arith)) in
    let whole : s'.out ≡ s.out ++ e = copied ∙ put_all cap s.out e (omega arith) in
    record {
      advanced = moved;
      written =
          whole ∙ ap (λ (t : Bytes). s.out ++ t) (shown ∙ unfold elements in sym (append-nil _));
      valid = valid;
      room = rw whole (omega (arith, length-append s.out e));
    }

module _ (pl : Plan) (v : IsPlan pl) (stop cap : ℕ) (space : stop + max_elem pl ≤ cap) where
  put_number-Emits :
      (s : Filling)
      → IsGen pl s.gen
      → length s.out ≤ stop
      → s.gen.i < 2 ^ 62
      → s.gen.i < s.gen.next1
      → s.gen.i < s.gen.next2
      → Emits pl stop s (put_number cap s) 1
  unfolding put_number
  put_number-Emits s r fits small h k =
      let (moved, valid) = advance-IsGen pl v s.gen r small h k in
      one_element pl stop cap s _ (framed s.gen.c) small r fits space
        (framed-element pl v s.gen r small h k) refl moved valid

  pub put_event-Emits :
      (s : Filling)
      → IsGen pl s.gen
      → length s.out ≤ stop
      → s.gen.i < 2 ^ 62
      → (s.gen.i ≡ s.gen.next1) ⊎ (s.gen.i ≡ s.gen.next2)
      → Emits pl stop s (put_event pl cap s) 1
  unfolding put_event
  put_event-Emits s r fits small at =
      let (shown, moved, valid) = event-element pl v s.gen r small at in
      one_element pl stop cap s _ (event pl s.gen).1 small r fits space shown refl moved valid

  -- The inner loop: it ends at the next multiple, or when the buffer is full.
  pub plain_run-Emits :
      (n : ℕ) (s : Filling)
      → IsGen pl s.gen
      → length s.out ≤ stop + max_elem pl
      → s.gen.i + n ≤ s.gen.next1
      → s.gen.i + n ≤ s.gen.next2
      → s.gen.i + n ≤ 2 ^ 62
      → (j : ℕ) × (j ≤ n)
        × Emits pl stop s (plain_run n cap stop s) j
        × ((plain_run n cap stop s).gen.next1 ≡ s.gen.next1)
        × ((plain_run n cap stop s).gen.next2 ≡ s.gen.next2)
        × ((j ≡ n) ⊎ (stop < length (plain_run n cap stop s).out))
  unfolding plain_run
  plain_run-Emits zero s r room h k small =
      (0, omega arith, Emits-nothing pl stop s r room, refl, refl, inl refl)
  plain_run-Emits (suc n) s r room h k small = elim (Bool-cases (leb (length s.out) stop)) [
    | inl fits ↦
        let first =
          put_number-Emits s r (leb→le _ _ fits) (omega arith) (omega arith) (omega arith) in
        let adv = first.advanced in
        let n1 : (put_number cap s).gen.next1 ≡ s.gen.next1 = unfold put_number advance in refl in
        let n2 : (put_number cap s).gen.next2 ≡ s.gen.next2 = unfold put_number advance in refl in
        let (j, le, rest, e1, e2, ends) =
          plain_run-Emits n (put_number cap s) first.valid first.room (omega arith) (omega arith)
            (omega arith) in
        rw fits (
          1 + j,
          omega arith,
          Emits-trans 1 j first rest,
          e1 ∙ n1,
          e2 ∙ n2,
          elim ends [ inl e ↦ inl (omega arith) | inr f ↦ inr f ],
        )
    | inr full ↦
        rw full (0, omega arith, Emits-nothing pl stop s r room, refl, refl, inr (leb→gt _ _ full))
  ]
