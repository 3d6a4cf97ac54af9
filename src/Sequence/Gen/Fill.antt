-- ===== src/Sequence/Gen/Fill.antt =====
-- `fill`: it emits the next and ends behind the last one or when the buffer is full.
use native.Mathlib.Nat.{pos_of_ne-zero}
use fizzbuzz.Prelude.{
  ℕ, zero, suc, ◌+◌, ◌-◌, ◌^◌, ◌≤◌, ◌<◌, min, ◌≡◌, ◌⊎◌, inl, inr, ap, [], arith, true, false, ◌&&◌,
  ◌||◌, ltb, leb, Bool-cases, length,
}
use fizzbuzz.Sequence.Size.{Plan}
use fizzbuzz.Sequence.Elements.{IsPlan}
use fizzbuzz.Sequence.Gen.{Gen, Filling, max_elem, put_event, plain_run, fill_loop, fill}
use fizzbuzz.Sequence.Gen.Step.{IsGen}
use fizzbuzz.Sequence.Gen.Run.{
  Emits, Emits-nothing, Emits-idle, Emits-trans, put_event-Emits, plain_run-Emits,
}

not_passed : (a b c d : ℕ) → (ltb a b || ltb c d) ≡ false → (b ≤ a) × (d ≤ c)
not_passed a b c d h = ground arith

passed : (a b c d : ℕ) → (ltb a b || ltb c d) ≡ true → (a < b) ⊎ (c < d)
passed a b c d h = ground arith

not_inside : (a b c d : ℕ) → (leb a b && leb c d) ≡ false → (b < a) ⊎ (d < c)
not_inside a b c d h = ground arith

-- The outcome of `fill`: `j` elements, up to the last one or until the buffer is full, and at
-- least one if there is one and there is room.
pub record Filled (pl : Plan) (stop hi : ℕ) (s s' : Filling) : Type 0 where
  pub j : ℕ
  pub emits : Emits pl stop s s' j
  pub within : s.gen.i + j ≤ hi + 1
  pub ends : (s.gen.i + j ≡ hi + 1) ⊎ (stop < length s'.out)
  pub moves : s.gen.i ≤ hi → length s.out ≤ stop → 0 < j

module _ (pl : Plan) (v : IsPlan pl) (small : pl.n < 2 ^ 62) where
  module _ (stop cap hi : ℕ) (space : stop + max_elem pl ≤ cap) (fits : hi ≤ pl.n) where
    Filled-at_end :
        (s : Filling)
        → IsGen pl s.gen
        → length s.out ≤ stop + max_elem pl
        → s.gen.i ≤ hi + 1
        → (hi < s.gen.i) ⊎ (stop < length s.out)
        → Filled pl stop hi s s
    Filled-at_end s r room h done = record {
      j = 0;
      emits = Emits-nothing pl stop s r room;
      within = omega arith;
      ends = ground arith;
      moves = λ p q. absurd (omega arith);
    }

    -- One round and the rest.
    Filled-round :
        (s s' s'' : Filling) (j : ℕ)
        → s.gen.i + j ≤ hi
        → Emits pl stop s s' j
        → Emits pl stop s' (put_event pl cap s') 1
        → Filled pl stop hi (put_event pl cap s') s''
        → Filled pl stop hi s s''
    Filled-round s s' s'' j h run one rest =
        let a1 = run.advanced in
        let a2 = one.advanced in
        record {
          j = j + (1 + rest.j);
          emits = Emits-trans j (1 + rest.j) run (Emits-trans 1 rest.j one rest.emits);
          within = omega (arith, rest.within);
          ends = elim rest.ends [ inl e ↦ inl (omega arith) | inr f ↦ inr f ];
          moves = λ p q. omega arith;
        }

    -- The run of plain numbers ended the whole.
    Filled-run :
        (s s' : Filling) (j n : ℕ)
        → s.gen.i + n ≤ hi + 1
        → j ≤ n
        → Emits pl stop s s' j
        → (hi < s'.gen.i) ⊎ (stop < length s'.out)
        → Filled pl stop hi s s'
    Filled-run s s' j n h le run done =
        let a = run.advanced in
        record {
          j = j;
          emits = run;
          within = omega arith;
          ends = ground arith;
          moves = λ p q. pos_of_ne-zero λ e. elim done [
            | inl past ↦ absurd (omega arith)
            | inr full ↦ absurd (omega (arith, ap length (Emits-idle j run e)))
          ];
        }

    fill_loop-Filled :
        (fuel : ℕ) (s : Filling)
        → IsGen pl s.gen
        → length s.out ≤ stop + max_elem pl
        → s.gen.i ≤ hi + 1
        → hi + 1 ≤ s.gen.i + fuel
        → Filled pl stop hi s (fill_loop fuel pl cap stop hi s)
    unfolding fill_loop
    fill_loop-Filled zero s r room h enough = Filled-at_end s r room h (inl (omega arith))
    fill_loop-Filled (suc fuel) s r room h enough =
        let n = min (min s.gen.next1 s.gen.next2) (hi + 1) - s.gen.i in
        let s' = plain_run n cap stop s in
        let first1 = r.is_next1.reached in
        let first2 = r.is_next2.reached in
        let (j, le, run, e1, e2, ends) =
          plain_run-Emits pl v stop cap space n s r room (omega arith) (omega arith)
            (omega arith) in
        let a = run.advanced in
        elim (Bool-cases (leb s.gen.i hi && leb (length s.out) stop)) [
          | inl go ↦ elim (Bool-cases (ltb hi s'.gen.i || ltb stop (length s'.out))) [
            | inl stopped ↦
                rw (go, stopped) (Filled-run s s' j n (omega arith) le run (passed _ _ _ _ stopped))
            | inr event ↦
                let (inside, fitting) = not_passed hi s'.gen.i stop (length s'.out) event in
                let all : j ≡ n = elim ends [ inl e ↦ e | inr f ↦ absurd (omega arith) ] in
                let at : (s'.gen.i ≡ s'.gen.next1) ⊎ (s'.gen.i ≡ s'.gen.next2) = grind arith in
                let one =
                  put_event-Emits pl v stop cap space s' run.valid fitting (omega arith) at in
                let a' = one.advanced in
                rw (go, event)
                  (Filled-round s s' (fill_loop fuel pl cap stop hi (put_event pl cap s')) j
                    (omega arith) run one
                    (fill_loop-Filled fuel (put_event pl cap s') one.valid one.room (omega arith)
                      (omega arith)))
          ]
          | inr done ↦ rw done (Filled-at_end s r room h (not_inside _ _ _ _ done))
        ]

    -- For a valid plan with fewer than 2 ^ 62 elements, a buffer with room for one more element behind
    -- `stop`, and a valid generator: `fill` writes the next elements of the sequence, one behind the
    -- other, leaves a valid generator behind them, and ends behind element `hi` or when more than
    -- `stop` bytes are written, never before the first element if there is one.
    pub fill-Filled :
        (g : Gen)
        → IsGen pl g
        → g.i ≤ hi + 1
        → Filled pl stop hi (record { gen = g; out = [] }) (fill pl cap stop hi g)
    unfolding fill
    fill-Filled g r h =
        fill_loop-Filled (hi + 1 - g.i) (record { gen = g; out = [] }) r (omega arith) h
          (omega arith)
