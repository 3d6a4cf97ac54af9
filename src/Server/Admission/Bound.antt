-- ===== src/Server/Admission/Bound.antt =====
-- The budget over all connections.
use mathlib.Core.Path.{subst}
use native.Mathlib.Decide.{ℕ_discrete}
use native.Mathlib.Nat.{suc-mul}
use fizzbuzz.Prelude.{
  ℕ, suc, ◌+◌, ◌*◌, ◌≤◌, ◌<◌, ◌≡◌, inl, inr, refl, sym, ap, Bool-cases, List, [], ◌∷◌, arith, ltb,
  ltb→lt, two_63, update, update_here, update_there, sum_range, sum_range_change, sum_range_mono,
  sum_range_term, sum_range_le, sum_range_none,
}
use fizzbuzz.Config.{Config}
use fizzbuzz.Server.{StatsStore, Stage, finished, Reply, Shared}
use fizzbuzz.Server.Admission.{Server, Event, step_stage, step, run, idle_server}
use fizzbuzz.Server.Admission.Budget.{
  held, taken, taken-le, Sized, held-le, Fitting, IsServed, Kept, step_stage-Kept,
}

abbrev pub total : (Stage → ℕ) → ℕ → (ℕ → Stage) → ℕ
total f n stages = sum_range (λ i. f (stages i)) 0 n

total-change :
    (f : Stage → ℕ) (n i : ℕ) (stages : ℕ → Stage) (st : Stage)
    → i < n
    → total f n (update stages i st) + f (stages i) ≡ total f n stages + f st
total-change f n i stages st lt =
    let moved =
      sum_range_change (λ j. f (update stages i st j)) (λ j. f (stages j)) i 0 n (omega arith)
        (omega arith) (λ j ne. ap f (update_there stages i st j ne)) in
    omega (arith, moved, ap f (update_here stages i st))

abbrev pub AllFitting : List (ℕ × Event) → Type 0
AllFitting [] = Unit
AllFitting ((i, e) ∷ es) = Fitting e × AllFitting es

module _ {S : Type 0} (store : StatsStore S) (cfg : Config) (ok : IsServed cfg) (n : ℕ)
    (room : suc n * cfg.limits.max_response_bytes < two_63) where
  record Inv (v : Server S) : Type 0 where
    sized : (i : ℕ) → Sized cfg.limits.max_response_bytes (v.stages i)
    exact : v.shared.inflight ≡ total held n v.stages
    within : total taken n v.stages ≤ cfg.max_inflight_bytes

  module _ (v : Server S) (t : Inv v) (i : ℕ) (e : Event) (lt : i < n) (fit : Fitting e) where
    abbrev next : Stage × Shared S
    next = step_stage store cfg (v.stages i) v.shared e

    kept : Kept store cfg ok (v.stages i) v.shared next
    kept =
        let all =
          sum_range_le (λ j. held (v.stages j)) cfg.limits.max_response_bytes 0 n
            (λ j. held-le cfg.limits.max_response_bytes (v.stages j) (t.sized j)) in
        let one = sum_range_term (λ j. held (v.stages j)) i 0 n (omega arith) (omega arith) in
        step_stage-Kept store cfg ok v.shared
          (omega (arith, t.exact, suc-mul n cfg.limits.max_response_bytes, room)) (v.stages i) e fit
          (t.sized i) (omega (arith, t.exact))

    kept-Inv : Inv (record { shared = next.1; stages = update v.stages i next.0 })
    kept-Inv =
        let held_sum = total-change held n i v.stages next.0 lt in
        let taken_sum = total-change taken n i v.stages next.0 lt in
        let exact : next.1.inflight ≡ total held n (update v.stages i next.0) =
          omega (arith, kept.balance, t.exact) in
        let below : total taken n (update v.stages i next.0)
            ≤ total held n (update v.stages i next.0) =
          sum_range_mono _ _ 0 n (λ j p q. taken-le (update v.stages i next.0 j)) in
        record {
          sized = λ j. elim (ℕ_discrete j i) [
            | yes here ↦
                subst (λ x. Sized cfg.limits.max_response_bytes (update v.stages i next.0 x))
                  (sym here)
                  (subst (Sized cfg.limits.max_response_bytes) (sym (update_here v.stages i next.0))
                    kept.sized)
            | no other ↦
                subst (Sized cfg.limits.max_response_bytes)
                  (sym (update_there v.stages i next.0 j other)) (t.sized j)
          ];
          exact = exact;
          within = elim kept.within [ inl same ↦ omega (arith, t.within) | inr fits ↦ omega arith ];
        }

  step-Inv : (v : Server S) (e : ℕ × Event) → Fitting e.1 → Inv v → Inv (step store cfg n v e)
  unfolding step
  step-Inv v (i, e) fit t = elim (Bool-cases (ltb i n)) [
    | inl inside ↦ rw inside (kept-Inv v t i e (ltb→lt i n inside) fit)
    | inr outside ↦ rw outside t
  ]

  run-Inv :
      (v : Server S) (es : List (ℕ × Event)) → AllFitting es → Inv v → Inv (run store cfg n v es)
  unfolding run
  run-Inv v [] fit t = t
  run-Inv v (e ∷ es) (fit, fits) t = step-Inv (run store cfg n v es) e fit (run-Inv v es fits t)

  idle_server-Inv : (s : S) (replies : ℕ → Reply) → Inv (idle_server s (λ i. finished (replies i)))
  unfolding idle_server
  idle_server-Inv s replies = record {
    sized = λ i. tt;
    exact = sym (sum_range_none (λ i. 0) 0 n (λ i. refl));
    within = omega (arith, sum_range_none (λ i. 0) 0 n (λ i. refl));
  }

-- For a configuration whose numbers are not negative, documents within 63 bits, queries that fit in
-- memory, and `n` connections whose largest responses, and one more, fit 63 bits: after any steps of
-- the handlers in any order, the bytes in flight are what the handlers hold, and the responses that
-- are let in have at most MaxInflightBytes bytes together.
pub run-budget :
    {S : Type 0}
    → (store : StatsStore S) (cfg : Config) → IsServed cfg
    → (n : ℕ) → suc n * cfg.limits.max_response_bytes < two_63
    → (s : S) (replies : ℕ → Reply) (es : List (ℕ × Event)) → AllFitting es
    → let v = run store cfg n (idle_server s (λ i. finished (replies i))) es in
      (v.shared.inflight ≡ total held n v.stages)
      × (total taken n v.stages ≤ cfg.max_inflight_bytes)
run-budget store cfg ok n room s replies es fits =
    let t =
      run-Inv store cfg ok n room (idle_server s (λ i. finished (replies i))) es fits
        (idle_server-Inv store cfg ok n room s replies) in
    (t.exact, t.within)
