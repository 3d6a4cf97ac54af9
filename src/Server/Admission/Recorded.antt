-- ===== src/Server/Admission/Recorded.antt =====
-- What the handlers record over the counter in memory.
use fizzbuzz.Prelude.{
  ℕ, suc, ◌≤◌, ◌≡◌, inl, inr, refl, ap, Bool-cases, List, [], ◌∷◌, arith, length, ltb,
  if◌then◌else◌,
}
use fizzbuzz.Config.{Config}
use fizzbuzz.Sequence.Params.{Params}
use fizzbuzz.Stats.{Counter, record_hit}
use fizzbuzz.Stats.Winner.{served}
use fizzbuzz.Server.{Stage, finished, started, checked, over, admitted, streaming, Shared, advance}
use fizzbuzz.Server.Statistics.{counter_store}
use fizzbuzz.Server.Admission.{Server, Event, arrives, advances, step_stage, step, run}

-- The requests with the one that a step records.
unfoldable pub recorded_by : Stage → Event → List Params → List Params
recorded_by st (arrives method raw) h = h
recorded_by (finished reply) advances h = h
recorded_by (started method raw) advances h = h
recorded_by (checked p size) advances h = h
recorded_by (over size) advances h = h
recorded_by (admitted p size) advances h = p ∷ h
recorded_by (streaming p size) advances h = h

module _ (alloc_size : ℕ → ℕ) (cfg : Config) where
  -- The requests that were recorded, the latest one first.
  unfoldable pub recorded : ℕ → Server Counter → List (ℕ × Event) → List Params
  unfolding recorded_by
  recorded n v [] = []
  recorded n v ((i, e) ∷ es) =
      let h = recorded n v es in
      let h' = recorded_by ((run (counter_store alloc_size) cfg n v es).stages i) e h in
      if ltb i n then h' else h

  module _ (c : Counter) (h : List Params) where
    -- The store of one step.
    step_stage-served :
        (st : Stage) (e : Event) (s : Shared Counter)
        → s.store ≡ served alloc_size c h
        → (step_stage (counter_store alloc_size) cfg st s e).1.store
          ≡ served alloc_size c (recorded_by st e h)
    unfolding step_stage advance recorded_by served counter_store
    step_stage-served st (arrives method raw) s same = same
    step_stage-served (finished reply) advances s same = same
    step_stage-served (started method raw) advances s same = same
    step_stage-served (checked p size) advances s same = same
    step_stage-served (over size) advances s same = same
    step_stage-served (admitted p size) advances s same =
        ap (λ x. (record_hit alloc_size x p).0) same
    step_stage-served (streaming p size) advances s same = same

  pub run-served_by :
      (n : ℕ) (v : Server Counter) (es : List (ℕ × Event))
      → (run (counter_store alloc_size) cfg n v es).shared.store
        ≡ served alloc_size v.shared.store (recorded n v es)
  unfolding run step recorded served
  run-served_by n v [] = refl
  run-served_by n v ((i, e) ∷ es) =
      let before = run (counter_store alloc_size) cfg n v es in
      elim (Bool-cases (ltb i n)) [
        | inl inside ↦ rw inside (
            step_stage-served v.shared.store (recorded n v es) (before.stages i) e before.shared
              (run-served_by n v es))
        | inr outside ↦ rw outside (run-served_by n v es)
      ]

  pub length-recorded :
      (n : ℕ) (v : Server Counter) (es : List (ℕ × Event)) → length (recorded n v es) ≤ length es
  unfolding recorded recorded_by
  length-recorded n v [] = omega arith
  length-recorded n v ((i, e) ∷ es) =
      let one = go ((run (counter_store alloc_size) cfg n v es).stages i) e (recorded n v es) in
      elim (Bool-cases (ltb i n)) [
        | inl inside ↦ rw inside (omega (arith, length-recorded n v es))
        | inr outside ↦ rw outside (omega (arith, length-recorded n v es))
      ]
    where
      go : (st : Stage) (e : Event) (h : List Params) → length (recorded_by st e h) ≤ suc (length h)
      go st (arrives method raw) h = omega arith
      go (finished reply) advances h = omega arith
      go (started method raw) advances h = omega arith
      go (checked p size) advances h = omega arith
      go (over size) advances h = omega arith
      go (admitted p size) advances h = omega arith
      go (streaming p size) advances h = omega arith
