-- ===== src/Server/Admission/Progress.antt =====
-- The steps of a handler up to its reply.
use native.Mathlib.Decide.{ℕ_discrete}
use fizzbuzz.Prelude.{
  ℕ, ◌+◌, ◌-◌, ◌≤◌, ◌<◌, ◌≡◌, ◌≢◌, inl, inr, refl, sym, ap, Bool-cases, List, [], ◌∷◌, arith, ltb,
  lt→ltb, if◌then◌else◌, ◌==◌, lt_int, ◌+w◌, update_here, update_there,
}
use fizzbuzz.Config.{Config}
use fizzbuzz.Server.{
  StatsStore, Stage, finished, started, checked, over, admitted, streaming, Shared, Checked, answer,
  send, begun, check_request, advance,
}
use fizzbuzz.Server.Admission.{Server, Event, arrives, advances, step_stage, step, run}

-- The steps that a handler has left at most.
abbrev pub steps_left : Stage → ℕ
steps_left (finished reply) = 0
steps_left (started method raw) = 4
steps_left (checked p size) = 3
steps_left (over size) = 1
steps_left (admitted p size) = 2
steps_left (streaming p size) = 1

-- The steps of connection `i`.
unfoldable pub own_steps : ℕ → List (ℕ × Event) → ℕ
own_steps i [] = 0
own_steps i ((j, arrives method raw) ∷ es) = own_steps i es
own_steps i ((j, advances) ∷ es) = (if j == i then 1 else 0) + own_steps i es

-- No request arrives there.
abbrev pub NoArrival : ℕ → List (ℕ × Event) → Type 0
NoArrival i [] = Unit
NoArrival i ((j, arrives method raw) ∷ es) = (j ≢ i) × NoArrival i es
NoArrival i ((j, advances) ∷ es) = NoArrival i es

module _ {S : Type 0} (store : StatsStore S) (cfg : Config) where
  advance-steps_left :
      (st : Stage) (s : Shared S) → steps_left (advance store cfg st s).0 ≤ steps_left st - 1
  unfolding advance
  advance-steps_left (finished reply) s = omega arith
  advance-steps_left (started method raw) s = go (check_request cfg method raw)
    where
      go : (x : Checked) → steps_left (begun x) ≤ 3
      go (answer reply) = omega arith
      go (send p size) = omega arith
  advance-steps_left (checked p size) s =
      elim (Bool-cases (lt_int cfg.max_inflight_bytes (s.inflight +w size))) [
        | inl full ↦ rw full (omega arith)
        | inr fits ↦ rw fits (omega arith)
      ]
  advance-steps_left (over size) s = omega arith
  advance-steps_left (admitted p size) s = omega arith
  advance-steps_left (streaming p size) s = omega arith

  pub step_here :
      (n : ℕ) (v : Server S) (i : ℕ) (e : Event)
      → i < n
      → ((step store cfg n v (i, e)).stages i ≡ (step_stage store cfg (v.stages i) v.shared e).0)
        × ((step store cfg n v (i, e)).shared ≡ (step_stage store cfg (v.stages i) v.shared e).1)
  unfolding step
  step_here n v i e lt =
      rw (lt→ltb i n lt)
        (update_here v.stages i (step_stage store cfg (v.stages i) v.shared e).0, refl)

  pub step_there :
      (n : ℕ) (v : Server S) (i j : ℕ) (e : Event)
      → j ≢ i
      → (step store cfg n v (i, e)).stages j ≡ v.stages j
  unfolding step
  step_there n v i j e ne = elim (Bool-cases (ltb i n)) [
    | inl inside ↦
        rw inside (update_there v.stages i (step_stage store cfg (v.stages i) v.shared e).0 j ne)
    | inr outside ↦ rw outside refl
  ]

  -- Whatever the other handlers do, each step of a handler brings it nearer to its end: after four
  -- steps of its own it has replied, if no further request arrives on its connection.
  pub run-steps_left :
      (n : ℕ) (v : Server S) (i : ℕ) (es : List (ℕ × Event))
      → i < n
      → NoArrival i es
      → steps_left ((run store cfg n v es).stages i) ≤ steps_left (v.stages i) - own_steps i es
  unfolding run own_steps step_stage
  run-steps_left n v i [] lt quiet = omega arith
  run-steps_left n v i ((j, arrives method raw) ∷ es) lt (other, quiet) = omega (
    arith,
    run-steps_left n v i es lt quiet,
    ap steps_left
        (step_there n (run store cfg n v es) j i (arrives method raw) (λ e. other (sym e))),
  )
  run-steps_left n v i ((j, advances) ∷ es) lt quiet =
      let before = run store cfg n v es in
      let rest = run-steps_left n v i es lt quiet in
      elim (ℕ_discrete i j) [
        | yes here ↦
            let same : steps_left ((step store cfg n before (j, advances)).stages i)
                ≡ steps_left ((step store cfg n before (i, advances)).stages i) =
              ap (λ x. steps_left ((step store cfg n before (x, advances)).stages i)) (sym here) in
            let own : Path ℕ (if j == i then 1 else 0) 1 = ground (arith, here) in
            omega (
              arith,
              same,
              own,
              rest,
              ap steps_left (step_here n before i advances lt).0,
              advance-steps_left (before.stages i) before.shared,
            )
        | no other ↦
            let own : Path ℕ (if j == i then 1 else 0) 0 = ground (arith, other) in
            omega (arith, own, rest, ap steps_left (step_there n before j i advances other))
      ]
