-- ===== src/Server/Admission.antt =====
-- server.go: handlers of several connections that share the budget, in any order of their steps.
pub mod Budget
pub mod Bound
pub mod Progress
pub mod Replied
pub mod Served
pub mod Recorded
pub mod Reported
use fizzbuzz.Prelude.{ℕ, zero, suc, List, [], ◌∷◌, Bytes, ltb, if◌then◌else◌, update}
use fizzbuzz.Config.{Config}
use fizzbuzz.Server.{
  Method, Stage, finished, started, checked, over, admitted, streaming, Shared, StatsStore, advance,
}

pub record Server (S : Type 0) : Type 0 where
  pub shared : Shared S
  pub stages : ℕ → Stage

-- A request arrives on a connection whose handler has finished, or a handler takes its next step.
pub data Event : Type 0 where
  arrives : Method → Bytes → Event
  advances : Event

abbrev pub arrived : Stage → Method → Bytes → Stage
arrived (finished reply) method raw = started method raw
arrived (started m r) method raw = started m r
arrived (checked p size) method raw = checked p size
arrived (over size) method raw = over size
arrived (admitted p size) method raw = admitted p size
arrived (streaming p size) method raw = streaming p size

module _ {S : Type 0} (store : StatsStore S) (cfg : Config) where
  unfoldable pub step_stage : Stage → Shared S → Event → Stage × Shared S
  step_stage st s (arrives method raw) = (arrived st method raw, s)
  step_stage st s advances = advance store cfg st s

  -- An event at a connection below `n`; there is no other.
  unfoldable pub step : ℕ → Server S → ℕ × Event → Server S
  unfolding step_stage
  step n v (i, e) =
      let (st, s) = step_stage (v.stages i) v.shared e in
      if ltb i n then record { shared = s; stages = update v.stages i st } else v

  -- The events, the latest one first.
  unfoldable pub run : ℕ → Server S → List (ℕ × Event) → Server S
  unfolding step
  run n v [] = v
  run n v (e ∷ es) = step n (run n v es) e

-- A server that has answered all requests so far.
unfoldable pub idle_server : {S : Type 0} → S → (ℕ → Stage) → Server S
idle_server store stages = record {
  shared = record { inflight = 0; store = store; warnings = 0 };
  stages = stages;
}
