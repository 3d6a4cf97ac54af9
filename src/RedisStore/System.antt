-- ===== src/RedisStore/System.antt =====
-- Replicas that share one Redis, in any order of their steps. A message of a replica may be lost, or
-- reach Redis late and more than once: `net` keeps every call that was ever sent.
use fizzbuzz.Prelude.{
  ℕ, zero, suc, Option, none, some, List, [], ◌∷◌, Bytes, ltb, update, if◌then◌else◌,
}
use fizzbuzz.Sequence.Params.{Params}
use fizzbuzz.Redis.{Commands}
use fizzbuzz.RedisStore.{
  RedisStore, Call, new_redis_store, record_pending, begin_flush, finish_flush, run_call,
}

-- Where the flush of a replica stands: none, a call was sent, the reply is on its way.
pub data Phase : Type 0 where
  idle : Phase
  waits : Call → Phase
  answered : Call → Phase

pub record Replica : Type 0 where
  pub store : RedisStore
  pub phase : Phase
  pub net : List Call

-- `history` has the requests that a replica took, the latest one first: a replica whose local budget
-- is exceeded takes none until its next flush saturates the store.
pub record System (R : Type 0) : Type 0 where
  pub db : R
  pub replicas : ℕ → Replica
  pub history : List Params

-- What happens at a replica: a request is recorded; a flush begins; an earlier call arrives at Redis;
-- the call of the flush is answered; the flush fails; its reply arrives.
pub data Event : Type 0 where
  hit : Params → Event
  begins : Event
  arrives : ℕ → Event
  answers : Event
  fails : Event
  replies : Event

abbrev pub nth_call : ℕ → List Call → Option Call
nth_call i [] = none
nth_call zero (x ∷ l) = some x
nth_call (suc i) (x ∷ l) = nth_call i l

-- A flush with its call, or one that returns at once.
abbrev pub begun : Replica → RedisStore × Option Call → Replica
begun a (store, none) = record a { store = store; phase = idle }
begun a (store, some x) = record { store = store; phase = waits x; net = x ∷ a.net }

unfoldable pub begin_replica : Replica → Replica
begin_replica a = begun a (begin_flush a.store)

module _ {R : Type 0} (c : Commands R) where
  -- The replica, the server and the taken requests after an event.
  abbrev pub Outcome : Type 0
  Outcome = Replica × R × List Params

  -- One flush at a time.
  abbrev pub begins_at : Phase → Replica → R → List Params → Outcome
  begins_at idle a r h = (begin_replica a, r, h)
  begins_at (waits x) a r h = (a, r, h)
  begins_at (answered x) a r h = (a, r, h)

  abbrev pub arrives_at : Option Call → Replica → R → List Params → Outcome
  arrives_at none a r h = (a, r, h)
  arrives_at (some x) a r h = (a, (run_call c a.store.seq_key x r).0, h)

  abbrev pub answers_at : Phase → Replica → R → List Params → Outcome
  answers_at idle a r h = (a, r, h)
  answers_at (waits x) a r h =
      (record a { phase = answered x }, (run_call c a.store.seq_key x r).0, h)
  answers_at (answered x) a r h = (a, r, h)

  abbrev pub replies_at : Phase → Replica → R → List Params → Outcome
  replies_at idle a r h = (a, r, h)
  replies_at (waits x) a r h = (a, r, h)
  replies_at (answered x) a r h = (record a { store = finish_flush a.store x; phase = idle }, r, h)

  unfoldable pub step_replica : Replica → Event → R → List Params → Outcome
  step_replica a (hit p) r h =
      let store = (record_pending a.store p).0 in
      (record a { store = store }, r, if store.overflow then h else p ∷ h)
  step_replica a begins r h = begins_at a.phase a r h
  step_replica a (arrives k) r h = arrives_at (nth_call k a.net) a r h
  step_replica a answers r h = answers_at a.phase a r h
  step_replica a fails r h = (record a { phase = idle }, r, h)
  step_replica a replies r h = replies_at a.phase a r h

  -- An event at a replica below `n`; there is no other.
  unfoldable pub step : ℕ → System R → ℕ × Event → System R
  unfolding step_replica begin_replica
  step n s (i, e) =
      let (a, r, h) = step_replica (s.replicas i) e s.db s.history in
      if ltb i n then record { db = r; replicas = update s.replicas i a; history = h } else s

  -- The events, the latest one first.
  unfoldable pub run : ℕ → System R → List (ℕ × Event) → System R
  unfolding step
  run n s [] = s
  run n s (e ∷ es) = step n (run n s es) e

-- New processes with their random texts, and the same budget.
unfoldable pub start : {R : Type 0} → R → (ℕ → Bytes) → ℕ → System R
start r ids max_bytes = record {
  db = r;
  replicas = λ i. record { store = new_redis_store (ids i) max_bytes; phase = idle; net = [] };
  history = [];
}
