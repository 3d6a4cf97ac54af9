-- ===== src/RedisStore/Saturation.antt =====
-- The saturation of the shared store over the events.
use fizzbuzz.Prelude.{
  ℕ, ◌≡◌, ◌∙◌, sym, true, false, Bool-cases, inl, inr, Option, none, some, List, [], ◌∷◌, Bytes,
  arith, ltb,
}
use fizzbuzz.Sequence.Params.{Params}
use fizzbuzz.Redis.{Commands, Keyspace, IsRedis}
use fizzbuzz.RedisStore.{Call, saturates, runs, flush_script, run_call, saturated_key}
use fizzbuzz.RedisStore.Script.{is_saturated, saturate_script-saturated}
use fizzbuzz.RedisStore.System.{
  System, Replica, Phase, idle, waits, answered, Event, hit, begins, arrives, answers, fails,
  replies, nth_call, begins_at, arrives_at, answers_at, replies_at, step_replica, step, run,
}

module _ {R : Type 0} (c : Commands R) (view : R → Keyspace) (ok : IsRedis c view) where
  run_call-saturated :
      (key : Bytes) (call : Call) (r : R)
      → is_saturated view r ≡ true
      → is_saturated view (run_call c key call r).0 ≡ true
  unfolding run_call flush_script
  run_call-saturated key saturates r full = saturate_script-saturated c view ok r
  run_call-saturated key (runs b) r full = rw (ok.exists_lem r saturated_key, full) full

  module _ (a : Replica) (r : R) (h : List Params) (full : is_saturated view r ≡ true) where
    arrives-saturated : (x : Option Call) → is_saturated view (arrives_at c x a r h).1 ≡ true
    arrives-saturated none = full
    arrives-saturated (some x) = run_call-saturated _ x r full

    answers-saturated : (x : Phase) → is_saturated view (answers_at c x a r h).1 ≡ true
    answers-saturated idle = full
    answers-saturated (waits x) = run_call-saturated _ x r full
    answers-saturated (answered x) = full

    begins-saturated : (x : Phase) → is_saturated view (begins_at c x a r h).1 ≡ true
    begins-saturated idle = full
    begins-saturated (waits x) = full
    begins-saturated (answered x) = full

    replies-saturated : (x : Phase) → is_saturated view (replies_at c x a r h).1 ≡ true
    replies-saturated idle = full
    replies-saturated (waits x) = full
    replies-saturated (answered x) = full

    step_replica-saturated : (e : Event) → is_saturated view (step_replica c a e r h).1 ≡ true
    unfolding step_replica
    step_replica-saturated (hit p) = full
    step_replica-saturated begins = begins-saturated a.phase
    step_replica-saturated (arrives j) = arrives-saturated (nth_call j a.net)
    step_replica-saturated answers = answers-saturated a.phase
    step_replica-saturated fails = full
    step_replica-saturated replies = replies-saturated a.phase

  step-saturated :
      (n : ℕ) (s : System R) (e : ℕ × Event)
      → is_saturated view s.db ≡ true
      → is_saturated view (step c n s e).db ≡ true
  unfolding step
  step-saturated n s (i, e) full = elim (Bool-cases (ltb i n)) [
    | inl inside ↦ rw inside (step_replica-saturated (s.replicas i) s.db s.history full e)
    | inr outside ↦ rw outside full
  ]

  pub step-free :
      (n : ℕ) (s : System R) (e : ℕ × Event)
      → is_saturated view (step c n s e).db ≡ false
      → is_saturated view s.db ≡ false
  step-free n s e free = elim (Bool-cases (is_saturated view s.db)) [
    | inl full ↦ absurd (ground (arith, sym free ∙ step-saturated n s e full))
    | inr before ↦ before
  ]

  pub run-saturated :
      (n : ℕ) (s : System R) (es : List (ℕ × Event))
      → is_saturated view s.db ≡ true
      → is_saturated view (run c n s es).db ≡ true
  unfolding run
  run-saturated n s [] full = full
  run-saturated n s (e ∷ es) full = step-saturated n (run c n s es) e (run-saturated n s es full)
