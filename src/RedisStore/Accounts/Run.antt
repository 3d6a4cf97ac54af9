-- ===== src/RedisStore/Accounts/Run.antt =====
-- redis_store.go: `usedBytes` in every run of the replicas, and what a refused request would cost in
-- Redis.
use mathlib.Core.Path.{subst}
use native.Mathlib.Decide.{ℕ_discrete}
use fizzbuzz.Prelude.{
  ℕ, ◌≤◌, ◌<◌, ◌≡◌, sym, true, false, Option, none, some, List, [], ◌∷◌, Bytes, arith, two_63,
}
use fizzbuzz.Sequence.Params.{Params}
use fizzbuzz.Redis.{Commands, Keyspace, IsRedis, or_zero}
use fizzbuzz.RedisStore.{
  Call, RedisStore, record_pending, begin_flush, used_key, seq_key_of, batch_used, flush_script,
}
use fizzbuzz.RedisStore.System.{
  Replica, Phase, idle, waits, answered, Event, hit, begins, arrives, answers, fails, replies,
  begun, begin_replica, nth_call, begins_at, arrives_at, answers_at, replies_at, step_replica, step,
  run, start,
}
use fizzbuzz.RedisStore.Delivery.{step_here, step_there}
use fizzbuzz.RedisStore.Script.{is_saturated, seq_at}
use fizzbuzz.RedisStore.Costs.{known_cost, batch_with, flush_script-record_pending}
use fizzbuzz.RedisStore.Accounts.{
  Fits, Fits-costs, Accounted, new_redis_store-Accounted, record_pending-Accounted,
  begin_flush-Accounted, finish_flush-Accounted,
}

abbrev EventFits : ℕ → Event → Type 0
EventFits max_bytes (hit p) = Fits max_bytes p
EventFits max_bytes begins = Unit
EventFits max_bytes (arrives k) = Unit
EventFits max_bytes answers = Unit
EventFits max_bytes fails = Unit
EventFits max_bytes replies = Unit

-- The requests of the events fit.
abbrev pub EventsFit : ℕ → List (ℕ × Event) → Type 0
EventsFit max_bytes [] = Unit
EventsFit max_bytes ((i, e) ∷ es) = EventFits max_bytes e × EventsFit max_bytes es

module _ (max_bytes : ℕ) (small : max_bytes < two_63) where
  begun-Accounted :
      (a : Replica) (o : RedisStore × Option Call)
      → Accounted max_bytes o.0
      → Accounted max_bytes (begun a o).store
  begun-Accounted a (s, none) t = t
  begun-Accounted a (s, some x) t = t

  begins-Accounted :
      {R : Type 0}
      → (c : Commands R) (x : Phase) (a : Replica) (r : R) (h : List Params)
      → Accounted max_bytes a.store
      → Accounted max_bytes (begins_at c x a r h).0.store
  unfolding begin_replica
  begins-Accounted c idle a r h t =
      begun-Accounted a (begin_flush a.store) (begin_flush-Accounted max_bytes small a.store t)
  begins-Accounted c (waits x) a r h t = t
  begins-Accounted c (answered x) a r h t = t

  arrives-Accounted :
      {R : Type 0}
      → (c : Commands R) (x : Option Call) (a : Replica) (r : R) (h : List Params)
      → Accounted max_bytes a.store
      → Accounted max_bytes (arrives_at c x a r h).0.store
  arrives-Accounted c none a r h t = t
  arrives-Accounted c (some x) a r h t = t

  answers-Accounted :
      {R : Type 0}
      → (c : Commands R) (x : Phase) (a : Replica) (r : R) (h : List Params)
      → Accounted max_bytes a.store
      → Accounted max_bytes (answers_at c x a r h).0.store
  answers-Accounted c idle a r h t = t
  answers-Accounted c (waits x) a r h t = t
  answers-Accounted c (answered x) a r h t = t

  replies-Accounted :
      {R : Type 0}
      → (c : Commands R) (x : Phase) (a : Replica) (r : R) (h : List Params)
      → Accounted max_bytes a.store
      → Accounted max_bytes (replies_at c x a r h).0.store
  replies-Accounted c idle a r h t = t
  replies-Accounted c (waits x) a r h t = t
  replies-Accounted c (answered x) a r h t = finish_flush-Accounted max_bytes small a.store x t

  step_replica-Accounted :
      {R : Type 0}
      → (c : Commands R) (a : Replica) (e : Event) (r : R) (h : List Params) → EventFits max_bytes e
      → Accounted max_bytes a.store
      → Accounted max_bytes (step_replica c a e r h).0.store
  unfolding step_replica
  step_replica-Accounted c a (hit p) r h f t =
      record_pending-Accounted max_bytes small a.store p f t
  step_replica-Accounted c a begins r h f t = begins-Accounted c a.phase a r h t
  step_replica-Accounted c a (arrives k) r h f t = arrives-Accounted c (nth_call k a.net) a r h t
  step_replica-Accounted c a answers r h f t = answers-Accounted c a.phase a r h t
  step_replica-Accounted c a fails r h f t = t
  step_replica-Accounted c a replies r h f t = replies-Accounted c a.phase a r h t

  run-Accounted :
      {R : Type 0}
      → (c : Commands R) (n : ℕ) (r : R) (ids : ℕ → Bytes) (es : List (ℕ × Event)) (i : ℕ) → i < n
      → EventsFit max_bytes es
      → Accounted max_bytes ((run c n (start r ids max_bytes) es).replicas i).store
  unfolding run start
  run-Accounted c n r ids [] i lt fs = new_redis_store-Accounted max_bytes small (ids i)
  run-Accounted c n r ids ((j, e) ∷ es) i lt (f, fs) =
      let before = run c n (start r ids max_bytes) es in
      let t = run-Accounted c n r ids es i lt fs in
      elim (ℕ_discrete j i) [
        | yes here ↦
            subst (λ k. Accounted max_bytes ((step c n before (k, e)).replicas i).store) (sym here)
              (subst (λ a. Accounted max_bytes a.store) (sym (step_here c n before i e lt))
                (step_replica-Accounted c (before.replicas i) e before.db before.history f t))
        | no other ↦
            subst (λ a. Accounted max_bytes a.store)
              (sym (step_there c n before j i e (λ h. other (sym h)))) t
      ]

-- For a replica that is reached by any events from a new process, with requests whose members have
-- room in 63 bits beside the budget: if its `Record` finds the budget exceeded by a request, so would
-- Redis. Run on the batch of the pending requests and the refused one, on a Redis that is not
-- saturated, has not that batch yet and counts at least what the batch states for the members that it
-- has, with bytes used below 2 ^ 63 in all, the script returns 2 and saturates the store.
pub flush_script-run :
    {R : Type 0}
    → (c : Commands R) (view : R → Keyspace) → IsRedis c view
    → (max_bytes : ℕ) → max_bytes < two_63
    → (n : ℕ) (r0 : R) (ids : ℕ → Bytes) (es : List (ℕ × Event)) → EventsFit max_bytes es
    → (i : ℕ) → i < n
    → (s : RedisStore) → s ≡ ((run c n (start r0 ids max_bytes) es).replicas i).store
    → (p : Params) → Fits max_bytes p
    → (record_pending s p).1 ≡ true
    → (id : Bytes) (r : R) (seq : ℕ)
    → known_cost c r (batch_with s p seq).items ≤ or_zero (c.get r used_key)
    → batch_used c r (batch_with s p seq).items (or_zero (c.get r used_key)) < two_63
    → is_saturated view r ≡ false
    → seq_at view r (seq_key_of id) < seq
    → ((flush_script c (seq_key_of id) (batch_with s p seq) r).1 ≡ 2)
      × (is_saturated view (flush_script c (seq_key_of id) (batch_with s p seq) r).0 ≡ true)
flush_script-run c view ok max_bytes small n r0 ids es fs i lt s e p f over id r seq known total
      free new =
    let a =
      subst (Accounted max_bytes) (sym e) (run-Accounted max_bytes small c n r0 ids es i lt fs) in
    let (member, room) = Fits-costs max_bytes small p f in
    flush_script-record_pending c view ok id s p r seq over a.counted a.fits member
      (omega (arith, a.budget, small)) (omega (arith, a.counted, a.within, room)) known total free
      new
