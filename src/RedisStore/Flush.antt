-- ===== src/RedisStore/Flush.antt =====
-- redis_store.go: a whole `Flush`, and its report of a saturation.
use mathlib.Core.Path.{subst}
use fizzbuzz.Prelude.{
  ℕ, ◌≡◌, ◌↔◌, refl, sym, ◌∙◌, Bool, true, false, Bool-cases, inl, inr, Option, none, some, Bytes,
  codes, arith, length, leb, lt_int, ◌==◌, ◌+w◌,
}
use fizzbuzz.Redis.{Commands, Keyspace, IsRedis, or_zero}
use fizzbuzz.Server.{StoreError, store_failed, FlushResult}
use fizzbuzz.RedisStore.{
  batch_seq_ttl_seconds, items_of, RedisStore, Batch, Call, saturates, runs, saturated_key,
  used_key, seq_key_of, batch_used, apply_items, flush_script, run_call, begin_batch, next_batch,
  begin_flush, finish_flush,
}
use fizzbuzz.RedisStore.Delivery.{begin_flush-overflow, begin_flush-clear}
use fizzbuzz.RedisStore.Script.{
  is_saturated, saturate_script-saturated, apply_items-other, used-ne-saturated,
  counts-ne-saturated, seq-ne-saturated,
}

-- The report of a flush whose script returned a number.
abbrev pub saturated_by : Call → ℕ → Bool
saturated_by saturates code = false
saturated_by (runs b) code = code == 2

abbrev pub flush_sent :
    {L : Type 0} → RedisStore → Call → L × Option ℕ → (RedisStore × L) × FlushResult
flush_sent s x (l, none) =
    ((s, l), record { saturated_now = false; error = some (store_failed (codes "redis")) })
flush_sent s x (l, some code) =
    ((finish_flush s x, l), record { saturated_now = saturated_by x code; error = none })

module _ {L : Type 0} (send : L → Bytes → Call → L × Option ℕ) where
  abbrev pub flush_begun : L → RedisStore × Option Call → (RedisStore × L) × FlushResult
  flush_begun l (s, none) = ((s, l), record { saturated_now = false; error = none })
  flush_begun l (s, some x) = flush_sent s x (send l s.seq_key x)

  -- `Flush` over a connection that runs a call and returns its number, or none for an error.
  unfoldable pub flush_redis : RedisStore → L → (RedisStore × L) × FlushResult
  flush_redis s l = flush_begun l (begin_flush s)

-- A connection on which every call reaches Redis.
abbrev pub direct : {R : Type 0} → Commands R → R → Bytes → Call → R × Option ℕ
direct c r key x = ((run_call c key x r).0, some (run_call c key x r).1)

module _ {R : Type 0} (c : Commands R) (view : R → Keyspace) (ok : IsRedis c view) where
  -- Whether the store was saturated, and the outcome.
  abbrev Reports : Bool → R × ℕ → Type 0
  Reports was o = ((o.1 == 2) ≡ true) ↔ ((was ≡ false) × (is_saturated view o.0 ≡ true))

  quiet :
      (was : Bool) (r : R) (code : ℕ)
      → (code == 2) ≡ false
      → is_saturated view r ≡ was
      → Reports was (r, code)
  quiet was r code other same = (
    λ e. absurd (ground (arith, sym e ∙ other)),
    λ t. absurd (ground (arith, sym t.0 ∙ sym same ∙ t.1)),
  )

  applied-saturated :
      (id : Bytes) (b : Batch) (used : ℕ) (r : R)
      → is_saturated view
          (c.put_ex (c.put (apply_items c b.items r) used_key used) (seq_key_of id) b.seq b.ttl)
        ≡ is_saturated view r
  applied-saturated id b used r =
      let r1 = apply_items c b.items r in
      let r2 = c.put r1 used_key used in
      (ok.put_ex_there r2 (seq_key_of id) b.seq b.ttl saturated_key
        (λ e. seq-ne-saturated id (sym e))).0
      ∙ (ok.put_there r1 used_key used saturated_key used-ne-saturated).0
      ∙ (apply_items-other c view ok b.items r saturated_key counts-ne-saturated).0

  flush_script-Reports :
      (id : Bytes) (b : Batch) (r : R)
      → Reports (is_saturated view r) (flush_script c (seq_key_of id) b r)
  unfolding flush_script
  flush_script-Reports id b r =
      let used = batch_used c r b.items (or_zero (c.get r used_key)) in
      elim (Bool-cases (is_saturated view r)) [
        | inl full ↦ rw (ok.exists_lem r saturated_key, full) (quiet true r 1 refl full)
        | inr free ↦ elim (Bool-cases (leb b.seq (or_zero (c.get r (seq_key_of id))))) [
          | inl old ↦ rw (ok.exists_lem r saturated_key, free, old) (quiet false r 0 refl free)
          | inr new ↦ elim (Bool-cases (lt_int b.budget used)) [
            | inl over ↦
                rw (ok.exists_lem r saturated_key, free, new, over)
                  (λ e. (refl, saturate_script-saturated c view ok r), λ t. refl)
            | inr fits ↦
                rw (ok.exists_lem r saturated_key, free, new, fits)
                  (quiet false _ 0 refl (applied-saturated id b used r ∙ free))
          ]
        ]
      ]

  -- What the report of a flush says.
  abbrev FlushReports : Bool → R → (RedisStore × R) × FlushResult → Type 0
  FlushReports overflow r o =
      (o.1.saturated_now ≡ true)
      ↔ ((overflow ≡ false) × (is_saturated view r ≡ false) × (is_saturated view o.0.1 ≡ true))

  no_report :
      (overflow : Bool) (r r' : R) (s : RedisStore) (error : Option StoreError)
      → (overflow ≡ false → is_saturated view r' ≡ is_saturated view r)
      → FlushReports overflow r ((s, r'), record { saturated_now = false; error = error })
  no_report overflow r r' s error same = (
    λ e. absurd (ground (arith, e)),
    λ (clear, free, full). absurd (ground (arith, sym free ∙ sym (same clear) ∙ full)),
  )

  runs-Reports :
      (id : Bytes) (s : RedisStore) (b : Batch) (r : R)
      → s.seq_key ≡ seq_key_of id
      → FlushReports false r (flush_begun (direct c) r (s, some (runs b)))
  unfolding run_call
  runs-Reports id s b r e =
      let t = flush_script-Reports id b r in
      subst
        (λ (k : Bytes).
          FlushReports false r (flush_begun (direct c) r (record s { seq_key = k }, some (runs b))))
        (sym e)
        (
          λ h. let (free, full) = t.0 h in (refl, free, full),
          λ (clear, free, full). t.1 (free, full),
        )

  batch-Reports :
      (id : Bytes) (s : RedisStore) (r : R) (x : Option Batch)
      → s.seq_key ≡ seq_key_of id
      → FlushReports false r (flush_begun (direct c) r (begin_batch s x))
  unfolding begin_batch next_batch
  batch-Reports id s r (some b) e = runs-Reports id s b r e
  batch-Reports id s r none e = elim (Bool-cases (length s.pending == 0)) [
    | inl empty ↦ rw empty (no_report false r r s none (λ h. refl))
    | inr more ↦ rw more (
        runs-Reports id s
          (record {
            seq = s.seq +w 1;
            ttl = batch_seq_ttl_seconds;
            budget = s.max_bytes;
            items = items_of s.pending;
          })
          r e)
  ]

  -- On a connection on which every call reaches Redis: a flush of a replica reports a saturation just if
  -- the replica had no overflow of its own, the store was not saturated before, and it is after.
  pub flush_redis-reports :
      (id : Bytes) (s : RedisStore) (r : R)
      → s.seq_key ≡ seq_key_of id
      → let o = flush_redis (direct c) s r in
        (o.1.saturated_now ≡ true)
        ↔ ((s.overflow ≡ false) × (is_saturated view r ≡ false) × (is_saturated view o.0.1 ≡ true))
  unfolding flush_redis
  flush_redis-reports id s r e = elim (Bool-cases s.overflow) [
    | inl full ↦
        subst (λ o. FlushReports s.overflow r (flush_begun (direct c) r o))
          (sym (begin_flush-overflow s full))
          (no_report s.overflow r _ s none (λ clear. absurd (ground (arith, sym full ∙ clear))))
    | inr clear ↦
        subst (λ o. FlushReports s.overflow r (flush_begun (direct c) r o))
          (sym (begin_flush-clear s clear))
          (subst (λ b. FlushReports b r (flush_begun (direct c) r (begin_batch s s.batch)))
            (sym clear) (batch-Reports id s r s.batch e))
  ]
