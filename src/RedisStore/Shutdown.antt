-- ===== src/RedisStore/Shutdown.antt =====
-- The store as a `statsStore`, and the last flush of a process.
use fizzbuzz.Prelude.{ℕ, ◌+◌, ◌≡◌, ap, ◌∙◌, false, Option, some, [], Bytes}
use fizzbuzz.Server.{StatsStore, TopResult}
use fizzbuzz.Server.Statistics.{Backend, flush_backend, flush_loop}
use fizzbuzz.RedisStore.{RedisStore, Batch, Call, runs, record_pending, begin_batch, finish_flush}
use fizzbuzz.RedisStore.Pending.{SentWithin, weigh, all_hits, sent_hits, weigh-acknowledge}
use fizzbuzz.RedisStore.Delivery.{begin_flush-clear}
use fizzbuzz.RedisStore.Flush.{flush_sent, flush_begun, flush_redis}

-- The interface of the server, over a connection with the two outcomes of a call and of `Top`.
unfoldable pub redis_stats_store :
    {L : Type 0}
    → (L → Bytes → Call → L × Option ℕ)
    → (L → L × TopResult)
    → StatsStore (RedisStore × L)
redis_stats_store send top = record {
  record_hit = λ (s, l) p. (((record_pending s p).0, l), (record_pending s p).1);
  flush = λ (s, l). flush_redis send s l;
  top = λ (s, l). let (l', r) = top l in ((s, l'), r);
}

module _ {L : Type 0} (send : L → Bytes → Call → L × Option ℕ) where
  flush_begun_retry :
      (s : RedisStore) (l l' : L) (b : Batch) (code : ℕ) (m : Bytes)
      → SentWithin s.pending
      → send l s.seq_key (runs b) ≡ (l', some code)
      → weigh all_hits m (flush_begun send l (begin_batch s (some b))).0.0.pending
          + weigh sent_hits m s.pending
        ≡ weigh all_hits m s.pending
  unfolding begin_batch finish_flush
  flush_begun_retry s l l' b code m w e =
      ap (λ x. weigh all_hits m (flush_sent s (runs b) x).0.0.pending + weigh sent_hits m s.pending)
        e
      ∙ weigh-acknowledge m s.used_bytes s.pending w

  flush_redis_retry :
      (s : RedisStore) (l l' : L) (b : Batch) (code : ℕ) (m : Bytes)
      → s.overflow ≡ false
      → s.batch ≡ some b
      → SentWithin s.pending
      → send l s.seq_key (runs b) ≡ (l', some code)
      → weigh all_hits m (flush_redis send s l).0.0.pending + weigh sent_hits m s.pending
        ≡ weigh all_hits m s.pending
  unfolding flush_redis
  flush_redis_retry s l l' b code m clear batch w e =
      ap (λ o. weigh all_hits m (flush_begun send l o).0.0.pending + weigh sent_hits m s.pending)
        (begin_flush-clear s clear ∙ ap (begin_batch s) batch)
      ∙ flush_begun_retry s l l' b code m w e

-- For a replica whose last batch was not acknowledged and whose budget is not exceeded: if the call of
-- the last flush of `flushLoop` is answered, it delivers that batch only, so of each member exactly
-- the hits recorded since that batch was made are left behind.
pub flush_loop-retry :
    {L : Type 0}
    → (send : L → Bytes → Call → L × Option ℕ) (top : L → L × TopResult) (s : RedisStore) (l l' : L)
      (b : Batch) (code stop : ℕ) (backend : Backend (RedisStore × L)) (m : Bytes)
    → backend.store ≡ (s, l)
    → s.overflow ≡ false
    → s.batch ≡ some b
    → SentWithin s.pending
    → send l s.seq_key (runs b) ≡ (l', some code)
    → weigh all_hits m (flush_loop (redis_stats_store send top) [] stop backend).store.0.pending
        + weigh sent_hits m s.pending
      ≡ weigh all_hits m s.pending
unfolding flush_loop flush_backend redis_stats_store
flush_loop-retry send top s l l' b code stop backend m same clear batch w e =
    ap (λ x. weigh all_hits m (flush_redis send x.0 x.1).0.0.pending + weigh sent_hits m s.pending)
      same
    ∙ flush_redis_retry send s l l' b code m clear batch w e
