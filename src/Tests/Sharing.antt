-- ===== src/Tests/Sharing.antt =====
-- Replicas that share the small Redis.
use mathlib.Core.Path.{subst}
use mathlib.Core.List.{lookup}
use fizzbuzz.Prelude.{
  ℕ, ◌+◌, ◌≤◌, ◌≡◌, ◌↔◌, refl, sym, ap, true, false, Option, some, List, [], ◌∷◌, ◌++◌, Bytes,
  arith, same_text,
}
use fizzbuzz.GoLib.Decimal.{format, format_int}
use fizzbuzz.GoLib.Json.{marshal}
use fizzbuzz.GoLib.Utf8.{rune_size}
use fizzbuzz.Sequence.Params.{Params}
use fizzbuzz.Stats.{no_params}
use fizzbuzz.Stats.Invariant.{hits}
use fizzbuzz.Stats.Maps.{store}
use fizzbuzz.Server.{TopResult, top_is}
use fizzbuzz.RedisStore.{
  Batch, runs, RedisStore, new_redis_store, memory_cost, member_of, items_of, mark, record_entry,
  record_pending, next_batch, begin_batch, begin_flush, acknowledge, finish_flush, batch_used,
  apply_items, saturate_script, flush_script, run_call, seq_key_of,
}
use fizzbuzz.RedisStore.Script.{is_saturated, score_at, seq_at}
use fizzbuzz.RedisStore.System.{
  System, Event, hit, begins, arrives, answers, step_replica, begin_replica, step, run, start,
}
use fizzbuzz.RedisStore.Replica.{hits_at}
use fizzbuzz.RedisStore.Exact.{uncounted, run-counted}
use fizzbuzz.RedisStore.Delivery.{drain, run-drain, drain-counted}
use fizzbuzz.RedisStore.Flush.{direct, flush_redis, flush_redis-reports}
use fizzbuzz.RedisStore.Top.{
  ReadBack, redis_top, redis_top_executed, redis_top-hits, redis_top-saturate_script,
}
use fizzbuzz.Server.ErrorLog.{new_error_log}
use fizzbuzz.Server.Statistics.{Backend, flush_loop}
use fizzbuzz.RedisStore.Pending.{weigh, all_hits, sent_hits}
use fizzbuzz.RedisStore.Shutdown.{redis_stats_store, flush_loop-retry}
use fizzbuzz.Tests.Data.{fizz, every}
use fizzbuzz.Tests.Keyspaces.{
  Db, db_commands, db_view, empty_db, find, best_in, db_commands-IsRedis,
}

abbrev pub letter : ℕ → Bytes
letter i = i ∷ []

first_or : ℕ → Bytes → ℕ
first_or d [] = d
first_or d (c ∷ s) = c

letter-inj : (i j : ℕ) → letter i ≡ letter j → i ≡ j
unfolding first_or
letter-inj i j e = ap (first_or 0) e

abbrev begun_db : System Db
begun_db = start empty_db letter 1000

pub fresh : (i : ℕ) → seq_at db_view empty_db (seq_key_of (letter i)) ≡ 0
unfolding db_view
fresh i = refl

no_scores : (m : Bytes) → score_at db_view empty_db m ≡ 0
unfolding db_view find
no_scores m = refl

-- Two replicas take a request each, and one of them flushes; its call arrives twice.
abbrev shared_events : List (ℕ × Event)
shared_events = (0, answers) ∷ (0, arrives 0) ∷ (0, begins) ∷ (1, hit every) ∷ (0, hit fizz) ∷ []

abbrev shared : System Db
shared = run db_commands 2 begun_db shared_events

shared-free : is_saturated db_view shared.db ≡ false
unfolding run step step_replica begin_replica start new_redis_store record_pending record_entry
    lookup store memory_cost begin_flush begin_batch next_batch mark items_of member_of run_call
    flush_script batch_used apply_items saturate_script db_commands db_view find same_text format
    format_int marshal rune_size
shared-free = refl

run-counted_example :
    score_at db_view shared.db (member_of fizz) + uncounted db_view letter 2 shared (member_of fizz)
    ≡ score_at db_view empty_db (member_of fizz) + hits_at (member_of fizz) shared.history
run-counted_example =
    run-counted db_commands db_view db_commands-IsRedis letter letter-inj 2 empty_db 1000 fresh
      shared_events (λ m. omega (arith, no_scores m)) shared-free (member_of fizz)

-- One replica that takes a request and is flushed.
abbrev one_hit : List (ℕ × Event)
one_hit = (0, hit fizz) ∷ []

abbrev drained : System Db
drained = run db_commands 1 begun_db (drain 1 ++ one_hit)

drained-free : is_saturated db_view drained.db ≡ false
unfolding run step step_replica begin_replica start new_redis_store record_pending record_entry
    lookup store memory_cost begin_flush begin_batch next_batch mark items_of member_of run_call
    flush_script batch_used apply_items saturate_script finish_flush acknowledge db_commands db_view
    find same_text format format_int marshal rune_size
drained-free = refl

drained-history : drained.history ≡ fizz ∷ []
unfolding run step step_replica begin_replica start new_redis_store record_pending record_entry
    lookup store memory_cost begin_flush begin_batch next_batch mark items_of member_of run_call
    flush_script batch_used apply_items saturate_script finish_flush acknowledge db_commands db_view
    find same_text format format_int marshal rune_size
drained-history = refl

drain-counted_example :
    score_at db_view drained.db (member_of fizz)
    ≡ score_at db_view empty_db (member_of fizz) + hits_at (member_of fizz) drained.history
drain-counted_example =
    drain-counted db_commands db_view db_commands-IsRedis letter letter-inj 1 empty_db 1000 fresh
      one_hit (λ m. omega (arith, no_scores m)) drained-free (member_of fizz)

run-drain_example : ((run db_commands 2 shared (drain 2)).replicas 1).store.pending ≡ []
run-drain_example = run-drain db_commands 2 shared 2 1 (omega arith) (omega arith)

-- A parser for the members of the example.
abbrev unmarshal : Bytes → Option Params
unmarshal m = some fizz

drained-top : redis_top db_commands unmarshal drained.db drained.db ≡ top_is fizz 1
unfolding redis_top best_in run step step_replica begin_replica start new_redis_store record_pending
    record_entry lookup store memory_cost begin_flush begin_batch next_batch mark items_of member_of
    run_call flush_script batch_used apply_items saturate_script finish_flush acknowledge
    db_commands db_view find same_text format format_int marshal rune_size
drained-top = refl

redis_top-hits_example :
    (1 ≡ hits drained.history fizz) × ((q : Params) → hits drained.history q ≤ 1)
redis_top-hits_example =
    redis_top-hits db_commands db_view db_commands-IsRedis unmarshal letter letter-inj 1 empty_db
      1000 fresh no_scores one_hit (omega arith)
      (subst (ReadBack unmarshal) (sym drained-history) (refl, tt)) fizz 1 (omega arith) drained-top

redis_top-saturate_script_example :
    redis_top db_commands unmarshal drained.db (saturate_script db_commands drained.db)
    ≡ top_is no_params 0
redis_top-saturate_script_example =
    redis_top-saturate_script db_commands db_view db_commands-IsRedis unmarshal drained.db
      drained-free

-- A replica with one request and a budget that is too small for its member.
abbrev small_replica : RedisStore
small_replica = record (new_redis_store (letter 7) 140) {
  pending = (fizz, record { n = 1; sent = 0 }) ∷ [];
}

small-key : small_replica.seq_key ≡ seq_key_of (letter 7)
unfolding new_redis_store
small-key = refl

flush_redis-reports_example :
    ((flush_redis (direct db_commands) small_replica empty_db).1.saturated_now ≡ true) ↔ (
      (small_replica.overflow ≡ false)
      × (is_saturated db_view empty_db ≡ false)
      × (is_saturated db_view (flush_redis (direct db_commands) small_replica empty_db).0.1 ≡ true))
flush_redis-reports_example =
    flush_redis-reports db_commands db_view db_commands-IsRedis (letter 7) small_replica empty_db
      small-key

-- A batch with one of three hits that Redis did not acknowledge.
abbrev unanswered : Batch
unanswered = record {
  seq = 1;
  ttl = 86400;
  budget = 1000;
  items = record { member = member_of fizz; hits = 1; cost = 200 } ∷ [];
}

abbrev late_replica : RedisStore
late_replica = record {
  max_bytes = 1000;
  seq_key = seq_key_of (letter 7);
  seq = 1;
  batch = some unanswered;
  pending = (fizz, record { n = 3; sent = 1 }) ∷ [];
  used_bytes = 136;
  overflow = false;
}

abbrev last_call : Db × ℕ
last_call = run_call db_commands late_replica.seq_key (runs unanswered) empty_db

abbrev late_backend : Backend (RedisStore × Db)
late_backend = record { store = (late_replica, empty_db); log = new_error_log; warnings = 0 }

abbrev top_now : Db → Db × TopResult
top_now r = (r, redis_top_executed db_commands unmarshal (some (r, r)))

flush_loop-retry_example :
    weigh all_hits
        (member_of fizz)
        (flush_loop
          (redis_stats_store (direct db_commands) top_now)
          []
          5
          late_backend).store.0.pending
      + weigh sent_hits (member_of fizz) late_replica.pending
    ≡ weigh all_hits (member_of fizz) late_replica.pending
flush_loop-retry_example =
    flush_loop-retry (direct db_commands) top_now late_replica empty_db last_call.0 unanswered
      last_call.1 5 late_backend (member_of fizz) refl refl refl (omega arith, omega arith, tt) refl
