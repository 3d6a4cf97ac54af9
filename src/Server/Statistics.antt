-- ===== src/Server/Statistics.antt =====
-- server.go: `flush`, `top` and `statistics`, and stats.go: the counter as a `statsStore`.
pub mod Counting
use fizzbuzz.Prelude.{
  ℕ, Bool, true, false, Option, none, some, List, [], ◌∷◌, Bytes, codes, ltb, if◌then◌else◌,
}
use fizzbuzz.Sequence.Params.{Params}
use fizzbuzz.Stats.{Counter, record_hit, flush, top_of}
use fizzbuzz.Server.{
  StoreError, unavailable, store_failed, TopResult, top_error, top_is, FlushResult, StatsStore,
  Reply, json_error, stats_json, warned,
}
use fizzbuzz.Server.ErrorLog.{ErrorLog, log_store_err}

-- The store with the log lines about it.
pub record Backend (S : Type 0) : Type 0 where
  pub store : S
  pub log : ErrorLog
  pub warnings : ℕ

-- `logStoreErr` at a time, with no other call in between.
abbrev pub log_error : ℕ → Option StoreError → ErrorLog → ErrorLog
log_error now none log = log
log_error now (some e) log = log_store_err now log.last log

-- The error that `top` logs.
abbrev pub logged : TopResult → Option StoreError
logged (top_error (store_failed text)) = some (store_failed text)
logged (top_error unavailable) = none
logged (top_is p n) = none

abbrev pub unavailable_reply : Reply
unavailable_reply = json_error 503 [] (codes "statistics unavailable: too many distinct requests")

abbrev pub store_error_reply : Reply
store_error_reply = json_error 503 [] (codes "statistics unavailable: store error")

abbrev pub statistics_reply : TopResult → Reply
statistics_reply (top_error unavailable) = unavailable_reply
statistics_reply (top_error (store_failed text)) = store_error_reply
statistics_reply (top_is p n) = record {
  status = 200;
  headers = [];
  body = stats_json (if ltb 0 n then some p else none) n;
}

module _ {S : Type 0} (store : StatsStore S) where
  unfoldable pub flush_backend : ℕ → Backend S → Backend S × Option StoreError
  flush_backend now b =
      let (s, r) = store.flush b.store in
      (
        record {
          store = s;
          log = log_error now r.error b.log;
          warnings = warned r.saturated_now b.warnings;
        },
        r.error,
      )

  abbrev pub top_flushed : ℕ → Backend S × Option StoreError → Backend S × TopResult
  top_flushed now (b, some e) = (b, top_error e)
  top_flushed now (b, none) =
      let (s, r) = store.top b.store in
      (record b { store = s; log = log_error now (logged r) b.log }, r)

  -- `top`, with the times of its two log calls.
  unfoldable pub top_backend : ℕ → ℕ → Backend S → Backend S × TopResult
  unfolding flush_backend
  top_backend now now' b = top_flushed now' (flush_backend now b)

  unfoldable pub statistics : ℕ → ℕ → Backend S → Backend S × Reply
  unfolding top_backend
  statistics now now' b = let (b', r) = top_backend now now' b in (b', statistics_reply r)

abbrev pub counter_top : Option (Params × ℕ) → TopResult
counter_top none = top_error unavailable
counter_top (some (p, n)) = top_is p n

-- The counter in memory.
unfoldable pub counter_store : (ℕ → ℕ) → StatsStore Counter
counter_store alloc_size = record {
  record_hit = record_hit alloc_size;
  flush = λ c. (c, record { saturated_now = flush c; error = none });
  top = λ c. (c, counter_top (top_of c));
}

-- `flushLoop`: a flush at each tick, and one more when the process stops. The times are those of the
-- log calls.
unfoldable pub flush_loop : {S : Type 0} → StatsStore S → List ℕ → ℕ → Backend S → Backend S
flush_loop store [] stop b = (flush_backend store stop b).0
flush_loop store (tick ∷ ticks) stop b = flush_loop store ticks stop (flush_backend store tick b).0
