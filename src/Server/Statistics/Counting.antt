-- ===== src/Server/Statistics/Counting.antt =====
-- GET /stats over the counter in memory.
use fizzbuzz.Prelude.{
  ℕ, ◌/◌, ◌^◌, ◌≤◌, ◌<◌, ◌≡◌, ◌⊎◌, inl, inr, refl, Option, none, some, List, [], length, ltb,
  if◌then◌else◌, two_64,
}
use fizzbuzz.Sequence.Params.{Params}
use fizzbuzz.Stats.{new_counter, top_of, flush}
use fizzbuzz.Stats.Invariant.{hits}
use fizzbuzz.Stats.Exact.{IsAlloc}
use fizzbuzz.Stats.Winner.{served, AllRequests, top_of-hits}
use fizzbuzz.Server.{Reply, stats_json}
use fizzbuzz.Server.ErrorLog.{ErrorLog}
use fizzbuzz.Server.Statistics.{
  log_error, logged, flush_backend, top_backend, statistics, statistics_reply, unavailable_reply,
  counter_top, counter_store,
}

-- A reply with the winner of a history, and its parameters if there is one.
abbrev pub Winner : List Params → Reply → Type 0
Winner h reply =
    (p : Params) × (n : ℕ) × (reply ≡ record {
      status = 200;
      headers = [];
      body = stats_json (if ltb 0 n then some p else none) n;
    })
    × (n ≡ hits h p)
    × ((q : Params) → hits h q ≤ n)

same_log :
    (now : ℕ) (x : Option (Params × ℕ)) (log : ErrorLog)
    → log_error now (logged (counter_top x)) log ≡ log
same_log now none log = refl
same_log now (some (p, n)) log = refl

-- For an allocator with bounded size classes, a budget that the configuration allows, and fewer than
-- 2 ^ 64 requests whose limits are from 1 to 2 ^ 32 - 1, at any times: GET /stats replies with the
-- winner of the requests and its hits, or that there were too many distinct requests; the log of
-- store errors stays as it is.
pub statistics-hits :
    (alloc_size : ℕ → ℕ) (max_bytes : ℕ) (h : List Params) (now now' : ℕ) (log : ErrorLog)
    (warnings : ℕ)
    → IsAlloc alloc_size
    → max_bytes / 152 < 2 ^ 32
    → AllRequests h
    → length h < two_64
    → let c = served alloc_size (new_counter max_bytes) h in
      let r =
        statistics
          (counter_store alloc_size)
          now
          now'
          (record { store = c; log = log; warnings = warnings }) in
      ((r.1 ≡ unavailable_reply) ⊎ Winner h r.1) × (r.0.log ≡ log)
unfolding statistics top_backend flush_backend counter_store flush
statistics-hits alloc_size max_bytes h now now' log warnings a fit rs few =
    let c = served alloc_size (new_counter max_bytes) h in
    (go (top_of c) refl, same_log now' (top_of c) log)
  where
    go :
        (x : Option (Params × ℕ))
        → top_of (served alloc_size (new_counter max_bytes) h) ≡ x
        → (statistics_reply (counter_top x) ≡ unavailable_reply)
          ⊎ Winner h (statistics_reply (counter_top x))
    go none e = inl refl
    go (some (p, n)) e =
        let (count, most) = top_of-hits alloc_size max_bytes h p n a fit rs few e in
        inr (p, n, refl, count, most)
