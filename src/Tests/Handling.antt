-- ===== src/Tests/Handling.antt =====
-- Handlers of connections, replies and bodies.
use fizzbuzz.Prelude.{
  ◌⊎◌, ℕ, ◌*◌, ◌^◌, ◌≤◌, ◌≡◌, ◌↔◌, refl, ap, ◌∙◌, some, codes, true, List, [], ◌∷◌, ◌++◌, Bytes,
  arith, length, same_text,
}
use fizzbuzz.GoLib.ParseInt.{parsed, parse_int}
use fizzbuzz.Config.{default_config, check_config}
use fizzbuzz.Sequence.Reference.{document}
use fizzbuzz.Sequence.Size.{json_size}
use fizzbuzz.Stats.{Counter, new_counter}
use fizzbuzz.Server.{
  get_method, Reply, no_body, sequence, body_headers, finished, started, streaming, send,
  check_parsed, check_validated, check_request, advance,
}
use fizzbuzz.Server.Admission.{Server, Event, arrives, advances, run, idle_server}
use fizzbuzz.Server.Admission.Budget.{held, taken}
use fizzbuzz.Server.Admission.Bound.{total, run-budget}
use fizzbuzz.Server.Admission.Replied.{Replied}
use fizzbuzz.Server.Admission.Served.{request_events, run-served}
use fizzbuzz.Server.ErrorLog.{Spaced, log_all, log_all-Spaced}
use fizzbuzz.Server.Query.{whole, query_media_type, check_query, check_query-send}
use fizzbuzz.Server.Statistics.{counter_store}
use fizzbuzz.Server.Stream.{header_text, reply_headers, stream, stream-document}
use fizzbuzz.Server.Admission.Recorded.{recorded}
use fizzbuzz.Server.Admission.Reported.{IsCounting, run-statistics}
use fizzbuzz.Server.Statistics.{Backend, statistics, unavailable_reply}
use fizzbuzz.Server.Statistics.Counting.{Winner}
use fizzbuzz.Server.ErrorLog.{new_error_log}
use fizzbuzz.Tests.Bodies.{still, fizz_complete}
use fizzbuzz.Tests.Counting.{rounded, rounded-IsAlloc}
use fizzbuzz.Tests.Data.{fizz, buffer, kept, buffer-IsWriter}
use fizzbuzz.Tests.Serving.{raw, raw-fizz, default-IsServed, fizz-validated}

abbrev nothing : Reply
nothing = record { status = 200; headers = []; body = no_body }

abbrev quiet_server : Server Counter
quiet_server = idle_server (new_counter 1000) (λ i. finished nothing)

-- Two requests whose handlers take turns.
abbrev turns : List (ℕ × Event)
turns =
    (0, advances)
    ∷ (1, advances)
    ∷ (1, advances)
    ∷ (0, advances)
    ∷ (0, advances)
    ∷ (1, arrives get_method raw)
    ∷ (0, arrives get_method raw)
    ∷ []

abbrev busy_server : Server Counter
busy_server = run (counter_store rounded) default_config 3 quiet_server turns

run-budget_example :
    (busy_server.shared.inflight ≡ total held 3 busy_server.stages)
    × (total taken 3 busy_server.stages ≤ default_config.max_inflight_bytes)
run-budget_example =
    run-budget (counter_store rounded) default_config default-IsServed 3 (omega arith)
      (new_counter 1000) (λ i. nothing) turns
      (tt, (tt, (tt, (tt, (tt, (omega arith, (omega arith, tt)))))))

default-IsCounting : IsCounting default_config
default-IsCounting = record {
  served = default-IsServed;
  limit = omega arith;
  strings = omega arith;
}

abbrev new_server : Server Counter
new_server = idle_server (new_counter default_config.stats_max_bytes) (λ i. finished nothing)

abbrev statistics_outcome : Backend Counter × Reply
statistics_outcome = statistics (counter_store rounded) 1 2 (record {
  store = (run (counter_store rounded) default_config 3 new_server turns).shared.store;
  log = new_error_log;
  warnings = 0;
})

run-statistics_example :
    (statistics_outcome.1 ≡ unavailable_reply)
    ⊎ Winner (recorded rounded default_config 3 new_server turns) statistics_outcome.1
run-statistics_example =
    run-statistics rounded default_config rounded-IsAlloc default-IsCounting (omega arith) 3
      (λ i. nothing) turns 1 2 new_error_log 0
      (tt, (tt, (tt, (tt, (tt, (omega arith, (omega arith, tt))))))) (omega arith)

abbrev started_server : Server Counter
started_server = idle_server (new_counter 1000) (λ i. started get_method raw)

abbrev four_steps : List (ℕ × Event)
four_steps = (0, advances) ∷ (1, advances) ∷ (0, advances) ∷ (0, advances) ∷ (0, advances) ∷ []

no_errors : check_config default_config ≡ []
unfolding check_config same_text
no_errors = refl

abbrev served_server : Server Counter
served_server =
    run (counter_store rounded) default_config 3 quiet_server
      (request_events (counter_store rounded) default_config 2 raw)

quiet-finished : quiet_server.stages 2 ≡ finished nothing
unfolding idle_server
quiet-finished = refl

quiet-inflight : quiet_server.shared.inflight ≡ 0
unfolding idle_server
quiet-inflight = refl

run-served_example :
    (served_server.stages 2
      ≡ finished (record {
        status = 200;
        headers = body_headers (length (document fizz));
        body = sequence fizz;
      }))
    × (served_server.shared.inflight ≡ 0)
    × (served_server.shared.store
        ≡ ((counter_store rounded).record_hit quiet_server.shared.store fizz).0)
run-served_example =
    run-served (counter_store rounded) default_config no_errors default-IsServed 3 quiet_server 2
      raw fizz nothing (omega arith) (omega arith) raw-fizz fizz-validated quiet-finished
      quiet-inflight

-- Four calls; the third is too late, for another one was faster.
abbrev error_calls : List (ℕ × ℕ)
error_calls = (5 * 10 ^ 10, 2 * 10 ^ 10) ∷ (3 * 10 ^ 10, 0) ∷ (2 * 10 ^ 10, 0) ∷ (10 ^ 9, 0) ∷ []

log_all-Spaced_example : Spaced 0 (log_all error_calls).lines
log_all-Spaced_example = log_all-Spaced error_calls (
  omega arith,
  omega arith,
  (omega arith, omega arith, (omega arith, omega arith, (omega arith, omega arith, tt))),
)

check_query-send_example :
    (check_query (λ t. t) default_config query_media_type (λ limit. whole raw) ≡ send fizz 89) ↔ (
      (same_text query_media_type query_media_type ≡ true)
      × ((body : Bytes) × (whole raw ≡ whole body)
          × (check_request default_config get_method body ≡ send fizz 89)))
check_query-send_example =
    check_query-send (λ t. t) default_config query_media_type (λ limit. whole raw) fizz 89

fizz-sent : check_request default_config get_method raw ≡ send fizz (json_size fizz)
unfolding check_request
fizz-sent =
    ap (check_parsed default_config get_method) raw-fizz
    ∙ ap (check_validated get_method fizz) fizz-validated

stream-document_example :
    (kept (stream still default_config buffer [] fizz).w ≡ [] ++ document fizz)
    × ((text : Bytes) × (header_text (codes "Content-Length") (
            reply_headers
              (advance
                (counter_store rounded)
                default_config
                (streaming fizz (json_size fizz))
                quiet_server.shared).0)
          ≡ some text)
        × (parse_int text ≡ parsed (length (document fizz))))
stream-document_example =
    stream-document still default_config buffer kept buffer-IsWriter (λ w t. refl) default-IsServed
      raw fizz (json_size fizz) (omega arith) fizz-sent [] fizz_complete (counter_store rounded)
      quiet_server.shared
