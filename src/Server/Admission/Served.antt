-- ===== src/Server/Admission/Served.antt =====
-- A request on a server with no byte in flight.
use fizzbuzz.Prelude.{
  ℕ, ◌<◌, ◌≡◌, inl, inr, refl, sym, ap, ◌∙◌, false, Bool-cases, none, List, [], ◌∷◌, Bytes, arith,
  length, ltb→ge, lt_int, lt_int-eq, two_63, ◌+w◌, ◌-w◌,
}
use fizzbuzz.Config.{Config, check_config}
use fizzbuzz.Sequence.Params.{Params}
use fizzbuzz.Sequence.Reference.{document}
use fizzbuzz.Sequence.Size.{json_size}
use fizzbuzz.Sequence.Validate.{validate}
use fizzbuzz.Sequence.Validate.Size.{validate-size}
use fizzbuzz.Server.{
  get_method, StatsStore, Stage, finished, started, checked, Shared, begun, check_request,
  check_parsed, check_validated, advance, Reply, body_headers, sequence, warned,
}
use fizzbuzz.Server.Parse.{got, parse_params}
use fizzbuzz.Server.Parse.Range.{parse_params-InRange}
use fizzbuzz.Server.Admission.{Server, Event, arrives, advances, arrived, step_stage, step, run}
use fizzbuzz.Server.Admission.Budget.{IsServed}
use fizzbuzz.Server.Admission.Progress.{step_here}

module _ {S : Type 0} (store : StatsStore S) (cfg : Config) where
  -- A connection with the shared state.
  abbrev at : ℕ → Server S → Stage × Shared S
  at i v = (v.stages i, v.shared)

  at-step :
      (n : ℕ) (v : Server S) (i : ℕ) (e : Event)
      → i < n
      → at i (step store cfg n v (i, e)) ≡ step_stage store cfg (v.stages i) v.shared e
  at-step n v i e lt =
      let (st, s) = step_here store cfg n v i e lt in
      ap (λ x. (x, (step store cfg n v (i, e)).shared)) st
      ∙ ap (λ x. ((step_stage store cfg (v.stages i) v.shared e).0, x)) s

  -- The last steps from the budget on.
  serve_lem :
      (p : Params) (size : ℕ) (s : Shared S)
      → lt_int cfg.max_inflight_bytes (s.inflight +w size) ≡ false
      → let a = advance store cfg (checked p size) s in
        let b = advance store cfg a.0 a.1 in
        advance store cfg b.0 b.1 ≡ (
          finished (record { status = 200; headers = body_headers size; body = sequence p }),
          record {
            inflight = (s.inflight +w size) -w size;
            store = (store.record_hit s.store p).0;
            warnings = warned (store.record_hit s.store p).1 s.warnings;
          },
        )
  unfolding advance
  serve_lem p size s fits = rw fits refl

  check_config-room :
      check_config cfg ≡ [] → lt_int cfg.max_inflight_bytes cfg.limits.max_response_bytes ≡ false
  unfolding check_config
  check_config-room e =
      elim (Bool-cases (lt_int cfg.max_inflight_bytes cfg.limits.max_response_bytes)) [
        | inl small ↦ absurd (grind (arith, e, small))
        | inr room ↦ room
      ]

  abbrev advanced : Stage × Shared S → Stage × Shared S
  advanced x = advance store cfg x.0 x.1

  -- A request alone: the events, the latest one first.
  abbrev pub request_events : ℕ → Bytes → List (ℕ × Event)
  request_events i raw =
      (i, advances)
      ∷ (i, advances)
      ∷ (i, advances)
      ∷ (i, advances)
      ∷ (i, arrives get_method raw)
      ∷ []

  run-request_events :
      (n : ℕ) (v : Server S) (i : ℕ) (raw : Bytes) (reply : Reply)
      → i < n
      → v.stages i ≡ finished reply
      → at i (run store cfg n v (request_events i raw))
        ≡ advanced (advanced (advanced (advanced (started get_method raw, v.shared))))
  unfolding run step_stage
  run-request_events n v i raw reply lt e =
      let v1 = step store cfg n v (i, arrives get_method raw) in
      let v2 = step store cfg n v1 (i, advances) in
      let v3 = step store cfg n v2 (i, advances) in
      let v4 = step store cfg n v3 (i, advances) in
      let first : at i v1 ≡ (started get_method raw, v.shared) =
        at-step n v i (arrives get_method raw) lt
        ∙ ap (λ st. (arrived st get_method raw, v.shared)) e in
      at-step n v4 i advances lt
      ∙ ap advanced (at-step n v3 i advances lt)
      ∙ ap (λ x. advanced (advanced x)) (at-step n v2 i advances lt)
      ∙ ap (λ x. advanced (advanced (advanced x))) (at-step n v1 i advances lt)
      ∙ ap (λ x. advanced (advanced (advanced (advanced x)))) first

  begun_lem :
      (raw : Bytes) (p : Params) (s : Shared S)
      → parse_params raw ≡ got p
      → validate p cfg.limits ≡ none
      → advance store cfg (started get_method raw) s ≡ (checked p (json_size p), s)
  unfolding advance check_request
  begun_lem raw p s ep ev =
      ap (λ x. (begun (check_parsed cfg get_method x), s)) ep
      ∙ ap (λ x. (begun (check_validated get_method p x), s)) ev

-- For a configuration that passes `loadConfig`'s checks, with numbers that are not negative and
-- documents within 63 bits: a GET request that fits in memory and whose parameters `Validate`
-- accepts, on a connection whose handler has finished, while no byte is in flight, is served: five
-- events later the reply is 200 with the sequence and a Content-Length that is the length of the
-- document, the store has recorded the request, and no byte is in flight.
pub run-served :
    {S : Type 0}
    → (store : StatsStore S) (cfg : Config) → check_config cfg ≡ []
    → IsServed cfg
    → (n : ℕ) (v : Server S) (i : ℕ) (raw : Bytes) (p : Params) (reply : Reply) → i < n
    → length raw < two_63
    → parse_params raw ≡ got p
    → validate p cfg.limits ≡ none
    → v.stages i ≡ finished reply
    → v.shared.inflight ≡ 0
    → let v' = run store cfg n v (request_events store cfg i raw) in
      (v'.stages i
        ≡ finished (record {
          status = 200;
          headers = body_headers (length (document p));
          body = sequence p;
        }))
      × (v'.shared.inflight ≡ 0)
      × (v'.shared.store ≡ (store.record_hit v.shared.store p).0)
run-served store cfg checks ok n v i raw p reply lt fit ep ev idle none_held =
    let (a, size) =
      validate-size p cfg.limits (parse_params-InRange raw p fit ep) ok.limits ok.fits ev in
    let room = ltb→ge _ _ (
      sym (
        lt_int-eq cfg.max_inflight_bytes cfg.limits.max_response_bytes ok.budget
          ok.limits.max_response_int)
      ∙ check_config-room store cfg checks) in
    let total : v.shared.inflight +w json_size p ≡ json_size p =
      omega (arith, size, a.size, ok.limits.max_response_int, none_held) in
    let fits : lt_int cfg.max_inflight_bytes (v.shared.inflight +w json_size p) ≡ false = ground (
      arith,
      total,
      size,
      a.size,
      room,
      ok.budget,
      lt_int-eq cfg.max_inflight_bytes (json_size p),
    ) in
    let end =
      run-request_events store cfg n v i raw reply lt idle
      ∙ ap (λ x. advanced store cfg (advanced store cfg (advanced store cfg x)))
          (begun_lem store cfg raw p v.shared ep ev)
      ∙ serve_lem store cfg p (json_size p) v.shared fits in
    (
      ap (λ x. x.0) end
          ∙ ap
              (λ k. finished (record { status = 200; headers = body_headers k; body = sequence p }))
              size,
      ap (λ x. x.1.inflight) end ∙ omega (arith, total, size, a.size, ok.limits.max_response_int),
      ap (λ x. x.1.store) end,
    )
