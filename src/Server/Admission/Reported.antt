-- ===== src/Server/Admission/Reported.antt =====
-- What GET /stats replies after the handlers' steps.
use mathlib.Core.Path.{subst}
use native.Mathlib.Decide.{ℕ_discrete}
use fizzbuzz.Prelude.{
  ℕ, ◌/◌, ◌^◌, ◌<◌, ◌≡◌, ◌⊎◌, inl, inr, refl, sym, Bool, true, false, Bool-cases, Option, none,
  some, List, [], ◌∷◌, Bytes, arith, length, ltb, if◌then◌else◌, two_63, two_64, lt_int, ◌+w◌,
  update, update_here, update_there,
}
use fizzbuzz.Config.{Config}
use fizzbuzz.Sequence.Params.{Params, FieldError}
use fizzbuzz.Sequence.Validate.{validate}
use fizzbuzz.Sequence.Validate.Size.{validate-size}
use fizzbuzz.Stats.{Counter, new_counter}
use fizzbuzz.Stats.Exact.{IsAlloc, IsRequest}
use fizzbuzz.Stats.Winner.{AllRequests}
use fizzbuzz.Server.{
  Method, get_method, head_method, Stage, finished, started, checked, over, admitted, streaming,
  Shared, Reply, begun, check_validated, check_parsed, check_request, advance,
}
use fizzbuzz.Server.ErrorLog.{ErrorLog}
use fizzbuzz.Server.Parse.{Parsed, refused, got, parse_params}
use fizzbuzz.Server.Parse.Range.{parse_params-InRange}
use fizzbuzz.Server.Statistics.{statistics, unavailable_reply, counter_store}
use fizzbuzz.Server.Statistics.Counting.{Winner, statistics-hits}
use fizzbuzz.Server.Admission.{Server, Event, arrives, advances, step_stage, step, run, idle_server}
use fizzbuzz.Server.Admission.Budget.{Fitting, IsServed}
use fizzbuzz.Server.Admission.Bound.{AllFitting}
use fizzbuzz.Server.Admission.Recorded.{recorded_by, recorded, run-served_by, length-recorded}

-- What a handler is about to record is a request that the counter takes.
abbrev IsCounted : Stage → Type 0
IsCounted (finished reply) = Unit
IsCounted (started method raw) = length raw < two_63
IsCounted (checked p size) = IsRequest p
IsCounted (over size) = Unit
IsCounted (admitted p size) = IsRequest p
IsCounted (streaming p size) = Unit

-- A configuration whose limits fit the counter: `loadConfig` checks the first.
pub record IsCounting (cfg : Config) : Type 0 where
  pub served : IsServed cfg
  pub limit : cfg.limits.max_limit < 2 ^ 32
  pub strings : cfg.limits.max_str_bytes < 2 ^ 60

module _ (alloc_size : ℕ → ℕ) (cfg : Config) (ok : IsCounting cfg) where
  checked-IsCounted :
      (method : Method) (raw : Bytes)
      → length raw < two_63
      → IsCounted (begun (check_request cfg method raw))
  unfolding check_request
  checked-IsCounted method raw h = go (parse_params raw) refl
    where
      validated :
          (m : Method) (p : Params) (x : Option FieldError)
          → parse_params raw ≡ got p
          → validate p cfg.limits ≡ x
          → IsCounted (begun (check_validated m p x))
      validated m p (some e) ep ev = tt
      validated head_method p none ep ev = tt
      validated get_method p none ep ev =
          let (a, size) =
            validate-size p cfg.limits (parse_params-InRange raw p h ep) ok.served.limits
              ok.served.fits ev in
          record {
            limit_pos = a.positive.limit_pos;
            limit_small = omega (arith, a.limit, ok.limit);
            str1_small = omega (arith, a.str1.short, ok.strings);
            str2_small = omega (arith, a.str2.short, ok.strings);
          }

      go :
          (x : Parsed Params) → parse_params raw ≡ x → IsCounted (begun (check_parsed cfg method x))
      go (refused e) ep = tt
      go (got p) ep = validated method p (validate p cfg.limits) ep refl

  over_if :
      (b : Bool) (p : Params) (size : ℕ)
      → IsRequest p
      → IsCounted (if b then over size else admitted p size)
  over_if true p size r = tt
  over_if false p size r = r

  step_stage-IsCounted :
      (st : Stage) (e : Event) (s : Shared Counter)
      → Fitting e
      → IsCounted st
      → IsCounted (step_stage (counter_store alloc_size) cfg st s e).0
  unfolding step_stage advance
  step_stage-IsCounted (finished reply) (arrives method raw) s f h = f
  step_stage-IsCounted (started m r) (arrives method raw) s f h = h
  step_stage-IsCounted (checked p size) (arrives method raw) s f h = h
  step_stage-IsCounted (over size) (arrives method raw) s f h = h
  step_stage-IsCounted (admitted p size) (arrives method raw) s f h = h
  step_stage-IsCounted (streaming p size) (arrives method raw) s f h = h
  step_stage-IsCounted (finished reply) advances s f h = tt
  step_stage-IsCounted (started method raw) advances s f h = checked-IsCounted method raw h
  step_stage-IsCounted (checked p size) advances s f h =
      over_if (lt_int cfg.max_inflight_bytes (s.inflight +w size)) p size h
  step_stage-IsCounted (over size) advances s f h = tt
  step_stage-IsCounted (admitted p size) advances s f h = tt
  step_stage-IsCounted (streaming p size) advances s f h = tt

  recorded_by-AllRequests :
      (st : Stage) (e : Event) (h : List Params)
      → IsCounted st
      → AllRequests h
      → AllRequests (recorded_by st e h)
  unfolding recorded_by
  recorded_by-AllRequests st (arrives method raw) h v all = all
  recorded_by-AllRequests (finished reply) advances h v all = all
  recorded_by-AllRequests (started method raw) advances h v all = all
  recorded_by-AllRequests (checked p size) advances h v all = all
  recorded_by-AllRequests (over size) advances h v all = all
  recorded_by-AllRequests (admitted p size) advances h v all = (v, all)
  recorded_by-AllRequests (streaming p size) advances h v all = all

  -- All stages and all that was recorded.
  abbrev AllCounted : Server Counter → List Params → Type 0
  AllCounted v h = ((i : ℕ) → IsCounted (v.stages i)) × AllRequests h

  run-AllCounted :
      (n : ℕ) (v : Server Counter) (es : List (ℕ × Event))
      → ((i : ℕ) → IsCounted (v.stages i))
      → AllFitting es
      → AllCounted (run (counter_store alloc_size) cfg n v es) (recorded alloc_size cfg n v es)
  unfolding run step recorded
  run-AllCounted n v [] start f = (start, tt)
  run-AllCounted n v ((i, e) ∷ es) start (f, fs) =
      let before = run (counter_store alloc_size) cfg n v es in
      let (stages, all) = run-AllCounted n v es start fs in
      let next = (step_stage (counter_store alloc_size) cfg (before.stages i) before.shared e).0 in
      elim (Bool-cases (ltb i n)) [
        | inl inside ↦ rw inside (
          λ j. elim (ℕ_discrete j i) [
            | yes here ↦
                subst (λ x. IsCounted (update before.stages i next x)) (sym here)
                  (subst IsCounted (sym (update_here before.stages i next))
                    (step_stage-IsCounted (before.stages i) e before.shared f (stages i)))
            | no other ↦
                subst IsCounted (sym (update_there before.stages i next j other)) (stages j)
          ],
          recorded_by-AllRequests (before.stages i) e _ (stages i) all,
        )
        | inr outside ↦ rw outside (stages, all)
      ]

-- For an allocator with bounded size classes, a configuration whose numbers are not negative, with
-- documents within 63 bits and a limit of the counter's 32 bits, a budget that it allows, and queries
-- that fit in memory: after fewer than 2 ^ 64 steps of any handlers in any order from a new server,
-- GET /stats replies with the winner of the requests that the handlers recorded and its hits, or that
-- there were too many distinct requests.
pub run-statistics :
    (alloc_size : ℕ → ℕ) (cfg : Config)
    → IsAlloc alloc_size
    → IsCounting cfg
    → cfg.stats_max_bytes / 152 < 2 ^ 32
    → (n : ℕ) (replies : ℕ → Reply) (es : List (ℕ × Event)) (now now' : ℕ) (log : ErrorLog)
      (warnings : ℕ)
    → AllFitting es
    → length es < two_64
    → let v = idle_server (new_counter cfg.stats_max_bytes) (λ i. finished (replies i)) in
      let r = statistics (counter_store alloc_size) now now' (record {
        store = (run (counter_store alloc_size) cfg n v es).shared.store;
        log = log;
        warnings = warnings;
      }) in
      (r.1 ≡ unavailable_reply) ⊎ Winner (recorded alloc_size cfg n v es) r.1
unfolding idle_server
run-statistics alloc_size cfg a ok fit n replies es now now' log warnings fits few =
    let v = idle_server (new_counter cfg.stats_max_bytes) (λ i. finished (replies i)) in
    let h = recorded alloc_size cfg n v es in
    subst
      (λ c.
        let r =
          statistics (counter_store alloc_size) now now'
            (record { store = c; log = log; warnings = warnings }) in
        (r.1 ≡ unavailable_reply) ⊎ Winner h r.1)
      (sym (run-served_by alloc_size cfg n v es))
      (statistics-hits alloc_size cfg.stats_max_bytes h now now' log warnings a fit
        (run-AllCounted alloc_size cfg ok n v es (λ i. tt) fits).1
        (omega (arith, length-recorded alloc_size cfg n v es))).0
