-- ===== src/Server/Admission/Budget.antt =====
-- The bytes in flight: what they count, and their bound.
use fizzbuzz.Prelude.{
  ℕ, ◌+◌, ◌≤◌, ◌<◌, ◌≡◌, ◌⊎◌, inl, inr, refl, sym, ap, ◌∙◌, Bool-cases, Option, none, some, Bytes,
  arith, length, ltb→ge, lt_int, lt_int-eq, two_63, ◌+w◌,
}
use fizzbuzz.Config.{Config}
use fizzbuzz.Sequence.Params.{Params, FieldError}
use fizzbuzz.Sequence.Validate.{validate}
use fizzbuzz.Sequence.Validate.Accepts.{IsLimits}
use fizzbuzz.Sequence.Validate.Size.{FitsWord, validate-size}
use fizzbuzz.Server.{
  Method, get_method, head_method, StatsStore, Stage, finished, started, checked, over, admitted,
  streaming, Shared, Checked, answer, send, begun, check_validated, check_parsed, check_request,
  advance,
}
use fizzbuzz.Server.Parse.{Parsed, refused, got, parse_params}
use fizzbuzz.Server.Parse.Range.{parse_params-InRange}
use fizzbuzz.Server.Admission.{Event, arrives, advances, arrived, step_stage}

-- What a handler has added to the bytes in flight.
abbrev pub held : Stage → ℕ
held (finished reply) = 0
held (started method raw) = 0
held (checked p size) = 0
held (over size) = size
held (admitted p size) = size
held (streaming p size) = size

-- What it was let in with.
abbrev pub taken : Stage → ℕ
taken (finished reply) = 0
taken (started method raw) = 0
taken (checked p size) = 0
taken (over size) = 0
taken (admitted p size) = size
taken (streaming p size) = size

pub taken-le : (st : Stage) → taken st ≤ held st
taken-le (finished reply) = omega arith
taken-le (started method raw) = omega arith
taken-le (checked p size) = omega arith
taken-le (over size) = omega arith
taken-le (admitted p size) = omega arith
taken-le (streaming p size) = omega arith

-- No size is above `m`, and a query fits in memory.
abbrev pub Sized : ℕ → Stage → Type 0
Sized m (finished reply) = Unit
Sized m (started method raw) = length raw < two_63
Sized m (checked p size) = size ≤ m
Sized m (over size) = size ≤ m
Sized m (admitted p size) = size ≤ m
Sized m (streaming p size) = size ≤ m

pub held-le : (m : ℕ) (st : Stage) → Sized m st → held st ≤ m
held-le m (finished reply) h = omega arith
held-le m (started method raw) h = omega arith
held-le m (checked p size) h = omega arith
held-le m (over size) h = h
held-le m (admitted p size) h = h
held-le m (streaming p size) h = h

abbrev pub Fitting : Event → Type 0
Fitting (arrives method raw) = length raw < two_63
Fitting advances = Unit

-- A configuration whose numbers are not negative, and whose documents stay within 63 bits.
pub record IsServed (cfg : Config) : Type 0 where
  pub limits : IsLimits cfg.limits
  pub fits : FitsWord cfg.limits
  pub budget : cfg.max_inflight_bytes < two_63

module _ {S : Type 0} (store : StatsStore S) (cfg : Config) (ok : IsServed cfg) where
  abbrev pub largest : ℕ
  largest = cfg.limits.max_response_bytes

  checked-Sized :
      (method : Method) (raw : Bytes)
      → length raw < two_63
      → Sized largest (begun (check_request cfg method raw))
  unfolding check_request
  checked-Sized method raw h = go (parse_params raw) refl
    where
      validated :
          (m : Method) (p : Params) (x : Option FieldError)
          → parse_params raw ≡ got p
          → validate p cfg.limits ≡ x
          → Sized largest (begun (check_validated m p x))
      validated m p (some e) ep ev = tt
      validated head_method p none ep ev = tt
      validated get_method p none ep ev =
          let (a, size) =
            validate-size p cfg.limits (parse_params-InRange raw p h ep) ok.limits ok.fits ev in
          omega (arith, a.size)

      go :
          (x : Parsed Params)
          → parse_params raw ≡ x
          → Sized largest (begun (check_parsed cfg method x))
      go (refused e) ep = tt
      go (got p) ep = validated method p (validate p cfg.limits) ep refl

  -- A step of one handler: the others' bytes stay, and a handler is let in within the budget.
  pub record Kept (st : Stage) (s : Shared S) (r : Stage × Shared S) : Type 0 where
    pub sized : Sized largest r.0
    pub balance : r.1.inflight + held st ≡ s.inflight + held r.0
    pub within : (taken r.0 ≤ taken st) ⊎ (r.1.inflight ≤ cfg.max_inflight_bytes)

  module _ (s : Shared S) (room : s.inflight + largest < two_63) where
    advance-Kept :
        (st : Stage) → Sized largest st → held st ≤ s.inflight → Kept st s (advance store cfg st s)
    unfolding advance
    advance-Kept (finished reply) h le = record {
      sized = tt;
      balance = refl;
      within = inl (omega arith);
    }
    advance-Kept (started method raw) h le =
        let sized = checked-Sized method raw h in
        record {
          sized = sized;
          balance = ap (λ x. s.inflight + x) (sym (nothing (check_request cfg method raw)));
          within = inl (
              omega (
                arith,
                taken-le (begun (check_request cfg method raw)),
                nothing (check_request cfg method raw),
              ));
        }
      where
        nothing : (x : Checked) → held (begun x) ≡ 0
        nothing (answer reply) = refl
        nothing (send p size) = refl
    advance-Kept (checked p size) h le =
        let total : s.inflight +w size ≡ s.inflight + size = omega (arith, h) in
        let test =
          lt_int-eq cfg.max_inflight_bytes (s.inflight +w size) ok.budget (omega (arith, h)) in
        elim (Bool-cases (lt_int cfg.max_inflight_bytes (s.inflight +w size))) [
          | inl full ↦
              rw full (record { sized = h; balance = omega arith; within = inl (omega arith) })
          | inr fits ↦
              let le = ltb→ge _ _ (sym test ∙ fits) in
              rw fits (record { sized = h; balance = omega arith; within = inr le })
        ]
    advance-Kept (over size) h le = record {
      sized = tt;
      balance = omega arith;
      within = inl (omega arith);
    }
    advance-Kept (admitted p size) h le = record {
      sized = h;
      balance = refl;
      within = inl (omega arith);
    }
    advance-Kept (streaming p size) h le = record {
      sized = tt;
      balance = omega arith;
      within = inl (omega arith);
    }

    arrived-Kept :
        (st : Stage) (method : Method) (raw : Bytes)
        → length raw < two_63
        → Sized largest st
        → Kept st s (arrived st method raw, s)
    arrived-Kept (finished reply) method raw k h = record {
      sized = k;
      balance = refl;
      within = inl (omega arith);
    }
    arrived-Kept (started m r) method raw k h = record {
      sized = h;
      balance = refl;
      within = inl (omega arith);
    }
    arrived-Kept (checked p size) method raw k h = record {
      sized = h;
      balance = refl;
      within = inl (omega arith);
    }
    arrived-Kept (over size) method raw k h = record {
      sized = h;
      balance = refl;
      within = inl (omega arith);
    }
    arrived-Kept (admitted p size) method raw k h = record {
      sized = h;
      balance = refl;
      within = inl (omega arith);
    }
    arrived-Kept (streaming p size) method raw k h = record {
      sized = h;
      balance = refl;
      within = inl (omega arith);
    }

    pub step_stage-Kept :
        (st : Stage) (e : Event)
        → Fitting e
        → Sized largest st
        → held st ≤ s.inflight
        → Kept st s (step_stage store cfg st s e)
    unfolding step_stage
    step_stage-Kept st (arrives method raw) f h le = arrived-Kept st method raw f h
    step_stage-Kept st advances f h le = advance-Kept st h le
