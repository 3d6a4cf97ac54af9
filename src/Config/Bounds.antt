-- ===== src/Config/Bounds.antt =====
-- The bounds that a loaded configuration guarantees to the counter.
use fizzbuzz.Prelude.{
  same_text, ℕ, ◌-◌, ◌/◌, ◌^◌, ◌<◌, ◌≡◌, Bool, true, false, Option, none, List, [], ◌∷◌, ◌++◌,
  Bytes, arith, lt_int, lt_int-eq, ltb→ge, codes, not, ◌&&◌, refl, sym, ◌∙◌, two_63, if◌then◌else◌,
  length,
}
use fizzbuzz.Sequence.Params.{Params}
use fizzbuzz.Sequence.Reference.{document}
use fizzbuzz.Sequence.Elements.{IsPositive}
use fizzbuzz.Sequence.Validate.{validate}
use fizzbuzz.Sequence.Validate.Accepts.{InRange, IsLimits, validate_iff}
use fizzbuzz.Config.{Config, ConfigError, check_config, load_config, div_int}

no_error :
    (b : Bool) (e : ConfigError) (r : List ConfigError)
    → (if b then e ∷ [] else r) ≡ []
    → (b ≡ false) × (r ≡ [])
no_error true e r h = absurd (ground (arith, h))
no_error false e r h = (refl, h)

append_empty : (xs ys : List ConfigError) → (xs ++ ys) ≡ [] → ys ≡ []
append_empty [] ys h = h
append_empty (x ∷ xs) ys h = absurd (ground (arith, h))

check_config-bounds :
    (c : Config)
    → check_config c ≡ []
    → (lt_int (2 ^ 32 - 1) c.limits.max_limit ≡ false)
      × (lt_int (2 ^ 32 - 1) (div_int c.stats_max_bytes 152) ≡ false)
unfolding check_config
check_config-bounds c h =
    let other =
      not (same_text c.stats_store (codes "memory"))
      && not (same_text c.stats_store (codes "redis")) in
    let (e1, r1) = no_error (lt_int c.max_inflight_bytes c.limits.max_response_bytes) _ _ h in
    let (e2, r2) = no_error other _ _ r1 in
    let (e3, r3) = no_error (lt_int (2 ^ 32 - 1) c.limits.max_limit) _ _ r2 in
    let (e4, r4) = no_error (lt_int (2 ^ 32 - 1) (div_int c.stats_max_bytes 152)) _ _ r3 in (e3, e4)

-- For every environment and every parsers: if `loadConfig` reports no error and the budget of the
-- counter is not negative, the ids of the prefixes fit 32 bits; and for limits that are not negative,
-- parameters in the machine's ranges and a document of fewer than 2 ^ 63 bytes, the limit that
-- `Validate` accepts is positive and fits 32 bits too.
pub load_config-bounds :
    (getenv : Bytes → Bytes) (parse_int atoi parse_duration : Bytes → ℕ × Option Bytes) (p : Params)
    → (load_config getenv parse_int atoi parse_duration).1 ≡ []
    → (load_config getenv parse_int atoi parse_duration).0.stats_max_bytes < two_63
    → IsLimits (load_config getenv parse_int atoi parse_duration).0.limits
    → InRange p
    → (IsPositive p → length (document p) < two_63)
    → ((load_config getenv parse_int atoi parse_duration).0.stats_max_bytes / 152 < 2 ^ 32)
      × (validate p (load_config getenv parse_int atoi parse_duration).0.limits ≡ none
          → (0 < p.limit) × (p.limit < 2 ^ 32))
unfolding load_config
load_config-bounds getenv parse_int atoi parse_duration p good budget t r small =
    let c = (load_config getenv parse_int atoi parse_duration).0 in
    let (limit, ids) = check_config-bounds c (append_empty _ _ good) in
    let positive_budget = budget in
    let max_limit =
      ltb→ge _ _
        (sym (lt_int-eq (2 ^ 32 - 1) c.limits.max_limit (omega arith) t.max_limit_int) ∙ limit) in
    (
      ground (arith, ids),
      λ e.
          let a = (validate_iff p c.limits r t small).0 e in
          (a.positive.limit_pos, omega (arith, a.limit)),
    )
