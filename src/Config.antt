-- ===== src/Config.antt =====
-- config.go: the configuration from the environment. `getenv` and the parsers of strconv and time are
-- parameters: a parser returns a value, which is stored also when there is an error, and the error.
-- Durations are nanoseconds; the numbers are 64-bit patterns with a sign.
pub mod Bounds
use fizzbuzz.Prelude.{
  ℕ, ◌-◌, ◌*◌, ◌/◌, ◌%◌, ◌^◌, Bool, true, false, not, ◌&&◌, Option, none, some, List, [], ◌∷◌, ◌++◌,
  Bytes, codes, same_text, length, ◌==◌, if◌then◌else◌, two_64, lt_int, is_neg,
}
use fizzbuzz.Sequence.Params.{Limits, default_limits}
use fizzbuzz.Stats.{prefix_cost}

pub record Config : Type 0 where
  pub port : Bytes
  pub limits : Limits
  pub max_inflight_bytes : ℕ
  pub write_chunk_timeout : ℕ
  pub read_header_timeout : ℕ
  pub read_timeout : ℕ
  pub idle_timeout : ℕ
  pub shutdown_timeout : ℕ
  pub max_header_bytes : ℕ
  pub stats_store : Bytes
  pub stats_max_bytes : ℕ
  pub stats_flush_interval : ℕ
  pub redis_addr : Bytes
  pub redis_timeout : ℕ

-- time.Second
abbrev second : ℕ
second = 10 ^ 9

abbrev pub default_config : Config
default_config = record {
  port = codes "8080";
  limits = default_limits;
  max_inflight_bytes = 2 ^ 30;
  write_chunk_timeout = 10 * second;
  read_header_timeout = 5 * second;
  read_timeout = 10 * second;
  idle_timeout = 120 * second;
  shutdown_timeout = 25 * second;
  max_header_bytes = 16 * 2 ^ 10;
  stats_store = codes "memory";
  stats_max_bytes = 64 * 2 ^ 20;
  stats_flush_interval = second / 10;
  redis_addr = [];
  redis_timeout = second / 10;
}

-- An error: a value that does not parse, with the parser's error, or a check that fails.
pub data ConfigError : Type 0 where
  bad_value : Bytes → Bytes → Bytes → ConfigError
  bad_config : Bytes → ConfigError

-- `a / k` for a positive k: it rounds toward zero.
abbrev pub div_int : ℕ → ℕ → ℕ
div_int a k = if is_neg a then (two_64 - (two_64 - a) / k) % two_64 else a / k

-- The switch: at most one error.
unfoldable pub check_config : Config → List ConfigError
check_config c =
    if lt_int c.max_inflight_bytes c.limits.max_response_bytes
    then bad_config (
        codes
          "MAX_INFLIGHT_BYTES must be >= MAX_RESPONSE_BYTES, or the largest response could never run")
      ∷ []
    else if not (same_text c.stats_store (codes "memory"))
        && not (same_text c.stats_store (codes "redis"))
    then bad_value (codes "STATS_STORE") c.stats_store (codes "must be memory or redis") ∷ []
    else if lt_int (2 ^ 32 - 1) c.limits.max_limit
    then bad_config
        (codes "MAX_LIMIT must be less than 2^32, because the memory store keeps limit in 32 bits")
      ∷ []
    else if lt_int (2 ^ 32 - 1) (div_int c.stats_max_bytes prefix_cost)
    then bad_config
        (codes "STATS_MAX_BYTES is too large for the 32-bit prefix IDs of the memory store")
      ∷ []
    else if not (lt_int 0 c.stats_flush_interval)
    then bad_config (codes "STATS_FLUSH_INTERVAL must be positive") ∷ []
    else if same_text c.stats_store (codes "redis") && (length c.redis_addr == 0)
    then bad_config (codes "REDIS_ADDR is required when STATS_STORE=redis") ∷ []
    else []

abbrev pub Loading : Type 0
Loading = Config × List ConfigError

-- What a parser does with the configuration.
abbrev pub Setter : Type 0
Setter = Bytes → Config → Config × Option Bytes

-- The closure `set`, for the value that `getenv` returned.
unfoldable pub set_value : Bytes → Bytes → Setter → Loading → Loading
set_value key v parse (c, errs) = if length v == 0 then (c, errs) else elim (parse v c).1 [
  | none ↦ ((parse v c).0, errs)
  | some e ↦ ((parse v c).0, errs ++ bad_value key v e ∷ [])
]

module _ (getenv : Bytes → Bytes) (parse_int atoi parse_duration : Bytes → ℕ × Option Bytes) where
  abbrev set_key : Bytes → Setter → Loading → Loading
  set_key key parse s = set_value key (getenv key) parse s

  abbrev set_limits : Loading → Loading
  set_limits s =
      set_key (codes "MAX_RESPONSE_BYTES")
        (λ v c. (
          record c { limits = record c.limits { max_response_bytes = (parse_int v).0 } },
          (parse_int v).1,
        ))
        (set_key (codes "MAX_STR_BYTES")
          (λ v c.
            (record c { limits = record c.limits { max_str_bytes = (atoi v).0 } }, (atoi v).1))
          (set_key (codes "MAX_LIMIT")
            (λ v c. (record c { limits = record c.limits { max_limit = (atoi v).0 } }, (atoi v).1))
            s))

  abbrev set_timeouts : Loading → Loading
  set_timeouts s =
      set_key (codes "SHUTDOWN_TIMEOUT")
        (λ v c. (record c { shutdown_timeout = (parse_duration v).0 }, (parse_duration v).1))
        (set_key (codes "IDLE_TIMEOUT")
          (λ v c. (record c { idle_timeout = (parse_duration v).0 }, (parse_duration v).1))
          (set_key (codes "READ_TIMEOUT")
            (λ v c. (record c { read_timeout = (parse_duration v).0 }, (parse_duration v).1))
            (set_key (codes "READ_HEADER_TIMEOUT")
              (λ v c.
                (record c { read_header_timeout = (parse_duration v).0 }, (parse_duration v).1))
              (set_key (codes "WRITE_CHUNK_TIMEOUT")
                (λ v c.
                  (record c { write_chunk_timeout = (parse_duration v).0 }, (parse_duration v).1))
                s))))

  abbrev set_stats : Loading → Loading
  set_stats s =
      set_key (codes "REDIS_TIMEOUT")
        (λ v c. (record c { redis_timeout = (parse_duration v).0 }, (parse_duration v).1))
        (set_key (codes "REDIS_ADDR") (λ v c. (record c { redis_addr = v }, none))
          (set_key (codes "STATS_FLUSH_INTERVAL")
            (λ v c.
              (record c { stats_flush_interval = (parse_duration v).0 }, (parse_duration v).1))
            (set_key (codes "STATS_MAX_BYTES")
              (λ v c. (record c { stats_max_bytes = (parse_int v).0 }, (parse_int v).1))
              (set_key (codes "STATS_STORE") (λ v c. (record c { stats_store = v }, none)) s))))

  -- `loadConfig`: the configuration and its errors; the caller has no error if there are none.
  unfoldable pub load_config : Loading
  load_config =
      let s0 = set_key (codes "PORT") (λ v c. (record c { port = v }, none)) (default_config, []) in
      let s1 =
        set_key (codes "MAX_INFLIGHT_BYTES")
          (λ v c. (record c { max_inflight_bytes = (parse_int v).0 }, (parse_int v).1))
          (set_limits s0) in
      let s2 =
        set_key (codes "MAX_HEADER_BYTES")
          (λ v c. (record c { max_header_bytes = (atoi v).0 }, (atoi v).1)) (set_timeouts s1) in
      let s = set_stats s2 in (s.0, s.1 ++ check_config s.0)
