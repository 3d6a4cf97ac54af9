-- ===== src/Server.antt =====
-- server.go and query.go: the HTTP server. A reply is what a handler asks gin to write: a status, the
-- headers that the handler sets, and a body. The store is a parameter (StatsStore), as are the
-- connection and the clock. An atomic operation is one step.
pub mod Parse
pub mod Checks
pub mod Admission
pub mod ErrorLog
pub mod Query
pub mod Stream
pub mod Statistics
use fizzbuzz.Prelude.{
  ℕ, ◌+◌, ◌-◌, ◌*◌, ◌^◌, Bool, true, false, not, Option, none, some, List, [], ◌∷◌, ◌++◌, Bytes,
  codes, if◌then◌else◌, same_text, ◌+w◌, ◌-w◌, lt_int,
}
use fizzbuzz.GoLib.Decimal.{format_int}
use fizzbuzz.Sequence.Params.{Params, FieldError, error_text}
use fizzbuzz.Sequence.Size.{json_size}
use fizzbuzz.Sequence.Validate.{validate}
use fizzbuzz.Config.{Config}
use fizzbuzz.Server.Parse.{Parsed, refused, got, parse_params}

-- errStatsUnavailable, or another error with its text.
pub data StoreError : Type 0 where
  unavailable : StoreError
  store_failed : Bytes → StoreError

pub data TopResult : Type 0 where
  top_error : StoreError → TopResult
  top_is : Params → ℕ → TopResult

pub record FlushResult : Type 0 where
  pub saturated_now : Bool
  pub error : Option StoreError

-- The interface `statsStore`; `S` is the state of a store and of what it talks to.
pub record StatsStore (S : Type 0) : Type 0 where
  pub record_hit : S → Params → S × Bool
  pub flush : S → S × FlushResult
  pub top : S → S × TopResult

pub data Body : Type 0 where
  no_body : Body
  error_json : Bytes → Body
  stats_json : Option Params → ℕ → Body
  sequence : Params → Body

abbrev pub Header : Type 0
Header = Bytes × Bytes

pub record Reply : Type 0 where
  pub status : ℕ
  pub headers : List Header
  pub body : Body

pub data Method : Type 0 where
  get_method : Method
  head_method : Method

-- `setBodyHeaders`
abbrev pub body_headers : ℕ → List Header
body_headers size =
    (codes "Content-Type", codes "application/json")
    ∷ (codes "Content-Length", format_int size)
    ∷ []

abbrev pub json_error : ℕ → List Header → Bytes → Reply
json_error status headers text = record {
  status = status;
  headers = headers;
  body = error_json text;
}

abbrev pub bad_request : FieldError → Reply
bad_request e = json_error 400 [] (error_text e)

abbrev pub busy : Reply
busy =
    json_error 503 ((codes "Retry-After", codes "1") ∷ [])
      (codes "server busy: too many large responses in flight")

-- The request of `fizzbuzz`, checked: a reply, or the parameters of a body to send with its size.
pub data Checked : Type 0 where
  answer : Reply → Checked
  send : Params → ℕ → Checked

abbrev pub check_validated : Method → Params → Option FieldError → Checked
check_validated method p (some e) = answer (bad_request e)
check_validated get_method p none = send p (json_size p)
check_validated head_method p none =
    answer (record { status = 200; headers = body_headers (json_size p); body = no_body })

abbrev pub check_parsed : Config → Method → Parsed Params → Checked
check_parsed cfg method (refused e) = answer (bad_request e)
check_parsed cfg method (got p) = check_validated method p (validate p cfg.limits)

-- `fizzbuzz` up to the budget.
unfoldable pub check_request : Config → Method → Bytes → Checked
check_request cfg method raw = check_parsed cfg method (parse_params raw)

-- Where the handler of a connection stands; `over` has yet to give its bytes back.
pub data Stage : Type 0 where
  finished : Reply → Stage
  started : Method → Bytes → Stage
  checked : Params → ℕ → Stage
  over : ℕ → Stage
  admitted : Params → ℕ → Stage
  streaming : Params → ℕ → Stage

-- What the handlers share: the bytes in flight, the store and how often it warned of saturation.
pub record Shared (S : Type 0) : Type 0 where
  pub inflight : ℕ
  pub store : S
  pub warnings : ℕ

abbrev pub begun : Checked → Stage
begun (answer reply) = finished reply
begun (send p size) = checked p size

abbrev pub warned : Bool → ℕ → ℕ
warned b n = if b then n + 1 else n

module _ {S : Type 0} (store : StatsStore S) (cfg : Config) where
  -- The next step of a handler. After `streaming` the body was written, or the client left.
  unfoldable pub advance : Stage → Shared S → Stage × Shared S
  advance (finished reply) s = (finished reply, s)
  advance (started method raw) s = (begun (check_request cfg method raw), s)
  advance (checked p size) s =
      let total = s.inflight +w size in
      (
        if lt_int cfg.max_inflight_bytes total then over size else admitted p size,
        record s { inflight = total },
      )
  advance (over size) s = (finished busy, record s { inflight = s.inflight -w size })
  advance (admitted p size) s =
      let (store', saturated_now) = store.record_hit s.store p in
      (streaming p size, record s { store = store'; warnings = warned saturated_now s.warnings })
  advance (streaming p size) s = (
    finished (record { status = 200; headers = body_headers size; body = sequence p }),
    record s { inflight = s.inflight -w size },
  )
