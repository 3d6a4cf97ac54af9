-- ===== src/Stats.antt =====
-- stats.go: the counter of the requests that a process keeps in memory. Each call holds the mutex
-- from its beginning to its end, so it is one step. A map is an association list. `allocSize` is the
-- growth policy of Go's allocator, a parameter here. Cloned strings have the same bytes.
pub mod Maps
pub mod Keys
pub mod Invariant
pub mod Leader
pub mod Exact
pub mod Step
pub mod Winner
use fizzbuzz.Prelude.{
  ℕ, ◌+◌, ◌*◌, ◌%◌, ◌^◌, Bool, true, false, Option, none, some, List, [], ◌∷◌, ◌==◌, Bytes, ltb,
  if◌then◌else◌, length, ◌+w◌, ◌*w◌, lt_int,
}
use Prim.Native.Nat.{bit_or}
use native.Mathlib.Decide.{ℕ_discrete}
use mathlib.Core.List.{lookup}
use mathlib.Core.HLevel
use fizzbuzz.Sequence.Params.{Params}
use fizzbuzz.Stats.Maps.{store}

abbrev pub prefix_cost : ℕ
prefix_cost = 152

abbrev pub count_cost : ℕ
count_cost = 48

-- Requests that differ only in limit share one.
pub record Prefix : Type 0 where
  pub int1 : ℕ
  pub int2 : ℕ
  pub str1 : Bytes
  pub str2 : Bytes

unfoldable pub Prefix-discrete : Discrete Prefix
Prefix-discrete = hlevel ℕ_discrete

pub record Counter : Type 0 where
  pub prefixes : List (Prefix × ℕ)
  pub counts : List (ℕ × ℕ)
  pub top : Params
  pub top_key : ℕ
  pub top_hits : ℕ
  pub used_bytes : ℕ
  pub max_bytes : ℕ
  pub saturated : Bool

-- `fizzbuzz.Params{}`
abbrev pub no_params : Params
no_params = record { int1 = 0; int2 = 0; limit = 0; str1 = []; str2 = [] }

unfoldable pub new_counter : ℕ → Counter
new_counter max_bytes = record {
  prefixes = [];
  counts = [];
  top = no_params;
  top_key = 0;
  top_hits = 0;
  used_bytes = 0;
  max_bytes = max_bytes;
  saturated = false;
}

abbrev pub prefix_of : Params → Prefix
prefix_of p = record { int1 = p.int1; int2 = p.int2; str1 = p.str1; str2 = p.str2 }

-- `uint64(id)<<32 | uint64(p.Limit)`
unfoldable pub key_of : ℕ → ℕ → ℕ
key_of id limit = bit_or (id *w 2 ^ 32) limit

-- The count of the key of this call becomes `n`; only it can take the lead.
unfoldable pub lead : Counter → Params → ℕ → ℕ → Counter
lead c p key n =
    let c' = record c { counts = store ℕ_discrete key n c.counts } in
    if ltb c'.top_hits n
    then record c' {
      top = if key == c'.top_key then c'.top else p;
      top_key = if key == c'.top_key then c'.top_key else key;
      top_hits = n;
    }
    else c'

-- The counter when a new key would exceed the budget.
abbrev pub saturate : Counter → Counter
saturate c = record c { saturated = true; prefixes = []; counts = [] }

-- The cost of a new key, for a prefix that is known or not.
unfoldable pub cost_of : (ℕ → ℕ) → Option ℕ → Params → ℕ
cost_of alloc_size (some id) p = count_cost
cost_of alloc_size none p =
    count_cost +w (prefix_cost +w alloc_size (length p.str1) +w alloc_size (length p.str2))

-- `c.prefixes[pk] = id` if the prefix is new.
abbrev pub keep_prefix : Option ℕ → Prefix → ℕ → List (Prefix × ℕ) → List (Prefix × ℕ)
keep_prefix (some known) pk id prefixes = prefixes
keep_prefix none pk id prefixes = store Prefix-discrete pk id prefixes

abbrev pub id_of : Option ℕ → ℕ → ℕ
id_of (some id) size = id
id_of none size = size % 2 ^ 32

-- `Record` for the key and what the map holds for it.
unfoldable pub record_key :
    (ℕ → ℕ) → Counter → Params → Option ℕ → ℕ → ℕ → Option ℕ → Counter × Bool
record_key alloc_size c p known id key (some n) = (lead c p key (n +w 1), false)
record_key alloc_size c p known id key none =
    let used = c.used_bytes +w cost_of alloc_size known p in
    if lt_int c.max_bytes used then (saturate c, true) else (
      lead
          (record c { used_bytes = used; prefixes = keep_prefix known (prefix_of p) id c.prefixes })
          p key 1,
      false,
    )

-- `Record`: the counter, and whether this call saturated it.
unfoldable pub record_hit : (ℕ → ℕ) → Counter → Params → Counter × Bool
record_hit alloc_size c p =
    let known = lookup Prefix-discrete (prefix_of p) c.prefixes in
    let id = id_of known (length c.prefixes) in
    let key = key_of id p.limit in
    if c.saturated
    then (c, false)
    else record_key alloc_size c p known id key (lookup ℕ_discrete key c.counts)

-- `Flush` sends nothing: the counts are local.
unfoldable pub flush : Counter → Bool
flush c = false

-- `Top`: none is errStatsUnavailable.
unfoldable pub top_of : Counter → Option (Params × ℕ)
top_of c = if c.saturated then none else some (c.top, c.top_hits)
