-- ===== src/RedisStore.antt =====
-- redis_store.go: the counter that the replicas share by way of Redis. The mutex `mu` makes each use
-- of the local counts one step, and `flushMu` keeps one flush of a replica at a time; a map is an
-- association list. The Redis server is a parameter (Redis).
pub mod Pending
pub mod Script
pub mod System
pub mod Replica
pub mod Saturation
pub mod Exact
pub mod Delivery
pub mod Flush
pub mod Costs
pub mod Accounts
pub mod Top
pub mod Shutdown
use mathlib.Core.List.{lookup}
use fizzbuzz.Prelude.{
  ℕ, ◌+◌, ◌-◌, ◌*◌, ◌%◌, ◌^◌, Bool, true, false, Option, none, some, List, [], ◌∷◌, ◌++◌, Bytes,
  codes, leb, ◌==◌, if◌then◌else◌, length, ◌+w◌, ◌-w◌, lt_int, is_some,
}
use fizzbuzz.GoLib.Decimal.{format_int}
use fizzbuzz.GoLib.Json.{marshal}
use fizzbuzz.Sequence.Params.{Params, Params-discrete}
use fizzbuzz.Stats.Maps.{store}
use fizzbuzz.Redis.{Commands, or_zero}

abbrev pub stats_key_overhead : ℕ
stats_key_overhead = 128

unfoldable pub memory_cost : Params → ℕ
memory_cost p = stats_key_overhead +w (length p.str1 +w length p.str2)

abbrev pub counts_key : Bytes
counts_key = codes "{fizzbuzz}:stats:counts"

abbrev pub used_key : Bytes
used_key = codes "{fizzbuzz}:stats:used"

abbrev pub saturated_key : Bytes
saturated_key = codes "{fizzbuzz}:stats:saturated"

-- The key of the process with the random text `id`.
abbrev pub seq_key_of : Bytes → Bytes
seq_key_of id = codes "{fizzbuzz}:stats:seq:" ++ id

abbrev pub batch_seq_ttl_seconds : ℕ
batch_seq_ttl_seconds = 24 * 60 * 60

-- `json.Marshal(paramsJSON(p))`: the member of the sorted set. It does not fail.
unfoldable pub member_of : Params → Bytes
member_of p =
    codes "{\"int1\":"
    ++ (format_int p.int1
        ++ (codes ",\"int2\":"
            ++ (format_int p.int2
                ++ (codes ",\"limit\":"
                    ++ (format_int p.limit
                        ++ (codes ",\"str1\":"
                            ++ (marshal p.str1
                                ++ (codes ",\"str2\":" ++ (marshal p.str2 ++ codes "}")))))))))

-- A member, its hits and its cost.
pub record Item : Type 0 where
  pub member : Bytes
  pub hits : ℕ
  pub cost : ℕ

-- The arguments of the script.
pub record Batch : Type 0 where
  pub seq : ℕ
  pub ttl : ℕ
  pub budget : ℕ
  pub items : List Item

pub record PendingHits : Type 0 where
  pub n : ℕ
  pub sent : ℕ

abbrev pub Pending : Type 0
Pending = List (Params × PendingHits)

pub record RedisStore : Type 0 where
  pub max_bytes : ℕ
  pub seq_key : Bytes
  pub seq : ℕ
  pub batch : Option Batch
  pub pending : Pending
  pub used_bytes : ℕ
  pub overflow : Bool

-- `newRedisStore`, with the random text of the process.
unfoldable pub new_redis_store : Bytes → ℕ → RedisStore
new_redis_store id max_bytes = record {
  max_bytes = max_bytes;
  seq_key = seq_key_of id;
  seq = 0;
  batch = none;
  pending = [];
  used_bytes = 0;
  overflow = false;
}

-- `Record` for what the map holds for the request.
unfoldable pub record_entry : RedisStore → Params → Option PendingHits → RedisStore × Bool
record_entry s p (some h) =
    (record s { pending = store Params-discrete p (record h { n = h.n +w 1 }) s.pending }, false)
record_entry s p none =
    let used = s.used_bytes +w memory_cost p in
    if lt_int s.max_bytes used then (record s { overflow = true }, true) else (
      record s {
        used_bytes = used;
        pending = store Params-discrete p (record { n = 1; sent = 0 }) s.pending;
      },
      false,
    )

-- `Record`: the store, and whether this call found the budget exceeded.
unfoldable pub record_pending : RedisStore → Params → RedisStore × Bool
unfolding record_entry
record_pending s p =
    if s.overflow then (s, false) else record_entry s p (lookup Params-discrete p s.pending)

-- `h.sent = h.n`
unfoldable pub mark : Pending → Pending
mark [] = []
mark ((p, h) ∷ l) = (p, record h { sent = h.n }) ∷ mark l

unfoldable pub items_of : Pending → List Item
items_of [] = []
items_of ((p, h) ∷ l) =
    record { member = member_of p; hits = h.n; cost = stats_key_overhead +w length (member_of p) }
    ∷ items_of l

-- `nextBatch`
unfoldable pub next_batch : RedisStore → RedisStore × Option Batch
next_batch s =
    let marked = record s { pending = mark s.pending } in
    if length s.pending == 0 then (marked, none) else (
      record marked { seq = s.seq +w 1 },
      some (record {
        seq = s.seq +w 1;
        ttl = batch_seq_ttl_seconds;
        budget = s.max_bytes;
        items = items_of s.pending;
      }),
    )

-- A script call of `Flush`.
pub data Call : Type 0 where
  saturates : Call
  runs : Batch → Call

-- `Flush` up to its script call; none is a return with no call.
unfoldable pub begin_batch : RedisStore → Option Batch → RedisStore × Option Call
unfolding next_batch
begin_batch s (some b) = (s, some (runs b))
begin_batch s none =
    let (s', b) = next_batch s in
    (record s' { batch = b }, elim b [ none ↦ none | some b' ↦ some (runs b') ])

unfoldable pub begin_flush : RedisStore → RedisStore × Option Call
unfolding begin_batch
begin_flush s = if s.overflow then (s, some saturates) else begin_batch s s.batch

-- The loop behind the acknowledged batch, with `usedBytes`.
unfoldable pub acknowledge : ℕ → Pending → Pending × ℕ
acknowledge used [] = ([], used)
acknowledge used ((p, h) ∷ l) =
    let n = h.n -w h.sent in
    let rest = acknowledge (if n == 0 then used -w memory_cost p else used) l in
    if n == 0 then rest else ((p, record { n = n; sent = 0 }) ∷ rest.0, rest.1)

-- `Flush` after a call without error.
unfoldable pub finish_flush : RedisStore → Call → RedisStore
finish_flush s saturates = record s { pending = []; used_bytes = 0; overflow = false; batch = none }
finish_flush s (runs b) =
    let (pending, used) = acknowledge s.used_bytes s.pending in
    record s { batch = none; pending = pending; used_bytes = used }

module _ {R : Type 0} (c : Commands R) where
  -- The first loop of `flushScript`: the bytes used with the new members of the batch.
  unfoldable pub batch_used : R → List Item → ℕ → ℕ
  batch_used r [] used = used
  batch_used r (i ∷ items) used =
      batch_used r items (if is_some (c.zscore r counts_key i.member) then used else used + i.cost)

  -- The second loop.
  unfoldable pub apply_items : List Item → R → R
  apply_items [] r = r
  apply_items (i ∷ items) r = apply_items items (c.zincrby r counts_key i.hits i.member)

  -- `saturateScript`
  unfoldable pub saturate_script : R → R
  saturate_script r = c.del (c.del (c.put r saturated_key 1) counts_key) used_key

  -- `flushScript`: the server and the result.
  unfoldable pub flush_script : Bytes → Batch → R → R × ℕ
  unfolding batch_used apply_items saturate_script
  flush_script seq_key b r =
      let used = batch_used r b.items (or_zero (c.get r used_key)) in
      if c.exists r saturated_key
      then (r, 1)
      else if leb b.seq (or_zero (c.get r seq_key))
      then (r, 0)
      else if lt_int b.budget used
      then (saturate_script r, 2)
      else (c.put_ex (c.put (apply_items b.items r) used_key used) seq_key b.seq b.ttl, 0)

  unfoldable pub run_call : Bytes → Call → R → R × ℕ
  unfolding flush_script saturate_script
  run_call seq_key saturates r = (saturate_script r, 0)
  run_call seq_key (runs b) r = flush_script seq_key b r
