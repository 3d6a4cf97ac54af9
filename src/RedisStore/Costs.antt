-- ===== src/RedisStore/Costs.antt =====
-- redis_store.go: the costs of the pending requests, in a replica and in the script.
use mathlib.Core.Path.{subst}
use mathlib.Core.List.{lookup}
use fizzbuzz.Prelude.{
  ℕ, ◌+◌, ◌^◌, ◌≤◌, ◌<◌, ◌≡◌, refl, sym, ap, ◌∙◌, Bool, true, false, Bool-cases, inl, inr, Option,
  none, some, List, [], ◌∷◌, ◌++◌, Bytes, codes, arith, length, length-append, leb, gt→leb, ◌==◌,
  ◌==◌, lt_int, lt_int-eq, ltb→lt, lt→ltb, ◌+w◌, is_some, if◌then◌else◌, two_63,
}
use fizzbuzz.GoLib.Decimal.{format_int}
use fizzbuzz.GoLib.Json.{marshal}
use fizzbuzz.GoLib.Json.Length.{le-length-marshal}
use fizzbuzz.Sequence.Params.{Params, Params-discrete}
use fizzbuzz.Stats.Maps.{store}
use fizzbuzz.Redis.{Commands, Keyspace, IsRedis, or_zero}
use fizzbuzz.RedisStore.{
  Item, Batch, items_of, Pending, PendingHits, RedisStore, member_of, memory_cost, record_pending,
  record_entry, batch_seq_ttl_seconds, stats_key_overhead, saturated_key, used_key, counts_key,
  seq_key_of, batch_used, flush_script, next_batch,
}
use fizzbuzz.RedisStore.Script.{is_saturated, seq_at, saturate_script-saturated}

-- The local cost against the cost that the batch states.
pub memory_cost-less :
    (p : Params)
    → length (member_of p) < 2 ^ 63
    → memory_cost p < stats_key_overhead +w length (member_of p)
unfolding memory_cost member_of
memory_cost-less p fits = omega (
  arith,
  fits,
  le-length-marshal p.str1,
  le-length-marshal p.str2,
  length-append (marshal p.str2) (codes "}"),
  length-append (marshal p.str1) (codes ",\"str2\":" ++ (marshal p.str2 ++ codes "}")),
  length-append (format_int p.limit) (
      codes ",\"str1\":"
      ++ (marshal p.str1 ++ (codes ",\"str2\":" ++ (marshal p.str2 ++ codes "}")))),
  length-append (format_int p.int2) (
      codes ",\"limit\":"
      ++ (format_int p.limit
          ++ (codes ",\"str1\":"
              ++ (marshal p.str1 ++ (codes ",\"str2\":" ++ (marshal p.str2 ++ codes "}")))))),
  length-append (format_int p.int1) (
      codes ",\"int2\":"
      ++ (format_int p.int2
          ++ (codes ",\"limit\":"
              ++ (format_int p.limit
                  ++ (codes ",\"str1\":"
                      ++ (marshal p.str1
                          ++ (codes ",\"str2\":" ++ (marshal p.str2 ++ codes "}")))))))),
)

-- What the pending requests cost in a replica.
unfoldable pub local_cost : Pending → ℕ
local_cost [] = 0
local_cost ((p, h) ∷ l) = memory_cost p + local_cost l

-- Members that fit in memory.
abbrev pub AllFit : Pending → Type 0
AllFit [] = Unit
AllFit ((p, h) ∷ l) = (length (member_of p) < 2 ^ 63) × AllFit l

module _ {R : Type 0} (c : Commands R) (r : R) where
  -- What the items of a batch cost whose members Redis has, and the others.
  unfoldable pub known_cost : List Item → ℕ
  known_cost [] = 0
  known_cost (i ∷ items) =
      (if is_some (c.zscore r counts_key i.member) then i.cost else 0) + known_cost items

  new_cost : List Item → ℕ
  new_cost [] = 0
  new_cost (i ∷ items) =
      (if is_some (c.zscore r counts_key i.member) then 0 else i.cost) + new_cost items

  batch_used-new_cost :
      (items : List Item) (used : ℕ) → batch_used c r items used ≡ used + new_cost items
  unfolding batch_used new_cost
  batch_used-new_cost [] used = omega arith
  batch_used-new_cost (i ∷ items) used =
      elim (Bool-cases (is_some (c.zscore r counts_key i.member))) [
        | inl known ↦ rw known (omega (arith, batch_used-new_cost items used))
        | inr new ↦ rw new (omega (arith, batch_used-new_cost items (used + i.cost)))
      ]

  -- The items of the pending requests cost at least what these cost in the replica.
  local_cost-le :
      (l : Pending) → AllFit l → local_cost l ≤ known_cost (items_of l) + new_cost (items_of l)
  unfolding local_cost known_cost new_cost items_of
  local_cost-le [] f = omega arith
  local_cost-le ((p, h) ∷ l) (f, fs) =
      let less = memory_cost-less p f in
      let rest = local_cost-le l fs in
      elim (Bool-cases (is_some (c.zscore r counts_key (member_of p)))) [
        | inl known ↦ rw known (omega arith)
        | inr new ↦ rw new (omega arith)
      ]

pub local_cost-store :
    (p : Params) (v : PendingHits) (l : Pending)
    → lookup Params-discrete p l ≡ none
    → local_cost (store Params-discrete p v l) ≡ memory_cost p + local_cost l
unfolding local_cost store lookup
local_cost-store p v [] e = refl
local_cost-store p v ((q, h) ∷ l) e = elim (Params-discrete p q) [
  | yes same ↦ absurd (ground (arith, e))
  | no other ↦ ground (arith, local_cost-store p v l)
]

pub store-AllFit :
    (p : Params) (v : PendingHits) (l : Pending)
    → length (member_of p) < 2 ^ 63
    → AllFit l
    → AllFit (store Params-discrete p v l)
unfolding store
store-AllFit p v [] f fs = (f, tt)
store-AllFit p v ((q, h) ∷ l) f (g, fs) = elim (Params-discrete p q) [
  | yes same ↦ ground (arith, same)
  | no other ↦ ground (arith, other, store-AllFit p v l f fs)
]

store-nonempty :
    (p : Params) (v : PendingHits) (l : Pending)
    → (length (store Params-discrete p v l) == 0) ≡ false
unfolding store
store-nonempty p v [] = refl
store-nonempty p v ((q, h) ∷ l) = elim (Params-discrete p q) [
  | yes same ↦ ground (arith, same)
  | no other ↦ ground (arith, other)
]

-- The batch of the pending requests of a replica and one request more.
abbrev pub batch_with : RedisStore → Params → ℕ → Batch
batch_with s p seq = record {
  seq = seq;
  ttl = batch_seq_ttl_seconds;
  budget = s.max_bytes;
  items = items_of (store Params-discrete p (record { n = 1; sent = 0 }) s.pending);
}

-- The batch that a replica sends which has the request too.
next_batch-batch_with :
    (s : RedisStore) (p : Params)
    → (next_batch
        (record s { pending = store Params-discrete p (record { n = 1; sent = 0 }) s.pending })).1
      ≡ some (batch_with s p (s.seq +w 1))
unfolding next_batch
next_batch-batch_with s p = rw (store-nonempty p (record { n = 1; sent = 0 }) s.pending) refl

-- What it says of a replica that `Record` finds the budget exceeded.
Exceeded : RedisStore → Params → Type 0
Exceeded s p =
    (lookup Params-discrete p s.pending ≡ none)
    × (lt_int s.max_bytes (s.used_bytes +w memory_cost p) ≡ true)

entry-Exceeded :
    (s : RedisStore) (p : Params) (x : Option PendingHits)
    → lookup Params-discrete p s.pending ≡ x
    → (record_entry s p x).1 ≡ true
    → Exceeded s p
unfolding record_entry Exceeded
entry-Exceeded s p (some h) e t = absurd (ground (arith, t))
entry-Exceeded s p none e t =
    elim (Bool-cases (lt_int s.max_bytes (s.used_bytes +w memory_cost p))) [
      | inl over ↦ (e, over)
      | inr fits ↦ absurd (ground (arith, t, fits))
    ]

record_pending-Exceeded :
    (s : RedisStore) (p : Params) → (record_pending s p).1 ≡ true → Exceeded s p
unfolding record_pending
record_pending-Exceeded s p t = elim (Bool-cases s.overflow) [
  | inl full ↦ absurd (ground (arith, t, full))
  | inr clear ↦ entry-Exceeded s p (lookup Params-discrete p s.pending) refl (
      sym (
        ap
          (λ (b : Bool).
            (if b then (s, false) else record_entry s p (lookup Params-discrete p s.pending)).1)
          clear)
      ∙ t)
]

module _ {R : Type 0} (c : Commands R) (view : R → Keyspace) (ok : IsRedis c view) where
  used-exceeds :
      (s : RedisStore) (p : Params) (r : R) (seq : ℕ)
      → Exceeded s p
      → s.used_bytes ≡ local_cost s.pending
      → AllFit s.pending
      → length (member_of p) < 2 ^ 63
      → s.max_bytes < two_63
      → local_cost s.pending + memory_cost p < two_63
      → known_cost c r (batch_with s p seq).items ≤ or_zero (c.get r used_key)
      → s.max_bytes < batch_used c r (batch_with s p seq).items (or_zero (c.get r used_key))
  unfolding Exceeded
  used-exceeds s p r seq (new, over) e fits fit max cost known =
      let l = store Params-discrete p (record { n = 1; sent = 0 }) s.pending in
      let sum = local_cost-store p (record { n = 1; sent = 0 }) s.pending new in
      let le =
        local_cost-le c r l (store-AllFit p (record { n = 1; sent = 0 }) s.pending fit fits) in
      let all = batch_used-new_cost c r (items_of l) (or_zero (c.get r used_key)) in
      let lt = ltb→lt s.max_bytes (s.used_bytes +w memory_cost p) (
        sym (lt_int-eq s.max_bytes (s.used_bytes +w memory_cost p) max (omega (arith, e, cost)))
        ∙ over) in
      omega (arith, lt, all, le, sum, e, cost, known)

  pub flush_script-record_pending :
      (id : Bytes) (s : RedisStore) (p : Params) (r : R) (seq : ℕ)
      → (record_pending s p).1 ≡ true
      → s.used_bytes ≡ local_cost s.pending
      → AllFit s.pending
      → length (member_of p) < 2 ^ 63
      → s.max_bytes < two_63
      → local_cost s.pending + memory_cost p < two_63
      → known_cost c r (batch_with s p seq).items ≤ or_zero (c.get r used_key)
      → batch_used c r (batch_with s p seq).items (or_zero (c.get r used_key)) < two_63
      → is_saturated view r ≡ false
      → seq_at view r (seq_key_of id) < seq
      → ((flush_script c (seq_key_of id) (batch_with s p seq) r).1 ≡ 2)
        × (is_saturated view (flush_script c (seq_key_of id) (batch_with s p seq) r).0 ≡ true)
  unfolding flush_script
  flush_script-record_pending id s p r seq t e fits fit max cost known total free new =
      let used = batch_used c r (batch_with s p seq).items (or_zero (c.get r used_key)) in
      let more = used-exceeds s p r seq (record_pending-Exceeded s p t) e fits fit max cost known in
      let over : Path Bool (lt_int s.max_bytes used) true =
        lt_int-eq s.max_bytes used max total ∙ lt→ltb s.max_bytes used more in
      let late : Path Bool (leb seq (or_zero (c.get r (seq_key_of id)))) false =
        gt→leb seq (or_zero (c.get r (seq_key_of id)))
          (subst (λ o. or_zero o < seq) (sym (ok.get_lem r (seq_key_of id))) new) in
      rw (ok.exists_lem r saturated_key, free, late, over)
        (refl, saturate_script-saturated c view ok r)
