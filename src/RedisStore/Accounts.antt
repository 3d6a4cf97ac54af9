-- ===== src/RedisStore/Accounts.antt =====
-- redis_store.go: `usedBytes`, the cost of the pending requests of a replica.
pub mod Run
use mathlib.Core.Path.{subst}
use mathlib.Core.List.{lookup}
use native.Mathlib.Decide.{ℕ_discrete}
use fizzbuzz.Prelude.{
  ℕ, suc, zero, ◌+◌, ◌-◌, ◌%◌, ◌^◌, ◌≤◌, ◌<◌, ◌≡◌, ◌≢◌, refl, sym, ap, ◌∙◌, Bool, true, false,
  Bool-cases, inl, inr, Option, none, some, List, [], ◌∷◌, Bytes, arith, length, lt_int, lt_int-eq,
  ltb, ltb→ge, ◌==◌, ◌+w◌, ◌-w◌, is_some, if◌then◌else◌, two_63, two_64,
}
use fizzbuzz.Sequence.Params.{Params, Params-discrete}
use fizzbuzz.Stats.Maps.{store}
use fizzbuzz.Redis.{Commands, Keyspace, IsRedis, or_zero}
use fizzbuzz.RedisStore.{
  Batch, Call, saturates, runs, items_of, Pending, PendingHits, RedisStore, new_redis_store, mark,
  acknowledge, member_of, memory_cost, record_pending, record_entry, next_batch, begin_batch,
  begin_flush, finish_flush, stats_key_overhead, used_key, seq_key_of, batch_used, flush_script,
}
use fizzbuzz.RedisStore.System.{
  System, Replica, Phase, idle, waits, answered, Event, hit, begins, arrives, answers, fails,
  replies, begun, begin_replica, nth_call, begins_at, arrives_at, answers_at, replies_at,
  step_replica, step, run, start,
}
use fizzbuzz.RedisStore.Delivery.{begin_flush-overflow, begin_flush-clear, step_here, step_there}
use fizzbuzz.RedisStore.Script.{is_saturated, seq_at}
use fizzbuzz.RedisStore.Costs.{
  memory_cost-less, local_cost, local_cost-store, AllFit, store-AllFit, known_cost, batch_with,
  flush_script-record_pending,
}

-- A request whose member has room in 63 bits beside the budget.
abbrev pub Fits : ℕ → Params → Type 0
Fits max_bytes p = max_bytes + (stats_key_overhead + length (member_of p)) < two_63

local_cost-store_old :
    (p : Params) (h v : PendingHits) (l : Pending)
    → lookup Params-discrete p l ≡ some h
    → local_cost (store Params-discrete p v l) ≡ local_cost l
unfolding local_cost store lookup
local_cost-store_old p h v [] e = absurd (ground (arith, e))
local_cost-store_old p h v ((q, g) ∷ l) e = elim (Params-discrete p q) [
  | yes same ↦ ground (arith, ap memory_cost same)
  | no other ↦ ground (arith, other, local_cost-store_old p h v l)
]

local_cost-mark : (l : Pending) → local_cost (mark l) ≡ local_cost l
unfolding local_cost mark
local_cost-mark [] = refl
local_cost-mark ((p, h) ∷ l) = omega (arith, local_cost-mark l)

mark-AllFit : (l : Pending) → AllFit l → AllFit (mark l)
unfolding mark
mark-AllFit [] f = tt
mark-AllFit ((p, h) ∷ l) (f, fs) = (f, mark-AllFit l fs)

-- What the acknowledged batch leaves: `rest` is the cost of entries outside the list.
abbrev Left : ℕ → ℕ → Pending × ℕ → Type 0
Left used rest o = (o.1 ≡ local_cost o.0 + rest) × (o.1 ≤ used) × AllFit o.0

acknowledge-Left :
    (used rest : ℕ) (l : Pending)
    → used ≡ local_cost l + rest
    → used < two_64
    → AllFit l
    → Left used rest (acknowledge used l)
unfolding acknowledge local_cost
acknowledge-Left used rest [] e fits f = (e, omega arith, tt)
acknowledge-Left used rest ((p, h) ∷ l) e fits (f, fs) = elim (Bool-cases (h.n -w h.sent == 0)) [
  | inl empty ↦
      let less : used -w memory_cost p ≡ local_cost l + rest = omega arith in
      let (a, b, c) = acknowledge-Left (used -w memory_cost p) rest l less (omega arith) fs in
      rw empty (a, omega (arith, b, less), c)
  | inr more ↦
      let (a, b, c) = acknowledge-Left used (memory_cost p + rest) l (omega arith) fits fs in
      rw more (omega (arith, a), b, (f, c))
]

-- The byte count of a replica with the given budget.
pub record Accounted (max_bytes : ℕ) (s : RedisStore) : Type 0 where
  pub budget : s.max_bytes ≡ max_bytes
  pub counted : s.used_bytes ≡ local_cost s.pending
  pub within : s.used_bytes ≤ max_bytes
  pub fits : AllFit s.pending

module _ (max_bytes : ℕ) (small : max_bytes < two_63) where
  pub new_redis_store-Accounted : (id : Bytes) → Accounted max_bytes (new_redis_store id max_bytes)
  unfolding new_redis_store local_cost
  new_redis_store-Accounted id = record {
    budget = refl;
    counted = refl;
    within = omega arith;
    fits = tt;
  }

  -- The costs of a request that fits.
  pub Fits-costs :
      (p : Params)
      → Fits max_bytes p
      → (length (member_of p) < 2 ^ 63) × (max_bytes + memory_cost p < two_63)
  Fits-costs p f =
      let member : length (member_of p) < 2 ^ 63 = omega arith in
      (member, omega (arith, memory_cost-less p member))

  record_entry-Accounted :
      (s : RedisStore) (p : Params) (x : Option PendingHits)
      → Fits max_bytes p
      → Accounted max_bytes s
      → lookup Params-discrete p s.pending ≡ x
      → Accounted max_bytes (record_entry s p x).0
  unfolding record_entry
  record_entry-Accounted s p (some h) f a e = record {
    budget = a.budget;
    counted = a.counted ∙ sym (local_cost-store_old p h (record h { n = h.n +w 1 }) s.pending e);
    within = a.within;
    fits = store-AllFit p (record h { n = h.n +w 1 }) s.pending (Fits-costs p f).0 a.fits;
  }
  record_entry-Accounted s p none f a e =
      let (member, room) = Fits-costs p f in
      let used : s.used_bytes +w memory_cost p ≡ s.used_bytes + memory_cost p =
        omega (arith, room, a.within) in
      elim (Bool-cases (lt_int s.max_bytes (s.used_bytes +w memory_cost p))) [
        | inl over ↦
            rw over
              (record { budget = a.budget; counted = a.counted; within = a.within; fits = a.fits })
        | inr under ↦
            let le = ltb→ge s.max_bytes (s.used_bytes +w memory_cost p) (
              sym (
                lt_int-eq s.max_bytes (s.used_bytes +w memory_cost p)
                  (omega (arith, a.budget, small)) (omega (arith, used, room, a.within)))
              ∙ under) in
            rw under (record {
              budget = a.budget;
              counted = omega (
                arith,
                used,
                a.counted,
                local_cost-store p (record { n = 1; sent = 0 }) s.pending e,
              );
              within = omega (arith, le, a.budget);
              fits = store-AllFit p (record { n = 1; sent = 0 }) s.pending member a.fits;
            })
      ]

  pub record_pending-Accounted :
      (s : RedisStore) (p : Params)
      → Fits max_bytes p
      → Accounted max_bytes s
      → Accounted max_bytes (record_pending s p).0
  unfolding record_pending
  record_pending-Accounted s p f a =
      let entry = record_entry-Accounted s p (lookup Params-discrete p s.pending) f a refl in
      let outcome : Bool → RedisStore × Bool =
        λ b. if b then (s, false) else record_entry s p (lookup Params-discrete p s.pending) in
      elim (Bool-cases s.overflow) [
        | inl full ↦ subst (λ b. Accounted max_bytes (outcome b).0) (sym full) a
        | inr clear ↦ subst (λ b. Accounted max_bytes (outcome b).0) (sym clear) entry
      ]

  next_batch-Accounted :
      (s : RedisStore) → Accounted max_bytes s → Accounted max_bytes (next_batch s).0
  unfolding next_batch
  next_batch-Accounted s a =
      let counted = a.counted ∙ sym (local_cost-mark s.pending) in
      elim (Bool-cases (length s.pending == 0)) [
        | inl empty ↦ rw empty (record {
          budget = a.budget;
          counted = counted;
          within = a.within;
          fits = mark-AllFit s.pending a.fits;
        })
        | inr more ↦ rw more (record {
          budget = a.budget;
          counted = counted;
          within = a.within;
          fits = mark-AllFit s.pending a.fits;
        })
      ]

  pub finish_flush-Accounted :
      (s : RedisStore) (x : Call) → Accounted max_bytes s → Accounted max_bytes (finish_flush s x)
  unfolding finish_flush local_cost
  finish_flush-Accounted s saturates a = record {
    budget = a.budget;
    counted = refl;
    within = omega arith;
    fits = tt;
  }
  finish_flush-Accounted s (runs b) a =
      let (e, le, f) =
        acknowledge-Left s.used_bytes 0 s.pending (omega (arith, a.counted))
          (omega (arith, a.within, small)) a.fits in
      record {
        budget = a.budget;
        counted = omega (arith, e);
        within = omega (arith, le, a.within);
        fits = f;
      }

  batch-Accounted :
      (s : RedisStore) (b : Option Batch)
      → Accounted max_bytes s
      → Accounted max_bytes (begin_batch s b).0
  unfolding begin_batch
  batch-Accounted s (some b) a = a
  batch-Accounted s none a =
      let next = next_batch-Accounted s a in
      record {
        budget = next.budget;
        counted = next.counted;
        within = next.within;
        fits = next.fits;
      }

  pub begin_flush-Accounted :
      (s : RedisStore) → Accounted max_bytes s → Accounted max_bytes (begin_flush s).0
  begin_flush-Accounted s a = elim (Bool-cases s.overflow) [
    | inl full ↦ subst (λ o. Accounted max_bytes o.0) (sym (begin_flush-overflow s full)) a
    | inr clear ↦
        subst (λ o. Accounted max_bytes o.0) (sym (begin_flush-clear s clear))
          (batch-Accounted s s.batch a)
  ]
