-- ===== src/Stats/Step.antt =====
-- One call of `Record`.
use mathlib.Core.Path.{subst}
use fizzbuzz.Prelude.{
  ℕ, suc, ◌+◌, ◌/◌, ◌%◌, ◌^◌, ◌≤◌, ◌<◌, ◌≡◌, inl, inr, sym, ap, ◌∙◌, Bool, true, false, Option,
  none, some, List, ◌∷◌, arith, length, ltb→ge, Bool-cases, Option-cases, if◌then◌else◌, two_64,
  ◌+w◌, lt_int, lt_int-eq,
}
use fizzbuzz.Sequence.Params.{Params}
use fizzbuzz.Stats.{Prefix-discrete, prefix_of, Counter, lead, cost_of, record_key, record_hit}
use fizzbuzz.Stats.Maps.{store, lookup-store}
use fizzbuzz.Stats.Keys.{key_of-eq}
use fizzbuzz.Stats.Invariant.{hits, id_at, count_at, or_zero, key_at}
use fizzbuzz.Stats.Exact.{IsAlloc, IsRequest, Exact, hits-le, lead-Exact, charge-Exact, keep-Exact}

-- A cost that the budget allows.
charge_allowed :
    (used cost max_bytes : ℕ)
    → used ≤ max_bytes
    → max_bytes / 152 < 2 ^ 32
    → cost < 2 ^ 62 + 2 ^ 10
    → lt_int max_bytes (used +w cost) ≡ false
    → (used +w cost ≡ used + cost) × (used +w cost ≤ max_bytes)
charge_allowed used cost max_bytes h fit small e =
    let sum : used +w cost ≡ used + cost = omega arith in
    (
      sum,
      ltb→ge max_bytes (used +w cost)
          (sym (lt_int-eq max_bytes (used +w cost) (omega arith) (omega arith)) ∙ e),
    )

cost_of-bounds :
    (alloc_size : ℕ → ℕ) (p : Params)
    → IsAlloc alloc_size
    → IsRequest p
    → (200 ≤ cost_of alloc_size none p) × (cost_of alloc_size none p < 2 ^ 62 + 2 ^ 10)
unfolding cost_of
cost_of-bounds alloc_size p a r =
    let b1 = a.bounded (length p.str1) r.str1_small in
    let b2 = a.bounded (length p.str2) r.str2_small in (omega arith, omega arith)

-- A counter that is not saturated goes on.
open_counter :
    (b : Bool) (x y : Counter × Bool) (h : List Params)
    → b ≡ false
    → (y.0.saturated ≡ false → Exact y.0 h)
    → ((if b then x else y).0.saturated ≡ false)
    → Exact (if b then x else y).0 h
open_counter true x y h e f = absurd (ground (arith, e))
open_counter false x y h e f = f

module _ (alloc_size : ℕ → ℕ) (a : IsAlloc alloc_size) where
  -- A request of a known prefix.
  record_known :
      (c : Counter) (h : List Params) (p : Params) (id : ℕ) (count : Option ℕ)
      → Exact c h
      → IsRequest p
      → length h + 1 < two_64
      → id_at c.prefixes p ≡ some id
      → or_zero count ≡ hits h p
      → c.saturated ≡ false
      → (record_key alloc_size c p (some id) id (key_at id p.limit) count).0.saturated ≡ false
      → Exact (record_key alloc_size c p (some id) id (key_at id p.limit) count).0 (p ∷ h)
  unfolding record_key cost_of
  record_known c h p id (some n) x r few at counted running still =
      let next : n +w 1 ≡ suc (hits h p) = omega (arith, hits-le h p) in
      subst (λ (m : ℕ). Exact (lead c p (key_at id p.limit) m) (p ∷ h)) (sym next)
        (lead-Exact c h p id x r at)
  record_known c h p id none x r few at counted running still =
      let used = c.used_bytes +w 48 in
      elim (Bool-cases (lt_int c.max_bytes used)) [
        | inl over ↦ absurd (ground (arith, still, over))
        | inr fits ↦
            let (sum, le) =
              charge_allowed c.used_bytes 48 c.max_bytes x.in_budget x.ids_fit (omega arith) fits in
            let first : 1 ≡ suc (hits h p) = ap suc counted in
            rw fits (
              subst
                (λ (m : ℕ).
                  Exact (lead (record c { used_bytes = used }) p (key_at id p.limit) m) (p ∷ h))
                (sym first)
                (lead-Exact (record c { used_bytes = used }) h p id
                  (charge-Exact c h used x (omega arith) le) r at))
      ]

  -- A request of a new prefix.
  record_unknown :
      (c : Counter) (h : List Params) (p : Params)
      → Exact c h
      → IsRequest p
      → id_at c.prefixes p ≡ none
      → c.saturated ≡ false
      → (record_key alloc_size c p none
          (length c.prefixes)
          (key_at (length c.prefixes) p.limit)
          none).0.saturated
        ≡ false
      → Exact
          (record_key alloc_size c p none
            (length c.prefixes)
            (key_at (length c.prefixes) p.limit)
            none).0
          (p ∷ h)
  unfolding record_key
  record_unknown c h p x r absent running still =
      let used = c.used_bytes +w cost_of alloc_size none p in
      let (least, most) = cost_of-bounds alloc_size p a r in
      elim (Bool-cases (lt_int c.max_bytes used)) [
        | inl over ↦ absurd (ground (arith, still, over))
        | inr fits ↦
            let (sum, le) =
              charge_allowed c.used_bytes (cost_of alloc_size none p) c.max_bytes x.in_budget
                x.ids_fit most fits in
            let ps = store Prefix-discrete (prefix_of p) (length c.prefixes) c.prefixes in
            let c' : Counter = record c { used_bytes = used; prefixes = ps } in
            let first : 1 ≡ suc (hits h p) = ap suc (sym (x.kept.unknown p absent)) in
            rw fits (
              subst (λ (m : ℕ). Exact (lead c' p (key_at (length c.prefixes) p.limit) m) (p ∷ h))
                (sym first)
                (lead-Exact c' h p (length c.prefixes)
                  (keep-Exact c h p used x absent (omega arith) le) r
                  (lookup-store Prefix-discrete (prefix_of p) (length c.prefixes) c.prefixes)))
      ]

  -- One call of `Record` that does not saturate the counter.
  pub record_hit-Exact :
      (c : Counter) (h : List Params) (p : Params)
      → Exact c h
      → IsRequest p
      → length h + 1 < two_64
      → c.saturated ≡ false
      → (record_hit alloc_size c p).0.saturated ≡ false
      → Exact (record_hit alloc_size c p).0 (p ∷ h)
  unfolding record_hit
  record_hit-Exact c h p x r few running =
      let size = x.charged in
      let budget = x.in_budget in
      let fit = x.ids_fit in
      open_counter c.saturated _ _ (p ∷ h) running (elim (Option-cases (id_at c.prefixes p)) [
        | inr (id, at) ↦
            let key =
              key_of-eq id p.limit (omega (arith, x.kept.ids (prefix_of p) id at)) r.limit_small in
            rw (at, key)
              (record_known c h p id (count_at c.counts (key_at id p.limit)) x r few at
                (x.kept.counted p id r.limit_small at) running)
        | inl absent ↦
            let next : length c.prefixes % 2 ^ 32 ≡ length c.prefixes = omega arith in
            let key = key_of-eq (length c.prefixes) p.limit (omega arith) r.limit_small in
            let fresh = x.kept.fresh (length c.prefixes) p.limit r.limit_small (omega arith) in
            rw (absent, next, key, fresh) (record_unknown c h p x r absent running)
      ])
