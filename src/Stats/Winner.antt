-- ===== src/Stats/Winner.antt =====
-- `Top`: it never reports a winner that is wrong.
use mathlib.Core.List.{lookup}
use fizzbuzz.Prelude.{
  ℕ, ◌/◌, ◌^◌, ◌≤◌, ◌<◌, ◌≡◌, ◌↔◌, inl, inr, refl, sym, ap, ◌∙◌, Bool, true, false, Option, none,
  some, List, [], ◌∷◌, arith, length, ltb, Bool-cases, if◌then◌else◌, two_64, ◌+w◌, lt_int,
}
use fizzbuzz.Sequence.Params.{Params}
use fizzbuzz.Stats.{
  prefix_of, Counter, new_counter, lead, cost_of, keep_prefix, record_key, record_hit, top_of,
}
use fizzbuzz.Stats.Invariant.{hits}
use fizzbuzz.Stats.Exact.{IsAlloc, IsRequest, Exact}
use fizzbuzz.Stats.Step.{record_hit-Exact}

-- The counter after the requests of a history, the latest one first.
unfoldable pub served : (ℕ → ℕ) → Counter → List Params → Counter
served alloc_size c [] = c
served alloc_size c (p ∷ h) = (record_hit alloc_size (served alloc_size c h) p).0

abbrev pub AllRequests : List Params → Type 0
AllRequests [] = Unit
AllRequests (p ∷ h) = IsRequest p × AllRequests h

-- A saturated counter stays saturated.
record_hit-saturated :
    (alloc_size : ℕ → ℕ) (c : Counter) (p : Params)
    → c.saturated ≡ true
    → (record_hit alloc_size c p).0.saturated ≡ true
unfolding record_hit
record_hit-saturated alloc_size c p e = saturated_if c.saturated _ _ e e
  where
    saturated_if :
        (b : Bool) (x y : Counter × Bool)
        → b ≡ true
        → x.0.saturated ≡ true
        → (if b then x else y).0.saturated ≡ true
    saturated_if true x y h k = k
    saturated_if false x y h k = absurd (ground (arith, h))

-- A new counter has served nothing.
new_counter-Exact : (max_bytes : ℕ) → max_bytes / 152 < 2 ^ 32 → Exact (new_counter max_bytes) []
unfolding new_counter
new_counter-Exact max_bytes fit = record {
  kept = record {
    ids = λ k id e. absurd (nothing id (unfold lookup in e));
    distinct = λ k k' id e f. absurd (nothing id (unfold lookup in e));
    counted = λ q id small e. absurd (nothing id (unfold lookup in e));
    unknown = λ q e. unfold hits in refl;
    fresh = λ id limit small le. unfold lookup in refl;
  };
  leads = record {
    leads = λ q. unfold hits in omega arith;
    attained = unfold hits in refl;
    keyed = inl (refl, refl);
  };
  charged = omega arith;
  in_budget = omega arith;
  ids_fit = fit;
}
  where
    nothing : (id : ℕ) → Path (Option ℕ) none (some id) → ⊥
    nothing id e = ground (arith, e)

module _ (alloc_size : ℕ → ℕ) (a : IsAlloc alloc_size) (max_bytes : ℕ)
    (fit : max_bytes / 152 < 2 ^ 32) where
  served-Exact :
      (h : List Params)
      → AllRequests h
      → length h < two_64
      → (served alloc_size (new_counter max_bytes) h).saturated ≡ false
      → Exact (served alloc_size (new_counter max_bytes) h) h
  unfolding served
  served-Exact [] r few e = new_counter-Exact max_bytes fit
  served-Exact (p ∷ h) (r, rs) few e =
      let c = served alloc_size (new_counter max_bytes) h in
      elim (Bool-cases c.saturated) [
        | inl over ↦ absurd (ground (arith, sym e ∙ record_hit-saturated alloc_size c p over))
        | inr running ↦
            record_hit-Exact alloc_size a c h p (served-Exact h rs (omega arith) running) r
              (omega arith) running e
      ]

-- For an allocator with bounded size classes, a budget that the configuration allows, and fewer than
-- 2 ^ 64 requests whose limits are from 1 to 2 ^ 32 - 1: if `Top` reports a request and a count, the
-- count is how often that request came, and no request came more often.
pub top_of-hits :
    (alloc_size : ℕ → ℕ) (max_bytes : ℕ) (h : List Params) (p : Params) (n : ℕ)
    → IsAlloc alloc_size
    → max_bytes / 152 < 2 ^ 32
    → AllRequests h
    → length h < two_64
    → top_of (served alloc_size (new_counter max_bytes) h) ≡ some (p, n)
    → (n ≡ hits h p) × ((q : Params) → hits h q ≤ n)
unfolding top_of
top_of-hits alloc_size max_bytes h p n a fit rs few e =
    let c = served alloc_size (new_counter max_bytes) h in
    elim (Bool-cases c.saturated) [
      | inl over ↦ absurd (ground (arith, e, over))
      | inr running ↦
          let x = served-Exact alloc_size a max_bytes fit h rs few running in
          let same = reported c.saturated c.top c.top_hits p n running e in
          let count = same.1 in
          (
            sym count ∙ sym x.leads.attained ∙ ap (hits h) same.0,
            λ q. omega (arith, x.leads.leads q),
          )
    ]
  where
    reported :
        (b : Bool) (top : Params) (m : ℕ) (q : Params) (k : ℕ)
        → b ≡ false
        → (if◌then◌else◌ {A = Option (Params × ℕ)} b none (some (top, m))) ≡ some (q, k)
        → (top ≡ q) × (m ≡ k)
    reported true top m q k h f = absurd (ground (arith, h))
    reported false top m q k h f = ground (arith, f)

lead-saturated : (c : Counter) (p : Params) (key n : ℕ) → (lead c p key n).saturated ≡ c.saturated
unfolding lead
lead-saturated c p key n = elim (Bool-cases (ltb c.top_hits n)) [
  | inl less ↦ rw less refl
  | inr stays ↦ rw stays refl
]

abbrev Reports : Bool → Counter × Bool → Type 0
Reports before r = (r.1 ≡ true) ↔ ((before ≡ false) × (r.0.saturated ≡ true))

quiet : (before : Bool) (c : Counter) → c.saturated ≡ before → Reports before (c, false)
quiet before c e =
    (λ h. absurd (ground (arith, h)), λ h. absurd (ground (arith, sym h.0 ∙ sym e ∙ h.1)))

key-Reports :
    (alloc_size : ℕ → ℕ) (c : Counter) (p : Params) (known : Option ℕ) (id key : ℕ)
    (count : Option ℕ)
    → c.saturated ≡ false
    → Reports false (record_key alloc_size c p known id key count)
unfolding record_key
key-Reports alloc_size c p known id key (some n) e =
    quiet false (lead c p key (n +w 1)) (lead-saturated c p key (n +w 1) ∙ e)
key-Reports alloc_size c p known id key none e =
    let used = c.used_bytes +w cost_of alloc_size known p in
    elim (Bool-cases (lt_int c.max_bytes used)) [
      | inl over ↦ rw over (λ h. (refl, refl), λ h. refl)
      | inr fits ↦
          let c' : Counter = record c {
            used_bytes = used;
            prefixes = keep_prefix known (prefix_of p) id c.prefixes;
          } in
          rw fits (quiet false (lead c' p key 1) (lead-saturated c' p key 1 ∙ e))
    ]

if-Reports :
    (b : Bool) (c : Counter) (y : Counter × Bool)
    → c.saturated ≡ b
    → (b ≡ false → Reports false y)
    → Reports b (if b then (c, false) else y)
if-Reports true c y e f = quiet true c e
if-Reports false c y e f = f refl

-- For every counter and request: `Record` returns true if and only if the counter was not saturated
-- before the call and is after it.
pub record_hit-reports_iff :
    (alloc_size : ℕ → ℕ) (c : Counter) (p : Params)
    → ((record_hit alloc_size c p).1 ≡ true)
      ↔ ((c.saturated ≡ false) × ((record_hit alloc_size c p).0.saturated ≡ true))
unfolding record_hit
record_hit-reports_iff alloc_size c p =
    if-Reports c.saturated c _ refl (λ running. key-Reports alloc_size c p _ _ _ _ running)
