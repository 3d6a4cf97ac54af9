-- ===== src/Stats/Exact.antt =====
-- The counter against the history of the requests.
use native.Mathlib.Decide.{ℕ_discrete}
use mathlib.Core.List.{lookup}
use fizzbuzz.Prelude.{
  ℕ, suc, ◌+◌, ◌*◌, ◌/◌, ◌^◌, ◌≤◌, ◌<◌, ◌≡◌, ◌≢◌, inl, inr, refl, sym, ap, ◌∙◌, none, some, List,
  [], ◌∷◌, arith, length, ltb, Bool-cases,
}
use fizzbuzz.Sequence.Params.{Params, Params-discrete}
use fizzbuzz.Stats.{Prefix, Prefix-discrete, prefix_of, Counter, lead}
use fizzbuzz.Stats.Maps.{store, lookup-store_ne, length-store}
use fizzbuzz.Stats.Invariant.{
  hits, hits-same, hits-other, Prefixes, Kept, id_at, key_at, count-Kept, keep-Kept,
}
use fizzbuzz.Stats.Leader.{Leading, Leads, lead-Leads}

-- `allocSize`: a size class of Go's allocator is not absurdly larger than the allocation.
pub record IsAlloc (alloc_size : ℕ → ℕ) : Type 0 where
  pub bounded : (n : ℕ) → n < 2 ^ 60 → alloc_size n < 2 ^ 61

-- A request that the server counts: its limit is from 1 to 2 ^ 32 - 1.
pub record IsRequest (p : Params) : Type 0 where
  pub limit_pos : 0 < p.limit
  pub limit_small : p.limit < 2 ^ 32
  pub str1_small : length p.str1 < 2 ^ 60
  pub str2_small : length p.str2 < 2 ^ 60

-- The state of a counter that is not saturated, after a history.
pub record Exact (c : Counter) (h : List Params) : Type 0 where
  pub kept : Kept c.prefixes c.counts h
  pub leads : Leads c h
  pub charged : 200 * length c.prefixes ≤ c.used_bytes
  pub in_budget : c.used_bytes ≤ c.max_bytes
  pub ids_fit : c.max_bytes / 152 < 2 ^ 32

pub hits-le : (h : List Params) (q : Params) → hits h q ≤ length h
hits-le [] q = unfold hits in omega arith
hits-le (p ∷ h) q = elim (Params-discrete q p) [
  | yes same ↦ omega (arith, hits-le h q, ap (hits (p ∷ h)) same, ap (hits h) same, hits-same p h)
  | no other ↦ omega (arith, hits-le h q, hits-other p q h other)
]

lead-fields :
    (c : Counter) (p : Params) (key n : ℕ)
    → ((lead c p key n).prefixes ≡ c.prefixes)
      × ((lead c p key n).counts ≡ store ℕ_discrete key n c.counts)
      × ((lead c p key n).used_bytes ≡ c.used_bytes)
      × ((lead c p key n).max_bytes ≡ c.max_bytes)
unfolding lead
lead-fields c p key n = elim (Bool-cases (ltb c.top_hits n)) [
  | inl less ↦ rw less (refl, refl, refl, refl)
  | inr stays ↦ rw stays (refl, refl, refl, refl)
]

-- A request whose prefix has an id.
pub lead-Exact :
    (c : Counter) (h : List Params) (p : Params) (id : ℕ)
    → Exact c h
    → IsRequest p
    → id_at c.prefixes p ≡ some id
    → Exact (lead c p (key_at id p.limit) (suc (hits h p))) (p ∷ h)
lead-Exact c h p id x r at =
    let (prefixes, counts, used, budget) = lead-fields c p (key_at id p.limit) (suc (hits h p)) in
    record {
      kept = rw (prefixes, counts) (count-Kept p id x.kept r.limit_small at);
      leads = lead-Leads c h p id x.kept x.leads r.limit_pos r.limit_small at;
      charged = rw (prefixes, used) x.charged;
      in_budget = rw (used, budget) x.in_budget;
      ids_fit = rw budget x.ids_fit;
    }

-- The state after the cost of a new key of a known prefix.
pub charge-Exact :
    (c : Counter) (h : List Params) (used : ℕ)
    → Exact c h
    → c.used_bytes ≤ used
    → used ≤ c.max_bytes
    → Exact (record c { used_bytes = used }) h
charge-Exact c h used x more fits = record {
  kept = x.kept;
  leads = x.leads;
  charged = omega (arith, x.charged);
  in_budget = fits;
  ids_fit = x.ids_fit;
}

-- The leader keeps its prefix when a new one comes.
keep-Leading :
    (ps : Prefixes) (k : Prefix) (top : Params) (key n : ℕ) (h : List Params)
    → lookup Prefix-discrete k ps ≡ none
    → Leading ps top key n h
    → Leading (store Prefix-discrete k (length ps) ps) top key n h
keep-Leading ps k top key n h absent l = record {
  leads = l.leads;
  attained = l.attained;
  keyed = elim l.keyed [
    | inl none_yet ↦ inl none_yet
    | inr (small, id, at, e) ↦
        let other : prefix_of top ≢ k = λ same.
          ground (arith, sym at ∙ ap (λ (x : Prefix). lookup Prefix-discrete x ps) same ∙ absent) in
        inr (
          small,
          id,
          lookup-store_ne Prefix-discrete k (prefix_of top) (length ps) ps other ∙ at,
          e,
        )
  ];
}

-- The state after a new prefix and its cost.
pub keep-Exact :
    (c : Counter) (h : List Params) (p : Params) (used : ℕ)
    → Exact c h
    → id_at c.prefixes p ≡ none
    → c.used_bytes + 200 ≤ used
    → used ≤ c.max_bytes
    → Exact
        (record c {
          used_bytes = used;
          prefixes = store Prefix-discrete (prefix_of p) (length c.prefixes) c.prefixes;
        })
        h
keep-Exact c h p used x absent more fits = record {
  kept = keep-Kept x.kept (prefix_of p) absent;
  leads = keep-Leading c.prefixes (prefix_of p) c.top c.top_key c.top_hits h absent x.leads;
  charged = omega (
    arith,
    x.charged,
    length-store Prefix-discrete (prefix_of p) (length c.prefixes) c.prefixes absent,
  );
  in_budget = fits;
  ids_fit = x.ids_fit;
}
