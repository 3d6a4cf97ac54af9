-- ===== src/Stats/Invariant.antt =====
-- What the maps of the counter hold after a history of requests.
use native.Mathlib.Decide.{ℕ_discrete}
use mathlib.Core.List.{lookup}
use mathlib.Core.Logic.{ite}
use fizzbuzz.Prelude.{
  ℕ, suc, ◌+◌, ◌*◌, ◌^◌, ◌≤◌, ◌<◌, ◌≡◌, ◌≢◌, ◌⊎◌, inl, inr, sym, ap, ◌∙◌, Option, none, some, List,
  [], ◌∷◌, arith, length,
}
use fizzbuzz.Sequence.Params.{Params, Params-discrete}
use fizzbuzz.Stats.{Prefix, Prefix-discrete, prefix_of}
use fizzbuzz.Stats.Maps.{store, lookup-store, lookup-store_ne, length-store}

-- How often `q` stands in the history.
unfoldable pub hits : List Params → Params → ℕ
hits [] q = 0
hits (p ∷ h) q = let rest = hits h q in ite (Params-discrete q p) (suc rest) rest

abbrev pub Prefixes : Type 0
Prefixes = List (Prefix × ℕ)

abbrev pub Counts : Type 0
Counts = List (ℕ × ℕ)

abbrev pub id_at : Prefixes → Params → Option ℕ
id_at ps q = lookup Prefix-discrete (prefix_of q) ps

abbrev pub count_at : Counts → ℕ → Option ℕ
count_at cs key = lookup ℕ_discrete key cs

abbrev pub or_zero : Option ℕ → ℕ
or_zero none = 0
or_zero (some n) = n

abbrev pub key_at : ℕ → ℕ → ℕ
key_at id limit = id * 2 ^ 32 + limit

-- The ids are distinct and below the number of prefixes, each known request has its number of hits,
-- and the others have none.
pub record Kept (ps : Prefixes) (cs : Counts) (h : List Params) : Type 0 where
  pub ids : (k : Prefix) (id : ℕ) → lookup Prefix-discrete k ps ≡ some id → id < length ps
  pub distinct :
      (k k' : Prefix) (id : ℕ)
      → lookup Prefix-discrete k ps ≡ some id
      → lookup Prefix-discrete k' ps ≡ some id
      → k ≡ k'
  pub counted :
      (q : Params) (id : ℕ)
      → q.limit < 2 ^ 32
      → id_at ps q ≡ some id
      → or_zero (count_at cs (key_at id q.limit)) ≡ hits h q
  pub unknown : (q : Params) → id_at ps q ≡ none → hits h q ≡ 0
  pub fresh :
      (id limit : ℕ) → limit < 2 ^ 32 → length ps ≤ id → count_at cs (key_at id limit) ≡ none

pub params_eq : (q p : Params) → prefix_of q ≡ prefix_of p → q.limit ≡ p.limit → q ≡ p
params_eq q p e l = λ i. record {
  int1 = (e i).int1;
  int2 = (e i).int2;
  limit = l i;
  str1 = (e i).str1;
  str2 = (e i).str2;
}

pub hits-same : (p : Params) (h : List Params) → hits (p ∷ h) p ≡ suc (hits h p)
unfolding hits
hits-same p h = ground arith

pub hits-other : (p q : Params) (h : List Params) → q ≢ p → hits (p ∷ h) q ≡ hits h q
unfolding hits
hits-other p q h ne = ground arith

-- A key determines the request.
pub key_at-inj :
    {ps : Prefixes} {cs : Counts} {h : List Params} (q p : Params) (i j : ℕ)
    → Kept ps cs h
    → q.limit < 2 ^ 32
    → p.limit < 2 ^ 32
    → id_at ps q ≡ some i
    → id_at ps p ≡ some j
    → key_at i q.limit ≡ key_at j p.limit
    → q ≡ p
key_at-inj {ps} q p i j k small small' at at' e =
    let same : j ≡ i = omega arith in
    params_eq q p (k.distinct (prefix_of q) (prefix_of p) i at (at' ∙ ap some same)) (omega arith)

-- One more request of a known prefix.
pub count-Kept :
    {ps : Prefixes} {cs : Counts} {h : List Params} (p : Params) (id : ℕ)
    → Kept ps cs h
    → p.limit < 2 ^ 32
    → id_at ps p ≡ some id
    → Kept ps (store ℕ_discrete (key_at id p.limit) (suc (hits h p)) cs) (p ∷ h)
count-Kept {ps} {cs} {h} p id k small at = record {
  ids = k.ids;
  distinct = k.distinct;
  counted = λ q i q_small q_at. elim (Params-discrete q p) [
    | yes same ↦
        let key : key_at i q.limit ≡ key_at id p.limit =
          omega (arith, ap (λ (r : Params). r.limit) same, id_of_same q i q_at same) in
        ap
          (λ (x : ℕ).
            or_zero (count_at (store ℕ_discrete (key_at id p.limit) (suc (hits h p)) cs) x))
          key
        ∙ ap or_zero (lookup-store ℕ_discrete (key_at id p.limit) (suc (hits h p)) cs)
        ∙ sym (ap (hits (p ∷ h)) same ∙ hits-same p h)
    | no other ↦
        let ne : key_at i q.limit ≢ key_at id p.limit =
          λ e. other (key_at-inj q p i id k q_small small q_at at e) in
        ap or_zero
          (lookup-store_ne ℕ_discrete (key_at id p.limit) (key_at i q.limit) (suc (hits h p)) cs ne)
        ∙ k.counted q i q_small q_at
        ∙ sym (hits-other p q h other)
  ];
  unknown = λ q q_at. elim (Params-discrete q p) [
    | yes same ↦ absurd (some_none id (sym at ∙ ap (id_at ps) (sym same) ∙ q_at))
    | no other ↦ hits-other p q h other ∙ k.unknown q q_at
  ];
  fresh = λ i limit l_small le.
      let bound = k.ids (prefix_of p) id at in
      lookup-store_ne ℕ_discrete (key_at id p.limit) (key_at i limit) (suc (hits h p)) cs
        (λ e. omega arith)
      ∙ k.fresh i limit l_small le;
}
  where
    some_none : (n : ℕ) → some n ≡ none → ⊥
    some_none n e = ground (arith, e)

    id_of_same : (q : Params) (i : ℕ) → id_at ps q ≡ some i → q ≡ p → i ≡ id
    id_of_same q i e same = ground (arith, sym e ∙ ap (id_at ps) same ∙ at)

-- A new prefix gets the next id.
module _ {ps : Prefixes} {cs : Counts} {h : List Params} (k : Kept ps cs h) (new : Prefix)
    (absent : lookup Prefix-discrete new ps ≡ none) where
  abbrev more : Prefixes
  more = store Prefix-discrete new (length ps) ps

  -- A prefix with an id is the new one or had it before.
  split :
      (x : Prefix) (id : ℕ)
      → lookup Prefix-discrete x more ≡ some id
      → ((x ≡ new) × (id ≡ length ps)) ⊎ ((x ≢ new) × (lookup Prefix-discrete x ps ≡ some id))
  split x id e = elim (Prefix-discrete x new) [
    | yes same ↦
        let at = lookup-store Prefix-discrete new (length ps) ps in
        inl (
          same,
          ground (arith, sym e ∙ ap (λ (y : Prefix). lookup Prefix-discrete y more) same ∙ at),
        )
    | no other ↦ inr (other, sym (lookup-store_ne Prefix-discrete new x (length ps) ps other) ∙ e)
  ]

  pub keep-Kept : Kept more cs h
  keep-Kept = record {
    ids = λ x id e. elim (split x id e) [
      | inl (same, next) ↦ omega (arith, length-store Prefix-discrete new (length ps) ps absent)
      | inr (other, old) ↦
          omega (arith, k.ids x id old, length-store Prefix-discrete new (length ps) ps absent)
    ];
    distinct = λ x y id e f. elim (split x id e) [
      | inl (same, next) ↦ elim (split y id f) [
        | inl (same', next') ↦ same ∙ sym same'
        | inr (other, old) ↦ absurd (omega (arith, k.ids y id old))
      ]
      | inr (other, old) ↦ elim (split y id f) [
        | inl (same', next') ↦ absurd (omega (arith, k.ids x id old))
        | inr (other', old') ↦ k.distinct x y id old old'
      ]
    ];
    counted = λ q id small e. elim (split (prefix_of q) id e) [
      | inl (same, next) ↦
          ap or_zero (k.fresh id q.limit small (omega arith))
          ∙ sym (k.unknown q (ap (λ (x : Prefix). lookup Prefix-discrete x ps) same ∙ absent))
      | inr (other, old) ↦ k.counted q id small old
    ];
    unknown = λ q e. elim (Prefix-discrete (prefix_of q) new) [
      | yes same ↦ k.unknown q (ap (λ (x : Prefix). lookup Prefix-discrete x ps) same ∙ absent)
      | no other ↦
          k.unknown q
            (sym (lookup-store_ne Prefix-discrete new (prefix_of q) (length ps) ps other) ∙ e)
    ];
    fresh = λ id limit small le.
        k.fresh id limit small
          (omega (arith, length-store Prefix-discrete new (length ps) ps absent));
  }
