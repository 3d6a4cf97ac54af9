-- ===== src/Stats/Leader.antt =====
-- The leader of the counter: its hits and its key.
use mathlib.Core.Path.{subst}
use fizzbuzz.Prelude.{
  ℕ, suc, ◌^◌, ◌≤◌, ◌<◌, ◌≡◌, ◌≢◌, ◌⊎◌, inl, inr, refl, sym, ap, ◌∙◌, some, List, ◌∷◌, arith, ltb,
  ltb→lt, ltb→ge, ◌==◌, ==→eq, Bool-cases,
}
use fizzbuzz.Sequence.Params.{Params, Params-discrete}
use fizzbuzz.Stats.{Counter, lead}
use fizzbuzz.Stats.Invariant.{
  hits, hits-same, hits-other, Prefixes, Kept, id_at, key_at, key_at-inj,
}

-- The leader has the most hits, and its key.
pub record Leading (ps : Prefixes) (top : Params) (key n : ℕ) (h : List Params) : Type 0 where
  pub leads : (q : Params) → hits h q ≤ n
  pub attained : hits h top ≡ n
  pub keyed :
      ((n ≡ 0) × (key ≡ 0))
      ⊎ ((top.limit < 2 ^ 32) × (id : ℕ) × (id_at ps top ≡ some id) × (key ≡ key_at id top.limit))

abbrev pub Leads : Counter → List Params → Type 0
Leads c h = Leading c.prefixes c.top c.top_key c.top_hits h

-- The key of the leader belongs to no other request.
same_leader :
    (c : Counter) (h : List Params) (p : Params) (id : ℕ)
    → Kept c.prefixes c.counts h
    → Leads c h
    → 0 < p.limit
    → p.limit < 2 ^ 32
    → id_at c.prefixes p ≡ some id
    → key_at id p.limit ≡ c.top_key
    → c.top ≡ p
same_leader c h p id k l pos small at e = elim l.keyed [
  | inl (none_yet, zero_key) ↦ absurd (omega arith)
  | inr (top_small, i, top_at, key) ↦
      key_at-inj c.top p i id k top_small small top_at at (sym key ∙ sym e)
]

pub lead-Leads :
    (c : Counter) (h : List Params) (p : Params) (id : ℕ)
    → Kept c.prefixes c.counts h
    → Leads c h
    → 0 < p.limit
    → p.limit < 2 ^ 32
    → id_at c.prefixes p ≡ some id
    → Leads (lead c p (key_at id p.limit) (suc (hits h p))) (p ∷ h)
unfolding lead
lead-Leads c h p id k l pos small at =
    let n = suc (hits h p) in
    let key = key_at id p.limit in
    let at_most : c.top_hits < n → (q : Params) → hits (p ∷ h) q ≤ n = λ less q.
      elim (Params-discrete q p) [
        | yes same ↦ omega (arith, ap (hits (p ∷ h)) same, hits-same p h)
        | no other ↦ omega (arith, l.leads q, hits-other p q h other)
      ] in
    elim (Bool-cases (ltb c.top_hits n)) [
      | inl less ↦ elim (Bool-cases (key == c.top_key)) [
        | inl again ↦
            let same = same_leader c h p id k l pos small at (==→eq _ _ again) in
            rw (less, again)
              (record {
                leads = at_most (ltb→lt _ _ less);
                attained = ap (hits (p ∷ h)) same ∙ hits-same p h;
                keyed = inr (
                  subst (λ (q : Params). q.limit < 2 ^ 32) (sym same) small,
                  id,
                  ap (id_at c.prefixes) same ∙ at,
                  sym (==→eq _ _ again) ∙ ap (λ (q : Params). key_at id q.limit) (sym same),
                );
              })
        | inr new ↦
            rw (less, new)
              (record {
                leads = at_most (ltb→lt _ _ less);
                attained = hits-same p h;
                keyed = inr (small, id, at, refl);
              })
      ]
      | inr stays ↦
          let le = ltb→ge _ _ stays in
          let other : c.top ≢ p = λ same. omega (arith, ap (hits h) same, l.attained) in
          rw stays (record {
            leads = λ q. elim (Params-discrete q p) [
              | yes same ↦ omega (arith, ap (hits (p ∷ h)) same, hits-same p h)
              | no differs ↦ omega (arith, l.leads q, hits-other p q h differs)
            ];
            attained = hits-other p c.top h other ∙ l.attained;
            keyed = l.keyed;
          })
    ]
