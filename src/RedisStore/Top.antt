-- ===== src/RedisStore/Top.antt =====
-- redis_store.go: `Top`, and its winner after flushes of all replicas. The two commands of the
-- pipeline are no transaction, so they may find two states. `json.Unmarshal` is a parameter.
use fizzbuzz.Prelude.{
  ℕ, ◌^◌, ◌≤◌, ◌<◌, ◌≡◌, ◌≢◌, refl, sym, ap, ◌∙◌, Bool, false, Option, none, some, List, [], ◌∷◌,
  ◌++◌, Bytes, Bytes-discrete, codes, arith, Bool-cases, inl, inr, length, if◌then◌else◌,
}
use fizzbuzz.Sequence.Params.{Params, Params-discrete}
use fizzbuzz.Stats.{no_params}
use fizzbuzz.Stats.Invariant.{hits, hits-same, hits-other}
use fizzbuzz.Server.{unavailable, store_failed, TopResult, top_error, top_is}
use fizzbuzz.Redis.{Commands, Keyspace, IsRedis, or_zero}
use fizzbuzz.RedisStore.{
  counts_key, used_key, saturated_key, seq_key_of, member_of, saturate_script,
}
use fizzbuzz.RedisStore.Script.{used-ne-counts, is_saturated, score_at, seq_at}
use fizzbuzz.RedisStore.System.{Event, run, start}
use fizzbuzz.RedisStore.Replica.{hits_at}
use fizzbuzz.RedisStore.Delivery.{drain, drain-counted}

abbrev pub unmarshalled : Option Params → ℕ → TopResult
unmarshalled none n = top_error (store_failed (codes "invalid member"))
unmarshalled (some p) n = top_is p n

abbrev pub best_result : (Bytes → Option Params) → Option (Bytes × ℕ) → TopResult
best_result unmarshal none = top_is no_params 0
best_result unmarshal (some (m, n)) = unmarshalled (unmarshal m) n

-- `Top` with the states of Redis at its two commands.
unfoldable pub redis_top : {R : Type 0} → Commands R → (Bytes → Option Params) → R → R → TopResult
redis_top c unmarshal r r' =
    if c.exists r saturated_key
    then top_error unavailable
    else best_result unmarshal (c.best r' counts_key)

-- `Top`: the states of Redis at its two commands, or none if the pipeline fails.
unfoldable pub redis_top_executed :
    {R : Type 0} → Commands R → (Bytes → Option Params) → Option (R × R) → TopResult
redis_top_executed c unmarshal none = top_error (store_failed (codes "redis"))
redis_top_executed c unmarshal (some (r, r')) = redis_top c unmarshal r r'

result_params : TopResult → Params
result_params (top_is p n) = p
result_params (top_error e) = no_params

result_hits : TopResult → ℕ
result_hits (top_is p n) = n
result_hits (top_error e) = 0

hits-le_at : (h : List Params) (q : Params) → hits h q ≤ hits_at (member_of q) h
unfolding hits_at hits
hits-le_at [] q = omega arith
hits-le_at (p ∷ h) q = elim (Params-discrete q p) [
  | yes here ↦ ground (arith, hits-le_at h q, ap member_of here, here)
  | no other ↦ ground (arith, hits-le_at h q, other)
]

module _ (unmarshal : Bytes → Option Params) where
  -- `Unmarshal` reads back every member that a request of the history has.
  abbrev pub ReadBack : List Params → Type 0
  ReadBack [] = Unit
  ReadBack (p ∷ h) = (unmarshal (member_of p) ≡ some p) × ReadBack h

  params_or : Params → Option Params → Params
  params_or d none = d
  params_or d (some p) = p

  unmarshal-same :
      (p q : Params) (m : Bytes)
      → unmarshal m ≡ some p
      → unmarshal (member_of q) ≡ some q
      → m ≡ member_of q
      → p ≡ q
  unfolding params_or
  unmarshal-same p q m ep eq same = ap (params_or p) (sym ep ∙ ap unmarshal same ∙ eq)

  -- Among such requests a member counts one request only.
  hits_at-hits :
      (h : List Params) (p : Params) (m : Bytes)
      → ReadBack h
      → unmarshal m ≡ some p
      → m ≡ member_of p
      → hits_at m h ≡ hits h p
  unfolding hits_at hits
  hits_at-hits [] p m t e same = refl
  hits_at-hits (q ∷ h) p m (eq, t) e same = elim (Params-discrete p q) [
    | yes here ↦ ground (
      arith,
      hits_at-hits h p m t e same,
      same ∙ ap member_of here,
      hits-same q h,
      ap (hits (q ∷ h)) here,
      ap (hits h) here,
    )
    | no other ↦
        let different : m ≢ member_of q = λ x. other (unmarshal-same p q m e eq x) in
        ground (arith, different, hits_at-hits h p m t e same, hits-other q p h other)
  ]

  -- A member with hits is one of the history's.
  hits_at-member :
      (h : List Params) (p : Params) (m : Bytes)
      → ReadBack h
      → unmarshal m ≡ some p
      → 0 < hits_at m h
      → m ≡ member_of p
  unfolding hits_at
  hits_at-member [] p m t e some_hits = absurd (omega arith)
  hits_at-member (q ∷ h) p m (eq, t) e some_hits = elim (Bytes-discrete m (member_of q)) [
    | yes here ↦ here ∙ ap member_of (sym (unmarshal-same p q m e eq here))
    | no other ↦ hits_at-member h p m t e (ground (arith, other, some_hits))
  ]

  best_result-top :
      (x : Option (Bytes × ℕ)) (p : Params) (n : ℕ)
      → best_result unmarshal x ≡ top_is p n
      → 0 < n
      → (m : Bytes) × (x ≡ some (m, n)) × (unmarshal m ≡ some p)
  unfolding result_hits result_params
  best_result-top none p n e some_hits = absurd (omega (arith, ap result_hits e))
  best_result-top (some (m, k)) p n e some_hits = go (unmarshal m) refl e
    where
      go :
          (y : Option Params)
          → unmarshal m ≡ y
          → unmarshalled y k ≡ top_is p n
          → (m' : Bytes) × (Path (Option (Bytes × ℕ)) (some (m, k)) (some (m', n)))
            × (unmarshal m' ≡ some p)
      go none h f = absurd (omega (arith, ap result_hits f))
      go (some q) h f =
          (m, ap (λ j. some (m, j)) (ap result_hits f), h ∙ ap some (ap result_params f))

-- After any events and two answered flushes of each replica, on a server that counted nothing before
-- and from requests that `Unmarshal` reads back: if the store is not saturated and `Top` reports a
-- request with hits, these are how often that request was taken, and no request was taken more often.
pub redis_top-hits :
    {R : Type 0}
    → (c : Commands R) (view : R → Keyspace) → IsRedis c view
    → (unmarshal : Bytes → Option Params) → (ids : ℕ → Bytes) → ((i j : ℕ) → ids i ≡ ids j → i ≡ j)
    → (n : ℕ) (r : R) (max_bytes : ℕ) → ((i : ℕ) → seq_at view r (seq_key_of (ids i)) ≡ 0)
    → ((m : Bytes) → score_at view r m ≡ 0)
    → (es : List (ℕ × Event)) → length (drain n ++ es) < 2 ^ 53
    → ReadBack unmarshal (run c n (start r ids max_bytes) (drain n ++ es)).history
    → (p : Params) (k : ℕ) → 0 < k
    → let s = run c n (start r ids max_bytes) (drain n ++ es) in
      redis_top c unmarshal s.db s.db ≡ top_is p k
      → (k ≡ hits s.history p) × ((q : Params) → hits s.history q ≤ k)
unfolding redis_top result_hits
redis_top-hits c view ok unmarshal ids distinct n r max_bytes fresh empty es few back p k some_hits
      e =
    let s = run c n (start r ids max_bytes) (drain n ++ es) in
    elim (Bool-cases (c.exists s.db saturated_key)) [
      | inl full ↦ absurd (
          omega (
            arith,
            ap
                (λ (b : Bool). result_hits (
                  if b
                  then top_error unavailable
                  else best_result unmarshal (c.best s.db counts_key)))
                full,
            ap result_hits e,
          ))
      | inr free ↦
          let found =
            sym (
              ap
                (λ (b : Bool).
                  if b
                  then top_error unavailable
                  else best_result unmarshal (c.best s.db counts_key))
                free)
            ∙ e in
          let (m, best, em) =
            best_result-top unmarshal (c.best s.db counts_key) p k found some_hits in
          let (score, most) = ok.best_some s.db counts_key m k best in
          let counted : (j : Bytes) → score_at view s.db j ≡ hits_at j s.history = λ j.
            drain-counted c view ok ids distinct n r max_bytes fresh es
              (λ j. omega (arith, empty j, few)) (sym (ok.exists_lem s.db saturated_key) ∙ free) j
            ∙ omega (arith, empty j) in
          let at_m : hits_at m s.history ≡ k = sym (counted m) ∙ ap or_zero score in
          let same = hits_at-member unmarshal s.history p m back em (omega arith) in
          (
            sym at_m ∙ hits_at-hits unmarshal s.history p m back em same,
            λ q. omega (arith, hits-le_at s.history q, most (member_of q), counted (member_of q)),
          )
    ]

-- For every server that is not saturated: if a saturation comes between the two commands of `Top`, it
-- reports no error and no hits, whatever was counted.
pub redis_top-saturate_script :
    {R : Type 0}
    → (c : Commands R) (view : R → Keyspace) → IsRedis c view
    → (unmarshal : Bytes → Option Params) (r : R) → is_saturated view r ≡ false
    → redis_top c unmarshal r (saturate_script c r) ≡ top_is no_params 0
unfolding redis_top saturate_script
redis_top-saturate_script {R = R} c view ok unmarshal r free =
    let r1 = c.del (c.put r saturated_key 1) counts_key in
    let r' = c.del r1 used_key in
    let gone : (m : Bytes) → (view r').score counts_key m ≡ none = λ m.
      (ok.del_there r1 used_key counts_key used-ne-counts).2 m
      ∙ ok.del_here (c.put r saturated_key 1) counts_key m in
    let go : (x : Option (Bytes × ℕ))
        → c.best r' counts_key ≡ x
        → best_result unmarshal x ≡ top_is no_params 0 =
      λ x e. empty_best x e gone in
    ap
      (λ (b : Bool).
        if b then top_error unavailable else best_result unmarshal (c.best r' counts_key))
      (ok.exists_lem r saturated_key ∙ free)
    ∙ go (c.best r' counts_key) refl
  where
    empty_best :
        {s : R} (x : Option (Bytes × ℕ))
        → c.best s counts_key ≡ x
        → ((m : Bytes) → (view s).score counts_key m ≡ none)
        → best_result unmarshal x ≡ top_is no_params 0
    empty_best none e gone = refl
    empty_best {s} (some (m, n)) e gone =
        absurd (ground (arith, sym (gone m) ∙ (ok.best_some s counts_key m n e).0))
