-- ===== src/RedisStore/Exact.antt =====
-- The shared counts against the history of all replicas.
use mathlib.Core.Path.{subst}
use native.Mathlib.Decide.{ℕ_discrete}
use fizzbuzz.Prelude.{
  ℕ, suc, ◌+◌, ◌^◌, ◌≤◌, ◌<◌, ◌≡◌, ◌≢◌, inl, inr, refl, sym, ap, ◌∙◌, false, Bool-cases, List, [],
  ◌∷◌, Bytes, arith, length, ltb, ltb→lt, sum_range, sum_range_change, sum_range_term,
  sum_range_none, update, update_here, update_there,
}
use fizzbuzz.Sequence.Params.{Params}
use fizzbuzz.Redis.{Commands, Keyspace, IsRedis}
use fizzbuzz.RedisStore.{seq_key_of, new_redis_store}
use fizzbuzz.RedisStore.Pending.{weigh}
use fizzbuzz.RedisStore.Script.{is_saturated, score_at, seq_at}
use fizzbuzz.RedisStore.System.{System, Replica, Event, step_replica, step, run, start}
use fizzbuzz.RedisStore.Saturation.{step-free}
use fizzbuzz.RedisStore.Replica.{hits_at, outstanding, Local, Moved}
use fizzbuzz.RedisStore.Replica.Events.{step_replica-Moved}
use fizzbuzz.RedisStore.Replica.Batches.{later-Local}

module _ {R : Type 0} (view : R → Keyspace) (ids : ℕ → Bytes) where
  -- The hits that replica `i` has for a member and Redis does not.
  abbrev pub uncounted_at : System R → Bytes → ℕ → ℕ
  uncounted_at s m i = outstanding (s.replicas i).store (seq_at view s.db (seq_key_of (ids i))) m

  -- Those of the first `n` replicas.
  unfoldable pub uncounted : ℕ → System R → Bytes → ℕ
  uncounted n s m = sum_range (uncounted_at s m) 0 n

module _ {R : Type 0} (c : Commands R) (view : R → Keyspace) (ok : IsRedis c view) (ids : ℕ → Bytes)
    (distinct : (i j : ℕ) → ids i ≡ ids j → i ≡ j) (n : ℕ) (initial : Bytes → ℕ) where
  -- After `k` events that left the store unsaturated.
  record Inv (k : ℕ) (s : System R) : Type 0 where
    locals : (i : ℕ) → Local (ids i) k (seq_at view s.db (seq_key_of (ids i))) (s.replicas i)
    conserved :
        (m : Bytes)
        → score_at view s.db m + uncounted view ids n s m ≡ initial m + hits_at m s.history
    few : (m : Bytes) → hits_at m s.history ≤ k

  later-Inv : (k : ℕ) (s : System R) → Inv k s → Inv (suc k) s
  later-Inv k s v = record {
    locals = λ i. later-Local (ids i) k _ (s.replicas i) (v.locals i);
    conserved = v.conserved;
    few = λ m. omega (arith, v.few m);
  }

  module _ (k i : ℕ) (s : System R) (a' : Replica) (r' : R) (h' : List Params) (lt : i < n)
      (v : Inv k s) (moved : Moved view (ids i) k (s.replicas i) a' s.db r' s.history h') where
    abbrev after : System R
    after = record { db = r'; replicas = update s.replicas i a'; history = h' }

    moved-Local :
        (j : ℕ) → Local (ids j) (suc k) (seq_at view r' (seq_key_of (ids j))) (after.replicas j)
    moved-Local j = elim (ℕ_discrete j i) [
      | yes here ↦
          subst
            (λ x. Local (ids x) (suc k) (seq_at view r' (seq_key_of (ids x))) (after.replicas x))
            (sym here)
            (subst (Local (ids i) (suc k) (seq_at view r' (seq_key_of (ids i))))
              (sym (update_here s.replicas i a')) moved.local)
      | no other ↦
          let key = moved.others (ids j) (λ e. other (distinct j i e)) in
          subst (λ a. Local (ids j) (suc k) (seq_at view r' (seq_key_of (ids j))) a)
            (sym (update_there s.replicas i a' j other))
            (subst (λ x. Local (ids j) (suc k) x (s.replicas j)) (sym key)
              (later-Local (ids j) k _ (s.replicas j) (v.locals j)))
    ]

    uncounted_there :
        (m : Bytes) (j : ℕ) → j ≢ i → uncounted_at view ids after m j ≡ uncounted_at view ids s m j
    uncounted_there m j other =
        ap (λ (a : Replica). outstanding a.store (seq_at view r' (seq_key_of (ids j))) m)
          (update_there s.replicas i a' j other)
        ∙ ap (λ x. outstanding (s.replicas j).store x m)
            (moved.others (ids j) (λ e. other (distinct j i e)))

    uncounted_here :
        (m : Bytes)
        → uncounted_at view ids after m i
          ≡ outstanding a'.store (seq_at view r' (seq_key_of (ids i))) m
    uncounted_here m =
        ap (λ (a : Replica). outstanding a.store (seq_at view r' (seq_key_of (ids i))) m)
          (update_here s.replicas i a')

    moved-conserved :
        (m : Bytes) → score_at view r' m + uncounted view ids n after m ≡ initial m + hits_at m h'
    unfolding uncounted
    moved-conserved m = omega (
      arith,
      v.conserved m,
      moved.conserved m,
      uncounted_here m,
      sum_range_change (uncounted_at view ids after m) (uncounted_at view ids s m) i 0 n
          (omega arith) (omega arith) (uncounted_there m),
    )

    moved-Inv : Inv (suc k) after
    moved-Inv = record {
      locals = moved-Local;
      conserved = moved-conserved;
      few = λ m. omega (arith, v.few m, moved.grows m);
    }

  -- An event that leaves the store unsaturated, while all the hits fit 53 bits.
  step-Inv :
      (k : ℕ) (s : System R) (e : ℕ × Event)
      → ((m : Bytes) → initial m + k < 2 ^ 53)
      → Inv k s
      → is_saturated view (step c n s e).db ≡ false
      → Inv (suc k) (step c n s e)
  unfolding step uncounted
  step-Inv k s (i, e) small v = elim (Bool-cases (ltb i n)) [
    | inl inside ↦
        let lt = ltb→lt i n inside in
        let bound : (m : Bytes) → score_at view s.db m + uncounted_at view ids s m i < 2 ^ 53 = λ m.
          omega (
            arith,
            small m,
            v.few m,
            v.conserved m,
            sum_range_term (uncounted_at view ids s m) i 0 n (omega arith) (omega arith),
          ) in
        let k_small : k < 2 ^ 53 = omega (arith, small []) in
        let (a', r', h') = step_replica c (s.replicas i) e s.db s.history in
        rw inside (λ free. moved-Inv k i s a' r' h' lt v (
          step_replica-Moved c view ok (ids i) k k_small (s.replicas i) s.db s.history (v.locals i)
            bound e free))
    | inr outside ↦ rw outside (λ free. later-Inv k s v)
  ]

  module _ (r : R) (max_bytes : ℕ) (fresh : (i : ℕ) → seq_at view r (seq_key_of (ids i)) ≡ 0)
      (scores : (m : Bytes) → score_at view r m ≡ initial m) where
    start-uncounted : (m : Bytes) (i : ℕ) → uncounted_at view ids (start r ids max_bytes) m i ≡ 0
    unfolding start outstanding new_redis_store weigh
    start-uncounted m i = rw (fresh i) refl

    start-Inv : Inv 0 (start r ids max_bytes)
    unfolding start new_redis_store uncounted hits_at weigh
    start-Inv = record {
      locals = λ i. record {
        key = refl;
        within = tt;
        few = λ m. omega arith;
        seq_few = omega arith;
        seq_le = omega (arith, fresh i);
        no_batch = λ e m. refl;
        one_batch = λ b e. absurd (cc e);
        messages = λ j b e. absurd (cc e);
        waiting = λ b e. absurd (cc e);
        replied = λ b e. absurd (cc e);
        not_saturating = λ e. cc e;
      };
      conserved = λ m. omega (
        arith,
        scores m,
        sum_range_none (uncounted_at view ids (start r ids max_bytes) m) 0 n
            (λ j. start-uncounted m j),
      );
      few = λ m. omega arith;
    }

    run-Inv :
        (es : List (ℕ × Event))
        → ((m : Bytes) → initial m + length es < 2 ^ 53)
        → is_saturated view (run c n (start r ids max_bytes) es).db ≡ false
        → Inv (length es) (run c n (start r ids max_bytes) es)
    unfolding run
    run-Inv [] small free = start-Inv
    run-Inv (e ∷ es) small free =
        let s = run c n (start r ids max_bytes) es in
        let fits : (m : Bytes) → initial m + length es < 2 ^ 53 = λ m. omega (arith, small m) in
        step-Inv (length es) s e fits (run-Inv es fits (step-free c view ok n s e free)) free

-- For replicas with distinct texts, over a server that has no sequence number of theirs: after any
-- events in any order, with calls that fail, come late and come again, and if the store is not
-- saturated and no count can reach 2 ^ 53, what Redis counts for a member with what the replicas
-- still have for it is what Redis counted at the start with the requests for it since.
pub run-counted :
    {R : Type 0}
    → (c : Commands R) (view : R → Keyspace) → IsRedis c view
    → (ids : ℕ → Bytes) → ((i j : ℕ) → ids i ≡ ids j → i ≡ j)
    → (n : ℕ) (r : R) (max_bytes : ℕ) → ((i : ℕ) → seq_at view r (seq_key_of (ids i)) ≡ 0)
    → (es : List (ℕ × Event)) → ((m : Bytes) → score_at view r m + length es < 2 ^ 53)
    → is_saturated view (run c n (start r ids max_bytes) es).db ≡ false
    → (m : Bytes)
    → let s = run c n (start r ids max_bytes) es in
      score_at view s.db m + uncounted view ids n s m ≡ score_at view r m + hits_at m s.history
run-counted c view ok ids distinct n r max_bytes fresh es small free =
    (run-Inv c view ok ids distinct n (score_at view r) r max_bytes fresh (λ m. refl) es small
      free).conserved
