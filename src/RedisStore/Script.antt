-- ===== src/RedisStore/Script.antt =====
-- The scripts: what a call does to the counts, the sequence numbers and the saturation.
use mathlib.Core.Logic.{ite}
use fizzbuzz.Prelude.{
  ℕ, zero, suc, ◌+◌, ◌^◌, ◌≤◌, ◌<◌, ◌≡◌, ◌≢◌, inl, inr, refl, sym, ap, ◌∙◌, Bool, true, false,
  Bool-cases, List, [], ◌∷◌, Bytes, Bytes-discrete, arith, leb, leb→le, leb→gt, lt_int, drop,
}
use fizzbuzz.Redis.{Commands, Keyspace, or_zero, Same, IsRedis}
use fizzbuzz.RedisStore.{
  Item, Batch, Call, saturates, runs, counts_key, used_key, saturated_key, seq_key_of, batch_used,
  apply_items, saturate_script, flush_script, run_call,
}
use fizzbuzz.RedisStore.Pending.{batch_hits}

nth : ℕ → Bytes → ℕ
nth i [] = 0
nth zero (c ∷ s) = c
nth (suc i) (c ∷ s) = nth i s

pub counts-ne-saturated : saturated_key ≢ counts_key
unfolding nth
counts-ne-saturated e = omega (arith, ap (nth 17) e)

pub used-ne-saturated : saturated_key ≢ used_key
unfolding nth
used-ne-saturated e = omega (arith, ap (nth 17) e)

pub used-ne-counts : counts_key ≢ used_key
unfolding nth
used-ne-counts e = omega (arith, ap (nth 17) e)

seq-ne-counts : (id : Bytes) → seq_key_of id ≢ counts_key
unfolding nth
seq-ne-counts id e = omega (arith, ap (nth 17) e)

seq-ne-used : (id : Bytes) → seq_key_of id ≢ used_key
unfolding nth
seq-ne-used id e = omega (arith, ap (nth 17) e)

pub seq-ne-saturated : (id : Bytes) → seq_key_of id ≢ saturated_key
unfolding nth
seq-ne-saturated id e = omega (arith, ap (nth 18) e)

pub seq_key_of-inj : (i j : Bytes) → seq_key_of i ≡ seq_key_of j → i ≡ j
seq_key_of-inj i j e = ap (drop 21) e

module _ {R : Type 0} (view : R → Keyspace) where
  abbrev pub is_saturated : R → Bool
  is_saturated r = (view r).present saturated_key

  -- The count of a member, and the last sequence number of a key.
  abbrev pub score_at : R → Bytes → ℕ
  score_at r m = or_zero ((view r).score counts_key m)

  abbrev pub seq_at : R → Bytes → ℕ
  seq_at r k = or_zero ((view r).text k)

  -- What a call of `flushScript` does that leaves the store unsaturated: nothing, if the batch was
  -- applied before, or it adds the whole batch and keeps its sequence number.
  pub data Effect (id : Bytes) (b : Batch) (r r' : R) : Type 0 where
    before : b.seq ≤ seq_at r (seq_key_of id) → r' ≡ r → Effect id b r r'
    now :
        seq_at r (seq_key_of id) < b.seq
        → ((m : Bytes) → score_at r' m ≡ score_at r m + batch_hits m b.items)
        → seq_at r' (seq_key_of id) ≡ b.seq
        → ((j : Bytes) → j ≢ id → seq_at r' (seq_key_of j) ≡ seq_at r (seq_key_of j))
        → is_saturated r ≡ false
        → Effect id b r r'

module _ {R : Type 0} (c : Commands R) (view : R → Keyspace) (ok : IsRedis c view) where
  pub apply_items-other :
      (items : List Item) (r : R) (j : Bytes)
      → j ≢ counts_key
      → Same (view r) (view (apply_items c items r)) j
  unfolding apply_items
  apply_items-other [] r j ne = (refl, refl, λ m. refl)
  apply_items-other (i ∷ items) r j ne =
      let (p, t, s) = ok.zincrby_there r counts_key i.hits i.member j ne in
      let (p', t', s') = apply_items-other items (c.zincrby r counts_key i.hits i.member) j ne in
      (p' ∙ p, t' ∙ t, λ m. s' m ∙ s m)

  zincrby-score :
      (r : R) (i : Item) (m : Bytes)
      → score_at view r i.member + i.hits < 2 ^ 53
      → score_at view (c.zincrby r counts_key i.hits i.member) m
        ≡ score_at view r m + ite (Bytes-discrete m i.member) i.hits 0
  zincrby-score r i m small = elim (Bytes-discrete m i.member) [
    | yes same ↦
        let here = ok.zincrby_here r counts_key i.hits i.member small in
        ap (score_at view (c.zincrby r counts_key i.hits i.member)) same
        ∙ ap or_zero here
        ∙ ap (λ (x : Bytes). score_at view r x + i.hits) (sym same)
        ∙ ground (arith, same)
    | no other ↦
        ap or_zero (ok.zincrby_member r counts_key i.hits i.member m other) ∙ ground (arith, other)
  ]

  -- The second loop adds the hits of the batch to each member.
  apply_items-score :
      (items : List Item) (r : R) (m : Bytes)
      → ((j : Bytes) → score_at view r j + batch_hits j items < 2 ^ 53)
      → score_at view (apply_items c items r) m ≡ score_at view r m + batch_hits m items
  unfolding apply_items batch_hits
  apply_items-score [] r m small = omega arith
  apply_items-score (i ∷ items) r m small =
      let r' = c.zincrby r counts_key i.hits i.member in
      let fits : score_at view r i.member + i.hits < 2 ^ 53 = ground (arith, small i.member) in
      omega (
        arith,
        zincrby-score r i m fits,
        apply_items-score items r' m (λ j. omega (arith, small j, zincrby-score r i j fits)),
      )

  pub saturate_script-saturated : (r : R) → is_saturated view (saturate_script c r) ≡ true
  unfolding saturate_script
  saturate_script-saturated r =
      let r1 = c.put r saturated_key 1 in
      (ok.del_there (c.del r1 counts_key) used_key saturated_key used-ne-saturated).0
      ∙ (ok.del_there r1 counts_key saturated_key counts-ne-saturated).0
      ∙ (ok.put_here r saturated_key 1).0

  applied-Effect :
      (id : Bytes) (b : Batch) (r : R) (used : ℕ)
      → is_saturated view r ≡ false
      → seq_at view r (seq_key_of id) < b.seq
      → ((m : Bytes) → score_at view r m + batch_hits m b.items < 2 ^ 53)
      → Effect view id b r
          (c.put_ex (c.put (apply_items c b.items r) used_key used) (seq_key_of id) b.seq b.ttl)
  applied-Effect id b r used free new small =
      let r1 = apply_items c b.items r in
      let r2 = c.put r1 used_key used in
      let k = seq_key_of id in
      let counts_ne_seq : counts_key ≢ k = λ e. seq-ne-counts id (sym e) in
      now new
        (λ m.
          ap or_zero ((ok.put_ex_there r2 k b.seq b.ttl counts_key counts_ne_seq).2 m)
          ∙ ap or_zero ((ok.put_there r1 used_key used counts_key used-ne-counts).2 m)
          ∙ apply_items-score b.items r m small)
        (ap or_zero (ok.put_ex_here r2 k b.seq b.ttl).1)
        (λ j ne.
          let other : seq_key_of j ≢ k = λ e. ne (seq_key_of-inj j id e) in
          ap or_zero (
            (ok.put_ex_there r2 k b.seq b.ttl (seq_key_of j) other).1
            ∙ (ok.put_there r1 used_key used (seq_key_of j) (seq-ne-used j)).1
            ∙ (apply_items-other b.items r (seq_key_of j) (seq-ne-counts j)).1))
        free

  -- A call of `flushScript`, for counts that stay below 2 ^ 53.
  pub flush_script-Effect :
      (id : Bytes) (b : Batch) (r : R)
      → (seq_at view r (seq_key_of id) < b.seq
          → (m : Bytes) → score_at view r m + batch_hits m b.items < 2 ^ 53)
      → is_saturated view (flush_script c (seq_key_of id) b r).0 ≡ false
      → Effect view id b r (flush_script c (seq_key_of id) b r).0
  unfolding flush_script
  flush_script-Effect id b r small =
      let used = batch_used c r b.items (or_zero (c.get r used_key)) in
      let e_get = ok.get_lem r (seq_key_of id) in
      elim (Bool-cases (is_saturated view r)) [
        | inl full ↦
            rw (ok.exists_lem r saturated_key, full) (λ h. absurd (ground (arith, sym h ∙ full)))
        | inr free ↦ elim (Bool-cases (leb b.seq (seq_at view r (seq_key_of id)))) [
          | inl old ↦
              rw (ok.exists_lem r saturated_key, free, e_get, old)
                (λ h. before (leb→le _ _ old) refl)
          | inr new ↦ elim (Bool-cases (lt_int b.budget used)) [
            | inl over ↦
                rw (ok.exists_lem r saturated_key, free, e_get, new, over)
                  (λ h. absurd (ground (arith, sym h ∙ saturate_script-saturated r)))
            | inr fits ↦
                rw (ok.exists_lem r saturated_key, free, e_get, new, fits)
                  (λ h. applied-Effect id b r used free (leb→gt _ _ new) (small (leb→gt _ _ new)))
          ]
        ]
      ]

  -- A call that leaves the store unsaturated is a batch, with its effect.
  pub run_call-Effect :
      (id : Bytes) (call : Call) (r : R)
      → ((b : Batch)
          → call ≡ runs b
          → seq_at view r (seq_key_of id) < b.seq
          → (m : Bytes) → score_at view r m + batch_hits m b.items < 2 ^ 53)
      → is_saturated view (run_call c (seq_key_of id) call r).0 ≡ false
      → (b : Batch) × (call ≡ runs b) × Effect view id b r (run_call c (seq_key_of id) call r).0
  unfolding run_call
  run_call-Effect id saturates r small free =
      absurd (ground (arith, sym free ∙ saturate_script-saturated r))
  run_call-Effect id (runs b) r small free =
      (b, refl, flush_script-Effect id b r (small b refl) free)

  pub Effect-free :
      {id : Bytes} {b : Batch} {r r' : R}
      → Effect view id b r r'
      → is_saturated view r' ≡ false
      → is_saturated view r ≡ false
  Effect-free (before le e) free = ap (is_saturated view) (sym e) ∙ free
  Effect-free (now lt scores seq others was_free) free = was_free
