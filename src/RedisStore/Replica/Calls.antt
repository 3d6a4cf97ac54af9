-- ===== src/RedisStore/Replica/Calls.antt =====
-- A call that reaches Redis, for the first time or again.
use mathlib.Core.Path.{subst}
use fizzbuzz.Prelude.{
  ℕ, suc, ◌+◌, ◌^◌, ◌≤◌, ◌<◌, ◌≡◌, ◌⊎◌, inl, inr, sym, ap, ◌∙◌, Bool, false, some, List, Bytes,
  arith, leb, gt→leb, le→leb, if◌then◌else◌,
}
use fizzbuzz.Sequence.Params.{Params}
use fizzbuzz.Redis.{Commands, Keyspace, IsRedis}
use fizzbuzz.RedisStore.{Batch, Call, runs, seq_key_of, run_call}
use fizzbuzz.RedisStore.Pending.{weigh, all_hits, sent_hits, SentWithin, sent-le-all}
use fizzbuzz.RedisStore.Script.{
  is_saturated, score_at, seq_at, Effect, before, now, run_call-Effect,
}
use fizzbuzz.RedisStore.System.{Replica}
use fizzbuzz.RedisStore.Replica.{outstanding, Local, Moved, outstanding-split}

module _ {R : Type 0} (view : R → Keyspace) (id : Bytes) (k : ℕ) (a : Replica) (r r' : R) where
  abbrev last : ℕ
  last = seq_at view r (seq_key_of id)

  abbrev last' : ℕ
  last' = seq_at view r' (seq_key_of id)

  -- Before the batch is applied all that is pending is outstanding, and after it what was not sent.
  pub outstanding_new :
      (m : Bytes)
      → SentWithin a.store.pending
      → last < a.store.seq
      → outstanding a.store last m ≡ weigh all_hits m a.store.pending
  outstanding_new m w new =
      let sent = weigh sent_hits m a.store.pending in
      let off : (if◌then◌else◌ {A = ℕ} (leb a.store.seq last) sent 0) ≡ 0 =
        ap (λ (b : Bool). if◌then◌else◌ {A = ℕ} b sent 0) (gt→leb a.store.seq last new) in
      omega (arith, outstanding-split a.store last m w)

  outstanding_applied :
      (m : Bytes)
      → SentWithin a.store.pending
      → a.store.seq ≤ last'
      → outstanding a.store last' m + weigh sent_hits m a.store.pending
        ≡ weigh all_hits m a.store.pending
  outstanding_applied m w le =
      let sent = weigh sent_hits m a.store.pending in
      let on : (if◌then◌else◌ {A = ℕ} (leb a.store.seq last') sent 0) ≡ sent =
        ap (λ (b : Bool). if◌then◌else◌ {A = ℕ} b sent 0) (le→leb a.store.seq last' le) in
      omega (arith, outstanding-split a.store last' m w)

  -- A later sequence number leaves the rest as it was.
  advance-Local : Local id k last a → last ≤ last' → last' ≤ a.store.seq → Local id (suc k) last' a
  advance-Local t more le = record {
    key = t.key;
    within = t.within;
    few = λ m. omega (arith, t.few m);
    seq_few = omega (arith, t.seq_few);
    seq_le = le;
    no_batch = t.no_batch;
    one_batch = t.one_batch;
    messages =
        λ j b e. elim (t.messages j b e) [ inl old ↦ inl (omega arith) | inr same ↦ inr same ];
    waiting = t.waiting;
    replied = λ b e. ((t.replied b e).0, omega (arith, (t.replied b e).1));
    not_saturating = t.not_saturating;
  }

  -- A batch that reaches Redis.
  Effect-Moved :
      (h : List Params) (b : Batch)
      → Local id k last a
      → (b.seq ≤ last) ⊎ (a.store.batch ≡ some b)
      → is_saturated view r' ≡ false
      → Effect view id b r r'
      → Moved view id k a a r r' h h × (b.seq ≤ last')
  Effect-Moved h b t message free (before le e) =
      let same : last' ≡ last = ap (λ (x : R). seq_at view x (seq_key_of id)) e in
      (
        record {
          local = advance-Local t (omega arith) (omega (arith, t.seq_le));
          conserved = λ m.
              let score : score_at view r' m ≡ score_at view r m =
                ap (λ (x : R). score_at view x m) e in
              omega (arith, ap (λ (x : ℕ). outstanding a.store x m) same);
          grows = λ m. omega arith;
          others = λ j ne. ap (λ (x : R). seq_at view x (seq_key_of j)) e;
          free = ap (is_saturated view) (sym e) ∙ free;
        },
        omega arith,
      )
  Effect-Moved h b t message free (now new scores seq others was_free) = elim message [
    | inl old ↦ absurd (omega arith)
    | inr in_flight ↦
        let (b_seq, sent) = t.one_batch b in_flight in
        (
          record {
            local = advance-Local t (omega arith) (omega arith);
            conserved = λ m. omega (
              arith,
              scores m,
              sent m,
              outstanding_new m t.within (omega arith),
              outstanding_applied m t.within (omega arith),
            );
            grows = λ m. omega arith;
            others = others;
            free = was_free;
          },
          omega arith,
        )
  ]

module _ {R : Type 0} (c : Commands R) (view : R → Keyspace) (ok : IsRedis c view) (id : Bytes)
    (k : ℕ) (a : Replica) (r : R) where
  abbrev sequence : ℕ
  sequence = seq_at view r (seq_key_of id)

  abbrev IsMessage : Call → Type 0
  IsMessage x = (b : Batch) → x ≡ runs b → (b.seq ≤ sequence) ⊎ (a.store.batch ≡ some b)

  -- What a call leaves, with the key of the sequence number that it names.
  abbrev pub CallMoved : List Params → Call → Bytes → Type 0
  CallMoved h x key =
      is_saturated view (run_call c key x r).0 ≡ false
      → Moved view id k a a r (run_call c key x r).0 h h
        × (b : Batch) × (x ≡ runs b)
        × (b.seq ≤ seq_at view (run_call c key x r).0 (seq_key_of id))

  -- Any call of the replica that reaches Redis and leaves it unsaturated.
  pub call-Moved :
      (h : List Params) (x : Call)
      → Local id k sequence a
      → IsMessage x
      → ((m : Bytes) → score_at view r m + outstanding a.store sequence m < 2 ^ 53)
      → CallMoved h x a.store.seq_key
  call-Moved h x t message small = subst (CallMoved h x) (sym t.key) (λ free.
      let (b, e, effect) =
        run_call-Effect c view ok id x r
          (λ b e new m. elim (message b e) [
            | inl old ↦ absurd (omega arith)
            | inr in_flight ↦
                let (b_seq, sent) = t.one_batch b in_flight in
                omega (
                  arith,
                  small m,
                  sent m,
                  sent-le-all m a.store.pending t.within,
                  outstanding_new view id k a r r m t.within (omega arith),
                )
          ])
          free in
      let (moved, le) =
        Effect-Moved view id k a r (run_call c (seq_key_of id) x r).0 h b t (message b e) free
          effect in
      (moved, b, e, le))
