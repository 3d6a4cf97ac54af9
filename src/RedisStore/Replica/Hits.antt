-- ===== src/RedisStore/Replica/Hits.antt =====
-- `Record` at a replica.
use mathlib.Core.List.{lookup}
use mathlib.Core.Path.{subst}
use fizzbuzz.Prelude.{
  ℕ, ◌+◌, ◌^◌, ◌≤◌, ◌<◌, ◌≡◌, inl, inr, refl, sym, ap, ◌∙◌, Bool, true, false, Bool-cases, Option,
  none, some, List, ◌∷◌, Bytes, arith, leb, if◌then◌else◌, lt_int, ◌+w◌,
}
use fizzbuzz.Sequence.Params.{Params, Params-discrete}
use fizzbuzz.Stats.Maps.{store}
use fizzbuzz.Redis.{Keyspace}
use fizzbuzz.RedisStore.{
  RedisStore, PendingHits, Pending, seq_key_of, memory_cost, member_of, record_entry,
  record_pending,
}
use fizzbuzz.RedisStore.Pending.{
  at_member, weigh, all_hits, sent_hits, SentWithin, weigh-store_new, weigh-store_old,
  store-SentWithin, lookup-within,
}
use fizzbuzz.RedisStore.Script.{is_saturated, seq_at}
use fizzbuzz.RedisStore.System.{Replica}
use fizzbuzz.RedisStore.Replica.{hits_at, outstanding, Local, Moved, outstanding-split}

-- The pending counts with one more hit of `p`.
record OneMore (p : Params) (l l' : Pending) : Type 0 where
  hits_more : (m : Bytes) → weigh all_hits m l' ≡ at_member m p 1 + weigh all_hits m l
  sent_same : (m : Bytes) → weigh sent_hits m l' ≡ weigh sent_hits m l
  still_within : SentWithin l'

-- `Record` drops the hit, or counts it in the pending counts.
data Recorded (s : RedisStore) (p : Params) (s' : RedisStore) : Type 0 where
  dropped : s' ≡ record s { overflow = true } → Recorded s p s'
  taken :
      (used : ℕ) (l : Pending)
      → s.overflow ≡ false
      → OneMore p s.pending l
      → s' ≡ record s { used_bytes = used; pending = l }
      → Recorded s p s'

at_member-suc :
    (m : Bytes) (p : Params) (n : ℕ) → at_member m p (n + 1) ≡ at_member m p 1 + at_member m p n
at_member-suc m p n = ground arith

store_new-OneMore :
    (p : Params) (l : Pending)
    → lookup Params-discrete p l ≡ none
    → SentWithin l
    → OneMore p l (store Params-discrete p (record { n = 1; sent = 0 }) l)
store_new-OneMore p l e w =
    let v : PendingHits = record { n = 1; sent = 0 } in
    record {
      hits_more = λ m. weigh-store_new all_hits m p v l e;
      sent_same = λ m.
          let zero_sent : at_member m p 0 ≡ 0 = ground arith in
          omega (arith, weigh-store_new sent_hits m p v l e);
      still_within = store-SentWithin p v l (omega arith) (omega arith) w;
    }

store_old-OneMore :
    (p : Params) (l : Pending) (g : PendingHits) (n : ℕ)
    → lookup Params-discrete p l ≡ some g
    → n ≡ g.n + 1
    → n < 2 ^ 64
    → SentWithin l
    → OneMore p l (store Params-discrete p (record g { n = n }) l)
store_old-OneMore p l g n e next small w =
    let v : PendingHits = record g { n = n } in
    let within = lookup-within p l g e w in
    record {
      hits_more = λ m. omega (
        arith,
        weigh-store_old all_hits m p v g l e,
        ap (at_member m p) next,
        at_member-suc m p g.n,
      );
      sent_same = λ m. omega (arith, weigh-store_old sent_hits m p v g l e);
      still_within = store-SentWithin p v l (omega (arith, within.0)) (omega arith) w;
    }

record_entry-Recorded :
    (s : RedisStore) (p : Params) (k : ℕ) (o : Option PendingHits)
    → lookup Params-discrete p s.pending ≡ o
    → s.overflow ≡ false
    → SentWithin s.pending
    → weigh all_hits (member_of p) s.pending ≤ k
    → k < 2 ^ 53
    → Recorded s p (record_entry s p o).0
unfolding record_entry
record_entry-Recorded s p k (some g) e open_store w few small =
    let within = lookup-within p s.pending g e w in
    let next : g.n +w 1 ≡ g.n + 1 = omega (arith, within.1) in
    taken s.used_bytes _ open_store
      (store_old-OneMore p s.pending g (g.n +w 1) e next (omega (arith, within.1)) w) refl
record_entry-Recorded s p k none e open_store w few small =
    let used = s.used_bytes +w memory_cost p in
    elim (Bool-cases (lt_int s.max_bytes used)) [
      | inl over ↦ rw over (dropped refl)
      | inr fits ↦ rw fits (taken used _ open_store (store_new-OneMore p s.pending e w) refl)
    ]

record_pending-Recorded :
    (s : RedisStore) (p : Params) (k : ℕ)
    → SentWithin s.pending
    → weigh all_hits (member_of p) s.pending ≤ k
    → k < 2 ^ 53
    → Recorded s p (record_pending s p).0
unfolding record_pending
record_pending-Recorded s p k w few small =
    branch s.overflow refl (λ e. record_entry-Recorded s p k _ refl e w few small)
  where
    branch :
        (b : Bool)
        → s.overflow ≡ b
        → (s.overflow ≡ false
            → Recorded s p (record_entry s p (lookup Params-discrete p s.pending)).0)
        → Recorded s p
            (if b then (s, false) else record_entry s p (lookup Params-discrete p s.pending)).0
    branch true e f = dropped (λ i. record s { overflow = e i })
    branch false e f = f e

module _ {R : Type 0} (view : R → Keyspace) (id : Bytes) (k : ℕ) (r : R)
    (free : is_saturated view r ≡ false) where
  abbrev last : ℕ
  last = seq_at view r (seq_key_of id)

  dropped-Moved :
      (a : Replica) (h : List Params)
      → Local id k last a
      → Moved view id k a (record a { store = record a.store { overflow = true } }) r r h h
  dropped-Moved a h t = record {
    local = record {
      key = t.key;
      within = t.within;
      few = λ m. omega (arith, t.few m);
      seq_few = omega (arith, t.seq_few);
      seq_le = t.seq_le;
      no_batch = t.no_batch;
      one_batch = t.one_batch;
      messages = t.messages;
      waiting = t.waiting;
      replied = t.replied;
      not_saturating = t.not_saturating;
    };
    conserved = λ m. unfold outstanding in refl;
    grows = λ m. omega arith;
    others = λ j ne. refl;
    free = free;
  }

  taken-Moved :
      (a : Replica) (h : List Params) (p : Params) (used : ℕ) (l : Pending)
      → Local id k last a
      → OneMore p a.store.pending l
      → Moved view id k a
          (record a { store = record a.store { used_bytes = used; pending = l } })
          r
          r
          h
          (p ∷ h)
  taken-Moved a h p used l t o = record {
    local = record {
      key = t.key;
      within = o.still_within;
      few = λ m.
          let one : at_member m p 1 ≤ 1 = ground arith in omega (arith, t.few m, o.hits_more m);
      seq_few = omega (arith, t.seq_few);
      seq_le = t.seq_le;
      no_batch = λ e m. o.sent_same m ∙ t.no_batch e m;
      one_batch = λ b e. ((t.one_batch b e).0, λ m. (t.one_batch b e).1 m ∙ sym (o.sent_same m));
      messages = t.messages;
      waiting = t.waiting;
      replied = t.replied;
      not_saturating = t.not_saturating;
    };
    conserved = λ m.
        let now =
          outstanding-split (record a.store { used_bytes = used; pending = l }) last m
            o.still_within in
        let before = outstanding-split a.store last m t.within in
        let sent =
          ap (λ (x : ℕ). if◌then◌else◌ {A = ℕ} (leb a.store.seq last) x 0) (o.sent_same m) in
        let more : hits_at m (p ∷ h) ≡ at_member m p 1 + hits_at m h = unfold hits_at in refl in
        omega (arith, o.hits_more m);
    grows = λ m. let one : at_member m p 1 ≤ 1 = ground arith in unfold hits_at in omega arith;
    others = λ j ne. refl;
    free = free;
  }

  pub hit-Moved :
      (a : Replica) (h : List Params) (p : Params)
      → Local id k last a
      → k < 2 ^ 53
      → Moved view id k a
          (record a { store = (record_pending a.store p).0 })
          r
          r
          h
          (if (record_pending a.store p).0.overflow then h else p ∷ h)
  hit-Moved a h p t small =
      elim (record_pending-Recorded a.store p k t.within (t.few (member_of p)) small) [
        | dropped e ↦
            subst
              (λ (x : RedisStore).
                Moved view id k a (record a { store = x }) r r h (if x.overflow then h else p ∷ h))
              (sym e) (dropped-Moved a h t)
        | taken used l running o e ↦
            subst
              (λ (x : RedisStore).
                Moved view id k a (record a { store = x }) r r h (if x.overflow then h else p ∷ h))
              (sym e)
              (subst
                (λ (b : Bool).
                  Moved view id k a
                    (record a { store = record a.store { used_bytes = used; pending = l } }) r r h
                    (if b then h else p ∷ h))
                (sym running) (taken-Moved a h p used l t o))
      ]
