-- ===== src/RedisStore/Replica/Flushes.antt =====
-- `Flush` at a replica: it begins, its calls reach Redis, it fails, or it ends.
use mathlib.Core.Path.{subst}
use fizzbuzz.Prelude.{
  ℕ, suc, ◌+◌, ◌^◌, ◌≤◌, ◌<◌, ◌≡◌, inl, inr, refl, sym, ap, ◌∙◌, Bool, true, false, Bool-cases,
  Option, none, some, List, Bytes, arith, leb, le→leb, if◌then◌else◌, ◌==◌, ◌+w◌, length,
}
use fizzbuzz.Sequence.Params.{Params}
use fizzbuzz.Redis.{Keyspace}
use fizzbuzz.RedisStore.{
  batch_seq_ttl_seconds, Batch, Call, saturates, runs, RedisStore, seq_key_of, items_of, next_batch,
  begin_batch, begin_flush, acknowledge, finish_flush,
}
use fizzbuzz.RedisStore.Pending.{
  weigh, all_hits, sent_hits, weigh-acknowledge, acknowledge-none_sent, acknowledge-SentWithin,
}
use fizzbuzz.RedisStore.Script.{is_saturated, seq_at}
use fizzbuzz.RedisStore.System.{idle, answered, Replica, begun, begin_replica}
use fizzbuzz.RedisStore.Replica.{outstanding, Local, Moved, outstanding-split}
use fizzbuzz.RedisStore.Replica.Batches.{
  sends-Local, idle-Local, empty-Local, batch-Local, outstanding-mark, weigh-empty, some-inj, if-le,
  later-Local,
}

pub runs-inj : (b b' : Batch) → runs b ≡ runs b' → b ≡ b'
runs-inj b b' e = cc

if-either {ℓ} :
    {A : Type ℓ} (P : A → Type 0) (b : Bool) (x y : A) → P x → P y → P (if b then x else y)
if-either P true x y p q = p
if-either P false x y p q = q

module _ {R : Type 0} (view : R → Keyspace) (id : Bytes) (k : ℕ) (r : R)
    (free : is_saturated view r ≡ false) where
  abbrev last_applied : ℕ
  last_applied = seq_at view r (seq_key_of id)

  -- An event that leaves the server as it is.
  quiet-Moved :
      (a a' : Replica) (h : List Params)
      → Local id (suc k) last_applied a'
      → ((m : Bytes) → outstanding a'.store last_applied m ≡ outstanding a.store last_applied m)
      → Moved view id k a a' r r h h
  quiet-Moved a a' h t same = record {
    local = t;
    conserved = λ m. omega (arith, same m);
    grows = λ m. omega arith;
    others = λ j ne. refl;
    free = free;
  }

  next_batch-Moved :
      (a : Replica) (h : List Params)
      → Local id k last_applied a
      → k < 2 ^ 53
      → a.store.batch ≡ none
      → Moved view id k a (begun a (begin_batch a.store none)) r r h h
  unfolding begin_batch next_batch
  next_batch-Moved a h t small nothing =
      let none_sent = t.no_batch nothing in
      let few = t.seq_few in
      let le = t.seq_le in
      elim (Bool-cases (length a.store.pending == 0)) [
        | inl empty ↦ rw empty (
            quiet-Moved a _ h (empty-Local id k last_applied a t nothing empty) (λ m.
              outstanding-mark id k last_applied a.store a.store.seq m none t.within none_sent
                (inr (weigh-empty all_hits m a.store.pending empty))))
        | inr more ↦
            let next : a.store.seq +w 1 ≡ a.store.seq + 1 = omega arith in
            let b : Batch = record {
              seq = a.store.seq +w 1;
              ttl = batch_seq_ttl_seconds;
              budget = a.store.max_bytes;
              items = items_of a.store.pending;
            } in
            rw more (
              quiet-Moved a _ h (batch-Local id k last_applied a b t nothing next refl) (λ m.
                outstanding-mark id k last_applied a.store b.seq m (some b) t.within none_sent
                  (inl (omega arith))))
      ]

  begin_batch-Moved :
      (a : Replica) (h : List Params) (o : Option Batch)
      → a.store.batch ≡ o
      → Local id k last_applied a
      → k < 2 ^ 53
      → Moved view id k a (begun a (begin_batch a.store o)) r r h h
  begin_batch-Moved a h none e t small = next_batch-Moved a h t small e
  begin_batch-Moved a h (some b) e t small =
      unfold begin_batch in
      quiet-Moved a _ h
        (sends-Local id k last_applied a (runs b) t (λ b' x. e ∙ ap some (runs-inj b b' x)))
        (λ m. refl)

  pub begin-Moved :
      (a : Replica) (h : List Params)
      → Local id k last_applied a
      → k < 2 ^ 53
      → Moved view id k a (begin_replica a) r r h h
  unfolding begin_replica begin_flush
  begin-Moved a h t small =
      if-either (λ (s : RedisStore × Option Call). Moved view id k a (begun a s) r r h h)
        a.store.overflow (a.store, some saturates) (begin_batch a.store a.store.batch)
        (quiet-Moved a _ h (sends-Local id k last_applied a saturates t (λ b x. absurd (cc x)))
          (λ m. refl))
        (begin_batch-Moved a h a.store.batch refl t small)

  pub fail-Moved :
      (a : Replica) (h : List Params)
      → Local id k last_applied a
      → Moved view id k a (record a { phase = idle }) r r h h
  fail-Moved a h t = quiet-Moved a _ h (idle-Local id k last_applied a t) (λ m. refl)

  pub same-Moved :
      (a : Replica) (h : List Params) → Local id k last_applied a → Moved view id k a a r r h h
  same-Moved a h t = quiet-Moved a a h (later-Local id k last_applied a t) (λ m. refl)

  -- The reply to a batch: what was sent is counted.
  pub reply-Moved :
      (a : Replica) (h : List Params) (x : Call)
      → Local id k last_applied a
      → a.phase ≡ answered x
      → Moved view id k a (record a { store = finish_flush a.store x; phase = idle }) r r h h
  unfolding finish_flush
  reply-Moved a h saturates t e = absurd (t.not_saturating e)
  reply-Moved a h (runs b) t e =
      let (in_flight, applied) = t.replied b e in
      let (seq, sent) = t.one_batch b in_flight in
      let l = acknowledge a.store.used_bytes a.store.pending in
      let s' : RedisStore = record a.store { batch = none; pending = l.0; used_bytes = l.1 } in
      let within' = acknowledge-SentWithin a.store.used_bytes a.store.pending t.within in
      quiet-Moved a _ h
        (record {
          key = t.key;
          within = within';
          few = λ m.
              omega
                (arith, t.few m, weigh-acknowledge m a.store.used_bytes a.store.pending t.within);
          seq_few = omega (arith, t.seq_few);
          seq_le = t.seq_le;
          no_batch = λ y m. acknowledge-none_sent m a.store.used_bytes a.store.pending;
          one_batch = λ b' y. absurd (cc y);
          messages = λ j b' y. elim (t.messages j b' y) [
            | inl le ↦ inl le
            | inr same ↦
                let e' = some-inj b b' (sym in_flight ∙ same) in
                inl (subst (λ (z : Batch). z.seq ≤ last_applied) e' applied)
          ];
          waiting = λ b' y. absurd (cc y);
          replied = λ b' y. absurd (cc y);
          not_saturating = λ y. cc y;
        })
        (λ m.
          let now = outstanding-split s' last_applied m within' in
          let was = outstanding-split a.store last_applied m t.within in
          let gone = acknowledge-none_sent m a.store.used_bytes a.store.pending in
          let left = weigh-acknowledge m a.store.used_bytes a.store.pending t.within in
          let none_left = if-le (leb a.store.seq last_applied) (weigh sent_hits m l.0) in
          let on : (if◌then◌else◌ {A = ℕ} (leb a.store.seq last_applied)
                (weigh sent_hits m a.store.pending) 0)
              ≡ weigh sent_hits m a.store.pending =
            ap (λ (y : Bool). if◌then◌else◌ {A = ℕ} y (weigh sent_hits m a.store.pending) 0)
              (le→leb a.store.seq last_applied (omega arith)) in
          omega arith)
