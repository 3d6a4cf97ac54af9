-- ===== src/RedisStore/Replica/Batches.antt =====
-- What the steps of a flush keep of a replica.
use fizzbuzz.Prelude.{
  ℕ, zero, suc, ◌+◌, ◌≤◌, ◌<◌, ◌≡◌, ◌⊎◌, inl, inr, refl, sym, ap, ◌∙◌, Bool, true, false, Option,
  none, some, List, [], ◌∷◌, Bytes, arith, leb, gt→leb, if◌then◌else◌, ◌==◌, length,
}
use fizzbuzz.RedisStore.{Batch, Call, runs, RedisStore, Pending, mark, items_of}
use fizzbuzz.RedisStore.Pending.{
  weigh, all_hits, sent_hits, batch_hits, SentWithin, batch_hits-items_of, weigh-mark,
  weigh-mark_sent, mark-SentWithin,
}
use fizzbuzz.RedisStore.System.{idle, waits, Replica, nth_call}
use fizzbuzz.RedisStore.Replica.{outstanding, Local, outstanding-split}

pub weigh-empty : (f : _) (m : Bytes) (l : Pending) → (length l == 0) ≡ true → weigh f m l ≡ 0
unfolding weigh
weigh-empty f m [] e = refl
weigh-empty f m (x ∷ l) e = absurd (ground (arith, e))

pub some-inj : (b b' : Batch) → some b ≡ some b' → b ≡ b'
some-inj b b' e = cc

-- The new message is the batch in flight.
pub new_message :
    (x : Call) (net : List Call) (last : ℕ) (batch : Option Batch)
    → ((b : Batch) → x ≡ runs b → batch ≡ some b)
    → ((j : ℕ) (b : Batch) → nth_call j net ≡ some (runs b) → (b.seq ≤ last) ⊎ (batch ≡ some b))
    → (j : ℕ) (b : Batch) → nth_call j (x ∷ net) ≡ some (runs b)
    → (b.seq ≤ last) ⊎ (batch ≡ some b)
new_message x net last batch f g zero b e = inr (f b (cc e))
new_message x net last batch f g (suc j) b e = g j b e

pub if-le : (b : Bool) (x : ℕ) → (if b then x else 0) ≤ x
if-le true x = omega arith
if-le false x = omega arith

module _ (id : Bytes) (k last : ℕ) where
  -- A flush sends the saturation, or the batch that it has.
  pub sends-Local :
      (a : Replica) (x : Call)
      → Local id k last a
      → ((b : Batch) → x ≡ runs b → a.store.batch ≡ some b)
      → Local id (suc k) last (record { store = a.store; phase = waits x; net = x ∷ a.net })
  sends-Local a x t f = record {
    key = t.key;
    within = t.within;
    few = λ m. omega (arith, t.few m);
    seq_few = omega (arith, t.seq_few);
    seq_le = t.seq_le;
    no_batch = t.no_batch;
    one_batch = t.one_batch;
    messages = new_message x a.net last a.store.batch f t.messages;
    waiting = λ b e. f b (cc e);
    replied = λ b e. absurd (cc e);
    not_saturating = λ e. cc e;
  }

  -- A flush that sends nothing, and one that fails.
  pub idle-Local :
      (a : Replica) → Local id k last a → Local id (suc k) last (record a { phase = idle })
  idle-Local a t = record {
    key = t.key;
    within = t.within;
    few = λ m. omega (arith, t.few m);
    seq_few = omega (arith, t.seq_few);
    seq_le = t.seq_le;
    no_batch = t.no_batch;
    one_batch = t.one_batch;
    messages = t.messages;
    waiting = λ b e. absurd (cc e);
    replied = λ b e. absurd (cc e);
    not_saturating = λ e. cc e;
  }

  -- Nothing is pending.
  pub empty-Local :
      (a : Replica)
      → Local id k last a
      → a.store.batch ≡ none
      → (length a.store.pending == 0) ≡ true
      → Local id (suc k) last (record a {
        store = record a.store { pending = mark a.store.pending; batch = none };
        phase = idle;
      })
  empty-Local a t nothing e = record {
    key = t.key;
    within = mark-SentWithin a.store.pending t.within;
    few = λ m. omega (arith, t.few m, weigh-mark m a.store.pending);
    seq_few = omega (arith, t.seq_few);
    seq_le = t.seq_le;
    no_batch = λ x m. weigh-mark_sent m a.store.pending ∙ weigh-empty all_hits m a.store.pending e;
    one_batch = λ b x. absurd (cc x);
    messages = λ j b x. elim (t.messages j b x) [
      | inl le ↦ inl le
      | inr other ↦ absurd (ground (arith, sym nothing ∙ other))
    ];
    waiting = λ b x. absurd (cc x);
    replied = λ b x. absurd (cc x);
    not_saturating = λ x. cc x;
  }

  -- A new batch with all that is pending.
  pub batch-Local :
      (a : Replica) (b : Batch)
      → Local id k last a
      → a.store.batch ≡ none
      → b.seq ≡ a.store.seq + 1
      → b.items ≡ items_of a.store.pending
      → Local id (suc k) last (record {
        store = record a.store { pending = mark a.store.pending; seq = b.seq; batch = some b };
        phase = waits (runs b);
        net = runs b ∷ a.net;
      })
  batch-Local a b t nothing next items = record {
    key = t.key;
    within = mark-SentWithin a.store.pending t.within;
    few = λ m. omega (arith, t.few m, weigh-mark m a.store.pending);
    seq_few = omega (arith, t.seq_few);
    seq_le = omega (arith, t.seq_le);
    no_batch = λ x m. absurd (cc x);
    one_batch = λ b' x.
        let same = some-inj b b' x in
        (
          ap (λ (y : Batch). y.seq) (sym same),
          λ m.
              ap (λ (y : Batch). batch_hits m y.items) (sym same)
              ∙ ap (batch_hits m) items
              ∙ batch_hits-items_of m a.store.pending
              ∙ sym (weigh-mark_sent m a.store.pending),
        );
    messages =
        new_message (runs b) a.net last (some b) (λ b' x. cc x)
          (λ j b' x. elim (t.messages j b' x) [
            | inl le ↦ inl le
            | inr other ↦ absurd (ground (arith, sym nothing ∙ other))
          ]);
    waiting = λ b' x. cc x;
    replied = λ b' x. absurd (cc x);
    not_saturating = λ x. cc x;
  }

  pub outstanding-mark :
      (s : RedisStore) (seq : ℕ) (m : Bytes) (batch : Option Batch)
      → SentWithin s.pending
      → ((j : Bytes) → weigh sent_hits j s.pending ≡ 0)
      → (last < seq) ⊎ (weigh all_hits m s.pending ≡ 0)
      → outstanding (record s { pending = mark s.pending; seq = seq; batch = batch }) last m
        ≡ outstanding s last m
  outstanding-mark s seq m batch w none_sent new =
      let s' = record s { pending = mark s.pending; seq = seq; batch = batch } in
      let now = outstanding-split s' last m (mark-SentWithin s.pending w) in
      let was = outstanding-split s last m w in
      let sent' = weigh-mark_sent m s.pending in
      let all' = weigh-mark m s.pending in
      let none' = none_sent m in
      let old = if-le (leb s.seq last) (weigh sent_hits m s.pending) in
      let sent = weigh sent_hits m (mark s.pending) in
      elim new [
        | inl less ↦
            let off : (if◌then◌else◌ {A = ℕ} (leb seq last) sent 0) ≡ 0 =
              ap (λ (b : Bool). if◌then◌else◌ {A = ℕ} b sent 0) (gt→leb seq last less) in
            omega arith
        | inr empty ↦ let some_sent = if-le (leb seq last) sent in omega arith
      ]

  pub later-Local : (a : Replica) → Local id k last a → Local id (suc k) last a
  later-Local a t = record {
    key = t.key;
    within = t.within;
    few = λ m. omega (arith, t.few m);
    seq_few = omega (arith, t.seq_few);
    seq_le = t.seq_le;
    no_batch = t.no_batch;
    one_batch = t.one_batch;
    messages = t.messages;
    waiting = t.waiting;
    replied = t.replied;
    not_saturating = t.not_saturating;
  }
