-- ===== src/RedisStore/Replica/Events.antt =====
-- Any event at a replica.
use fizzbuzz.Prelude.{
  ℕ, ◌+◌, ◌^◌, ◌≤◌, ◌<◌, ◌≡◌, inr, refl, sym, ap, ◌∙◌, false, Option, none, some, List, Bytes,
  arith,
}
use fizzbuzz.Sequence.Params.{Params}
use fizzbuzz.Redis.{Commands, Keyspace, IsRedis}
use fizzbuzz.RedisStore.{Batch, Call, runs, seq_key_of}
use fizzbuzz.RedisStore.Script.{is_saturated, score_at, seq_at}
use fizzbuzz.RedisStore.System.{
  begins_at, arrives_at, answers_at, replies_at, Phase, idle, waits, answered, Replica, nth_call,
  Event, hit, begins, arrives, answers, fails, replies, step_replica,
}
use fizzbuzz.RedisStore.Replica.{outstanding, Local, Moved}
use fizzbuzz.RedisStore.Replica.Hits.{hit-Moved}
use fizzbuzz.RedisStore.Replica.Flushes.{begin-Moved, fail-Moved, same-Moved, reply-Moved, runs-inj}
use fizzbuzz.RedisStore.Replica.Calls.{call-Moved}

module _ {R : Type 0} (view : R → Keyspace) (id : Bytes) (k : ℕ) where
  -- The answer to the call that the flush waits for.
  answered-Moved :
      (a : Replica) (r r' : R) (h : List Params) (b : Batch) (x : Call)
      → Moved view id k a a r r' h h
      → x ≡ runs b
      → a.store.batch ≡ some b
      → b.seq ≤ seq_at view r' (seq_key_of id)
      → Moved view id k a (record a { phase = answered x }) r r' h h
  answered-Moved a r r' h b x m e in_flight le =
      let t = m.local in
      record {
        local = record {
          key = t.key;
          within = t.within;
          few = t.few;
          seq_few = t.seq_few;
          seq_le = t.seq_le;
          no_batch = t.no_batch;
          one_batch = t.one_batch;
          messages = t.messages;
          waiting = λ b' y. absurd (cc y);
          replied = λ b' y.
              let same : b ≡ b' = runs-inj b b' (sym e ∙ cc y) in
              (in_flight ∙ ap some same, omega (arith, ap (λ (z : Batch). z.seq) same));
          not_saturating = λ y. cc (y, e);
        };
        conserved = m.conserved;
        grows = m.grows;
        others = m.others;
        free = m.free;
      }

module _ {R : Type 0} (c : Commands R) (view : R → Keyspace) (ok : IsRedis c view) (id : Bytes)
    (k : ℕ) (small : k < 2 ^ 53) (a : Replica) (r : R) (h : List Params) where
  abbrev pub OutcomeMoved : Replica × R × List Params → Type 0
  OutcomeMoved o = is_saturated view o.1 ≡ false → Moved view id k a o.0 r o.1 h o.2

  module _ (t : Local id k (seq_at view r (seq_key_of id)) a)
      (bound : (m : Bytes)
        → score_at view r m + outstanding a.store (seq_at view r (seq_key_of id)) m < 2 ^ 53) where
    same : OutcomeMoved (a, r, h)
    same free = same-Moved view id k r free a h t

    begins-Moved : (x : Phase) → OutcomeMoved (begins_at c x a r h)
    begins-Moved idle free = begin-Moved view id k r free a h t small
    begins-Moved (waits x) free = same free
    begins-Moved (answered x) free = same free

    arrives-Moved :
        (j : ℕ) (x : Option Call) → nth_call j a.net ≡ x → OutcomeMoved (arrives_at c x a r h)
    arrives-Moved j none e free = same free
    arrives-Moved j (some x) e free =
        (call-Moved c view ok id k a r h x t (λ b y. t.messages j b (e ∙ ap some y)) bound free).0

    answers-Moved : (x : Phase) → a.phase ≡ x → OutcomeMoved (answers_at c x a r h)
    answers-Moved idle e free = same free
    answers-Moved (waits x) e free =
        let waiting : (b : Batch) → x ≡ runs b → a.store.batch ≡ some b =
          λ b y. t.waiting b (e ∙ ap waits y) in
        let (moved, b, y, le) =
          call-Moved c view ok id k a r h x t (λ b y. inr (waiting b y)) bound free in
        answered-Moved view id k a r _ h b x moved y (waiting b y) le
    answers-Moved (answered x) e free = same free

    replies-Moved : (x : Phase) → a.phase ≡ x → OutcomeMoved (replies_at c x a r h)
    replies-Moved idle e free = same free
    replies-Moved (waits x) e free = same free
    replies-Moved (answered x) e free = reply-Moved view id k r free a h x t e

    -- Every event that leaves the store unsaturated.
    pub step_replica-Moved : (e : Event) → OutcomeMoved (step_replica c a e r h)
    unfolding step_replica
    step_replica-Moved (hit p) free = hit-Moved view id k r free a h p t small
    step_replica-Moved begins free = begins-Moved a.phase free
    step_replica-Moved (arrives j) free = arrives-Moved j _ refl free
    step_replica-Moved answers free = answers-Moved a.phase refl free
    step_replica-Moved fails free = fail-Moved view id k r free a h t
    step_replica-Moved replies free = replies-Moved a.phase refl free
