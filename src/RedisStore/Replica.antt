-- ===== src/RedisStore/Replica.antt =====
-- One replica against the server: what its local counts, its batch and its messages say.
pub mod Hits
pub mod Batches
pub mod Flushes
pub mod Calls
pub mod Events
use fizzbuzz.Prelude.{
  ℕ, suc, ◌+◌, ◌-◌, ◌^◌, ◌≤◌, ◌<◌, ◌≡◌, ◌≢◌, ◌⊎◌, inl, inr, refl, Bool, false, Option, none, some,
  List, [], ◌∷◌, Bytes, arith, leb, if◌then◌else◌,
}
use fizzbuzz.Sequence.Params.{Params}
use fizzbuzz.Redis.{Keyspace}
use fizzbuzz.RedisStore.{Batch, Call, saturates, runs, RedisStore, seq_key_of}
use fizzbuzz.RedisStore.Pending.{
  at_member, weigh, all_hits, sent_hits, batch_hits, SentWithin, sent-le-all,
}
use fizzbuzz.RedisStore.Script.{is_saturated, score_at, seq_at}
use fizzbuzz.RedisStore.System.{Phase, waits, answered, Replica, nth_call}

-- The requests with a member.
unfoldable pub hits_at : Bytes → List Params → ℕ
hits_at m [] = 0
hits_at m (p ∷ h) = at_member m p 1 + hits_at m h

-- The hits of a replica that Redis has not counted; `last` is the last sequence number it applied.
unfoldable pub outstanding : RedisStore → ℕ → Bytes → ℕ
outstanding s last m =
    weigh all_hits m s.pending - (if leb s.seq last then weigh sent_hits m s.pending else 0)

-- After at most `k` events: the local counts and the batch agree, every message is the batch in
-- flight or was applied, and a reply is one to the batch in flight.
pub record Local (id : Bytes) (k last : ℕ) (a : Replica) : Type 0 where
  pub key : a.store.seq_key ≡ seq_key_of id
  pub within : SentWithin a.store.pending
  pub few : (m : Bytes) → weigh all_hits m a.store.pending ≤ k
  pub seq_few : a.store.seq ≤ k
  pub seq_le : last ≤ a.store.seq
  pub no_batch : a.store.batch ≡ none → (m : Bytes) → weigh sent_hits m a.store.pending ≡ 0
  pub one_batch :
      (b : Batch)
      → a.store.batch ≡ some b
      → (b.seq ≡ a.store.seq)
        × ((m : Bytes) → batch_hits m b.items ≡ weigh sent_hits m a.store.pending)
  pub messages :
      (j : ℕ) (b : Batch)
      → nth_call j a.net ≡ some (runs b)
      → (b.seq ≤ last) ⊎ (a.store.batch ≡ some b)
  pub waiting : (b : Batch) → a.phase ≡ waits (runs b) → a.store.batch ≡ some b
  pub replied :
      (b : Batch) → a.phase ≡ answered (runs b) → (a.store.batch ≡ some b) × (b.seq ≤ last)
  pub not_saturating : a.phase ≡ answered saturates → ⊥

-- An event at a replica that leaves the store unsaturated: no hit is lost or counted twice.
pub record Moved {R : Type 0} (view : R → Keyspace) (id : Bytes) (k : ℕ) (a a' : Replica) (r r' : R)
    (h h' : List Params) : Type 0 where
  pub local : Local id (suc k) (seq_at view r' (seq_key_of id)) a'
  pub conserved :
      (m : Bytes)
      → score_at view r' m + outstanding a'.store (seq_at view r' (seq_key_of id)) m + hits_at m h
        ≡ score_at view r m + outstanding a.store (seq_at view r (seq_key_of id)) m + hits_at m h'
  pub grows : (m : Bytes) → hits_at m h' ≤ hits_at m h + 1
  pub others : (j : Bytes) → j ≢ id → seq_at view r' (seq_key_of j) ≡ seq_at view r (seq_key_of j)
  pub free : is_saturated view r ≡ false

-- What is sent is not more than what is outstanding and sent together.
pub outstanding-split :
    (s : RedisStore) (last : ℕ) (m : Bytes)
    → SentWithin s.pending
    → outstanding s last m + (if leb s.seq last then weigh sent_hits m s.pending else 0)
      ≡ weigh all_hits m s.pending
unfolding outstanding
outstanding-split s last m w = ground (arith, sent-le-all m s.pending w)
