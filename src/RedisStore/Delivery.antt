-- ===== src/RedisStore/Delivery.antt =====
-- Flushes that are answered, and what they leave in the local counts.
use mathlib.Core.Path.{subst}
use native.Mathlib.Decide.{ℕ_discrete}
use fizzbuzz.Prelude.{
  ℕ, zero, suc, ◌+◌, ◌≤◌, ◌<◌, ◌≡◌, ◌≢◌, refl, sym, ap, ◌∙◌, true, false, Bool-cases, inl, inr,
  Option, none, some, List, [], ◌∷◌, ◌++◌, Bytes, arith, ltb, length, ◌==◌, if◌then◌else◌, ◌-w◌,
  ◌^◌, sum_range_eq, sum_range_none, lt→ltb, eq→==, ne→==,
}
use fizzbuzz.Sequence.Params.{Params}
use fizzbuzz.Redis.{Commands, Keyspace, IsRedis}
use fizzbuzz.RedisStore.{
  seq_key_of, RedisStore, Batch, Call, saturates, Pending, mark, acknowledge, begin_batch,
  begin_flush, finish_flush, next_batch, memory_cost,
}
use fizzbuzz.RedisStore.System.{
  start, System, Replica, idle, Event, begins, answers, fails, replies, begun, begin_replica,
  answers_at, replies_at, step_replica, step, run,
}
use fizzbuzz.RedisStore.Pending.{weigh, all_hits}
use fizzbuzz.RedisStore.Script.{is_saturated, score_at, seq_at}
use fizzbuzz.RedisStore.Replica.{hits_at, outstanding}
use fizzbuzz.RedisStore.Exact.{uncounted_at, uncounted, run-counted}

-- A flush whose call is answered.
unfoldable pub flush_answered : RedisStore × Option Call → RedisStore
flush_answered (s, none) = s
flush_answered (s, some x) = finish_flush s x

acknowledge-mark : (used : ℕ) (l : Pending) → (acknowledge used (mark l)).0 ≡ []
unfolding acknowledge mark
acknowledge-mark used [] = refl
acknowledge-mark used ((p, h) ∷ l) =
    let nothing : (h.n -w h.n == 0) ≡ true = eq→== _ _ (omega arith) in
    rw nothing (acknowledge-mark (used -w memory_cost p) l)

mark-empty : (l : Pending) → (length l == 0) ≡ true → l ≡ []
mark-empty [] e = refl
mark-empty (x ∷ l) e = absurd (ground (arith, e))

-- With no batch to resend and no overflow, one flush leaves nothing.
flush-fresh : (s : RedisStore) → (flush_answered (begin_batch s none)).pending ≡ []
unfolding flush_answered begin_batch next_batch finish_flush mark
flush-fresh s = elim (Bool-cases (length s.pending == 0)) [
  | inl empty ↦ rw empty (ap mark (mark-empty s.pending empty))
  | inr more ↦ rw more (acknowledge-mark s.used_bytes s.pending)
]

-- What one answered flush leaves: no batch and no overflow.
abbrev IsSettled : RedisStore → Type 0
IsSettled s = (s.overflow ≡ false) × (s.batch ≡ none)

fresh-IsSettled :
    (s : RedisStore) → s.overflow ≡ false → IsSettled (flush_answered (begin_batch s none))
unfolding flush_answered begin_batch next_batch finish_flush
fresh-IsSettled s clear = elim (Bool-cases (length s.pending == 0)) [
  | inl empty ↦ rw empty (clear, refl)
  | inr more ↦ rw more (clear, refl)
]

batch-IsSettled :
    (s : RedisStore) (b : Option Batch)
    → s.overflow ≡ false
    → IsSettled (flush_answered (begin_batch s b))
unfolding flush_answered begin_batch finish_flush
batch-IsSettled s none clear = fresh-IsSettled s clear
batch-IsSettled s (some b) clear = (clear, refl)

pub begin_flush-overflow :
    (s : RedisStore) → s.overflow ≡ true → begin_flush s ≡ (s, some saturates)
unfolding begin_flush
begin_flush-overflow s full =
    ap (λ x. if x then (s, some saturates) else begin_batch s s.batch) full

pub begin_flush-clear :
    (s : RedisStore) → s.overflow ≡ false → begin_flush s ≡ begin_batch s s.batch
unfolding begin_flush
begin_flush-clear s clear = ap (λ x. if x then (s, some saturates) else begin_batch s s.batch) clear

flush-IsSettled : (s : RedisStore) → IsSettled (flush_answered (begin_flush s))
unfolding flush_answered finish_flush
flush-IsSettled s = elim (Bool-cases s.overflow) [
  | inl full ↦
      subst (λ o. IsSettled (flush_answered o)) (sym (begin_flush-overflow s full)) (refl, refl)
  | inr clear ↦
      subst (λ o. IsSettled (flush_answered o)) (sym (begin_flush-clear s clear))
        (batch-IsSettled s s.batch clear)
]

settled-empty : (s : RedisStore) → IsSettled s → (flush_answered (begin_flush s)).pending ≡ []
settled-empty s (clear, no_batch) =
    ap (λ o. (flush_answered o).pending) (begin_flush-clear s clear ∙ ap (begin_batch s) no_batch)
    ∙ flush-fresh s

-- Two answered flushes in a row leave nothing, whatever stood there.
flush_twice-empty :
    (s : RedisStore) → (flush_answered (begin_flush (flush_answered (begin_flush s)))).pending ≡ []
flush_twice-empty s = settled-empty (flush_answered (begin_flush s)) (flush-IsSettled s)

-- The events of a flush that is answered; one that hangs has failed first.
abbrev pub retry : ℕ → List (ℕ × Event)
retry i = (i, replies) ∷ (i, answers) ∷ (i, begins) ∷ (i, fails) ∷ []

-- Two such flushes at each of the first `n` replicas, the first replica's first.
abbrev pub drain : ℕ → List (ℕ × Event)
drain zero = []
drain (suc i) = retry i ++ (retry i ++ drain i)

module _ {R : Type 0} (c : Commands R) where
  pub run-append :
      (n : ℕ) (s : System R) (es before : List (ℕ × Event))
      → run c n s (es ++ before) ≡ run c n (run c n s before) es
  unfolding run
  run-append n s [] before = refl
  run-append n s (e ∷ es) before = ap (λ x. step c n x e) (run-append n s es before)

  pub step_here :
      (n : ℕ) (s : System R) (i : ℕ) (e : Event)
      → i < n
      → (step c n s (i, e)).replicas i ≡ (step_replica c (s.replicas i) e s.db s.history).0
  unfolding step
  step_here n s i e lt = rw (lt→ltb i n lt, eq→== i i refl) refl

  pub step_there :
      (n : ℕ) (s : System R) (i j : ℕ) (e : Event)
      → j ≢ i
      → (step c n s (i, e)).replicas j ≡ s.replicas j
  unfolding step
  step_there n s i j e ne = elim (Bool-cases (ltb i n)) [
    | inl inside ↦ rw (inside, ne→== j i ne) refl
    | inr outside ↦ rw outside refl
  ]

  -- The answer to a flush that began and its reply, whatever the server does.
  begun-replies :
      (a : Replica) (o : RedisStore × Option Call) (r r' : R) (h h' : List Params)
      → let a' = (answers_at c (begun a o).phase (begun a o) r h).0 in
        (replies_at c a'.phase a' r' h').0.store ≡ flush_answered o
  unfolding flush_answered
  begun-replies a (s, none) r r' h h' = refl
  begun-replies a (s, some x) r r' h h' = refl

  retry-store :
      (n : ℕ) (s : System R) (i : ℕ)
      → i < n
      → ((run c n s (retry i)).replicas i).store ≡ flush_answered (begin_flush (s.replicas i).store)
  unfolding run step_replica begin_replica
  retry-store n s i lt =
      let s1 = step c n s (i, fails) in
      let s2 = step c n s1 (i, begins) in
      let s3 = step c n s2 (i, answers) in
      let e2 =
        step_here n s1 i begins lt
        ∙ ap (λ (a : Replica). (step_replica c a begins s1.db s1.history).0)
            (step_here n s i fails lt) in
      let e3 =
        step_here n s2 i answers lt
        ∙ ap (λ (a : Replica). (step_replica c a answers s2.db s2.history).0) e2 in
      let e4 =
        step_here n s3 i replies lt
        ∙ ap (λ (a : Replica). (step_replica c a replies s3.db s3.history).0) e3 in
      ap (λ (a : Replica). a.store) e4
      ∙ begun-replies (record (s.replicas i) { phase = idle }) (begin_flush (s.replicas i).store)
          s2.db s3.db s2.history s3.history

  retry-there :
      (n : ℕ) (s : System R) (i j : ℕ) → j ≢ i → (run c n s (retry i)).replicas j ≡ s.replicas j
  unfolding run
  retry-there n s i j ne =
      let s1 = step c n s (i, fails) in
      let s2 = step c n s1 (i, begins) in
      let s3 = step c n s2 (i, answers) in
      step_there n s3 i j replies ne
      ∙ step_there n s2 i j answers ne
      ∙ step_there n s1 i j begins ne
      ∙ step_there n s i j fails ne

  retry_twice-empty :
      (n : ℕ) (s : System R) (i : ℕ)
      → i < n
      → ((run c n (run c n s (retry i)) (retry i)).replicas i).store.pending ≡ []
  retry_twice-empty n s i lt =
      ap (λ (x : RedisStore). x.pending)
        (retry-store n (run c n s (retry i)) i lt
          ∙ ap (λ x. flush_answered (begin_flush x)) (retry-store n s i lt))
      ∙ flush_twice-empty (s.replicas i).store

  -- Whatever state the replicas and the server are in: after two flushes of each of the first `k`
  -- replicas whose calls are answered, none of them has a hit that it still keeps.
  pub run-drain :
      (n : ℕ) (s : System R) (k i : ℕ)
      → k ≤ n
      → i < k
      → ((run c n s (drain k)).replicas i).store.pending ≡ []
  run-drain n s zero i le lt = absurd (omega arith)
  run-drain n s (suc k) i le lt =
      let s1 = run c n s (drain k) in
      let s2 = run c n s1 (retry k) in
      let whole : run c n s (drain (suc k)) ≡ run c n s2 (retry k) =
        run-append n s (retry k) (retry k ++ drain k)
        ∙ ap (λ x. run c n x (retry k)) (run-append n s (retry k) (drain k)) in
      ap (λ (x : System R). (x.replicas i).store.pending) whole ∙ elim (ℕ_discrete i k) [
        | yes here ↦
            ap (λ j. ((run c n s2 (retry k)).replicas j).store.pending) here
            ∙ retry_twice-empty n s1 k (omega arith)
        | no other ↦
            ap (λ (a : Replica). a.store.pending)
              (retry-there n s2 k i other ∙ retry-there n s1 k i other)
            ∙ run-drain n s k i (omega arith) (ground (arith, other))
      ]

-- After any events with at most 2 ^ 53 hits to count, and then two answered flushes of each replica: if
-- the store is not saturated, Redis counts every request that a replica took, and counts it once.
pub drain-counted :
    {R : Type 0}
    → (c : Commands R) (view : R → Keyspace) → IsRedis c view
    → (ids : ℕ → Bytes) → ((i j : ℕ) → ids i ≡ ids j → i ≡ j)
    → (n : ℕ) (r : R) (max_bytes : ℕ) → ((i : ℕ) → seq_at view r (seq_key_of (ids i)) ≡ 0)
    → (es : List (ℕ × Event)) → ((m : Bytes) → score_at view r m + length (drain n ++ es) < 2 ^ 53)
    → is_saturated view (run c n (start r ids max_bytes) (drain n ++ es)).db ≡ false
    → (m : Bytes)
    → let s = run c n (start r ids max_bytes) (drain n ++ es) in
      score_at view s.db m ≡ score_at view r m + hits_at m s.history
unfolding uncounted outstanding weigh
drain-counted c view ok ids distinct n r max_bytes fresh es small free m =
    let before = run c n (start r ids max_bytes) es in
    let s = run c n (start r ids max_bytes) (drain n ++ es) in
    let empty : (i : ℕ) → i < n → (s.replicas i).store.pending ≡ [] = λ i lt.
      ap (λ (x : System _). (x.replicas i).store.pending)
        (run-append c n (start r ids max_bytes) (drain n) es)
      ∙ run-drain c n before n i (omega arith) lt in
    let none_left : uncounted view ids n s m ≡ 0 =
      sum_range_eq (uncounted_at view ids s m) (λ i. 0) 0 n
        (λ i le lt.
          let e : weigh all_hits m (s.replicas i).store.pending ≡ 0 =
            ap (weigh all_hits m) (empty i (omega arith)) in
          omega arith)
      ∙ sum_range_none (λ i. 0) 0 n (λ i. refl) in
    omega (
      arith,
      none_left,
      run-counted c view ok ids distinct n r max_bytes fresh (drain n ++ es) small free m,
    )
