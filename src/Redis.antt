-- ===== src/Redis.antt =====
-- The Redis server as the program sees it: the commands that its scripts and its client send, with
-- what their documentation says. `R` is the state of the server. A number in a key's text is the
-- number; Lua and the sorted sets keep numbers as doubles, which are exact below 2 ^ 53.
use fizzbuzz.Prelude.{ℕ, ◌+◌, ◌^◌, ◌≤◌, ◌<◌, ◌≡◌, ◌≢◌, Bool, true, Option, none, some, Bytes}

pub record Commands (R : Type 0) : Type 0 where
  pub exists : R → Bytes → Bool  -- EXISTS
  pub get : R → Bytes → Option ℕ  -- GET
  pub put : R → Bytes → ℕ → R  -- SET
  pub put_ex : R → Bytes → ℕ → ℕ → R  -- SET with EX
  pub del : R → Bytes → R  -- DEL
  pub zscore : R → Bytes → Bytes → Option ℕ  -- ZSCORE
  pub zincrby : R → Bytes → ℕ → Bytes → R  -- ZINCRBY
  pub best : R → Bytes → Option (Bytes × ℕ)  -- ZREVRANGE 0 0 WITHSCORES

-- What the server holds at each key.
pub record Keyspace : Type 0 where
  pub present : Bytes → Bool
  pub text : Bytes → Option ℕ
  pub score : Bytes → Bytes → Option ℕ

abbrev pub or_zero : Option ℕ → ℕ
or_zero none = 0
or_zero (some n) = n

-- A command changes the key that it names, and no other.
abbrev pub Same : Keyspace → Keyspace → Bytes → Type 0
Same v w k =
    (w.present k ≡ v.present k) × (w.text k ≡ v.text k) × ((m : Bytes) → w.score k m ≡ v.score k m)

-- A key set with EX is there for the given time: runs in which it expires are left out.
pub record IsRedis {R : Type 0} (c : Commands R) (view : R → Keyspace) : Type 0 where
  pub exists_lem : (r : R) (k : Bytes) → c.exists r k ≡ (view r).present k
  pub get_lem : (r : R) (k : Bytes) → c.get r k ≡ (view r).text k
  pub zscore_lem : (r : R) (k m : Bytes) → c.zscore r k m ≡ (view r).score k m
  pub put_here :
      (r : R) (k : Bytes) (n : ℕ)
      → ((view (c.put r k n)).present k ≡ true) × ((view (c.put r k n)).text k ≡ some n)
  pub put_there :
      (r : R) (k : Bytes) (n : ℕ) (j : Bytes) → j ≢ k → Same (view r) (view (c.put r k n)) j
  pub put_ex_here :
      (r : R) (k : Bytes) (n ttl : ℕ)
      → ((view (c.put_ex r k n ttl)).present k ≡ true)
        × ((view (c.put_ex r k n ttl)).text k ≡ some n)
  pub put_ex_there :
      (r : R) (k : Bytes) (n ttl : ℕ) (j : Bytes)
      → j ≢ k
      → Same (view r) (view (c.put_ex r k n ttl)) j
  pub del_here : (r : R) (k m : Bytes) → (view (c.del r k)).score k m ≡ none
  pub del_there : (r : R) (k j : Bytes) → j ≢ k → Same (view r) (view (c.del r k)) j
  pub zincrby_here :
      (r : R) (k : Bytes) (n : ℕ) (m : Bytes)
      → or_zero ((view r).score k m) + n < 2 ^ 53
      → (view (c.zincrby r k n m)).score k m ≡ some (or_zero ((view r).score k m) + n)
  pub zincrby_member :
      (r : R) (k : Bytes) (n : ℕ) (m j : Bytes)
      → j ≢ m
      → (view (c.zincrby r k n m)).score k j ≡ (view r).score k j
  pub zincrby_there :
      (r : R) (k : Bytes) (n : ℕ) (m j : Bytes) → j ≢ k → Same (view r) (view (c.zincrby r k n m)) j
  pub best_none : (r : R) (k : Bytes) → c.best r k ≡ none → (m : Bytes) → (view r).score k m ≡ none
  pub best_some :
      (r : R) (k m : Bytes) (n : ℕ)
      → c.best r k ≡ some (m, n)
      → ((view r).score k m ≡ some n) × ((j : Bytes) → or_zero ((view r).score k j) ≤ n)
