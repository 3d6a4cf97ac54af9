-- ===== src/Tests/Keyspaces.antt =====
-- A small Redis for the examples: the texts of the keys, and the members of the sorted sets, the
-- latest score first.
use fizzbuzz.Prelude.{
  ℕ, ◌+◌, ◌≤◌, ◌≡◌, ◌≢◌, refl, sym, ap, ◌∙◌, Bool, true, false, Bool-cases, inl, inr, ◌||◌, Option,
  none, some, List, [], ◌∷◌, Bytes, arith, ltb, ltb→lt, ltb→ge, if◌then◌else◌, ==→eq, is_some,
  same_text,
}
use fizzbuzz.Redis.{Commands, Keyspace, or_zero, Same, IsRedis}

abbrev pub Scores : Type 0
Scores = List (Bytes × ℕ)

pub record Db : Type 0 where
  pub texts : Bytes → Option ℕ
  pub sets : Bytes → Scores

abbrev pub change : {A : Type 0} → (Bytes → A) → Bytes → A → Bytes → A
change f k x j = if same_text j k then x else f j

unfoldable pub find : Scores → Bytes → Option ℕ
find [] m = none
find ((k, n) ∷ l) m = let rest = find l m in if same_text m k then some n else rest

abbrev pub better : Bytes → ℕ → Option (Bytes × ℕ) → Option (Bytes × ℕ)
better m n none = some (m, n)
better m n (some (k, j)) = if ltb n j then some (k, j) else some (m, n)

-- The best of the members of the second list, by their scores in the first.
unfoldable pub best_in : Scores → Scores → Option (Bytes × ℕ)
best_in all [] = none
best_in all ((m, n) ∷ l) = better m (or_zero (find all m)) (best_in all l)

abbrev pub any_score : Scores → Bool
any_score [] = false
any_score (x ∷ l) = true

unfoldable pub db_view : Db → Keyspace
db_view r = record {
  present = λ k. is_some (r.texts k) || any_score (r.sets k);
  text = r.texts;
  score = λ k m. find (r.sets k) m;
}

abbrev pub db_put : Db → Bytes → ℕ → Db
db_put r k n = record { texts = change r.texts k (some n); sets = change r.sets k [] }

unfoldable pub db_commands : Commands Db
unfolding db_view
db_commands = record {
  exists = λ r k. (db_view r).present k;
  get = λ r k. r.texts k;
  put = db_put;
  put_ex = λ r k n ttl. db_put r k n;
  del = λ r k. record { texts = change r.texts k none; sets = change r.sets k [] };
  zscore = λ r k m. find (r.sets k) m;
  zincrby = λ r k n m. record r {
    sets = change r.sets k ((m, or_zero (find (r.sets k) m) + n) ∷ r.sets k);
  };
  best = λ r k. best_in (r.sets k) (r.sets k);
}

abbrev pub empty_db : Db
empty_db = record { texts = λ k. none; sets = λ k. [] }

same_text_refl : (s : Bytes) → same_text s s ≡ true
unfolding same_text
same_text_refl [] = refl
same_text_refl (c ∷ s) = ground (arith, same_text_refl s)

same_text-eq : (s t : Bytes) → same_text s t ≡ true → s ≡ t
unfolding same_text
same_text-eq [] [] e = refl
same_text-eq [] (d ∷ t) e = absurd (ground (arith, e))
same_text-eq (c ∷ s) [] e = absurd (ground (arith, e))
same_text-eq (c ∷ s) (d ∷ t) e =
    let head : c ≡ d = ==→eq c d (ground (arith, e)) in
    let tail : s ≡ t = same_text-eq s t (ground (arith, e)) in
    ap (◌∷◌ c) tail ∙ ap (λ x. x ∷ t) head

same_text-ne : (s t : Bytes) → s ≢ t → same_text s t ≡ false
same_text-ne s t ne = elim (Bool-cases (same_text s t)) [
  | inl same ↦ absurd (ne (same_text-eq s t same))
  | inr other ↦ other
]

change_here : {A : Type 0} → (f : Bytes → A) (k : Bytes) (x : A) → change f k x k ≡ x
change_here f k x = rw (same_text_refl k) refl

change_there :
    {A : Type 0} → (f : Bytes → A) (k : Bytes) (x : A) (j : Bytes) → j ≢ k → change f k x j ≡ f j
change_there f k x j ne = rw (same_text-ne j k ne) refl

-- What the best has, and that the others have no more.
abbrev Best : Scores → Scores → Option (Bytes × ℕ) → Type 0
Best all l none = (m : Bytes) → find l m ≡ none
Best all l (some (m, n)) =
    (or_zero (find all m) ≡ n)
    × (is_some (find l m) ≡ true)
    × ((j : Bytes) → is_some (find l j) ≡ true → or_zero (find all j) ≤ n)

better-Best :
    (all l : Scores) (m : Bytes) (k : ℕ) (x : Option (Bytes × ℕ))
    → Best all l x
    → Best all ((m, k) ∷ l) (better m (or_zero (find all m)) x)
unfolding find
better-Best all l m k none b = (
  refl,
  rw (same_text_refl m) refl,
  λ j h. elim (Bool-cases (same_text j m)) [
    | inl same ↦ omega (arith, ap (λ y. or_zero (find all y)) (same_text-eq j m same))
    | inr other ↦ absurd (ground (arith, other, h, b j))
  ],
)
better-Best all l m k (some (p, n)) (value, found, most) =
    elim (Bool-cases (ltb (or_zero (find all m)) n)) [
      | inl less ↦ rw less (
        value,
        ground (arith, found),
        λ j h. elim (Bool-cases (same_text j m)) [
          | inl same ↦
              omega (arith, ltb→lt _ _ less, ap (λ y. or_zero (find all y)) (same_text-eq j m same))
          | inr other ↦ most j (ground (arith, other, h))
        ],
      )
      | inr more ↦ rw more (
        refl,
        rw (same_text_refl m) refl,
        λ j h. elim (Bool-cases (same_text j m)) [
          | inl same ↦ omega (arith, ap (λ y. or_zero (find all y)) (same_text-eq j m same))
          | inr other ↦ omega (arith, ltb→ge _ _ more, most j (ground (arith, other, h)))
        ],
      )
    ]

best_in-Best : (all l : Scores) → Best all l (best_in all l)
unfolding best_in find
best_in-Best all [] = λ m. refl
best_in-Best all ((m, k) ∷ l) = better-Best all l m k (best_in all l) (best_in-Best all l)

some_of : (x : Option ℕ) (n : ℕ) → is_some x ≡ true → or_zero x ≡ n → x ≡ some n
some_of none n h e = absurd (ground (arith, h))
some_of (some k) n h e = ap some e

none_of : (x : Option ℕ) (n : ℕ) → (is_some x ≡ true → or_zero x ≤ n) → or_zero x ≤ n
none_of none n h = omega arith
none_of (some k) n h = h refl

db-Same :
    (r : Db) (k : Bytes) (x : Option ℕ) (l : Scores) (j : Bytes)
    → j ≢ k
    → Same (db_view r) (db_view (record { texts = change r.texts k x; sets = change r.sets k l })) j
unfolding db_view
db-Same r k x l j ne = rw (same_text-ne j k ne) (refl, refl, λ m. refl)

db-Same_set :
    (r : Db) (k : Bytes) (l : Scores) (j : Bytes)
    → j ≢ k
    → Same (db_view r) (db_view (record r { sets = change r.sets k l })) j
unfolding db_view
db-Same_set r k l j ne = rw (same_text-ne j k ne) (refl, refl, λ m. refl)

db_put_here :
    (r : Db) (k : Bytes) (n : ℕ)
    → ((db_view (db_put r k n)).present k ≡ true) × ((db_view (db_put r k n)).text k ≡ some n)
unfolding db_view
db_put_here r k n = rw (same_text_refl k) (refl, refl)

db-Best-none :
    (l : Scores) (x : Option (Bytes × ℕ)) → Best l l x → x ≡ none → (m : Bytes) → find l m ≡ none
db-Best-none l none b e m = b m
db-Best-none l (some (k, n)) b e m = absurd (ground (arith, e))

entry_of : Option (Bytes × ℕ) → Bytes × ℕ
entry_of none = ([], 0)
entry_of (some x) = x

db-Best-some :
    (l : Scores) (x : Option (Bytes × ℕ)) (m : Bytes) (n : ℕ)
    → Best l l x
    → x ≡ some (m, n)
    → (find l m ≡ some n) × ((j : Bytes) → or_zero (find l j) ≤ n)
unfolding entry_of
db-Best-some l none m n b e = absurd (ground (arith, e))
db-Best-some l (some (k, i)) m n (value, found, most) e =
    let same : k ≡ m = ap (λ x. (entry_of x).0) e in
    let count : i ≡ n = ap (λ x. (entry_of x).1) e in
    (
      ap (find l) (sym same) ∙ some_of (find l k) n found (value ∙ count),
      λ j. omega (arith, none_of (find l j) i (most j)),
    )

pub db_commands-IsRedis : IsRedis db_commands db_view
unfolding db_commands db_view
db_commands-IsRedis = record {
  exists_lem = λ r k. refl;
  get_lem = λ r k. refl;
  zscore_lem = λ r k m. refl;
  put_here = λ r k n. db_put_here r k n;
  put_there = λ r k n j ne. db-Same r k (some n) [] j ne;
  put_ex_here = λ r k n ttl. db_put_here r k n;
  put_ex_there = λ r k n ttl j ne. db-Same r k (some n) [] j ne;
  del_here = λ r k m. ap (λ l. find l m) (change_here r.sets k []) ∙ unfold find in refl;
  del_there = λ r k j ne. db-Same r k none [] j ne;
  zincrby_here = λ r k n m small.
      ap (λ l. find l m) (change_here r.sets k _) ∙ unfold find in rw (same_text_refl m) refl;
  zincrby_member = λ r k n m j ne.
      ap (λ l. find l j) (change_here r.sets k _) ∙ unfold find in rw (same_text-ne j m ne) refl;
  zincrby_there = λ r k n m j ne. db-Same_set r k _ j ne;
  best_none = λ r k e. db-Best-none (r.sets k) _ (best_in-Best (r.sets k) (r.sets k)) e;
  best_some = λ r k m n e. db-Best-some (r.sets k) _ m n (best_in-Best (r.sets k) (r.sets k)) e;
}
