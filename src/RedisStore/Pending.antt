-- ===== src/RedisStore/Pending.antt =====
-- The local counts: what they weigh for each member of the sorted set.
use mathlib.Core.List.{lookup}
use mathlib.Core.Logic.{ite}
use fizzbuzz.Prelude.{
  ℕ, ◌+◌, ◌≤◌, ◌<◌, ◌≡◌, refl, sym, ap, ◌∙◌, Bool-cases, inl, inr, none, some, List, [], ◌∷◌, Bytes,
  Bytes-discrete, arith, two_64, ◌-w◌, ◌==◌, if◌then◌else◌, ==→eq,
}
use fizzbuzz.Sequence.Params.{Params, Params-discrete}
use fizzbuzz.Stats.Maps.{store}
use fizzbuzz.RedisStore.{
  Item, PendingHits, Pending, member_of, mark, items_of, acknowledge, memory_cost,
}

-- A count for one member, among those of `p`.
abbrev pub at_member : Bytes → Params → ℕ → ℕ
at_member m p n = ite (Bytes-discrete m (member_of p)) n 0

-- What `f` weighs over the entries of a member.
unfoldable pub weigh : (PendingHits → ℕ) → Bytes → Pending → ℕ
weigh f m [] = 0
weigh f m ((p, h) ∷ l) = at_member m p (f h) + weigh f m l

abbrev pub all_hits : PendingHits → ℕ
all_hits h = h.n

abbrev pub sent_hits : PendingHits → ℕ
sent_hits h = h.sent

-- The hits of a batch for a member.
unfoldable pub batch_hits : Bytes → List Item → ℕ
batch_hits m [] = 0
batch_hits m (i ∷ items) = ite (Bytes-discrete m i.member) i.hits 0 + batch_hits m items

-- No more is sent than there is, and the counts fit 64 bits.
abbrev pub SentWithin : Pending → Type 0
SentWithin [] = Unit
SentWithin ((p, h) ∷ l) = (h.sent ≤ h.n) × (h.n < two_64) × SentWithin l

pub batch_hits-items_of : (m : Bytes) (l : Pending) → batch_hits m (items_of l) ≡ weigh all_hits m l
unfolding batch_hits items_of weigh
batch_hits-items_of m [] = refl
batch_hits-items_of m ((p, h) ∷ l) = omega (arith, batch_hits-items_of m l)

pub weigh-mark : (m : Bytes) (l : Pending) → weigh all_hits m (mark l) ≡ weigh all_hits m l
unfolding weigh mark
weigh-mark m [] = refl
weigh-mark m ((p, h) ∷ l) = omega (arith, weigh-mark m l)

pub weigh-mark_sent : (m : Bytes) (l : Pending) → weigh sent_hits m (mark l) ≡ weigh all_hits m l
unfolding weigh mark
weigh-mark_sent m [] = refl
weigh-mark_sent m ((p, h) ∷ l) = omega (arith, weigh-mark_sent m l)

pub mark-SentWithin : (l : Pending) → SentWithin l → SentWithin (mark l)
unfolding mark
mark-SentWithin [] w = tt
mark-SentWithin ((p, h) ∷ l) w = (omega arith, w.1, mark-SentWithin l w.2)

pub sent-le-all :
    (m : Bytes) (l : Pending) → SentWithin l → weigh sent_hits m l ≤ weigh all_hits m l
unfolding weigh
sent-le-all m [] w = omega arith
sent-le-all m ((p, h) ∷ l) w = ground (arith, sent-le-all m l w.2)

at_member-add :
    (m : Bytes) (p : Params) (a b : ℕ) → at_member m p (a + b) ≡ at_member m p a + at_member m p b
at_member-add m p a b = ground arith

-- An acknowledgement takes away what was sent.
pub weigh-acknowledge :
    (m : Bytes) (used : ℕ) (l : Pending)
    → SentWithin l
    → weigh all_hits m (acknowledge used l).0 + weigh sent_hits m l ≡ weigh all_hits m l
unfolding weigh acknowledge
weigh-acknowledge m used [] w = refl
weigh-acknowledge m used ((p, h) ∷ l) w =
    let n = h.n -w h.sent in
    let used' = if n == 0 then used -w memory_cost p else used in
    let sum : n + h.sent ≡ h.n = omega (arith, w.0, w.1) in
    let parts : at_member m p h.n ≡ at_member m p n + at_member m p h.sent =
      ap (at_member m p) (sym sum) ∙ at_member-add m p n h.sent in
    elim (Bool-cases (n == 0)) [
      | inl zero_left ↦
          let nothing : at_member m p n ≡ 0 =
            ap (at_member m p) (==→eq _ _ zero_left) ∙ ground arith in
          rw zero_left (omega (arith, weigh-acknowledge m (used -w memory_cost p) l w.2))
      | inr more ↦ rw more (omega (arith, weigh-acknowledge m used l w.2))
    ]

pub acknowledge-none_sent :
    (m : Bytes) (used : ℕ) (l : Pending) → weigh sent_hits m (acknowledge used l).0 ≡ 0
unfolding weigh acknowledge
acknowledge-none_sent m used [] = refl
acknowledge-none_sent m used ((p, h) ∷ l) = elim (Bool-cases (h.n -w h.sent == 0)) [
  | inl zero_left ↦ rw zero_left (acknowledge-none_sent m (used -w memory_cost p) l)
  | inr more ↦ rw more (ground (arith, acknowledge-none_sent m used l))
]

pub acknowledge-SentWithin :
    (used : ℕ) (l : Pending) → SentWithin l → SentWithin (acknowledge used l).0
unfolding acknowledge
acknowledge-SentWithin used [] w = tt
acknowledge-SentWithin used ((p, h) ∷ l) w = elim (Bool-cases (h.n -w h.sent == 0)) [
  | inl zero_left ↦ rw zero_left (acknowledge-SentWithin (used -w memory_cost p) l w.2)
  | inr more ↦ rw more (omega arith, omega arith, acknowledge-SentWithin used l w.2)
]

-- What a new value for `p` changes.
pub weigh-store_new :
    (f : PendingHits → ℕ) (m : Bytes) (p : Params) (v : PendingHits) (l : Pending)
    → lookup Params-discrete p l ≡ none
    → weigh f m (store Params-discrete p v l) ≡ at_member m p (f v) + weigh f m l
unfolding weigh store lookup
weigh-store_new f m p v [] e = refl
weigh-store_new f m p v ((q, h) ∷ l) e = elim (Params-discrete p q) [
  | yes same ↦ absurd (ground (arith, e))
  | no other ↦ ground (arith, weigh-store_new f m p v l)
]

pub weigh-store_old :
    (f : PendingHits → ℕ) (m : Bytes) (p : Params) (v h : PendingHits) (l : Pending)
    → lookup Params-discrete p l ≡ some h
    → weigh f m (store Params-discrete p v l) + at_member m p (f h)
      ≡ at_member m p (f v) + weigh f m l
unfolding weigh store lookup
weigh-store_old f m p v h [] e = absurd (ground (arith, e))
weigh-store_old f m p v h ((q, g) ∷ l) e = elim (Params-discrete p q) [
  | yes same ↦ ground (arith, e)
  | no other ↦ ground (arith, e, weigh-store_old f m p v h l)
]

pub store-SentWithin :
    (p : Params) (v : PendingHits) (l : Pending)
    → v.sent ≤ v.n
    → v.n < two_64
    → SentWithin l
    → SentWithin (store Params-discrete p v l)
unfolding store
store-SentWithin p v [] h k w = (h, k, tt)
store-SentWithin p v ((q, g) ∷ l) h k w = elim (Params-discrete p q) [
  | yes same ↦ ground (arith, same)
  | no other ↦ ground (arith, other, store-SentWithin p v l h k w.2)
]

-- An entry is within the weight of its member.
pub lookup-within :
    (p : Params) (l : Pending) (h : PendingHits)
    → lookup Params-discrete p l ≡ some h
    → SentWithin l
    → (h.sent ≤ h.n) × (h.n ≤ weigh all_hits (member_of p) l)
unfolding weigh lookup
lookup-within p [] h e w = absurd (ground (arith, e))
lookup-within p ((q, g) ∷ l) h e w = elim (Params-discrete p q) [
  | yes same ↦ ground (arith, e, same, ap member_of same)
  | no other ↦ ground (arith, e, lookup-within p l h)
]
