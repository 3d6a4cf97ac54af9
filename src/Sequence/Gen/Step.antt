-- ===== src/Sequence/Gen/Step.antt =====
-- The invariant of the generator, and one step of it.
use native.Mathlib.Nat.{dvd-sub, le_of_dvd, dvd_of_mod-eq-zero, add-mod_right, zero-div, mod_self}
use fizzbuzz.Prelude.{
  ℕ, ◌+◌, ◌-◌, ◌*◌, ◌/◌, ◌%◌, ◌^◌, ◌≤◌, ◌<◌, ◌≡◌, ◌≢◌, ◌⊎◌, inl, inr, refl, sym, ◌∙◌, arith, ◌==◌,
  Bool-cases, true, false, ==→eq, ==→ne, eq→==, ne→==, two_63, two_64,
}
use fizzbuzz.Sequence.Size.{Plan}
use fizzbuzz.Sequence.Elements.{IsPlan, element}
use fizzbuzz.Sequence.Digits.{zero_counter, framed}
use fizzbuzz.Sequence.Digits.Framed.{Represents, framed-number, inc-Represents}
use fizzbuzz.Sequence.Digits.Set.{set-Represents}
use fizzbuzz.Sequence.Gen.{Gen, new_gen, advance, event}

-- `next` is the first multiple of `m` from `i` on.
pub record IsNext (m i next : ℕ) : Type 0 where
  pub multiple : next % m ≡ 0
  pub reached : i ≤ next
  pub first : next < i + m

pub record IsGen (pl : Plan) (g : Gen) : Type 0 where
  pub i_pos : 0 < g.i
  pub is_next1 : IsNext pl.a g.i g.next1
  pub is_next2 : IsNext pl.b g.i g.next2
  pub counts : Represents g.c g.i

-- Before the next multiple there is none.
IsNext-mod_ne : {m i next : ℕ} → IsNext m i next → i < next → i % m ≢ 0
IsNext-mod_ne {m} {i} {next} r before = λ e.
    let d = dvd-sub m (dvd_of_mod-eq-zero m r.multiple) (dvd_of_mod-eq-zero m e) in
    let le = le_of_dvd {m = m} {n = next - i} (omega arith) d in
    let f = r.first in absurd (omega arith)

IsNext-mod_iff : {m i next : ℕ} → IsNext m i next → (i == next) ≡ (i % m == 0)
IsNext-mod_iff {m} {i} {next} r = elim (Bool-cases (i == next)) [
  | inl here ↦ rw (here, ==→eq _ _ here, r.multiple)
  | inr before ↦
      let b : i < next = omega (arith, r.reached, ==→ne _ _ before) in
      rw (before, ne→== _ _ (IsNext-mod_ne r b))
]

IsNext-wait : {m i next : ℕ} → IsNext m i next → i ≢ next → IsNext m (i + 1) next
IsNext-wait r ne = record {
  multiple = r.multiple;
  reached = omega (arith, r.reached);
  first = omega (arith, r.first);
}

-- At the multiple, the next one follows; it does not overflow.
IsNext-add :
    {m i next : ℕ}
    → 0 < m
    → 0 < i
    → IsNext m i next
    → i ≡ next
    → i < 2 ^ 62 + 1
    → IsNext m (i + 1) ((next + m) % two_64)
IsNext-add {m} {i} {next} pos ip r e small =
    let le = le_of_dvd {m = m} {n = next} (omega arith) (dvd_of_mod-eq-zero m r.multiple) in
    let exact : (next + m) % two_64 ≡ next + m = omega arith in
    rw exact (record {
      multiple = add-mod_right next m ∙ r.multiple;
      reached = omega arith;
      first = omega arith;
    })

IsNext-start : (m : ℕ) → 0 < m → m < two_63 → IsNext m 1 (((1 - 1) / m + 1) * m % two_64)
IsNext-start m pos small =
    let e : ((1 - 1) / m + 1) * m % two_64 ≡ m = rw (zero-div m) (omega arith) in
    rw e (record { multiple = mod_self m; reached = pos; first = omega arith })

module _ (pl : Plan) (v : IsPlan pl) where
  pub new_gen-IsGen : IsGen pl (new_gen pl 1)
  unfolding new_gen
  new_gen-IsGen = record {
    i_pos = omega arith;
    is_next1 = IsNext-start pl.a v.a_pos v.a_int;
    is_next2 = IsNext-start pl.b v.b_pos v.b_int;
    counts = set-Represents zero_counter 1 (omega arith) (omega arith);
  }

  module _ (g : Gen) (r : IsGen pl g) (small : g.i < 2 ^ 62) where
    moved :
        (x y : ℕ)
        → IsNext pl.a (g.i + 1) x
        → IsNext pl.b (g.i + 1) y
        → ((advance (record g { next1 = x; next2 = y })).i ≡ g.i + 1)
          × IsGen pl (advance (record g { next1 = x; next2 = y }))
    unfolding advance
    moved x y nx ny =
        let e : (g.i + 1) % two_64 ≡ g.i + 1 = omega arith in
        (
          e,
          rw e (record {
            i_pos = omega arith;
            is_next1 = nx;
            is_next2 = ny;
            counts = inc-Represents g.c g.i r.counts (omega arith);
          }),
        )

    -- Before both multiples, the counter shows the element.
    pub framed-element : g.i < g.next1 → g.i < g.next2 → framed g.c ≡ element pl g.i
    unfolding element
    framed-element h k =
        rw (ne→== _ _ (IsNext-mod_ne r.is_next1 h), ne→== _ _ (IsNext-mod_ne r.is_next2 k))
          (framed-number r.counts (omega arith))

    pub advance-IsGen :
        g.i < g.next1 → g.i < g.next2 → ((advance g).i ≡ g.i + 1) × IsGen pl (advance g)
    advance-IsGen h k =
        moved g.next1 g.next2 (IsNext-wait r.is_next1 (omega arith))
          (IsNext-wait r.is_next2 (omega arith))

    pass1 : (g.i == g.next1) ≡ true → IsNext pl.a (g.i + 1) ((g.next1 + pl.a) % two_64)
    pass1 h = IsNext-add v.a_pos r.i_pos r.is_next1 (==→eq _ _ h) (omega arith)

    pass2 : (g.i == g.next2) ≡ true → IsNext pl.b (g.i + 1) ((g.next2 + pl.b) % two_64)
    pass2 h = IsNext-add v.b_pos r.i_pos r.is_next2 (==→eq _ _ h) (omega arith)

    wait1 : (g.i == g.next1) ≡ false → IsNext pl.a (g.i + 1) g.next1
    wait1 h = IsNext-wait r.is_next1 (==→ne _ _ h)

    wait2 : (g.i == g.next2) ≡ false → IsNext pl.b (g.i + 1) g.next2
    wait2 h = IsNext-wait r.is_next2 (==→ne _ _ h)

    -- For a valid plan and a valid generator below 2 ^ 62 that stands at a multiple of a divisor:
    -- `event` returns the element of that position, and the generator is valid at the next one.
    pub event-element :
        (g.i ≡ g.next1) ⊎ (g.i ≡ g.next2)
        → ((event pl g).1 ≡ element pl g.i) × ((event pl g).0.i ≡ g.i + 1) × IsGen pl (event pl g).0
    unfolding event element
    event-element at =
        let m1 = sym (IsNext-mod_iff r.is_next1) in
        let m2 = sym (IsNext-mod_iff r.is_next2) in
        elim (Bool-cases (g.i == g.next1)) [
          | inl one ↦ elim (Bool-cases (g.i == g.next2)) [
            | inl two ↦
                let (e, w) = moved _ _ (pass1 one) (pass2 two) in
                rw (one, two, m1, m2, one, two) (refl, e, w)
            | inr two ↦
                let (e, w) = moved _ _ (pass1 one) (wait2 two) in
                rw (one, two, m1, m2, one, two) (refl, e, w)
          ]
          | inr one ↦
              let here : g.i ≡ g.next2 = omega (arith, ==→ne _ _ one) in
              let two = eq→== _ _ here in
              let (e, w) = moved _ _ (wait1 one) (pass2 two) in
              rw (one, m1, m2, one, two) (refl, e, w)
        ]
