-- ===== src/Sequence/Write/Period.antt =====
-- With a divisor of 1 the elements repeat.
use mathlib.Core.Path.{subst}
use native.Mathlib.Nat.{mod-one, add-mod_right, div-add-mod, div_self, mod_self}
use fizzbuzz.Prelude.{
  ℕ, zero, suc, ◌+◌, ◌*◌, ◌/◌, ◌%◌, ◌<◌, min, max, ◌≡◌, ◌⊎◌, inl, inr, refl, sym, ap, ◌∙◌, ◌++◌,
  append-nil, append_assoc, arith, ltb, ltb→lt, ltb→ge, Bool-cases,
}
use fizzbuzz.Sequence.Size.{Plan}
use fizzbuzz.Sequence.Elements.{IsPlan, element, elements, elements-add}
use fizzbuzz.Sequence.Write.Chunks.{copies}

module _ (pl : Plan) (v : IsPlan pl) (one : min pl.a pl.b ≡ 1) where
  same_remainders :
      (p i : ℕ)
      → max pl.a pl.b ≡ p
      → ((i + p) % pl.a ≡ i % pl.a)
        × ((i + p) % pl.b ≡ i % pl.b)
        × ((i % pl.a ≡ 0) ⊎ (i % pl.b ≡ 0))
  same_remainders p i e =
      let ap_pos = v.a_pos in
      let bp_pos = v.b_pos in
      elim (Bool-cases (ltb pl.a pl.b)) [
        | inl less ↦
            let ea : pl.a ≡ 1 = omega (arith, ltb→lt _ _ less) in
            let eb : p ≡ pl.b = omega (arith, ltb→lt _ _ less) in
            (
              subst (λ (m : ℕ). (i + p) % m ≡ i % m) (sym ea) (mod-one (i + p) ∙ sym (mod-one i)),
              rw eb (add-mod_right i pl.b),
              inl (subst (λ (m : ℕ). i % m ≡ 0) (sym ea) (mod-one i)),
            )
        | inr more ↦
            let eb : pl.b ≡ 1 = omega (arith, ltb→ge _ _ more) in
            let ea : p ≡ pl.a = omega (arith, ltb→ge _ _ more) in
            (
              rw ea (add-mod_right i pl.a),
              subst (λ (m : ℕ). (i + p) % m ≡ i % m) (sym eb) (mod-one (i + p) ∙ sym (mod-one i)),
              inr (subst (λ (m : ℕ). i % m ≡ 0) (sym eb) (mod-one i)),
            )
      ]

  element_shift : (p i : ℕ) → max pl.a pl.b ≡ p → element pl (i + p) ≡ element pl i
  unfolding element
  element_shift p i e =
      let (sa, sb, replaced) = same_remainders p i e in
      rw (sa, sb) (elim replaced [ inl z ↦ ground arith | inr z ↦ ground arith ])

  elements_shift : (p i n : ℕ) → max pl.a pl.b ≡ p → elements pl (i + p) n ≡ elements pl i n
  unfolding elements
  elements_shift p i zero e = refl
  elements_shift p i (suc n) e =
      let next : suc (i + p) ≡ suc i + p = omega arith in
      rw (element_shift p i e, next, elements_shift p (suc i) n e)

  elements_cycle :
      (p q r : ℕ)
      → max pl.a pl.b ≡ p
      → elements pl 1 (q * p + r) ≡ copies q (elements pl 1 p) ++ elements pl 1 r
  unfolding copies
  elements_cycle p zero r e = let z : 0 * p + r ≡ r = omega arith in rw z
  elements_cycle p (suc q) r e =
      let s : suc q * p + r ≡ p + (q * p + r) = omega arith in
      rw (
        s,
        elements-add pl 1 p (q * p + r),
        elements_shift p 1 (q * p + r) e,
        elements_cycle p q r e,
        append_assoc,
      )

  -- For a valid plan with a divisor of 1 and at least one element, and the period p that
  -- `writePeriodic` computes: the elements are n / p copies of the first p, and the first n % p.
  pub elements-copies :
      (p : ℕ)
      → 0 < pl.n
      → p ≡ min (max pl.a pl.b) pl.n
      → elements pl 1 pl.n ≡ copies (pl.n / p) (elements pl 1 p) ++ elements pl 1 (pl.n % p)
  elements-copies p pos e = elim (Bool-cases (ltb pl.n (max pl.a pl.b))) [
    | inl short ↦
        let all : p ≡ pl.n = omega (arith, ltb→lt _ _ short) in
        let once : pl.n / p ≡ 1 = rw all (div_self pos) in
        let nothing : pl.n % p ≡ 0 = rw all (mod_self pl.n) in
        rw (once, nothing, all) (unfold copies elements in simp append-nil)
    | inr long ↦
        let p_max : max pl.a pl.b ≡ p = omega (arith, ltb→ge _ _ long) in
        let parts : pl.n / p * p + pl.n % p ≡ pl.n = omega (arith, div-add-mod pl.n p) in
        ap (elements pl 1) (sym parts) ∙ elements_cycle p (pl.n / p) (pl.n % p) p_max
  ]
