-- ===== src/Sequence/Write/Whole.antt =====
-- `writePeriodic` as a whole, for every writer.
use mathlib.Core.Path.{subst}
use native.Mathlib.Nat.{mod-lt, le-div_iff_mul-le}
use fizzbuzz.Prelude.{
  ℕ, suc, ◌+◌, ◌-◌, ◌*◌, ◌/◌, ◌%◌, ◌^◌, ◌≤◌, ◌<◌, min, max, ◌≡◌, inl, inr, refl, sym, ap, ◌∙◌, true,
  [], ◌∷◌, ◌++◌, Bytes, arith, length, two_63, two_64,
}
use fizzbuzz.GoLib.Writer.{Writer, IsWriter, Sent}
use fizzbuzz.Sequence.Size.{Plan, range_bytes}
use fizzbuzz.Sequence.Size.Exact.{range_bytes-elements}
use fizzbuzz.Sequence.Elements.{
  IsPlan, elements, elements-split, elements-shorter, element_comma, HasComma,
}
use fizzbuzz.Sequence.Gen.{stream_buf, max_elem, fill, new_gen}
use fizzbuzz.Sequence.Gen.Step.{new_gen-IsGen}
use fizzbuzz.Sequence.Gen.Fill.{fill-Filled}
use fizzbuzz.Sequence.Write.{emit_all, write_periodic, repeat_period, copy_into, zeros, new_emitter}
use fizzbuzz.Sequence.Write.Period.{elements-copies}
use fizzbuzz.Sequence.Write.Periodic.{emit_all-Sent, chunk-copies}
use fizzbuzz.Sequence.Write.Stream.{opened, elements_some}

module _ (pl : Plan) where
  module _ (v : IsPlan pl) where
    pub range_bytes-exact :
        (m : ℕ)
        → m ≤ pl.n
        → length (elements pl 1 pl.n) < two_63
        → range_bytes pl 1 m ≡ length (elements pl 1 m)
    range_bytes-exact m h small =
        let e : m + 1 - 1 ≡ m = omega arith in
        range_bytes-elements pl v 1 m (omega arith) h
        ∙ ap (λ (n : ℕ). length (elements pl 1 n) % two_64) e
        ∙ omega (arith, elements-shorter pl m pl.n h)

    -- A buffer that stops at the size of the period holds exactly the period.
    fill-period :
        (cap p : ℕ)
        → pl.n < 2 ^ 62
        → p ≤ pl.n
        → length (elements pl 1 p) + max_elem pl ≤ cap
        → (fill pl cap (length (elements pl 1 p)) p (new_gen pl 1)).out ≡ elements pl 1 p
    fill-period cap p small h space =
        let pb = length (elements pl 1 p) in
        let f =
          fill-Filled pl v small pb cap p space h (new_gen pl 1) (new_gen-IsGen pl v)
            (unfold new_gen in omega arith) in
        let start : (new_gen pl 1).i ≡ 1 = unfold new_gen in refl in
        let within : f.j ≤ p = omega (arith, f.within) in
        let out : (fill pl cap pb p (new_gen pl 1)).out ≡ elements pl 1 f.j =
          f.emits.written ∙ ap (λ (i : ℕ). elements pl i f.j) start in
        let all : f.j ≡ p = elim f.ends [
          | inl e ↦ omega arith
          | inr over ↦ absurd (omega (arith, ap length out, elements-shorter pl f.j p within))
        ] in
        out ∙ ap (elements pl 1) all

    module _ (p : ℕ) (e_p : p ≡ min (max pl.a pl.b) pl.n) (pos : 0 < pl.n) where
      period_pos : 0 < p
      period_pos = let h = v.a_pos in omega arith

      period_chunks :
          (pb : ℕ)
          → 0 < pb
          → pb ≤ stream_buf
          → (0 < min (stream_buf / pb) (pl.n / p)) × (pb ≤ min (stream_buf / pb) (pl.n / p) * pb)
      period_chunks pb some_bytes fits =
          let p_pos = period_pos in
          let room : 1 ≤ stream_buf / pb = (le-div_iff_mul-le some_bytes).1 (omega arith) in
          let once : 1 ≤ pl.n / p = (le-div_iff_mul-le p_pos).1 (omega arith) in
          let k = min (stream_buf / pb) (pl.n / p) in
          let k_pos : 1 ≤ k = omega arith in
          let more : k * pb ≡ pb + (k - 1) * pb =
            ap (λ (t : ℕ). t * pb) (let e : k ≡ suc (k - 1) = omega arith in e) ∙ omega arith in
          (k_pos, omega arith)

      module _ {W : Type 0} (o : Writer W) (sink : W → Bytes) (ok : IsWriter o sink) where
        periodic_calls-Sent :
            (w : W) (k cap : ℕ)
            → k ≡ min (stream_buf / length (elements pl 1 p)) (pl.n / p)
            → cap ≡ k * length (elements pl 1 p) + max_elem pl
            → min pl.a pl.b ≡ 1
            → pl.n < 2 ^ 62
            → length (elements pl 1 pl.n) < two_63
            → length (elements pl 1 p) ≤ stream_buf
            → Sent sink w 0
                (emit_all o pl p (length (elements pl 1 p)) k (
                  new_emitter w (
                    repeat_period (k - 1) 1 (length (elements pl 1 p)) (
                      copy_into
                        (zeros cap)
                        0
                        (fill pl cap (length (elements pl 1 p)) p (new_gen pl 1)).out))))
                (opened true (elements pl 1 pl.n) ++ b']' ∷ [])
        periodic_calls-Sent w k cap e_k e_cap one small size fits =
            let b = elements pl 1 p in
            let r = pl.n % p in
            let p_pos = period_pos in
            let p_le : p ≤ pl.n = omega arith in
            let r_lt : r < p = mod-lt pl.n p_pos in
            let (k_pos', more') = period_chunks (length b) (elements_some pl v 1 p p_pos) fits in
            let k_pos : 0 < k = omega arith in
            let more : length b ≤ k * length b =
              subst (λ (t : ℕ). length b ≤ t * length b) (sym e_k) more' in
            let filled = fill-period cap p small p_le (omega arith) in
            let (rest, copied) = chunk-copies b k cap k_pos (omega arith) in
            let comma : HasComma b = period_comma in
            let chunk =
              repeat_period (k - 1) 1 (length b)
                (copy_into (zeros cap) 0 (fill pl cap (length b) p (new_gen pl 1)).out) in
            subst
              (λ (t : Bytes).
                Sent sink w 0 (emit_all o pl p (length b) k (new_emitter w chunk))
                  (opened true t ++ b']' ∷ []))
              (sym (elements-copies pl v one p pos e_p))
              (emit_all-Sent o sink ok b (elements pl 1 r) (elements pl (1 + r) (p - r)) rest k
                k_pos comma (elements-split pl r p (omega arith)) pl p (new_emitter w chunk)
                (range_bytes-exact r (omega arith) size) (omega arith)
                (ap (λ (t : Bytes). repeat_period (k - 1) 1 (length b) (copy_into (zeros cap) 0 t))
                    filled
                  ∙ copied)
                refl (omega arith))
          where
            period_comma : HasComma (elements pl 1 p)
            period_comma =
                let (t, e) = element_comma pl v 1 in
                let p_pos = period_pos in
                let p_suc : p ≡ suc (p - 1) = omega arith in
                subst (λ (n : ℕ). HasComma (elements pl 1 n)) (sym p_suc)
                  (unfold elements in (t ++ elements pl 2 (p - 1), rw e refl))

        -- The periodic document.
        pub write_periodic-Sent :
            (w : W)
            → min pl.a pl.b ≡ 1
            → pl.n < 2 ^ 62
            → length (elements pl 1 pl.n) < two_63
            → range_bytes pl 1 p ≤ stream_buf
            → Sent sink w 0 (write_periodic o w pl) (opened true (elements pl 1 pl.n) ++ b']' ∷ [])
        unfolding write_periodic
        write_periodic-Sent w one small size fits =
            let pb : range_bytes pl 1 p ≡ length (elements pl 1 p) =
              range_bytes-exact p (omega arith) size in
            rw (sym e_p, pb) (periodic_calls-Sent w _ _ refl refl one small size (omega arith))
