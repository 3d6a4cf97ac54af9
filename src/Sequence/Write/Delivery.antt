-- ===== src/Sequence/Write/Delivery.antt =====
-- `WriteJSON` and the document: what the writer receives and what is counted.
use mathlib.Core.Path.{subst}
use fizzbuzz.Prelude.{
  not, lt_int, lt_int-eq, ℕ, ◌^◌, ◌≤◌, ◌<◌, min, max, ◌≡◌, inl, inr, refl, sym, ap, ◌∙◌, Bool, true,
  false, ◌&&◌, [], ◌∷◌, ◌++◌, Bytes, arith, length, length-append, take, take-all, two_63, ◌==◌,
  ==→eq, Bool-cases,
}
use fizzbuzz.GoLib.Writer.{Writer, IsWriter, Sent}
use fizzbuzz.Sequence.Params.{Params}
use fizzbuzz.Sequence.Reference.{document}
use fizzbuzz.Sequence.Size.{new_plan, range_bytes, json_size}
use fizzbuzz.Sequence.Size.Exact.{json_size-document}
use fizzbuzz.Sequence.Elements.{
  elements-shorter, IsPositive, elements, new_plan-IsPlan, document-elements,
}
use fizzbuzz.Sequence.Gen.{stream_buf}
use fizzbuzz.Sequence.Write.{set_head, write_periodic, write_stream, write_json}
use fizzbuzz.Sequence.Write.Whole.{write_periodic-Sent, range_bytes-exact}
use fizzbuzz.Sequence.Write.Stream.{opened, write_stream-Sent}

both_true : (x y : Bool) → (x && y) ≡ true → (x ≡ true) × (y ≡ true)
both_true x y h = ground arith

fits_int : (x : ℕ) → x < two_63 → not (lt_int stream_buf x) ≡ true → x ≤ stream_buf
fits_int x h e = ground (arith, lt_int-eq stream_buf x (omega arith) h, e)

module _ {W : Type 0} (o : Writer W) (sink : W → Bytes) (ok : IsWriter o sink) where
  module _ (w : W) (p : Params) (v : IsPositive p) (small : p.limit < 2 ^ 62)
      (size : length (document p) < two_63) where
    -- What the plan's elements are to the document.
    opened-document :
        (opened true (elements (new_plan p) 1 (new_plan p).n) ++ b']' ∷ [] ≡ document p)
        × (length (elements (new_plan p) 1 (new_plan p).n) < two_63)
    unfolding new_plan
    opened-document =
        let (rest, whole, doc) = document-elements p v.limit_pos in
        let bracket : opened true (b',' ∷ rest) ≡ b'[' ∷ rest = unfold set_head in refl in
        (
          ap (λ (t : Bytes). opened true t ++ b']' ∷ []) whole
              ∙ ap (λ (t : Bytes). t ++ b']' ∷ []) bracket
              ∙ sym doc,
          omega (arith, ap length doc, ap length whole, length-append rest (b']' ∷ [])),
        )

    abbrev period_of : ℕ
    period_of = min (max (new_plan p).a (new_plan p).b) (new_plan p).n

    -- The periodic path.
    write_periodic-Sent-document :
        min (new_plan p).a (new_plan p).b ≡ 1
        → range_bytes (new_plan p) 1 period_of ≤ stream_buf
        → Sent sink w 0 (write_periodic o w (new_plan p)) (document p)
    write_periodic-Sent-document one fits =
        let limit : (new_plan p).n ≡ p.limit = unfold new_plan in refl in
        subst (Sent sink w 0 (write_periodic o w (new_plan p))) opened-document.0 (
          write_periodic-Sent (new_plan p) (new_plan-IsPlan v) period_of refl
            (omega (arith, v.limit_pos)) o sink ok w one (omega arith) opened-document.1 fits)

    -- The document of validated parameters, sent to the writer.
    write_json-Sent : Sent sink w 0 (write_json o w p) (document p)
    unfolding write_json
    write_json-Sent =
        let pl = new_plan p in
        let limit : pl.n ≡ p.limit = unfold new_plan in refl in
        let bounded : range_bytes pl 1 period_of < two_63 = omega (
          arith,
          range_bytes-exact pl (new_plan-IsPlan v) period_of (omega arith) opened-document.1,
          elements-shorter pl period_of pl.n (omega arith),
          opened-document.1,
        ) in
        elim (Bool-cases
          (min pl.a pl.b == 1 && not (lt_int stream_buf (range_bytes pl 1 period_of)))) [
            | inl periodic ↦
                let (one, fits) = both_true _ _ periodic in
                rw periodic (
                  write_periodic-Sent-document (==→eq _ _ one)
                    (fits_int (range_bytes pl 1 period_of) bounded fits))
            | inr streamed ↦ rw streamed (
                subst (Sent sink w 0 (write_stream o w pl)) opened-document.0 (
                  write_stream-Sent pl (new_plan-IsPlan v) (omega arith) o sink ok w
                    (omega (arith, v.limit_pos))))
          ]

  -- For a writer that keeps the contract of io.Writer, parameters with positive numbers, a limit below
  -- 2 ^ 62 and a document of fewer than 2 ^ 63
  -- bytes: if `WriteJSON` returns no error, the writer has received exactly the encoding of the
  -- sequence, and the count that it returns is the size that `JSONSize` announces.
  pub write_json-document :
      (w : W) (p : Params)
      → IsPositive p
      → p.limit < 2 ^ 62
      → length (document p) < two_63
      → (write_json o w p).failed ≡ false
      → (sink (write_json o w p).w ≡ sink w ++ document p) × ((write_json o w p).n ≡ json_size p)
  write_json-document w p v small size good =
      let s = write_json-Sent w p v small size in
      let whole = s.all good in
      (
        s.received ∙ ap (λ (t : Bytes). sink w ++ t) (take-all s.k (document p) (omega arith)),
        s.counts ∙ omega (arith, json_size-document p v size),
      )

  -- For a writer that keeps the contract of io.Writer, parameters with positive numbers, a limit below
  -- 2 ^ 62 and a document of fewer than 2 ^ 63
  -- bytes: error or not, the writer has received a prefix of the document, and the count that
  -- `WriteJSON` returns is the length of that prefix.
  pub write_json-prefix :
      (w : W) (p : Params)
      → IsPositive p
      → p.limit < 2 ^ 62
      → length (document p) < two_63
      → (sink (write_json o w p).w ≡ sink w ++ take (write_json o w p).n (document p))
        × ((write_json o w p).n ≤ length (document p))
  write_json-prefix w p v small size =
      let s = write_json-Sent w p v small size in
      let bounded = s.bounded in
      let count : (write_json o w p).n ≡ s.k = s.counts ∙ omega arith in
      (s.received ∙ ap (λ (k : ℕ). sink w ++ take k (document p)) (sym count), omega (arith, count))
