-- ===== src/Sequence/Digits/Framed.antt =====
-- A counter that holds a number: what it shows, and `inc`.
use mathlib.Core.Path.{subst}
use native.Mathlib.Nat.{pow-suc, one-le-pow, pow-le-pow_right}
use fizzbuzz.Prelude.{
  ℕ, zero, suc, ◌+◌, ◌-◌, ◌/◌, ◌%◌, ◌^◌, ◌≤◌, ◌<◌, ◌≡◌, ◌≢◌, ◌⊎◌, inl, inr, sym, ap, ◌∙◌, [], ◌∷◌,
  ◌++◌, Bytes, arith, lt→ltb, ge→ltb, two_63,
}
use fizzbuzz.GoLib.Decimal.{format, format_small, format_large}
use fizzbuzz.Sequence.Elements.{number}
use fizzbuzz.Sequence.Digits.{ByteArray, update, slice, d_end, Dcounter, carry, place, inc, framed}
use fizzbuzz.Sequence.Digits.Carry.{
  HasDigits, HasDigits-same, HasDigits-lt, Carried, carry-Carried, update_self, update_ne,
}

-- The counter holds `v` with `more + 1` digits, framed by a comma and quotes.
pub record Represents (c : Dcounter) (v : ℕ) : Type 0 where
  pub more : ℕ
  pub place_end : c.start + suc more ≡ d_end
  pub digits : HasDigits c.d c.start (suc more) v
  pub lead : 10 ^ more ≤ v
  pub close : c.d d_end ≡ b'"'
  pub quote : c.d (c.start - 1) ≡ b'"'
  pub comma : c.d (c.start - 2) ≡ b','

-- A positive `int` has at most 19 digits.
pub more_le : (m v : ℕ) → 10 ^ m ≤ v → v < two_63 → m ≤ 18
more_le m v lead small =
    grind (arith, λ (p : 19 ≤ m). pow-le-pow_right {n = 10} (omega arith) {i = 19} {j = m} p)

slice_last : (d : ByteArray) (i n : ℕ) → slice d i (suc n) ≡ slice d i n ++ d (i + n) ∷ []
unfolding slice
slice_last d i zero = let e : i + 0 ≡ i = omega arith in rw e
slice_last d i (suc n) =
    let e : i + suc n ≡ suc i + n = omega arith in rw e (ap (◌∷◌ (d i)) (slice_last d (suc i) n))

slice-format :
    (d : ByteArray) (s m v : ℕ)
    → HasDigits d s (suc m) v
    → 10 ^ m ≤ v
    → slice d s (suc m) ≡ format v
slice-format d s zero v h lead =
    let small : v < 10 = omega (arith, HasDigits-lt d s 1 v h) in
    let e : s + 0 ≡ s = omega arith in
    let digit : d s ≡ b'0' + v = (sym (ap d e) ∙ h.0) ∙ omega arith in
    unfold slice in rw (format_small v small, digit)
slice-format d s (suc m) v h lead =
    let large : 10 ≤ v = omega (arith, pow-suc 10 m, one-le-pow m 10 (omega arith)) in
    rw (
      slice_last d s (suc m),
      slice-format d s m (v / 10) h.1 (omega (arith, pow-suc 10 m)),
      format_large v large,
      h.0,
    )

slice_framed :
    (d : ByteArray) (s n : ℕ)
    → 2 ≤ s
    → d (s - 2) ≡ b','
    → d (s - 1) ≡ b'"'
    → slice d (s - 2) (suc (suc (suc n))) ≡ b',' ∷ b'"' ∷ (slice d s n ++ d (s + n) ∷ [])
slice_framed d zero n h c q = absurd (omega arith)
slice_framed d (suc zero) n h c q = absurd (omega arith)
slice_framed d (suc (suc s)) n h c q =
    let e2 : suc (suc s) - 2 ≡ s = omega arith in
    let e1 : suc (suc s) - 1 ≡ suc s = omega arith in
    let comma : d s ≡ b',' = sym (ap d e2) ∙ c in
    let quote : d (suc s) ≡ b'"' = sym (ap d e1) ∙ q in
    ap (λ (i : ℕ). slice d i (suc (suc (suc n)))) e2
    ∙ unfold slice in
      rw (comma, quote) (ap (λ (t : Bytes). b',' ∷ b'"' ∷ t) (slice_last d (suc (suc s)) n))

-- For a counter that holds a number below 2 ^ 63: the bytes from the comma to the closing quote are
-- `,"digits"` of the number.
pub framed-number : {c : Dcounter} {v : ℕ} → Represents c v → v < two_63 → framed c ≡ number v
unfolding framed number
framed-number {c} {v} r small =
    let bound = more_le r.more v r.lead small in
    let n : d_end + 1 - (c.start - 2) ≡ suc (suc (suc (suc r.more))) = omega (arith, r.place_end) in
    let closing : c.d (c.start + suc r.more) ≡ b'"' = ap c.d r.place_end ∙ r.close in
    ap (slice c.d (c.start - 2)) n
    ∙ slice_framed c.d c.start (suc r.more) (omega (arith, r.place_end)) r.comma r.quote
    ∙ rw (slice-format c.d c.start r.more v r.digits r.lead, closing)

-- A one and zeros.
HasDigits-power :
    (d : ByteArray) (s n : ℕ)
    → d s ≡ b'1'
    → HasDigits d (suc s) n 0
    → HasDigits d s (suc n) (10 ^ n)
HasDigits-power d s zero one zeros = let e : s + 0 ≡ s = omega arith in (ap d e ∙ one, omega arith)
HasDigits-power d s (suc n) one zeros =
    let e : s + suc n ≡ suc s + n = omega arith in
    let t : 10 ^ suc n / 10 ≡ 10 ^ n = omega (arith, pow-suc 10 n) in
    let z : 10 ^ suc n % 10 ≡ 0 = omega (arith, pow-suc 10 n) in
    ((ap d e ∙ zeros.0) ∙ omega arith, rw t (HasDigits-power d s n one zeros.1))

module _ (c : Dcounter) (v : ℕ) (r : Represents c v) (small : v < two_63) where
  place_inside :
      (k : ℕ) (d : ByteArray)
      → c.start ≤ k
      → k < d_end
      → HasDigits (update d k ((d k + 1) % 256)) c.start (suc r.more) (v + 1)
      → ((i : ℕ) → (i < c.start) ⊎ (c.start + suc r.more ≤ i) → d i ≡ c.d i)
      → Represents (place c (k, d)) (v + 1)
  unfolding place
  place_inside k d lo hi digits same =
      let bound = more_le r.more v r.lead small in
      let w = (d k + 1) % 256 in
      rw (ge→ltb k c.start lo) (record {
        more = r.more;
        place_end = r.place_end;
        digits = digits;
        lead = omega (arith, r.lead);
        close =
            update_ne d k w d_end (omega arith)
            ∙ same d_end (inr (omega (arith, r.place_end)))
            ∙ r.close;
        quote =
            update_ne d k w (c.start - 1) (omega (arith, r.place_end))
            ∙ same (c.start - 1) (inl (omega (arith, r.place_end)))
            ∙ r.quote;
        comma =
            update_ne d k w (c.start - 2) (omega (arith, r.place_end))
            ∙ same (c.start - 2) (inl (omega (arith, r.place_end)))
            ∙ r.comma;
      })

  place_front :
      (k : ℕ) (d : ByteArray)
      → k + 1 ≡ c.start
      → v + 1 ≡ 10 ^ suc r.more
      → HasDigits d c.start (suc r.more) 0
      → ((i : ℕ) → (i < c.start) ⊎ (c.start + suc r.more ≤ i) → d i ≡ c.d i)
      → Represents (place c (k, d)) (v + 1)
  unfolding place
  place_front k d e full zeros same =
      let bound = more_le r.more v r.lead small in
      let d1 = update d k b'1' in
      let d2 = update d1 (k - 1) b'"' in
      let s' : suc k ≡ c.start = omega arith in
      let kept = λ (i : ℕ) (p : k ≤ i).
        update_ne d2 (k - 2) b',' i (omega (arith, r.place_end))
        ∙ update_ne d1 (k - 1) b'"' i (omega (arith, r.place_end)) in
      let zeros' : HasDigits d (suc k) (suc r.more) 0 =
        subst (λ (s : ℕ). HasDigits d s (suc r.more) 0) (sym s') zeros in
      rw (lt→ltb k c.start (omega arith)) (record {
        more = suc r.more;
        place_end = omega (arith, r.place_end);
        digits = rw full (
            HasDigits-power (update d2 (k - 2) b',') k (suc r.more)
              (kept k (omega arith) ∙ update_self d k b'1')
              (HasDigits-same d (update d2 (k - 2) b',') (suc k) (suc r.more) 0
                (λ i p q. kept i (omega arith) ∙ update_ne d k b'1' i (omega arith)) zeros'));
        lead = omega arith;
        close =
            kept d_end (omega (arith, r.place_end))
            ∙ update_ne d k b'1' d_end (omega (arith, r.place_end))
            ∙ same d_end (inr (omega (arith, r.place_end)))
            ∙ r.close;
        quote =
            update_ne d2 (k - 2) b',' (k - 1) (omega (arith, r.place_end))
            ∙ update_self d1 (k - 1) b'"';
        comma = update_self d2 (k - 2) b',';
      })

  place-Represents :
      (p : ℕ × ByteArray) → Carried c.d c.start (suc r.more) v p → Represents (place c p) (v + 1)
  place-Represents p (inl (lo, hi, digits, same)) =
      place_inside p.0 p.1 lo (omega (arith, r.place_end)) digits same
  place-Represents p (inr (stop, full, zeros, same)) = place_front p.0 p.1 stop full zeros same

  -- If a counter holds a number below 2 ^ 63, then after `inc` it holds the next one, also where a
  -- digit is added and the frame moves.
  pub inc-Represents : Represents (inc c) (v + 1)
  unfolding inc
  inc-Represents =
      let bound = more_le r.more v r.lead small in
      let front : c.start - 1 + suc r.more ≡ d_end - 1 = omega (arith, r.place_end) in
      let s' : suc (c.start - 1) ≡ c.start = omega (arith, r.place_end) in
      let digits : HasDigits c.d (suc (c.start - 1)) (suc r.more) v =
        subst (λ (s : ℕ). HasDigits c.d s (suc r.more) v) (sym s') r.digits in
      let no_nine : c.d (c.start - 1) ≢ b'9' = omega (arith, r.quote) in
      let carried = carry-Carried c.d (c.start - 1) (suc r.more) v no_nine digits in
      place-Represents (carry (d_end - 1) c.d) (
        subst (λ (k : ℕ). Carried c.d c.start (suc r.more) v (carry k c.d)) front
          (subst (λ (s : ℕ). Carried c.d s (suc r.more) v (carry (c.start - 1 + suc r.more) c.d)) s'
            carried))
