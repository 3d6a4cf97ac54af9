-- ===== src/Sequence/Digits/Set.antt =====
-- `set`: the counter holds the number.
use mathlib.Core.Path.{subst}
use native.Mathlib.Nat.{pow-suc, one-le-pow}
use fizzbuzz.Prelude.{
  ℕ, zero, suc, ◌+◌, ◌-◌, ◌/◌, ◌%◌, ◌^◌, ◌≤◌, ◌<◌, ◌≡◌, inl, inr, sym, ap, ◌∙◌, [], ◌∷◌, ◌++◌,
  Bytes, arith, ltb, ltb→lt, ltb→ge, Bool-cases, length, two_63,
}
use fizzbuzz.GoLib.Decimal.{format, format_small, format_large, length-format, format_int-eq}
use fizzbuzz.Sequence.Digits.{ByteArray, update, copy_at, d_end, Dcounter, set}
use fizzbuzz.Sequence.Digits.Carry.{HasDigits, HasDigits-same, update_self, update_ne}
use fizzbuzz.Sequence.Digits.Framed.{Represents, more_le}

copy_at-append :
    (d : ByteArray) (s : ℕ) (xs ys : Bytes)
    → copy_at d s (xs ++ ys) ≡ copy_at (copy_at d s xs) (s + length xs) ys
unfolding copy_at
copy_at-append d s [] ys = let e : s + 0 ≡ s = omega arith in rw e
copy_at-append d s (x ∷ xs) ys =
    let e : s + suc (length xs) ≡ suc s + length xs = omega arith in
    rw e (copy_at-append (update d s x) (suc s) xs ys)

copy_at-format :
    (d : ByteArray) (s m v : ℕ)
    → 10 ^ m ≤ v
    → v < 10 ^ suc m
    → HasDigits (copy_at d s (format v)) s (suc m) v
copy_at-format d s zero v lo hi =
    let small : v < 10 = omega arith in
    let e : s + 0 ≡ s = omega arith in
    rw (format_small v small) (
      unfold copy_at in
      (ap (update d s (b'0' + v)) e ∙ update_self d s (b'0' + v) ∙ omega arith, omega arith))
copy_at-format d s (suc m) v lo hi =
    let large : 10 ≤ v = omega (arith, pow-suc 10 m, one-le-pow m 10 (omega arith)) in
    let lo' : 10 ^ m ≤ v / 10 = omega (arith, pow-suc 10 m) in
    let hi' : v / 10 < 10 ^ suc m = omega (arith, pow-suc 10 (suc m)) in
    let lower = copy_at d s (format (v / 10)) in
    let digit = b'0' + v % 10 in
    let whole : copy_at d s (format v) ≡ update lower (s + suc m) digit =
      ap (copy_at d s) (format_large v large)
      ∙ copy_at-append d s (format (v / 10)) (digit ∷ [])
      ∙ unfold copy_at in
        ap (λ (k : ℕ). update lower (s + k) digit) (length-format m (v / 10) lo' hi') in
    subst (λ (d' : ByteArray). HasDigits d' s (suc (suc m)) v) (sym whole)
      (
        update_self lower (s + suc m) digit,
        HasDigits-same lower (update lower (s + suc m) digit) s (suc m) (v / 10)
            (λ i p q. update_ne lower (s + suc m) digit i (omega arith))
            (copy_at-format d s m (v / 10) lo' hi'),
      )

-- Every positive number lies in a decimal band.
pub band_of : (fuel v : ℕ) → 0 < v → v < fuel → (m : ℕ) × (10 ^ m ≤ v) × (v < 10 ^ suc m)
band_of zero v pos h = elim h [ ]
band_of (suc fuel) v pos h = elim (Bool-cases (ltb v 10)) [
  | inl small ↦ (0, omega arith, omega (arith, ltb→lt _ _ small))
  | inr large ↦
      let big = ltb→ge v 10 large in
      let (m, lo, hi) = band_of fuel (v / 10) (omega arith) (omega arith) in
      (suc m, omega (arith, pow-suc 10 m), omega (arith, pow-suc 10 (suc m)))
]

-- For a positive number below 2 ^ 63: after `set` the counter holds it, whatever it held before.
pub set-Represents : (c : Dcounter) (v : ℕ) → 0 < v → v < two_63 → Represents (set c v) v
unfolding set
set-Represents c v pos small =
    let (m, lo, hi) = band_of (suc v) v pos (omega arith) in
    let bound = more_le m v lo small in
    let s = d_end - suc m in
    let copied = copy_at c.d s (format v) in
    let d1 = update copied d_end b'"' in
    let d2 = update d1 (s - 1) b'"' in
    rw (format_int-eq v small, length-format m v lo hi)
      (record {
        more = m;
        place_end = omega arith;
        digits =
            HasDigits-same copied (update d2 (s - 2) b',') s (suc m) v
              (λ i p q.
                update_ne d2 (s - 2) b',' i (omega arith)
                ∙ update_ne d1 (s - 1) b'"' i (omega arith)
                ∙ update_ne copied d_end b'"' i (omega arith))
              (copy_at-format c.d s m v lo hi);
        lead = lo;
        close =
            update_ne d2 (s - 2) b',' d_end (omega arith)
            ∙ update_ne d1 (s - 1) b'"' d_end (omega arith)
            ∙ update_self copied d_end b'"';
        quote = update_ne d2 (s - 2) b',' (s - 1) (omega arith) ∙ update_self d1 (s - 1) b'"';
        comma = update_self d2 (s - 2) b',';
      })
