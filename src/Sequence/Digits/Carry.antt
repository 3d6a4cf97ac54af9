-- ===== src/Sequence/Digits/Carry.antt =====
-- The loop of `inc`: what it does to the digits of a number.
use mathlib.Core.Path.{subst}
use native.Mathlib.Nat.{pow-suc}
use fizzbuzz.Prelude.{
  ℕ, zero, suc, ◌+◌, ◌/◌, ◌%◌, ◌^◌, ◌≤◌, ◌<◌, ◌≡◌, ◌≢◌, ◌⊎◌, inl, inr, refl, sym, ap, ◌∙◌, arith,
  ◌==◌, Bool-cases, ==→eq, ==→ne, ne→==, eq→==,
}
use fizzbuzz.Sequence.Digits.{ByteArray, update, carry}

pub update_self : (d : ByteArray) (k v : ℕ) → update d k v k ≡ v
update_self d k v = ground arith

pub update_ne : (d : ByteArray) (k v i : ℕ) → i ≢ k → update d k v i ≡ d i
update_ne d k v i h = ground arith

-- The `n` bytes from `s` on are the decimal digits of `v`, with leading zeros.
abbrev pub HasDigits : ByteArray → ℕ → ℕ → ℕ → Type 0
HasDigits d s zero v = v ≡ 0
HasDigits d s (suc n) v = (d (s + n) ≡ b'0' + v % 10) × HasDigits d s n (v / 10)

-- Nothing changes outside [s, s + n).
abbrev pub SameOutside : ByteArray → ByteArray → ℕ → ℕ → Type 0
SameOutside d d' s n = (i : ℕ) → (i < s) ⊎ (s + n ≤ i) → d' i ≡ d i

pub HasDigits-same :
    (d d' : ByteArray) (s n v : ℕ)
    → ((i : ℕ) → s ≤ i → i < s + n → d' i ≡ d i)
    → HasDigits d s n v
    → HasDigits d' s n v
HasDigits-same d d' s zero v same h = h
HasDigits-same d d' s (suc n) v same h = (
  same (s + n) (omega arith) (omega arith) ∙ h.0,
  HasDigits-same d d' s n (v / 10) (λ i p q. same i p (omega arith)) h.1,
)

-- The number has no more digits than that.
pub HasDigits-lt : (d : ByteArray) (s n v : ℕ) → HasDigits d s n v → v < 10 ^ n
HasDigits-lt d s zero v h = rw h (omega arith)
HasDigits-lt d s (suc n) v h = omega (arith, pow-suc 10 n, HasDigits-lt d s n (v / 10) h.1)

-- The loop stops at a digit that can be incremented, and then the number grows by one; or all
-- digits were nines, and it stops in front of them with zeros behind.
abbrev pub Carried : ByteArray → ℕ → ℕ → ℕ → ℕ × ByteArray → Type 0
Carried d s n v r =
    ((s ≤ r.0)
      × (r.0 < s + n)
      × HasDigits (update r.1 r.0 ((r.1 r.0 + 1) % 256)) s n (v + 1)
      × SameOutside d r.1 s n)
    ⊎ ((r.0 + 1 ≡ s) × (v + 1 ≡ 10 ^ n) × HasDigits r.1 s n 0 × SameOutside d r.1 s n)

carry_stop : (k : ℕ) (d : ByteArray) → d k ≢ b'9' → carry k d ≡ (k, d)
unfolding carry
carry_stop zero d h = refl
carry_stop (suc k) d h = rw (ne→== _ _ h)

carry_nine :
    (k m : ℕ) (d : ByteArray) → m ≡ suc k → d m ≡ b'9' → carry m d ≡ carry k (update d m b'0')
unfolding carry
carry_nine k zero d e h = absurd (omega arith)
carry_nine k (suc m) d e h =
    let e' : m ≡ k = omega arith in
    rw (eq→== _ _ h) (ap (λ (j : ℕ). carry j (update d (suc m) b'0')) e')

outside_less : (i s n : ℕ) → (i < s) ⊎ (s + suc n ≤ i) → (i < s) ⊎ (s + n ≤ i)
outside_less i s n h = ground arith

outside_ne : (i s n : ℕ) → (i < s) ⊎ (s + suc n ≤ i) → i ≢ s + n
outside_ne i s n h = ground arith

-- The digit at the end is below nine.
carry_last :
    (d : ByteArray) (s n v : ℕ)
    → HasDigits d s (suc n) v
    → v % 10 ≢ 9
    → Carried d s (suc n) v (s + n, d)
carry_last d s n v h small =
    let e : (v + 1) / 10 ≡ v / 10 = omega arith in
    let digit : (d (s + n) + 1) % 256 ≡ b'0' + (v + 1) % 10 = omega (arith, h.0) in
    let same = λ (i : ℕ) (p : s ≤ i) (q : i < s + n).
      update_ne d (s + n) ((d (s + n) + 1) % 256) i (omega arith) in
    inl (
      omega arith,
      omega arith,
      (
        update_self d (s + n) ((d (s + n) + 1) % 256) ∙ digit,
        rw e (HasDigits-same d _ s n (v / 10) same h.1),
      ),
      λ i out. refl,
    )

-- The digit at the end is a nine, and the loop goes on before it.
carry_through :
    (d : ByteArray) (s n v : ℕ) (r : ℕ × ByteArray)
    → v % 10 ≡ 9
    → Carried (update d (s + n) b'0') s n (v / 10) r
    → Carried d s (suc n) v r
carry_through d s n v r nine (inl (lo, hi, digits, same)) =
    let e : (v + 1) / 10 ≡ v / 10 + 1 = omega arith in
    let z : (v + 1) % 10 ≡ 0 = omega arith in
    let last : update r.1 r.0 ((r.1 r.0 + 1) % 256) (s + n) ≡ b'0' =
      update_ne r.1 r.0 ((r.1 r.0 + 1) % 256) (s + n) (omega arith)
      ∙ same (s + n) (inr (omega arith))
      ∙ update_self d (s + n) b'0' in
    inl (
      lo,
      omega arith,
      (last ∙ omega arith, rw e digits),
      λ i out. same i (outside_less i s n out) ∙ update_ne d (s + n) b'0' i (outside_ne i s n out),
    )
carry_through d s n v r nine (inr (stop, all, digits, same)) = inr (
  stop,
  omega (arith, pow-suc 10 n),
  (same (s + n) (inr (omega arith)) ∙ update_self d (s + n) b'0', digits),
  λ i out. same i (outside_less i s n out) ∙ update_ne d (s + n) b'0' i (outside_ne i s n out),
)

-- The loop from the last digit on, when the byte before the digits is no nine.
pub carry-Carried :
    (d : ByteArray) (s n v : ℕ)
    → d s ≢ b'9'
    → HasDigits d (suc s) n v
    → Carried d (suc s) n v (carry (s + n) d)
carry-Carried d s zero v front h =
    let e : s + 0 ≡ s = omega arith in
    rw (e, carry_stop s d front) (inr (omega arith, omega arith, refl, λ i out. refl))
carry-Carried d s (suc n) v front h =
    let e : s + suc n ≡ suc s + n = omega arith in
    elim (Bool-cases (v % 10 == 9)) [
      | inl nine ↦
          let full : d (suc s + n) ≡ b'9' = omega (arith, h.0, ==→eq _ _ nine) in
          let d' = update d (suc s + n) b'0' in
          let front' : d' s ≢ b'9' =
            λ (p : d' s ≡ b'9'). front (sym (update_ne d (suc s + n) b'0' s (omega arith)) ∙ p) in
          let digits : HasDigits d' (suc s) n (v / 10) =
            HasDigits-same d d' (suc s) n (v / 10)
              (λ i p q. update_ne d (suc s + n) b'0' i (omega arith)) h.1 in
          subst (Carried d (suc s) (suc n) v)
            (sym
              (ap (λ (m : ℕ). carry m d) e ∙ carry_nine (s + n) (suc s + n) d (omega arith) full))
            (carry_through d (suc s) n v (carry (s + n) d') (==→eq _ _ nine)
              (carry-Carried d' s n (v / 10) front' digits))
      | inr small ↦
          let low : d (suc s + n) ≢ b'9' = omega (arith, h.0, ==→ne _ _ small) in
          subst (Carried d (suc s) (suc n) v)
            (sym (ap (λ (m : ℕ). carry m d) e ∙ carry_stop (suc s + n) d low))
            (carry_last d (suc s) n v h (==→ne _ _ small))
    ]
