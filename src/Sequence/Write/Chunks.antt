-- ===== src/Sequence/Write/Chunks.antt =====
-- The buffer of `writePeriodic`: copies of one period.
use fizzbuzz.Prelude.{
  ℕ, zero, suc, ◌+◌, ◌*◌, ◌≤◌, ◌<◌, ◌≡◌, refl, sym, ap, ◌∙◌, [], ◌∷◌, ◌++◌, append-nil,
  append_assoc, Bytes, arith, length, length-append, take, take-length-append,
}
use fizzbuzz.Sequence.Write.{overlay, copy_into, zeros, repeat_period}

-- `q` copies of `b`, one behind the other.
unfoldable pub copies : ℕ → Bytes → Bytes
copies zero b = []
copies (suc q) b = b ++ copies q b

pub copies-add : (q r : ℕ) (b : Bytes) → copies (q + r) b ≡ copies q b ++ copies r b
unfolding copies
copies-add zero r b = let e : 0 + r ≡ r = omega arith in rw e
copies-add (suc q) r b =
    let e : suc q + r ≡ suc (q + r) = omega arith in rw (e, copies-add q r b, append_assoc)

pub length-copies : (q : ℕ) (b : Bytes) → length (copies q b) ≡ q * length b
unfolding copies
length-copies zero b = omega arith
length-copies (suc q) b = omega (arith, length-append b (copies q b), length-copies q b)

pub copies_some : (q : ℕ) (b : Bytes) → 0 < q → 0 < length b → 0 < length (copies q b)
unfolding copies
copies_some zero b h p = elim h [ ]
copies_some (suc q) b h p = omega (arith, length-append b (copies q b))

pub length-zeros : (n : ℕ) → length (zeros n) ≡ n
unfolding zeros
length-zeros zero = refl
length-zeros (suc n) = ap suc (length-zeros n)

pub overlay-eq :
    (buf src : Bytes)
    → length src ≤ length buf
    → (rest : Bytes) × (overlay buf src ≡ src ++ rest) × (length rest + length src ≡ length buf)
unfolding overlay
overlay-eq [] [] h = ([], refl, omega arith)
overlay-eq [] (y ∷ src) h = absurd (omega arith)
overlay-eq (x ∷ buf) [] h = (x ∷ buf, refl, omega arith)
overlay-eq (x ∷ buf) (y ∷ src) h =
    let (rest, e, n) = overlay-eq buf src (omega arith) in (rest, rw e, omega arith)

copy_into_at : (x y src : Bytes) → copy_into (x ++ y) (length x) src ≡ x ++ overlay y src
unfolding copy_into
copy_into_at [] y src = refl
copy_into_at (c ∷ x) y src = ap (◌∷◌ c) (copy_into_at x y src)

-- After the loop the buffer begins with all the copies.
pub repeat_period-copies :
    (n j : ℕ) (b rest chunk : Bytes)
    → chunk ≡ copies (suc j) b ++ rest
    → n * length b ≤ length rest
    → (rest' : Bytes) × (repeat_period n (suc j) (length b) chunk ≡ copies (suc j + n) b ++ rest')
unfolding repeat_period
repeat_period-copies zero j b rest chunk e h =
    let e' : suc j + 0 ≡ suc j = omega arith in (rest, rw e' e)
repeat_period-copies (suc n) j b rest chunk e h =
    let (rest', over, left) = overlay-eq rest b (omega arith) in
    let one : take (length b) chunk ≡ b =
      rw e (unfold copies in rw append_assoc (take-length-append b (copies j b ++ rest))) in
    let at : suc j * length b ≡ length (copies (suc j) b) = sym (length-copies (suc j) b) in
    let single : copies 1 b ≡ b = unfold copies in append-nil b in
    let more : copies (suc (suc j)) b ≡ copies (suc j) b ++ b =
      ap (λ (q : ℕ). copies q b) (omega arith)
      ∙ copies-add (suc j) 1 b
      ∙ ap (λ (t : Bytes). copies (suc j) b ++ t) single in
    let step : copy_into chunk (suc j * length b) (take (length b) chunk)
        ≡ copies (suc (suc j)) b ++ rest' =
      rw (one, at, e, copy_into_at, over, more, append_assoc) refl in
    let (rest'', all) = repeat_period-copies n (suc j) b rest' _ step (omega arith) in
    let e' : suc j + suc n ≡ suc (suc j) + n = omega arith in (rest'', rw e' all)
