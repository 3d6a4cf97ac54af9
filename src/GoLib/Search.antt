-- ===== src/GoLib/Search.antt =====
-- `sort.Search`, the binary search of the standard library.
use fizzbuzz.Prelude.{
  ℕ, zero, suc, ◌+◌, ◌-◌, ◌/◌, ◌≤◌, ◌<◌, ◌≡◌, inl, inr, arith, Bool, true, false, if◌then◌else◌,
  ltb, ltb→lt, ltb→ge, Bool-cases,
}

-- `for i < j { h := (i + j) / 2; if !f(h) { i = h + 1 } else { j = h } }`; a round makes the
-- interval shorter.
unfoldable pub search_loop : ℕ → (ℕ → Bool) → ℕ → ℕ → ℕ
search_loop zero f i j = i
search_loop (suc fuel) f i j =
    let h = (i + j) / 2 in
    let left = search_loop fuel f i h in
    let right = search_loop fuel f (h + 1) j in if ltb i j then if f h then left else right else i

unfoldable pub search : ℕ → (ℕ → Bool) → ℕ
search n f = search_loop n f 0 n

-- The result is the end, or the test holds there; and it is 0, or the test fails before it.
pub record Found (n : ℕ) (f : ℕ → Bool) (r : ℕ) : Type 0 where
  pub within : r ≤ n
  pub here : r < n → f r ≡ true
  pub before : 0 < r → f (r - 1) ≡ false

module _ (n : ℕ) (f : ℕ → Bool) where
  search_loop-Found :
      (fuel i j : ℕ)
      → i ≤ j
      → j ≤ n
      → j ≤ i + fuel
      → (j < n → f j ≡ true)
      → (0 < i → f (i - 1) ≡ false)
      → Found n f (search_loop fuel f i j)
  unfolding search_loop
  search_loop-Found zero i j le jn enough up low =
      let e : i ≡ j = omega arith in record { within = omega arith; here = rw e up; before = low }
  search_loop-Found (suc fuel) i j le jn enough up low =
      let h = (i + j) / 2 in
      elim (Bool-cases (ltb i j)) [
        | inl go ↦
            let inside = ltb→lt _ _ go in
            elim (Bool-cases (f h)) [
              | inl holds ↦
                  rw (go, holds)
                    (search_loop-Found fuel i h (omega arith) (omega arith) (omega arith)
                      (λ x. holds) low)
              | inr fails ↦
                  let e : h + 1 - 1 ≡ h = omega arith in
                  rw (go, fails)
                    (search_loop-Found fuel (h + 1) j (omega arith) jn (omega arith) up
                      (λ x. rw e fails))
            ]
        | inr done ↦
            let ge = ltb→ge _ _ done in
            let e : i ≡ j = omega arith in
            rw done (record { within = omega arith; here = rw e up; before = low })
      ]

  -- `sort.Search` ends, and finds a place where the test changes.
  pub search-Found : Found n f (search n f)
  unfolding search
  search-Found =
      search_loop-Found n 0 n (omega arith) (omega arith) (omega arith) (λ x. absurd (omega arith))
        (λ x. absurd (omega arith))
