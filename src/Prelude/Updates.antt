-- ===== src/Prelude/Updates.antt =====
-- A function changed at one argument.
use Prim.Native.Nat.{ℕ}
use mathlib.Core.Path.{◌≡◌, refl}
use mathlib.Core.Logic.{◌≢◌}
use fizzbuzz.Prelude.Tests.{◌==◌, if◌then◌else◌, eq→==, ne→==}

abbrev pub update {ℓ} : {A : Type ℓ} → (ℕ → A) → ℕ → A → ℕ → A
update f i x j = if j == i then x else f j

pub update_here {ℓ} : {A : Type ℓ} → (f : ℕ → A) (i : ℕ) (x : A) → update f i x i ≡ x
update_here f i x = rw (eq→== i i refl) refl

pub update_there {ℓ} :
    {A : Type ℓ} → (f : ℕ → A) (i : ℕ) (x : A) (j : ℕ) → j ≢ i → update f i x j ≡ f j
update_there f i x j ne = rw (ne→== j i ne) refl
