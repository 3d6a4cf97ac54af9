-- ===== src/Sequence/Digits.antt =====
-- internal/fizzbuzz/write.go: `dcounter`, a decimal counter that is incremented in place. The
-- [64]byte array is a function from the index to the byte.
pub mod Carry
pub mod Framed
pub mod Set
use fizzbuzz.Prelude.{ℕ, zero, suc, ◌+◌, ◌-◌, ◌%◌, [], ◌∷◌, Bytes, ltb, ◌==◌, if◌then◌else◌, length}
use fizzbuzz.GoLib.Decimal.{format_int}

abbrev pub ByteArray : Type 0
ByteArray = ℕ → ℕ

abbrev pub update : ByteArray → ℕ → ℕ → ByteArray
update d k v i = if i == k then v else d i

-- `copy(d[k:], s)`
unfoldable pub copy_at : ByteArray → ℕ → Bytes → ByteArray
copy_at d k [] = d
copy_at d k (c ∷ s) = copy_at (update d k c) (suc k) s

-- `d[i : i+n]`
unfoldable pub slice : ByteArray → ℕ → ℕ → Bytes
slice d i zero = []
slice d i (suc n) = d i ∷ slice d (suc i) n

-- the index of the closing quote
abbrev pub d_end : ℕ
d_end = 40

pub record Dcounter : Type 0 where
  pub d : ByteArray
  pub start : ℕ

unfoldable pub set : Dcounter → ℕ → Dcounter
set c v =
    let digits = format_int v in
    let start = d_end - length digits in
    let copied = copy_at c.d start digits in
    let quoted = update (update copied d_end b'"') (start - 1) b'"' in
    record { d = update quoted (start - 2) b','; start = start }

-- The loop of `inc`: from index `k` down, nines become zeros. (At index 0 a nine would make the
-- source fault.)
unfoldable pub carry : ℕ → ByteArray → ℕ × ByteArray
carry zero d = (zero, d)
carry (suc k) d =
    let rest = carry k (update d (suc k) b'0') in if d (suc k) == b'9' then rest else (suc k, d)

-- What `inc` does when the loop has ended.
unfoldable pub place : Dcounter → ℕ × ByteArray → Dcounter
place c (k, d) =
    if ltb k c.start
    then record { d = update (update (update d k b'1') (k - 1) b'"') (k - 2) b','; start = k }
    else record { d = update d k ((d k + 1) % 256); start = c.start }

unfoldable pub inc : Dcounter → Dcounter
unfolding place
inc c = place c (carry (d_end - 1) c.d)

-- `c.d[c.start-2 : dEnd+1]`, the complete element.
unfoldable pub framed : Dcounter → Bytes
framed c = slice c.d (c.start - 2) (d_end + 1 - (c.start - 2))

-- The array of a new `dcounter`.
abbrev pub zero_counter : Dcounter
zero_counter = record { d = λ i. 0; start = 0 }
