-- ===== src/GoLib/Utf8.antt =====
-- unicode/utf8: the length of the rune at the head of a text, and `utf8.ValidString`.
use fizzbuzz.Prelude.{
  ℕ, zero, suc, ◌-◌, ◌≡◌, refl, Bool, true, false, ◌&&◌, [], ◌∷◌, ◌++◌, Bytes, codes, ltb, leb,
  ◌==◌, if◌then◌else◌,
}

abbrev pub within : ℕ → ℕ → ℕ → Bool
within lo hi c = leb lo c && leb c hi

is_continuation : ℕ → Bool
is_continuation = within 0x80 0xbf

-- Is the text headed by a byte within the bounds and `n` more continuation bytes?
continues : ℕ → ℕ → ℕ → Bytes → Bool
unfolding is_continuation
continues lo hi n [] = false
continues lo hi zero (c ∷ s) = within lo hi c
continues lo hi (suc n) (c ∷ s) = within lo hi c && continues 0x80 0xbf n s

-- The number of bytes of the rune at the head, 0 if they are no encoding (utf8's table `first`
-- with its accept ranges).
unfoldable pub rune_size : ℕ → Bytes → ℕ
unfolding continues
rune_size c s =
    if ltb c 0x80
    then 1
    else if within 0xc2 0xdf c
    then if continues 0x80 0xbf 0 s then 2 else 0
    else if c == 0xe0
    then if continues 0xa0 0xbf 1 s then 3 else 0
    else if c == 0xed
    then if continues 0x80 0x9f 1 s then 3 else 0
    else if within 0xe1 0xef c
    then if continues 0x80 0xbf 1 s then 3 else 0
    else if c == 0xf0
    then if continues 0x90 0xbf 2 s then 4 else 0
    else if within 0xf1 0xf3 c
    then if continues 0x80 0xbf 2 s then 4 else 0
    else if c == 0xf4
    then if continues 0x80 0x8f 2 s then 4 else 0
    else 0

-- The first argument counts the bytes of a rune that are still to be passed over.
valid_from : ℕ → Bytes → Bool
unfolding rune_size
valid_from n [] = true
valid_from (suc n) (c ∷ s) = valid_from n s
valid_from zero (c ∷ s) = let k = rune_size c s in if k == 0 then false else valid_from (k - 1) s

unfoldable pub valid_string : Bytes → Bool
unfolding valid_from
valid_string = valid_from 0

valid_runs : valid_string (codes "caf" ++ 0xc3 ∷ 0xa9 ∷ []) ≡ true
unfolding valid_string
valid_runs = refl

truncated_rune : valid_string (codes "caf" ++ 0xc3 ∷ []) ≡ false
unfolding valid_string
truncated_rune = refl

surrogate : valid_string (0xed ∷ 0xa0 ∷ 0x80 ∷ []) ≡ false
unfolding valid_string
surrogate = refl
