-- ===== src/GoLib/Url.antt =====
-- `url.ParseQuery`: the settings of a query string, in their order. None is any error; there is no
-- limit on the number of settings.
use fizzbuzz.Prelude.{
  ℕ, ◌+◌, ◌-◌, ◌*◌, ◌≡◌, refl, Bool, true, false, ◌&&◌, ◌||◌, Bool-cases, inl, inr, Option, none,
  some, List, [], ◌∷◌, ◌++◌, Bytes, arith, leb, if◌then◌else◌, ◌==◌,
}

-- `strings.Split` at a byte.
unfoldable pub split_at : ℕ → Bytes → List Bytes
split_at c [] = [] ∷ []
split_at c (x ∷ s) = elim (split_at c s) [
  | [] ↦ [] ∷ []
  | piece ∷ pieces ↦ if x == c then [] ∷ piece ∷ pieces else (x ∷ piece) ∷ pieces
]

-- `strings.Cut` at a byte, without the flag.
unfoldable pub cut : ℕ → Bytes → Bytes × Bytes
cut c [] = ([], [])
cut c (x ∷ s) = let (before, after) = cut c s in if x == c then ([], s) else (x ∷ before, after)

unfoldable pub contains : ℕ → Bytes → Bool
contains c [] = false
contains c (x ∷ s) = (x == c) || contains c s

-- The value of a hexadecimal digit.
unfoldable pub hex_value : ℕ → Option ℕ
hex_value c =
    if leb b'0' c && leb c b'9'
    then some (c - b'0')
    else if leb b'a' c && leb c b'f'
    then some (c - 87)
    else if leb b'A' c && leb c b'F'
    then some (c - 55)
    else none

-- Behind no escape, behind a percent sign, and behind its first digit.
pub data Escape : Type 0 where
  plain : Escape
  percent : Escape
  high : ℕ → Escape

abbrev pub add_byte : ℕ → Option Bytes → Option Bytes
add_byte c none = none
add_byte c (some s) = some (c ∷ s)

abbrev pub unescape_high : Option ℕ → (ℕ → Option Bytes) → Option Bytes
unescape_high none rest = none
unescape_high (some d) rest = rest d

-- `url.QueryUnescape`
unfoldable pub unescape : Escape → Bytes → Option Bytes
unescape plain [] = some []
unescape percent [] = none
unescape (high h) [] = none
unescape plain (c ∷ s) =
    let escaped = unescape percent s in
    let rest = unescape plain s in
    if c == b'%' then escaped else add_byte (if c == b'+' then b' ' else c) rest
unescape percent (c ∷ s) = unescape_high (hex_value c) (λ d. unescape (high d) s)
unescape (high h) (c ∷ s) =
    let rest = unescape plain s in unescape_high (hex_value c) (λ d. add_byte (h * 16 + d) rest)

abbrev pub Settings : Type 0
Settings = List (Bytes × Bytes)

abbrev pub setting : Option Bytes → Option Bytes → Option Settings → Option Settings
setting (some key) (some value) (some rest) = some ((key, value) ∷ rest)
setting none value rest = none
setting (some key) none rest = none
setting (some key) (some value) none = none

-- One piece between two separators; an empty one is skipped.
unfoldable pub parse_piece : Bytes → Option Settings → Option Settings
parse_piece [] rest = rest
parse_piece (c ∷ s) rest =
    let (key, value) = cut b'=' (c ∷ s) in
    if contains b';' (c ∷ s) then none else setting (unescape plain key) (unescape plain value) rest

unfoldable pub parse_pieces : List Bytes → Option Settings
unfolding parse_piece
parse_pieces [] = some []
parse_pieces (piece ∷ pieces) = parse_piece piece (parse_pieces pieces)

unfoldable pub parse_query : Bytes → Option Settings
unfolding parse_pieces
parse_query s = parse_pieces (split_at b'&' s)

-- No byte of a text is the separator.
abbrev pub Without : ℕ → Bytes → Type 0
Without c s = contains c s ≡ false

pub cut-append :
    (c : ℕ) (key value : Bytes) → Without c key → cut c (key ++ c ∷ value) ≡ (key, value)
unfolding cut contains
cut-append c [] value h = ground arith
cut-append c (x ∷ key) value h =
    let rest : cut c (key ++ c ∷ value) ≡ (key, value) =
      cut-append c key value (ground (arith, h)) in
    let e : (x == c) ≡ false = ground (arith, h) in rw (e, rest) refl

pub contains-append : (c : ℕ) (s t : Bytes) → Without c s → Without c t → Without c (s ++ t)
unfolding contains
contains-append c [] t h k = k
contains-append c (x ∷ s) t h k =
    let rest = contains-append c s t (ground (arith, h)) k in ground (arith, h, rest)

pub split_at-none : (c : ℕ) (s : Bytes) → Without c s → split_at c s ≡ s ∷ []
unfolding split_at contains
split_at-none c [] h = refl
split_at-none c (x ∷ s) h =
    let rest : split_at c s ≡ s ∷ [] = split_at-none c s (ground (arith, h)) in
    let e : (x == c) ≡ false = ground (arith, h) in rw (rest, e) refl

split_at-nonempty :
    (c : ℕ) (s : Bytes) → (piece : Bytes) × (pieces : List Bytes) × (split_at c s ≡ piece ∷ pieces)
unfolding split_at
split_at-nonempty c [] = ([], [], refl)
split_at-nonempty c (x ∷ s) =
    let (piece, pieces, e) = split_at-nonempty c s in
    elim (Bool-cases (x == c)) [
      | inl here ↦ ([], piece ∷ pieces, rw (e, here) refl)
      | inr later ↦ (x ∷ piece, pieces, rw (e, later) refl)
    ]

pub split_at-append :
    (c : ℕ) (s t : Bytes) → Without c s → split_at c (s ++ c ∷ t) ≡ s ∷ split_at c t
unfolding split_at contains
split_at-append c [] t h =
    let (piece, pieces, e) = split_at-nonempty c t in
    let here : (c == c) ≡ true = ground arith in rw (e, here) refl
split_at-append c (x ∷ s) t h =
    let rest : split_at c (s ++ c ∷ t) ≡ s ∷ split_at c t =
      split_at-append c s t (ground (arith, h)) in
    let e : (x == c) ≡ false = ground (arith, h) in rw (rest, e) refl
