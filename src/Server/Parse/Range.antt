-- ===== src/Server/Parse/Range.antt =====
-- What is read from a query is in the machine's ranges.
use mathlib.Core.Path.{subst}
use fizzbuzz.Prelude.{
  ℕ, suc, ◌+◌, ◌-◌, ◌*◌, ◌≤◌, ◌<◌, ◌≡◌, refl, Bool, true, false, Bool-cases, inl, inr, Option, none,
  some, List, [], ◌∷◌, Bytes, codes, arith, length, ltb, leb, leb→gt, if◌then◌else◌, ◌==◌, two_63,
  two_64, same_text,
}
use fizzbuzz.GoLib.ParseInt.{
  ParsedInt, parsed, bad_syntax, out_of_range, is_digit, parse_digits, parse_uint, positive,
  negative, parse_int,
}
use fizzbuzz.GoLib.Json.Length.{AllShort}
use fizzbuzz.GoLib.Url.{
  split_at, cut, contains, hex_value, Escape, plain, percent, high, add_byte, unescape_high,
  unescape, Settings, setting, parse_piece, parse_pieces, parse_query,
}
use fizzbuzz.Sequence.Params.{Params}
use fizzbuzz.Sequence.Validate.Accepts.{InRange}
use fizzbuzz.Server.Parse.{got, values, parse_params}
use fizzbuzz.Server.Parse.Reads.{Once, OnceInt, parse_params-Reads}

-- What a parser returns fits 64 bits.
abbrev IsWord : ParsedInt → Type 0
IsWord (parsed n) = n < two_64
IsWord bad_syntax = Unit
IsWord out_of_range = Unit

if-IsWord :
    (b : Bool) (x y : ParsedInt)
    → (b ≡ true → IsWord x)
    → (b ≡ false → IsWord y)
    → IsWord (if b then x else y)
if-IsWord true x y h k = h refl
if-IsWord false x y h k = k refl

parse_digits-IsWord : (n : ℕ) (s : Bytes) → n < two_64 → IsWord (parse_digits n s)
unfolding parse_digits
parse_digits-IsWord n [] h = h
parse_digits-IsWord n (c ∷ s) h =
    let n' = n * 10 + (c - b'0') in
    if-IsWord (is_digit c) _ _
      (λ e. if-IsWord (leb two_64 n') _ _ (λ e. tt) (λ e. parse_digits-IsWord n' s (leb→gt _ _ e)))
      (λ e. tt)

parse_uint-IsWord : (s : Bytes) → IsWord (parse_uint s)
unfolding parse_uint
parse_uint-IsWord [] = tt
parse_uint-IsWord (c ∷ s) = parse_digits-IsWord 0 (c ∷ s) (omega arith)

positive-IsWord : (x : ParsedInt) → IsWord x → IsWord (positive x)
positive-IsWord (parsed n) h = if-IsWord (leb two_63 n) _ _ (λ e. tt) (λ e. h)
positive-IsWord bad_syntax h = tt
positive-IsWord out_of_range h = tt

negative-IsWord : (x : ParsedInt) → IsWord (negative x)
negative-IsWord (parsed n) = if-IsWord (ltb two_63 n) _ _ (λ e. tt) (λ e. omega arith)
negative-IsWord bad_syntax = tt
negative-IsWord out_of_range = tt

parse_int-IsWord : (s : Bytes) → IsWord (parse_int s)
unfolding parse_int
parse_int-IsWord [] = tt
parse_int-IsWord (c ∷ s) =
    if-IsWord (c == b'-') _ _ (λ e. negative-IsWord (parse_uint s))
      (λ e.
        if-IsWord (c == b'+') _ _ (λ e. positive-IsWord _ (parse_uint-IsWord s))
          (λ e. positive-IsWord _ (parse_uint-IsWord (c ∷ s))))

-- A result that is not longer than `n`, if there is one.
abbrev Within : ℕ → Option Bytes → Type 0
Within n none = Unit
Within n (some t) = length t ≤ n

if-Within :
    (n : ℕ) (b : Bool) (x y : Option Bytes)
    → Within n x
    → Within n y
    → Within n (if b then x else y)
if-Within n true x y h k = h
if-Within n false x y h k = k

add_byte-Within : (n c : ℕ) (x : Option Bytes) → Within n x → Within (suc n) (add_byte c x)
add_byte-Within n c none h = tt
add_byte-Within n c (some t) h = omega arith

suc-Within : (n : ℕ) (x : Option Bytes) → Within n x → Within (suc n) x
suc-Within n none h = tt
suc-Within n (some t) h = omega arith

high-Within :
    (n : ℕ) (d : Option ℕ) (f : ℕ → Option Bytes)
    → ((d : ℕ) → Within n (f d))
    → Within n (unescape_high d f)
high-Within n none f h = tt
high-Within n (some d) f h = h d

unescape-Within : (e : Escape) (s : Bytes) → Within (length s) (unescape e s)
unfolding unescape
unescape-Within plain [] = omega arith
unescape-Within percent [] = tt
unescape-Within (high h) [] = tt
unescape-Within plain (c ∷ s) =
    if-Within (suc (length s)) (c == b'%') _ _
      (suc-Within (length s) (unescape percent s) (unescape-Within percent s))
      (add_byte-Within (length s) _ (unescape plain s) (unescape-Within plain s))
unescape-Within percent (c ∷ s) =
    high-Within (suc (length s)) (hex_value c) _
      (λ d. suc-Within (length s) (unescape (high d) s) (unescape-Within (high d) s))
unescape-Within (high h) (c ∷ s) =
    high-Within (suc (length s)) (hex_value c) _
      (λ d. add_byte-Within (length s) (h * 16 + d) (unescape plain s) (unescape-Within plain s))

cut-short : (c : ℕ) (s : Bytes) → length (cut c s).1 ≤ length s
unfolding cut
cut-short c [] = omega arith
cut-short c (x ∷ s) = elim (Bool-cases (x == c)) [
  | inl here ↦ rw here (omega arith)
  | inr later ↦ rw later (omega (arith, cut-short c s))
]

-- The values of the settings, if there are any.
abbrev ValuesShort : ℕ → Settings → Type 0
ValuesShort n [] = Unit
ValuesShort n ((key, value) ∷ q) = (length value ≤ n) × ValuesShort n q

abbrev SettingsShort : ℕ → Option Settings → Type 0
SettingsShort n none = Unit
SettingsShort n (some q) = ValuesShort n q

setting-short :
    (n : ℕ) (key value : Option Bytes) (rest : Option Settings)
    → Within n value
    → SettingsShort n rest
    → SettingsShort n (setting key value rest)
setting-short n none value rest h k = tt
setting-short n (some key) none rest h k = tt
setting-short n (some key) (some value) none h k = tt
setting-short n (some key) (some value) (some q) h k = (h, k)

weaker-Within : (m n : ℕ) (x : Option Bytes) → m ≤ n → Within m x → Within n x
weaker-Within m n none le h = tt
weaker-Within m n (some t) le h = omega arith

parse_piece-short :
    (n : ℕ) (s : Bytes) (rest : Option Settings)
    → length s ≤ n
    → SettingsShort n rest
    → SettingsShort n (parse_piece s rest)
unfolding parse_piece
parse_piece-short n [] rest h k = k
parse_piece-short n (c ∷ s) rest h k =
    let (key, value) = cut b'=' (c ∷ s) in
    elim (Bool-cases (contains b';' (c ∷ s))) [
      | inl bad ↦ rw bad tt
      | inr good ↦
          let within = unescape-Within plain value in
          let shorter = cut-short b'=' (c ∷ s) in
          rw good (
            setting-short n (unescape plain key) (unescape plain value) rest
              (weaker-Within (length value) n (unescape plain value) (omega arith) within) k)
    ]

parse_pieces-short :
    (n : ℕ) (pieces : List Bytes) → AllShort n pieces → SettingsShort n (parse_pieces pieces)
unfolding parse_pieces
parse_pieces-short n [] h = tt
parse_pieces-short n (s ∷ pieces) (h, hs) =
    parse_piece-short n s (parse_pieces pieces) h (parse_pieces-short n pieces hs)

suc-AllShort : (n : ℕ) (ss : List Bytes) → AllShort n ss → AllShort (suc n) ss
suc-AllShort n [] h = tt
suc-AllShort n (s ∷ ss) (h, hs) = (omega arith, suc-AllShort n ss hs)

split_at-short : (c : ℕ) (s : Bytes) → AllShort (length s) (split_at c s)
unfolding split_at
split_at-short c [] = (omega arith, tt)
split_at-short c (x ∷ s) = go (split_at c s) (split_at-short c s)
  where
    go :
        (pieces : List Bytes)
        → AllShort (length s) pieces
        → AllShort (suc (length s)) (elim pieces [
          | [] ↦ [] ∷ []
          | piece ∷ pieces ↦ if x == c then [] ∷ piece ∷ pieces else (x ∷ piece) ∷ pieces
        ])
    go [] h = (omega arith, tt)
    go (piece ∷ pieces) (h, hs) = elim (Bool-cases (x == c)) [
      | inl here ↦ rw here (omega arith, (omega arith, suc-AllShort (length s) pieces hs))
      | inr later ↦ rw later (omega arith, suc-AllShort (length s) pieces hs)
    ]

values-short : (n : ℕ) (name : Bytes) (q : Settings) → ValuesShort n q → AllShort n (values name q)
unfolding values
values-short n name [] h = tt
values-short n name ((key, value) ∷ q) (h, hs) = elim (Bool-cases (same_text key name)) [
  | inl here ↦ rw here (h, values-short n name q hs)
  | inr other ↦ rw other (values-short n name q hs)
]

Once-short :
    (n : ℕ) (q : Settings) (name v : Bytes) → ValuesShort n q → Once q name v → length v ≤ n
Once-short n q name v h e = (subst (AllShort n) e (values-short n name q h)).0

OnceInt-word : (q : Settings) (name : Bytes) (n : ℕ) → OnceInt q name n → n < two_64
OnceInt-word q name n (v, once, e) = subst IsWord e (parse_int-IsWord v)

-- The parameters of a query that fits in memory.
pub parse_params-InRange :
    (raw : Bytes) (p : Params) → length raw < two_63 → parse_params raw ≡ got p → InRange p
unfolding parse_query
parse_params-InRange raw p h e =
    let (q, eq, (i, j, l, s, t)) = (parse_params-Reads raw p).0 e in
    let short : ValuesShort (length raw) q =
      subst (SettingsShort (length raw)) eq
        (parse_pieces-short (length raw) (split_at b'&' raw) (split_at-short b'&' raw)) in
    record {
      int1_word = OnceInt-word q (codes "int1") p.int1 i;
      int2_word = OnceInt-word q (codes "int2") p.int2 j;
      limit_word = OnceInt-word q (codes "limit") p.limit l;
      str1_fits = omega (arith, Once-short (length raw) q (codes "str1") p.str1 short s);
      str2_fits = omega (arith, Once-short (length raw) q (codes "str2") p.str2 short t);
    }
