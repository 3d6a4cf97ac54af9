-- ===== src/GoLib/Json.antt =====
-- `json.Marshal` of a string and of a slice of strings, with the escapes of encoding/json: the
-- control bytes, the quote, the backslash, the HTML bytes < > &, U+2028 and U+2029, and a
-- replacement character for a byte that is no UTF-8.
pub mod Numbers
pub mod Length
use fizzbuzz.Prelude.{
  ℕ, zero, suc, ◌+◌, ◌-◌, ◌/◌, ◌%◌, ◌≡◌, refl, Bool, false, ◌&&◌, ◌||◌, List, [], ◌∷◌, ◌++◌, arith,
  Bytes, codes, ltb, ◌==◌, if◌then◌else◌,
}
use fizzbuzz.GoLib.Utf8.{rune_size}

hex_digit : ℕ → ℕ
hex_digit d = if ltb d 10 then b'0' + d else 87 + d

unicode_escape : ℕ → Bytes
unfolding hex_digit
unicode_escape c = codes "\\u00" ++ hex_digit (c / 16) ∷ hex_digit (c % 16) ∷ []

-- One byte below 0x80.
escape_ascii : ℕ → Bytes
unfolding unicode_escape
escape_ascii c =
    if c == b'"' || c == b'\\'
    then b'\\' ∷ c ∷ []
    else if c == 8
    then codes "\\b"
    else if c == 12
    then codes "\\f"
    else if c == 10
    then codes "\\n"
    else if c == 13
    then codes "\\r"
    else if c == 9
    then codes "\\t"
    else if ltb c 0x20 || c == b'<' || c == b'>' || c == b'&'
    then unicode_escape c
    else c ∷ []

is_line_separator : ℕ → Bytes → Bool
is_line_separator c (d ∷ e ∷ s) = c == 0xe2 && d == 0x80 && (e == 0xa8 || e == 0xa9)
is_line_separator c _ = false

separator_escape : Bytes → Bytes
separator_escape (d ∷ e ∷ s) = codes "\\u202" ++ (if e == 0xa8 then b'8' else b'9') ∷ []
separator_escape _ = []

-- What is written for the rune at the head, and how many of the next bytes are copied or skipped.
pub record Rune : Type 0 where
  pub out : Bytes
  pub copied : ℕ
  pub skipped : ℕ

escape_rune : ℕ → Bytes → Rune
unfolding escape_ascii is_line_separator separator_escape
escape_rune c s =
    if ltb c 0x80
    then record { out = escape_ascii c; copied = 0; skipped = 0 }
    else if rune_size c s == 0
    then record { out = codes "\\ufffd"; copied = 0; skipped = 0 }
    else if is_line_separator c s
    then record { out = separator_escape s; copied = 0; skipped = 2 }
    else record { out = c ∷ []; copied = rune_size c s - 1; skipped = 0 }

escape_from : ℕ → ℕ → Bytes → Bytes
unfolding escape_rune
escape_from copied skipped [] = []
escape_from (suc n) skipped (c ∷ s) = c ∷ escape_from n skipped s
escape_from zero (suc n) (c ∷ s) = escape_from zero n s
escape_from zero zero (c ∷ s) = let r = escape_rune c s in r.out ++ escape_from r.copied r.skipped s

unfoldable pub marshal : Bytes → Bytes
unfolding escape_from
marshal s = b'"' ∷ escape_from 0 0 s ++ b'"' ∷ []

-- The elements of an array behind a comma each.
unfoldable pub marshal_rest : List Bytes → Bytes
marshal_rest [] = []
marshal_rest (s ∷ ss) = b',' ∷ marshal s ++ marshal_rest ss

-- `json.Marshal` of a []string.
unfoldable pub marshal_strings : List Bytes → Bytes
unfolding marshal_rest
marshal_strings [] = codes "[]"
marshal_strings (s ∷ ss) = b'[' ∷ marshal s ++ marshal_rest ss ++ b']' ∷ []

abbrev pub IsPlain : ℕ → Type 0
IsPlain c =
    (ltb c 0x20 ≡ false)
    × (ltb 0x7e c ≡ false)
    × ((c == b'"') ≡ false)
    × ((c == b'\\') ≡ false)
    × ((c == b'<') ≡ false)
    × ((c == b'>') ≡ false)
    × ((c == b'&') ≡ false)

abbrev pub AllPlain : Bytes → Type 0
AllPlain [] = Unit
AllPlain (c ∷ s) = IsPlain c × AllPlain s

escape_plain :
    (c : ℕ) (s : Bytes)
    → IsPlain c
    → escape_rune c s ≡ record { out = c ∷ []; copied = 0; skipped = 0 }
unfolding escape_rune
escape_plain c s h = ground arith

escape_from-plain : (s : Bytes) → AllPlain s → escape_from 0 0 s ≡ s
unfolding escape_from
escape_from-plain [] h = refl
escape_from-plain (c ∷ s) h = rw (escape_plain c s h.0, escape_from-plain s h.1) refl

pub AllPlain-append : (s t : Bytes) → AllPlain s → AllPlain t → AllPlain (s ++ t)
AllPlain-append [] t p q = q
AllPlain-append (c ∷ s) t p q = (p.0, AllPlain-append s t p.1 q)

-- Plain printable text is quoted as it stands.
pub marshal-plain : (s : Bytes) → AllPlain s → marshal s ≡ b'"' ∷ s ++ b'"' ∷ []
unfolding marshal
marshal-plain s h = rw (escape_from-plain s h) refl

marshal_runs : marshal (codes "a<\"\n") ≡ codes "\"a\\u003c\\\"\\n\""
unfolding marshal rune_size
marshal_runs = refl

marshal_separator : marshal (0xe2 ∷ 0x80 ∷ 0xa8 ∷ b'x' ∷ []) ≡ codes "\"\\u2028x\""
unfolding marshal rune_size
marshal_separator = refl

marshal_invalid : marshal (0xff ∷ 0xc3 ∷ 0xa9 ∷ []) ≡ codes "\"\\ufffd" ++ 0xc3 ∷ 0xa9 ∷ b'"' ∷ []
unfolding marshal rune_size
marshal_invalid = refl
