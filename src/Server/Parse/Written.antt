-- ===== src/Server/Parse/Written.antt =====
-- Queries that a client writes.
use fizzbuzz.Prelude.{
  ℕ, suc, ◌+◌, ◌-◌, ◌<◌, ◌≡◌, ◌≢◌, refl, ap, ◌∙◌, false, Bool-cases, inl, inr, some, [], ◌∷◌, ◌++◌,
  Bytes, codes, same_text, arith, two_64, is_neg, ◌==◌,
}
use fizzbuzz.GoLib.Decimal.{format, format_int}
use fizzbuzz.GoLib.ParseInt.{format_digits, parse_int-format_int}
use fizzbuzz.GoLib.Url.{
  cut, contains, unescape, plain, Settings, parse_piece, parse_pieces, parse_query, Without,
  cut-append, contains-append, split_at-none, split_at-append,
}
use fizzbuzz.Sequence.Params.{Params}
use fizzbuzz.Server.Parse.{got, values, params_of_query, parse_params}
use fizzbuzz.Server.Parse.Reads.{Reads, Reads-params_of}

-- A form of a text for a query: what `QueryUnescape` takes back to it, with no separator in it.
abbrev pub Encodes : Bytes → Bytes → Type 0
Encodes e text = (unescape plain e ≡ some text) × (Without b'&' e) × (Without b';' e)

-- A text with nothing to escape.
abbrev AllPlain : Bytes → Type 0
AllPlain s = (Without b'%' s) × (Without b'+' s) × (Without b'&' s) × (Without b';' s)

unescape-plain : (s : Bytes) → Without b'%' s → Without b'+' s → unescape plain s ≡ some s
unfolding unescape contains
unescape-plain [] p a = refl
unescape-plain (c ∷ s) p a =
    let rest : unescape plain s ≡ some s =
      unescape-plain s (ground (arith, p)) (ground (arith, a)) in
    let no_percent : (c == b'%') ≡ false = ground (arith, p) in
    let no_plus : (c == b'+') ≡ false = ground (arith, a) in rw (rest, no_percent, no_plus) refl

digit-AllPlain : (d : ℕ) → d < 10 → AllPlain ((b'0' + d) ∷ [])
unfolding contains
digit-AllPlain d h = (ground arith, ground arith, ground arith, ground arith)

format-AllPlain : (v : ℕ) → AllPlain (format v)
format-AllPlain v =
    format_digits {P = AllPlain} digit-AllPlain
      (λ s d h (a, b, c, e).
        let (a', b', c', e') = digit-AllPlain d h in
        (
          contains-append b'%' s ((b'0' + d) ∷ []) a a',
          contains-append b'+' s ((b'0' + d) ∷ []) b b',
          contains-append b'&' s ((b'0' + d) ∷ []) c c',
          contains-append b';' s ((b'0' + d) ∷ []) e e',
        ))
      (suc v) v (omega arith)

format_int-AllPlain : (w : ℕ) → AllPlain (format_int w)
unfolding format_int contains
format_int-AllPlain w = elim (Bool-cases (is_neg w)) [
  | inl minus ↦ rw minus (format-AllPlain (18446744073709551616 - w))
  | inr plus ↦ rw plus (format-AllPlain w)
]

format_int-Encodes : (w : ℕ) → Encodes (format_int w) (format_int w)
format_int-Encodes w =
    let (a, b, c, d) = format_int-AllPlain w in (unescape-plain (format_int w) a b, c, d)

piece_lem :
    (s : Bytes) (key value : Bytes) (q : Settings) (k v : Bytes)
    → s ≢ []
    → cut b'=' s ≡ (key, value)
    → Without b';' s
    → unescape plain key ≡ some k
    → unescape plain value ≡ some v
    → parse_piece s (some q) ≡ some ((k, v) ∷ q)
unfolding parse_piece
piece_lem [] key value q k v ne e w ek ev = absurd (ne refl)
piece_lem (c ∷ s) key value q k v ne e w ek ev = rw (e, w, ek, ev) refl

pub parse_piece-written :
    (key e text : Bytes) (q : Settings)
    → AllPlain key
    → Without b'=' key
    → Encodes e text
    → parse_piece (key ++ b'=' ∷ e) (some q) ≡ some ((key, text) ∷ q)
unfolding contains
parse_piece-written key e text q (p, a, m, n) w (ee, em, en) =
    piece_lem (key ++ b'=' ∷ e) key e q key text (nonempty key) (cut-append b'=' key e w)
      (contains-append b';' key (b'=' ∷ e) n en) (unescape-plain key p a) ee
  where
    nonempty : (key : Bytes) → key ++ b'=' ∷ e ≢ []
    nonempty [] y = cc y
    nonempty (c ∷ key) y = cc y

written-Without :
    (key e : Bytes) → Without b'&' key → Without b'&' e → Without b'&' (key ++ b'=' ∷ e)
unfolding contains
written-Without key e h k = contains-append b'&' key (b'=' ∷ e) h k

-- A setting in front of others.
parse_query-written :
    (key e text rest : Bytes) (q : Settings)
    → AllPlain key
    → Without b'=' key
    → Encodes e text
    → parse_query rest ≡ some q
    → parse_query ((key ++ b'=' ∷ e) ++ b'&' ∷ rest) ≡ some ((key, text) ∷ q)
unfolding parse_query parse_pieces
parse_query-written key e text rest q k w enc h =
    ap parse_pieces (split_at-append b'&' (key ++ b'=' ∷ e) rest (written-Without key e k.2 enc.1))
    ∙ ap (parse_piece (key ++ b'=' ∷ e)) h
    ∙ parse_piece-written key e text q k w enc

parse_query_last :
    (key e text : Bytes)
    → AllPlain key
    → Without b'=' key
    → Encodes e text
    → parse_query (key ++ b'=' ∷ e) ≡ some ((key, text) ∷ [])
unfolding parse_query parse_pieces
parse_query_last key e text k w enc =
    ap parse_pieces (split_at-none b'&' (key ++ b'=' ∷ e) (written-Without key e k.2 enc.1))
    ∙ parse_piece-written key e text [] k w enc

abbrev pub field : Bytes → Bytes → Bytes
field key e = key ++ b'=' ∷ e

-- The parameters as a query, with forms of the strings.
unfoldable pub query_text : Params → Bytes → Bytes → Bytes
query_text p e1 e2 =
    field (codes "int1") (format_int p.int1)
    ++ b'&'
      ∷ (field (codes "int2") (format_int p.int2)
          ++ b'&'
            ∷ (field (codes "limit") (format_int p.limit)
                ++ b'&' ∷ (field (codes "str1") e1 ++ b'&' ∷ field (codes "str2") e2)))

abbrev settings_of : Params → Settings
settings_of p =
    (codes "int1", format_int p.int1)
    ∷ (codes "int2", format_int p.int2)
    ∷ (codes "limit", format_int p.limit)
    ∷ (codes "str1", p.str1)
    ∷ (codes "str2", p.str2)
    ∷ []

parse_query-query_text :
    (p : Params) (e1 e2 : Bytes)
    → Encodes e1 p.str1
    → Encodes e2 p.str2
    → parse_query (query_text p e1 e2) ≡ some (settings_of p)
unfolding query_text contains
parse_query-query_text p e1 e2 enc1 enc2 =
    let key : AllPlain [] = (refl, refl, refl, refl) in
    parse_query-written (codes "int1") (format_int p.int1) _ _ _ key refl
      (format_int-Encodes p.int1)
      (parse_query-written (codes "int2") (format_int p.int2) _ _ _ key refl
        (format_int-Encodes p.int2)
        (parse_query-written (codes "limit") (format_int p.limit) _ _ _ key refl
          (format_int-Encodes p.limit)
          (parse_query-written (codes "str1") e1 _ _ _ key refl enc1
            (parse_query_last (codes "str2") e2 _ key refl enc2))))

settings_of-Reads :
    (p : Params) → p.int1 < two_64 → p.int2 < two_64 → p.limit < two_64 → Reads (settings_of p) p
unfolding values same_text
settings_of-Reads p i j l = (
  (format_int p.int1, refl, parse_int-format_int p.int1 i),
  (format_int p.int2, refl, parse_int-format_int p.int2 j),
  (format_int p.limit, refl, parse_int-format_int p.limit l),
  refl,
  refl,
)

-- The parameters in a query are read back: 64-bit numbers in decimal, and any forms of the strings that
-- `QueryUnescape` takes back to them and that have no '&' and no ';' in them.
pub parse_params-query_text :
    (p : Params) (e1 e2 : Bytes)
    → p.int1 < two_64
    → p.int2 < two_64
    → p.limit < two_64
    → Encodes e1 p.str1
    → Encodes e2 p.str2
    → parse_params (query_text p e1 e2) ≡ got p
unfolding parse_params
parse_params-query_text p e1 e2 i j l enc1 enc2 =
    ap params_of_query (parse_query-query_text p e1 e2 enc1 enc2)
    ∙ Reads-params_of (settings_of p) p (settings_of-Reads p i j l)
