-- ===== src/Server/Parse/Reads.antt =====
-- What `parse_params` reads.
use mathlib.Core.Path.{subst}
use fizzbuzz.Prelude.{ℕ, ◌≡◌, ◌↔◌, refl, ap, ◌∙◌, Option, none, some, List, [], ◌∷◌, Bytes, codes}
use fizzbuzz.GoLib.ParseInt.{ParsedInt, parsed, bad_syntax, out_of_range, parse_int}
use fizzbuzz.GoLib.Url.{Settings, parse_query}
use fizzbuzz.Sequence.Params.{Params}
use fizzbuzz.Server.Parse.{
  Parsed, refused, got, and_then, values, only_value, get, int_result, get_int, params_of,
  params_of_query, parse_params,
}

-- A name has the text as its only value.
abbrev pub Once : Settings → Bytes → Bytes → Type 0
Once q name v = values name q ≡ v ∷ []

-- A name has as its only value a text that is read as the number.
abbrev pub OnceInt : Settings → Bytes → ℕ → Type 0
OnceInt q name n = (v : Bytes) × (Once q name v) × (parse_int v ≡ parsed n)

abbrev pub Reads : Settings → Params → Type 0
Reads q p =
    (OnceInt q (codes "int1") p.int1)
    × (OnceInt q (codes "int2") p.int2)
    × (OnceInt q (codes "limit") p.limit)
    × (Once q (codes "str1") p.str1)
    × (Once q (codes "str2") p.str2)

value_of : Bytes → Parsed Bytes → Bytes
value_of d (got v) = v
value_of d (refused e) = d

number_of : ℕ → Parsed ℕ → ℕ
number_of d (got n) = n
number_of d (refused e) = d

only_value-Once : (name v : Bytes) (vs : List Bytes) → only_value name vs ≡ got v → vs ≡ v ∷ []
unfolding value_of
only_value-Once name v [] e = absurd (cc e)
only_value-Once name v (w ∷ []) e = ap (λ x. value_of [] x ∷ []) e
only_value-Once name v (w ∷ x ∷ vs) e = absurd (cc e)

get-Once : (q : Settings) (name v : Bytes) → get q name ≡ got v → Once q name v
unfolding get
get-Once q name v e = only_value-Once name v (values name q) e

pub Once-get : (q : Settings) (name v : Bytes) → Once q name v → get q name ≡ got v
unfolding get
Once-get q name v e = ap (only_value name) e

int_result-parsed :
    (name : Bytes) (n : ℕ) (x : ParsedInt) → int_result name x ≡ got n → x ≡ parsed n
unfolding number_of
int_result-parsed name n (parsed m) e = ap (λ y. parsed (number_of 0 y)) e
int_result-parsed name n out_of_range e = absurd (cc e)
int_result-parsed name n bad_syntax e = absurd (cc e)

get_int-OnceInt : (q : Settings) (name : Bytes) (n : ℕ) → get_int q name ≡ got n → OnceInt q name n
unfolding get_int
get_int-OnceInt q name n e = go (get q name) refl e
  where
    go :
        (x : Parsed Bytes)
        → get q name ≡ x
        → and_then x (λ v. int_result name (parse_int v)) ≡ got n
        → OnceInt q name n
    go (refused y) h e = absurd (cc e)
    go (got v) h e = (v, get-Once q name v h, int_result-parsed name n (parse_int v) e)

pub OnceInt-get_int :
    (q : Settings) (name : Bytes) (n : ℕ) → OnceInt q name n → get_int q name ≡ got n
unfolding get_int
OnceInt-get_int q name n (v, once, e) = rw (Once-get q name v once) (ap (int_result name) e)

and_then-got :
    {A B : Type 0} (x : Parsed A) (f : A → Parsed B) (b : B)
    → and_then x f ≡ got b
    → (a : A) × (x ≡ got a) × (f a ≡ got b)
and_then-got (refused y) f b e = absurd (cc e)
and_then-got (got a) f b e = (a, refl, e)

params_at : Params → Parsed Params → Params
params_at d (got p) = p
params_at d (refused e) = d

params_of-Reads : (q : Settings) (p : Params) → params_of q ≡ got p → Reads q p
unfolding params_of params_at
params_of-Reads q p e =
    let (i, ei, e1) = and_then-got (get_int q (codes "int1")) _ p e in
    let (j, ej, e2) = and_then-got (get_int q (codes "int2")) _ p e1 in
    let (l, el, e3) = and_then-got (get_int q (codes "limit")) _ p e2 in
    let (s, es, e4) = and_then-got (get q (codes "str1")) _ p e3 in
    let (t, et, e5) = and_then-got (get q (codes "str2")) _ p e4 in
    let whole : record { int1 = i; int2 = j; limit = l; str1 = s; str2 = t } ≡ p =
      ap (params_at p) e5 in
    subst (Reads q) whole (
      get_int-OnceInt q (codes "int1") i ei,
      get_int-OnceInt q (codes "int2") j ej,
      get_int-OnceInt q (codes "limit") l el,
      get-Once q (codes "str1") s es,
      get-Once q (codes "str2") t et,
    )

pub Reads-params_of : (q : Settings) (p : Params) → Reads q p → params_of q ≡ got p
unfolding params_of
Reads-params_of q p (i, j, l, s, t) =
    rw
      (
        OnceInt-get_int q (codes "int1") p.int1 i,
        OnceInt-get_int q (codes "int2") p.int2 j,
        OnceInt-get_int q (codes "limit") p.limit l,
        Once-get q (codes "str1") p.str1 s,
        Once-get q (codes "str2") p.str2 t,
      )
      refl

-- A query is read as parameters just if it is well formed and each of the five names has one value
-- there, which for a number reads as that number; other names do not matter.
pub parse_params-Reads :
    (raw : Bytes) (p : Params)
    → (parse_params raw ≡ got p) ↔ ((q : Settings) × (parse_query raw ≡ some q) × Reads q p)
unfolding parse_params
parse_params-Reads raw p =
    (go (parse_query raw) refl, λ (q, e, r). ap params_of_query e ∙ Reads-params_of q p r)
  where
    go :
        (x : Option Settings)
        → parse_query raw ≡ x
        → params_of_query x ≡ got p
        → (q : Settings) × (parse_query raw ≡ some q) × Reads q p
    go none h e = absurd (cc e)
    go (some q) h e = (q, h, params_of-Reads q p e)
