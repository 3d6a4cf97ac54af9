-- ===== src/Sequence/Size.antt =====
-- internal/fizzbuzz/size.go: `plan`, `newPlan`, `rangeBytes` and `JSONSize`. The fields of a plan are
-- validated, so they are below 2 ^ 63; the sums and products of sizes wrap around at 2 ^ 64.
pub mod Count
pub mod Bands
pub mod Exact
pub mod Limit
use fizzbuzz.Prelude.{
  not, ℕ, zero, suc, ◌+◌, ◌-◌, ◌*◌, ◌/◌, min, max, List, [], ◌∷◌, Bytes, ltb, leb, ◌==◌,
  if◌then◌else◌, length, take, drop, ◌+w◌, ◌-w◌, ◌*w◌, max_int, lt_int,
}
use fizzbuzz.Sequence.Params.{Params}
use fizzbuzz.Sequence.Element.{append_elem}
use fizzbuzz.Sequence.Divisor.{lcm_capped, multiples}

pub record Plan : Type 0 where
  pub a : ℕ
  pub b : ℕ
  pub n : ℕ
  pub l : ℕ
  pub e1 : Bytes
  pub e2 : Bytes
  pub e12 : Bytes

-- The three replacements share one buffer; `buf[i:j]` is `take (j - i) (drop i buf)`.
unfoldable pub new_plan : Params → Plan
new_plan p =
    let buf1 = append_elem [] (p.str1 ∷ []) in
    let i1 = length buf1 in
    let buf2 = append_elem buf1 (p.str2 ∷ []) in
    let i2 = length buf2 in
    let buf = append_elem buf2 (p.str1 ∷ p.str2 ∷ []) in
    record {
      a = p.int1;
      b = p.int2;
      n = p.limit;
      l = lcm_capped p.int1 p.int2 p.limit;
      e1 = take i1 buf;
      e2 = take (i2 - i1) (drop i1 buf);
      e12 = drop i2 buf;
    }

-- The multiples of `m` in [lo, hi], for 1 ≤ lo.
unfoldable pub multiples_in : ℕ → ℕ → ℕ → ℕ
multiples_in lo hi m = multiples hi m -w multiples (lo - 1) m

-- The plain numbers in [x, y], by inclusion and exclusion.
unfoldable pub plain_in : Plan → ℕ → ℕ → ℕ
plain_in pl x y =
    (((y - x + 1) -w multiples_in x y pl.a) -w multiples_in x y pl.b) +w multiples_in x y pl.l

unfoldable pub band_end : ℕ → ℕ
band_end band_lo = if leb band_lo (max_int / 10) then band_lo * 10 - 1 else max_int

-- The body of the loop over the decimal bands.
unfoldable pub add_band : Plan → ℕ → ℕ → ℕ → ℕ → ℕ → ℕ
add_band pl lo hi d band_lo total =
    let x = max lo band_lo in
    let y = min hi (band_end band_lo) in
    if leb x y then total +w (plain_in pl x y *w (d + 3)) else total

-- `for d := 1; bandLo <= hi; d++`; 19 rounds reach the band that ends at math.MaxInt.
unfoldable pub band_loop : ℕ → Plan → ℕ → ℕ → ℕ → ℕ → ℕ → ℕ
band_loop zero pl lo hi d band_lo total = total
band_loop (suc fuel) pl lo hi d band_lo total =
    let total' = add_band pl lo hi d band_lo total in
    let rest = band_loop fuel pl lo hi (d + 1) (band_end band_lo + 1) total' in
    if ltb hi band_lo then total else if band_end band_lo == max_int then total' else rest

-- The replacements among the elements lo..hi.
unfoldable pub replacement_bytes : Plan → ℕ → ℕ → ℕ
replacement_bytes pl lo hi =
    let c1 = multiples_in lo hi pl.a in
    let c2 = multiples_in lo hi pl.b in
    let c12 = multiples_in lo hi pl.l in
    ((c1 -w c12) *w length pl.e1) +w ((c2 -w c12) *w length pl.e2) +w (c12 *w length pl.e12)

unfoldable pub range_bytes : Plan → ℕ → ℕ → ℕ
range_bytes pl lo hi =
    if ltb hi lo then 0 else band_loop 19 pl lo hi 1 1 (replacement_bytes pl lo hi)

unfoldable pub json_size : Params → ℕ
json_size p = if not (lt_int 0 p.limit) then 2 else range_bytes (new_plan p) 1 p.limit +w 1
