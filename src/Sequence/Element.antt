-- ===== src/Sequence/Element.antt =====
-- internal/fizzbuzz/size.go: `appendElem`, and what it appends.
use fizzbuzz.Prelude.{
  ℕ, ◌≡◌, refl, Bool, true, false, ◌||◌, not, List, [], ◌∷◌, ◌++◌, append_assoc, append-nil, arith,
  Bytes, ltb, ◌==◌, if◌then◌else◌, Bool-cases, inl, inr,
}
use fizzbuzz.GoLib.Json.{marshal, marshal-plain, AllPlain, AllPlain-append}

-- The test in the loop over the bytes: must the byte be left to encoding/json?
is_special : ℕ → Bool
is_special c =
    ltb c 0x20 || ltb 0x7e c || c == b'"' || c == b'\\' || c == b'<' || c == b'>' || c == b'&'

-- The loop over the bytes of one part, with the flag `plain`.
scan_part : Bytes → Bool → Bool
scan_part [] plain = plain
scan_part (c ∷ s) plain = scan_part s (if is_special c then false else plain)

scan_parts : List Bytes → Bool → Bool
scan_parts [] plain = plain
scan_parts (s ∷ parts) plain = scan_parts parts (scan_part s plain)

-- strings.Join(parts, "")
unfoldable pub join : List Bytes → Bytes
join [] = []
join (s ∷ parts) = s ++ join parts

-- `for _, s := range parts { dst = append(dst, s...) }`
append_parts : Bytes → List Bytes → Bytes
append_parts dst [] = dst
append_parts dst (s ∷ parts) = append_parts (dst ++ s) parts

unfoldable pub append_elem : Bytes → List Bytes → Bytes
unfolding is_special scan_part scan_parts append_parts
append_elem dst parts =
    let comma = dst ++ b',' ∷ [] in
    if not (scan_parts parts true)
    then comma ++ marshal (join parts)
    else append_parts (comma ++ b'"' ∷ []) parts ++ b'"' ∷ []

append_parts-join : (parts : List Bytes) (dst : Bytes) → append_parts dst parts ≡ dst ++ join parts
unfolding append_parts join
append_parts-join [] dst = rw append-nil
append_parts-join (s ∷ parts) dst = rw (append_parts-join parts (dst ++ s), append_assoc)

scan_part-false : (s : Bytes) → scan_part s false ≡ false
unfolding scan_part
scan_part-false [] = refl
scan_part-false (c ∷ s) = ground (arith, scan_part-false s)

scan_parts-false : (parts : List Bytes) → scan_parts parts false ≡ false
unfolding scan_parts
scan_parts-false [] = refl
scan_parts-false (s ∷ parts) = rw (scan_part-false s, scan_parts-false parts)

scan_part-AllPlain : (s : Bytes) → scan_part s true ≡ true → AllPlain s
unfolding scan_part is_special
scan_part-AllPlain [] h = tt
scan_part-AllPlain (c ∷ s) h = ground (arith, scan_part-AllPlain s, scan_part-false s)

scan_parts-AllPlain : (parts : List Bytes) → scan_parts parts true ≡ true → AllPlain (join parts)
unfolding scan_parts join
scan_parts-AllPlain [] h = tt
scan_parts-AllPlain (s ∷ parts) h = elim (Bool-cases (scan_part s true)) [
  | inl yes_plain ↦
      AllPlain-append s (join parts) (scan_part-AllPlain s yes_plain)
        (scan_parts-AllPlain parts (rw yes_plain at h))
  | inr special ↦
      let e : scan_parts parts false ≡ true = rw special at h in cc (e, scan_parts-false parts)
]

-- Whether or not the fast path is taken, a comma and the JSON encoding of the joined parts are
-- appended.
pub append_elem-marshal :
    (dst : Bytes) (parts : List Bytes)
    → append_elem dst parts ≡ dst ++ (b',' ∷ marshal (join parts))
unfolding append_elem
append_elem-marshal dst parts = elim (Bool-cases (scan_parts parts true)) [
  | inl plain ↦
      rw (plain, append_parts-join, marshal-plain (join parts) (scan_parts-AllPlain parts plain))
        (simp (append_assoc))
  | inr special ↦ rw (special, append_assoc)
]
