-- ===== src/Event/Number.antt =====
-- `representableNumber` of internal/event/jsonb.go, and what it calls of strings and strconv.
pub mod Powers
pub mod Value
pub mod Exponent
pub mod Reading
use ingestkit.Prelude.{
  ℕ, zero, suc, ◌+◌, ◌-◌, ◌*◌, ◌≡◌, refl, Bool, true, false, not, ◌&&◌, ◌||◌, Option, none, some,
  List, [], ◌∷◌, Bytes, ℤ, pos, negsuc, pos_part, neg_part, sub_ℕ, ◌+ℤ◌, ◌-ℤ◌, leb_ℤ, leb, ltb,
  ◌==◌, length, if◌then◌else◌, codes, take, drop,
}

unfoldable pub trim_minus : Bytes → Bytes
trim_minus [] = []
trim_minus (c ∷ s) = if c == b'-' then s else c ∷ s

abbrev pub is_exponent : ℕ → Bool
is_exponent c = (c == b'e') || (c == b'E')

-- The text before the first byte that the test accepts, and the text behind that byte.
unfoldable pub split_at : (ℕ → Bool) → Bytes → Bytes × Option Bytes
split_at p [] = ([], none)
split_at p (c ∷ s) =
    let (before, after) = split_at p s in if p c then ([], some s) else (c ∷ before, after)

abbrev pub is_point : ℕ → Bool
is_point c = c == b'.'

abbrev pub is_digit : ℕ → Bool
is_digit c = leb b'0' c && leb c b'9'

unfoldable pub digits_from : ℕ → Bytes → Option ℕ
digits_from n [] = some n
digits_from n (c ∷ s) =
    let rest = digits_from (n * 10 + (c - b'0')) s in if is_digit c then rest else none

unfoldable pub digits : Bytes → Option ℕ
unfolding digits_from
digits [] = none
digits (c ∷ s) = digits_from 0 (c ∷ s)

-- strconv.ParseInt(s, 10, 32)
unfoldable pub parse_int32 : Bytes → Option ℤ
unfolding digits
parse_int32 [] = none
parse_int32 (c ∷ s) =
    if c == b'-'
    then elim (digits s) [
      | none ↦ none
      | some n ↦ if leb n 0x8000_0000 then some (sub_ℕ 0 n) else none
    ]
    else elim (digits (if c == b'+' then s else c ∷ s)) [
      | none ↦ none
      | some n ↦ if ltb n 0x8000_0000 then some (pos n) else none
    ]

-- strings.ReplaceAll(s, ".", "")
unfoldable pub without_points : Bytes → Bytes
without_points [] = []
without_points (c ∷ s) = let rest = without_points s in if is_point c then rest else c ∷ rest

-- How many bytes strings.TrimLeft(s, "0") takes away.
unfoldable pub leading_zeros : Bytes → ℕ
leading_zeros [] = 0
leading_zeros (c ∷ s) = let n = leading_zeros s in if c == b'0' then suc n else 0

-- The part of the function behind the exponent: `s` is the mantissa.
unfoldable pub fits : Bytes → ℤ → Bool
fits s exponent =
    if not (leb_ℤ exponent (pos (131_072 + length s)))
      || not (leb_ℤ (sub_ℕ 0 (16_383 + length s)) exponent)
    then false
    else let (before, after) = split_at is_point s in
      let fraction : ℕ = elim after [ none ↦ 0 | some f ↦ length f ] in
      let all = without_points s in
      let leading = leading_zeros all in
      let whole =
        if leading == length all then pos 0 else pos (length before) +ℤ exponent -ℤ pos leading in
      let scale = pos fraction -ℤ exponent in leb_ℤ whole (pos 131_072) && leb_ℤ scale (pos 16_383)

unfoldable pub representable_number : Bytes → Bool
unfolding trim_minus split_at parse_int32 fits without_points leading_zeros
representable_number text =
    let (mantissa, after) = split_at is_exponent (trim_minus text) in
    elim after [
      | none ↦ fits mantissa (pos 0)
      | some digits ↦ elim (parse_int32 digits) [ none ↦ false | some e ↦ fits mantissa e ]
    ]
