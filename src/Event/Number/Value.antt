-- ===== src/Event/Number/Value.antt =====
-- What `representableNumber` accepts, said of the value of the number.
use ingestkit.Prelude.{
  ℕ, ◌+◌, ◌*◌, ◌≤◌, ◌<◌, ◌≡◌, refl, ◌↔◌, ◌⊎◌, Bool, true, false, not, ◌&&◌, ◌||◌, Option, none,
  some, [], ◌∷◌, ◌++◌, Bytes, ℤ, pos, pos_part, neg_part, sub_ℕ, ◌+ℤ◌, ◌-ℤ◌, ◌≤ℤ◌, leb_ℤ, +ℤ_parts,
  -ℤ_parts, length, length-append, arith, ◌==◌, All, All-append, if◌then◌else◌, append-nil,
}
use ingestkit.Event.Number.{split_at, is_point, without_points, leading_zeros, fits}
use ingestkit.Event.Number.Powers.{
  pow10, IsDigit, decimal, significant, significant-add-leading_zeros, decimal-mul-lt,
}

-- The digits behind the point, if there is one.
abbrev pub fraction : Option Bytes → Bytes
fraction none = []
fraction (some f) = f

-- The text of a mantissa.
abbrev pub mantissa : Bytes → Option Bytes → Bytes
mantissa whole none = whole
mantissa whole (some f) = whole ++ b'.' ∷ f

digit-not-point : (c : ℕ) → IsDigit c → is_point c ≡ false
digit-not-point c d = ground arith

split_at-mantissa :
    (whole : Bytes) (f : Option Bytes)
    → All IsDigit whole
    → split_at is_point (mantissa whole f) ≡ (whole, f)
unfolding split_at
split_at-mantissa [] none d = refl
split_at-mantissa [] (some f) d = refl
split_at-mantissa (c ∷ s) none d = rw (digit-not-point c d.0) (rw (split_at-mantissa s none d.1))
split_at-mantissa (c ∷ s) (some f) d =
    rw (digit-not-point c d.0) (rw (split_at-mantissa s (some f) d.1))

without_points-digits : (s : Bytes) → All IsDigit s → without_points s ≡ s
unfolding without_points
without_points-digits [] d = refl
without_points-digits (c ∷ s) d = rw (digit-not-point c d.0) (rw (without_points-digits s d.1))

without_points-mantissa :
    (whole : Bytes) (f : Option Bytes)
    → All IsDigit whole
    → All IsDigit (fraction f)
    → without_points (mantissa whole f) ≡ whole ++ fraction f
unfolding without_points
without_points-mantissa whole none d e = rw append-nil (without_points-digits whole d)
without_points-mantissa [] (some f) d e = without_points-digits f e
without_points-mantissa (c ∷ s) (some f) d e =
    rw (digit-not-point c d.0) (rw (without_points-mantissa s (some f) d.1 e))

length-mantissa :
    (whole : Bytes) (f : Option Bytes)
    → length whole + length (fraction f) ≤ length (mantissa whole f)
length-mantissa whole none = omega arith
length-mantissa whole (some f) = omega (arith, length-append whole (b'.' ∷ f))

-- The tests of `fits` on the numbers that it reads off the mantissa `s`: its length, the digits
-- before and behind the point, all of them and the zeros that lead them.
abbrev tests : ℕ → ℕ → ℕ → ℕ → ℕ → ℤ → Bool
tests len before behind all leading exponent =
    if not (leb_ℤ exponent (pos (131_072 + len))) || not (leb_ℤ (sub_ℕ 0 (16_383 + len)) exponent)
    then false
    else leb_ℤ (if leading == all then pos 0 else pos before +ℤ exponent -ℤ pos leading)
        (pos 131_072)
      && leb_ℤ (pos behind -ℤ exponent) (pos 16_383)

fits-tests :
    (whole : Bytes) (f : Option Bytes) (e : ℤ)
    → All IsDigit whole
    → All IsDigit (fraction f)
    → fits (mantissa whole f) e
      ≡ tests
          (length (mantissa whole f))
          (length whole)
          (length (fraction f))
          (length (whole ++ fraction f))
          (leading_zeros (whole ++ fraction f))
          e
unfolding fits
fits-tests whole none e d g =
    rw (split_at-mantissa whole none d, without_points-mantissa whole none d g)
fits-tests whole (some f) e d g =
    rw (split_at-mantissa whole (some f) d, without_points-mantissa whole (some f) d g)

tests_iff :
    (len before behind all leading sig : ℕ) (e : ℤ)
    → all ≡ before + behind
    → all ≤ len
    → sig + leading ≡ all
    → (tests len before behind all leading e ≡ true) ↔ (
        ((sig ≡ 0) ⊎ (sig + pos_part e ≤ 131_072 + behind + neg_part e))
        × (behind + neg_part e ≤ 16_383 + pos_part e)
        × (e ≤ℤ pos (131_072 + len)))
tests_iff len before behind all leading sig e h k l = (
  λ t. ground (
    arith,
    +ℤ_parts (pos before) e,
    -ℤ_parts (pos before +ℤ e) (pos leading),
    -ℤ_parts (pos behind) e,
  ),
  λ t. ground (
    arith,
    +ℤ_parts (pos before) e,
    -ℤ_parts (pos before +ℤ e) (pos leading),
    -ℤ_parts (pos behind) e,
  ),
)

-- A number without its sign, given by its digits and its exponent, is accepted exactly if its
-- value (the digits as one number, times 10 to the exponent less the digits behind the point) is
-- below 10 ^ 131072, it has at most 16383 decimals, and the exponent is at most 131072 more than
-- the length of the mantissa.
pub fits_iff :
    (whole : Bytes) (f : Option Bytes) (e : ℤ)
    → All IsDigit whole
    → All IsDigit (fraction f)
    → (fits (mantissa whole f) e ≡ true) ↔ (
        (decimal (whole ++ fraction f) * pow10 (pos_part e)
          < pow10 (131_072 + length (fraction f) + neg_part e))
        × (length (fraction f) + neg_part e ≤ 16_383 + pos_part e)
        × (e ≤ℤ pos (131_072 + length (mantissa whole f))))
fits_iff whole f e d g =
    let all = whole ++ fraction f in
    let t =
      tests_iff (length (mantissa whole f)) (length whole) (length (fraction f)) (length all)
        (leading_zeros all) (significant all) e (length-append whole (fraction f))
        (omega (arith, length-append whole (fraction f), length-mantissa whole f))
        (significant-add-leading_zeros all) in
    let v =
      decimal-mul-lt all (pos_part e) (131_072 + length (fraction f) + neg_part e)
        (All-append IsDigit whole (fraction f) d g) in
    rw (fits-tests whole f e d g)
      (λ h. (v.1 (t.0 h).0, (t.0 h).1, (t.0 h).2), λ p. t.1 (v.0 p.0, p.1, p.2))
