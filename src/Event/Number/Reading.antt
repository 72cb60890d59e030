-- ===== src/Event/Number/Reading.antt =====
-- `representableNumber` on every text that is built like a number, with any text as its exponent.
use ingestkit.Prelude.{
  ℕ, ◌+◌, ◌*◌, ◌≤◌, ◌<◌, ◌≡◌, refl, sym, ap, ◌∙◌, ◌↔◌, inl, inr, Bool, true, false, Option, none,
  some, Option-cases, [], ◌∷◌, ◌++◌, append-nil, append_assoc, Bytes, ℤ, pos, pos_part, neg_part,
  ◌≤ℤ◌, length, All, arith, ◌==◌, if◌then◌else◌,
}
use ingestkit.Event.Number.{
  trim_minus, is_exponent, split_at, parse_int32, fits, representable_number,
}
use ingestkit.Event.Number.Powers.{pow10, IsDigit, decimal}
use ingestkit.Event.Number.Value.{fraction, mantissa, fits_iff}
use ingestkit.Event.Number.Exponent.{Spells, parse_int32_iff}

-- The mark of an exponent and the text behind it, if there is one.
abbrev pub exponent : Option (ℕ × Bytes) → Bytes
exponent none = []
exponent (some (mark, s)) = mark ∷ s

abbrev pub IsMarked : Option (ℕ × Bytes) → Type 0
IsMarked none = Unit
IsMarked (some (mark, s)) = is_exponent mark ≡ true

-- The integer that an exponent stands for.
abbrev pub IsExponent : Option (ℕ × Bytes) → ℤ → Type 0
IsExponent none e = e ≡ pos 0
IsExponent (some (mark, s)) e = Spells s e

abbrev pub number_text : Bool → Bytes → Option Bytes → Option (ℕ × Bytes) → Bytes
number_text negative whole f x =
    (if negative then b'-' ∷ [] else []) ++ (mantissa whole f ++ exponent x)

-- What the limits of numeric and of the guard are for a value of these digits and this exponent.
pub record IsWithin (whole : Bytes) (f : Option Bytes) (e : ℤ) : Type 0 where
  pub size :
      decimal (whole ++ fraction f) * pow10 (pos_part e)
      < pow10 (131_072 + length (fraction f) + neg_part e)
  pub decimals : length (fraction f) + neg_part e ≤ 16_383 + pos_part e
  pub guarded : e ≤ℤ pos (131_072 + length (mantissa whole f))

behind : Option (ℕ × Bytes) → Option Bytes
behind none = none
behind (some (mark, s)) = some s

digit-not-exponent : (c : ℕ) → IsDigit c → is_exponent c ≡ false
digit-not-exponent c d = ground arith

split_at-digits :
    (s t before : Bytes) (after : Option Bytes)
    → All IsDigit s
    → split_at is_exponent t ≡ (before, after)
    → split_at is_exponent (s ++ t) ≡ (s ++ before, after)
unfolding split_at
split_at-digits [] t before after d h = h
split_at-digits (c ∷ s) t before after d h =
    rw (digit-not-exponent c d.0) (rw (split_at-digits s t before after d.1 h))

split_at-exponent :
    (x : Option (ℕ × Bytes)) → IsMarked x → split_at is_exponent (exponent x) ≡ ([], behind x)
unfolding split_at behind
split_at-exponent none m = refl
split_at-exponent (some (mark, s)) m = rw m refl

split_at-point :
    (f t : Bytes) (after : Option Bytes)
    → split_at is_exponent (f ++ t) ≡ (f, after)
    → split_at is_exponent (b'.' ∷ f ++ t) ≡ (b'.' ∷ f, after)
unfolding split_at
split_at-point f t after h = rw h refl

split_at-number :
    (whole : Bytes) (f : Option Bytes) (x : Option (ℕ × Bytes))
    → All IsDigit whole
    → All IsDigit (fraction f)
    → IsMarked x
    → split_at is_exponent (mantissa whole f ++ exponent x) ≡ (mantissa whole f, behind x)
split_at-number whole none x d g m =
    split_at-digits whole (exponent x) [] (behind x) d (split_at-exponent x m)
    ∙ ap (λ (b : Bytes). (b, behind x)) (append-nil whole)
split_at-number whole (some f) x d g m = rw (append_assoc whole (b'.' ∷ f) (exponent x)) (
    split_at-digits whole (b'.' ∷ f ++ exponent x) (b'.' ∷ f) (behind x) d (
      split_at-point f (exponent x) (behind x) (
        split_at-digits f (exponent x) [] (behind x) g (split_at-exponent x m)
        ∙ ap (λ (b : Bytes). (b, behind x)) (append-nil f))))

mark-not-minus : (mark : ℕ) → is_exponent mark ≡ true → (mark == b'-') ≡ false
mark-not-minus mark m = ground arith

-- Only a sign in front of the digits is taken away.
trim_minus-number :
    (negative : Bool) (whole : Bytes) (f : Option Bytes) (x : Option (ℕ × Bytes))
    → All IsDigit whole
    → IsMarked x
    → trim_minus (number_text negative whole f x) ≡ mantissa whole f ++ exponent x
unfolding trim_minus
trim_minus-number true whole f x d m = refl
trim_minus-number false [] none none d m = refl
trim_minus-number false [] none (some (mark, s)) d m = rw (mark-not-minus mark m) refl
trim_minus-number false [] (some f) x d m = refl
trim_minus-number false (c ∷ s) none x d m = ground (arith, d.0)
trim_minus-number false (c ∷ s) (some f) x d m = ground (arith, d.0)

fits-IsWithin :
    (whole : Bytes) (f : Option Bytes) (e : ℤ)
    → All IsDigit whole
    → All IsDigit (fraction f)
    → (fits (mantissa whole f) e ≡ true) ↔ IsWithin whole f e
fits-IsWithin whole f e d g =
    let (there, back) = fits_iff whole f e d g in
    (
      λ h. let (a, b, c) = there h in record { size = a; decimals = b; guarded = c },
      λ w. back (w.size, w.decimals, w.guarded),
    )

-- What the exponent decides.
decided : Bytes → Option Bytes → Bool
decided s none = fits s (pos 0)
decided s (some t) = elim (parse_int32 t) [ none ↦ false | some e ↦ fits s e ]

representable_number-split :
    (t s : Bytes) (after : Option Bytes)
    → split_at is_exponent (trim_minus t) ≡ (s, after)
    → representable_number t ≡ decided s after
unfolding representable_number decided
representable_number-split t s none h = ground (arith, h)
representable_number-split t s (some u) h = ground (arith, h)

representable_number-decided :
    (negative : Bool) (whole : Bytes) (f : Option Bytes) (x : Option (ℕ × Bytes))
    → All IsDigit whole
    → All IsDigit (fraction f)
    → IsMarked x
    → representable_number (number_text negative whole f x) ≡ decided (mantissa whole f) (behind x)
representable_number-decided negative whole f x d g m =
    representable_number-split (number_text negative whole f x) (mantissa whole f) (behind x) (
      ap (split_at is_exponent) (trim_minus-number negative whole f x d m)
      ∙ split_at-number whole f x d g m)

decided_iff :
    (s : Bytes) (x : Option (ℕ × Bytes))
    → (decided s (behind x) ≡ true) ↔ ((e : ℤ) × IsExponent x e × (fits s e ≡ true))
unfolding decided behind
decided_iff s none = (λ h. (pos 0, refl, h), λ h. rw (h.1) at h.2)
decided_iff s (some (mark, t)) = elim (Option-cases (parse_int32 t)) [
  | inl n ↦ (
    λ h. absurd (ground (arith, h, n)),
    λ h. absurd (none-some (sym n ∙ (parse_int32_iff t h.0).1 h.1)),
  )
  | inr (e, n) ↦ (
    λ h. (e, (parse_int32_iff t e).0 n, ground (arith, h, n)),
    λ h. ground (arith, h.2, (parse_int32_iff t h.0).1 h.1),
  )
]
  where
    none-some : {y : ℤ} → ◌≡◌ {A = Option ℤ} none (some y) → ⊥
    none-some e = cc e

-- A text of digits with an optional sign, point and exponent, whatever text the exponent is: it is
-- accepted exactly if the exponent, 0 if there is none, is an integer of 32 bits in decimal, and
-- with it the value is below 10 ^ 131072, has at most 16383 decimals, and the exponent is at most
-- 131072 more than the length of the mantissa.
pub representable_number_iff :
    (negative : Bool) (whole : Bytes) (f : Option Bytes) (x : Option (ℕ × Bytes))
    → All IsDigit whole
    → All IsDigit (fraction f)
    → IsMarked x
    → (representable_number (number_text negative whole f x) ≡ true)
      ↔ ((e : ℤ) × IsExponent x e × IsWithin whole f e)
representable_number_iff negative whole f x d g m =
    let (there, back) = decided_iff (mantissa whole f) x in
    let same = representable_number-decided negative whole f x d g m in
    (
      λ h. let (e, is, fit) = there (sym same ∙ h) in (e, is, (fits-IsWithin whole f e d g).0 fit),
      λ h. same ∙ back (h.0, h.1, (fits-IsWithin whole f h.0 d g).1 h.2),
    )
