-- ===== src/Event/Number/Exponent.antt =====
-- What strconv.ParseInt reads in the exponent of a number.
use ingestkit.Prelude.{
  ℕ, ◌+◌, ◌-◌, ◌*◌, ◌<◌, ◌≤◌, ◌≡◌, ap, ◌∙◌, ◌↔◌, inl, inr, Bool-cases, true, ◌&&◌, Option, none,
  some, Option-cases, [], ◌∷◌, Bytes, ℤ, pos, sub_ℕ, leb, ◌==◌, length, All, arith,
}
use ingestkit.Event.Number.{digits_from, digits, parse_int32}
use ingestkit.Event.Number.Powers.{
  pow10, pow10-zero, pow10-suc, IsDigit, decimal, decimal-nil, decimal-cons,
}

-- A text of one digit or more, with its value.
pub record IsNatural (s : Bytes) (n : ℕ) : Type 0 where
  pub all_digits : All IsDigit s
  pub not_empty : 0 < length s
  pub valued : decimal s ≡ n

-- The integers of 32 bits that a text stands for: digits, behind a sign or none.
pub data Spells (t : Bytes) (e : ℤ) : Type 0 where
  unsigned : (n : ℕ) → IsNatural t n → n < 0x8000_0000 → e ≡ pos n → Spells t e
  plus :
      (s : Bytes) (n : ℕ) → t ≡ b'+' ∷ s → IsNatural s n → n < 0x8000_0000 → e ≡ pos n → Spells t e
  minus :
      (s : Bytes) (n : ℕ)
      → t ≡ b'-' ∷ s
      → IsNatural s n
      → n ≤ 0x8000_0000
      → e ≡ sub_ℕ 0 n
      → Spells t e

digits_from_lem :
    (n : ℕ) (s : Bytes) → All IsDigit s → digits_from n s ≡ some (n * pow10 (length s) + decimal s)
unfolding digits_from
digits_from_lem n [] d = rw (pow10-zero, decimal-nil) (ap (λ x. some x) (omega arith))
digits_from_lem n (c ∷ s) d =
    let is : (leb b'0' c && leb c b'9') ≡ true = ground (arith, d.0) in
    let p = pow10 (length s) in
    let more : (n * 10 + (c - b'0')) * p + decimal s ≡ n * (10 * p) + ((c - b'0') * p + decimal s) =
      grind arith in
    rw (is, pow10-suc (length s), decimal-cons c s)
      (digits_from_lem (n * 10 + (c - b'0')) s d.1 ∙ ap (λ x. some x) more)

none-some : {x : ℕ} → ◌≡◌ {A = Option ℕ} none (some x) → ⊥
none-some e = cc e

digits_from-IsDigit : (n : ℕ) (s : Bytes) (m : ℕ) → digits_from n s ≡ some m → All IsDigit s
unfolding digits_from
digits_from-IsDigit n [] m h = tt
digits_from-IsDigit n (c ∷ s) m h = elim (Bool-cases (leb b'0' c && leb c b'9')) [
  | inl e ↦ (ground (arith, e), digits_from-IsDigit (n * 10 + (c - b'0')) s m (rw e at h))
  | inr e ↦ absurd (none-some (rw e at h))
]

digits_iff : (s : Bytes) (n : ℕ) → (digits s ≡ some n) ↔ IsNatural s n
unfolding digits
digits_iff [] n = (λ h. absurd (ground arith), λ h. absurd (omega arith))
digits_iff (c ∷ s) n = (
  λ h.
      let d = digits_from-IsDigit 0 (c ∷ s) n h in
      record {
        all_digits = d;
        not_empty = omega arith;
        valued = ground (arith, h, digits_from_lem 0 (c ∷ s) d);
      },
  λ h. digits_from_lem 0 (c ∷ s) h.all_digits ∙ ap (λ x. some x) (omega (arith, h.valued)),
)

-- ParseInt of base 10 for 32 bits succeeds exactly on these texts.
parse_int32-Spells : (t : Bytes) (e : ℤ) → parse_int32 t ≡ some e → Spells t e
unfolding parse_int32
parse_int32-Spells [] e h = absurd (ground arith)
parse_int32-Spells (c ∷ s) e h = elim (Bool-cases (c == b'-')) [
  | inl m ↦ elim (Option-cases (digits s)) [
    | inl n ↦ absurd (ground (arith, h, m, n))
    | inr (k, n) ↦
        minus s k (ground (arith, m)) ((digits_iff s k).0 n) (ground (arith, h, m, n))
          (ground (arith, h, m, n))
  ]
  | inr m ↦ elim (Bool-cases (c == b'+')) [
    | inl p ↦ elim (Option-cases (digits s)) [
      | inl n ↦ absurd (ground (arith, h, m, p, n))
      | inr (k, n) ↦
          plus s k (ground (arith, p)) ((digits_iff s k).0 n) (ground (arith, h, m, p, n))
            (ground (arith, h, m, p, n))
    ]
    | inr p ↦ elim (Option-cases (digits (c ∷ s))) [
      | inl n ↦ absurd (ground (arith, h, m, p, n))
      | inr (k, n) ↦
          unsigned k ((digits_iff (c ∷ s) k).0 n) (ground (arith, h, m, p, n))
            (ground (arith, h, m, p, n))
    ]
  ]
]

Spells-parse_int32 : (t : Bytes) (e : ℤ) → Spells t e → parse_int32 t ≡ some e
unfolding parse_int32
Spells-parse_int32 [] e (unsigned n d l q) = absurd (omega (arith, d.not_empty))
Spells-parse_int32 (c ∷ s) e (unsigned n d l q) =
    ground (arith, (digits_iff (c ∷ s) n).1 d, d.all_digits.0, l, q)
Spells-parse_int32 t e (plus s n p d l q) = rw p (ground (arith, (digits_iff s n).1 d, l, q))
Spells-parse_int32 t e (minus s n p d l q) = rw p (ground (arith, (digits_iff s n).1 d, l, q))

pub parse_int32_iff : (t : Bytes) (e : ℤ) → (parse_int32 t ≡ some e) ↔ Spells t e
parse_int32_iff t e = (parse_int32-Spells t e, Spells-parse_int32 t e)
