-- ===== src/Event/Number/Powers.antt =====
-- Powers of ten and the values of digit strings.
use ingestkit.Prelude.{
  ℕ, zero, suc, ◌+◌, ◌-◌, ◌*◌, ◌≤◌, ◌<◌, ◌≡◌, refl, ◌↔◌, ◌⊎◌, inl, inr, [], ◌∷◌, Bytes, length,
  arith, ◌==◌, Bool-cases, All, if◌then◌else◌,
}
use native.Mathlib.Decide.{dec_lt}
use ingestkit.Event.Number.{leading_zeros}

-- Kept shut, so that no tactic computes a large power.
pub pow10 : ℕ → ℕ
pow10 zero = 1
pow10 (suc n) = 10 * pow10 n

pub pow10_pos : (n : ℕ) → 1 ≤ pow10 n
unfolding pow10
pow10_pos zero = omega arith
pow10_pos (suc n) = omega (arith, pow10_pos n)

pub pow10-suc : (n : ℕ) → pow10 (suc n) ≡ 10 * pow10 n
unfolding pow10
pow10-suc n = refl

pub pow10-add : (m n k : ℕ) → k ≡ m + n → pow10 k ≡ pow10 m * pow10 n
unfolding pow10
pow10-add zero n k h = let e : k ≡ n = omega arith in rw e (omega arith)
pow10-add (suc m) n zero h = absurd (omega arith)
pow10-add (suc m) n (suc k) h = omega (arith, pow10-add m n k (omega arith))

pub pow10_mono : (m n : ℕ) → m ≤ n → pow10 m ≤ pow10 n
unfolding pow10
pow10_mono zero n h = pow10_pos n
pow10_mono (suc m) zero h = absurd (omega arith)
pow10_mono (suc m) (suc n) h = omega (arith, pow10_mono m n (omega arith))

pub lt_of_pow10-lt : (m n : ℕ) → pow10 m < pow10 n → m < n
lt_of_pow10-lt m n h = elim (dec_lt m n) [
  | yes p ↦ p
  | no p ↦ absurd (omega (arith, pow10_mono n m (omega arith)))
]

abbrev pub IsDigit : ℕ → Type 0
IsDigit c = (b'0' ≤ c) × (c ≤ b'9')

-- The number that a string of digits stands for.
pub decimal : Bytes → ℕ
decimal [] = 0
decimal (c ∷ s) = (c - b'0') * pow10 (length s) + decimal s

pub pow10-zero : pow10 0 ≡ 1
unfolding pow10
pow10-zero = refl

pub decimal-nil : decimal [] ≡ 0
unfolding decimal
decimal-nil = refl

pub decimal-cons : (c : ℕ) (s : Bytes) → decimal (c ∷ s) ≡ (c - b'0') * pow10 (length s) + decimal s
unfolding decimal
decimal-cons c s = refl

mul_le : (a b k : ℕ) → a ≤ b → a * k ≤ b * k
mul_le a b k h = grind arith

pub decimal-lt : (s : Bytes) → All IsDigit s → decimal s < pow10 (length s)
unfolding decimal pow10
decimal-lt [] d = omega arith
decimal-lt (c ∷ s) d =
    omega (arith, decimal-lt s d.1, mul_le (c - b'0') 9 (pow10 (length s)) (omega arith))

zero_digit : (c k : ℕ) → c ≡ b'0' → (c - b'0') * k ≡ 0
zero_digit c k e = rw e (omega arith)

-- How many digits stand from the first that is not 0.
pub significant : Bytes → ℕ
significant [] = 0
significant (c ∷ s) = if c == b'0' then significant s else suc (length s)

pub significant-add-leading_zeros : (s : Bytes) → significant s + leading_zeros s ≡ length s
unfolding significant leading_zeros
significant-add-leading_zeros [] = refl
significant-add-leading_zeros (c ∷ s) = ground (arith, significant-add-leading_zeros s)

pub decimal-lt-significant : (s : Bytes) → All IsDigit s → decimal s < pow10 (significant s)
unfolding decimal significant
decimal-lt-significant [] d = omega (arith, pow10_pos 0)
decimal-lt-significant (c ∷ s) d = ground (
  arith,
  decimal-lt-significant s d.1,
  zero_digit c (pow10 (length s)),
  decimal-lt s d.1,
  mul_le (c - b'0') 9 (pow10 (length s)),
  pow10-suc (length s),
)

-- The value of a string of digits is 0 if all are 0, and else has the size that its first digit
-- other than 0 gives it.
pub decimal-significant :
    (s : Bytes)
    → All IsDigit s
    → ((significant s ≡ 0) × (decimal s ≡ 0))
      ⊎ ((0 < significant s) × (pow10 (significant s) ≤ 10 * decimal s))
unfolding decimal significant
decimal-significant [] d = inl (refl, refl)
decimal-significant (c ∷ s) d = elim (Bool-cases (c == b'0')) [
  | inl z ↦ rw z (ground (arith, zero_digit c (pow10 (length s)), decimal-significant s d.1))
  | inr n ↦ rw n (
      inr
        (omega arith, ground (arith, pow10-suc (length s), mul_le 1 (c - b'0') (pow10 (length s)))))
]

module _ (s : Bytes) (p m : ℕ) (d : All IsDigit s) where
  mul-lt→le : decimal s * pow10 p < pow10 m → (significant s ≡ 0) ⊎ (significant s + p ≤ m)
  mul-lt→le h = elim (decimal-significant s d) [
    | inl z ↦ inl z.0
    | inr w ↦ inr (omega (arith, lt_of_pow10-lt (significant s + p) (suc m) (below w.1)))
  ]
    where
      below : pow10 (significant s) ≤ 10 * decimal s → pow10 (significant s + p) < pow10 (suc m)
      below w = omega (
        arith,
        pow10-add (significant s) p (significant s + p) refl,
        pow10-suc m,
        mul_le (pow10 (significant s)) (10 * decimal s) (pow10 p) w,
      )

  zero→mul-lt : significant s ≡ 0 → decimal s * pow10 p < pow10 m
  zero→mul-lt z = elim (decimal-significant s d) [
    | inl w ↦ rw (w.1) (omega (arith, pow10_pos m))
    | inr w ↦ absurd (omega arith)
  ]

  le→mul-lt : significant s + p ≤ m → decimal s * pow10 p < pow10 m
  le→mul-lt h = omega (
    arith,
    pow10-add (significant s) p (significant s + p) refl,
    pow10_pos p,
    mul_le (decimal s + 1) (pow10 (significant s)) (pow10 p)
        (omega (arith, decimal-lt-significant s d)),
    pow10_mono (significant s + p) m h,
  )

  -- A product of such a value and a power of ten lies below a power of ten exactly if the
  -- exponents say so.
  pub decimal-mul-lt :
      (decimal s * pow10 p < pow10 m) ↔ ((significant s ≡ 0) ⊎ (significant s + p ≤ m))
  decimal-mul-lt = (mul-lt→le, elim [ inl z ↦ zero→mul-lt z | inr h ↦ le→mul-lt h ])
