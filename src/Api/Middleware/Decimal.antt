-- ===== src/Api/Middleware/Decimal.antt =====
-- strconv.Itoa against the parser of digits, and the identifiers that are made from it.
use mathlib.Core.Option.{some-injective}
use ingestkit.Prelude.{
  ℕ, zero, suc, ◌+◌, ◌-◌, ◌*◌, ◌/◌, ◌%◌, ◌<◌, ◌≡◌, refl, ap, sym, ◌∙◌, inl, inr, some, [], true,
  false, ◌∷◌, ◌++◌, Bytes, drop, ltb, Bool-cases, arith,
}
use ingestkit.Event.Number.{is_digit, digits_from, digits}
use ingestkit.Api.Middleware.{itoa_from, itoa, generate_request_id}

digits_from-concat :
    (a m c : ℕ) (s : Bytes)
    → digits_from a s ≡ some m
    → is_digit c ≡ true
    → digits_from a (s ++ c ∷ []) ≡ some (m * 10 + (c - b'0'))
unfolding digits_from
digits_from-concat a m c [] h d = ground (arith, some-injective a m h)
digits_from-concat a m c (x ∷ s) h d =
    ground (arith, digits_from-concat (a * 10 + (x - b'0')) m c s)

-- A step of `itoa_from`.
itoa_from-last :
    (fuel n : ℕ)
    → ltb n 10 ≡ false
    → itoa_from (suc fuel) n ≡ itoa_from fuel (n / 10) ++ (b'0' + n % 10) ∷ []
unfolding itoa_from
itoa_from-last fuel n e = rw (e, itoa_from) refl

itoa_from-only : (fuel n : ℕ) → ltb n 10 ≡ true → itoa_from (suc fuel) n ≡ (b'0' + n) ∷ []
unfolding itoa_from
itoa_from-only fuel n e = rw (e, itoa_from) refl

digits_from-itoa : (fuel n : ℕ) → n < fuel → digits_from 0 (itoa_from fuel n) ≡ some n
digits_from-itoa zero n h = absurd (omega arith)
digits_from-itoa (suc fuel) n h = elim (Bool-cases (ltb n 10)) [
  | inl e ↦ rw (itoa_from-only fuel n e) (unfold digits_from in ground arith)
  | inr e ↦
      let smaller : n / 10 < fuel = ground arith in
      rw (itoa_from-last fuel n e) (
        digits_from-concat 0 (n / 10) (b'0' + n % 10) (itoa_from fuel (n / 10))
          (digits_from-itoa fuel (n / 10) smaller) (ground arith)
        ∙ ap some (omega arith))
]

digits-concat : (s : Bytes) (c : ℕ) → digits (s ++ c ∷ []) ≡ digits_from 0 (s ++ c ∷ [])
unfolding digits
digits-concat [] c = refl
digits-concat (x ∷ s) c = refl

digits-itoa_from :
    (fuel n : ℕ) → digits (itoa_from (suc fuel) n) ≡ digits_from 0 (itoa_from (suc fuel) n)
digits-itoa_from fuel n = elim (Bool-cases (ltb n 10)) [
  | inl e ↦ rw (itoa_from-only fuel n e) (digits-concat [] (b'0' + n))
  | inr e ↦ rw (itoa_from-last fuel n e) (digits-concat (itoa_from fuel (n / 10)) (b'0' + n % 10))
]

-- What `strconv.Itoa` writes is read back as the same number.
pub digits-itoa : (n : ℕ) → digits (itoa n) ≡ some n
unfolding itoa
digits-itoa n = digits-itoa_from n n ∙ digits_from-itoa (suc n) n (omega arith)

-- Requests that come at different nanoseconds get different identifiers.
pub generate_request_id-injective :
    (m n : ℕ) → generate_request_id m ≡ generate_request_id n → m ≡ n
unfolding generate_request_id
generate_request_id-injective m n e =
    some-injective m n (sym (digits-itoa m) ∙ ap (λ s. digits (drop 4 s)) e ∙ digits-itoa n)
