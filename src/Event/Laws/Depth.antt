-- ===== src/Event/Laws/Depth.antt =====
-- What the token loop of `validJSONB` accepts.
use ingestkit.Prelude.{
  ℕ, zero, suc, ◌+◌, ◌≤◌, ◌≡◌, refl, ◌↔◌, true, List, [], ◌∷◌, ℤ, pos, pos_part, neg_part, ◌+ℤ◌,
  ◌-ℤ◌, ◌≤ℤ◌, +ℤ_parts, -ℤ_parts, take, All, arith,
}
use ingestkit.Event.Types.{Token, opening, closing, number, scalar}
use ingestkit.Event.Number.{representable_number}
use ingestkit.Event.Jsonb.{max_payload_depth, tokens_ok}

abbrev pub opens : List Token → ℕ
opens [] = 0
opens (opening ∷ ts) = suc (opens ts)
opens (_ ∷ ts) = opens ts

abbrev pub closes : List Token → ℕ
closes [] = 0
closes (closing ∷ ts) = suc (closes ts)
closes (_ ∷ ts) = closes ts

abbrev pub IsStorable : Token → Type 0
IsStorable (number n) = representable_number n ≡ true
IsStorable _ = Unit

-- After any number of tokens no more than 64 of the opened are not closed.
abbrev WithinDepth : ℤ → List Token → Type 0
WithinDepth d ts =
    (n : ℕ) → pos_part d + opens (take n ts) ≤ neg_part d + closes (take n ts) + max_payload_depth

tokens_ok-WithinDepth :
    (d : ℤ) (ts : List Token)
    → d ≤ℤ pos max_payload_depth
    → tokens_ok d ts true ≡ true
    → WithinDepth d ts
unfolding tokens_ok
tokens_ok-WithinDepth d ts h k zero = omega arith
tokens_ok-WithinDepth d [] h k (suc n) = omega arith
tokens_ok-WithinDepth d (opening ∷ ts) h k (suc n) = omega (
  arith,
  +ℤ_parts d (pos 1),
  tokens_ok-WithinDepth (d +ℤ pos 1) ts (ground arith) (ground arith) n,
)
tokens_ok-WithinDepth d (closing ∷ ts) h k (suc n) = omega (
  arith,
  -ℤ_parts d (pos 1),
  tokens_ok-WithinDepth (d -ℤ pos 1) ts (omega (arith, -ℤ_parts d (pos 1))) k n,
)
tokens_ok-WithinDepth d (number x ∷ ts) h k (suc n) = tokens_ok-WithinDepth d ts h (ground arith) n
tokens_ok-WithinDepth d (scalar ∷ ts) h k (suc n) = tokens_ok-WithinDepth d ts h k n

tokens_ok-IsStorable : (d : ℤ) (ts : List Token) → tokens_ok d ts true ≡ true → All IsStorable ts
unfolding tokens_ok
tokens_ok-IsStorable d [] k = tt
tokens_ok-IsStorable d (opening ∷ ts) k = (tt, tokens_ok-IsStorable (d +ℤ pos 1) ts (ground arith))
tokens_ok-IsStorable d (closing ∷ ts) k = (tt, tokens_ok-IsStorable (d -ℤ pos 1) ts k)
tokens_ok-IsStorable d (number x ∷ ts) k = (ground arith, tokens_ok-IsStorable d ts (ground arith))
tokens_ok-IsStorable d (scalar ∷ ts) k = (tt, tokens_ok-IsStorable d ts k)

WithinDepth-tokens_ok :
    (d : ℤ) (ts : List Token) → WithinDepth d ts → All IsStorable ts → tokens_ok d ts true ≡ true
unfolding tokens_ok
WithinDepth-tokens_ok d [] w a = refl
WithinDepth-tokens_ok d (opening ∷ ts) w a =
    ground (arith, w 1, +ℤ_parts d (pos 1), rest, WithinDepth-tokens_ok (d +ℤ pos 1) ts rest a.1)
  where
    rest : WithinDepth (d +ℤ pos 1) ts
    rest n = omega (arith, +ℤ_parts d (pos 1), w (suc n))
WithinDepth-tokens_ok d (closing ∷ ts) w a =
    WithinDepth-tokens_ok (d -ℤ pos 1) ts (λ n. omega (arith, -ℤ_parts d (pos 1), w (suc n))) a.1
WithinDepth-tokens_ok d (number x ∷ ts) w a =
    rw (a.0) (WithinDepth-tokens_ok d ts (λ n. w (suc n)) a.1)
WithinDepth-tokens_ok d (scalar ∷ ts) w a = WithinDepth-tokens_ok d ts (λ n. w (suc n)) a.1

-- Over a token stream that ends well, the loop of `validJSONB` accepts exactly if after any number
-- of tokens at most 64 more are opened than closed, and every number is representable.
pub tokens_ok_iff :
    (ts : List Token)
    → (tokens_ok (pos 0) ts true ≡ true)
      ↔ (((n : ℕ) → opens (take n ts) ≤ closes (take n ts) + max_payload_depth) × All IsStorable ts)
tokens_ok_iff ts = (
  λ k. (
    λ n. omega (arith, tokens_ok-WithinDepth (pos 0) ts (omega arith) k n),
    tokens_ok-IsStorable (pos 0) ts k,
  ),
  λ (p : ((n : ℕ) → opens (take n ts) ≤ closes (take n ts) + max_payload_depth)
        × All IsStorable ts).
      WithinDepth-tokens_ok (pos 0) ts (λ n. omega (arith, p.0 n)) p.1,
)
