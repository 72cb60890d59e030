-- ===== src/Prelude/Strings/Laws.antt =====
-- What the functions on texts do to a text of known parts.
use Prim.Native.Nat.{ℕ, ◌<◌}
use mathlib.Core.Path.{◌≡◌, refl, ap, ◌∙◌}
use mathlib.Core.Bool.{false}
use mathlib.Core.Option.{some}
use mathlib.Core.List.{
  [], ◌∷◌, ◌++◌, append_assoc, reverse, reverse-reverse, reverse-append, reverse-cons,
}
use native.Mathlib.Omega.{arith}
use ingestkit.Prelude.Tests.{◌==◌}
use ingestkit.Prelude.Lists.{All}
use ingestkit.Prelude.Text.{Bytes}
use ingestkit.Prelude.Strings.{
  is_space, space_before, space_behind, skip, trim_left, trim_right, trim_space, cut,
}

abbrev pub Without : ℕ → Bytes → Type 0
Without p s = All (λ c. (c == p) ≡ false) s

-- A text that neither begins nor ends with white space.
pub record IsTrimmed (s : Bytes) : Type 0 where
  pub left : space_before s ≡ 0
  pub right : space_behind (reverse s) ≡ 0

skip-none : (size : Bytes → ℕ) (s : Bytes) → size s ≡ 0 → skip size 0 s ≡ s
unfolding skip
skip-none size [] h = refl
skip-none size (c ∷ s) h = rw h refl

pub trim_left-trimmed : (s : Bytes) → space_before s ≡ 0 → trim_left s ≡ s
unfolding trim_left
trim_left-trimmed s h = skip-none space_before s h

pub trim_right-trimmed : (s : Bytes) → space_behind (reverse s) ≡ 0 → trim_right s ≡ s
unfolding trim_right
trim_right-trimmed s h = ap reverse (skip-none space_behind (reverse s) h) ∙ reverse-reverse s

-- A separator that is no part of a white space keeps what stands before it.
abbrev IsApart : ℕ → Type 0
IsApart p = (is_space p ≡ false) × (p < 0x80)

space_before-append :
    (s t : Bytes) (p : ℕ) → IsApart p → space_before s ≡ 0 → space_before (s ++ p ∷ t) ≡ 0
unfolding space_before
space_before-append [] [] p a h = ground arith
space_before-append [] (b ∷ []) p a h = ground arith
space_before-append [] (b ∷ c ∷ t) p a h = ground arith
space_before-append (x ∷ []) [] p a h = ground arith
space_before-append (x ∷ []) (b ∷ t) p a h = ground arith
space_before-append (x ∷ y ∷ []) t p a h = ground arith
space_before-append (x ∷ y ∷ z ∷ s) t p a h = h

space_behind-append :
    (s t : Bytes) (p : ℕ) → IsApart p → space_behind s ≡ 0 → space_behind (s ++ p ∷ t) ≡ 0
unfolding space_behind
space_behind-append [] [] p a h = ground arith
space_behind-append [] (b ∷ []) p a h = ground arith
space_behind-append [] (b ∷ c ∷ t) p a h = ground arith
space_behind-append (x ∷ []) [] p a h = ground arith
space_behind-append (x ∷ []) (b ∷ t) p a h = ground arith
space_behind-append (x ∷ y ∷ []) t p a h = ground arith
space_behind-append (x ∷ y ∷ z ∷ s) t p a h = h

pub IsTrimmed-append :
    (s t : Bytes) (p : ℕ) → IsApart p → IsTrimmed s → IsTrimmed t → IsTrimmed (s ++ p ∷ t)
IsTrimmed-append s t p a h k = record {
  left = space_before-append s t p a h.left;
  right =
      rw (reverse-append s (p ∷ t), reverse-cons p t, append_assoc (reverse t) (p ∷ []) (reverse s))
        (space_behind-append (reverse t) (reverse s) p a k.right);
}

pub trim_space-trimmed : (s : Bytes) → IsTrimmed s → trim_space s ≡ s
unfolding trim_space
trim_space-trimmed s h = rw (trim_right-trimmed s h.right) (trim_left-trimmed s h.left)

pub cut-append : (p : ℕ) (s t : Bytes) → Without p s → cut p (s ++ p ∷ t) ≡ some (s, t)
unfolding cut
cut-append p [] t h = ground arith
cut-append p (c ∷ s) t h = rw h.0 (rw (cut-append p s t h.1))
