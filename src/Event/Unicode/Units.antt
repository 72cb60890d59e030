-- ===== src/Event/Unicode/Units.antt =====
-- What `validUnicodeJSON` accepts, said of the UTF-16 code units that the escapes of a text name.
use ingestkit.Prelude.{
  ℕ, ◌≡◌, refl, Bool, true, false, ◌&&◌, Option, none, some, List, [], ◌∷◌, Bytes, ◌==◌,
  if◌then◌else◌, not, arith, ◌↔◌, and_iff,
}
use mathlib.Core.Bool.{false≢true}
use mathlib.Core.Option.{some-injective}
use mathlib.Core.Option
use ingestkit.Event.Unicode.{
  hex4, is_high, is_low, on_unit, on_low, scan, escape, unicode, low_half, utf8_valid,
  valid_unicode_json,
}

-- A byte of the text or an escape of one letter, or the code unit of an escape `\uXXXX`.
pub data CodeUnit : Type 0 where
  plain : CodeUnit
  unit : ℕ → CodeUnit

abbrev unit_cons : Option ℕ → Option (List CodeUnit) → Option (List CodeUnit)
unit_cons none r = none
unit_cons (some n) r = Option.map (λ us. unit n ∷ us) r

-- The code units of a text; `none` if an escape is cut short or has no four hexadecimal digits.
mutual
  pub units : Bytes → Option (List CodeUnit)
  units [] = some []
  units (c ∷ s) =
      let e = units_escape s in
      let r = units s in if c == b'\\' then e else Option.map (λ us. plain ∷ us) r

  pub units_escape : Bytes → Option (List CodeUnit)
  units_escape [] = none
  units_escape (c ∷ s) =
      let u = units_unicode s in
      let r = units s in if c == b'u' then u else Option.map (λ us. plain ∷ us) r

  pub units_unicode : Bytes → Option (List CodeUnit)
  units_unicode (a ∷ b ∷ c ∷ d ∷ s) = unit_cons (hex4 a b c d) (units s)
  units_unicode _ = none

-- No unit is NUL, and the surrogates stand in pairs, a high one before a low one.
mutual
  pub paired : List CodeUnit → Bool
  paired [] = true
  paired (plain ∷ us) = paired us
  paired (unit n ∷ us) =
      let low = low_first us in
      let r = paired us in not (n == 0) && not (is_low n) && (if is_high n then low else r)

  pub low_first : List CodeUnit → Bool
  low_first (unit n ∷ us) = is_low n && paired us
  low_first _ = false

abbrev judge : (List CodeUnit → Bool) → Option (List CodeUnit) → Bool
judge p none = false
judge p (some us) = p us

on_unit-eq :
    (o : Option ℕ) (r : Option (List CodeUnit))
    → on_unit o (judge low_first r) (judge paired r) ≡ judge paired (unit_cons o r)
unfolding on_unit paired
on_unit-eq none r = refl
on_unit-eq (some n) none = ground arith
on_unit-eq (some n) (some us) = ground arith

on_low-eq :
    (o : Option ℕ) (r : Option (List CodeUnit))
    → on_low o (judge paired r) ≡ judge low_first (unit_cons o r)
unfolding on_low paired
on_low-eq none r = refl
on_low-eq (some n) none = ground arith
on_low-eq (some n) (some us) = ground arith

judge-low_first-plain :
    (r : Option (List CodeUnit)) → judge low_first (Option.map (λ us. plain ∷ us) r) ≡ false
unfolding paired
judge-low_first-plain none = refl
judge-low_first-plain (some us) = refl

judge-paired-plain :
    (r : Option (List CodeUnit)) → judge paired (Option.map (λ us. plain ∷ us) r) ≡ judge paired r
unfolding paired
judge-paired-plain none = refl
judge-paired-plain (some us) = refl

mutual
  unfolding scan units paired

  scan-eq : (s : Bytes) → scan s ≡ judge paired (units s)
  scan-eq [] = refl
  scan-eq (c ∷ s) = ground (arith, escape-eq s, scan-eq s, judge-paired-plain (units s))

  escape-eq : (s : Bytes) → escape s ≡ judge paired (units_escape s)
  escape-eq [] = refl
  escape-eq (c ∷ s) = ground (arith, unicode-eq s, scan-eq s, judge-paired-plain (units s))

  unicode-eq : (s : Bytes) → unicode s ≡ judge paired (units_unicode s)
  unicode-eq (a ∷ b ∷ c ∷ d ∷ s) =
      rw (low_half-eq s, scan-eq s) (on_unit-eq (hex4 a b c d) (units s))
  unicode-eq _ = refl

  low_half-eq : (s : Bytes) → low_half s ≡ judge low_first (units s)
  low_half-eq (x ∷ y ∷ a ∷ b ∷ c ∷ d ∷ s) = ground (
    arith,
    scan-eq s,
    on_low-eq (hex4 a b c d) (units s),
    judge-low_first-plain (units (y ∷ a ∷ b ∷ c ∷ d ∷ s)),
    judge-low_first-plain (units (a ∷ b ∷ c ∷ d ∷ s)),
  )
  low_half-eq [] = refl
  low_half-eq (a ∷ []) = ground arith
  low_half-eq (a ∷ b ∷ []) = ground arith
  low_half-eq (a ∷ b ∷ c ∷ []) = ground arith
  low_half-eq (a ∷ b ∷ c ∷ d ∷ []) = ground arith
  low_half-eq (a ∷ b ∷ c ∷ d ∷ e ∷ []) = ground arith

judge_iff :
    (p : List CodeUnit → Bool) (r : Option (List CodeUnit))
    → (judge p r ≡ true) ↔ ((us : List CodeUnit) × (r ≡ some us) × (p us ≡ true))
judge_iff p none = (λ h. absurd (false≢true h), λ w. cc (w.1))
judge_iff p (some us) = (λ h. (us, refl, h), λ w. rw (some-injective us w.0 w.1) w.2)

-- `validUnicodeJSON` accepts a text exactly when it is UTF-8 and its escapes can be read as code
-- units of which none is NUL and the surrogates stand in pairs.
pub valid_unicode_json_iff :
    (raw : Bytes)
    → (valid_unicode_json raw ≡ true) ↔ (
        (utf8_valid raw ≡ true)
        × ((us : List CodeUnit) × (units raw ≡ some us) × (paired us ≡ true)))
unfolding valid_unicode_json
valid_unicode_json_iff raw = rw (scan-eq raw) (both (and_iff _ _) (judge_iff paired (units raw)))
  where
    both : {A B C D : Type 0} → A ↔ (B × C) → C ↔ D → A ↔ (B × D)
    both e f = (λ a. ((e.0 a).0, f.0 (e.0 a).1), λ p. e.1 (p.0, f.1 p.1))
