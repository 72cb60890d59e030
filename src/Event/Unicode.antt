-- ===== src/Event/Unicode.antt =====
-- The text checks of internal/event/jsonb.go: `validText`, `validUnicodeJSON` and, of Go's
-- unicode/utf8 and strconv, what they call.
pub mod Units
use ingestkit.Prelude.{
  ℕ, zero, suc, ◌+◌, ◌-◌, ◌*◌, Bool, true, false, not, ◌&&◌, ◌||◌, Option, none, some, List, [],
  ◌∷◌, Bytes, leb, ltb, ◌==◌, if◌then◌else◌, codes,
}

-- A byte that begins a rune: how many bytes follow, and the range of the next one.
utf8_start : ℕ → Option (ℕ × ℕ × ℕ)
utf8_start c =
    if ltb c 0x80
    then some (0, 0x80, 0xBF)
    else if ltb c 0xC2
    then none
    else if ltb c 0xE0
    then some (1, 0x80, 0xBF)
    else if c == 0xE0
    then some (2, 0xA0, 0xBF)
    else if c == 0xED
    then some (2, 0x80, 0x9F)
    else if ltb c 0xF0
    then some (2, 0x80, 0xBF)
    else if c == 0xF0
    then some (3, 0x90, 0xBF)
    else if ltb c 0xF4
    then some (3, 0x80, 0xBF)
    else if c == 0xF4
    then some (3, 0x80, 0x8F)
    else none

utf8_next : ℕ → ℕ → ℕ → ℕ → Option (ℕ × ℕ × ℕ)
unfolding utf8_start
utf8_next zero lo hi c = utf8_start c
utf8_next (suc pending) lo hi c = if leb lo c && leb c hi then some (pending, 0x80, 0xBF) else none

utf8_from : ℕ → ℕ → ℕ → Bytes → Bool
unfolding utf8_next
utf8_from pending lo hi [] = pending == 0
utf8_from pending lo hi (c ∷ s) = elim (utf8_next pending lo hi c) [
  | none ↦ false
  | some (p, l, h) ↦ utf8_from p l h s
]

-- utf8.Valid
unfoldable pub utf8_valid : Bytes → Bool
unfolding utf8_from
utf8_valid s = utf8_from 0 0x80 0xBF s

-- strings.ContainsRune(s, 0)
unfoldable pub contains_nul : Bytes → Bool
contains_nul [] = false
contains_nul (c ∷ s) = (c == 0) || contains_nul s

abbrev hex_digit : ℕ → Option ℕ
hex_digit c =
    if leb b'0' c && leb c b'9'
    then some (c - b'0')
    else if leb b'a' c && leb c b'f'
    then some (c - b'a' + 10)
    else if leb b'A' c && leb c b'F'
    then some (c - b'A' + 10)
    else none

-- strconv.ParseUint of four bytes in base 16.
unfoldable pub hex4 : ℕ → ℕ → ℕ → ℕ → Option ℕ
hex4 a b c d = elim (hex_digit a) [
  | none ↦ none
  | some w ↦ elim (hex_digit b) [
    | none ↦ none
    | some x ↦ elim (hex_digit c) [
      | none ↦ none
      | some y ↦ elim (hex_digit d) [
        | none ↦ none
        | some z ↦ some (((w * 16 + x) * 16 + y) * 16 + z)
      ]
    ]
  ]
]

abbrev pub is_high : ℕ → Bool
is_high unit = leb 0xD800 unit && leb unit 0xDBFF

abbrev pub is_low : ℕ → Bool
is_low unit = leb 0xDC00 unit && leb unit 0xDFFF

-- The tests of `unit`, between the verdict on a low half that has to follow and that on the rest.
unfoldable pub on_unit : Option ℕ → Bool → Bool → Bool
on_unit none low rest = false
on_unit (some unit) low rest =
    if unit == 0 then false else if is_low unit then false else if is_high unit then low else rest

-- The tests of `low`.
unfoldable pub on_low : Option ℕ → Bool → Bool
on_low none rest = false
on_low (some low) rest = if is_low low then rest else false

-- The loop of `validUnicodeJSON`, from the position in the text where it stands: `scan` at the head
-- of the loop, `escape` behind a backslash, `unicode` behind `\u`, `low_half` behind a high
-- surrogate. A text that is too short for what an escape needs is refused.
unfoldable mutual
  pub scan : Bytes → Bool
  scan [] = true
  scan (c ∷ s) = let e = escape s in let r = scan s in if c == b'\\' then e else r

  pub escape : Bytes → Bool
  escape [] = false
  escape (c ∷ s) = let u = unicode s in let r = scan s in if c == b'u' then u else r

  pub unicode : Bytes → Bool
  unicode (a ∷ b ∷ c ∷ d ∷ s) = on_unit (hex4 a b c d) (low_half s) (scan s)
  unicode _ = false

  pub low_half : Bytes → Bool
  low_half (x ∷ y ∷ a ∷ b ∷ c ∷ d ∷ s) =
      if (x == b'\\') && (y == b'u') then on_low (hex4 a b c d) (scan s) else false
  low_half _ = false

unfoldable pub valid_unicode_json : Bytes → Bool
unfolding scan hex4 on_unit on_low
valid_unicode_json raw = utf8_valid raw && scan raw
