-- ===== src/Prelude/Strings.antt =====
-- Functions of Go's package strings on bytes. `fields` splits at the white space of ASCII only: the
-- program gives it the identifiers that docker prints.
pub mod Laws
use ingestkit.Prelude.Tests.{ltb, leb, ◌==◌, if◌then◌else◌}
use ingestkit.Prelude.Text.{Bytes, strip_prefix}
use Prim.Native.Nat.{ℕ, zero, suc, ◌-◌}
use mathlib.Core.Bool.{Bool, true, false, ◌&&◌, ◌||◌}
use mathlib.Core.Option.{Option, none, some}
use mathlib.Core.List.{List, [], ◌∷◌, ◌++◌, reverse}

-- Tab, line feed, vertical tab, form feed, carriage return, blank.
abbrev pub is_space : ℕ → Bool
is_space c = (leb 9 c && leb c 13) || (c == 32)

-- The white space of Unicode beyond ASCII, in UTF-8: U+0085 and U+00A0, and U+1680, U+2000 to
-- U+200A, U+2028, U+2029, U+202F, U+205F and U+3000.
abbrev pub is_space_2 : ℕ → ℕ → Bool
is_space_2 a b = (a == 0xc2) && ((b == 0x85) || (b == 0xa0))

abbrev pub is_space_3 : ℕ → ℕ → ℕ → Bool
is_space_3 a b c =
    ((a == 0xe1) && (b == 0x9a) && (c == 0x80))
    || ((a == 0xe2)
        && (b == 0x80)
        && ((leb 0x80 c && leb c 0x8a) || (c == 0xa8) || (c == 0xa9) || (c == 0xaf)))
    || ((a == 0xe2) && (b == 0x81) && (c == 0x9f))
    || ((a == 0xe3) && (b == 0x80) && (c == 0x80))

-- How many bytes a white space takes with which a text begins, 0 if there is none.
unfoldable pub space_before : Bytes → ℕ
space_before [] = 0
space_before (a ∷ []) = if is_space a then 1 else 0
space_before (a ∷ b ∷ []) = if is_space a then 1 else if is_space_2 a b then 2 else 0
space_before (a ∷ b ∷ c ∷ s) =
    if is_space a then 1 else if is_space_2 a b then 2 else if is_space_3 a b c then 3 else 0

-- The same of the end of a text, given backwards.
unfoldable pub space_behind : Bytes → ℕ
space_behind [] = 0
space_behind (a ∷ []) = if is_space a then 1 else 0
space_behind (a ∷ b ∷ []) = if is_space a then 1 else if is_space_2 b a then 2 else 0
space_behind (a ∷ b ∷ c ∷ s) =
    if is_space a then 1 else if is_space_2 b a then 2 else if is_space_3 c b a then 3 else 0

-- Without the white space at the start, behind `k` further bytes of the last one.
unfoldable pub skip : (Bytes → ℕ) → ℕ → Bytes → Bytes
skip size k [] = []
skip size (suc k) (c ∷ s) = skip size k s
skip size zero (c ∷ s) =
    let n = size (c ∷ s) in let rest = skip size (n - 1) s in if n == 0 then c ∷ s else rest

unfoldable pub trim_left : Bytes → Bytes
unfolding skip space_before
trim_left s = skip space_before 0 s

unfoldable pub trim_right : Bytes → Bytes
unfolding skip space_behind
trim_right s = reverse (skip space_behind 0 (reverse s))

-- strings.TrimSpace
unfoldable pub trim_space : Bytes → Bytes
unfolding trim_left trim_right
trim_space s = trim_left (trim_right s)

-- strings.Fields: `word` is the word that is being read.
unfoldable pub fields_from : Bytes → Bytes → List Bytes
fields_from [] [] = []
fields_from (w ∷ word) [] = (w ∷ word) ∷ []
fields_from [] (c ∷ s) = fields_from (if is_space c then [] else c ∷ []) s
fields_from (w ∷ word) (c ∷ s) =
    let next = (w ∷ word) ∷ fields_from [] s in
    let on = fields_from ((w ∷ word) ++ c ∷ []) s in if is_space c then next else on

unfoldable pub fields : Bytes → List Bytes
unfolding fields_from
fields s = fields_from [] s

-- strings.Split with one byte: one text more than there are separators.
unfoldable pub split : ℕ → Bytes → List Bytes
split p [] = [] ∷ []
split p (c ∷ s) =
    let rest = split p s in
    if c == p then [] ∷ rest else elim rest [ [] ↦ (c ∷ []) ∷ [] | t ∷ ts ↦ (c ∷ t) ∷ ts ]

-- strings.Cut with one byte.
unfoldable pub cut : ℕ → Bytes → Option (Bytes × Bytes)
cut p [] = none
cut p (c ∷ s) =
    let rest = cut p s in
    if c == p
    then some ([], s)
    else elim rest [ none ↦ none | some (before, after) ↦ some (c ∷ before, after) ]

unfoldable pub has_prefix : Bytes → Bytes → Bool
has_prefix s prefix = elim (strip_prefix prefix s) [ none ↦ false | some _ ↦ true ]

unfoldable pub contains : Bytes → Bytes → Bool
unfolding has_prefix
contains [] part = has_prefix [] part
contains (c ∷ s) part = has_prefix (c ∷ s) part || contains s part

-- strings.Join, each text followed by the separator.
unfoldable pub lines : List Bytes → Bytes
lines [] = []
lines (l ∷ ls) = l ++ b'\n' ∷ lines ls
