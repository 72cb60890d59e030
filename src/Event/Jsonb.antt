-- ===== src/Event/Jsonb.antt =====
-- `validJSONB` of internal/event/jsonb.go.
use ingestkit.Prelude.{
  ℕ, Bool, false, not, List, [], ◌∷◌, Bytes, ℤ, pos, ◌+ℤ◌, ◌-ℤ◌, leb_ℤ, if◌then◌else◌,
}
use ingestkit.Event.Types.{Token, opening, closing, number, scalar, Json}
use ingestkit.Event.Unicode.{valid_unicode_json}
use ingestkit.Event.Number.{representable_number}

abbrev pub max_payload_depth : ℕ
max_payload_depth = 64

-- The loop over the tokens. `ended` is false where the token stream breaks off with an error.
unfoldable pub tokens_ok : ℤ → List Token → Bool → Bool
tokens_ok depth [] ended = ended
tokens_ok depth (opening ∷ ts) ended =
    let deeper = depth +ℤ pos 1 in
    let rest = tokens_ok deeper ts ended in
    if not (leb_ℤ deeper (pos max_payload_depth)) then false else rest
tokens_ok depth (closing ∷ ts) ended = tokens_ok (depth -ℤ pos 1) ts ended
tokens_ok depth (number n ∷ ts) ended =
    let rest = tokens_ok depth ts ended in if representable_number n then rest else false
tokens_ok depth (scalar ∷ ts) ended = tokens_ok depth ts ended

unfoldable pub valid_jsonb : Json → Bytes → Bool
unfolding tokens_ok
valid_jsonb j raw =
    if not (j.valid raw)
    then false
    else if not (valid_unicode_json raw)
    then false
    else tokens_ok (pos 0) (j.tokens raw).0 (j.tokens raw).1
