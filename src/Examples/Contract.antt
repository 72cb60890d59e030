-- ===== src/Examples/Contract.antt =====
-- The event contract on concrete texts and events, with an encoding/json that knows two documents.
use ingestkit.Prelude.{
  ℕ, ℤ, ◌≡◌, ◌≤◌, ◌+◌, refl, ◌↔◌, ◌≢◌, true, false, some, List, [], ◌∷◌, Bytes, pos, length, take,
  All, if◌then◌else◌, ◌+ℤ◌, bytes_eq, ok, err, ◌==◌, codes, arith,
}
use ingestkit.Event.{
  utc, zero_instant, Input, Envelope, Json, Token, opening, closing, number, max_batch_events,
  is_zero, decode, validate, valid_text, contains_nul, valid_jsonb, valid_tenant, utf8_valid,
  valid_unicode_json, accept, decode_input, decode_batch, encode_envelope, decode_envelope,
  validation, bad_event_type,
}
use ingestkit.Event.Laws.{IsInput, IsTenant, accept_iff}
use ingestkit.Event.Laws.Batch.{Each, decode_batch-Each}
use ingestkit.Event.Laws.Broker.{SameEvent, decode-encode_envelope}
use ingestkit.Event.Laws.Depth.{opens, closes, IsStorable, tokens_ok_iff}
use ingestkit.Event.Number.{representable_number}
use ingestkit.Event.Number.Powers.{IsDigit}
use ingestkit.Event.Number.Reading.{IsExponent, IsWithin, representable_number_iff}
use ingestkit.Event.Unicode.Units.{CodeUnit, units, paired, valid_unicode_json_iff}
use ingestkit.Event.Jsonb.{tokens_ok, max_payload_depth}
use ingestkit.Event.Decode.{decode_inputs}

abbrev click : Input
click = record {
  event_id = 7;
  event_type = codes "click";
  occurred_at = record { instant = 1; zone = codes "UTC" };
  payload = codes "{}";
}

abbrev clicked : Envelope
clicked = record {
  input = click;
  tenant_id = codes "acme";
  received_at = record { instant = 2; zone = codes "UTC" };
}

-- The event without a type, and its text.
abbrev untyped : Input
untyped = record click { event_type = [] }

abbrev two_documents : Json
two_documents = record {
  valid = λ _. true;
  tokens = λ _. (opening ∷ closing ∷ [], true);
  is_object = λ _. true;
  decode_input = λ raw. some (if bytes_eq raw (codes "{}") then click else untyped, []);
  decode_envelope = λ _. some (clicked, []);
  decode_events = λ raw. some (codes "{}" ∷ codes "{}" ∷ [], []);
  at_end = λ rest. length rest == 0;
  encode_envelope = λ _. some (codes "{}");
}

whole_digits : All IsDigit (codes "12")
whole_digits = ((omega arith, omega arith), ((omega arith, omega arith), tt))

fraction_digits : All IsDigit (codes "50")
fraction_digits = ((omega arith, omega arith), ((omega arith, omega arith), tt))

representable_number_iff_example : (representable_number (codes "-12.50E+3") ≡ true) ↔ (
    (e : ℤ) × IsExponent (some (b'E', codes "+3")) e × IsWithin (codes "12") (some (codes "50")) e)
representable_number_iff_example =
    representable_number_iff true (codes "12") (some (codes "50")) (some (b'E', codes "+3"))
      whole_digits fraction_digits refl

valid_unicode_json_iff_example : (valid_unicode_json (codes "\"\\u0041\"") ≡ true) ↔ (
    (utf8_valid (codes "\"\\u0041\"") ≡ true)
    × ((us : List CodeUnit) × (units (codes "\"\\u0041\"") ≡ some us) × (paired us ≡ true)))
valid_unicode_json_iff_example = valid_unicode_json_iff (codes "\"\\u0041\"")

clicked_back : SameEvent two_documents clicked clicked
clicked_back = record {
  event_id = refl;
  event_type = refl;
  occurred_at = refl;
  tenant_id = refl;
  received_at = refl;
  object = refl;
  jsonb = refl;
}

braces_text : valid_unicode_json (codes "{}") ≡ true
unfolding valid_unicode_json utf8_valid
braces_text = refl

clicked_encoded : encode_envelope two_documents clicked ≡ ok (codes "{}")
unfolding encode_envelope accept validate valid_text utf8_valid contains_nul is_zero valid_jsonb
    valid_unicode_json ◌+ℤ◌ valid_tenant decode decode_input decode_inputs bytes_eq
clicked_encoded = refl

decode-encode_envelope_example :
    decode_envelope two_documents (codes "{}")
    ≡ ok (record clicked { received_at = utc clicked.received_at })
decode-encode_envelope_example =
    decode-encode_envelope two_documents clicked clicked (codes "{}") [] refl refl braces_text
      clicked_back clicked_encoded

accept_iff_example :
    (accept two_documents click (codes "acme") clicked.received_at ≡ ok clicked) ↔ (
      IsInput two_documents click
      × IsTenant (codes "acme")
      × (2 ≢ zero_instant)
      × (clicked ≡ record {
        input = click;
        tenant_id = codes "acme";
        received_at = utc clicked.received_at;
      }))
accept_iff_example = accept_iff two_documents click (codes "acme") clicked.received_at clicked

abbrev one_object : List Token
one_object = opening ∷ number (codes "12") ∷ closing ∷ []

tokens_ok_iff_example : (tokens_ok (pos 0) one_object true ≡ true) ↔ (
    ((n : ℕ) → opens (take n one_object) ≤ closes (take n one_object) + max_payload_depth)
    × All IsStorable one_object)
tokens_ok_iff_example = tokens_ok_iff one_object

batch_decoded : decode_batch two_documents (codes "[]") ≡ ok (click ∷ click ∷ [])
unfolding decode_batch accept validate valid_text utf8_valid contains_nul is_zero valid_jsonb
    valid_unicode_json ◌+ℤ◌ valid_tenant decode decode_input decode_inputs bytes_eq
batch_decoded = refl

decode_batch-Each_example :
    (bs : List Bytes) × (rest : Bytes) × (two_documents.decode_events (codes "[]")
      ≡ some (bs, rest))
    × Each two_documents bs (click ∷ click ∷ [])
    × All (IsInput two_documents) (click ∷ click ∷ [])
    × (1 ≤ 2)
    × (2 ≤ max_batch_events)
decode_batch-Each_example =
    decode_batch-Each two_documents (codes "[]") (click ∷ click ∷ []) batch_decoded

second_refused :
    decode_inputs two_documents (codes "{}" ∷ codes "[]" ∷ [])
    ≡ err (validation bad_event_type false)
unfolding decode_inputs accept validate valid_text utf8_valid contains_nul is_zero valid_jsonb
    valid_unicode_json ◌+ℤ◌ valid_tenant decode decode_input bytes_eq
second_refused = refl

array_refused : decode_input two_documents (codes "[]") ≡ err (validation bad_event_type false)
unfolding decode_input accept validate valid_text utf8_valid contains_nul is_zero valid_jsonb
    valid_unicode_json ◌+ℤ◌ valid_tenant decode decode_inputs bytes_eq
array_refused = refl
