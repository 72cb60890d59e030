-- ===== src/Event/Decode.antt =====
-- internal/event/decode.go.
use ingestkit.Prelude.{
  ℕ, true, not, ◌||◌, Option, none, some, List, [], ◌∷◌, Bytes, ◌==◌, leb, ltb, length, Result, ok,
  err, ◌>>=◌, ◌>>◌, require,
}
use ingestkit.Event.Types.{
  max_event_bytes, max_envelope_bytes, max_request_bytes, max_batch_events, Input, Envelope,
  over_limit, bad_unicode, bad_json, many_documents, bad_batch_size, envelope_over_limit, Error,
  validation, encoding, Json,
}
use ingestkit.Event.Unicode.{valid_unicode_json}
use ingestkit.Event.Validate.{invalid, validate, accept}

abbrev or_error {ℓ} : {A : Type ℓ} → Option A → Error → Result Error A
or_error none e = err e
or_error (some a) e = ok a

-- `decode` with the destination's decoder: one JSON document within `limit` bytes.
unfoldable pub decode {ℓ} :
    {A : Type ℓ} → Json → (Bytes → Option (A × Bytes)) → Bytes → ℕ → Result Error A
decode j decoder raw limit = do
  require (leb (length raw) limit) (validation over_limit true)
  require (valid_unicode_json raw) (invalid bad_unicode)
  found ← or_error (decoder raw) (invalid bad_json)
  require (j.at_end found.1) (invalid many_documents)
  ok found.0

unfoldable pub decode_input : Json → Bytes → Result Error Input
decode_input j raw = do in' ← decode j j.decode_input raw max_event_bytes; validate j in'; ok in'

-- The loop over the raw events: the first error ends it.
unfoldable pub decode_inputs : Json → List Bytes → Result Error (List Input)
decode_inputs j [] = ok []
decode_inputs j (b ∷ bs) = do in' ← decode_input j b; rest ← decode_inputs j bs; ok (in' ∷ rest)

unfoldable pub decode_batch : Json → Bytes → Result Error (List Input)
unfolding decode_inputs
decode_batch j raw = do
  events ← decode j j.decode_events raw max_request_bytes
  require (not ((length events == 0) || ltb max_batch_events (length events)))
      (invalid bad_batch_size)
  decode_inputs j events

unfoldable pub encode_envelope : Json → Envelope → Result Error Bytes
encode_envelope j e = do
  accepted ← accept j e.input e.tenant_id e.received_at
  raw ← or_error (j.encode_envelope e) encoding
  require (leb (length raw) max_envelope_bytes) (validation envelope_over_limit true)
  ok raw

unfoldable pub decode_envelope : Json → Bytes → Result Error Envelope
decode_envelope j raw = do
  e ← decode j j.decode_envelope raw max_envelope_bytes
  accept j e.input e.tenant_id e.received_at
