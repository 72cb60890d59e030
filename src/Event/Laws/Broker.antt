-- ===== src/Event/Laws/Broker.antt =====
-- The envelope on its way through the broker.
use ingestkit.Prelude.{
  ◌≤◌, ◌≡◌, refl, ◌∙◌, true, some, inl, inr, Bytes, length, arith, ok, Result-cases,
}
use ingestkit.Event.Types.{utc, Envelope, Json, max_envelope_bytes}
use ingestkit.Event.Unicode.{valid_unicode_json}
use ingestkit.Event.Jsonb.{valid_jsonb}
use ingestkit.Event.Validate.{accept}
use ingestkit.Event.Decode.{decode, encode_envelope, decode_envelope}
use ingestkit.Event.Laws.{IsInput, accept_iff}

-- What JSON keeps of an event: all but the zone in which a time is shown and the blanks of the
-- payload, which stays a JSON object that PostgreSQL takes.
pub record SameEvent (j : Json) (e d : Envelope) : Type 0 where
  pub event_id : d.event_id ≡ e.event_id
  pub event_type : d.event_type ≡ e.event_type
  pub occurred_at : d.occurred_at.instant ≡ e.occurred_at.instant
  pub tenant_id : d.tenant_id ≡ e.tenant_id
  pub received_at : d.received_at.instant ≡ e.received_at.instant
  pub object : j.is_object d.payload ≡ j.is_object e.payload
  pub jsonb : valid_jsonb j d.payload ≡ valid_jsonb j e.payload

pub encode_parts :
    (j : Json) (e : Envelope) (raw : Bytes)
    → encode_envelope j e ≡ ok raw
    → (accepted : Envelope) × (accept j e.input e.tenant_id e.received_at ≡ ok accepted)
      × (j.encode_envelope e ≡ some raw)
      × (length raw ≤ max_envelope_bytes)
unfolding encode_envelope
encode_parts j e raw h = elim (Result-cases (accept j e.input e.tenant_id e.received_at)) [
  | inl w ↦ (w.0, w.1, ground arith, ground arith)
  | inr w ↦ absurd (ground arith)
]

decode_whole :
    (j : Json) (raw rest : Bytes) (d : Envelope)
    → length raw ≤ max_envelope_bytes
    → valid_unicode_json raw ≡ true
    → j.decode_envelope raw ≡ some (d, rest)
    → j.at_end rest ≡ true
    → decode_envelope j raw ≡ accept j d.input d.tenant_id d.received_at
unfolding decode_envelope decode
decode_whole j raw rest d fits text read done = ground arith

-- Where encoding/json reads back from its own output the same event, as one document of valid
-- text, what `EncodeEnvelope` gives the broker is accepted by `DecodeEnvelope`, with the event's
-- identity, type, tenant and times.
pub decode-encode_envelope :
    (j : Json) (e d : Envelope) (raw rest : Bytes)
    → j.decode_envelope raw ≡ some (d, rest)
    → j.at_end rest ≡ true
    → valid_unicode_json raw ≡ true
    → SameEvent j e d
    → encode_envelope j e ≡ ok raw
    → decode_envelope j raw ≡ ok (record d { received_at = utc d.received_at })
decode-encode_envelope j e d raw rest read done text same h =
    let (accepted, a, written, fits) = encode_parts j e raw h in
    let (good, tenant, set, _) = (accept_iff j e.input e.tenant_id e.received_at accepted).0 a in
    decode_whole j raw rest d fits text read done
    ∙ (accept_iff j d.input d.tenant_id d.received_at _).1
        (same_input good, rw same.tenant_id tenant, rw same.received_at set, refl)
  where
    same_input : IsInput j e.input → IsInput j d.input
    same_input g = record {
      identified = rw same.event_id g.identified;
      typed = rw same.event_type g.typed;
      type_short = rw same.event_type g.type_short;
      type_utf8 = rw same.event_type g.type_utf8;
      type_no_nul = rw same.event_type g.type_no_nul;
      dated = rw same.occurred_at g.dated;
      object = same.object ∙ g.object;
      jsonb = same.jsonb ∙ g.jsonb;
    }
