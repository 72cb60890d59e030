-- ===== src/Event/Laws.antt =====
-- What the operations of internal/event accept and refuse.
pub mod Batch
pub mod Broker
pub mod Depth
use ingestkit.Prelude.{
  ℕ, ◌+◌, ◌≤◌, ◌<◌, ◌≡◌, refl, sym, ap, ◌∙◌, ◌≢◌, ◌↔◌, Bool, true, false, Option, none, some, inl,
  inr, List, [], ◌∷◌, Bytes, length, All, arith, Option-cases, Result, ok, err, Result-cases, ltb,
  lt→ltb,
}
use ingestkit.Event.Unicode.{utf8_valid, contains_nul, valid_unicode_json}
use ingestkit.Event.Types.{
  Time, is_zero, utc, zero_instant, Input, Envelope, Error, validation, Json, max_event_bytes,
  max_envelope_bytes, max_batch_events,
}
use ingestkit.Event.Jsonb.{valid_jsonb}
use ingestkit.Event.Validate.{is_too_large, valid_text, valid_tenant, validate, accept}
use ingestkit.Event.Decode.{
  decode, decode_input, decode_inputs, decode_batch, encode_envelope, decode_envelope,
}

-- The contract of an event that a client sends.
pub record IsInput (j : Json) (i : Input) : Type 0 where
  pub identified : i.event_id ≢ 0
  pub typed : 1 ≤ length i.event_type
  pub type_short : length i.event_type ≤ 128
  pub type_utf8 : utf8_valid i.event_type ≡ true
  pub type_no_nul : contains_nul i.event_type ≡ false
  pub dated : i.occurred_at.instant ≢ zero_instant
  pub object : j.is_object i.payload ≡ true
  pub jsonb : valid_jsonb j i.payload ≡ true

pub record IsTenant (tenant : Bytes) : Type 0 where
  pub present : 1 ≤ length tenant
  pub short : length tenant ≤ 128
  pub utf8 : utf8_valid tenant ≡ true
  pub no_nul : contains_nul tenant ≡ false

valid_text_iff :
    (s : Bytes) → (valid_text s ≡ true) ↔ ((utf8_valid s ≡ true) × (contains_nul s ≡ false))
unfolding valid_text
valid_text_iff s = ground arith

pub valid_tenant_iff : (t : Bytes) → (valid_tenant t ≡ true) ↔ IsTenant t
unfolding valid_tenant
valid_tenant_iff t = (λ h. ground (arith, valid_text_iff t), λ h. ground (arith, valid_text_iff t))

pub validate_iff : (j : Json) (i : Input) → (validate j i ≡ ok tt) ↔ IsInput j i
unfolding validate is_zero
validate_iff j i = (
  λ h. ground (arith, valid_text_iff i.event_type),
  λ h. ground (arith, valid_text_iff i.event_type),
)

accept_parts :
    (j : Json) (i : Input) (tenant : Bytes) (received : Time) (e : Envelope)
    → accept j i tenant received ≡ ok e
    → (validate j i ≡ ok tt)
      × (valid_tenant tenant ≡ true)
      × (is_zero received ≡ false)
      × (e ≡ record { input = i; tenant_id = tenant; received_at = utc received })
unfolding accept
accept_parts j i tenant received e h = ground arith

accept_whole :
    (j : Json) (i : Input) (tenant : Bytes) (received : Time)
    → validate j i ≡ ok tt
    → valid_tenant tenant ≡ true
    → is_zero received ≡ false
    → accept j i tenant received
      ≡ ok (record { input = i; tenant_id = tenant; received_at = utc received })
unfolding accept
accept_whole j i tenant received v t r = rw (v, t, r)

is_zero-eq-false : (t : Time) → (is_zero t ≡ false) ↔ (t.instant ≢ zero_instant)
unfolding is_zero
is_zero-eq-false t = ground arith

-- `Accept` succeeds exactly on an event that meets the contract, with a tenant that does and a time
-- that is set, and gives the envelope of the event, the tenant and that time in UTC.
pub accept_iff :
    (j : Json) (i : Input) (tenant : Bytes) (received : Time) (e : Envelope)
    → (accept j i tenant received ≡ ok e) ↔ (
        IsInput j i
        × IsTenant tenant
        × (received.instant ≢ zero_instant)
        × (e ≡ record { input = i; tenant_id = tenant; received_at = utc received }))
accept_iff j i tenant received e = (
  λ h.
      let (v, t, r, q) = accept_parts j i tenant received e h in
      ((validate_iff j i).0 v, (valid_tenant_iff tenant).0 t, (is_zero-eq-false received).0 r, q),
  λ (p : IsInput j i
        × IsTenant tenant
        × (received.instant ≢ zero_instant)
        × (e ≡ record { input = i; tenant_id = tenant; received_at = utc received })).
      accept_whole j i tenant received ((validate_iff j i).1 p.0) ((valid_tenant_iff tenant).1 p.1)
        ((is_zero-eq-false received).1 p.2)
      ∙ ap {B = Result Error Envelope} ok (sym p.3),
)

-- What a successful `decode` has read: one document within the limit.
decode_parts {ℓ} :
    {A : Type ℓ} (j : Json) (decoder : Bytes → Option (A × Bytes)) (raw : Bytes) (limit : ℕ) (a : A)
    → decode j decoder raw limit ≡ ok a
    → (rest : Bytes) × (decoder raw ≡ some (a, rest))
      × (j.at_end rest ≡ true)
      × (length raw ≤ limit)
      × (valid_unicode_json raw ≡ true)
unfolding decode
decode_parts j decoder raw limit a h = elim (Option-cases (decoder raw)) [
  | inl n ↦ absurd (ground arith)
  | inr w ↦ (w.0.1, ground arith, ground arith, ground arith, ground arith)
]

-- The errors that are answered with "too large" are exactly those of the byte limit.
decode-too_large {ℓ} :
    {A : Type ℓ} (j : Json) (decoder : Bytes → Option (A × Bytes)) (raw : Bytes) (limit : ℕ)
    (e : Error)
    → decode j decoder raw limit ≡ err e
    → (is_too_large e ≡ true) ↔ (limit < length raw)
unfolding decode is_too_large
decode-too_large j decoder raw limit e h = ground arith

validate-not_too_large :
    (j : Json) (i : Input) (e : Error) → validate j i ≡ err e → is_too_large e ≡ false
unfolding validate is_too_large
validate-not_too_large j i e h = ground arith

-- `DecodeInput` accepts only events that meet the contract.
pub decode_input-IsInput :
    (j : Json) (raw : Bytes) (i : Input) → decode_input j raw ≡ ok i → IsInput j i
unfolding decode_input
decode_input-IsInput j raw i h = (validate_iff j i).0 (ground arith)

-- An error of `DecodeInput` is "too large" exactly if the text is longer than an event may be.
pub decode_input-too_large :
    (j : Json) (raw : Bytes) (e : Error)
    → decode_input j raw ≡ err e
    → (is_too_large e ≡ true) ↔ (max_event_bytes < length raw)
unfolding decode_input
decode_input-too_large j raw e h =
    elim (Result-cases (decode j j.decode_input raw max_event_bytes)) [
      | inl w ↦
          let (_, _, _, fits, _) = decode_parts j j.decode_input raw max_event_bytes w.0 w.1 in
          ground (arith, validate-not_too_large j w.0 e, w.1)
      | inr w ↦ ground (arith, decode-too_large j j.decode_input raw max_event_bytes e, w.1)
    ]
