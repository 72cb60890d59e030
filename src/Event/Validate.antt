-- ===== src/Event/Validate.antt =====
-- `validate` and `Accept` of internal/event/event.go, with the checks of text and tenant.
use ingestkit.Prelude.{
  Bool, false, not, ◌&&◌, ◌||◌, Bytes, ◌==◌, leb, ltb, length, Result, ok, ◌>>◌, require,
}
use ingestkit.Event.Types.{
  Time, is_zero, utc, Input, Envelope, Message, bad_event_id, bad_event_type, bad_occurred_at,
  bad_payload, bad_jsonb, Error, validation, server_identity, Json,
}
use ingestkit.Event.Unicode.{utf8_valid, contains_nul}
use ingestkit.Event.Jsonb.{valid_jsonb}

unfoldable pub is_too_large : Error → Bool
is_too_large (validation _ too_large) = too_large
is_too_large _ = false

abbrev pub invalid : Message → Error
invalid message = validation message false

unfoldable pub valid_text : Bytes → Bool
valid_text s = utf8_valid s && not (contains_nul s)

unfoldable pub valid_tenant : Bytes → Bool
valid_tenant s = leb 1 (length s) && leb (length s) 128 && valid_text s

unfoldable pub validate : Json → Input → Result Error (Unit {0})
validate j in' = do
  require (not (in'.event_id == 0)) (invalid bad_event_id)
  require
      (not (
        (length in'.event_type == 0)
        || ltb 128 (length in'.event_type)
        || not (valid_text in'.event_type)))
      (invalid bad_event_type)
  require (not (is_zero in'.occurred_at)) (invalid bad_occurred_at)
  require (j.is_object in'.payload) (invalid bad_payload)
  require (valid_jsonb j in'.payload) (invalid bad_jsonb)

unfoldable pub accept : Json → Input → Bytes → Time → Result Error Envelope
accept j in' tenant received = do
  validate j in'
  require (valid_tenant tenant && not (is_zero received)) server_identity
  ok (record { input = in'; tenant_id = tenant; received_at = utc received })
