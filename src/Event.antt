-- ===== src/Event.antt =====
-- internal/event: the HTTP and broker event contract.
pub mod Unicode
pub mod Number
pub mod Types
pub mod Jsonb
mod Validate
pub mod Decode
pub mod Laws
unfoldable pub use Unicode.{utf8_valid, contains_nul, valid_unicode_json}
unfoldable pub use Number.{representable_number}
unfoldable pub use Types.{is_zero}
pub use Types.*
unfoldable pub use Jsonb.{valid_jsonb}
unfoldable pub use Validate.{validate, accept, valid_text, valid_tenant, is_too_large}
unfoldable pub use Decode.{decode, decode_input, decode_batch, encode_envelope, decode_envelope}
