-- ===== src/Config/ApiKeys.antt =====
-- internal/config/api_keys.go: the JSON object of API keys, read token by token so that no key is
-- mapped twice. The decoder of encoding/json is a parameter.
pub mod Reading
use ingestkit.Prelude.{
  ℕ, zero, suc, Bool, true, false, not, Option, none, some, is_some, List, [], ◌∷◌, Bytes, Result,
  ok, err, ◌>>=◌, ◌>>◌, require, if◌then◌else◌,
}
use ingestkit.Prelude.Assoc.{Assoc, lookup, insert}

-- The tokens that the function tells apart.
pub data JsonToken : Type 0 where
  open_brace close_brace other : JsonToken
  text : Bytes → JsonToken

-- The values that `Decode` into a string tells apart: null leaves the string as it is.
pub data JsonValue : Type 0 where
  string_value : Bytes → JsonValue
  null_value other_value : JsonValue

-- A `json.Decoder` in a state of type `S`: `Token`, `More`, the value that `Decode` reads, whether a
-- further `Decode` gives io.EOF, and the number of bytes that are left.
pub record Decoder (S : Type 0) : Type 0 where
  pub token : S → Option (JsonToken × S)
  pub more : S → Bool
  pub decode : S → Option (JsonValue × S)
  pub at_end : S → Bool
  pub left : S → ℕ

-- The one error of the function; `out_of_fuel` belongs to the model only.
pub data ApiKeysError : Type 0 where
  invalid_mapping out_of_fuel : ApiKeysError

module _ {S : Type 0} (d : Decoder S) where
  unfoldable pub read_text : Option (JsonToken × S) → Result ApiKeysError (Bytes × S)
  read_text (some (text key, s)) = ok (key, s)
  read_text _ = err invalid_mapping

  unfoldable pub read_key : S → Result ApiKeysError (Bytes × S)
  unfolding read_text
  read_key s = read_text (d.token s)

  -- `var tenant string`, and `Decode(&tenant)`.
  unfoldable pub decoded_tenant : Option (JsonValue × S) → Result ApiKeysError (Bytes × S)
  decoded_tenant none = err invalid_mapping
  decoded_tenant (some (string_value tenant, s)) = ok (tenant, s)
  decoded_tenant (some (null_value, s)) = ok ([], s)
  decoded_tenant (some (other_value, s)) = err invalid_mapping

  unfoldable pub read_tenant : S → Result ApiKeysError (Bytes × S)
  unfolding decoded_tenant
  read_tenant s = decoded_tenant (d.decode s)

  -- One key and its tenant, with the check that the key is new.
  unfoldable pub read_pair : Assoc Bytes → S → Result ApiKeysError (Assoc Bytes × S)
  unfolding read_key read_tenant
  read_pair keys s = do
    key ← read_key s
    require (not (is_some (lookup key.0 keys))) invalid_mapping
    tenant ← read_tenant key.1
    ok (insert key.0 tenant.0 keys, tenant.1)

  -- The loop while there are more pairs.
  unfoldable pub read_pairs : ℕ → Assoc Bytes → S → Result ApiKeysError (Assoc Bytes × S)
  unfolding read_pair
  read_pairs zero keys s = err out_of_fuel
  read_pairs (suc fuel) keys s =
      if d.more s then (do pair ← read_pair keys s; read_pairs fuel pair.0 pair.1) else ok (keys, s)

  unfoldable pub read_brace : JsonToken → Option (JsonToken × S) → Result ApiKeysError S
  read_brace open_brace (some (open_brace, s)) = ok s
  read_brace close_brace (some (close_brace, s)) = ok s
  read_brace _ _ = err invalid_mapping

  -- Each pair takes a byte at least.
  unfoldable pub parse_api_keys : S → Result ApiKeysError (Assoc Bytes)
  parse_api_keys s = do
    opened ← read_brace open_brace (d.token s)
    read ← read_pairs (suc (d.left opened)) [] opened
    closed ← read_brace close_brace (d.token read.1)
    require (d.at_end closed) invalid_mapping
    ok read.0
