-- ===== src/Config/Runtime.antt =====
-- internal/config/runtime.go: the environments of the two programs. `get` is `os.Getenv`, and
-- net/url's `Parse` is a parameter that gives the scheme and the host.
pub mod Starting
use ingestkit.Prelude.{
  ℕ, ◌*◌, Bool, true, false, not, ◌&&◌, ◌||◌, Option, none, some, List, [], ◌∷◌, Bytes, bytes_eq,
  codes, ℤ, pos, sub_ℕ, leb_ℤ, leb, ltb, ◌==◌, length, all, Result, ok, err, ◌>>=◌, ◌>>◌, require,
  if◌then◌else◌,
}
use ingestkit.Prelude.Assoc.{Assoc}
use ingestkit.Prelude.Strings.{split}
use ingestkit.Event.Number.{digits}
use ingestkit.Config.ApiKeys.{Decoder, ApiKeysError, parse_api_keys}

pub record ApiEnv : Type 0 where
  pub listen_address : Bytes
  pub brokers : List Bytes
  pub event_topic : Bytes
  pub api_keys : Assoc Bytes
  pub rate_limit_rps : ℤ
  pub publish_timeout : ℤ

pub record ConsumerEnv : Type 0 where
  pub listen_address : Bytes
  pub brokers : List Bytes
  pub event_topic : Bytes
  pub dlq_topic : Bytes
  pub group_id : Bytes
  pub database_url : Bytes

pub data EnvError : Type 0 where
  bad_api_keys invalid_mapping bad_rate_limit bad_database_url : EnvError

unfoldable pub value : (Bytes → Bytes) → Bytes → Bytes → Bytes
value get k d = let v = get k in if length v == 0 then d else v

unfoldable pub brokers : (Bytes → Bytes) → List Bytes
brokers get = split b',' (value get (codes "BROKERS") (codes "localhost:19092"))

-- strconv.Atoi, of 64 bits.
unfoldable pub atoi : Bytes → Option ℤ
atoi [] = none
atoi (c ∷ s) =
    if c == b'-'
    then elim (digits s) [
      | none ↦ none
      | some n ↦ if leb n 0x8000_0000_0000_0000 then some (sub_ℕ 0 n) else none
    ]
    else elim (digits (if c == b'+' then s else c ∷ s)) [
      | none ↦ none
      | some n ↦ if ltb n 0x8000_0000_0000_0000 then some (pos n) else none
    ]

abbrev pub second : ℕ
second = 1_000_000_000

-- The test of the loop over the keys.
abbrev pub good_mapping : Bytes × Bytes → Bool
good_mapping (key, tenant) =
    not ((length key == 0) || ltb (length tenant) 1 || ltb 128 (length tenant))

-- The limit, from the text of its variable.
unfoldable pub rate_limit : Bytes → Result EnvError ℤ
rate_limit [] = ok (pos 1000)
rate_limit (c ∷ raw) = elim (atoi (c ∷ raw)) [
  | none ↦ err bad_rate_limit
  | some n ↦ if leb_ℤ (pos 1) n then ok n else err bad_rate_limit
]

unfoldable pub parsed : Result ApiKeysError (Assoc Bytes) → Result EnvError (Assoc Bytes)
parsed (ok []) = err bad_api_keys
parsed (ok (p ∷ keys)) = ok (p ∷ keys)
parsed (err e) = err bad_api_keys

module _ {S : Type 0} (d : Decoder S) (new_reader : Bytes → S) where
  unfoldable pub load_api_env : (Bytes → Bytes) → Result EnvError ApiEnv
  load_api_env get = do
    keys ← parsed (parse_api_keys d (new_reader (get (codes "API_KEYS"))))
    require (all good_mapping keys) invalid_mapping
    rps ← rate_limit (get (codes "RATE_LIMIT_RPS"))
    ok (record {
      listen_address = value get (codes "HTTP_ADDR") (codes ":8080");
      brokers = brokers get;
      event_topic = value get (codes "EVENT_TOPIC") (codes "ingestkit.events");
      api_keys = keys;
      rate_limit_rps = rps;
      publish_timeout = pos (5 * second);
    })

abbrev good_url : Option (Bytes × Bytes) → Bool
good_url none = false
good_url (some (scheme, host)) =
    not (length host == 0)
    && (bytes_eq scheme (codes "postgres") || bytes_eq scheme (codes "postgresql"))

unfoldable pub load_consumer_env :
    (Bytes → Option (Bytes × Bytes)) → (Bytes → Bytes) → Result EnvError ConsumerEnv
load_consumer_env parse_url get = do
  let url = get (codes "DATABASE_URL")
  require (good_url (parse_url url)) bad_database_url
  ok (record {
    listen_address = value get (codes "METRICS_ADDR") (codes ":8081");
    brokers = brokers get;
    event_topic = value get (codes "EVENT_TOPIC") (codes "ingestkit.events");
    dlq_topic = value get (codes "DLQ_TOPIC") (codes "ingestkit.dlq");
    group_id = value get (codes "CONSUMER_GROUP") (codes "ingestkit-consumer");
    database_url = url;
  })
