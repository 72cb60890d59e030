-- ===== src/Api/App/Delivery.antt =====
-- A decoded event of a tenant of the service is never refused: it is handed to the publisher.
use mathlib.Core.Option.{some-injective}
use mathlib.Core.Path.{subst}
use ingestkit.Prelude.{
  ◌≡◌, refl, ◌≢◌, inl, inr, Bool, true, false, some, List, [], ◌∷◌, Bytes, bytes_eq, map, All, ok,
  Result-cases, arith, Bool-cases, if◌then◌else◌,
}
use ingestkit.Prelude.Assoc.{Assoc, lookup, lookup-insert}
use ingestkit.Event.{Json, Input, Envelope, Time, zero_instant, decode_input}
use ingestkit.Event.Laws.{IsInput, IsTenant, accept_iff, valid_tenant_iff, decode_input-IsInput}
use ingestkit.Event.Laws.Batch.{decode_batch-Each}
use ingestkit.Api.Auth.{ApiKeyConfig, new_api_key_config, add_key}
use ingestkit.Api.App.{Config, App, add_keys, new_app, decode_body, stamp, publish_all, ingest}
use ingestkit.Api.App.Ingestion.{stamped}

decode_body-IsInput :
    (j : Json) (many : Bool) (raw : Bytes) (is : List Input)
    → decode_body j many raw ≡ ok is
    → All (IsInput j) is
unfolding decode_body
decode_body-IsInput j true raw is h =
    let (_, _, _, _, good, _, _) = decode_batch-Each j raw is h in good
decode_body-IsInput j false raw is h = elim (Result-cases (decode_input j raw)) [
  | inl w ↦ subst (All (IsInput j)) (one w.0 w.1 h) (decode_input-IsInput j raw w.0 w.1, tt)
  | inr w ↦ absurd (ground arith)
]
  where
    one : (i : Input) → decode_input j raw ≡ ok i → decode_body j false raw ≡ ok is → i ∷ [] ≡ is
    one i p q = ground arith

stamp_total :
    (j : Json) (tenant : Bytes) (received : Time) (is : List Input)
    → IsTenant tenant
    → received.instant ≢ zero_instant
    → All (IsInput j) is
    → stamp j tenant received is ≡ ok (map (stamped tenant received) is)
unfolding stamp
stamp_total j tenant received [] t r a = refl
stamp_total j tenant received (i ∷ is) t r a = rw (
  (accept_iff j i tenant received (stamped tenant received i)).1 (a.0, t, r, refl),
  stamp_total j tenant received is t r a.1,
)

-- Once a body of a valid tenant is decoded, all its events are handed to the publisher in one call,
-- and the answer is 202 or 503 by the publisher's word alone.
pub ingest-handed :
    (j : Json) (publish : List Envelope → Bool) (many : Bool) (tenant : Bytes) (received : Time)
    (raw : Bytes) (is : List Input)
    → IsTenant tenant
    → received.instant ≢ zero_instant
    → decode_body j many raw ≡ ok is
    → ((ingest j publish many (some tenant) received raw).handed
        ≡ some (map (stamped tenant received) is))
      × ((ingest j publish many (some tenant) received raw).status
          ≡ (if publish (map (stamped tenant received) is) then 202 else 503))
unfolding ingest publish_all
ingest-handed j publish many tenant received raw is t r d =
    rw (d, ingest)
      (rw (stamp_total j tenant received is t r (decode_body-IsInput j many raw is d))
        (ground arith))

add_key-IsTenant :
    (k t : Bytes) (keys : ApiKeyConfig)
    → IsTenant t
    → ((key tenant : Bytes) → lookup key keys.keys ≡ some tenant → IsTenant tenant)
    → (key tenant : Bytes) → lookup key (add_key keys k t).keys ≡ some tenant
    → IsTenant tenant
unfolding add_key
add_key-IsTenant k t keys v good key tenant e = elim (Bool-cases (bytes_eq k key)) [
  | inl q ↦ subst IsTenant (some-injective t tenant (rw (lookup-insert, q) at e)) v
  | inr q ↦ good key tenant (rw (lookup-insert, q) at e)
]

add_keys-IsTenant :
    (pairs : Assoc Bytes) (keys done : ApiKeyConfig)
    → ((key tenant : Bytes) → lookup key keys.keys ≡ some tenant → IsTenant tenant)
    → add_keys pairs keys ≡ ok done
    → (key tenant : Bytes) → lookup key done.keys ≡ some tenant
    → IsTenant tenant
unfolding add_keys
add_keys-IsTenant [] keys done good h key tenant e = good key tenant (ground arith)
add_keys-IsTenant ((k, t) ∷ rest) keys done good h key tenant e =
    add_keys-IsTenant rest (add_key keys k t) done
      (add_key-IsTenant k t keys ((valid_tenant_iff t).0 (ground arith)) good) (ground arith) key
      tenant e

empty_keys : (k t : Bytes) → lookup k new_api_key_config.keys ≡ some t → ⊥
unfolding new_api_key_config lookup
empty_keys k t q = cc

-- Every tenant to which a service that `NewApp` builds maps a key is a valid one.
pub new_app-IsTenant :
    (c : Config) (has_publisher : Bool) (app : App) (key tenant : Bytes)
    → new_app c has_publisher ≡ ok app
    → lookup key app.keys.keys ≡ some tenant
    → IsTenant tenant
unfolding new_app
new_app-IsTenant c p app key tenant h e =
    elim (Result-cases (add_keys c.api_keys new_api_key_config)) [
      | inl w ↦
          add_keys-IsTenant c.api_keys new_api_key_config w.0 none_yet w.1 key tenant (ground arith)
      | inr w ↦ absurd (ground arith)
    ]
  where
    none_yet : (k t : Bytes) → lookup k new_api_key_config.keys ≡ some t → IsTenant t
    none_yet k t q = absurd (empty_keys k t q)
