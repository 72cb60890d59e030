-- ===== src/Config/Runtime/Starting.antt =====
-- What an environment that was loaded promises the service that starts with it.
use ingestkit.Prelude.{
  ◌≤◌, ◌≡◌, refl, ◌↔◌, Bool, true, not, ◌&&◌, ◌||◌, [], ◌∷◌, Bytes, ℤ, pos, pos_part, leb_ℤ, ◌==◌,
  length, all, All, inl, inr, Result, ok, err, Result-cases, arith, codes,
}
use ingestkit.Prelude.Assoc.{Assoc}
use ingestkit.Event.{valid_text, valid_tenant}
use ingestkit.Api.Auth.{ApiKeyConfig, new_api_key_config, add_key}
use ingestkit.Api.RateLimit.{new_rate_limiter}
use ingestkit.Api.App.{Config, App, add_keys, new_app}
use ingestkit.Config.ApiKeys.{ApiKeysError, Decoder, parse_api_keys}
use ingestkit.Config.Runtime.{ApiEnv, good_mapping, rate_limit, parsed, load_api_env}

-- The configuration that cmd/api makes of an environment.
abbrev pub config_of : ApiEnv → Config
config_of c = record {
  api_keys = c.api_keys;
  rate_limit_rps = c.rate_limit_rps;
  publish_timeout = c.publish_timeout;
}

abbrev pub HasText : Bytes × Bytes → Type 0
HasText p = valid_text p.1 ≡ true

add_keys-HasText :
    (pairs : Assoc Bytes) (keys done : ApiKeyConfig)
    → add_keys pairs keys ≡ ok done
    → All HasText pairs
unfolding add_keys valid_tenant
add_keys-HasText [] keys done h = tt
add_keys-HasText ((k, t) ∷ rest) keys done h =
    (ground arith, add_keys-HasText rest (add_key keys k t) done (ground arith))

admitted :
    (k t : Bytes)
    → good_mapping (k, t) ≡ true
    → valid_text t ≡ true
    → not ((length k == 0) || not (valid_tenant t)) ≡ true
unfolding valid_tenant
admitted k t g h = ground arith

add_keys-cons :
    (k t : Bytes) (rest : Assoc Bytes) (keys done : ApiKeyConfig)
    → not ((length k == 0) || not (valid_tenant t)) ≡ true
    → add_keys rest (add_key keys k t) ≡ ok done
    → add_keys ((k, t) ∷ rest) keys ≡ ok done
unfolding add_keys
add_keys-cons k t rest keys done v e = rw v e

pub both : (a b : Bool) → a && b ≡ true → (a ≡ true) × (b ≡ true)
both a b h = (ground arith, ground arith)

pub HasText-add_keys :
    (pairs : Assoc Bytes) (keys : ApiKeyConfig)
    → all good_mapping pairs ≡ true
    → All HasText pairs
    → (done : ApiKeyConfig) × (add_keys pairs keys ≡ ok done)
unfolding add_keys
HasText-add_keys [] keys g h = (keys, refl)
HasText-add_keys ((k, t) ∷ rest) keys g h =
    let (one, more) = both (good_mapping (k, t)) (all good_mapping rest) g in
    let (done, e) = HasText-add_keys rest (add_key keys k t) more h.1 in
    (done, add_keys-cons k t rest keys done (admitted k t one h.0) e)

parsed-lt :
    (r : Result ApiKeysError (Assoc Bytes)) (keys : Assoc Bytes)
    → parsed r ≡ ok keys
    → 1 ≤ length keys
unfolding parsed
parsed-lt (ok []) keys h = absurd (ground arith)
parsed-lt (ok (p ∷ ps)) keys h = ground arith
parsed-lt (err e) keys h = absurd (ground arith)

rate_limit-positive : (raw : Bytes) (n : ℤ) → rate_limit raw ≡ ok n → leb_ℤ (pos 1) n ≡ true
unfolding rate_limit
rate_limit-positive [] n h = ground arith
rate_limit-positive (c ∷ raw) n h = ground arith

guard :
    (c : ApiEnv)
    → 1 ≤ length c.api_keys
    → leb_ℤ (pos 1) c.rate_limit_rps ≡ true
    → c.publish_timeout ≡ pos 5_000_000_000
    → not (
        (length c.api_keys == 0)
        || leb_ℤ c.rate_limit_rps (pos 0)
        || leb_ℤ c.publish_timeout (pos 0)
        || not true)
      ≡ true
guard c k r t = rw t (ground arith)

new_app-add_keys :
    (c : Config) (p : Bool) (app : App)
    → new_app c p ≡ ok app
    → (done : ApiKeyConfig) × (add_keys c.api_keys new_api_key_config ≡ ok done)
unfolding new_app
new_app-add_keys c p app h = elim (Result-cases (add_keys c.api_keys new_api_key_config)) [
  | inl w ↦ w
  | inr w ↦ absurd (ground arith)
]

module _ {S : Type 0} (d : Decoder S) (new_reader : Bytes → S) where
  load_parts :
      (get : Bytes → Bytes) (c : ApiEnv)
      → load_api_env d new_reader get ≡ ok c
      → (1 ≤ length c.api_keys)
        × (all good_mapping c.api_keys ≡ true)
        × (leb_ℤ (pos 1) c.rate_limit_rps ≡ true)
        × (c.publish_timeout ≡ pos 5_000_000_000)
  unfolding load_api_env
  load_parts get c h =
      elim (Result-cases (parsed (parse_api_keys d (new_reader (get (codes "API_KEYS")))))) [
        | inr w ↦ absurd (ground arith)
        | inl w ↦ elim (Result-cases (rate_limit (get (codes "RATE_LIMIT_RPS")))) [
          | inr v ↦ absurd (ground arith)
          | inl v ↦
              let keys : c.api_keys ≡ w.0 = ground arith in
              let rps : c.rate_limit_rps ≡ v.0 = ground arith in
              (
                rw keys (parsed-lt _ w.0 w.1),
                rw keys (ground arith),
                rw rps (rate_limit-positive _ v.0 v.1),
                ground arith,
              )
        ]
      ]

  -- The service starts with an environment that `LoadAPIEnv` has accepted exactly if all its tenants
  -- are UTF-8 without NUL; `NewApp` has no other reason to refuse it.
  pub load_api_env-new_app :
      (get : Bytes → Bytes) (c : ApiEnv)
      → load_api_env d new_reader get ≡ ok c
      → ((app : App) × (new_app (config_of c) true ≡ ok app)) ↔ All HasText c.api_keys
  unfolding new_app
  load_api_env-new_app get c h =
      let (some_keys, good, rps, timeout) = load_parts get c h in
      let open_guard = guard c some_keys rps timeout in
      (
        λ a.
            add_keys-HasText c.api_keys new_api_key_config _
              (new_app-add_keys (config_of c) true a.0 a.1).1,
        λ t.
            let (done, e) = HasText-add_keys c.api_keys new_api_key_config good t in
            (
              record { keys = done; limiter = new_rate_limiter (pos_part c.rate_limit_rps) },
              rw (open_guard, e) refl,
            ),
      )
