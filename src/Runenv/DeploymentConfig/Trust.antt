-- ===== src/Runenv/DeploymentConfig/Trust.antt =====
-- What the settings of a deployment promise to the service that starts with them.
use ingestkit.Prelude.{
  ℕ, ◌≤◌, ◌≡◌, refl, true, not, ◌||◌, Option, none, some, [], ◌∷◌, Bytes, pos, leb_ℤ, ◌==◌, length,
  all, All, inl, inr, Result, ok, err, Result-cases, arith, codes,
}
use ingestkit.Prelude.Assoc.{Assoc}
use ingestkit.Event.{valid_tenant}
use ingestkit.Api.Auth.{ApiKeyConfig, new_api_key_config}
use ingestkit.Api.RateLimit.{new_rate_limiter}
use ingestkit.Api.App.{App, add_keys, new_app}
use ingestkit.Config.ApiKeys.{Decoder, ApiKeysError, parse_api_keys}
use ingestkit.Config.Runtime.{good_mapping}
use ingestkit.Config.Runtime.Starting.{HasText, HasText-add_keys, both}
use ingestkit.Runenv.DeploymentConfig.{
  DeploymentConfig, EnvFile, is_secret, valid_deployment_domain, scan_lines, read_values, value_of,
  good_pair, parsed_keys, config_of_values, read_deployment_config,
}

pair-good_mapping :
    (k t : Bytes) → good_pair (k, t) ≡ true → (good_mapping (k, t) ≡ true) × HasText (k, t)
unfolding is_secret valid_tenant
pair-good_mapping k t h = (ground arith, ground arith)

all-good_pair :
    (keys : Assoc Bytes)
    → all good_pair keys ≡ true
    → (all good_mapping keys ≡ true) × All HasText keys
all-good_pair [] h = (refl, tt)
all-good_pair ((k, t) ∷ keys) h =
    let (one, more) = both (good_pair (k, t)) (all good_pair keys) h in
    let (a, b) = pair-good_mapping k t one in
    let (c, d) = all-good_pair keys more in (rw (a, c), (b, d))

all-secret : (keys : Assoc Bytes) → all good_pair keys ≡ true → All (λ p. is_secret p.0 ≡ true) keys
all-secret [] h = tt
all-secret ((k, t) ∷ keys) h =
    let (one, more) = both (good_pair (k, t)) (all good_pair keys) h in
    ((both (is_secret k) (valid_tenant t) one).0, all-secret keys more)

parsed_keys-lt :
    (r : Result ApiKeysError (Assoc Bytes)) (keys : Assoc Bytes)
    → parsed_keys r ≡ ok keys
    → 1 ≤ length keys
unfolding parsed_keys
parsed_keys-lt (ok []) keys h = absurd (ground arith)
parsed_keys-lt (ok (p ∷ ps)) keys h = ground arith
parsed_keys-lt (err e) keys h = absurd (ground arith)

new_app-ok :
    (keys : Assoc Bytes) (rps timeout : ℕ) (done : ApiKeyConfig)
    → 1 ≤ length keys
    → 1 ≤ rps
    → 1 ≤ timeout
    → add_keys keys new_api_key_config ≡ ok done
    → new_app
        (record { api_keys = keys; rate_limit_rps = pos rps; publish_timeout = pos timeout })
        true
      ≡ ok (record { keys = done; limiter = new_rate_limiter rps })
unfolding new_app
new_app-ok keys rps timeout done k r t e = rw (guard, e)
  where
    guard :
        not
          ((length keys == 0) || leb_ℤ (pos rps) (pos 0) || leb_ℤ (pos timeout) (pos 0) || not true)
        ≡ true
    guard = ground arith

module _ {S : Type 0} (d : Decoder S) (new_reader : Bytes → S) where
  values_parts :
      (values : Assoc Bytes) (c : DeploymentConfig)
      → config_of_values d new_reader values ≡ ok c
      → (valid_deployment_domain c.domain ≡ true)
        × (is_secret c.admin_password ≡ true)
        × (is_secret c.writer_password ≡ true)
        × (1 ≤ length c.api_keys)
        × (all good_pair c.api_keys ≡ true)
  unfolding config_of_values
  values_parts values c h =
      elim (Result-cases
        (parsed_keys (parse_api_keys d (new_reader (value_of values (codes "API_KEYS")))))) [
          | inr w ↦ absurd (ground arith)
          | inl w ↦
              let keys : c.api_keys ≡ w.0 = ground arith in
              (
                ground arith,
                ground arith,
                ground arith,
                rw keys (parsed_keys-lt _ w.0 w.1),
                rw keys (ground arith),
              )
        ]

  file_parts :
      (f : Option EnvFile) (c : DeploymentConfig)
      → read_deployment_config d new_reader f ≡ ok c
      → (values : Assoc Bytes) × (config_of_values d new_reader values ≡ ok c)
  unfolding read_deployment_config
  file_parts none c h = absurd (ground arith)
  file_parts (some file) c h =
      elim (Result-cases (read_values [] (scan_lines file.text) file.breaks)) [
        | inr w ↦ absurd (ground arith)
        | inl w ↦ (w.0, ground arith)
      ]

  -- A deployment whose settings `ReadDeploymentConfig` accepts has secrets of 64 hexadecimal digits
  -- for both passwords and all its keys, and `NewApp` takes its keys and tenants, with any positive
  -- limit and timeout.
  pub read_deployment_config-new_app :
      (f : Option EnvFile) (c : DeploymentConfig) (rps timeout : ℕ)
      → read_deployment_config d new_reader f ≡ ok c
      → 1 ≤ rps
      → 1 ≤ timeout
      → (is_secret c.admin_password ≡ true)
        × (is_secret c.writer_password ≡ true)
        × All (λ p. is_secret p.0 ≡ true) c.api_keys
        × (app : App) × (new_app
              (record {
                api_keys = c.api_keys;
                rate_limit_rps = pos rps;
                publish_timeout = pos timeout;
              })
              true
            ≡ ok app)
  read_deployment_config-new_app f c rps timeout h r t =
      let (values, v) = file_parts f c h in
      let (_, admin, writer, some_keys, good) = values_parts values c v in
      let (mapped, text) = all-good_pair c.api_keys good in
      let (done, e) = HasText-add_keys c.api_keys new_api_key_config mapped text in
      (
        admin,
        writer,
        all-secret c.api_keys good,
        record { keys = done; limiter = new_rate_limiter rps },
        new_app-ok c.api_keys rps timeout done some_keys r t e,
      )
