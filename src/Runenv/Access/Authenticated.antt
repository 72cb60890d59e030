-- ===== src/Runenv/Access/Authenticated.antt =====
-- The key of a run opens the service that is started with the same settings.
use mathlib.Core.Path.{subst}
use ingestkit.Prelude.{
  ◌≡◌, ◌≢◌, refl, sym, ap, ◌∙◌, inl, inr, Bool, true, false, Bool-cases, Option, none, some, [],
  ◌∷◌, ◌++◌, Bytes, bytes_eq, bytes_eq_iff, bytes_eq_refl, codes, ok, Result-cases, arith,
}
use ingestkit.Prelude.Assoc.{Assoc, lookup, Distinct, lookup-insert}
use ingestkit.Api.Auth.{
  ApiKeyConfig, new_api_key_config, add_key, bearer, authenticated, api_key_auth, api_key_auth_iff,
}
use ingestkit.Api.App.{Config, App, add_keys, new_app}
use ingestkit.Runenv.DeploymentConfig.{DeploymentConfig}
use ingestkit.Runenv.Access.{default_key, api_key}

or_lookup : Option Bytes → Option Bytes → Option Bytes
or_lookup none o = o
or_lookup (some t) o = some t

lookup-add_keys :
    (pairs : Assoc Bytes) (keys done : ApiKeyConfig) (k : Bytes)
    → Distinct pairs
    → add_keys pairs keys ≡ ok done
    → lookup k done.keys ≡ or_lookup (lookup k pairs) (lookup k keys.keys)
unfolding add_keys lookup or_lookup add_key
lookup-add_keys [] keys done k d h = ground arith
lookup-add_keys ((j, t) ∷ pairs) keys done k d h =
    let rest = lookup-add_keys pairs (add_key keys j t) done k d.1 (ground arith) in
    let here = lookup-insert j k t keys.keys in
    elim (Bool-cases (bytes_eq j k)) [
      | inl e ↦
          let absent : lookup k pairs ≡ none =
            ap (λ i. lookup i pairs) (sym ((bytes_eq_iff j k).0 e)) ∙ d.0 in
          rw e (rest ∙ rw (absent, here, e) refl)
      | inr e ↦ rw e (rest ∙ rw (here, e) refl)
    ]

default_key_here :
    (j t : Bytes) (m : Assoc Bytes)
    → bytes_eq t (codes "default") ≡ true
    → default_key ((j, t) ∷ m) ≡ j
unfolding default_key
default_key_here j t m e = rw (e, default_key) refl

default_key_later :
    (j t : Bytes) (m : Assoc Bytes)
    → bytes_eq t (codes "default") ≡ false
    → default_key ((j, t) ∷ m) ≡ default_key m
unfolding default_key
default_key_later j t m e = rw (e, default_key) refl

nothing_default : default_key [] ≡ []
unfolding default_key
nothing_default = refl

default_key-lookup :
    (m : Assoc Bytes)
    → Distinct m
    → default_key m ≢ []
    → lookup (default_key m) m ≡ some (codes "default")
unfolding lookup
default_key-lookup [] d n = absurd (n nothing_default)
default_key-lookup ((j, t) ∷ m) d n = elim (Bool-cases (bytes_eq t (codes "default"))) [
  | inl e ↦
      rw (default_key_here j t m e, bytes_eq_refl j)
        (ap some ((bytes_eq_iff t (codes "default")).0 e))
  | inr e ↦
      let later = default_key-lookup m d.1 (rw (default_key_later j t m e) at n) in
      elim (Bool-cases (bytes_eq j (default_key m))) [
        | inl q ↦
            let absent : lookup (default_key m) m ≡ none =
              ap (λ i. lookup i m) (sym ((bytes_eq_iff j (default_key m)).0 q)) ∙ d.0 in
            absurd (cc (later, absent))
        | inr q ↦
            subst (λ i. lookup i ((j, t) ∷ m) ≡ some (codes "default"))
              (sym (default_key_later j t m e)) (rw q later)
      ]
]

nothing_known : (k : Bytes) → lookup k new_api_key_config.keys ≡ none
unfolding new_api_key_config lookup
nothing_known k = refl

new_app-keys :
    (c : Config) (has_publisher : Bool) (app : App)
    → new_app c has_publisher ≡ ok app
    → add_keys c.api_keys new_api_key_config ≡ ok app.keys
unfolding new_app
new_app-keys c p app h = elim (Result-cases (add_keys c.api_keys new_api_key_config)) [
  | inl w ↦ ground (arith, w.1)
  | inr w ↦ absurd (ground arith)
]

-- A service that `NewApp` builds of the keys of a deployment authenticates the key that a run of
-- this deployment uses, if there is one, as the tenant `default`.
pub api_key-authenticated :
    (d : DeploymentConfig) (c : Config) (has_publisher : Bool) (app : App)
    → Distinct d.api_keys
    → c.api_keys ≡ d.api_keys
    → new_app c has_publisher ≡ ok app
    → api_key true (ok d) ≢ []
    → api_key_auth app.keys (bearer ++ api_key true (ok d)) ≡ authenticated (codes "default")
unfolding api_key or_lookup
api_key-authenticated d c p app distinct same made present =
    let k = default_key d.api_keys in
    let listed = default_key-lookup d.api_keys distinct present in
    let keys =
      lookup-add_keys d.api_keys new_api_key_config app.keys k distinct
        (ap (λ m. add_keys m new_api_key_config) (sym same) ∙ new_app-keys c p app made) in
    (api_key_auth_iff app.keys (bearer ++ k) (codes "default")).1
      (λ e. cc, inl (k, refl, keys ∙ rw listed refl))
