-- ===== src/Api/Auth.antt =====
-- internal/api/middleware/auth.go: the map of API keys and the authentication of a request.
use ingestkit.Prelude.{
  ◌≡◌, refl, sym, ◌∙◌, ◌≢◌, ◌↔◌, ◌⊎◌, inl, inr, Option, none, some, Option-cases, [], ◌∷◌, ◌++◌,
  Bytes, strip_prefix, strip_prefix_iff, codes, arith,
}
use ingestkit.Prelude.Assoc.{Assoc, lookup, insert}

pub record ApiKeyConfig : Type 0 where
  pub keys : Assoc Bytes

unfoldable pub new_api_key_config : ApiKeyConfig
new_api_key_config = record { keys = [] }

unfoldable pub add_key : ApiKeyConfig → Bytes → Bytes → ApiKeyConfig
add_key c api_key tenant_id = record { keys = insert api_key tenant_id c.keys }

unfoldable pub validate_key : ApiKeyConfig → Bytes → Option Bytes
validate_key c api_key = lookup api_key c.keys

abbrev pub bearer : Bytes
bearer = codes "Bearer "

-- The key of an `Authorization` header, with the prefix or without.
unfoldable pub extract_key : Bytes → Bytes
extract_key header = elim (strip_prefix bearer header) [ none ↦ header | some key ↦ key ]

pub data AuthResult : Type 0 where
  missing_header invalid_key : AuthResult
  authenticated : Bytes → AuthResult

identify : Option Bytes → AuthResult
identify none = invalid_key
identify (some tenant) = authenticated tenant

-- The header is empty where the request has none.
unfoldable pub api_key_auth : ApiKeyConfig → Bytes → AuthResult
unfolding extract_key validate_key identify
api_key_auth c [] = missing_header
api_key_auth c (h ∷ header) = identify (validate_key c (extract_key (h ∷ header)))

Looked : ApiKeyConfig → Bytes → Bytes → Type 0
Looked c header tenant = lookup (extract_key header) c.keys ≡ some tenant

api_key_auth-Looked :
    (c : ApiKeyConfig) (header tenant : Bytes)
    → (api_key_auth c header ≡ authenticated tenant) ↔ ((header ≢ []) × Looked c header tenant)
unfolding api_key_auth Looked
api_key_auth-Looked c [] tenant = (λ h. cc, λ h. absurd (h.0 refl))
api_key_auth-Looked c (x ∷ header) tenant = (λ h. (λ e. cc, ground arith), λ h. ground arith)

extract_key_lem :
    (header : Bytes)
    → ((key : Bytes) × (header ≡ bearer ++ key) × (extract_key header ≡ key))
      ⊎ (((key : Bytes) → header ≢ bearer ++ key) × (extract_key header ≡ header))
unfolding extract_key
extract_key_lem header = elim (Option-cases (strip_prefix bearer header)) [
  | inl n ↦
      inr (λ key e. absurd (cc (n, (strip_prefix_iff bearer header key).1 e)), rw (n, extract_key))
  | inr w ↦ inl (w.0, (strip_prefix_iff bearer header w.0).0 w.1, rw (w.1, extract_key))
]

abbrev Authorized : ApiKeyConfig → Bytes → Bytes → Type 0
Authorized c header tenant =
    ((key : Bytes) × (header ≡ bearer ++ key) × (lookup key c.keys ≡ some tenant))
    ⊎ (((key : Bytes) → header ≢ bearer ++ key) × (lookup header c.keys ≡ some tenant))

Looked-Authorized :
    (c : ApiKeyConfig) (header tenant : Bytes) → Looked c header tenant ↔ Authorized c header tenant
unfolding Looked
Looked-Authorized c header tenant = elim (extract_key_lem header) [
  | inl w ↦ rw (w.2) (
    λ h. inl (w.0, w.1, h),
    elim [
      | inl v ↦ rw (prefix_injective w.0 v.0 (sym w.1 ∙ v.1)) v.2
      | inr v ↦ absurd (v.0 w.0 w.1)
    ],
  )
  | inr w ↦ rw (w.1) (λ h. inr (w.0, h), elim [ inl v ↦ absurd (w.0 v.0 v.1) | inr v ↦ v.1 ])
]
  where
    prefix_injective : (a b : Bytes) → bearer ++ a ≡ bearer ++ b → a ≡ b
    prefix_injective a b e = ground arith

-- A request is authenticated as a tenant exactly if its header is the key of that tenant behind
-- one "Bearer ", or has no such prefix and is itself the key of that tenant, and is not empty.
pub api_key_auth_iff :
    (c : ApiKeyConfig) (header tenant : Bytes)
    → (api_key_auth c header ≡ authenticated tenant) ↔ (
        (header ≢ [])
        × (((key : Bytes) × (header ≡ bearer ++ key) × (lookup key c.keys ≡ some tenant))
            ⊎ (((key : Bytes) → header ≢ bearer ++ key) × (lookup header c.keys ≡ some tenant))))
api_key_auth_iff c header tenant =
    let f = api_key_auth-Looked c header tenant in
    let g = Looked-Authorized c header tenant in
    (λ h. ((f.0 h).0, g.0 (f.0 h).1), λ p. f.1 (p.0, g.1 p.1))
