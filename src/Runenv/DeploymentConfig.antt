-- ===== src/Runenv/DeploymentConfig.antt =====
-- internal/runenv/deployment_config.go: the settings of a deployment, read from a dotenv file.
pub mod Writing
pub mod Trust
use ingestkit.Prelude.{
  ℕ, Bool, true, false, not, ◌&&◌, ◌||◌, Option, none, some, is_some, List, [], ◌∷◌, Bytes,
  bytes_eq, codes, leb, ltb, ◌==◌, length, all, Result, ok, err, ◌>>=◌, ◌>>◌, require,
  if◌then◌else◌,
}
use ingestkit.Prelude.Assoc.{Assoc, lookup, insert}
use ingestkit.Prelude.Strings.{trim_space, split, cut, has_prefix, contains}
use ingestkit.Event.{valid_tenant}
use ingestkit.Config.ApiKeys.{Decoder, ApiKeysError, parse_api_keys}

pub record DeploymentConfig : Type 0 where
  pub domain : Bytes
  pub api_keys : Assoc Bytes
  pub admin_password : Bytes
  pub writer_password : Bytes

pub data DeploymentError : Type 0 where
  cannot_open not_private bad_assignment duplicate_assignment cannot_read : DeploymentError
  bad_domain bad_admin_password bad_writer_password bad_api_keys bad_mapping : DeploymentError

-- A file that could be opened: whether it is regular and for its owner alone, its text, and whether
-- reading fails behind that text.
pub record EnvFile : Type 0 where
  pub is_private : Bool
  pub text : Bytes
  pub breaks : Bool

abbrev pub is_hex : ℕ → Bool
is_hex c = (leb b'0' c && leb c b'9') || (leb b'a' c && leb c b'f') || (leb b'A' c && leb c b'F')

-- `^[0-9a-fA-F]{64}$`
unfoldable pub is_secret : Bytes → Bool
is_secret s = (length s == 64) && all is_hex s

abbrev pub is_alphanumeric : ℕ → Bool
is_alphanumeric c =
    (leb b'A' c && leb c b'Z') || (leb b'a' c && leb c b'z') || (leb b'0' c && leb c b'9')

-- The rest of a label: letters, digits and hyphens, the last of them no hyphen.
unfoldable pub label_tail : Bytes → Bool
label_tail [] = true
label_tail (c ∷ []) = is_alphanumeric c
label_tail (c ∷ d ∷ s) = (is_alphanumeric c || (c == b'-')) && label_tail (d ∷ s)

-- `^[A-Za-z0-9](?:[A-Za-z0-9-]{0,61}[A-Za-z0-9])?$`
unfoldable pub is_label : Bytes → Bool
unfolding label_tail
is_label [] = false
is_label (c ∷ s) = leb (length s) 62 && is_alphanumeric c && label_tail s

unfoldable pub valid_deployment_domain : Bytes → Bool
unfolding is_label
valid_deployment_domain domain =
    not (
      (length domain == 0)
      || ltb 253 (length domain)
      || (not (bytes_eq domain (codes "localhost")) && not (contains domain (codes "."))))
    && all is_label (split b'.' domain)

-- The lines of a text: what stands behind the last line feed is one if it is not empty.
unfoldable pub scan_lines : Bytes → List Bytes
scan_lines [] = []
scan_lines (c ∷ s) =
    let rest = scan_lines s in
    if c == b'\n' then [] ∷ rest else elim rest [ [] ↦ (c ∷ []) ∷ [] | l ∷ ls ↦ (c ∷ l) ∷ ls ]

-- One line: the values with its assignment, if it has one.
unfoldable pub assign : Assoc Bytes → Bytes → Result DeploymentError (Assoc Bytes)
assign values line =
    if (length line == 0) || has_prefix line (codes "#") then ok values else elim (cut b'=' line) [
      | none ↦ err bad_assignment
      | some (left, right) ↦ do
        let key = trim_space left
        require (not (length key == 0)) bad_assignment
        require (not (is_some (lookup key values))) duplicate_assignment
        ok (insert key (trim_space right) values)
    ]

-- The longest line that fits the buffer of the scanner.
abbrev pub max_line : ℕ
max_line = 65_535

unfoldable pub read_values : Assoc Bytes → List Bytes → Bool → Result DeploymentError (Assoc Bytes)
unfolding assign
read_values values [] breaks = if breaks then err cannot_read else ok values
read_values values (l ∷ ls) breaks =
    if ltb max_line (length l)
    then err cannot_read
    else (do next ← assign values (trim_space l); read_values next ls breaks)

-- `values[key]`: the empty text where there is none.
abbrev pub value_of : Assoc Bytes → Bytes → Bytes
value_of values key = elim (lookup key values) [ none ↦ [] | some v ↦ v ]

abbrev pub good_pair : Bytes × Bytes → Bool
good_pair (key, tenant) = is_secret key && valid_tenant tenant

unfoldable pub parsed_keys :
    Result ApiKeysError (Assoc Bytes) → Result DeploymentError (Assoc Bytes)
parsed_keys (ok []) = err bad_api_keys
parsed_keys (ok (p ∷ keys)) = ok (p ∷ keys)
parsed_keys (err e) = err bad_api_keys

module _ {S : Type 0} (d : Decoder S) (new_reader : Bytes → S) where
  -- The checks of the settings.
  unfoldable pub config_of_values : Assoc Bytes → Result DeploymentError DeploymentConfig
  config_of_values values = do
    let domain = value_of values (codes "DOMAIN")
    let admin = value_of values (codes "POSTGRES_ADMIN_PASSWORD")
    let writer = value_of values (codes "POSTGRES_WRITER_PASSWORD")
    require (valid_deployment_domain domain) bad_domain
    require (is_secret admin) bad_admin_password
    require (is_secret writer) bad_writer_password
    keys ← parsed_keys (parse_api_keys d (new_reader (value_of values (codes "API_KEYS"))))
    require (all good_pair keys) bad_mapping
    ok (record {
      domain = domain;
      api_keys = keys;
      admin_password = admin;
      writer_password = writer;
    })

  unfoldable pub read_deployment_config : Option EnvFile → Result DeploymentError DeploymentConfig
  read_deployment_config none = err cannot_open
  read_deployment_config (some file) = do
    require file.is_private not_private
    values ← read_values [] (scan_lines file.text) file.breaks
    config_of_values values
