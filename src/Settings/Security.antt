-- ===== src/Settings/Security.antt =====
-- The security tables of mcp/omarchy_hardware/config.py.
use omarchy_hardware.Common.{
  Bool, true, false, not, ◌&&◌, ◌||◌, Option, is_some, List, [], ◌∷◌, if◌then◌else◌,
}
use omarchy_hardware.Common.Text.{Text, codes, text_eq, contains}
use omarchy_hardware.Config.{OpcUaSecurity, MqttSecurity, HttpSecurity}
use omarchy_hardware.Policy.Weintek.{truthy, mode_none}
use omarchy_hardware.Settings.Toml.{Value, text, array, table, Table, no_entries, get, or_default}
use omarchy_hardware.Settings.Outcome.{Outcome, ok, config_error, type_error, ◌>>=◌, ◌>>◌, require}
use omarchy_hardware.Settings.Fields.{Python, optional_path, optional_name, flag}

-- `raw` of `entry.get("security", {})`, which has to be a table.
unfoldable pub table_of : Value → Outcome Table
table_of (table t) = ok t
table_of _ = config_error

unfoldable pub section : Text → Table → Outcome Table
unfolding table_of
section key raw = table_of (or_default (table no_entries) (get key raw))

abbrev pub opcua_policies : List Text
opcua_policies =
    codes "None"
    ∷ codes "Basic256Sha256"
    ∷ codes "Aes128_Sha256_RsaOaep"
    ∷ codes "Aes256_Sha256_RsaPss"
    ∷ []

abbrev pub opcua_modes : List Text
opcua_modes = codes "None" ∷ codes "Sign" ∷ codes "SignAndEncrypt" ∷ []

-- `value not in choices` for a frozen set of texts: a list or a table has no hash.
unfoldable pub choice : List Text → Value → Outcome Text
choice choices (text value) = do require (contains choices value); ok value
choice choices (array vs) = type_error
choice choices (table t) = type_error
choice choices _ = config_error

-- A password is named in one place, and with a user name; `raw` has the user name as it was given.
unfoldable pub credentials : Table → Option Text → Option Text → Outcome (Unit {0})
credentials raw password_env password_file = do
  require (not (truthy password_env && truthy password_file))
  require (
      not (
        is_some (get (codes "username") raw)
        && not (is_some password_env || is_some password_file)))
  require
      (is_some (get (codes "username") raw) || not (is_some password_env || is_some password_file))

unfoldable pub opcua_keys : Text → Bool → Option Text → Option Text → Outcome (Unit {0})
opcua_keys mode allow_insecure certificate private_key =
    if text_eq mode mode_none
    then require allow_insecure
    else require (truthy certificate && truthy private_key)

unfoldable pub opcua_table : Python → Table → Outcome OpcUaSecurity
unfolding opcua_keys credentials
opcua_table py raw = do
  let policy = or_default (text (codes "Basic256Sha256")) (get (codes "policy") raw)
  let mode = or_default (text (codes "SignAndEncrypt")) (get (codes "mode") raw)
  policy ← choice opcua_policies policy
  mode ← choice opcua_modes mode
  require (
      text_eq policy mode_none && text_eq mode mode_none
      || not (text_eq policy mode_none || text_eq mode mode_none))
  allow_insecure ← flag (codes "allow_insecure") false raw
  certificate ← optional_path (codes "certificate") raw
  private_key ← optional_path (codes "private_key") raw
  opcua_keys mode allow_insecure certificate private_key
  trust_list ← optional_path (codes "trust_list") raw
  require (text_eq mode mode_none || truthy trust_list)
  password_env ← optional_name py (codes "password_env") raw
  password_file ← optional_path (codes "password_file") raw
  credentials raw password_env password_file
  username ← optional_name py (codes "username") raw
  ok (record {
    policy = policy;
    mode = mode;
    certificate = certificate;
    private_key = private_key;
    trust_list = trust_list;
    username = username;
    password_env = password_env;
    allow_insecure = allow_insecure;
    password_file = password_file;
  })

unfoldable pub opcua_security : Python → Table → Outcome OpcUaSecurity
unfolding section opcua_table
opcua_security py owner = do raw ← section (codes "security") owner; opcua_table py raw

unfoldable pub mqtt_table : Python → Bool → Table → Outcome MqttSecurity
unfolding credentials
mqtt_table py loopback raw = do
  tls ← flag (codes "tls") true raw
  allow_insecure ← flag (codes "allow_insecure") false raw
  require (tls || (allow_insecure || loopback))
  client_certificate ← optional_path (codes "client_certificate") raw
  client_key ← optional_path (codes "client_key") raw
  require (
      truthy client_certificate && truthy client_key
      || not (truthy client_certificate || truthy client_key))
  password_env ← optional_name py (codes "password_env") raw
  password_file ← optional_path (codes "password_file") raw
  credentials raw password_env password_file
  ca_file ← optional_path (codes "ca_file") raw
  username ← optional_name py (codes "username") raw
  ok (record {
    tls = tls;
    ca_file = ca_file;
    client_certificate = client_certificate;
    client_key = client_key;
    username = username;
    password_env = password_env;
    allow_insecure = allow_insecure;
    password_file = password_file;
  })

unfoldable pub mqtt_security : Python → Bool → Table → Outcome MqttSecurity
unfolding section mqtt_table
mqtt_security py loopback owner = do
  raw ← section (codes "security") owner
  mqtt_table py loopback raw

unfoldable pub http_table : Python → Bool → Table → Outcome HttpSecurity
http_table py reachable raw = do
  allow_insecure ← flag (codes "allow_insecure") false raw
  require (reachable || allow_insecure)
  token_env ← optional_name py (codes "token_env") raw
  token_file ← optional_path (codes "token_file") raw
  require (not (truthy token_env && truthy token_file))
  ca_file ← optional_path (codes "ca_file") raw
  ok (record {
    ca_file = ca_file;
    token_env = token_env;
    token_file = token_file;
    allow_insecure = allow_insecure;
  })

-- `reachable` is `https or loopback`.
unfoldable pub http_security : Python → Bool → Table → Outcome HttpSecurity
unfolding section http_table
http_security py reachable owner = do
  raw ← section (codes "security") owner
  http_table py reachable raw
