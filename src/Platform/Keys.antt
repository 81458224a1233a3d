-- ===== src/Platform/Keys.antt =====
-- app/platform_settings.py: the names of the settings and the data that their ciphertexts are bound to.
use leakcheck_hub.Prelude.{
  ℕ, Bool, true, false, List, [], ◌∷◌, ◌++◌, Text, Bytes, codes, text_eq, any,
}
use leakcheck_hub.Python.{decimal}

pub data SettingKey : Type 0 where
  leakcheck_api_key leakcheck_rps leakcheck_concurrency : SettingKey
  leakcheck_max_response_bytes self_check_cooldown_seconds google_client_id : SettingKey
  google_client_secret google_redirect_uri google_workspace_domains : SettingKey
  google_workspace_service_account_json google_workspace_delegated_admin wazuh_url : SettingKey
  wazuh_username wazuh_password dfir_iris_url dfir_iris_api_key : SettingKey
  dfir_iris_customer_id smtp_host smtp_port smtp_username smtp_password smtp_from : SettingKey
  smtp_security public_base_url notify_dry_run notify_cooldown_seconds soc_email : SettingKey
  retention_mode retention_days : SettingKey

-- `key.value`
abbrev pub key_value : SettingKey → Text
key_value SettingKey.leakcheck_api_key = codes "leakcheck_api_key"
key_value SettingKey.leakcheck_rps = codes "leakcheck_rps"
key_value SettingKey.leakcheck_concurrency = codes "leakcheck_concurrency"
key_value SettingKey.leakcheck_max_response_bytes = codes "leakcheck_max_response_bytes"
key_value SettingKey.self_check_cooldown_seconds = codes "self_check_cooldown_seconds"
key_value SettingKey.google_client_id = codes "google_client_id"
key_value SettingKey.google_client_secret = codes "google_client_secret"
key_value SettingKey.google_redirect_uri = codes "google_redirect_uri"
key_value SettingKey.google_workspace_domains = codes "google_workspace_domains"
key_value SettingKey.google_workspace_service_account_json =
    codes "google_workspace_service_account_json"
key_value SettingKey.google_workspace_delegated_admin = codes "google_workspace_delegated_admin"
key_value SettingKey.wazuh_url = codes "wazuh_url"
key_value SettingKey.wazuh_username = codes "wazuh_username"
key_value SettingKey.wazuh_password = codes "wazuh_password"
key_value SettingKey.dfir_iris_url = codes "dfir_iris_url"
key_value SettingKey.dfir_iris_api_key = codes "dfir_iris_api_key"
key_value SettingKey.dfir_iris_customer_id = codes "dfir_iris_customer_id"
key_value SettingKey.smtp_host = codes "smtp_host"
key_value SettingKey.smtp_port = codes "smtp_port"
key_value SettingKey.smtp_username = codes "smtp_username"
key_value SettingKey.smtp_password = codes "smtp_password"
key_value SettingKey.smtp_from = codes "smtp_from"
key_value SettingKey.smtp_security = codes "smtp_security"
key_value SettingKey.public_base_url = codes "public_base_url"
key_value SettingKey.notify_dry_run = codes "notify_dry_run"
key_value SettingKey.notify_cooldown_seconds = codes "notify_cooldown_seconds"
key_value SettingKey.soc_email = codes "soc_email"
key_value SettingKey.retention_mode = codes "retention_mode"
key_value SettingKey.retention_days = codes "retention_days"

-- `list(SettingKey)`
abbrev pub all_keys : List SettingKey
all_keys =
    SettingKey.leakcheck_api_key ∷ SettingKey.leakcheck_rps ∷ SettingKey.leakcheck_concurrency
    ∷ SettingKey.leakcheck_max_response_bytes ∷ SettingKey.self_check_cooldown_seconds
    ∷ SettingKey.google_client_id ∷ SettingKey.google_client_secret ∷ SettingKey.google_redirect_uri
    ∷ SettingKey.google_workspace_domains ∷ SettingKey.google_workspace_service_account_json
    ∷ SettingKey.google_workspace_delegated_admin ∷ SettingKey.wazuh_url ∷ SettingKey.wazuh_username
    ∷ SettingKey.wazuh_password ∷ SettingKey.dfir_iris_url ∷ SettingKey.dfir_iris_api_key
    ∷ SettingKey.dfir_iris_customer_id ∷ SettingKey.smtp_host ∷ SettingKey.smtp_port
    ∷ SettingKey.smtp_username ∷ SettingKey.smtp_password ∷ SettingKey.smtp_from
    ∷ SettingKey.smtp_security ∷ SettingKey.public_base_url ∷ SettingKey.notify_dry_run
    ∷ SettingKey.notify_cooldown_seconds ∷ SettingKey.soc_email ∷ SettingKey.retention_mode
    ∷ SettingKey.retention_days ∷ []

-- `SECRET_KEYS`
abbrev pub is_secret : SettingKey → Bool
is_secret SettingKey.leakcheck_api_key = true
is_secret SettingKey.google_client_secret = true
is_secret SettingKey.google_workspace_service_account_json = true
is_secret SettingKey.wazuh_password = true
is_secret SettingKey.dfir_iris_api_key = true
is_secret SettingKey.smtp_password = true
is_secret _ = false

-- `SettingKey(value)` does not raise ValueError.
unfoldable pub is_setting : Text → Bool
unfolding any text_eq
is_setting value = any (λ k. text_eq (key_value k) value) all_keys

-- `PlatformSettingsStore._aad` on a key's value.
unfoldable pub setting_aad : Text → ℕ → Bytes
unfolding decimal
setting_aad value schema_version =
    codes "leakcheck/platform-setting/" ++ decimal schema_version ++ codes "/" ++ value
