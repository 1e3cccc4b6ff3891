-- ===== src/Policy/Weintek.antt =====
-- The Weintek checks of mcp/omarchy_hardware/policy.py.
pub mod Allowlist
use omarchy_hardware.Common.{
  ℕ, ◌==◌, any, Bool, true, false, not, ◌&&◌, Option, none, some, List, [], ◌∷◌, if◌then◌else◌,
}
use omarchy_hardware.Common.Text.{Text, codes, text_eq, contains}
use omarchy_hardware.Config.{
  Config, OpcUaSecurity, WeintekOpcUaTarget, WeintekMqttTarget, WeintekModbusTarget, covers,
}
use omarchy_hardware.Errors.{Result, ok, err, host_not_allowed, insecure_transport, ◌>>=◌, ◌>>◌}

-- The truth of a value that is `None` or a string.
abbrev pub truthy : Option Text → Bool
truthy none = false
truthy (some []) = false
truthy (some (c ∷ s)) = true

unfoldable pub check_weintek_enabled : Config → Result (Unit {0})
check_weintek_enabled config = if config.weintek_allow then ok tt else err host_not_allowed

abbrev pub mode_none : Text
mode_none = codes "None"

-- `_require_secure_opcua`
unfoldable pub require_secure_opcua : WeintekOpcUaTarget → Result (Unit {0})
require_secure_opcua target =
    let security = target.security in
    let is_none = text_eq security.mode mode_none in
    if is_none && not security.allow_insecure
    then err insecure_transport
    else if not is_none && not (truthy security.certificate && truthy security.private_key)
    then err insecure_transport
    else if not is_none && not (truthy security.trust_list)
    then err insecure_transport
    else ok tt

-- A loop that returns the first target that the test accepts, once it has passed the second check.
unfoldable pub first_target {ℓ} :
    {T : Type ℓ} → (T → Bool) → (T → Result (Unit {0})) → List T → Result T
first_target test check [] = err host_not_allowed
first_target test check (target ∷ targets) =
    if test target then (do check target; ok target) else first_target test check targets

unfoldable pub check_weintek_opcua : Config → Text → Text → Result WeintekOpcUaTarget
check_weintek_opcua config endpoint node = do
  check_weintek_enabled config
  first_target (λ t. text_eq t.endpoint endpoint && contains t.nodes node) require_secure_opcua
      config.weintek_opcua

unfoldable pub check_weintek_opcua_endpoint : Config → Text → Result WeintekOpcUaTarget
check_weintek_opcua_endpoint config endpoint = do
  check_weintek_enabled config
  first_target (λ t. text_eq t.endpoint endpoint) require_secure_opcua config.weintek_opcua

unfoldable pub require_secure_mqtt : WeintekMqttTarget → Result (Unit {0})
require_secure_mqtt target =
    if not target.security.tls && not target.security.allow_insecure
    then err insecure_transport
    else ok tt

unfoldable pub check_weintek_mqtt : Config → Text → Text → ℕ → Result WeintekMqttTarget
check_weintek_mqtt config host topic port = do
  check_weintek_enabled config
  first_target (λ t. text_eq t.host host && (t.port == port && contains t.topics topic))
      require_secure_mqtt config.weintek_mqtt

unfoldable pub check_weintek_modbus : Config → Text → ℕ → Text → ℕ → ℕ → Result WeintekModbusTarget
check_weintek_modbus config host port area start count = do
  check_weintek_enabled config
  first_target
      (λ t. text_eq t.host host && (t.port == port && any (λ r. covers r area start count) t.read))
      (λ t. ok tt) config.weintek_modbus
