-- ===== src/Config.antt =====
-- The settings of mcp/omarchy_hardware/config.py, as `load` hands them to the rest of the program.
use omarchy_hardware.Common.{ℕ, ◌+◌, leb, Bool, ◌&&◌, Option, List}
use omarchy_hardware.Common.Text.{Text, text_eq}

pub record OpcUaSecurity : Type 0 where
  pub policy : Text
  pub mode : Text
  pub certificate : Option Text
  pub private_key : Option Text
  pub trust_list : Option Text
  pub username : Option Text
  pub password_env : Option Text
  pub allow_insecure : Bool
  pub password_file : Option Text

pub record MqttSecurity : Type 0 where
  pub tls : Bool
  pub ca_file : Option Text
  pub client_certificate : Option Text
  pub client_key : Option Text
  pub username : Option Text
  pub password_env : Option Text
  pub allow_insecure : Bool
  pub password_file : Option Text

pub record HttpSecurity : Type 0 where
  pub ca_file : Option Text
  pub token_env : Option Text
  pub token_file : Option Text
  pub allow_insecure : Bool

pub record MingMqttBroker : Type 0 where
  pub name : Text
  pub host : Text
  pub port : ℕ
  pub subscribe : List Text
  pub publish : List Text
  pub security : MqttSecurity

pub record MingInfluxDb : Type 0 where
  pub name : Text
  pub url : Text
  pub org : Text
  pub read_buckets : List Text
  pub write_buckets : List Text
  pub security : HttpSecurity

pub record MingNodeRed : Type 0 where
  pub name : Text
  pub url : Text
  pub inject_nodes : List Text
  pub security : HttpSecurity

pub record MingGrafana : Type 0 where
  pub name : Text
  pub url : Text
  pub annotate : Bool
  pub security : HttpSecurity

pub record WeintekOpcUaTarget : Type 0 where
  pub endpoint : Text
  pub nodes : List Text
  pub security : OpcUaSecurity

pub record WeintekMqttTarget : Type 0 where
  pub host : Text
  pub port : ℕ
  pub topics : List Text
  pub security : MqttSecurity

pub record ModbusRange : Type 0 where
  pub area : Text
  pub start : ℕ
  pub count : ℕ

-- `ModbusRange.covers`
unfoldable pub covers : ModbusRange → Text → ℕ → ℕ → Bool
covers r area start count =
    text_eq area r.area && (leb r.start start && leb (start + count) (r.start + r.count))

pub record WeintekModbusTarget : Type 0 where
  pub host : Text
  pub port : ℕ
  pub unit : ℕ
  pub read : List ModbusRange

pub record Config : Type 0 where
  pub pi_hosts : List Text
  pub jetson_hosts : List Text
  pub pi_allowed_pins : List ℕ
  pub pi_ssh_timeout : ℕ
  pub actuation_budget_per_min : ℕ
  pub max_write_bytes : ℕ
  pub write_timeout_ms : ℕ
  pub write_budget_bytes_per_min : ℕ
  pub allow_unknown_serial : Bool
  pub allow_flash : Bool
  pub sketch_roots : List Text
  pub allow_fingerprinted : Bool
  pub max_uploads_per_hour : ℕ
  pub weintek_allow : Bool
  pub weintek_opcua : List WeintekOpcUaTarget
  pub weintek_mqtt : List WeintekMqttTarget
  pub weintek_modbus : List WeintekModbusTarget
  pub ming_allow : Bool
  pub ming_timeout : ℕ
  pub ming_max_payload_bytes : ℕ
  pub ming_write_budget_per_min : ℕ
  pub ming_mqtt : List MingMqttBroker
  pub ming_influxdb : List MingInfluxDb
  pub ming_nodered : List MingNodeRed
  pub ming_grafana : List MingGrafana
