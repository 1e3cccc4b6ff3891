-- ===== src/Policy/Tests.antt =====
-- The policy theorems on concrete settings and requests.
use omarchy_hardware.Common.{
  ◌≡◌, ◌≤◌, ◌⊎◌, refl, true, false, ◌==◌, some, none, List, [], ◌∷◌, arith, any, In, if◌then◌else◌,
}
use omarchy_hardware.Common.Text.{Text, codes, text_eq, contains, split, cons_head, starts_with}
use omarchy_hardware.Common.Unicode.{Unicode}
use omarchy_hardware.Config.{
  Config, OpcUaSecurity, MqttSecurity, MingMqttBroker, WeintekOpcUaTarget, WeintekModbusTarget,
  ModbusRange,
}
use omarchy_hardware.Mqtt.Topic.{topic_matches, filter_covers, match_levels, cover_levels, hidden}
use omarchy_hardware.Policy.Ming.{
  Net, is_loopback, named_target, pick, check_ming_enabled, require_secure_broker, ming_mqtt,
  check_ming_subscribe,
}
use omarchy_hardware.Policy.Ming.Subscribe.{
  Chosen, IsSecureBroker, ming_mqtt-ok, check_ming_subscribe_sound,
}
use omarchy_hardware.Policy.Budget.{minute_budget}
use omarchy_hardware.Policy.Budget.Window.{Request, spent_at, admitted, admitted_bounded}
use omarchy_hardware.Policy.Ports.{
  Files, digits_to_end, device_pattern, has_char, has_substring, resolve_port, resolve_flash_target,
}
use omarchy_hardware.Policy.Ports.Resolved.{IsSerialDevice, IsBootVolume, resolve_flash_target-ok}

abbrev tls_security : MqttSecurity
tls_security = record {
  tls = true;
  ca_file = none;
  client_certificate = none;
  client_key = none;
  username = none;
  password_env = none;
  allow_insecure = false;
  password_file = none;
}

abbrev lab : MingMqttBroker
lab = record {
  name = codes "lab";
  host = codes "broker.lan";
  port = 8883;
  subscribe = codes "plant/#" ∷ [];
  publish = codes "plant/set" ∷ [];
  security = tls_security;
}

abbrev signed : OpcUaSecurity
signed = record {
  policy = codes "Basic256Sha256";
  mode = codes "SignAndEncrypt";
  certificate = some (codes "c");
  private_key = some (codes "k");
  trust_list = some (codes "t");
  username = none;
  password_env = none;
  allow_insecure = false;
  password_file = none;
}

abbrev hmi : WeintekOpcUaTarget
hmi = record { endpoint = codes "opc.tcp://h"; nodes = codes "ns=2;s=T" ∷ []; security = signed }

abbrev holding : ModbusRange
holding = record { area = codes "holding"; start = 100; count = 10 }

abbrev plc : WeintekModbusTarget
plc = record { host = codes "plc"; port = 502; unit = 1; read = holding ∷ [] }

abbrev settings : Config
settings = record {
  pi_hosts = [];
  jetson_hosts = [];
  pi_allowed_pins = 17 ∷ [];
  pi_ssh_timeout = 10;
  actuation_budget_per_min = 30;
  max_write_bytes = 4096;
  write_timeout_ms = 2000;
  write_budget_bytes_per_min = 65536;
  allow_unknown_serial = false;
  allow_flash = false;
  sketch_roots = [];
  allow_fingerprinted = false;
  max_uploads_per_hour = 20;
  weintek_allow = true;
  weintek_opcua = hmi ∷ [];
  weintek_mqtt = [];
  weintek_modbus = plc ∷ [];
  ming_allow = true;
  ming_timeout = 5;
  ming_max_payload_bytes = 4096;
  ming_write_budget_per_min = 60;
  ming_mqtt = lab ∷ [];
  ming_influxdb = [];
  ming_nodered = [];
  ming_grafana = [];
}

abbrev net : Net
net = record {
  scheme = λ url. codes "https";
  hostname = λ url. none;
  lower = λ s. s;
  loopback_address = λ s. false;
}

check_ming_subscribe_sound_example :
    (codes "plant/+" ≡ codes "plant/+")
    × ((allowed : Text) × In allowed lab.subscribe
        × (topic_matches allowed (codes "plant/oven") ≡ true))
unfolding check_ming_subscribe filter_covers cover_levels topic_matches match_levels hidden split
    cons_head text_eq
check_ming_subscribe_sound_example =
    check_ming_subscribe_sound lab (codes "plant/+") (codes "plant/+") (codes "plant/oven") refl
      refl

ming_mqtt-ok_example :
    (settings.ming_allow ≡ true)
    × Chosen (λ b. b.name) settings.ming_mqtt (some (codes "lab")) lab
    × IsSecureBroker net lab
unfolding ming_mqtt check_ming_enabled pick named_target require_secure_broker is_loopback text_eq
    contains
ming_mqtt-ok_example = ming_mqtt-ok net settings (some (codes "lab")) lab refl

abbrev requests : List Request
requests =
    record { time = 0; target = codes "a"; count = 2 }
    ∷ record { time = 5; target = codes "b"; count = 3 }
    ∷ record { time = 70000000000; target = codes "a"; count = 3 }
    ∷ []

admitted_bounded_example :
    spent_at (minute_budget 3).window 70000000000 (admitted (minute_budget 3) (codes "a") requests)
    ≤ (minute_budget 3).limit
unfolding minute_budget
admitted_bounded_example =
    admitted_bounded (minute_budget 3) (codes "a") requests 70000000000 refl
      (omega arith, (omega arith, (omega arith, tt)))

abbrev files : Files
files = record {
  realpath = λ s. s;
  exists = λ s. true;
  read_text = λ s. none;
  accessible = λ s. true;
}

abbrev ascii_tables : Unicode
ascii_tables = record {
  is_digit = λ c. if any (λ d. d == c) (codes "0123456789") then true else false;
  is_space = λ c. c == 32;
  lower = λ s. s;
  upper = λ s. s;
}

resolve_flash_target-ok_example :
    (codes "/dev/ttyACM0" ≡ codes "/dev/ttyACM0")
    × (IsSerialDevice ascii_tables files (codes "/dev/ttyACM0")
        ⊎ IsBootVolume ascii_tables files (codes "/dev/ttyACM0"))
unfolding resolve_flash_target resolve_port device_pattern digits_to_end has_char has_substring
    starts_with
resolve_flash_target-ok_example =
    resolve_flash_target-ok ascii_tables files (codes "/dev/ttyACM0") (codes "/dev/ttyACM0") refl
