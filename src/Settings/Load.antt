-- ===== src/Settings/Load.antt =====
-- `read_raw` and `load` of mcp/omarchy_hardware/config.py.
use omarchy_hardware.Common.{
  ℕ, ◌%◌, ◌==◌, any, Bool, true, false, not, ◌&&◌, ◌||◌, Option, none, some, List, [], ◌∷◌,
}
use omarchy_hardware.Common.Text.{Text, codes, contains}
use omarchy_hardware.Config.{Config}
use omarchy_hardware.Settings.Toml.{Value, text, array, no_items, Table, items, get, or_default}
use omarchy_hardware.Settings.Outcome.{Outcome, ok, config_error, ◌>>=◌, ◌>>◌, require, each}
use omarchy_hardware.Settings.Fields.{
  Python, is_empty, has_any, host_of, all_different, flag, bounded_int, int_in,
}
use omarchy_hardware.Settings.Security.{section}
use omarchy_hardware.Settings.Weintek.{parse_weintek, parse_weintek_modbus}
use omarchy_hardware.Settings.Ming.{parse_ming}

-- What `fstat` says of the file.
pub record Stat : Type 0 where
  pub is_regular : Bool
  pub is_owned : Bool
  pub mode : ℕ

-- What comes of opening the file, and of parsing it: `none` for text that is not TOML.
pub data Source : Type 0 where
  absent : Source
  unreadable : Source
  opened : Stat → Option Table → Source

-- `_check_permissions_stat`: neither the group nor others may do anything with the file.
unfoldable pub check_permissions : Stat → Outcome (Unit {0})
check_permissions st = do require st.is_regular; require st.is_owned; require (st.mode % 64 == 0)

unfoldable pub parsed_table : Option Table → Outcome (Option Table)
parsed_table none = config_error
parsed_table (some t) = ok (some t)

unfoldable pub read_raw : Source → Outcome (Option Table)
unfolding check_permissions parsed_table
read_raw absent = ok none
read_raw unreadable = config_error
read_raw (opened st content) = do check_permissions st; parsed_table content

unfoldable pub sketch_root : Value → Outcome Text
sketch_root (text value) = do
  require (not (is_empty value) && not (has_any (0 ∷ 10 ∷ 13 ∷ []) value))
  ok value
sketch_root _ = config_error

unfoldable pub sketch_roots : Value → Outcome (List Text)
unfolding sketch_root
sketch_roots (array vs) = do
  roots ← each sketch_root (items vs)
  require (all_different roots)
  ok roots
sketch_roots _ = config_error

unfoldable pub numbers_different : List ℕ → Bool
numbers_different [] = true
numbers_different (n ∷ ns) = let rest = numbers_different ns in not (any (λ m. m == n) ns) && rest

-- `range(2, 28)`
abbrev pub default_pins : List ℕ
default_pins =
    2 ∷ 3 ∷ 4 ∷ 5 ∷ 6 ∷ 7 ∷ 8 ∷ 9 ∷ 10 ∷ 11 ∷ 12 ∷ 13 ∷ 14 ∷ 15 ∷ 16 ∷ 17 ∷ 18 ∷ 19 ∷ 20 ∷ 21 ∷ 22
    ∷ 23 ∷ 24 ∷ 25 ∷ 26 ∷ 27 ∷ []

unfoldable pub pins_of : Option Value → Outcome (List ℕ)
unfolding numbers_different
pins_of none = ok default_pins
pins_of (some (array vs)) = do
  pins ← each (int_in 2 27) (items vs)
  require (numbers_different pins)
  ok pins
pins_of _ = config_error

unfoldable pub hosts_of : Python → Value → Outcome (List Text)
hosts_of py (array vs) = do
  hosts ← each (λ v. host_of py (some v)) (items vs)
  require (all_different hosts)
  ok hosts
hosts_of py _ = config_error

-- The settings that stand when the file is absent.
abbrev pub default_config : Config
default_config = record {
  pi_hosts = [];
  jetson_hosts = [];
  pi_allowed_pins = default_pins;
  pi_ssh_timeout = 10;
  actuation_budget_per_min = 120;
  max_write_bytes = 4096;
  write_timeout_ms = 2000;
  write_budget_bytes_per_min = 65536;
  allow_unknown_serial = false;
  allow_flash = false;
  sketch_roots = [];
  allow_fingerprinted = false;
  max_uploads_per_hour = 30;
  weintek_allow = false;
  weintek_opcua = [];
  weintek_mqtt = [];
  weintek_modbus = [];
  ming_allow = false;
  ming_timeout = 10;
  ming_max_payload_bytes = 4096;
  ming_write_budget_per_min = 60;
  ming_mqtt = [];
  ming_influxdb = [];
  ming_nodered = [];
  ming_grafana = [];
}

unfoldable pub load_table : Python → Table → Outcome Config
unfolding pins_of hosts_of sketch_roots
load_table py raw = do
  pi ← section (codes "pi") raw
  serial ← section (codes "serial") raw
  flash ← section (codes "flash") raw
  pins ← pins_of (get (codes "allowed_pins") pi)
  hosts ← hosts_of py (or_default (array no_items) (get (codes "hosts") pi))
  jetson ← section (codes "jetson") raw
  jetson_hosts ← hosts_of py (or_default (array no_items) (get (codes "hosts") jetson))
  require (not (any (λ host. contains jetson_hosts host) hosts))
  roots ← sketch_roots (or_default (array no_items) (get (codes "sketch_roots") flash))
  ssh_timeout ← bounded_int (codes "ssh_timeout") 10 1 60 pi
  actuation_budget ← bounded_int (codes "actuation_budget_per_min") 120 1 10000 pi
  max_write_bytes ← bounded_int (codes "max_write_bytes") 4096 1 4096 serial
  write_timeout_ms ← bounded_int (codes "write_timeout_ms") 2000 100 10000 serial
  write_budget ← bounded_int (codes "write_budget_bytes_per_min") 65536 1 65536 serial
  allow_flash ← flag (codes "allow") false flash
  allow_fingerprinted ← flag (codes "allow_fingerprinted") false flash
  max_uploads ← bounded_int (codes "max_uploads_per_hour") 30 1 1000 flash
  allow_unknown ← flag (codes "allow_unknown") false serial
  require (not allow_flash || not (is_empty roots))
  weintek ← parse_weintek py raw
  modbus ← parse_weintek_modbus py raw
  ming ← parse_ming py raw
  ok (record {
    pi_hosts = hosts;
    jetson_hosts = jetson_hosts;
    pi_allowed_pins = pins;
    pi_ssh_timeout = ssh_timeout;
    actuation_budget_per_min = actuation_budget;
    max_write_bytes = max_write_bytes;
    write_timeout_ms = write_timeout_ms;
    write_budget_bytes_per_min = write_budget;
    allow_unknown_serial = allow_unknown;
    allow_flash = allow_flash;
    sketch_roots = roots;
    allow_fingerprinted = allow_fingerprinted;
    max_uploads_per_hour = max_uploads;
    weintek_allow = weintek.allow;
    weintek_opcua = weintek.opcua;
    weintek_mqtt = weintek.mqtt;
    weintek_modbus = modbus;
    ming_allow = ming.allow;
    ming_timeout = ming.timeout;
    ming_max_payload_bytes = ming.max_payload_bytes;
    ming_write_budget_per_min = ming.write_budget_per_min;
    ming_mqtt = ming.mqtt;
    ming_influxdb = ming.influxdb;
    ming_nodered = ming.nodered;
    ming_grafana = ming.grafana;
  })

unfoldable pub load_content : Python → Option Table → Outcome Config
unfolding load_table
load_content py none = ok default_config
load_content py (some raw) = load_table py raw

unfoldable pub load : Python → Source → Outcome Config
unfolding read_raw load_content
load py source = do content ← read_raw source; load_content py content
