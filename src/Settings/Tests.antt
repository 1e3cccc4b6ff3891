-- ===== src/Settings/Tests.antt =====
-- A settings file that loads, and the theorems about it.
use omarchy_hardware.Common.{
  ℕ, ◌+◌, ◌-◌, ◌<◌, ◌≤◌, ◌≡◌, ◌≢◌, ◌↔◌, refl, ◌==◌, leb, true, false, ◌&&◌, ◌||◌, none, some, [],
  ◌∷◌,
}
use omarchy_hardware.Common.Text.{codes, text_eq, starts_with, contains}
use omarchy_hardware.Common.Dict.{lookup}
use omarchy_hardware.Common.Unicode.{Unicode}
use omarchy_hardware.Config.{Config, WeintekModbusTarget, covers}
use omarchy_hardware.Errors.{err, insecure_transport}
use omarchy_hardware.Errors
use omarchy_hardware.Policy.Ming.{Net, is_loopback, ming_mqtt}
use omarchy_hardware.Policy.Weintek.{
  check_weintek_enabled, check_weintek_opcua, check_weintek_mqtt, check_weintek_modbus,
  first_target,
}
use omarchy_hardware.Settings.Toml.{
  Value, text, int, bool, array, table, no_items, item, Table, no_entries, entry, get, or_default,
  is_true,
}
use omarchy_hardware.Settings.Outcome.{Outcome, ok, type_error, each}
use omarchy_hardware.Settings.Fields.{
  Python, Url, no_port, is_unplain, has_any, valid_host, host_of, all_different, is_token, token,
  unique_tokens, optional_tokens, path_of, optional_path, name_of, optional_name, flag_of, flag,
  int_in, bounded_int, is_lower_digit, class_to_end, ming_name_pattern, ming_name_of, ming_name,
  has_char, valid_levels, valid_topic_filter, topic_filters, publish_topics,
}
use omarchy_hardware.Settings.Urls.{
  digits, decimal, is_given, bracketed, port_or, url_host, parsed, opcua_url, opcua_endpoint,
}
use omarchy_hardware.Settings.Security.{
  table_of, section, choice, credentials, opcua_keys, opcua_policies, opcua_table, opcua_security,
  mqtt_table, mqtt_security,
}
use omarchy_hardware.Settings.Weintek.{
  list_of, opcua_target, mqtt_target, pairs_different, weintek_table, weintek_of, parse_weintek,
  modbus_areas, take_digits, some_digits, at_end, range_count, range_within, range_counted,
  range_from, range_text, modbus_range, is_literally_true, read_ranges, modbus_target,
  modbus_entries, parse_weintek_modbus,
}
use omarchy_hardware.Settings.Ming.{ming_entries, broker, ming_table, ming_of, parse_ming}
use omarchy_hardware.Settings.Load.{
  Source, opened, check_permissions, parsed_table, read_raw, sketch_root, sketch_roots,
  numbers_different, pins_of, hosts_of, default_config, load_table, load_content, load,
}
use omarchy_hardware.Settings.Loaded.{InRange, IsConsistent}
use omarchy_hardware.Settings.Checked.{
  checks-ne-insecure, load-InRange, check_weintek_modbus-InArea,
}
use omarchy_hardware.Settings.Unhashable.{is_unhashable, is_choice, opcua_table-type_error}

abbrev plain : Unicode
plain = record {
  is_digit = λ c. leb b'0' c && leb c b'9';
  is_space = λ c. c == b' ';
  lower = λ s. s;
  upper = λ s. s;
}

abbrev panel : Url
panel = record {
  scheme = codes "opc.tcp";
  username = none;
  password = none;
  hostname = some (codes "panel");
  url_port = no_port;
  path = [];
  query = [];
  fragment = [];
  params = [];
}

abbrev net : Net
net = record {
  scheme = λ url. codes "https";
  hostname = λ url. none;
  lower = λ s. s;
  loopback_address = λ s. false;
}

abbrev python : Python
python = record {
  unicode = plain;
  is_printable = λ c. leb b' ' c;
  digit_value = λ c. c - b'0';
  parse_url = λ s. some panel;
  net = net;
}

abbrev one : Value → Value
one v = array (item v no_items)

abbrev opcua_entry : Table
opcua_entry = entry (codes "endpoint") (text (codes "opc.tcp://panel")) (
    entry (codes "nodes") (one (text (codes "ns=2;s=Level"))) (
      entry (codes "security")
        (table (
          entry (codes "certificate") (text (codes "c.pem")) (
            entry (codes "private_key") (text (codes "k.pem"))
              (entry (codes "trust_list") (text (codes "t.pem")) no_entries))))
        no_entries))

abbrev mqtt_entry : Table
mqtt_entry =
    entry (codes "host") (text (codes "panel"))
      (entry (codes "topics") (one (text (codes "lab/level"))) no_entries)

abbrev modbus_entry : Table
modbus_entry = entry (codes "host") (text (codes "panel")) (
    entry (codes "allow_insecure") (bool true)
      (entry (codes "read") (one (text (codes "LW-100:10"))) no_entries))

abbrev broker_entry : Table
broker_entry = entry (codes "name") (text (codes "lab")) (
    entry (codes "host") (text (codes "localhost"))
      (entry (codes "security") (table (entry (codes "tls") (bool false) no_entries)) no_entries))

abbrev weintek_entries : Table
weintek_entries = entry (codes "allow") (bool true) (
    entry (codes "opcua") (one (table opcua_entry)) (
      entry (codes "mqtt") (one (table mqtt_entry))
        (entry (codes "modbus") (one (table modbus_entry)) no_entries)))

abbrev settings : Table
settings = entry (codes "pi") (table (entry (codes "allowed_pins") (one (int 17)) no_entries)) (
    entry (codes "weintek") (table weintek_entries) (
      entry (codes "ming")
        (table (
          entry (codes "allow") (bool true)
            (entry (codes "mqtt") (one (table broker_entry)) no_entries)))
        no_entries))

abbrev source : Source
source = opened (record { is_regular = true; is_owned = true; mode = 384 }) (some settings)

abbrev value_of : Outcome Config → Config
value_of (ok config) = config
value_of _ = default_config

abbrev loaded : Config
loaded = value_of (load python source)

abbrev target : WeintekModbusTarget
target = record {
  host = codes "panel";
  port = 502;
  unit = 1;
  read = record { area = codes "LW"; start = 100; count = 10 } ∷ [];
}

loads :
    (load python source ≡ ok loaded)
    × (check_weintek_modbus loaded (codes "panel") 502 (codes "LW") 104 6 ≡ Errors.ok target)
unfolding load read_raw check_permissions parsed_table load_content load_table table_of section get
    or_default is_true is_unplain has_any valid_host host_of all_different is_token token
    unique_tokens optional_tokens path_of optional_path name_of optional_name flag_of flag int_in
    bounded_int is_lower_digit class_to_end ming_name_pattern ming_name_of ming_name has_char
    valid_levels valid_topic_filter topic_filters publish_topics digits decimal is_given bracketed
    port_or url_host parsed opcua_url opcua_endpoint choice credentials opcua_keys opcua_table
    opcua_security mqtt_table mqtt_security list_of opcua_target mqtt_target pairs_different
    weintek_table weintek_of parse_weintek take_digits some_digits at_end range_count range_within
    range_counted range_from range_text modbus_range is_literally_true read_ranges modbus_target
    modbus_entries parse_weintek_modbus ming_entries broker ming_table ming_of parse_ming
    sketch_root sketch_roots numbers_different pins_of hosts_of each is_loopback text_eq starts_with
    contains lookup check_weintek_modbus check_weintek_enabled first_target covers
loads = (refl, refl)

checks-ne-insecure_example :
    (check_weintek_opcua loaded (codes "opc.tcp://panel:4840") (codes "ns=2;s=Level")
      ≢ err insecure_transport)
    × (check_weintek_mqtt loaded (codes "panel") (codes "lab/level") 8883 ≢ err insecure_transport)
    × (ming_mqtt net loaded (some (codes "lab")) ≢ err insecure_transport)
checks-ne-insecure_example =
    checks-ne-insecure python source loaded (codes "opc.tcp://panel:4840") (codes "ns=2;s=Level")
      (codes "panel") (codes "lab/level") 8883 (some (codes "lab")) loads.0

load-InRange_example : InRange loaded × IsConsistent loaded
load-InRange_example = load-InRange python source loaded loads.0

check_weintek_modbus-InArea_example :
    (size : ℕ) × (lookup (codes "LW") modbus_areas ≡ some size)
    × ((n : ℕ) → 104 ≤ n → n < 104 + 6 → n < size)
check_weintek_modbus-InArea_example =
    check_weintek_modbus-InArea python source loaded (codes "panel") 502 (codes "LW") 104 6 target
      loads.0 loads.1

-- A list of modes.
abbrev modes : Table
modes = entry (codes "mode") (one (text (codes "Sign"))) no_entries

opcua_table-type_error_example : (opcua_table python modes ≡ type_error) ↔ (
    (is_unhashable (or_default (text (codes "Basic256Sha256")) (get (codes "policy") modes))
      || (is_choice opcua_policies
            (or_default (text (codes "Basic256Sha256")) (get (codes "policy") modes))
          && is_unhashable (or_default (text (codes "SignAndEncrypt")) (get (codes "mode") modes))))
    ≡ true)
opcua_table-type_error_example = opcua_table-type_error python modes
