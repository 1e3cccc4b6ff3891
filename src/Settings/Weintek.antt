-- ===== src/Settings/Weintek.antt =====
-- `_parse_weintek` and `_parse_weintek_modbus` of mcp/omarchy_hardware/config.py.
use omarchy_hardware.Common.{
  ℕ, zero, suc, ◌+◌, ◌*◌, ◌==◌, leb, any, map, Bool, true, false, not, ◌&&◌, ◌||◌, Option, none,
  some, List, [], ◌∷◌, if◌then◌else◌,
}
use omarchy_hardware.Common.Text.{Text, codes, text_eq}
use omarchy_hardware.Common.Dict.{Dict, lookup}
use omarchy_hardware.Config.{
  WeintekOpcUaTarget, WeintekMqttTarget, WeintekModbusTarget, ModbusRange,
}
use omarchy_hardware.Settings.Toml.{
  Value, text, bool, array, table, no_items, item, Table, no_entries, items, get, or_default,
  is_true,
}
use omarchy_hardware.Settings.Outcome.{Outcome, ok, config_error, ◌>>=◌, ◌>>◌, require, each}
use omarchy_hardware.Settings.Fields.{
  Python, host_of, all_different, unique_tokens, max_topic_length, flag, bounded_int,
}
use omarchy_hardware.Settings.Urls.{opcua_endpoint}
use omarchy_hardware.Settings.Security.{table_of, opcua_security, mqtt_security}

abbrev pub max_node_length : ℕ
max_node_length = 256

-- `isinstance(value, list)`
unfoldable pub list_of : Value → Outcome (List Value)
list_of (array vs) = ok (items vs)
list_of _ = config_error

unfoldable pub opcua_target : Python → Value → Outcome WeintekOpcUaTarget
opcua_target py value = do
  owner ← table_of value
  endpoint ← opcua_endpoint py (get (codes "endpoint") owner)
  nodes ← unique_tokens py max_node_length [] (get (codes "nodes") owner)
  security ← opcua_security py owner
  ok (record { endpoint = endpoint; nodes = nodes; security = security })

abbrev pub mqtt_default_port : Bool → ℕ
mqtt_default_port true = 8883
mqtt_default_port false = 1883

unfoldable pub mqtt_target : Python → Value → Outcome WeintekMqttTarget
mqtt_target py value = do
  owner ← table_of value
  host ← host_of py (get (codes "host") owner)
  security ← mqtt_security py false owner
  n ← bounded_int (codes "port") (mqtt_default_port security.tls) 1 65535 owner
  topics ← unique_tokens py max_topic_length (codes "+#") (get (codes "topics") owner)
  ok (record { host = host; port = n; topics = topics; security = security })

-- `len(set(pairs)) == len(pairs)` for pairs of a host and a port.
unfoldable pub pairs_different : List (Text × ℕ) → Bool
pairs_different [] = true
pairs_different ((host, port) ∷ pairs) =
    let rest = pairs_different pairs in
    not (any (λ p. text_eq p.0 host && p.1 == port) pairs) && rest

pub record Weintek : Type 0 where
  pub allow : Bool
  pub opcua : List WeintekOpcUaTarget
  pub mqtt : List WeintekMqttTarget

unfoldable pub weintek_table : Python → Table → Outcome Weintek
unfolding list_of opcua_target mqtt_target pairs_different
weintek_table py raw = do
  allow ← flag (codes "allow") false raw
  entries ← list_of (or_default (array no_items) (get (codes "opcua") raw))
  opcua ← each (opcua_target py) entries
  require (all_different (map (λ t. t.endpoint) opcua))
  entries ← list_of (or_default (array no_items) (get (codes "mqtt") raw))
  mqtt ← each (mqtt_target py) entries
  require (pairs_different (map (λ t. (t.host, t.port)) mqtt))
  ok (record { allow = allow; opcua = opcua; mqtt = mqtt })

abbrev pub no_weintek : Weintek
no_weintek = record { allow = false; opcua = []; mqtt = [] }

-- A section that is absent or not true is passed over.
unfoldable pub weintek_of : Python → Value → Outcome Weintek
unfolding weintek_table
weintek_of py value =
    if is_true value then (do raw ← table_of value; weintek_table py raw) else ok no_weintek

unfoldable pub parse_weintek : Python → Table → Outcome Weintek
unfolding weintek_of
parse_weintek py raw = weintek_of py (or_default (table no_entries) (get (codes "weintek") raw))

abbrev pub modbus_areas : Dict ℕ
modbus_areas = (codes "LB", 12800) ∷ (codes "LW", 9999) ∷ (codes "RW", 55536) ∷ []

-- At most so many digits: their number, and what follows.
unfoldable pub take_digits : Python → ℕ → ℕ → Text → ℕ × Text
take_digits py zero n s = (n, s)
take_digits py (suc most) n [] = (n, [])
take_digits py (suc most) n (c ∷ s) =
    let rest = take_digits py most (n * 10 + py.digit_value c) s in
    if py.unicode.is_digit c then rest else (n, c ∷ s)

-- `\d{1,most}`
unfoldable pub some_digits : Python → ℕ → Text → Option (ℕ × Text)
unfolding take_digits
some_digits py most [] = none
some_digits py most (c ∷ s) =
    if py.unicode.is_digit c then some (take_digits py most 0 (c ∷ s)) else none

-- `$`
unfoldable pub at_end : Text → Bool
at_end s = text_eq s [] || text_eq s (10 ∷ [])

-- `(?::(\d{1,4}))?$`, and `int(match.group(3) or 1)`
unfoldable pub range_count : Python → Text → Option ℕ
range_count py [] = some 1
range_count py (c ∷ s) =
    if c == b':'
    then elim (some_digits py 4 s) [
      | none ↦ none
      | some (n, rest) ↦ if at_end rest then some n else none
    ]
    else if text_eq (c ∷ s) (10 ∷ [])
    then some 1
    else none

unfoldable pub range_within : Text → ℕ → ℕ → Option ℕ → Outcome ModbusRange
range_within area start count none = config_error
range_within area start count (some size) = do
  require (leb 1 count && leb (start + count) size)
  ok (record { area = area; start = start; count = count })

unfoldable pub range_counted : Text → ℕ → Option ℕ → Outcome ModbusRange
unfolding range_within
range_counted area start none = config_error
range_counted area start (some count) = range_within area start count (lookup area modbus_areas)

unfoldable pub range_from : Python → Text → Option (ℕ × Text) → Outcome ModbusRange
unfolding range_counted range_count
range_from py area none = config_error
range_from py area (some (start, rest)) = range_counted area start (range_count py rest)

unfoldable pub range_text : Python → Text → Outcome ModbusRange
unfolding range_from some_digits
range_text py (a ∷ b ∷ c ∷ s) =
    if (text_eq (a ∷ b ∷ []) (codes "LB")
        || (text_eq (a ∷ b ∷ []) (codes "LW") || text_eq (a ∷ b ∷ []) (codes "RW")))
      && c == b'-'
    then range_from py (a ∷ b ∷ []) (some_digits py 5 s)
    else config_error
range_text py _ = config_error

unfoldable pub modbus_range : Python → Value → Outcome ModbusRange
unfolding range_text
modbus_range py (text s) = range_text py s
modbus_range py _ = config_error

-- `entry.get("allow_insecure") is True`
unfoldable pub is_literally_true : Option Value → Bool
is_literally_true (some (bool b)) = b
is_literally_true _ = false

unfoldable pub read_ranges : Python → Option Value → Outcome (List ModbusRange)
unfolding modbus_range
read_ranges py (some (array (item v vs))) = each (modbus_range py) (items (item v vs))
read_ranges py _ = config_error

unfoldable pub modbus_target : Python → Value → Outcome WeintekModbusTarget
unfolding read_ranges is_literally_true
modbus_target py value = do
  owner ← table_of value
  host ← host_of py (get (codes "host") owner)
  require (is_literally_true (get (codes "allow_insecure") owner))
  n ← bounded_int (codes "port") 502 1 65535 owner
  unit ← bounded_int (codes "unit") 1 0 255 owner
  ranges ← read_ranges py (get (codes "read") owner)
  ok (record { host = host; port = n; unit = unit; read = ranges })

-- `weintek.get("modbus", []) if isinstance(weintek, dict) else []`
unfoldable pub modbus_entries : Option Value → Value
modbus_entries (some (table weintek)) = or_default (array no_items) (get (codes "modbus") weintek)
modbus_entries _ = array no_items

unfoldable pub parse_weintek_modbus : Python → Table → Outcome (List WeintekModbusTarget)
unfolding modbus_target modbus_entries
parse_weintek_modbus py raw = do
  entries ← list_of (modbus_entries (get (codes "weintek") raw))
  targets ← each (modbus_target py) entries
  require (pairs_different (map (λ t. (t.host, t.port)) targets))
  ok targets
