-- ===== src/Settings/Secured.antt =====
-- The Weintek and the MING settings that load: each target passes its check, and the numbers of
-- the MING tools are in their ranges.
use omarchy_hardware.Common.{◌≡◌, All, map, false, arith, if-both}
use omarchy_hardware.Common.Text.{codes}
use omarchy_hardware.Config.{WeintekOpcUaTarget, WeintekMqttTarget, MingMqttBroker}
use omarchy_hardware.Errors
use omarchy_hardware.Policy.Weintek.{require_secure_opcua, require_secure_mqtt}
use omarchy_hardware.Policy.Ming.{require_secure_broker}
use omarchy_hardware.Settings.Toml.{
  array, table, no_items, no_entries, Table, get, or_default, is_true,
}
use omarchy_hardware.Settings.Outcome.{
  ok, each, Ensures, holds, then_ensured, then_any, then_required,
}
use omarchy_hardware.Settings.Fields.{Python, all_different, flag}
use omarchy_hardware.Settings.Security.{table_of}
use omarchy_hardware.Settings.Weintek.{
  list_of, opcua_target, mqtt_target, pairs_different, Weintek, no_weintek, weintek_table,
  weintek_of, parse_weintek,
}
use omarchy_hardware.Settings.Ming.{
  Ming, no_ming, ming_entries, broker, influxdb, nodered, grafana, ming_table, ming_of, parse_ming,
}
use omarchy_hardware.Settings.Sound.{
  opcua_target-accepted, mqtt_target-accepted, broker-accepted, each-All,
}
use omarchy_hardware.Settings.Ranges.{Within, bounded_int-Within}

abbrev pub PassesOpcUa : WeintekOpcUaTarget → Type 0
PassesOpcUa t = require_secure_opcua t ≡ Errors.ok tt

abbrev pub PassesMqtt : WeintekMqttTarget → Type 0
PassesMqtt t = require_secure_mqtt t ≡ Errors.ok tt

abbrev pub PassesBroker : Python → MingMqttBroker → Type 0
PassesBroker py b = require_secure_broker py.net b ≡ Errors.ok tt

abbrev pub IsSecureWeintek : Weintek → Type 0
IsSecureWeintek w = All PassesOpcUa w.opcua × All PassesMqtt w.mqtt

weintek_table-secure : (py : Python) (raw : Table) → Ensures IsSecureWeintek (weintek_table py raw)
unfolding weintek_table
weintek_table-secure py raw = then_any (flag (codes "allow") false raw) λ allow.
    then_any (list_of (or_default (array no_items) (get (codes "opcua") raw))) λ entries.
      then_ensured (each-All PassesOpcUa (opcua_target py) entries (opcua_target-accepted py))
        λ opcua pass. then_required (all_different (map (λ t. t.endpoint) opcua)) λ _.
          then_any (list_of (or_default (array no_items) (get (codes "mqtt") raw))) λ entries.
            then_ensured (each-All PassesMqtt (mqtt_target py) entries (mqtt_target-accepted py))
              λ mqtt passed.
                then_required (pairs_different (map (λ t. (t.host, t.port)) mqtt))
                  λ _. holds (pass, passed)

pub parse_weintek-secure :
    (py : Python) (raw : Table) → Ensures IsSecureWeintek (parse_weintek py raw)
unfolding parse_weintek weintek_of
parse_weintek-secure py raw =
    let v = or_default (table no_entries) (get (codes "weintek") raw) in
    let absent : Ensures IsSecureWeintek (ok no_weintek) = holds (tt, tt) in
    if-both (Ensures IsSecureWeintek) (is_true v)
      (then_any (table_of v) λ t. weintek_table-secure py t) absent

abbrev pub IsBoundedMing : Python → Ming → Type 0
IsBoundedMing py m =
    All (PassesBroker py) m.mqtt
    × Within 1 30 m.timeout
    × Within 1 65536 m.max_payload_bytes
    × Within 1 10000 m.write_budget_per_min

ming_table-secure : (py : Python) (raw : Table) → Ensures (IsBoundedMing py) (ming_table py raw)
unfolding ming_table
ming_table-secure py raw = then_any (flag (codes "allow") false raw) λ allow.
    then_any (ming_entries (codes "mqtt") raw) λ entries.
      then_ensured (each-All (PassesBroker py) (broker py) entries (broker-accepted py))
        λ brokers pass. then_any (ming_entries (codes "influxdb") raw) λ entries.
          then_any (each (influxdb py) entries) λ influxdbs.
            then_any (ming_entries (codes "nodered") raw) λ entries.
              then_any (each (nodered py) entries) λ noderes.
                then_any (ming_entries (codes "grafana") raw) λ entries.
                  then_any (each (grafana py) entries) λ grafanas.
                    then_ensured (bounded_int-Within (codes "timeout") 10 1 30 raw) λ timeout a.
                      then_ensured (bounded_int-Within (codes "max_payload_bytes") 4096 1 65536 raw)
                        λ payload b.
                          then_ensured
                            (bounded_int-Within (codes "write_budget_per_min") 60 1 10000 raw)
                            λ budget c.
                              then_required (all_different (map (λ t. t.name) brokers)) λ _.
                                then_required (all_different (map (λ t. t.name) influxdbs)) λ _.
                                  then_required (all_different (map (λ t. t.name) noderes)) λ _.
                                    then_required (all_different (map (λ t. t.name) grafanas))
                                      λ _. holds (pass, a, b, c)

pub parse_ming-secure : (py : Python) (raw : Table) → Ensures (IsBoundedMing py) (parse_ming py raw)
unfolding parse_ming ming_of
parse_ming-secure py raw =
    let v = or_default (table no_entries) (get (codes "ming") raw) in
    let bounded : IsBoundedMing py no_ming = (tt, omega arith, omega arith, omega arith) in
    let absent : Ensures (IsBoundedMing py) (ok no_ming) = holds bounded in
    if-both (Ensures (IsBoundedMing py)) (is_true v)
      (then_any (table_of v) λ t. ming_table-secure py t) absent
