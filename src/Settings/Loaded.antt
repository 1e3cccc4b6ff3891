-- ===== src/Settings/Loaded.antt =====
-- What `load` promises of the settings that it returns.
use omarchy_hardware.Common.{◌≡◌, refl, All, any, true, false, not, ◌||◌, Option, none, some, arith}
use omarchy_hardware.Common.Text.{codes, contains}
use omarchy_hardware.Config.{Config}
use omarchy_hardware.Settings.Toml.{array, no_items, Table, get, or_default}
use omarchy_hardware.Settings.Outcome.{
  ok, Ensures, holds, then_ensured, then_any, then_required, Ensures-ok,
}
use omarchy_hardware.Settings.Fields.{Python, is_empty, flag}
use omarchy_hardware.Settings.Security.{section}
use omarchy_hardware.Settings.Load.{
  Source, hosts_of, sketch_roots, default_config, read_raw, load_table, load_content, load,
}
use omarchy_hardware.Settings.Ranges.{
  Within, bounded_int-Within, pins_of-Within, ListsInArea, parse_weintek_modbus-InArea,
}
use omarchy_hardware.Settings.Secured.{
  PassesOpcUa, PassesMqtt, PassesBroker, parse_weintek-secure, parse_ming-secure,
}

-- Every target passes the check that stands before a connection to it.
abbrev pub IsSecure : Python → Config → Type 0
IsSecure py config =
    All PassesOpcUa config.weintek_opcua
    × All PassesMqtt config.weintek_mqtt
    × All (PassesBroker py) config.ming_mqtt

-- The numbers are in the ranges that the loader names.
abbrev pub InRange : Config → Type 0
InRange config =
    All (Within 2 27) config.pi_allowed_pins
    × Within 1 60 config.pi_ssh_timeout
    × Within 1 10000 config.actuation_budget_per_min
    × Within 1 4096 config.max_write_bytes
    × Within 100 10000 config.write_timeout_ms
    × Within 1 65536 config.write_budget_bytes_per_min
    × Within 1 1000 config.max_uploads_per_hour
    × Within 1 30 config.ming_timeout
    × Within 1 65536 config.ming_max_payload_bytes
    × Within 1 10000 config.ming_write_budget_per_min

-- Flashing is allowed only with a sketch root, and no host is both a Pi and a Jetson.
abbrev pub IsConsistent : Config → Type 0
IsConsistent config =
    ((not config.allow_flash || not (is_empty config.sketch_roots)) ≡ true)
    × (any (λ host. contains config.jetson_hosts host) config.pi_hosts ≡ false)

abbrev pub IsLoaded : Python → Config → Type 0
IsLoaded py config =
    IsSecure py config
    × InRange config
    × IsConsistent config
    × All ListsInArea config.weintek_modbus

load_table-IsLoaded : (py : Python) (raw : Table) → Ensures (IsLoaded py) (load_table py raw)
unfolding load_table
load_table-IsLoaded py raw = then_any (section (codes "pi") raw) λ pi.
    then_any (section (codes "serial") raw) λ serial.
      then_any (section (codes "flash") raw) λ flash.
        then_ensured (pins_of-Within (get (codes "allowed_pins") pi)) λ pins within.
          then_any (hosts_of py (or_default (array no_items) (get (codes "hosts") pi))) λ hosts.
            then_any (section (codes "jetson") raw) λ jetson.
              then_any (hosts_of py (or_default (array no_items) (get (codes "hosts") jetson)))
                λ others. then_required (not (any (λ host. contains others host) hosts)) λ apart.
                  then_any
                    (sketch_roots (or_default (array no_items) (get (codes "sketch_roots") flash)))
                    λ roots.
                      then_ensured (bounded_int-Within (codes "ssh_timeout") 10 1 60 pi) λ n1 a1.
                        then_ensured
                          (bounded_int-Within (codes "actuation_budget_per_min") 120 1 10000 pi)
                          λ n2 a2.
                            then_ensured
                              (bounded_int-Within (codes "max_write_bytes") 4096 1 4096 serial)
                              λ n3 a3.
                                then_ensured
                                  (bounded_int-Within (codes "write_timeout_ms") 2000 100 10000
                                    serial)
                                  λ n4 a4.
                                    then_ensured
                                      (bounded_int-Within (codes "write_budget_bytes_per_min") 65536
                                        1 65536 serial)
                                      λ n5 a5. then_any (flag (codes "allow") false flash) λ allow.
                                        then_any (flag (codes "allow_fingerprinted") false flash)
                                          λ fingerprinted.
                                            then_ensured
                                              (bounded_int-Within (codes "max_uploads_per_hour") 30
                                                1 1000 flash)
                                              λ n6 a6.
                                                then_any (flag (codes "allow_unknown") false serial)
                                                  λ unknown.
                                                    then_required
                                                      (not allow || not (is_empty roots))
                                                      λ rooted.
                                                        then_ensured (parse_weintek-secure py raw)
                                                          λ weintek (opcua, mqtt).
                                                            then_ensured
                                                            (parse_weintek_modbus-InArea py raw)
                                                            λ modbus inside.
                                                            then_ensured (parse_ming-secure py raw)
                                                            λ ming (brokers, b1, b2, b3).
                                                            let disjoint : any
                                                            (λ host. contains others host) hosts
                                                            ≡ false =
                                                            ground (arith, apart) in
                                                            holds (
                                                            (opcua, mqtt, brokers),
                                                            (
                                                            within, a1, a2, a3, a4, a5, a6, b1, b2,
                                                            b3,
                                                            ),
                                                            (rooted, disjoint),
                                                            inside,
                                                            )

default_config-IsLoaded : (py : Python) → IsLoaded py default_config
default_config-IsLoaded py =
    let ranges : InRange default_config = omega arith in ((tt, tt, tt), ranges, (refl, refl), tt)

load_content-IsLoaded :
    (py : Python) (content : Option Table) → Ensures (IsLoaded py) (load_content py content)
unfolding load_content
load_content-IsLoaded py none = holds (default_config-IsLoaded py)
load_content-IsLoaded py (some raw) = load_table-IsLoaded py raw

load-Ensures : (py : Python) (source : Source) → Ensures (IsLoaded py) (load py source)
unfolding load
load-Ensures py source = then_any (read_raw source) (load_content-IsLoaded py)

pub load-IsLoaded :
    (py : Python) (source : Source) (config : Config)
    → load py source ≡ ok config
    → IsLoaded py config
load-IsLoaded py source config h = Ensures-ok (load-Ensures py source) h
