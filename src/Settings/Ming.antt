-- ===== src/Settings/Ming.antt =====
-- `_parse_ming` of mcp/omarchy_hardware/config.py.
use omarchy_hardware.Common.{
  ℕ, leb, length, all, map, Bool, false, not, ◌&&◌, ◌||◌, Option, some, List, [], if◌then◌else◌,
}
use omarchy_hardware.Common.Text.{Text, codes}
use omarchy_hardware.Config.{MingMqttBroker, MingInfluxDb, MingNodeRed, MingGrafana}
use omarchy_hardware.Policy.Ming.{is_loopback}
use omarchy_hardware.Settings.Toml.{
  Value, text, array, table, no_items, Table, no_entries, get, or_default, is_true,
}
use omarchy_hardware.Settings.Outcome.{Outcome, ok, config_error, ◌>>=◌, ◌>>◌, require, each}
use omarchy_hardware.Settings.Fields.{
  Python, is_empty, host_of, all_different, optional_tokens, flag, bounded_int, ming_name,
  ming_node_id_pattern, topic_filters, publish_topics,
}
use omarchy_hardware.Settings.Urls.{BaseUrl, http_url}
use omarchy_hardware.Settings.Security.{table_of, mqtt_security, http_security}
use omarchy_hardware.Settings.Weintek.{list_of, mqtt_default_port}

pub record Ming : Type 0 where
  pub allow : Bool
  pub timeout : ℕ
  pub max_payload_bytes : ℕ
  pub write_budget_per_min : ℕ
  pub mqtt : List MingMqttBroker
  pub influxdb : List MingInfluxDb
  pub nodered : List MingNodeRed
  pub grafana : List MingGrafana

abbrev pub no_ming : Ming
no_ming = record {
  allow = false;
  timeout = 10;
  max_payload_bytes = 4096;
  write_budget_per_min = 60;
  mqtt = [];
  influxdb = [];
  nodered = [];
  grafana = [];
}

-- `_ming_entries`: a list whose values are all tables.
unfoldable pub ming_entries : Text → Table → Outcome (List Table)
ming_entries key raw = do
  entries ← list_of (or_default (array no_items) (get key raw))
  each table_of entries

unfoldable pub broker : Python → Table → Outcome MingMqttBroker
broker py owner = do
  name ← ming_name owner
  host ← host_of py (get (codes "host") owner)
  security ← mqtt_security py (is_loopback py.net host) owner
  n ← bounded_int (codes "port") (mqtt_default_port security.tls) 1 65535 owner
  subscribe ← topic_filters py (get (codes "subscribe") owner)
  publish ← publish_topics py (get (codes "publish") owner)
  ok (record {
    name = name;
    host = host;
    port = n;
    subscribe = subscribe;
    publish = publish;
    security = security;
  })

unfoldable pub org_of : Python → Option Value → Outcome Text
org_of py (some (text org)) = do
  require (not (is_empty org) && (leb (length org) 64 && all py.is_printable org))
  ok org
org_of py _ = config_error

-- `https or loopback`
abbrev pub is_reachable : Python → BaseUrl → Bool
is_reachable py base = base.https || is_loopback py.net base.host

unfoldable pub influxdb : Python → Table → Outcome MingInfluxDb
unfolding org_of
influxdb py owner = do
  base ← http_url py (get (codes "url") owner)
  org ← org_of py (get (codes "org") owner)
  name ← ming_name owner
  read_buckets ← optional_tokens py 64 [] (get (codes "read_buckets") owner)
  write_buckets ← optional_tokens py 64 [] (get (codes "write_buckets") owner)
  security ← http_security py (is_reachable py base) owner
  ok (record {
    name = name;
    url = base.url;
    org = org;
    read_buckets = read_buckets;
    write_buckets = write_buckets;
    security = security;
  })

unfoldable pub nodered : Python → Table → Outcome MingNodeRed
nodered py owner = do
  base ← http_url py (get (codes "url") owner)
  inject_nodes ← optional_tokens py 64 [] (get (codes "inject_nodes") owner)
  require (all ming_node_id_pattern inject_nodes)
  name ← ming_name owner
  security ← http_security py (is_reachable py base) owner
  ok (record { name = name; url = base.url; inject_nodes = inject_nodes; security = security })

unfoldable pub grafana : Python → Table → Outcome MingGrafana
grafana py owner = do
  base ← http_url py (get (codes "url") owner)
  name ← ming_name owner
  annotate ← flag (codes "annotate") false owner
  security ← http_security py (is_reachable py base) owner
  ok (record { name = name; url = base.url; annotate = annotate; security = security })

unfoldable pub ming_table : Python → Table → Outcome Ming
unfolding ming_entries broker influxdb nodered grafana
ming_table py raw = do
  allow ← flag (codes "allow") false raw
  entries ← ming_entries (codes "mqtt") raw
  brokers ← each (broker py) entries
  entries ← ming_entries (codes "influxdb") raw
  influxdbs ← each (influxdb py) entries
  entries ← ming_entries (codes "nodered") raw
  noderes ← each (nodered py) entries
  entries ← ming_entries (codes "grafana") raw
  grafanas ← each (grafana py) entries
  timeout ← bounded_int (codes "timeout") 10 1 30 raw
  max_payload_bytes ← bounded_int (codes "max_payload_bytes") 4096 1 65536 raw
  write_budget_per_min ← bounded_int (codes "write_budget_per_min") 60 1 10000 raw
  require (all_different (map (λ t. t.name) brokers))
  require (all_different (map (λ t. t.name) influxdbs))
  require (all_different (map (λ t. t.name) noderes))
  require (all_different (map (λ t. t.name) grafanas))
  ok (record {
    allow = allow;
    timeout = timeout;
    max_payload_bytes = max_payload_bytes;
    write_budget_per_min = write_budget_per_min;
    mqtt = brokers;
    influxdb = influxdbs;
    nodered = noderes;
    grafana = grafanas;
  })

unfoldable pub ming_of : Python → Value → Outcome Ming
unfolding ming_table
ming_of py value =
    if is_true value then (do raw ← table_of value; ming_table py raw) else ok no_ming

unfoldable pub parse_ming : Python → Table → Outcome Ming
unfolding ming_of
parse_ming py raw = ming_of py (or_default (table no_entries) (get (codes "ming") raw))
