-- ===== src/Policy/Ming.antt =====
-- The MING checks of mcp/omarchy_hardware/policy.py, with `is_loopback` of config.py.
pub mod Subscribe
use omarchy_hardware.Common.{
  ℕ, any, Bool, true, false, not, ◌&&◌, ◌||◌, Option, none, some, List, [], ◌∷◌, if◌then◌else◌,
}
use omarchy_hardware.Common.Text.{Text, codes, text_eq, contains}
use omarchy_hardware.Config.{
  Config, HttpSecurity, MingMqttBroker, MingInfluxDb, MingNodeRed, MingGrafana,
}
use omarchy_hardware.Errors.{Result, ok, err, host_not_allowed, insecure_transport, ◌>>=◌, ◌>>◌}
use omarchy_hardware.Mqtt.Topic.{filter_covers}

-- Python's `urlparse` and `ipaddress`: the scheme and the host name of a URL, `str.lower`, and
-- whether a text is a loopback address.
pub record Net : Type 0 where
  pub scheme : Text → Text
  pub hostname : Text → Option Text
  pub lower : Text → Text
  pub loopback_address : Text → Bool

abbrev pub loopback_names : List Text
loopback_names = codes "localhost" ∷ codes "localhost.localdomain" ∷ []

unfoldable pub is_loopback : Net → Text → Bool
is_loopback net host =
    if contains loopback_names (net.lower host) then true else net.loopback_address host

unfoldable pub check_ming_enabled : Config → Result (Unit {0})
check_ming_enabled config = if config.ming_allow then ok tt else err host_not_allowed

-- `_pick`, given the names of the targets.
module _ {T : Type 0} (name_of : T → Text) where
  unfoldable pub named_target : Text → List T → Result T
  named_target name [] = err host_not_allowed
  named_target name (t ∷ ts) = if text_eq (name_of t) name then ok t else named_target name ts

  unfoldable pub pick : List T → Option Text → Result T
  pick (t ∷ []) none = ok t
  pick [] none = err host_not_allowed
  pick (t ∷ u ∷ ts) none = err host_not_allowed
  pick targets (some name) = named_target name targets

abbrev host_of : Option Text → Text
host_of none = []
host_of (some host) = host

unfoldable pub require_secure_http : Net → Text → HttpSecurity → Result (Unit {0})
require_secure_http net url security =
    if not (text_eq (net.scheme url) (codes "https"))
      && (not security.allow_insecure && not (is_loopback net (host_of (net.hostname url))))
    then err insecure_transport
    else ok tt

unfoldable pub require_secure_broker : Net → MingMqttBroker → Result (Unit {0})
require_secure_broker net broker =
    if not broker.security.tls
      && (not broker.security.allow_insecure && not (is_loopback net broker.host))
    then err insecure_transport
    else ok tt

unfoldable pub ming_mqtt : Net → Config → Option Text → Result MingMqttBroker
ming_mqtt net config name = do
  check_ming_enabled config
  broker ← pick (λ b. b.name) config.ming_mqtt name
  require_secure_broker net broker
  ok broker

unfoldable pub check_ming_subscribe : MingMqttBroker → Text → Result Text
check_ming_subscribe broker topic_filter =
    if any (λ allowed. filter_covers allowed topic_filter) broker.subscribe
    then ok topic_filter
    else err host_not_allowed

unfoldable pub check_ming_publish : MingMqttBroker → Text → Result Text
check_ming_publish broker topic =
    if contains broker.publish topic then ok topic else err host_not_allowed

unfoldable pub ming_influxdb : Net → Config → Option Text → Result MingInfluxDb
ming_influxdb net config name = do
  check_ming_enabled config
  db ← pick (λ d. d.name) config.ming_influxdb name
  require_secure_http net db.url db.security
  ok db

unfoldable pub check_ming_bucket : MingInfluxDb → Text → Bool → Result Text
check_ming_bucket db bucket write =
    if contains (if write then db.write_buckets else db.read_buckets) bucket
    then ok bucket
    else err host_not_allowed

unfoldable pub ming_nodered : Net → Config → Option Text → Result MingNodeRed
ming_nodered net config name = do
  check_ming_enabled config
  nodered ← pick (λ n. n.name) config.ming_nodered name
  require_secure_http net nodered.url nodered.security
  ok nodered

unfoldable pub check_ming_inject : MingNodeRed → Text → Result Text
check_ming_inject nodered node_id =
    if contains nodered.inject_nodes node_id then ok node_id else err host_not_allowed

unfoldable pub ming_grafana : Net → Config → Option Text → Bool → Result MingGrafana
ming_grafana net config name annotate = do
  check_ming_enabled config
  grafana ← pick (λ g. g.name) config.ming_grafana name
  require_secure_http net grafana.url grafana.security
  if annotate && not grafana.annotate then err host_not_allowed else ok grafana
