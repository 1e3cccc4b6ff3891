-- ===== src/Settings/Sound.antt =====
-- Settings that load are settings that the checks accept.
use omarchy_hardware.Common.{
  ◌≡◌, refl, All, Bool, true, false, not, ◌&&◌, ◌||◌, Option, List, [], ◌∷◌, arith, Bool-cases, inl,
  inr,
}
use omarchy_hardware.Common.Text.{Text, codes, text_eq}
use omarchy_hardware.Config.{OpcUaSecurity, MingMqttBroker}
use omarchy_hardware.Errors.{Result}
use omarchy_hardware.Errors
use omarchy_hardware.Policy.Weintek.{truthy, mode_none, require_secure_opcua, require_secure_mqtt}
use omarchy_hardware.Policy.Ming.{is_loopback, require_secure_broker}
use omarchy_hardware.Settings.Toml.{Value, text, get, or_default, Table}
use omarchy_hardware.Settings.Outcome.{
  Outcome, each, Ensures, holds, then_ensured, then_any, then_next, then_next_ensured,
  then_required, require-Ensures,
}
use omarchy_hardware.Settings.Fields.{
  Python, host_of, unique_tokens, max_topic_length, bounded_int, ming_name, topic_filters,
  publish_topics, flag, optional_path, optional_name,
}
use omarchy_hardware.Settings.Urls.{opcua_endpoint}
use omarchy_hardware.Settings.Weintek.{
  max_node_length, mqtt_default_port, opcua_target, mqtt_target,
}
use omarchy_hardware.Settings.Ming.{broker}
use omarchy_hardware.Settings.Security.{
  table_of, section, opcua_security, mqtt_security, opcua_policies, opcua_modes, choice,
  credentials, opcua_keys, opcua_table, mqtt_table,
}

-- A security table whose session the policy accepts.
abbrev IsAccepted : OpcUaSecurity → Type 0
IsAccepted s =
    (text_eq s.mode mode_none && not s.allow_insecure ≡ false)
    × (not (text_eq s.mode mode_none) && not (truthy s.certificate && truthy s.private_key) ≡ false)
    × (not (text_eq s.mode mode_none) && not (truthy s.trust_list) ≡ false)

opcua_keys-ok :
    (mode : Text) (allow : Bool) (certificate key : Option Text)
    → Ensures
        (λ _.
          (text_eq mode mode_none && not allow ≡ false)
          × (not (text_eq mode mode_none) && not (truthy certificate && truthy key) ≡ false))
        (opcua_keys mode allow certificate key)
unfolding opcua_keys
opcua_keys-ok mode allow certificate key = elim (Bool-cases (text_eq mode mode_none)) [
  | inl e ↦ rw e (require-Ensures allow λ h. (ground (arith, h), ground arith))
  | inr e ↦
      rw e
        (require-Ensures (truthy certificate && truthy key) λ h. (ground arith, ground (arith, h)))
]

opcua_table-IsAccepted : (py : Python) (raw : Table) → Ensures IsAccepted (opcua_table py raw)
unfolding opcua_table
opcua_table-IsAccepted py raw =
    then_any
      (choice opcua_policies
        (or_default (text (codes "Basic256Sha256")) (get (codes "policy") raw)))
      λ policy.
        then_any
          (choice opcua_modes (or_default (text (codes "SignAndEncrypt")) (get (codes "mode") raw)))
          λ mode.
            then_required
              (text_eq policy mode_none && text_eq mode mode_none
                || not (text_eq policy mode_none || text_eq mode mode_none))
              λ _. then_any (flag (codes "allow_insecure") false raw) λ allow.
                then_any (optional_path (codes "certificate") raw) λ certificate.
                  then_any (optional_path (codes "private_key") raw) λ private_key.
                    then_next_ensured (opcua_keys-ok mode allow certificate private_key) λ _ keys.
                      then_any (optional_path (codes "trust_list") raw) λ trust_list.
                        then_required (text_eq mode mode_none || truthy trust_list) λ trusted.
                          then_any (optional_name py (codes "password_env") raw) λ password_env.
                            then_any (optional_path (codes "password_file") raw) λ password_file.
                              then_next (credentials raw password_env password_file) λ _.
                                then_any (optional_name py (codes "username") raw) λ username.
                                  let pinned : (not (text_eq mode mode_none)
                                        && not (truthy trust_list))
                                      ≡ false =
                                    ground (arith, trusted) in
                                  holds (keys.0, keys.1, pinned)

-- The broker or the target is reached over TLS, by loopback, or in the clear by an explicit waiver.
mqtt_table-IsReachable :
    (py : Python) (loopback : Bool) (raw : Table)
    → Ensures (λ s. (s.tls || (s.allow_insecure || loopback)) ≡ true) (mqtt_table py loopback raw)
unfolding mqtt_table
mqtt_table-IsReachable py loopback raw = then_any (flag (codes "tls") true raw) λ tls.
    then_any (flag (codes "allow_insecure") false raw) λ allow.
      then_required (tls || (allow || loopback)) λ reachable.
        then_any (optional_path (codes "client_certificate") raw) λ client_certificate.
          then_any (optional_path (codes "client_key") raw) λ client_key.
            then_required
              (truthy client_certificate && truthy client_key
                || not (truthy client_certificate || truthy client_key))
              λ _. then_any (optional_name py (codes "password_env") raw) λ password_env.
                then_any (optional_path (codes "password_file") raw) λ password_file.
                  then_next (credentials raw password_env password_file) λ _.
                    then_any (optional_path (codes "ca_file") raw) λ ca_file.
                      then_any (optional_name py (codes "username") raw) λ username. holds reachable

opcua_security-IsAccepted : (py : Python) (raw : Table) → Ensures IsAccepted (opcua_security py raw)
unfolding opcua_security
opcua_security-IsAccepted py raw =
    then_any (section (codes "security") raw) λ t. opcua_table-IsAccepted py t

mqtt_security-IsReachable :
    (py : Python) (loopback : Bool) (raw : Table)
    → Ensures
        (λ s. (s.tls || (s.allow_insecure || loopback)) ≡ true)
        (mqtt_security py loopback raw)
unfolding mqtt_security
mqtt_security-IsReachable py loopback raw =
    then_any (section (codes "security") raw) λ t. mqtt_table-IsReachable py loopback t

pub opcua_target-accepted :
    (py : Python) (v : Value)
    → Ensures (λ t. require_secure_opcua t ≡ Errors.ok tt) (opcua_target py v)
unfolding opcua_target require_secure_opcua
opcua_target-accepted py v = then_any (table_of v) λ owner.
    then_any (opcua_endpoint py (get (codes "endpoint") owner)) λ endpoint.
      then_any (unique_tokens py max_node_length [] (get (codes "nodes") owner)) λ nodes.
        then_ensured (opcua_security-IsAccepted py owner)
          λ security (a, b, c). holds (rw (a, b, c) refl)

pub mqtt_target-accepted :
    (py : Python) (v : Value)
    → Ensures (λ t. require_secure_mqtt t ≡ Errors.ok tt) (mqtt_target py v)
unfolding mqtt_target require_secure_mqtt
mqtt_target-accepted py v = then_any (table_of v) λ owner.
    then_any (host_of py (get (codes "host") owner)) λ host.
      then_ensured (mqtt_security-IsReachable py false owner) λ security reachable.
        then_any (bounded_int (codes "port") (mqtt_default_port security.tls) 1 65535 owner) λ n.
          then_any (unique_tokens py max_topic_length (codes "+#") (get (codes "topics") owner))
            λ topics.
              let passed : require_secure_mqtt
                    (record { host = host; port = n; topics = topics; security = security })
                  ≡ Errors.ok tt =
                ground (arith, reachable) in
              holds passed

pub broker-accepted :
    (py : Python) (owner : Table)
    → Ensures (λ b. require_secure_broker py.net b ≡ Errors.ok tt) (broker py owner)
unfolding broker require_secure_broker
broker-accepted py owner = then_any (ming_name owner) λ name.
    then_any (host_of py (get (codes "host") owner)) λ host.
      then_ensured (mqtt_security-IsReachable py (is_loopback py.net host) owner)
        λ security reachable.
          then_any (bounded_int (codes "port") (mqtt_default_port security.tls) 1 65535 owner) λ n.
            then_any (topic_filters py (get (codes "subscribe") owner)) λ subscribe.
              then_any (publish_topics py (get (codes "publish") owner)) λ publish.
                let b : MingMqttBroker = record {
                  name = name;
                  host = host;
                  port = n;
                  subscribe = subscribe;
                  publish = publish;
                  security = security;
                } in
                let passed : require_secure_broker py.net b ≡ Errors.ok tt =
                  ground (arith, reachable) in
                holds passed

pub each-All :
    {A B : Type 0} (P : B → Type 0) (f : A → Outcome B) (xs : List A)
    → ((x : A) → Ensures P (f x))
    → Ensures (All P) (each f xs)
unfolding each
each-All P f [] h = holds tt
each-All P f (x ∷ xs) h =
    then_ensured (h x) λ y p. then_ensured (each-All P f xs h) λ ys ps. holds (p, ps)
