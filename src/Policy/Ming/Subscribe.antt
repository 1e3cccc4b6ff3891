-- ===== src/Policy/Ming/Subscribe.antt =====
-- What an authorised MING target is, and what a subscription to it may bring.
use omarchy_hardware.Common.{
  ◌≡◌, ◌⊎◌, inl, inr, any, any→In, sym, true, Option, none, some, List, [], ◌∷◌, In, arith,
  Bool-cases,
}
use omarchy_hardware.Common.Text.{Text, text_eq, text_eq_iff}
use omarchy_hardware.Config.{Config, MingMqttBroker}
use omarchy_hardware.Errors.{ok, >>-ok, >>=-ok}
use omarchy_hardware.Mqtt.Topic.{topic_matches, filter_covers}
use omarchy_hardware.Mqtt.Topic.Covers.{filter_covers_sound}
use omarchy_hardware.Policy.Ming.{
  Net, is_loopback, check_ming_enabled, named_target, pick, require_secure_broker, ming_mqtt,
  check_ming_subscribe,
}

-- A target is what the caller named, or the only one there is.
abbrev pub Chosen : {T : Type 0} → (T → Text) → List T → Option Text → T → Type 0
Chosen name_of targets none t = targets ≡ t ∷ []
Chosen name_of targets (some name) t = In t targets × (name_of t ≡ name)

named_target-ok :
    {T : Type 0} (name_of : T → Text) (name : Text) (targets : List T) (t : T)
    → named_target name_of name targets ≡ ok t
    → In t targets × (name_of t ≡ name)
unfolding named_target
named_target-ok name_of name [] t h = cc
named_target-ok name_of name (x ∷ xs) t h = elim (Bool-cases (text_eq (name_of x) name)) [
  | inl e ↦
      let same : t ≡ x = ground (arith, rw e at h) in
      (inl same, rw same ((text_eq_iff (name_of x) name).0 e))
  | inr e ↦ let (m, p) = named_target-ok name_of name xs t (rw e at h) in (inr m, p)
]

pub pick-ok :
    {T : Type 0} (name_of : T → Text) (targets : List T) (name : Option Text) (t : T)
    → pick name_of targets name ≡ ok t
    → Chosen name_of targets name t
pick-ok name_of [] none t h = unfold pick in cc
pick-ok name_of (x ∷ []) none t h = unfold pick in cc
pick-ok name_of (x ∷ y ∷ ys) none t h = unfold pick in cc
pick-ok name_of [] (some name) t h = named_target-ok name_of name [] t (unfold pick in h)
pick-ok name_of (x ∷ []) (some name) t h =
    named_target-ok name_of name (x ∷ []) t (unfold pick in h)
pick-ok name_of (x ∷ y ∷ ys) (some name) t h =
    named_target-ok name_of name (x ∷ y ∷ ys) t (unfold pick in h)

-- A broker that is reached over TLS, on this machine, or in the clear by an explicit waiver.
abbrev pub IsSecureBroker : Net → MingMqttBroker → Type 0
IsSecureBroker net b =
    (b.security.tls ≡ true) ⊎ ((b.security.allow_insecure ≡ true) ⊎ (is_loopback net b.host ≡ true))

require_secure_broker→IsSecureBroker :
    (net : Net) (b : MingMqttBroker) → require_secure_broker net b ≡ ok tt → IsSecureBroker net b
unfolding require_secure_broker
require_secure_broker→IsSecureBroker net b h = elim (Bool-cases b.security.tls) [
  | inl e ↦ inl e
  | inr e ↦ elim (Bool-cases b.security.allow_insecure) [
    | inl w ↦ inr (inl w)
    | inr w ↦ inr (inr (ground arith))
  ]
]

check_ming_enabled-ok :
    (config : Config) → check_ming_enabled config ≡ ok tt → config.ming_allow ≡ true
unfolding check_ming_enabled
check_ming_enabled-ok config h = ground arith

-- A broker that is returned has the MING tools enabled, is the one named or the only one
-- configured, and is reached over TLS, on this machine, or in the clear by an explicit waiver.
pub ming_mqtt-ok :
    (net : Net) (config : Config) (name : Option Text) (broker : MingMqttBroker)
    → ming_mqtt net config name ≡ ok broker
    → (config.ming_allow ≡ true)
      × Chosen (λ b. b.name) config.ming_mqtt name broker
      × IsSecureBroker net broker
unfolding ming_mqtt
ming_mqtt-ok net config name broker h =
    let (allowed, rest) = >>-ok (check_ming_enabled config) _ broker h in
    let (b, picked, secured) = >>=-ok (pick (λ b. b.name) config.ming_mqtt name) _ broker rest in
    let (passed, returned) = >>-ok (require_secure_broker net b) (ok b) broker secured in
    let same : b ≡ broker = cc in
    (
      check_ming_enabled-ok config allowed,
      pick-ok (λ b. b.name) config.ming_mqtt name broker (rw same at picked),
      require_secure_broker→IsSecureBroker net broker (rw same at passed),
    )

-- When check_ming_subscribe grants a requested filter, the granted filter is the requested
-- one, and every topic it matches is matched by a filter of the broker's subscribe list.
pub check_ming_subscribe_sound :
    (broker : MingMqttBroker) (requested granted topic : Text)
    → check_ming_subscribe broker requested ≡ ok granted
    → topic_matches granted topic ≡ true
    → (granted ≡ requested)
      × ((allowed : Text) × In allowed broker.subscribe × (topic_matches allowed topic ≡ true))
unfolding check_ming_subscribe
check_ming_subscribe_sound broker requested granted topic h m =
    elim (Bool-cases (any (λ allowed. filter_covers allowed requested) broker.subscribe)) [
      | inl e ↦
          let same : requested ≡ granted = ground (arith, rw e at h) in
          let (allowed, listed, covered) = any→In _ broker.subscribe e in
          (
            sym same,
            (allowed, listed, filter_covers_sound allowed requested topic covered (rw same m)),
          )
      | inr e ↦ absurd (cc (rw e at h))
    ]
