-- ===== src/Settings/Checked.antt =====
-- The checks of mcp/omarchy_hardware/policy.py on settings that loaded.
use omarchy_hardware.Common.{
  ℕ, ◌+◌, ◌≤◌, ◌<◌, ◌≡◌, ◌≢◌, refl, All, In, Bool, Option, none, some, List, [], ◌∷◌, arith,
  Bool-cases, inl, inr,
}
use omarchy_hardware.Common.Text.{Text, text_eq}
use omarchy_hardware.Common.Dict.{lookup}
use omarchy_hardware.Config.{Config, WeintekModbusTarget}
use omarchy_hardware.Errors.{Result, ok, err, ErrorCode, insecure_transport, ◌>>=◌, ◌>>◌}
use omarchy_hardware.Policy.Weintek.{
  check_weintek_enabled, first_target, require_secure_opcua, require_secure_mqtt,
  check_weintek_opcua, check_weintek_mqtt, check_weintek_modbus,
}
use omarchy_hardware.Policy.Weintek.Allowlist.{check_weintek_modbus-ok}
use omarchy_hardware.Policy.Ming.{check_ming_enabled, named_target, pick, ming_mqtt}
use omarchy_hardware.Policy.Ming.Subscribe.{Chosen, pick-ok}
use omarchy_hardware.Settings.Outcome
use omarchy_hardware.Settings.Fields.{Python}
use omarchy_hardware.Settings.Weintek.{modbus_areas}
use omarchy_hardware.Settings.Load.{Source, load}
use omarchy_hardware.Settings.Ranges.{InArea, ListsInArea}
use omarchy_hardware.Settings.Secured.{PassesBroker}
use omarchy_hardware.Settings.Loaded.{load-IsLoaded, InRange, IsConsistent}

All-In : {A : Type 0} (P : A → Type 0) (xs : List A) {x : A} → All P xs → In x xs → P x
All-In P [] h m = elim m [ ]
All-In P (y ∷ ys) (p, ps) (inl e) = rw e p
All-In P (y ∷ ys) (p, ps) (inr m) = All-In P ys ps m

-- An error of a sequence comes from one of its parts.
>>=-ne :
    {A B : Type 0} (m : Result A) (f : A → Result B) {e : ErrorCode}
    → m ≢ err e
    → ((a : A) → m ≡ ok a → f a ≢ err e)
    → (m >>= f) ≢ err e
>>=-ne (ok a) f m-ne f-ne = f-ne a refl
>>=-ne (err code) f m-ne f-ne = λ h. m-ne (cc h)

>>-ne :
    {B : Type 0} (m : Result (Unit {0})) (k : Result B) {e : ErrorCode}
    → m ≢ err e
    → k ≢ err e
    → (m >> k) ≢ err e
>>-ne (ok a) k m-ne k-ne = k-ne
>>-ne (err code) k m-ne k-ne = λ h. m-ne (cc h)

first_target-ne :
    {T : Type 0} (test : T → Bool) (check : T → Result (Unit {0})) (targets : List T)
    → All (λ t. check t ≡ ok tt) targets
    → first_target test check targets ≢ err insecure_transport
unfolding first_target
first_target-ne test check [] pass h = cc
first_target-ne test check (t ∷ ts) (p, pass) h = elim (Bool-cases (test t)) [
  | inl e ↦ cc (rw e at h, p)
  | inr e ↦ first_target-ne test check ts pass (rw e at h)
]

check_weintek_enabled-ne : (config : Config) → check_weintek_enabled config ≢ err insecure_transport
unfolding check_weintek_enabled
check_weintek_enabled-ne config h = ground arith

named_target-ne :
    {T : Type 0} (name_of : T → Text) (name : Text) (targets : List T)
    → named_target name_of name targets ≢ err insecure_transport
unfolding named_target
named_target-ne name_of name [] h = cc
named_target-ne name_of name (t ∷ ts) h = elim (Bool-cases (text_eq (name_of t) name)) [
  | inl e ↦ cc (rw e at h)
  | inr e ↦ named_target-ne name_of name ts (rw e at h)
]

pick-ne :
    {T : Type 0} (name_of : T → Text) (targets : List T) (name : Option Text)
    → pick name_of targets name ≢ err insecure_transport
unfolding pick
pick-ne name_of [] none h = cc
pick-ne name_of (t ∷ []) none h = cc
pick-ne name_of (t ∷ u ∷ ts) none h = cc
pick-ne name_of [] (some name) h = named_target-ne name_of name [] h
pick-ne name_of (t ∷ ts) (some name) h = named_target-ne name_of name (t ∷ ts) h

Chosen-In :
    {T : Type 0} (name_of : T → Text) (targets : List T) (name : Option Text) (t : T)
    → Chosen name_of targets name t
    → In t targets
Chosen-In name_of targets none t e = rw e (inl refl)
Chosen-In name_of targets (some name) t (m, p) = m

check_weintek_opcua-ne-insecure :
    (py : Python) (source : Source) (config : Config) (endpoint node : Text)
    → load py source ≡ Outcome.ok config
    → check_weintek_opcua config endpoint node ≢ err insecure_transport
unfolding check_weintek_opcua
check_weintek_opcua-ne-insecure py source config endpoint node h =
    let ((pass, _, _), _, _, _) = load-IsLoaded py source config h in
    >>-ne (check_weintek_enabled config) _ (check_weintek_enabled-ne config)
      (first_target-ne _ require_secure_opcua config.weintek_opcua pass)

check_weintek_mqtt-ne-insecure :
    (py : Python) (source : Source) (config : Config) (host topic : Text) (port : ℕ)
    → load py source ≡ Outcome.ok config
    → check_weintek_mqtt config host topic port ≢ err insecure_transport
unfolding check_weintek_mqtt
check_weintek_mqtt-ne-insecure py source config host topic port h =
    let ((_, pass, _), _, _, _) = load-IsLoaded py source config h in
    >>-ne (check_weintek_enabled config) _ (check_weintek_enabled-ne config)
      (first_target-ne _ require_secure_mqtt config.weintek_mqtt pass)

check_ming_enabled-ne : (config : Config) → check_ming_enabled config ≢ err insecure_transport
unfolding check_ming_enabled
check_ming_enabled-ne config h = ground arith

ming_mqtt-ne-insecure :
    (py : Python) (source : Source) (config : Config) (name : Option Text)
    → load py source ≡ Outcome.ok config
    → ming_mqtt py.net config name ≢ err insecure_transport
unfolding ming_mqtt
ming_mqtt-ne-insecure py source config name h =
    let ((_, _, pass), _, _, _) = load-IsLoaded py source config h in
    >>-ne (check_ming_enabled config) _ (check_ming_enabled-ne config) (
      >>=-ne (pick (λ b. b.name) config.ming_mqtt name) _ (pick-ne _ config.ming_mqtt name) λ b e.
        let chosen = pick-ok _ config.ming_mqtt name b e in
        let passed =
          All-In (PassesBroker py) config.ming_mqtt pass
            (Chosen-In _ config.ming_mqtt name b chosen) in
        rw passed (λ k. cc k))

-- On settings that load returns, no OPC UA read, no MQTT read of an HMI, and no choice of a
-- MING broker fails with insecure_transport, when the address test is the one that the loader
-- used: a target that its check would refuse does not load.
pub checks-ne-insecure :
    (py : Python) (source : Source) (config : Config) (endpoint node host topic : Text) (port : ℕ)
    (name : Option Text)
    → load py source ≡ Outcome.ok config
    → (check_weintek_opcua config endpoint node ≢ err insecure_transport)
      × (check_weintek_mqtt config host topic port ≢ err insecure_transport)
      × (ming_mqtt py.net config name ≢ err insecure_transport)
checks-ne-insecure py source config endpoint node host topic port name h = (
  check_weintek_opcua-ne-insecure py source config endpoint node h,
  check_weintek_mqtt-ne-insecure py source config host topic port h,
  ming_mqtt-ne-insecure py source config name h,
)

-- In settings that load returns, each allowed pin is from 2 to 27, each timeout, size and
-- budget is in the range that the loader names for it, flashing is allowed only with a sketch
-- root, and no Raspberry Pi host is a Jetson host.
pub load-InRange :
    (py : Python) (source : Source) (config : Config)
    → load py source ≡ Outcome.ok config
    → InRange config × IsConsistent config
load-InRange py source config h = let (a, b, c, d) = load-IsLoaded py source config h in (b, c)

-- On settings that load returns, every register of a Modbus read that is let pass lies inside
-- the area that the read names.
pub check_weintek_modbus-InArea :
    (py : Python) (source : Source) (config : Config) (host : Text) (port : ℕ) (area : Text)
    (start count : ℕ) (t : WeintekModbusTarget)
    → load py source ≡ Outcome.ok config
    → check_weintek_modbus config host port area start count ≡ ok t
    → (size : ℕ) × (lookup area modbus_areas ≡ some size)
      × ((n : ℕ) → start ≤ n → n < start + count → n < size)
check_weintek_modbus-InArea py source config host port area start count t h k =
    let (_, _, _, inside) = load-IsLoaded py source config h in
    let (_, m, _, _, (r, at, (same, covered))) =
      check_weintek_modbus-ok config host port area start count t k in
    let (least, size, found, fits) =
      All-In InArea t.read (All-In ListsInArea config.weintek_modbus inside m) at in
    (size, rw same at found, λ n lo hi. let (a, b) = covered n lo hi in omega arith)
