-- ===== src/Policy/Weintek/Allowlist.antt =====
-- What an authorised Weintek target is.
use omarchy_hardware.Common.{
  ℕ, ◌+◌, ◌≤◌, ◌<◌, sym, ==_iff, any→In, ◌≡◌, ◌≢◌, ◌⊎◌, inl, inr, Bool, true, ◌&&◌, List, [], ◌∷◌,
  In, arith, Bool-cases, ◌==◌,
}
use omarchy_hardware.Common.Text.{Text, text_eq, text_eq_iff, contains, contains→In}
use omarchy_hardware.Config.{
  Config, OpcUaSecurity, WeintekOpcUaTarget, WeintekModbusTarget, ModbusRange, covers,
}
use omarchy_hardware.Errors.{Result, ok, >>-ok}
use omarchy_hardware.Policy.Weintek.{
  truthy, mode_none, check_weintek_enabled, require_secure_opcua, first_target, check_weintek_opcua,
  check_weintek_modbus,
}

-- A target that the loop returns is in the list and passed both tests.
pub first_target-ok :
    {T : Type 0} (test : T → Bool) (check : T → Result (Unit {0})) (targets : List T) (t : T)
    → first_target test check targets ≡ ok t
    → In t targets × (test t ≡ true) × (check t ≡ ok tt)
unfolding first_target
first_target-ok test check [] t h = cc
first_target-ok test check (x ∷ xs) t h = elim (Bool-cases (test x)) [
  | inl e ↦
      let (passed, returned) = >>-ok (check x) (ok x) t (rw e at h) in
      let same : t ≡ x = cc in (inl same, rw same e, rw same passed)
  | inr e ↦ let (m, p, q) = first_target-ok test check xs t (rw e at h) in (inr m, p, q)
]

-- A session that `_require_secure_opcua` lets pass: signed with a client certificate and a pinned
-- server certificate, or without security by an explicit waiver.
abbrev pub IsSecureOpcUa : OpcUaSecurity → Type 0
IsSecureOpcUa s =
    ((s.mode ≡ mode_none) × (s.allow_insecure ≡ true))
    ⊎ ((s.mode ≢ mode_none)
        × (truthy s.certificate ≡ true)
        × (truthy s.private_key ≡ true)
        × (truthy s.trust_list ≡ true))

require_secure_opcua→IsSecureOpcUa :
    (t : WeintekOpcUaTarget) → require_secure_opcua t ≡ ok tt → IsSecureOpcUa t.security
unfolding require_secure_opcua
require_secure_opcua→IsSecureOpcUa t h = elim (Bool-cases (text_eq t.security.mode mode_none)) [
  | inl e ↦ inl ((text_eq_iff _ _).0 e, ground arith)
  | inr e ↦ inr (
    (λ m. cc (e, (text_eq_iff t.security.mode mode_none).1 m)),
    ground arith,
    ground arith,
    ground arith,
  )
]

check_weintek_enabled-ok :
    (config : Config) → check_weintek_enabled config ≡ ok tt → config.weintek_allow ≡ true
unfolding check_weintek_enabled
check_weintek_enabled-ok config h = ground arith

and-cases : (a b : Bool) → (a && b) ≡ true → (a ≡ true) × (b ≡ true)
and-cases a b h = ground arith

-- An OPC UA read that is let pass has the tools enabled, a configured target with that
-- endpoint and that exact node, and a session that is secure or whose insecurity was accepted.
pub check_weintek_opcua-ok :
    (config : Config) (endpoint node : Text) (t : WeintekOpcUaTarget)
    → check_weintek_opcua config endpoint node ≡ ok t
    → (config.weintek_allow ≡ true)
      × In t config.weintek_opcua
      × (t.endpoint ≡ endpoint)
      × In node t.nodes
      × IsSecureOpcUa t.security
unfolding check_weintek_opcua
check_weintek_opcua-ok config endpoint node t h =
    let (allowed, found) = >>-ok (check_weintek_enabled config) _ t h in
    let (m, test, passed) = first_target-ok _ require_secure_opcua config.weintek_opcua t found in
    let (e, n) = and-cases (text_eq t.endpoint endpoint) (contains t.nodes node) test in
    (
      check_weintek_enabled-ok config allowed,
      m,
      (text_eq_iff t.endpoint endpoint).0 e,
      contains→In t.nodes node n,
      require_secure_opcua→IsSecureOpcUa t passed,
    )

-- The registers `start` to `start + count - 1` of `area` lie in the range.
abbrev pub Inside : ModbusRange → Text → ℕ → ℕ → Type 0
Inside r area start count =
    (r.area ≡ area)
    × ((n : ℕ) → start ≤ n → n < start + count → (r.start ≤ n) × (n < r.start + r.count))

covers→Inside :
    (r : ModbusRange) (area : Text) (start count : ℕ)
    → covers r area start count ≡ true
    → Inside r area start count
unfolding covers
covers→Inside r area start count h =
    (sym ((text_eq_iff area r.area).0 (ground arith)), λ n lo hi. (ground arith, ground arith))

-- A Modbus read that is let pass has the tools enabled, a configured target with that host and
-- port, and lies inside one of the ranges that the target lists.
pub check_weintek_modbus-ok :
    (config : Config) (host : Text) (port : ℕ) (area : Text) (start count : ℕ)
    (t : WeintekModbusTarget)
    → check_weintek_modbus config host port area start count ≡ ok t
    → (config.weintek_allow ≡ true)
      × In t config.weintek_modbus
      × (t.host ≡ host)
      × (t.port ≡ port)
      × ((r : ModbusRange) × In r t.read × Inside r area start count)
unfolding check_weintek_modbus
check_weintek_modbus-ok config host port area start count t h =
    let (allowed, found) = >>-ok (check_weintek_enabled config) _ t h in
    let (m, test, passed) = first_target-ok _ _ config.weintek_modbus t found in
    let (e, rest) = and-cases (text_eq t.host host) _ test in
    let (p, n) = and-cases (t.port == port) _ rest in
    let (r, at, inside) = any→In _ t.read n in
    (
      check_weintek_enabled-ok config allowed,
      m,
      (text_eq_iff t.host host).0 e,
      (==_iff t.port port).0 p,
      (r, at, covers→Inside r area start count inside),
    )
