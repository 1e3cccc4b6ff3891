-- ===== src/Wiring/Check.antt =====
-- `check` of mcp/omarchy_hardware/wiring.py on a parsed plan.
use omarchy_hardware.Common.{
  ℕ, zero, suc, ltb, Bool, true, false, not, ◌&&◌, ◌||◌, any, all, keep, length, map, Option, none,
  some, List, [], ◌∷◌, ◌++◌, if◌then◌else◌,
}
use omarchy_hardware.Common.Text.{Text, codes, text_eq, contains}
use omarchy_hardware.Common.Dict.{Dict, lookup, insert}
use omarchy_hardware.Common.Unicode.{Unicode}
use omarchy_hardware.Wiring.{Floats, i2c, shared, supplies, Wire, Pin, Profile, pin_lookup}
use omarchy_hardware.Wiring.Rules.{
  error, warning, info, unknown_pin, over_total, used_twice, wired_as_several, no_line, no_pull_ups,
  shared_address, Finding, at, truthy, is_supply, sourced, pin_findings,
}

abbrev pub is_error : Finding → Bool
is_error finding = elim finding.severity [ error ↦ true | warning ↦ false | info ↦ false ]

abbrev pub is_warning : Finding → Bool
is_warning finding = elim finding.severity [ error ↦ false | warning ↦ true | info ↦ false ]

abbrev pub is_info : Finding → Bool
is_info finding = elim finding.severity [ error ↦ false | warning ↦ false | info ↦ true ]

pub record Report : Type 0 where
  pub verdict : Text
  pub errors : ℕ
  pub warnings : ℕ
  pub infos : ℕ
  pub findings : List Finding

-- `owners.setdefault(address, set()).add(part)`, and `by_pin.setdefault(label, []).append(wire)`.
unfoldable pub append_at : {V : Type 0} → Option (List V) → V → List V
append_at none v = v ∷ []
append_at (some vs) v = vs ++ v ∷ []

unfoldable pub add_owner : Option (List Text) → Text → List Text
add_owner none part = part ∷ []
add_owner (some parts) part = if contains parts part then parts else parts ++ part ∷ []

module _ {N : Type 0} (f : Floats N) (profile : Profile N) where
  -- What the rules say of a connection.
  unfoldable pub wire_findings : Option Pin → Wire N → List Finding
  wire_findings none wire = at error wire.pin unknown_pin
  wire_findings (some pin) wire = pin_findings f profile pin wire

  unfoldable pub plan_findings : Unicode → Dict Pin → List (Wire N) → List Finding
  unfolding wire_findings
  plan_findings u table [] = []
  plan_findings u table (wire ∷ wires) =
      wire_findings (lookup (u.upper wire.pin) table) wire ++ plan_findings u table wires

  unfoldable pub add_current : Bool → Option N → N → N
  add_current counted none total = total
  add_current counted (some current) total = if counted then f.add total current else total

  unfoldable pub wire_current : Option Pin → Wire N → N → N
  unfolding add_current
  wire_current none wire total = total
  wire_current (some pin) wire total =
      add_current
        (not (contains supplies wire.role) && not (is_supply pin) && sourced f profile wire)
        wire.current_ma total

  unfoldable pub total_current : Unicode → Dict Pin → List (Wire N) → N → N
  unfolding wire_current
  total_current u table [] total = total
  total_current u table (wire ∷ wires) total =
      total_current u table wires (wire_current (lookup (u.upper wire.pin) table) wire total)

  unfoldable pub total_findings : Option N → N → List Finding
  total_findings none total = []
  total_findings (some limit) total =
      if f.gt total limit then at error (codes "*") over_total else []

unfoldable pub group_wire :
    {N : Type 0} → Option Pin → Wire N → Dict (List (Wire N)) → Dict (List (Wire N))
unfolding append_at
group_wire none wire by_pin = by_pin
group_wire (some pin) wire by_pin = insert pin.name (append_at (lookup pin.name by_pin) wire) by_pin

unfoldable pub group_pins :
    {N : Type 0} → Unicode → Dict Pin → List (Wire N) → Dict (List (Wire N)) → Dict (List (Wire N))
unfolding group_wire
group_pins u table [] by_pin = by_pin
group_pins u table (wire ∷ wires) by_pin =
    group_pins u table wires (group_wire (lookup (u.upper wire.pin) table) wire by_pin)

-- `len(roles) > 1`: some role is not the first.
unfoldable pub several : List Text → Bool
several [] = false
several (role ∷ roles) = any (λ r. not (text_eq r role)) roles

unfoldable pub group_findings : {N : Type 0} → Dict (List (Wire N)) → List Finding
unfolding several
group_findings [] = []
group_findings ((name, wires) ∷ groups) =
    let roles = map (λ w. w.role) wires in
    let rest = group_findings groups in
    (if ltb 1 (length wires) && not (all (λ r. contains shared r) roles)
      then at error name used_twice
      else if several roles
      then at error name wired_as_several
      else [])
    ++ rest

unfoldable pub own : Option Text → Text → Dict (List Text) → Dict (List Text)
unfolding add_owner
own none part found = found
own (some address) part found = insert address (add_owner (lookup address found) part) found

unfoldable pub owners : {N : Type 0} → List (Wire N) → Dict (List Text) → Dict (List Text)
unfolding own
owners [] found = found
owners (wire ∷ wires) found = owners wires (own wire.i2c_address wire.part found)

unfoldable pub owner_findings : Dict (List Text) → List Finding
owner_findings [] = []
owner_findings ((address, names) ∷ rest) =
    let later = owner_findings rest in
    (if ltb 1 (length names) then at error (codes "*") shared_address else []) ++ later

unfoldable pub has_role : {N : Type 0} → Text → List (Wire N) → Bool
has_role role wires = any (λ w. text_eq w.role role) wires

unfoldable pub bus_findings : {N : Type 0} → List (Wire N) → List Finding
unfolding owner_findings owners has_role
bus_findings [] = []
bus_findings (w ∷ ws) =
    let wires = w ∷ ws in
    (if not (has_role (codes "i2c_sda") wires) || not (has_role (codes "i2c_scl") wires)
      then at error (codes "*") no_line
      else [])
    ++ ((if not (any (λ x. truthy x.pull_up) wires) then at warning (codes "*") no_pull_ups else [])
        ++ owner_findings (owners wires []))

unfoldable pub verdict_of : ℕ → ℕ → Text
verdict_of zero zero = codes "pass"
verdict_of zero (suc warnings) = codes "check"
verdict_of (suc errors) warnings = codes "fail"

unfoldable pub report : List Finding → Report
unfolding verdict_of
report findings =
    let errors = length (keep is_error findings) in
    let warnings = length (keep is_warning findings) in
    record {
      verdict = verdict_of errors warnings;
      errors = errors;
      warnings = warnings;
      infos = length (keep is_info findings);
      findings = keep is_error findings ++ (keep is_warning findings ++ keep is_info findings);
    }

-- The findings in the order in which they are added.
unfoldable pub all_findings :
    {N : Type 0} → Floats N → Unicode → Profile N → List (Wire N) → List Finding
unfolding plan_findings total_current total_findings group_pins group_findings bus_findings
all_findings f u profile plan =
    let table = pin_lookup u profile in
    plan_findings f profile u table plan
    ++ (total_findings f profile profile.total_max
          (total_current f profile u table plan f.zero_float)
        ++ (group_findings (group_pins u table plan [])
            ++ bus_findings (keep (λ w. contains i2c w.role) plan)))

unfoldable pub check : {N : Type 0} → Floats N → Unicode → Profile N → List (Wire N) → Report
unfolding all_findings report
check f u profile plan = report (all_findings f u profile plan)
