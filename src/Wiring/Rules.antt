-- ===== src/Wiring/Rules.antt =====
-- The rules of `check` of mcp/omarchy_hardware/wiring.py for one connection.
use omarchy_hardware.Common.{
  Bool, false, not, ◌&&◌, any, Option, none, some, List, [], ◌∷◌, ◌++◌, if◌then◌else◌,
}
use omarchy_hardware.Common.Text.{Text, codes, text_eq, contains}
use omarchy_hardware.Common.Dict.{lookup}
use omarchy_hardware.Wiring.{
  Floats, roles, board_drives, i2c, inductive, supplies, Wire, Pin, Profile,
}

pub data Severity : Type 0 where
  error warning info : Severity

-- A message of the check.
pub data Kind : Type 0 where
  unknown_pin reserved_pin caution_pin not_a_supply is_a_supply input_only not_default cannot : Kind
  some_tolerant not_tolerant open_drain low_part answers_low undriven_load flyback servo_supply :
      Kind
  over_absolute over_recommended over_total used_twice wired_as_several : Kind
  no_line no_pull_ups shared_address : Kind

pub record Finding : Type 0 where
  pub severity : Severity
  pub pin : Text
  pub kind : Kind

abbrev pub at : Severity → Text → Kind → List Finding
at severity pin kind = record { severity = severity; pin = pin; kind = kind } ∷ []

unfoldable pub truthy : Option Bool → Bool
truthy none = false
truthy (some b) = b

-- `caps & {"power", "ground"}`
unfoldable pub is_supply : Pin → Bool
is_supply pin = any (λ cap. contains supplies cap) pin.caps

unfoldable pub reserved_findings : Pin → List Finding
reserved_findings pin =
    if pin.reserved
    then at error pin.name reserved_pin
    else if pin.caution
    then at warning pin.name caution_pin
    else []

-- The capability that the role needs.
unfoldable pub needed_findings : Pin → Text → Option (Option Text × Bool) → List Finding
needed_findings pin role none = []
needed_findings pin role (some (none, soft)) = []
needed_findings pin role (some (some needed, soft)) =
    if not (contains pin.caps needed)
      && not (text_eq needed (codes "digital") && contains pin.caps (codes "input_only"))
    then (if soft then at warning pin.name not_default else at error pin.name cannot)
    else []

unfoldable pub capability_findings : Pin → Text → List Finding
unfolding needed_findings
capability_findings pin role =
    if contains board_drives role && contains pin.caps (codes "input_only")
    then at error pin.name input_only
    else needed_findings pin role (lookup role roles)

module _ {N : Type 0} (f : Floats N) (profile : Profile N) where
  unfoldable pub voltage_findings : Pin → Text → Option N → List Finding
  voltage_findings pin role none = []
  voltage_findings pin role (some volts) =
      let logic = profile.logic_voltage in
      let low = f.gt (f.sub logic f.three_tenths) volts in
      if f.gt volts (f.add logic f.three_tenths)
      then (if text_eq profile.five_volt_tolerant (codes "all")
          then []
          else if text_eq profile.five_volt_tolerant (codes "some")
          then at warning pin.name some_tolerant
          else at error pin.name not_tolerant)
      else if low && contains i2c role
      then at warning pin.name open_drain
      else if low && contains board_drives role
      then at error pin.name low_part
      else if low
      then at info pin.name answers_low
      else []

  unfoldable pub load_findings : Pin → Wire N → List Finding
  unfolding truthy
  load_findings pin wire =
      if contains inductive wire.load
      then (if not (truthy wire.driver)
          then at error pin.name undriven_load
          else at info pin.name flyback)
      else if text_eq wire.load (codes "servo")
      then at info pin.name servo_supply
      else []

  -- Whether the current is the board's: a driver takes that of an inductive load.
  unfoldable pub sourced : Wire N → Bool
  unfolding truthy
  sourced wire = not (truthy wire.driver && contains inductive wire.load)

  unfoldable pub current_findings : Pin → Bool → Option N → List Finding
  current_findings pin sourced none = []
  current_findings pin sourced (some current) =
      if sourced
      then (if f.gt current profile.per_pin_absolute_max
          then at error pin.name over_absolute
          else if f.gt current profile.per_pin_recommended
          then at warning pin.name over_recommended
          else [])
      else []

  unfoldable pub signal_findings : Pin → Wire N → List Finding
  unfolding capability_findings voltage_findings load_findings sourced current_findings
  signal_findings pin wire =
      capability_findings pin wire.role
      ++ (voltage_findings pin wire.role wire.part_voltage
          ++ (load_findings pin wire ++ current_findings pin (sourced wire) wire.current_ma))

  -- The findings of a connection whose pin is known.
  unfoldable pub pin_findings : Pin → Wire N → List Finding
  unfolding reserved_findings is_supply signal_findings
  pin_findings pin wire =
      reserved_findings pin
      ++ (if contains supplies wire.role
          then (if not (is_supply pin) then at error pin.name not_a_supply else [])
          else if is_supply pin
          then at error pin.name is_a_supply
          else signal_findings pin wire)
