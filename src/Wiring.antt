-- ===== src/Wiring.antt =====
-- mcp/omarchy_hardware/wiring.py: the tables, a parsed plan, and the names of a board's pins.
pub mod Rules
pub mod Check
pub mod Safe
mod Tests
use omarchy_hardware.Common.{
  ℕ, Bool, true, false, Option, none, some, List, [], ◌∷◌, ◌++◌, is_some, if◌then◌else◌,
}
use omarchy_hardware.Common.Text.{Text, codes}
use omarchy_hardware.Common.Dict.{Dict, lookup, insert}
use omarchy_hardware.Common.Unicode.{Unicode}

-- Python's floats, and the comparisons and sums that the check makes of them.
pub record Floats (N : Type 0) : Type 0 where
  pub gt : N → N → Bool
  pub add : N → N → N
  pub sub : N → N → N
  pub zero_float : N
  pub three_tenths : N

-- `ROLES`: the capability that the pin must have, and whether a missing one is only a warning.
abbrev pub roles : Dict (Option Text × Bool)
roles =
    (codes "digital_out", (some (codes "digital"), false))
    ∷ (codes "digital_in", (none, false))
    ∷ (codes "pwm", (some (codes "pwm"), false))
    ∷ (codes "analog_in", (some (codes "analog_in"), false))
    ∷ (codes "dac", (some (codes "dac"), false))
    ∷ (codes "interrupt", (some (codes "interrupt"), false))
    ∷ (codes "onewire", (some (codes "digital"), false))
    ∷ (codes "i2c_sda", (some (codes "i2c_sda"), true))
    ∷ (codes "i2c_scl", (some (codes "i2c_scl"), true))
    ∷ (codes "spi_mosi", (some (codes "spi_mosi"), true))
    ∷ (codes "spi_miso", (some (codes "spi_miso"), true))
    ∷ (codes "spi_sck", (some (codes "spi_sck"), true))
    ∷ (codes "spi_cs", (none, false))
    ∷ (codes "uart_tx", (some (codes "uart_tx"), true))
    ∷ (codes "uart_rx", (some (codes "uart_rx"), true))
    ∷ (codes "power", (none, false))
    ∷ (codes "ground", (none, false))
    ∷ []

abbrev pub board_drives : List Text
board_drives =
    codes "digital_out"
    ∷ codes "pwm"
    ∷ codes "dac"
    ∷ codes "spi_mosi"
    ∷ codes "spi_sck"
    ∷ codes "spi_cs"
    ∷ codes "uart_tx"
    ∷ codes "onewire"
    ∷ []

abbrev pub i2c : List Text
i2c = codes "i2c_sda" ∷ codes "i2c_scl" ∷ []

abbrev pub shared : List Text
shared =
    codes "i2c_sda"
    ∷ codes "i2c_scl"
    ∷ codes "spi_mosi"
    ∷ codes "spi_miso"
    ∷ codes "spi_sck"
    ∷ codes "power"
    ∷ codes "ground"
    ∷ codes "onewire"
    ∷ []

abbrev pub inductive : List Text
inductive = codes "relay" ∷ codes "motor" ∷ codes "solenoid" ∷ codes "other_inductive" ∷ []

abbrev pub supplies : List Text
supplies = codes "power" ∷ codes "ground" ∷ []

-- A connection, as `_parse` returns it.
pub record Wire (N : Type 0) : Type 0 where
  pub pin : Text
  pub part : Text
  pub role : Text
  pub part_voltage : Option N
  pub load : Text
  pub current_ma : Option N
  pub i2c_address : Option Text
  pub driver : Option Bool
  pub pull_up : Option Bool

-- A pin of a profile; `physical` is the pin number as text.
pub record Pin : Type 0 where
  pub name : Text
  pub caps : List Text
  pub physical : Option Text
  pub mcu_pin : Option Text
  pub reserved : Bool
  pub caution : Bool

pub record Profile (N : Type 0) : Type 0 where
  pub pins : List Pin
  pub power : List Text
  pub logic_voltage : N
  pub five_volt_tolerant : Text
  pub per_pin_recommended : N
  pub per_pin_absolute_max : N
  pub total_max : Option N

-- `d.setdefault(k, v)`
unfoldable pub set_default {ℓ} : {V : Type ℓ} → Text → V → Dict V → Dict V
set_default k v d = if is_some (lookup k d) then d else d ++ (k, v) ∷ []

unfoldable pub set_if {ℓ} : {V : Type ℓ} → Option Text → V → Dict V → Dict V
unfolding set_default
set_if none v d = d
set_if (some k) v d = set_default k v d

unfoldable pub prefixed : Option Text → Option Text
prefixed none = none
prefixed (some n) = some (codes "PIN" ++ n)

unfoldable pub upper_of : Unicode → Option Text → Option Text
upper_of u none = none
upper_of u (some s) = some (u.upper s)

abbrev pub supply : Text → Text → Pin
supply name cap = record {
  name = name;
  caps = cap ∷ [];
  physical = none;
  mcu_pin = none;
  reserved = false;
  caution = false;
}

unfoldable pub add_pins : Unicode → List Pin → Dict Pin → Dict Pin
unfolding set_if set_default prefixed upper_of
add_pins u [] d = d
add_pins u (p ∷ ps) d = add_pins u ps (
    set_if (upper_of u p.mcu_pin) p
      (set_if (prefixed p.physical) p (set_default (u.upper p.name) p d)))

unfoldable pub add_power : Unicode → List Text → Dict Pin → Dict Pin
unfolding set_default
add_power u [] d = d
add_power u (name ∷ names) d =
    add_power u names (set_default (u.upper name) (supply name (codes "power")) d)

unfoldable pub pin_lookup : {N : Type 0} → Unicode → Profile N → Dict Pin
unfolding set_default add_pins add_power
pin_lookup u profile = set_default (codes "GROUND") (supply (codes "GND") (codes "ground")) (
    set_default (codes "GND") (supply (codes "GND") (codes "ground"))
      (add_power u profile.power (add_pins u profile.pins [])))
