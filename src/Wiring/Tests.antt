-- ===== src/Wiring/Tests.antt =====
-- The wiring theorem on a plan of one LED, with numbers in tenths.
use omarchy_hardware.Common.{
  ℕ, ◌+◌, ◌-◌, ◌≡◌, ◌≢◌, refl, sym, ◌∙◌, ltb, ◌==◌, inl, true, false, some, none, [], ◌∷◌,
}
use omarchy_hardware.Common.Text.{codes, text_eq, text_eq_iff, contains}
use omarchy_hardware.Common.Dict.{lookup, insert}
use omarchy_hardware.Common.Unicode.{Unicode}
use omarchy_hardware.Wiring.{
  Floats, Wire, Pin, Profile, set_default, set_if, prefixed, upper_of, add_pins, add_power,
  pin_lookup,
}
use omarchy_hardware.Wiring.Check.{
  check, all_findings, report, verdict_of, plan_findings, wire_findings, total_current,
  wire_current, add_current, total_findings, group_pins, group_wire, append_at, group_findings,
  several, bus_findings,
}
use omarchy_hardware.Wiring.Rules.{
  pin_findings, reserved_findings, is_supply, signal_findings, capability_findings, needed_findings,
  voltage_findings, load_findings, sourced, current_findings, truthy,
}
use omarchy_hardware.Wiring.Safe.{IsSafe, check-IsSafe}

abbrev tenths : Floats ℕ
tenths = record {
  gt = λ a b. ltb b a;
  add = λ a b. a + b;
  sub = λ a b. a - b;
  zero_float = 0;
  three_tenths = 3;
}

abbrev plain : Unicode
plain = record {
  is_digit = λ c. c == b'0';
  is_space = λ c. c == 32;
  lower = λ s. s;
  upper = λ s. s;
}

abbrev d3 : Pin
d3 = record {
  name = codes "D3";
  caps = codes "digital" ∷ codes "pwm" ∷ [];
  physical = none;
  mcu_pin = none;
  reserved = false;
  caution = false;
}

abbrev uno : Profile ℕ
uno = record {
  pins = d3 ∷ [];
  power = codes "5V" ∷ [];
  logic_voltage = 50;
  five_volt_tolerant = codes "all";
  per_pin_recommended = 200;
  per_pin_absolute_max = 400;
  total_max = some 2000;
}

abbrev led : Wire ℕ
led = record {
  pin = codes "D3";
  part = codes "LED";
  role = codes "digital_out";
  part_voltage = none;
  load = codes "led";
  current_ma = some 100;
  i2c_address = none;
  driver = none;
  pull_up = none;
}

verdict_example : (check tenths plain uno (led ∷ [])).verdict ≡ codes "pass"
unfolding check all_findings report verdict_of plan_findings wire_findings total_current
    wire_current add_current total_findings group_pins group_wire append_at group_findings several
    bus_findings pin_findings reserved_findings is_supply signal_findings capability_findings
    needed_findings voltage_findings load_findings sourced current_findings truthy pin_lookup
    add_pins add_power set_default set_if prefixed upper_of lookup insert text_eq contains
verdict_example = refl

pass-ne-fail : codes "pass" ≢ codes "fail"
unfolding text_eq
pass-ne-fail q =
    let same : text_eq (codes "pass") (codes "fail") ≡ true =
      (text_eq_iff (codes "pass") (codes "fail")).1 q in
    cc

check-IsSafe_example :
    (pin : Pin) × (lookup (codes "D3") (pin_lookup plain uno) ≡ some pin)
    × IsSafe tenths uno pin led
check-IsSafe_example =
    check-IsSafe tenths plain uno (led ∷ []) led (λ q. pass-ne-fail (sym verdict_example ∙ q))
      (inl refl)
