-- ===== src/Wiring/Safe.antt =====
-- What a plan that does not fail keeps to.
use omarchy_hardware.Common.{not, ◌&&◌}
use omarchy_hardware.Common.{
  ℕ, zero, suc, ◌≡◌, ◌≢◌, ◌⊎◌, inl, inr, refl, Bool, Bool-cases, true, false, any, keep, length,
  Option, none, some, List, [], ◌∷◌, ◌++◌, In, arith,
}
use omarchy_hardware.Common.Text.{Text, codes, contains}
use omarchy_hardware.Common.Dict.{Dict, lookup}
use omarchy_hardware.Common.Unicode.{Unicode}
use omarchy_hardware.Wiring.{
  Floats, board_drives, inductive, supplies, Wire, Pin, Profile, pin_lookup,
}
use omarchy_hardware.Wiring.Rules.{
  Finding, truthy, is_supply, reserved_findings, capability_findings, voltage_findings,
  load_findings, sourced, current_findings, signal_findings, pin_findings,
}
use omarchy_hardware.Wiring.Check.{
  is_error, wire_findings, plan_findings, verdict_of, report, all_findings, check,
}

abbrev pub has_error : List Finding → Bool
has_error findings = any is_error findings

has_error-append :
    (xs ys : List Finding)
    → has_error (xs ++ ys) ≡ false
    → (has_error xs ≡ false) × (has_error ys ≡ false)
has_error-append [] ys h = (refl, h)
has_error-append (x ∷ xs) ys h =
    let (p, q) = has_error-append xs ys (ground arith) in (ground arith, q)

-- The current that a connection asks for is over the limit.
abbrev pub exceeds : {N : Type 0} → Floats N → N → Option N → Bool
exceeds f limit none = false
exceeds f limit (some current) = f.gt current limit

-- A connection that keeps to the rules that are errors.
abbrev pub IsSafe : {N : Type 0} → Floats N → Profile N → Pin → Wire N → Type 0
IsSafe f profile pin wire =
    (pin.reserved ≡ false)
    × (((contains supplies wire.role ≡ true) × (is_supply pin ≡ true))
        ⊎ ((contains supplies wire.role ≡ false)
            × (is_supply pin ≡ false)
            × ((contains board_drives wire.role && contains pin.caps (codes "input_only")) ≡ false)
            × ((contains inductive wire.load && not (truthy wire.driver)) ≡ false)
            × ((sourced f profile wire && exceeds f profile.per_pin_absolute_max wire.current_ma)
                ≡ false)))

module _ {N : Type 0} (f : Floats N) (profile : Profile N) where
  plan_clean :
      (u : Unicode) (table : Dict Pin) (plan : List (Wire N)) (wire : Wire N)
      → In wire plan
      → has_error (plan_findings f profile u table plan) ≡ false
      → has_error (wire_findings f profile (lookup (u.upper wire.pin) table) wire) ≡ false
  unfolding plan_findings
  plan_clean u table [] wire listed h = absurd listed
  plan_clean u table (w ∷ ws) wire (inl e) h =
      rw e ((has_error-append (wire_findings f profile (lookup (u.upper w.pin) table) w) _ h).0)
  plan_clean u table (w ∷ ws) wire (inr m) h =
      plan_clean u table ws wire m
        ((has_error-append (wire_findings f profile (lookup (u.upper w.pin) table) w) _ h).1)

  reserved_safe : (pin : Pin) → has_error (reserved_findings pin) ≡ false → pin.reserved ≡ false
  unfolding reserved_findings
  reserved_safe pin h = ground arith

  capability_safe :
      (pin : Pin) (role : Text)
      → has_error (capability_findings pin role) ≡ false
      → (contains board_drives role && contains pin.caps (codes "input_only")) ≡ false
  unfolding capability_findings
  capability_safe pin role h = ground arith

  load_safe :
      (pin : Pin) (wire : Wire N)
      → has_error (load_findings f profile pin wire) ≡ false
      → (contains inductive wire.load && not (truthy wire.driver)) ≡ false
  unfolding load_findings
  load_safe pin wire h = ground arith

  current_safe :
      (pin : Pin) (counted : Bool) (found : Option N)
      → has_error (current_findings f profile pin counted found) ≡ false
      → (counted && exceeds f profile.per_pin_absolute_max found) ≡ false
  unfolding current_findings
  current_safe pin counted none h = ground arith
  current_safe pin counted (some current) h = ground arith

  signal_safe :
      (pin : Pin) (wire : Wire N)
      → has_error (signal_findings f profile pin wire) ≡ false
      → ((contains board_drives wire.role && contains pin.caps (codes "input_only")) ≡ false)
        × ((contains inductive wire.load && not (truthy wire.driver)) ≡ false)
        × ((sourced f profile wire && exceeds f profile.per_pin_absolute_max wire.current_ma)
            ≡ false)
  unfolding signal_findings
  signal_safe pin wire h =
      let (cap, rest) = has_error-append (capability_findings pin wire.role) _ h in
      let (volts, rest) =
        has_error-append (voltage_findings f profile pin wire.role wire.part_voltage) _ rest in
      let (load, current) = has_error-append (load_findings f profile pin wire) _ rest in
      (
        capability_safe pin wire.role cap,
        load_safe pin wire load,
        current_safe pin (sourced f profile wire) wire.current_ma current,
      )

  pin-IsSafe :
      (pin : Pin) (wire : Wire N)
      → has_error (pin_findings f profile pin wire) ≡ false
      → IsSafe f profile pin wire
  unfolding pin_findings
  pin-IsSafe pin wire h =
      let (reserved, rest) = has_error-append (reserved_findings pin) _ h in
      (
        reserved_safe pin reserved,
        elim (Bool-cases (contains supplies wire.role)) [
          | inl e ↦ inl (e, ground (arith, e))
          | inr e ↦
              let signal : is_supply pin ≡ false = ground (arith, e) in
              let (drives, load, current) = signal_safe pin wire (simp (e, signal) at rest) in
              inr (e, signal, drives, load, current)
        ],
      )

  wire-IsSafe :
      (found : Option Pin) (wire : Wire N)
      → has_error (wire_findings f profile found wire) ≡ false
      → (pin : Pin) × (found ≡ some pin) × IsSafe f profile pin wire
  unfolding wire_findings
  wire-IsSafe none wire h = cc
  wire-IsSafe (some pin) wire h = (pin, refl, pin-IsSafe pin wire h)

keep-none :
    (findings : List Finding) → length (keep is_error findings) ≡ 0 → has_error findings ≡ false
keep-none [] h = refl
keep-none (x ∷ xs) h = ground (arith, keep-none xs)

verdict_of-fail : (errors warnings : ℕ) → verdict_of errors warnings ≢ codes "fail" → errors ≡ 0
unfolding verdict_of
verdict_of-fail zero warnings h = refl
verdict_of-fail (suc errors) warnings h = absurd (h refl)

report-fail :
    (findings : List Finding)
    → (report findings).verdict ≢ codes "fail"
    → has_error findings ≡ false
unfolding report
report-fail findings h = keep-none findings (verdict_of-fail _ _ h)

all_clean :
    {N : Type 0} (f : Floats N) (u : Unicode) (profile : Profile N) (plan : List (Wire N))
    → has_error (all_findings f u profile plan) ≡ false
    → has_error (plan_findings f profile u (pin_lookup u profile) plan) ≡ false
unfolding all_findings
all_clean f u profile plan h =
    (has_error-append (plan_findings f profile u (pin_lookup u profile) plan) _ h).0

-- When the verdict of a plan is not fail, every connection of the plan is on a pin that the
-- board has and that is not reserved; a supply connection is on a supply pin; and a signal
-- connection is not on one, drives no input-only pin, has a driver for an inductive load, and
-- does not draw more than the absolute maximum from the pin, unless a driver takes the
-- current.
pub check-IsSafe :
    {N : Type 0} (f : Floats N) (u : Unicode) (profile : Profile N) (plan : List (Wire N))
    (wire : Wire N)
    → (check f u profile plan).verdict ≢ codes "fail"
    → In wire plan
    → (pin : Pin) × (lookup (u.upper wire.pin) (pin_lookup u profile) ≡ some pin)
      × IsSafe f profile pin wire
unfolding check
check-IsSafe f u profile plan wire h listed =
    let table = pin_lookup u profile in
    let clean = all_clean f u profile plan (report-fail (all_findings f u profile plan) h) in
    wire-IsSafe f profile (lookup (u.upper wire.pin) table) wire
      (plan_clean f profile u table plan wire listed clean)
