-- ===== src/Settings/Ranges.antt =====
-- The numbers of settings that load: their ranges, the pins, and the Modbus areas.
use omarchy_hardware.Common.{
  ℕ, ◌+◌, ◌≤◌, ◌≡◌, leb, All, ◌&&◌, Option, none, some, [], ◌∷◌, arith, map, if-both, Option-cases,
  inl, inr,
}
use omarchy_hardware.Common.Text.{Text, codes}
use omarchy_hardware.Common.Dict.{lookup}
use omarchy_hardware.Config.{ModbusRange, WeintekModbusTarget}
use omarchy_hardware.Settings.Toml.{
  Value, text, int, negative, bool, other, array, table, no_items, item, items, Table, get,
  or_default,
}
use omarchy_hardware.Settings.Outcome.{
  Ensures, holds, refused, then_ensured, then_any, then_required,
}
use omarchy_hardware.Settings.Fields.{Python, host_of, int_in, bounded_int}
use omarchy_hardware.Settings.Weintek.{
  list_of, modbus_areas, range_within, range_counted, range_count, range_from, some_digits,
  range_text, modbus_range, read_ranges, is_literally_true, modbus_target, modbus_entries,
  pairs_different, parse_weintek_modbus,
}
use omarchy_hardware.Settings.Security.{table_of}
use omarchy_hardware.Settings.Load.{pins_of, default_pins, numbers_different}
use omarchy_hardware.Settings.Sound.{each-All}

-- `low ≤ n ≤ high`
abbrev pub Within : ℕ → ℕ → ℕ → Type 0
Within low high n = (low ≤ n) × (n ≤ high)

pub int_in-Within : (low high : ℕ) (v : Value) → Ensures (Within low high) (int_in low high v)
unfolding int_in
int_in-Within low high (int n) =
    then_required (leb low n && leb n high)
      λ h. let within : Within low high n = (ground (arith, h), ground (arith, h)) in holds within
int_in-Within low high (text s) = refused
int_in-Within low high (negative n) = refused
int_in-Within low high (bool b) = refused
int_in-Within low high (other b) = refused
int_in-Within low high (array vs) = refused
int_in-Within low high (table t) = refused

pub bounded_int-Within :
    (key : Text) (default low high : ℕ) (raw : Table)
    → Ensures (Within low high) (bounded_int key default low high raw)
unfolding bounded_int
bounded_int-Within key default low high raw =
    int_in-Within low high (or_default (int default) (get key raw))

pub pins_of-Within : (v : Option Value) → Ensures (All (Within 2 27)) (pins_of v)
unfolding pins_of
pins_of-Within none = let within : All (Within 2 27) default_pins = omega arith in holds within
pins_of-Within (some (array vs)) =
    then_ensured (each-All (Within 2 27) (int_in 2 27) (items vs) (int_in-Within 2 27))
      λ pins within. then_required (numbers_different pins) λ _. holds within
pins_of-Within (some (text s)) = refused
pins_of-Within (some (int n)) = refused
pins_of-Within (some (negative n)) = refused
pins_of-Within (some (bool b)) = refused
pins_of-Within (some (other b)) = refused
pins_of-Within (some (table t)) = refused

-- A range that is not empty and lies inside its area.
abbrev pub InArea : ModbusRange → Type 0
InArea r =
    (1 ≤ r.count)
    × (size : ℕ) × (lookup r.area modbus_areas ≡ some size)
    × (r.start + r.count ≤ size)

range_within-InArea :
    (area : Text) (start count : ℕ)
    → Ensures InArea (range_within area start count (lookup area modbus_areas))
unfolding range_within
range_within-InArea area start count = elim (Option-cases (lookup area modbus_areas)) [
  | inl e ↦ rw e refused
  | inr (size, e) ↦ rw e (
      then_required (leb 1 count && leb (start + count) size) λ h.
        let inside : InArea (record { area = area; start = start; count = count }) =
          (ground (arith, h), size, e, ground (arith, h)) in
        holds inside)
]

range_counted-InArea :
    (area : Text) (start : ℕ) (count : Option ℕ) → Ensures InArea (range_counted area start count)
unfolding range_counted
range_counted-InArea area start none = refused
range_counted-InArea area start (some count) = range_within-InArea area start count

range_from-InArea :
    (py : Python) (area : Text) (found : Option (ℕ × Text))
    → Ensures InArea (range_from py area found)
unfolding range_from
range_from-InArea py area none = refused
range_from-InArea py area (some (start, rest)) =
    range_counted-InArea area start (range_count py rest)

range_text-InArea : (py : Python) (s : Text) → Ensures InArea (range_text py s)
unfolding range_text
range_text-InArea py [] = refused
range_text-InArea py (a ∷ []) = refused
range_text-InArea py (a ∷ b ∷ []) = refused
range_text-InArea py (a ∷ b ∷ c ∷ s) =
    if-both (Ensures InArea) _ (range_from-InArea py (a ∷ b ∷ []) (some_digits py 5 s)) refused

modbus_range-InArea : (py : Python) (v : Value) → Ensures InArea (modbus_range py v)
unfolding modbus_range
modbus_range-InArea py (text s) = range_text-InArea py s
modbus_range-InArea py (int n) = refused
modbus_range-InArea py (negative n) = refused
modbus_range-InArea py (bool b) = refused
modbus_range-InArea py (other b) = refused
modbus_range-InArea py (array vs) = refused
modbus_range-InArea py (table t) = refused

read_ranges-InArea : (py : Python) (v : Option Value) → Ensures (All InArea) (read_ranges py v)
unfolding read_ranges
read_ranges-InArea py none = refused
read_ranges-InArea py (some (array no_items)) = refused
read_ranges-InArea py (some (array (item v vs))) =
    each-All InArea (modbus_range py) (items (item v vs)) (modbus_range-InArea py)
read_ranges-InArea py (some (text s)) = refused
read_ranges-InArea py (some (int n)) = refused
read_ranges-InArea py (some (negative n)) = refused
read_ranges-InArea py (some (bool b)) = refused
read_ranges-InArea py (some (other b)) = refused
read_ranges-InArea py (some (table t)) = refused

-- Each range that the target lists.
abbrev pub ListsInArea : WeintekModbusTarget → Type 0
ListsInArea t = All InArea t.read

modbus_target-InArea : (py : Python) (v : Value) → Ensures ListsInArea (modbus_target py v)
unfolding modbus_target
modbus_target-InArea py v = then_any (table_of v) λ owner.
    then_any (host_of py (get (codes "host") owner)) λ host.
      then_required (is_literally_true (get (codes "allow_insecure") owner)) λ _.
        then_any (bounded_int (codes "port") 502 1 65535 owner) λ n.
          then_any (bounded_int (codes "unit") 1 0 255 owner) λ unit.
            then_ensured (read_ranges-InArea py (get (codes "read") owner))
              λ ranges inside. holds inside

pub parse_weintek_modbus-InArea :
    (py : Python) (raw : Table) → Ensures (All ListsInArea) (parse_weintek_modbus py raw)
unfolding parse_weintek_modbus
parse_weintek_modbus-InArea py raw =
    then_any (list_of (modbus_entries (get (codes "weintek") raw))) λ entries.
      then_ensured (each-All ListsInArea (modbus_target py) entries (modbus_target-InArea py))
        λ targets inside.
          then_required (pairs_different (map (λ t. (t.host, t.port)) targets)) λ _. holds inside
