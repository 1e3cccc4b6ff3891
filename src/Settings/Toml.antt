-- ===== src/Settings/Toml.antt =====
-- The values that `tomllib` hands to mcp/omarchy_hardware/config.py.
use omarchy_hardware.Common.{
  ℕ, ◌==◌, Bool, true, false, not, Option, none, some, List, [], ◌∷◌, if◌then◌else◌,
}
use omarchy_hardware.Common.Text.{Text, text_eq}

-- `negative n` is `-(n + 1)`; `other` is a float, a date or a time, with its truth.
mutual
  pub data Value : Type 0 where
    text : Text → Value
    int : ℕ → Value
    negative : ℕ → Value
    bool : Bool → Value
    other : Bool → Value
    array : Items → Value
    table : Table → Value

  pub data Items : Type 0 where
    no_items : Items
    item : Value → Items → Items

  pub data Table : Type 0 where
    no_entries : Table
    entry : Text → Value → Table → Table

abbrev pub items : Items → List Value
items no_items = []
items (item v vs) = v ∷ items vs

-- `table.get(key)`
unfoldable pub get : Text → Table → Option Value
get key no_entries = none
get key (entry k v t) = if text_eq k key then some v else get key t

-- `table.get(key, default)`
unfoldable pub or_default : Value → Option Value → Value
or_default d none = d
or_default d (some v) = v

-- The truth of a value.
unfoldable pub is_true : Value → Bool
is_true (text []) = false
is_true (text (c ∷ s)) = true
is_true (int n) = not (n == 0)
is_true (negative n) = true
is_true (bool b) = b
is_true (other b) = b
is_true (array no_items) = false
is_true (array (item v vs)) = true
is_true (table no_entries) = false
is_true (table (entry k v t)) = true
