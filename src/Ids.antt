-- ===== src/Ids.antt =====
-- mcp/omarchy_hardware/ids.py: what a USB device is called, and which board a build is for.
pub mod Tables
mod Tests
pub mod Boards
pub mod Exact
use omarchy_hardware.Common.{
  ℕ, ◌==◌, Bool, true, false, not, ◌&&◌, all, Option, none, some, List, [], ◌∷◌, ◌++◌, take, drop,
  map, if◌then◌else◌,
}
use omarchy_hardware.Common.Text.{Text, codes, text_eq, starts_with, split}
use omarchy_hardware.Common.Dict.{Dict, lookup, insert}
use omarchy_hardware.Common.Unicode.{Unicode, strip}
use omarchy_hardware.Ids.Boards.{boards}
use omarchy_hardware.Ids.Tables.{
  BoardInfo, board, UsbId, chips, rp2_app_boards, rp2_app_products, rp2_app_pids, vendors,
  nucleo_parts,
}

-- `TABLE.get((vid, pid))`
unfoldable pub lookup_id {ℓ} : {A : Type ℓ} → Text → Text → List (UsbId × A) → Option A
lookup_id vid pid [] = none
lookup_id vid pid (((v, p), a) ∷ rest) =
    if text_eq v vid && text_eq p pid then some a else lookup_id vid pid rest

unfoldable pub generic : Text → BoardInfo
generic name = board (codes "unknown") name none 115200

-- ` {vid}:{pid}` after a name.
abbrev pub with_id : Text → Text → Text → Text
with_id name vid pid = name ++ (codes " " ++ (vid ++ (codes ":" ++ pid)))

unfoldable pub vendor_device : Option Text → Text → Text → BoardInfo
unfolding generic
vendor_device (some vendor) vid pid = generic (with_id (vendor ++ codes " device") vid pid)
vendor_device none vid pid = generic (with_id (codes "Serial device") vid pid)

unfoldable pub chip_or_vendor : Option Text → Text → Text → BoardInfo
unfolding generic vendor_device
chip_or_vendor (some chip) vid pid = generic chip
chip_or_vendor none vid pid = vendor_device (lookup vid vendors) vid pid

unfoldable pub board_or_chip : Option BoardInfo → Text → Text → BoardInfo
unfolding chip_or_vendor
board_or_chip (some info) vid pid = info
board_or_chip none vid pid = chip_or_vendor (lookup_id vid pid chips) vid pid

unfoldable pub identify : Unicode → Text → Text → BoardInfo
unfolding board_or_chip
identify u vid pid =
    board_or_chip (lookup_id (u.lower vid) (u.lower pid) boards) (u.lower vid) (u.lower pid)

-- `identify_rp2_app`: a board, `None`, or Python's `KeyError`.
pub data Named : Type 0 where
  named : BoardInfo → Named
  unnamed : Named
  key_error : Named

unfoldable pub text_of : Option Text → Text
text_of none = []
text_of (some s) = s

-- `a or b`, of texts that are not empty.
unfoldable pub or_else : Option Text → Option Text → Option Text
or_else (some key) other = some key
or_else none other = other

unfoldable pub board_at : Option BoardInfo → Named
board_at none = key_error
board_at (some info) = named info

unfoldable pub rp2_board : Option Text → Named
unfolding board_at
rp2_board none = unnamed
rp2_board (some key) = board_at (lookup key rp2_app_boards)

unfoldable pub identify_rp2_app : Unicode → Text → Option Text → Named
unfolding text_of or_else
identify_rp2_app u pid product = rp2_board (
    or_else (lookup (u.lower (strip u (text_of product))) rp2_app_products)
      (lookup (u.lower pid) rp2_app_pids))

unfoldable pub nucleo_of : Text → Option (Text × Text) → BoardInfo
nucleo_of part none = board (codes "unknown") (codes "STM32 Nucleo-" ++ part) none 115200
nucleo_of part (some (id, pnum)) =
    board (codes "stm32_nucleo") (codes "STM32 Nucleo-" ++ part)
      (some (codes "STMicroelectronics:stm32:" ++ (id ++ (codes ":pnum=" ++ pnum)))) 115200

unfoldable pub nucleo_info : Text → BoardInfo
unfolding nucleo_of
nucleo_info part = nucleo_of part (lookup part nucleo_parts)

unfoldable pub nucleo_named : Text → Option BoardInfo
nucleo_named [] = none
nucleo_named (c ∷ part) = some (nucleo_info (c ∷ part))

unfoldable pub identify_nucleo : Unicode → Option Text → Option BoardInfo
unfolding nucleo_named
identify_nucleo u none = none
identify_nucleo u (some []) = none
identify_nucleo u (some (c ∷ label)) =
    if starts_with (u.upper (c ∷ label)) (codes "NOD_")
    then nucleo_named (u.upper (strip u (drop 4 (c ∷ label))))
    else none

unfoldable pub nucleo_boards : List BoardInfo
nucleo_boards = map (λ entry. nucleo_info entry.0) nucleo_parts

-- `item.partition("=")`, without the separator.
unfoldable pub partition : Text → Text × Text
partition [] = ([], [])
partition (c ∷ s) =
    let (name, value) = partition s in if c == b'=' then ([], s) else (c ∷ name, value)

-- `":".join(items)`
unfoldable pub join_colon : List Text → Text
join_colon [] = []
join_colon (item ∷ []) = item
join_colon (item ∷ next ∷ items) = item ++ (b':' ∷ join_colon (next ∷ items))

-- The dictionary of the options, from the items in order; an empty item is passed over.
unfoldable pub collect_options : List Text → Dict Text → Dict Text
collect_options [] given = given
collect_options ([] ∷ items) given = collect_options items given
collect_options ((c ∷ item) ∷ items) given =
    let (name, value) = partition (c ∷ item) in collect_options items (insert name value given)

unfoldable pub options : List Text → Dict Text
options items = collect_options (split b',' (join_colon (drop 3 items))) []

unfoldable pub texts_eq : List Text → List Text → Bool
texts_eq [] [] = true
texts_eq (s ∷ ss) (t ∷ ts) = text_eq s t && texts_eq ss ts
texts_eq _ _ = false

unfoldable pub is_given : Option Text → Text → Bool
is_given none value = false
is_given (some v) value = text_eq v value

unfoldable pub fqbn_satisfies : Text → Option Text → Bool
unfolding is_given texts_eq
fqbn_satisfies fqbn none = false
fqbn_satisfies fqbn (some []) = false
fqbn_satisfies fqbn (some (c ∷ required)) =
    let parts = split b':' fqbn in
    let wanted = split b':' (c ∷ required) in
    if not (texts_eq (take 3 parts) (take 3 wanted))
    then false
    else all (λ o. is_given (lookup o.0 (options parts)) o.1) (options wanted)
