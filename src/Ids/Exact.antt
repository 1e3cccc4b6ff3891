-- ===== src/Ids/Exact.antt =====
-- What is named exactly: a build target comes only from an exact match.
use omarchy_hardware.Common.{
  ◌≡◌, ◌≢◌, refl, Bool, Bool-cases, true, ◌&&◌, all, is_some, Option, none, some, List, [], ◌∷◌, In,
  inl, inr, arith,
}
use omarchy_hardware.Common.Text.{Text, text_eq, text_eq_iff}
use omarchy_hardware.Common.Dict.{Dict, lookup}
use omarchy_hardware.Common.Unicode.{Unicode, strip}
use omarchy_hardware.Ids.Boards.{boards}
use omarchy_hardware.Ids.Tables.{
  BoardInfo, UsbId, chips, vendors, rp2_app_boards, rp2_app_products, rp2_app_pids,
}
use omarchy_hardware.Ids.{
  lookup_id, generic, vendor_device, chip_or_vendor, board_or_chip, identify, key_error, text_of,
  or_else, board_at, rp2_board, identify_rp2_app,
}

lookup_id-In :
    {A : Type 0} (vid pid : Text) (table : List (UsbId × A)) (a : A)
    → lookup_id vid pid table ≡ some a
    → In ((vid, pid), a) table
unfolding lookup_id
lookup_id-In vid pid [] a h = cc
lookup_id-In vid pid (((v, p), b) ∷ rest) a h = elim (Bool-cases (text_eq v vid && text_eq p pid)) [
  | inl e ↦
      let same_v : v ≡ vid = (text_eq_iff v vid).0 (ground (arith, e)) in
      let same_p : p ≡ pid = (text_eq_iff p pid).0 (ground (arith, e)) in
      let same_a : b ≡ a = ground (arith, e) in inl (rw (same_v, same_p, same_a) refl)
  | inr e ↦ inr (lookup_id-In vid pid rest a (ground (arith, e)))
]

vendor_device-unbuildable :
    (vendor : Option Text) (vid pid : Text) → (vendor_device vendor vid pid).fqbn ≡ none
unfolding vendor_device generic
vendor_device-unbuildable none vid pid = refl
vendor_device-unbuildable (some vendor) vid pid = refl

chip_or_vendor-unbuildable :
    (chip : Option Text) (vid pid : Text) → (chip_or_vendor chip vid pid).fqbn ≡ none
unfolding chip_or_vendor generic
chip_or_vendor-unbuildable none vid pid = vendor_device-unbuildable (lookup vid vendors) vid pid
chip_or_vendor-unbuildable (some chip) vid pid = refl

board_or_chip-exact :
    (found : Option BoardInfo) (vid pid fqbn : Text)
    → (board_or_chip found vid pid).fqbn ≡ some fqbn
    → found ≡ some (board_or_chip found vid pid)
unfolding board_or_chip
board_or_chip-exact none vid pid fqbn h =
    absurd (cc (h, chip_or_vendor-unbuildable (lookup_id vid pid chips) vid pid))
board_or_chip-exact (some info) vid pid fqbn h = refl

-- A device that identify gives a build target to is in the table of boards under its exact
-- vendor and product ids in lower case, with what identify returns.
pub identify-exact :
    (u : Unicode) (vid pid fqbn : Text)
    → (identify u vid pid).fqbn ≡ some fqbn
    → In ((u.lower vid, u.lower pid), identify u vid pid) boards
unfolding identify
identify-exact u vid pid fqbn h = lookup_id-In (u.lower vid) (u.lower pid) boards _ (
    board_or_chip-exact (lookup_id (u.lower vid) (u.lower pid) boards) (u.lower vid) (u.lower pid)
      fqbn h)

-- A test that every value of a dictionary passes, a value that is found passes.
lookup-all :
    {V : Type 0} (test : V → Bool) (d : Dict V) (k : Text) (v : V)
    → all (λ e. test e.1) d ≡ true
    → lookup k d ≡ some v
    → test v ≡ true
unfolding lookup
lookup-all test [] k v h found = cc
lookup-all test ((j, w) ∷ d) k v h found = elim (Bool-cases (text_eq j k)) [
  | inl e ↦ ground (arith, e)
  | inr e ↦ lookup-all test d k v (ground arith) (ground (arith, e))
]

abbrev is_board : Text → Bool
is_board key = is_some (lookup key rp2_app_boards)

products_listed : all (λ e. is_board e.1) rp2_app_products ≡ true
unfolding lookup text_eq
products_listed = refl

pids_listed : all (λ e. is_board e.1) rp2_app_pids ≡ true
unfolding lookup text_eq
pids_listed = refl

board_at-found : (found : Option BoardInfo) → is_some found ≡ true → board_at found ≢ key_error
unfolding board_at
board_at-found none h = cc
board_at-found (some info) h = λ q. cc

or_else-all :
    (test : Text → Bool) (a b : Option Text) (key : Text)
    → ((k : Text) → a ≡ some k → test k ≡ true)
    → ((k : Text) → b ≡ some k → test k ≡ true)
    → or_else a b ≡ some key
    → test key ≡ true
unfolding or_else
or_else-all test none b key p q h = q key h
or_else-all test (some k) b key p q h = p key h

rp2_board-found :
    (key : Option Text)
    → ((k : Text) → key ≡ some k → is_board k ≡ true)
    → rp2_board key ≢ key_error
unfolding rp2_board
rp2_board-found none h = λ q. cc
rp2_board-found (some k) h = board_at-found (lookup k rp2_app_boards) (h k refl)

-- Identify_rp2_app never looks up a key that its table of boards does not have.
pub identify_rp2_app-ne-key_error :
    (u : Unicode) (pid : Text) (product : Option Text) → identify_rp2_app u pid product ≢ key_error
unfolding identify_rp2_app
identify_rp2_app-ne-key_error u pid product =
    let name = u.lower (strip u (text_of product)) in
    rp2_board-found _ λ k h.
      or_else-all is_board (lookup name rp2_app_products) (lookup (u.lower pid) rp2_app_pids) k
        (λ j found. lookup-all is_board rp2_app_products name j products_listed found)
        (λ j found. lookup-all is_board rp2_app_pids (u.lower pid) j pids_listed found) h
