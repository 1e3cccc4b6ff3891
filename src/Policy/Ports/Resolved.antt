-- ===== src/Policy/Ports/Resolved.antt =====
-- What a port that was let pass is.
use omarchy_hardware.Common.{
  ◌≡◌, ◌⊎◌, inl, inr, refl, any, any→In, true, ◌||◌, Option, Option-cases, none, some, In, arith,
  Bool-cases,
}
use omarchy_hardware.Common.Text.{Text, starts_with, contains, contains→In}
use omarchy_hardware.Common.Unicode.{Unicode}
use omarchy_hardware.Errors.{ok}
use omarchy_hardware.Policy.Ports.{
  Files, device_pattern, by_id_prefix, resolve_port, info_uf2_board_id, uf2_mount_prefixes,
  uf2_board_ids, known_board, check_info, info_path, resolve_uf2_volume, resolve_flash_target,
}

-- A USB serial device that is there.
abbrev pub IsSerialDevice : Unicode → Files → Text → Type 0
IsSerialDevice u files path = (device_pattern u path ≡ true) × (files.exists path ≡ true)

-- A mounted RP2 boot loader volume, by its information file.
abbrev pub IsBootVolume : Unicode → Files → Text → Type 0
IsBootVolume u files path =
    ((prefix : Text) × In prefix uf2_mount_prefixes × (starts_with path prefix ≡ true))
    × ((text : Text) × (files.read_text (info_path path) ≡ some text)
        × ((id : Text) × (info_uf2_board_id u text ≡ some id) × In id uf2_board_ids))

resolve_port-ok :
    (u : Unicode) (files : Files) (port resolved : Text)
    → resolve_port u files port ≡ ok resolved
    → (resolved ≡ files.realpath port) × IsSerialDevice u files resolved
unfolding resolve_port
resolve_port-ok u files port resolved h = (ground arith, (ground arith, ground arith))

check_info-ok :
    (u : Unicode) (path resolved : Text) (info : Option Text)
    → check_info u path info ≡ ok resolved
    → (resolved ≡ path)
      × ((text : Text) × (info ≡ some text)
          × ((id : Text) × (info_uf2_board_id u text ≡ some id) × In id uf2_board_ids))
check_info-ok u path resolved none h = unfold check_info in cc
check_info-ok u path resolved (some text) h = elim (Option-cases (info_uf2_board_id u text)) [
  | inl e ↦ absurd (unfold check_info known_board in ground (arith, e))
  | inr (id, e) ↦
      let listed : contains uf2_board_ids id ≡ true =
        unfold check_info known_board in ground (arith, e) in
      (
        unfold check_info known_board in ground (arith, e),
        (text, refl, (id, e, contains→In uf2_board_ids id listed)),
      )
]

resolve_uf2_volume-ok :
    (u : Unicode) (files : Files) (path resolved : Text)
    → resolve_uf2_volume u files path ≡ ok resolved
    → (resolved ≡ files.realpath path) × IsBootVolume u files resolved
resolve_uf2_volume-ok u files path resolved h =
    let mounted : any (λ prefix. starts_with (files.realpath path) prefix) uf2_mount_prefixes
        ≡ true =
      unfold resolve_uf2_volume in ground arith in
    let checked : check_info u (files.realpath path)
          (files.read_text (info_path (files.realpath path)))
        ≡ ok resolved =
      unfold resolve_uf2_volume in ground arith in
    let (same, info) = check_info-ok u (files.realpath path) resolved _ checked in
    let (prefix, listed, starts) =
      any→In (λ prefix. starts_with (files.realpath path) prefix) uf2_mount_prefixes mounted in
    let (text, found, id) = info in (same, ((prefix, listed, (cc)), (text, (cc), id)))

-- A flash target that is let pass is the canonical path of what was asked for, and is either a
-- USB serial device that is there or a mounted boot loader volume with a known board.
pub resolve_flash_target-ok :
    (u : Unicode) (files : Files) (port resolved : Text)
    → resolve_flash_target u files port ≡ ok resolved
    → (resolved ≡ files.realpath port)
      × (IsSerialDevice u files resolved ⊎ IsBootVolume u files resolved)
resolve_flash_target-ok u files port resolved h =
    elim (Bool-cases (device_pattern u port || starts_with port by_id_prefix)) [
      | inl e ↦
          let (same, device) =
            resolve_port-ok u files port resolved
              (unfold resolve_flash_target in ground (arith, e)) in
          (same, inl device)
      | inr e ↦
          let (same, volume) =
            resolve_uf2_volume-ok u files port resolved
              (unfold resolve_flash_target in ground (arith, e)) in
          (same, inr volume)
    ]
