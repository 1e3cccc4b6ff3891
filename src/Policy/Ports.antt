-- ===== src/Policy/Ports.antt =====
-- The ports of mcp/omarchy_hardware/policy.py: serial devices and UF2 volumes.
pub mod Resolved
use omarchy_hardware.Common.{
  ℕ, ◌==◌, any, Bool, true, false, not, ◌&&◌, ◌||◌, Option, none, some, List, [], ◌∷◌, ◌++◌, drop,
  if◌then◌else◌,
}
use omarchy_hardware.Common.Text.{Text, codes, text_eq, starts_with, contains, split, cons_head}
use omarchy_hardware.Common.Unicode.{Unicode, strip}
use omarchy_hardware.Errors.{
  Result, ok, err, port_not_allowed, port_not_found, permission_denied_uucp,
}

-- The file system: `os.path.realpath`, `Path.exists`, the text of a file if it can be read, and
-- `os.access` for reading and writing.
pub record Files : Type 0 where
  pub realpath : Text → Text
  pub exists : Text → Bool
  pub read_text : Text → Option Text
  pub accessible : Text → Bool

-- `\d+$` at the rest of a text: `$` also holds before a line feed at the end.
unfoldable pub digits_to_end : Unicode → Bool → Text → Bool
digits_to_end u seen [] = seen
digits_to_end u seen (c ∷ s) =
    if u.is_digit c then digits_to_end u true s else seen && (text_eq (c ∷ s) (10 ∷ []))

-- `re.compile(r"^/dev/tty(ACM|USB)\d+$").match`
unfoldable pub device_pattern : Unicode → Text → Bool
device_pattern u port =
    (starts_with port (codes "/dev/ttyACM") || starts_with port (codes "/dev/ttyUSB"))
    && digits_to_end u false (drop 11 port)

abbrev pub by_id_prefix : Text
by_id_prefix = codes "/dev/serial/by-id/"

-- `needle in s`
unfoldable pub has_substring : Text → Text → Bool
has_substring needle [] = text_eq needle []
has_substring needle (c ∷ s) = starts_with (c ∷ s) needle || has_substring needle s

-- `c in s`
unfoldable pub has_char : ℕ → Text → Bool
has_char c s = any (λ d. d == c) s

unfoldable pub resolve_port : Unicode → Files → Text → Result Text
resolve_port u files port =
    let resolved = files.realpath port in
    if has_char 0 port
    then err port_not_allowed
    else if not (device_pattern u port || starts_with port by_id_prefix)
    then err port_not_allowed
    else if starts_with port by_id_prefix
        && (has_substring (codes "..") port || has_char b'/' (drop 18 port))
    then err port_not_allowed
    else if not (device_pattern u resolved)
    then err port_not_allowed
    else if not (files.exists resolved)
    then err port_not_found
    else ok resolved

-- The line boundaries of `str.splitlines`, but for the two-character one.
unfoldable pub is_line_break : ℕ → Bool
is_line_break c = any (λ b. b == c) (10 ∷ 11 ∷ 12 ∷ 13 ∷ 28 ∷ 29 ∷ 30 ∷ 133 ∷ 8232 ∷ 8233 ∷ [])

-- `text.splitlines()`, with an empty line more between the two characters of a CR LF and at the end,
-- which no caller tells from their absence.
unfoldable pub split_lines : Text → List Text
split_lines [] = [] ∷ []
split_lines (c ∷ s) =
    let rest = split_lines s in if is_line_break c then [] ∷ rest else cons_head c rest

abbrev pub board_id_key : Text
board_id_key = codes "Board-ID:"

board_id_of : Unicode → List Text → Option Text
board_id_of u [] = none
board_id_of u (line ∷ lines) =
    if starts_with line board_id_key then some (strip u (drop 9 line)) else board_id_of u lines

-- `_info_uf2_board_id`
unfoldable pub info_uf2_board_id : Unicode → Text → Option Text
unfolding board_id_of
info_uf2_board_id u text = board_id_of u (split_lines text)

abbrev pub uf2_mount_prefixes : List Text
uf2_mount_prefixes = codes "/run/media/" ∷ codes "/media/" ∷ codes "/mnt/" ∷ []

abbrev pub uf2_board_ids : List Text
uf2_board_ids = codes "RPI-RP2" ∷ codes "RPI-RP2350" ∷ codes "RP2350" ∷ []

known_board : Option Text → Bool
known_board none = false
known_board (some id) = contains uf2_board_ids id

check_info : Unicode → Text → Option Text → Result Text
check_info u resolved none = err port_not_found
check_info u resolved (some text) =
    if not (known_board (info_uf2_board_id u text)) then err port_not_allowed else ok resolved

-- `Path(resolved) / UF2_INFO`: the path of the file in the resolved directory.
unfoldable pub info_path : Text → Text
info_path resolved = resolved ++ codes "/INFO_UF2.TXT"

unfoldable pub resolve_uf2_volume : Unicode → Files → Text → Result Text
unfolding check_info known_board
resolve_uf2_volume u files path =
    let resolved = files.realpath path in
    if has_char 0 path
    then err port_not_allowed
    else if contains (split b'/' path) (codes "..")
    then err port_not_allowed
    else if not (any (λ prefix. starts_with resolved prefix) uf2_mount_prefixes)
    then err port_not_allowed
    else check_info u resolved (files.read_text (info_path resolved))

unfoldable pub resolve_flash_target : Unicode → Files → Text → Result Text
resolve_flash_target u files port =
    if device_pattern u port || starts_with port by_id_prefix
    then resolve_port u files port
    else resolve_uf2_volume u files port

unfoldable pub check_readable : Files → Text → Result (Unit {0})
check_readable files port = if files.accessible port then ok tt else err permission_denied_uucp
