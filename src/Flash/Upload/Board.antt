-- ===== src/Flash/Upload/Board.antt =====
-- Writing to the board: `_copy_uf2`, `_arduino_cli`, `_uf2_from_snapshot`, `_flashed_elf` and
-- `_keep_flashed_elf` of mcp/omarchy_hardware/flash.py.
use omarchy_hardware.Common.{
  ℕ, zero, ◌==◌, ltb, any, Bool, true, false, not, ◌&&◌, ◌||◌, Option, none, some, List, [], ◌∷◌,
  if◌then◌else◌,
}
use omarchy_hardware.Common.Text.{Text}
use omarchy_hardware.Errors.{artifact_invalid, tool_missing, serial_error}
use omarchy_hardware.Flash.Artifact.{Tree}
use omarchy_hardware.Flash.Steps.{
  tool, os_error, other, Except, ok, raised, Returncode, exit, offered, M, ◌>>◌, lift, pure, emit,
}

-- The private copy of a build: where it is, what is in it, and the usable files that `glob` and
-- `rglob` find for the two kinds of image, in the order of paths.
pub record Snapshot : Type 0 where
  pub path : Text
  pub tree : Tree
  pub sketch_uf2 : List Text
  pub every_uf2 : List Text
  pub sketch_elf : List Text
  pub every_elf : List Text

-- The one image of the sketch, or the only one there is.
unfoldable pub single_image : List Text → List Text → Option Text
single_image (image ∷ []) every = some image
single_image sketch (image ∷ []) = some image
single_image sketch every = none

unfoldable pub flashed_elf : Snapshot → Option Text
unfolding single_image
flashed_elf snapshot = single_image snapshot.sketch_elf snapshot.every_elf

unfoldable pub uf2_from_snapshot : Snapshot → Except Text
unfolding single_image
uf2_from_snapshot snapshot = elim (single_image snapshot.sketch_uf2 snapshot.every_uf2) [
  | none ↦ raised (tool artifact_invalid)
  | some image ↦ ok image
]

-- A look at the volume: the clock, and whether its INFO_UF2.TXT is there.
pub record Look : Type 0 where
  pub at : ℕ
  pub present : Bool

-- `_volume_gone`: the looks while the deadline has not come, and the last one.
unfoldable pub volume_gone : (deadline : ℕ) → List Look → (last : Bool) → Bool
volume_gone deadline [] last = not last
volume_gone deadline (look ∷ looks) last =
    let later = volume_gone deadline looks last in
    if ltb look.at deadline then (if look.present then later else true) else not last

-- What becomes of the copy: the size of the image, if it can be told, and the error number that the
-- copy fails with, with whether it had come as far as the flush; then the looks at the volume.
pub record Copy : Type 0 where
  pub size : Option ℕ
  pub error : Option (ℕ × Bool)
  pub deadline : ℕ
  pub looks : List Look
  pub last : Bool

-- `_UF2_GONE_ERRNOS`: EIO, ENODEV, ENOENT, ENXIO and ESHUTDOWN on Linux.
abbrev pub gone_errnos : List ℕ
gone_errnos = 5 ∷ 19 ∷ 2 ∷ 6 ∷ 108 ∷ []

-- `written == size`
abbrev pub all_written : ℕ → Bool → Bool
all_written size flushed = flushed || size == 0

-- After the `try`: whether the board was gone before the copy was acknowledged.
unfoldable pub copy_end : Copy → ℕ → Option (ℕ × Bool) → Except Bool
unfolding volume_gone
copy_end copy size none = ok false
copy_end copy size (some (errno, flushed)) =
    if all_written size flushed
      && any (λ e. e == errno) gone_errnos
      && volume_gone copy.deadline copy.looks copy.last
    then ok true
    else raised (tool serial_error)

unfoldable pub copy_uf2 : Copy → Except Bool
unfolding copy_end
copy_uf2 copy = elim copy.size [
  | none ↦ raised os_error
  | some size ↦ copy_end copy size copy.error
]

-- How a run of arduino-cli ends.
pub data Run : Type 0 where
  ended : Returncode → Run
  not_found timed_out not_started : Run

unfoldable pub arduino_cli : Run → Except Returncode
arduino_cli (ended code) = ok code
arduino_cli not_found = raised (tool tool_missing)
arduino_cli timed_out = raised (tool serial_error)
arduino_cli not_started = raised os_error

-- What becomes of the ELF: kept, and the three notes; `untouched` where none is looked for.
pub data Kept : Type 0 where
  kept untouched no_single_elf not_kept keep_failed : Kept

-- The answers of `keep_elf`.
pub data Keep : Type 0 where
  keeps : Bool → Keep
  keep_os_error keep_other : Keep

unfoldable pub keep_answer : Keep → Except Kept
keep_answer (keeps true) = ok kept
keep_answer (keeps false) = ok not_kept
keep_answer keep_os_error = ok keep_failed
keep_answer keep_other = raised other

unfoldable pub keep_elf : Keep → Option Text → M Kept
unfolding keep_answer
keep_elf answer none = pure no_single_elf
keep_elf answer (some elf) = emit (offered elf) >> lift (keep_answer answer)

-- `_keep_flashed_elf`
unfoldable pub keep_flashed_elf : Returncode → Snapshot → Option Keep → M Kept
unfolding keep_elf flashed_elf
keep_flashed_elf (exit zero) snapshot (some answer) = keep_elf answer (flashed_elf snapshot)
keep_flashed_elf code snapshot answers = pure untouched
