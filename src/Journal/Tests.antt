-- ===== src/Journal/Tests.antt =====
-- Runs of the journal, and the theorem about it.
use omarchy_hardware.Common.{◌≡◌, refl, ◌==◌, false, some, List, [], ◌∷◌}
use omarchy_hardware.Common.Text.{codes, text_eq, split, cons_head}
use omarchy_hardware.Common.Unicode.{lstrip, strip}
use omarchy_hardware.Errors.{ok}
use omarchy_hardware.Journal.Entry.{
  Board, Python, board_key, key_from, is_shared, check_label, checked_label, label_pattern,
  is_alnum, is_label_char, new_upload, base_name, last_piece, empty_entry, keep_last, with_upload,
  with_label,
}
use omarchy_hardware.Journal.Store.{
  known, read, set_file, entry_or, set_aside, update_key, update, public_entry, history_of,
  history_at, history, record_upload, set_label,
}
use omarchy_hardware.Journal.Spec.{
  Operation, uploads_to, labels, nothing, perform, perform_all, empty_disk, spec, told_of,
}
use omarchy_hardware.Journal.Refines.{history-refines}

abbrev python : Python
python = record {
  unicode = record {
    is_digit = λ c. false;
    is_space = λ c. c == b' ';
    lower = λ s. s;
    upper = λ s. s;
  };
  sha256 = λ s. s;
  dumped_bytes = λ e. 1000;
}

abbrev uno : Board
uno = record { serial = some (codes "8523"); vid = some (codes "2341"); pid = some (codes "0043") }

abbrev operations : List Operation
operations =
    uploads_to uno (codes "09:00") (codes "arduino:avr:uno") (codes "/home/me/blink/") (codes "d1")
    ∷ labels uno (codes "09:01") (some (codes " bench uno 2 "))
    ∷ uploads_to uno (codes "09:02") (codes "arduino:avr:uno") (codes "/home/me/servo") (codes "d2")
    ∷ labels uno (codes "09:03") (some (codes "no/slash"))
    ∷ []

told_example :
    history python (perform_all python operations empty_disk) uno
    ≡ ok (
        known (some (codes "bench uno 2")) (codes "09:00") (
          record {
            at = codes "09:02";
            fqbn = codes "arduino:avr:uno";
            sketch_dir = codes "/home/me/servo";
            sketch = codes "servo";
            artifact_digest = codes "d2";
          }
          ∷ record {
            at = codes "09:00";
            fqbn = codes "arduino:avr:uno";
            sketch_dir = codes "/home/me/blink/";
            sketch = codes "blink";
            artifact_digest = codes "d1";
          }
          ∷ []))
unfolding read history history_at history_of public_entry perform_all perform record_upload
    set_label update update_key set_file entry_or set_aside empty_entry with_upload with_label
    keep_last board_key key_from is_shared check_label checked_label label_pattern is_alnum
    is_label_char new_upload base_name last_piece strip lstrip split cons_head text_eq
told_example = refl

history-refines_example :
    history python (perform_all python operations empty_disk) uno
    ≡ told_of (spec python operations (λ key. nothing)) (board_key python uno)
history-refines_example = history-refines python operations uno
