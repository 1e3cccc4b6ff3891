-- ===== src/Journal/Store.antt =====
-- The calls of mcp/omarchy_hardware/journal.py on the directory of entries.
use omarchy_hardware.Common.{ℕ, ◌*◌, ltb, reverse, Option, none, some, List, ◌∷◌, if◌then◌else◌}
use omarchy_hardware.Common.Text.{Text, text_eq}
use omarchy_hardware.Errors.{Result, ok, err, journal_unavailable, ◌>>=◌}
use omarchy_hardware.Journal.Entry.{
  Board, Python, Upload, Entry, board_key, check_label, empty_entry, new_upload, with_upload,
  with_label,
}

abbrev pub max_file_bytes : ℕ
max_file_bytes = 256 * 1024

-- A file: none, one that cannot be opened or whose text is no entry, or what `_write` made of an
-- entry. As `_read` gives it, `damaged` is what it raises on.
pub data Stored : Type 0 where
  missing : Stored
  damaged : Stored
  readable : Entry → Stored

-- The files by their keys, and the keys whose damaged file was set aside.
pub record Disk : Type 0 where
  pub files : Text → Stored
  pub aside : List Text

-- `_read`
unfoldable pub read : Python → Stored → Stored
read py missing = missing
read py damaged = damaged
read py (readable e) = if ltb max_file_bytes (py.dumped_bytes e) then damaged else readable e

unfoldable pub set_file : Text → Stored → (Text → Stored) → Text → Stored
set_file key stored files k = if text_eq key k then stored else files k

unfoldable pub entry_or : Python → Board → Text → Stored → Entry
entry_or py board now (readable e) = e
entry_or py board now damaged = empty_entry py board now
entry_or py board now missing = empty_entry py board now

unfoldable pub set_aside : Text → Stored → List Text → List Text
set_aside key damaged aside = key ∷ aside
set_aside key missing aside = aside
set_aside key (readable e) aside = aside

-- `_update`, under the lock, at a time.
unfoldable pub update_key :
    Python → Board → Text → (Entry → Entry) → Disk → Option Text → Result (Entry × Disk)
unfolding read set_file entry_or set_aside
update_key py board now change disk none = err journal_unavailable
update_key py board now change disk (some key) =
    let found = read py (disk.files key) in
    let e = change (entry_or py board now found) in
    let after : Disk = record {
      files = set_file key (readable e) disk.files;
      aside = set_aside key found disk.aside;
    } in
    ok (e, after)

unfoldable pub update : Python → Board → Text → (Entry → Entry) → Disk → Result (Entry × Disk)
unfolding update_key
update py board now change disk = update_key py board now change disk (board_key py board)

-- What a caller is told of a board.
pub data History : Type 0 where
  untracked : History
  unknown : History
  known : (label : Option Text) → (first_recorded : Text) → (uploads : List Upload) → History

unfoldable pub public_entry : Entry → History
public_entry e = known e.label e.first_recorded (reverse e.uploads)

unfoldable pub history_of : Stored → Result History
unfolding public_entry
history_of missing = ok unknown
history_of damaged = err journal_unavailable
history_of (readable e) = ok (public_entry e)

unfoldable pub history_at : Python → Disk → Option Text → Result History
unfolding read history_of
history_at py disk none = ok untracked
history_at py disk (some key) = history_of (read py (disk.files key))

unfoldable pub history : Python → Disk → Board → Result History
unfolding history_at
history py disk board = history_at py disk (board_key py board)

unfoldable pub record_upload :
    Python → Board → (now fqbn sketch_dir artifact_digest : Text) → Disk → Result Disk
unfolding update
record_upload py board now fqbn sketch_dir artifact_digest disk = do
  (e, after) ←
      update py board now (with_upload (new_upload now fqbn sketch_dir artifact_digest)) disk
  ok after

unfoldable pub set_label :
    Python → Board → (now : Text) → Option Text → Disk → Result (History × Disk)
unfolding update
set_label py board now text disk = do
  new_label ← check_label py text
  (e, after) ← update py board now (with_label new_label) disk
  ok (public_entry e, after)
