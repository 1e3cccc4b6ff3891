-- ===== src/Journal/Spec.antt =====
-- What the journal is for: for each board all uploads, the newest first, of which a caller is told
-- the last twenty, and the last label, unless the entry has grown too large to be read.
use omarchy_hardware.Common.{take, reverse, ltb, Option, none, some, List, [], ◌∷◌, if◌then◌else◌}
use omarchy_hardware.Common.Text.{Text, text_eq}
use omarchy_hardware.Errors.{Result, ok, err, journal_unavailable}
use omarchy_hardware.Journal.Entry.{
  Board, Python, Upload, Entry, or_empty, board_key, check_label, max_uploads, new_upload,
}
use omarchy_hardware.Journal.Store.{
  missing, damaged, max_file_bytes, Disk, History, untracked, unknown, known, set_file,
  record_upload, set_label,
}

pub data Operation : Type 0 where
  uploads_to : Board → (now fqbn sketch_dir artifact_digest : Text) → Operation
  labels : Board → (now : Text) → Option Text → Operation
  damages : (key : Text) → Operation

-- What is known of a key: the ids of the board that was recorded first, the label, the time, and the
-- uploads. `lost` is an entry that cannot be read.
pub data Kept : Type 0 where
  nothing : Kept
  lost : Kept
  kept :
      (vid pid : Text) → (label : Option Text) → (first : Text) → (all_uploads : List Upload) → Kept

unfoldable pub keep_at : Text → Kept → (Text → Kept) → Text → Kept
keep_at key k journal j = if text_eq key j then k else journal j

-- What is written for a board of which nothing can be read.
abbrev pub first_kept : Python → Board → Text → Option Text → List Upload → Kept
first_kept py board now label uploads =
    kept (py.unicode.lower (or_empty board.vid)) (py.unicode.lower (or_empty board.pid)) label now
      uploads

unfoldable pub upload_kept : Python → Board → Text → Upload → Kept → Kept
upload_kept py board now upload nothing = first_kept py board now none (upload ∷ [])
upload_kept py board now upload lost = first_kept py board now none (upload ∷ [])
upload_kept py board now upload (kept vid pid label first all_uploads) =
    kept vid pid label first (upload ∷ all_uploads)

unfoldable pub label_kept : Python → Board → Text → Option Text → Kept → Kept
label_kept py board now label nothing = first_kept py board now label []
label_kept py board now label lost = first_kept py board now label []
label_kept py board now label (kept vid pid old first all_uploads) =
    kept vid pid label first all_uploads

-- The entry of what is known: the last uploads, the oldest first.
abbrev pub entry_of :
    (vid pid : Text) → Option Text → (first : Text) → (all_uploads : List Upload) → Entry
entry_of vid pid label first all_uploads = record {
  vid = vid;
  pid = pid;
  label = label;
  first_recorded = first;
  uploads = reverse (take max_uploads all_uploads);
}

-- What is left of what is known once it is written: an entry that is too large is lost.
unfoldable pub written : Python → Kept → Kept
written py nothing = nothing
written py lost = lost
written py (kept vid pid label first all_uploads) =
    if ltb max_file_bytes (py.dumped_bytes (entry_of vid pid label first all_uploads))
    then lost
    else kept vid pid label first all_uploads

unfoldable pub change_kept : Option Text → (Kept → Kept) → (Text → Kept) → Text → Kept
unfolding keep_at
change_kept none change journal = journal
change_kept (some key) change journal = keep_at key (change (journal key)) journal

unfoldable pub labelled : Python → Board → Text → Result (Option Text) → (Text → Kept) → Text → Kept
unfolding change_kept label_kept written
labelled py board now (ok label) journal =
    change_kept (board_key py board) (λ k. written py (label_kept py board now label k)) journal
labelled py board now (err code) journal = journal

unfoldable pub spec_step : Python → Operation → (Text → Kept) → Text → Kept
unfolding change_kept upload_kept labelled written
spec_step py (uploads_to board now fqbn sketch_dir artifact_digest) journal =
    change_kept (board_key py board)
      (λ k.
        written py (upload_kept py board now (new_upload now fqbn sketch_dir artifact_digest) k))
      journal
spec_step py (labels board now text) journal = labelled py board now (check_label py text) journal
spec_step py (damages key) journal = keep_at key lost journal

unfoldable pub spec : Python → List Operation → (Text → Kept) → Text → Kept
unfolding spec_step
spec py [] journal = journal
spec py (o ∷ os) journal = spec py os (spec_step py o journal)

unfoldable pub told : Kept → Result History
told nothing = ok unknown
told lost = err journal_unavailable
told (kept vid pid label first all_uploads) = ok (known label first (take max_uploads all_uploads))

unfoldable pub told_of : (Text → Kept) → Option Text → Result History
unfolding told
told_of journal none = ok untracked
told_of journal (some key) = told (journal key)

-- The same operations on the files: one that raises leaves them as they are.
abbrev pub after_upload : Disk → Result Disk → Disk
after_upload disk (ok after) = after
after_upload disk (err code) = disk

abbrev pub after_label : Disk → Result (History × Disk) → Disk
after_label disk (ok (h, after)) = after
after_label disk (err code) = disk

unfoldable pub perform : Python → Operation → Disk → Disk
unfolding set_file
perform py (uploads_to board now fqbn sketch_dir artifact_digest) disk =
    after_upload disk (record_upload py board now fqbn sketch_dir artifact_digest disk)
perform py (labels board now text) disk = after_label disk (set_label py board now text disk)
perform py (damages key) disk = record {
  files = set_file key damaged disk.files;
  aside = disk.aside;
}

unfoldable pub perform_all : Python → List Operation → Disk → Disk
unfolding perform
perform_all py [] disk = disk
perform_all py (o ∷ os) disk = perform_all py os (perform py o disk)

abbrev pub empty_disk : Disk
empty_disk = record { files = λ key. missing; aside = [] }
