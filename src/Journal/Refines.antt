-- ===== src/Journal/Refines.antt =====
-- The files of the journal refine what it is for.
use mathlib.Core.Path.{subst}
use mathlib.Core.List.{reverse-reverse}
use omarchy_hardware.Common.{
  ltb, ◌≡◌, refl, sym, ap, ◌∙◌, take, Option, none, some, List, [], ◌∷◌, Bool-cases, inl, inr,
}
use omarchy_hardware.Common.Text.{Text, text_eq}
use omarchy_hardware.Errors.{Result, ok, err, ◌>>=◌}
use omarchy_hardware.Journal.Entry.{
  Board, Python, Upload, Entry, board_key, check_label, empty_entry, max_uploads, new_upload,
  with_upload, with_label,
}
use omarchy_hardware.Journal.LastUploads.{keep_last-append}
use omarchy_hardware.Journal.Store.{
  Stored, missing, damaged, readable, max_file_bytes, read, Disk, set_file, entry_or, update_key,
  update, public_entry, history_of, history_at, history, record_upload, set_label,
}
use omarchy_hardware.Journal.Spec.{
  Operation, uploads_to, labels, damages, Kept, nothing, lost, kept, keep_at, upload_kept, entry_of,
  written, label_kept, change_kept, labelled, spec_step, spec, told, told_of, after_upload,
  after_label, perform, perform_all, empty_disk,
}

-- What is read of a file and what is known of its key.
data Agrees : Stored → Kept → Type 0 where
  agree_nothing : Agrees missing nothing
  agree_lost : Agrees damaged lost
  agree_kept :
      {e : Entry} {vid pid : Text} {label : Option Text} {first : Text} {all_uploads : List Upload}
      → e ≡ entry_of vid pid label first all_uploads
      → Agrees (readable e) (kept vid pid label first all_uploads)

Agrees-told : {stored : Stored} {k : Kept} → Agrees stored k → history_of stored ≡ told k
unfolding history_of told public_entry
Agrees-told agree_nothing = refl
Agrees-told agree_lost = refl
Agrees-told (agree_kept {all_uploads = all_uploads} h) =
    rw (h, reverse-reverse (take max_uploads all_uploads)) refl

-- What is written and read again.
Agrees-written :
    (py : Python) {e : Entry} {k : Kept}
    → Agrees (readable e) k
    → Agrees (read py (readable e)) (written py k)
unfolding read written
Agrees-written py (agree_kept {e = e} {vid = vid} {pid} {label} {first} {all_uploads} h) =
    elim (Bool-cases (ltb max_file_bytes (py.dumped_bytes e))) [
      | inl large ↦
          let large' = ap (λ x. ltb max_file_bytes (py.dumped_bytes x)) (sym h) ∙ large in
          rw (large, large') agree_lost
      | inr fits ↦
          let fits' = ap (λ x. ltb max_file_bytes (py.dumped_bytes x)) (sym h) ∙ fits in
          rw (fits, fits') (agree_kept h)
    ]

-- Entries that differ in their uploads only.
uploads_of :
    {vid pid : Text} {label : Option Text} {first : Text} {xs ys : List Upload}
    → xs ≡ ys
    → ◌≡◌ {A = Entry}
        (record { vid = vid; pid = pid; label = label; first_recorded = first; uploads = xs })
        (record { vid = vid; pid = pid; label = label; first_recorded = first; uploads = ys })
uploads_of {vid} {pid} {label} {first} h =
    ap
      (λ uploads. record {
        vid = vid;
        pid = pid;
        label = label;
        first_recorded = first;
        uploads = uploads;
      })
      h

module _ (py : Python) (board : Board) (now : Text) where
  upload-Agrees :
      {stored : Stored} {k : Kept} (upload : Upload)
      → Agrees stored k
      → Agrees
          (readable (with_upload upload (entry_or py board now stored)))
          (upload_kept py board now upload k)
  unfolding entry_or with_upload empty_entry upload_kept
  upload-Agrees upload agree_nothing = agree_kept (uploads_of (keep_last-append 19 upload []))
  upload-Agrees upload agree_lost = agree_kept (uploads_of (keep_last-append 19 upload []))
  upload-Agrees upload (agree_kept {all_uploads = all_uploads} h) =
      agree_kept
        (ap (λ e. with_upload upload e) h ∙ uploads_of (keep_last-append 19 upload all_uploads))

  label-Agrees :
      {stored : Stored} {k : Kept} (label : Option Text)
      → Agrees stored k
      → Agrees
          (readable (with_label label (entry_or py board now stored)))
          (label_kept py board now label k)
  unfolding entry_or with_label empty_entry label_kept
  label-Agrees label agree_nothing = agree_kept refl
  label-Agrees label agree_lost = agree_kept refl
  label-Agrees label (agree_kept h) = agree_kept (ap (λ e. with_label label e) h)

-- Every file agrees with what is known of its key.
abbrev AllAgree : Python → Disk → (Text → Kept) → Type 0
AllAgree py disk journal = (key : Text) → Agrees (read py (disk.files key)) (journal key)

set_file-Agrees :
    (py : Python) (files : Text → Stored) (journal : Text → Kept) (key : Text) (stored : Stored)
    {k : Kept}
    → Agrees (read py stored) k
    → ((j : Text) → Agrees (read py (files j)) (journal j))
    → (j : Text) → Agrees (read py (set_file key stored files j)) (keep_at key k journal j)
unfolding set_file keep_at
set_file-Agrees py files journal key stored a every j = elim (Bool-cases (text_eq key j)) [
  | inl e ↦ rw e a
  | inr e ↦ rw e (every j)
]

-- The files after a change, if there was one.
abbrev after_update : Disk → Result (Entry × Disk) → Disk
after_update disk (ok (e, after)) = after
after_update disk (err code) = disk

update_key-Agrees :
    (py : Python) (board : Board) (now : Text) (change : Entry → Entry) (change' : Kept → Kept)
    (disk : Disk) (journal : Text → Kept) (key : Option Text)
    → ((stored : Stored) (k : Kept)
        → Agrees stored k
        → Agrees (readable (change (entry_or py board now stored))) (change' k))
    → AllAgree py disk journal
    → AllAgree py
        (after_update disk (update_key py board now change disk key))
        (change_kept key (λ k. written py (change' k)) journal)
unfolding update_key change_kept
update_key-Agrees py board now change change' disk journal none step every = every
update_key-Agrees py board now change change' disk journal (some key) step every =
    set_file-Agrees py disk.files journal key _ (Agrees-written py (step _ _ (every key))) every

after_upload_lem :
    (disk : Disk) (r : Result (Entry × Disk))
    → after_upload disk (r >>= λ p. ok p.1) ≡ after_update disk r
after_upload_lem disk (ok (e, after)) = refl
after_upload_lem disk (err code) = refl

after_label_lem :
    (disk : Disk) (r : Result (Entry × Disk))
    → after_label disk (r >>= λ p. ok (public_entry p.0, p.1)) ≡ after_update disk r
after_label_lem disk (ok (e, after)) = refl
after_label_lem disk (err code) = refl

label-AllAgree :
    (py : Python) (board : Board) (now : Text) (disk : Disk) (journal : Text → Kept)
    (label : Result (Option Text))
    → AllAgree py disk journal
    → AllAgree py
        (after_label disk (
          label >>= λ l.
          update py board now (with_label l) disk >>= λ p. ok (public_entry p.0, p.1)))
        (labelled py board now label journal)
unfolding labelled update
label-AllAgree py board now disk journal (err code) every = every
label-AllAgree py board now disk journal (ok l) every =
    subst
      (λ d.
        AllAgree py d (
          change_kept (board_key py board) (λ k. written py (label_kept py board now l k)) journal))
      (sym
        (after_label_lem disk (update_key py board now (with_label l) disk (board_key py board))))
      (update_key-Agrees py board now (with_label l) (label_kept py board now l) disk journal
        (board_key py board) (λ _ _. label-Agrees py board now l) every)

perform-AllAgree :
    (py : Python) (o : Operation) (disk : Disk) (journal : Text → Kept)
    → AllAgree py disk journal
    → AllAgree py (perform py o disk) (spec_step py o journal)
unfolding perform spec_step record_upload update set_label read
perform-AllAgree py (damages key) disk journal every =
    set_file-Agrees py disk.files journal key damaged agree_lost every
perform-AllAgree py (labels board now text) disk journal every =
    label-AllAgree py board now disk journal (check_label py text) every
perform-AllAgree py (uploads_to board now fqbn sketch_dir artifact_digest) disk journal every =
    let upload = new_upload now fqbn sketch_dir artifact_digest in
    subst
      (λ d. AllAgree py d (
        change_kept (board_key py board) (λ k. written py (upload_kept py board now upload k))
          journal))
      (sym (
        after_upload_lem disk
          (update_key py board now (with_upload upload) disk (board_key py board))))
      (update_key-Agrees py board now (with_upload upload) (upload_kept py board now upload) disk
        journal (board_key py board) (λ _ _. upload-Agrees py board now upload) every)

perform_all-AllAgree :
    (py : Python) (os : List Operation) (disk : Disk) (journal : Text → Kept)
    → AllAgree py disk journal
    → AllAgree py (perform_all py os disk) (spec py os journal)
unfolding perform_all spec
perform_all-AllAgree py [] disk journal every = every
perform_all-AllAgree py (o ∷ os) disk journal every =
    perform_all-AllAgree py os (perform py o disk) (spec_step py o journal)
      (perform-AllAgree py o disk journal every)

history_at-told :
    (py : Python) (disk : Disk) (journal : Text → Kept) (key : Option Text)
    → AllAgree py disk journal
    → history_at py disk key ≡ told_of journal key
unfolding history_at told_of
history_at-told py disk journal none every = refl
history_at-told py disk journal (some key) every = Agrees-told (every key)

-- After any uploads, labels and damage to files, what history tells of a board is what an
-- account of all of it tells: that a board without a key is not tracked and one without an
-- entry is not known, an error while the entry is damaged or larger than a file may be when it
-- is read, and else the last label that was accepted, the time of the first record, and the
-- last twenty uploads, the newest first, of those since the entry was last damaged or too
-- large.
pub history-refines :
    (py : Python) (os : List Operation) (board : Board)
    → history py (perform_all py os empty_disk) board
      ≡ told_of (spec py os (λ key. nothing)) (board_key py board)
unfolding history read
history-refines py os board =
    history_at-told py (perform_all py os empty_disk) (spec py os (λ key. nothing))
      (board_key py board)
      (perform_all-AllAgree py os empty_disk (λ key. nothing) (λ key. agree_nothing))
