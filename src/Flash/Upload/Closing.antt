-- ===== src/Flash/Upload/Closing.antt =====
-- The write of an upload and the record of its end.
use mathlib.Core.List.{append_assoc, append-nil}
use omarchy_hardware.Common.{
  zero, suc, ◌≡◌, refl, sym, ap, ◌∙◌, Bool, false, Option, none, some, List, [], ◌∷◌, ◌++◌,
}
use omarchy_hardware.Common.Text.{Text}
use omarchy_hardware.Flash.Steps.{
  Except, ok, raised, Returncode, exit, killed, Finish, returned, failed, Event, log_started,
  log_finished, copied, ran, offered, M, then_do, ◌>>=◌, ◌>>◌, pure,
}
use omarchy_hardware.Flash.Upload.Board.{
  Snapshot, flashed_elf, copy_uf2, arduino_cli, Kept, Keep, keep_elf, keep_flashed_elf,
}
use omarchy_hardware.Flash.Upload.Cleared.{Cleared}
use omarchy_hardware.Flash.Upload.{
  Request, World, Noted, noted, note_os_error, note_other, Written, upload_arguments, write_board,
  Uploaded, write_and_keep, note_failure, close_answer, close_log, Reply, reply,
}
use omarchy_hardware.Flash.Upload.Order.{
  Agreed, asking, write_event, IsOffer, no_offer, offer, Told, failure, unrecorded, recorded,
  Orderly, attempted,
}

-- What is added to the events by a part of the upload.
pub data Adds {A : Type 0} (start : List Event) (P : List Event → Type 0)
    : Except A × List Event → Type 0 where
  adds :
      {r : Except A} {done : List Event} (events : List Event)
      → P events
      → done ≡ start ++ events
      → Adds start P (r, done)

keep_flashed_elf-Adds :
    (code : Returncode) (snapshot : Snapshot) (keep : Option Keep) (start : List Event)
    → Adds start (IsOffer snapshot) (keep_flashed_elf code snapshot keep start)
unfolding keep_flashed_elf keep_elf
keep_flashed_elf-Adds (exit zero) snapshot (some answer) start = go (flashed_elf snapshot) refl
  where
    go :
        (elf : Option Text)
        → flashed_elf snapshot ≡ elf
        → Adds start (IsOffer snapshot) (keep_elf answer elf start)
    go none e = adds [] no_offer (sym (append-nil start))
    go (some elf) e = adds (offered elf ∷ []) (offer e) refl
keep_flashed_elf-Adds (exit zero) snapshot none start = adds [] no_offer (sym (append-nil start))
keep_flashed_elf-Adds (exit (suc n)) snapshot keep start = adds [] no_offer (sym (append-nil start))
keep_flashed_elf-Adds (killed n) snapshot keep start = adds [] no_offer (sym (append-nil start))

-- One write, and after it an offer at most.
pub data Writes (request : Request) (snapshot : Snapshot) (uf2 : Option Text)
    : List Event → Type 0 where
  writes :
      {offers : List Event}
      → IsOffer snapshot offers
      → Writes request snapshot uf2 (write_event request snapshot uf2 ∷ offers)

abbrev pub keep_after : World → Snapshot → Written → M Uploaded
keep_after world snapshot written = keep_flashed_elf written.code snapshot world.keep >>= λ elf.
    pure (record { written = written; elf = elf })

after_write :
    (world : World) (request : Request) (snapshot : Snapshot) (uf2 : Option Text)
    (start : List Event) (r : Except Written)
    → Adds start
        (Writes request snapshot uf2)
        (then_do (keep_after world snapshot) (r, start ++ write_event request snapshot uf2 ∷ []))
after_write world request snapshot uf2 start (raised e) = adds _ (writes no_offer) refl
after_write world request snapshot uf2 start (ok written) = kept (
    keep_flashed_elf-Adds written.code snapshot world.keep
      (start ++ write_event request snapshot uf2 ∷ []))
  where
    the_upload : Kept → Uploaded
    the_upload elf = record { written = written; elf = elf }

    kept :
        {p : Except Kept × List Event}
        → Adds (start ++ write_event request snapshot uf2 ∷ []) (IsOffer snapshot) p
        → Adds start (Writes request snapshot uf2) (then_do (λ elf. pure (the_upload elf)) p)
    kept (adds {r = ok elf} events o e) =
        adds _ (writes o) (e ∙ append_assoc start (write_event request snapshot uf2 ∷ []) events)
    kept (adds {r = raised x} events o e) =
        adds _ (writes o) (e ∙ append_assoc start (write_event request snapshot uf2 ∷ []) events)

write_board-event :
    (world : World) (request : Request) (snapshot : Snapshot) (uf2 : Option Text)
    (start : List Event)
    → (r : Except Written) × (write_board world request snapshot uf2 start
        ≡ (r, start ++ write_event request snapshot uf2 ∷ []))
unfolding write_board
write_board-event world request snapshot (some image) start = go (copy_uf2 world.copy)
  where
    events : List Event
    events = start ++ copied image request.port ∷ []

    go :
        (c : Except Bool)
        → (r : Except Written) × (then_do
              (λ gone. pure (record { code = exit 0; gone = gone }))
              (c, events)
            ≡ (r, events))
    go (ok gone) = (ok (record { code = exit 0; gone = gone }), refl)
    go (raised e) = (raised e, refl)
write_board-event world request snapshot none start = go (arduino_cli world.run)
  where
    events : List Event
    events = start ++ ran (upload_arguments request snapshot) ∷ []

    go :
        (c : Except Returncode)
        → (r : Except Written) × (then_do
              (λ code. pure (record { code = code; gone = false }))
              (c, events)
            ≡ (r, events))
    go (ok code) = (ok (record { code = code; gone = false }), refl)
    go (raised e) = (raised e, refl)

pub write_and_keep-Adds :
    (world : World) (request : Request) (snapshot : Snapshot) (uf2 : Option Text)
    (start : List Event)
    → Adds start (Writes request snapshot uf2) (write_and_keep world request snapshot uf2 start)
unfolding write_and_keep
write_and_keep-Adds world request snapshot uf2 start =
    let (r, e) = write_board-event world request snapshot uf2 start in
    rw e (after_write world request snapshot uf2 start r)

-- The write, and the record of its end after it.
pub data Closed (world : World) (request : Request) (snapshot : Snapshot) (uf2 : Option Text)
    (start : List Event) : Except Reply × List Event → Type 0 where
  closed :
      {told : Except Reply} {done : List Event} {end : Finish} (events : List Event)
      → Writes request snapshot uf2 events
      → Told world end told
      → done ≡ start ++ (events ++ log_finished end ∷ [])
      → Closed world request snapshot uf2 start (told, done)

abbrev pub close_and_reply : World → Uploaded → M Reply
close_and_reply world uploaded = close_log world uploaded.written.code >> pure (reply uploaded)

close_log-Closed :
    (world : World) (request : Request) (snapshot : Snapshot) (uf2 : Option Text)
    (start events : List Event) (uploaded : Uploaded)
    → Writes request snapshot uf2 events
    → Closed world request snapshot uf2 start (close_and_reply world uploaded (start ++ events))
unfolding close_log
close_log-Closed world request snapshot uf2 start events uploaded w = go world.closing refl
  where
    joined :
        (end : Finish)
        → (start ++ events) ++ log_finished end ∷ [] ≡ start ++ (events ++ log_finished end ∷ [])
    joined end = append_assoc start events (log_finished end ∷ [])

    end_of : Finish
    end_of = returned uploaded.written.code

    go :
        (n : Noted)
        → world.closing ≡ n
        → Closed world request snapshot uf2 start (
            then_do
              (λ _. pure (reply uploaded))
              (close_answer n, (start ++ events) ++ log_finished end_of ∷ []))
    go noted e = closed events w (recorded uploaded e) (joined end_of)
    go note_os_error e = closed events w unrecorded (joined end_of)
    go note_other e = closed events w unrecorded (joined end_of)

pub guarded-Closed :
    (world : World) (request : Request) (snapshot : Snapshot) (uf2 : Option Text)
    (start : List Event) {p : Except Uploaded × List Event}
    → Adds start (Writes request snapshot uf2) p
    → Closed world request snapshot uf2 start
        (then_do (close_and_reply world) (note_failure world p))
unfolding note_failure
guarded-Closed world request snapshot uf2 start (adds {r = ok uploaded} events w e) =
    rw e (close_log-Closed world request snapshot uf2 start events uploaded w)
guarded-Closed world request snapshot uf2 start (adds {r = raised x} events w e) =
    closed events w failure (
      ap (λ z. z ++ log_finished (failed x) ∷ []) e
      ∙ append_assoc start events (log_finished (failed x) ∷ []))

pub Closed-Orderly :
    (world : World) (request : Request) (snapshot : Snapshot) (uf2 : Option Text)
    {p : Except Reply × List Event}
    → Cleared world request snapshot uf2
    → Agreed world.asks
    → world.require ≡ ok tt
    → Closed world request snapshot uf2 (asking world.asks ++ log_started ∷ []) p
    → Orderly world request p
Closed-Orderly world request snapshot uf2 c a r
      (closed {told = told} {end = end} events (writes {offers} o) t e) =
    rw
      (
        e,
        append_assoc (asking world.asks) (log_started ∷ [])
            (write_event request snapshot uf2 ∷ (offers ++ log_finished end ∷ [])),
      )
      (attempted c a r o t)
