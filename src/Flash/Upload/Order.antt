-- ===== src/Flash/Upload/Order.antt =====
-- The order of an upload: what is checked before what is done, and what is recorded.
use omarchy_hardware.Common.{◌≡◌, Option, none, some, List, [], ◌∷◌, ◌++◌}
use omarchy_hardware.Common.Text.{Text}
use omarchy_hardware.Flash.Steps.{
  Raised, Except, ok, raised, Returncode, Finish, returned, failed, Event, asked, log_started,
  log_finished, copied, ran, offered,
}
use omarchy_hardware.Flash.Upload.Board.{Snapshot, flashed_elf}
use omarchy_hardware.Flash.Upload.Cleared.{Cleared}
use omarchy_hardware.Flash.Upload.{Request, World, noted, upload_arguments, Uploaded, Reply, reply}

-- There is no callback, or it did not raise.
pub data Agreed : Option (Except (Unit {0})) → Type 0 where
  not_asked : Agreed none
  agreed : Agreed (some (ok tt))

abbrev pub asking : Option (Except (Unit {0})) → List Event
asking none = []
asking (some answer) = asked ∷ []

abbrev pub write_event : Request → Snapshot → Option Text → Event
write_event request snapshot (some image) = copied image request.port
write_event request snapshot none = ran (upload_arguments request snapshot)

pub data IsOffer (snapshot : Snapshot) : List Event → Type 0 where
  no_offer : IsOffer snapshot []
  offer : {elf : Text} → flashed_elf snapshot ≡ some elf → IsOffer snapshot (offered elf ∷ [])

-- What is recorded of the end and what the caller is told.
pub data Told (world : World) : Finish → Except Reply → Type 0 where
  failure : {e e' : Raised} → Told world (failed e) (raised e')
  unrecorded : {code : Returncode} {e : Raised} → Told world (returned code) (raised e)
  recorded :
      (uploaded : Uploaded)
      → world.closing ≡ noted
      → Told world (returned uploaded.written.code) (ok (reply uploaded))

-- How an upload goes: it raises before anything is done or when the caller is asked; or it was
-- cleared, and raises when its start cannot be recorded; or the start is recorded, then one
-- write is made, then the ELF may be offered, then the end is recorded, once and last.
pub data Orderly (world : World) (request : Request) : Except Reply × List Event → Type 0 where
  nothing_done : {e : Raised} → Orderly world request (raised e, [])
  only_asked : {e : Raised} → Orderly world request (raised e, asking world.asks)
  not_logged :
      {e : Raised} {snapshot : Snapshot} {uf2 : Option Text}
      → Cleared world request snapshot uf2
      → Agreed world.asks
      → Orderly world request (raised e, asking world.asks ++ log_started ∷ [])
  attempted :
      {snapshot : Snapshot} {uf2 : Option Text} {offers : List Event} {end : Finish}
      {told : Except Reply}
      → Cleared world request snapshot uf2
      → Agreed world.asks
      → world.require ≡ ok tt
      → IsOffer snapshot offers
      → Told world end told
      → Orderly world request (
        told,
        asking world.asks
            ++ log_started ∷ write_event request snapshot uf2 ∷ (offers ++ log_finished end ∷ []),
      )
