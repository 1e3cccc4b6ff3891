-- ===== src/Flash/Upload.antt =====
-- `upload_sketch` of mcp/omarchy_hardware/flash.py and what it calls. What the environment answers in
-- an upload is a record; what the upload does to the world is a list of events.
pub mod Board
pub mod Cleared
pub mod Order
pub mod Closing
pub mod Orderly
use omarchy_hardware.Common.{
  ℕ, ◌==◌, Bool, true, false, not, ◌||◌, Option, none, some, List, [], ◌∷◌, ◌++◌, if◌then◌else◌,
}
use omarchy_hardware.Common.Text.{Text, codes, text_eq}
use omarchy_hardware.Errors.{Result, artifact_invalid, audit_log_failed}
use omarchy_hardware.Flash.Token.{Upload, Python, Verified, checked, verify_token}
use omarchy_hardware.Flash.Steps.{
  Raised, tool, os_error, other, Except, ok, raised, Returncode, exit, killed, Finish, returned,
  failed, Event, asked, log_started, log_finished, copied, ran, offered, M, then_do, ◌>>=◌, ◌>>◌,
  lift, pure, emit, ◌>>>◌,
}
use omarchy_hardware.Flash.Sketch.{Paths, check_fqbn, resolve_sketch_dir}
use omarchy_hardware.Flash.Artifact.{Tree, Hashing, is_nil, resolve_artifact_dir, artifact_digest}
use omarchy_hardware.Flash.Upload.Board.{
  Snapshot, uf2_from_snapshot, Copy, copy_uf2, Run, arduino_cli, Kept, Keep, keep_flashed_elf,
}

-- The arguments of `upload_sketch`; `now` is the time at which the token is checked.
pub record Request : Type 0 where
  pub sketch_dir : Text
  pub port : Text
  pub fqbn : Text
  pub token : Text
  pub serial : Text
  pub artifact_path : Text
  pub artifact_digest : Text
  pub roots : Option (List Text)
  pub now : ℕ

-- What a call of `audit.note` ends with: `note` raises what the log does.
pub data Noted : Type 0 where
  noted note_os_error note_other : Noted

-- What the environment answers in one upload: the calls outside this module. `snapshot` is `none`
-- when the build cannot be copied; `asks` is what `before_write` ends with, if there is one;
-- `require` is what `audit.require` ends with, `closing` what the record of the end meets.
pub record World : Type 0 where
  pub python : Python
  pub paths : Paths
  pub hashing : Hashing
  pub snapshot : Option Snapshot
  pub asks : Option (Except (Unit {0}))
  pub require : Except (Unit {0})
  pub copy : Copy
  pub run : Run
  pub keep : Option Keep
  pub closing : Noted

pub record Checked : Type 0 where
  pub sketch : Text
  pub artifact : Text

unfoldable pub of_verified : Verified → Except (Unit {0})
of_verified (checked (Result.ok a)) = ok tt
of_verified (checked (Result.err code)) = raised (tool code)
of_verified Verified.binascii_error = raised Raised.binascii_error

abbrev pub upload_of : Request → Text → Text → Upload
upload_of request sketch artifact = record {
  sketch_dir = sketch;
  fqbn = request.fqbn;
  serial = request.serial;
  artifact_path = artifact;
  artifact_digest = request.artifact_digest;
}

abbrev pub named_artifact : Request → Except (Unit {0})
named_artifact request =
    if is_nil request.artifact_path || is_nil request.artifact_digest
    then raised (tool artifact_invalid)
    else ok tt

-- The checks before anything is copied.
unfoldable pub check_request : World → Request → Except Checked
unfolding of_verified
check_request world request =
    resolve_sketch_dir world.paths request.sketch_dir request.roots >>> λ sketch.
    check_fqbn request.fqbn >>> λ fqbn. named_artifact request >>> λ _.
    resolve_artifact_dir world.paths request.artifact_path >>> λ artifact.
    of_verified
      (verify_token world.python request.token (upload_of request sketch artifact) request.now)
    >>> λ _. ok (record { sketch = sketch; artifact = artifact })

-- `_artifact_snapshot`, up to its `yield`.
abbrev pub copy_made : Option Snapshot → Except Snapshot
copy_made none = raised (tool artifact_invalid)
copy_made (some snapshot) = ok snapshot

unfoldable pub artifact_snapshot : World → Text → Except Snapshot
artifact_snapshot world expected = copy_made world.snapshot >>> λ snapshot.
    artifact_digest world.hashing snapshot.tree >>> λ digest.
    if text_eq digest expected then ok snapshot else raised (tool artifact_invalid)

-- The image, when the port is a directory.
unfoldable pub uf2_of : World → Request → Snapshot → Except (Option Text)
uf2_of world request snapshot =
    if world.paths.is_dir request.port
    then (uf2_from_snapshot snapshot >>> λ image. ok (some image))
    else ok none

-- `if before_write is not None: before_write()`
unfoldable pub before_write : Option (Except (Unit {0})) → M (Unit {0})
before_write none = pure tt
before_write (some answer) = emit asked >> lift answer

-- `_prepare_upload_log`
unfoldable pub prepare_upload_log : World → M (Unit {0})
prepare_upload_log world = emit log_started >> lift world.require

-- What touches the board: its end, and whether the volume was gone before the acknowledgement.
pub record Written : Type 0 where
  pub code : Returncode
  pub gone : Bool

abbrev pub upload_arguments : Request → Snapshot → List Text
upload_arguments request snapshot =
    codes "upload"
    ∷ codes "-p"
    ∷ request.port
    ∷ codes "--fqbn"
    ∷ request.fqbn
    ∷ codes "--input-dir"
    ∷ snapshot.path
    ∷ []

unfoldable pub write_board : World → Request → Snapshot → Option Text → M Written
write_board world request snapshot (some image) =
    emit (copied image request.port)
    >> (lift (copy_uf2 world.copy) >>= λ gone. pure (record { code = exit 0; gone = gone }))
write_board world request snapshot none =
    emit (ran (upload_arguments request snapshot))
    >> (lift (arduino_cli world.run) >>= λ code. pure (record { code = code; gone = false }))

pub record Uploaded : Type 0 where
  pub written : Written
  pub elf : Kept

unfoldable pub write_and_keep : World → Request → Snapshot → Option Text → M Uploaded
unfolding write_board
write_and_keep world request snapshot uf2 = write_board world request snapshot uf2 >>= λ written.
    keep_flashed_elf written.code snapshot world.keep >>= λ elf.
    pure (record { written = written; elf = elf })

-- `_note_upload_failed`, and the `raise` after it.
unfoldable pub raise_noted : Noted → Raised → Raised
raise_noted noted e = e
raise_noted note_os_error e = tool audit_log_failed
raise_noted note_other e = other

-- `except Exception` once `started_logged` is true.
unfoldable pub note_failure : World → Except Uploaded × List Event → Except Uploaded × List Event
unfolding raise_noted
note_failure world (ok uploaded, done) = (ok uploaded, done)
note_failure world (raised e, done) =
    (raised (raise_noted world.closing e), done ++ log_finished (failed e) ∷ [])

unfoldable pub guarded_write : World → Request → Snapshot → Option Text → M Uploaded
unfolding note_failure write_and_keep
guarded_write world request snapshot uf2 done =
    note_failure world (write_and_keep world request snapshot uf2 done)

abbrev pub close_answer : Noted → Except (Unit {0})
close_answer noted = ok tt
close_answer note_os_error = raised (tool audit_log_failed)
close_answer note_other = raised other

-- The record of the end, after the `with` block.
unfoldable pub close_log : World → Returncode → M (Unit {0})
close_log world code = emit (log_finished (returned code)) >> lift (close_answer world.closing)

-- What `upload_sketch` returns: `refused` is `"ok": False`.
pub data Reply : Type 0 where
  refused : Returncode → Reply
  success : (elf : Kept) → (gone : Bool) → Reply

unfoldable pub reply : Uploaded → Reply
reply uploaded = elim uploaded.written.code [
  | exit n ↦ if n == 0 then success uploaded.elf uploaded.written.gone else refused (exit n)
  | killed n ↦ refused (killed n)
]

unfoldable pub upload_sketch : World → Request → M Reply
unfolding check_request artifact_snapshot uf2_of before_write prepare_upload_log guarded_write
    close_log reply
upload_sketch world request = do
  checks ← lift (check_request world request)
  snapshot ← lift (artifact_snapshot world request.artifact_digest)
  uf2 ← lift (uf2_of world request snapshot)
  before_write world.asks
  prepare_upload_log world
  uploaded ← guarded_write world request snapshot uf2
  close_log world uploaded.written.code
  pure (reply uploaded)
