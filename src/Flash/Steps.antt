-- ===== src/Flash/Steps.antt =====
-- What mcp/omarchy_hardware/flash.py does to the world, as a list of events, and what it raises.
use omarchy_hardware.Common.{ℕ, List, [], ◌∷◌, ◌++◌}
use omarchy_hardware.Common.Text.{Text}
use omarchy_hardware.Errors.{ErrorCode}

-- A `ToolError` by its code, an `OSError` that is passed on, `binascii.Error`, and any other
-- exception of the class `Exception`. What is no `Exception`, as `KeyboardInterrupt`, is left out.
pub data Raised : Type 0 where
  tool : ErrorCode → Raised
  os_error binascii_error other : Raised

pub data Except (A : Type 0) : Type 0 where
  ok : A → Except A
  raised : Raised → Except A

-- The status of a program that has ended: its exit code, or the signal that ended it.
pub data Returncode : Type 0 where
  exit killed : ℕ → Returncode

pub data Finish : Type 0 where
  returned : Returncode → Finish
  failed : Raised → Finish

-- The call of `before_write`, the two records of the audit log, the copy of an image onto a volume,
-- a run of arduino-cli by its arguments, the call of `keep_elf`.
pub data Event : Type 0 where
  asked log_started : Event
  log_finished : Finish → Event
  copied : (image volume : Text) → Event
  ran : List Text → Event
  offered : Text → Event

abbrev pub M : Type 0 → Type 0
M A = List Event → Except A × List Event

abbrev pub then_do : {A B : Type 0} → (A → M B) → Except A × List Event → Except B × List Event
then_do f (ok a, done) = f a done
then_do f (raised e, done) = (raised e, done)

infixl 5 ◌>>=◌ ◌>>◌
abbrev pub ◌>>=◌ : {A B : Type 0} → M A → (A → M B) → M B
◌>>=◌ m f done = then_do f (m done)

abbrev pub ◌>>◌ : {B : Type 0} → M (Unit {0}) → M B → M B
m >> k = m >>= λ _. k

-- A call that does nothing to the world.
abbrev pub lift : {A : Type 0} → Except A → M A
lift r done = (r, done)

abbrev pub pure : {A : Type 0} → A → M A
pure a = lift (ok a)

abbrev pub emit : Event → M (Unit {0})
emit event done = (ok tt, done ++ event ∷ [])

infixl 5 ◌>>>◌
-- Calls without effect in a row.
abbrev pub ◌>>>◌ : {A B : Type 0} → Except A → (A → Except B) → Except B
ok a >>> f = f a
raised e >>> f = raised e
