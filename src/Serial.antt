-- ===== src/Serial.antt =====
-- `SerialSession` of mcp/omarchy_hardware/serial_session.py: its state and the thread that drains the
-- port. A turn of the thread, and what a call does under the lock, is one step.
mod Tests
pub mod Read
pub mod Expect
pub mod Query
pub mod Drained
pub mod Manager
use omarchy_hardware.Common.{
  ℕ, ◌+◌, ◌-◌, ◌==◌, ltb, Bool, true, false, not, ◌||◌, Option, none, some, List, [], ◌∷◌, ◌++◌,
  length, drop, if◌then◌else◌,
}
use omarchy_hardware.Common.Text.{Text}
use omarchy_hardware.Errors.{Result, ok, err, serial_error}

abbrev pub buffer_limit : ℕ
buffer_limit = 262144

-- The fields that change. `draining` is whether the thread is alive.
pub record Session : Type 0 where
  pub buffer : List ℕ
  pub dropped : ℕ
  pub last_rx : Option ℕ
  pub errors : List Text
  pub draining : Bool
  pub closing : Bool
  pub failed : Bool
  pub clear_requested : ℕ
  pub clear_completed : ℕ
  pub clear_discarded : ℕ

-- A session whose port was opened, with its thread started.
abbrev pub opened : Session
opened = record {
  buffer = [];
  dropped = 0;
  last_rx = none;
  errors = [];
  draining = true;
  closing = false;
  failed = false;
  clear_requested = 0;
  clear_completed = 0;
  clear_discarded = 0;
}

-- A call of pyserial: its value, or the text of what it raised.
pub data Reply {ℓ} (A : Type ℓ) : Type ℓ where
  got : A → Reply A
  broke : Text → Reply A

-- What the port answers in a turn of the thread, and the clock.
pub record Port : Type 0 where
  pub read : Reply (List ℕ)
  pub in_waiting : Reply ℕ
  pub reset_input_buffer : Reply (Unit {0})
  pub time : ℕ

-- The handler of the exceptions of a turn: the thread ends.
unfoldable pub fail : Text → Session → Session
fail message s = record s { errors = s.errors ++ message ∷ []; failed = true; draining = false }

-- A turn in which a clear is asked for, by what `in_waiting` and `reset_input_buffer` come to.
unfoldable pub discard : Reply ℕ → Reply (Unit {0}) → List ℕ → Session → Session
discard (broke message) reset chunk s = fail message s
discard (got waiting) (broke message) chunk s =
    fail message (record s { clear_discarded = length s.buffer + length chunk + waiting })
discard (got waiting) (got x) chunk s = record s {
  clear_discarded = length s.buffer + length chunk + waiting;
  buffer = [];
  clear_completed = s.clear_requested;
}

unfoldable pub store : ℕ → List ℕ → Session → Session
store time chunk s =
    let joined = s.buffer ++ chunk in
    let excess = length joined - buffer_limit in
    if ltb buffer_limit (length joined)
    then record s { buffer = drop excess joined; last_rx = some time; dropped = s.dropped + excess }
    else record s { buffer = joined; last_rx = some time }

unfoldable pub receive : Port → List ℕ → Session → Session
receive p [] s = s
receive p (b ∷ bs) s = store p.time (b ∷ bs) s

-- A turn of `_drain`, from what `read` comes to.
unfoldable pub handle_read : Port → Reply (List ℕ) → Session → Session
handle_read p (broke message) s = fail message s
handle_read p (got chunk) s =
    if not (s.clear_requested == s.clear_completed)
    then discard p.in_waiting p.reset_input_buffer chunk s
    else receive p chunk s

unfoldable pub drain_turn : Port → Session → Session
drain_turn p s = if s.closing then record s { draining = false } else handle_read p p.read s

unfoldable pub drain : List Port → Session → Session
drain [] s = s
drain (p ∷ ps) s = let rest = drain ps (drain_turn p s) in if s.draining then rest else s

unfoldable pub require_open : Session → Result (Unit {0})
require_open s = if s.failed || s.closing then err serial_error else ok tt
