-- ===== src/Serial/Query.antt =====
-- `clear`, `write`, `query`, `status` and `close` of mcp/omarchy_hardware/serial_session.py. The lock
-- of queries lets one caller in at a time, so that a call of these is what happens from its first
-- step to its last, with turns of the draining thread in between.
pub mod Turns
pub mod Cleared
pub mod Fresh
pub mod Ends
mod Tests
use omarchy_hardware.Common.{
  ℕ, ◌+◌, ◌==◌, leb, Bool, true, false, not, ◌&&◌, Option, none, some, List, [], ◌∷◌, ◌++◌, length,
  if◌then◌else◌,
}
use omarchy_hardware.Common.Text.{Text, codes}
use omarchy_hardware.Errors.{Result, ok, err, serial_error}
use omarchy_hardware.Serial.{Session, Reply, got, broke, Port, handle_read, drain, require_open}
use omarchy_hardware.Serial.Read.{Answer, done, raised, waiting, Moment, Taken, when_open, read}

-- The time that a clear waits for the thread, in milliseconds.
abbrev pub clear_wait_ms : ℕ
clear_wait_ms = 2000

abbrev pub then_with :
    {A B : Type 0} → Answer A × Session → (A → Session → Answer B × Session) → Answer B × Session
then_with (done a, s) f = f a s
then_with (raised e, s) f = (raised e, s)
then_with (waiting, s) f = (waiting, s)

-- A round of the wait in `clear`, with what it does after.
unfoldable pub clear_round : Session → Answer ℕ × Session → Answer ℕ × Session
unfolding when_open
clear_round s wait =
    if s.clear_completed == s.clear_requested
    then (done s.clear_discarded, s)
    else when_open (require_open s) s wait

unfoldable pub clear_loop : ℕ → List Moment → Session → Answer ℕ × Session
clear_loop deadline [] s = clear_round s (waiting, s)
clear_loop deadline (m ∷ ms) s =
    let rest = clear_loop deadline ms (drain m.ports s) in
    clear_round s
      (if leb deadline m.now then (raised serial_error, record s { failed = true }) else rest)

-- `clear`
unfoldable pub clear : ℕ → List Moment → Session → Answer ℕ × Session
unfolding when_open clear_loop
clear start moments s = when_open (require_open s) s (
    clear_loop (start + clear_wait_ms) moments
      (record s { clear_requested = s.clear_requested + 1 }))

-- What the port makes of a payload: how many bytes it took, or nothing.
unfoldable pub written : Reply (Option ℕ) → Answer ℕ
written (got none) = done 0
written (got (some n)) = done n
written (broke message) = raised serial_error

-- `write`
unfoldable pub write : (List ℕ → Reply (Option ℕ)) → List ℕ → Session → Answer ℕ × Session
unfolding when_open written
write port payload s = when_open (require_open s) s (written (port payload), s)

-- What the environment does in a query: the readings of the clock and the turns of the thread, and
-- what the port makes of the payload.
pub record Environment : Type 0 where
  pub clear_start : ℕ
  pub clear_moments : List Moment
  pub before_write : List Port
  pub write_to_port : List ℕ → Reply (Option ℕ)
  pub before_read : List Port
  pub read_start : ℕ
  pub read_moments : List Moment

pub record Queried : Type 0 where
  pub bytes_written : ℕ
  pub taken : Taken
  pub bytes_discarded : ℕ

abbrev pub query_bytes : ℕ
query_bytes = 4096

-- `query`
unfoldable pub query : Environment → List ℕ → ℕ → List ℕ → Session → Answer Queried × Session
unfolding clear write
query env payload wait_ms until s =
    then_with (clear env.clear_start env.clear_moments s) λ discarded s1.
      then_with (write env.write_to_port payload (drain env.before_write s1)) λ sent s2.
        then_with
          (read env.read_start true query_bytes wait_ms until env.read_moments
            (drain env.before_read s2))
          λ taken s3.
            (done (record { bytes_written = sent; taken = taken; bytes_discarded = discarded }), s3)

-- What `status` tells, beside what does not change.
pub record Status : Type 0 where
  pub is_open : Bool
  pub bytes_buffered : ℕ
  pub bytes_dropped : ℕ
  pub last_rx_at : Option ℕ
  pub errors : List Text

-- `status`, by whether the port is open.
unfoldable pub status : Bool → Session → Status
status port_open s = record {
  is_open = not s.closing && (not s.failed && port_open);
  bytes_buffered = length s.buffer;
  bytes_dropped = s.dropped;
  last_rx_at = s.last_rx;
  errors = s.errors;
}

-- The turn that the thread is in when a session closes, if it has read the port by then.
unfoldable pub last_turn : Option Port → Session → Session
unfolding handle_read
last_turn none s = record s { draining = false }
last_turn (some p) s =
    let after = handle_read p p.read s in
    if s.draining then record after { draining = false } else s

unfoldable pub closed_port : Reply (Unit {0}) → Session → Session
closed_port (got x) s = s
closed_port (broke message) s = record s {
  errors = s.errors ++ (codes "close failed: " ++ message) ∷ [];
}

-- `close`, when the thread ends before `join` gives up.
unfoldable pub close : Option Port → Reply (Unit {0}) → Session → Session
unfolding last_turn closed_port
close turn closing s = closed_port closing (last_turn turn (record s { closing = true }))
