-- ===== src/Serial/Read.antt =====
-- `read`, `_read` and `_take` of mcp/omarchy_hardware/serial_session.py.
pub mod Promises
use omarchy_hardware.Common.{
  ℕ, zero, suc, ◌+◌, min, max, leb, Bool, true, false, Option, none, some, List, [], ◌∷◌, length,
  take, drop, if◌then◌else◌,
}
use omarchy_hardware.Common.Text.{starts_with}
use omarchy_hardware.Errors.{ErrorCode, Result, ok, err}
use omarchy_hardware.Serial.{Session, Port, drain, require_open, buffer_limit}

abbrev pub max_wait_ms : ℕ
max_wait_ms = 10000

-- What a call that waits comes to: `waiting` when the moments it was given are over first.
pub data Answer {ℓ} (A : Type ℓ) : Type ℓ where
  done : A → Answer A
  raised : ErrorCode → Answer A
  waiting : Answer A

-- A reading of the clock, in milliseconds, and the turns of the thread in the wait that follows it.
pub record Moment : Type 0 where
  pub now : ℕ
  pub ports : List Port

pub record Taken : Type 0 where
  pub bytes : List ℕ
  pub timed_out : Bool
  pub bytes_remaining : ℕ
  pub bytes_dropped : ℕ

-- `_take`
unfoldable pub take_bytes : ℕ → Bool → Session → Answer Taken × Session
take_bytes count timed_out s =
    let left = drop count s.buffer in
    (
      done (record {
        bytes = take count s.buffer;
        timed_out = timed_out;
        bytes_remaining = length left;
        bytes_dropped = s.dropped;
      }),
      record s { buffer = left },
    )

-- `bytes.find`
unfoldable pub find : List ℕ → List ℕ → Option ℕ
find needle [] = if starts_with [] needle then some 0 else none
find needle (b ∷ bs) =
    let rest = find needle bs in
    if starts_with (b ∷ bs) needle
    then some 0
    else elim rest [ none ↦ none | some i ↦ some (suc i) ]

-- How many bytes can be handed over at once: up to the terminator, or what there is.
unfoldable pub available : Option (List ℕ) → ℕ → List ℕ → Option ℕ
available none max_bytes [] = none
available none max_bytes (b ∷ bs) = some (min (length (b ∷ bs)) max_bytes)
available (some terminator) max_bytes buffer = elim (find terminator buffer) [
  | none ↦ none
  | some i ↦ some (min (i + length terminator) max_bytes)
]

unfoldable pub serve : Option ℕ → Session → Answer Taken × Session → Answer Taken × Session
serve none s wait = wait
serve (some count) s wait = take_bytes count false s

unfoldable pub when_open :
    {A : Type 0} → Result (Unit {0}) → Session → Answer A × Session → Answer A × Session
when_open (err e) s next = (raised e, s)
when_open (ok x) s next = next

-- A round of `_read`, with what it does after a wait.
unfoldable pub read_round :
    Option (List ℕ) → ℕ → Session → Answer Taken × Session → Answer Taken × Session
unfolding serve when_open
read_round terminator max_bytes s wait =
    when_open (require_open s) s (serve (available terminator max_bytes s.buffer) s wait)

unfoldable pub read_loop : Option (List ℕ) → ℕ → ℕ → List Moment → Session → Answer Taken × Session
read_loop terminator max_bytes deadline [] s = read_round terminator max_bytes s (waiting, s)
read_loop terminator max_bytes deadline (m ∷ ms) s =
    let rest = read_loop terminator max_bytes deadline ms (drain m.ports s) in
    read_round terminator max_bytes s
      (if leb deadline m.now then take_bytes (min (length s.buffer) max_bytes) true s else rest)

-- `until.encode() if until else None`, of the encoded text.
unfoldable pub terminator_of : List ℕ → Option (List ℕ)
terminator_of [] = none
terminator_of (b ∷ bs) = some (b ∷ bs)

-- `acquired` is whether the wait for a query in progress ended in time.
unfoldable pub read : ℕ → Bool → ℕ → ℕ → List ℕ → List Moment → Session → Answer Taken × Session
unfolding when_open
read start acquired max_bytes wait_ms until moments s =
    let deadline = start + min wait_ms max_wait_ms in
    if acquired
    then read_loop (terminator_of until) (max 1 (min max_bytes buffer_limit)) deadline moments s
    else when_open (require_open s) s (take_bytes 0 true s)
