-- ===== src/Server.antt =====
-- The serial tools of mcp/omarchy_hardware/server.py that write to a device: serial_write,
-- serial_query and mpy_exec, with the checks before the write, the budget and the audit log.
pub mod Spent
pub mod Minute
pub mod Allowed
pub mod Logged
pub mod Announced
mod Tests
use omarchy_hardware.Common.{
  ℕ, ◌==◌, leb, length, keep, Bool, true, false, not, ◌&&◌, ◌||◌, Option, none, some, List, [], ◌∷◌,
  ◌++◌, if◌then◌else◌,
}
use omarchy_hardware.Common.Text.{Text, text_eq}
use omarchy_hardware.Common.Dict.{Dict}
use omarchy_hardware.Config.{Config}
use omarchy_hardware.Errors.{
  ErrorCode, Result, unconfirmed, config_error, port_busy, unknown_adapter, serial_error,
  write_too_large, audit_log_failed,
}
use omarchy_hardware.Policy.Budget.{RollingBudget, charge}
use omarchy_hardware.Serial.Manager.{Handle, get}
use omarchy_hardware.Bridge.Registry.{Entry, by_port}
use omarchy_hardware.Gpio.Remote.{
  Recorded, written, os_error, unreadable, Outcome, ok, err, unexpected, of_result,
}
use omarchy_hardware.Gpio.Tools.{keep_budget}

-- The UTF-8 codec, and `bytes.fromhex`.
pub record Python : Type 0 where
  pub encode : Text → Option (List ℕ)
  pub fromhex : Text → Option (List ℕ)

-- A board that is attached: its port, and whether its type is known.
pub record Board : Type 0 where
  pub port : Text
  pub is_known : Bool

-- The record before an operation, the operation by its payload, and the record after it.
pub data Event : Type 0 where
  started : (port : Text) (size : ℕ) → Event
  handed : (time : ℕ) (port : Text) (payload : List ℕ) → Event
  ended : (port : Text) → Event

-- What the server keeps, and what has happened, the latest first.
pub record World : Type 0 where
  pub sessions : Dict Handle
  pub bridges : Dict Entry
  pub budget : Option RollingBudget
  pub log : List Event

-- What the environment brings to a call: the clock, what loading the configuration gives (`none`
-- when it fails) the first time and, in a call that loads it again, the second, the boards that are
-- attached, and how the two records of the audit log end.
pub record Moment : Type 0 where
  pub now : ℕ
  pub config : Option Config
  pub config_again : Option Config
  pub boards : List Board
  pub opening : Recorded
  pub closing : Recorded

infixl 5 ◌>>=◌ ◌>>◌
abbrev pub ◌>>=◌ : {A B : Type 0} → Outcome A → (A → Outcome B) → Outcome B
ok a >>= f = f a
err e >>= f = err e
unexpected >>= f = unexpected

abbrev pub ◌>>◌ : {B : Type 0} → Outcome (Unit {0}) → Outcome B → Outcome B
m >> k = m >>= λ _. k

abbrev pub require : Bool → ErrorCode → Outcome (Unit {0})
require true e = ok tt
require false e = err e

-- `_config`
abbrev pub config_of : Option Config → Outcome Config
config_of none = err config_error
config_of (some config) = ok config

abbrev pub unless_running : Option Entry → Outcome (Unit {0})
unless_running none = ok tt
unless_running (some running) = err port_busy

-- `_require_unbridged`
unfoldable pub require_unbridged : Text → Dict Entry → Outcome (Unit {0})
require_unbridged port bridges = unless_running (by_port port bridges)

-- The first board on a port is there and known.
unfoldable pub is_recognised : Text → List Board → Bool
is_recognised port [] = false
is_recognised port (b ∷ boards) =
    let rest = is_recognised port boards in if text_eq b.port port then b.is_known else rest

-- `_require_serial_write_target`
unfoldable pub require_serial_write_target : Text → List Board → Config → Outcome (Unit {0})
unfolding is_recognised
require_serial_write_target port boards config =
    require (is_recognised port boards || config.allow_unknown_serial) unknown_adapter

abbrev pub encoded : Option (List ℕ) → Outcome (List ℕ)
encoded none = unexpected
encoded (some bytes) = ok bytes

abbrev pub from_hex : Option (List ℕ) → Outcome (List ℕ)
from_hex none = err serial_error
from_hex (some bytes) = ok bytes

-- `_decode`, by whether the encoding is hex.
unfoldable pub decode : Python → Bool → Text → Outcome (List ℕ)
decode py true text = from_hex (py.fromhex (keep (λ c. not (c == b' ')) text))
decode py false text = encoded (py.encode text)

-- The arguments of serial_write and serial_query that the write depends on.
pub record Request : Type 0 where
  pub session_id : Text
  pub text : Text
  pub is_hex : Bool
  pub append_newline : Bool
  pub confirm : Bool

unfoldable pub payload_of : Python → Request → Outcome (List ℕ)
unfolding decode
payload_of py r = do
  payload ← decode py r.is_hex r.text
  ok (if r.append_newline && not r.is_hex then payload ++ 10 ∷ [] else payload)

-- What is written, where, and with which configuration.
pub record Writing : Type 0 where
  pub config : Config
  pub port : Text
  pub payload : List ℕ

-- What serial_write and serial_query do before they charge the budget.
unfoldable pub check_write : Python → Moment → World → Request → Outcome Writing
unfolding require_unbridged require_serial_write_target payload_of
check_write py m w r = do
  require r.confirm unconfirmed
  config ← config_of m.config
  session ← of_result (get r.session_id w.sessions)
  require_unbridged session.port w.bridges
  require_serial_write_target session.port m.boards config
  payload ← payload_of py r
  require (leb (length payload) config.max_write_bytes) write_too_large
  ok (record { config = config; port = session.port; payload = payload })

-- What mpy_exec does before `_micropython` charges the budget. Each of the two loads the
-- configuration.
unfoldable pub check_exec :
    Python → Moment → World → (session_id code : Text) → Bool → Outcome Writing
unfolding require_unbridged require_serial_write_target
check_exec py m w session_id code confirm = do
  require confirm unconfirmed
  config ← config_of m.config
  payload ← encoded (py.encode code)
  require (leb (length payload) config.max_write_bytes) write_too_large
  again ← config_of m.config_again
  session ← of_result (get session_id w.sessions)
  require_serial_write_target session.port m.boards again
  require_unbridged session.port w.bridges
  ok (record { config = again; port = session.port; payload = payload })

abbrev pub then_do :
    {A B : Type 0} → (A → World → Outcome B × World) → Outcome A × World → Outcome B × World
then_do f (ok a, w) = f a w
then_do f (err e, w) = (err e, w)
then_do f (unexpected, w) = (unexpected, w)

abbrev pub put_budget : World → Result (Unit {0}) × RollingBudget → Outcome (Unit {0}) × World
put_budget w (r, budget) = (of_result r, record w { budget = some budget })

-- `_write_budget(config).charge(port, len(payload))`
unfoldable pub charge_write : ℕ → Writing → World → Outcome (Unit {0}) × World
charge_write now x w = put_budget w (
    charge (keep_budget w.budget x.config.write_budget_bytes_per_min) now x.port (length x.payload))

abbrev pub happened : Event → World → World
happened event w = record w { log = event ∷ w.log }

-- `_note_outcome`: whether there is a warning.
unfoldable pub note_outcome : Text → Recorded → World → Outcome Bool × World
note_outcome port written w = (ok false, happened (ended port) w)
note_outcome port os_error w = (ok true, w)
note_outcome port unreadable w = (unexpected, w)

-- The rest of `_audited`, after the operation.
unfoldable pub audited_end :
    {A : Type 0} → Outcome A → Outcome Bool × World → Outcome (A × Bool) × World
audited_end (ok a) noted = then_do (λ warning w. (ok (a, warning), w)) noted
audited_end (err e) noted = then_do (λ _ w. (err e, w)) noted
audited_end unexpected noted = then_do (λ _ w. (unexpected, w)) noted

-- `_audited`, by what the operation makes of the payload.
unfoldable pub audited :
    {A : Type 0}
    → Moment
    → Writing
    → (List ℕ → Outcome A)
    → Recorded
    → World
    → Outcome (A × Bool) × World
unfolding note_outcome audited_end
audited m x operation written w = audited_end (operation x.payload) (
    note_outcome x.port m.closing
      (happened (handed m.now x.port x.payload) (happened (started x.port (length x.payload)) w)))
audited m x operation os_error w = (err audit_log_failed, w)
audited m x operation unreadable w = (unexpected, w)

-- The charge and the write, after the checks.
unfoldable pub write_out :
    {A : Type 0}
    → Moment
    → (List ℕ → Outcome A)
    → Outcome Writing
    → World
    → Outcome (A × Bool) × World
unfolding charge_write audited
write_out m operation (ok x) w =
    then_do (λ _. audited m x operation m.opening) (charge_write m.now x w)
write_out m operation (err e) w = (err e, w)
write_out m operation unexpected w = (unexpected, w)

-- `serial_write`, with the number of bytes that `session.write` returns.
unfoldable pub serial_write :
    Python → Moment → (List ℕ → Outcome ℕ) → Request → World → Outcome (ℕ × Bool) × World
unfolding check_write write_out
serial_write py m operation r w = write_out m operation (check_write py m w r) w

-- `serial_query`, with the reply of `session.query`.
unfoldable pub serial_query :
    {A : Type 0}
    → Python
    → Moment
    → (List ℕ → Outcome A)
    → Request
    → World
    → Outcome (A × Bool) × World
unfolding check_write write_out
serial_query py m operation r w = write_out m operation (check_write py m w r) w

-- `mpy_exec`, with the result of `micropython.run`.
unfoldable pub mpy_exec :
    {A : Type 0}
    → Python
    → Moment
    → (List ℕ → Outcome A)
    → (session_id code : Text) → Bool
    → World
    → Outcome (A × Bool) × World
unfolding check_exec write_out
mpy_exec py m operation session_id code confirm w =
    write_out m operation (check_exec py m w session_id code confirm) w

-- A call of one of the tools, by what the device makes of the payload.
pub data Tool (A B : Type 0) : Type 0 where
  writes : (List ℕ → Outcome ℕ) → Request → Tool A B
  queries : (List ℕ → Outcome A) → Request → Tool A B
  executes : (List ℕ → Outcome B) → (session_id code : Text) → (confirm : Bool) → Tool A B

-- A call, with the sessions and bridges that there are when it comes.
pub record Call (A B : Type 0) : Type 0 where
  pub moment : Moment
  pub sessions : Dict Handle
  pub bridges : Dict Entry
  pub tool : Tool A B

unfoldable pub after_tool : {A B : Type 0} → Python → Moment → Tool A B → World → World
unfolding serial_write serial_query mpy_exec
after_tool py m (writes operation r) w = (serial_write py m operation r w).1
after_tool py m (queries operation r) w = (serial_query py m operation r w).1
after_tool py m (executes operation session_id code confirm) w =
    (mpy_exec py m operation session_id code confirm w).1

-- Calls in turn.
unfoldable pub run_calls : {A B : Type 0} → Python → List (Call A B) → World → World
unfolding after_tool
run_calls py [] w = w
run_calls py (c ∷ calls) w =
    run_calls py calls
      (after_tool py c.moment c.tool (record w { sessions = c.sessions; bridges = c.bridges }))
