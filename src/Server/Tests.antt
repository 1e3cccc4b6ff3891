-- ===== src/Server/Tests.antt =====
-- Calls of the tools on one port, and the theorems about them.
use omarchy_hardware.Common.{
  ℕ, ◌*◌, ◌≤◌, ◌≡◌, refl, length, true, false, none, some, List, [], ◌∷◌, ◌++◌, arith,
}
use omarchy_hardware.Common.Text.{Text, codes, text_eq}
use omarchy_hardware.Common.Dict.{lookup, insert}
use omarchy_hardware.Settings.Load.{default_config}
use omarchy_hardware.Policy.Budget.{
  ticks_per_second, minute_budget, events_of, recent, total, charge,
}
use omarchy_hardware.Policy.Budget.Window.{spent_at}
use omarchy_hardware.Serial.Manager.{get}
use omarchy_hardware.Bridge.Registry.{by_port}
use omarchy_hardware.Gpio.Remote.{written, os_error, ok}
use omarchy_hardware.Server.{
  Python, started, handed, World, Moment, require_unbridged, is_recognised,
  require_serial_write_target, decode, Request, payload_of, check_write, charge_write, note_outcome,
  audited_end, audited, write_out, serial_write, writes, Call, after_tool, run_calls,
}
use omarchy_hardware.Server.Spent.{handed_to}
use omarchy_hardware.Server.Minute.{run_calls-le-budget}
use omarchy_hardware.Server.Announced.{IsLawful, run_calls-IsLawful}

abbrev python : Python
python = record { encode = λ text. some text; fromhex = λ text. none }

abbrev uno : Text
uno = codes "/dev/ttyACM0"

abbrev moment : Moment
moment = record {
  now = 5;
  config = some default_config;
  config_again = some default_config;
  boards = record { port = uno; is_known = true } ∷ [];
  opening = written;
  closing = os_error;
}

abbrev request : Request
request = record {
  session_id = codes "a1";
  text = codes "led";
  is_hex = false;
  append_newline = true;
  confirm = true;
}

abbrev call : Request → Call ℕ ℕ
call r = record {
  moment = moment;
  sessions =
      (uno, record { session_id = codes "a1"; port = uno; baud = 9600; is_open = true }) ∷ [];
  bridges = [];
  tool = writes (λ payload. ok (length payload)) r;
}

abbrev world : World
world = record { sessions = []; bridges = []; budget = none; log = [] }

abbrev calls : List (Call ℕ ℕ)
calls = call request ∷ call (record request { confirm = false }) ∷ []

logged :
    (run_calls python calls world).log ≡ handed 5 uno (codes "led" ++ 10 ∷ []) ∷ started uno 4 ∷ []
unfolding run_calls after_tool serial_write check_write require_unbridged
    require_serial_write_target is_recognised payload_of decode write_out charge_write charge
    minute_budget events_of recent total audited note_outcome audited_end get by_port lookup insert
    text_eq
logged = refl

run_calls-le-budget_example :
    spent_at (60 * ticks_per_second) 7 (handed_to uno (run_calls python calls world).log)
    ≤ default_config.write_budget_bytes_per_min
run_calls-le-budget_example =
    run_calls-le-budget python default_config.write_budget_bytes_per_min uno calls world 7 refl refl
      (omega arith, refl, refl, (omega arith, refl, refl, tt))

run_calls-IsLawful_example : IsLawful python calls (run_calls python calls world).log
run_calls-IsLawful_example = run_calls-IsLawful python calls world refl
